-- ===== src/PeerMap/Register.antt =====
-- On `update_pk` of src/peer.rs and its statements.
use nat_server.Common.{
  ℕ, suc, List, ◌∷◌, ◌≢◌, ◌≡◌, true, false, Option, none, some, [], arith, list_has_eq, list_eq_iff,
}
use nat_server.Common.Int.{ℤ}
use nat_server.Common.Map.{lookup, insert, lookup-insert_self}
use nat_server.Common.Text.{Text, Bytes}
use nat_server.Net.{SocketAddr}
use nat_server.Message.{server_error, registered}
use nat_server.Database.{PeerRow, select_peer, insert_row, update_rows}
use nat_server.Database.Statements.{statement, insert_peer_with_user, update_pk_with_user}
use nat_server.State.{Env, Server, Peer, after, result, ok}
use nat_server.PeerMap.{
  write_peer, registered_peer, trimmed, require_jwt, bind_user, store_peer, mark_online, update_pk,
}
use nat_server.PeerMap.Laws.{write_peer_known}

-- Where a token is required and none is given, nothing is registered.
pub update_pk_unbound :
    (env : Env) (id : Text) (addr : SocketAddr) (uuid pk : Bytes) (ip : Text) (token : Option Text)
    (s : Server)
    → require_jwt env ≡ true
    → trimmed token ≡ none
    → update_pk env id addr uuid pk ip token s ≡ (ok server_error, s)
unfolding update_pk bind_user
update_pk_unbound env id addr uuid pk ip token s required blank = ground arith

select-insert_row : (r : PeerRow) (rs : List PeerRow) → select_peer r.id (insert_row r rs) ≡ some r
unfolding select_peer insert_row
select-insert_row r rs = ground (arith, list_eq_iff r.id r.id)

-- The row that a registration stores.
abbrev pub new_row : Env → ℕ → Text → Bytes → Bytes → Peer → PeerRow
new_row env n id uuid pk p = record {
  guid = env.new_guid n;
  id = id;
  uuid = uuid;
  pk = pk;
  info = env.info_to_json p.info;
  user_id = p.user_id;
  device_id = p.device_id;
}

store_peer_new :
    (env : Env) (id : Text) (uuid pk : Bytes) (s : Server) (p : Peer)
    → lookup id s.peers ≡ some p
    → p.guid ≡ []
    → env.db_ok s.calls ≡ true
    → store_peer env id uuid pk s ≡ (
      ok tt,
      record s {
        calls = suc s.calls;
        db = record (s.db) { peer = insert_row (new_row env s.calls id uuid pk p) s.db.peer };
        peers = insert id (record p { guid = env.new_guid s.calls }) s.peers;
      },
    )
unfolding store_peer insert_peer_with_user statement write_peer
store_peer_new env id uuid pk s p found new db = ground arith

-- `update_pk` of a peer in memory without guid, where no token is required and none is given and
-- the statement succeeds: the answer is OK, and the peer in memory and its row get the same guid,
-- uuid, key and address.
pub update_pk_new :
    (env : Env) (id : Text) (addr : SocketAddr) (uuid pk : Bytes) (ip : Text) (s : Server)
    (p : Peer)
    → lookup id s.peers ≡ some p
    → p.guid ≡ []
    → require_jwt env ≡ false
    → env.db_ok s.calls ≡ true
    → let s' = after (update_pk env id addr uuid pk ip none) s in
      (result (update_pk env id addr uuid pk ip none) s ≡ ok registered)
      × (lookup id s'.peers
          ≡ some (record p {
            socket_addr = addr;
            uuid = uuid;
            pk = pk;
            last_reg_time = s.now;
            info = record { ip = ip };
            guid = env.new_guid s.calls;
          }))
      × (select_peer id s'.db.peer
          ≡ some (record {
            guid = env.new_guid s.calls;
            id = id;
            uuid = uuid;
            pk = pk;
            info = env.info_to_json (record { ip = ip });
            user_id = p.user_id;
            device_id = p.device_id;
          }))
unfolding update_pk bind_user mark_online
update_pk_new env id addr uuid pk ip s p found new open_to_all db =
    let p' : Peer = registered_peer addr uuid pk ip s.now p in
    let s' : Server = record s { peers = insert id p' s.peers } in
    let row = new_row env s.calls id uuid pk p' in
    ground (
      arith,
      write_peer_known id (registered_peer addr uuid pk ip s.now) s p found,
      lookup-insert_self id p' s.peers,
      store_peer_new env id uuid pk s' p' (lookup-insert_self id p' s.peers) new db,
      lookup-insert_self id (record p' { guid = env.new_guid s.calls }) s'.peers,
      select-insert_row row s.db.peer,
    )

store_peer_known :
    (env : Env) (id : Text) (uuid pk : Bytes) (s : Server) (p : Peer)
    → lookup id s.peers ≡ some p
    → p.guid ≢ []
    → env.db_ok s.calls ≡ true
    → store_peer env id uuid pk s ≡ (
      ok tt,
      record s {
        calls = suc s.calls;
        db = record (s.db) {
          peer = update_rows p.guid id pk (env.info_to_json p.info) p.user_id p.device_id s.db.peer;
        };
      },
    )
unfolding store_peer update_pk_with_user statement
store_peer_known env id uuid pk s p found old db = ground arith

-- An update reaches the row of a guid and an id.
select-update_rows :
    (guid : Bytes) (id : Text) (pk : Bytes) (info : Text) (user device : Option ℤ)
    (rs : List PeerRow) (r : PeerRow)
    → select_peer id rs ≡ some r
    → r.guid ≡ guid
    → select_peer id (update_rows guid id pk info user device rs)
      ≡ some (record r { pk = pk; info = info; user_id = user; device_id = device })
unfolding select_peer update_rows
select-update_rows guid id pk info user device [] r h g = cc
select-update_rows guid id pk info user device (x ∷ rs) r h g = ground (
  arith,
  list_eq_iff x.id id,
  list_eq_iff x.guid guid,
  select-update_rows guid id pk info user device rs r,
)

-- `update_pk` of a peer in memory whose guid is that of its row, where no token is required and
-- none is given and the statement succeeds: the answer is OK, the peer in memory gets the uuid,
-- the key, the address and the time, and its row gets the key, the address and the bound user and
-- device but keeps its uuid.
pub update_pk_known :
    (env : Env) (id : Text) (addr : SocketAddr) (uuid pk : Bytes) (ip : Text) (s : Server)
    (p : Peer) (r : PeerRow)
    → lookup id s.peers ≡ some p
    → p.guid ≢ []
    → select_peer id s.db.peer ≡ some r
    → r.guid ≡ p.guid
    → require_jwt env ≡ false
    → env.db_ok s.calls ≡ true
    → let s' = after (update_pk env id addr uuid pk ip none) s in
      (result (update_pk env id addr uuid pk ip none) s ≡ ok registered)
      × (lookup id s'.peers
          ≡ some (record p {
            socket_addr = addr;
            uuid = uuid;
            pk = pk;
            last_reg_time = s.now;
            info = record { ip = ip };
          }))
      × (select_peer id s'.db.peer
          ≡ some (record r {
            pk = pk;
            info = env.info_to_json (record { ip = ip });
            user_id = p.user_id;
            device_id = p.device_id;
          }))
unfolding update_pk bind_user mark_online
update_pk_known env id addr uuid pk ip s p r found old stored same open_to_all db =
    let p' : Peer = registered_peer addr uuid pk ip s.now p in
    let s' : Server = record s { peers = insert id p' s.peers } in
    ground (
      arith,
      write_peer_known id (registered_peer addr uuid pk ip s.now) s p found,
      lookup-insert_self id p' s.peers,
      store_peer_known env id uuid pk s' p' (lookup-insert_self id p' s.peers) old db,
      select-update_rows p.guid id pk (env.info_to_json (record { ip = ip })) p.user_id p.device_id
          s.db.peer r stored same,
    )
