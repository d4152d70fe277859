-- ===== src/PeerMap/Steps/Overtaken.antt =====
-- On `get` of src/peer.rs beside a registration by TCP in src/rendezvous_server.rs.
use nat_server.Common.{suc, list_has_eq, ◌≡◌, ◌≢◌, refl, true, false, Option, none, some, [], arith}
use nat_server.Common.Map.{lookup, insert, lookup-insert_self}
use nat_server.Common.Text.{Text}
use nat_server.Net.{SocketAddr, Protocol, ip_of}
use nat_server.Message
use nat_server.Database.{PeerRow, select_peer}
use nat_server.State.{Env, Server, PeerInfo, Sink, after, ok}
use nat_server.PeerMap.{get, get_or, require_jwt, peer_of_row, default_peer}
use nat_server.PeerMap.Laws.{get_or_known}
use nat_server.PeerMap.Reload.{db_get_peer_stored, get-reloaded, reloaded}
use nat_server.PeerMap.Steps.{fetch, put_row, get_in_steps}
use nat_server.Rendezvous.Register.{token_of}
use nat_server.Rendezvous.Tcp.{tcp_register_pk}
use nat_server.Rendezvous.Tcp.Takeover.{tcp_register_pk_takeover, tcp_register_pk_row}

-- With nothing in between, the steps are `get`.
pub get_in_steps-get : (env : Env) (id : Text) (s : Server) → get_in_steps env id s ≡ get env id s
unfolding get_in_steps get fetch put_row
get_in_steps-get env id s = ground arith

-- The state when a peer that was only in the table has come into memory.
abbrev loaded : Env → Text → PeerRow → Server → Server
loaded env id row s = record s {
  calls = suc s.calls;
  peers = insert id (reloaded env s row) s.peers;
}

tcp_register_pk-loaded :
    (env : Env) (rf : Message.RegisterPk) (sink : Option Sink) (addr : SocketAddr) (wire : Protocol)
    (s : Server) (row : PeerRow) (i : PeerInfo)
    → lookup rf.id s.peers ≡ none
    → select_peer rf.id s.db.peer ≡ some row
    → row.info ≡ env.info_to_json i
    → env.json_to_string (env.info_to_json i) ≡ none
    → env.json_to_info [] ≡ none
    → env.db_ok s.calls ≡ true
    → tcp_register_pk env rf sink addr wire s
      ≡ tcp_register_pk env rf sink addr wire (loaded env rf.id row s)
unfolding tcp_register_pk get_or
tcp_register_pk-loaded env rf sink addr wire s row i absent stored info no_string no_info db =
    let p = reloaded env s row in
    ground (
      arith,
      get-reloaded env rf.id s row i absent stored info no_string no_info db,
      get_or_known env rf.id (loaded env rf.id row s) p (lookup-insert_self rf.id p s.peers),
    )

fetch_stored :
    (env : Env) (id : Text) (s : Server) (row : PeerRow) (i : PeerInfo)
    → select_peer id s.db.peer ≡ some row
    → row.info ≡ env.info_to_json i
    → env.json_to_string (env.info_to_json i) ≡ none
    → env.db_ok s.calls ≡ true
    → fetch env id s ≡ (ok (some (record row { info = [] })), record s { calls = suc s.calls })
unfolding fetch
fetch_stored env id s row i stored info no_string db =
    ground (arith, db_get_peer_stored env id s row i stored info no_string db)

-- An insertion by `get` replaces what the map holds.
lookup-put_row :
    (env : Env) (id : Text) (s : Server) (row : PeerRow)
    → env.json_to_info [] ≡ none
    → lookup id (after (put_row env id (record row { info = [] })) s).peers
      ≡ some (reloaded env s row)
unfolding put_row peer_of_row reloaded default_peer
lookup-put_row env id s row no_info =
    ground (arith, lookup-insert_self id (reloaded env s row) s.peers)

-- A peer with a guid is only in the table; its column `info`, a JSON object, is no JSON string and
-- the empty text is no JSON; the next three statements succeed, no token is required and none is
-- given. Between the query of `get` for the peer and its insertion, the peer registers a key by TCP:
-- this puts the sender's key, uuid and address into memory, and the insertion then replaces them by
-- the key and the uuid of the row as it was before, without an address, while the row in the table
-- has the new key.
pub get_in_steps_overtaken :
    (env : Env) (rf : Message.RegisterPk) (sink : Option Sink) (addr : SocketAddr) (wire : Protocol)
    (s : Server) (row : PeerRow) (i : PeerInfo)
    → lookup rf.id s.peers ≡ none
    → select_peer rf.id s.db.peer ≡ some row
    → row.guid ≢ []
    → row.info ≡ env.info_to_json i
    → env.json_to_string (env.info_to_json i) ≡ none
    → env.json_to_info [] ≡ none
    → require_jwt env ≡ false
    → token_of rf.user_token ≡ none
    → env.db_ok s.calls ≡ true
    → env.db_ok (suc s.calls) ≡ true
    → env.db_ok (suc (suc s.calls)) ≡ true
    → let v = record row { info = [] } in
      let s1 = after (fetch env rf.id) s in
      let s2 = after (tcp_register_pk env rf sink addr wire) s1 in
      let s3 = after (put_row env rf.id v) s2 in
      (fetch env rf.id s ≡ (ok (some v), s1))
      × (lookup rf.id s2.peers
          ≡ some (record (reloaded env s row) {
            socket_addr = addr;
            uuid = rf.uuid;
            pk = rf.pk;
            last_reg_time = s.now;
            info = record { ip = env.ip_to_string (ip_of addr) };
            protocol = wire;
          }))
      × (lookup rf.id s3.peers ≡ some (reloaded env s2 row))
      × (select_peer rf.id s3.db.peer
          ≡ some (record row {
            pk = rf.pk;
            info = env.info_to_json (record { ip = env.ip_to_string (ip_of addr) });
          }))
unfolding reloaded default_peer put_row
get_in_steps_overtaken env rf sink addr wire s row i absent stored old info no_string no_info
      open_to_all blank db db1 db2 =
    let s1 : Server = record s { calls = suc s.calls } in
    let p = reloaded env s1 row in
    let fetched = fetch_stored env rf.id s row i stored info no_string db in
    let registers =
      tcp_register_pk_takeover env rf sink addr wire (loaded env rf.id row s1) p row
        (lookup-insert_self rf.id p s.peers) old stored refl open_to_all blank db2 in
    let row_written =
      tcp_register_pk_row env rf sink addr wire (loaded env rf.id row s1) p row
        (lookup-insert_self rf.id p s.peers) old stored refl open_to_all blank db2 in
    let over =
      tcp_register_pk-loaded env rf sink addr wire s1 row i absent stored info no_string no_info
        db1 in
    let s2 : Server = after (tcp_register_pk env rf sink addr wire) (after (fetch env rf.id) s) in
    (
      ground (arith, fetched),
      rw (fetched, after, over) registers,
      lookup-put_row env rf.id s2 row no_info,
      rw (fetched, after, over) row_written,
    )
