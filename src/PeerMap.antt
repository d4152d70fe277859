-- ===== src/PeerMap.antt =====
-- `PeerMap` of src/peer.rs: the peers in memory, backed by the table `peer`.
mod Peers
mod Token
pub mod Others
pub mod Laws
pub mod Register
pub mod Reload
pub mod Steps
unfoldable pub use Peers.*
unfoldable pub use Token.*
use nat_server.Database.Statements.{db_get_peer, insert_peer_with_user, update_pk_with_user}
use nat_server.Common.{
  ℕ, suc, ◌+◌, ◌-◌, Bool, true, false, ◌&&◌, ◌||◌, not, Option, none, some, List, [], ◌∷◌, ◌==◌,
  list_has_eq, leb, ◌^◌, if◌then◌else◌, unwrap_or, is_empty,
}
use nat_server.Common.Int.{ℤ}
use nat_server.Common.Map.{Map, lookup, insert}
use nat_server.Common.Text.{Text, Bytes, text, trim, parse_signed, eq_ignore_ascii_case}
use nat_server.Net.{SocketAddr, v4, Protocol, proto3, addr_has_eq}
use nat_server.Message.{PkResult, registered, server_error}
use nat_server.Database.{
  PeerRow, Database, select_peer, insert_row, update_rows, device_of_row, row_of_device,
}
use nat_server.State.{
  PeerInfo, Peer, OnlineConn, Server, Env, Claims, Sub, number, string, other_value, Error,
  db_failed, rejected, Result, ok, err, M, pure, fail, gets, attempt, ◌>>=◌, ◌>>◌, modify,
}

-- A row of the database as a peer in memory.
unfoldable pub peer_of_row : Env → ℕ → PeerRow → Peer
peer_of_row env now v = record (default_peer now) {
  guid = v.guid;
  uuid = v.uuid;
  pk = v.pk;
  user_id = v.user_id;
  device_id = v.device_id;
  info = unwrap_or (env.json_to_info v.info) (record { ip = [] });
}

-- The environment variable REQUIRE_PEER_JWT.
unfoldable pub require_jwt : Env → Bool
require_jwt env = elim env.require_peer_jwt [
  | none ↦ false
  | some v ↦ v == text "1" || eq_ignore_ascii_case v (text "true")
]

-- A token that is blank is none.
abbrev pub trimmed : Option Text → Option Text
trimmed none = none
trimmed (some t) = let x = trim t in if is_empty x then none else some x

-- The entry of `ONLINE_PEERS` after a registration.
abbrev pub seen_online : Env → ℕ → Text → Text → Option ℤ → Option OnlineConn → OnlineConn
seen_online env now id ip uid none = record {
  peer_id = id;
  ip = ip;
  user_id = uid;
  connected_at = env.utc now;
  last_seen = now;
}
seen_online env now id ip uid (some c) = record c { last_seen = now; ip = ip; user_id = uid }

-- `update_pk`'s write to the peer in memory.
abbrev pub registered_peer : SocketAddr → Bytes → Bytes → Text → ℕ → Peer → Peer
registered_peer addr uuid pk ip now w = record w {
  socket_addr = addr;
  uuid = uuid;
  pk = pk;
  last_reg_time = now;
  info = record { ip = ip };
}

module _ (env : Env) where
  -- `get`: from memory, else from the database.
  unfoldable pub get : Text → M (Option Peer)
  get id = do
    p ← get_in_memory id
    elim p [
      | some peer ↦ pure (some peer)
      | none ↦ do
        row ← attempt (db_get_peer env id)
        elim row [
          | some (some v) ↦ do
            now ← gets (λ s. s.now)
            let peer = peer_of_row env now v
            modify (λ s. record s { peers = insert id peer s.peers })
            pure (some peer)
          | _ ↦ pure none
        ]
    ]

  -- `get_or`: a default peer where there is none. The handle is the id.
  unfoldable pub get_or : Text → M (Unit {0})
  get_or id = do
    p ← get id
    elim p [
      | some peer ↦ pure tt
      | none ↦ modify λ s. record s { peers = insert id (default_peer s.now) s.peers }
    ]

  -- `update_pk`, up to the check of the token: the bound user and device, or a rejection.
  unfoldable pub bind_user : Text → Option Text → M Bool
  bind_user id none = pure (not (require_jwt env))
  bind_user id (some token) = do
    bound ← attempt (validate_peer_token env token id)
    elim bound [
      | none ↦ pure false
      | some (user_id, device_row_id) ↦ do
        write_peer id (λ w. record w { user_id = some user_id; device_id = some device_row_id })
        pure true
    ]

  -- `update_pk`'s write to the table: a new row for a peer without guid, else an update.
  unfoldable pub store_peer : Text → Bytes → Bytes → M (Unit {0})
  store_peer id uuid pk = do
    peer ← read_peer id
    let info_str = env.info_to_json peer.info
    if is_empty peer.guid
        then (do
          guid ← insert_peer_with_user env id uuid pk info_str peer.user_id peer.device_id
          write_peer id (λ w. record w { guid = guid }))
        else update_pk_with_user env peer.guid id pk info_str peer.user_id peer.device_id

  -- `update_pk`'s record in `ONLINE_PEERS`.
  unfoldable pub mark_online : Text → M (Unit {0})
  mark_online id = do
    peer ← read_peer id
    modify λ s. record s {
      online_peers =
          insert id (seen_online env s.now id peer.info.ip peer.user_id (lookup id s.online_peers))
            s.online_peers;
    }

  -- `update_pk`.
  unfoldable pub update_pk : Text → SocketAddr → Bytes → Bytes → Text → Option Text → M PkResult
  update_pk id addr uuid pk ip user_token = do
    bound ← bind_user id (trimmed user_token)
    if bound
        then (do
          now ← gets (λ s. s.now)
          write_peer id (registered_peer addr uuid pk ip now)
          stored ← attempt (store_peer id uuid pk)
          elim stored [ none ↦ pure server_error | some _ ↦ do mark_online id; pure registered ])
        else pure server_error
