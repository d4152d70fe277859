-- ===== src/PeerMap/Steps.antt =====
-- `get` of src/peer.rs in the steps between which it holds no lock on the map: the look into the map, the
-- query, and the insertion.
pub mod Overtaken
use nat_server.Common.{Option, none, some, list_has_eq}
use nat_server.Common.Map.{insert}
use nat_server.Common.Text.{Text}
use nat_server.Database.{PeerRow}
use nat_server.Database.Statements.{db_get_peer}
use nat_server.State.{Env, Server, Peer, M, pure, gets, attempt, ◌>>=◌, ◌>>◌, modify}
use nat_server.PeerMap.{get_in_memory, get, peer_of_row}

module _ (env : Env) where
  -- The row, if the query succeeds and finds one.
  unfoldable pub fetch : Text → M (Option PeerRow)
  fetch id = do
    row ← attempt (db_get_peer env id)
    elim row [ some (some v) ↦ pure (some v) | _ ↦ pure none ]

  -- The row comes into the map, whatever the map holds by then.
  unfoldable pub put_row : Text → PeerRow → M Peer
  put_row id v = do
    now ← gets (λ s. s.now)
    modify (λ s. record s { peers = insert id (peer_of_row env now v) s.peers })
    pure (peer_of_row env now v)

  unfoldable pub get_in_steps : Text → M (Option Peer)
  get_in_steps id = do
    p ← get_in_memory id
    elim p [
      | some peer ↦ pure (some peer)
      | none ↦ do
        row ← fetch id
        elim row [ none ↦ pure none | some v ↦ do peer ← put_row id v; pure (some peer) ]
    ]
