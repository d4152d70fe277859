-- ===== src/PeerMap/Laws.antt =====
-- On the handles of peers and the lookups of src/peer.rs.
use nat_server.Common.{
  ◌≡◌, false, some, arith, ◌==◌, list_has_eq, list_eq_iff, inl, inr, Option-cases,
}
use nat_server.Common.Map.{lookup, insert, lookup-insert}
use nat_server.Common.Text.{Text}
use nat_server.State.{Env, Server, Peer, after, ok}
use nat_server.PeerMap.{write_peer, get, get_or}

pub get_known :
    (env : Env) (id : Text) (s : Server) (p : Peer)
    → lookup id s.peers ≡ some p
    → get env id s ≡ (ok (some p), s)
unfolding get
get_known env id s p h = ground arith

pub get_or_known :
    (env : Env) (id : Text) (s : Server) (p : Peer)
    → lookup id s.peers ≡ some p
    → get_or env id s ≡ (ok tt, s)
unfolding get_or get
get_or_known env id s p h = ground arith

pub write_peer_known :
    (id : Text) (f : Peer → Peer) (s : Server) (p : Peer)
    → lookup id s.peers ≡ some p
    → write_peer id f s ≡ (ok tt, record s { peers = insert id (f p) s.peers })
unfolding write_peer
write_peer_known id f s p h = ground arith

-- A write through a handle, at the peer itself.
pub lookup-write_peer :
    (id : Text) (f : Peer → Peer) (s : Server) (p : Peer)
    → lookup id s.peers ≡ some p
    → lookup id (after (write_peer id f) s).peers ≡ some (f p)
unfolding write_peer
lookup-write_peer id f s p h =
    ground (arith, h, lookup-insert id id (f p) s.peers, list_eq_iff id id)

-- And at any other.
pub lookup-write_peer_ne :
    (id j : Text) (f : Peer → Peer) (s : Server)
    → (id == j) ≡ false
    → lookup j (after (write_peer id f) s).peers ≡ lookup j s.peers
unfolding write_peer
lookup-write_peer_ne id j f s h = elim (Option-cases (lookup id s.peers)) [
  | inl e ↦ ground arith
  | inr (p, e) ↦ ground (arith, lookup-insert id j (f p) s.peers)
]
