-- ===== src/PeerMap/Peers.antt =====
-- src/peer.rs: the peers in memory. A `LockPeer` is shared with the map,
-- which never drops an entry, so a handle is the peer's id; a handler runs with no other between
-- its steps.
use nat_server.Common.{
  ℕ, ◌-◌, Bool, true, false, Option, none, some, [], ◌∷◌, ◌==◌, list_has_eq, leb, if◌then◌else◌,
  unwrap_or,
}
use nat_server.Common.Map.{Map, lookup, insert}
use nat_server.Common.Text.{Text}
use nat_server.Net.{SocketAddr, v4, Protocol, proto3, addr_has_eq}
use nat_server.State.{Peer, Server, M, gets, modify}

-- `get_expired_time` of src/common.rs: an hour ago, or now if the clock does not go back so far.
unfoldable pub get_expired_time : ℕ → ℕ
get_expired_time now = if leb 3_600_000 now then now - 3_600_000 else now

-- `Peer::default`.
unfoldable pub default_peer : ℕ → Peer
unfolding get_expired_time
default_peer now = record {
  socket_addr = v4 0 0;
  last_reg_time = get_expired_time now;
  guid = [];
  uuid = [];
  pk = [];
  user_id = none;
  device_id = none;
  info = record { ip = [] };
  disabled = false;
  reg_pk = (0, get_expired_time now);
  protocol = proto3;
}

-- `get_in_memory`, and `is_in_memory`.
abbrev pub get_in_memory : Text → M (Option Peer)
get_in_memory id = gets λ s. lookup id s.peers

abbrev pub is_in_memory : Text → Server → Bool
is_in_memory id s = elim (lookup id s.peers) [ none ↦ false | some p ↦ true ]

-- `peer.read()` through a handle.
abbrev pub read_peer : Text → M Peer
read_peer id = gets λ s. unwrap_or (lookup id s.peers) (default_peer s.now)

-- `peer.write()` through a handle.
unfoldable pub write_peer : Text → (Peer → Peer) → M (Unit {0})
write_peer id f = modify λ s. elim (lookup id s.peers) [
  | none ↦ s
  | some p ↦ record s { peers = insert id (f p) s.peers }
]

-- `protocol_for_addr`'s loop.
unfoldable pub find_protocol : (SocketAddr → SocketAddr) → SocketAddr → Map Text Peer → Protocol
find_protocol into_v4 needle [] = proto3
find_protocol into_v4 needle ((id, p) ∷ rest) =
    if into_v4 p.socket_addr == needle then p.protocol else find_protocol into_v4 needle rest
