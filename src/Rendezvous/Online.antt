-- ===== src/Rendezvous/Online.antt =====
-- `handle_online_request` of src/rendezvous_server.rs: which of these peers are online, a bit each.
pub mod Bits
use Prim.Native.Nat.{bit_or}
use nat_server.Rendezvous.Punch.{is_online}
use nat_server.Common.{
  ℕ, suc, ◌+◌, ◌-◌, ◌/◌, ◌%◌, ◌^◌, Bool, false, none, some, List, [], ◌∷◌, list_has_eq, nat_has_eq,
  if◌then◌else◌, length, get_or as item_or, replicate, set,
}
use nat_server.Common.Map.{lookup}
use nat_server.Common.Text.{Text, Bytes}
use nat_server.Net.{proto3, ip_has_eq, addr_has_eq}
use nat_server.State.{Sink, tcp, Server, Env, encode_failed, ok, err, M}
use nat_server.Message.{Message}

-- `states[i / 8] |= 0x01 << (7 - i % 8)`: the bits go from left to right.
unfoldable pub mark : ℕ → Bytes → Bytes
mark i states = set states (i / 8) (bit_or (item_or states (i / 8) 0) (2 ^ (7 - i % 8)))

-- Is the peer in memory, and online?
unfoldable pub is_seen : Server → Text → Bool
is_seen s id = elim (lookup id s.peers) [ none ↦ false | some p ↦ is_online s.now p ]

-- The loop over the ids, from index `i` on.
unfoldable pub mark_online_from : Server → ℕ → List Text → Bytes → Bytes
mark_online_from s i [] states = states
mark_online_from s i (id ∷ ids) states =
    mark_online_from s (suc i) ids (if is_seen s id then mark i states else states)

-- The bytes of the OnlineResponse.
unfoldable pub online_states : Server → List Text → Bytes
online_states s ids = mark_online_from s 0 ids (replicate ((length ids + 7) / 8) 0)

-- `handle_online_request`; the answer goes out in proto3.
unfoldable pub handle_online_request : Env → Sink → List Text → M (Unit {0})
handle_online_request env stream ids s =
    let m = Message.online_response (online_states s ids) in
    if env.can_encode m proto3
    then (ok tt, record s { sent = tcp stream m proto3 ∷ s.sent })
    else (err encode_failed, s)
