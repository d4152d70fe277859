-- ===== src/Relay/Pair/Expiry.antt =====
-- On the sleeping tasks of `make_pair_` in src/relay_server.rs.
use nat_server.Common.{ℕ, ◌+◌, ◌≤◌, ◌≡◌, none, arith, list_has_eq, list_eq_iff}
use nat_server.Common.Map.{lookup, insert, remove, lookup-remove}
use nat_server.Common.Text.{Text}
use nat_server.Message.{RequestRelay}
use nat_server.Relay.Types.{Relay, Stream}
use nat_server.Relay.Pair.{pair_timeout, request_relay, wake, expire}
use nat_server.Relay.Pair.Matching.{IsAccepted, request_waits, lookup-wake}

-- After an accepted request of a uuid under which none waits, and nothing else until 30 seconds or
-- more are over, none waits under the uuid.
pub request_relay_expires :
    (key : Text) (rf : RequestRelay) (a : Stream) (id : Text) (now t : ℕ) (r : Relay)
    → IsAccepted key rf
    → lookup rf.uuid r.peers ≡ none
    → now + pair_timeout ≤ t
    → lookup rf.uuid (expire t (request_relay key rf a id now r).1).peers ≡ none
unfolding expire wake
request_relay_expires key rf a id now t r ok free late =
    let peers = insert rf.uuid a r.peers in
    ground (
      arith,
      request_waits key rf a id now r ok free,
      lookup-wake rf.uuid t r.sleeping (remove rf.uuid peers),
      lookup-remove rf.uuid rf.uuid peers,
      list_eq_iff rf.uuid rf.uuid,
    )
