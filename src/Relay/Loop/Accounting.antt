-- ===== src/Relay/Loop/Accounting.antt =====
-- On the loop of `relay` in src/relay_server.rs.
use nat_server.Common.{
  ℕ, ◌+◌, ◌%◌, ◌^◌, ◌≤◌, list_has_eq, ◌≡◌, ◌≢◌, refl, sym, ap, true, List, [], ◌∷◌, arith, contains,
  is_empty, if◌then◌else◌,
}
use nat_server.Common.Text.{Text, Bytes}
use nat_server.Relay.Types.{Relay, RelayEnv, Settings}
use nat_server.Relay.Loop.{
  Transfer, Input, from_peer, from_stream, ended, tick, Verdict, go_on, closed, failed,
  start_transfer, account, receive, second, after_input, round, run,
}

abbrev pub transfer_of : Verdict → Transfer
transfer_of (go_on t) = t
transfer_of (closed t) = t
transfer_of (failed t) = t

-- The total is what the two limiters let through, as a `usize`.
abbrev pub IsAccounted : Transfer → Type 0
IsAccounted t = t.total ≡ (t.limited + t.normal) % 2 ^ 64

round-IsAccounted :
    (now : ℕ) (i : Input) (r : Relay) (t : Transfer)
    → IsAccounted t
    → IsAccounted (transfer_of (round now i r t).0)
unfolding round receive account after_input second
round-IsAccounted now (from_peer b sent) r t h = ground arith
round-IsAccounted now (from_stream b sent) r t h = ground arith
round-IsAccounted now ended r t h = h
round-IsAccounted now tick r t h = ground arith

run_from-IsAccounted :
    (is : List (ℕ × Input)) (r : Relay) (t : Transfer)
    → IsAccounted t
    → IsAccounted (transfer_of (run is r t).0)
unfolding run
run_from-IsAccounted [] r t h = h
run_from-IsAccounted ((now, i) ∷ is) r t h = ground (
  arith,
  round-IsAccounted now i r t h,
  run_from-IsAccounted is (round now i r t).1 (transfer_of (round now i r t).0),
)

-- Whatever a relay meets, its total is the bits that passed its two limiters, modulo 2^64.
pub run-IsAccounted :
    (env : RelayEnv) (id ip : Text) (now : ℕ) (c : Settings) (is : List (ℕ × Input)) (r : Relay)
    → IsAccounted (transfer_of (run is r (start_transfer env id ip now c)).0)
unfolding start_transfer
run-IsAccounted env id ip now c is r =
    run_from-IsAccounted is r (start_transfer env id ip now c) refl

-- The data of each end that has to reach the other, newest first.
pub stream_out : List (ℕ × Input) → List Bytes → List Bytes
stream_out [] out = out
stream_out ((now, from_peer b sent) ∷ is) out = stream_out is (if is_empty b then out else b ∷ out)
stream_out ((now, i) ∷ is) out = stream_out is out

pub peer_out : List (ℕ × Input) → List Bytes → List Bytes
peer_out [] out = out
peer_out ((now, from_stream b sent) ∷ is) out = peer_out is (if is_empty b then out else b ∷ out)
peer_out ((now, i) ∷ is) out = peer_out is out

-- The outputs after one input that did not end the relay.
abbrev stream_next : Input → List Bytes → List Bytes
stream_next (from_peer b sent) out = if is_empty b then out else b ∷ out
stream_next i out = out

abbrev peer_next : Input → List Bytes → List Bytes
peer_next (from_stream b sent) out = if is_empty b then out else b ∷ out
peer_next i out = out

stream_out_step :
    (now : ℕ) (i : Input) (is : List (ℕ × Input)) (out : List Bytes)
    → stream_out ((now, i) ∷ is) out ≡ stream_out is (stream_next i out)
unfolding stream_out
stream_out_step now (from_peer b sent) is out = refl
stream_out_step now i is out = refl

peer_out_step :
    (now : ℕ) (i : Input) (is : List (ℕ × Input)) (out : List Bytes)
    → peer_out ((now, i) ∷ is) out ≡ peer_out is (peer_next i out)
unfolding peer_out
peer_out_step now (from_stream b sent) is out = refl
peer_out_step now i is out = refl

round_forwards :
    (now : ℕ) (i : Input) (r : Relay) (t u : Transfer)
    → (round now i r t).0 ≡ go_on u
    → (u.to_stream ≡ stream_next i t.to_stream) × (u.to_peer ≡ peer_next i t.to_peer)
unfolding round receive account after_input second
round_forwards now (from_peer b sent) r t u h = ground arith
round_forwards now (from_stream b sent) r t u h = ground arith
round_forwards now ended r t u h = cc
round_forwards now tick r t u h = ground arith

-- If a relay still goes on after its inputs, each end has been sent, after what it was sent
-- before, the nonempty data of the other, all of it, in order.
pub run_forwards :
    (is : List (ℕ × Input)) (r : Relay) (t u : Transfer)
    → (run is r t).0 ≡ go_on u
    → (u.to_stream ≡ stream_out is t.to_stream) × (u.to_peer ≡ peer_out is t.to_peer)
unfolding run stream_out peer_out
run_forwards [] r t u h =
    let same : u ≡ t = sym (ap transfer_of h) in
    (ap (λ (v : Transfer). v.to_stream) same, ap (λ (v : Transfer). v.to_peer) same)
run_forwards ((now, i) ∷ is) r t u h = ground (
  arith,
  h,
  stream_out_step now i is t.to_stream,
  peer_out_step now i is t.to_peer,
  round_forwards now i r t (transfer_of (round now i r t).0),
  run_forwards is (round now i r t).1 (transfer_of (round now i r t).0) u,
)

-- From `t` to `u`: `u` is downgraded, and its normal limiter has let through no more than that of `t`.
abbrev pub IsDowngraded : Transfer → Transfer → Type 0
IsDowngraded t u = (u.downgrade ≡ true) × (u.normal ≡ t.normal)

round-IsDowngraded :
    (now : ℕ) (i : Input) (r : Relay) (t : Transfer)
    → t.downgrade ≡ true
    → IsDowngraded t (transfer_of (round now i r t).0)
unfolding round receive account after_input second
round-IsDowngraded now (from_peer b sent) r t h = ground arith
round-IsDowngraded now (from_stream b sent) r t h = ground arith
round-IsDowngraded now ended r t h = (h, refl)
round-IsDowngraded now tick r t h = ground arith

-- Whatever a downgraded relay meets, it stays downgraded, and its normal limiter is used no more.
pub run-IsDowngraded :
    (is : List (ℕ × Input)) (r : Relay) (t : Transfer)
    → t.downgrade ≡ true
    → IsDowngraded t (transfer_of (run is r t).0)
unfolding run
run-IsDowngraded [] r t h = (h, refl)
run-IsDowngraded ((now, i) ∷ is) r t h = ground (
  arith,
  round-IsDowngraded now i r t h,
  run-IsDowngraded is (round now i r t).1 (transfer_of (round now i r t).0),
)

-- A relay whose address is on the block list does not go on, once a second has passed since the
-- last reckoning.
pub round_blocked :
    (now : ℕ) (i : Input) (r : Relay) (t u : Transfer)
    → contains t.ip r.blocklist ≡ true
    → t.tm + 1000 ≤ now
    → (round now i r t).0 ≢ go_on u
unfolding round receive account after_input second
round_blocked now (from_peer b sent) r t u listed late = ground arith
round_blocked now (from_stream b sent) r t u listed late = ground arith
round_blocked now ended r t u listed late = ground arith
round_blocked now tick r t u listed late = ground arith
