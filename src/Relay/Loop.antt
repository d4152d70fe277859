-- ===== src/Relay/Loop.antt =====
-- `relay` of src/relay_server.rs: the loop that copies between the two ends of a pair, as a function
-- of one event.
pub mod Accounting
use nat_server.Common.{
  ℕ, zero, suc, ◌+◌, ◌-◌, ◌*◌, ◌/◌, ◌%◌, ◌^◌, ◌<◌, Bool, true, false, ◌&&◌, ◌||◌, not, Option, none,
  some, List, [], ◌∷◌, ◌++◌, ltb, leb, nat_eq, ◌==◌, list_has_eq, nat_has_eq, if◌then◌else◌,
  unwrap_or, is_empty, length, contains, select, map,
}
use nat_server.Common.Map.{Map, lookup, insert, remove}
use nat_server.Common.Text.{Text, Bytes, text, trim, split, parse_unsigned}
use nat_server.Net.{IpAddr, SocketAddr, ip_of, port_of, is_loopback, ip_has_eq, addr_has_eq}
use nat_server.Relay.Types.{Usage, Stream, Waiting, Settings, Relay, RelayEnv, add_set, remove_set}

-- The local variables of `relay`. `limited` and `normal` are the bits that the two limiters of the
-- relay have let through; `to_stream` and `to_peer` is what was sent, newest first.
pub record Transfer : Type 0 where
  pub id : Text
  pub ip : Text
  pub tm : ℕ
  pub elapsed : ℕ
  pub total : ℕ
  pub total_s : ℕ
  pub highest_s : ℕ
  pub downgrade : Bool
  pub blacked : Bool
  pub downgrade_threshold : ℕ
  pub last_recv_time : ℕ
  pub limited : ℕ
  pub normal : ℕ
  pub to_stream : List Bytes
  pub to_peer : List Bytes

-- The start of `relay`, at the time `now`.
unfoldable pub start_transfer : RelayEnv → Text → Text → ℕ → Settings → Transfer
start_transfer env id ip now c = record {
  id = id;
  ip = ip;
  tm = now;
  elapsed = 0;
  total = 0;
  total_s = 0;
  highest_s = 0;
  downgrade = false;
  blacked = false;
  downgrade_threshold = env.threshold_per_ms c.single_bandwidth c.downgrade_threshold;
  last_recv_time = now;
  limited = 0;
  normal = 0;
  to_stream = [];
  to_peer = [];
}

-- What `select!` yields: data of one end, with whether the other end took it; the end of one end;
-- or the timer.
pub data Input : Type 0 where
  from_peer : Bytes → Bool → Input
  from_stream : Bytes → Bool → Input
  ended : Input
  tick : Input

pub data Verdict : Type 0 where
  go_on : Transfer → Verdict
  closed : Transfer → Verdict
  failed : Transfer → Verdict

-- A `usize` wraps.
abbrev pub usize : ℕ → ℕ
usize n = n % 2 ^ 64

-- The accounting of `nb` bits.
unfoldable pub account : ℕ → ℕ → Transfer → Transfer
account now nb t = record t {
  last_recv_time = now;
  limited = if t.blacked || t.downgrade then t.limited + nb else t.limited;
  normal = if t.blacked || t.downgrade then t.normal else t.normal + nb;
  total = usize (t.total + nb);
  total_s = usize (t.total_s + nb);
}

-- One arm of `select!`. Empty data is counted and not sent.
unfoldable pub receive : ℕ → Input → Transfer → Verdict
receive now (from_peer bytes sent) t =
    let u = account now (length bytes * 8) t in
    if is_empty bytes
    then go_on u
    else if sent
    then go_on (record u { to_stream = bytes ∷ u.to_stream })
    else failed u
receive now (from_stream bytes sent) t =
    let u = account now (length bytes * 8) t in
    if is_empty bytes
    then go_on u
    else if sent
    then go_on (record u { to_peer = bytes ∷ u.to_peer })
    else failed u
receive now ended t = closed t
receive now tick t = if ltb 30 ((now - t.last_recv_time) / 1000) then failed t else go_on t

-- The once-a-second part, `n` milliseconds after the last: speed, usage and downgrade.
unfoldable pub second : ℕ → ℕ → Relay → Transfer → Transfer
second now n r t =
    let speed = t.total_s / n in
    let elapsed = usize (t.elapsed + n) in
    record t {
      blacked = contains t.ip r.blacklist;
      tm = now;
      highest_s = if ltb t.highest_s speed then speed else t.highest_s;
      elapsed = elapsed;
      total_s = 0;
      downgrade =
          t.downgrade
          || (ltb r.downgrade_start_check elapsed
              && ltb (usize (elapsed * t.downgrade_threshold)) t.total);
    }

-- The entry of USAGE.
abbrev pub usage_entry : ℕ → Transfer → Transfer → Usage
usage_entry n before after = (after.elapsed, after.total, after.highest_s, before.total_s / n)

-- What follows `select!` in the loop's body.
unfoldable pub after_input : ℕ → Relay → Transfer → Verdict × Relay
after_input now r t =
    let n = now - t.tm in
    if ltb n 1000
    then (go_on t, r)
    else if contains t.ip r.blocklist
    then (closed t, r)
    else (let u = second now n r t in
        (go_on u, record r { usage = insert t.id (usage_entry n t u) r.usage }))

-- One round of the loop.
unfoldable pub round : ℕ → Input → Relay → Transfer → Verdict × Relay
round now i r t = elim (receive now i t) [
  | go_on u ↦ after_input now r u
  | closed u ↦ (closed u, r)
  | failed u ↦ (failed u, r)
]

-- The loop, over what it meets and when.
unfoldable pub run : List (ℕ × Input) → Relay → Transfer → Verdict × Relay
run [] r t = (go_on t, r)
run ((now, i) ∷ is) r t =
    let (v, r') = round now i r t in
    elim v [ go_on u ↦ run is r' u | closed u ↦ (closed u, r') | failed u ↦ (failed u, r') ]
