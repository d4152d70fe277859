-- ===== src/Relay/Pair.antt =====
-- `handle_connection` and `make_pair_` of src/relay_server.rs: two connections that name the same
-- uuid become a pair.
pub mod Expiry
pub mod Matching
use nat_server.Relay.Cmd.{check_cmd}
use nat_server.Message
use nat_server.Message.{RequestRelay}
use nat_server.Common.{
  ℕ, zero, suc, ◌+◌, ◌-◌, ◌*◌, ◌/◌, ◌%◌, ◌^◌, ◌<◌, Bool, true, false, ◌&&◌, ◌||◌, not, Option, none,
  some, List, [], ◌∷◌, ◌++◌, ltb, leb, nat_eq, ◌==◌, list_has_eq, nat_has_eq, if◌then◌else◌,
  unwrap_or, is_empty, length, contains, select, map,
}
use nat_server.Common.Map.{Map, lookup, insert, remove}
use nat_server.Common.Text.{Text, Bytes, text, trim, split, parse_unsigned}
use nat_server.Net.{IpAddr, SocketAddr, ip_of, port_of, is_loopback, ip_has_eq, addr_has_eq}
use nat_server.Relay.Types.{Usage, Stream, Waiting, Settings, Relay, RelayEnv, add_set, remove_set}

-- What becomes of a connection.
pub data Outcome : Type 0 where
  console : Outcome
  blocked : Outcome
  dropped : Outcome
  waits : Outcome
  paired : Stream → Stream → Outcome

-- The key of USAGE: ip and port.
pub data Admission : Type 0 where
  to_console : Admission
  refused : Admission
  admitted : Admission

-- `handle_connection`: a local caller talks to the console; a blocked address is turned away.
unfoldable pub handle_connection : RelayEnv → SocketAddr → Bool → Relay → Admission
handle_connection env addr ws r =
    let ip = ip_of (env.try_into_v4 addr) in
    if not ws && is_loopback ip
    then to_console
    else if contains (env.ip_to_string ip) r.blocklist
    then refused
    else admitted

-- How long an unpaired connection waits.
abbrev pub pair_timeout : ℕ
pair_timeout = 30_000

abbrev pub raw_if : Bool → Stream → Stream
raw_if b st = record st { raw = st.raw || b }

-- `make_pair_` on a request: refused for a wrong key or no uuid, else paired with what waits under
-- the uuid, else left to wait.
unfoldable pub request_relay : Text → RequestRelay → Stream → Text → ℕ → Relay → Outcome × Relay
request_relay key rf stream id now r =
    if not (is_empty key) && not (rf.licence_key == key)
    then (dropped, r)
    else if is_empty rf.uuid
    then (dropped, r)
    else elim (lookup rf.uuid r.peers) [
      | some peer ↦
          let both_raw = not stream.ws && not peer.ws in
          (
            paired (raw_if both_raw stream) (raw_if both_raw peer),
            record r { peers = remove rf.uuid r.peers; usage = insert id (0, 0, 0, 0) r.usage },
          )
      | none ↦ (
        waits,
        record r {
          peers = insert rf.uuid stream r.peers;
          sleeping = record { uuid = rf.uuid; until = now + pair_timeout } ∷ r.sleeping;
        },
      )
    ]

-- `make_pair_`: the first message, within its 30 seconds.
unfoldable pub make_pair :
    RelayEnv → Text → Option Bytes → Stream → Text → ℕ → Relay → Outcome × Relay
make_pair env key none stream id now r = (dropped, r)
make_pair env key (some bytes) stream id now r = elim (env.parse_request_relay bytes) [
  | none ↦ (dropped, r)
  | some rf ↦ request_relay key rf stream id now r
]

-- The tasks whose sleep is over take out what waits under their uuids.
unfoldable pub wake : ℕ → List Waiting → Map Text Stream → Map Text Stream
wake now [] peers = peers
wake now (w ∷ ws) peers = wake now ws (if leb w.until now then remove w.uuid peers else peers)

-- The clock reaches `now`.
unfoldable pub expire : ℕ → Relay → Relay
expire now r = record r {
  peers = wake now r.sleeping r.peers;
  sleeping = select (λ w. ltb now w.until) r.sleeping;
}

-- The end of a relay.
unfoldable pub finish : Text → Relay → Relay
finish id r = record r { usage = remove id r.usage }
