-- ===== src/Relay/Types.antt =====
-- The statics of src/relay_server.rs, and the world around the relay.
use nat_server.Common.{
  ℕ, ◌*◌, Bool, not, Option, List, ◌∷◌, ◌==◌, list_has_eq, nat_has_eq, if◌then◌else◌, contains,
  select,
}
use nat_server.Common.Map.{Map}
use nat_server.Common.Text.{Text, Bytes}
use nat_server.Net.{IpAddr, SocketAddr, ip_has_eq, addr_has_eq}
use nat_server.Message.{RequestRelay}

-- (elapsed milliseconds, bits in all, highest speed, last speed)
abbrev pub Usage : Type 0
Usage = ℕ × ℕ × ℕ × ℕ

-- A connection that asked for a relay. `raw` is set once both ends have no WebSocket.
pub record Stream : Type 0 where
  pub conn : ℕ
  pub ws : Bool
  pub raw : Bool

-- A task that sleeps, and will take out what waits under `uuid` at the time `until`.
pub record Waiting : Type 0 where
  pub uuid : Text
  pub until : ℕ

-- The settings, in the units of the statics: percent, milliseconds, and bits per second.
pub record Settings : Type 0 where
  pub downgrade_threshold : ℕ
  pub downgrade_start_check : ℕ
  pub limit_speed : ℕ
  pub total_bandwidth : ℕ
  pub single_bandwidth : ℕ

-- PEERS, USAGE, BLACKLIST, BLOCKLIST, the settings and the speed of the limiter that all relays
-- share.
pub record Relay : Type 0 where
  pub peers : Map Text Stream
  pub sleeping : List Waiting
  pub usage : Map Text Usage
  pub blacklist : List Text
  pub blocklist : List Text
  pub settings : Settings
  pub open settings use *
  pub limiter : ℕ

-- A text that was read as a positive `f64` v, by its products with the two scales that are used,
-- cast to a `usize`; and the threshold that the relay computes in floating point.
pub record RelayEnv : Type 0 where
  pub try_into_v4 : SocketAddr → SocketAddr
  pub ip_to_string : IpAddr → Text
  pub parse_positive_f64 : Text → Option (Bool → ℕ)
  pub threshold_per_ms : ℕ → ℕ → ℕ
  pub parse_request_relay : Bytes → Option RequestRelay

-- `HashSet::insert` and `HashSet::remove`.
abbrev pub add_set : Text → List Text → List Text
add_set x xs = if contains x xs then xs else x ∷ xs

abbrev pub remove_set : Text → List Text → List Text
remove_set x xs = select (λ y. not (y == x)) xs

-- The statics' initial values.
abbrev pub default_settings : Settings
default_settings = record {
  downgrade_threshold = 66;
  downgrade_start_check = 1_800_000;
  limit_speed = 32 * 1024 * 1024;
  total_bandwidth = 1024 * 1024 * 1024;
  single_bandwidth = 128 * 1024 * 1024;
}
