-- ===== src/State/Types.antt =====
-- The state that the handlers of src/rendezvous_server.rs and src/peer.rs share, and the world
-- around them.
use nat_server.Common.{ℕ, Bool, Option, List}
use nat_server.Common.Int.{ℤ}
use nat_server.Common.Map.{Map}
use nat_server.Common.Text.{Text, Bytes}
use nat_server.Net.{IpAddr, SocketAddr, Protocol}
use nat_server.Message.{Message}
use nat_server.Database.{Database}

-- Times are milliseconds of the monotonic clock; `Instant::elapsed` stops at 0, as `-` does.
pub record PeerInfo : Type 0 where
  pub ip : Text

pub record Peer : Type 0 where
  pub socket_addr : SocketAddr
  pub last_reg_time : ℕ
  pub guid : Bytes
  pub uuid : Bytes
  pub pk : Bytes
  pub user_id : Option ℤ
  pub device_id : Option ℤ
  pub info : PeerInfo
  pub disabled : Bool
  pub reg_pk : ℕ × ℕ
  pub protocol : Protocol

pub record OnlineConn : Type 0 where
  pub peer_id : Text
  pub ip : Text
  pub user_id : Option ℤ
  pub connected_at : ℕ
  pub last_seen : ℕ

-- An entry of `IP_BLOCKER`: registrations with their time, and the ids seen with theirs.
pub record BlockEntry : Type 0 where
  pub counter : ℕ × ℕ
  pub ids : List Text × ℕ

pub record PunchReqEntry : Type 0 where
  pub tm : ℕ
  pub from_ip : Text
  pub to_ip : Text
  pub to_id : Text

pub record Ipv4Network : Type 0 where
  pub addr : ℕ
  pub prefix : ℕ

pub record Inner : Type 0 where
  pub serial : ℤ
  pub version : Text
  pub software_url : Text
  pub mask : Option Ipv4Network
  pub local_ip : Text
  pub sk : Option Bytes

-- `Data`: what handlers put on the channel to the main loop.
pub data Data : Type 0 where
  msg : Message → SocketAddr → Protocol → Data
  relay_servers0 : Text → Data
  relay_servers : List Text → Data

-- The writing half of a connection, by its number; `ws` for a WebSocket.
pub record Sink : Type 0 where
  pub conn : ℕ
  pub ws : Bool

-- What was handed to a socket, with the wire protocol used.
pub data Sent : Type 0 where
  udp : Message → SocketAddr → Protocol → Sent
  tcp : Sink → Message → Protocol → Sent

-- The fields of `RendezvousServer` that a clone of it copies.
pub record Conf : Type 0 where
  pub relay_servers : List Text
  pub relay_servers0 : List Text
  pub rendezvous_servers : List Text
  pub inner : Inner

-- The shared maps and statics, the channel `tx`, and the log of what was sent, newest first.
-- `now` is the clock at the handler's start, and `calls` counts the calls that may fail.
pub record Server : Type 0 where
  pub conf : Conf
  pub tcp_punch : Map SocketAddr (Sink × Protocol)
  pub peers : Map Text Peer
  pub db : Database
  pub channel : List Data
  pub rotation : ℕ
  pub always_use_relay : Bool
  pub punch_reqs : List PunchReqEntry
  pub ip_blocker : Map Text BlockEntry
  pub ip_changes : Map Text (ℕ × Map Text ℕ)
  pub online_peers : Map Text OnlineConn
  pub sent : List Sent
  pub now : ℕ
  pub calls : ℕ

-- The claim `sub` of a JWT: a number (with `as_i64`), a string, or another JSON value.
pub data Sub : Type 0 where
  number : Option ℤ → Sub
  string : Text → Sub
  other_value : Sub

pub record Claims : Type 0 where
  pub sub : Option Sub
  pub udid : Option ℤ

-- The world around the handlers. A call that may fail is answered by its number.
pub record Env : Type 0 where
  -- libs/core-common, a copy of another project's library, with its generated code
  pub try_into_v4 : SocketAddr → SocketAddr
  pub mangle_encode : ℕ → SocketAddr → Bytes
  pub mangle_decode : Bytes → SocketAddr
  pub can_encode : Message → Protocol → Bool
  pub parse : Bytes → Option Message
  -- the standard library and the operating system
  pub from_utf8 : Bytes → Option Text
  pub ip_to_string : IpAddr → Text
  pub resolves : Text → Bool
  pub parse_ip : Text → Option IpAddr
  pub parse_addr : Text → Option SocketAddr
  pub connects : Text → Bool
  pub udp_ok : ℕ → Bool
  pub utc : ℕ → ℕ
  pub require_peer_jwt : Option Text
  -- third-party crates
  pub db_ok : ℕ → Bool
  pub new_guid : ℕ → Bytes
  pub network_contains : Ipv4Network → ℕ → Bool
  pub sign_id_pk : Bytes → Text → Bytes → Bytes
  pub jwt_decode : Text → Option Claims
  pub info_to_json : PeerInfo → Text
  pub json_to_info : Text → Option PeerInfo
  pub json_to_string : Text → Option Text
