-- ===== src/Examples.antt =====
-- Concrete values for the examples: a world in which every call succeeds, a server with one peer,
-- and a relay.
mod Registration
mod Punching
mod Relaying
mod Accounts
mod Clients
mod Mediation
mod Peering
mod Wire
mod Files
use nat_server.Common.{ℕ, Bool, true, false, Option, none, some, List, [], ◌∷◌, is_empty}
use nat_server.Common.Int.{pos}
use nat_server.Common.Text.{Text, Bytes, text}
use nat_server.Net.{IpAddr, ipv4, ipv6, SocketAddr, v4, Protocol, capnp}
use nat_server.Message
use nat_server.Database.{PeerRow, Database}
use nat_server.State.{Env, Server, Peer, PeerInfo, Inner, Conf, Sink}
use nat_server.PeerMap.{default_peer}
use nat_server.Relay.Types.{RelayEnv, Relay, Stream, default_settings}

-- An address as one character.
abbrev pub show_ip : IpAddr → Text
show_ip (ipv4 a) = a ∷ []
show_ip (ipv6 a) = a ∷ []

abbrev pub the_env : Option Text → Env
the_env jwt = record {
  try_into_v4 = λ a. a;
  mangle_encode = λ now a. [];
  mangle_decode = λ b. v4 0 0;
  can_encode = λ m w. true;
  parse = λ b. none;
  from_utf8 = some;
  ip_to_string = show_ip;
  resolves = λ h. false;
  parse_ip = λ h. none;
  parse_addr = λ h. none;
  connects = λ h. true;
  udp_ok = λ n. true;
  utc = λ n. n;
  require_peer_jwt = jwt;
  db_ok = λ n. true;
  new_guid = λ n. 103 ∷ n ∷ [];
  network_contains = λ net a. false;
  sign_id_pk = λ sk id pk. pk;
  jwt_decode = λ t. none;
  info_to_json = λ i. 123 ∷ i.ip;
  json_to_info = λ t. none;
  json_to_string = λ t. none;
}

abbrev pub open_env : Env
open_env = the_env none

-- A server where registrations need a token.
abbrev pub closed_env : Env
closed_env = the_env (some (text "1"))

abbrev pub home : SocketAddr
home = v4 167772161 5000

abbrev pub away : SocketAddr
away = v4 3405803781 6000

abbrev pub old_key : Bytes
old_key = 1 ∷ []

abbrev pub new_key : Bytes
new_key = 2 ∷ []

abbrev pub uuid_a : Bytes
uuid_a = 7 ∷ []

abbrev pub uuid_b : Bytes
uuid_b = 8 ∷ []

abbrev pub guid_a : Bytes
guid_a = 9 ∷ []

abbrev pub alice : Text
alice = text "alice1"

abbrev pub alice_peer : Peer
alice_peer = record {
  socket_addr = home;
  last_reg_time = 4_999_000;
  guid = guid_a;
  uuid = uuid_a;
  pk = old_key;
  user_id = none;
  device_id = none;
  info = record { ip = show_ip (ipv4 167772161) };
  disabled = false;
  reg_pk = (0, 0);
  protocol = capnp;
}

abbrev pub alice_row : PeerRow
alice_row = record {
  guid = guid_a;
  id = alice;
  uuid = uuid_a;
  pk = old_key;
  info = 123 ∷ show_ip (ipv4 167772161);
  user_id = none;
  device_id = none;
}

abbrev pub the_inner : Inner
the_inner = record {
  serial = pos 0;
  version = [];
  software_url = [];
  mask = none;
  local_ip = text "l";
  sk = none;
}

abbrev pub the_conf : Conf
the_conf = record {
  relay_servers = text "r" ∷ text "s" ∷ [];
  relay_servers0 = text "r" ∷ text "s" ∷ [];
  rendezvous_servers = [];
  inner = the_inner;
}

-- The server after a restart: the peer is in the table only.
abbrev pub restarted : Server
restarted = record {
  conf = the_conf;
  tcp_punch = [];
  peers = [];
  db = record { peer = alice_row ∷ []; user_devices = [] };
  channel = [];
  rotation = 3;
  always_use_relay = false;
  punch_reqs = [];
  ip_blocker = [];
  ip_changes = [];
  online_peers = [];
  sent = [];
  now = 5_000_000;
  calls = 0;
}

abbrev pub the_server : Server
the_server = record restarted { peers = (alice, alice_peer) ∷ [] }

-- A peer that registers for the first time, and the server that knows it.
abbrev pub fresh_peer : Peer
fresh_peer = record alice_peer { guid = []; uuid = []; pk = [] }

abbrev pub fresh_server : Server
fresh_server = record restarted {
  peers = (alice, fresh_peer) ∷ [];
  db = record { peer = []; user_devices = [] };
}

abbrev pub the_sink : Sink
the_sink = record { conn = 4; ws = false }

abbrev pub register_as : Bytes → Bytes → Message.RegisterPk
register_as uuid pk = record {
  id = alice;
  uuid = uuid;
  pk = pk;
  old_id = [];
  no_register_device = false;
  user_token = [];
}

abbrev pub the_request : Message.PunchHoleRequest
the_request = record {
  id = alice;
  nat_type = pos 1;
  licence_key = [];
  conn_type = pos 0;
  token = [];
  version = [];
  udp_port = pos 0;
  force_relay = false;
  upnp_port = pos 0;
  socket_addr_v6 = [];
}

abbrev pub the_relay_env : RelayEnv
the_relay_env = record {
  try_into_v4 = λ a. a;
  ip_to_string = show_ip;
  parse_positive_f64 = λ t. none;
  threshold_per_ms = λ bandwidth percent. 88_000;
  parse_request_relay = λ b. none;
}

abbrev pub the_relay : Relay
the_relay = record {
  peers = [];
  sleeping = [];
  usage = [];
  blacklist = [];
  blocklist = text "x" ∷ [];
  settings = default_settings;
  limiter = 1024;
}

abbrev pub stream_of : ℕ → Stream
stream_of n = record { conn = n; ws = false; raw = false }

abbrev pub relay_as : Text → Message.RequestRelay
relay_as uuid = record {
  id = alice;
  uuid = uuid;
  socket_addr = [];
  relay_server = [];
  secure = true;
  licence_key = [];
  conn_type = pos 0;
  token = [];
  control_permissions = [];
}
