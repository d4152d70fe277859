-- ===== src/Codec.antt =====
-- libs/core-common/src/rendezvous_codec.rs: messages as proto3 and as Cap'n Proto.
pub mod Schema
pub mod RoundTrip
pub mod Carried
use nat_server.Common.{
  ◌^◌, ℕ, Bool, true, false, Option, none, some, List, [], ◌∷◌, if◌then◌else◌, is_empty, unwrap_or,
}
use nat_server.Common.Int.{ℤ, pos}
use nat_server.Common.Text.{Text, Bytes}
use nat_server.Net.{Protocol, proto3, capnp, detect}
use nat_server.Message
use nat_server.Message.{Message, NatType}
use nat_server.Codec.Schema.{
  ConnType, default_conn, file_transfer, port_forward, rdp, view_camera, terminal, Struct,
  register_peer, register_peer_response, punch_hole_request, punch_hole, punch_hole_sent,
  punch_hole_response, fetch_local_addr, local_addr, configure_update, register_pk,
  register_pk_response, software_update, request_relay, relay_response, test_nat_request,
  test_nat_response, online_request, online_response, peer_discovery, key_exchange, health_check,
  unknown,
}

-- The crates protobuf and capnp. `read` is none where a field cannot be read.
pub record Crates : Type 0 where
  pub parse_from_bytes : Bytes → Option Message
  pub write_to_bytes : Message → Option Bytes
  pub read : Bytes → Option Struct
  pub write : Struct → Option Bytes

-- `capnp_conn_type`, as the number of proto3.
abbrev pub capnp_conn_type : ConnType → ℤ
capnp_conn_type default_conn = pos 0
capnp_conn_type file_transfer = pos 1
capnp_conn_type port_forward = pos 2
capnp_conn_type rdp = pos 3
capnp_conn_type view_camera = pos 4
capnp_conn_type terminal = pos 5

-- `phr.is_local()` and `phr.nat_type()`: those of the oneof, or the defaults.
abbrev pub is_local_of : Option Message.PunchUnion → Bool
is_local_of (some (Message.is_local b)) = b
is_local_of _ = false

abbrev pub nat_type_of : Option Message.PunchUnion → NatType
nat_type_of (some (Message.nat_type n)) = n
nat_type_of _ = Message.unknown_nat

abbrev pub id_of : Option Message.RelayUnion → Text
id_of (some (Message.RelayUnion.id t)) = t
id_of _ = []

abbrev pub pk_of : Option Message.RelayUnion → Bytes
pk_of (some (Message.RelayUnion.pk b)) = b
pk_of _ = []

abbrev pub update_or_default : Option Message.ConfigUpdate → Message.ConfigUpdate
update_or_default (some cu) = cu
update_or_default none = record { serial = pos 0; rendezvous_servers = [] }

-- The oneof of a `PunchHoleResponse` that is read.
abbrev pub union_read : Bool → NatType → Message.PunchUnion
union_read is_local n = if is_local then Message.is_local true else Message.nat_type n

abbrev pub relay_union_read : Text → Bytes → Message.RelayUnion
relay_union_read id pk = if is_empty pk then Message.RelayUnion.id id else Message.RelayUnion.pk pk

unfoldable pub capnp_to_proto3 : Struct → Option Message
capnp_to_proto3 (register_peer rp) = some (Message.register_peer rp)
capnp_to_proto3 (register_peer_response b) = some (Message.register_peer_response b)
capnp_to_proto3 (punch_hole_request r) = some (
    Message.punch_hole_request (record {
      id = r.id;
      nat_type = Message.nat_type_number r.nat_type;
      licence_key = r.licence_key;
      conn_type = capnp_conn_type r.conn_type;
      token = r.token;
      version = r.version;
      udp_port = r.udp_port;
      force_relay = r.force_relay;
      upnp_port = r.upnp_port;
      socket_addr_v6 = r.socket_addr_v6;
    }))
capnp_to_proto3 (punch_hole r) = some (
    Message.punch_hole (record {
      socket_addr = r.socket_addr;
      relay_server = r.relay_server;
      nat_type = Message.nat_type_number r.nat_type;
      udp_port = r.udp_port;
      force_relay = r.force_relay;
      upnp_port = r.upnp_port;
      socket_addr_v6 = r.socket_addr_v6;
      control_permissions = [];
    }))
capnp_to_proto3 (punch_hole_sent r) = some (
    Message.punch_hole_sent (record {
      socket_addr = r.socket_addr;
      id = r.id;
      relay_server = r.relay_server;
      nat_type = Message.nat_type_number r.nat_type;
      version = r.version;
      upnp_port = r.upnp_port;
      socket_addr_v6 = r.socket_addr_v6;
    }))
capnp_to_proto3 (punch_hole_response r) = some (
    Message.punch_hole_response (record {
      socket_addr = r.socket_addr;
      pk = r.pk;
      failure = r.failure;
      relay_server = r.relay_server;
      union = some (union_read r.is_local r.nat_type);
      other_failure = r.other_failure;
      feedback = r.feedback;
      is_udp = r.is_udp;
      upnp_port = r.upnp_port;
      socket_addr_v6 = r.socket_addr_v6;
    }))
capnp_to_proto3 (fetch_local_addr r) = some (
    Message.fetch_local_addr (record {
      socket_addr = r.socket_addr;
      relay_server = r.relay_server;
      socket_addr_v6 = r.socket_addr_v6;
      control_permissions = [];
    }))
capnp_to_proto3 (local_addr r) = some (Message.local_addr r)
capnp_to_proto3 (configure_update r) = some (Message.configure_update r)
capnp_to_proto3 (register_pk r) = some (Message.register_pk r)
capnp_to_proto3 (register_pk_response r) = some (Message.register_pk_response r)
capnp_to_proto3 (software_update url) = some (Message.software_update url)
capnp_to_proto3 (request_relay r) = some (
    Message.request_relay (record {
      id = r.id;
      uuid = r.uuid;
      socket_addr = r.socket_addr;
      relay_server = r.relay_server;
      secure = r.secure;
      licence_key = r.licence_key;
      conn_type = capnp_conn_type r.conn_type;
      token = r.token;
      control_permissions = [];
    }))
capnp_to_proto3 (relay_response r) = some (
    Message.relay_response (record {
      socket_addr = r.socket_addr;
      uuid = r.uuid;
      relay_server = r.relay_server;
      union = some (relay_union_read r.id r.pk);
      refuse_reason = r.refuse_reason;
      version = r.version;
      feedback = r.feedback;
      socket_addr_v6 = r.socket_addr_v6;
      upnp_port = r.upnp_port;
    }))
capnp_to_proto3 (test_nat_request serial) = some (Message.test_nat_request serial)
capnp_to_proto3 (test_nat_response r) = some (
    Message.test_nat_response (record {
      port = r.port;
      cu = some (record { serial = r.config_serial; rendezvous_servers = r.rendezvous_servers });
    }))
capnp_to_proto3 (online_request id peers) = some (Message.online_request id peers)
capnp_to_proto3 (online_response states) = some (Message.online_response states)
capnp_to_proto3 (peer_discovery r) = some (Message.peer_discovery r)
capnp_to_proto3 (key_exchange keys) = some (Message.key_exchange keys)
capnp_to_proto3 (health_check token) = some (Message.hc token)
capnp_to_proto3 unknown = none

-- `to_capnp` up to the builder: `none` where the message is not supported.
unfoldable pub build : Message → Option Struct
build (Message.register_peer_response b) = some (register_peer_response b)
build (Message.register_pk_response r) = some (register_pk_response r)
build (Message.punch_hole_response r) = some (
    punch_hole_response (record {
      socket_addr = r.socket_addr;
      pk = r.pk;
      failure = r.failure;
      relay_server = r.relay_server;
      is_local = is_local_of r.union;
      nat_type = nat_type_of r.union;
      other_failure = r.other_failure;
      feedback = r.feedback;
      is_udp = r.is_udp;
      upnp_port = r.upnp_port;
      socket_addr_v6 = r.socket_addr_v6;
    }))
build (Message.punch_hole r) = some (
    punch_hole (record {
      socket_addr = r.socket_addr;
      relay_server = r.relay_server;
      nat_type = unwrap_or (Message.enum_value r.nat_type) Message.unknown_nat;
      udp_port = r.udp_port;
      force_relay = r.force_relay;
      upnp_port = r.upnp_port;
      socket_addr_v6 = r.socket_addr_v6;
    }))
build (Message.configure_update r) = some (configure_update r)
build (Message.test_nat_response r) = some (
    test_nat_response (record {
      port = r.port;
      config_serial = (update_or_default r.cu).serial;
      rendezvous_servers = (update_or_default r.cu).rendezvous_servers;
    }))
build (Message.online_response states) = some (online_response states)
build (Message.relay_response r) = some (
    relay_response (record {
      socket_addr = r.socket_addr;
      uuid = r.uuid;
      relay_server = r.relay_server;
      id = id_of r.union;
      pk = pk_of r.union;
      refuse_reason = r.refuse_reason;
      version = r.version;
      feedback = r.feedback;
      socket_addr_v6 = r.socket_addr_v6;
      upnp_port = r.upnp_port;
    }))
build (Message.local_addr r) = some (local_addr r)
build (Message.software_update url) = some (software_update url)
build (Message.peer_discovery r) = some (peer_discovery r)
build _ = none

module _ (c : Crates) where
  abbrev pub written : Option Struct → Option Bytes
  written none = none
  written (some x) = c.write x

  abbrev pub read_struct : Option Struct → Option Message
  read_struct none = none
  read_struct (some x) = capnp_to_proto3 x

  unfoldable pub to_capnp : Message → Option Bytes
  to_capnp m = written (build m)

  unfoldable pub from_capnp : Bytes → Option Message
  from_capnp bytes = read_struct (c.read bytes)

  abbrev pub parse_as : Protocol → Bytes → Option Message
  parse_as proto3 bytes = c.parse_from_bytes bytes
  parse_as capnp bytes = from_capnp bytes

  unfoldable pub parse : Bytes → Option Message
  parse bytes = parse_as (detect bytes) bytes

  unfoldable pub serialize : Message → Protocol → Option Bytes
  serialize m proto3 = c.write_to_bytes m
  serialize m capnp = to_capnp m
