-- ===== src/Codec/Schema.antt =====
-- The structs of libs/core-common/protos/rendezvous.capnp, as libs/core-common/src/rendezvous_codec.rs
-- reads and builds them.
use nat_server.Common.{Bool, List}
use nat_server.Common.Int.{ℤ}
use nat_server.Common.Text.{Text, Bytes}
use nat_server.Message
use nat_server.Message.{NatType}

pub data ConnType : Type 0 where
  default_conn file_transfer port_forward rdp view_camera terminal : ConnType

pub record PunchHoleRequest : Type 0 where
  pub id : Text
  pub nat_type : NatType
  pub licence_key : Text
  pub conn_type : ConnType
  pub token : Text
  pub version : Text
  pub udp_port : ℤ
  pub force_relay : Bool
  pub upnp_port : ℤ
  pub socket_addr_v6 : Bytes

pub record PunchHole : Type 0 where
  pub socket_addr : Bytes
  pub relay_server : Text
  pub nat_type : NatType
  pub udp_port : ℤ
  pub force_relay : Bool
  pub upnp_port : ℤ
  pub socket_addr_v6 : Bytes

pub record PunchHoleSent : Type 0 where
  pub socket_addr : Bytes
  pub id : Text
  pub relay_server : Text
  pub nat_type : NatType
  pub version : Text
  pub upnp_port : ℤ
  pub socket_addr_v6 : Bytes

pub record PunchHoleResponse : Type 0 where
  pub socket_addr : Bytes
  pub pk : Bytes
  pub failure : Message.Failure
  pub relay_server : Text
  pub is_local : Bool
  pub nat_type : NatType
  pub other_failure : Text
  pub feedback : ℤ
  pub is_udp : Bool
  pub upnp_port : ℤ
  pub socket_addr_v6 : Bytes

pub record FetchLocalAddr : Type 0 where
  pub socket_addr : Bytes
  pub relay_server : Text
  pub socket_addr_v6 : Bytes

pub record RequestRelay : Type 0 where
  pub id : Text
  pub uuid : Text
  pub socket_addr : Bytes
  pub relay_server : Text
  pub secure : Bool
  pub licence_key : Text
  pub conn_type : ConnType
  pub token : Text

pub record RelayResponse : Type 0 where
  pub socket_addr : Bytes
  pub uuid : Text
  pub relay_server : Text
  pub id : Text
  pub pk : Bytes
  pub refuse_reason : Text
  pub version : Text
  pub feedback : ℤ
  pub socket_addr_v6 : Bytes
  pub upnp_port : ℤ

pub record TestNatResponse : Type 0 where
  pub port : ℤ
  pub config_serial : ℤ
  pub rendezvous_servers : List Text

-- The union of the root; `unknown` is any other.
pub data Struct : Type 0 where
  register_peer : Message.RegisterPeer → Struct
  register_peer_response : Bool → Struct
  punch_hole_request : PunchHoleRequest → Struct
  punch_hole : PunchHole → Struct
  punch_hole_sent : PunchHoleSent → Struct
  punch_hole_response : PunchHoleResponse → Struct
  fetch_local_addr : FetchLocalAddr → Struct
  local_addr : Message.LocalAddr → Struct
  configure_update : Message.ConfigUpdate → Struct
  register_pk : Message.RegisterPk → Struct
  register_pk_response : Message.RegisterPkResponse → Struct
  software_update : Text → Struct
  request_relay : RequestRelay → Struct
  relay_response : RelayResponse → Struct
  test_nat_request : ℤ → Struct
  test_nat_response : TestNatResponse → Struct
  online_request : Text → List Text → Struct
  online_response : Bytes → Struct
  peer_discovery : Message.PeerDiscovery → Struct
  key_exchange : List Bytes → Struct
  health_check : Text → Struct
  unknown : Struct
