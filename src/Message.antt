-- ===== src/Message.antt =====
-- The messages of libs/core-common/protos/rendezvous.proto. An enumeration that arrives is the number
-- on the wire, but for the result of a RegisterPkResponse and the failure and the NAT type of a
-- PunchHoleResponse, which are the named values only.
use nat_server.Common.{Bool, false, Option, none, some, List, [], if◌then◌else◌}
use nat_server.Common.Int.{ℤ, pos, eq_ℤ}
use nat_server.Common.Text.{Text, Bytes}

pub data NatType : Type 0 where
  unknown_nat asymmetric symmetric : NatType

-- The number of a value on the wire.
abbrev pub nat_type_number : NatType → ℤ
nat_type_number unknown_nat = pos 0
nat_type_number asymmetric = pos 1
nat_type_number symmetric = pos 2

-- `EnumOrUnknown::enum_value`, where an unknown number is an error.
abbrev pub enum_value : ℤ → Option NatType
enum_value n =
    if eq_ℤ n (pos 0)
    then some unknown_nat
    else if eq_ℤ n (pos 1)
    then some asymmetric
    else if eq_ℤ n (pos 2)
    then some symmetric
    else none

pub record RegisterPeer : Type 0 where
  pub id : Text
  pub serial : ℤ

pub record PunchHoleRequest : Type 0 where
  pub id : Text
  pub nat_type : ℤ
  pub licence_key : Text
  pub conn_type : ℤ
  pub token : Text
  pub version : Text
  pub udp_port : ℤ
  pub force_relay : Bool
  pub upnp_port : ℤ
  pub socket_addr_v6 : Bytes

-- `control_permissions` is the field as it is written, empty where it is not set.
pub record PunchHole : Type 0 where
  pub socket_addr : Bytes
  pub relay_server : Text
  pub nat_type : ℤ
  pub udp_port : ℤ
  pub force_relay : Bool
  pub upnp_port : ℤ
  pub socket_addr_v6 : Bytes
  pub control_permissions : Bytes

pub record PunchHoleSent : Type 0 where
  pub socket_addr : Bytes
  pub id : Text
  pub relay_server : Text
  pub nat_type : ℤ
  pub version : Text
  pub upnp_port : ℤ
  pub socket_addr_v6 : Bytes

pub record RegisterPk : Type 0 where
  pub id : Text
  pub uuid : Bytes
  pub pk : Bytes
  pub old_id : Text
  pub no_register_device : Bool
  pub user_token : Text

-- `register_pk_response::Result`.
pub data PkResult : Type 0 where
  registered uuid_mismatch id_exists too_frequent invalid_id_format not_support server_error :
      PkResult

pub record RegisterPkResponse : Type 0 where
  pub result : PkResult
  pub keep_alive : ℤ

-- An answer with the other field as it is by default.
abbrev pub pk_response : PkResult → RegisterPkResponse
pk_response r = record { result = r; keep_alive = pos 0 }

-- `punch_hole_response::Failure`; the first is also the default.
pub data Failure : Type 0 where
  id_not_exist offline license_mismatch license_overuse : Failure

-- The oneof of `PunchHoleResponse`.
pub data PunchUnion : Type 0 where
  nat_type : NatType → PunchUnion
  is_local : Bool → PunchUnion

pub record PunchHoleResponse : Type 0 where
  pub socket_addr : Bytes
  pub pk : Bytes
  pub failure : Failure
  pub relay_server : Text
  pub union : Option PunchUnion
  pub other_failure : Text
  pub feedback : ℤ
  pub is_udp : Bool
  pub upnp_port : ℤ
  pub socket_addr_v6 : Bytes

-- `..Default::default()`.
abbrev pub default_punch_hole_response : PunchHoleResponse
default_punch_hole_response = record {
  socket_addr = [];
  pk = [];
  failure = id_not_exist;
  relay_server = [];
  union = none;
  other_failure = [];
  feedback = pos 0;
  is_udp = false;
  upnp_port = pos 0;
  socket_addr_v6 = [];
}

pub record ConfigUpdate : Type 0 where
  pub serial : ℤ
  pub rendezvous_servers : List Text

pub record RequestRelay : Type 0 where
  pub id : Text
  pub uuid : Text
  pub socket_addr : Bytes
  pub relay_server : Text
  pub secure : Bool
  pub licence_key : Text
  pub conn_type : ℤ
  pub token : Text
  pub control_permissions : Bytes

-- The oneof of `RelayResponse`.
pub data RelayUnion : Type 0 where
  id : Text → RelayUnion
  pk : Bytes → RelayUnion

pub record RelayResponse : Type 0 where
  pub socket_addr : Bytes
  pub uuid : Text
  pub relay_server : Text
  pub union : Option RelayUnion
  pub refuse_reason : Text
  pub version : Text
  pub feedback : ℤ
  pub socket_addr_v6 : Bytes
  pub upnp_port : ℤ

pub record FetchLocalAddr : Type 0 where
  pub socket_addr : Bytes
  pub relay_server : Text
  pub socket_addr_v6 : Bytes
  pub control_permissions : Bytes

pub record LocalAddr : Type 0 where
  pub socket_addr : Bytes
  pub local_addr : Bytes
  pub relay_server : Text
  pub id : Text
  pub version : Text
  pub socket_addr_v6 : Bytes

pub record PeerDiscovery : Type 0 where
  pub cmd : Text
  pub mac : Text
  pub id : Text
  pub username : Text
  pub hostname : Text
  pub platform : Text
  pub misc : Text

pub record TestNatResponse : Type 0 where
  pub port : ℤ
  pub cu : Option ConfigUpdate

-- `rendezvous_message::Union`. `other` is an empty message.
pub data Message : Type 0 where
  register_peer : RegisterPeer → Message
  register_peer_response : Bool → Message
  punch_hole_request : PunchHoleRequest → Message
  punch_hole : PunchHole → Message
  punch_hole_sent : PunchHoleSent → Message
  punch_hole_response : PunchHoleResponse → Message
  fetch_local_addr : FetchLocalAddr → Message
  local_addr : LocalAddr → Message
  configure_update : ConfigUpdate → Message
  register_pk : RegisterPk → Message
  register_pk_response : RegisterPkResponse → Message
  software_update : Text → Message
  request_relay : RequestRelay → Message
  relay_response : RelayResponse → Message
  test_nat_request : ℤ → Message
  test_nat_response : TestNatResponse → Message
  online_request : Text → List Text → Message
  online_response : Bytes → Message
  peer_discovery : PeerDiscovery → Message
  key_exchange : List Bytes → Message
  hc : Text → Message
  other : Message
