-- ===== src/Client/Proxy.antt =====
-- nat-client/src/socks5.rs and nat-client/src/rendezvous_mediator.rs: how the proxy names its target
-- to the exit node, and what it sends to both servers.
pub mod RoundTrip
pub mod Notice
use nat_server.Common.{
  ℕ, suc, ◌+◌, ◌%◌, ◌^◌, Bool, true, false, Option, none, some, List, [], ◌∷◌, ◌++◌, nat_eq,
  if◌then◌else◌, is_empty, length, unwrap_or,
}
use nat_server.Common.Int.{pos}
use nat_server.Common.Split.{splitn, rsplit_once, strip_prefix, decimal}
use nat_server.Common.Text.{Text, Bytes, text, parse_unsigned, as_bytes}
use nat_server.Message

-- The crate base64 (URL_SAFE_NO_PAD, with the UTF-8 of texts), the ports that core-common adds to an
-- address, and the version of the package.
pub record ProxyEnv : Type 0 where
  pub encode : Text → Text
  pub decode : Text → Option Text
  pub check_port : Text → ℕ → Text
  pub increase_port : Text → ℕ → Text
  pub version : Text

abbrev pub rendezvous_port : ℕ
rendezvous_port = 21116

-- The first 8 characters of the client's random part are given as `hex8`.
unfoldable pub proxy_uuid : ProxyEnv → Text → Text → ℕ → Text
proxy_uuid p hex8 host port =
    text "proxy:" ++ (p.encode (host ++ (b':' ∷ decimal port)) ++ (b':' ∷ hex8))

-- What `connect_via_relay` sends, and to whom: a notice to the rendezvous server, then a handshake to
-- the relay server.
pub record RelayCall : Type 0 where
  pub hbbs : Text
  pub notice : Message.RelayResponse
  pub hbbr : Text
  pub handshake : Bytes

-- `[len_byte, uuid_bytes...]`
unfoldable pub uuid_handshake : Text → Bytes
unfolding as_bytes
uuid_handshake uuid = let bytes = as_bytes uuid in (length bytes % 2 ^ 8) ∷ bytes

-- The relay server of the configuration, or the port after the rendezvous server's.
unfoldable pub relay_server_of : ProxyEnv → Text → Text → Text
relay_server_of p server relay_cfg =
    if is_empty relay_cfg then p.increase_port server 1 else relay_cfg

unfoldable pub connect_via_relay :
    ProxyEnv → Text → List Text → Text → Text → Text → ℕ → Option RelayCall
connect_via_relay p hex8 [] relay_cfg exit_peer host port = none
connect_via_relay p hex8 (server ∷ servers) relay_cfg exit_peer host port =
    let uuid = proxy_uuid p hex8 host port in
    let relay = relay_server_of p server relay_cfg in
    some (record {
      hbbs = p.check_port server rendezvous_port;
      notice = record {
        socket_addr = [];
        uuid = uuid;
        relay_server = relay;
        union = some (Message.RelayUnion.id exit_peer);
        refuse_reason = [];
        version = p.version;
        feedback = pos 0;
        socket_addr_v6 = [];
        upnp_port = pos 0;
      };
      hbbr = p.check_port relay (rendezvous_port + 1);
      handshake = uuid_handshake uuid;
    })

-- The piece between the first two colons.
abbrev pub second_part : List Text → Option Text
second_part (a ∷ b ∷ rest) = some b
second_part _ = none

-- `handle_proxy_relay`: the target in the uuid.
abbrev pub host_and_port : Option (Text × Text) → Option (Text × ℕ)
host_and_port none = none
host_and_port (some (host, port_str)) =
    let port = unwrap_or (parse_unsigned (2 ^ 16) port_str) 0 in
    if nat_eq port 0 then none else some (host, port)

abbrev pub decoded : ProxyEnv → Option Text → Option Text
decoded p none = none
decoded p (some part) = p.decode part

abbrev pub target_of : Option Text → Option (Text × ℕ)
target_of none = none
target_of (some target) = host_and_port (rsplit_once b':' target)

unfoldable pub proxy_target : ProxyEnv → Text → Option (Text × ℕ)
proxy_target p uuid = target_of (decoded p (second_part (splitn 3 b':' uuid)))

-- The branch of `handle_request_relay`.
abbrev pub is_some_text : Option Text → Bool
is_some_text none = false
is_some_text (some t) = true

unfoldable pub is_proxy_uuid : Text → Bool
is_proxy_uuid uuid = is_some_text (strip_prefix (text "proxy:") uuid)
