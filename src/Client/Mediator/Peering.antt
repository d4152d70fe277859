-- ===== src/Client/Mediator/Peering.antt =====
-- nat-client/src/rendezvous_mediator.rs: how a client answers the server's questions about a peer, and how
-- it asks for one. Tunnels are those of nat-client/src/port_forward.rs.
pub mod Relayed
pub mod Refused
pub mod Proxied
use nat_server.Common.{
  ℕ, ◌+◌, Bool, true, false, ◌||◌, not, Option, none, some, List, [], ◌∷◌, nat_eq, if◌then◌else◌,
  is_empty, unwrap_or, ltb, ◌&&◌,
}
use nat_server.Common.Int.{ℤ, pos, eq_ℤ, ltb_ℤ}
use nat_server.Common.Text.{Text, Bytes, text}
use nat_server.Net.{SocketAddr, IpAddr, ip_of, port_of, Protocol}
use nat_server.Message
use nat_server.Message.{Message}
use nat_server.Client.Config.{ClientConfig, find_target_for_peer, get_rendezvous_servers}
use nat_server.Client.Proxy.{rendezvous_port, uuid_handshake, proxy_target, is_proxy_uuid}
use nat_server.Client.Mediator.Jobs.{
  JobEnv, Tunnel, inbound, inbound_kcp, relayed, proxied, outbound_direct, outbound_kcp,
  outbound_relay, told, syn, probes, opens, Job, pure, bail, lift, attempt, ask, ◌>>=◌, ◌>>◌, act,
  as_u16, addr_at, connect_tcp, must, tell,
}

-- `enum_value_or_default() == SYMMETRIC`.
abbrev pub is_symmetric : Option Message.NatType → Bool
is_symmetric (some Message.symmetric) = true
is_symmetric _ = false

abbrev pub is_forced : Message.PunchHole → Bool
is_forced ph = ph.force_relay || is_symmetric (Message.enum_value ph.nat_type)

-- `find_target_for_peer`, with port 0 where no rule fits.
abbrev pub target_for : ClientConfig → Text → Text × ℕ
target_for c peer = unwrap_or (find_target_for_peer peer c) (text "127.0.0.1", 0)

module _ (e : JobEnv) (c : ClientConfig) where
  -- The relay server of the settings, else the given one, else the port after the host's.
  unfoldable pub get_relay_server : Text → Text → Text
  get_relay_server host provided =
      if not (is_empty c.relay_server)
      then c.relay_server
      else if not (is_empty provided)
      then provided
      else e.proxy.increase_port host 1

  -- `probe_udp_public_port`.
  unfoldable pub probe_udp_public_port : Text → Job (Option ℕ)
  probe_udp_public_port host = elim (e.parse_addr (e.proxy.check_port host rendezvous_port)) [
    | none ↦ pure none
    | some hbbs ↦ do bound ← ask e.binds_udp; if bound then ask e.public_port else pure none
  ]

  -- The answer that a peer is told of, by its address: it names the relay and the uuid on our side only.
  abbrev pub relay_notice : Bytes → Text → Text → Bool → Message.RelayResponse
  relay_notice socket_addr relay uuid initiate = record {
    socket_addr = socket_addr;
    uuid = if initiate then uuid else [];
    relay_server = if initiate then relay else [];
    union = if initiate then some (Message.RelayUnion.id c.id) else none;
    refuse_reason = [];
    version = e.proxy.version;
    feedback = pos 0;
    socket_addr_v6 = [];
    upnp_port = pos 0;
  }

  unfoldable pub create_relay_connection :
      Text → Protocol → Bytes → Text → Text → Bool → Text → Job (Unit {0})
  create_relay_connection host wire socket_addr relay uuid initiate peer_id = do
    _ ← connect_tcp e
    tell e host (Message.relay_response (relay_notice socket_addr relay uuid initiate)) wire
    let relay_addr = e.proxy.check_port relay (rendezvous_port + 1)
    let peer = e.mangle_decode socket_addr
    _ ← connect_tcp e
    if initiate
        then act (opens (relayed relay_addr uuid peer [] 0))
        else (let (target_host, target_port) = target_for c peer_id in
            if nat_eq target_port 0
            then pure tt
            else act (opens (relayed relay_addr uuid peer target_host target_port)))

  -- UDP punching with KCP: did it give a tunnel?
  unfoldable pub try_kcp : Text → SocketAddr → ℕ → Text → Job Bool
  try_kcp host peer udp_port uuid =
      if nat_eq udp_port 0
      then pure false
      else elim (e.parse_addr (e.proxy.check_port host rendezvous_port)) [
        | none ↦ pure false
        | some hbbs ↦ if nat_eq (port_of hbbs) 0 then pure false else (do
          bound ← ask e.binds_udp
          if bound
              then (do
                _ ← ask e.public_port
                act (probes (addr_at (ip_of peer) udp_port))
                done ← ask e.accepts
                let (target_host, target_port) = target_for c (e.ip_to_string (ip_of peer))
                if done && not (nat_eq target_port 0)
                    then (do
                      act (
                          opens (
                            inbound_kcp (addr_at (ip_of peer) udp_port) uuid target_host
                              target_port))
                      pure true)
                    else pure false)
              else pure false)
      ]

  unfoldable pub punch_tcp_hole :
      Text → Protocol → SocketAddr → Bytes → Text → Text → Job (Unit {0})
  punch_tcp_hole host wire peer socket_addr relay uuid = do
    local ← connect_tcp e
    act (syn local peer)
    udp_port ← probe_udp_public_port host
    tell e host
        (Message.punch_hole_sent (record {
          socket_addr = socket_addr;
          id = c.id;
          relay_server = relay;
          nat_type = pos 0;
          version = e.proxy.version;
          upnp_port = pos (unwrap_or udp_port 0);
          socket_addr_v6 = [];
        }))
        wire
    let (target_host, target_port) = target_for c (e.ip_to_string (ip_of peer))
    if nat_eq target_port 0
        then pure tt
        else act (opens (inbound local peer uuid target_host target_port))

  unfoldable pub handle_punch_hole : Text → Protocol → Message.PunchHole → Job (Unit {0})
  handle_punch_hole host wire ph = do
    let peer = e.mangle_decode ph.socket_addr
    let relay = get_relay_server host ph.relay_server
    uuid ← ask e.new_uuid
    if is_forced ph
        then create_relay_connection host wire ph.socket_addr relay uuid true []
        else (do
          done ← try_kcp host peer (as_u16 ph.upnp_port) uuid
          if done then pure tt else (do
            punched ← attempt (punch_tcp_hole host wire peer ph.socket_addr relay uuid)
            elim punched [
              | some _ ↦ pure tt
              | none ↦ create_relay_connection host wire ph.socket_addr relay uuid true []
            ]))

  unfoldable pub handle_proxy_relay : Text → Message.RequestRelay → Job (Unit {0})
  handle_proxy_relay host rr = elim (proxy_target e.proxy rr.uuid) [
    | none ↦ pure tt
    | some (target_host, port) ↦ do
      let relay_addr =
          e.proxy.check_port (get_relay_server host rr.relay_server) (rendezvous_port + 1)
      _ ← connect_tcp e
      must e e.sends
      must e e.reaches
      act (opens (proxied relay_addr (uuid_handshake rr.uuid) target_host port))
  ]

  unfoldable pub handle_request_relay : Text → Protocol → Message.RequestRelay → Job (Unit {0})
  handle_request_relay host wire rr =
      if is_proxy_uuid rr.uuid
      then handle_proxy_relay host rr
      else create_relay_connection host wire rr.socket_addr (get_relay_server host rr.relay_server)
          rr.uuid false rr.id

  unfoldable pub handle_fetch_local_addr : Text → Protocol → Message.FetchLocalAddr → Job (Unit {0})
  handle_fetch_local_addr host wire fla = do
    let peer = e.mangle_decode fla.socket_addr
    local ← connect_tcp e
    from ← ask (λ n. e.mangle_encode n peer)
    here ← ask (λ n. e.mangle_encode n local)
    tell e host
        (Message.local_addr (record {
          socket_addr = from;
          local_addr = here;
          relay_server = get_relay_server host fla.relay_server;
          id = c.id;
          version = e.proxy.version;
          socket_addr_v6 = [];
        }))
        wire
