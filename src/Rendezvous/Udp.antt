-- ===== src/Rendezvous/Udp.antt =====
-- `handle_udp` of src/rendezvous_server.rs: one datagram.
pub mod Authority
pub mod Settings
use nat_server.PeerMap.{is_in_memory}
use nat_server.Rendezvous.Output.{send_udp}
use nat_server.Rendezvous.Relays.{test_if_valid_server}
use nat_server.Rendezvous.Register.{update_addr, handle_register_pk}
use nat_server.Rendezvous.Punch.{handle_udp_punch_hole_request, handle_hole_sent, handle_local_addr}
use nat_server.Common.{
  true, ◌&&◌, not, none, some, ◌==◌, list_has_eq, nat_has_eq, if◌then◌else◌, is_empty, select,
}
use nat_server.Common.Int.{pos, ltb_ℤ}
use nat_server.Common.Text.{Text, Bytes}
use nat_server.Net.{
  SocketAddr, ip_of, port_of, is_loopback, Protocol, detect, ip_has_eq, addr_has_eq,
}
use nat_server.State.{Server, Env, M, pure, gets, ◌>>=◌, ◌>>◌, modify, allow_err, when}
use nat_server.Message
use nat_server.Message.{Message}

module _ (env : Env) where
  -- RegisterPeer.
  unfoldable pub handle_register_peer : Message.RegisterPeer → SocketAddr → Protocol → M (Unit {0})
  handle_register_peer rp addr proto = if is_empty rp.id then pure tt else (do
    update_addr env rp.id addr proto
    conf ← gets (λ s. s.conf)
    when (ltb_ℤ rp.serial conf.inner.serial) (
        send_udp env
          (Message.configure_update
            (record { serial = conf.inner.serial; rendezvous_servers = conf.rendezvous_servers }))
          addr proto))

  -- ConfigureUpdate: from the loopback only, and only forwards.
  unfoldable pub handle_configure_update : Message.ConfigUpdate → SocketAddr → Server → Server
  handle_configure_update cu addr s =
      if is_loopback (ip_of (env.try_into_v4 addr)) && ltb_ℤ s.conf.inner.serial cu.serial
      then record s {
        conf = record (s.conf) {
          inner = record (s.conf.inner) { serial = cu.serial };
          rendezvous_servers =
              select (λ x. not (is_empty x) && test_if_valid_server env x) cu.rendezvous_servers;
        };
      }
      else s

  -- SoftwareUpdate.
  unfoldable pub handle_software_update : Text → SocketAddr → Protocol → M (Unit {0})
  handle_software_update url addr proto = do
    inner ← gets (λ s. s.conf.inner)
    when (not (is_empty inner.version) && not (url == inner.version))
        (send_udp env (Message.software_update inner.software_url) addr proto)

  -- The match on the message. A punch for a peer that is not in memory runs in a task of its own,
  -- whose error is only logged.
  unfoldable pub handle_udp_message : Message → SocketAddr → Text → Protocol → M (Unit {0})
  handle_udp_message (Message.register_peer rp) addr key proto = handle_register_peer rp addr proto
  handle_udp_message (Message.register_pk rk) addr key proto = handle_register_pk env rk addr proto
  handle_udp_message (Message.punch_hole_request ph) addr key proto = do
    here ← gets (is_in_memory ph.id)
    let punch = handle_udp_punch_hole_request env addr ph key proto
    if here then punch else allow_err punch
  handle_udp_message (Message.punch_hole_sent phs) addr key _ = handle_hole_sent env phs addr true
  handle_udp_message (Message.local_addr la) addr key _ = handle_local_addr env la addr true
  handle_udp_message (Message.configure_update cu) addr key _ =
      modify (handle_configure_update cu addr)
  handle_udp_message (Message.test_nat_request serial) addr key proto =
      send_udp env (Message.test_nat_response (record { port = pos (port_of addr); cu = none }))
        addr proto
  handle_udp_message (Message.software_update url) addr key proto =
      handle_software_update url addr proto
  handle_udp_message _ addr key _ = pure tt

  -- `handle_udp`.
  unfoldable pub handle_udp : Bytes → SocketAddr → Text → M (Unit {0})
  handle_udp bytes addr key = elim (env.parse bytes) [
    | none ↦ pure tt
    | some m ↦ handle_udp_message m addr key (detect bytes)
  ]
