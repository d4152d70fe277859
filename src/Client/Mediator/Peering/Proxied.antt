-- ===== src/Client/Mediator/Peering/Proxied.antt =====
-- On the proxy's requests at the exit node, in nat-client/src/rendezvous_mediator.rs.
use nat_server.Common.{ℕ, suc, ◌+◌, ◌^◌, ◌<◌, true, false, some, ◌≡◌, arith, contains, nat_has_eq}
use nat_server.Common.Text.{Text}
use nat_server.Net.{SocketAddr, Protocol}
use nat_server.Message
use nat_server.Client.Config.{ClientConfig}
use nat_server.Client.Proxy.{rendezvous_port, uuid_handshake, proxy_uuid}
use nat_server.Client.Proxy.RoundTrip.{proxy_target-proxy_uuid}
use nat_server.Client.Mediator.Jobs.{JobEnv, opens, proxied, Work, must}
use nat_server.Client.Mediator.Jobs.Works.{last_act, connect_tcp_works}
use nat_server.Client.Mediator.Peering.{get_relay_server, handle_proxy_relay, handle_request_relay}

-- Where the network works, base64 is undone by its decoder and has no colon, and the target can be reached, a
-- RequestRelay with the uuid that the proxy of any client makes for a host and a port from 1 to 65535
-- opens a tunnel from the relay to that very host and port, whatever the settings: no forwarding rule is
-- asked for.
pub request_relay_proxied :
    (e : JobEnv) (c : ClientConfig) (server : Text) (wire : Protocol) (rr : Message.RequestRelay)
    (local : SocketAddr) (w : Work) (hex8 host : Text) (port : ℕ)
    → ((t : Text) → e.proxy.decode (e.proxy.encode t) ≡ some t)
    → ((t : Text) → contains b':' (e.proxy.encode t) ≡ false)
    → 0 < port
    → port < 2 ^ 16
    → rr.uuid ≡ proxy_uuid e.proxy hex8 host port
    → ((n : ℕ) → e.connects n ≡ some local)
    → ((n : ℕ) → e.sends n ≡ true)
    → ((n : ℕ) → e.reaches n ≡ true)
    → last_act (handle_request_relay e c server wire rr w).1.acts
      ≡ some (
          opens (
            proxied
              (e.proxy.check_port
                (get_relay_server e c server rr.relay_server)
                (rendezvous_port + 1))
              (uuid_handshake rr.uuid)
              host
              port))
unfolding handle_request_relay handle_proxy_relay must
request_relay_proxied e c server wire rr local w hex8 host port undo plain low high made connects
      sends reaches =
    let (marked, target) = proxy_target-proxy_uuid e.proxy hex8 host port undo plain low high in
    ground (
      arith,
      made,
      marked,
      target,
      connect_tcp_works e local w (connects w.calls),
      sends (suc w.calls),
      reaches (suc (suc w.calls)),
    )
