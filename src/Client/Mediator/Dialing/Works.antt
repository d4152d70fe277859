-- ===== src/Client/Mediator/Dialing/Works.antt =====
-- On `connect_to_peer` of nat-client/src/rendezvous_mediator.rs over a network that works.
use nat_server.Common.{ℕ, suc, true, some, List, ◌∷◌, ◌≡◌, arith, if◌then◌else◌, unwrap_or}
use nat_server.Common.Text.{Text, Bytes}
use nat_server.Net.{SocketAddr, Protocol}
use nat_server.Client.Proxy.{rendezvous_port}
use nat_server.Message
use nat_server.Client.Config.{ClientConfig, get_rendezvous_servers}
use nat_server.Client.Mediator.Jobs.{JobEnv, told, Work}
use nat_server.Client.Mediator.Jobs.Works.{asked_once, sent_as, connect_tcp_works, tell_works}
use nat_server.Client.Mediator.Dialing.{
  hole_request, answered, my_udp_port, ask_for_peer, connect_to_peer,
}

-- The public port, and the questions that it takes.
abbrev pub port_known : JobEnv → ℕ → ℕ
port_known e n = if e.binds_udp n then unwrap_or (e.public_port (suc n)) 0 else 0

abbrev pub port_calls : JobEnv → ℕ → ℕ
port_calls e n = if e.binds_udp n then suc (suc n) else suc n

my_udp_port_lem :
    (e : JobEnv) (w : Work)
    → my_udp_port e w ≡ (some (port_known e w.calls), record w { calls = port_calls e w.calls })
unfolding my_udp_port
my_udp_port_lem e w = ground arith

-- What a client has done when the answer comes.
abbrev pub asking : JobEnv → Text → Text → Text → Protocol → Work → Work
asking e host peer_id my_id wire w =
    let x = Message.punch_hole_request (hole_request e peer_id my_id (port_known e w.calls)) in
    record w {
      acts = told host x (sent_as e x wire) ∷ w.acts;
      calls = suc (suc (suc (port_calls e w.calls)));
    }

-- Where the network works, the answer of the server is what counts.
pub connect_to_peer_works :
    (e : JobEnv) (c : ClientConfig) (peer_id server : Text) (rest : List Text) (local : SocketAddr)
    (b : Bytes) (w : Work)
    → get_rendezvous_servers c ≡ server ∷ rest
    → ((n : ℕ) → e.connects n ≡ some local)
    → ((n : ℕ) → e.sends n ≡ true)
    → ((n : ℕ) → e.replies n ≡ some b)
    → connect_to_peer e c peer_id w
      ≡ answered e (port_known e w.calls) (e.parse b) (
          asking e
            (e.proxy.check_port server rendezvous_port)
            peer_id
            c.id
            c.rendezvous_wire_protocol
            w)
unfolding connect_to_peer ask_for_peer
connect_to_peer_works e c peer_id server rest local b w servers connects sends replies =
    let host = e.proxy.check_port server rendezvous_port in
    let my = port_known e w.calls in
    let w1 : Work = record w { calls = port_calls e w.calls } in
    ground (
      arith,
      servers,
      my_udp_port_lem e w,
      connect_tcp_works e local w1 (connects w1.calls),
      tell_works e host (Message.punch_hole_request (hole_request e peer_id c.id my))
          c.rendezvous_wire_protocol (asked_once w1) (sends (suc w1.calls)),
      replies (suc (suc w1.calls)),
    )
