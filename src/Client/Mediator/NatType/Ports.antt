-- ===== src/Client/Mediator/NatType/Ports.antt =====
-- On the detection of the NAT type, in nat-client/src/rendezvous_mediator.rs and src/rendezvous_server.rs.
use nat_server.Common.{ℕ, suc, ◌<◌, true, some, ◌∷◌, ◌≡◌, arith, if◌then◌else◌, nat_eq}
use nat_server.Common.Int.{pos}
use nat_server.Common.Text.{Text, Bytes}
use nat_server.Net.{SocketAddr, port_of, Protocol}
use nat_server.Message
use nat_server.State.{Env, Conf}
use nat_server.Rendezvous.Tcp.{test_nat}
use nat_server.Client.Mediator.Jobs.{JobEnv, told, Work}
use nat_server.Client.Mediator.Jobs.Works.{asked_once, sent_as, connect_tcp_works, tell_works}
use nat_server.Client.Mediator.NatType.{query_nat_port, detect_nat_type_inner}

abbrev after_query : JobEnv → Text → Protocol → Work → Work
after_query e host wire w =
    let x = Message.test_nat_request (pos 0) in
    record w { acts = told host x (sent_as e x wire) ∷ w.acts; calls = suc (suc (suc w.calls)) }

query_nat_port_seen :
    (e : JobEnv) (host : Text) (wire : Protocol) (env : Env) (conf : Conf) (addr local : SocketAddr)
    (b : Bytes) (w : Work)
    → e.connects w.calls ≡ some local
    → e.sends (suc w.calls) ≡ true
    → e.replies (suc (suc w.calls)) ≡ some b
    → e.parse b ≡ some (test_nat env (pos 0) addr conf)
    → query_nat_port e host wire w ≡ (some (pos (port_of addr)), after_query e host wire w)
unfolding query_nat_port test_nat
query_nat_port_seen e host wire env conf addr local b w connects sends replies parsed = ground (
  arith,
  connect_tcp_works e local w connects,
  tell_works e host (Message.test_nat_request (pos 0)) wire (asked_once w) sends,
  replies,
  parsed,
)

-- Where the network works and the client is handed the answers that the server makes for the addresses
-- from which it sees the two connections, both with a port that is not 0, the NAT type is 1 where the ports
-- are equal and 2 where they are not.
pub nat_type_of_ports :
    (e : JobEnv) (host : Text) (wire : Protocol) (env : Env) (conf conf' : Conf)
    (addr addr' local : SocketAddr) (b b' : Bytes) (w : Work)
    → ((n : ℕ) → e.connects n ≡ some local)
    → ((n : ℕ) → e.sends n ≡ true)
    → e.replies (suc (suc w.calls)) ≡ some b
    → e.replies (suc (suc (suc (suc (suc w.calls))))) ≡ some b'
    → e.parse b ≡ some (test_nat env (pos 0) addr conf)
    → e.parse b' ≡ some (test_nat env (pos 0) addr' conf')
    → 0 < port_of addr
    → 0 < port_of addr'
    → (detect_nat_type_inner e host wire w).0
      ≡ some (if nat_eq (port_of addr) (port_of addr') then 1 else 2)
unfolding detect_nat_type_inner
nat_type_of_ports e host wire env conf conf' addr addr' local b b' w connects sends replies replies'
      parsed parsed' low low' =
    let w1 = after_query e host wire w in
    ground (
      arith,
      query_nat_port_seen e host wire env conf addr local b w (connects w.calls)
          (sends (suc w.calls)) replies parsed,
      query_nat_port_seen e host wire env conf' addr' local b' w1 (connects w1.calls)
          (sends (suc w1.calls)) replies' parsed',
      low,
      low',
    )
