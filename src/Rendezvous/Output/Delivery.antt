-- ===== src/Rendezvous/Output/Delivery.antt =====
-- On `tcp_punch` of src/rendezvous_server.rs: connections that wait for an answer.
use nat_server.Common.{◌≡◌, true, some, ◌∷◌, arith}
use nat_server.Common.Map.{lookup-insert_self, lookup-remove}
use nat_server.Net.{SocketAddr, Protocol, addr_eq_iff, addr_has_eq}
use nat_server.Message.{Message}
use nat_server.State.{Env, Server, Sink, tcp, after, ◌>>◌}
use nat_server.Rendezvous.Output.{send_to_sink, send_to_tcp}
use nat_server.Rendezvous.Tcp.{park}

-- A message that can be encoded, sent to the address of a connection that was just parked, is written
-- to that connection in its protocol, whatever was parked there before.
pub park-send_to_tcp :
    (env : Env) (sink : Sink) (addr : SocketAddr) (wire : Protocol) (m : Message) (s : Server)
    → env.can_encode m wire ≡ true
    → (after (park env (some sink) addr wire >> send_to_tcp env m addr) s).sent
      ≡ tcp sink m wire ∷ s.sent
unfolding park send_to_tcp send_to_sink
park-send_to_tcp env sink addr wire m s encodes =
    ground (arith, lookup-insert_self (env.try_into_v4 addr) (sink, wire) s.tcp_punch)

-- After a message to a TCP address, a second one to it writes nothing.
pub send_to_tcp_twice :
    (env : Env) (addr : SocketAddr) (m m' : Message) (s : Server)
    → let s' = after (send_to_tcp env m addr) s in
      (after (send_to_tcp env m' addr) s').sent ≡ s'.sent
unfolding send_to_tcp send_to_sink
send_to_tcp_twice env addr m m' s =
    let key = env.try_into_v4 addr in
    ground (arith, lookup-remove key key s.tcp_punch, addr_eq_iff key key)
