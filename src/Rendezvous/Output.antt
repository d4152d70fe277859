-- ===== src/Rendezvous/Output.antt =====
-- Sending in src/rendezvous_server.rs: on the UDP socket, on a connection, to a waiting connection.
pub mod Delivery
use nat_server.Common.{
  suc, Option, none, some, [], ◌∷◌, ◌++◌, list_has_eq, nat_has_eq, if◌then◌else◌,
}
use nat_server.Common.Map.{lookup, remove}
use nat_server.Net.{SocketAddr, Protocol, proto3, ip_has_eq, addr_has_eq}
use nat_server.State.{
  Data, Sink, udp, tcp, Env, send_failed, encode_failed, ok, err, M, pure, fail, gets, ◌>>=◌, ◌>>◌,
  modify,
}
use nat_server.Message
use nat_server.Message.{Message}

-- `self.tx.send(…)`: the main loop owns the receiver, so this does not fail.
abbrev pub enqueue : Data → M (Unit {0})
enqueue d = modify λ s. record s { channel = s.channel ++ d ∷ [] }

module _ (env : Env) where
  -- One send on the UDP socket.
  unfoldable pub transmit : Message → SocketAddr → Protocol → M (Unit {0})
  transmit m addr proto s =
      let t = record s { calls = suc s.calls } in
      if env.udp_ok s.calls
      then (ok tt, record t { sent = udp m addr proto ∷ s.sent })
      else (err send_failed, t)

  -- `serialize` and `send_bytes`, or `send` in proto3 where the protocol cannot carry the message.
  unfoldable pub send_udp : Message → SocketAddr → Protocol → M (Unit {0})
  unfolding transmit
  send_udp m addr proto =
      if env.can_encode m proto
      then transmit m addr proto
      else if env.can_encode m proto3
      then transmit m addr proto3
      else fail encode_failed

  -- `send_rk_res`.
  unfoldable pub send_rk_res : SocketAddr → Message.PkResult → Protocol → M (Unit {0})
  unfolding send_udp
  send_rk_res addr res proto =
      send_udp (Message.register_pk_response (Message.pk_response res)) addr proto

  -- `send_to_sink`.
  unfoldable pub send_to_sink : Option Sink → Message → Protocol → M (Unit {0})
  send_to_sink none m _ = pure tt
  send_to_sink (some sink) m proto =
      if env.can_encode m proto
      then modify (λ s. record s { sent = tcp sink m proto ∷ s.sent })
      else if env.can_encode m proto3
      then modify (λ s. record s { sent = tcp sink m proto3 ∷ s.sent })
      else pure tt

  -- `send_to_tcp` and `send_to_tcp_sync`: to the connection that waits under the address, which is
  -- taken out.
  unfoldable pub send_to_tcp : Message → SocketAddr → M (Unit {0})
  unfolding send_to_sink
  send_to_tcp m addr = do
    waiting ← gets (λ s. lookup (env.try_into_v4 addr) s.tcp_punch)
    modify (λ s. record s { tcp_punch = remove (env.try_into_v4 addr) s.tcp_punch })
    elim waiting [ none ↦ pure tt | some (sink, proto) ↦ send_to_sink (some sink) m proto ]
