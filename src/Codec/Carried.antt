-- ===== src/Codec/Carried.antt =====
-- On questions to a peer that speaks Cap'n Proto, in libs/core-common/src/rendezvous_codec.rs and
-- src/rendezvous_server.rs.
use nat_server.Common.{list_has_eq, Bool, false, none, some, [], ◌≡◌, refl, arith}
use nat_server.Common.Map.{lookup, lookup-insert_self}
use nat_server.Common.Text.{Text}
use nat_server.Net.{SocketAddr, addr_has_eq, Protocol, capnp}
use nat_server.Message
use nat_server.Message.{Message}
use nat_server.State.{Env, Server, Peer, Sink, after}
use nat_server.Rendezvous.Loop.{deliver, receive_next}
use nat_server.Rendezvous.Tcp.{park, forward_relay_request, handle_tcp_message}
use nat_server.Codec.{Crates, build, to_capnp, serialize}

-- Neither question to a peer can be built.
question_unbuilt :
    (c : Crates) (rr : Message.RequestRelay) → serialize c (Message.request_relay rr) capnp ≡ none
unfolding serialize to_capnp build
question_unbuilt c rr = refl

-- A server whose encodings are those of the codec, with nothing left to deliver, is asked by A on a
-- connection to relay to a peer B in memory that speaks Cap'n Proto. The main loop then takes the
-- question for B off its channel and sends nothing, while A's connection still waits for the answer.
pub relay_question_lost :
    (c : Crates) (env : Env) (rr : Message.RequestRelay) (sink : Sink) (addr : SocketAddr)
    (key : Text) (ws : Bool) (wire : Protocol) (s : Server) (b : Peer)
    → ((m : Message) (p : Protocol) → serialize c m p ≡ none → env.can_encode m p ≡ false)
    → lookup rr.id s.peers ≡ some b
    → b.protocol ≡ capnp
    → s.channel ≡ []
    → let s1 =
        after (handle_tcp_message env (Message.request_relay rr) (some sink) addr key ws wire) s in
      let s2 = receive_next env s1 in
      (s2.channel ≡ [])
      × (s2.sent ≡ s.sent)
      × (lookup (env.try_into_v4 addr) s2.tcp_punch ≡ some (sink, wire))
unfolding handle_tcp_message park forward_relay_request receive_next deliver
relay_question_lost c env rr sink addr key ws wire s b codec found speaks idle =
    let rr' : Message.RequestRelay = record rr { socket_addr = env.mangle_encode s.now addr } in
    ground (
      arith,
      found,
      speaks,
      idle,
      codec (Message.request_relay rr') capnp (question_unbuilt c rr'),
      lookup-insert_self (env.try_into_v4 addr) (sink, wire) s.tcp_punch,
    )
