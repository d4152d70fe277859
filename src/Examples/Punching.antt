-- ===== src/Examples/Punching.antt =====
-- Examples for the brokering of connections.
use nat_server.Common.{
  List, ◌≡◌, refl, list_eq, list_has_eq, true, false, none, some, [], ◌∷◌, ◌&&◌, if◌then◌else◌,
}
use nat_server.Common.Int.{pos}
use nat_server.Common.Map.{lookup}
use nat_server.Common.Text.{text}
use nat_server.Net.{SocketAddr, v4, capnp, addr_has_eq}
use nat_server.Message
use nat_server.State.{msg, tcp, after, result}
use nat_server.Rendezvous.Punch.{is_online, handle_punch_hole_request}
use nat_server.Rendezvous.Punch.Answers.{has_key, addressee, punch_addressee}
use nat_server.Rendezvous.Tcp.{handle_tcp_message}
use nat_server.Rendezvous.Tcp.Brokering.{punch_brokered, hole_question, hole_answer, waiting}
use nat_server.Rendezvous.Loop.{
  Event, datagram, advance, accept, message, check_relay_tick, receive, hang_up, run,
}
use nat_server.Rendezvous.Loop.Serial.{run-serial, serial, IsAtLeast}
use nat_server.Rendezvous.Udp.{handle_udp}
use nat_server.Rendezvous.Udp.Authority.{handle_udp-IsGuarded, IsGuarded}
use nat_server.Rendezvous.Online.{online_states, is_seen}
use nat_server.Rendezvous.Online.Bits.{read_bit, online_states_bit}
use nat_server.Examples.{open_env, home, away, alice, alice_peer, the_server, the_sink, the_request}

is_known : lookup alice the_server.peers ≡ some alice_peer
unfolding lookup list_eq
is_known = refl

punch_addressee_example :
    addressee (result (handle_punch_hole_request open_env away the_request [] false) the_server)
    ≡ (if has_key [] the_request && is_online 5_000_000 alice_peer then some home else none)
punch_addressee_example =
    punch_addressee open_env away the_request [] false the_server alice_peer is_known

-- A's connection is at the address that the codes of the example decode to.
abbrev asker : SocketAddr
asker = v4 0 0

abbrev punched : Message.PunchHoleSent
punched = record {
  socket_addr = [];
  id = alice;
  relay_server = text "r";
  nat_type = pos 1;
  version = [];
  upnp_port = pos 0;
  socket_addr_v6 = [];
}

is_up : is_online 5_000_000 alice_peer ≡ true
unfolding is_online
is_up = refl

punch_brokered_example :
    let ask =
      handle_tcp_message open_env
        (Message.punch_hole_request the_request)
        (some the_sink)
        asker
        []
        false
        capnp in
    let answer =
      handle_tcp_message open_env (Message.punch_hole_sent punched) none home [] false capnp in
    let s1 = after ask the_server in
    let m =
      hole_question open_env asker the_request false alice_peer
        (waiting open_env the_sink asker capnp the_server) in
    (s1.channel ≡ msg m home capnp ∷ [])
    × ((after answer s1).sent
        ≡ tcp the_sink (hole_answer open_env punched home alice_peer the_server) capnp ∷ [])
punch_brokered_example =
    punch_brokered open_env the_request punched the_sink asker home [] false false capnp capnp
      the_server alice_peer is_known refl is_up refl refl refl

online_states_bit_example :
    read_bit 1 (online_states the_server (text "z" ∷ alice ∷ []))
    ≡ (if is_seen the_server alice then 1 else 0)
online_states_bit_example = online_states_bit the_server (text "z" ∷ alice ∷ []) 1 alice refl

-- A configuration from elsewhere, and from this machine.
abbrev traffic : List Event
traffic =
    datagram [] away
    ∷ advance 500
    ∷ accept 4 home
    ∷ message 4 []
    ∷ check_relay_tick
    ∷ receive
    ∷ hang_up 4
    ∷ []

run-serial_example :
    IsAtLeast
      (serial (run open_env [] traffic (record { server = the_server; conns = [] })))
      (pos 0)
run-serial_example = run-serial open_env [] traffic (record { server = the_server; conns = [] })

handle_udp-IsGuarded_example :
    IsGuarded open_env away the_server (after (handle_udp open_env [] away []) the_server)
handle_udp-IsGuarded_example = handle_udp-IsGuarded open_env [] away [] the_server
