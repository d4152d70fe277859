-- ===== src/Examples/Wire.antt =====
-- Examples for the codec, and for the handshake before KCP.
use nat_server.Common.{
  zero, suc, List, Bool, ap, ◌≡◌, ◌≢◌, refl, list_eq, list_has_eq, true, false, none, some, Option,
  [], ◌∷◌, arith,
}
use nat_server.Common.Map.{lookup}
use nat_server.Common.Int.{ℤ, pos, negsuc}
use nat_server.Common.Text.{Text, Bytes, text}
use nat_server.Net.{v4, capnp, proto3, addr_has_eq, detect}
use nat_server.Message
use nat_server.Message.{Message}
use nat_server.State.{Env, after}
use nat_server.Rendezvous.Tcp.{handle_tcp_message}
use nat_server.Rendezvous.Loop.{receive_next}
use nat_server.Codec.Schema.{Struct, test_nat_response}
use nat_server.Codec.{Crates, parse, serialize, to_capnp, build}
use nat_server.Codec.RoundTrip.{parse-serialize}
use nat_server.Codec.Carried.{relay_question_lost}
use nat_server.Client.Kcp.{
  Ends, Handshake, started, connect_request, accept_reply, arrive, kcp_connect, kcp_accept, Step,
  asks, arrives, Run, here, next,
}
use nat_server.Client.Kcp.Order.{connected_accepted}
use nat_server.Client.Kcp.Sockets.{other_socket_unanswered}
use nat_server.Examples.{open_env, home, away, alice, alice_peer, the_server, the_sink}

-- A crate that writes an answer about NAT, without an update, as its port.
abbrev pack : ℤ → ℤ → List Text → Option Bytes
pack (pos n) (pos zero) [] = some (0 ∷ n ∷ [])
pack _ _ _ = none

abbrev write_port : Struct → Option Bytes
write_port (test_nat_response r) = pack r.port r.config_serial r.rendezvous_servers
write_port _ = none

abbrev read_port : Bytes → Option Struct
read_port (b ∷ n ∷ []) =
    some
      (test_nat_response (record { port = pos n; config_serial = pos 0; rendezvous_servers = [] }))
read_port _ = none

abbrev ports_only : Crates
ports_only = record {
  parse_from_bytes = λ b. none;
  write_to_bytes = λ m. some (8 ∷ []);
  read = read_port;
  write = write_port;
}

pack_read :
    (p serial : ℤ) (servers : List Text) (b : Bytes)
    → pack p serial servers ≡ some b
    → (read_port b
        ≡ some (
            test_nat_response
              (record { port = p; config_serial = serial; rendezvous_servers = servers })))
      × (detect b ≡ capnp)
pack_read (pos n) (pos zero) [] b h = ground (arith, h)
pack_read (pos n) (pos zero) (x ∷ xs) b h = absurd (cc h)
pack_read (pos n) (pos (suc k)) servers b h = absurd (cc h)
pack_read (pos n) (negsuc k) servers b h = absurd (cc h)
pack_read (negsuc n) serial servers b h = absurd (cc h)

port_read :
    (x : Struct) (b : Bytes) → write_port x ≡ some b → (read_port b ≡ some x) × (detect b ≡ capnp)
port_read (test_nat_response r) b h = pack_read r.port r.config_serial r.rendezvous_servers b h
port_read _ b h = absurd (cc h)

is_serialized :
    serialize ports_only (Message.test_nat_response (record { port = pos 7_000; cu = none })) capnp
    ≡ some (0 ∷ 7_000 ∷ [])
unfolding serialize to_capnp build
is_serialized = refl

-- No update was sent, and an empty one arrives.
parse-serialize_example :
    parse ports_only (0 ∷ 7_000 ∷ [])
    ≡ some (
        Message.test_nat_response (record {
          port = pos 7_000;
          cu = some (record { serial = pos 0; rendezvous_servers = [] });
        }))
parse-serialize_example =
    parse-serialize ports_only (Message.test_nat_response (record { port = pos 7_000; cu = none }))
      (0 ∷ 7_000 ∷ []) (λ x b h. (port_read x b h).0) (λ x b h. (port_read x b h).1) is_serialized

-- The encodings of the codec.
abbrev is_some : Option Bytes → Bool
is_some none = false
is_some (some b) = true

abbrev codec_env : Env
codec_env = record open_env { can_encode = λ m p. is_some (serialize ports_only m p) }

abbrev the_question : Message.RequestRelay
the_question = record {
  id = alice;
  uuid = text "u";
  socket_addr = [];
  relay_server = [];
  secure = false;
  licence_key = [];
  conn_type = pos 0;
  token = [];
  control_permissions = [];
}

is_known : lookup alice the_server.peers ≡ some alice_peer
unfolding lookup list_eq
is_known = refl

relay_question_lost_example :
    let s1 =
      after
        (handle_tcp_message codec_env
          (Message.request_relay the_question)
          (some the_sink)
          away
          []
          false
          proto3)
        the_server in
    let s2 = receive_next codec_env s1 in
    (s2.channel ≡ []) × (s2.sent ≡ []) × (lookup away s2.tcp_punch ≡ some (the_sink, proto3))
relay_question_lost_example =
    relay_question_lost ports_only codec_env the_question the_sink away [] false proto3 the_server
      alice_peer (λ m p h. ap is_some h) is_known refl refl

-- Two sockets that know each other's addresses.
abbrev matched : Ends
matched = record { connect_at = home; connect_peer = away; accept_at = away; accept_peer = home }

abbrev asked : Handshake
asked = record { flight = connect_request matched ∷ []; connected = false; accepted = false }

abbrev replied : Handshake
replied = record { flight = accept_reply matched ∷ []; connected = false; accepted = true }

abbrev both_joined : Handshake
both_joined = record { flight = []; connected = true; accepted = true }

is_accepted : replied ≡ arrive matched (connect_request matched) started
unfolding arrive kcp_accept list_eq
is_accepted = refl

is_joined : both_joined ≡ arrive matched (accept_reply matched) (record replied { flight = [] })
unfolding arrive kcp_connect list_eq
is_joined = refl

asking : Step matched started asked
asking = asks refl refl

accepting : Step matched asked replied
accepting = arrives [] [] (connect_request matched) refl is_accepted

joining : Step matched replied both_joined
joining = arrives [] [] (accept_reply matched) refl is_joined

handshake-Run : Run matched started both_joined
handshake-Run = next (next (next here asking) accepting) joining

connected_accepted_example : both_joined.accepted ≡ true
connected_accepted_example = connected_accepted matched both_joined handshake-Run refl

-- The accepting end was told the port of another socket.
abbrev unmatched : Ends
unmatched = record {
  connect_at = v4 1 7_001;
  connect_peer = away;
  accept_at = away;
  accept_peer = v4 1 7_000;
}

abbrev ignored_once : Handshake
ignored_once = started

is_ignored : ignored_once ≡ arrive unmatched (connect_request unmatched) started
unfolding arrive kcp_accept list_eq
is_ignored = refl

abbrev asked_in_vain : Handshake
asked_in_vain = record started { flight = connect_request unmatched ∷ [] }

asking_in_vain : Step unmatched started asked_in_vain
asking_in_vain = asks refl refl

ignoring : Step unmatched asked_in_vain ignored_once
ignoring = arrives [] [] (connect_request unmatched) refl is_ignored

ignored-Run : Run unmatched started ignored_once
ignored-Run = next (next here asking_in_vain) ignoring

is_other_socket : v4 1 7_000 ≢ v4 1 7_001
is_other_socket h = ground (arith, h)

other_socket_unanswered_example : (ignored_once.connected ≡ false) × (ignored_once.accepted ≡ false)
other_socket_unanswered_example =
    other_socket_unanswered unmatched ignored_once is_other_socket ignored-Run
