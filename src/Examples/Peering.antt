-- ===== src/Examples/Peering.antt =====
-- Examples for the tunnels of nat-client, the codec, and the handshake before KCP.
use nat_server.Common.{
  ℕ, Bool, nat_eq, ◌≡◌, refl, list_eq, list_has_eq, nat_has_eq, true, false, none, some, [], ◌∷◌,
  ◌++◌, arith, ap, ◌==◌,
}
use nat_server.Common.Int.{pos}
use nat_server.Common.Map.{lookup}
use nat_server.Common.Text.{Text, text, split, trim}
use nat_server.Common.Split.{decimal, strip_prefix}
use nat_server.Net.{v4, capnp, proto3, addr_has_eq}
use nat_server.Message
use nat_server.Message.{Message}
use nat_server.State.{Server, tcp, after}
use nat_server.Rendezvous.Relays.{is_lan}
use nat_server.Rendezvous.Tcp.{handle_tcp_message}
use nat_server.Client.Config.{get_rendezvous_servers, find_target_for_peer}
use nat_server.Client.Proxy.{uuid_handshake, proxy_uuid, is_proxy_uuid}
use nat_server.Client.Mediator.Jobs.{
  JobEnv, Work, opens, told, relayed, proxied, outbound_direct, outbound_relay,
}
use nat_server.Client.Mediator.Jobs.Works.{last_act}
use nat_server.Client.Mediator.Dialing.{connect_to_peer}
use nat_server.Client.Mediator.Peering.{
  relay_notice, get_relay_server, handle_punch_hole, handle_request_relay,
}
use nat_server.Client.Mediator.Peering.Refused.{refusal, refusal_dialled}
use nat_server.Client.Mediator.Peering.Relayed.{
  relayed_answer, run_of, IsServed, forced_relay_joined, forced_relay_undelivered,
  request_relay_delivered,
}
use nat_server.Client.Mediator.Peering.Proxied.{request_relay_proxied}
use nat_server.Examples.{open_env, home, away, alice, alice_peer, the_server, the_sink}
use nat_server.Examples.Mediation.{the_config}
use nat_server.Examples.Clients.{the_proxy, plain-code, no_colon}

-- A network that works, with one answer.
abbrev jobs : Message → JobEnv
jobs x = record {
  proxy = the_proxy;
  parse = λ b. some x;
  can_encode = λ m w. true;
  parse_addr = λ t. none;
  ip_to_string = λ ip. text "p";
  mangle_encode = λ n a. [];
  mangle_decode = λ b. away;
  new_uuid = λ n. n ∷ [];
  connects = λ n. some home;
  reaches = λ n. true;
  sends = λ n. true;
  replies = λ n. some (8 ∷ []);
  binds_udp = λ n. true;
  public_port = λ n. some 7_000;
  accepts = λ n. false;
  listens = λ n. some 4_000;
}

abbrev idle : Work
idle = record { acts = []; calls = 0 }

abbrev forced_hole : Message.PunchHole
forced_hole = record {
  socket_addr = [];
  relay_server = [];
  nat_type = pos 2;
  udp_port = pos 0;
  force_relay = false;
  upnp_port = pos 0;
  socket_addr_v6 = [];
  control_permissions = [];
}

one_server : get_rendezvous_servers the_config ≡ text "hbbs" ∷ []
unfolding get_rendezvous_servers split trim
one_server = refl

refusal_dialled_example :
    let x = Message.punch_hole_response (refusal Message.offline) in
    let (r, w) = connect_to_peer (jobs x) the_config alice idle in
    (r ≡ some 4_000) × (last_act w.acts ≡ some (opens (outbound_direct 4_000 away)))
refusal_dialled_example =
    refusal_dialled (jobs (Message.punch_hole_response (refusal Message.offline))) the_config alice
      (text "hbbs") [] Message.offline home 4_000 (8 ∷ []) idle one_server (λ n. refl) (λ n. refl)
      (λ n. refl) (λ n. refl) refl

forced_relay_undelivered_example :
    run_of
      (last_act
        (handle_punch_hole
          (jobs Message.other)
          the_config
          (text "hbbs")
          proto3
          forced_hole
          idle).1.acts)
      true
      (λ n. true)
      (some (1 ∷ []) ∷ [])
    ≡ some (record { handshake = some (uuid_handshake (0 ∷ [])); service = none; delivered = [] })
forced_relay_undelivered_example =
    forced_relay_undelivered (jobs Message.other) the_config (text "hbbs") proto3 forced_hole home
      idle true (λ n. true) (some (1 ∷ []) ∷ []) refl (λ n. refl) (λ n. refl)

abbrev asked : Text → Message.RequestRelay
asked uuid = record {
  id = text "p";
  uuid = uuid;
  socket_addr = [];
  relay_server = [];
  secure = true;
  licence_key = [];
  conn_type = pos 0;
  token = [];
  control_permissions = [];
}

is_found : find_target_for_peer (text "p") the_config ≡ some (text "127.0.0.1", 22)
unfolding find_target_for_peer list_eq
is_found = refl

is_direct : is_proxy_uuid (text "u") ≡ false
unfolding is_proxy_uuid strip_prefix
is_direct = refl

-- The second write fails.
abbrev one_write : ℕ → Bool
one_write n = nat_eq n 0

request_relay_delivered_example :
    IsServed
      (text "u")
      (text "127.0.0.1" ++ (b':' ∷ decimal 22))
      one_write
      (some (1 ∷ []) ∷ some (2 ∷ []) ∷ none ∷ [])
      (run_of
        (last_act
          (handle_request_relay
            (jobs Message.other)
            the_config
            (text "hbbs")
            proto3
            (asked (text "u"))
            idle).1.acts)
        true
        one_write
        (some (1 ∷ []) ∷ some (2 ∷ []) ∷ none ∷ []))
request_relay_delivered_example =
    request_relay_delivered (jobs Message.other) the_config (text "hbbs") proto3 (asked (text "u"))
      home idle one_write (some (1 ∷ []) ∷ some (2 ∷ []) ∷ none ∷ []) (text "127.0.0.1") 22
      is_direct is_found refl (λ n. refl) (λ n. refl)

abbrev proxy_text : Text
proxy_text = proxy_uuid the_proxy (text "0123abcd") (text "10.0.0.1") 5432

-- Nobody made a rule for the port of a database.
request_relay_proxied_example :
    last_act
      (handle_request_relay
        (jobs Message.other)
        the_config
        (text "hbbs")
        proto3
        (asked proxy_text)
        idle).1.acts
    ≡ some (
        opens (
          proxied
            (get_relay_server (jobs Message.other) the_config (text "hbbs") [])
            (uuid_handshake proxy_text)
            (text "10.0.0.1")
            5432))
request_relay_proxied_example =
    request_relay_proxied (jobs Message.other) the_config (text "hbbs") proto3 (asked proxy_text)
      home idle (text "0123abcd") (text "10.0.0.1") 5432 (λ t. ap some (plain-code t)) no_colon
      (omega arith) (omega arith) refl (λ n. refl) (λ n. refl) (λ n. refl)

-- A waits under the address that the codes of the example decode to.
abbrev asking_server : Server
asking_server = record the_server { tcp_punch = (v4 0 0, (the_sink, capnp)) ∷ [] }

abbrev answer_of_b : Message
answer_of_b =
    relayed_answer (jobs Message.other) the_config (text "hbbs") forced_hole idle open_env
      asking_server alice_peer

is_known : lookup alice asking_server.peers ≡ some alice_peer
unfolding lookup list_eq
is_known = refl

is_waiting : lookup (v4 0 0) asking_server.tcp_punch ≡ some (the_sink, capnp)
unfolding lookup
is_waiting = refl

is_far : is_lan open_env (v4 0 0) asking_server.conf.inner ≡ false
unfolding is_lan
is_far = refl

is_other : (get_relay_server (jobs Message.other) the_config (text "hbbs") [] == text "l") ≡ false
unfolding get_relay_server list_eq
is_other = refl

forced_relay_joined_example :
    let rr =
      relay_notice
        (jobs Message.other)
        the_config
        []
        (get_relay_server (jobs Message.other) the_config (text "hbbs") [])
        (0 ∷ [])
        true in
    let relay = get_relay_server (jobs Message.other) the_config (text "hbbs") [] in
    let (r, w) = connect_to_peer (jobs answer_of_b) the_config alice idle in
    ((handle_punch_hole
        (jobs Message.other)
        the_config
        (text "hbbs")
        proto3
        forced_hole
        idle).1.acts
      ≡ opens (relayed relay (0 ∷ []) away [] 0)
        ∷ told (text "hbbs") (Message.relay_response rr) proto3
        ∷ [])
    × ((after
          (handle_tcp_message open_env (Message.relay_response rr) none home [] false proto3)
          asking_server).sent
        ≡ tcp the_sink answer_of_b capnp ∷ [])
    × (r ≡ some 4_000)
    × (last_act w.acts ≡ some (opens (outbound_relay 4_000 relay (uuid_handshake (0 ∷ [])))))
forced_relay_joined_example =
    forced_relay_joined (jobs Message.other) the_config (text "hbbs") proto3 forced_hole home idle
      open_env asking_server alice_peer the_sink capnp home [] false (jobs answer_of_b) the_config
      alice (text "hbbs") [] home 4_000 (8 ∷ []) idle refl (λ n. refl) (λ n. refl) is_known refl
      is_far is_other is_waiting (λ x. refl) one_server (λ n. refl) (λ n. refl) (λ n. refl)
      (λ n. refl) refl
