-- ===== src/Examples/Mediation.antt =====
-- Examples for the mediator of nat-client: its registration and its peers.
use nat_server.Common.{
  ℕ, ◌≡◌, refl, list_eq, list_has_eq, true, false, none, some, List, [], ◌∷◌, arith,
}
use nat_server.Common.Int.{pos}
use nat_server.Common.Map.{lookup}
use nat_server.Common.Text.{text}
use nat_server.Net.{proto3, addr_has_eq}
use nat_server.Message
use nat_server.Message.{Message}
use nat_server.Client.Config.{ForwardRule, ClientConfig, get_host_key_confirmed, get_auth_token}
use nat_server.Client.Mediator.{
  MediatorEnv, Mediator, goes_on, message, run, needs_registration, receive, register_pk_message,
}
use nat_server.Client.Mediator.Heartbeat.{heartbeat_each_tick, rounds}
use nat_server.Client.Mediator.{tick}
use nat_server.Client.Mediator.Enrolment.{enrolment}
use nat_server.Database.{select_peer}
use nat_server.PeerMap.{require_jwt}
use nat_server.Rendezvous.Tcp.{tcp_register_pk}
use nat_server.State.{Server, Peer, tcp, after}
use nat_server.Examples.{open_env, home, alice, the_server, the_sink}

abbrev ssh : ForwardRule
ssh = record {
  id = text "1";
  name = text "SSH";
  peer_id = text "p";
  target_host = text "127.0.0.1";
  target_port = 22;
  enabled = true;
}

abbrev pub the_config : ClientConfig
the_config = record {
  id = alice;
  uuid = text "u";
  sk = text "s";
  pk = text "k";
  key_confirmed = true;
  host_keys_confirmed = (text "hbbs", true) ∷ [];
  rendezvous_servers = text "hbbs";
  rendezvous_wire_protocol = proto3;
  relay_server = text "hbbr";
  ipc_port = 21114;
  nat_type = pos 0;
  api_url = [];
  auth_token = [];
  auth_token_expires = pos 0;
  auth_user_id = pos 0;
  auth_username = [];
  auth_role = [];
  auth_device_row_id = pos 0;
  forward_rules = ssh ∷ [];
}

abbrev fed : Message → MediatorEnv
fed x = record {
  parse = λ b. some x;
  can_encode = λ m w. true;
  base64_decode = λ t. some t;
  unix = λ n. n;
  send_ok = λ n. true;
}

abbrev mediator : ClientConfig → Mediator
mediator c = record {
  host = text "hbbs";
  host_prefix = text "hbbs";
  wire = proto3;
  config = c;
  online = true;
  should_exit = false;
  manual_restarted = false;
  nat_detected = true;
  last_register_sent = none;
  last_recv_msg = 0;
  sent = [];
  tasks = [];
  sends = 0;
}

is_confirmed : needs_registration (mediator the_config) ≡ false
unfolding get_host_key_confirmed list_eq lookup
is_confirmed = refl

abbrev three : List (ℕ × ℕ)
three = (500, 510) ∷ (1_000, 1_010) ∷ (1_500, 1_510) ∷ []

-- Three heartbeats in a second and a half.
heartbeat_each_tick_example :
    let e = fed (Message.register_peer_response false) in
    let x = message (Message.register_peer (record { id = alice; serial = pos 0 })) proto3 in
    let (turn, m) = run e (rounds (8 ∷ []) three) (mediator the_config) in
    (turn ≡ goes_on) × (m.sent ≡ x ∷ x ∷ x ∷ [])
heartbeat_each_tick_example =
    heartbeat_each_tick (fed (Message.register_peer_response false)) (λ n. refl) (8 ∷ []) three
      (mediator the_config) refl refl refl is_confirmed refl
      (omega arith, (omega arith, (omega arith, tt)))

abbrev new_client : ClientConfig
new_client = record the_config { key_confirmed = false; host_keys_confirmed = [] }

abbrev new_server : Server
new_server = record the_server { peers = []; db = record { peer = []; user_devices = [] } }

is_new : needs_registration (mediator new_client) ≡ true
unfolding get_host_key_confirmed
is_new = refl

is_logged_out : get_auth_token 1_000 new_client ≡ none
unfolding get_auth_token
is_logged_out = refl

is_open : require_jwt open_env ≡ false
unfolding require_jwt
is_open = refl

is_unknown : select_peer alice [] ≡ none
unfolding select_peer
is_unknown = refl

is_absent : lookup {V = Peer} alice [] ≡ none
unfolding lookup
is_absent = refl

enrolment_example :
    let e = fed (Message.register_pk_response (Message.pk_response Message.registered)) in
    let m = mediator new_client in
    let rf = register_pk_message e 1_000 new_client in
    let (turn, m1) = tick e 1_000 m in
    let s' = after (tcp_register_pk open_env rf (some the_sink) home proto3) new_server in
    let (turn', m2) = receive e 1_020 (some (8 ∷ [])) m1 in
    (turn ≡ goes_on)
    × (m1.sent ≡ message (Message.register_pk rf) proto3 ∷ [])
    × (s'.sent
        ≡ tcp the_sink
            (Message.register_pk_response (Message.pk_response Message.registered))
            proto3
          ∷ [])
    × (select_peer alice s'.db.peer
        ≡ some (record {
          guid = 103 ∷ 1 ∷ [];
          id = alice;
          uuid = text "u";
          pk = text "k";
          info = 123 ∷ 167772161 ∷ [];
          user_id = none;
          device_id = none;
        }))
    × (turn' ≡ goes_on)
    × (needs_registration m2 ≡ false)
    × (m2.online ≡ true)
enrolment_example =
    enrolment (fed (Message.register_pk_response (Message.pk_response Message.registered))) open_env
      (mediator new_client) new_server the_sink home 1_000 1_020 (8 ∷ []) refl (omega arith) refl
      is_new is_logged_out refl refl is_absent is_unknown is_open (λ n. refl) (λ x. refl) refl refl
