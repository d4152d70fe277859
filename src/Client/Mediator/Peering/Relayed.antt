-- ===== src/Client/Mediator/Peering/Relayed.antt =====
-- On a forced relay: B of nat-client/src/rendezvous_mediator.rs, the server of src/rendezvous_server.rs, and A.
use nat_server.Common.{
  ℕ, suc, ◌+◌, Bool, true, false, Option, none, some, List, ◌∷◌, [], ◌==◌, list_has_eq, ◌≡◌, refl,
  arith, is_empty, nat_eq, ◌++◌,
}
use nat_server.Common.Map.{lookup}
use nat_server.Common.Text.{Text, Bytes}
use nat_server.Net.{SocketAddr, Protocol, addr_has_eq}
use nat_server.Message
use nat_server.State.{Env, Server, Peer, Sink, tcp, after}
use nat_server.Rendezvous.Output.{send_to_sink, send_to_tcp}
use nat_server.Rendezvous.Relays.{is_lan}
use nat_server.Rendezvous.Tcp.{chosen_relay, handle_relay_response, handle_tcp_message}
use nat_server.Rendezvous.Tcp.Brokering.{signed_pk, get_pk_known}
use nat_server.Client.Config.{ClientConfig, get_rendezvous_servers, find_target_for_peer}
use nat_server.Client.Proxy.{rendezvous_port, uuid_handshake, is_proxy_uuid}
use nat_server.Common.Split.{decimal}
use nat_server.Client.Mediator.Jobs.{JobEnv, Act, told, opens, relayed, outbound_relay, Work}
use nat_server.Client.Mediator.Jobs.Works.{
  last_act, asked_once, sent_as, connect_tcp_works, tell_works,
}
use nat_server.Client.Mediator.Jobs.{must}
use nat_server.Client.Mediator.Dialing.{
  create_outbound_relay, answered, connect_to_peer, copy_frames, register_relay, RelayRun,
}
use nat_server.Client.Mediator.Dialing.Copied.{frames_of, IsDelivered, copy_frames-IsDelivered}
use nat_server.Client.Mediator.Dialing.Works.{port_known, asking, connect_to_peer_works}
use nat_server.Client.Mediator.Peering.{
  is_forced, get_relay_server, relay_notice, create_relay_connection, handle_punch_hole,
  handle_request_relay,
}

-- What B does on a PunchHole that forces the relay.
pub forced_work :
    (e : JobEnv) (c : ClientConfig) (host : Text) (wire : Protocol) (ph : Message.PunchHole)
    (local : SocketAddr) (w : Work)
    → is_forced ph ≡ true
    → ((n : ℕ) → e.connects n ≡ some local)
    → ((n : ℕ) → e.sends n ≡ true)
    → let relay = get_relay_server e c host ph.relay_server in
      let uuid = e.new_uuid w.calls in
      let x = Message.relay_response (relay_notice e c ph.socket_addr relay uuid true) in
      (handle_punch_hole e c host wire ph w).1.acts
      ≡ opens (
          relayed
            (e.proxy.check_port relay (rendezvous_port + 1))
            uuid
            (e.mangle_decode ph.socket_addr)
            []
            0)
        ∷ told host x (sent_as e x wire)
        ∷ w.acts
unfolding handle_punch_hole create_relay_connection
forced_work e c host wire ph local w forced connects sends =
    let relay = get_relay_server e c host ph.relay_server in
    let x =
      Message.relay_response (relay_notice e c ph.socket_addr relay (e.new_uuid w.calls) true) in
    let w1 = asked_once (asked_once w) in
    ground (
      arith,
      forced,
      connect_tcp_works e local (asked_once w) (connects (suc w.calls)),
      tell_works e host x wire w1 (sends w1.calls),
      connects (suc w1.calls),
      connect_tcp_works e local
          (record w1 { acts = told host x (sent_as e x wire) ∷ w1.acts; calls = suc w1.calls })
          (connects (suc w1.calls)),
    )

-- The notice as A gets it.
abbrev pub passed_on : Env → Message.RelayResponse → Text → Server → Peer → Message.RelayResponse
passed_on env rr id s b = record rr {
  socket_addr = [];
  union = some (Message.RelayUnion.pk (signed_pk env rr.version id s.conf.inner.sk b));
}

-- The server hands B's notice to A, with B's signed key.
pub notice_passed :
    (env : Env) (rr : Message.RelayResponse) (id : Text) (addr_b : SocketAddr) (key : Text)
    (ws : Bool) (wire wire' : Protocol) (sink : Sink) (s : Server) (b : Peer)
    → lookup id s.peers ≡ some b
    → rr.union ≡ some (Message.RelayUnion.id id)
    → is_empty id ≡ false
    → is_lan env (env.mangle_decode rr.socket_addr) s.conf.inner ≡ false
    → (rr.relay_server == s.conf.inner.local_ip) ≡ false
    → lookup (env.try_into_v4 (env.mangle_decode rr.socket_addr)) s.tcp_punch ≡ some (sink, wire)
    → env.can_encode (Message.relay_response (passed_on env rr id s b)) wire ≡ true
    → (after (handle_tcp_message env (Message.relay_response rr) none addr_b key ws wire') s).sent
      ≡ tcp sink (Message.relay_response (passed_on env rr id s b)) wire ∷ s.sent
unfolding handle_tcp_message handle_relay_response chosen_relay send_to_tcp send_to_sink
notice_passed env rr id addr_b key ws wire wire' sink s b found named nonempty far other waits
      encodes =
    ground (
      arith,
      found,
      named,
      nonempty,
      far,
      other,
      waits,
      encodes,
      get_pk_known env rr.version id s b found,
    )

-- What the server answers A when B was sent this PunchHole.
abbrev pub relayed_answer :
    JobEnv → ClientConfig → Text → Message.PunchHole → Work → Env → Server → Peer → Message.Message
relayed_answer e c host ph w env s b =
    let relay = get_relay_server e c host ph.relay_server in
    Message.relay_response
      (passed_on env (relay_notice e c ph.socket_addr relay (e.new_uuid w.calls) true) c.id s b)

-- What A does on it.
answered_relay :
    (e : JobEnv) (rr : Message.RelayResponse) (local : SocketAddr) (port my_port : ℕ) (w : Work)
    → ((n : ℕ) → e.connects n ≡ some local)
    → ((n : ℕ) → e.sends n ≡ true)
    → ((n : ℕ) → e.listens n ≡ some port)
    → let (r, w') = answered e my_port (some (Message.relay_response rr)) w in
      (r ≡ some port)
      × (last_act w'.acts
          ≡ some (
              opens (
                outbound_relay port
                  (e.proxy.check_port rr.relay_server (rendezvous_port + 1))
                  (uuid_handshake rr.uuid))))
unfolding answered create_outbound_relay must
answered_relay e rr local port my_port w connects sends listens = ground (
  arith,
  connect_tcp_works e local w (connects w.calls),
  sends (suc w.calls),
  listens (suc (suc w.calls)),
)

-- B is sent a PunchHole that forces the relay; the one notice that B then tells its server is handed to
-- the server as it is, and A, which asked and waits there, is handed what the server wrote to it. Where
-- the network of A and of B works, the server has B in memory, A's address is not in the LAN, the relay
-- that B chose is not the server's own local address, B's id is not empty and the answer can be encoded:
-- B tells the notice and then opens its tunnel, and no more; the server writes the notice to A with B's
-- signed key; A's last tunnel goes to the same relay server with the same uuid, and A gets its local
-- port.
pub forced_relay_joined :
    (eb : JobEnv) (cb : ClientConfig) (host : Text) (wire_b : Protocol) (ph : Message.PunchHole)
    (local_b : SocketAddr) (wb : Work) (env : Env) (s : Server) (b : Peer) (sink : Sink)
    (wire_a : Protocol) (addr_b : SocketAddr) (key : Text) (ws : Bool) (ea : JobEnv)
    (ca : ClientConfig) (peer_id server : Text) (rest : List Text) (local_a : SocketAddr) (port : ℕ)
    (bytes : Bytes) (wa : Work)
    → is_forced ph ≡ true
    → ((n : ℕ) → eb.connects n ≡ some local_b)
    → ((n : ℕ) → eb.sends n ≡ true)
    → lookup cb.id s.peers ≡ some b
    → is_empty cb.id ≡ false
    → is_lan env (env.mangle_decode ph.socket_addr) s.conf.inner ≡ false
    → (get_relay_server eb cb host ph.relay_server == s.conf.inner.local_ip) ≡ false
    → lookup (env.try_into_v4 (env.mangle_decode ph.socket_addr)) s.tcp_punch ≡ some (sink, wire_a)
    → ((x : Message.Message) → env.can_encode x wire_a ≡ true)
    → get_rendezvous_servers ca ≡ server ∷ rest
    → ((n : ℕ) → ea.connects n ≡ some local_a)
    → ((n : ℕ) → ea.sends n ≡ true)
    → ((n : ℕ) → ea.replies n ≡ some bytes)
    → ((n : ℕ) → ea.listens n ≡ some port)
    → ea.parse bytes ≡ some (relayed_answer eb cb host ph wb env s b)
    → let relay = get_relay_server eb cb host ph.relay_server in
      let uuid = eb.new_uuid wb.calls in
      let rr = relay_notice eb cb ph.socket_addr relay uuid true in
      let (r, wa') = connect_to_peer ea ca peer_id wa in
      ((handle_punch_hole eb cb host wire_b ph wb).1.acts
        ≡ opens (
            relayed
              (eb.proxy.check_port relay (rendezvous_port + 1))
              uuid
              (eb.mangle_decode ph.socket_addr)
              []
              0)
          ∷ told host (Message.relay_response rr) (sent_as eb (Message.relay_response rr) wire_b)
          ∷ wb.acts)
      × ((after
            (handle_tcp_message env (Message.relay_response rr) none addr_b key ws wire_b)
            s).sent
          ≡ tcp sink (relayed_answer eb cb host ph wb env s b) wire_a ∷ s.sent)
      × (r ≡ some port)
      × (last_act wa'.acts
          ≡ some (
              opens (
                outbound_relay port
                  (ea.proxy.check_port relay (rendezvous_port + 1))
                  (uuid_handshake uuid))))
forced_relay_joined eb cb host wire_b ph local_b wb env s b sink wire_a addr_b key ws ea ca peer_id
      server rest local_a port bytes wa forced connects_b sends_b found named far other waits
      encodes servers connects_a sends_a replies listens parsed =
    let relay = get_relay_server eb cb host ph.relay_server in
    let uuid = eb.new_uuid wb.calls in
    let rr = relay_notice eb cb ph.socket_addr relay uuid true in
    let w1 =
      asking ea (ea.proxy.check_port server rendezvous_port) peer_id ca.id
        ca.rendezvous_wire_protocol wa in
    let (got, opened) =
      answered_relay ea (passed_on env rr cb.id s b) local_a port (port_known ea wa.calls) w1
        connects_a sends_a listens in
    let joins =
      connect_to_peer_works ea ca peer_id server rest local_a bytes wa servers connects_a sends_a
        replies in
    (
      forced_work eb cb host wire_b ph local_b wb forced connects_b sends_b,
      notice_passed env rr cb.id addr_b key ws wire_a wire_b sink s b found refl named far other
          waits (encodes _),
      rw (joins, parsed) got,
      rw (joins, parsed) opened,
    )

-- What the task of a tunnel through the relay leaves.
abbrev pub run_of : Option Act → Bool → (ℕ → Bool) → List (Option Bytes) → Option RelayRun
run_of (some (opens (relayed relay uuid peer host port))) reached writes events =
    some (register_relay uuid host port true reached writes events)
run_of _ reached writes events = none

-- On a PunchHole that forces the relay, where the network works, B opens a tunnel whose task sends the
-- handshake and then reaches no local service and delivers none of the frames of the relay, whatever
-- forwarding rules B has and whatever A sends.
pub forced_relay_undelivered :
    (e : JobEnv) (c : ClientConfig) (host : Text) (wire : Protocol) (ph : Message.PunchHole)
    (local : SocketAddr) (w : Work) (reached : Bool) (writes : ℕ → Bool)
    (events : List (Option Bytes))
    → is_forced ph ≡ true
    → ((n : ℕ) → e.connects n ≡ some local)
    → ((n : ℕ) → e.sends n ≡ true)
    → run_of (last_act (handle_punch_hole e c host wire ph w).1.acts) reached writes events
      ≡ some (record {
        handshake = some (uuid_handshake (e.new_uuid w.calls));
        service = none;
        delivered = [];
      })
unfolding register_relay
forced_relay_undelivered e c host wire ph local w reached writes events forced connects sends =
    rw (forced_work e c host wire ph local w forced connects sends) refl

-- The run of a task that sent the handshake with this uuid, reached this service and wrote to it what
-- the loop is to write.
pub record IsServed (uuid service : Text) (writes : ℕ → Bool) (events : List (Option Bytes))
    (o : Option RelayRun) : Type 0 where
  pub run : RelayRun
  pub found : o ≡ some run
  pub handshake : run.handshake ≡ some (uuid_handshake uuid)
  pub service_of : run.service ≡ some service
  pub delivered : IsDelivered writes (frames_of events) run.delivered

relayed_IsServed :
    (uuid target : Text) (port : ℕ) (writes : ℕ → Bool) (events : List (Option Bytes))
    → nat_eq port 0 ≡ false
    → IsServed uuid
        (target ++ (b':' ∷ decimal port))
        writes
        events
        (some (register_relay uuid target port true true writes events))
unfolding register_relay
relayed_IsServed uuid target port writes events served = record {
  run = record {
    handshake = some (uuid_handshake uuid);
    service = some (target ++ (b':' ∷ decimal port));
    delivered = copy_frames writes events;
  };
  found = rw served refl;
  handshake = refl;
  service_of = refl;
  delivered = copy_frames-IsDelivered writes events;
}

-- On a RequestRelay that is not of the proxy, where the network works and a rule of B fits A's id with a
-- port that is not 0, B opens a tunnel whose task, if it reaches the rule's service, sends the handshake
-- with the request's uuid and writes to that service the frames that come from the relay before its
-- first error or its end: in order, from the first one on, all of them or those before the first write
-- that fails.
pub request_relay_delivered :
    (e : JobEnv) (c : ClientConfig) (host : Text) (wire : Protocol) (rr : Message.RequestRelay)
    (local : SocketAddr) (w : Work) (writes : ℕ → Bool) (events : List (Option Bytes))
    (target : Text) (port : ℕ)
    → is_proxy_uuid rr.uuid ≡ false
    → find_target_for_peer rr.id c ≡ some (target, port)
    → nat_eq port 0 ≡ false
    → ((n : ℕ) → e.connects n ≡ some local)
    → ((n : ℕ) → e.sends n ≡ true)
    → IsServed rr.uuid
        (target ++ (b':' ∷ decimal port))
        writes
        events
        (run_of (last_act (handle_request_relay e c host wire rr w).1.acts) true writes events)
unfolding handle_request_relay create_relay_connection
request_relay_delivered e c host wire rr local w writes events target port direct rule served
      connects sends =
    let relay = get_relay_server e c host rr.relay_server in
    let x = Message.relay_response (relay_notice e c rr.socket_addr relay rr.uuid false) in
    let w1 = asked_once w in
    let opened : last_act (handle_request_relay e c host wire rr w).1.acts
        ≡ some (
            opens (
              relayed (e.proxy.check_port relay (rendezvous_port + 1)) rr.uuid
                (e.mangle_decode rr.socket_addr) target port)) =
      ground (
        arith,
        direct,
        rule,
        served,
        connect_tcp_works e local w (connects w.calls),
        tell_works e host x wire w1 (sends w1.calls),
        connect_tcp_works e local
            (record w1 { acts = told host x (sent_as e x wire) ∷ w1.acts; calls = suc w1.calls })
            (connects (suc w1.calls)),
      ) in
    rw opened (relayed_IsServed rr.uuid target port writes events served)
