-- ===== src/Rendezvous/Tcp/Brokering.antt =====
-- On a whole exchange through `handle_tcp` of src/rendezvous_server.rs: request, and answer of B.
use nat_server.Common.{
  ◌≡◌, refl, ap, ◌∙◌, Bool, true, Option, none, some, [], ◌∷◌, ◌++◌, arith, is_empty, list_has_eq,
  if◌then◌else◌,
}
use nat_server.Common.Map.{lookup, insert, lookup-insert_self}
use nat_server.Common.Text.{Text, Bytes}
use nat_server.Net.{SocketAddr, Protocol, addr_has_eq}
use nat_server.Message
use nat_server.Message.{Message}
use nat_server.State.{Env, Server, Peer, Sink, msg, tcp, after, result, ok, err}
use nat_server.PeerMap.Laws.{get_known}
use nat_server.Rendezvous.Output.{send_to_sink, send_to_tcp}
use nat_server.Rendezvous.Relays.{get_pk, get_relay_server}
use nat_server.Rendezvous.Punch.{
  is_online, record_punch_req, punch_answer, handle_punch_hole_request,
  handle_tcp_punch_hole_request, handle_hole_sent, answer_a, known_nat,
}
use nat_server.Rendezvous.Punch.Answers.{has_key}
use nat_server.Rendezvous.Tcp.{park, handle_tcp_message}

-- The relay server that would be chosen.
abbrev relay_of : Server → Text
relay_of s = elim (result get_relay_server s) [ ok x ↦ x | err e ↦ [] ]

get_relay_server_ok :
    (s : Server)
    → get_relay_server s
      ≡ (ok (relay_of s), record s { rotation = (after get_relay_server s).rotation })
unfolding get_relay_server
get_relay_server_ok s = ground arith

-- The state in which a request for a peer online is answered.
abbrev answering : Env → SocketAddr → Message.PunchHoleRequest → Peer → Server → Server
answering env addr ph b s =
    let t = record_punch_req env addr b.socket_addr ph.id s in
    record t { rotation = (after get_relay_server t).rotation }

handle_punch_hole_request_online :
    (env : Env) (ph : Message.PunchHoleRequest) (addr : SocketAddr) (key : Text) (ws : Bool)
    (s : Server) (b : Peer)
    → lookup ph.id s.peers ≡ some b
    → has_key key ph ≡ true
    → is_online s.now b ≡ true
    → let t = record_punch_req env addr b.socket_addr ph.id s in
      let u = answering env addr ph b s in
      handle_punch_hole_request env addr ph key ws s
      ≡ (ok (punch_answer env addr ph ws (relay_of t) b u), u)
unfolding handle_punch_hole_request
handle_punch_hole_request_online env ph addr key ws s b found right online = ground (
  arith,
  get_known env ph.id s b found,
  get_relay_server_ok (record_punch_req env addr b.socket_addr ph.id s),
)

-- What B is told.
abbrev pub hole_question :
    Env → SocketAddr → Message.PunchHoleRequest → Bool → Peer → Server → Message
hole_question env addr ph ws b s =
    (punch_answer env addr ph ws (relay_of (record_punch_req env addr b.socket_addr ph.id s)) b
      (answering env addr ph b s)).msg_out

handle_tcp_punch_hole_request_online :
    (env : Env) (ph : Message.PunchHoleRequest) (addr : SocketAddr) (key : Text) (ws : Bool)
    (s : Server) (b : Peer)
    → lookup ph.id s.peers ≡ some b
    → has_key key ph ≡ true
    → is_online s.now b ≡ true
    → let u = answering env addr ph b s in
      handle_tcp_punch_hole_request env addr ph key ws s ≡ (
        ok tt,
        record u {
          channel =
              u.channel ++ msg (hole_question env addr ph ws b s) b.socket_addr b.protocol ∷ [];
        },
      )
unfolding handle_tcp_punch_hole_request punch_answer
handle_tcp_punch_hole_request_online env ph addr key ws s b found right online =
    ground (arith, handle_punch_hole_request_online env ph addr key ws s b found right online)

-- The state after A's request: A waits, and the main loop has a message for B.
pub record IsAsked (env : Env) (sink : Sink) (addr : SocketAddr) (wire : Protocol) (b : Peer)
    (m : Message) (s t : Server) : Type 0 where
  pub parked : t.tcp_punch ≡ insert (env.try_into_v4 addr) (sink, wire) s.tcp_punch
  pub told : t.channel ≡ s.channel ++ msg m b.socket_addr b.protocol ∷ []
  pub peers : t.peers ≡ s.peers
  pub sent : t.sent ≡ s.sent
  pub now : t.now ≡ s.now
  pub inner : t.conf.inner ≡ s.conf.inner

abbrev pub waiting : Env → Sink → SocketAddr → Protocol → Server → Server
waiting env sink addr wire s = record s {
  tcp_punch = insert (env.try_into_v4 addr) (sink, wire) s.tcp_punch;
}

after-handle_tcp_message :
    (env : Env) (ph : Message.PunchHoleRequest) (sink : Sink) (addr : SocketAddr) (key : Text)
    (ws : Bool) (wire : Protocol) (s : Server)
    → after (handle_tcp_message env (Message.punch_hole_request ph) (some sink) addr key ws wire) s
      ≡ after (handle_tcp_punch_hole_request env addr ph key ws) (waiting env sink addr wire s)
unfolding handle_tcp_message park
after-handle_tcp_message env ph sink addr key ws wire s = refl

tcp_punch-IsAsked :
    (env : Env) (ph : Message.PunchHoleRequest) (sink : Sink) (addr : SocketAddr) (key : Text)
    (ws : Bool) (wire : Protocol) (s : Server) (b : Peer)
    → lookup ph.id s.peers ≡ some b
    → has_key key ph ≡ true
    → is_online s.now b ≡ true
    → IsAsked env sink addr wire b
        (hole_question env addr ph ws b (waiting env sink addr wire s))
        s
        (after
          (handle_tcp_message env (Message.punch_hole_request ph) (some sink) addr key ws wire)
          s)
unfolding record_punch_req punch_answer
tcp_punch-IsAsked env ph sink addr key ws wire s b found right online =
    let t : Server = waiting env sink addr wire s in
    let asked = handle_tcp_punch_hole_request_online env ph addr key ws t b found right online in
    rw (after-handle_tcp_message env ph sink addr key ws wire s ∙ ap (λ o. o.1) asked)
      (ground arith)

-- The server's signature on B's id and key, for a client that states its version.
abbrev pub signed_pk : Env → Text → Text → Option Bytes → Peer → Bytes
signed_pk env version id none b = []
signed_pk env version id (some sk) b = if is_empty version then [] else env.sign_id_pk sk id b.pk

pub get_pk_known :
    (env : Env) (version id : Text) (s : Server) (b : Peer)
    → lookup id s.peers ≡ some b
    → get_pk env version id s ≡ (ok (signed_pk env version id s.conf.inner.sk b), s)
unfolding get_pk
get_pk_known env version id s b found = ground (arith, get_known env id s b found)

-- What A is told.
abbrev pub hole_answer : Env → Message.PunchHoleSent → SocketAddr → Peer → Server → Message
hole_answer env phs addr_b b s =
    Message.punch_hole_response (record (Message.default_punch_hole_response) {
      socket_addr = env.mangle_encode s.now addr_b;
      pk = signed_pk env phs.version phs.id s.conf.inner.sk b;
      relay_server = phs.relay_server;
      upnp_port = phs.upnp_port;
      union = known_nat env (Message.enum_value phs.nat_type);
    })

tcp_hole_sent :
    (env : Env) (phs : Message.PunchHoleSent) (addr_b : SocketAddr) (key : Text) (ws : Bool)
    (wire wire' : Protocol) (sink : Sink) (addr : SocketAddr) (s t : Server) (b : Peer)
    (m : Message)
    → IsAsked env sink addr wire b m s t
    → lookup phs.id s.peers ≡ some b
    → env.mangle_decode phs.socket_addr ≡ addr
    → env.can_encode (hole_answer env phs addr_b b s) wire ≡ true
    → (after (handle_tcp_message env (Message.punch_hole_sent phs) none addr_b key ws wire') t).sent
      ≡ tcp sink (hole_answer env phs addr_b b s) wire ∷ s.sent
unfolding handle_tcp_message handle_hole_sent answer_a send_to_tcp send_to_sink
tcp_hole_sent env phs addr_b key ws wire wire' sink addr s t b m asked found echoed encodes =
    let found' : lookup phs.id t.peers ≡ some b = rw asked.peers found in
    ground (
      arith,
      asked,
      get_pk_known env phs.version phs.id t b found',
      lookup-insert_self (env.try_into_v4 addr) (sink, wire) s.tcp_punch,
    )

-- A asks by TCP, with the right key or where none is set, for a peer B that is in memory and
-- online. Then the main loop is left a message for B in B's protocol; and if B next says by TCP
-- that it has punched, with text that decodes to A's address, and the answer can be encoded, A's
-- connection is written B's address and signed key, in A's protocol.
pub punch_brokered :
    (env : Env) (ph : Message.PunchHoleRequest) (phs : Message.PunchHoleSent) (sink : Sink)
    (addr addr_b : SocketAddr) (key : Text) (ws ws' : Bool) (wire wire' : Protocol) (s : Server)
    (b : Peer)
    → lookup ph.id s.peers ≡ some b
    → has_key key ph ≡ true
    → is_online s.now b ≡ true
    → phs.id ≡ ph.id
    → env.mangle_decode phs.socket_addr ≡ addr
    → env.can_encode (hole_answer env phs addr_b b s) wire ≡ true
    → let s1 =
        after
          (handle_tcp_message env (Message.punch_hole_request ph) (some sink) addr key ws wire)
          s in
      let s2 =
        after (handle_tcp_message env (Message.punch_hole_sent phs) none addr_b key ws' wire') s1 in
      let m = hole_question env addr ph ws b (waiting env sink addr wire s) in
      (s1.channel ≡ s.channel ++ msg m b.socket_addr b.protocol ∷ [])
      × (s2.sent ≡ tcp sink (hole_answer env phs addr_b b s) wire ∷ s.sent)
punch_brokered env ph phs sink addr addr_b key ws ws' wire wire' s b found right online same echoed
      encodes =
    let asked = tcp_punch-IsAsked env ph sink addr key ws wire s b found right online in
    let s1 =
      after (handle_tcp_message env (Message.punch_hole_request ph) (some sink) addr key ws wire)
        s in
    (
      asked.told,
      tcp_hole_sent env phs addr_b key ws' wire wire' sink addr s s1 b _ asked (rw same found)
          echoed encodes,
    )
