-- ===== src/Rendezvous/Tcp.antt =====
-- `handle_tcp` of src/rendezvous_server.rs: one message of a connection.
pub mod Brokering
pub mod Takeover
use nat_server.PeerMap.{get_in_memory, write_peer, get_or, update_pk}
use nat_server.Rendezvous.Output.{send_to_sink, send_to_tcp, enqueue}
use nat_server.Rendezvous.Relays.{get_relay_server, is_lan, get_pk}
use nat_server.Rendezvous.Register.{refreshed, token_of}
use nat_server.Rendezvous.Punch.{handle_tcp_punch_hole_request, handle_hole_sent, handle_local_addr}
use nat_server.Common.{
  Bool, true, false, ◌&&◌, ◌||◌, not, Option, none, some, [], nat_eq, ◌==◌, list_has_eq, nat_has_eq,
  if◌then◌else◌, is_empty,
}
use nat_server.Common.Int.{ℤ, pos, ltb_ℤ}
use nat_server.Common.Map.{insert}
use nat_server.Common.Text.{Text, Bytes}
use nat_server.Net.{
  SocketAddr, ip_of, port_of, is_loopback, Protocol, detect, ip_has_eq, addr_has_eq,
}
use nat_server.State.{Peer, msg, Sink, Conf, Env, M, pure, gets, ◌>>=◌, ◌>>◌, modify, allow_err}
use nat_server.Message
use nat_server.Message.{Message}

-- What `handle_tcp` returns: whether to go on reading, and the sink unless it was handed over.
abbrev pub TcpStep : Type 0
TcpStep = Bool × Option Sink

-- `rr.id()`: the id of the oneof, or the empty text.
abbrev pub relay_id : Option Message.RelayUnion → Text
relay_id (some (Message.RelayUnion.id id)) = id
relay_id _ = []

module _ (env : Env) where
  -- The sink waits in `tcp_punch` for an answer.
  unfoldable pub park : Option Sink → SocketAddr → Protocol → M (Unit {0})
  park none addr _ = pure tt
  park (some sink) addr proto =
      modify λ s. record s { tcp_punch = insert (env.try_into_v4 addr) (sink, proto) s.tcp_punch }

  -- RequestRelay: passed on to a peer in memory, with the address of A.
  unfoldable pub forward_relay_request : Message.RequestRelay → SocketAddr → M (Unit {0})
  forward_relay_request rf addr = do
    peer ← get_in_memory rf.id
    now ← gets (λ s. s.now)
    elim peer [
      | none ↦ pure tt
      | some r ↦ enqueue (
          msg (Message.request_relay (record rf { socket_addr = env.mangle_encode now addr }))
            r.socket_addr r.protocol)
    ]

  -- The relay server in a RelayResponse.
  unfoldable pub chosen_relay : Text → SocketAddr → M Text
  chosen_relay relay addr_b = do
    inner ← gets (λ s. s.conf.inner)
    if is_empty relay
        then pure relay
        else (if is_lan env addr_b inner
            then pure inner.local_ip
            else (if relay == inner.local_ip then get_relay_server else pure relay))

  -- RelayResponse: the answer of B, for A.
  unfoldable pub handle_relay_response : Message.RelayResponse → M (Unit {0})
  handle_relay_response rr = do
    let addr_b = env.mangle_decode rr.socket_addr
    let id = relay_id rr.union
    union ←
        (if is_empty id
          then pure rr.union
          else (do pk ← get_pk env rr.version id; pure (some (Message.RelayUnion.pk pk))))
    relay ← chosen_relay rr.relay_server addr_b
    send_to_tcp env
        (Message.relay_response
          (record rr { socket_addr = []; relay_server = relay; union = union }))
        addr_b

  -- TestNatRequest.
  unfoldable pub test_nat : ℤ → SocketAddr → Conf → Message
  test_nat serial addr conf = Message.test_nat_response (record {
    port = pos (port_of addr);
    cu =
        if ltb_ℤ serial conf.inner.serial
        then some
            (record { serial = conf.inner.serial; rendezvous_servers = conf.rendezvous_servers })
        else none;
  })

  -- RegisterPk on a connection.
  unfoldable pub tcp_register_pk :
      Message.RegisterPk → Option Sink → SocketAddr → Protocol → M (Unit {0})
  tcp_register_pk rf sink addr proto = do
    get_or env rf.id
    res ←
        update_pk env rf.id addr rf.uuid rf.pk (env.ip_to_string (ip_of addr))
          (token_of rf.user_token)
    write_peer rf.id (λ w. record w { protocol = proto })
    send_to_sink env sink (Message.register_pk_response (Message.pk_response res)) proto

  -- Must the peer send its key, before its address is taken?
  unfoldable pub tcp_request_pk : SocketAddr → Peer → Bool
  tcp_request_pk addr peer =
      is_empty peer.pk
      || (not (nat_eq (port_of peer.socket_addr) 0)
          && (not (ip_of addr == ip_of peer.socket_addr) && not (is_loopback (ip_of addr))))

  -- RegisterPeer on a connection.
  unfoldable pub tcp_register_peer :
      Message.RegisterPeer → Option Sink → SocketAddr → Protocol → M (Unit {0})
  tcp_register_peer rp sink addr proto = do
    known ← get_in_memory rp.id
    now ← gets (λ s. s.now)
    request_pk ← elim known [
      | none ↦ pure true
      | some peer ↦
          if tcp_request_pk addr peer
          then pure true
          else write_peer rp.id (refreshed addr now proto) >> pure false
    ]
    send_to_sink env sink (Message.register_peer_response request_pk) proto

  -- The match on the message.
  unfoldable pub handle_tcp_message :
      Message → Option Sink → SocketAddr → Text → Bool → Protocol → M TcpStep
  handle_tcp_message (Message.punch_hole_request ph) sink addr key ws proto = do
    park sink addr proto
    allow_err (handle_tcp_punch_hole_request env addr ph key ws)
    pure (true, none)
  handle_tcp_message (Message.request_relay rf) sink addr key ws proto = do
    park sink addr proto
    forward_relay_request rf addr
    pure (true, none)
  handle_tcp_message (Message.relay_response rr) sink addr key ws _ = do
    allow_err (handle_relay_response rr)
    pure (false, sink)
  handle_tcp_message (Message.punch_hole_sent phs) sink addr key ws _ = do
    allow_err (handle_hole_sent env phs addr false)
    pure (false, sink)
  handle_tcp_message (Message.local_addr la) sink addr key ws _ = do
    allow_err (handle_local_addr env la addr false)
    pure (false, sink)
  handle_tcp_message (Message.test_nat_request serial) sink addr key ws proto = do
    conf ← gets (λ s. s.conf)
    send_to_sink env sink (test_nat serial addr conf) proto
    pure (false, sink)
  handle_tcp_message (Message.register_pk rf) sink addr key ws proto = do
    tcp_register_pk rf sink addr proto
    pure (true, sink)
  handle_tcp_message (Message.register_peer rp) sink addr key ws proto =
      if is_empty rp.id
      then pure (false, sink)
      else (do tcp_register_peer rp sink addr proto; pure (true, sink))
  handle_tcp_message _ sink addr key ws _ = pure (false, sink)

  -- `handle_tcp`.
  unfoldable pub handle_tcp : Bytes → Option Sink → SocketAddr → Text → Bool → M TcpStep
  handle_tcp bytes sink addr key ws = elim (env.parse bytes) [
    | none ↦ pure (false, sink)
    | some m ↦ handle_tcp_message m sink addr key ws (detect bytes)
  ]
