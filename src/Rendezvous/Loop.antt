-- ===== src/Rendezvous/Loop.antt =====
-- `io_loop`, the listeners and `check_relay_servers` of src/rendezvous_server.rs: the server as a
-- function of one event. The main loop and the connections take turns, event by event.
pub mod Serial
use nat_server.Rendezvous.Relays.{parse_relay_servers, has_char}
use nat_server.Rendezvous.Udp.{handle_udp}
use nat_server.Rendezvous.Tcp.{handle_tcp}
use nat_server.Rendezvous.Online.{handle_online_request}
use nat_server.Rendezvous.Cmd.{check_cmd}
use nat_server.Rendezvous.Output.{transmit}
use nat_server.Common.{
  ℕ, ◌+◌, Bool, true, false, Option, none, some, List, [], ◌∷◌, ◌++◌, ltb, list_has_eq, nat_has_eq,
  if◌then◌else◌, unwrap_or, is_empty, length, select,
}
use nat_server.Common.Int.{pos}
use nat_server.Common.Map.{Map, lookup, insert, remove}
use nat_server.Common.Text.{Text, Bytes, text}
use nat_server.Net.{SocketAddr, ip_of, port_of, is_loopback, proto3, ip_has_eq, addr_has_eq}
use nat_server.State.{
  Data, msg, relay_servers0, relay_servers, Sink, tcp, Conf, Server, Env, ok, err, M, modify,
  allow_err, when,
}
use nat_server.Message.{Message}

-- A connection: its number and sink are one; the peer's address, and the clone of the server's
-- fields that was made when it was accepted.
pub record Conn : Type 0 where
  pub sink : Option Sink
  pub addr : SocketAddr
  pub ws : Bool
  pub conf : Conf

pub data LoopFailure : Type 0 where
  udp_socket listener3 listener2 listener : LoopFailure

pub data Event : Type 0 where
  check_relay_tick : Event
  receive : Event
  datagram : Bytes → SocketAddr → Event
  udp_error : Event
  nat_test : ℕ → SocketAddr → Bytes → Event
  accept : ℕ → SocketAddr → Event
  accept_ws : ℕ → SocketAddr → Option Text → Event
  accept_error : LoopFailure → Event
  message : ℕ → Bytes → Event
  hang_up : ℕ → Event
  advance : ℕ → Event

pub record World : Type 0 where
  pub server : Server
  pub conns : Map ℕ Conn

-- The host that `check_relay_servers` dials: with the default port 21117 if it names none.
abbrev pub relay_host : Text → Text
relay_host x = if has_char b':' x then x else x ++ text ":21117"

module _ (env : Env) where
  -- `check_relay_servers`: the servers that answer, if any does, replace the list. The order is the
  -- one in which they answered.
  unfoldable pub check_relay_servers : List Text → Server → Server
  check_relay_servers rs0 s =
      let rs = select (λ x. env.connects (relay_host x)) rs0 in
      if is_empty rs then s else record s { channel = s.channel ++ relay_servers rs ∷ [] }

  -- One item of the channel in the main loop.
  unfoldable pub deliver : Data → M (Unit {0})
  deliver (msg m addr proto) = when (env.can_encode m proto) (allow_err (transmit env m addr proto))
  deliver (relay_servers0 rs) = modify (parse_relay_servers env rs)
  deliver (relay_servers rs) =
      modify λ s. record s { conf = record (s.conf) { relay_servers = rs } }

  -- The receiving end of the channel.
  unfoldable pub receive_next : Server → Server
  receive_next s = elim s.channel [
    | [] ↦ s
    | d ∷ rest ↦ (deliver d (record s { channel = rest })).1
  ]

  -- The address that a proxy gives in the header of a WebSocket.
  unfoldable pub ws_addr : Option Text → SocketAddr → SocketAddr
  ws_addr none addr = addr
  ws_addr (some ip) addr =
      if has_char b'.' ip
      then unwrap_or (env.parse_addr (ip ++ text ":0")) addr
      else unwrap_or (env.parse_addr (text "[" ++ (ip ++ text "]:0"))) addr

  -- `handle_listener2`: the console for a local caller, else one question and its answer. The
  -- console's lines go back on the same stream, and are no message.
  unfoldable pub handle_listener2 : Sink → SocketAddr → Bytes → Server → Server
  handle_listener2 stream addr bytes s =
      if is_loopback (ip_of (env.try_into_v4 addr))
      then elim (env.from_utf8 bytes) [ none ↦ s | some cmd ↦ (check_cmd env cmd s).1 ]
      else elim (env.parse bytes) [
        | some (Message.test_nat_request serial) ↦
            let m = Message.test_nat_response (record { port = pos (port_of addr); cu = none }) in
            (if env.can_encode m proto3
              then record s { sent = tcp stream m proto3 ∷ s.sent }
              else s)
        | some (Message.online_request id ids) ↦ (handle_online_request env stream ids s).1
        | _ ↦ s
      ]

  -- The end of `handle_listener_inner`: a sink that was handed over is dropped from `tcp_punch`.
  unfoldable pub close : Conn → Server → Server
  close c s = elim c.sink [
    | some sink ↦ s
    | none ↦ record s { tcp_punch = remove (env.try_into_v4 c.addr) s.tcp_punch }
  ]

  -- One message of a connection, on the connection's clone of the configuration.
  unfoldable pub handle_message : Text → Conn → Bytes → Server → Option Conn × Server
  handle_message key c bytes s =
      let (r, t) = handle_tcp env bytes c.sink c.addr key c.ws (record s { conf = c.conf }) in
      let s' = record t { conf = s.conf } in
      elim r [
        | ok (more, sink) ↦
            let c' = record c { sink = sink } in
            (if more then (some c', s') else (none, close c' s'))
        | err e ↦ (none, close c s')
      ]

  abbrev pub put_conn : ℕ → Option Conn × Server → World → World
  put_conn n (none, s) w = record { server = s; conns = remove n w.conns }
  put_conn n (some c, s) w = record { server = s; conns = insert n c w.conns }

  abbrev pub new_conn : ℕ → SocketAddr → Bool → Server → Conn
  new_conn n addr ws s = record {
    sink = some (record { conn = n; ws = ws });
    addr = addr;
    ws = ws;
    conf = s.conf;
  }

  -- One event: the new state, and the failure that ends `io_loop`.
  unfoldable pub step : Text → Event → World → Option LoopFailure × World
  step key check_relay_tick w =
      let s = w.server in
      (
        none,
        record w {
          server =
              if ltb 1 (length s.conf.relay_servers0)
              then check_relay_servers s.conf.relay_servers0 s
              else s;
        },
      )
  step key receive w = (none, record w { server = receive_next w.server })
  step key (datagram bytes addr) w =
      let (r, s) = handle_udp env bytes addr key w.server in
      (elim r [ ok _ ↦ none | err e ↦ some udp_socket ], record w { server = s })
  step key udp_error w = (some udp_socket, w)
  step key (nat_test n addr bytes) w = (
    none,
    record w { server = handle_listener2 (record { conn = n; ws = false }) addr bytes w.server },
  )
  step key (accept n addr) w =
      (none, record w { conns = insert n (new_conn n addr false w.server) w.conns })
  step key (accept_ws n addr real_ip) w = (
    none,
    record w { conns = insert n (new_conn n (ws_addr real_ip addr) true w.server) w.conns },
  )
  step key (accept_error f) w = (some f, w)
  step key (message n bytes) w = elim (lookup n w.conns) [
    | none ↦ (none, w)
    | some c ↦ (none, put_conn n (handle_message key c bytes w.server) w)
  ]
  step key (hang_up n) w = elim (lookup n w.conns) [
    | none ↦ (none, w)
    | some c ↦ (none, put_conn n (none, close c w.server) w)
  ]
  step key (advance ms) w =
      (none, record w { server = record (w.server) { now = w.server.now + ms } })

  -- `main_task`: after a failure only the socket is made anew, and the loop goes on.
  unfoldable pub run : Text → List Event → World → World
  run key [] w = w
  run key (e ∷ es) w = run key es (step key e w).1
