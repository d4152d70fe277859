-- ===== src/Client/Kcp.antt =====
-- nat-client/src/kcp_tunnel.rs: the handshake before KCP, between `kcp_connect` at one end and `kcp_accept`
-- at the other, over datagrams that may be lost or come in any order. Addresses are the public ones.
pub mod Order
pub mod Sockets
use nat_server.Common.{
  Bool, true, false, ◌&&◌, not, List, [], ◌∷◌, ◌++◌, ◌==◌, list_has_eq, ◌≡◌, if◌then◌else◌,
}
use nat_server.Common.Text.{Bytes, text}
use nat_server.Net.{SocketAddr, addr_has_eq}

abbrev pub connect_magic : Bytes
connect_magic = 1 ∷ text "KCP_CONNECT"

abbrev pub accept_magic : Bytes
accept_magic = 1 ∷ text "KCP_ACCEPT"

abbrev pub punch_marker : Bytes
punch_marker = 0 ∷ text "PUNCH"

pub record Datagram : Type 0 where
  pub from : SocketAddr
  pub to : SocketAddr
  pub bytes : Bytes

-- The socket of each end, and the address that it takes for the other's.
pub record Ends : Type 0 where
  pub connect_at : SocketAddr
  pub connect_peer : SocketAddr
  pub accept_at : SocketAddr
  pub accept_peer : SocketAddr

-- What is under way, and whether each end has left its loop with a tunnel.
pub record Handshake : Type 0 where
  pub flight : List Datagram
  pub connected : Bool
  pub accepted : Bool

abbrev pub started : Handshake
started = record { flight = []; connected = false; accepted = false }

module _ (e : Ends) where
  abbrev pub connect_request : Datagram
  connect_request = record { from = e.connect_at; to = e.connect_peer; bytes = connect_magic }

  abbrev pub accept_reply : Datagram
  accept_reply = record { from = e.accept_at; to = e.accept_peer; bytes = accept_magic }

  -- `send_udp_probes` of an end.
  abbrev pub connect_probe : Datagram
  connect_probe = record { from = e.connect_at; to = e.connect_peer; bytes = punch_marker }

  abbrev pub accept_probe : Datagram
  accept_probe = record { from = e.accept_at; to = e.accept_peer; bytes = punch_marker }

  -- A datagram at the end of `kcp_connect`, in its loop.
  unfoldable pub kcp_connect : Datagram → Handshake → Handshake
  kcp_connect d s =
      if not s.connected && (d.from == e.connect_peer && d.bytes == accept_magic)
      then record s { connected = true }
      else s

  -- And at the end of `kcp_accept`, which answers once and leaves its loop.
  unfoldable pub kcp_accept : Datagram → Handshake → Handshake
  kcp_accept d s =
      if not s.accepted && (d.from == e.accept_peer && d.bytes == connect_magic)
      then record s { accepted = true; flight = accept_reply ∷ s.flight }
      else s

  -- A datagram arrives at the socket that it is for.
  unfoldable pub arrive : Datagram → Handshake → Handshake
  arrive d s =
      if d.to == e.connect_at
      then kcp_connect d s
      else if d.to == e.accept_at
      then kcp_accept d s
      else s

  -- The loop of `kcp_connect` sends until it is left; either end probes; a datagram arrives or is lost.
  pub data Step (s : Handshake) (t : Handshake) : Type 0 where
    asks : s.connected ≡ false → t ≡ record s { flight = connect_request ∷ s.flight } → Step s t
    connect_probes : t ≡ record s { flight = connect_probe ∷ s.flight } → Step s t
    accept_probes : t ≡ record s { flight = accept_probe ∷ s.flight } → Step s t
    arrives :
        (before after : List Datagram) (d : Datagram)
        → s.flight ≡ before ++ d ∷ after
        → t ≡ arrive d (record s { flight = before ++ after })
        → Step s t
    lost :
        (before after : List Datagram) (d : Datagram)
        → s.flight ≡ before ++ d ∷ after
        → t ≡ record s { flight = before ++ after }
        → Step s t

  pub data Run (s : Handshake) : Handshake → Type 0 where
    here : Run s s
    next : {t u : Handshake} → Run s t → Step t u → Run s u
