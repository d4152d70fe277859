-- ===== src/Client/Mediator/Dialing.antt =====
-- `connect_to_peer` of nat-client/src/rendezvous_mediator.rs, with the outbound tunnels and the relay task of
-- nat-client/src/port_forward.rs.
pub mod Works
pub mod Copied
use nat_server.Common.{
  ℕ, suc, ◌+◌, Bool, ◌||◌, true, false, ◌&&◌, not, Option, none, some, List, [], ◌∷◌, nat_eq,
  if◌then◌else◌, unwrap_or, ◌++◌,
}
use nat_server.Common.Int.{pos}
use nat_server.Common.Split.{decimal}
use nat_server.Common.Text.{Text, Bytes}
use nat_server.Net.{SocketAddr, ip_of, Protocol}
use nat_server.Message
use nat_server.Message.{Message}
use nat_server.Client.Config.{ClientConfig, get_rendezvous_servers}
use nat_server.Client.Proxy.{rendezvous_port, uuid_handshake}
use nat_server.Client.Mediator.Jobs.{
  JobEnv, outbound_direct, outbound_kcp, outbound_relay, probes, opens, Job, pure, bail, lift, ask,
  ◌>>=◌, ◌>>◌, act, as_u16, addr_at, connect_tcp, must, tell,
}

module _ (e : JobEnv) where
  -- A new listener on the local port: its port.
  unfoldable pub listen : Job ℕ
  listen = do port ← ask e.listens; lift port

  unfoldable pub create_outbound_direct : SocketAddr → Job ℕ
  unfolding listen
  create_outbound_direct peer = do port ← listen; act (opens (outbound_direct port peer)); pure port

  unfoldable pub create_outbound_kcp : SocketAddr → Job ℕ
  unfolding listen
  create_outbound_kcp peer = do port ← listen; act (opens (outbound_kcp port peer)); pure port

  -- The handshake goes out before the listener is made.
  unfoldable pub create_outbound_relay : Text → Text → Job ℕ
  unfolding listen
  create_outbound_relay relay_addr uuid = do
    must e e.sends
    port ← listen
    act (opens (outbound_relay port relay_addr (uuid_handshake uuid)))
    pure port

  -- UDP with KCP, if both ports are known; the address of the peer where the handshake ends in time.
  unfoldable pub connect_kcp : SocketAddr → ℕ → ℕ → Job (Option SocketAddr)
  connect_kcp peer peer_port my_port =
      if not (nat_eq peer_port 0) && not (nat_eq my_port 0)
      then (do
        bound ← ask e.binds_udp
        if bound
            then (do
              act (probes (addr_at (ip_of peer) peer_port))
              done ← ask e.accepts
              pure (if done then some (addr_at (ip_of peer) peer_port) else none))
            else pure none)
      else pure none

  -- The answer of the server. On PunchHoleResponse the peer is dialled.
  unfoldable pub answered : ℕ → Option Message → Job ℕ
  answered my_port (some (Message.punch_hole_response phr)) = do
    let peer = e.mangle_decode phr.socket_addr
    kcp ← connect_kcp peer (as_u16 phr.upnp_port) my_port
    elim kcp [ some addr ↦ create_outbound_kcp addr | none ↦ create_outbound_direct peer ]
  answered my_port (some (Message.relay_response rr)) = do
    _ ← connect_tcp e
    create_outbound_relay (e.proxy.check_port rr.relay_server (rendezvous_port + 1)) rr.uuid
  answered my_port _ = bail

  -- Our public UDP port, or 0.
  unfoldable pub my_udp_port : Job ℕ
  my_udp_port = do
    bound ← ask e.binds_udp
    if bound then (do port ← ask e.public_port; pure (unwrap_or port 0)) else pure 0

  abbrev pub hole_request : Text → Text → ℕ → Message.PunchHoleRequest
  hole_request peer_id my_id my_port = record {
    id = peer_id;
    nat_type = pos 0;
    licence_key = [];
    conn_type = pos 0;
    token = my_id;
    version = [];
    udp_port = pos 0;
    force_relay = false;
    upnp_port = pos my_port;
    socket_addr_v6 = [];
  }

  unfoldable pub ask_for_peer : Text → Text → Text → Protocol → Job ℕ
  ask_for_peer host peer_id my_id wire = do
    my_port ← my_udp_port
    _ ← connect_tcp e
    tell e host (Message.punch_hole_request (hole_request peer_id my_id my_port)) wire
    bytes ← ask e.replies
    elim bytes [ none ↦ bail | some b ↦ answered my_port (e.parse b) ]

  -- The local port of the tunnel.
  unfoldable pub connect_to_peer : ClientConfig → Text → Job ℕ
  connect_to_peer c peer_id = elim (get_rendezvous_servers c) [
    | [] ↦ bail
    | server ∷ rest ↦
        ask_for_peer (e.proxy.check_port server rendezvous_port) peer_id c.id
          c.rendezvous_wire_protocol
  ]

-- What the task of `register_relay` leaves: the handshake it sent, the local service it reached, and
-- the frames it has written to that.
pub record RelayRun : Type 0 where
  pub handshake : Option Bytes
  pub service : Option Text
  pub delivered : List Bytes

-- The loop from the relay to the local service. The relay gives a frame, or none on an error and at its
-- end; the answers of the writes are numbered. The loop goes on until either fails: the tasks are
-- spawned, and neither the end of the other one nor `close_tx` ends it.
unfoldable pub copy_frames : (ℕ → Bool) → List (Option Bytes) → List Bytes
copy_frames writes [] = []
copy_frames writes (none ∷ events) = []
copy_frames writes (some b ∷ events) =
    let rest = copy_frames (λ n. writes (suc n)) events in if writes 0 then b ∷ rest else []

-- The task of `register_relay`: was the handshake sent, and the service reached? With port 0 the
-- frames are read and dropped.
unfoldable pub register_relay :
    Text → Text → ℕ → Bool → Bool → (ℕ → Bool) → List (Option Bytes) → RelayRun
unfolding copy_frames
register_relay uuid target_host target_port sent reached writes events =
    if not sent
    then record { handshake = none; service = none; delivered = [] }
    else if nat_eq target_port 0 || not reached
    then record { handshake = some (uuid_handshake uuid); service = none; delivered = [] }
    else record {
      handshake = some (uuid_handshake uuid);
      service = some (target_host ++ (b':' ∷ decimal target_port));
      delivered = copy_frames writes events;
    }
