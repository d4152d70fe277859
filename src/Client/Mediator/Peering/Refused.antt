-- ===== src/Client/Mediator/Peering/Refused.antt =====
-- On what a client makes of a refusal, in nat-client/src/rendezvous_mediator.rs.
use nat_server.Common.{ℕ, suc, true, some, List, ◌∷◌, [], ◌≡◌, refl, arith}
use nat_server.Common.Text.{Text, Bytes}
use nat_server.Net.{SocketAddr}
use nat_server.Client.Proxy.{rendezvous_port}
use nat_server.Message
use nat_server.Client.Config.{ClientConfig, get_rendezvous_servers}
use nat_server.Client.Mediator.Jobs.{JobEnv, outbound_direct, opens, Work}
use nat_server.Client.Mediator.Jobs.Works.{last_act}
use nat_server.Client.Mediator.Dialing.{
  create_outbound_direct, connect_kcp, answered, connect_to_peer,
}
use nat_server.Client.Mediator.Dialing.Works.{port_known, asking, connect_to_peer_works}

-- The refusal of `handle_punch_hole_request` in src/rendezvous_server.rs.
abbrev pub refusal : Message.Failure → Message.PunchHoleResponse
refusal f = record (Message.default_punch_hole_response) { failure = f }

answered-refusal :
    (e : JobEnv) (f : Message.Failure) (port my_port : ℕ) (w : Work)
    → e.listens w.calls ≡ some port
    → answered e my_port (some (Message.punch_hole_response (refusal f))) w ≡ (
      some port,
      record w {
        acts = opens (outbound_direct port (e.mangle_decode [])) ∷ w.acts;
        calls = suc w.calls;
      },
    )
unfolding answered connect_kcp create_outbound_direct
answered-refusal e f port my_port w listens = ground (arith, listens)

-- Where a server is configured, the network and the local listener work, and the server answers
-- PunchHoleRequest with a refusal, whatever its reason, `connect_to_peer` still reports a local port,
-- that of a tunnel which it opened last, to the address decoded from the empty text.
pub refusal_dialled :
    (e : JobEnv) (c : ClientConfig) (peer_id server : Text) (rest : List Text) (f : Message.Failure)
    (local : SocketAddr) (port : ℕ) (b : Bytes) (w : Work)
    → get_rendezvous_servers c ≡ server ∷ rest
    → ((n : ℕ) → e.connects n ≡ some local)
    → ((n : ℕ) → e.sends n ≡ true)
    → ((n : ℕ) → e.replies n ≡ some b)
    → ((n : ℕ) → e.listens n ≡ some port)
    → e.parse b ≡ some (Message.punch_hole_response (refusal f))
    → let (r, w') = connect_to_peer e c peer_id w in
      (r ≡ some port)
      × (last_act w'.acts ≡ some (opens (outbound_direct port (e.mangle_decode []))))
refusal_dialled e c peer_id server rest f local port b w servers connects sends replies listens
      parsed =
    let w1 =
      asking e (e.proxy.check_port server rendezvous_port) peer_id c.id c.rendezvous_wire_protocol
        w in
    rw
      (
        connect_to_peer_works e c peer_id server rest local b w servers connects sends replies,
        parsed,
        answered-refusal e f port (port_known e w.calls) w1 (listens w1.calls),
      )
      (refl, refl)
