-- ===== src/Rendezvous/Punch.antt =====
-- Hole punching in src/rendezvous_server.rs: the request of A, and the answers of B.
pub mod Answers
use nat_server.PeerMap.{get, find_protocol}
use nat_server.Rendezvous.Limits.{secs}
use nat_server.Rendezvous.Output.{send_udp, send_to_tcp, enqueue}
use nat_server.Rendezvous.Relays.{get_relay_server, is_lan, get_pk}
use mathlib.Core.List.{reverse}
use nat_server.Common.{
  ℕ, ◌-◌, Bool, true, false, ◌&&◌, ◌||◌, not, xor, Option, none, some, List, [], ◌∷◌, ◌++◌, ltb,
  nat_eq, ◌==◌, list_has_eq, nat_has_eq, if◌then◌else◌, is_empty, take,
}
use nat_server.Common.Int.{pos, ltb_ℤ, as_i32}
use nat_server.Common.Text.{Text}
use nat_server.Net.{SocketAddr, v4, v6, ip_of, Protocol, proto3, ip_has_eq, addr_has_eq}
use nat_server.State.{Peer, PunchReqEntry, msg, Server, Env, M, pure, gets, ◌>>=◌, ◌>>◌, modify}
use nat_server.Message
use nat_server.Message.{Message}

-- Registered less than 30 seconds ago. The milliseconds are cast to an i32.
unfoldable pub is_online : ℕ → Peer → Bool
is_online now p = ltb_ℤ (as_i32 (now - p.last_reg_time)) (pos 30_000)

-- The first entry that matches says whether the request is a repetition.
unfoldable pub is_dup : ℕ → Text → Text → List PunchReqEntry → Bool
is_dup now from_ip to_id [] = false
is_dup now from_ip to_id (e ∷ es) =
    if e.from_ip == from_ip && e.to_id == to_id
    then ltb (secs now e.tm) 60
    else is_dup now from_ip to_id es

-- The log of requests, `PUNCH_REQS`, of which the last 30 are looked at.
unfoldable pub record_punch_req : Env → SocketAddr → SocketAddr → Text → Server → Server
record_punch_req env addr peer_addr id s =
    let from_ip = env.ip_to_string (ip_of (env.try_into_v4 addr)) in
    let to_ip = env.ip_to_string (ip_of (env.try_into_v4 peer_addr)) in
    if is_dup s.now from_ip id (take 30 (reverse s.punch_reqs)) then s else record s {
      punch_reqs =
          s.punch_reqs ++ record { tm = s.now; from_ip = from_ip; to_ip = to_ip; to_id = id } ∷ [];
    }

-- The two addresses are one host's, or one router's.
abbrev pub same_ip : SocketAddr → SocketAddr → Bool
same_ip (v4 a p) (v4 b q) = nat_eq a b
same_ip (v6 a p f s) (v6 b q g t) = nat_eq a b
same_ip _ _ = false

-- What `handle_punch_hole_request` answers: a message, to B or (`none`) back to A.
pub record PunchAnswer : Type 0 where
  pub msg_out : Message
  pub to_addr : Option SocketAddr
  pub target_proto : Protocol

abbrev pub failure : Message.Failure → PunchAnswer
failure f = record {
  msg_out =
      Message.punch_hole_response (record (Message.default_punch_hole_response) { failure = f });
  to_addr = none;
  target_proto = proto3;
}

module _ (env : Env) where
  -- The answer for a peer that is online, once the relay server is chosen.
  unfoldable pub punch_answer :
      SocketAddr → Message.PunchHoleRequest → Bool → Text → Peer → Server → PunchAnswer
  punch_answer addr ph ws relay r s =
      let peer_is_lan = is_lan env r.socket_addr s.conf.inner in
      let lan = is_lan env addr s.conf.inner in
      let force_relay = s.always_use_relay || xor peer_is_lan lan in
      let relay_server = if force_relay && peer_is_lan then s.conf.inner.local_ip else relay in
      let nat_type = if force_relay then pos 2 else ph.nat_type in
      let same_intranet = not ws && ((peer_is_lan && lan) || same_ip r.socket_addr addr) in
      let socket_addr = env.mangle_encode s.now addr in
      record {
        msg_out =
            if same_intranet
            then Message.fetch_local_addr (record {
              socket_addr = socket_addr;
              relay_server = relay_server;
              socket_addr_v6 = [];
              control_permissions = [];
            })
            else Message.punch_hole (record {
              socket_addr = socket_addr;
              relay_server = relay_server;
              nat_type = nat_type;
              udp_port = pos 0;
              force_relay = false;
              upnp_port = ph.upnp_port;
              socket_addr_v6 = [];
              control_permissions = [];
            });
        to_addr = some r.socket_addr;
        target_proto = r.protocol;
      }

  -- `handle_punch_hole_request`.
  unfoldable pub handle_punch_hole_request :
      SocketAddr → Message.PunchHoleRequest → Text → Bool → M PunchAnswer
  handle_punch_hole_request addr ph key ws =
      if not (is_empty key) && not (ph.licence_key == key)
      then pure (failure Message.license_mismatch)
      else (do
        peer ← get env ph.id
        elim peer [
          | none ↦ pure (failure Message.id_not_exist)
          | some r ↦ do
            online ← gets (λ s. is_online s.now r)
            if online
                then (do
                  modify (record_punch_req env addr r.socket_addr ph.id)
                  relay ← get_relay_server
                  gets (punch_answer addr ph ws relay r))
                else pure (failure Message.offline)
        ])

  -- `handle_tcp_punch_hole_request`: an error goes back to the waiting connection.
  unfoldable pub handle_tcp_punch_hole_request :
      SocketAddr → Message.PunchHoleRequest → Text → Bool → M (Unit {0})
  handle_tcp_punch_hole_request addr ph key ws = do
    a ← handle_punch_hole_request addr ph key ws
    elim a.to_addr [
      | some target_addr ↦ enqueue (msg a.msg_out target_addr a.target_proto)
      | none ↦ send_to_tcp env a.msg_out addr
    ]

  -- `handle_udp_punch_hole_request`: an error goes back to the sender.
  unfoldable pub handle_udp_punch_hole_request :
      SocketAddr → Message.PunchHoleRequest → Text → Protocol → M (Unit {0})
  handle_udp_punch_hole_request addr ph key proto = do
    a ← handle_punch_hole_request addr ph key false
    elim a.to_addr [
      | some target_addr ↦ enqueue (msg a.msg_out target_addr a.target_proto)
      | none ↦ enqueue (msg a.msg_out addr proto)
    ]

  -- The end of the two handlers below: to A by UDP, in A's protocol, or to its connection.
  unfoldable pub answer_a : Bool → Message → SocketAddr → M (Unit {0})
  answer_a by_udp m addr_a = do
    reply_proto ← gets (λ s. find_protocol env.try_into_v4 (env.try_into_v4 addr_a) s.peers)
    if by_udp then send_udp env m addr_a reply_proto else send_to_tcp env m addr_a

  abbrev pub known_nat : Option Message.NatType → Option Message.PunchUnion
  known_nat none = none
  known_nat (some t) = some (Message.PunchUnion.nat_type t)

  -- `handle_hole_sent`: B has punched, tell A.
  unfoldable pub handle_hole_sent : Message.PunchHoleSent → SocketAddr → Bool → M (Unit {0})
  handle_hole_sent phs addr by_udp = do
    let addr_a = env.mangle_decode phs.socket_addr
    pk ← get_pk env phs.version phs.id
    now ← gets (λ s. s.now)
    answer_a by_udp
        (Message.punch_hole_response (record (Message.default_punch_hole_response) {
          socket_addr = env.mangle_encode now addr;
          pk = pk;
          relay_server = phs.relay_server;
          upnp_port = phs.upnp_port;
          union = known_nat (Message.enum_value phs.nat_type);
        }))
        addr_a

  -- `handle_local_addr`: the local addresses of B, for A.
  unfoldable pub handle_local_addr : Message.LocalAddr → SocketAddr → Bool → M (Unit {0})
  handle_local_addr la addr by_udp = do
    let addr_a = env.mangle_decode la.socket_addr
    pk ← get_pk env la.version la.id
    answer_a by_udp
        (Message.punch_hole_response (record (Message.default_punch_hole_response) {
          socket_addr = la.local_addr;
          pk = pk;
          relay_server = la.relay_server;
          union = some (Message.PunchUnion.is_local true);
        }))
        addr_a
