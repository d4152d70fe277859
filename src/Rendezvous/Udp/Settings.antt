-- ===== src/Rendezvous/Udp/Settings.antt =====
-- On the branches of `handle_udp` of src/rendezvous_server.rs, and the server's configuration.
use nat_server.Common.{ℕ, ◌≡◌, refl, false, Bool, Option, none, some, arith, list_has_eq, unwrap_or}
use nat_server.Common.Map.{lookup}
use nat_server.Common.Text.{Text, Bytes}
use nat_server.Net.{SocketAddr, Protocol, ip_of}
use nat_server.Message
use nat_server.Message.{Message}
use nat_server.Database.Statements.{
  statement, db_get_peer, insert_peer_with_user, update_pk_with_user, resolve_peer_device_binding,
}
use nat_server.State.{Env, Server, Peer, M, after}
use nat_server.PeerMap.{
  default_peer, write_peer, get, get_or, bind_user, store_peer, mark_online, update_pk, trimmed,
  registered_peer, validate_peer_token,
}
use nat_server.Rendezvous.Frame.{send_rk_res-Keeps, check_ip_blocker-Keeps}
use nat_server.Rendezvous.Output.{send_udp, send_rk_res, send_to_sink, send_to_tcp}
use nat_server.Rendezvous.Limits.{check_ip_blocker, limit_reg_pk, record_ip_change}
use nat_server.Rendezvous.Register.{
  update_addr, check_registration, accept_pk, register_known, handle_register_pk,
}
use nat_server.Rendezvous.Relays.{get_pk, get_relay_server}
use nat_server.Rendezvous.Punch.{
  record_punch_req, handle_punch_hole_request, handle_udp_punch_hole_request, handle_hole_sent,
  handle_local_addr, answer_a,
}
use nat_server.Rendezvous.Udp.{handle_register_peer, handle_software_update}

abbrev known_peer : Text → Server → Peer
known_peer id s = unwrap_or (lookup id s.peers) (default_peer s.now)

-- The configuration after a step is the one before it.
abbrev pub SameConf : Server → Server → Type 0
SameConf s t = t.conf ≡ s.conf

db_get_peer-conf : (env : Env) (id : Text) (s : Server) → SameConf s (after (db_get_peer env id) s)
unfolding db_get_peer statement
db_get_peer-conf env id s = ground arith

get-conf : (env : Env) (id : Text) (s : Server) → SameConf s (after (get env id) s)
unfolding get
get-conf env id s = ground (arith, db_get_peer-conf env id s)

get_or-conf : (env : Env) (id : Text) (s : Server) → SameConf s (after (get_or env id) s)
unfolding get_or
get_or-conf env id s = ground (arith, get-conf env id s)

bind_user-conf :
    (env : Env) (id : Text) (t : Option Text) (s : Server)
    → SameConf s (after (bind_user env id t) s)
unfolding bind_user validate_peer_token resolve_peer_device_binding statement write_peer
bind_user-conf env id none s = refl
bind_user-conf env id (some t) s = ground arith

store_peer-conf :
    (env : Env) (id : Text) (uuid pk : Bytes) (s : Server)
    → SameConf s (after (store_peer env id uuid pk) s)
unfolding store_peer insert_peer_with_user update_pk_with_user statement write_peer
store_peer-conf env id uuid pk s = ground arith

write_peer-conf :
    (id : Text) (f : Peer → Peer) (s : Server) → SameConf s (after (write_peer id f) s)
unfolding write_peer
write_peer-conf id f s = ground arith

update_pk-conf :
    (env : Env) (id : Text) (addr : SocketAddr) (uuid pk : Bytes) (ip : Text) (token : Option Text)
    (s : Server)
    → SameConf s (after (update_pk env id addr uuid pk ip token) s)
unfolding update_pk mark_online
update_pk-conf env id addr uuid pk ip token s =
    let t = after (bind_user env id (trimmed token)) s in
    let f = registered_peer addr uuid pk ip t.now in
    ground (
      arith,
      bind_user-conf env id (trimmed token) s,
      write_peer-conf id f t,
      store_peer-conf env id uuid pk (after (write_peer id f) t),
    )

get_pk-conf :
    (env : Env) (version id : Text) (s : Server) → SameConf s (after (get_pk env version id) s)
unfolding get_pk
get_pk-conf env version id s = ground (arith, get-conf env id s)

send_to_tcp-conf :
    (env : Env) (m : Message) (addr : SocketAddr) (s : Server)
    → SameConf s (after (send_to_tcp env m addr) s)
unfolding send_to_tcp send_to_sink
send_to_tcp-conf env m addr s = ground arith

answer_a-conf :
    (env : Env) (udp : Bool) (m : Message) (addr : SocketAddr) (s : Server)
    → SameConf s (after (answer_a env udp m addr) s)
unfolding answer_a send_udp
answer_a-conf env udp m addr s = ground (arith, send_to_tcp-conf env m addr s)

pub handle_hole_sent-conf :
    (env : Env) (phs : Message.PunchHoleSent) (addr : SocketAddr) (udp : Bool) (s : Server)
    → SameConf s (after (handle_hole_sent env phs addr udp) s)
unfolding handle_hole_sent
handle_hole_sent-conf env phs addr udp s =
    grind (arith, get_pk-conf env phs.version phs.id s, answer_a-conf)

pub handle_local_addr-conf :
    (env : Env) (la : Message.LocalAddr) (addr : SocketAddr) (udp : Bool) (s : Server)
    → SameConf s (after (handle_local_addr env la addr udp) s)
unfolding handle_local_addr
handle_local_addr-conf env la addr udp s =
    grind (arith, get_pk-conf env la.version la.id s, answer_a-conf)

pub get_relay_server-conf : (s : Server) → SameConf s (after get_relay_server s)
unfolding get_relay_server
get_relay_server-conf s = ground arith

record_punch_req-conf :
    (env : Env) (a b : SocketAddr) (id : Text) (s : Server)
    → SameConf s (record_punch_req env a b id s)
unfolding record_punch_req
record_punch_req-conf env a b id s = ground arith

handle_punch_hole_request-conf :
    (env : Env) (addr : SocketAddr) (ph : Message.PunchHoleRequest) (key : Text) (ws : Bool)
    (s : Server)
    → SameConf s (after (handle_punch_hole_request env addr ph key ws) s)
unfolding handle_punch_hole_request
handle_punch_hole_request-conf env addr ph key ws s =
    grind (arith, get-conf env ph.id s, record_punch_req-conf, get_relay_server-conf)

pub handle_udp_punch_hole_request-conf :
    (env : Env) (addr : SocketAddr) (ph : Message.PunchHoleRequest) (key : Text) (wire : Protocol)
    (s : Server)
    → SameConf s (after (handle_udp_punch_hole_request env addr ph key wire) s)
unfolding handle_udp_punch_hole_request
handle_udp_punch_hole_request-conf env addr ph key wire s =
    ground (arith, handle_punch_hole_request-conf env addr ph key false s)

accept_pk-conf :
    (env : Env) (rk : Message.RegisterPk) (addr : SocketAddr) (wire : Protocol) (ip : Text)
    (req_pk : ℕ × ℕ) (changed ip_changed : Bool) (s : Server)
    → SameConf s (after (accept_pk env rk addr wire ip req_pk changed ip_changed) s)
unfolding accept_pk write_peer record_ip_change send_udp
accept_pk-conf env rk addr wire ip req_pk changed ip_changed s = grind (arith, update_pk-conf)

answer_registration-conf :
    (env : Env) (rk : Message.RegisterPk) (addr : SocketAddr) (wire : Protocol) (ip : Text)
    (checked : Option (Bool × Bool)) (limit : Option (ℕ × ℕ)) (s : Server)
    → let answer : M (Unit {0}) = elim checked [
      | none ↦ send_rk_res env addr Message.uuid_mismatch wire
      | some (changed, ip_changed) ↦ elim limit [
        | none ↦ send_rk_res env addr Message.too_frequent wire
        | some req_pk ↦ accept_pk env rk addr wire ip req_pk changed ip_changed
      ]
    ] in
      SameConf s (after answer s)
answer_registration-conf env rk addr wire ip none limit s =
    (send_rk_res-Keeps env addr Message.uuid_mismatch wire s).conf
answer_registration-conf env rk addr wire ip (some (changed, ip_changed)) none s =
    (send_rk_res-Keeps env addr Message.too_frequent wire s).conf
answer_registration-conf env rk addr wire ip (some (changed, ip_changed)) (some req_pk) s =
    accept_pk-conf env rk addr wire ip req_pk changed ip_changed s

register_known-conf :
    (env : Env) (rk : Message.RegisterPk) (addr : SocketAddr) (wire : Protocol) (ip : Text)
    (s : Server)
    → SameConf s (after (register_known env rk addr wire ip) s)
unfolding register_known
register_known-conf env rk addr wire ip s =
    let t = after (get_or env rk.id) s in
    ground (
      arith,
      get_or-conf env rk.id s,
      answer_registration-conf env rk addr wire ip
          (check_registration (known_peer rk.id t) rk.uuid rk.pk ip)
          (limit_reg_pk t.now (known_peer rk.id t).reg_pk) t,
    )

pub handle_register_pk-conf :
    (env : Env) (rk : Message.RegisterPk) (addr : SocketAddr) (wire : Protocol) (s : Server)
    → SameConf s (after (handle_register_pk env rk addr wire) s)
unfolding handle_register_pk
handle_register_pk-conf env rk addr wire s =
    let ip = env.ip_to_string (ip_of addr) in
    let t = after (check_ip_blocker ip rk.id) s in
    ground (
      arith,
      check_ip_blocker-Keeps ip rk.id s,
      register_known-conf env rk addr wire ip t,
      send_rk_res-Keeps env addr Message.uuid_mismatch wire s,
      send_rk_res-Keeps env addr Message.too_frequent wire t,
    )

update_addr-conf :
    (env : Env) (id : Text) (addr : SocketAddr) (wire : Protocol) (s : Server)
    → SameConf s (after (update_addr env id addr wire) s)
unfolding update_addr write_peer send_udp
update_addr-conf env id addr wire s = ground arith

pub handle_register_peer-conf :
    (env : Env) (rp : Message.RegisterPeer) (addr : SocketAddr) (wire : Protocol) (s : Server)
    → SameConf s (after (handle_register_peer env rp addr wire) s)
unfolding handle_register_peer send_udp
handle_register_peer-conf env rp addr wire s =
    ground (arith, update_addr-conf env rp.id addr wire s)

pub handle_software_update-conf :
    (env : Env) (url : Text) (addr : SocketAddr) (wire : Protocol) (s : Server)
    → SameConf s (after (handle_software_update env url addr wire) s)
unfolding handle_software_update send_udp
handle_software_update-conf env url addr wire s = ground arith
