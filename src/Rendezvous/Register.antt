-- ===== src/Rendezvous/Register.antt =====
-- Registration by UDP in src/rendezvous_server.rs: RegisterPeer (`update_addr`) and RegisterPk.
pub mod Others
pub mod Safety
pub mod Replies
use nat_server.PeerMap.{get_in_memory, read_peer, write_peer, get_or, update_pk}
use nat_server.Rendezvous.Limits.{check_ip_blocker, limit_reg_pk, record_ip_change}
use nat_server.Rendezvous.Output.{send_udp, send_rk_res}
use nat_server.Common.{
  ℕ, Bool, true, false, ◌&&◌, ◌||◌, not, Option, none, some, ltb, nat_eq, ◌==◌, list_has_eq,
  nat_has_eq, if◌then◌else◌, is_empty,
}
use nat_server.Common.Text.{Text, Bytes, len, trim}
use nat_server.Net.{SocketAddr, ip_of, port_of, is_loopback, Protocol, ip_has_eq, addr_has_eq}
use nat_server.State.{Peer, Env, M, pure, gets, ◌>>=◌, ◌>>◌, when}
use nat_server.Message
use nat_server.Message.{Message}

-- A token that is blank is none.
unfoldable pub token_of : Text → Option Text
token_of t = let x = trim t in if is_empty x then none else some x

-- Has the address of a known peer changed? A peer that was only loaded has no port.
unfoldable pub is_ip_change : Env → SocketAddr → Peer → Bool
is_ip_change env addr old =
    (if not (nat_eq (port_of old.socket_addr) 0)
      then not (ip_of addr == ip_of old.socket_addr)
      else not (env.ip_to_string (ip_of addr) == old.info.ip))
    && not (is_loopback (ip_of addr))

-- The refreshed peer.
abbrev pub refreshed : SocketAddr → ℕ → Protocol → Peer → Peer
refreshed addr now proto old = record old {
  socket_addr = addr;
  last_reg_time = now;
  protocol = proto;
}

-- The check of RegisterPk against what is known: `none` is a mismatch, and otherwise whether
-- anything changed, and whether the address did.
unfoldable pub check_registration : Peer → Bytes → Bytes → Text → Option (Bool × Bool)
check_registration peer uuid pk ip =
    if is_empty peer.uuid
    then some (true, false)
    else if peer.uuid == uuid
    then (if not (peer.info.ip == ip) && not (peer.pk == pk)
        then none
        else (let ip_changed = not (peer.info.ip == ip) in
            some (not (peer.uuid == uuid) || (not (peer.pk == pk) || ip_changed), ip_changed)))
    else none

module _ (env : Env) where
  -- `update_addr`.
  unfoldable pub update_addr : Text → SocketAddr → Protocol → M (Unit {0})
  update_addr id addr proto = do
    known ← get_in_memory id
    now ← gets (λ s. s.now)
    request_pk ← elim known [
      | none ↦ pure true
      | some old ↦
          let request_pk = is_empty old.pk || is_ip_change env addr old in
          (if request_pk then pure true else write_peer id (refreshed addr now proto) >> pure false)
    ]
    send_udp env (Message.register_peer_response request_pk) addr proto

  -- RegisterPk once the peer is known to pass the checks.
  unfoldable pub accept_pk :
      Message.RegisterPk → SocketAddr → Protocol → Text → ℕ × ℕ → Bool → Bool → M (Unit {0})
  accept_pk rk addr proto ip req_pk changed ip_changed = do
    write_peer rk.id (λ w. record w { reg_pk = req_pk })
    when ip_changed (record_ip_change rk.id ip)
    when changed (update_pk env rk.id addr rk.uuid rk.pk ip (token_of rk.user_token) >> pure tt)
    write_peer rk.id (λ w. record w { protocol = proto })
    send_udp env (Message.register_pk_response (Message.pk_response Message.registered)) addr proto

  -- RegisterPk after the checks on the message alone.
  unfoldable pub register_known : Message.RegisterPk → SocketAddr → Protocol → Text → M (Unit {0})
  register_known rk addr proto ip = do
    get_or env rk.id
    peer ← read_peer rk.id
    now ← gets (λ s. s.now)
    elim (check_registration peer rk.uuid rk.pk ip) [
      | none ↦ send_rk_res env addr Message.uuid_mismatch proto
      | some (changed, ip_changed) ↦ elim (limit_reg_pk now peer.reg_pk) [
        | none ↦ send_rk_res env addr Message.too_frequent proto
        | some req_pk ↦ accept_pk rk addr proto ip req_pk changed ip_changed
      ]
    ]

  -- The RegisterPk branch of `handle_udp`.
  unfoldable pub handle_register_pk : Message.RegisterPk → SocketAddr → Protocol → M (Unit {0})
  handle_register_pk rk addr proto =
      let ip = env.ip_to_string (ip_of addr) in
      if is_empty rk.uuid || is_empty rk.pk
      then pure tt
      else if ltb (len rk.id) 6
      then send_rk_res env addr Message.uuid_mismatch proto
      else (do
        allowed ← check_ip_blocker ip rk.id
        if allowed
            then register_known rk addr proto ip
            else send_rk_res env addr Message.too_frequent proto)
