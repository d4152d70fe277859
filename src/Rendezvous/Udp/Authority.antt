-- ===== src/Rendezvous/Udp/Authority.antt =====
-- On `handle_udp` of src/rendezvous_server.rs, and who may configure the server.
use nat_server.Common.{
  ◌≡◌, refl, false, true, arith, list_has_eq, if◌then◌else◌, inl, inr, Option-cases,
}
use nat_server.Common.Int.{ltb_ℤ}
use nat_server.Common.Text.{Text, Bytes}
use nat_server.Net.{SocketAddr, Protocol, ip_of, is_loopback, detect}
use nat_server.Message
use nat_server.Message.{Message}
use nat_server.State.{Env, Server, after}
use nat_server.Rendezvous.Frame.{send_udp-Keeps}
use nat_server.Rendezvous.Udp.{handle_configure_update, handle_udp_message, handle_udp}
use nat_server.Rendezvous.Udp.Settings.{
  handle_register_peer-conf, handle_register_pk-conf, handle_udp_punch_hole_request-conf,
  handle_hole_sent-conf, handle_local_addr-conf, handle_software_update-conf,
}

-- From `s` to `t` the serial of the settings does not fall, and the settings are the same unless
-- the datagram came from this machine.
pub record IsGuarded (env : Env) (addr : SocketAddr) (s t : Server) : Type 0 where
  pub rises : ltb_ℤ t.conf.inner.serial s.conf.inner.serial ≡ false
  pub remote : t.conf ≡ (if is_loopback (ip_of (env.try_into_v4 addr)) then t.conf else s.conf)

same-IsGuarded :
    (env : Env) (addr : SocketAddr) (s t : Server) → t.conf ≡ s.conf → IsGuarded env addr s t
same-IsGuarded env addr s t same = record { rises = ground arith; remote = ground arith }

handle_configure_update-IsGuarded :
    (env : Env) (cu : Message.ConfigUpdate) (addr : SocketAddr) (s : Server)
    → IsGuarded env addr s (handle_configure_update env cu addr s)
unfolding handle_configure_update
handle_configure_update-IsGuarded env cu addr s = record {
  rises = ground arith;
  remote = ground arith;
}

handle_udp_message-IsGuarded :
    (env : Env) (m : Message) (addr : SocketAddr) (key : Text) (wire : Protocol) (s : Server)
    → IsGuarded env addr s (after (handle_udp_message env m addr key wire) s)
unfolding handle_udp_message
handle_udp_message-IsGuarded env (Message.register_peer rp) addr key wire s =
    same-IsGuarded env addr s _ (handle_register_peer-conf env rp addr wire s)
handle_udp_message-IsGuarded env (Message.register_pk rk) addr key wire s =
    same-IsGuarded env addr s _ (handle_register_pk-conf env rk addr wire s)
handle_udp_message-IsGuarded env (Message.punch_hole_request ph) addr key wire s =
    same-IsGuarded env addr s _
      (ground (arith, handle_udp_punch_hole_request-conf env addr ph key wire s))
handle_udp_message-IsGuarded env (Message.punch_hole_sent phs) addr key wire s =
    same-IsGuarded env addr s _ (handle_hole_sent-conf env phs addr true s)
handle_udp_message-IsGuarded env (Message.local_addr la) addr key wire s =
    same-IsGuarded env addr s _ (handle_local_addr-conf env la addr true s)
handle_udp_message-IsGuarded env (Message.configure_update cu) addr key wire s =
    handle_configure_update-IsGuarded env cu addr s
handle_udp_message-IsGuarded env (Message.test_nat_request serial) addr key wire s =
    same-IsGuarded env addr s _ (send_udp-Keeps env _ addr wire s).conf
handle_udp_message-IsGuarded env (Message.software_update url) addr key wire s =
    same-IsGuarded env addr s _ (handle_software_update-conf env url addr wire s)
handle_udp_message-IsGuarded env _ addr key wire s = same-IsGuarded env addr s _ refl

-- Whatever datagram arrives, from wherever and with whatever failures: the serial of the settings does
-- not fall, and settings and server lists change only if it came from a loopback address.
pub handle_udp-IsGuarded :
    (env : Env) (bytes : Bytes) (addr : SocketAddr) (key : Text) (s : Server)
    → IsGuarded env addr s (after (handle_udp env bytes addr key) s)
unfolding handle_udp
handle_udp-IsGuarded env bytes addr key s = elim (Option-cases (env.parse bytes)) [
  | inl e ↦ rw (e, after) (same-IsGuarded env addr s s refl)
  | inr (m, e) ↦ rw (e, after) (handle_udp_message-IsGuarded env m addr key (detect bytes) s)
]
