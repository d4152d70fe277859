-- ===== src/Rendezvous/Loop/Serial.antt =====
-- On the serial of the settings in `io_loop` of src/rendezvous_server.rs.
use nat_server.Common.{◌≡◌, refl, false, Option-cases, inl, inr, List, [], ◌∷◌, arith, list_has_eq}
use nat_server.Common.Int.{ℤ, ltb_ℤ}
use nat_server.Common.Text.{Text, Bytes, split, trim}
use nat_server.Net.{SocketAddr}
use nat_server.State.{Env, Server, Sink, M, pure, after}
use nat_server.Rendezvous.Output.{transmit}
use nat_server.Rendezvous.Relays.{parse_relay_servers}
use nat_server.Rendezvous.Cmd.{
  Line, cmd_relay_servers, cmd_ip_blocker, cmd_ip_changes, cmd_punch_requests, cmd_always_use_relay,
  cmd_test_geo, run_cmd, check_cmd,
}
use nat_server.Rendezvous.Online.{handle_online_request}
use nat_server.Rendezvous.Udp.Settings.{SameConf, get_relay_server-conf}
use nat_server.Rendezvous.Udp.Authority.{handle_udp-IsGuarded}
use nat_server.Rendezvous.Loop.{
  World, Conn, Event, check_relay_tick, receive, datagram, udp_error, nat_test, accept, accept_ws,
  accept_error, message, hang_up, advance, check_relay_servers, deliver, receive_next,
  handle_listener2, close, handle_message, step, run,
}

-- The serial of the settings.
abbrev pub serial : World → ℤ
serial w = w.server.conf.inner.serial

-- `a` is not below `b`.
abbrev pub IsAtLeast : ℤ → ℤ → Type 0
IsAtLeast a b = ltb_ℤ a b ≡ false

cmd_test_geo-conf :
    (env : Env) (args : List Text) (s : Server) → SameConf s (after (cmd_test_geo env args) s)
unfolding cmd_test_geo
cmd_test_geo-conf env [] s = refl
cmd_test_geo-conf env (a ∷ []) s = ground (arith, get_relay_server-conf s)
cmd_test_geo-conf env (a ∷ (b ∷ args)) s = ground (arith, get_relay_server-conf s)

cmd_ip_blocker-conf : (args : List Text) (s : Server) → SameConf s (after (cmd_ip_blocker args) s)
unfolding cmd_ip_blocker
cmd_ip_blocker-conf args s = ground arith

cmd_ip_changes-conf : (args : List Text) (s : Server) → SameConf s (after (cmd_ip_changes args) s)
unfolding cmd_ip_changes
cmd_ip_changes-conf args s = ground arith

cmd_punch_requests-conf :
    (args : List Text) (s : Server) → SameConf s (after (cmd_punch_requests args) s)
unfolding cmd_punch_requests
cmd_punch_requests-conf [] s = refl
cmd_punch_requests-conf (a ∷ args) s = ground arith

run_cmd-conf :
    (env : Env) (w : Text) (args : List Text) (s : Server)
    → SameConf s (after (run_cmd env w args) s)
unfolding run_cmd cmd_relay_servers cmd_always_use_relay
run_cmd-conf env w args s = ground (
  arith,
  cmd_test_geo-conf env args s,
  cmd_ip_blocker-conf args s,
  cmd_ip_changes-conf args s,
  cmd_punch_requests-conf args s,
)

-- The command of these words.
abbrev named : Env → List Text → M (List Line)
named env ws = elim ws [ [] ↦ pure [] | w ∷ args ↦ run_cmd env w args ]

check_cmd-conf : (env : Env) (cmd : Text) (s : Server) → SameConf s (after (check_cmd env cmd) s)
unfolding check_cmd
check_cmd-conf env cmd s =
    elim (split b' ' (trim cmd)) as (λ ws. SameConf s (after (named env ws) s)) [
      | [] ↦ refl
      | w ∷ args ↦ run_cmd-conf env w args s
    ]

handle_listener2-conf :
    (env : Env) (sink : Sink) (addr : SocketAddr) (bytes : Bytes) (s : Server)
    → SameConf s (handle_listener2 env sink addr bytes s)
unfolding handle_listener2 handle_online_request
handle_listener2-conf env sink addr bytes s = elim (Option-cases (env.from_utf8 bytes)) [
  | inl e ↦ ground (arith, e)
  | inr (cmd, e) ↦ ground (arith, e, check_cmd-conf env cmd s)
]

receive_next-serial :
    (env : Env) (s : Server) → (receive_next env s).conf.inner.serial ≡ s.conf.inner.serial
unfolding receive_next deliver parse_relay_servers transmit
receive_next-serial env s = ground arith

check_relay_servers-conf :
    (env : Env) (rs : List Text) (s : Server) → SameConf s (check_relay_servers env rs s)
unfolding check_relay_servers
check_relay_servers-conf env rs s = ground arith

close-conf : (env : Env) (c : Conn) (s : Server) → SameConf s (close env c s)
unfolding close
close-conf env c s = ground arith

handle_message-conf :
    (env : Env) (key : Text) (c : Conn) (bytes : Bytes) (s : Server)
    → SameConf s (handle_message env key c bytes s).1
unfolding handle_message close
handle_message-conf env key c bytes s = ground arith

IsAtLeast-trans : (a b c : ℤ) → IsAtLeast b a → IsAtLeast c b → IsAtLeast c a
IsAtLeast-trans a b c h k = ground arith

same-IsAtLeast :
    (s t : Server)
    → t.conf.inner.serial ≡ s.conf.inner.serial
    → IsAtLeast t.conf.inner.serial s.conf.inner.serial
same-IsAtLeast s t same = ground arith

step-serial :
    (env : Env) (key : Text) (e : Event) (w : World)
    → IsAtLeast (serial (step env key e w).1) (serial w)
unfolding step
step-serial env key check_relay_tick w =
    ground (arith, check_relay_servers-conf env w.server.conf.relay_servers0 w.server)
step-serial env key receive w =
    same-IsAtLeast w.server (receive_next env w.server) (receive_next-serial env w.server)
step-serial env key (datagram bytes addr) w =
    (handle_udp-IsGuarded env bytes addr key w.server).rises
step-serial env key udp_error w = same-IsAtLeast w.server w.server refl
step-serial env key (nat_test n addr bytes) w =
    let stream : Sink = record { conn = n; ws = false } in
    ground (arith, handle_listener2-conf env stream addr bytes w.server)
step-serial env key (accept n addr) w = same-IsAtLeast w.server w.server refl
step-serial env key (accept_ws n addr real_ip) w = same-IsAtLeast w.server w.server refl
step-serial env key (accept_error f) w = same-IsAtLeast w.server w.server refl
step-serial env key (message n bytes) w =
    grind (arith, λ (c : Conn). handle_message-conf env key c bytes w.server)
step-serial env key (hang_up n) w = grind (arith, λ (c : Conn). close-conf env c w.server)
step-serial env key (advance ms) w = same-IsAtLeast w.server w.server refl

-- Whatever events the server meets, in whatever order, the serial of its settings never falls.
pub run-serial :
    (env : Env) (key : Text) (es : List Event) (w : World)
    → IsAtLeast (serial (run env key es w)) (serial w)
unfolding run
run-serial env key [] w = same-IsAtLeast w.server w.server refl
run-serial env key (e ∷ es) w =
    let w' = (step env key e w).1 in
    IsAtLeast-trans (serial w) (serial w') (serial (run env key es w')) (step-serial env key e w)
      (run-serial env key es w')
