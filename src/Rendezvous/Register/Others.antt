-- ===== src/Rendezvous/Register/Others.antt =====
-- On RegisterPk by UDP and TCP in src/rendezvous_server.rs, at other ids than the message's.
use nat_server.Common.{
  ℕ, ◌≡◌, refl, ap, false, true, Bool, Option, none, some, arith, ◌==◌, list_has_eq,
}
use nat_server.Common.Map.{lookup}
use nat_server.Common.Text.{Text}
use nat_server.Net.{SocketAddr, Protocol, ip_of}
use nat_server.Message
use nat_server.State.{Env, Server, Peer, Sink, ◌>>◌, after, when, pure}
use nat_server.PeerMap.{write_peer, get_or, update_pk}
use nat_server.PeerMap.Others.{
  Spares, seq-Spares, write_peer-Spares, get_or-Spares, update_pk-Spares,
}
use nat_server.Rendezvous.Frame.{send_udp-Keeps, send_rk_res-Keeps, check_ip_blocker-Keeps}
use nat_server.Rendezvous.Output.{send_udp, send_to_sink}
use nat_server.Rendezvous.Limits.{check_ip_blocker, record_ip_change}
use nat_server.Rendezvous.Register.{token_of, accept_pk, register_known, handle_register_pk}
use nat_server.Rendezvous.Tcp.{tcp_register_pk}

module _ (env : Env) (rk : Message.RegisterPk) (addr : SocketAddr) (wire : Protocol) (j : Text)
    (ne : (rk.id == j) ≡ false) where
  send_to_sink-Spares :
      (sink : Option Sink) (m : Message.Message) → Spares j (send_to_sink env sink m wire)
  unfolding send_to_sink
  send_to_sink-Spares none m s = refl
  send_to_sink-Spares (some sink) m s = ground arith

  moved-Spares : (ip : Text) (b : Bool) → Spares j (when b (record_ip_change rk.id ip))
  unfolding record_ip_change
  moved-Spares ip true s = refl
  moved-Spares ip false s = refl

  updated-Spares :
      (ip : Text) (b : Bool)
      → Spares j
          (when b (update_pk env rk.id addr rk.uuid rk.pk ip (token_of rk.user_token) >> pure tt))
  updated-Spares ip true =
      seq-Spares j (update_pk env rk.id addr rk.uuid rk.pk ip (token_of rk.user_token)) (pure tt)
        (update_pk-Spares env rk.id j addr rk.uuid rk.pk ip (token_of rk.user_token) ne) (λ s. refl)
  updated-Spares ip false = λ s. refl

  accept_pk-Spares :
      (ip : Text) (req_pk : ℕ × ℕ) (changed ip_changed : Bool)
      → Spares j (accept_pk env rk addr wire ip req_pk changed ip_changed)
  unfolding accept_pk
  accept_pk-Spares ip req_pk changed ip_changed =
      let counted = write_peer rk.id (λ (w : Peer). record w { reg_pk = req_pk }) in
      let moved = when ip_changed (record_ip_change rk.id ip) in
      let update = update_pk env rk.id addr rk.uuid rk.pk ip (token_of rk.user_token) in
      let updated = when changed (update >> pure tt) in
      let spoken = write_peer rk.id (λ (w : Peer). record w { protocol = wire }) in
      let answered =
        send_udp env (Message.register_pk_response (Message.pk_response Message.registered)) addr
          wire in
      seq-Spares j counted (moved >> (updated >> (spoken >> answered)))
        (write_peer-Spares rk.id j (λ w. record w { reg_pk = req_pk }) ne)
        (seq-Spares j moved (updated >> (spoken >> answered)) (moved-Spares ip ip_changed) (
          seq-Spares j updated (spoken >> answered) (updated-Spares ip changed) (
            seq-Spares j spoken answered
              (write_peer-Spares rk.id j (λ w. record w { protocol = wire }) ne)
              (λ s.
                ap (lookup j)
                  (send_udp-Keeps env
                    (Message.register_pk_response (Message.pk_response Message.registered)) addr
                    wire s).peers))))

  register_known-Spares : (ip : Text) → Spares j (register_known env rk addr wire ip)
  unfolding register_known
  register_known-Spares ip s =
      let t = after (get_or env rk.id) s in
      grind (
        arith,
        get_or-Spares env rk.id j ne s,
        send_rk_res-Keeps env addr Message.uuid_mismatch wire t,
        send_rk_res-Keeps env addr Message.too_frequent wire t,
        accept_pk-Spares,
      )

  -- RegisterPk by UDP leaves the peers of all other ids as they are, on every branch.
  pub handle_register_pk-Spares :
      (s : Server)
      → lookup j (after (handle_register_pk env rk addr wire) s).peers ≡ lookup j s.peers
  unfolding handle_register_pk
  handle_register_pk-Spares s =
      let ip = env.ip_to_string (ip_of addr) in
      let t = after (check_ip_blocker ip rk.id) s in
      ground (
        arith,
        check_ip_blocker-Keeps ip rk.id s,
        register_known-Spares ip t,
        send_rk_res-Keeps env addr Message.uuid_mismatch wire s,
        send_rk_res-Keeps env addr Message.too_frequent wire t,
      )

  -- RegisterPk by TCP leaves the peers of all other ids as they are, on every branch.
  pub tcp_register_pk-Spares :
      (sink : Option Sink) (s : Server)
      → lookup j (after (tcp_register_pk env rk sink addr wire) s).peers ≡ lookup j s.peers
  unfolding tcp_register_pk
  tcp_register_pk-Spares sink s =
      let ip = env.ip_to_string (ip_of addr) in
      let s1 = after (get_or env rk.id) s in
      let s2 = after (update_pk env rk.id addr rk.uuid rk.pk ip (token_of rk.user_token)) s1 in
      let s3 = after (write_peer rk.id (λ w. record w { protocol = wire })) s2 in
      grind (
        arith,
        get_or-Spares env rk.id j ne s,
        update_pk-Spares env rk.id j addr rk.uuid rk.pk ip (token_of rk.user_token) ne s1,
        write_peer-Spares rk.id j (λ w. record w { protocol = wire }) ne s2,
        send_to_sink-Spares,
      )
