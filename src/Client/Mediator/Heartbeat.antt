-- ===== src/Client/Mediator/Heartbeat.antt =====
-- On how often RegisterPeer is sent, in nat-client/src/rendezvous_mediator.rs.
use nat_server.Common.{
  ℕ, suc, ◌+◌, ◌≤◌, Bool, true, false, none, some, List, [], ◌∷◌, ◌++◌, if◌then◌else◌, is_empty,
  ◌≡◌, refl, ap, ◌∙◌, arith,
}
use nat_server.Common.Int.{pos}
use nat_server.Common.Text.{Bytes}
use nat_server.Net.{proto3}
use nat_server.Message
use nat_server.Client.Mediator.{
  MediatorEnv, Mediator, Out, message, goes_on, gone_online, spawn_detection, put, send_rendezvous,
  register_peer, handle_msg, receive, needs_registration, tick, Event, frame, timer, run,
  detect_nat_type,
}

-- The times of a tick and of the answer to what it sends.
abbrev pub rounds : Bytes → List (ℕ × ℕ) → List Event
rounds b [] = []
rounds b ((t, a) ∷ ts) = timer t ∷ frame a (some b) ∷ rounds b ts

-- Each tick comes within 22.5 s of the frame before it.
abbrev pub InTime : ℕ → List (ℕ × ℕ) → Type 0
InTime last [] = Unit {0}
InTime last ((t, a) ∷ ts) = (t ≤ last + 22_500) × InTime a ts

abbrev pub peer_message : MediatorEnv → Mediator → Out
peer_message e m =
    let x = Message.register_peer (record { id = m.config.id; serial = pos 0 }) in
    message x (if e.can_encode x m.wire then m.wire else proto3)

-- A copy for each round.
abbrev pub one_each : Out → List (ℕ × ℕ) → List Out
one_each o [] = []
one_each o (x ∷ ts) = o ∷ one_each o ts

one_each-cons :
    (o : Out) (ts : List (ℕ × ℕ)) (os : List Out)
    → one_each o ts ++ (o ∷ os) ≡ o ∷ (one_each o ts ++ os)
one_each-cons o [] os = refl
one_each-cons o (x ∷ ts) os = ap (λ y. o ∷ y) (one_each-cons o ts os)

-- The mediator may send, and awaits no answer.
record IsIdle (last : ℕ) (m : Mediator) : Type 0 where
  pub stays : m.should_exit ≡ false
  pub registered : needs_registration m ≡ false
  pub awaits_none : m.last_register_sent ≡ none
  pub heard : m.last_recv_msg ≡ last

module _ (e : MediatorEnv) (sends : (n : ℕ) → e.send_ok n ≡ true) where
  tick-IsIdle :
      (now last : ℕ) (m : Mediator)
      → IsIdle last m
      → now ≤ last + 22_500
      → tick e now m ≡ (
        goes_on,
        record m {
          sends = suc m.sends;
          sent = peer_message e m ∷ m.sent;
          last_register_sent = some now;
        },
      )
  unfolding tick register_peer send_rendezvous put
  tick-IsIdle now last m h t =
      ground (arith, h.stays, h.registered, h.awaits_none, h.heard, t, sends m.sends)

  answered-IsIdle :
      (b : Bytes) (now : ℕ) (m : Mediator)
      → is_empty b ≡ false
      → e.parse b ≡ some (Message.register_peer_response false)
      → receive e now (some b) m
        ≡ (goes_on, gone_online (record m { last_recv_msg = now; last_register_sent = none }))
  unfolding receive handle_msg
  answered-IsIdle b now m nonempty p = ground (arith, nonempty, p)

  -- What a new task and the online state leave alone.
  spawn-IsIdle :
      (known : Bool) (last : ℕ) (m : Mediator)
      → IsIdle last m
      → let m' = if known then m else record m { tasks = detect_nat_type ∷ m.tasks } in
        IsIdle last m' × (m'.sent ≡ m.sent) × (peer_message e m' ≡ peer_message e m)
  spawn-IsIdle true last m h = (h, refl, refl)
  spawn-IsIdle false last m h = (
    record {
      stays = h.stays;
      registered = h.registered;
      awaits_none = h.awaits_none;
      heard = h.heard;
    },
    refl,
    refl,
  )

  -- Where every send succeeds, a registered mediator that awaits no answer, and whose every tick
  -- comes within 22.5 s of the frame before it and is answered by RegisterPeerResponse without a
  -- request for the key, sends one RegisterPeer at each tick, however close the ticks are, and the loop
  -- goes on.
  pub heartbeat_each_tick :
      (b : Bytes) (ts : List (ℕ × ℕ)) (m : Mediator)
      → is_empty b ≡ false
      → e.parse b ≡ some (Message.register_peer_response false)
      → m.should_exit ≡ false
      → needs_registration m ≡ false
      → m.last_register_sent ≡ none
      → InTime m.last_recv_msg ts
      → let (turn, m') = run e (rounds b ts) m in
        (turn ≡ goes_on) × (m'.sent ≡ one_each (peer_message e m) ts ++ m.sent)
  unfolding run
  heartbeat_each_tick b [] m nonempty p stays registered none_sent t = (refl, refl)
  heartbeat_each_tick b ((now, a) ∷ ts) m nonempty p stays registered none_sent (t, u) =
      let o = peer_message e m in
      let m1 : Mediator = record m {
        sends = suc m.sends;
        sent = o ∷ m.sent;
        last_register_sent = none;
        last_recv_msg = a;
        online = true;
      } in
      let idle : IsIdle m.last_recv_msg m = record {
        stays = stays;
        registered = registered;
        awaits_none = none_sent;
        heard = refl;
      } in
      let (idle', sent', same) =
        spawn-IsIdle m.nat_detected a m1
          (record { stays = stays; registered = registered; awaits_none = refl; heard = refl }) in
      let ih =
        heartbeat_each_tick b ts (spawn_detection m1) nonempty p idle'.stays idle'.registered
          idle'.awaits_none (rw idle'.heard u) in
      rw
        (
          tick-IsIdle now m.last_recv_msg m idle t,
          answered-IsIdle b a
              (record m { sends = suc m.sends; sent = o ∷ m.sent; last_register_sent = some now })
              nonempty p,
        )
        (ih.0, ih.1 ∙ rw (same, sent') (one_each-cons o ts m.sent))
