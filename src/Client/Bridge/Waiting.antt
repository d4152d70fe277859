-- ===== src/Client/Bridge/Waiting.antt =====
-- On the lock of the two bridges of a proxied connection, of nat-client/src/socks5.rs and
-- nat-client/src/rendezvous_mediator.rs.
use nat_server.Common.{true, none, List, [], ◌∷◌, ◌++◌, ◌≡◌, refl, arith, ap, ◌∙◌, sym}
use nat_server.Common.Text.{Bytes}
use nat_server.Client.Bridge.{
  Bridge, receiving, Step, read_local, end_local, send_held, fail_send, lock_relay, receive,
  end_relay, write_local, fail_write, local_sends, opened, Joined, Move, caller_steps, exit_steps,
  carry_to_exit, carry_to_caller, Moves, here, next, both_opened,
}

-- The receiver has the lock, nothing is there to receive, and nothing has passed.
pub record IsStuck (b : Bridge) : Type 0 where
  pub locked : b.holder ≡ receiving
  pub nothing : b.relay_in ≡ []
  pub unwritten : b.got ≡ none
  pub unsent : b.to_relay ≡ []
  pub undelivered : b.to_local ≡ []

kept :
    (s t : Bridge)
    → t.holder ≡ s.holder
    → t.relay_in ≡ s.relay_in
    → t.got ≡ s.got
    → t.to_relay ≡ s.to_relay
    → t.to_local ≡ s.to_local
    → IsStuck s
    → IsStuck t
kept s t a b c d e h = record {
  locked = a ∙ h.locked;
  nothing = b ∙ h.nothing;
  unwritten = c ∙ h.unwritten;
  unsent = d ∙ h.unsent;
  undelivered = e ∙ h.undelivered;
}

-- A task that has ended does not begin again.
Step-receives : (s t : Bridge) → Step s t → t.receives ≡ true → s.receives ≡ true
Step-receives s t (read_local c rest n a b e) on = ground (arith, e)
Step-receives s t (end_local n a e) on = ground (arith, e)
Step-receives s t (send_held c a b e) on = ground (arith, e)
Step-receives s t (fail_send c a b e) on = ground (arith, e)
Step-receives s t (lock_relay a r g e) on = ground (arith, e)
Step-receives s t (receive f rest a b e) on = ground (arith, e)
Step-receives s t (end_relay a e) on = ground (arith, e)
Step-receives s t (write_local f a e) on = ground (arith, e)
Step-receives s t (fail_write f a e) on = ground (arith, e)
Step-receives s t (local_sends c e) on = ground (arith, e)

-- While the task that receives goes on, no step of a bridge frees it.
Step-IsStuck : (s t : Bridge) → Step s t → t.receives ≡ true → IsStuck s → IsStuck t
Step-IsStuck s t (read_local c rest n a b e) on h =
    kept s t (ap (λ x. x.holder) e) (ap (λ x. x.relay_in) e) (ap (λ x. x.got) e)
      (ap (λ x. x.to_relay) e) (ap (λ x. x.to_local) e) h
Step-IsStuck s t (end_local n a e) on h =
    kept s t (ap (λ x. x.holder) e) (ap (λ x. x.relay_in) e) (ap (λ x. x.got) e)
      (ap (λ x. x.to_relay) e) (ap (λ x. x.to_local) e) h
Step-IsStuck s t (send_held c a b e) on h = absurd (cc (h.locked, a))
Step-IsStuck s t (fail_send c a b e) on h = absurd (cc (h.locked, a))
Step-IsStuck s t (lock_relay a r g e) on h = absurd (cc (h.locked, a))
Step-IsStuck s t (receive f rest a b e) on h = absurd (cc (h.nothing, b))
Step-IsStuck s t (end_relay a e) on h = absurd (cc (on, e))
Step-IsStuck s t (write_local f a e) on h = absurd (cc (h.unwritten, a))
Step-IsStuck s t (fail_write f a e) on h = absurd (cc (h.unwritten, a))
Step-IsStuck s t (local_sends c e) on h =
    kept s t (ap (λ x. x.holder) e) (ap (λ x. x.relay_in) e) (ap (λ x. x.got) e)
      (ap (λ x. x.to_relay) e) (ap (λ x. x.to_local) e) h

-- Both receivers wait, and the relay server has nothing to carry.
pub record AreStuck (s : Joined) : Type 0 where
  pub at_caller : IsStuck s.caller
  pub at_exit : IsStuck s.exit
  pub none_to_exit : s.to_exit ≡ []
  pub none_to_caller : s.to_caller ≡ []

abbrev pub AreReceiving : Joined → Type 0
AreReceiving s = (s.caller.receives ≡ true) × (s.exit.receives ≡ true)

nothing_in : (xs : List Bytes) (f : Bytes) (rest : List Bytes) → xs ≡ [] → [] ≡ xs ++ (f ∷ rest) → ⊥
nothing_in [] f rest h e = absurd (cc e)
nothing_in (x ∷ xs) f rest h e = absurd (cc h)

Move-AreReceiving : (s t : Joined) → Move s t → AreReceiving t → AreReceiving s
Move-AreReceiving s t (caller_steps {b} st e) on = (
  Step-receives s.caller b st (sym (ap (λ x. x.caller.receives) e) ∙ on.0),
  sym (ap (λ x. x.exit.receives) e) ∙ on.1,
)
Move-AreReceiving s t (exit_steps {b} st e) on = (
  sym (ap (λ x. x.caller.receives) e) ∙ on.0,
  Step-receives s.exit b st (sym (ap (λ x. x.exit.receives) e) ∙ on.1),
)
Move-AreReceiving s t (carry_to_exit f rest a e) on =
    (sym (ap (λ x. x.caller.receives) e) ∙ on.0, sym (ap (λ x. x.exit.receives) e) ∙ on.1)
Move-AreReceiving s t (carry_to_caller f rest a e) on =
    (sym (ap (λ x. x.caller.receives) e) ∙ on.0, sym (ap (λ x. x.exit.receives) e) ∙ on.1)

Move-AreStuck : (s t : Joined) → Move s t → AreReceiving t → AreStuck s → AreStuck t
Move-AreStuck s t (caller_steps {b} st e) on h = rw e (record {
  at_caller = Step-IsStuck s.caller b st (sym (ap (λ x. x.caller.receives) e) ∙ on.0) h.at_caller;
  at_exit = h.at_exit;
  none_to_exit = h.none_to_exit;
  none_to_caller = h.none_to_caller;
})
Move-AreStuck s t (exit_steps {b} st e) on h = rw e (record {
  at_caller = h.at_caller;
  at_exit = Step-IsStuck s.exit b st (sym (ap (λ x. x.exit.receives) e) ∙ on.1) h.at_exit;
  none_to_exit = h.none_to_exit;
  none_to_caller = h.none_to_caller;
})
Move-AreStuck s t (carry_to_exit f rest a e) on h =
    absurd (nothing_in s.to_exit f rest h.none_to_exit (sym h.at_caller.unsent ∙ a))
Move-AreStuck s t (carry_to_caller f rest a e) on h =
    absurd (nothing_in s.to_caller f rest h.none_to_caller (sym h.at_exit.unsent ∙ a))

-- Both tasks that receive have taken the lock before anything came.
abbrev pub both_wait : Joined
both_wait = record both_opened {
  caller = record opened { holder = receiving };
  exit = record opened { holder = receiving };
}

both_wait-AreStuck : (t : Joined) → Moves both_wait t → AreReceiving t → AreStuck t
both_wait-AreStuck t here on =
    let b : IsStuck (record opened { holder = receiving }) = record {
      locked = refl;
      nothing = refl;
      unwritten = refl;
      unsent = refl;
      undelivered = refl;
    } in
    record { at_caller = b; at_exit = b; none_to_exit = refl; none_to_caller = refl }
both_wait-AreStuck t (next {t = u} ms m) on =
    Move-AreStuck u t m on (both_wait-AreStuck u ms (Move-AreReceiving u t m on))

-- Two bridges that have just been joined by the relay server can, before anything is sent, come to where
-- both tasks that receive wait with their lock; and from there, whatever the tasks, the relay server and
-- the two programs do and whatever the programs send, no chunk of either program has gone to the relay or
-- come to the other program as long as both tasks that receive go on.
pub both_wait_silent :
    (t : Joined)
    → Moves both_wait t
    → AreReceiving t
    → Moves both_opened both_wait
      × (t.caller.to_relay ≡ [])
      × (t.exit.to_relay ≡ [])
      × (t.caller.to_local ≡ [])
      × (t.exit.to_local ≡ [])
both_wait_silent t ms on =
    let h = both_wait-AreStuck t ms on in
    (
      next (next here (caller_steps (lock_relay refl refl refl refl) refl))
          (exit_steps (lock_relay refl refl refl refl) refl),
      h.at_caller.unsent,
      h.at_exit.unsent,
      h.at_caller.undelivered,
      h.at_exit.undelivered,
    )
