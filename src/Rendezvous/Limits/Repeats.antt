-- ===== src/Rendezvous/Limits/Repeats.antt =====
-- On the limit on the RegisterPk of one peer in src/rendezvous_server.rs, over a series of them.
use nat_server.Common.{ℕ, ◌+◌, ◌≤◌, ◌≡◌, List, [], ◌∷◌, none, some, arith}
use nat_server.Rendezvous.Limits.{limit_reg_pk}

-- How many messages at these times are let through, from the peer's counter on.
pub accepted : List ℕ → ℕ × ℕ → ℕ
accepted [] reg_pk = 0
accepted (now ∷ times) reg_pk = elim (limit_reg_pk now reg_pk) [
  | none ↦ accepted times reg_pk
  | some next ↦ 1 + accepted times next
]

-- All times are within 6 seconds of `t`, and not before it.
abbrev pub WithinSixSeconds : ℕ → List ℕ → Type 0
WithinSixSeconds t [] = Unit
WithinSixSeconds t (now ∷ times) = (t ≤ now) × (now ≤ t + 6_000) × WithinSixSeconds t times

limit_reg_pk_within :
    (now n t0 : ℕ)
    → now ≤ t0 + 6_000
    → (n ≤ 2 → limit_reg_pk now (n, t0) ≡ some (n + 1, now))
      × (3 ≤ n → limit_reg_pk now (n, t0) ≡ none)
unfolding limit_reg_pk
limit_reg_pk_within now n t0 h = ground arith

accepted_from :
    (times : List ℕ) (t n t0 : ℕ)
    → n ≤ 3
    → t ≤ t0
    → WithinSixSeconds t times
    → accepted times (n, t0) + n ≤ 3
unfolding accepted
accepted_from [] t n t0 le lo w = omega arith
accepted_from (now ∷ times) t n t0 le lo (a, b, w) = ground (
  arith,
  limit_reg_pk_within now n t0 (omega arith),
  accepted_from times t n t0 le lo w,
  accepted_from times t (n + 1) now,
)

-- From a counter n of at most 3 that was last set at t, at most 3 - n of the RegisterPk of the peer
-- within 6 seconds after t are let through.
pub accepted-le :
    (times : List ℕ) (n t : ℕ) → n ≤ 3 → WithinSixSeconds t times → accepted times (n, t) + n ≤ 3
accepted-le times n t le w = accepted_from times t n t le (omega arith) w
