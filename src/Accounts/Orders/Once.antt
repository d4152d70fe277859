-- ===== src/Accounts/Orders/Once.antt =====
-- On `mark_order_paid` of src/payment.rs, called over and over.
use nat_server.Common.{
  ℕ, ◌+◌, ◌≤◌, ◌≡◌, refl, false, ◌&&◌, ◌||◌, not, Option, none, some, List, [], ◌∷◌, arith, ◌==◌,
  list_has_eq, list_eq, if◌then◌else◌, list_eq_iff, Bool-cases, inl, inr, select,
}
use nat_server.Common.Int.{ℤ}
use nat_server.Common.Text.{Text}
use nat_server.Database.{first}
use nat_server.State.{Result, ok, err}
use nat_server.Accounts.Store.{Order, Accounts, Sql, update_where}
use nat_server.Accounts.Store.Monad.{done, query, execute}
use nat_server.Accounts.Store.Ends.{Ends, bind-Ends, execute-Ends, query-Ends}
use nat_server.Accounts.Orders.{
  pending, paid, has_no, is_payable, pay, paid_rows, order_found, settle, mark_order_paid,
}

-- The status of the order of this number is one of those that the code writes.
abbrev pub IsOpenOrPaid : Text → List Order → Type 0
IsOpenOrPaid ord [] = Unit
IsOpenOrPaid ord (o ∷ os) =
    ((has_no ord o && not (o.status == pending || o.status == paid)) ≡ false) × IsOpenOrPaid ord os

-- 1 if the first order of this number is paid.
abbrev pub weight : Text → List Order → ℕ
weight ord [] = 0
weight ord (o ∷ os) = if has_no ord o then (if o.status == paid then 1 else 0) else weight ord os

weight_le : (ord : Text) (os : List Order) → weight ord os ≤ 1
weight_le ord [] = omega arith
weight_le ord (o ∷ os) = ground (arith, weight_le ord os)

paid_kept :
    (ord other g : Text) (now : ℕ) (os : List Order)
    → IsOpenOrPaid ord os
    → IsOpenOrPaid ord (update_where (is_payable other) (pay g now) os)
unfolding update_where list_eq
paid_kept ord other g now [] h = tt
paid_kept ord other g now (o ∷ os) h = ground (arith, paid_kept ord other g now os h.1)

-- No payment makes an order unpaid.
weight_kept :
    (ord other g : Text) (now : ℕ) (os : List Order)
    → weight ord os ≤ weight ord (update_where (is_payable other) (pay g now) os)
unfolding update_where list_eq
weight_kept ord other g now [] = omega arith
weight_kept ord other g now (o ∷ os) = ground (arith, weight_kept ord other g now os)

-- The payment of an order that is found open makes it paid.
weight_raised :
    (ord g : Text) (now : ℕ) (os : List Order) (o : Order)
    → IsOpenOrPaid ord os
    → first (select (has_no ord) os) ≡ some o
    → (o.status == paid) ≡ false
    → (weight ord os ≡ 0) × (weight ord (update_where (is_payable ord) (pay g now) os) ≡ 1)
unfolding update_where list_eq
weight_raised ord g now [] o h f u = cc
weight_raised ord g now (x ∷ os) o h f u = ground (arith, weight_raised ord g now os o h.1)

-- 1 if this is the order's number and its payment was new.
abbrev pub hit : Text → Text → Option (ℤ × ℤ) → ℕ
hit ord other none = 0
hit ord other (some p) = if other == ord then 1 else 0

module _ (e : Sql) (ord other g : Text) (os : List Order) where
  abbrev Kept : Accounts → Type 0
  Kept t = IsOpenOrPaid ord t.orders × (weight ord os ≤ weight ord t.orders)

  abbrev Counted : Option (ℤ × ℤ) → Accounts → Type 0
  Counted r t = IsOpenOrPaid ord t.orders × (hit ord other r + weight ord os ≤ weight ord t.orders)

  raised :
      (o : Order) (now : ℕ)
      → IsOpenOrPaid ord os
      → first (select (has_no other) os) ≡ some o
      → (o.status == paid) ≡ false
      → (if other == ord then 1 else 0) + weight ord os
        ≤ weight ord (update_where (is_payable other) (pay g now) os)
  raised o now h f u = elim (Bool-cases (other == ord)) [
    | inl y ↦
        let q : other ≡ ord = (list_eq_iff other ord).0 y in
        let (zero, one) = weight_raised ord g now os o h (rw (← q) f) u in
        rw (y, q, zero, one) (omega arith)
    | inr n ↦ rw n (omega (arith, weight_kept ord other g now os))
  ]

  settle-Ends :
      (o : Option Order) (s : Accounts)
      → s.orders ≡ os
      → IsOpenOrPaid ord os
      → first (select (has_no other) os) ≡ o
      → Ends Counted Kept (settle e other g o s)
  unfolding settle
  settle-Ends none s q h f = rw q (h, omega arith)
  settle-Ends (some o) s q h f = elim (Bool-cases (o.status == paid)) [
    | inl y ↦ rw (y, q) (h, omega arith)
    | inr n ↦ rw n (
        bind-Ends (λ _ t. Counted (some (o.user_id, o.plan_id)) t) Counted Kept
          (execute e (paid_rows other g)) (λ _. done (some (o.user_id, o.plan_id))) s
          (execute-Ends e (λ _ t. Counted (some (o.user_id, o.plan_id)) t) Kept (paid_rows other g)
            s (rw q (h, omega arith))
            (λ a t r.
              let rows : t.orders ≡ update_where (is_payable other) (pay g s.now) os = cc in
              rw rows (paid_kept ord other g s.now os h, raised o s.now h f n)))
          (λ _ t k. k))
  ]

  mark_order_paid-Ends :
      (s : Accounts)
      → s.orders ≡ os
      → IsOpenOrPaid ord os
      → Ends Counted Kept (mark_order_paid e other g s)
  unfolding mark_order_paid order_found
  mark_order_paid-Ends s q h =
      let found = λ (t : Accounts). first (select (has_no other) t.orders) in
      let R = λ (o : Option Order) (t : Accounts).
        (t.orders ≡ os) × (first (select (has_no other) os) ≡ o) in
      bind-Ends R Counted Kept (query e found) (settle e other g) s
        (query-Ends e R Kept found s (rw q (h, omega arith)) (q, rw q refl))
        (λ o t k. settle-Ends o t k.0 h k.1)

abbrev pub new_hit : Text → Text → Result (Option (ℤ × ℤ)) → ℕ
new_hit ord other (ok r) = hit ord other r
new_hit ord other (err x) = 0

step_counted :
    (ord other : Text) (os : List Order) (o : Result (Option (ℤ × ℤ)) × Accounts)
    → Ends
        (λ r t. IsOpenOrPaid ord t.orders × (hit ord other r + weight ord os ≤ weight ord t.orders))
        (λ t. IsOpenOrPaid ord t.orders × (weight ord os ≤ weight ord t.orders))
        o
    → IsOpenOrPaid ord o.1.orders × (new_hit ord other o.0 + weight ord os ≤ weight ord o.1.orders)
step_counted ord other os (ok r, t) h = h
step_counted ord other os (err x, t) h = (h.0, omega (arith, h.1))

-- A call has the order's number and the gateway's. For how many of the calls the order was newly paid, which is what a subscription is given for.
abbrev pub activations : Sql → Text → List (Text × Text) → Accounts → ℕ
activations e ord [] s = 0
activations e ord ((other, g) ∷ ms) s =
    let (r, t) = mark_order_paid e other g s in new_hit ord other r + activations e ord ms t

activations_counted :
    (e : Sql) (ord : Text) (ms : List (Text × Text)) (s : Accounts)
    → IsOpenOrPaid ord s.orders
    → activations e ord ms s + weight ord s.orders ≤ 1
activations_counted e ord [] s h = omega (arith, weight_le ord s.orders)
activations_counted e ord ((other, g) ∷ ms) s h =
    let (kept, counted) =
      step_counted ord other s.orders (mark_order_paid e other g s)
        (mark_order_paid-Ends e ord other g s.orders s refl h) in
    omega (arith, counted, activations_counted e ord ms (mark_order_paid e other g s).1 kept)

-- Of any sequence of calls of mark_order_paid, for this and other orders and whichever of their
-- statements fail, at most one finds the order newly paid, if its status was pending or paid before.
pub activations_le :
    (e : Sql) (ord : Text) (ms : List (Text × Text)) (s : Accounts)
    → IsOpenOrPaid ord s.orders
    → activations e ord ms s ≤ 1
activations_le e ord ms s h = omega (arith, activations_counted e ord ms s h)
