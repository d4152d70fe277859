-- ===== src/Accounts/Orders/Race.antt =====
-- On two calls of `mark_order_paid` of src/payment.rs that overlap.
use nat_server.Common.{◌≡◌, false, Option, some, ◌==◌, list_has_eq, ◌∙◌, select, ap}
use nat_server.Common.Int.{ℤ}
use nat_server.Common.Text.{Text}
use nat_server.Database.{first}
use nat_server.State.{ok}
use nat_server.Accounts.Store.{Order, Accounts, Sql}
use nat_server.Accounts.Store.Monad.{Db, done, answer, ◌>>=◌, execute, ticked, written}
use nat_server.Accounts.Store.Works.{Works, bind_lem, query_then_lem, execute_lem}
use nat_server.Accounts.Orders.{paid, has_no, paid_rows, order_found, settle}

-- Two notices of one order, each of whose calls has read the order before either has written it.
abbrev pub overlapped : Sql → Text → Text → Text → Db (Option (ℤ × ℤ) × Option (ℤ × ℤ))
overlapped e ord g g' = order_found e ord >>= λ a.
    order_found e ord >>= λ b. settle e ord g a >>= λ r. settle e ord g' b >>= λ r'. done (r, r')

settle_open :
    (e : Sql) (ord g : Text) (o : Order) (s : Accounts)
    → Works e
    → (o.status == paid) ≡ false
    → settle e ord g (some o) s
      ≡ (ok (some (o.user_id, o.plan_id)), (written (paid_rows ord g s) s).1)
unfolding settle
settle_open e ord g o s w u = rw u (
    bind_lem (execute e (paid_rows ord g)) (λ _. done (some (o.user_id, o.plan_id))) s
      (written (paid_rows ord g s) s).1 tt (execute_lem e w (paid_rows ord g) s))

-- While the database answers, two overlapping calls for an order that is not paid both find it newly
-- paid, so that both give the user a subscription.
pub overlapped_twice :
    (e : Sql) (ord g g' : Text) (o : Order) (s : Accounts)
    → Works e
    → first (select (has_no ord) s.orders) ≡ some o
    → (o.status == paid) ≡ false
    → answer (overlapped e ord g g') s
      ≡ ok (some (o.user_id, o.plan_id), some (o.user_id, o.plan_id))
unfolding order_found
overlapped_twice e ord g g' o s w f u =
    ap (λ x. x.0)
      (query_then_lem e w found (λ a. order_found e ord >>= rest a) s
        ∙ query_then_lem e w found (rest (found s)) (ticked s)
        ∙ ap (λ x. rest x x (ticked (ticked s))) f
        ∙ bind_lem (settle e ord g (some o)) (last (some o)) (ticked (ticked s)) t
            (some (o.user_id, o.plan_id)) (settle_open e ord g o (ticked (ticked s)) w u)
        ∙ bind_lem (settle e ord g' (some o)) (λ r'. done (some (o.user_id, o.plan_id), r')) t
            (written (paid_rows ord g' t) t).1 (some (o.user_id, o.plan_id))
            (settle_open e ord g' o t w u))
  where
    found : Accounts → Option Order
    found t = first (select (has_no ord) t.orders)

    last : Option Order → Option (ℤ × ℤ) → Db (Option (ℤ × ℤ) × Option (ℤ × ℤ))
    last b r = settle e ord g' b >>= λ r'. done (r, r')

    rest : Option Order → Option Order → Db (Option (ℤ × ℤ) × Option (ℤ × ℤ))
    rest a b = settle e ord g a >>= last b

    t : Accounts
    t = (written (paid_rows ord g (ticked (ticked s))) (ticked (ticked s))).1
