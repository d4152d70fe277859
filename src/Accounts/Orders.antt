-- ===== src/Accounts/Orders.antt =====
-- The orders of src/payment.rs, and what the notices of the payment gateways do.
pub mod Once
pub mod Race
use nat_server.Common.{
  ℕ, suc, ◌+◌, Bool, true, false, ◌&&◌, ◌||◌, not, Option, none, some, List, [], ◌∷◌, ◌++◌, ltb,
  ◌==◌, list_has_eq, if◌then◌else◌, select, is_empty, unwrap_or,
}
use nat_server.Common.Int.{ℤ, pos, int_has_eq}
use nat_server.Common.Text.{Text, text}
use nat_server.Database.{first}
use nat_server.State.{rejected, Result, ok, err}
use nat_server.Accounts.Store.{Order, Accounts, Sql, count, update_where}
use nat_server.Accounts.Store.Monad.{Db, done, failed, reads, tried, ◌>>=◌, ◌>>◌, query, execute}
use nat_server.Accounts.Subscriptions.{
  UserSubscription, find_plan, get_user_active_subscription, deactivate_user_subscription,
  create_user_subscription,
}
use nat_server.Accounts.Users.{flat}

abbrev pub pending : Text
pending = text "pending"

abbrev pub paid : Text
paid = text "paid"

abbrev pub has_no : Text → Order → Bool
has_no order_no o = o.order_no == order_no

-- insert into orders …; the number must be new, and the user and the plan must exist
unfoldable pub insert_order :
    Text → ℤ → ℤ → Text → Text → Text → Accounts → Option (Text × Accounts)
insert_order order_no user_id plan_id amount currency payment_method s =
    let id = pos (suc s.last_ids.orders) in
    if not (ltb 0 (count (has_no order_no) s.orders))
      && (ltb 0 (count (λ u. u.id == user_id) s.users)
          && ltb 0 (count (λ p. p.id == plan_id) s.subscription_plans))
    then some (
      order_no,
      record s {
        orders =
            record {
              id = id;
              order_no = order_no;
              user_id = user_id;
              plan_id = plan_id;
              amount = amount;
              currency = currency;
              payment_method = payment_method;
              status = pending;
              gateway_order_id = none;
              gateway_qr = none;
              stripe_checkout_url = none;
              paid_at = none;
            }
            ∷ s.orders;
        last_ids = record s.last_ids { orders = suc s.last_ids.orders };
      },
    )
    else none

-- update orders set gateway_qr=?,stripe_checkout_url=? … where order_no=?
abbrev pub gateway_rows : Text → Option Text → Option Text → Accounts → Option (Unit {0} × Accounts)
gateway_rows order_no qr stripe_url s = some (
  tt,
  record s {
    orders =
        update_where (has_no order_no)
          (λ o. record o { gateway_qr = qr; stripe_checkout_url = stripe_url }) s.orders;
  },
)

-- update orders set status='paid' … where order_no=? and status='pending'
abbrev pub pay : Text → ℕ → Order → Order
pay gateway_order_id now o = record o {
  status = paid;
  gateway_order_id = some gateway_order_id;
  paid_at = some now;
}

abbrev pub is_payable : Text → Order → Bool
is_payable order_no o = has_no order_no o && o.status == pending

abbrev pub paid_rows : Text → Text → Accounts → Option (Unit {0} × Accounts)
paid_rows order_no gateway_order_id s = some (
  tt,
  record s { orders = update_where (is_payable order_no) (pay gateway_order_id s.now) s.orders },
)

-- 30 days.
abbrev pub subscription_seconds : ℕ
subscription_seconds = 2592000

module _ (e : Sql) where
  -- `create_order`, for an order number made of the time and a random suffix.
  unfoldable pub create_order : Text → ℤ → ℤ → Text → Text → Text → Db Text
  unfolding execute
  create_order order_no user_id plan_id amount currency payment_method =
      execute e (insert_order order_no user_id plan_id amount currency payment_method)

  unfoldable pub set_order_gateway : Text → Option Text → Option Text → Db (Unit {0})
  unfolding execute
  set_order_gateway order_no qr stripe_url = execute e (gateway_rows order_no qr stripe_url)

  -- The first statement of `mark_order_paid`.
  unfoldable pub order_found : Text → Db (Option Order)
  unfolding query
  order_found order_no = query e λ s. first (select (has_no order_no) s.orders)

  -- What follows it: `none` if there is no order or it is paid already.
  unfoldable pub settle : Text → Text → Option Order → Db (Option (ℤ × ℤ))
  unfolding execute
  settle order_no gateway_order_id none = done none
  settle order_no gateway_order_id (some o) =
      if o.status == paid
      then done none
      else execute e (paid_rows order_no gateway_order_id) >>= λ _.
          done (some (o.user_id, o.plan_id))

  unfoldable pub mark_order_paid : Text → Text → Db (Option (ℤ × ℤ))
  mark_order_paid order_no gateway_order_id =
      order_found order_no >>= settle order_no gateway_order_id

  -- An order with the name of its plan, for its user.
  unfoldable pub get_order_by_no : Text → ℤ → Db (Option (Order × Text))
  unfolding query
  get_order_by_no order_no user_id = query e λ s.
      elim (first (select (λ o. has_no order_no o && o.user_id == user_id) s.orders))
        as (λ _. Option (Order × Text)) [
          | none ↦ none
          | some o ↦
              elim (find_plan o.plan_id s.subscription_plans) as (λ _. Option (Order × Text)) [
                | none ↦ none
                | some p ↦ some (o, p.name)
              ]
        ]

  unfoldable pub stop_old : Option (Option UserSubscription) → Db (Unit {0})
  stop_old (some (some u)) = tried (deactivate_user_subscription e u.row.id) >>= λ _. done tt
  stop_old _ = done tt

  -- `activate_subscription_for_order`: errors are only logged.
  unfoldable pub activate : ℤ → ℤ → Db (Unit {0})
  activate user_id plan_id = do
    old ← tried (get_user_active_subscription e user_id)
    stop_old old
    now ← reads (λ s. s.now)
    tried (create_user_subscription e user_id plan_id (some (now + subscription_seconds)) none)
    done tt

  -- What a handler does with the answer of `mark_order_paid`; `false` if that failed.
  unfoldable pub activate_paid : Option (Option (ℤ × ℤ)) → Db Bool
  activate_paid none = done false
  activate_paid (some none) = done true
  activate_paid (some (some (user_id, plan_id))) = activate user_id plan_id >>= λ _. done true
