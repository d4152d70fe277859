-- ===== src/Accounts/Subscriptions/Unknown.antt =====
-- On `create_user_subscription` of src/subscription.rs for a plan that does not exist.
use mathlib.Core.Path.{subst}
use mathlib.Core.Option
use nat_server.Common.{ℕ, ◌≡◌, refl, Option, none, arith, ◌==◌, ◌∙◌, ap, sym}
use nat_server.Common.Int.{ℤ, int_has_eq}
use nat_server.Common.Text.{Text}
use nat_server.Accounts.Store.{Accounts, Sql, count}
use nat_server.Accounts.Store.Monad.{end, answer, execute, written, ticked}
use nat_server.Accounts.Store.Works.{Works, bind_lem, execute_lem}
use nat_server.State.{err, db_failed}
use nat_server.Accounts.Subscriptions.{
  is_active_of, deactivate_rows, insert_subscription, create_user_subscription,
}
use nat_server.Accounts.Subscriptions.Single.{active_count, cleared}

refused_plan :
    (user_id plan_id : ℤ) (expires_at notes : Option Text) (s : Accounts)
    → count (λ p. p.id == plan_id) s.subscription_plans ≡ 0
    → insert_subscription user_id plan_id expires_at notes s ≡ none
unfolding insert_subscription
refused_plan user_id plan_id expires_at notes s h = ground arith

-- A subscription to a plan that does not exist, while the database answers: the call fails, and the
-- user has lost the subscription that was active.
pub create_unknown_plan :
    (e : Sql) (user_id plan_id : ℤ) (expires_at : Option ℕ) (notes : Option Text) (s : Accounts)
    → Works e
    → count (λ p. p.id == plan_id) s.subscription_plans ≡ 0
    → (answer (create_user_subscription e user_id plan_id expires_at notes) s ≡ err db_failed)
      × (active_count user_id (end (create_user_subscription e user_id plan_id expires_at notes) s)
          ≡ 0)
unfolding create_user_subscription
create_unknown_plan e user_id plan_id expires_at notes s w h =
    subst (λ o. (o.0 ≡ err db_failed) × (count (is_active_of user_id) o.1.user_subscriptions ≡ 0))
      (sym run) (refl, cleared user_id s.user_subscriptions)
  where
    insert : Accounts → Option (ℤ × Accounts)
    insert = insert_subscription user_id plan_id (Option.map e.rfc3339 expires_at) notes

    off : Accounts
    off = (written (deactivate_rows user_id s) s).1

    run :
        create_user_subscription e user_id plan_id expires_at notes s ≡ (err db_failed, ticked off)
    run =
        bind_lem (execute e (deactivate_rows user_id)) (λ _. execute e insert) s off tt
          (execute_lem e w (deactivate_rows user_id) s)
        ∙ execute_lem e w insert off
        ∙ ap (λ o. written o off) (refused_plan user_id plan_id _ notes off h)
