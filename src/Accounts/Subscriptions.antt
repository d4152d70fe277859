-- ===== src/Accounts/Subscriptions.antt =====
-- src/subscription.rs: the subscriptions of users.
pub mod Single
pub mod Unknown
use mathlib.Core.Option
use nat_server.Common.{
  ℕ, suc, ◌+◌, Bool, true, false, ◌&&◌, ◌||◌, not, Option, none, some, List, [], ◌∷◌, ltb, ◌==◌,
  list_has_eq, if◌then◌else◌, select, unwrap_or,
}
use nat_server.Common.Int.{ℤ, pos, int_has_eq}
use nat_server.Common.Text.{Text}
use nat_server.Database.{first}
use nat_server.Accounts.Store.{
  User, SubscriptionPlan, SubscriptionRow, Accounts, Sql, count, update_where, text_after,
}
use nat_server.Accounts.Store.Monad.{
  Db, done, failed, reads, tried, ◌>>=◌, ◌>>◌, query, count_or_zero, execute,
}

abbrev pub free_device_limit : ℤ
free_device_limit = pos 2

abbrev pub free_speed_kbps : ℤ
free_speed_kbps = pos 1024

-- A subscription with the data of its plan.
pub record UserSubscription : Type 0 where
  pub row : SubscriptionRow
  pub plan_name : Text
  pub plan_display_name : Text
  pub device_limit : ℤ
  pub speed_limit_kbps : ℤ

abbrev pub find_plan : ℤ → List SubscriptionPlan → Option SubscriptionPlan
find_plan id ps = first (select (λ p. p.id == id) ps)

-- The join of a row with its plan.
abbrev pub joined : List SubscriptionPlan → SubscriptionRow → Option UserSubscription
joined ps r = elim (find_plan r.plan_id ps) [
  | none ↦ none
  | some p ↦ some (record {
    row = r;
    plan_name = p.name;
    plan_display_name = p.display_name;
    device_limit = p.device_limit;
    speed_limit_kbps = p.speed_limit_kbps;
  })
]

-- user_id = ? and is_active = 1
abbrev pub is_active_of : ℤ → SubscriptionRow → Bool
is_active_of user_id r = r.user_id == user_id && r.is_active

-- expires_at is null or expires_at > datetime('now')
abbrev pub is_running : Text → SubscriptionRow → Bool
is_running now r = elim r.expires_at [ none ↦ true | some t ↦ text_after t now ]

-- order by created_at desc limit 1; of rows of one second, the first.
unfoldable pub latest : List UserSubscription → Option UserSubscription
latest [] = none
latest (u ∷ us) =
    let rest = latest us in
    elim rest [
      | none ↦ some u
      | some v ↦ if ltb u.row.created_at v.row.created_at then some v else some u
    ]

abbrev pub join_all : List SubscriptionPlan → List SubscriptionRow → List UserSubscription
join_all ps [] = []
join_all ps (r ∷ rs) =
    let rest = join_all ps rs in elim (joined ps r) [ none ↦ rest | some u ↦ u ∷ rest ]

unfoldable pub active_subscription : ℤ → Text → Accounts → Option UserSubscription
active_subscription user_id now s = latest (
    join_all s.subscription_plans
      (select (λ r. is_active_of user_id r && is_running now r) s.user_subscriptions))

-- update user_subscriptions set is_active = 0 where user_id = ? and is_active = 1
abbrev pub deactivate_rows : ℤ → Accounts → Option (Unit {0} × Accounts)
deactivate_rows user_id s = some (
  tt,
  record s {
    user_subscriptions =
        update_where (is_active_of user_id) (λ r. record r { is_active = false })
          s.user_subscriptions;
  },
)

-- insert into user_subscriptions …; the user and the plan must exist
unfoldable pub insert_subscription :
    ℤ → ℤ → Option Text → Option Text → Accounts → Option (ℤ × Accounts)
insert_subscription user_id plan_id expires_at notes s =
    let id = pos (suc s.last_ids.user_subscriptions) in
    if ltb 0 (count (λ u. u.id == user_id) s.users)
      && ltb 0 (count (λ p. p.id == plan_id) s.subscription_plans)
    then some (
      id,
      record s {
        user_subscriptions =
            record {
              id = id;
              user_id = user_id;
              plan_id = plan_id;
              started_at = s.now;
              expires_at = expires_at;
              is_active = true;
              notes = notes;
              created_at = s.now;
            }
            ∷ s.user_subscriptions;
        last_ids = record s.last_ids { user_subscriptions = suc s.last_ids.user_subscriptions };
      },
    )
    else none

abbrev pub is_known_plan : Option ℤ → List SubscriptionPlan → Bool
is_known_plan none ps = true
is_known_plan (some id) ps = ltb 0 (count (λ p. p.id == id) ps)

-- update user_subscriptions set …, for the columns that are given; the plan must exist
unfoldable pub update_subscription :
    ℤ → Option ℤ → Option (Option Text) → Option Text → Accounts → Option (Unit {0} × Accounts)
update_subscription sub_id plan_id expires_at notes s =
    if is_known_plan plan_id s.subscription_plans
      || not (ltb 0 (count (λ r. r.id == sub_id) s.user_subscriptions))
    then some (
      tt,
      record s {
        user_subscriptions =
            update_where (λ r. r.id == sub_id)
              (λ r. record r {
                plan_id = unwrap_or plan_id r.plan_id;
                expires_at = unwrap_or expires_at r.expires_at;
                notes = elim notes [ none ↦ r.notes | some n ↦ some n ];
              })
              s.user_subscriptions;
      },
    )
    else none

abbrev pub deactivate_row : ℤ → Accounts → Option (Unit {0} × Accounts)
deactivate_row sub_id s = some (
  tt,
  record s {
    user_subscriptions =
        update_where (λ r. r.id == sub_id) (λ r. record r { is_active = false })
          s.user_subscriptions;
  },
)

module _ (e : Sql) where
  unfoldable pub get_user_active_subscription : ℤ → Db (Option UserSubscription)
  unfolding query
  get_user_active_subscription user_id =
      query e λ s. active_subscription user_id (e.datetime s.now) s

  unfoldable pub get_user_device_limit : ℤ → Db ℤ
  get_user_device_limit user_id = get_user_active_subscription user_id >>= λ sub.
      done (elim sub [ none ↦ free_device_limit | some u ↦ u.device_limit ])

  unfoldable pub get_user_speed_limit : ℤ → Db ℤ
  get_user_speed_limit user_id = get_user_active_subscription user_id >>= λ sub.
      done (elim sub [ none ↦ free_speed_kbps | some u ↦ u.speed_limit_kbps ])

  -- Two statements, in no transaction.
  unfoldable pub create_user_subscription : ℤ → ℤ → Option ℕ → Option Text → Db ℤ
  unfolding execute
  create_user_subscription user_id plan_id expires_at notes =
      execute e (deactivate_rows user_id) >>= λ _.
      execute e (insert_subscription user_id plan_id (Option.map e.rfc3339 expires_at) notes)

  -- With nothing to change, no statement is run.
  unfoldable pub update_user_subscription :
      ℤ → Option ℤ → Option (Option ℕ) → Option Text → Db (Unit {0})
  unfolding execute
  update_user_subscription sub_id none none none = done tt
  update_user_subscription sub_id plan_id expires_at notes =
      execute e
        (update_subscription sub_id plan_id (Option.map (Option.map e.rfc3339) expires_at) notes)

  unfoldable pub deactivate_user_subscription : ℤ → Db (Unit {0})
  unfolding execute
  deactivate_user_subscription sub_id = execute e (deactivate_row sub_id)
