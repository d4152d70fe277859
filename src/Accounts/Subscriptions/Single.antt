-- ===== src/Accounts/Subscriptions/Single.antt =====
-- On how many subscriptions of a user are active in src/subscription.rs.
use mathlib.Core.Option
use nat_server.Common.{
  ℕ, suc, ◌≤◌, ◌≡◌, refl, Bool, false, ◌&&◌, Option, none, some, List, [], ◌∷◌, arith, ◌==◌,
  unwrap_or,
}
use nat_server.Common.Int.{ℤ, int_has_eq}
use nat_server.Common.Text.{Text}
use nat_server.Accounts.Store.{Accounts, Sql, SubscriptionRow, count, update_where}
use nat_server.Accounts.Store.Monad.{end, execute}
use nat_server.Accounts.Store.Ends.{bind-Ends, execute-Ends, Ends-end}
use nat_server.Accounts.Subscriptions.{
  is_active_of, deactivate_rows, insert_subscription, update_subscription, deactivate_row,
  create_user_subscription, update_user_subscription, deactivate_user_subscription,
}

abbrev pub active_count : ℤ → Accounts → ℕ
active_count user_id s = count (is_active_of user_id) s.user_subscriptions

-- No user has two active subscriptions.
abbrev pub IsSingle : Accounts → Type 0
IsSingle s = (user_id : ℤ) → active_count user_id s ≤ 1

-- A change of rows that activates none.
dimmed :
    (user_id : ℤ) (p : SubscriptionRow → Bool) (f : SubscriptionRow → SubscriptionRow)
    (rs : List SubscriptionRow)
    → ((r : SubscriptionRow)
        → (is_active_of user_id (f r) && is_active_of user_id r) ≡ is_active_of user_id (f r))
    → count (is_active_of user_id) (update_where p f rs) ≤ count (is_active_of user_id) rs
unfolding count update_where
dimmed user_id p f [] h = omega arith
dimmed user_id p f (r ∷ rs) h = ground (arith, dimmed user_id p f rs h, h r)

-- All that a user had active is switched off.
pub cleared :
    (user_id : ℤ) (rs : List SubscriptionRow)
    → count
        (is_active_of user_id)
        (update_where (is_active_of user_id) (λ r. record r { is_active = false }) rs)
      ≡ 0
unfolding count update_where
cleared user_id [] = refl
cleared user_id (r ∷ rs) = ground (arith, cleared user_id rs)

-- Between the two statements of `create_user_subscription`.
abbrev IsClear : ℤ → Unit {0} → Accounts → Type 0
IsClear user_id _ t = (active_count user_id t ≡ 0) × IsSingle t

deactivated-IsClear :
    (user_id : ℤ) (s : Accounts)
    → IsSingle s
    → (a : Unit {0}) (t : Accounts) → deactivate_rows user_id s ≡ some (a, t)
    → IsClear user_id a (record t { calls = suc s.calls })
deactivated-IsClear user_id s h a t q =
    let rows : t.user_subscriptions
        ≡ update_where (is_active_of user_id) (λ r. record r { is_active = false })
            s.user_subscriptions =
      cc in
    (
      rw rows (cleared user_id s.user_subscriptions),
      λ j. rw rows (
          omega (
            arith,
            dimmed j (is_active_of user_id) (λ r. record r { is_active = false })
                s.user_subscriptions (λ r. ground arith),
            h j,
          )),
    )

inserted-IsSingle :
    (user_id plan_id : ℤ) (expires_at notes : Option Text) (s : Accounts)
    → IsClear user_id tt s
    → (a : ℤ) (t : Accounts) → insert_subscription user_id plan_id expires_at notes s ≡ some (a, t)
    → IsSingle (record t { calls = suc s.calls })
unfolding insert_subscription count
inserted-IsSingle user_id plan_id expires_at notes s (none_left, h) a t q j =
    ground (arith, h j, int_has_eq.same_iff user_id j)

create-IsSingle :
    (e : Sql) (user_id plan_id : ℤ) (expires_at : Option ℕ) (notes : Option Text) (s : Accounts)
    → IsSingle s
    → IsSingle (end (create_user_subscription e user_id plan_id expires_at notes) s)
unfolding create_user_subscription
create-IsSingle e user_id plan_id expires_at notes s h =
    let insert = insert_subscription user_id plan_id (Option.map e.rfc3339 expires_at) notes in
    Ends-end IsSingle (create_user_subscription e user_id plan_id expires_at notes) s (
      bind-Ends (IsClear user_id) (λ _ t. IsSingle t) IsSingle (execute e (deactivate_rows user_id))
        (λ _. execute e insert) s
        (execute-Ends e (IsClear user_id) IsSingle (deactivate_rows user_id) s h
          (deactivated-IsClear user_id s h))
        (λ _ t k.
          execute-Ends e (λ _ t'. IsSingle t') IsSingle insert t k.1
            (inserted-IsSingle user_id plan_id (Option.map e.rfc3339 expires_at) notes t k)))

module _ (e : Sql) where
  -- A statement that only changes rows, and activates none.
  changed-IsSingle :
      (p : SubscriptionRow → Bool) (f : SubscriptionRow → SubscriptionRow)
      (g : Accounts → Option (Unit {0} × Accounts)) (s : Accounts)
      → ((j : ℤ) (r : SubscriptionRow)
          → (is_active_of j (f r) && is_active_of j r) ≡ is_active_of j (f r))
      → ((a : Unit {0}) (t : Accounts)
          → g s ≡ some (a, t)
          → t.user_subscriptions ≡ update_where p f s.user_subscriptions)
      → IsSingle s
      → IsSingle (end (execute e g) s)
  changed-IsSingle p f g s dim rows h = Ends-end IsSingle (execute e g) s (
      execute-Ends e (λ _ t. IsSingle t) IsSingle g s h
        (λ a t q j.
          rw (rows a t q) (omega (arith, dimmed j p f s.user_subscriptions (dim j), h j))))

  deactivate-IsSingle :
      (sub_id : ℤ) (s : Accounts)
      → IsSingle s
      → IsSingle (end (deactivate_user_subscription e sub_id) s)
  unfolding deactivate_user_subscription
  deactivate-IsSingle sub_id s h =
      changed-IsSingle (λ r. r.id == sub_id) (λ r. record r { is_active = false })
        (deactivate_row sub_id) s (λ j r. ground arith) (λ a t q. cc) h

  updated-IsSingle :
      (sub_id : ℤ) (plan_id : Option ℤ) (expires_at : Option (Option Text)) (notes : Option Text)
      (s : Accounts)
      → IsSingle s
      → IsSingle (end (execute e (update_subscription sub_id plan_id expires_at notes)) s)
  unfolding update_subscription
  updated-IsSingle sub_id plan_id expires_at notes s h =
      changed-IsSingle (λ r. r.id == sub_id)
        (λ r. record r {
          plan_id = unwrap_or plan_id r.plan_id;
          expires_at = unwrap_or expires_at r.expires_at;
          notes = elim notes [ none ↦ r.notes | some n ↦ some n ];
        })
        (update_subscription sub_id plan_id expires_at notes) s (λ j r. ground arith)
        (λ a t q. ground arith) h

  update-IsSingle :
      (sub_id : ℤ) (plan_id : Option ℤ) (expires_at : Option (Option ℕ)) (notes : Option Text)
      (s : Accounts)
      → IsSingle s
      → IsSingle (end (update_user_subscription e sub_id plan_id expires_at notes) s)
  unfolding update_user_subscription
  update-IsSingle sub_id none none none s h = h
  update-IsSingle sub_id (some p) x notes s h = updated-IsSingle sub_id (some p) _ notes s h
  update-IsSingle sub_id none (some x) notes s h = updated-IsSingle sub_id none _ notes s h
  update-IsSingle sub_id none none (some n) s h = updated-IsSingle sub_id none _ (some n) s h

-- A call of one of the methods that change subscriptions.
pub data Change : Type 0 where
  create_one : ℤ → ℤ → Option ℕ → Option Text → Change
  update_one : ℤ → Option ℤ → Option (Option ℕ) → Option Text → Change
  deactivate_one : ℤ → Change

abbrev pub changed : Sql → Change → Accounts → Accounts
changed e (create_one user_id plan_id expires_at notes) =
    end (create_user_subscription e user_id plan_id expires_at notes)
changed e (update_one sub_id plan_id expires_at notes) =
    end (update_user_subscription e sub_id plan_id expires_at notes)
changed e (deactivate_one sub_id) = end (deactivate_user_subscription e sub_id)

abbrev pub change_all : Sql → List Change → Accounts → Accounts
change_all e [] s = s
change_all e (c ∷ cs) s = change_all e cs (changed e c s)

changed_once : (e : Sql) (c : Change) (s : Accounts) → IsSingle s → IsSingle (changed e c s)
changed_once e (create_one user_id plan_id expires_at notes) s h =
    create-IsSingle e user_id plan_id expires_at notes s h
changed_once e (update_one sub_id plan_id expires_at notes) s h =
    update-IsSingle e sub_id plan_id expires_at notes s h
changed_once e (deactivate_one sub_id) s h = deactivate-IsSingle e sub_id s h

-- Whatever calls create, update and deactivate subscriptions, in any order and whichever of their
-- statements fail: if no user had two active subscriptions before, no user has two after.
pub change_all-IsSingle :
    (e : Sql) (cs : List Change) (s : Accounts) → IsSingle s → IsSingle (change_all e cs s)
change_all-IsSingle e [] s h = h
change_all-IsSingle e (c ∷ cs) s h = change_all-IsSingle e cs (changed e c s) (changed_once e c s h)
