-- ===== src/Accounts/Users/Admins/Guard.antt =====
-- On the handlers of src/api.rs that delete users and change roles.
use mathlib.Core.Path.{subst}
use nat_server.Common.{
  ◌≡◌, true, false, Bool, Option, none, some, select, refl, Bool-cases, inl, inr, ◌∙◌, sym, ◌==◌,
  list_has_eq, list_eq, if◌then◌else◌,
}
use nat_server.Common.Int.{ℤ, int_has_eq}
use nat_server.Common.Text.{Text}
use nat_server.State.{ok}
use nat_server.Database.{first}
use nat_server.Accounts.Store.{Accounts, Sql, User, count, update_where}
use nat_server.Accounts.Store.Monad.{
  Db, end, query, execute, tried, done, ◌>>=◌, ticked, onward, caught,
}
use nat_server.Accounts.Store.Works.{
  Works, tried_query_then_lem, Keeps, bind-Keeps, bind_lem, tried-Keeps, query-Keeps, execute_lem,
}
use nat_server.Accounts.Users.{
  is_user, is_admin, user_role_user, user_role_admin, is_some_admin, get_user_by_id, delete_user,
  count_admins, Reply, flat, stop_at_admin, stop_at_last, delete_unless, delete_if,
  delete_user_rows, done_or_failure, set_user_role, db_user_is_admin, last_admin_guard,
  handle_delete_user, handle_update_user_role,
}
use nat_server.Accounts.Users.Admins.{
  guarded, IsManned, guarded-IsManned, demoted-IsManned, promoted-IsManned, with_role,
}
use nat_server.Accounts.Users.{shown_after, set_role_if, set_role_unless, set_role_row}
use nat_server.Common.Text.{trim}

last_admin_guard_lem :
    (e : Sql) (id : ℤ) (s : Accounts)
    → Works e
    → (t : Accounts) × (last_admin_guard e id s ≡ (ok (guarded id s.users), t))
      × (t.users ≡ s.users)
unfolding last_admin_guard get_user_by_id count_admins stop_at_admin stop_at_last
last_admin_guard_lem e id s w =
    let looked_up =
      tried_query_then_lem e w (λ t. first (select (is_user id) t.users)) (stop_at_admin e) s in
    elim (Bool-cases (is_some_admin (first (select (is_user id) s.users)))) [
      | inl y ↦ (
        ticked (ticked s),
        looked_up
            ∙ rw y (
                tried_query_then_lem e w (λ t. count is_admin t.users)
                  (λ n. done (stop_at_last e n)) (ticked s)),
        refl,
      )
      | inr n ↦ (ticked s, looked_up ∙ rw n refl, refl)
    ]

abbrev pub AreManned : Accounts → Type 0
AreManned t = IsManned t.users

module _ (e : Sql) (w : Works e) where
  -- What follows the guard is done where the guard answered `none`.
  after_guard :
      (id : ℤ) (f : Option Reply → Db Reply)
      → ((t : Accounts) (stop : Option Reply)
          → AreManned t
          → guarded id t.users ≡ stop
          → AreManned (end (f stop) t))
      → Keeps AreManned (last_admin_guard e id >>= f)
  after_guard id f k t m =
      let (t', found, kept) = last_admin_guard_lem e id t w in
      subst (λ o. IsManned o.1.users)
        (sym (bind_lem (last_admin_guard e id) f t t' (guarded id t.users) found))
        (k t' (guarded id t.users) (rw kept m) (rw kept refl))

  delete_unless-IsManned :
      (id : ℤ) (t : Accounts) (stop : Option Reply)
      → AreManned t
      → guarded id t.users ≡ stop
      → AreManned (end (delete_unless e id stop) t)
  unfolding delete_unless delete_user
  delete_unless-IsManned id t (some r) m g = m
  delete_unless-IsManned id t none m g =
      subst (λ o. IsManned (onward (λ gone. done (done_or_failure e gone)) (caught o)).1.users)
        (sym (execute_lem e w (delete_user_rows id) t)) (guarded-IsManned id t.users m g)

  delete_if-IsManned : (id : ℤ) (b : Bool) → Keeps AreManned (delete_if e id b)
  unfolding delete_if
  delete_if-IsManned id false t m = m
  delete_if-IsManned id true t m =
      after_guard id (delete_unless e id) (delete_unless-IsManned id) t m

  pub looks-AreManned : {A : Type 0} (f : Accounts → A) → Keeps AreManned (tried (query e f))
  looks-AreManned f = tried-Keeps AreManned (query e f) (query-Keeps AreManned e f (λ s p. p))

  pub db_user_is_admin-AreManned : (id : ℤ) → Keeps AreManned (db_user_is_admin e id)
  unfolding db_user_is_admin get_user_by_id
  db_user_is_admin-AreManned id =
      bind-Keeps AreManned (tried (query e found)) (λ f. done (is_some_admin (flat f)))
        (looks-AreManned found) (λ a s p. p)
    where
      found : Accounts → Option User
      found t = first (select (is_user id) t.users)

  pub handle_delete_user-AreManned :
      (caller id : ℤ) → Keeps AreManned (handle_delete_user e caller id)
  unfolding handle_delete_user
  handle_delete_user-AreManned caller id =
      bind-Keeps AreManned (if caller == id then done true else db_user_is_admin e caller)
        (delete_if e id) (allowed (caller == id)) (delete_if-IsManned id)
    where
      allowed : (b : Bool) → Keeps AreManned (if b then done true else db_user_is_admin e caller)
      allowed true t m = m
      allowed false t m = db_user_is_admin-AreManned caller t m

  shown_after-AreManned : (id : ℤ) (o : Option (Unit {0})) → Keeps AreManned (shown_after e id o)
  unfolding shown_after get_user_by_id
  shown_after-AreManned id none t m = m
  shown_after-AreManned id (some _) t m =
      bind-Keeps AreManned (tried (query e found)) (λ shown. done (done_or_failure e (flat shown)))
        (looks-AreManned found) (λ a s p. p) t m
    where
      found : Accounts → Option User
      found t = first (select (is_user id) t.users)

  -- The role is written, and what was shown does not matter.
  set_role_unless-AreManned :
      (id : ℤ) (role : Text) (t : Accounts)
      → IsManned (update_where (is_user id) (with_role role t.now) t.users)
      → AreManned (end (tried (execute e (set_role_row id role)) >>= shown_after e id) t)
  set_role_unless-AreManned id role t m =
      subst (λ o. IsManned (onward (shown_after e id) (caught o)).1.users)
        (sym (execute_lem e w (set_role_row id role) t)) (shown_after-AreManned id (some tt) _ m)

  set_role_if-AreManned : (id : ℤ) (keeps b : Bool) → Keeps AreManned (set_role_if e id keeps b)
  unfolding set_role_if set_role_unless set_user_role list_eq
  set_role_if-AreManned id keeps false t m = m
  set_role_if-AreManned id true true t m =
      set_role_unless-AreManned id user_role_admin t (promoted-IsManned id t.now t.users m)
  set_role_if-AreManned id false true t m =
      after_guard id (set_role_unless e id user_role_user) unless t m
    where
      unless :
          (t : Accounts) (stop : Option Reply)
          → AreManned t
          → guarded id t.users ≡ stop
          → AreManned (end (set_role_unless e id user_role_user stop) t)
      unless t (some r) m g = m
      unless t none m g =
          set_role_unless-AreManned id user_role_user t (demoted-IsManned id t.now t.users m g)

  pub handle_update_user_role-AreManned :
      (caller id : ℤ) (role : Text) → Keeps AreManned (handle_update_user_role e caller id role)
  unfolding handle_update_user_role
  handle_update_user_role-AreManned caller id role =
      bind-Keeps AreManned (db_user_is_admin e caller)
        (set_role_if e id (trim role == user_role_admin)) (db_user_is_admin-AreManned caller)
        (set_role_if-AreManned id (trim role == user_role_admin))
