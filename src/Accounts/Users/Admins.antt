-- ===== src/Accounts/Users/Admins.antt =====
-- On the administrators of src/api.rs.
pub mod Guard
pub mod Service
use mathlib.Core.Path.{subst}
use nat_server.Common.{
  ℕ, ◌+◌, ◌≤◌, ◌<◌, ◌≡◌, true, false, Bool, Option, none, some, List, [], ◌∷◌, arith, select, refl,
  Bool-cases, inl, inr, ◌∙◌, sym, ap, leb, ◌==◌, list_has_eq, list_eq, if◌then◌else◌,
}
use nat_server.Common.Int.{ℤ, int_has_eq}
use nat_server.Common.Text.{Text}
use nat_server.State.{ok}
use nat_server.Database.{first}
use nat_server.Accounts.Store.{Accounts, Sql, User, count, update_where, delete_where}
use nat_server.Accounts.Store.Monad.{
  Db, end, answer, query, execute, tried, written, done, ◌>>=◌, ticked, onward, caught,
}
use nat_server.Accounts.Store.Works.{
  Works, tried_query_then_lem, tried_lem, Keeps, bind-Keeps, bind-Leads, bind_lem, tried-Keeps,
  query-Keeps, execute_lem, count-delete_where, count-update_where,
}
use nat_server.Accounts.Users.{
  is_user, is_admin, user_role_user, user_role_admin, is_some_admin, get_user_by_id, delete_user,
  count_admins, Reply, failure, flat, stop_at_admin, stop_at_last, delete_unless, delete_if,
  delete_user_rows, done_or_failure, internal_error, set_user_role, db_user_is_admin,
  last_admin_guard, handle_delete_user, handle_update_user_role,
}

-- A user that is no administrator is deleted without the loss of one.
spared-delete_where :
    (id : ℤ) (us : List User)
    → is_some_admin (first (select (is_user id) us)) ≡ false
    → count (is_user id) us ≤ 1
    → count is_admin us ≤ count is_admin (delete_where (is_user id) us)
unfolding count
spared-delete_where id [] h k = omega arith
spared-delete_where id (u ∷ us) h k =
    ground (arith, spared-delete_where id us, count-delete_where is_admin (is_user id) us)

-- The role is set by `update_where`.
abbrev pub with_role : Text → ℕ → User → User
with_role role now u = record u { role = role; updated_at = now }

spared-update_where :
    (id : ℤ) (now : ℕ) (us : List User)
    → is_some_admin (first (select (is_user id) us)) ≡ false
    → count (is_user id) us ≤ 1
    → count is_admin us
      ≤ count is_admin (update_where (is_user id) (with_role user_role_user now) us)
unfolding count update_where
spared-update_where id now [] h k = omega arith
spared-update_where id now (u ∷ us) h k = ground (
  arith,
  spared-update_where id now us,
  count-update_where is_admin (is_user id) (with_role user_role_user now) us,
)

raised-update_where :
    (id : ℤ) (now : ℕ) (us : List User)
    → count is_admin us
      ≤ count is_admin (update_where (is_user id) (with_role user_role_admin now) us)
unfolding count update_where list_eq
raised-update_where id now [] = omega arith
raised-update_where id now (u ∷ us) = ground (arith, raised-update_where id now us)

-- Ids are neither made nor changed.
kept-delete_where : (p q : User → Bool) (us : List User) → count p (delete_where q us) ≤ count p us
unfolding count
kept-delete_where p q [] = omega arith
kept-delete_where p q (u ∷ us) = ground (arith, kept-delete_where p q us)

kept-update_where :
    (id : ℤ) (q : User → Bool) (role : Text) (now : ℕ) (us : List User)
    → count (is_user id) (update_where q (with_role role now) us) ≡ count (is_user id) us
unfolding count update_where
kept-update_where id q role now [] = refl
kept-update_where id q role now (u ∷ us) = ground (arith, kept-update_where id q role now us)

-- No two rows share an id, and there is an administrator.
pub record IsManned (us : List User) : Type 0 where
  pub keyed : (id : ℤ) → count (is_user id) us ≤ 1
  pub manned : 0 < count is_admin us

-- The guard stops unless there are two administrators or the user is none.
abbrev pub guarded : ℤ → List User → Option Reply
guarded id us =
    if is_some_admin (first (select (is_user id) us))
    then (if leb (count is_admin us) 1 then some failure else none)
    else none

pub guarded-IsManned :
    (id : ℤ) (us : List User)
    → IsManned us
    → guarded id us ≡ none
    → IsManned (delete_where (is_user id) us)
guarded-IsManned id us m g = record {
  keyed = λ j. omega (arith, kept-delete_where (is_user j) (is_user id) us, m.keyed j);
  manned = ground (
    arith,
    spared-delete_where id us,
    count-delete_where is_admin (is_user id) us,
    m.keyed id,
    m.manned,
  );
}

pub demoted-IsManned :
    (id : ℤ) (now : ℕ) (us : List User)
    → IsManned us
    → guarded id us ≡ none
    → IsManned (update_where (is_user id) (with_role user_role_user now) us)
demoted-IsManned id now us m g = record {
  keyed = λ j. rw kept-update_where (m.keyed j);
  manned = ground (
    arith,
    spared-update_where id now us,
    count-update_where is_admin (is_user id) (with_role user_role_user now) us,
    m.keyed id,
    m.manned,
  );
}

pub promoted-IsManned :
    (id : ℤ) (now : ℕ) (us : List User)
    → IsManned us
    → IsManned (update_where (is_user id) (with_role user_role_admin now) us)
promoted-IsManned id now us m = record {
  keyed = λ j. rw kept-update_where (m.keyed j);
  manned = omega (arith, raised-update_where id now us, m.manned);
}
