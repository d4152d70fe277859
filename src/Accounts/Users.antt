-- ===== src/Accounts/Users.antt =====
-- The users in src/database.rs, and the handlers of src/api.rs that change them.
pub mod Admins
use nat_server.Common.{
  ℕ, suc, ◌+◌, Bool, true, false, ◌&&◌, ◌||◌, not, Option, none, some, List, [], ◌∷◌, leb, ltb,
  ◌==◌, list_has_eq, if◌then◌else◌, unwrap_or, contains, is_empty, nat_eq, zero, nat_has_eq, select,
}
use nat_server.Common.Int.{ℤ, pos, int_has_eq, ltb_ℤ}
use nat_server.Common.Text.{Text, text, trim}
use nat_server.State.{Error, db_failed, rejected, Result, ok, err}
use nat_server.Accounts.Store.{
  User, Accounts, Sql, count, update_where, delete_where, UserDevice, SubscriptionRow, ResetToken,
  Order,
}
use nat_server.Accounts.Store.Monad.{
  Db, done, failed, reads, tried, ◌>>=◌, ◌>>◌, query, count_or_zero, execute,
}
use nat_server.Database.{first}

abbrev pub user_role_user : Text
user_role_user = text "user"

abbrev pub user_role_admin : Text
user_role_admin = text "admin"

-- What a handler answers: an HTTP status, or a JSON body with success or an error.
pub data Reply : Type 0 where
  forbidden internal_error : Reply
  success : Reply
  failure : Reply

abbrev pub is_user : ℤ → User → Bool
is_user id u = u.id == id

abbrev pub is_admin : User → Bool
is_admin u = u.role == user_role_admin

-- The row of a new user; `none` if the name or the address is taken.
unfoldable pub insert_user : Text → Text → Text → Accounts → Option (ℤ × Accounts)
insert_user username email password_hash s =
    let id = pos (suc s.last_ids.users) in
    if ltb 0 (count (λ u. u.username == username || u.email == email) s.users)
    then none
    else some (
      id,
      record s {
        users =
            record {
              id = id;
              username = username;
              email = email;
              password_hash = password_hash;
              created_at = s.now;
              updated_at = s.now;
              is_active = true;
              role = user_role_user;
            }
            ∷ s.users;
        last_ids = record s.last_ids { users = suc s.last_ids.users };
      },
    )

abbrev pub flat {ℓ} : {A : Type ℓ} → Option (Option A) → Option A
flat none = none
flat (some o) = o

abbrev pub is_some_admin : Option User → Bool
is_some_admin none = false
is_some_admin (some u) = is_admin u

-- id = (select min(id) …)
unfoldable pub is_least : ℤ → List User → Bool
is_least id [] = true
is_least id (u ∷ us) = not (ltb_ℤ u.id id) && is_least id us

-- delete from users where id = ?
abbrev pub delete_user_rows : ℤ → Accounts → Option (Unit {0} × Accounts)
delete_user_rows user_id s = some (
  tt,
  record s {
    users = delete_where (is_user user_id) s.users;
    user_devices = delete_where (λ d. d.user_id == user_id) s.user_devices;
    user_subscriptions = delete_where (λ r. r.user_id == user_id) s.user_subscriptions;
    password_reset_tokens = delete_where (λ t. t.user_id == user_id) s.password_reset_tokens;
    orders = delete_where (λ o. o.user_id == user_id) s.orders;
  },
)

-- update users set role = ? …
abbrev pub set_role_row : ℤ → Text → Accounts → Option (Unit {0} × Accounts)
set_role_row user_id role s = some (
  tt,
  record s {
    users =
        update_where (is_user user_id) (λ u. record u { role = role; updated_at = s.now }) s.users;
  },
)

module _ (e : Sql) where
  -- `Database::create_user`.
  unfoldable pub create_user : Text → Text → Text → Db ℤ
  unfolding execute
  create_user username email password = do
    n ← reads (λ s. s.calls)
    elim (e.hash n password) [
      | none ↦ failed rejected
      | some password_hash ↦ execute e (insert_user username email password_hash)
    ]

  unfoldable pub get_user_by_id : ℤ → Db (Option User)
  unfolding query
  get_user_by_id user_id = query e λ s. first (select (is_user user_id) s.users)

  unfoldable pub get_user_by_username : Text → Db (Option User)
  unfolding query
  get_user_by_username username = query e λ s. first (select (λ u. u.username == username) s.users)

  unfoldable pub get_user_by_email : Text → Db (Option User)
  unfolding query
  get_user_by_email email = query e λ s. first (select (λ u. u.email == email) s.users)

  -- `Database::delete_user`, and its twin in src/database_simple.rs: the rows that refer to the user
  -- go with it.
  unfoldable pub delete_user : ℤ → Db (Unit {0})
  unfolding execute
  delete_user user_id = execute e (delete_user_rows user_id)

  unfoldable pub count_admins : Db ℕ
  unfolding query
  count_admins = query e λ s. count is_admin s.users

  unfoldable pub set_user_role : ℤ → Text → Db (Unit {0})
  unfolding execute
  set_user_role user_id role =
      execute e
        (set_role_row user_id (if role == user_role_admin then user_role_admin else user_role_user))

  -- update users set role = 'admin' where …; the number of rows changed
  unfoldable pub promote : (User → Bool) → Db ℕ
  unfolding execute
  promote p = execute e λ s. some (
    count p s.users,
    record s { users = update_where p (λ u. record u { role = user_role_admin }) s.users },
  )

  unfoldable pub promote_named : Text → Db ℕ
  promote_named name =
      if is_empty (trim name) then done 0 else promote (λ u. u.username == trim name)

  unfoldable pub promote_earliest : ℕ → Db (Unit {0})
  promote_earliest zero = do
    users ← reads (λ s. s.users)
    promote (λ u. is_least u.id users)
    done tt
  promote_earliest (suc n) = done tt

  -- `bootstrap_admin_if_none`, with the variable BOOTSTRAP_ADMIN_USERNAME: one account becomes the
  -- administrator, the one of that name or else the one with the least id.
  unfoldable pub bootstrap_admin_if_none : Option Text → Db (Unit {0})
  unfolding count_or_zero
  bootstrap_admin_if_none name = do
    admin_n ← count_or_zero e (λ s. count is_admin s.users)
    total ← (if ltb 0 admin_n then done 0 else count_or_zero e (λ s. count (λ _. true) s.users))
    if ltb 0 admin_n || nat_eq total 0
        then done tt
        else ((elim name [ none ↦ done 0 | some n ↦ promote_named n ]) >>= promote_earliest)

  -- `db_user_is_admin`.
  unfoldable pub db_user_is_admin : ℤ → Db Bool
  db_user_is_admin user_id = do
    found ← tried (get_user_by_id user_id)
    done (is_some_admin (flat found))

  -- The last administrator stays.
  unfoldable pub stop_at_last : Option ℕ → Option Reply
  stop_at_last none = some internal_error
  stop_at_last (some n) = if leb n 1 then some failure else none

  unfoldable pub stop_at_admin : Option (Option User) → Db (Option Reply)
  stop_at_admin target =
      if is_some_admin (flat target)
      then (tried count_admins >>= λ n. done (stop_at_last n))
      else done none

  -- May this user be deleted or lose the role: is it no administrator, or not the last one?
  -- A failed look-up lets it pass.
  unfoldable pub last_admin_guard : ℤ → Db (Option Reply)
  last_admin_guard user_id = tried (get_user_by_id user_id) >>= stop_at_admin

  abbrev pub done_or_failure {ℓ} : {A : Type ℓ} → Option A → Reply
  done_or_failure none = failure
  done_or_failure (some a) = success

  unfoldable pub delete_unless : ℤ → Option Reply → Db Reply
  delete_unless user_id (some r) = done r
  delete_unless user_id none = tried (delete_user user_id) >>= λ gone. done (done_or_failure gone)

  unfoldable pub delete_if : ℤ → Bool → Db Reply
  delete_if user_id false = done forbidden
  delete_if user_id true = last_admin_guard user_id >>= delete_unless user_id

  -- `delete_user` of src/api.rs, for the caller in the token.
  unfoldable pub handle_delete_user : ℤ → ℤ → Db Reply
  handle_delete_user caller user_id =
      (if caller == user_id then done true else db_user_is_admin caller) >>= delete_if user_id

  unfoldable pub shown_after : ℤ → Option (Unit {0}) → Db Reply
  shown_after user_id none = done internal_error
  shown_after user_id (some _) =
      tried (get_user_by_id user_id) >>= λ shown. done (done_or_failure (flat shown))

  unfoldable pub set_role_unless : ℤ → Text → Option Reply → Db Reply
  set_role_unless user_id role (some r) = done r
  set_role_unless user_id role none = tried (set_user_role user_id role) >>= shown_after user_id

  unfoldable pub set_role_if : ℤ → Bool → Bool → Db Reply
  set_role_if user_id role false = done forbidden
  set_role_if user_id true true = set_role_unless user_id user_role_admin none
  set_role_if user_id false true =
      last_admin_guard user_id >>= set_role_unless user_id user_role_user

  -- `update_user_role` of src/api.rs.
  unfoldable pub handle_update_user_role : ℤ → ℤ → Text → Db Reply
  handle_update_user_role caller user_id role =
      db_user_is_admin caller >>= set_role_if user_id (trim role == user_role_admin)
