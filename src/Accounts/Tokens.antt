-- ===== src/Accounts/Tokens.antt =====
-- The reset tokens and passwords of src/database.rs, the handlers of src/password_reset.rs, and the
-- handler of src/web.rs that is served in their place.
pub mod Served
pub mod Lifetime
use nat_server.Common.{
  ℕ, suc, ◌+◌, Bool, true, false, ◌&&◌, not, Option, none, some, List, [], ◌∷◌, ltb, ◌==◌,
  list_has_eq, if◌then◌else◌, select, is_empty,
}
use nat_server.Common.Int.{ℤ, pos, int_has_eq}
use nat_server.Common.Text.{Text, trim, len}
use nat_server.Database.{first}
use nat_server.State.{rejected, Result, ok, err}
use nat_server.Accounts.Store.{User, ResetToken, Accounts, Sql, count, update_where, text_after}
use nat_server.Accounts.Store.Monad.{Db, done, failed, reads, tried, ◌>>=◌, ◌>>◌, query, execute}
use nat_server.Accounts.Users.{
  is_user, get_user_by_id, get_user_by_email, Reply, success, failure, internal_error, flat,
}

-- One hour.
abbrev pub token_lifetime : ℕ
token_lifetime = 3600

-- insert into password_reset_tokens …; the user must exist and the token be new
unfoldable pub insert_token : ℤ → Text → Text → Accounts → Option (Text × Accounts)
insert_token user_id token expires_at s =
    let id = pos (suc s.last_ids.password_reset_tokens) in
    if ltb 0 (count (is_user user_id) s.users)
      && not (ltb 0 (count (λ t. t.token == token) s.password_reset_tokens))
    then some (
      token,
      record s {
        password_reset_tokens =
            record {
              id = id;
              user_id = user_id;
              token = token;
              expires_at = expires_at;
              is_used = false;
            }
            ∷ s.password_reset_tokens;
        last_ids = record s.last_ids {
          password_reset_tokens = suc s.last_ids.password_reset_tokens;
        };
      },
    )
    else none

-- token = ? and expires_at > datetime('now') and is_used = 0
abbrev pub is_valid_token : Text → Text → ResetToken → Bool
is_valid_token token now t = t.token == token && (text_after t.expires_at now && not t.is_used)

unfoldable pub token_user : Text → Text → List ResetToken → Option ℤ
token_user token now [] = none
token_user token now (t ∷ ts) =
    if is_valid_token token now t then some t.user_id else token_user token now ts

-- update users set password_hash = ? … where id = ?
abbrev pub with_password : ℤ → Text → ℕ → List User → List User
with_password user_id password_hash now us =
    update_where (is_user user_id)
      (λ u. record u { password_hash = password_hash; updated_at = now }) us

-- The transaction of `reset_password`: the password, and all unused tokens of the user.
abbrev pub reset_rows : ℤ → Text → Accounts → Option (Unit {0} × Accounts)
reset_rows user_id password_hash s = some (
  tt,
  record s {
    users = with_password user_id password_hash s.now s.users;
    password_reset_tokens =
        update_where (λ t. t.user_id == user_id && not t.is_used) (λ t. record t { is_used = true })
          s.password_reset_tokens;
  },
)

abbrev pub set_password_rows : ℤ → Text → Accounts → Option (Unit {0} × Accounts)
set_password_rows user_id password_hash s =
    some (tt, record s { users = with_password user_id password_hash s.now s.users })

module _ (e : Sql) where
  unfoldable pub create_password_reset_token : ℤ → Db Text
  unfolding execute
  create_password_reset_token user_id s =
      let token = e.new_uuid s.calls in
      execute e (insert_token user_id token (e.rfc3339 (s.now + token_lifetime))) s

  unfoldable pub validate_password_reset_token : Text → Db (Option ℤ)
  unfolding query
  validate_password_reset_token token =
      query e λ s. token_user token (e.datetime s.now) s.password_reset_tokens

  -- `bcrypt::hash`, and the method goes on with the hash.
  abbrev pub hashed : Text → (Text → Db (Unit {0})) → Db (Unit {0})
  hashed password k s = elim (e.hash s.calls password) [ none ↦ (err rejected, s) | some h ↦ k h s ]

  -- `Database::reset_password`.
  unfoldable pub db_reset_password : ℤ → Text → Db (Unit {0})
  unfolding execute
  db_reset_password user_id new_password = hashed new_password λ h. execute e (reset_rows user_id h)

  -- `Database::change_password`.
  unfoldable pub db_change_password : ℤ → Text → Db (Unit {0})
  unfolding execute
  db_change_password user_id new_password =
      hashed new_password λ h. execute e (set_password_rows user_id h)

  unfoldable pub update_if_verified : ℤ → Text → Text → Option User → Db (Unit {0})
  update_if_verified user_id old_password new_password none = failed rejected
  update_if_verified user_id old_password new_password (some u) =
      if e.verify old_password u.password_hash
      then db_change_password user_id new_password
      else failed rejected

  -- `Database::update_password`.
  unfoldable pub update_password : ℤ → Text → Text → Db (Unit {0})
  update_password user_id old_password new_password =
      get_user_by_id e user_id >>= update_if_verified user_id old_password new_password

  abbrev pub reset_reply : Option (Unit {0}) → Reply
  reset_reply none = failure
  reset_reply (some _) = success

  unfoldable pub reset_for : Text → Option (Option ℤ) → Db Reply
  reset_for new_password none = done failure
  reset_for new_password (some none) = done failure
  reset_for new_password (some (some user_id)) =
      tried (db_reset_password user_id new_password) >>= λ r. done (reset_reply r)

  -- `reset_password` of src/password_reset.rs.
  unfoldable pub reset_password : Text → Text → Text → Db Reply
  reset_password token new_password confirm_password =
      if is_empty (trim token)
      then done failure
      else if ltb (len new_password) 6
      then done failure
      else if not (new_password == confirm_password)
      then done failure
      else tried (validate_password_reset_token token) >>= reset_for new_password

  unfoldable pub forgot_for : Option (Option User) → Db Reply
  forgot_for none = done failure
  forgot_for (some none) = done success
  forgot_for (some (some u)) = tried (create_password_reset_token u.id) >>= λ t.
      done (elim t [ none ↦ failure | some _ ↦ success ])

  -- `forgot_password` of src/password_reset.rs.
  unfoldable pub forgot_password : Text → Db Reply
  forgot_password email =
      if is_empty (trim email)
      then done failure
      else tried (get_user_by_email e email) >>= forgot_for

-- `forgot_password` of src/web.rs, which is served: it looks the user up, and that is all.
unfoldable pub web_forgot_password : Sql → Text → Db Reply
web_forgot_password e email = tried (get_user_by_email e email) >>= λ u.
    done (elim u [ none ↦ internal_error | some _ ↦ success ])

-- `reset_password` of src/web.rs, which is served: any token will do, and nothing is reset.
unfoldable pub web_reset_password : Text → Text → Db Reply
web_reset_password token password = done (if is_empty token then failure else success)
