-- ===== src/Accounts/Tokens/Served.antt =====
-- On the reset of a password as it is served: `forgot_password`, `reset_password` and `login` of src/web.rs.
use nat_server.Common.{
  ◌≡◌, refl, false, Option, none, some, ◌==◌, list_has_eq, select, is_empty, ◌∙◌, ap, Bool-cases,
  inl, inr,
}
use nat_server.Common.Text.{Text}
use nat_server.State.{ok}
use nat_server.Database.{first}
use nat_server.Accounts.Store.{User, Accounts, Sql}
use nat_server.Accounts.Store.Monad.{end, answer, ticked, done}
use nat_server.Accounts.Store.Works.{Works, tried_query_then_lem}
use nat_server.Accounts.Users.{success, internal_error, get_user_by_email, get_user_by_username}
use nat_server.Accounts.Signup.{login, login_as}
use nat_server.Accounts.Tokens.{web_forgot_password, web_reset_password}

-- The look-up is all that happens.
forgot_lem :
    (e : Sql) (email : Text) (s : Accounts)
    → Works e
    → web_forgot_password e email s ≡ (ok success, ticked s)
unfolding web_forgot_password get_user_by_email
forgot_lem e email s w =
    tried_query_then_lem e w (λ t. first (select (λ u. u.email == email) t.users))
      (λ o. done (elim o [ none ↦ internal_error | some _ ↦ success ])) s

reset_lem :
    (token password : Text) (s : Accounts)
    → (is_empty token ≡ false → answer (web_reset_password token password) s ≡ ok success)
      × (end (web_reset_password token password) s ≡ s)
unfolding web_reset_password
reset_lem token password s = (λ h. rw h refl, refl)

refused :
    (e : Sql) (u : User) (password : Text) (device : Option Text) (s : Accounts)
    → e.verify password u.password_hash ≡ false
    → answer (login_as e password device (some (some u))) s ≡ ok none
unfolding login_as
refused e u password device s wrong = elim (Bool-cases u.is_active) [
  | inl y ↦ rw (y, wrong) refl
  | inr x ↦ rw x refl
]

login-refused :
    (e : Sql) (u : User) (username password : Text) (device : Option Text) (s : Accounts)
    → Works e
    → first (select (λ v. v.username == username) s.users) ≡ some u
    → e.verify password u.password_hash ≡ false
    → answer (login e username password device) s ≡ ok none
unfolding login get_user_by_username
login-refused e u username password device s w found wrong =
    ap (λ o. o.0)
      (tried_query_then_lem e w (λ t. first (select (λ v. v.username == username) t.users))
          (login_as e password device) s
        ∙ ap (λ o. login_as e password device (some o) (ticked s)) found)
    ∙ refused e u password device (ticked s) wrong

-- A user asks for a reset of the password and then resets it with a token that is not empty, both as they
-- are served, while the database answers. Both are answered with success, for whatever address; but the
-- rows of the users and of the reset tokens are those before, and if the new password does not fit the
-- old hash, the user's login with it is then refused.
pub login-web_reset_password :
    (e : Sql) (u : User) (username email token password : Text) (device : Option Text)
    (s : Accounts)
    → Works e
    → first (select (λ v. v.username == username) s.users) ≡ some u
    → is_empty token ≡ false
    → e.verify password u.password_hash ≡ false
    → let asked = end (web_forgot_password e email) s in
      let t = end (web_reset_password token password) asked in
      (answer (web_forgot_password e email) s ≡ ok success)
      × (answer (web_reset_password token password) asked ≡ ok success)
      × (t.users ≡ s.users)
      × (t.password_reset_tokens ≡ s.password_reset_tokens)
      × (answer (login e username password device) t ≡ ok none)
login-web_reset_password e u username email token password device s w found given wrong =
    let asked = forgot_lem e email s w in
    let same : end (web_reset_password token password) (end (web_forgot_password e email) s)
        ≡ ticked s =
      (reset_lem token password (end (web_forgot_password e email) s)).1 ∙ ap (λ o. o.1) asked in
    (
      ap (λ o. o.0) asked,
      (reset_lem token password (end (web_forgot_password e email) s)).0 given,
      ap (λ t. t.users) same,
      ap (λ t. t.password_reset_tokens) same,
      ap (answer (login e username password device)) same
          ∙ login-refused e u username password device (ticked s) w found wrong,
    )
