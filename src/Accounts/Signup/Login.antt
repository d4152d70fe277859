-- ===== src/Accounts/Signup/Login.antt =====
-- On a registration and a login after it, in src/web.rs.
use nat_server.Common.{
  suc, ◌≡◌, refl, Bool, true, ◌||◌, none, some, List, [], ◌∷◌, arith, ◌==◌, list_has_eq,
  list_eq_iff, select, unwrap_or, ◌∙◌, ap, sym,
}
use nat_server.Common.Int.{pos, int_has_eq}
use nat_server.Common.Text.{Text}
use nat_server.State.{ok}
use nat_server.Database.{first}
use nat_server.Accounts.Store.{User, Accounts, Sql, count}
use nat_server.Accounts.Store.Monad.{end, answer, tried, done, ◌>>=◌, ticked, written}
use nat_server.Accounts.Store.Works.{
  Works, bind_lem, tried_lem, tried_query_then_lem, count_or_zero_lem, execute_lem,
}
use nat_server.Accounts.Users.{
  success, is_user, create_user, insert_user, get_user_by_id, get_user_by_username,
  get_user_by_email, user_role_user, flat, done_or_failure,
}
use nat_server.Accounts.Subscriptions.{active_subscription, get_user_active_subscription}
use nat_server.Accounts.Devices.{is_active_device}
use nat_server.Accounts.Signup.{
  register, login, create_with_name, create_with_email, shown, login_as, sign_in, respond,
  device_of_login, build_subscription_info, count_user_active_devices, info_of, claims_of,
  LoginResponse,
}

-- The name or the address is in use.
abbrev pub is_namesake : Text → Text → User → Bool
is_namesake username email u = u.username == username || u.email == email

none_found :
    (username email : Text) (us : List User)
    → count (is_namesake username email) us ≡ 0
    → (first (select (λ u. u.username == username) us) ≡ none)
      × (first (select (λ u. u.email == email) us) ≡ none)
unfolding count
none_found username email [] h = (refl, refl)
none_found username email (u ∷ us) h = ground (arith, none_found username email us)

-- The row of the new user.
abbrev pub new_user : Text → Text → Text → Accounts → User
new_user username email password_hash s = record {
  id = pos (suc s.last_ids.users);
  username = username;
  email = email;
  password_hash = password_hash;
  created_at = s.now;
  updated_at = s.now;
  is_active = true;
  role = user_role_user;
}

-- What the answer to a login shows, for a user and the database as it is.
abbrev pub response : Sql → User → Text → Accounts → LoginResponse
response e u token t = record {
  token = token;
  user = u;
  subscription =
      info_of (count (is_active_device u.id) t.user_devices)
        (active_subscription u.id (e.datetime t.now) t);
}

module _ (e : Sql) (w : Works e) (username email password h : Text) (s : Accounts)
    (hashed : e.hash (suc (suc s.calls)) password ≡ some h)
    (fresh : count (is_namesake username email) s.users ≡ 0) where
  -- The database before and after the row is written.
  abbrev before : Accounts
  before = ticked (ticked s)

  abbrev u : User
  u = new_user username email h s

  abbrev after : Accounts
  after = record before {
    users = u ∷ s.users;
    last_ids = record s.last_ids { users = suc s.last_ids.users };
    calls = suc (suc (suc s.calls));
  }

  inserted :
      insert_user username email h before ≡ some (u.id, record after { calls = suc (suc s.calls) })
  unfolding insert_user
  inserted = rw fresh refl

  created : create_user e username email password before ≡ (ok u.id, after)
  unfolding create_user
  created =
      rw hashed (
        execute_lem e w (insert_user username email h) before ∙ ap (λ o. written o before) inserted)

  found_id : first (select (is_user u.id) after.users) ≡ some u
  found_id = ground arith

  found_name : (us : List User) → first (select (λ v. v.username == username) (u ∷ us)) ≡ some u
  found_name us = ground (arith, list_eq_iff username username)

  registered : register e username email password password s ≡ (ok success, ticked after)
  unfolding register create_with_name create_with_email shown get_user_by_username get_user_by_email
      get_user_by_id
  registered =
      let same : (password == password) ≡ true = (list_eq_iff password password).1 refl in
      let (no_name, no_email) = none_found username email s.users fresh in
      rw same (
        tried_query_then_lem e w (λ t. first (select (λ v. v.username == username) t.users))
          (create_with_name e username email password) s
        ∙ ap (λ o. create_with_name e username email password (some o) (ticked s)) no_name
        ∙ tried_query_then_lem e w (λ t. first (select (λ v. v.email == email) t.users))
            (create_with_email e username email password) (ticked s)
        ∙ ap (λ o. create_with_email e username email password (some o) before) no_email
        ∙ bind_lem (tried (create_user e username email password)) (shown e) before after
            (some u.id)
            (tried_lem (create_user e username email password) before after u.id created)
        ∙ tried_query_then_lem e w (λ t. first (select (is_user u.id) t.users))
            (λ found. done (done_or_failure e (flat found))) after
        ∙ ap (λ o. (ok (done_or_failure e o), ticked after)) found_id)

  informed :
      (token : Text) (t : Accounts)
      → respond e u (some token) t ≡ (ok (some (response e u token t)), ticked (ticked t))
  unfolding respond build_subscription_info get_user_active_subscription count_user_active_devices
  informed token t =
      bind_lem (build_subscription_info e u.id)
        (λ info. done (some (record { token = token; user = u; subscription = info }))) t
        (ticked (ticked t))
        (info_of (count (is_active_device u.id) t.user_devices)
          (active_subscription u.id (e.datetime t.now) t))
        (tried_query_then_lem e w (λ t. active_subscription u.id (e.datetime t.now) t)
            (λ sub. tried (count_user_active_devices e u.id) >>= λ n.
              done (info_of (unwrap_or n 0) (flat sub)))
            t
          ∙ bind_lem (tried (count_user_active_devices e u.id))
              (λ n. done (info_of (unwrap_or n 0) (active_subscription u.id (e.datetime t.now) t)))
              (ticked t) (ticked (ticked t)) (some (count (is_active_device u.id) t.user_devices))
              (tried_lem (count_user_active_devices e u.id) (ticked t) (ticked (ticked t))
                (count (is_active_device u.id) t.user_devices)
                (count_or_zero_lem e w (λ t. count (is_active_device u.id) t.user_devices)
                  (ticked t))))

  logged_in :
      (token : Text)
      → e.verify password h ≡ true
      → e.encode_claims (claims_of e u none s.now) ≡ some token
      → answer (login e username password none) (ticked after)
        ≡ ok (some (response e u token (ticked after)))
  unfolding login login_as get_user_by_username sign_in device_of_login active_subscription
  logged_in token good signed =
      ap (λ o. o.0)
        (tried_query_then_lem e w (λ t. first (select (λ v. v.username == username) t.users))
            (login_as e password none) (ticked after)
          ∙ ap (λ o. login_as e password none (some o) (ticked (ticked after))) (found_name s.users)
          ∙ admitted)
    where
      admitted :
          login_as e password none (some (some u)) (ticked (ticked after))
          ≡ (ok (some (response e u token (ticked after))), ticked (ticked (ticked (ticked after))))
      admitted = rw (good, signed) (informed token (ticked (ticked after)))

-- Whoever registers with a name and an address that are not in use can log in at once with the same
-- password, while the database answers: both are answered with success, and the token and the user
-- shown are those of the new account, which has the role `user`. Of bcrypt it takes that the hash of
-- the password verifies it, and of JWT that the claims can be encoded.
pub login-register :
    (e : Sql) (username email password h token : Text) (s : Accounts)
    → Works e
    → count (is_namesake username email) s.users ≡ 0
    → e.hash (suc (suc s.calls)) password ≡ some h
    → e.verify password h ≡ true
    → e.encode_claims (claims_of e (new_user username email h s) none s.now) ≡ some token
    → (answer (register e username email password password) s ≡ ok success)
      × (answer
            (login e username password none)
            (end (register e username email password password) s)
          ≡ ok (
              some (
                response e
                  (new_user username email h s)
                  token
                  (end (register e username email password password) s))))
login-register e username email password h token s w fresh hashed good signed =
    let r = registered e w username email password h s hashed fresh in
    (
      ap (λ o. o.0) r,
      ap (λ o. answer (login e username password none) o.1) r
          ∙ logged_in e w username email password h s hashed fresh token good signed
          ∙ ap (λ o. ok (some (response e (new_user username email h s) token o.1))) (sym r),
    )
