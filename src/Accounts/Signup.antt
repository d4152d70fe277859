-- ===== src/Accounts/Signup.antt =====
-- The handlers that make users and let them in: admin_create_user and update_user of src/api.rs,
-- register and login of src/web.rs, with the methods of src/database.rs and src/subscription.rs that
-- they use.
pub mod Login
use mathlib.Core.Option
use nat_server.Common.{
  ℕ, ◌+◌, Bool, true, false, ◌&&◌, ◌||◌, not, Option, none, some, List, [], ◌∷◌, ltb, ◌==◌,
  list_has_eq, if◌then◌else◌, is_empty, unwrap_or, select, contains, nat_has_eq,
}
use nat_server.Common.Int.{ℤ, int_has_eq}
use nat_server.Common.Text.{Text, text, trim, len}
use nat_server.Database.{first}
use nat_server.Accounts.Store.{User, UserDevice, Accounts, Sql, LoginClaims, count, update_where}
use nat_server.Accounts.Store.Monad.{Db, done, reads, tried, ◌>>=◌, query, execute, count_or_zero}
use nat_server.Accounts.Users.{
  Reply, forbidden, success, failure, is_user, create_user, get_user_by_id, get_user_by_username,
  get_user_by_email, db_user_is_admin, done_or_failure, flat,
}
use nat_server.Accounts.Subscriptions.{
  UserSubscription, get_user_active_subscription, free_device_limit, free_speed_kbps,
}
use nat_server.Accounts.Devices.{is_active_device, is_bound_device}

-- What a page shows of a subscription; `started_at` is in seconds, for its text.
pub record UserSubscriptionInfo : Type 0 where
  pub id : Option ℤ
  pub plan_name : Text
  pub plan_display_name : Text
  pub device_limit : ℤ
  pub speed_limit_kbps : ℤ
  pub started_at : Option ℕ
  pub expires_at : Option Text
  pub is_active : Bool
  pub current_device_count : ℕ
  pub notes : Option Text

pub record LoginResponse : Type 0 where
  pub token : Text
  pub user : User
  pub subscription : UserSubscriptionInfo

abbrev pub info_of : ℕ → Option UserSubscription → UserSubscriptionInfo
info_of n none = record {
  id = none;
  plan_name = text "free";
  plan_display_name = text "免费版";
  device_limit = free_device_limit;
  speed_limit_kbps = free_speed_kbps;
  started_at = none;
  expires_at = none;
  is_active = true;
  current_device_count = n;
  notes = none;
}
info_of n (some u) = record {
  id = some u.row.id;
  plan_name = u.plan_name;
  plan_display_name = u.plan_display_name;
  device_limit = u.device_limit;
  speed_limit_kbps = u.speed_limit_kbps;
  started_at = some u.row.started_at;
  expires_at = u.row.expires_at;
  is_active = u.row.is_active;
  current_device_count = n;
  notes = u.row.notes;
}

-- update users set …, for the columns that are given; names and addresses are unique
abbrev pub is_taken : ℤ → Option Text → Option Text → User → Bool
is_taken user_id username email u =
    not (is_user user_id u)
    && (elim username [ none ↦ false | some n ↦ u.username == n ]
        || elim email [ none ↦ false | some m ↦ u.email == m ])

unfoldable pub update_rows : ℤ → Option Text → Option Text → Accounts → Option (Unit {0} × Accounts)
update_rows user_id username email s =
    if ltb 0 (count (is_user user_id) s.users)
      && ltb 0 (count (is_taken user_id username email) s.users)
    then none
    else some (
      tt,
      record s {
        users =
            update_where (is_user user_id)
              (λ u. record u {
                username = unwrap_or username u.username;
                email = unwrap_or email u.email;
                updated_at = s.now;
              })
              s.users;
      },
    )

-- 24 hours.
abbrev pub login_seconds : ℕ
login_seconds = 86400

module _ (e : Sql) where
  unfoldable pub update_user : ℤ → Option Text → Option Text → Db (Unit {0})
  unfolding execute
  update_user user_id username email = execute e (update_rows user_id username email)

  unfoldable pub get_user_device_row_id : ℤ → Text → Db (Option ℤ)
  unfolding query
  get_user_device_row_id user_id device_id = query e λ s.
      Option.map (λ d. d.id) (first (select (is_bound_device user_id device_id) s.user_devices))

  unfoldable pub count_user_active_devices : ℤ → Db ℕ
  unfolding count_or_zero
  count_user_active_devices user_id =
      count_or_zero e λ s. count (is_active_device user_id) s.user_devices

  unfoldable pub build_subscription_info : ℤ → Db UserSubscriptionInfo
  build_subscription_info user_id = tried (get_user_active_subscription e user_id) >>= λ sub.
      tried (count_user_active_devices user_id) >>= λ n. done (info_of (unwrap_or n 0) (flat sub))

  unfoldable pub shown : Option ℤ → Db Reply
  shown none = done failure
  shown (some user_id) =
      tried (get_user_by_id e user_id) >>= λ found. done (done_or_failure e (flat found))

  -- After the look-up of the address, and of the name.
  unfoldable pub create_with_email : Text → Text → Text → Option (Option User) → Db Reply
  create_with_email username email password (some none) =
      tried (create_user e username email password) >>= shown
  create_with_email username email password _ = done failure

  unfoldable pub create_with_name : Text → Text → Text → Option (Option User) → Db Reply
  create_with_name username email password (some none) =
      tried (get_user_by_email e email) >>= create_with_email username email password
  create_with_name username email password _ = done failure

  -- `register` of src/web.rs.
  unfoldable pub register : Text → Text → Text → Text → Db Reply
  register username email password confirm_password =
      if not (password == confirm_password)
      then done failure
      else tried (get_user_by_username e username) >>= create_with_name username email password

  unfoldable pub create_if : Text → Text → Text → Text → Bool → Db Reply
  create_if username email password confirm_password false = done forbidden
  create_if username email password confirm_password true =
      if is_empty (trim username) || is_empty (trim email)
      then done failure
      else if ltb (len password) 6 || not (password == confirm_password)
      then done failure
      else tried (get_user_by_username e username) >>= create_with_name username email password

  -- `admin_create_user` of src/api.rs.
  unfoldable pub admin_create_user : ℤ → Text → Text → Text → Text → Db Reply
  admin_create_user caller username email password confirm_password =
      db_user_is_admin e caller >>= create_if username email password confirm_password

  abbrev pub is_no_address : Option Text → Bool
  is_no_address none = false
  is_no_address (some email) = not (contains b'@' email)

  unfoldable pub update_if : ℤ → Option Text → Option Text → Bool → Db Reply
  update_if user_id username email false = done forbidden
  update_if user_id username email true =
      if is_no_address email
      then done failure
      else tried (update_user user_id username email) >>= λ o. shown (Option.map (λ _. user_id) o)

  -- `update_user` of src/api.rs.
  unfoldable pub handle_update_user : ℤ → ℤ → Option Text → Option Text → Db Reply
  handle_update_user caller user_id username email =
      (if caller == user_id then done true else db_user_is_admin e caller)
      >>= update_if user_id username email

  -- The device of a login: `none` if it is not the user's, or the look-up failed.
  unfoldable pub device_of_login : ℤ → Option Text → Db (Option (Option ℤ))
  device_of_login user_id none = done (some none)
  device_of_login user_id (some device_id) =
      if is_empty (trim device_id)
      then done (some none)
      else tried (get_user_device_row_id user_id (trim device_id)) >>= λ row.
          done
            (elim (flat row) as (λ _. Option (Option ℤ)) [ none ↦ none | some id ↦ some (some id) ])

  abbrev pub claims_of : User → Option ℤ → ℕ → LoginClaims
  claims_of u udid now = record {
    sub = u.id;
    username = u.username;
    exp = now + login_seconds;
    iat = now;
    udid = udid;
    role = u.role;
  }

  unfoldable pub respond : User → Option Text → Db (Option LoginResponse)
  respond u none = done none
  respond u (some token) = build_subscription_info u.id >>= λ info.
      done (some (record { token = token; user = u; subscription = info }))

  unfoldable pub sign_in : User → Option (Option ℤ) → Db (Option LoginResponse)
  sign_in u none = done none
  sign_in u (some udid) =
      reads (λ s. s.now) >>= λ now. respond u (e.encode_claims (claims_of u udid now))

  unfoldable pub login_as : Text → Option Text → Option (Option User) → Db (Option LoginResponse)
  login_as password device_id (some (some u)) =
      if not u.is_active
      then done none
      else if e.verify password u.password_hash
      then device_of_login u.id device_id >>= sign_in u
      else done none
  login_as password device_id _ = done none

  -- `login` of src/web.rs: `none` where it answers with an error.
  unfoldable pub login : Text → Text → Option Text → Db (Option LoginResponse)
  login username password device_id =
      tried (get_user_by_username e username) >>= login_as password device_id
