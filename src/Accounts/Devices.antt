-- ===== src/Accounts/Devices.antt =====
-- The devices of users in src/database.rs.
pub mod Binding
pub mod Refinement
pub mod Limit
use nat_server.Common.{
  ℕ, suc, ◌+◌, Bool, true, false, ◌&&◌, ◌||◌, not, Option, none, some, List, [], ◌∷◌, leb, ltb,
  ◌==◌, list_has_eq, if◌then◌else◌, select, contains,
}
use nat_server.Common.Int.{ℤ, pos, int_has_eq, ltb_ℤ}
use nat_server.Common.Text.{Text, text}
use nat_server.Database.{first}
use nat_server.State.{rejected}
use nat_server.Accounts.Store.{User, UserDevice, Accounts, Sql, count, update_where, delete_where}
use nat_server.Accounts.Store.Monad.{Db, done, failed, ◌>>=◌, query, count_or_zero, execute}
use nat_server.Accounts.Subscriptions.{get_user_device_limit}

pub record CreateDeviceRequest : Type 0 where
  pub user_id : ℤ
  pub device_id : Text
  pub device_name : Option Text

-- user_id = ? and is_active = 1
abbrev pub is_active_device : ℤ → UserDevice → Bool
is_active_device user_id d = d.user_id == user_id && d.is_active

-- user_id = ? and device_id = ?
abbrev pub is_device : ℤ → Text → UserDevice → Bool
is_device user_id device_id d = d.user_id == user_id && d.device_id == device_id

abbrev pub is_bound_device : ℤ → Text → UserDevice → Bool
is_bound_device user_id device_id d = is_device user_id device_id d && d.is_active

-- insert or replace into user_devices …: the row of the same user and device is deleted first, and
-- the user must exist.
unfoldable pub insert_device : CreateDeviceRequest → Accounts → Option (ℤ × Accounts)
insert_device r s =
    let id = pos (suc s.last_ids.user_devices) in
    if ltb 0 (count (λ u. u.id == r.user_id) s.users)
    then some (
      id,
      record s {
        user_devices =
            record {
              id = id;
              user_id = r.user_id;
              device_id = r.device_id;
              device_name = r.device_name;
              created_at = s.now;
              is_active = true;
            }
            ∷ delete_where (is_device r.user_id r.device_id) s.user_devices;
        last_ids = record s.last_ids { user_devices = suc s.last_ids.user_devices };
      },
    )
    else none

-- The columns of the table user_devices.
abbrev pub device_columns : List Text
device_columns =
    text "id"
    ∷ text "user_id"
    ∷ text "device_id"
    ∷ text "device_name"
    ∷ text "created_at"
    ∷ text "is_active"
    ∷ []

-- Does the table have all columns that a statement sets?
abbrev pub has_columns : List Text → Bool
has_columns [] = true
has_columns (c ∷ cs) = contains c device_columns && has_columns cs

-- update user_devices set is_active = 0, deleted_at = current_timestamp where user_id = ? and
-- device_id = ?: a statement that names a column the table does not have is an error.
unfoldable pub unbind_rows : ℤ → Text → Accounts → Option (Unit {0} × Accounts)
unbind_rows user_id device_id s =
    if has_columns (text "is_active" ∷ text "deleted_at" ∷ [])
    then some (
      tt,
      record s {
        user_devices =
            update_where (is_device user_id device_id) (λ d. record d { is_active = false })
              s.user_devices;
      },
    )
    else none

module _ (e : Sql) where
  unfoldable pub insert_if_new : CreateDeviceRequest → ℕ → Db ℤ
  unfolding execute
  insert_if_new r existing = if ltb 0 existing then failed rejected else execute e (insert_device r)

  -- A limit of 0 is none.
  unfoldable pub add_within : CreateDeviceRequest → ℕ → ℤ → Db ℤ
  unfolding count_or_zero
  add_within r device_count device_limit =
      if ltb_ℤ (pos 0) device_limit && not (ltb_ℤ (pos device_count) device_limit)
      then failed rejected
      else count_or_zero e (λ s. count (is_bound_device r.user_id r.device_id) s.user_devices)
        >>= insert_if_new r

  unfoldable pub add_to_user : CreateDeviceRequest → ℕ → Db ℤ
  unfolding count_or_zero
  add_to_user r users =
      if ltb 0 users
      then (do
        device_count ← count_or_zero e (λ s. count (is_active_device r.user_id) s.user_devices)
        device_limit ← get_user_device_limit e r.user_id
        add_within r device_count device_limit)
      else failed rejected

  -- `Database::add_device_to_user`.
  unfoldable pub add_device_to_user : CreateDeviceRequest → Db ℤ
  unfolding count_or_zero
  add_device_to_user r =
      count_or_zero e (λ s. count (λ u. u.id == r.user_id && u.is_active) s.users) >>= add_to_user r

  -- The active devices of a user, less their order.
  unfoldable pub get_user_devices : ℤ → Db (List UserDevice)
  unfolding query
  get_user_devices user_id = query e λ s. select (is_active_device user_id) s.user_devices

  unfoldable pub validate_device_ownership : ℤ → Text → Db Bool
  unfolding count_or_zero
  validate_device_ownership user_id device_id =
      count_or_zero e (λ s. count (is_bound_device user_id device_id) s.user_devices) >>= λ n.
      done (ltb 0 n)

  unfoldable pub remove_device_from_user : ℤ → Text → Db (Unit {0})
  unfolding execute
  remove_device_from_user user_id device_id = execute e (unbind_rows user_id device_id)

  -- The join of users and devices, both active: one of the users that have the device.
  unfoldable pub get_device_owner : Text → Db (Option User)
  unfolding query
  get_device_owner device_id = query e λ s. first (
      select (λ u. u.is_active && ltb 0 (count (is_bound_device u.id device_id) s.user_devices))
        s.users)
