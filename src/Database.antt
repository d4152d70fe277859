-- ===== src/Database.antt =====
-- The tables `peer` and `user_devices` of src/database.rs, and its statements on them. The SQL
-- engine is read as: a table is the list of its rows, and `id` is a unique index of `peer`.
pub mod Statements
use nat_server.Common.{
  ℕ, Bool, true, false, ◌&&◌, ◌||◌, not, Option, none, some, List, [], ◌∷◌, ◌==◌, list_has_eq,
  if◌then◌else◌, unwrap_or, select,
}
use nat_server.Common.Int.{ℤ, int_has_eq}
use nat_server.Common.Text.{Text, Bytes}

-- A row of `peer`, less the columns that no server reads (user, status, note, created_at, disabled).
pub record PeerRow : Type 0 where
  pub guid : Bytes
  pub id : Text
  pub uuid : Bytes
  pub pk : Bytes
  pub info : Text
  pub user_id : Option ℤ
  pub device_id : Option ℤ

pub record DeviceRow : Type 0 where
  pub id : ℤ
  pub user_id : ℤ
  pub device_id : Text
  pub is_active : Bool

pub record Database : Type 0 where
  pub peer : List PeerRow
  pub user_devices : List DeviceRow

-- `fetch_optional`: the first row.
abbrev pub first {ℓ} : {A : Type ℓ} → List A → Option A
first [] = none
first (x ∷ xs) = some x

-- select … from peer where id = ?
unfoldable pub select_peer : Text → List PeerRow → Option PeerRow
select_peer id [] = none
select_peer id (r ∷ rs) = if r.id == id then some r else select_peer id rs

-- insert or replace into peer(…): the rows that the two unique keys hit are deleted first.
unfoldable pub insert_row : PeerRow → List PeerRow → List PeerRow
insert_row new rs = new ∷ select (λ r. not (r.guid == new.guid || r.id == new.id)) rs

-- update peer set pk=?, info=?, user_id=?, device_id=? where guid=? and id=?
unfoldable pub update_rows :
    Bytes → Text → Bytes → Text → Option ℤ → Option ℤ → List PeerRow → List PeerRow
update_rows guid id pk info user_id device_id [] = []
update_rows guid id pk info user_id device_id (r ∷ rs) =
    (if r.guid == guid && r.id == id
      then record r { pk = pk; info = info; user_id = user_id; device_id = device_id }
      else r)
    ∷ update_rows guid id pk info user_id device_id rs

-- select device_id from user_devices where id = ? and user_id = ? and is_active = 1
unfoldable pub device_of_row : ℤ → ℤ → List DeviceRow → Option Text
device_of_row udid user_id [] = none
device_of_row udid user_id (d ∷ ds) =
    if d.id == udid && (d.user_id == user_id && d.is_active)
    then some d.device_id
    else device_of_row udid user_id ds

-- select id from user_devices where user_id = ? and device_id = ? and is_active = 1 limit 1
unfoldable pub row_of_device : ℤ → Text → List DeviceRow → Option ℤ
row_of_device user_id device_id [] = none
row_of_device user_id device_id (d ∷ ds) =
    if d.user_id == user_id && (d.device_id == device_id && d.is_active)
    then some d.id
    else row_of_device user_id device_id ds
