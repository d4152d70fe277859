-- ===== src/Accounts/Devices/Binding.antt =====
-- On which device belongs to which user in src/database.rs.
use nat_server.Common.{
  ◌≡◌, Bool, ◌&&◌, ◌||◌, not, List, [], ◌∷◌, arith, ◌==◌, ltb, list_has_eq, list_eq_iff,
}
use nat_server.Common.Int.{ℤ, int_has_eq, eq_ℤ_iff}
use nat_server.Common.Text.{Text}
use nat_server.Accounts.Store.{UserDevice, count, delete_where}
use nat_server.Accounts.Devices.{is_device, is_bound_device}

-- Which user has which device.
abbrev pub Bindings : Type 0
Bindings = ℤ → Text → Bool

abbrev pub bindings : List UserDevice → Bindings
bindings ds user_id device_id = ltb 0 (count (is_bound_device user_id device_id) ds)

abbrev pub with_binding : ℤ → Text → Bindings → Bindings
with_binding user_id device_id b u d = (user_id == u && device_id == d) || b u d

abbrev pub less_binding : ℤ → Text → Bindings → Bindings
less_binding user_id device_id b u d = not (user_id == u && device_id == d) && b u d

pub deleted-bindings :
    (user_id : ℤ) (device_id : Text) (u : ℤ) (d : Text) (ds : List UserDevice)
    → bindings (delete_where (is_device user_id device_id) ds) u d
      ≡ less_binding user_id device_id (bindings ds) u d
unfolding count
deleted-bindings user_id device_id u d [] = ground arith
deleted-bindings user_id device_id u d (r ∷ ds) = ground (
  arith,
  deleted-bindings user_id device_id u d ds,
  eq_ℤ_iff r.user_id user_id,
  eq_ℤ_iff r.user_id u,
  eq_ℤ_iff user_id u,
  list_eq_iff r.device_id device_id,
  list_eq_iff r.device_id d,
  list_eq_iff device_id d,
)
