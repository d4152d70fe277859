-- ===== src/Accounts/Devices/Limit.antt =====
-- On the limit of devices in `add_device_to_user` of src/database.rs.
use nat_server.Common.{
  ℕ, suc, ◌≤◌, ◌≡◌, refl, Bool, true, false, ◌&&◌, not, Option, none, some, List, [], ◌∷◌, arith,
  ◌==◌, ltb, list_has_eq, if◌then◌else◌, ◌∙◌, Bool-cases, inl, inr, ap,
}
use nat_server.Common.Int.{ℤ, pos, int_has_eq, ltb_ℤ, eq_ℤ_iff}
use nat_server.Common.Text.{Text}
use nat_server.State.{Result}
use nat_server.Accounts.Store.{User, UserDevice, Accounts, Sql, count, delete_where}
use nat_server.Accounts.Store.Monad.{Db, done, ◌>>=◌, ticked, written}
use nat_server.Accounts.Store.Works.{Works, count_then_lem, query_then_lem, execute_lem, bind_lem}
use nat_server.Accounts.Subscriptions.{
  get_user_device_limit, get_user_active_subscription, active_subscription, UserSubscription,
  free_device_limit,
}
use nat_server.Accounts.Devices.{
  CreateDeviceRequest, is_active_device, is_device, is_bound_device, insert_device, insert_if_new,
  add_within, add_to_user, add_device_to_user,
}
use nat_server.Accounts.Devices.Binding.{bindings}
use nat_server.Accounts.Devices.Refinement.{succeeded}

-- The limit of a user's plan at the time.
abbrev pub limit_of : Sql → ℤ → Accounts → ℤ
limit_of e user_id s = elim (active_subscription user_id (e.datetime s.now) s) [
  | none ↦ free_device_limit
  | some u ↦ u.device_limit
]

abbrev pub devices_of : ℤ → Accounts → ℕ
devices_of user_id s = count (is_active_device user_id) s.user_devices

abbrev pub is_active_user : ℤ → User → Bool
is_active_user user_id u = u.id == user_id && u.is_active

-- May the device be added: the user is active, has fewer devices than the limit, if there is one, and
-- not this one?
abbrev pub may_add : Sql → CreateDeviceRequest → Accounts → Bool
may_add e r s =
    ltb 0 (count (is_active_user r.user_id) s.users)
    && (not (
          ltb_ℤ (pos 0) (limit_of e r.user_id s)
          && not (ltb_ℤ (pos (devices_of r.user_id s)) (limit_of e r.user_id s)))
        && not (bindings s.user_devices r.user_id r.device_id))

-- The answer, and how many active devices the user has then.
abbrev pub outcome : {A : Type 0} → ℤ → Result A × Accounts → Bool × ℕ
outcome user_id o = (succeeded o.0, devices_of user_id o.1)

abbrev pub expected : Bool → ℕ → Bool × ℕ
expected b n = (b, if b then suc n else n)

present :
    (user_id : ℤ) (us : List User)
    → count (is_active_user user_id) us ≤ count (λ u. u.id == user_id) us
unfolding count
present user_id [] = omega arith
present user_id (u ∷ us) = ground (arith, present user_id us)

-- The row that is replaced was not active.
replaced :
    (user_id : ℤ) (device_id : Text) (ds : List UserDevice)
    → bindings ds user_id device_id ≡ false
    → count (is_active_device user_id) (delete_where (is_device user_id device_id) ds)
      ≡ count (is_active_device user_id) ds
unfolding count
replaced user_id device_id [] h = refl
replaced user_id device_id (d ∷ ds) h = ground (arith, replaced user_id device_id ds)

outcome-insert_device :
    (r : CreateDeviceRequest) (s : Accounts)
    → ltb 0 (count (is_active_user r.user_id) s.users) ≡ true
    → bindings s.user_devices r.user_id r.device_id ≡ false
    → outcome r.user_id (written (insert_device r s) s) ≡ expected true (devices_of r.user_id s)
unfolding insert_device count
outcome-insert_device r s h k = ground (
  arith,
  present r.user_id s.users,
  replaced r.user_id r.device_id s.user_devices k,
  eq_ℤ_iff r.user_id r.user_id,
)

module _ (e : Sql) (w : Works e) (r : CreateDeviceRequest) where
  outcome-insert_if_new :
      (s : Accounts)
      → ltb 0 (count (is_active_user r.user_id) s.users) ≡ true
      → outcome r.user_id
          (insert_if_new e r (count (is_bound_device r.user_id r.device_id) s.user_devices) s)
        ≡ expected (not (bindings s.user_devices r.user_id r.device_id)) (devices_of r.user_id s)
  unfolding insert_if_new
  outcome-insert_if_new s h = elim (Bool-cases (bindings s.user_devices r.user_id r.device_id)) [
    | inl y ↦ rw y refl
    | inr x ↦ rw x (
        ap (outcome r.user_id) (execute_lem e w (insert_device r) s)
        ∙ outcome-insert_device r s h x)
  ]

  outcome-add_within :
      (s : Accounts)
      → ltb 0 (count (is_active_user r.user_id) s.users) ≡ true
      → outcome r.user_id (add_within e r (devices_of r.user_id s) (limit_of e r.user_id s) s)
        ≡ expected
            (not (
                ltb_ℤ (pos 0) (limit_of e r.user_id s)
                && not (ltb_ℤ (pos (devices_of r.user_id s)) (limit_of e r.user_id s)))
              && not (bindings s.user_devices r.user_id r.device_id))
            (devices_of r.user_id s)
  unfolding add_within
  outcome-add_within s h =
      elim (Bool-cases (
        ltb_ℤ (pos 0) (limit_of e r.user_id s)
        && not (ltb_ℤ (pos (devices_of r.user_id s)) (limit_of e r.user_id s)))) [
          | inl y ↦ rw y refl
          | inr x ↦ rw x (
              ap (outcome r.user_id) (
                count_then_lem e w
                  (λ s. count (is_bound_device r.user_id r.device_id) s.user_devices)
                  (insert_if_new e r) s)
              ∙ outcome-insert_if_new (ticked s) h)
        ]

  limit_then_lem :
      (k : ℤ → Db ℤ) (s : Accounts)
      → (get_user_device_limit e r.user_id >>= k) s ≡ k (limit_of e r.user_id s) (ticked s)
  unfolding get_user_device_limit get_user_active_subscription
  limit_then_lem k s =
      bind_lem (get_user_device_limit e r.user_id) k s (ticked s) (limit_of e r.user_id s) (
        query_then_lem e w (λ s. active_subscription r.user_id (e.datetime s.now) s)
          (λ (sub : Option UserSubscription).
            done (elim sub [ none ↦ free_device_limit | some u ↦ u.device_limit ]))
          s)

  outcome-add_to_user :
      (s : Accounts)
      → outcome r.user_id (add_to_user e r (count (is_active_user r.user_id) s.users) s)
        ≡ expected (may_add e r s) (devices_of r.user_id s)
  unfolding add_to_user add_within count active_subscription
  outcome-add_to_user s = elim (Bool-cases (ltb 0 (count (is_active_user r.user_id) s.users))) [
    | inl y ↦ rw y (
        ap (outcome r.user_id) (
          count_then_lem e w (λ s. count (is_active_device r.user_id) s.user_devices)
            (λ n. get_user_device_limit e r.user_id >>= add_within e r n) s
          ∙ limit_then_lem (add_within e r (devices_of r.user_id s)) (ticked s))
        ∙ outcome-add_within (ticked (ticked s)) y)
    | inr x ↦ rw x refl
  ]

-- Where the database answers, a device is added exactly if the user is active, has fewer devices
-- than the plan's limit (or the limit is 0 or less) and does not have this one already; then the user
-- has one active device more, and else as many as before.
pub outcome-add_device_to_user :
    (e : Sql) (r : CreateDeviceRequest) (s : Accounts)
    → Works e
    → outcome r.user_id (add_device_to_user e r s)
      ≡ expected (may_add e r s) (devices_of r.user_id s)
unfolding add_device_to_user active_subscription
outcome-add_device_to_user e r s w =
    ap (outcome r.user_id) (
      count_then_lem e w (λ s. count (λ u. u.id == r.user_id && u.is_active) s.users)
        (add_to_user e r) s)
    ∙ outcome-add_to_user e w r (ticked s)
