-- ===== src/Accounts/Devices/Refinement.antt =====
-- On the methods of src/database.rs that bind devices, as operations on a set of pairs.
use nat_server.Common.{
  ℕ, suc, ◌≡◌, refl, Bool, true, false, ◌&&◌, not, Option, none, some, List, [], ◌∷◌, arith, ◌==◌,
  ltb, list_has_eq, list_eq, ◌∙◌, list_eq_iff, if◌then◌else◌, Bool-cases, inl, inr,
}
use nat_server.Common.Int.{ℤ, pos, int_has_eq, ltb_ℤ, eq_ℤ_iff}
use nat_server.Common.Text.{Text}
use nat_server.State.{Result, ok, err}
use nat_server.Accounts.Store.{UserDevice, Accounts, Sql, count}
use nat_server.Accounts.Store.Monad.{done, ◌>>=◌, query, count_or_zero, execute}
use nat_server.Accounts.Store.Ends.{Ends, bind-Ends, execute-Ends, query-Ends, count_or_zero-Ends}
use nat_server.Accounts.Subscriptions.{
  get_user_device_limit, get_user_active_subscription, active_subscription, UserSubscription,
  free_device_limit,
}
use nat_server.Accounts.Devices.{
  CreateDeviceRequest, is_active_device, is_bound_device, insert_device, unbind_rows, insert_if_new,
  add_within, add_to_user, add_device_to_user, remove_device_from_user,
}
use nat_server.Accounts.Devices.Binding.{Bindings, bindings, with_binding, deleted-bindings}

-- The two sets agree on every pair.
abbrev pub Agrees : Bindings → Bindings → Type 0
Agrees b c = (u : ℤ) (d : Text) → b u d ≡ c u d

module _ (e : Sql) (r : CreateDeviceRequest) (ds : List UserDevice) where
  -- The devices are as before, or with the new one.
  abbrev Same : Accounts → Type 0
  Same t = t.user_devices ≡ ds

  abbrev Added : ℤ → Accounts → Type 0
  Added _ t = Agrees (bindings t.user_devices) (with_binding r.user_id r.device_id (bindings ds))

  insert_device-Added :
      (s : Accounts)
      → Same s
      → (id : ℤ) (t : Accounts) → insert_device r s ≡ some (id, t)
      → Added id (record t { calls = suc s.calls })
  unfolding insert_device count
  insert_device-Added s h id t q u d = ground (
    arith,
    deleted-bindings r.user_id r.device_id u d s.user_devices,
    eq_ℤ_iff r.user_id u,
    list_eq_iff r.device_id d,
  )

  insert_if_new-Ends : (n : ℕ) (s : Accounts) → Same s → Ends Added Same (insert_if_new e r n s)
  unfolding insert_if_new
  insert_if_new-Ends n s h = elim (Bool-cases (ltb 0 n)) [
    | inl y ↦ rw y h
    | inr x ↦ rw x (execute-Ends e Added Same (insert_device r) s h (insert_device-Added s h))
  ]

  add_within-Ends :
      (n : ℕ) (limit : ℤ) (s : Accounts) → Same s → Ends Added Same (add_within e r n limit s)
  unfolding add_within
  add_within-Ends n limit s h =
      elim (Bool-cases (ltb_ℤ (pos 0) limit && not (ltb_ℤ (pos n) limit))) [
        | inl y ↦ rw y h
        | inr x ↦ rw x (
            bind-Ends (λ _ t. Same t) Added Same
              (count_or_zero e (λ s. count (is_bound_device r.user_id r.device_id) s.user_devices))
              (insert_if_new e r) s
              (count_or_zero-Ends e (λ _ t. Same t) Same
                (λ s. count (is_bound_device r.user_id r.device_id) s.user_devices) s h h h)
              insert_if_new-Ends)
      ]

  limit-Ends :
      (s : Accounts) → Same s → Ends (λ _ t. Same t) Same (get_user_device_limit e r.user_id s)
  unfolding get_user_device_limit get_user_active_subscription
  limit-Ends s h =
      bind-Ends (λ _ t. Same t) (λ _ t. Same t) Same
        (query e (λ s. active_subscription r.user_id (e.datetime s.now) s))
        (λ (sub : Option UserSubscription).
          done (elim sub [ none ↦ free_device_limit | some u ↦ u.device_limit ]))
        s
        (query-Ends e (λ _ t. Same t) Same (λ s. active_subscription r.user_id (e.datetime s.now) s)
          s h h)
        (λ a t k. k)

  add_to_user-Ends : (n : ℕ) (s : Accounts) → Same s → Ends Added Same (add_to_user e r n s)
  unfolding add_to_user
  add_to_user-Ends n s h = elim (Bool-cases (ltb 0 n)) [
    | inl y ↦ rw y (
        bind-Ends (λ _ t. Same t) Added Same
          (count_or_zero e (λ s. count (is_active_device r.user_id) s.user_devices))
          (λ m. get_user_device_limit e r.user_id >>= add_within e r m) s
          (count_or_zero-Ends e (λ _ t. Same t) Same
            (λ s. count (is_active_device r.user_id) s.user_devices) s h h h)
          (λ m t k.
            bind-Ends (λ _ t. Same t) Added Same (get_user_device_limit e r.user_id)
              (add_within e r m) t (limit-Ends t k) (add_within-Ends m)))
    | inr x ↦ rw x h
  ]

  add_device-Ends : (s : Accounts) → Same s → Ends Added Same (add_device_to_user e r s)
  unfolding add_device_to_user
  add_device-Ends s h =
      bind-Ends (λ _ t. Same t) Added Same
        (count_or_zero e (λ s. count (λ u. u.id == r.user_id && u.is_active) s.users))
        (add_to_user e r) s
        (count_or_zero-Ends e (λ _ t. Same t) Same
          (λ s. count (λ u. u.id == r.user_id && u.is_active) s.users) s h h h)
        add_to_user-Ends

-- A call that changes bindings.
pub data DeviceCall : Type 0 where
  add_call : CreateDeviceRequest → DeviceCall
  remove_call : ℤ → Text → DeviceCall

-- Whether the call was answered without an error, and the database after it.
abbrev pub succeeded : {A : Type 0} → Result A → Bool
succeeded (ok a) = true
succeeded (err x) = false

abbrev pub call_device : Sql → DeviceCall → Accounts → Bool × Accounts
call_device e (add_call r) s = let (o, t) = add_device_to_user e r s in (succeeded o, t)
call_device e (remove_call u d) s = let (o, t) = remove_device_from_user e u d s in (succeeded o, t)

-- What a call does to the set of pairs: an addition that succeeds adds its pair, and else nothing.
abbrev pub set_call : DeviceCall → Bool → Bindings → Bindings
set_call (add_call r) true b = with_binding r.user_id r.device_id b
set_call _ _ b = b

abbrev pub call_devices : Sql → List DeviceCall → Accounts → Accounts
call_devices e [] s = s
call_devices e (c ∷ cs) s = call_devices e cs (call_device e c s).1

-- The same calls on a set of pairs, with the successes of the calls on the database.
abbrev pub set_calls : Sql → List DeviceCall → Accounts → Bindings → Bindings
set_calls e [] s b = b
set_calls e (c ∷ cs) s b = let (done, t) = call_device e c s in set_calls e cs t (set_call c done b)

-- How many removals succeed.
abbrev pub removals : Sql → List DeviceCall → Accounts → ℕ
removals e [] s = 0
removals e (add_call r ∷ cs) s = removals e cs (call_device e (add_call r) s).1
removals e (remove_call u d ∷ cs) s =
    let (done, t) = call_device e (remove_call u d) s in
    let rest = removals e cs t in if done then suc rest else rest

add-Agrees :
    (r : CreateDeviceRequest) (ds : List UserDevice) (o : Result ℤ × Accounts)
    → Ends
        (λ _ t. Agrees (bindings t.user_devices) (with_binding r.user_id r.device_id (bindings ds)))
        (λ t. t.user_devices ≡ ds)
        o
    → Agrees (bindings o.1.user_devices) (set_call (add_call r) (succeeded o.0) (bindings ds))
add-Agrees r ds (ok id, t) h = h
add-Agrees r ds (err x, t) h = λ u d. rw h refl

-- A removal is an error, and changes no device.
remove_device-Fails :
    (e : Sql) (u : ℤ) (d : Text) (s : Accounts)
    → let (done, t) = call_device e (remove_call u d) s in
      (done ≡ false) × (t.user_devices ≡ s.user_devices)
unfolding remove_device_from_user execute unbind_rows list_eq
remove_device-Fails e u d s = ground arith

call_device-Agrees :
    (e : Sql) (c : DeviceCall) (s : Accounts)
    → Agrees
        (bindings (call_device e c s).1.user_devices)
        (set_call c (call_device e c s).0 (bindings s.user_devices))
call_device-Agrees e (add_call r) s =
    add-Agrees r s.user_devices (add_device_to_user e r s)
      (add_device-Ends e r s.user_devices s refl)
call_device-Agrees e (remove_call u d) s = λ x y. rw ((remove_device-Fails e u d s).1) refl

set_call-Agrees :
    (c : DeviceCall) (done : Bool) (b b' : Bindings)
    → Agrees b b'
    → Agrees (set_call c done b) (set_call c done b')
set_call-Agrees (add_call r) false b b' h u d = h u d
set_call-Agrees (add_call r) true b b' h u d = ground (arith, h u d)
set_call-Agrees (remove_call u' d') done b b' h u d = h u d

removals-none : (e : Sql) (cs : List DeviceCall) (s : Accounts) → removals e cs s ≡ 0
removals-none e [] s = refl
removals-none e (add_call r ∷ cs) s = removals-none e cs (call_device e (add_call r) s).1
removals-none e (remove_call u d ∷ cs) s =
    rw (remove_device-Fails e u d s).0 (removals-none e cs (call_device e (remove_call u d) s).1)

-- The table of devices is a set of pairs of user and device that only grows: over any sequence of calls
-- that add and remove devices, whatever fails, it holds what the set holds when the additions that
-- succeeded add their pair, and no removal succeeds.
pub call_devices-Agrees :
    (e : Sql) (cs : List DeviceCall) (s : Accounts) (b : Bindings)
    → Agrees (bindings s.user_devices) b
    → Agrees (bindings (call_devices e cs s).user_devices) (set_calls e cs s b)
      × (removals e cs s ≡ 0)
call_devices-Agrees e [] s b h = (h, refl)
call_devices-Agrees e (c ∷ cs) s b h = (
  (call_devices-Agrees e cs (call_device e c s).1 (set_call c (call_device e c s).0 b)
      (λ u d. call_device-Agrees e c s u d ∙ set_call-Agrees c (call_device e c s).0 _ b h u d)).0,
  removals-none e (c ∷ cs) s,
)
