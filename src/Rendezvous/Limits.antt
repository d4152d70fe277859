-- ===== src/Rendezvous/Limits.antt =====
-- The rate limits of src/rendezvous_server.rs: `check_ip_blocker`, and the limits on RegisterPk.
pub mod Bounds
pub mod Repeats
use nat_server.Common.{
  ℕ, ◌+◌, ◌-◌, ◌*◌, ◌/◌, ◌%◌, ◌^◌, Bool, true, false, not, Option, none, some, List, [], ◌∷◌, ltb,
  list_has_eq, nat_has_eq, if◌then◌else◌, length, contains,
}
use nat_server.Common.Map.{Map, lookup, insert}
use nat_server.Common.Text.{Text}
use nat_server.Net.{ip_has_eq, addr_has_eq}
use nat_server.State.{BlockEntry, ok, M, modify}

-- `Instant::elapsed().as_secs()`.
abbrev pub secs : ℕ → ℕ → ℕ
secs now t = (now - t) / 1000

abbrev pub ip_block_dur : ℕ
ip_block_dur = 60

abbrev pub day_seconds : ℕ
day_seconds = 3600 * 24

abbrev pub ip_change_dur : ℕ
ip_change_dur = 180

-- The first counter of `check_ip_blocker`: registrations of an address. `none` is a refusal.
unfoldable pub count_registration : ℕ → ℕ × ℕ → Option (ℕ × ℕ)
count_registration now (n, t) =
    if ltb ip_block_dur (secs now t)
    then some (1, now)
    else if ltb 30 n
    then none
    else some (n + 1, now)

-- The second counter: the ids that an address registers.
unfoldable pub count_id : ℕ → Text → List Text × ℕ → Bool × (List Text × ℕ)
count_id now id (ids, t) =
    let is_new = not (contains id ids) in
    if ltb day_seconds (secs now t)
    then (true, (if is_new then id ∷ [] else [], now))
    else if ltb 300 (length ids)
    then (not is_new, (ids, t))
    else (true, (if is_new then id ∷ ids else ids, now))

-- What `check_ip_blocker` does to the entry of an address.
unfoldable pub check_entry : ℕ → Text → BlockEntry → Bool × BlockEntry
unfolding count_registration count_id
check_entry now id old = elim (count_registration now old.counter) [
  | none ↦ (false, old)
  | some counter ↦
      let (allowed, ids) = count_id now id old.ids in
      (allowed, record { counter = counter; ids = ids })
]

-- `check_ip_blocker`: may this address register this id now?
unfoldable pub check_ip_blocker : Text → Text → M Bool
unfolding check_entry
check_ip_blocker ip id s = elim (lookup ip s.ip_blocker) [
  | none ↦ (
    ok true,
    record s {
      ip_blocker = insert ip (record { counter = (0, s.now); ids = ([], s.now) }) s.ip_blocker;
    },
  )
  | some old ↦
      let (allowed, new) = check_entry s.now id old in
      (ok allowed, record s { ip_blocker = insert ip new s.ip_blocker })
]

-- The limit on the RegisterPk of one peer.
unfoldable pub limit_reg_pk : ℕ → ℕ × ℕ → Option (ℕ × ℕ)
limit_reg_pk now (n, t) =
    if ltb 6 (secs now t) then some (1, now) else if ltb 2 n then none else some (n + 1, now)

-- An address change of a peer. The counts are i32, so they wrap.
unfoldable pub count_change : ℕ → Text → Option (ℕ × Map Text ℕ) → ℕ × Map Text ℕ
count_change now ip none = (now, (ip, 1) ∷ [])
count_change now ip (some (tm, ips)) =
    if ltb ip_change_dur (secs now tm) then (now, (ip, 1) ∷ []) else (
      tm,
      elim (lookup ip ips) [ none ↦ insert ip 1 ips | some v ↦ insert ip ((v + 1) % 2 ^ 32) ips ],
    )

unfoldable pub record_ip_change : Text → Text → M (Unit {0})
unfolding count_change
record_ip_change id ip = modify λ s. record s {
  ip_changes = insert id (count_change s.now ip (lookup id s.ip_changes)) s.ip_changes;
}
