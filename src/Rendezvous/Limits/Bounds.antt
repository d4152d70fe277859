-- ===== src/Rendezvous/Limits/Bounds.antt =====
-- On `check_ip_blocker` of src/rendezvous_server.rs.
use nat_server.Common.{
  ℕ, ◌+◌, ◌≤◌, ◌≡◌, ◌⊎◌, Bool, true, false, List, [], ◌∷◌, none, some, arith, length, inl, inr,
  Option-cases, list_has_eq,
}
use nat_server.Common.Map.{
  lookup, insert, lookup-insert_self, AllValues, insert-AllValues, lookup-AllValues,
}
use nat_server.Common.Text.{Text}
use nat_server.State.{BlockEntry, Server, Result, ok, after}
use nat_server.Rendezvous.Limits.{check_entry, check_ip_blocker}

-- One for a call that was let through.
abbrev passed : Result Bool → ℕ
passed (ok true) = 1
passed _ = 0

-- The counters of an entry stay small, so none of them overflows or grows without bound.
pub record IsBounded (e : BlockEntry) : Type 0 where
  pub registrations : e.counter.0 ≤ 31
  pub ids : length e.ids.0 ≤ 301

pub check_entry-IsBounded :
    (now : ℕ) (id : Text) (e : BlockEntry) → IsBounded e → IsBounded (check_entry now id e).1
unfolding check_entry
check_entry-IsBounded now id e b = ground arith

-- The entry of a new address.
new-IsBounded : (now : ℕ) → IsBounded (record { counter = (0, now); ids = ([], now) })
new-IsBounded now = omega arith

-- If every entry of the blocker counts at most 31 registrations and holds at most 301 ids, this is
-- so after every call, too.
pub check_ip_blocker-AllBounded :
    (ip id : Text) (s : Server)
    → AllValues IsBounded s.ip_blocker
    → AllValues IsBounded (after (check_ip_blocker ip id) s).ip_blocker
unfolding check_ip_blocker
check_ip_blocker-AllBounded ip id s all = elim (Option-cases (lookup ip s.ip_blocker)) [
  | inl e ↦
      rw (e, check_ip_blocker, AllValues)
        (insert-AllValues IsBounded ip _ s.ip_blocker (new-IsBounded s.now) all)
  | inr (old, e) ↦
      rw (e, check_ip_blocker, AllValues)
        (insert-AllValues IsBounded ip _ s.ip_blocker
          (check_entry-IsBounded s.now id old
            (lookup-AllValues IsBounded ip old s.ip_blocker all e))
          all)
]

-- How many of these attempts, each at a time and for an id, `check_ip_blocker` lets through.
pub admitted : Text → List (ℕ × Text) → Server → ℕ
admitted ip [] s = 0
admitted ip ((now, id) ∷ calls) s =
    let (r, s') = check_ip_blocker ip id (record s { now = now }) in passed r + admitted ip calls s'

-- All attempts are made within a minute of `t`, and not before it.
abbrev pub WithinMinute : ℕ → List (ℕ × Text) → Type 0
WithinMinute t [] = Unit
WithinMinute t ((now, id) ∷ calls) = (t ≤ now) × (now ≤ t + 60_000) × WithinMinute t calls

check_ip_blocker_found :
    (ip id : Text) (s : Server) (e : BlockEntry)
    → lookup ip s.ip_blocker ≡ some e
    → check_ip_blocker ip id s ≡ (
      ok (check_entry s.now id e).0,
      record s { ip_blocker = insert ip (check_entry s.now id e).1 s.ip_blocker },
    )
unfolding check_ip_blocker
check_ip_blocker_found ip id s e h = rw (h, check_ip_blocker)

check_ip_blocker_new :
    (ip id : Text) (s : Server)
    → lookup ip s.ip_blocker ≡ none
    → check_ip_blocker ip id s ≡ (
      ok true,
      record s {
        ip_blocker = insert ip (record { counter = (0, s.now); ids = ([], s.now) }) s.ip_blocker;
      },
    )
unfolding check_ip_blocker
check_ip_blocker_new ip id s h = rw (h, check_ip_blocker)

-- Within the minute an entry is left alone, or counts one more.
check_entry_within :
    (now : ℕ) (id : Text) (e : BlockEntry)
    → now ≤ e.counter.1 + 60_000
    → (check_entry now id e ≡ (false, e))
      ⊎ (((check_entry now id e).1.counter ≡ (e.counter.0 + 1, now)) × (e.counter.0 ≤ 30))
unfolding check_entry
check_entry_within now id e h = ground arith

admitted_from :
    (ip : Text) (calls : List (ℕ × Text)) (t : ℕ) (s : Server) (e : BlockEntry)
    → lookup ip s.ip_blocker ≡ some e
    → e.counter.0 ≤ 31
    → t ≤ e.counter.1
    → WithinMinute t calls
    → admitted ip calls s + e.counter.0 ≤ 31
unfolding admitted
admitted_from ip [] t s e found n le w = omega arith
admitted_from ip ((now, id) ∷ calls) t s e found n le (lo, hi, w) =
    let s' = record s { now = now } in
    let next : BlockEntry = (check_entry now id e).1 in
    let t' = record s' { ip_blocker = insert ip next s.ip_blocker } in
    let ih = admitted_from ip calls t t' next (lookup-insert_self ip next s.ip_blocker) in
    rw (check_ip_blocker_found ip id s' e found) (elim (check_entry_within now id e (omega arith)) [
      | inl same ↦ ground (arith, same, ih)
      | inr (count, low) ↦ ground (arith, ih)
    ])

-- Of the calls for an address that is new to the blocker, made within a minute of the first, at most
-- 32 are let through.
pub admitted-le :
    (ip id : Text) (t : ℕ) (calls : List (ℕ × Text)) (s : Server)
    → lookup ip s.ip_blocker ≡ none
    → WithinMinute t calls
    → admitted ip ((t, id) ∷ calls) s ≤ 32
unfolding admitted
admitted-le ip id t calls s new w =
    let s' = record s { now = t } in
    let e : BlockEntry = record { counter = (0, t); ids = ([], t) } in
    rw (check_ip_blocker_new ip id s' new) (
      omega (
        arith,
        admitted_from ip calls t (record s' { ip_blocker = insert ip e s.ip_blocker }) e
            (lookup-insert_self ip e s.ip_blocker) (omega arith) (omega arith) w,
      ))
