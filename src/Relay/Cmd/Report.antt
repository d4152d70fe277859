-- ===== src/Relay/Cmd/Report.antt =====
-- On the usage report of src/relay_server.rs.
use mathlib.Core.List.{Perm}
use mathlib.Core.List.Perm
use nat_server.Common.{ℕ, ◌≤◌, inl, inr, List, [], ◌∷◌, arith, ltb, nat_eq, ◌||◌, Bool-cases}
use nat_server.Common.Text.{Text}
use nat_server.Relay.Types.{Usage}
use nat_server.Relay.Cmd.{insert_by_total, sort_by_total}

abbrev pub total_of : Text × Usage → ℕ
total_of (ip, (e, t, h, s)) = t

-- No total is above the one before it.
abbrev pub IsDescending : List (Text × Usage) → Type 0
IsDescending [] = Unit
IsDescending (u ∷ []) = Unit
IsDescending (u ∷ (v ∷ us)) = (total_of v ≤ total_of u) × IsDescending (v ∷ us)

insert_by_total-perm :
    (u : Text × Usage) (us : List (Text × Usage)) → Perm (insert_by_total u us) (u ∷ us)
unfolding insert_by_total
insert_by_total-perm u [] = Perm.refl _
insert_by_total-perm (ip, (e, t, h, s)) ((ip', (e', t', h', s')) ∷ us) =
    elim (Bool-cases (ltb t' t || nat_eq t' t)) [
      | inl before ↦ rw before (Perm.refl _)
      | inr after ↦
          rw after (
            Perm.trans (Perm.cons _ (insert_by_total-perm (ip, (e, t, h, s)) us)) (Perm.swap _ _ _))
    ]

insert_by_total-IsDescending :
    (u : Text × Usage) (us : List (Text × Usage))
    → IsDescending us
    → IsDescending (insert_by_total u us)
unfolding insert_by_total
insert_by_total-IsDescending u [] h = tt
insert_by_total-IsDescending (ip, (e, t, h, s)) ((ip', (e', t', h', s')) ∷ []) d = ground arith
insert_by_total-IsDescending (ip, (e, t, h, s))
      ((ip', (e', t', h', s')) ∷ ((ip2, (e2, t2, h2, s2)) ∷ us)) d =
    ground
      (arith, insert_by_total-IsDescending (ip, (e, t, h, s)) ((ip2, (e2, t2, h2, s2)) ∷ us) d.1)

-- The usage report is a permutation of the table, and no total in it is above the one before.
pub sort_by_total_lem :
    (us : List (Text × Usage)) → Perm (sort_by_total us) us × IsDescending (sort_by_total us)
unfolding sort_by_total
sort_by_total_lem [] = (Perm.refl _, tt)
sort_by_total_lem (u ∷ us) =
    let (p, d) = sort_by_total_lem us in
    (
      Perm.trans (insert_by_total-perm u (sort_by_total us)) (Perm.cons u p),
      insert_by_total-IsDescending u (sort_by_total us) d,
    )
