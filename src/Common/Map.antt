-- ===== src/Common/Map.antt =====
-- `HashMap` as an association list. The order of a list of entries stands for the order in which
-- the hash table happens to iterate.
use mathlib.Core.Path.{subst}
use nat_server.Common.{
  ◌≡◌, refl, inl, inr, Option, none, some, List, [], ◌∷◌, arith, Eq, ◌==◌, if◌then◌else◌,
  Bool-cases,
}

abbrev pub Map {ℓ κ} : Type ℓ → Type κ → Type (ℓ ⊔ κ)
Map K V = List (K × V)

module _ {ℓ κ} {K : Type ℓ} {V : Type κ} where
  -- A property of every value.
  abbrev pub AllValues {μ} : (V → Type μ) → Map K V → Type μ
  AllValues P [] = Unit
  AllValues P ((j, v) ∷ m) = P v × AllValues P m

module _ {ℓ κ} {K : Type ℓ} {V : Type κ} ⦃e : Eq K⦄ where
  -- `get`.
  unfoldable pub lookup : K → Map K V → Option V
  lookup k [] = none
  lookup k ((k', v') ∷ rest) = if k' == k then some v' else lookup k rest

  -- `insert`: an entry of the same key is replaced where it stands.
  unfoldable pub insert : K → V → Map K V → Map K V
  insert k v [] = (k, v) ∷ []
  insert k v ((k', v') ∷ rest) = if k' == k then (k, v) ∷ rest else (k', v') ∷ insert k v rest

  -- `remove`.
  unfoldable pub remove : K → Map K V → Map K V
  remove k [] = []
  remove k ((k', v') ∷ rest) = if k' == k then remove k rest else (k', v') ∷ remove k rest

  pub lookup-insert :
      (k j : K) (v : V) (m : Map K V)
      → lookup j (insert k v m) ≡ (if k == j then some v else lookup j m)
  unfolding lookup insert
  lookup-insert k j v [] = refl
  lookup-insert k j v ((k', v') ∷ rest) =
      ground (arith, e.same_iff k j, e.same_iff k' k, e.same_iff k' j, lookup-insert k j v rest)

  pub lookup-remove :
      (k j : K) (m : Map K V) → lookup j (remove k m) ≡ (if k == j then none else lookup j m)
  unfolding lookup remove
  lookup-remove k j [] = ground arith
  lookup-remove k j ((k', v') ∷ rest) =
      ground (arith, e.same_iff k j, e.same_iff k' k, e.same_iff k' j, lookup-remove k j rest)

  pub lookup-insert_self : (k : K) (v : V) (m : Map K V) → lookup k (insert k v m) ≡ some v
  lookup-insert_self k v m = ground (arith, lookup-insert k k v m, e.same_iff k k)

  pub insert-AllValues {μ} :
      (P : V → Type μ) (k : K) (v : V) (m : Map K V)
      → P v
      → AllValues P m
      → AllValues P (insert k v m)
  unfolding insert
  insert-AllValues P k v [] h all = (h, tt)
  insert-AllValues P k v ((j, w) ∷ m) h all = elim (Bool-cases (j == k)) [
    | inl e ↦ rw e (h, all.1)
    | inr e ↦ rw e (all.0, insert-AllValues P k v m h all.1)
  ]

  pub lookup-AllValues {μ} :
      (P : V → Type μ) (k : K) (v : V) (m : Map K V) → AllValues P m → lookup k m ≡ some v → P v
  unfolding lookup
  lookup-AllValues P k v [] all h = cc
  lookup-AllValues P k v ((j, w) ∷ m) all h = elim (Bool-cases (j == k)) [
    | inl hit ↦ let q : w ≡ v = ground arith in subst P q all.0
    | inr miss ↦ lookup-AllValues P k v m all.1 (ground arith)
  ]
