-- ===== src/Accounts/Toml/Tables.antt =====
-- On the names in the pages of the keys of config.toml and hbbr.toml.
use nat_server.Common.{
  true, false, Option, none, some, List, [], ◌∷◌, contains, ◌==◌, Eq, list_has_eq, list_eq_iff, ◌≡◌,
  refl, sym, ap, ◌∙◌, arith, Bool-cases, Option-cases, inl, inr,
}
use nat_server.Common.Map.{Map, lookup, lookup-AllValues, AllValues}
use nat_server.Common.Text.{Text}
use nat_server.Accounts.Toml.Update.{updates_of}
use nat_server.Accounts.Toml.Assignment.{IsKey, IsValue}
use nat_server.Accounts.Toml.Updated.{AllUsable}
use nat_server.Accounts.Toml.Missing.{Distinct}

abbrev pub names {ℓ} : {K : Type ℓ} → Map K Text → List Text
names [] = []
names ((q, name) ∷ table) = name ∷ names table

abbrev pub named : Option Text → Map Text Text → Option Text
named none params = none
named (some name) params = lookup name params

module _ {ℓ} {K : Type ℓ} ⦃e : Eq K⦄ where
  -- Neither a key nor a name stands twice in a table, and lines can hold its keys.
  abbrev pub IsTable : (K → Text) → Map K Text → Type 0
  IsTable word [] = Unit {0}
  IsTable word ((q, name) ∷ table) =
      (lookup q table ≡ none)
      × (contains name (names table) ≡ false)
      × IsKey (word q)
      × IsTable word table

  pub lookup-names :
      (table : Map K Text) (q : K) (name : Text)
      → lookup q table ≡ some name
      → contains name (names table) ≡ true
  unfolding lookup
  lookup-names [] q name h = absurd (cc h)
  lookup-names ((p, other) ∷ table) q name h = elim (Bool-cases (p == q)) [
    | inl hit ↦
        let same : other ≡ name = ground (arith, hit, h) in
        ground (arith, list_eq_iff other name, same)
    | inr miss ↦
        let later : lookup q table ≡ some name = ground (arith, miss, h) in
        ground (arith, lookup-names table q name later)
  ]

  not_twice :
      (table : Map K Text) (q : K) (name other : Text)
      → lookup q table ≡ some name
      → contains other (names table) ≡ false
      → other == name ≡ false
  not_twice table q name other h once = elim (Bool-cases (other == name)) [
    | inl same ↦
        let there : contains other (names table) ≡ true =
          rw ((list_eq_iff other name).0 same) (lookup-names table q name h) in
        absurd (cc (there, once))
    | inr distinct ↦ distinct
  ]

  pub IsTable-HasNames :
      (word : K → Text) (table : Map K Text) (p q : K) (name : Text)
      → IsTable word table
      → lookup p table ≡ some name
      → lookup q table ≡ some name
      → p ≡ q
  unfolding lookup
  IsTable-HasNames word [] p q name t h k = absurd (cc h)
  IsTable-HasNames word ((r, other) ∷ table) p q name (absent, once, key, t) h k =
      elim (Bool-cases (r == p)) [
        | inl hp ↦ elim (Bool-cases (r == q)) [
          | inl hq ↦ sym ((e.same_iff r p).0 hp) ∙ (e.same_iff r q).0 hq
          | inr mq ↦
              let is : other ≡ name = ground (arith, hp, h) in
              let there : lookup q table ≡ some name = ground (arith, mq, k) in
              let apart = not_twice table q name other there once in
              absurd (ground (arith, apart, list_eq_iff other name, is))
        ]
        | inr mp ↦
            let first : lookup p table ≡ some name = ground (arith, mp, h) in
            elim (Bool-cases (r == q)) [
              | inl hq ↦
                  let is : other ≡ name = ground (arith, hq, k) in
                  let apart = not_twice table p name other first once in
                  absurd (ground (arith, apart, list_eq_iff other name, is))
              | inr mq ↦ IsTable-HasNames word table p q name t first (ground (arith, mq, k))
            ]
      ]

  pub find_name :
      (word : K → Text) (table : Map K Text) (name : Text)
      → IsTable word table
      → contains name (names table) ≡ true
      → (q : K) × (lookup q table ≡ some name)
  unfolding lookup
  find_name word [] name t h = absurd (cc h)
  find_name word ((p, other) ∷ table) name (absent, once, key, t) h =
      elim (Bool-cases (other == name)) [
        | inl hit ↦ (p, ground (arith, e.same_iff p p, list_eq_iff other name, hit))
        | inr miss ↦
            let there : contains name (names table) ≡ true = ground (arith, miss, h) in
            let (q, found) = find_name word table name t there in
            elim (Bool-cases (p == q)) [
              | inl same ↦
                  let gone : lookup q table ≡ none = rw (sym ((e.same_iff p q).0 same)) absent in
                  absurd (cc (gone, found))
              | inr apart ↦ (q, ground (arith, apart, found))
            ]
      ]

  pub lookup-updates_of :
      (word : K → Text) (table : Map K Text) (params : Map Text Text) (q : K)
      → IsTable word table
      → lookup q (updates_of table params) ≡ named (lookup q table) params
  unfolding lookup updates_of
  lookup-updates_of word [] params q t = refl
  lookup-updates_of word ((p, name) ∷ table) params q (absent, once, key, t) =
      let rest = lookup-updates_of word table params q t in
      elim (Option-cases (lookup name params)) [
        | inl none_given ↦ elim (Bool-cases (p == q)) [
          | inl hit ↦
              let gone : lookup q table ≡ none = rw (sym ((e.same_iff p q).0 hit)) absent in
              ground (arith, none_given, hit, rest, gone)
          | inr miss ↦ ground (arith, none_given, miss, rest)
        ]
        | inr (v, given) ↦ ground (arith, given, rest)
      ]

  pub updates_of-Distinct :
      (word : K → Text) (table : Map K Text) (params : Map Text Text)
      → IsTable word table
      → Distinct (updates_of table params)
  unfolding updates_of
  updates_of-Distinct word [] params t = tt
  updates_of-Distinct word ((p, name) ∷ table) params (absent, once, key, t) =
      elim (Option-cases (lookup name params)) [
        | inl none_given ↦ rw none_given (updates_of-Distinct word table params t)
        | inr (v, given) ↦ rw given (
          lookup-updates_of word table params p t ∙ ap (λ o. named o params) absent,
          updates_of-Distinct word table params t,
        )
      ]

  pub updates_of-AllUsable :
      (word : K → Text) (table : Map K Text) (params : Map Text Text)
      → IsTable word table
      → AllValues IsValue params
      → AllUsable word (updates_of table params)
  unfolding updates_of
  updates_of-AllUsable word [] params t g = tt
  updates_of-AllUsable word ((p, name) ∷ table) params (absent, once, key, t) g =
      elim (Option-cases (lookup name params)) [
        | inl none_given ↦ rw none_given (updates_of-AllUsable word table params t g)
        | inr (v, given) ↦ rw given (
          key,
          lookup-AllValues IsValue name v params g given,
          updates_of-AllUsable word table params t g,
        )
      ]
