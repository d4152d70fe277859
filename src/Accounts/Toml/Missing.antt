-- ===== src/Accounts/Toml/Missing.antt =====
-- On the updates of keys that config.toml or hbbr.toml does not have, and on one line among others.
use nat_server.Common.{
  true, false, Option, none, some, List, [], ◌∷◌, contains, ◌==◌, Eq, if◌then◌else◌, ◌≡◌, refl, sym,
  ap, ◌∙◌, arith, Bool-cases, inl, inr,
}
use nat_server.Common.Map.{Map, lookup}
use nat_server.Common.Text.{Text, trim}
use nat_server.Accounts.Toml.{
  Item, header, ignored, pair, item, Format, section_after, pair_or_ignored, split_ini_kv,
}
use nat_server.Accounts.Toml.Update.{assignment, missing}
use nat_server.Accounts.Toml.Assignment.{IsKey, IsValue, item-assignment}
use nat_server.Accounts.Toml.Values.{is_at, value, value_item, later}
use nat_server.Accounts.Toml.Updated.{HasWords, AllUsable}

module _ {ℓ} {K : Type ℓ} ⦃e : Eq K⦄ where
  -- No key is updated twice.
  abbrev pub Distinct : Map K Text → Type 0
  Distinct [] = Unit {0}
  Distinct ((q, v) ∷ us) = (lookup q us ≡ none) × Distinct us

  pub lookup-missing :
      (upd : List K) (us : Map K Text) (q : K)
      → lookup q (missing upd us) ≡ (if contains q upd then none else lookup q us)
  unfolding lookup
  lookup-missing upd [] q = ground arith
  lookup-missing upd ((p, v) ∷ us) q = elim (Bool-cases (p == q)) [
    | inl hit ↦
        let same : contains p upd ≡ contains q upd =
          ap (λ k. contains k upd) ((e.same_iff p q).0 hit) in
        ground (arith, hit, same, lookup-missing upd us q)
    | inr miss ↦ ground (arith, miss, lookup-missing upd us q)
  ]

  pub missing-Distinct : (upd : List K) (us : Map K Text) → Distinct us → Distinct (missing upd us)
  missing-Distinct upd [] h = tt
  missing-Distinct upd ((p, v) ∷ us) (h, r) = elim (Bool-cases (contains p upd)) [
    | inl there ↦ rw there (missing-Distinct upd us r)
    | inr gone ↦
        rw gone (ground (arith, lookup-missing upd us p, gone, h), missing-Distinct upd us r)
  ]

  pub missing-AllUsable :
      (word : K → Text) (upd : List K) (us : Map K Text)
      → AllUsable word us
      → AllUsable word (missing upd us)
  missing-AllUsable word upd [] h = tt
  missing-AllUsable word upd ((p, v) ∷ us) (h, g, r) = elim (Bool-cases (contains p upd)) [
    | inl there ↦ rw there (missing-AllUsable word upd us r)
    | inr gone ↦ rw gone (h, g, missing-AllUsable word upd us r)
  ]

later-none {ℓ} : {A : Type ℓ} (a b : Option A) → later a b ≡ none → a ≡ none
later-none none b h = refl
later-none (some x) b h = absurd (cc h)

pub later-later {ℓ} : {A : Type ℓ} (a b c : Option A) → later (later a b) c ≡ later a (later b c)
later-later none b c = refl
later-later (some x) b c = refl

module _ {ℓ} {S K : Type ℓ} ⦃e : Eq K⦄ (f : Format S K) where
  value_item-later :
      (q : K) (i : Item) (s : S) (old : Option Text)
      → value_item f q i s old ≡ later (value_item f q i s none) old
  value_item-later q (header t) s old = refl
  value_item-later q ignored s old = refl
  value_item-later q (pair k v) s old = ground arith

  pub value-later :
      (q : K) (ls : List Text) (s : S) (old : Option Text)
      → value f q ls s old ≡ later (value f q ls s none) old
  unfolding value
  value-later q [] s old = refl
  value-later q (l ∷ ls) s old =
      let i = item f.is_header l in
      let t = section_after f i s in
      let new = value_item f q i s none in
      value-later q ls t (value_item f q i s old)
      ∙ ap (later (value f q ls t none)) (value_item-later q i s old)
      ∙ sym (later-later (value f q ls t none) new old)
      ∙ ap (λ x. later x old) (sym (value-later q ls t new))

  section_after-pair_or_ignored :
      (o : Option (Text × Text)) (s : S) → section_after f (pair_or_ignored o) s ≡ s
  section_after-pair_or_ignored none s = refl
  section_after-pair_or_ignored (some p) s = refl

  -- A line that is no header stays in the section.
  pub section_after-item :
      (l : Text) (s : S) → f.is_header (trim l) ≡ false → section_after f (item f.is_header l) s ≡ s
  unfolding item
  section_after-item l s h =
      ground (arith, h, section_after-pair_or_ignored (split_ini_kv (trim l)) s)

  pub value-closed :
      (q : K) (l : Text) (ls : List Text) (s : S) (old : Option Text)
      → f.is_header (trim l) ≡ false
      → value f q (l ∷ ls) s old ≡ value f q ls s (value_item f q (item f.is_header l) s old)
  unfolding value
  value-closed q l ls s old h =
      ap (λ t. value f q ls t (value_item f q (item f.is_header l) s old))
        (section_after-item l s h)

  -- A key that is nowhere is not in the rest.
  pub rest_absent :
      (q : K) (l : Text) (ls : List Text) (s : S)
      → value f q (l ∷ ls) s none ≡ none
      → value f q ls (section_after f (item f.is_header l) s) none ≡ none
  unfolding value
  rest_absent q l ls s h =
      let i = item f.is_header l in
      let t = section_after f i s in
      later-none (value f q ls t none) (value_item f q i s none)
        (sym (value-later q ls t (value_item f q i s none)) ∙ h)

  pub item_header : (l : Text) → f.is_header (trim l) ≡ true → item f.is_header l ≡ header (trim l)
  unfolding item
  item_header l h = ground (arith, h)

  -- A key that was not there has the value of its new line.
  pub value-assignment :
      (word : K → Text) (q : K) (k v : Text) (s : S) (ls : List Text) (old : Option Text)
      → HasWords f word
      → IsKey k
      → IsValue v
      → value f q (assignment k v ∷ ls) s old
        ≡ value f q ls s (if is_at f q (f.key_at s k) then some v else old)
  unfolding value
  value-assignment word q k v s ls old laws key good =
      ap (λ i. value f q ls (section_after f i s) (value_item f q i s old))
        (item-assignment f.is_header k v laws.closes key good)
