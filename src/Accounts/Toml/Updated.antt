-- ===== src/Accounts/Toml/Updated.antt =====
-- On the lines of config.toml or hbbr.toml with new values, before missing keys are added.
use nat_server.Common.{
  Bool, false, ◌||◌, Option, none, some, List, [], ◌∷◌, contains, ◌==◌, Eq, if◌then◌else◌,
  unwrap_or, ◌≡◌, refl, sym, ap, ◌∙◌, arith, nat_has_eq, Bool-cases, Option-cases, inl, inr,
}
use nat_server.Common.Map.{Map, lookup}
use nat_server.Common.Text.{Text}
use nat_server.Accounts.Toml.{
  Item, header, ignored, pair, item, opens_section, Format, find_at, section_after,
}
use nat_server.Accounts.Toml.Update.{set_line, update_item, add_line, update_lines}
use nat_server.Accounts.Toml.Lines.{NoFeeds}
use nat_server.Accounts.Toml.Assignment.{IsKey, IsValue, item-assignment, assignment-no_feed}
use nat_server.Accounts.Toml.Values.{is_at, value, value_item}

-- The left side of the lines of a key is this word.
pub record HasWords {ℓ} {S K : Type ℓ} (f : Format S K) (word : K → Text) : Type ℓ where
  pub closes : (t : Text) → opens_section t ≡ false → f.is_header t ≡ false
  pub word_at : (s : S) (k : Text) (q : K) → f.key_at s k ≡ some q → word q ≡ k

module _ {ℓ} {K : Type ℓ} ⦃e : Eq K⦄ where
  -- Updates that lines can hold.
  abbrev pub AllUsable : (K → Text) → Map K Text → Type 0
  AllUsable word [] = Unit {0}
  AllUsable word ((q, v) ∷ us) = IsKey (word q) × IsValue v × AllUsable word us

  pub lookup-AllUsable :
      (word : K → Text) (us : Map K Text) (q : K) (v : Text)
      → AllUsable word us
      → lookup q us ≡ some v
      → IsKey (word q) × IsValue v
  unfolding lookup
  lookup-AllUsable word [] q v h found = absurd (cc found)
  lookup-AllUsable word ((p, w) ∷ us) q v (key, good, r) found = elim (Bool-cases (p == q)) [
    | inl hit ↦
        let same : w ≡ v = ground (arith, hit, found) in
        let same_key : p ≡ q = (e.same_iff p q).0 hit in (rw (sym same_key) key, rw (sym same) good)
    | inr miss ↦ lookup-AllUsable word us q v r (ground (arith, miss, found))
  ]

found_either {ℓ} :
    {A : Type ℓ} (b c : Bool) (x y : A)
    → (if c then x else (if b then x else y)) ≡ (if b || c then x else y)
found_either b c x y = ground arith

module _ {ℓ} {S K : Type ℓ} ⦃e : Eq K⦄ (f : Format S K) (word : K → Text) (laws : HasWords f word)
    (us : Map K Text) (usable : AllUsable word us) where
  -- The item of the new line.
  abbrev renewed : Item → S → Item
  renewed (pair k v) s = pair k (unwrap_or (find_at f us (f.key_at s k)) v)
  renewed i s = i

  item-set_line :
      (s : S) (k v l : Text) (key : Option K)
      → item f.is_header l ≡ pair k v
      → f.key_at s k ≡ key
      → item f.is_header (set_line f key k (find_at f us key) l).1
        ≡ pair k (unwrap_or (find_at f us key) v)
  item-set_line s k v l none i h = i
  item-set_line s k v l (some q) i h = elim (Option-cases (lookup q us)) [
    | inl absent ↦ rw absent i
    | inr (w, found) ↦
        let (key, good) = lookup-AllUsable word us q w usable found in
        let same : word q ≡ k = laws.word_at s k q h in
        rw found (item-assignment f.is_header k w laws.closes (rw (sym same) key) good)
  ]

  item-update_item :
      (i : Item) (s : S) (l : Text)
      → item f.is_header l ≡ i
      → item f.is_header (update_item f us i s l).1 ≡ renewed i s
  item-update_item (header t) s l h = h
  item-update_item ignored s l h = h
  item-update_item (pair k v) s l h = item-set_line s k v l (f.key_at s k) h refl

  section_after-renewed : (i : Item) (s : S) → section_after f (renewed i s) s ≡ section_after f i s
  section_after-renewed (header t) s = refl
  section_after-renewed ignored s = refl
  section_after-renewed (pair k v) s = refl

  value-set_line :
      (q : K) (v : Text) (k l u : Text) (key : Option K) (old : Option Text)
      → lookup q us ≡ some v
      → (if is_at f q key then some (unwrap_or (find_at f us key) u) else old)
        ≡ (if is_at f q (set_line f key k (find_at f us key) l).0 then some v else old)
  value-set_line q v k l u none old h = refl
  value-set_line q v k l u (some p) old h = elim (Bool-cases (p == q)) [
    | inl hit ↦
        let found : lookup p us ≡ some v = rw ((e.same_iff p q).0 hit) h in
        ground (arith, found, hit)
    | inr miss ↦ ground (arith, miss)
  ]

  value-renewed_found :
      (q : K) (v : Text) (i : Item) (s : S) (l : Text) (old : Option Text)
      → lookup q us ≡ some v
      → value_item f q (renewed i s) s old
        ≡ (if is_at f q (update_item f us i s l).0 then some v else old)
  value-renewed_found q v (header t) s l old h = refl
  value-renewed_found q v ignored s l old h = refl
  value-renewed_found q v (pair k u) s l old h = value-set_line q v k l u (f.key_at s k) old h

  value-set_other :
      (q : K) (u : Text) (key : Option K) (old : Option Text)
      → lookup q us ≡ none
      → (if is_at f q key then some (unwrap_or (find_at f us key) u) else old)
        ≡ (if is_at f q key then some u else old)
  value-set_other q u none old h = refl
  value-set_other q u (some p) old h = elim (Bool-cases (p == q)) [
    | inl hit ↦
        let absent : lookup p us ≡ none = rw ((e.same_iff p q).0 hit) h in
        ground (arith, absent, hit)
    | inr miss ↦ ground (arith, miss)
  ]

  value-renewed_other :
      (q : K) (i : Item) (s : S) (old : Option Text)
      → lookup q us ≡ none
      → value_item f q (renewed i s) s old ≡ value_item f q i s old
  value-renewed_other q (header t) s old h = refl
  value-renewed_other q ignored s old h = refl
  value-renewed_other q (pair k u) s old h = value-set_other q u (f.key_at s k) old h

  fst-add_line : (r : Option K × Text) (p : List Text × List K) → (add_line f r p).0 ≡ r.1 ∷ p.0
  fst-add_line (none, l) p = refl
  fst-add_line (some q, l) p = refl

  contains-add_line :
      (q : K) (r : Option K × Text) (p : List Text × List K)
      → contains q (add_line f r p).1 ≡ (is_at f q r.0 || contains q p.1)
  contains-add_line q (none, l) p = refl
  contains-add_line q (some k, l) p = refl

  -- One new line, then the others.
  value-update_line :
      (q : K) (l : Text) (ls : List Text) (s : S) (old : Option Text)
      → let i = item f.is_header l in
        value f q (update_lines f us s (l ∷ ls)).0 s old
        ≡ value f q
            (update_lines f us (section_after f i s) ls).0
            (section_after f i s)
            (value_item f q (renewed i s) s old)
  unfolding value update_lines
  value-update_line q l ls s old =
      let i = item f.is_header l in
      let p = update_lines f us (section_after f i s) ls in
      ap (λ xs. value f q xs s old) (fst-add_line (update_item f us i s l) p)
      ∙ ap (λ j. value f q p.0 (section_after f j s) (value_item f q j s old))
          (item-update_item i s l refl)
      ∙ ap (λ t. value f q p.0 t (value_item f q (renewed i s) s old)) (section_after-renewed i s)

  -- A key with a new value has it where the key is found.
  pub value-update_lines :
      (q : K) (v : Text) (ls : List Text) (s : S) (old : Option Text)
      → lookup q us ≡ some v
      → value f q (update_lines f us s ls).0 s old
        ≡ (if contains q (update_lines f us s ls).1 then some v else old)
  unfolding update_lines value
  value-update_lines q v [] s old h = refl
  value-update_lines q v (l ∷ ls) s old h =
      let i = item f.is_header l in
      let t = section_after f i s in
      let p = update_lines f us t ls in
      let r = update_item f us i s l in
      value-update_line q l ls s old
      ∙ ap (value f q p.0 t) (value-renewed_found q v i s l old h)
      ∙ value-update_lines q v ls t (if is_at f q r.0 then some v else old) h
      ∙ found_either (is_at f q r.0) (contains q p.1) (some v) old
      ∙ ap (λ b. if b then some v else old) (sym (contains-add_line q r p))

  -- All others keep theirs.
  pub value-update_lines_other :
      (q : K) (ls : List Text) (s : S) (old : Option Text)
      → lookup q us ≡ none
      → value f q (update_lines f us s ls).0 s old ≡ value f q ls s old
  unfolding update_lines value
  value-update_lines_other q [] s old h = refl
  value-update_lines_other q (l ∷ ls) s old h =
      let i = item f.is_header l in
      let t = section_after f i s in
      value-update_line q l ls s old
      ∙ ap (value f q (update_lines f us t ls).0 t) (value-renewed_other q i s old h)
      ∙ value-update_lines_other q ls t (value_item f q i s old) h

  set_line-no_feed :
      (s : S) (k l : Text) (key : Option K)
      → f.key_at s k ≡ key
      → contains 10 l ≡ false
      → contains 10 (set_line f key k (find_at f us key) l).1 ≡ false
  set_line-no_feed s k l none i h = h
  set_line-no_feed s k l (some q) i h = elim (Option-cases (lookup q us)) [
    | inl absent ↦ rw absent h
    | inr (w, found) ↦
        let (key, good) = lookup-AllUsable word us q w usable found in
        rw found (assignment-no_feed k w (rw (sym (laws.word_at s k q i)) key) good)
  ]

  update_item-no_feed :
      (i : Item) (s : S) (l : Text)
      → contains 10 l ≡ false
      → contains 10 (update_item f us i s l).1 ≡ false
  update_item-no_feed (header t) s l h = h
  update_item-no_feed ignored s l h = h
  update_item-no_feed (pair k v) s l h = set_line-no_feed s k l (f.key_at s k) refl h

  pub update_lines-NoFeeds :
      (ls : List Text) (s : S) → NoFeeds ls → NoFeeds (update_lines f us s ls).0
  unfolding update_lines
  update_lines-NoFeeds [] s h = tt
  update_lines-NoFeeds (l ∷ ls) s (h, r) =
      let i = item f.is_header l in
      let t = section_after f i s in
      rw (fst-add_line (update_item f us i s l) (update_lines f us t ls))
        (update_item-no_feed i s l h, update_lines-NoFeeds ls t r)
