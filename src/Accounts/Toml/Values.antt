-- ===== src/Accounts/Toml/Values.antt =====
-- On the value of one key in config.toml or hbbr.toml, when its lines are read and changed.
use nat_server.Common.{
  Bool, false, Option, none, some, List, [], ◌∷◌, map, ◌==◌, Eq, if◌then◌else◌, ◌≡◌, refl, ap, ◌∙◌,
  arith, list_eq_iff, Bool-cases, Option-cases, inl, inr, list_has_eq,
}
use nat_server.Common.Map.{Map, lookup, lookup-insert}
use nat_server.Common.Text.{Text, trim, split}
use nat_server.Accounts.IpLists.{drop_return, lines}
use nat_server.Accounts.Toml.{
  Item, header, ignored, pair, item, Format, find_at, section_after, put_setting, read_item,
  read_lines,
}
use nat_server.Accounts.Toml.Update.{file_of}
use nat_server.Accounts.Toml.Lines.{item-drop_return, pieces, lines-file_of}

-- The second where there is one.
abbrev pub later {ℓ} : {A : Type ℓ} → Option A → Option A → Option A
later none old = old
later (some a) old = some a

module _ {ℓ} {S K : Type ℓ} ⦃e : Eq K⦄ (f : Format S K) where
  abbrev pub is_at : K → Option K → Bool
  is_at q none = false
  is_at q (some p) = p == q

  abbrev pub value_item : K → Item → S → Option Text → Option Text
  value_item q (pair k v) s old = if is_at q (f.key_at s k) then some v else old
  value_item q _ s old = old

  -- The last value of the key in these lines, or what there was before.
  unfoldable pub value : K → List Text → S → Option Text → Option Text
  value q [] s old = old
  value q (l ∷ ls) s old =
      let i = item f.is_header l in value q ls (section_after f i s) (value_item q i s old)

  -- No two keys have one name.
  abbrev pub HasNames : Map K Text → Type ℓ
  HasNames table =
      (p q : K) (name : Text) → lookup p table ≡ some name → lookup q table ≡ some name → p ≡ q

  lookup-put :
      (table : Map K Text) (q : K) (name : Text) (key : Option K) (v : Text) (m : Map Text Text)
      → HasNames table
      → lookup q table ≡ some name
      → lookup name (put_setting (find_at f table key) v m)
        ≡ (if is_at q key then some v else lookup name m)
  lookup-put table q name none v m only named = refl
  lookup-put table q name (some p) v m only named = elim (Option-cases (lookup p table)) [
    | inl h ↦ ground (arith, e.same_iff p q, h)
    | inr (other, h) ↦ elim (Bool-cases (p == q)) [
      | inl hit ↦
          let same : other ≡ name = cc ((e.same_iff p q).0 hit, h, named) in
          ground (arith, h, hit, lookup-insert other name v m, list_eq_iff other name, same)
      | inr miss ↦
          let distinct : (other ≡ name) → p ≡ q = λ t. only p q name (h ∙ ap some t) named in
          ground (
            arith,
            h,
            miss,
            lookup-insert other name v m,
            list_eq_iff other name,
            distinct,
            e.same_iff p q,
          )
    ]
  ]

  lookup-read_item :
      (table : Map K Text) (q : K) (name : Text) (i : Item) (s : S) (m : Map Text Text)
      → HasNames table
      → lookup q table ≡ some name
      → lookup name (read_item f table i s m) ≡ value_item q i s (lookup name m)
  lookup-read_item table q name (header t) s m only named = refl
  lookup-read_item table q name ignored s m only named = refl
  lookup-read_item table q name (pair k v) s m only named =
      lookup-put table q name (f.key_at s k) v m only named

  pub lookup-read_lines :
      (table : Map K Text) (q : K) (name : Text) (ls : List Text) (s : S) (m : Map Text Text)
      → HasNames table
      → lookup q table ≡ some name
      → lookup name (read_lines f table ls s m) ≡ value q ls s (lookup name m)
  unfolding read_lines value
  lookup-read_lines table q name [] s m only named = refl
  lookup-read_lines table q name (l ∷ ls) s m only named =
      let i = item f.is_header l in
      lookup-read_lines table q name ls (section_after f i s) (read_item f table i s m) only named
      ∙ ap (value q ls (section_after f i s)) (lookup-read_item table q name i s m only named)

  -- Carriage returns at the ends of lines do not count.
  value-drop_return :
      (q : K) (ls : List Text) (s : S) (old : Option Text)
      → value q (map drop_return ls) s old ≡ value q ls s old
  unfolding value
  value-drop_return q [] s old = refl
  value-drop_return q (l ∷ ls) s old =
      let i = item f.is_header l in
      ap (λ j. value q (map drop_return ls) (section_after f j s) (value_item q j s old))
        (item-drop_return f.is_header l)
      ∙ value-drop_return q ls (section_after f i s) (value_item q i s old)

  -- What is read from the file that was written.
  pub value-file_of :
      (q : K) (ls : List Text) (s : S) (old : Option Text)
      → f.is_header [] ≡ false
      → value q (lines (file_of ls)) s old ≡ value q (pieces ls) s old
  unfolding value item trim split drop_return
  value-file_of q [] s old none_opens = rw none_opens refl
  value-file_of q (l ∷ ls) s old none_opens =
      ap (λ xs. value q xs s old) (lines-file_of l ls) ∙ value-drop_return q (pieces (l ∷ ls)) s old
