-- ===== src/Accounts/Toml/Names.antt =====
-- On reading config.toml and hbbr.toml by the names in the pages.
use nat_server.Common.{
  true, false, Option, none, some, List, [], ◌∷◌, contains, ◌==◌, Eq, list_has_eq, list_eq_iff,
  if◌then◌else◌, ◌≡◌, refl, sym, ◌∙◌, arith, Bool-cases, Option-cases, inl, inr,
}
use nat_server.Common.Map.{Map, lookup, lookup-insert}
use nat_server.Common.Text.{Text}
use nat_server.Accounts.Toml.{
  Item, header, ignored, pair, item, Format, find_at, section_after, put_setting, read_item,
  read_lines,
}
use nat_server.Accounts.Toml.Update.{updates_of}
use nat_server.Accounts.Toml.Values.{HasNames, value, later, lookup-read_lines}
use nat_server.Accounts.Toml.Tables.{
  names, IsTable, IsTable-HasNames, find_name, lookup-names, lookup-updates_of,
}

module _ {ℓ} {S K : Type ℓ} ⦃e : Eq K⦄ (f : Format S K) where
  lookup-put_other :
      (table : Map K Text) (name : Text) (key : Option K) (v : Text) (m : Map Text Text)
      → contains name (names table) ≡ false
      → lookup name (put_setting (find_at f table key) v m) ≡ lookup name m
  lookup-put_other table name none v m gone = refl
  lookup-put_other table name (some q) v m gone = elim (Option-cases (lookup q table)) [
    | inl none_there ↦ rw none_there refl
    | inr (other, h) ↦
        let apart : other == name ≡ false = elim (Bool-cases (other == name)) [
          | inl same ↦
              let there : contains name (names table) ≡ true =
                rw (sym ((list_eq_iff other name).0 same)) (lookup-names table q other h) in
              absurd (cc (there, gone))
          | inr distinct ↦ distinct
        ] in
        ground (arith, h, lookup-insert other name v m, apart)
  ]

  lookup-read_item_other :
      (table : Map K Text) (name : Text) (i : Item) (s : S) (m : Map Text Text)
      → contains name (names table) ≡ false
      → lookup name (read_item f table i s m) ≡ lookup name m
  lookup-read_item_other table name (header t) s m gone = refl
  lookup-read_item_other table name ignored s m gone = refl
  lookup-read_item_other table name (pair k v) s m gone =
      lookup-put_other table name (f.key_at s k) v m gone

  -- Names of no key of the file are not read from it.
  pub lookup-read_lines_other :
      (table : Map K Text) (name : Text) (ls : List Text) (s : S) (m : Map Text Text)
      → contains name (names table) ≡ false
      → lookup name (read_lines f table ls s m) ≡ lookup name m
  unfolding read_lines
  lookup-read_lines_other table name [] s m gone = refl
  lookup-read_lines_other table name (l ∷ ls) s m gone =
      let i = item f.is_header l in
      lookup-read_lines_other table name ls (section_after f i s) (read_item f table i s m) gone
      ∙ lookup-read_item_other table name i s m gone

  -- Lines in which each key has got its update.
  pub lookup-read_lines_updated :
      (word : K → Text) (table : Map K Text) (params : Map Text Text) (name : Text) (s : S)
      (ls ls' : List Text)
      → IsTable word table
      → ((q : K)
          → value f q ls' s none ≡ later (lookup q (updates_of table params)) (value f q ls s none))
      → let old = lookup name (read_lines f table ls s []) in
        lookup name (read_lines f table ls' s [])
        ≡ (if contains name (names table) then later (lookup name params) old else old)
  unfolding lookup
  lookup-read_lines_updated word table params name s ls ls' t updated =
      elim (Bool-cases (contains name (names table))) [
        | inl there ↦
            let (q, found) = find_name word table name t there in
            let only : HasNames f table = λ p r n h k. IsTable-HasNames word table p r n t h k in
            let new = lookup-updates_of word table params q t in
            ground (
              arith,
              there,
              lookup-read_lines f table q name ls' s [] only found,
              lookup-read_lines f table q name ls s [] only found,
              updated q,
              new,
              found,
            )
        | inr gone ↦ ground (
          arith,
          gone,
          lookup-read_lines_other table name ls' s [] gone,
          lookup-read_lines_other table name ls s [] gone,
        )
      ]
