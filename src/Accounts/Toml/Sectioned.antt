-- ===== src/Accounts/Toml/Sectioned.antt =====
-- On `update_sectioned_keys` of src/settings_api.rs, against `read_hbbr_toml`.
use nat_server.Common.{
  false, Option, none, List, [], ◌∷◌, contains, ◌==◌, nat_has_eq, list_has_eq, ◌≡◌, refl, sym, ap,
  ◌∙◌, arith, Bool-cases, Option-cases, ◌⊎◌, inl, inr,
}
use nat_server.Common.Map.{Map, lookup}
use nat_server.Common.Text.{Text}
use nat_server.Accounts.IpLists.{lines}
use nat_server.Accounts.Toml.{hbbr_format, Key, key_has_eq}
use nat_server.Accounts.Toml.Update.{
  add_to_section, add_missing, missing, update_lines, update_sectioned_keys, content_or_empty,
}
use nat_server.Accounts.Toml.Lines.{lines-NoFeeds}
use nat_server.Accounts.Toml.Assignment.{IsKey, IsValue}
use nat_server.Accounts.Toml.Values.{value, value-file_of, later}
use nat_server.Accounts.Toml.Updated.{
  AllUsable, update_lines-NoFeeds, value-update_lines, value-update_lines_other,
}
use nat_server.Accounts.Toml.Missing.{Distinct, lookup-missing, missing-Distinct, missing-AllUsable}
use nat_server.Accounts.Toml.Sections.{
  section_word, hbbr-HasWords, new_value, Free, value-add_to_section,
}
use nat_server.Accounts.Toml.Breaks.{
  AreLines, NoFeeds-AreLines, value-pieces, add_to_section-AreLines,
}

-- No line feed is in the sections' names.
abbrev pub PlainSections : Map Key Text → Type 0
PlainSections [] = Unit {0}
PlainSections ((p, v) ∷ us) = (contains 10 p.0 ≡ false) × PlainSections us

missing-PlainSections :
    (upd : List Key) (us : Map Key Text) → PlainSections us → PlainSections (missing upd us)
missing-PlainSections upd [] h = tt
missing-PlainSections upd ((p, v) ∷ us) (h, r) = elim (Bool-cases (contains p upd)) [
  | inl there ↦ rw there (missing-PlainSections upd us r)
  | inr gone ↦ rw gone (h, missing-PlainSections upd us r)
]

-- The key has no update, or is not in the lines yet.
abbrev Settled : Key → Map Key Text → List Text → Text → Type 0
Settled q us ls s = (lookup q us ≡ none) ⊎ (value hbbr_format q ls s none ≡ none)

later-new_value :
    (p q : Key) (w : Text) (us : Map Key Text) (old : Option Text)
    → lookup p us ≡ none
    → later (lookup q us) (later (new_value p q w) old) ≡ later (lookup q ((p, w) ∷ us)) old
unfolding lookup
later-new_value p q w us old absent = elim (Bool-cases (p == q)) [
  | inl hit ↦
      let absent' : lookup q us ≡ none = rw (sym ((key_has_eq.same_iff p q).0 hit)) absent in
      ground (arith, hit, absent')
  | inr miss ↦ ground (arith, miss)
]

Settled-Free :
    (p q : Key) (w : Text) (us : Map Key Text) (ls : List Text) (s : Text)
    → Settled q ((p, w) ∷ us) ls s
    → Free p q ls s
unfolding lookup
Settled-Free p q w us ls s (inr absent) = inr absent
Settled-Free p q w us ls s (inl h) = elim (Bool-cases (p == q)) [
  | inl hit ↦ absurd (ground (arith, hit, h))
  | inr miss ↦ inl miss
]

Settled-rest :
    (p q : Key) (w : Text) (us : Map Key Text) (ls : List Text) (s : Text)
    → IsKey p.1
    → IsValue w
    → lookup p us ≡ none
    → Settled q ((p, w) ∷ us) ls s
    → Settled q us (add_to_section p w ls) s
unfolding lookup
Settled-rest p q w us ls s key good absent settled = elim (Bool-cases (p == q)) [
  | inl hit ↦ inl (rw (sym ((key_has_eq.same_iff p q).0 hit)) absent)
  | inr miss ↦ elim settled [
    | inl h ↦ inl (ground (arith, miss, h))
    | inr h ↦
        let free = Settled-Free p q w us ls s (inr h) in
        inr (value-add_to_section p q w ls s none key good free ∙ ground (arith, miss, h))
  ]
]

value-add_missing :
    (q : Key) (us : Map Key Text) (ls : List Text) (s : Text) (old : Option Text)
    → AllUsable section_word us
    → Distinct us
    → Settled q us ls s
    → value hbbr_format q (add_missing us ls) s old
      ≡ later (lookup q us) (value hbbr_format q ls s old)
unfolding add_missing lookup
value-add_missing q [] ls s old h d settled = refl
value-add_missing q ((p, w) ∷ us) ls s old (key, good, r) (absent, d) settled =
    let free = Settled-Free p q w us ls s settled in
    value-add_missing q us (add_to_section p w ls) s old r d
      (Settled-rest p q w us ls s key good absent settled)
    ∙ ap (later (lookup q us)) (value-add_to_section p q w ls s old key good free)
    ∙ later-new_value p q w us (value hbbr_format q ls s old) absent

add_missing-AreLines :
    (us : Map Key Text) (ls : List Text)
    → AllUsable section_word us
    → PlainSections us
    → AreLines ls
    → AreLines (add_missing us ls)
unfolding add_missing
add_missing-AreLines [] ls h plain k = k
add_missing-AreLines ((p, w) ∷ us) ls (key, good, r) (plain, pr) k =
    add_missing-AreLines us (add_to_section p w ls) r pr
      (add_to_section-AreLines p w ls plain key good k)

updated_value :
    (q : Key) (us : Map Key Text) (ls : List Text) (s : Text) (old : Option Text)
    → AllUsable section_word us
    → Distinct us
    → let p = update_lines hbbr_format us s ls in
      value hbbr_format q (add_missing (missing p.1 us) p.0) s old
      ≡ later (lookup q us) (value hbbr_format q ls s old)
updated_value q us ls s old h d =
    let p = update_lines hbbr_format us s ls in
    let us' = missing p.1 us in
    let added = λ (settled : Settled q us' p.0 s).
      value-add_missing q us' p.0 s old (missing-AllUsable section_word p.1 us h)
        (missing-Distinct p.1 us d) settled in
    let gone = lookup-missing p.1 us q in
    elim (Option-cases (lookup q us)) [
      | inl absent ↦
          let settled : lookup q us' ≡ none = ground (arith, absent, gone) in
          let kept =
            value-update_lines_other hbbr_format section_word hbbr-HasWords us h q ls s old
              absent in
          added (inl settled) ∙ ground (arith, settled, absent, kept)
      | inr (v, found) ↦
          let set = λ (o : Option Text).
            value-update_lines hbbr_format section_word hbbr-HasWords us h q v ls s o found in
          elim (Bool-cases (contains q p.1)) [
            | inl there ↦
                let settled : lookup q us' ≡ none = ground (arith, there, gone) in
                added (inl settled) ∙ ground (arith, settled, found, there, set old)
            | inr new ↦
                let settled : value hbbr_format q p.0 s none ≡ none =
                  ground (arith, new, set none) in
                added (inr settled) ∙ ground (arith, found, new, gone)
          ]
    ]

-- What hbbr.toml says of a key after `update_sectioned_keys`: the new value where there is one, or else
-- what it said before, whatever the file holds.
pub value-update_sectioned_keys :
    (q : Key) (us : Map Key Text) (file : Option Text)
    → AllUsable section_word us
    → Distinct us
    → PlainSections us
    → value hbbr_format q (lines (update_sectioned_keys us file)) [] none
      ≡ later (lookup q us) (value hbbr_format q (lines (content_or_empty file)) [] none)
unfolding update_sectioned_keys
value-update_sectioned_keys q us file h d plain =
    let ls = lines (content_or_empty file) in
    let p = update_lines hbbr_format us [] ls in
    let us' = missing p.1 us in
    let feeds : AreLines (add_missing us' p.0) =
      add_missing-AreLines us' p.0 (missing-AllUsable section_word p.1 us h)
        (missing-PlainSections p.1 us plain)
        (NoFeeds-AreLines p.0 (
          update_lines-NoFeeds hbbr_format section_word hbbr-HasWords us h ls []
            (lines-NoFeeds (content_or_empty file)))) in
    value-file_of hbbr_format q (add_missing us' p.0) [] none refl
    ∙ value-pieces q (add_missing us' p.0) [] none feeds
    ∙ updated_value q us ls [] none h d
