-- ===== src/Accounts/Toml/Flat.antt =====
-- On `update_flat_keys` of src/settings_api.rs, against `read_config_toml`.
use mathlib.Core.List.{append-nil}
use nat_server.Common.{
  Bool, true, false, Option, none, some, List, [], ◌∷◌, ◌++◌, ◌==◌, list_has_eq, list_eq_iff,
  nat_has_eq, if◌then◌else◌, ◌≡◌, refl, sym, ap, ◌∙◌, arith, Bool-cases, Option-cases, inl, inr,
}
use nat_server.Common.Map.{Map, lookup}
use nat_server.Common.Text.{Text, trim}
use nat_server.Accounts.IpLists.{lines}
use nat_server.Accounts.Toml.{
  Item, header, ignored, pair, item, opens_section, flat_key, config_format, section_after,
}
use nat_server.Accounts.Toml.Update.{
  assignments, missing, update_lines, before_section, content_or_empty, update_flat_keys,
}
use nat_server.Accounts.Toml.Lines.{NoFeeds, lines-NoFeeds, pieces-NoFeeds, append-NoFeeds}
use nat_server.Accounts.Toml.Assignment.{assignment-no_feed}
use nat_server.Accounts.Toml.Values.{value, value_item, value-file_of, later}
use nat_server.Accounts.Toml.Updated.{
  HasWords, AllUsable, update_lines-NoFeeds, value-update_lines, value-update_lines_other,
}
use nat_server.Accounts.Toml.Missing.{
  Distinct, lookup-missing, missing-Distinct, missing-AllUsable, value-closed, item_header,
  value-assignment,
}

-- The key itself.
abbrev pub key_word : Text → Text
key_word k = k

flat_key-word : (s : Bool) (k q : Text) → flat_key s k ≡ some q → q ≡ k
flat_key-word true k q h = absurd (cc h)
flat_key-word false k q h = ground arith

config-HasWords : HasWords config_format key_word
config-HasWords = record { closes = λ t h. h; word_at = flat_key-word }

value_item_in_section :
    (q : Text) (i : Item) (old : Option Text) → value_item config_format q i true old ≡ old
value_item_in_section q (header t) old = refl
value_item_in_section q ignored old = refl
value_item_in_section q (pair k v) old = refl

section_after_in_section : (i : Item) → section_after config_format i true ≡ true
section_after_in_section (header t) = refl
section_after_in_section ignored = refl
section_after_in_section (pair k v) = refl

-- Nothing counts once a section has begun.
value_in_section :
    (q : Text) (ls : List Text) (old : Option Text) → value config_format q ls true old ≡ old
unfolding value
value_in_section q [] old = refl
value_in_section q (l ∷ ls) old =
    let i = item opens_section l in
    ap (λ s. value config_format q ls s (value_item config_format q i true old))
      (section_after_in_section i)
    ∙ value_in_section q ls (value_item config_format q i true old)
    ∙ value_item_in_section q i old

later_distinct :
    (k q v : Text) (us : Map Text Text) (old : Option Text)
    → lookup k us ≡ none
    → later (lookup q us) (if k == q then some v else old)
      ≡ later (if k == q then some v else lookup q us) old
later_distinct k q v us old absent = elim (Bool-cases (k == q)) [
  | inl hit ↦
      let absent' : lookup q us ≡ none = rw (sym ((list_eq_iff k q).0 hit)) absent in
      ground (arith, hit, absent')
  | inr miss ↦ ground (arith, miss)
]

value-assignments :
    (q : Text) (us : Map Text Text) (ls : List Text) (old : Option Text)
    → AllUsable key_word us
    → Distinct us
    → value config_format q (assignments us ++ ls) false old
      ≡ value config_format q ls false (later (lookup q us) old)
unfolding lookup
value-assignments q [] ls old h d = refl
value-assignments q ((k, v) ∷ us) ls old (key, good, r) (absent, d) =
    value-assignment config_format key_word q k v false (assignments us ++ ls) old config-HasWords
      key good
    ∙ value-assignments q us ls (if k == q then some v else old) r d
    ∙ ap (value config_format q ls false) (later_distinct k q v us old absent)

value-opening :
    (q l : Text) (ls : List Text) (old : Option Text)
    → opens_section (trim l) ≡ true
    → value config_format q (l ∷ ls) false old ≡ old
unfolding value
value-opening q l ls old h =
    ap
      (λ i.
        value config_format q ls (section_after config_format i false)
          (value_item config_format q i false old))
      (item_header config_format l h)
    ∙ value_in_section q ls old

-- Lines before the first section count after those that stood there.
value-before_section :
    (q : Text) (us : Map Text Text) (ls : List Text) (old : Option Text)
    → AllUsable key_word us
    → Distinct us
    → value config_format q (before_section (assignments us) ls) false old
      ≡ later (lookup q us) (value config_format q ls false old)
unfolding before_section value
value-before_section q us [] old h d =
    ap (λ ls. value config_format q ls false old) (sym (append-nil (assignments us)))
    ∙ value-assignments q us [] old h d
value-before_section q us (l ∷ ls) old h d = elim (Bool-cases (opens_section (trim l))) [
  | inl opening ↦ rw opening (
      value-assignments q us (l ∷ ls) old h d
      ∙ value-opening q l ls (later (lookup q us) old) opening
      ∙ ap (later (lookup q us)) (sym (value-opening q l ls old opening)))
  | inr closed ↦ rw closed (
      value-closed config_format q l (before_section (assignments us) ls) false old closed
      ∙ value-before_section q us ls (value_item config_format q (item opens_section l) false old) h
          d
      ∙ ap (later (lookup q us)) (sym (value-closed config_format q l ls false old closed)))
]

updated_value :
    (q : Text) (us : Map Text Text) (ls : List Text) (old : Option Text)
    → AllUsable key_word us
    → Distinct us
    → let p = update_lines config_format us false ls in
      value config_format q (before_section (assignments (missing p.1 us)) p.0) false old
      ≡ later (lookup q us) (value config_format q ls false old)
updated_value q us ls old h d =
    let p = update_lines config_format us false ls in
    value-before_section q (missing p.1 us) p.0 old (missing-AllUsable key_word p.1 us h)
      (missing-Distinct p.1 us d)
    ∙ elim (Option-cases (lookup q us)) [
      | inl absent ↦ ground (
        arith,
        absent,
        lookup-missing p.1 us q,
        value-update_lines_other config_format key_word config-HasWords us h q ls false old absent,
      )
      | inr (v, found) ↦ ground (
        arith,
        found,
        lookup-missing p.1 us q,
        value-update_lines config_format key_word config-HasWords us h q v ls false old found,
      )
    ]

before_section-NoFeeds :
    (ex ls : List Text) → NoFeeds ex → NoFeeds ls → NoFeeds (before_section ex ls)
unfolding before_section
before_section-NoFeeds ex [] h k = h
before_section-NoFeeds ex (l ∷ ls) h (k, r) = elim (Bool-cases (opens_section (trim l))) [
  | inl e ↦ rw e (append-NoFeeds ex (l ∷ ls) h (k, r))
  | inr e ↦ rw e (k, before_section-NoFeeds ex ls h r)
]

assignments-NoFeeds : (us : Map Text Text) → AllUsable key_word us → NoFeeds (assignments us)
assignments-NoFeeds [] h = tt
assignments-NoFeeds ((k, v) ∷ us) (key, good, r) =
    (assignment-no_feed k v key good, assignments-NoFeeds us r)

-- What config.toml says of a key after `update_flat_keys`: the new value where there is one, or else
-- what it said before, whatever the file holds.
pub value-update_flat_keys :
    (q : Text) (us : Map Text Text) (file : Option Text)
    → AllUsable key_word us
    → Distinct us
    → value config_format q (lines (update_flat_keys us file)) false none
      ≡ later (lookup q us) (value config_format q (lines (content_or_empty file)) false none)
unfolding update_flat_keys
value-update_flat_keys q us file h d =
    let ls = lines (content_or_empty file) in
    let p = update_lines config_format us false ls in
    let ex = assignments (missing p.1 us) in
    let no_feeds : NoFeeds (before_section ex p.0) =
      before_section-NoFeeds ex p.0
        (assignments-NoFeeds (missing p.1 us) (missing-AllUsable key_word p.1 us h))
        (update_lines-NoFeeds config_format key_word config-HasWords us h ls false
          (lines-NoFeeds (content_or_empty file))) in
    value-file_of config_format q (before_section ex p.0) false none refl
    ∙ ap (λ xs. value config_format q xs false none)
        (pieces-NoFeeds (before_section ex p.0) no_feeds)
    ∙ updated_value q us ls none h d
