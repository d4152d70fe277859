-- ===== src/Accounts/Toml/Breaks.antt =====
-- On the line feeds that `update_sectioned_keys` of src/settings_api.rs writes: a new section is one text
-- with a line feed before its header.
use nat_server.Common.{
  false, Option, some, List, [], ◌∷◌, ◌++◌, contains, ◌==◌, nat_has_eq, list_has_eq, ◌≡◌, refl, sym,
  ap, ◌∙◌, arith, Bool-cases, Option-cases, ◌⊎◌, inl, inr,
}
use nat_server.Common.Text.{Text, trim, split}
use nat_server.Common.Text.Trim.{split-plain, split-append}
use nat_server.Accounts.IpLists.RoundTrip.{contains-append}
use nat_server.Accounts.Toml.{
  item, opens_section, is_section, hbbr_format, Key, key_has_eq, section_after,
}
use nat_server.Accounts.Toml.Update.{
  assignment, before_section, section_header, insert_in_section, add_to_section,
}
use nat_server.Accounts.Toml.Lines.{NoFeeds, pieces}
use nat_server.Accounts.Toml.Assignment.{IsKey, IsValue, assignment-no_feed}
use nat_server.Accounts.Toml.Values.{value, value_item}
use nat_server.Accounts.Toml.Sections.{trim-feed}

-- No line feed, or one in front.
abbrev pub IsLine : Text → Type 0
IsLine l = (contains 10 l ≡ false) ⊎ ((x : Text) × (l ≡ 10 ∷ x) × (contains 10 x ≡ false))

abbrev pub AreLines : List Text → Type 0
AreLines [] = Unit {0}
AreLines (l ∷ ls) = IsLine l × AreLines ls

pub NoFeeds-AreLines : (ls : List Text) → NoFeeds ls → AreLines ls
NoFeeds-AreLines [] h = tt
NoFeeds-AreLines (l ∷ ls) (h, r) = (inl h, NoFeeds-AreLines ls r)

value_blank :
    (q : Key) (ls : List Text) (s : Text) (old : Option Text)
    → value hbbr_format q ([] ∷ ls) s old ≡ value hbbr_format q ls s old
unfolding value item trim
value_blank q ls s old = refl

value_feed :
    (q : Key) (x : Text) (ls : List Text) (s : Text) (old : Option Text)
    → value hbbr_format q ((10 ∷ x) ∷ ls) s old ≡ value hbbr_format q (x ∷ ls) s old
unfolding value item
value_feed q x ls s old = rw (trim-feed x) refl

value-pieces_line :
    (q : Key) (l : Text) (ls : List Text) (s : Text) (old : Option Text)
    → IsLine l
    → value hbbr_format q (split 10 l ++ ls) s old ≡ value hbbr_format q (l ∷ ls) s old
value-pieces_line q l ls s old (inl h) = rw (split-plain 10 l h) refl
value-pieces_line q l ls s old (inr (x, e, h)) =
    let cut : split 10 l ≡ [] ∷ x ∷ [] =
      ap (split 10) e ∙ split-append 10 [] x refl ∙ ap (λ xs. [] ∷ xs) (split-plain 10 x h) in
    ap (λ xs. value hbbr_format q (xs ++ ls) s old) cut
    ∙ value_blank q (x ∷ ls) s old
    ∙ sym (value_feed q x ls s old)
    ∙ ap (λ y. value hbbr_format q (y ∷ ls) s old) (sym e)

pub value-pieces :
    (q : Key) (ls : List Text) (s : Text) (old : Option Text)
    → AreLines ls
    → value hbbr_format q (pieces ls) s old ≡ value hbbr_format q ls s old
unfolding value
value-pieces q [] s old h = refl
value-pieces q (l ∷ ls) s old (h, r) =
    value-pieces_line q l (pieces ls) s old h
    ∙ value-pieces q ls (section_after hbbr_format (item is_section l) s)
        (value_item hbbr_format q (item is_section l) s old) r

before_section-AreLines :
    (new : Text) (ls : List Text)
    → contains 10 new ≡ false
    → AreLines ls
    → AreLines (before_section (new ∷ []) ls)
unfolding before_section
before_section-AreLines new [] h k = (inl h, tt)
before_section-AreLines new (l ∷ ls) h (k, r) = elim (Bool-cases (opens_section (trim l))) [
  | inl e ↦ rw e (inl h, (k, r))
  | inr e ↦ rw e (k, before_section-AreLines new ls h r)
]

insert_in_section-AreLines :
    (name new : Text) (ls xs : List Text)
    → contains 10 new ≡ false
    → AreLines ls
    → insert_in_section name new ls ≡ some xs
    → AreLines xs
unfolding insert_in_section
insert_in_section-AreLines name new [] xs h k found = absurd (cc found)
insert_in_section-AreLines name new (l ∷ ls) xs h (k, r) found =
    elim (Bool-cases (trim l == name)) [
      | inl hit ↦
          let is : xs ≡ l ∷ before_section (new ∷ []) ls = ground (arith, hit, found) in
          rw is (k, before_section-AreLines new ls h r)
      | inr miss ↦ elim (Option-cases (insert_in_section name new ls)) [
        | inl nowhere ↦ absurd (ground (arith, miss, nowhere, found))
        | inr (ys, there) ↦
            let is : xs ≡ l ∷ ys = ground (arith, miss, there, found) in
            rw is (k, insert_in_section-AreLines name new ls ys h r there)
      ]
    ]

append-AreLines : (a b : List Text) → AreLines a → AreLines b → AreLines (a ++ b)
append-AreLines [] b h k = k
append-AreLines (x ∷ a) b (h, r) k = (h, append-AreLines a b r k)

pub add_to_section-AreLines :
    (p : Key) (w : Text) (ls : List Text)
    → contains 10 p.0 ≡ false
    → IsKey p.1
    → IsValue w
    → AreLines ls
    → AreLines (add_to_section p w ls)
add_to_section-AreLines (name, k) w ls plain key good h =
    let new = assignment-no_feed k w key good in
    elim (Option-cases (insert_in_section (section_header name) (assignment k w) ls)) [
      | inl nowhere ↦
          let head : contains 10 (section_header name) ≡ false =
            ground (arith, contains-append 10 name (b']' ∷ []), plain) in
          rw nowhere (
            append-AreLines ls ((10 ∷ section_header name) ∷ assignment k w ∷ []) h
              (inr (section_header name, refl, head), (inl new, tt)))
      | inr (xs, there) ↦
          rw there
            (insert_in_section-AreLines (section_header name) (assignment k w) ls xs new h there)
    ]
