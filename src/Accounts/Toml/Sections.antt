-- ===== src/Accounts/Toml/Sections.antt =====
-- On the keys that `update_sectioned_keys` of src/settings_api.rs adds to hbbr.toml.
use mathlib.Core.List.{reverse, reverse-reverse}
use nat_server.Common.{
  true, false, Option, none, some, List, [], ◌∷◌, ◌++◌, ◌==◌, drop, list_has_eq, list_eq_iff,
  if◌then◌else◌, ◌≡◌, refl, sym, ap, ◌∙◌, arith, Bool-cases, Option-cases, ◌⊎◌, inl, inr,
}
use nat_server.Common.Text.{Text, trim, trim_start, is_whitespace, trim_end}
use nat_server.Common.Text.Trim.{trim_end-append, reverse-append_last}
use nat_server.Accounts.IpLists.Loaded.{trim-plain}
use nat_server.Accounts.Toml.{
  item, opens_section, is_section, section_name, starts_with, hbbr_format, Key, key_has_eq,
  section_after,
}
use nat_server.Accounts.Toml.Update.{
  assignment, before_section, section_header, insert_in_section, add_to_section,
}
use nat_server.Accounts.Toml.Lines.{trim_start-white}
use nat_server.Accounts.Toml.Assignment.{IsKey, IsValue}
use nat_server.Accounts.Toml.Values.{value, value_item, later}
use nat_server.Accounts.Toml.Updated.{HasWords}
use nat_server.Accounts.Toml.Missing.{
  value-later, value-closed, section_after-item, rest_absent, item_header, value-assignment,
}

abbrev pub section_word : Key → Text
section_word q = q.1

is_section-closes : (t : Text) → opens_section t ≡ false → is_section t ≡ false
is_section-closes t h = ground (arith, h)

key_at-word : (s k : Text) (q : Key) → hbbr_format.key_at s k ≡ some q → section_word q ≡ k
key_at-word s k (t, j) h = ground arith

pub hbbr-HasWords : HasWords hbbr_format section_word
hbbr-HasWords = record { closes = is_section-closes; word_at = key_at-word }

pub trim-feed : (s : Text) → trim (10 ∷ s) ≡ trim s
unfolding trim is_whitespace
trim-feed s = ap (λ x. reverse (trim_start (reverse x))) (trim_start-white 10 s refl)

trim-section_header : (name : Text) → trim (section_header name) ≡ section_header name
unfolding is_whitespace trim_end trim_start
trim-section_header name =
    trim-plain (section_header name) refl (trim_end-append (b'[' ∷ name) b']' [] refl)

section_header-is_section : (name : Text) → is_section (section_header name) ≡ true
section_header-is_section name = ap (starts_with b']') (reverse-append_last b']' (b'[' ∷ name))

section_name-section_header : (name : Text) → section_name (section_header name) ≡ name
section_name-section_header name =
    ap (λ x. reverse (drop 1 x)) (reverse-append_last b']' name) ∙ reverse-reverse name

-- What is written for a key, where it is the one that is read.
abbrev pub new_value : Key → Key → Text → Option Text
new_value p q w = if p == q then some w else none

-- The key that is read is another one, or is not in the lines yet.
abbrev pub Free : Key → Key → List Text → Text → Type 0
Free p q ls s = (p == q ≡ false) ⊎ (value hbbr_format q ls s none ≡ none)

rest-Free :
    (p q : Key) (l : Text) (ls : List Text) (s : Text)
    → Free p q (l ∷ ls) s
    → Free p q ls (section_after hbbr_format (item is_section l) s)
rest-Free p q l ls s (inl h) = inl h
rest-Free p q l ls s (inr h) = inr (rest_absent hbbr_format q l ls s h)

closed-Free :
    (p q : Key) (l : Text) (ls : List Text) (s : Text)
    → is_section (trim l) ≡ false
    → Free p q (l ∷ ls) s
    → Free p q ls s
closed-Free p q l ls s closed (inl h) = inl h
closed-Free p q l ls s closed (inr h) = inr (
    ap (λ t. value hbbr_format q ls t none) (sym (section_after-item hbbr_format l s closed))
    ∙ rest_absent hbbr_format q l ls s h)

value-Free :
    (p q : Key) (w : Text) (ls : List Text) (s : Text) (old : Option Text)
    → Free p q ls s
    → value hbbr_format q ls s (if p == q then some w else old)
      ≡ later (new_value p q w) (value hbbr_format q ls s old)
value-Free p q w ls s old (inl h) = ground (arith, h)
value-Free p q w ls s old (inr h) = ground (
  arith,
  h,
  value-later hbbr_format q ls s old,
  value-later hbbr_format q ls s (if p == q then some w else old),
)

-- A line put at the end of the section in which these lines begin.
value-before_section :
    (q : Key) (name k w : Text) (ls : List Text) (old : Option Text)
    → IsKey k
    → IsValue w
    → Free (name, k) q ls name
    → value hbbr_format q (before_section (assignment k w ∷ []) ls) name old
      ≡ later (new_value (name, k) q w) (value hbbr_format q ls name old)
unfolding before_section
value-before_section q name k w [] old key good free =
    value-assignment hbbr_format section_word q k w name [] old hbbr-HasWords key good
    ∙ value-Free (name, k) q w [] name old free
value-before_section q name k w (l ∷ ls) old key good free =
    elim (Bool-cases (opens_section (trim l))) [
      | inl opening ↦ rw opening (
          value-assignment hbbr_format section_word q k w name (l ∷ ls) old hbbr-HasWords key good
          ∙ value-Free (name, k) q w (l ∷ ls) name old free)
      | inr unopened ↦
          let closed : is_section (trim l) ≡ false = is_section-closes (trim l) unopened in
          let old' = value_item hbbr_format q (item is_section l) name old in
          let free' : Free (name, k) q ls name = closed-Free (name, k) q l ls name closed free in
          rw unopened (
            value-closed hbbr_format q l (before_section (assignment k w ∷ []) ls) name old closed
            ∙ value-before_section q name k w ls old' key good free'
            ∙ ap (later (new_value (name, k) q w))
                (sym (value-closed hbbr_format q l ls name old closed)))
    ]

-- The line of a header begins its section.
value-header :
    (q : Key) (name l : Text) (ls : List Text) (s : Text) (old : Option Text)
    → trim l ≡ section_header name
    → value hbbr_format q (l ∷ ls) s old ≡ value hbbr_format q ls name old
unfolding value
value-header q name l ls s old h =
    let opening : is_section (trim l) ≡ true = rw h (section_header-is_section name) in
    ap
      (λ i.
        value hbbr_format q ls (section_after hbbr_format i s) (value_item hbbr_format q i s old))
      (item_header hbbr_format l opening)
    ∙ ap (λ t. value hbbr_format q ls (section_name t) old) h
    ∙ ap (λ t. value hbbr_format q ls t old) (section_name-section_header name)

Free-in_section :
    (q : Key) (name k l : Text) (ls : List Text) (s : Text)
    → trim l ≡ section_header name
    → Free (name, k) q (l ∷ ls) s
    → Free (name, k) q ls name
Free-in_section q name k l ls s h (inl other) = inl other
Free-in_section q name k l ls s h (inr absent) =
    inr (sym (value-header q name l ls s none h) ∙ absent)

value-insert_in_section :
    (q : Key) (name k w : Text) (ls xs : List Text) (s : Text) (old : Option Text)
    → IsKey k
    → IsValue w
    → Free (name, k) q ls s
    → insert_in_section (section_header name) (assignment k w) ls ≡ some xs
    → value hbbr_format q xs s old ≡ later (new_value (name, k) q w) (value hbbr_format q ls s old)
unfolding insert_in_section value
value-insert_in_section q name k w [] xs s old key good free found = absurd (cc found)
value-insert_in_section q name k w (l ∷ ls) xs s old key good free found =
    elim (Bool-cases (trim l == section_header name)) [
      | inl hit ↦
          let h : trim l ≡ section_header name =
            (list_eq_iff (trim l) (section_header name)).0 hit in
          let new : xs ≡ l ∷ before_section (assignment k w ∷ []) ls = ground (arith, hit, found) in
          ap (λ ys. value hbbr_format q ys s old) new
          ∙ value-header q name l (before_section (assignment k w ∷ []) ls) s old h
          ∙ value-before_section q name k w ls old key good (Free-in_section q name k l ls s h free)
          ∙ ap (later (new_value (name, k) q w)) (sym (value-header q name l ls s old h))
      | inr miss ↦
          elim (Option-cases (insert_in_section (section_header name) (assignment k w) ls)) [
            | inl nowhere ↦ absurd (ground (arith, miss, nowhere, found))
            | inr (ys, there) ↦
                let i = item is_section l in
                let new : xs ≡ l ∷ ys = ground (arith, miss, there, found) in
                ap (λ zs. value hbbr_format q zs s old) new
                ∙ value-insert_in_section q name k w ls ys (section_after hbbr_format i s)
                    (value_item hbbr_format q i s old) key good (rest-Free (name, k) q l ls s free)
                    there
          ]
    ]

-- A new section at the end.
value-new_section :
    (q : Key) (name k w : Text) (ls : List Text) (s : Text) (old : Option Text)
    → IsKey k
    → IsValue w
    → value hbbr_format q (ls ++ ((10 ∷ section_header name) ∷ assignment k w ∷ [])) s old
      ≡ later (new_value (name, k) q w) (value hbbr_format q ls s old)
unfolding value
value-new_section q name k w [] s old key good =
    value-header q name (10 ∷ section_header name) (assignment k w ∷ []) s old
      (trim-feed (section_header name) ∙ trim-section_header name)
    ∙ value-assignment hbbr_format section_word q k w name [] old hbbr-HasWords key good
    ∙ ground arith
value-new_section q name k w (l ∷ ls) s old key good =
    let i = item is_section l in
    value-new_section q name k w ls (section_after hbbr_format i s)
      (value_item hbbr_format q i s old) key good

pub value-add_to_section :
    (p q : Key) (w : Text) (ls : List Text) (s : Text) (old : Option Text)
    → IsKey p.1
    → IsValue w
    → Free p q ls s
    → value hbbr_format q (add_to_section p w ls) s old
      ≡ later (new_value p q w) (value hbbr_format q ls s old)
value-add_to_section (name, k) q w ls s old key good free =
    elim (Option-cases (insert_in_section (section_header name) (assignment k w) ls)) [
      | inl nowhere ↦ rw nowhere (value-new_section q name k w ls s old key good)
      | inr (xs, there) ↦
          rw there (value-insert_in_section q name k w ls xs s old key good free there)
    ]
