-- ===== src/Common/Text/Trim.antt =====
-- On trimming a text, and on splitting texts that are joined.
use mathlib.Core.List.{reverse, reverse-cons, reverse-append, reverse-reverse}
use nat_server.Common.{
  ℕ, false, true, [], ◌∷◌, ◌++◌, ◌≡◌, refl, ap, ◌∙◌, arith, contains, nat_has_eq, is_empty,
  Bool-cases, inl, inr,
}
use nat_server.Common.Text.{Text, is_whitespace, trim_start, trim_end, trim, split}

trim_start-append :
    (c : ℕ) (s : Text)
    → is_whitespace c ≡ false
    → trim_start (s ++ (c ∷ [])) ≡ trim_start s ++ (c ∷ [])
unfolding trim_start
trim_start-append c [] h = ground (arith, h)
trim_start-append c (x ∷ s) h = ground (arith, trim_start-append c s h)

pub reverse-append_last : (c : ℕ) (s : Text) → reverse (s ++ (c ∷ [])) ≡ c ∷ reverse s
reverse-append_last c s = reverse-append s (c ∷ [])

-- A text that does not begin with white space keeps its first character.
pub trim-cons : (c : ℕ) (s : Text) → is_whitespace c ≡ false → trim (c ∷ s) ≡ c ∷ trim_end s
unfolding trim trim_end trim_start
trim-cons c s h =
    let white_start : trim_start (c ∷ s) ≡ c ∷ s = ground (arith, h) in
    ap (λ x. reverse (trim_start (reverse x))) white_start
    ∙ ap (λ x. reverse (trim_start x)) (reverse-cons c s)
    ∙ ap reverse (trim_start-append c (reverse s) h)
    ∙ reverse-append_last c (trim_start (reverse s))

pub split-append :
    (sep : ℕ) (a b : Text) → contains sep a ≡ false → split sep (a ++ (sep ∷ b)) ≡ a ∷ split sep b
unfolding split
split-append sep [] b h = ground arith
split-append sep (c ∷ a) b h = ground (arith, split-append sep a b)

pub is_empty-eq : (s : Text) → is_empty s ≡ true → s ≡ []
is_empty-eq [] h = refl
is_empty-eq (c ∷ s) h = absurd (cc h)

trim_start-append_more :
    (a b : Text) → is_empty (trim_start a) ≡ false → trim_start (a ++ b) ≡ trim_start a ++ b
unfolding trim_start
trim_start-append_more [] b h = absurd (cc h)
trim_start-append_more (c ∷ a) b h = elim (Bool-cases (is_whitespace c)) [
  | inl white ↦ ground (arith, white, h, trim_start-append_more a b)
  | inr black ↦ ground (arith, black)
]

trim_end-there :
    (c : ℕ) (s : Text) → trim_end (c ∷ s) ≡ c ∷ s → is_empty (trim_start (reverse (c ∷ s))) ≡ false
unfolding trim_end
trim_end-there c s h = elim (Bool-cases (is_empty (trim_start (reverse (c ∷ s))))) [
  | inl none_left ↦
      let gone : reverse (trim_start (reverse (c ∷ s))) ≡ [] =
        ap reverse (is_empty-eq (trim_start (reverse (c ∷ s))) none_left) in
      absurd (cc (gone, h))
  | inr left ↦ left
]

-- What stands before a text that does not end in white space is kept.
pub trim_end-append :
    (a : Text) (c : ℕ) (s : Text)
    → trim_end (c ∷ s) ≡ c ∷ s
    → trim_end (a ++ (c ∷ s)) ≡ a ++ (c ∷ s)
unfolding trim_end
trim_end-append a c s h =
    ap (λ x. reverse (trim_start x)) (reverse-append a (c ∷ s))
    ∙ ap reverse (trim_start-append_more (reverse (c ∷ s)) (reverse a) (trim_end-there c s h))
    ∙ reverse-append (trim_start (reverse (c ∷ s))) (reverse a)
    ∙ ap (λ x. x ++ reverse (trim_start (reverse (c ∷ s)))) (reverse-reverse a)
    ∙ ap (λ x. a ++ x) h

pub trim-trim_end : (c : ℕ) (s : Text) → is_whitespace c ≡ false → trim (c ∷ s) ≡ trim_end (c ∷ s)
unfolding trim trim_end trim_start
trim-trim_end c s h =
    let kept : trim_start (c ∷ s) ≡ c ∷ s = ground (arith, h) in
    ap (λ x. reverse (trim_start (reverse x))) kept

pub split-plain : (sep : ℕ) (a : Text) → contains sep a ≡ false → split sep a ≡ a ∷ []
unfolding split
split-plain sep [] h = refl
split-plain sep (c ∷ a) h = ground (arith, split-plain sep a)
