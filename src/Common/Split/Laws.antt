-- ===== src/Common/Split/Laws.antt =====
-- On splitting texts, and on reading a number from its decimal digits.
use nat_server.Common.{
  ℕ, zero, suc, ◌+◌, ◌-◌, ◌*◌, ◌/◌, ◌%◌, ◌<◌, ◌≡◌, refl, true, false, none, some, [], ◌∷◌, ◌++◌,
  arith, contains, nat_has_eq, ltb, if◌then◌else◌,
}
use nat_server.Common.Text.{Text, digits, digits_from, parse_unsigned, is_digit}
use nat_server.Common.Split.{split_once, rsplit_once, decimal_from, decimal}

pub split_once-append :
    (sep : ℕ) (a b : Text) → contains sep a ≡ false → split_once sep (a ++ (sep ∷ b)) ≡ some (a, b)
unfolding split_once
split_once-append sep [] b h = ground arith
split_once-append sep (c ∷ a) b h = ground (arith, split_once-append sep a b)

rsplit_once-none : (sep : ℕ) (a : Text) → contains sep a ≡ false → rsplit_once sep a ≡ none
unfolding rsplit_once
rsplit_once-none sep [] h = refl
rsplit_once-none sep (c ∷ a) h = ground (arith, rsplit_once-none sep a)

pub rsplit_once-append :
    (sep : ℕ) (a b : Text) → contains sep b ≡ false → rsplit_once sep (a ++ (sep ∷ b)) ≡ some (a, b)
unfolding rsplit_once
rsplit_once-append sep [] b h = ground (arith, rsplit_once-none sep b h)
rsplit_once-append sep (c ∷ a) b h = ground (arith, rsplit_once-append sep a b h)

digits_from-decimal_from :
    (fuel n : ℕ) (out : Text)
    → n < fuel
    → digits_from 0 (decimal_from fuel n out) ≡ digits_from n out
unfolding decimal_from digits_from
digits_from-decimal_from zero n out h = absurd (omega arith)
digits_from-decimal_from (suc fuel) n out h =
    ground (arith, digits_from-decimal_from fuel (n / 10) ((b'0' + n % 10) ∷ out))

-- Digits are no separator.
digits_from_plain :
    (acc n : ℕ) (s : Text) (sep : ℕ)
    → is_digit sep ≡ false
    → digits_from acc s ≡ some n
    → contains sep s ≡ false
unfolding digits_from
digits_from_plain acc n [] sep h q = refl
digits_from_plain acc n (c ∷ s) sep h q =
    ground (arith, digits_from_plain (acc * 10 + (c - b'0')) n s sep h)

digits-decimal : (n : ℕ) → digits_from 0 (decimal n) ≡ some n
unfolding decimal digits_from
digits-decimal n = digits_from-decimal_from (suc n) n [] (omega arith)

digits_from_head : (c acc n : ℕ) (s : Text) → digits_from acc (c ∷ s) ≡ some n → is_digit c ≡ true
unfolding digits_from
digits_from_head c acc n s q = ground arith

read_cases :
    (bound n : ℕ) (s : Text)
    → digits_from 0 s ≡ some n
    → 0 < n
    → parse_unsigned bound s ≡ (if ltb n bound then some n else none)
unfolding parse_unsigned digits digits_from
read_cases bound n [] q p = ground arith
read_cases bound n (c ∷ s) q p = ground (arith, digits_from_head c 0 n s q, q)

-- The decimal digits of a number that is not 0 are read as the number, if it is below the bound.
pub parse_unsigned-decimal_cases :
    (bound n : ℕ)
    → 0 < n
    → parse_unsigned bound (decimal n) ≡ (if ltb n bound then some n else none)
unfolding digits_from
parse_unsigned-decimal_cases bound n p = read_cases bound n (decimal n) (digits-decimal n) p

-- A number below the bound, and above 0, is read back from its decimal digits.
pub parse_unsigned-decimal :
    (bound n : ℕ) → n < bound → 0 < n → parse_unsigned bound (decimal n) ≡ some n
parse_unsigned-decimal bound n b p = ground (arith, parse_unsigned-decimal_cases bound n p)

pub decimal_plain : (n sep : ℕ) → is_digit sep ≡ false → contains sep (decimal n) ≡ false
decimal_plain n sep h = digits_from_plain 0 n (decimal n) sep h (digits-decimal n)
