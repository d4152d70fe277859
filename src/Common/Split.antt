-- ===== src/Common/Split.antt =====
-- `str::split_once`, `rsplit_once`, `splitn`, `strip_prefix`, and a number in decimal digits.
pub mod Laws
use mathlib.Core.Option
use nat_server.Common.{
  ℕ, zero, suc, ◌+◌, ◌/◌, ◌%◌, Bool, true, false, Option, none, some, List, [], ◌∷◌, ltb, nat_eq,
  if◌then◌else◌,
}
use nat_server.Common.Text.{Text}

abbrev cons_first : ℕ → Text × Text → Text × Text
cons_first c (a, b) = (c ∷ a, b)

-- At the first separator.
unfoldable pub split_once : ℕ → Text → Option (Text × Text)
split_once sep [] = none
split_once sep (c ∷ s) =
    let rest = split_once sep s in
    if nat_eq c sep then some ([], s) else Option.map (cons_first c) rest

-- At the last separator.
unfoldable pub rsplit_once : ℕ → Text → Option (Text × Text)
rsplit_once sep [] = none
rsplit_once sep (c ∷ s) = elim (rsplit_once sep s) [
  | some p ↦ some (cons_first c p)
  | none ↦ if nat_eq c sep then some ([], s) else none
]

-- At most `n` pieces.
unfoldable pub splitn : ℕ → ℕ → Text → List Text
splitn zero sep s = []
splitn (suc zero) sep s = s ∷ []
splitn (suc (suc n)) sep s = elim (split_once sep s) [
  | none ↦ s ∷ []
  | some p ↦ p.0 ∷ splitn (suc n) sep p.1
]

unfoldable pub strip_prefix : Text → Text → Option Text
strip_prefix [] s = some s
strip_prefix (c ∷ p) [] = none
strip_prefix (c ∷ p) (d ∷ s) = let rest = strip_prefix p s in if nat_eq c d then rest else none

-- The digits of `n` in front of `out`, with fuel for as many rounds as `n` has digits.
unfoldable pub decimal_from : ℕ → ℕ → Text → Text
decimal_from zero n out = out
decimal_from (suc fuel) n out =
    let rest = decimal_from fuel (n / 10) ((b'0' + n % 10) ∷ out) in
    if ltb n 10 then (b'0' + n) ∷ out else rest

-- `{}` of an unsigned number.
unfoldable pub decimal : ℕ → Text
decimal n = decimal_from (suc n) n []
