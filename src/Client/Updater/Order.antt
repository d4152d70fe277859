-- ===== src/Client/Updater/Order.antt =====
-- On the order of versions in nat-client/src/updater.rs.
use nat_server.Common.{
  ℕ, ◌≡◌, refl, Bool, true, false, not, ◌&&◌, ◌||◌, List, [], ◌∷◌, arith, list_eq, ◌==◌,
  list_has_eq, sym,
}
use nat_server.Common.Text.{Text}
use nat_server.Client.Updater.{parse_version, vec_greater, is_newer}

-- Exactly one of: the first is greater, the second is, they are the same.
trichotomy : (a b : List ℕ) → not (vec_greater b a || a == b) ≡ vec_greater a b
unfolding vec_greater list_eq
trichotomy [] [] = refl
trichotomy [] (y ∷ b) = refl
trichotomy (x ∷ a) [] = refl
trichotomy (x ∷ a) (y ∷ b) = ground (arith, trichotomy a b)

transitive :
    (a b c : List ℕ) → vec_greater a b ≡ true → vec_greater b c ≡ true → vec_greater a c ≡ true
unfolding vec_greater
transitive [] b c h k = cc
transitive (x ∷ a) [] c h k = cc
transitive (x ∷ a) (y ∷ b) [] h k = refl
transitive (x ∷ a) (y ∷ b) (z ∷ c) h k = ground (arith, transitive a b c)

-- Of two versions, one is newer exactly if the other is neither newer nor made of the same numbers.
pub is_newer_total :
    (a b : Text) → is_newer a b ≡ not (is_newer b a || parse_version a == parse_version b)
unfolding is_newer
is_newer_total a b = sym (trichotomy (parse_version a) (parse_version b))

-- Each version of a chain is newer than the one before.
abbrev pub newer_chain : Text → List Text → Bool
newer_chain a [] = true
newer_chain a (b ∷ cs) = is_newer b a && newer_chain b cs

abbrev pub last_of : Text → List Text → Text
last_of b [] = b
last_of b (c ∷ cs) = last_of c cs

newer_then :
    (a b : Text) (cs : List Text)
    → is_newer b a ≡ true
    → newer_chain b cs ≡ true
    → is_newer (last_of b cs) a ≡ true
unfolding is_newer
newer_then a b [] h k = h
newer_then a b (c ∷ cs) h k =
    newer_then a c cs
      (transitive (parse_version c) (parse_version b) (parse_version a) (ground arith) h)
      (ground arith)

-- Updates do not go round in a circle: after updates that were each found newer than the version
-- before, the last version is newer than the first, and the first is not newer than the last.
pub is_newer_chain :
    (a b : Text) (cs : List Text)
    → newer_chain a (b ∷ cs) ≡ true
    → (is_newer (last_of b cs) a ≡ true) × (is_newer a (last_of b cs) ≡ false)
is_newer_chain a b cs h =
    let newer = newer_then a b cs (ground arith) (ground arith) in
    (newer, ground (arith, is_newer_total a (last_of b cs)))
