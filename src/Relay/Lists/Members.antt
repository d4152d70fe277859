-- ===== src/Relay/Lists/Members.antt =====
-- On the list commands of src/relay_server.rs, read as sets.
use nat_server.Common.{
  list_has_eq, list_eq_iff, ◌≡◌, refl, false, not, ◌&&◌, ◌||◌, List, [], ◌∷◌, arith, contains, ◌==◌,
  if◌then◌else◌, inl, inr, Bool-cases,
}
use nat_server.Common.Text.{Text, text, split}
use nat_server.Relay.Types.{add_set, remove_set}
use nat_server.Relay.Lists.{add_all, remove_all, cmd_add, cmd_remove}

contains-add_set :
    (x y : Text) (set : List Text) → contains x (add_set y set) ≡ (y == x || contains x set)
contains-add_set x y set = elim (Bool-cases (contains y set)) [
  | inl old ↦ rw (old, add_set) (ground (arith, old, list_eq_iff y x))
  | inr new ↦ rw (new, add_set) refl
]

contains-remove_set :
    (x y : Text) (set : List Text)
    → contains x (remove_set y set) ≡ (contains x set && not (y == x))
contains-remove_set x y [] = refl
contains-remove_set x y (z ∷ set) =
    ground (arith, list_eq_iff z y, list_eq_iff z x, list_eq_iff y x, contains-remove_set x y set)

pub contains-add_all :
    (x : Text) (ips set : List Text)
    → contains x (add_all ips set) ≡ (contains x ips || contains x set)
unfolding add_all
contains-add_all x [] set = refl
contains-add_all x (ip ∷ ips) set =
    ground (arith, contains-add_all x ips (add_set ip set), contains-add_set x ip set)

contains-remove_all :
    (x : Text) (ips set : List Text)
    → contains x (remove_all ips set) ≡ (contains x set && not (contains x ips))
unfolding remove_all
contains-remove_all x [] set = ground arith
contains-remove_all x (ip ∷ ips) set =
    ground (arith, contains-remove_all x ips (remove_set ip set), contains-remove_set x ip set)

-- After an add command the members are those before and those that it names; after a remove command
-- they are those before less those that it names, or none if it names `all`.
pub contains-cmd :
    (x arg : Text) (rest set : List Text)
    → (contains x (cmd_add (arg ∷ rest) set) ≡ (contains x (split b'|' arg) || contains x set))
      × (contains x (cmd_remove (arg ∷ rest) set) ≡ (
          if arg == text "all" then false else contains x set && not (contains x (split b'|' arg))))
unfolding cmd_add cmd_remove
contains-cmd x arg rest set = (
  contains-add_all x (split b'|' arg) set,
  ground (arith, contains-remove_all x (split b'|' arg) set),
)
