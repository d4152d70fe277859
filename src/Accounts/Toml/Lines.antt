-- ===== src/Accounts/Toml/Lines.antt =====
-- On the lines of config.toml and hbbr.toml, when the file is written and read again.
use mathlib.Core.List.{reverse, append-nil}
use nat_server.Common.{
  ℕ, Bool, true, false, List, [], ◌∷◌, ◌++◌, map, contains, nat_eq, nat_has_eq, is_empty,
  if◌then◌else◌, ◌≡◌, refl, sym, ap, ◌∙◌, arith, Bool-cases, ◌⊎◌, inl, inr,
}
use nat_server.Common.Text.{Text, trim, trim_start, is_whitespace, split, cons_head}
use nat_server.Common.Text.Trim.{split-plain, is_empty-eq, reverse-append_last}
use nat_server.Accounts.IpLists.{drop_return, ended_lines, lines, join_lines}
use nat_server.Accounts.Toml.{item}
use nat_server.Accounts.Toml.Update.{file_of}

trim_start-append_white :
    (c : ℕ) (s : Text)
    → is_whitespace c ≡ true
    → trim_start (s ++ (c ∷ []))
      ≡ (if is_empty (trim_start s) then [] else trim_start s ++ (c ∷ []))
unfolding trim_start
trim_start-append_white c [] h = ground (arith, h)
trim_start-append_white c (x ∷ s) h = ground (arith, trim_start-append_white c s h)

pub trim_start-white :
    (c : ℕ) (s : Text) → is_whitespace c ≡ true → trim_start (c ∷ s) ≡ trim_start s
unfolding trim_start
trim_start-white c s h = ground (arith, h)

trim-nothing : (s : Text) → is_empty (trim_start s) ≡ true → trim s ≡ []
unfolding trim trim_start
trim-nothing s h = ap (λ x. reverse (trim_start (reverse x))) (is_empty-eq (trim_start s) h)

-- White space at the end does not count.
pub trim-append_white : (c : ℕ) (s : Text) → is_whitespace c ≡ true → trim (s ++ (c ∷ [])) ≡ trim s
unfolding trim
trim-append_white c s h = elim (Bool-cases (is_empty (trim_start s))) [
  | inl e ↦
      let nothing : trim_start (s ++ (c ∷ [])) ≡ [] =
        ground (arith, trim_start-append_white c s h, e) in
      ap (λ x. reverse (trim_start (reverse x))) nothing ∙ sym (trim-nothing s e)
  | inr e ↦
      let more : trim_start (s ++ (c ∷ [])) ≡ trim_start s ++ (c ∷ []) =
        ground (arith, trim_start-append_white c s h, e) in
      let dropped : trim_start (c ∷ reverse (trim_start s)) ≡ trim_start (reverse (trim_start s)) =
        trim_start-white c (reverse (trim_start s)) h in
      ap (λ x. reverse (trim_start (reverse x))) more
      ∙ ap (λ x. reverse (trim_start x)) (reverse-append_last c (trim_start s))
      ∙ ap reverse dropped
]

drop_return-cases : (s : Text) → (drop_return s ≡ s) ⊎ (s ≡ drop_return s ++ (13 ∷ []))
unfolding drop_return
drop_return-cases [] = inl refl
drop_return-cases (c ∷ []) = elim (Bool-cases (nat_eq c 13)) [
  | inl e ↦ inr (ground arith)
  | inr e ↦ inl (ground arith)
]
drop_return-cases (c ∷ d ∷ s) = elim (drop_return-cases (d ∷ s)) [
  | inl e ↦ inl (ap (λ x. c ∷ x) e)
  | inr e ↦ inr (ap (λ x. c ∷ x) e)
]

trim-drop_return : (s : Text) → trim (drop_return s) ≡ trim s
unfolding is_whitespace
trim-drop_return s = elim (drop_return-cases s) [
  | inl e ↦ ap trim e
  | inr e ↦ sym (ap trim e ∙ trim-append_white 13 (drop_return s) refl)
]

pub item-drop_return :
    (is_header : Text → Bool) (s : Text) → item is_header (drop_return s) ≡ item is_header s
unfolding item
item-drop_return is_header s = rw (trim-drop_return s) refl

-- The lines of lines that may hold line feeds.
abbrev pub pieces : List Text → List Text
pieces [] = []
pieces (l ∷ ls) = split 10 l ++ pieces ls

append-append : (a b c : List Text) → (a ++ b) ++ c ≡ a ++ (b ++ c)
append-append [] b c = refl
append-append (x ∷ a) b c = ap (λ y. x ∷ y) (append-append a b c)

text-append-append : (a b c : Text) → (a ++ b) ++ c ≡ a ++ (b ++ c)
text-append-append [] b c = refl
text-append-append (x ∷ a) b c = ap (λ y. x ∷ y) (text-append-append a b c)

cons_head-append :
    (c x : ℕ) (ls ys : List Text)
    → cons_head c (cons_head x ls ++ ys) ≡ cons_head c (cons_head x ls) ++ ys
cons_head-append c x [] ys = refl
cons_head-append c x (l ∷ ls) ys = refl

cons_head-split-append :
    (c sep : ℕ) (a : Text) (ys : List Text)
    → cons_head c (split sep a ++ ys) ≡ cons_head c (split sep a) ++ ys
unfolding split
cons_head-split-append c sep [] ys = refl
cons_head-split-append c sep (x ∷ a) ys = elim (Bool-cases (nat_eq x sep)) [
  | inl e ↦ rw e refl
  | inr e ↦ rw e (cons_head-append c x (split sep a) ys)
]

split-append_any : (sep : ℕ) (a b : Text) → split sep (a ++ (sep ∷ b)) ≡ split sep a ++ split sep b
unfolding split
split-append_any sep [] b = ground arith
split-append_any sep (c ∷ a) b =
    ground (arith, split-append_any sep a b, cons_head-split-append c sep a (split sep b))

split-file_of :
    (l : Text) (ls : List Text) → split 10 (file_of (l ∷ ls)) ≡ pieces (l ∷ ls) ++ ([] ∷ [])
unfolding split
split-file_of l [] =
    split-append_any 10 l [] ∙ ap (λ x. x ++ ([] ∷ [])) (sym (append-nil (split 10 l)))
split-file_of l (m ∷ ls) =
    ap (split 10) (text-append-append l (10 ∷ join_lines (m ∷ ls)) (10 ∷ []))
    ∙ split-append_any 10 l (file_of (m ∷ ls))
    ∙ ap (λ x. split 10 l ++ x) (split-file_of m ls)
    ∙ sym (append-append (split 10 l) (pieces (m ∷ ls)) ([] ∷ []))

ended_lines-append : (xs : List Text) → ended_lines (xs ++ ([] ∷ [])) ≡ map drop_return xs
unfolding drop_return
ended_lines-append [] = refl
ended_lines-append (x ∷ []) = refl
ended_lines-append (x ∷ y ∷ xs) = ap (λ z. drop_return x ∷ z) (ended_lines-append (y ∷ xs))

pub lines-file_of :
    (l : Text) (ls : List Text) → lines (file_of (l ∷ ls)) ≡ map drop_return (pieces (l ∷ ls))
lines-file_of l ls = ap ended_lines (split-file_of l ls) ∙ ended_lines-append (pieces (l ∷ ls))

-- No line feed is in a line.
abbrev pub NoFeeds : List Text → Type 0
NoFeeds [] = Unit {0}
NoFeeds (l ∷ ls) = (contains 10 l ≡ false) × NoFeeds ls

pub pieces-NoFeeds : (ls : List Text) → NoFeeds ls → pieces ls ≡ ls
pieces-NoFeeds [] h = refl
pieces-NoFeeds (l ∷ ls) (h, r) = rw (split-plain 10 l h) (ap (λ x. l ∷ x) (pieces-NoFeeds ls r))

pub append-NoFeeds : (a b : List Text) → NoFeeds a → NoFeeds b → NoFeeds (a ++ b)
append-NoFeeds [] b h k = k
append-NoFeeds (x ∷ a) b (h, r) k = (h, append-NoFeeds a b r k)

cons_head-NoFeeds :
    (c : ℕ) (ls : List Text) → nat_eq c 10 ≡ false → NoFeeds ls → NoFeeds (cons_head c ls)
cons_head-NoFeeds c [] h r = (ground (arith, h), tt)
cons_head-NoFeeds c (l ∷ ls) h (k, r) = (ground (arith, h, k), r)

split-NoFeeds : (s : Text) → NoFeeds (split 10 s)
unfolding split
split-NoFeeds [] = (refl, tt)
split-NoFeeds (c ∷ s) = elim (Bool-cases (nat_eq c 10)) [
  | inl e ↦ rw e (refl, split-NoFeeds s)
  | inr e ↦ rw e (cons_head-NoFeeds c (split 10 s) e (split-NoFeeds s))
]

drop_return-no_feed : (s : Text) → contains 10 s ≡ false → contains 10 (drop_return s) ≡ false
unfolding drop_return
drop_return-no_feed [] h = refl
drop_return-no_feed (c ∷ []) h = ground (arith, h)
drop_return-no_feed (c ∷ d ∷ s) h = ground (arith, h, drop_return-no_feed (d ∷ s))

ended_lines-NoFeeds : (ls : List Text) → NoFeeds ls → NoFeeds (ended_lines ls)
ended_lines-NoFeeds [] h = tt
ended_lines-NoFeeds ([] ∷ []) h = tt
ended_lines-NoFeeds ((c ∷ x) ∷ []) h = h
ended_lines-NoFeeds (x ∷ y ∷ xs) (h, r) = (drop_return-no_feed x h, ended_lines-NoFeeds (y ∷ xs) r)

pub lines-NoFeeds : (s : Text) → NoFeeds (lines s)
lines-NoFeeds s = ended_lines-NoFeeds (split 10 s) (split-NoFeeds s)
