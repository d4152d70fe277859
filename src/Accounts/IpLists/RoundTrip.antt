-- ===== src/Accounts/IpLists/RoundTrip.antt =====
-- On the files of the address lists, between src/settings_api.rs and src/relay_server.rs.
use nat_server.Common.{
  ℕ, Bool, true, false, ◌&&◌, ◌||◌, not, none, List, [], ◌∷◌, ◌++◌, nat_eq, nat_has_eq, list_has_eq,
  select, map, contains, ◌≡◌, refl, ap, ◌∙◌, arith, Bool-cases, inl, inr,
}
use nat_server.Common.Text.{Text, is_whitespace, trim, trim_end, trim_start, split}
use nat_server.Common.Text.Trim.{trim-cons, split-append}
use nat_server.Common.Split.{splitn, split_once}
use nat_server.Common.Split.Laws.{split_once-append}
use nat_server.Accounts.IpLists.{
  IpEntry, drop_return, ended_lines, lines, is_entry_line, entry_of, has_ip, parse_ip_file, line_of,
  join_lines, serialize_ip_file,
}

-- The address begins with a character that is neither white space nor the sign of a comment.
abbrev pub starts_plain : Text → Bool
starts_plain [] = false
starts_plain (c ∷ s) = not (is_whitespace c) && not (nat_eq c b'#')

-- An entry as the file can hold it: an address of one word, and a comment of one line, both trimmed.
pub record IsClean (e : IpEntry) : Type 0 where
  pub starts : starts_plain e.ip ≡ true
  pub trimmed : trim e.ip ≡ e.ip
  pub ends : trim_end e.ip ≡ e.ip
  pub one_word : contains b' ' e.ip ≡ false
  pub no_return : contains 13 e.ip ≡ false
  pub one_line : contains 10 e.ip ≡ false
  pub comment_trimmed : trim e.comment ≡ e.comment
  pub comment_ends : trim_end e.comment ≡ e.comment
  pub comment_no_return : contains 13 e.comment ≡ false
  pub comment_one_line : contains 10 e.comment ≡ false

abbrev pub AllClean : List IpEntry → Type 0
AllClean [] = Unit {0}
AllClean (e ∷ es) = IsClean e × AllClean es

pub contains-append : (c : ℕ) (a b : Text) → contains c (a ++ b) ≡ (contains c a || contains c b)
contains-append c [] b = refl
contains-append c (x ∷ a) b = ground (arith, contains-append c a b)

-- A line feed or carriage return is in no line.
line_of_plain :
    (c : ℕ) (e : IpEntry)
    → nat_eq b' ' c ≡ false
    → contains c e.ip ≡ false
    → contains c e.comment ≡ false
    → contains c (line_of e) ≡ false
line_of_plain c e other h k = ground (arith, h, k, other, contains-append c e.ip (b' ' ∷ e.comment))

drop_return_plain : (s : Text) → contains 13 s ≡ false → drop_return s ≡ s
unfolding drop_return
drop_return_plain [] h = refl
drop_return_plain (c ∷ []) h = ground (arith, h)
drop_return_plain (c ∷ d ∷ s) h = ap (λ x. c ∷ x) (drop_return_plain (d ∷ s) (ground (arith, h)))

abbrev pub AreLines : List Text → Type 0
AreLines [] = Unit {0}
AreLines (l ∷ ls) = (contains 10 l ≡ false) × (contains 13 l ≡ false) × AreLines ls

append-append : (a b c : Text) → (a ++ b) ++ c ≡ a ++ (b ++ c)
append-append [] b c = refl
append-append (x ∷ a) b c = ap (λ y. x ∷ y) (append-append a b c)

pub split-join_lines :
    (l : Text) (ls : List Text)
    → AreLines (l ∷ ls)
    → split 10 (join_lines (l ∷ ls) ++ (10 ∷ [])) ≡ l ∷ (ls ++ ([] ∷ []))
unfolding split
split-join_lines l [] (h, k, r) = split-append 10 l [] h
split-join_lines l (m ∷ ls) (h, k, r) =
    ap (split 10) (append-append l (10 ∷ join_lines (m ∷ ls)) (10 ∷ []))
    ∙ split-append 10 l (join_lines (m ∷ ls) ++ (10 ∷ [])) h
    ∙ ap (λ x. l ∷ x) (split-join_lines m ls r)

ended_lines-append : (ls : List Text) → AreLines ls → ended_lines (ls ++ ([] ∷ [])) ≡ ls
unfolding drop_return
ended_lines-append [] r = refl
ended_lines-append (l ∷ []) (h, k, r) = rw (drop_return_plain l k) refl
ended_lines-append (l ∷ m ∷ ls) (h, k, r) =
    rw (drop_return_plain l k) (ap (λ x. l ∷ x) (ended_lines-append (m ∷ ls) r))

lines-join_lines :
    (l : Text) (ls : List Text)
    → AreLines (l ∷ ls)
    → lines (join_lines (l ∷ ls) ++ (10 ∷ [])) ≡ l ∷ ls
lines-join_lines l ls r = ap ended_lines (split-join_lines l ls r) ∙ ended_lines-append (l ∷ ls) r

plain-is_entry_line :
    (c : ℕ) (s : Text) → starts_plain (c ∷ s) ≡ true → is_entry_line (c ∷ s) ≡ true
unfolding trim_start
plain-is_entry_line c s h = elim (Bool-cases (is_whitespace c)) [
  | inl white ↦ absurd (ground (arith, white, h))
  | inr black ↦ ground (arith, black, h, trim-cons c s black)
]

line_of-is_entry_line :
    (ip comment : Text)
    → starts_plain ip ≡ true
    → is_entry_line (line_of (record { ip = ip; comment = comment })) ≡ true
line_of-is_entry_line [] comment h = absurd (cc h)
line_of-is_entry_line (c ∷ s) [] h = plain-is_entry_line c s h
line_of-is_entry_line (c ∷ s) (d ∷ t) h = plain-is_entry_line c (s ++ (b' ' ∷ d ∷ t)) h

split_once-none : (sep : ℕ) (a : Text) → contains sep a ≡ false → split_once sep a ≡ none
unfolding split_once
split_once-none sep [] h = refl
split_once-none sep (c ∷ a) h = ground (arith, split_once-none sep a)

entry_of-line_of :
    (ip comment : Text)
    → trim ip ≡ ip
    → contains b' ' ip ≡ false
    → trim comment ≡ comment
    → entry_of (line_of (record { ip = ip; comment = comment }))
      ≡ record { ip = ip; comment = comment }
unfolding splitn trim
entry_of-line_of ip [] h k t = ground (arith, split_once-none b' ' ip k, h)
entry_of-line_of ip (d ∷ s) h k t = ground (arith, split_once-append b' ' ip (d ∷ s) k, h, t)

pub lines-AllClean : (es : List IpEntry) → AllClean es → AreLines (map line_of es)
lines-AllClean [] h = tt
lines-AllClean (e ∷ es) (h, r) = (
  line_of_plain 10 e refl h.one_line h.comment_one_line,
  line_of_plain 13 e refl h.no_return h.comment_no_return,
  lines-AllClean es r,
)

starts_plain-has_ip :
    (ip comment : Text)
    → starts_plain ip ≡ true
    → has_ip (record { ip = ip; comment = comment }) ≡ true
starts_plain-has_ip [] comment h = absurd (cc h)
starts_plain-has_ip (c ∷ s) comment h = refl

entries_read :
    (es : List IpEntry)
    → AllClean es
    → select has_ip (map entry_of (select is_entry_line (map line_of es))) ≡ es
entries_read [] h = refl
entries_read (e ∷ es) (h, r) =
    let ip_there : has_ip e ≡ true = starts_plain-has_ip e.ip e.comment h.starts in
    ground (
      arith,
      line_of-is_entry_line e.ip e.comment h.starts,
      entry_of-line_of e.ip e.comment h.trimmed h.one_word h.comment_trimmed,
      ip_there,
      entries_read es r,
    )

-- A list of entries that the file can hold is read back from the file.
pub parse_ip_file-serialize_ip_file :
    (es : List IpEntry) → AllClean es → parse_ip_file (serialize_ip_file es) ≡ es
unfolding parse_ip_file serialize_ip_file split drop_return trim
parse_ip_file-serialize_ip_file [] h = refl
parse_ip_file-serialize_ip_file (e ∷ es) h =
    ap (λ ls. select has_ip (map entry_of (select is_entry_line ls)))
      (lines-join_lines (line_of e) (map line_of es) (lines-AllClean (e ∷ es) h))
    ∙ entries_read (e ∷ es) h
