-- ===== src/Accounts/IpLists/Loaded.antt =====
-- On what src/relay_server.rs loads of a file that src/settings_api.rs wrote.
use nat_server.Common.{
  Bool, true, false, ◌||◌, some, List, [], ◌∷◌, ◌++◌, nat_has_eq, ◌==◌, list_has_eq, if◌then◌else◌,
  is_empty, select, map, contains, ◌≡◌, refl, sym, ap, ◌∙◌, arith, list_eq,
}
use nat_server.Common.Int.{ℤ}
use nat_server.Common.Text.{Text, trim, trim_end, split}
use nat_server.Common.Text.Trim.{trim-trim_end, trim_end-append, split-append, split-plain}
use nat_server.Accounts.IpLists.{
  IpEntry, line_of, serialize_ip_file, read_ip_file, is_ip, success, add_ip,
}
use nat_server.Accounts.IpLists.RoundTrip.{
  starts_plain, IsClean, AllClean, lines-AllClean, split-join_lines,
  parse_ip_file-serialize_ip_file,
}
use nat_server.Relay.Types.{add_set}
use nat_server.Relay.Lists.{load_lines, load_list, add_all}
use nat_server.Relay.Lists.Members.{contains-add_all}

pub append-append : (a b c : Text) → (a ++ b) ++ c ≡ a ++ (b ++ c)
append-append [] b c = refl
append-append (x ∷ a) b c = ap (λ y. x ∷ y) (append-append a b c)

pub trim-plain : (s : Text) → starts_plain s ≡ true → trim_end s ≡ s → trim s ≡ s
trim-plain [] h e = absurd (cc h)
trim-plain (c ∷ s) h e = trim-trim_end c s (ground (arith, h)) ∙ e

pub starts_plain-append : (s t : Text) → starts_plain s ≡ true → starts_plain (s ++ t) ≡ true
starts_plain-append [] t h = absurd (cc h)
starts_plain-append (c ∷ s) t h = h

-- The first word of an entry's line is its address.
abbrev first_word : Text → Text
first_word l = elim (split b' ' (trim l)) as (λ _. Text) [ [] ↦ [] | ip ∷ rest ↦ ip ]

first_word-line_of :
    (ip comment : Text)
    → starts_plain ip ≡ true
    → trim_end ip ≡ ip
    → contains b' ' ip ≡ false
    → trim_end comment ≡ comment
    → split b' ' (trim (line_of (record { ip = ip; comment = comment })))
      ≡ ip ∷ (if is_empty comment then [] else split b' ' comment)
first_word-line_of ip [] h e w t = rw (trim-plain ip h e) (split-plain b' ' ip w)
first_word-line_of ip (d ∷ s) h e w t =
    let kept : trim_end (ip ++ (b' ' ∷ d ∷ s)) ≡ ip ++ (b' ' ∷ d ∷ s) =
      ap trim_end (sym (append-append ip (b' ' ∷ []) (d ∷ s)))
      ∙ trim_end-append (ip ++ (b' ' ∷ [])) d s t
      ∙ append-append ip (b' ' ∷ []) (d ∷ s) in
    rw (trim-plain (ip ++ (b' ' ∷ d ∷ s)) (starts_plain-append ip (b' ' ∷ d ∷ s) h) kept)
      (split-append b' ' ip (d ∷ s) w)

abbrev pub ip_of_entry : IpEntry → Text
ip_of_entry e = e.ip

load_empty : (set : List Text) → load_lines ([] ∷ []) set ≡ add_all ([] ∷ []) set
unfolding load_lines add_all split trim
load_empty set = refl

load_lines-line_of :
    (es : List IpEntry) (set : List Text)
    → AllClean es
    → load_lines (map line_of es ++ ([] ∷ [])) set ≡ add_all (map ip_of_entry es ++ ([] ∷ [])) set
unfolding load_lines add_all
load_lines-line_of [] set h = load_empty set
load_lines-line_of (e ∷ es) set (h, r) = ground (
  arith,
  first_word-line_of e.ip e.comment h.starts h.ends h.one_word h.comment_ends,
  load_lines-line_of es (add_set e.ip set) r,
)

contains-append_texts :
    (x : Text) (a b : List Text) → contains x (a ++ b) ≡ (contains x a || contains x b)
contains-append_texts x [] b = refl
contains-append_texts x (y ∷ a) b = ground (arith, contains-append_texts x a b)

load_no_entries :
    (set : List Text) → load_list (some (serialize_ip_file [])) set ≡ add_set [] (add_set [] set)
unfolding load_list load_lines serialize_ip_file split trim
load_no_entries set = refl

is_empty_lem : (x : Text) → list_eq [] x ≡ is_empty x
unfolding list_eq
is_empty_lem [] = refl
is_empty_lem (c ∷ x) = refl

-- From the file of clean entries the relay server loads their addresses, and the empty text.
load_list-serialize_ip_file :
    (x : Text) (es : List IpEntry) (set : List Text)
    → AllClean es
    → contains x (load_list (some (serialize_ip_file es)) set)
      ≡ (contains x (map ip_of_entry es) || (is_empty x || contains x set))
unfolding load_list serialize_ip_file add_all
load_list-serialize_ip_file x [] set h =
    ap (contains x) (load_no_entries set)
    ∙ contains-add_all x ([] ∷ [] ∷ []) set
    ∙ ground (arith, is_empty_lem x)
load_list-serialize_ip_file x (e ∷ es) set h =
    ap (λ ls. contains x (load_lines ls set))
      (split-join_lines (line_of e) (map line_of es) (lines-AllClean (e ∷ es) h))
    ∙ ap (contains x) (load_lines-line_of (e ∷ es) set h)
    ∙ contains-add_all x (map ip_of_entry (e ∷ es) ++ ([] ∷ [])) set
    ∙ ground (arith, is_empty_lem x, contains-append_texts x (map ip_of_entry es) ([] ∷ []))

pub starts_plain-there : (s : Text) → starts_plain s ≡ true → is_empty s ≡ false
starts_plain-there [] h = absurd (cc h)
starts_plain-there (c ∷ s) h = refl

AllClean-append :
    (es : List IpEntry) (e : IpEntry) → AllClean es → IsClean e → AllClean (es ++ (e ∷ []))
AllClean-append [] e h k = (k, tt)
AllClean-append (x ∷ es) e (h, r) k = (h, AllClean-append es e r k)

map-append_last :
    (es : List IpEntry) (e : IpEntry)
    → map ip_of_entry (es ++ (e ∷ [])) ≡ map ip_of_entry es ++ (e.ip ∷ [])
map-append_last [] e = refl
map-append_last (x ∷ es) e = ap (λ y. x.ip ∷ y) (map-append_last es e)

-- An administrator adds an entry to a list whose file was written from clean entries, none with this
-- address, and the write succeeds; the entry is clean too. Then the answer is success, the file is read back
-- as the entries with the new one at the end, and a relay server that starts with this file lists exactly
-- their addresses, the new one among them, and the empty text.
pub add_ip-load_list :
    (caller : ℤ) (is_admin : ℤ → Bool) (e : IpEntry) (es : List IpEntry) (x : Text)
    → is_admin caller ≡ true
    → AllClean es
    → IsClean e
    → select (is_ip e.ip) es ≡ []
    → let (reply, file) =
        add_ip (some caller) is_admin true e.ip e.comment (some (serialize_ip_file es)) in
      (reply ≡ success)
      × (read_ip_file file ≡ es ++ (e ∷ []))
      × (contains x (load_list file [])
          ≡ (contains x (map ip_of_entry es) || (e.ip == x || is_empty x)))
unfolding add_ip
add_ip-load_list caller is_admin e es x admin h k absent =
    let es' : List IpEntry = es ++ (e ∷ []) in
    let all = AllClean-append es e h k in
    let written : add_ip (some caller) is_admin true e.ip e.comment (some (serialize_ip_file es))
        ≡ (success, some (serialize_ip_file es')) =
      ground (
        arith,
        admin,
        k.trimmed,
        parse_ip_file-serialize_ip_file es h,
        absent,
        starts_plain-there e.ip k.starts,
      ) in
    rw written (
      refl,
      parse_ip_file-serialize_ip_file es' all,
      load_list-serialize_ip_file x es' [] all
          ∙ ground (
            arith,
            map-append_last es e,
            contains-append_texts x (map ip_of_entry es) (e.ip ∷ []),
          ),
    )
