-- ===== src/Accounts/IpLists.antt =====
-- src/settings_api.rs: the files of the black and the block list, and the handlers that change them. A file
-- is its text, or none where it cannot be read.
pub mod RoundTrip
pub mod Loaded
use nat_server.Common.{
  ℕ, Bool, true, false, ◌&&◌, ◌||◌, not, Option, none, some, List, [], ◌∷◌, ◌++◌, nat_eq, ◌==◌,
  list_has_eq, if◌then◌else◌, is_empty, select, map, length, unwrap_or, get_elem?,
}
use nat_server.Common.Int.{ℤ}
use nat_server.Common.Text.{Text, text, trim, trim_start, split}
use nat_server.Common.Split.{splitn}

pub record IpEntry : Type 0 where
  pub ip : Text
  pub comment : Text

-- `str::lines`: a line end is a line feed, or a carriage return and a line feed.
unfoldable pub drop_return : Text → Text
drop_return [] = []
drop_return (c ∷ []) = if nat_eq c 13 then [] else c ∷ []
drop_return (c ∷ d ∷ s) = c ∷ drop_return (d ∷ s)

abbrev pub ended_lines : List Text → List Text
ended_lines [] = []
ended_lines (x ∷ []) = if is_empty x then [] else x ∷ []
ended_lines (x ∷ y ∷ xs) = drop_return x ∷ ended_lines (y ∷ xs)

abbrev pub lines : Text → List Text
lines s = ended_lines (split 10 s)

abbrev pub is_comment : Text → Bool
is_comment [] = false
is_comment (c ∷ s) = nat_eq c b'#'

abbrev pub is_entry_line : Text → Bool
is_entry_line l = not (is_empty (trim l)) && not (is_comment (trim_start l))

abbrev pub entry_of : Text → IpEntry
entry_of l =
    let parts = splitn 2 b' ' l in
    record {
      ip = trim (unwrap_or (get_elem? parts 0) []);
      comment = trim (unwrap_or (get_elem? parts 1) []);
    }

abbrev pub has_ip : IpEntry → Bool
has_ip e = not (is_empty e.ip)

unfoldable pub parse_ip_file : Text → List IpEntry
parse_ip_file content = select has_ip (map entry_of (select is_entry_line (lines content)))

abbrev pub line_of : IpEntry → Text
line_of e = if is_empty e.comment then e.ip else e.ip ++ (b' ' ∷ e.comment)

-- `join("\n")`.
abbrev pub join_lines : List Text → Text
join_lines [] = []
join_lines (x ∷ []) = x
join_lines (x ∷ y ∷ xs) = x ++ (10 ∷ join_lines (y ∷ xs))

unfoldable pub serialize_ip_file : List IpEntry → Text
serialize_ip_file entries = join_lines (map line_of entries) ++ (10 ∷ [])

abbrev pub read_ip_file : Option Text → List IpEntry
read_ip_file none = []
read_ip_file (some content) = parse_ip_file content

pub data Reply : Type 0 where
  unauthorized forbidden no_ip known not_found write_failed success : Reply

-- The answer and the file after it.
abbrev pub ListAnswer : Type 0
ListAnswer = Reply × Option Text

-- A write that may fail.
abbrev pub write_ip_file : Bool → List IpEntry → Option Text → ListAnswer
write_ip_file writes entries file =
    if writes then (success, some (serialize_ip_file entries)) else (write_failed, file)

-- The caller of the token, and whether the caller is an administrator.
abbrev pub as_admin : Option ℤ → (ℤ → Bool) → Option Text → ListAnswer → ListAnswer
as_admin none is_admin file answer = (unauthorized, file)
as_admin (some caller) is_admin file answer = if is_admin caller then answer else (forbidden, file)

abbrev pub is_ip : Text → IpEntry → Bool
is_ip ip e = e.ip == ip

-- `add_blacklist` and `add_blocklist`.
unfoldable pub add_ip : Option ℤ → (ℤ → Bool) → Bool → Text → Text → Option Text → ListAnswer
add_ip caller is_admin writes body comment file =
    let ip = trim body in
    let entries = read_ip_file file in
    as_admin caller is_admin file (
      if is_empty ip
      then (no_ip, file)
      else if not (is_empty (select (is_ip ip) entries))
      then (known, file)
      else write_ip_file writes (entries ++ (record { ip = ip; comment = comment } ∷ [])) file)

-- `delete_blacklist` and `delete_blocklist`.
unfoldable pub delete_ip : Option ℤ → (ℤ → Bool) → Bool → Text → Option Text → ListAnswer
delete_ip caller is_admin writes ip file =
    let entries = read_ip_file file in
    let rest = select (λ e. not (is_ip ip e)) entries in
    as_admin caller is_admin file (
      if nat_eq (length rest) (length entries)
      then (not_found, file)
      else write_ip_file writes rest file)
