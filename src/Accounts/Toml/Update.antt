-- ===== src/Accounts/Toml/Update.antt =====
-- src/settings_api.rs: how the lines of config.toml and hbbr.toml are changed, with all others kept.
use mathlib.Core.Option
use nat_server.Common.{
  Bool, true, false, not, Option, none, some, List, [], ◌∷◌, ◌++◌, ◌==◌, nat_has_eq, list_has_eq,
  if◌then◌else◌, is_empty, select, contains, unwrap_or, Eq,
}
use nat_server.Common.Map.{Map, lookup}
use nat_server.Common.Text.{Text, trim}
use nat_server.Accounts.IpLists.{lines, join_lines}
use nat_server.Accounts.Toml.{
  Item, pair, item, opens_section, Format, find_at, section_after, config_format, hbbr_format, Key,
  key_has_eq, config_keys, hbbr_keys,
}

-- `{} = {}`.
abbrev pub assignment : Text → Text → Text
assignment k v = k ++ (b' ' ∷ b'=' ∷ b' ' ∷ v)

-- The lines with the new values, and the keys that were found.
abbrev pub Pass {ℓ} : Type ℓ → Type ℓ
Pass K = List Text × List K

module _ {ℓ} {S K : Type ℓ} ⦃e : Eq K⦄ (f : Format S K) where
  -- A line, and its key where it has got a new value.
  abbrev pub set_line : Option K → Text → Option Text → Text → Option K × Text
  set_line (some key) k (some v) l = (some key, assignment k v)
  set_line _ k _ l = (none, l)

  abbrev pub update_item : Map K Text → Item → S → Text → Option K × Text
  update_item updates (pair k v) s l =
      let key = f.key_at s k in set_line key k (find_at f updates key) l
  update_item updates _ s l = (none, l)

  abbrev pub add_line : Option K × Text → Pass K → Pass K
  add_line (none, l) p = (l ∷ p.0, p.1)
  add_line (some key, l) p = (l ∷ p.0, key ∷ p.1)

  -- The loop over the lines of `update_flat_keys` and of `update_sectioned_keys`.
  unfoldable pub update_lines : Map K Text → S → List Text → Pass K
  update_lines updates s [] = ([], [])
  update_lines updates s (l ∷ ls) =
      let i = item f.is_header l in
      add_line (update_item updates i s l) (update_lines updates (section_after f i s) ls)

-- Lines put before the first line that opens a section, or at the end.
unfoldable pub before_section : List Text → List Text → List Text
before_section extra [] = extra
before_section extra (l ∷ ls) =
    let rest = before_section extra ls in
    if opens_section (trim l) then extra ++ (l ∷ ls) else l ∷ rest

abbrev pub assignments : Map Text Text → List Text
assignments [] = []
assignments ((k, v) ∷ us) = assignment k v ∷ assignments us

-- The updates of keys that were not found.
abbrev pub missing {ℓ} : {K : Type ℓ} ⦃e : Eq K⦄ → List K → Map K Text → Map K Text
missing updated us = select (λ u. not (contains u.0 updated)) us

abbrev pub content_or_empty : Option Text → Text
content_or_empty file = unwrap_or file []

-- The whole file again.
abbrev pub file_of : List Text → Text
file_of ls = join_lines ls ++ (10 ∷ [])

unfoldable pub update_flat_keys : Map Text Text → Option Text → Text
update_flat_keys updates file =
    let p = update_lines config_format updates false (lines (content_or_empty file)) in
    file_of (before_section (assignments (missing p.1 updates)) p.0)

abbrev pub section_header : Text → Text
section_header section = b'[' ∷ (section ++ (b']' ∷ []))

-- A line put at the end of the section that the first such header opens.
unfoldable pub insert_in_section : Text → Text → List Text → Option (List Text)
insert_in_section name new [] = none
insert_in_section name new (l ∷ ls) =
    let rest = Option.map (λ xs. l ∷ xs) (insert_in_section name new ls) in
    if trim l == name then some (l ∷ before_section (new ∷ []) ls) else rest

abbrev pub add_to_section : Key → Text → List Text → List Text
add_to_section (section, k) v ls =
    unwrap_or (insert_in_section (section_header section) (assignment k v) ls)
      (ls ++ ((10 ∷ section_header section) ∷ assignment k v ∷ []))

unfoldable pub add_missing : Map Key Text → List Text → List Text
add_missing [] ls = ls
add_missing ((key, v) ∷ us) ls = add_missing us (add_to_section key v ls)

unfoldable pub update_sectioned_keys : Map Key Text → Option Text → Text
update_sectioned_keys updates file =
    let p = update_lines hbbr_format updates [] (lines (content_or_empty file)) in
    file_of (add_missing (missing p.1 updates) p.0)

-- The updates for the keys of one file, in the order of its table.
abbrev pub with_value {ℓ} : {K : Type ℓ} → K → Option Text → Map K Text → Map K Text
with_value k none us = us
with_value k (some v) us = (k, v) ∷ us

unfoldable pub updates_of {ℓ} : {K : Type ℓ} → Map K Text → Map Text Text → Map K Text
updates_of [] params = []
updates_of ((k, name) ∷ table) params = with_value k (lookup name params) (updates_of table params)

-- The file after a write that may fail; none is written where nothing is to be changed.
abbrev pub Write : Type 0
Write = Bool × Option Text

abbrev pub write_file : Bool → Option Text → Text → Write
write_file writes file content = if writes then (true, some content) else (false, file)

unfoldable pub write_config_toml : Bool → Map Text Text → Option Text → Write
write_config_toml writes params file =
    let updates = updates_of config_keys params in
    if is_empty updates
    then (true, file)
    else write_file writes file (update_flat_keys updates file)

unfoldable pub write_hbbr_toml : Bool → Map Text Text → Option Text → Write
write_hbbr_toml writes params file =
    let updates = updates_of hbbr_keys params in
    if is_empty updates
    then (true, file)
    else write_file writes file (update_sectioned_keys updates file)
