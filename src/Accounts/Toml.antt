-- ===== src/Accounts/Toml.antt =====
-- src/settings_api.rs: config.toml and hbbr.toml, as the administrator reads and changes them. A
-- file is its text, or none where it cannot be read.
pub mod Update
pub mod Handlers
pub mod Lines
pub mod Assignment
pub mod Values
pub mod Updated
pub mod Missing
pub mod Flat
pub mod Sections
pub mod Breaks
pub mod Sectioned
pub mod Tables
pub mod Names
pub mod Written
pub mod Params
pub mod Loaded
pub mod Started
use mathlib.Core.List.{reverse}
use nat_server.Common.{
  Bool, true, false, ◌&&◌, ◌||◌, ℕ, Option, none, some, List, [], ◌∷◌, nat_eq, ◌==◌, list_has_eq,
  if◌then◌else◌, is_empty, drop, Eq, list_eq, list_eq_iff, ◌≡◌, ◌↔◌, arith,
}
use nat_server.Common.Map.{Map, lookup, insert}
use nat_server.Common.Text.{Text, text, trim}
use nat_server.Common.Split.{split_once}
use nat_server.Accounts.IpLists.{lines}

abbrev pub starts_with : ℕ → Text → Bool
starts_with c [] = false
starts_with c (d ∷ s) = nat_eq d c

abbrev pub ends_with : ℕ → Text → Bool
ends_with c s = starts_with c (reverse s)

unfoldable pub drop_quotes : Text → Text
drop_quotes [] = []
drop_quotes (c ∷ s) = if nat_eq c b'"' then drop_quotes s else c ∷ s

-- `trim_matches('"')`.
abbrev pub trim_quotes : Text → Text
trim_quotes s = reverse (drop_quotes (reverse (drop_quotes s)))

-- The key and the value of a line.
unfoldable pub split_ini_kv : Text → Option (Text × Text)
split_ini_kv line = elim (split_once b'=' line) [
  | none ↦ none
  | some p ↦ let k = trim p.0 in if is_empty k then none else some (k, trim_quotes (trim p.1))
]

-- A line as the loops over a file see it.
pub data Item : Type 0 where
  header : Text → Item
  ignored : Item
  pair : Text → Text → Item

abbrev pub pair_or_ignored : Option (Text × Text) → Item
pair_or_ignored none = ignored
pair_or_ignored (some p) = pair p.0 p.1

unfoldable pub item : (Text → Bool) → Text → Item
item is_header line =
    let t = trim line in
    if is_header t
    then header t
    else if starts_with b'#' t || is_empty t
    then ignored
    else pair_or_ignored (split_ini_kv t)

-- A header in config.toml, and in hbbr.toml.
abbrev pub opens_section : Text → Bool
opens_section t = starts_with b'[' t

abbrev pub is_section : Text → Bool
is_section t = starts_with b'[' t && ends_with b']' t

-- What stands between the brackets.
abbrev pub section_name : Text → Text
section_name t = reverse (drop 1 (reverse (drop 1 t)))

-- The keys of config.toml and their names in the pages.
abbrev pub config_keys : Map Text Text
config_keys =
    (text "port", text "hbbs_port")
    ∷ (text "serial", text "hbbs_serial")
    ∷ (text "key", text "hbbs_key")
    ∷ (text "mask", text "hbbs_lan_mask")
    ∷ (text "relay_servers", text "hbbr_relay_host")
    ∷ []

-- The sections and keys of hbbr.toml and their names in the pages.
abbrev pub Key : Type 0
Key = Text × Text

pub key_eq_iff : (a b : Key) → ((list_eq a.0 b.0 && list_eq a.1 b.1) ≡ true) ↔ (a ≡ b)
key_eq_iff (s, k) (t, j) = ground (arith, list_eq_iff s t, list_eq_iff k j)

instance abbrev pub key_has_eq : Eq Key
key_has_eq = record { same = λ a b. list_eq a.0 b.0 && list_eq a.1 b.1; same_iff = key_eq_iff }

abbrev pub hbbr_keys : Map Key Text
hbbr_keys =
    ((text "server", text "port"), text "hbbr_port")
    ∷ ((text "server", text "websocket_port"), text "hbbr_websocket_port")
    ∷ ((text "key", text "secret"), text "hbbr_key")
    ∷ ((text "connection", text "max_connections"), text "hbbr_max_connections")
    ∷ ((text "bandwidth", text "total_limit"), text "hbbr_total_bandwidth")
    ∷ ((text "bandwidth", text "single_limit"), text "hbbr_single_bandwidth")
    ∷ []

-- How a file is read: what a header is, the section that it begins, and the key of a line's left
-- side in a section.
pub record Format {ℓ} (S K : Type ℓ) : Type ℓ where
  pub is_header : Text → Bool
  pub enter : Text → S
  pub key_at : S → Text → Option K

-- Only the keys before the first section count in config.toml: the section is whether one has begun.
abbrev pub flat_key : Bool → Text → Option Text
flat_key true k = none
flat_key false k = some k

abbrev pub config_format : Format Bool Text
config_format = record { is_header = opens_section; enter = λ t. true; key_at = flat_key }

abbrev pub hbbr_format : Format Text Key
hbbr_format = record {
  is_header = is_section;
  enter = section_name;
  key_at = λ section k. some (section, k);
}

-- A value under its name in the pages, where it has one.
abbrev pub put_setting : Option Text → Text → Map Text Text → Map Text Text
put_setting none v m = m
put_setting (some name) v m = insert name v m

module _ {ℓ} {S K : Type ℓ} ⦃e : Eq K⦄ (f : Format S K) where
  abbrev pub find_at {κ} : {A : Type κ} → Map K A → Option K → Option A
  find_at table none = none
  find_at table (some key) = lookup key table

  abbrev pub section_after : Item → S → S
  section_after (header t) s = f.enter t
  section_after _ s = s

  abbrev pub read_item : Map K Text → Item → S → Map Text Text → Map Text Text
  read_item table (pair k v) s m = put_setting (find_at table (f.key_at s k)) v m
  read_item table _ s m = m

  -- The lines, in a section and with what was read before.
  unfoldable pub read_lines : Map K Text → List Text → S → Map Text Text → Map Text Text
  read_lines table [] s m = m
  read_lines table (l ∷ ls) s m =
      let i = item f.is_header l in read_lines table ls (section_after i s) (read_item table i s m)

unfoldable pub read_config_toml : Option Text → Map Text Text
read_config_toml none = []
read_config_toml (some content) = read_lines config_format config_keys (lines content) false []

unfoldable pub read_hbbr_toml : Option Text → Map Text Text
read_hbbr_toml none = []
read_hbbr_toml (some content) = read_lines hbbr_format hbbr_keys (lines content) [] []
