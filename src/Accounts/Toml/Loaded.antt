-- ===== src/Accounts/Toml/Loaded.antt =====
-- src/hbbr.rs: what the relay server takes from config.toml and hbbr.toml when it starts, against what
-- src/settings_api.rs writes there.
use nat_server.Common.{
  ℕ, suc, ◌^◌, true, Option, none, some, [], ◌∷◌, list_has_eq, nat_has_eq, list_eq, unwrap_or, ◌≡◌,
  refl, ap, ◌∙◌, arith,
}
use nat_server.Common.Int.{ℤ, pos}
use nat_server.Common.Map.{Map, lookup, insert, AllValues}
use nat_server.Common.Text.{Text, text, parse_signed, trim, split}
use nat_server.Common.Split.{decimal}
use nat_server.Accounts.IpLists.{lines, drop_return}
use nat_server.Accounts.Toml.{hbbr_keys, hbbr_format, Key, key_has_eq, read_lines}
use nat_server.Accounts.Toml.Update.{content_or_empty, updates_of, write_hbbr_toml}
use nat_server.Accounts.Toml.Assignment.{IsValue, is_key-IsKey}
use nat_server.Accounts.Toml.Values.{later, lookup-read_lines}
use nat_server.Accounts.Toml.Missing.{value-later}
use nat_server.Accounts.Toml.Sections.{section_word}
use nat_server.Accounts.Toml.Tables.{IsTable, IsTable-HasNames, lookup-updates_of}
use nat_server.Accounts.Toml.Written.{hbbr-IsTable, hbbr_written}

-- The keys of hbbr.toml that are put into the environment.
abbrev pub env_keys : Map Key Text
env_keys =
    ((text "server", text "port"), text "PORT") ∷ ((text "key", text "secret"), text "KEY") ∷ []

-- A line without a key before its sign is passed over, as the empty key is none of these.
unfoldable pub load_hbbr_toml_env : Option Text → Map Text Text → Map Text Text
load_hbbr_toml_env none env = env
load_hbbr_toml_env (some content) env = read_lines hbbr_format env_keys (lines content) [] env

-- What the crate ini reads of the keys above all sections, and `str::to_uppercase`.
pub record Ini : Type 0 where
  pub flat : Option Text → Map Text Text
  pub to_uppercase : Text → Text

abbrev set_all : (Text → Text) → Map Text Text → Map Text Text → Map Text Text
set_all upper [] env = env
set_all upper ((k, v) ∷ kvs) env = set_all upper kvs (insert (upper k) v env)

abbrev pub load_flat_env : Ini → Option Text → Map Text Text → Map Text Text
load_flat_env ini file env = set_all ini.to_uppercase (ini.flat file) env

abbrev pub port_or : ℕ → Option ℤ → ℕ
port_or default (some (pos (suc n))) = suc n
port_or default _ = default

abbrev pub relay_port : ℕ
relay_port = 21117

abbrev pub parsed : Option Text → Option ℤ
parsed none = none
parsed (some v) = parse_signed (2 ^ 31) v

-- The files that the relay server reads, in this order.
pub record StartFiles : Type 0 where
  pub dot_env : Option Text
  pub config : Option Text
  pub hbbr : Option Text

unfoldable pub loaded_env : Ini → StartFiles → Map Text Text → Map Text Text
loaded_env ini files env =
    load_hbbr_toml_env files.hbbr
      (load_flat_env ini files.config (load_flat_env ini files.dot_env env))

-- The port and the key with which `main` calls `start`; those of the command line come first.
unfoldable pub start_arguments :
    Ini → StartFiles → Map Text Text → Option Text → Option Text → Text × Text
start_arguments ini files env port_arg key_arg =
    let e = loaded_env ini files env in
    let port = port_or relay_port (parsed (lookup (text "PORT") e)) in
    (unwrap_or port_arg (decimal port), unwrap_or key_arg (unwrap_or (lookup (text "KEY") e) []))

env-IsTable : IsTable section_word env_keys
unfolding lookup list_eq trim
env-IsTable = (
  refl,
  refl,
  is_key-IsKey (text "port") refl,
  (refl, refl, is_key-IsKey (text "secret") refl, tt),
)

load_hbbr_toml_env_lem :
    (file : Option Text) (env : Map Text Text)
    → load_hbbr_toml_env file env
      ≡ read_lines hbbr_format env_keys (lines (content_or_empty file)) [] env
unfolding load_hbbr_toml_env read_lines split drop_return
load_hbbr_toml_env_lem none env = refl
load_hbbr_toml_env_lem (some content) env = refl

-- A variable whose key has got a new value.
loaded_new :
    (params env : Map Text Text) (file : Option Text) (q : Key) (name variable v : Text)
    → AllValues IsValue params
    → lookup q hbbr_keys ≡ some name
    → lookup q env_keys ≡ some variable
    → lookup name params ≡ some v
    → lookup variable (load_hbbr_toml_env (write_hbbr_toml true params file).1 env) ≡ some v
unfolding lookup
loaded_new params env file q name variable v good here there given =
    let file' = (write_hbbr_toml true params file).1 in
    let ls' = lines (content_or_empty file') in
    let new : lookup q (updates_of hbbr_keys params) ≡ some v =
      lookup-updates_of section_word hbbr_keys params q hbbr-IsTable
      ∙ ground (arith, here, given) in
    ap (lookup variable) (load_hbbr_toml_env_lem file' env)
    ∙ lookup-read_lines hbbr_format env_keys q variable ls' [] env
        (λ p r n h k. IsTable-HasNames section_word env_keys p r n env-IsTable h k) there
    ∙ value-later hbbr_format q ls' [] (lookup variable env)
    ∙ ap (λ o. later o (lookup variable env)) ((hbbr_written params file q good).1)
    ∙ ground (arith, new)

-- After the port and the key are set and hbbr.toml is written, `main` calls `start` with these texts,
-- whatever the environment and the other files say, unless the command line says otherwise.
pub start_arguments-write_hbbr_toml :
    (ini : Ini) (files : StartFiles) (env params : Map Text Text) (n : ℕ) (port key : Text)
    → AllValues IsValue params
    → lookup (text "hbbr_port") params ≡ some port
    → lookup (text "hbbr_key") params ≡ some key
    → parse_signed (2 ^ 31) port ≡ some (pos (suc n))
    → let files' : StartFiles = record files {
      hbbr = (write_hbbr_toml true params files.hbbr).1;
    } in
      start_arguments ini files' env none none ≡ (decimal (suc n), key)
unfolding start_arguments loaded_env lookup list_eq
start_arguments-write_hbbr_toml ini files env params n port key good p k number =
    let e = load_flat_env ini files.config (load_flat_env ini files.dot_env env) in
    ground (
      arith,
      loaded_new params e files.hbbr (text "server", text "port") (text "hbbr_port") (text "PORT")
          port good refl refl p,
      loaded_new params e files.hbbr (text "key", text "secret") (text "hbbr_key") (text "KEY") key
          good refl refl k,
      number,
    )
