-- ===== src/Examples/Files.antt =====
-- Examples for the parameters of the servers in config.toml and hbbr.toml.
use nat_server.Common.{Bool, true, none, some, List, [], ◌∷◌, ◌++◌, list_eq, list_has_eq, ◌≡◌, refl}
use nat_server.Common.Int.{ℤ, pos}
use nat_server.Common.Map.{Map, lookup, AllValues}
use nat_server.Common.Text.{Text, text, trim, trim_end, split, parse_signed}
use nat_server.Common.Split.{split_once}
use nat_server.Accounts.IpLists.{drop_return}
use nat_server.Accounts.Toml.{item, split_ini_kv, drop_quotes}
use nat_server.Accounts.Toml.Update.{
  before_section, update_lines, add_missing, insert_in_section, update_flat_keys,
  update_sectioned_keys, write_hbbr_toml,
}
use nat_server.Accounts.Toml.Assignment.{IsValue}
use nat_server.Accounts.Toml.Handlers.{Files, success, get_server_params, update_server_params}
use nat_server.Accounts.Toml.Params.{value_shown, get_server_params-update_server_params}
use nat_server.Accounts.Toml.Loaded.{Ini}
use nat_server.Accounts.Toml.Started.{KeyEnv, get_server_sk, main, main-write_hbbr_toml}

abbrev file_of_lines : List Text → Text
file_of_lines [] = []
file_of_lines (l ∷ ls) = l ++ (10 ∷ file_of_lines ls)

abbrev a_config : Text
a_config =
    file_of_lines
      (text "# port = 1" ∷ text "port = 21116" ∷ text "" ∷ text "[api]" ∷ text "key = \"x\"" ∷ [])

-- A key that is there, and one that is missing, which comes before the first section.
port_and_key :
    update_flat_keys ((text "port", text "22116") ∷ (text "key", text "k") ∷ []) (some a_config)
    ≡ file_of_lines (
        text "# port = 1"
        ∷ text "port = 22116"
        ∷ text ""
        ∷ text "key = k"
        ∷ text "[api]"
        ∷ text "key = \"x\""
        ∷ [])
unfolding update_flat_keys lookup list_eq trim split drop_return before_section update_lines item
    split_ini_kv split_once
port_and_key = refl

abbrev a_hbbr : Text
a_hbbr = file_of_lines (text "[server]" ∷ text "port=21117 " ∷ text "[log]" ∷ [])

abbrev server_port : Text × Text
server_port = (text "server", text "port")

three_keys :
    update_sectioned_keys
      ((server_port, text "22117")
        ∷ ((text "server", text "websocket_port"), text "1")
        ∷ ((text "key", text "secret"), text "k")
        ∷ [])
      (some a_hbbr)
    ≡ file_of_lines (
        text "[server]"
        ∷ text "port = 22117"
        ∷ text "websocket_port = 1"
        ∷ text "[log]"
        ∷ text ""
        ∷ text "[key]"
        ∷ text "secret = k"
        ∷ [])
unfolding update_sectioned_keys lookup list_eq trim split drop_return before_section update_lines
    item split_ini_kv split_once add_missing insert_in_section
three_keys = refl

port-IsValue : IsValue (text "22117")
unfolding trim trim_end drop_quotes
port-IsValue = record { trimmed = refl; ends = refl; no_quotes = refl; one_line = refl }

key-IsValue : IsValue (text "secret=1")
unfolding trim trim_end drop_quotes
key-IsValue = record { trimmed = refl; ends = refl; no_quotes = refl; one_line = refl }

abbrev the_params : Map Text Text
the_params = (text "hbbr_port", text "22117") ∷ (text "hbbr_key", text "secret=1") ∷ []

params-IsValue : AllValues IsValue the_params
params-IsValue = (port-IsValue, (key-IsValue, tt))

abbrev the_files : Files
the_files = record { config = some a_config; hbbr = some a_hbbr }

abbrev is_first : ℤ → Bool
is_first n = true

get_server_params-update_server_params_example :
    let (done, files') =
      update_server_params (some (pos 1)) is_first true true the_params the_files in
    (done ≡ success tt)
    × (value_shown (text "hbbr_key") (get_server_params (some (pos 1)) is_first files').0
        ≡ some (text "secret=1"))
unfolding lookup list_eq
get_server_params-update_server_params_example =
    get_server_params-update_server_params (pos 1) is_first the_params the_files (text "hbbr_key")
      refl params-IsValue

-- The keys above all sections are those of hbbs, which listens elsewhere.
abbrev the_ini : Ini
the_ini = record {
  flat = λ file. (text "PORT", text "21116") ∷ (text "KEY", text "") ∷ [];
  to_uppercase = λ k. k;
}

-- A key that is no secret key of the crate.
abbrev the_key_env : KeyEnv
the_key_env = record { decode = λ t. none; encode = λ b. []; gen_sk = [] }

main-write_hbbr_toml_example :
    main the_key_env the_ini
      (record {
        dot_env = none;
        config = some a_config;
        hbbr = (write_hbbr_toml true the_params (some a_hbbr)).1;
      })
      []
      none
      none
    ≡ some (record { port = 22_117; port2 = 22_119; key = text "secret=1" })
unfolding lookup list_eq parse_signed get_server_sk
main-write_hbbr_toml_example =
    main-write_hbbr_toml the_key_env the_ini
      (record { dot_env = none; config = some a_config; hbbr = some a_hbbr }) [] the_params 22116
      (text "22117") (text "secret=1") params-IsValue refl refl refl
