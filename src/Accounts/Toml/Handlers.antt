-- ===== src/Accounts/Toml/Handlers.antt =====
-- src/settings_api.rs: the handlers of the server's parameters.
use nat_server.Common.{Bool, true, false, Option, none, some, [], ◌∷◌, list_has_eq, if◌then◌else◌}
use nat_server.Common.Int.{ℤ}
use nat_server.Common.Map.{Map, insert}
use nat_server.Common.Text.{Text}
use nat_server.Accounts.Toml.{read_config_toml, read_hbbr_toml}
use nat_server.Accounts.Toml.Update.{write_config_toml, write_hbbr_toml}

-- The two files.
pub record Files : Type 0 where
  pub config : Option Text
  pub hbbr : Option Text

pub data ParamsAnswer {ℓ} (A : Type ℓ) : Type ℓ where
  unauthorized forbidden : ParamsAnswer A
  config_unwritten hbbr_unwritten : ParamsAnswer A
  success : A → ParamsAnswer A

-- `extend`, whose order does not matter.
abbrev pub extend : Map Text Text → Map Text Text → Map Text Text
extend m [] = m
extend m ((k, v) ∷ n) = insert k v (extend m n)

-- The caller of the token, and whether the caller is an administrator.
abbrev pub for_admin {ℓ} :
    {A : Type ℓ} → Option ℤ → (ℤ → Bool) → Files → ParamsAnswer A × Files → ParamsAnswer A × Files
for_admin none is_admin files answer = (unauthorized, files)
for_admin (some caller) is_admin files answer =
    if is_admin caller then answer else (forbidden, files)

unfoldable pub get_server_params :
    Option ℤ → (ℤ → Bool) → Files → ParamsAnswer (Map Text Text) × Files
get_server_params caller is_admin files =
    for_admin caller is_admin files
      (success (extend (read_config_toml files.config) (read_hbbr_toml files.hbbr)), files)

abbrev pub hbbr_answer : Files → Bool × Option Text → ParamsAnswer (Unit {0}) × Files
hbbr_answer files (true, file) = (success tt, record files { hbbr = file })
hbbr_answer files (false, file) = (hbbr_unwritten, record files { hbbr = file })

abbrev pub config_answer :
    Bool → Map Text Text → Files → Bool × Option Text → ParamsAnswer (Unit {0}) × Files
config_answer hbbr_writes params files (false, file) =
    (config_unwritten, record files { config = file })
config_answer hbbr_writes params files (true, file) =
    hbbr_answer (record files { config = file }) (write_hbbr_toml hbbr_writes params files.hbbr)

-- Which of the two files can be written is an argument.
unfoldable pub update_server_params :
    Option ℤ → (ℤ → Bool) → Bool → Bool → Map Text Text → Files → ParamsAnswer (Unit {0}) × Files
update_server_params caller is_admin config_writes hbbr_writes params files =
    for_admin caller is_admin files
      (config_answer hbbr_writes params files (write_config_toml config_writes params files.config))
