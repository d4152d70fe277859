-- ===== src/Accounts/Settings.antt =====
-- The settings in src/database.rs, and the versions that src/web.rs shows to clients.
use nat_server.Common.{Option, some, List, [], ◌∷◌, list_has_eq, unwrap_or}
use nat_server.Common.Map.{Map, lookup, insert}
use nat_server.Common.Text.{Text, text}
use nat_server.Accounts.Store.{Accounts, Sql}
use nat_server.Accounts.Store.Monad.{Db, done, tried, ◌>>=◌, query, execute}
use nat_server.Accounts.Users.{flat}

-- insert into system_settings … on conflict(key) do update
abbrev pub setting_row : Text → Text → Accounts → Option (Unit {0} × Accounts)
setting_row key value s =
    some (tt, record s { system_settings = insert key value s.system_settings })

module _ (e : Sql) where
  unfoldable pub get_all_settings : Db (Map Text Text)
  unfolding query
  get_all_settings = query e λ s. s.system_settings

  unfoldable pub get_setting : Text → Db (Option Text)
  unfolding query
  get_setting key = query e λ s. lookup key s.system_settings

  unfoldable pub set_setting : Text → Text → Db (Unit {0})
  unfolding execute
  set_setting key value = execute e (setting_row key value)

  -- `get(db, key)` of `client_version`.
  unfoldable pub setting_or_empty : Text → Db Text
  setting_or_empty key = tried (get_setting key) >>= λ found. done (unwrap_or (flat found) [])

  abbrev pub read_all : List (Text × Text) → Db (List (Text × Text))
  read_all [] = done []
  read_all ((field, key) ∷ fields) =
      setting_or_empty key >>= λ value. read_all fields >>= λ rest. done ((field, value) ∷ rest)

  -- `client_version`: the fields of the answer with the settings that they show.
  unfoldable pub client_version : Db (List (Text × Text))
  client_version = read_all (
      (text "version", text "client_latest_version")
      ∷ (text "download_url_windows", text "client_dl_win")
      ∷ (text "download_url_macos", text "client_dl_mac")
      ∷ (text "download_url_linux", text "client_dl_linux")
      ∷ (text "sha256_windows", text "client_sha256_win")
      ∷ (text "sha256_macos", text "client_sha256_mac")
      ∷ (text "sha256_linux", text "client_sha256_linux")
      ∷ (text "changelog", text "client_changelog")
      ∷ [])
