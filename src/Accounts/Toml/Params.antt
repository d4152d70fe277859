-- ===== src/Accounts/Toml/Params.antt =====
-- On the handlers of the server's parameters in src/settings_api.rs.
use nat_server.Common.{
  Bool, true, false, ◌||◌, Option, none, some, [], ◌∷◌, contains, nat_has_eq, list_has_eq,
  if◌then◌else◌, ◌≡◌, refl, sym, ap, ◌∙◌, arith,
}
use nat_server.Common.Int.{ℤ}
use nat_server.Common.Map.{Map, lookup, lookup-insert, AllValues}
use nat_server.Common.Text.{Text}
use nat_server.Accounts.IpLists.{lines}
use nat_server.Accounts.Toml.{
  config_keys, hbbr_keys, key_has_eq, hbbr_format, read_config_toml, read_hbbr_toml,
}
use nat_server.Accounts.Toml.Update.{Write, content_or_empty, write_config_toml, write_hbbr_toml}
use nat_server.Accounts.Toml.Handlers.{
  Files, ParamsAnswer, success, extend, config_answer, hbbr_answer, get_server_params,
  update_server_params,
}
use nat_server.Accounts.Toml.Assignment.{IsValue}
use nat_server.Accounts.Toml.Values.{later}
use nat_server.Accounts.Toml.Tables.{names}
use nat_server.Accounts.Toml.Names.{lookup-read_lines_other}
use nat_server.Accounts.Toml.Written.{
  config_written, hbbr_written, lookup-read_config_toml, lookup-read_hbbr_toml, read_hbbr_toml_lem,
  after_update,
}

-- What a name shows after an update.
abbrev after_updates : Text → Map Text Text → Option Text → Option Text
after_updates name params old =
    if contains name (names config_keys) || contains name (names hbbr_keys)
    then later (lookup name params) old
    else old

lookup-extend :
    (m n : Map Text Text) (name : Text)
    → lookup name (extend m n) ≡ later (lookup name n) (lookup name m)
unfolding lookup
lookup-extend m [] name = refl
lookup-extend m ((k, v) ∷ n) name =
    ground (arith, lookup-insert k name v (extend m n), lookup-extend m n name)

-- The value of a name in the answer of `get_server_params`.
abbrev pub value_shown : Text → ParamsAnswer (Map Text Text) → Option Text
value_shown name (success m) = lookup name m
value_shown name _ = none

-- A new value in either file comes before the old values of both.
either_file :
    (b c : Bool) (new config hbbr : Option Text)
    → (c ≡ false → hbbr ≡ none)
    → later (if c then later new hbbr else hbbr) (if b then later new config else config)
      ≡ (if b || c then later new (later hbbr config) else later hbbr config)
either_file true true none config hbbr h = refl
either_file true true (some v) config hbbr h = refl
either_file true false none config hbbr h = refl
either_file true false (some v) config hbbr h = rw (h refl) refl
either_file false true none config hbbr h = refl
either_file false true (some v) config hbbr h = refl
either_file false false new config hbbr h = refl

value_shown_lem :
    (name : Text) (caller : ℤ) (is_admin : ℤ → Bool) (files : Files)
    → is_admin caller ≡ true
    → value_shown name (get_server_params (some caller) is_admin files).0
      ≡ later
          (lookup name (read_hbbr_toml files.hbbr))
          (lookup name (read_config_toml files.config))
unfolding get_server_params
value_shown_lem name caller is_admin files admin =
    rw admin (lookup-extend (read_config_toml files.config) (read_hbbr_toml files.hbbr) name)

hbbr_answered :
    (files : Files) (w : Write)
    → w.0 ≡ true
    → hbbr_answer files w ≡ (success tt, record files { hbbr = w.1 })
hbbr_answered files (true, file) h = refl
hbbr_answered files (false, file) h = absurd (cc h)

config_answered :
    (params : Map Text Text) (files : Files) (w : Write)
    → w.0 ≡ true
    → (write_hbbr_toml true params files.hbbr).0 ≡ true
    → config_answer true params files w
      ≡ (success tt, record { config = w.1; hbbr = (write_hbbr_toml true params files.hbbr).1 })
config_answered params files (true, file) h k =
    hbbr_answered (record files { config = file }) (write_hbbr_toml true params files.hbbr) k
config_answered params files (false, file) h k = absurd (cc h)

-- Names of no key of hbbr.toml are not read from it.
lookup-read_hbbr_toml_other :
    (file : Option Text) (name : Text)
    → contains name (names hbbr_keys) ≡ false
    → lookup name (read_hbbr_toml file) ≡ none
unfolding lookup
lookup-read_hbbr_toml_other file name h =
    ap (lookup name) (read_hbbr_toml_lem file)
    ∙ lookup-read_lines_other hbbr_format hbbr_keys name (lines (content_or_empty file)) [] [] h

-- An administrator changes the parameters of the servers, both files can be written, and the values are
-- trimmed, of one line and not in quotes. Then the answer is success, and of the eleven names that the
-- two files have keys for, those with a new value show it afterwards, and all others show what they
-- showed before, whatever stands in the files.
pub get_server_params-update_server_params :
    (caller : ℤ) (is_admin : ℤ → Bool) (params : Map Text Text) (files : Files) (name : Text)
    → is_admin caller ≡ true
    → AllValues IsValue params
    → let (done, files') = update_server_params (some caller) is_admin true true params files in
      let shows =
        λ (fs : Files). value_shown name (get_server_params (some caller) is_admin fs).0 in
      (done ≡ success tt)
      × (shows files' ≡ (
          if contains name (names config_keys) || contains name (names hbbr_keys)
          then later (lookup name params) (shows files)
          else shows files))
unfolding update_server_params
get_server_params-update_server_params caller is_admin params files name admin good =
    let config = write_config_toml true params files.config in
    let hbbr = write_hbbr_toml true params files.hbbr in
    let files' : Files = record { config = config.1; hbbr = hbbr.1 } in
    let answered : update_server_params (some caller) is_admin true true params files
        ≡ (success tt, files') =
      rw admin (
        config_answered params files config (config_written params files.config [] good).0
          (hbbr_written params files.hbbr ([], []) good).0) in
    rw answered (
      refl,
      value_shown_lem name caller is_admin files' admin
          ∙ ap (λ x. later x (lookup name (read_config_toml config.1)))
              (lookup-read_hbbr_toml params files.hbbr name good)
          ∙ ap
              (later (
                after_update (names hbbr_keys) name params
                  (lookup name (read_hbbr_toml files.hbbr))))
              (lookup-read_config_toml params files.config name good)
          ∙ either_file (contains name (names config_keys)) (contains name (names hbbr_keys))
              (lookup name params) (lookup name (read_config_toml files.config))
              (lookup name (read_hbbr_toml files.hbbr))
              (λ h. lookup-read_hbbr_toml_other files.hbbr name h)
          ∙ ap (λ x. after_updates name params x)
              (sym (value_shown_lem name caller is_admin files admin)),
    )
