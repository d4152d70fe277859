-- ===== src/Accounts/Toml/Written.antt =====
-- On what src/settings_api.rs reads of config.toml and hbbr.toml after it has written them.
use nat_server.Common.{
  true, false, Option, none, some, List, [], ◌∷◌, contains, nat_has_eq, list_has_eq, is_empty,
  if◌then◌else◌, list_eq, ◌≡◌, refl, sym, ap, ◌∙◌, Bool-cases, Option-cases, inl, inr,
}
use nat_server.Common.Map.{Map, lookup, AllValues}
use nat_server.Common.Text.{Text, text, trim, split}
use nat_server.Accounts.IpLists.{lines, drop_return}
use nat_server.Accounts.Toml.{
  config_keys, hbbr_keys, Key, key_has_eq, config_format, hbbr_format, read_lines, read_config_toml,
  read_hbbr_toml,
}
use nat_server.Accounts.Toml.Update.{
  updates_of, content_or_empty, write_config_toml, write_hbbr_toml,
}
use nat_server.Accounts.Toml.Assignment.{IsValue, is_key-IsKey}
use nat_server.Accounts.Toml.Values.{value, later}
use nat_server.Accounts.Toml.Flat.{key_word, value-update_flat_keys}
use nat_server.Accounts.Toml.Sections.{section_word}
use nat_server.Accounts.Toml.Sectioned.{PlainSections, value-update_sectioned_keys}
use nat_server.Accounts.Toml.Tables.{IsTable, names, updates_of-Distinct, updates_of-AllUsable}
use nat_server.Accounts.Toml.Names.{lookup-read_lines_updated}

config-IsTable : IsTable key_word config_keys
unfolding lookup list_eq trim
config-IsTable =
    let ok = is_key-IsKey in
    (
      refl,
      refl,
      ok (text "port") refl,
      (
        refl,
        refl,
        ok (text "serial") refl,
        (
          refl,
          refl,
          ok (text "key") refl,
          (refl, refl, ok (text "mask") refl, (refl, refl, ok (text "relay_servers") refl, tt)),
        ),
      ),
    )

pub hbbr-IsTable : IsTable section_word hbbr_keys
unfolding lookup list_eq trim
hbbr-IsTable =
    let ok = is_key-IsKey in
    (
      refl,
      refl,
      ok (text "port") refl,
      (
        refl,
        refl,
        ok (text "websocket_port") refl,
        (
          refl,
          refl,
          ok (text "secret") refl,
          (
            refl,
            refl,
            ok (text "max_connections") refl,
            (
              refl,
              refl,
              ok (text "total_limit") refl,
              (refl, refl, ok (text "single_limit") refl, tt),
            ),
          ),
        ),
      ),
    )

updates_of-PlainSections :
    (table : Map Key Text) (params : Map Text Text)
    → PlainSections table
    → PlainSections (updates_of table params)
unfolding updates_of
updates_of-PlainSections [] params h = tt
updates_of-PlainSections ((q, name) ∷ table) params (h, r) =
    let rest = updates_of-PlainSections table params r in
    elim (Option-cases (lookup name params)) [
      | inl none_given ↦ rw none_given rest
      | inr (v, given) ↦ rw given (h, rest)
    ]

hbbr-PlainSections : PlainSections hbbr_keys
hbbr-PlainSections = (refl, (refl, (refl, (refl, (refl, (refl, tt))))))

read_config_toml_lem :
    (file : Option Text)
    → read_config_toml file
      ≡ read_lines config_format config_keys (lines (content_or_empty file)) false []
unfolding read_config_toml read_lines split drop_return
read_config_toml_lem none = refl
read_config_toml_lem (some content) = refl

pub read_hbbr_toml_lem :
    (file : Option Text)
    → read_hbbr_toml file ≡ read_lines hbbr_format hbbr_keys (lines (content_or_empty file)) [] []
unfolding read_hbbr_toml read_lines split drop_return
read_hbbr_toml_lem none = refl
read_hbbr_toml_lem (some content) = refl

-- What a name shows after an update.
abbrev pub after_update : List Text → Text → Map Text Text → Option Text → Option Text
after_update known name params old =
    if contains name known then later (lookup name params) old else old

empty_updates : {K : Type 0} (us : Map K Text) → is_empty us ≡ true → us ≡ []
empty_updates [] h = refl
empty_updates (u ∷ us) h = absurd (cc h)

pub config_written :
    (params : Map Text Text) (file : Option Text) (q : Text)
    → AllValues IsValue params
    → let (done, file') = write_config_toml true params file in
      (done ≡ true)
      × (value config_format q (lines (content_or_empty file')) false none
          ≡ later
              (lookup q (updates_of config_keys params))
              (value config_format q (lines (content_or_empty file)) false none))
unfolding write_config_toml lookup
config_written params file q good =
    let us = updates_of config_keys params in
    elim (Bool-cases (is_empty us)) [
      | inl nothing ↦
          let gone : lookup q us ≡ none = rw (empty_updates us nothing) refl in
          rw nothing (refl, rw gone refl)
      | inr some_given ↦ rw some_given (
        refl,
        value-update_flat_keys q us file
            (updates_of-AllUsable key_word config_keys params config-IsTable good)
            (updates_of-Distinct key_word config_keys params config-IsTable),
      )
    ]

pub hbbr_written :
    (params : Map Text Text) (file : Option Text) (q : Key)
    → AllValues IsValue params
    → let (done, file') = write_hbbr_toml true params file in
      (done ≡ true)
      × (value hbbr_format q (lines (content_or_empty file')) [] none
          ≡ later
              (lookup q (updates_of hbbr_keys params))
              (value hbbr_format q (lines (content_or_empty file)) [] none))
unfolding write_hbbr_toml lookup
hbbr_written params file q good =
    let us = updates_of hbbr_keys params in
    elim (Bool-cases (is_empty us)) [
      | inl nothing ↦
          let gone : lookup q us ≡ none = rw (empty_updates us nothing) refl in
          rw nothing (refl, rw gone refl)
      | inr some_given ↦ rw some_given (
        refl,
        value-update_sectioned_keys q us file
            (updates_of-AllUsable section_word hbbr_keys params hbbr-IsTable good)
            (updates_of-Distinct section_word hbbr_keys params hbbr-IsTable)
            (updates_of-PlainSections hbbr_keys params hbbr-PlainSections),
      )
    ]

pub lookup-read_config_toml :
    (params : Map Text Text) (file : Option Text) (name : Text)
    → AllValues IsValue params
    → lookup name (read_config_toml (write_config_toml true params file).1)
      ≡ after_update (names config_keys) name params (lookup name (read_config_toml file))
lookup-read_config_toml params file name good =
    let file' = (write_config_toml true params file).1 in
    let ls = lines (content_or_empty file) in
    ap (lookup name) (read_config_toml_lem file')
    ∙ lookup-read_lines_updated config_format key_word config_keys params name false ls
        (lines (content_or_empty file')) config-IsTable (λ q. (config_written params file q good).1)
    ∙ ap (λ m. after_update (names config_keys) name params (lookup name m))
        (sym (read_config_toml_lem file))

pub lookup-read_hbbr_toml :
    (params : Map Text Text) (file : Option Text) (name : Text)
    → AllValues IsValue params
    → lookup name (read_hbbr_toml (write_hbbr_toml true params file).1)
      ≡ after_update (names hbbr_keys) name params (lookup name (read_hbbr_toml file))
lookup-read_hbbr_toml params file name good =
    let file' = (write_hbbr_toml true params file).1 in
    let ls = lines (content_or_empty file) in
    ap (lookup name) (read_hbbr_toml_lem file')
    ∙ lookup-read_lines_updated hbbr_format section_word hbbr_keys params name [] ls
        (lines (content_or_empty file')) hbbr-IsTable (λ q. (hbbr_written params file q good).1)
    ∙ ap (λ m. after_update (names hbbr_keys) name params (lookup name m))
        (sym (read_hbbr_toml_lem file))
