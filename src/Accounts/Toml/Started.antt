-- ===== src/Accounts/Toml/Started.antt =====
-- src/hbbr.rs and `start` of src/relay_server.rs: what the relay server listens on, and its key, once
-- src/settings_api.rs has written hbbr.toml.
use nat_server.Common.{
  ℕ, suc, ◌+◌, ◌%◌, ◌^◌, ◌||◌, true, Option, none, some, list_has_eq, nat_has_eq, nat_eq, ltb,
  if◌then◌else◌, drop, length, ◌==◌, ◌≡◌, ◌∙◌, ap, arith,
}
use nat_server.Common.Int.{pos}
use nat_server.Common.Map.{Map, lookup, AllValues}
use nat_server.Common.Text.{Text, Bytes, text, parse_signed, parse_unsigned}
use nat_server.Common.Split.{decimal}
use nat_server.Common.Split.Laws.{parse_unsigned-decimal_cases}
use nat_server.Accounts.Toml.Update.{write_hbbr_toml}
use nat_server.Accounts.Toml.Assignment.{IsValue}
use nat_server.Accounts.Toml.Loaded.{
  Ini, StartFiles, start_arguments, start_arguments-write_hbbr_toml,
}

-- The crate base64, and the public key that `gen_sk` reads from its file or makes.
pub record KeyEnv : Type 0 where
  pub decode : Text → Option Bytes
  pub encode : Bytes → Text
  pub gen_sk : Text

abbrev pub secret_key_bytes : ℕ
secret_key_bytes = 64

-- Of a secret key the public half is taken.
abbrev pub public_half : KeyEnv → Text → Option Bytes → Text
public_half k key none = key
public_half k key (some sk) =
    if nat_eq (length sk) secret_key_bytes then k.encode (drop 32 sk) else key

unfoldable pub get_server_sk : KeyEnv → Text → Text
get_server_sk k key =
    let key' = public_half k key (k.decode key) in
    if (key' == text "-") || (key' == text "_") then k.gen_sk else key'

-- The two ports that `start` listens on, and the key of the server.
pub record Listening : Type 0 where
  pub port : ℕ
  pub port2 : ℕ
  pub key : Text

-- `port + 2` is a u16, which wraps in a release build.
abbrev pub listening : Text → Option ℕ → Option Listening
listening key none = none
listening key (some port) = some (record { port = port; port2 = (port + 2) % 2 ^ 16; key = key })

-- `start` up to its listeners; none where it returns an error.
unfoldable pub start : KeyEnv → Text → Text → Option Listening
unfolding get_server_sk
start k port key = listening (get_server_sk k key) (parse_unsigned (2 ^ 16) port)

-- `main`, with the two options of the command line.
unfoldable pub main :
    KeyEnv → Ini → StartFiles → Map Text Text → Option Text → Option Text → Option Listening
unfolding start_arguments start
main k ini files env port_arg key_arg =
    let arguments = start_arguments ini files env port_arg key_arg in
    start k arguments.0 arguments.1

-- On a port that is a number above 0.
start-decimal :
    (k : KeyEnv) (n : ℕ) (key : Text)
    → start k (decimal (suc n)) key ≡ (
        if ltb (suc n) (2 ^ 16)
        then some (record { port = suc n; port2 = (suc n + 2) % 2 ^ 16; key = get_server_sk k key })
        else none)
unfolding start
start-decimal k n key = ground (arith, parse_unsigned-decimal_cases (2 ^ 16) (suc n) (omega arith))

-- After an administrator has set the port and the key of the relay server to values that are trimmed,
-- of one line and not in quotes, where the text of the port is a positive number below 2^31, and
-- hbbr.toml was written: whatever the environment and the other files say, and with no option on the
-- command line, the relay server listens on this port and on the second after it, modulo 2^16, with
-- what `get_server_sk` makes of this key, if the port is below 2^16; and else it does not start.
pub main-write_hbbr_toml :
    (k : KeyEnv) (ini : Ini) (files : StartFiles) (env params : Map Text Text) (n : ℕ)
    (port key : Text)
    → AllValues IsValue params
    → lookup (text "hbbr_port") params ≡ some port
    → lookup (text "hbbr_key") params ≡ some key
    → parse_signed (2 ^ 31) port ≡ some (pos (suc n))
    → let files' : StartFiles = record files {
      hbbr = (write_hbbr_toml true params files.hbbr).1;
    } in
      main k ini files' env none none ≡ (
        if ltb (suc n) (2 ^ 16)
        then some (record { port = suc n; port2 = (suc n + 2) % 2 ^ 16; key = get_server_sk k key })
        else none)
unfolding main
main-write_hbbr_toml k ini files env params n port key good p q number =
    ap (λ a. start k a.0 a.1)
      (start_arguments-write_hbbr_toml ini files env params n port key good p q number)
    ∙ start-decimal k n key
