-- ===== src/Relay/Cmd.antt =====
-- `check_cmd` and `check_params` of src/relay_server.rs. A reply is a list of lines, each with the
-- values that its text shows.
pub mod Report
use nat_server.Relay.Lists.{cmd_add, cmd_remove}
use nat_server.Common.{
  ℕ, zero, suc, ◌+◌, ◌-◌, ◌*◌, ◌/◌, ◌%◌, ◌^◌, ◌<◌, Bool, true, false, ◌&&◌, ◌||◌, not, Option, none,
  some, List, [], ◌∷◌, ◌++◌, ltb, leb, nat_eq, ◌==◌, list_has_eq, nat_has_eq, if◌then◌else◌,
  unwrap_or, is_empty, length, contains, select, map,
}
use nat_server.Common.Map.{Map, lookup, insert, remove}
use nat_server.Common.Text.{Text, Bytes, text, trim, split, parse_unsigned}
use nat_server.Net.{IpAddr, SocketAddr, ip_of, port_of, is_loopback, ip_has_eq, addr_has_eq}
use nat_server.Relay.Types.{Usage, Stream, Waiting, Settings, Relay, RelayEnv, add_set, remove_set}

pub data Line : Type 0 where
  help : Line
  flag : Bool → Line
  entry : Text → Line
  value : ℕ → Line
  usage_of : Text → Usage → Line

-- blacklist(b) <ip>, blocklist(B) <ip>
unfoldable pub cmd_show : List Text → List Text → List Line
cmd_show [] set = map entry set
cmd_show (ip ∷ _) set = flag (contains ip set) ∷ []

-- `sort_by` on the total, the largest first; equal entries keep their order.
unfoldable pub insert_by_total : Text × Usage → List (Text × Usage) → List (Text × Usage)
insert_by_total x [] = x ∷ []
insert_by_total (ip, (e, t, h, s)) ((ip', (e', t', h', s')) ∷ us) =
    if ltb t' t || nat_eq t' t
    then (ip, (e, t, h, s)) ∷ (ip', (e', t', h', s')) ∷ us
    else (ip', (e', t', h', s')) ∷ insert_by_total (ip, (e, t, h, s)) us

unfoldable pub sort_by_total : List (Text × Usage) → List (Text × Usage)
sort_by_total [] = []
sort_by_total (u ∷ us) = insert_by_total u (sort_by_total us)

-- usage(u): what has run for no time yet is left out.
unfoldable pub usage_lines : List (Text × Usage) → List Line
usage_lines [] = []
usage_lines ((ip, (elapsed, total, highest, speed)) ∷ us) =
    if nat_eq elapsed 0
    then usage_lines us
    else usage_of ip (elapsed, total, highest, speed) ∷ usage_lines us

-- A setting in percent or in MiBit/s: `true` for the first scale.
abbrev pub float_arg : RelayEnv → Bool → Text → Option ℕ
float_arg env percent v = elim (env.parse_positive_f64 v) [
  | none ↦ none
  | some scaled ↦ some (scaled percent)
]

-- A setting in seconds, in milliseconds: a `usize` above 0. The product wraps.
abbrev pub seconds_arg : Text → Option ℕ
seconds_arg v = elim (parse_unsigned (2 ^ 64) v) [
  | none ↦ none
  | some n ↦ if ltb 0 n then some (n * 1000 % 2 ^ 64) else none
]

-- The environment variables of `check_params`.
pub record Params : Type 0 where
  pub threshold : Option Text
  pub start_check : Option Text
  pub limit : Option Text
  pub total : Option Text
  pub single : Option Text

abbrev pub param : Option Text → (Text → Option ℕ) → ℕ → ℕ
param none read old = old
param (some v) read old = unwrap_or (read v) old

-- `check_params`: each variable that holds a positive number replaces its setting.
unfoldable pub check_params : RelayEnv → Params → Settings → Settings
check_params env p c = record {
  downgrade_threshold = param p.threshold (float_arg env true) c.downgrade_threshold;
  downgrade_start_check = param p.start_check seconds_arg c.downgrade_start_check;
  limit_speed = param p.limit (float_arg env false) c.limit_speed;
  total_bandwidth = param p.total (float_arg env false) c.total_bandwidth;
  single_bandwidth = param p.single (float_arg env false) c.single_bandwidth;
}

-- A command on a setting: shown with no argument, else set if the argument is a positive number.
unfoldable pub cmd_setting :
    List Text → (Text → Option ℕ) → ℕ → (ℕ → Relay → Relay) → Relay → List Line × Relay
cmd_setting [] read old store r = (value old ∷ [], r)
cmd_setting (v ∷ _) read old store r = ([], elim (read v) [ none ↦ r | some n ↦ store n r ])

abbrev pub with_settings : (ℕ → Settings → Settings) → ℕ → Relay → Relay
with_settings f n r = record r { settings = f n r.settings }

-- The match on the command's name.
unfoldable pub run_cmd : RelayEnv → Text → List Text → Relay → List Line × Relay
run_cmd env w args r =
    if w == text "h"
    then (help ∷ [], r)
    else if w == text "blacklist-add" || w == text "ba"
    then ([], record r { blacklist = cmd_add args r.blacklist })
    else if w == text "blacklist-remove" || w == text "br"
    then ([], record r { blacklist = cmd_remove args r.blacklist })
    else if w == text "blacklist" || w == text "b"
    then (cmd_show args r.blacklist, r)
    else if w == text "blocklist-add" || w == text "Ba"
    then ([], record r { blocklist = cmd_add args r.blocklist })
    else if w == text "blocklist-remove" || w == text "Br"
    then ([], record r { blocklist = cmd_remove args r.blocklist })
    else if w == text "blocklist" || w == text "B"
    then (cmd_show args r.blocklist, r)
    else if w == text "downgrade-threshold" || w == text "dt"
    then cmd_setting args (float_arg env true) r.downgrade_threshold
        (with_settings λ n c. record c { downgrade_threshold = n }) r
    else if w == text "downgrade-start-check" || w == text "t"
    then cmd_setting args seconds_arg (r.downgrade_start_check / 1000)
        (with_settings λ n c. record c { downgrade_start_check = n }) r
    else if w == text "limit-speed" || w == text "ls"
    then cmd_setting args (float_arg env false) r.limit_speed
        (with_settings λ n c. record c { limit_speed = n }) r
    else if w == text "total-bandwidth" || w == text "tb"
    then cmd_setting args (float_arg env false) r.total_bandwidth
        (λ n r'. record r' { settings = record (r'.settings) { total_bandwidth = n }; limiter = n })
        r
    else if w == text "single-bandwidth" || w == text "sb"
    then cmd_setting args (float_arg env false) r.single_bandwidth
        (with_settings λ n c. record c { single_bandwidth = n }) r
    else if w == text "usage" || w == text "u"
    then (usage_lines (sort_by_total r.usage), r)
    else ([], r)

-- `check_cmd`.
unfoldable pub check_cmd : RelayEnv → Text → Relay → List Line × Relay
check_cmd env cmd r = elim (split b' ' (trim cmd)) [
  | [] ↦ ([], r)
  | w ∷ args ↦ run_cmd env w args r
]
