-- ===== src/Relay/Lists.antt =====
-- The black and block lists of src/relay_server.rs: loading, and the commands on them.
pub mod Blocked
pub mod Members
use nat_server.Common.{
  ℕ, zero, suc, ◌+◌, ◌-◌, ◌*◌, ◌/◌, ◌%◌, ◌^◌, ◌<◌, Bool, true, false, ◌&&◌, ◌||◌, not, Option, none,
  some, List, [], ◌∷◌, ◌++◌, ltb, leb, nat_eq, ◌==◌, list_has_eq, nat_has_eq, if◌then◌else◌,
  unwrap_or, is_empty, length, contains, select, map,
}
use nat_server.Common.Map.{Map, lookup, insert, remove}
use nat_server.Common.Text.{Text, Bytes, text, trim, split, parse_unsigned}
use nat_server.Net.{IpAddr, SocketAddr, ip_of, port_of, is_loopback, ip_has_eq, addr_has_eq}
use nat_server.Relay.Types.{Usage, Stream, Waiting, Settings, Relay, RelayEnv, add_set, remove_set}

-- The loop over the lines of a list's file: the first word of each line, be it empty.
unfoldable pub load_lines : List Text → List Text → List Text
load_lines [] set = set
load_lines (x ∷ xs) set =
    load_lines xs (elim (split b' ' (trim x)) [ [] ↦ set | ip ∷ _ ↦ add_set ip set ])

-- `start`: the file, if it can be read, is added to the set.
unfoldable pub load_list : Option Text → List Text → List Text
unfolding load_lines
load_list none set = set
load_list (some contents) set = load_lines (split b'\n' contents) set

unfoldable pub add_all : List Text → List Text → List Text
add_all [] set = set
add_all (ip ∷ ips) set = add_all ips (add_set ip set)

unfoldable pub remove_all : List Text → List Text → List Text
remove_all [] set = set
remove_all (ip ∷ ips) set = remove_all ips (remove_set ip set)

-- blacklist-add(ba) <ip>, blocklist-add(Ba) <ip>: several are joined by `|`.
unfoldable pub cmd_add : List Text → List Text → List Text
unfolding add_all
cmd_add [] set = set
cmd_add (ip ∷ _) set = add_all (split b'|' ip) set

-- blacklist-remove(br) <ip>, blocklist-remove(Br) <ip>
unfoldable pub cmd_remove : List Text → List Text → List Text
unfolding remove_all
cmd_remove [] set = set
cmd_remove (ip ∷ _) set = if ip == text "all" then [] else remove_all (split b'|' ip) set
