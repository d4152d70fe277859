-- ===== src/Relay/Lists/Blocked.antt =====
-- On the block list of src/relay_server.rs: its commands, and `handle_connection`.
use nat_server.Common.{◌≡◌, Bool, true, false, [], ◌∷◌, arith, contains, list_has_eq, list_eq}
use nat_server.Common.Text.{Text, text, split}
use nat_server.Net.{SocketAddr, ip_of, is_loopback}
use nat_server.Relay.Types.{Relay, RelayEnv}
use nat_server.Relay.Lists.Members.{contains-cmd}
use nat_server.Relay.Lists.{cmd_add}
use nat_server.Relay.Cmd.{run_cmd}
use nat_server.Relay.Pair.{handle_connection, refused, admitted}

-- A connection that does not come from this machine is refused after the command `Ba` that names its
-- address, and is let in after a following `Br` that names it.
pub handle_connection-run_cmd :
    (env : RelayEnv) (addr : SocketAddr) (ws : Bool) (arg : Text) (r : Relay)
    → let ip = ip_of (env.try_into_v4 addr) in
      is_loopback ip ≡ false
      → contains (env.ip_to_string ip) (split b'|' arg) ≡ true
      → let r1 = (run_cmd env (text "Ba") (arg ∷ []) r).1 in
        let r2 = (run_cmd env (text "Br") (arg ∷ []) r1).1 in
        (handle_connection env addr ws r1 ≡ refused) × (handle_connection env addr ws r2 ≡ admitted)
unfolding handle_connection run_cmd list_eq
handle_connection-run_cmd env addr ws arg r remote named =
    let x = env.ip_to_string (ip_of (env.try_into_v4 addr)) in
    ground (
      arith,
      contains-cmd x arg [] r.blocklist,
      contains-cmd x arg [] (cmd_add (arg ∷ []) r.blocklist),
    )
