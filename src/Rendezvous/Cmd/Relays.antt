-- ===== src/Rendezvous/Cmd/Relays.antt =====
-- On the console command always-use-relay of src/rendezvous_server.rs.
use nat_server.Common.{list_eq, ◌≡◌, [], ◌∷◌, arith}
use nat_server.Common.Text.{Text, text}
use nat_server.State.{Env, Server, after}
use nat_server.Rendezvous.Relays.{get_servers, parse_relay_servers}
use nat_server.Rendezvous.Cmd.{run_cmd, cmd_always_use_relay}
use nat_server.Rendezvous.Loop.{deliver, receive_next}

-- After the command `aur` with an argument that names no valid server, and an empty channel, the main
-- loop's next read of its channel leaves no relay server.
pub always_use_relay_wipes :
    (env : Env) (arg : Text) (s : Server)
    → get_servers env arg ≡ []
    → s.channel ≡ []
    → (receive_next env (after (run_cmd env (text "aur") (arg ∷ [])) s)).conf.relay_servers ≡ []
unfolding list_eq run_cmd cmd_always_use_relay receive_next deliver parse_relay_servers
always_use_relay_wipes env arg s no_host idle = ground arith
