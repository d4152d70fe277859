-- ===== src/Rendezvous/Frame.antt =====
-- On what the sending and counting steps of src/rendezvous_server.rs touch.
use nat_server.Common.{◌≡◌, arith, list_has_eq}
use nat_server.Common.Text.{Text}
use nat_server.Net.{SocketAddr, Protocol}
use nat_server.State.{Env, Server, after}
use nat_server.Message
use nat_server.Message.{Message}
use nat_server.Rendezvous.Limits.{check_ip_blocker}
use nat_server.Rendezvous.Output.{send_udp, send_rk_res}

-- The peers, the tables, the parked connections and the configuration are the same.
pub record Keeps (s t : Server) : Type 0 where
  pub peers : t.peers ≡ s.peers
  pub db : t.db ≡ s.db
  pub tcp_punch : t.tcp_punch ≡ s.tcp_punch
  pub conf : t.conf ≡ s.conf

pub Keeps-trans : {s t u : Server} → Keeps s t → Keeps t u → Keeps s u
Keeps-trans k l = ground arith

pub send_udp-Keeps :
    (env : Env) (m : Message) (addr : SocketAddr) (wire : Protocol) (s : Server)
    → Keeps s (after (send_udp env m addr wire) s)
unfolding send_udp
send_udp-Keeps env m addr wire s = ground arith

pub send_rk_res-Keeps :
    (env : Env) (addr : SocketAddr) (res : Message.PkResult) (wire : Protocol) (s : Server)
    → Keeps s (after (send_rk_res env addr res wire) s)
unfolding send_rk_res
send_rk_res-Keeps env addr res wire s = ground arith

pub check_ip_blocker-Keeps :
    (ip id : Text) (s : Server) → Keeps s (after (check_ip_blocker ip id) s)
unfolding check_ip_blocker
check_ip_blocker-Keeps ip id s = ground arith
