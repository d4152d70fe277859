-- ===== src/Rendezvous/Register/Safety.antt =====
-- On RegisterPk by UDP in src/rendezvous_server.rs, from a sender who is not the peer.
use nat_server.Common.{◌≡◌, ◌≢◌, ◌⊎◌, none, some, [], arith, list_has_eq, list_eq_iff}
use nat_server.Common.Map.{lookup}
use nat_server.Common.Text.{Text, Bytes}
use nat_server.Net.{SocketAddr, Protocol, ip_of}
use nat_server.State.{Env, Server, Peer, after}
use nat_server.Message
use nat_server.Rendezvous.Limits.{check_ip_blocker}
use nat_server.PeerMap.Laws.{get_or_known}
use nat_server.Rendezvous.Frame.{Keeps, send_rk_res-Keeps, check_ip_blocker-Keeps}
use nat_server.Rendezvous.Register.{check_registration, register_known, handle_register_pk}

-- The claim that a stranger makes: another uuid, or both another address and another key.
abbrev pub IsStranger : Peer → Bytes → Bytes → Text → Type 0
IsStranger p uuid pk ip = (uuid ≢ p.uuid) ⊎ ((ip ≢ p.info.ip) × (pk ≢ p.pk))

pub check_registration_stranger :
    (p : Peer) (uuid pk : Bytes) (ip : Text)
    → p.uuid ≢ []
    → IsStranger p uuid pk ip
    → check_registration p uuid pk ip ≡ none
unfolding check_registration
check_registration_stranger p uuid pk ip known stranger =
    ground (arith, list_eq_iff p.uuid uuid, list_eq_iff p.info.ip ip, list_eq_iff p.pk pk)

-- A refused claim changes nothing of a known peer.
register_known-Keeps :
    (env : Env) (rk : Message.RegisterPk) (addr : SocketAddr) (wire : Protocol) (ip : Text)
    (s : Server) (p : Peer)
    → lookup rk.id s.peers ≡ some p
    → p.uuid ≢ []
    → IsStranger p rk.uuid rk.pk ip
    → Keeps s (after (register_known env rk addr wire ip) s)
unfolding register_known
register_known-Keeps env rk addr wire ip s p found known stranger = ground (
  arith,
  get_or_known env rk.id s p found,
  check_registration_stranger p rk.uuid rk.pk ip known stranger,
  send_rk_res-Keeps env addr Message.uuid_mismatch wire s,
)

-- RegisterPk by UDP for a peer in memory that has a uuid, from a sender who gives another uuid, or
-- comes from another address with another key: the peers, the tables, the parked connections and
-- the configuration stay as they are.
pub handle_register_pk-Keeps :
    (env : Env) (rk : Message.RegisterPk) (addr : SocketAddr) (wire : Protocol) (s : Server)
    (p : Peer)
    → lookup rk.id s.peers ≡ some p
    → p.uuid ≢ []
    → IsStranger p rk.uuid rk.pk (env.ip_to_string (ip_of addr))
    → Keeps s (after (handle_register_pk env rk addr wire) s)
unfolding handle_register_pk
handle_register_pk-Keeps env rk addr wire s p found known stranger =
    let ip = env.ip_to_string (ip_of addr) in
    let s' = after (check_ip_blocker ip rk.id) s in
    let k = check_ip_blocker-Keeps ip rk.id s in
    let found' : lookup rk.id s'.peers ≡ some p = rw k.peers found in
    ground (
      arith,
      k,
      register_known-Keeps env rk addr wire ip s' p found' known stranger,
      send_rk_res-Keeps env addr Message.uuid_mismatch wire s,
      send_rk_res-Keeps env addr Message.too_frequent wire s',
    )
