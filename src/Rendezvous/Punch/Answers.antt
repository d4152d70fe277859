-- ===== src/Rendezvous/Punch/Answers.antt =====
-- On `handle_punch_hole_request` of src/rendezvous_server.rs.
use nat_server.Common.{
  ℕ, ◌-◌, ◌^◌, ◌≤◌, ◌<◌, list_has_eq, ◌≡◌, ◌≢◌, ◌⊎◌, ◌↔◌, Bool, true, false, Option, none, some,
  arith, is_empty, ◌&&◌, ◌||◌, ◌==◌, if◌then◌else◌,
}
use nat_server.Common.Int.{pos}
use nat_server.Common.Map.{lookup}
use nat_server.Common.Text.{Text}
use nat_server.Net.{SocketAddr}
use nat_server.Message
use nat_server.Message.{Message}
use nat_server.State.{Env, Server, Peer, Result, ok, err, result}
use nat_server.PeerMap.Laws.{get_known}
use nat_server.Rendezvous.Relays.{is_lan, get_relay_server}
use nat_server.Rendezvous.Punch.{
  is_online, PunchAnswer, failure, punch_answer, handle_punch_hole_request,
}

-- A peer whose last registration is under 2^31 ms old (24.8 days) counts as online exactly if it is
-- under 30 seconds old.
pub is_online_recent :
    (now : ℕ) (p : Peer)
    → now - p.last_reg_time < 2 ^ 31
    → (is_online now p ≡ true) ↔ (now - p.last_reg_time < 30_000)
unfolding is_online
is_online_recent now p h = ground arith

-- From 2^31 to 2^32 ms after its last registration a peer counts as online again.
pub is_online_stale :
    (now : ℕ) (p : Peer)
    → 2 ^ 31 ≤ now - p.last_reg_time
    → now - p.last_reg_time < 2 ^ 32
    → is_online now p ≡ true
unfolding is_online
is_online_stale now p lo hi = ground arith

-- The request is let in: no key is set, or the right one is given.
abbrev pub has_key : Text → Message.PunchHoleRequest → Bool
has_key key ph = is_empty key || ph.licence_key == key

-- The peer that an answer goes to.
abbrev pub addressee : Result PunchAnswer → Option SocketAddr
addressee (ok a) = a.to_addr
addressee (err e) = none

module _ (env : Env) (addr : SocketAddr) (ph : Message.PunchHoleRequest) (key : Text) (ws : Bool)
    (s : Server) (r : Peer) (found : lookup ph.id s.peers ≡ some r) where
  -- For a peer B in memory, the answer to a request goes to B's address if no key is set or the
  -- given one is right, and B is online; else it goes to nobody but the one who asked.
  pub punch_addressee :
      addressee (result (handle_punch_hole_request env addr ph key ws) s)
      ≡ (if has_key key ph && is_online s.now r then some r.socket_addr else none)
  unfolding handle_punch_hole_request get_relay_server punch_answer
  punch_addressee = ground (arith, get_known env ph.id s r found)

  -- For a peer B in memory, a request with a wrong key is answered by LICENSE_MISMATCH, and one with
  -- the right key while B is not online by OFFLINE; neither changes the state.
  pub punch_refusals :
      (has_key key ph && is_online s.now r) ≡ false
      → handle_punch_hole_request env addr ph key ws s
        ≡ (ok (failure (if has_key key ph then Message.offline else Message.license_mismatch)), s)
  unfolding handle_punch_hole_request
  punch_refusals refused = ground (arith, get_known env ph.id s r found)

-- What a message to B says of NAT and relay; `none` for other messages.
abbrev pub punch_of : Message → Option Message.PunchHole
punch_of (Message.punch_hole p) = some p
punch_of _ = none

-- Where the relay is forced, or one of A and B is inside the local network and the other is not, a
-- punch hole message to B says symmetric NAT, and names the local address as relay if B is inside,
-- else the chosen relay.
pub punch_answer_forced :
    (env : Env) (addr : SocketAddr) (ph : Message.PunchHoleRequest) (ws : Bool) (relay : Text)
    (r : Peer) (s : Server) (p : Message.PunchHole)
    → punch_of (punch_answer env addr ph ws relay r s).msg_out ≡ some p
    → (s.always_use_relay ≡ true)
      ⊎ (is_lan env r.socket_addr s.conf.inner ≢ is_lan env addr s.conf.inner)
    → (p.nat_type ≡ pos 2)
      × (p.relay_server
          ≡ (if is_lan env r.socket_addr s.conf.inner then s.conf.inner.local_ip else relay))
unfolding punch_answer
punch_answer_forced env addr ph ws relay r s p h forced = ground arith
