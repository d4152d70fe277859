-- ===== src/Rendezvous/Register/Replies.antt =====
-- On the answers to RegisterPk by UDP in src/rendezvous_server.rs.
use nat_server.Common.{
  ℕ, suc, list_has_eq, ◌≡◌, ◌≢◌, inr, Bool, true, false, none, some, [], ◌∷◌, arith,
}
use nat_server.Common.Map.{lookup, insert, lookup-insert_self}
use nat_server.Common.Text.{Text, Bytes}
use nat_server.Net.{SocketAddr, Protocol}
use nat_server.Database.{PeerRow, select_peer}
use nat_server.State.{Env, Server, Peer, PeerInfo, udp, after}
use nat_server.Message
use nat_server.PeerMap.{require_jwt, get_or, default_peer}
use nat_server.PeerMap.Laws.{write_peer_known}
use nat_server.PeerMap.Register.{update_pk_unbound}
use nat_server.PeerMap.Reload.{reloaded, get-reloaded}
use nat_server.Rendezvous.Output.{send_udp, send_rk_res}
use nat_server.Rendezvous.Register.{check_registration, accept_pk, token_of, register_known}
use nat_server.Rendezvous.Register.Safety.{check_registration_stranger}

-- Where tokens are required and the message has none, a RegisterPk by UDP for a peer in memory
-- that passed the checks, from an unchanged address, changes of the peer no more than its counter
-- and its protocol, leaves the tables alone, and is answered by OK, if that can be encoded and
-- sent.
pub accept_pk_unbound :
    (env : Env) (rk : Message.RegisterPk) (addr : SocketAddr) (wire : Protocol) (ip : Text)
    (req_pk : ℕ × ℕ) (changed : Bool) (s : Server) (p : Peer)
    → lookup rk.id s.peers ≡ some p
    → require_jwt env ≡ true
    → token_of rk.user_token ≡ none
    → env.can_encode (Message.register_pk_response (Message.pk_response Message.registered)) wire
      ≡ true
    → env.udp_ok s.calls ≡ true
    → let s' = after (accept_pk env rk addr wire ip req_pk changed false) s in
      (s'.sent
        ≡ udp (Message.register_pk_response (Message.pk_response Message.registered)) addr wire
          ∷ s.sent)
      × (lookup rk.id s'.peers ≡ some (record p { reg_pk = req_pk; protocol = wire }))
      × (s'.db ≡ s.db)
unfolding accept_pk send_udp
accept_pk_unbound env rk addr wire ip req_pk changed s p found required blank encodes sends =
    let p1 : Peer = record p { reg_pk = req_pk } in
    let s1 : Server = record s { peers = insert rk.id p1 s.peers } in
    let p2 : Peer = record p1 { protocol = wire } in
    ground (
      arith,
      write_peer_known rk.id (λ (w : Peer). record w { reg_pk = req_pk }) s p found,
      lookup-insert_self rk.id p1 s.peers,
      update_pk_unbound env rk.id addr rk.uuid rk.pk ip (token_of rk.user_token) s1 required,
      write_peer_known rk.id (λ (w : Peer). record w { protocol = wire }) s1 p1,
      lookup-insert_self rk.id p2 s1.peers,
    )

reloaded_stranger :
    (env : Env) (s : Server) (row : PeerRow) (uuid pk : Bytes) (ip : Text)
    → row.uuid ≢ []
    → ip ≢ []
    → pk ≢ row.pk
    → check_registration (reloaded env s row) uuid pk ip ≡ none
unfolding reloaded default_peer
reloaded_stranger env s row uuid pk ip known some_ip new_key =
    check_registration_stranger (reloaded env s row) uuid pk ip known (inr (some_ip, new_key))

-- A RegisterPk for a peer that is in the table only, from the address that its row holds in the
-- JSON object `info`, with another key: the answer is UUID_MISMATCH, where the row has a uuid, the
-- address is not empty, the statement succeeds and the answer can be encoded and sent. No JSON
-- object is a JSON string, and the empty text is no JSON.
pub register_reloaded :
    (env : Env) (rk : Message.RegisterPk) (addr : SocketAddr) (wire : Protocol) (ip : Text)
    (s : Server) (row : PeerRow)
    → lookup rk.id s.peers ≡ none
    → select_peer rk.id s.db.peer ≡ some row
    → row.info ≡ env.info_to_json (record { ip = ip })
    → env.json_to_string (env.info_to_json (record { ip = ip })) ≡ none
    → env.json_to_info [] ≡ none
    → env.db_ok s.calls ≡ true
    → row.uuid ≢ []
    → ip ≢ []
    → rk.pk ≢ row.pk
    → env.can_encode (Message.register_pk_response (Message.pk_response Message.uuid_mismatch)) wire
      ≡ true
    → env.udp_ok (suc s.calls) ≡ true
    → (after (register_known env rk addr wire ip) s).sent
      ≡ udp (Message.register_pk_response (Message.pk_response Message.uuid_mismatch)) addr wire
        ∷ s.sent
unfolding register_known get_or send_rk_res
register_reloaded env rk addr wire ip s row absent stored info no_string no_info db known some_ip
      new_key encodes sends =
    let i : PeerInfo = record { ip = ip } in
    let p = reloaded env s row in
    ground (
      arith,
      get-reloaded env rk.id s row i absent stored info no_string no_info db,
      lookup-insert_self rk.id p s.peers,
      reloaded_stranger env s row rk.uuid rk.pk ip known some_ip new_key,
    )
