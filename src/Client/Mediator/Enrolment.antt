-- ===== src/Client/Mediator/Enrolment.antt =====
-- A new client of nat-client/src/rendezvous_mediator.rs and the server of src/rendezvous_server.rs.
use nat_server.Common.{
  ℕ, suc, ◌+◌, ◌≤◌, true, false, none, some, [], ◌∷◌, list_has_eq, is_empty, unwrap_or, ◌≡◌, refl,
  ap, arith,
}
use nat_server.Common.Map.{lookup, insert, lookup-insert_self}
use nat_server.Common.Text.{Text, Bytes, trim}
use nat_server.Net.{SocketAddr, Protocol, ip_of}
use nat_server.Message
use nat_server.Database.{select_peer}
use nat_server.Database.Statements.{db_get_peer, statement, insert_peer_with_user}
use nat_server.State.{Env, Server, Peer, Sink, tcp, after, ok}
use nat_server.PeerMap.{
  get, get_or, default_peer, require_jwt, bind_user, mark_online, store_peer, write_peer,
  registered_peer, update_pk,
}
use nat_server.PeerMap.Laws.{write_peer_known}
use nat_server.PeerMap.Register.{update_pk_new}
use nat_server.Rendezvous.Register.{token_of}
use nat_server.Rendezvous.Output.{send_to_sink}
use nat_server.Rendezvous.Tcp.{tcp_register_pk}
use nat_server.Client.Config.{get_host_key_confirmed, get_auth_token}
use nat_server.Client.Mediator.{
  MediatorEnv, Mediator, message, goes_on, register_pk_message, put, send_rendezvous, register_pk,
  handle_pk_response, handle_msg, receive, needs_registration, tick,
}

db_get_peer_absent :
    (env : Env) (id : Text) (s : Server)
    → select_peer id s.db.peer ≡ none
    → env.db_ok s.calls ≡ true
    → db_get_peer env id s ≡ (ok none, record s { calls = suc s.calls })
unfolding db_get_peer statement
db_get_peer_absent env id s new db = ground arith

-- A peer that is neither in memory nor in the table is made with defaults.
get_or_unknown :
    (env : Env) (id : Text) (s : Server)
    → lookup id s.peers ≡ none
    → select_peer id s.db.peer ≡ none
    → env.db_ok s.calls ≡ true
    → get_or env id s
      ≡ (ok tt, record s { calls = suc s.calls; peers = insert id (default_peer s.now) s.peers })
unfolding get_or get
get_or_unknown env id s absent new db = ground (arith, db_get_peer_absent env id s new db)

-- What a first registration sends is its answer only.
update_pk_unsent :
    (env : Env) (id : Text) (addr : SocketAddr) (uuid pk : Bytes) (ip : Text) (s : Server)
    (p : Peer)
    → lookup id s.peers ≡ some p
    → p.guid ≡ []
    → require_jwt env ≡ false
    → env.db_ok s.calls ≡ true
    → (after (update_pk env id addr uuid pk ip none) s).sent ≡ s.sent
unfolding update_pk bind_user mark_online store_peer insert_peer_with_user statement write_peer
update_pk_unsent env id addr uuid pk ip s p found new open_to_all db =
    ground (arith, lookup-insert_self id (registered_peer addr uuid pk ip s.now p) s.peers)

-- Where no token is required and none is given, the id is unknown in memory and in the table, and
-- every statement and every encoding succeeds, RegisterPk by TCP is answered OK, and the table
-- then holds a row for the id with the sender's uuid and key.
tcp_register_pk_fresh :
    (env : Env) (rf : Message.RegisterPk) (sink : Sink) (addr : SocketAddr) (wire : Protocol)
    (s : Server)
    → lookup rf.id s.peers ≡ none
    → select_peer rf.id s.db.peer ≡ none
    → require_jwt env ≡ false
    → token_of rf.user_token ≡ none
    → ((n : ℕ) → env.db_ok n ≡ true)
    → ((m : Message.Message) → env.can_encode m wire ≡ true)
    → let s' = after (tcp_register_pk env rf (some sink) addr wire) s in
      (s'.sent
        ≡ tcp sink (Message.register_pk_response (Message.pk_response Message.registered)) wire
          ∷ s.sent)
      × (select_peer rf.id s'.db.peer
          ≡ some (record {
            guid = env.new_guid (suc s.calls);
            id = rf.id;
            uuid = rf.uuid;
            pk = rf.pk;
            info = env.info_to_json (record { ip = env.ip_to_string (ip_of addr) });
            user_id = none;
            device_id = none;
          }))
unfolding tcp_register_pk send_to_sink default_peer
tcp_register_pk_fresh env rf sink addr wire s absent new open_to_all blank db encodes =
    let ip = env.ip_to_string (ip_of addr) in
    let p = default_peer s.now in
    let s1 : Server = record s { calls = suc s.calls; peers = insert rf.id p s.peers } in
    let s2 : Server = after (update_pk env rf.id addr rf.uuid rf.pk ip none) s1 in
    let done =
      update_pk_new env rf.id addr rf.uuid rf.pk ip s1 p (lookup-insert_self rf.id p s.peers) refl
        open_to_all (db (suc s.calls)) in
    ground (
      arith,
      get_or_unknown env rf.id s absent new (db s.calls),
      done,
      update_pk_unsent env rf.id addr rf.uuid rf.pk ip s1 p (lookup-insert_self rf.id p s.peers)
          refl open_to_all (db (suc s.calls)),
      write_peer_known rf.id (λ (w : Peer). record w { protocol = wire }) s2
          (registered_peer addr rf.uuid rf.pk ip s.now
            (record p { guid = env.new_guid (suc s.calls) }))
          done.1,
      encodes (Message.register_pk_response (Message.pk_response Message.registered)),
    )

-- Where every send succeeds and the client is not logged in, the first tick of an unconfirmed
-- mediator sends RegisterPk.
tick_unconfirmed :
    (e : MediatorEnv) (now : ℕ) (m : Mediator)
    → m.should_exit ≡ false
    → now ≤ m.last_recv_msg + 22_500
    → m.last_register_sent ≡ none
    → needs_registration m ≡ true
    → e.can_encode (Message.register_pk (register_pk_message e now m.config)) m.wire ≡ true
    → e.send_ok m.sends ≡ true
    → tick e now m ≡ (
      goes_on,
      record m {
        sends = suc m.sends;
        sent = message (Message.register_pk (register_pk_message e now m.config)) m.wire ∷ m.sent;
        last_register_sent = some now;
      },
    )
unfolding tick register_pk send_rendezvous put
tick_unconfirmed e now m stays t first new encodes sends =
    ground (arith, stays, t, first, new, encodes, sends)

-- The answer OK confirms the key, here and for this host.
confirmed_online :
    (e : MediatorEnv) (now : ℕ) (b : Bytes) (m : Mediator)
    → is_empty b ≡ false
    → e.parse b ≡ some (Message.register_pk_response (Message.pk_response Message.registered))
    → let (turn, m') = receive e now (some b) m in
      (turn ≡ goes_on) × (needs_registration m' ≡ false) × (m'.online ≡ true)
unfolding receive handle_msg handle_pk_response get_host_key_confirmed
confirmed_online e now b m nonempty p =
    ground (arith, nonempty, p, lookup-insert_self m.host_prefix true m.config.host_keys_confirmed)

-- A mediator without a confirmed key that is not logged in, and a server that requires no token and
-- knows the client's id neither in memory nor in its table: where every send, statement and encoding
-- involved succeeds and the tick comes within 22.5 s of the last frame with no registration sent
-- before, the tick sends RegisterPk with the client's id, uuid and key; the server, handed that message
-- on a connection, answers OK and stores a row with that uuid and key; and the client, handed that
-- answer, has its key confirmed and is online.
pub enrolment :
    (e : MediatorEnv) (env : Env) (m : Mediator) (s : Server) (sink : Sink) (addr : SocketAddr)
    (now later : ℕ) (b : Bytes)
    → m.should_exit ≡ false
    → now ≤ m.last_recv_msg + 22_500
    → m.last_register_sent ≡ none
    → needs_registration m ≡ true
    → get_auth_token (e.unix now) m.config ≡ none
    → e.can_encode (Message.register_pk (register_pk_message e now m.config)) m.wire ≡ true
    → e.send_ok m.sends ≡ true
    → lookup m.config.id s.peers ≡ none
    → select_peer m.config.id s.db.peer ≡ none
    → require_jwt env ≡ false
    → ((n : ℕ) → env.db_ok n ≡ true)
    → ((x : Message.Message) → env.can_encode x m.wire ≡ true)
    → is_empty b ≡ false
    → e.parse b ≡ some (Message.register_pk_response (Message.pk_response Message.registered))
    → let rf = register_pk_message e now m.config in
      let (turn, m1) = tick e now m in
      let s' = after (tcp_register_pk env rf (some sink) addr m.wire) s in
      let (turn', m2) = receive e later (some b) m1 in
      (turn ≡ goes_on)
      × (m1.sent ≡ message (Message.register_pk rf) m.wire ∷ m.sent)
      × (s'.sent
          ≡ tcp sink (Message.register_pk_response (Message.pk_response Message.registered)) m.wire
            ∷ s.sent)
      × (select_peer m.config.id s'.db.peer
          ≡ some (record {
            guid = env.new_guid (suc s.calls);
            id = m.config.id;
            uuid = unwrap_or (e.base64_decode m.config.uuid) [];
            pk = unwrap_or (e.base64_decode m.config.pk) [];
            info = env.info_to_json (record { ip = env.ip_to_string (ip_of addr) });
            user_id = none;
            device_id = none;
          }))
      × (turn' ≡ goes_on)
      × (needs_registration m2 ≡ false)
      × (m2.online ≡ true)
unfolding token_of trim
enrolment e env m s sink addr now later b stays t first new no_login encodes sends absent no_row
      open_to_all db answers nonempty p =
    let rf = register_pk_message e now m.config in
    let sent = tick_unconfirmed e now m stays t first new encodes sends in
    let blank : token_of rf.user_token ≡ none = rw no_login refl in
    let (answered, stored) =
      tcp_register_pk_fresh env rf sink addr m.wire s absent no_row open_to_all blank db answers in
    let (goes, confirmed, online) = confirmed_online e later b (tick e now m).1 nonempty p in
    (ap (λ x. x.0) sent, ap (λ x. x.1.sent) sent, answered, stored, goes, confirmed, online)
