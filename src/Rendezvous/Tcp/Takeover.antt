-- ===== src/Rendezvous/Tcp/Takeover.antt =====
-- On RegisterPk by TCP in src/rendezvous_server.rs.
use nat_server.Common.{list_has_eq, ◌≡◌, ◌≢◌, false, true, Option, none, some, [], arith}
use nat_server.Common.Map.{lookup, lookup-insert_self}
use nat_server.Net.{SocketAddr, Protocol, ip_of}
use nat_server.Message
use nat_server.Database.{PeerRow, select_peer}
use nat_server.State.{Env, Server, Peer, Sink, after}
use nat_server.PeerMap.{require_jwt, registered_peer, update_pk}
use nat_server.PeerMap.Laws.{get_or_known, write_peer_known}
use nat_server.PeerMap.Register.{update_pk_known}
use nat_server.Rendezvous.Register.{token_of}
use nat_server.Rendezvous.Output.{send_to_sink}
use nat_server.Rendezvous.Tcp.{tcp_register_pk}

-- Where no token is required and none is given, the table holds the row of a stored peer in memory
-- under the same guid, and the statement succeeds, RegisterPk by TCP gives that peer the sender's
-- uuid, key, address and protocol, whatever the peer had.
pub tcp_register_pk_takeover :
    (env : Env) (rf : Message.RegisterPk) (sink : Option Sink) (addr : SocketAddr) (wire : Protocol)
    (s : Server) (p : Peer) (r : PeerRow)
    → lookup rf.id s.peers ≡ some p
    → p.guid ≢ []
    → select_peer rf.id s.db.peer ≡ some r
    → r.guid ≡ p.guid
    → require_jwt env ≡ false
    → token_of rf.user_token ≡ none
    → env.db_ok s.calls ≡ true
    → lookup rf.id (after (tcp_register_pk env rf sink addr wire) s).peers
      ≡ some (record p {
        socket_addr = addr;
        uuid = rf.uuid;
        pk = rf.pk;
        last_reg_time = s.now;
        info = record { ip = env.ip_to_string (ip_of addr) };
        protocol = wire;
      })
unfolding tcp_register_pk send_to_sink
tcp_register_pk_takeover env rf sink addr wire s p r found old stored same open_to_all blank db =
    let ip = env.ip_to_string (ip_of addr) in
    let p' : Peer = registered_peer addr rf.uuid rf.pk ip s.now p in
    let s' : Server = after (update_pk env rf.id addr rf.uuid rf.pk ip none) s in
    let done =
      update_pk_known env rf.id addr rf.uuid rf.pk ip s p r found old stored same open_to_all db in
    ground (
      arith,
      get_or_known env rf.id s p found,
      done,
      write_peer_known rf.id (λ (w : Peer). record w { protocol = wire }) s' p' done.1,
      lookup-insert_self rf.id (record p' { protocol = wire }) s'.peers,
    )

-- The row of the peer gets the sender's key then, and the new entry of the address.
pub tcp_register_pk_row :
    (env : Env) (rf : Message.RegisterPk) (sink : Option Sink) (addr : SocketAddr) (wire : Protocol)
    (s : Server) (p : Peer) (r : PeerRow)
    → lookup rf.id s.peers ≡ some p
    → p.guid ≢ []
    → select_peer rf.id s.db.peer ≡ some r
    → r.guid ≡ p.guid
    → require_jwt env ≡ false
    → token_of rf.user_token ≡ none
    → env.db_ok s.calls ≡ true
    → select_peer rf.id (after (tcp_register_pk env rf sink addr wire) s).db.peer
      ≡ some (record r {
        pk = rf.pk;
        info = env.info_to_json (record { ip = env.ip_to_string (ip_of addr) });
        user_id = p.user_id;
        device_id = p.device_id;
      })
unfolding tcp_register_pk send_to_sink
tcp_register_pk_row env rf sink addr wire s p r found old stored same open_to_all blank db =
    let ip = env.ip_to_string (ip_of addr) in
    let p' : Peer = registered_peer addr rf.uuid rf.pk ip s.now p in
    let s' : Server = after (update_pk env rf.id addr rf.uuid rf.pk ip none) s in
    let done =
      update_pk_known env rf.id addr rf.uuid rf.pk ip s p r found old stored same open_to_all db in
    ground (
      arith,
      get_or_known env rf.id s p found,
      done,
      write_peer_known rf.id (λ (w : Peer). record w { protocol = wire }) s' p' done.1,
    )
