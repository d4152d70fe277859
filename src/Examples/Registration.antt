-- ===== src/Examples/Registration.antt =====
-- Examples for the registration of peers.
use nat_server.Common.{◌≤◌, list_eq, ◌≡◌, refl, inl, list_has_eq, false, none, some, [], ◌∷◌, arith}
use nat_server.Common.Map.{lookup, AllValues}
use nat_server.Common.Text.{text, trim}
use nat_server.Net.{capnp, ip_of, ipv4}
use nat_server.Database.{select_peer}
use nat_server.State.{Server, ok, after}
use nat_server.PeerMap.{require_jwt}
use nat_server.PeerMap.Reload.{reloaded}
use nat_server.PeerMap.Steps.{fetch, put_row}
use nat_server.PeerMap.Steps.Overtaken.{get_in_steps_overtaken}
use nat_server.Rendezvous.Frame.{Keeps}
use nat_server.Rendezvous.Limits.{check_ip_blocker}
use nat_server.Rendezvous.Limits.Bounds.{
  admitted, admitted-le, check_ip_blocker-AllBounded, IsBounded,
}
use nat_server.Rendezvous.Register.{handle_register_pk, token_of}
use nat_server.Rendezvous.Register.Safety.{handle_register_pk-Keeps}
use nat_server.Rendezvous.Register.Others.{handle_register_pk-Spares}
use nat_server.Rendezvous.Tcp.{tcp_register_pk}
use nat_server.Rendezvous.Tcp.Takeover.{tcp_register_pk_takeover}
use nat_server.Examples.{
  open_env, home, away, new_key, uuid_a, uuid_b, alice, alice_peer, alice_row, the_server, the_sink,
  register_as, show_ip,
}

is_known : lookup alice the_server.peers ≡ some alice_peer
unfolding lookup list_eq
is_known = refl

is_open : require_jwt open_env ≡ false
unfolding require_jwt
is_open = refl

no_token : token_of [] ≡ none
unfolding token_of trim
no_token = refl

handle_register_pk-Keeps_example :
    Keeps the_server
      (after (handle_register_pk open_env (register_as uuid_b new_key) away capnp) the_server)
handle_register_pk-Keeps_example =
    handle_register_pk-Keeps open_env (register_as uuid_b new_key) away capnp the_server alice_peer
      is_known (ground arith) (inl (ground arith))

admitted-le_example :
    admitted (text "x") ((100, alice) ∷ (200, alice) ∷ (300, alice) ∷ []) the_server ≤ 32
unfolding lookup
admitted-le_example =
    admitted-le (text "x") alice 100 ((200, alice) ∷ (300, alice) ∷ []) the_server refl
      (omega arith, omega arith, (omega arith, omega arith, tt))

check_ip_blocker-AllBounded_example :
    AllValues IsBounded (after (check_ip_blocker (text "x") alice) the_server).ip_blocker
check_ip_blocker-AllBounded_example = check_ip_blocker-AllBounded (text "x") alice the_server tt

is_stored : select_peer alice the_server.db.peer ≡ some alice_row
unfolding select_peer list_eq
is_stored = refl

tcp_register_pk_takeover_example :
    lookup alice
      (after
        (tcp_register_pk open_env (register_as uuid_b new_key) (some the_sink) away capnp)
        the_server).peers
    ≡ some (record alice_peer {
      socket_addr = away;
      uuid = uuid_b;
      pk = new_key;
      last_reg_time = 5_000_000;
      info = record { ip = show_ip (ip_of away) };
    })
tcp_register_pk_takeover_example =
    tcp_register_pk_takeover open_env (register_as uuid_b new_key) (some the_sink) away capnp
      the_server alice_peer alice_row is_known (ground arith) is_stored refl is_open no_token refl

handle_register_pk-Spares_example :
    lookup
      (text "bob")
      (after (handle_register_pk open_env (register_as uuid_a new_key) home capnp) the_server).peers
    ≡ lookup (text "bob") the_server.peers
unfolding list_eq
handle_register_pk-Spares_example =
    handle_register_pk-Spares open_env (register_as uuid_a new_key) home capnp (text "bob") refl
      the_server

-- Alice's row is in the table, and she is not in memory.
abbrev forgotten : Server
forgotten = record the_server { peers = [] }

get_in_steps_overtaken_example :
    let v = record alice_row { info = [] } in
    let register =
      tcp_register_pk open_env (register_as uuid_b new_key) (some the_sink) away capnp in
    let s1 = after (fetch open_env alice) forgotten in
    let s2 = after register s1 in
    let s3 = after (put_row open_env alice v) s2 in
    (fetch open_env alice forgotten ≡ (ok (some v), s1))
    × (lookup alice s2.peers
        ≡ some (record (reloaded open_env forgotten alice_row) {
          socket_addr = away;
          uuid = uuid_b;
          pk = new_key;
          last_reg_time = 5_000_000;
          info = record { ip = show_ip (ip_of away) };
          protocol = capnp;
        }))
    × (lookup alice s3.peers ≡ some (reloaded open_env s2 alice_row))
    × (select_peer alice s3.db.peer
        ≡ some (record alice_row { pk = new_key; info = 123 ∷ show_ip (ip_of away) }))
unfolding lookup
get_in_steps_overtaken_example =
    get_in_steps_overtaken open_env (register_as uuid_b new_key) (some the_sink) away capnp
      forgotten alice_row (record { ip = show_ip (ipv4 167772161) }) refl is_stored (ground arith)
      refl refl refl is_open no_token refl refl refl
