-- ===== src/Rendezvous/Relays/Rotation.antt =====
-- On `get_relay_server` of src/rendezvous_server.rs.
use nat_server.Common.{
  ℕ, zero, suc, ◌+◌, ◌%◌, ◌^◌, ◌≤◌, ◌<◌, ◌≡◌, ◌≢◌, ◌↔◌, refl, true, some, List, [], ◌∷◌, arith,
  length, is_empty, get_elem?, get_or,
}
use nat_server.Common.Text.{Text}
use nat_server.State.{Server, ok, after, result}
use nat_server.Rendezvous.Relays.{get_relay_server}

get_elem?-get_or : (xs : List Text) (i : ℕ) → i < length xs → get_elem? xs i ≡ some (get_or xs i [])
get_elem?-get_or [] i h = elim h [ ]
get_elem?-get_or (x ∷ xs) zero h = refl
get_elem?-get_or (x ∷ xs) (suc i) h = get_elem?-get_or xs i (omega arith)

is_empty-length : (xs : List Text) → (is_empty xs ≡ true) ↔ (length xs ≡ 0)
is_empty-length [] = ground arith
is_empty-length (x ∷ xs) = ground arith

nil_of_is_empty : (xs : List Text) → is_empty xs ≡ true → xs ≡ []
nil_of_is_empty [] h = refl
nil_of_is_empty (x ∷ xs) h = cc

-- If there is a relay server, the chosen one is that of the list at the counter's remainder by the
-- list's length.
pub get_relay_server_index :
    (s : Server) (x : Text)
    → s.conf.relay_servers ≢ []
    → result get_relay_server s ≡ ok x
    → get_elem? s.conf.relay_servers (s.rotation % length s.conf.relay_servers) ≡ some x
unfolding get_relay_server
get_relay_server_index s x some_server h =
    let rs = s.conf.relay_servers in
    let i = s.rotation % length rs in
    ground (arith, is_empty-length rs, nil_of_is_empty rs, get_elem?-get_or rs i)

-- With two servers or more, the counter moves on by one, unless it wraps.
pub get_relay_server_next :
    (s : Server)
    → 2 ≤ length s.conf.relay_servers
    → s.rotation + 1 < 2 ^ 64
    → (after get_relay_server s).rotation ≡ s.rotation + 1
unfolding get_relay_server
get_relay_server_next s two room = ground (arith, is_empty-length s.conf.relay_servers)
