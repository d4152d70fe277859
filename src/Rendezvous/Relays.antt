-- ===== src/Rendezvous/Relays.antt =====
-- Relay servers, the local network and the signed key of src/rendezvous_server.rs, with
-- `get_servers` of src/common.rs.
pub mod Rotation
use nat_server.PeerMap.{get}
use nat_server.Common.{
  ℕ, ◌+◌, ◌%◌, ◌^◌, Bool, false, ◌&&◌, not, none, some, List, [], ◌++◌, nat_eq, list_has_eq,
  nat_has_eq, if◌then◌else◌, is_empty, length, contains, select, get_or as item_or,
}
use nat_server.Common.Text.{Text, Bytes, text, split}
use nat_server.Net.{SocketAddr, v4, v6, to_ipv4, ip_has_eq, addr_has_eq}
use nat_server.State.{Inner, Server, Env, ok, M, pure, gets, ◌>>=◌}

-- `Vec<String>` joined to a text by a character: does the text hold it?
abbrev pub has_char : ℕ → Text → Bool
has_char c s = contains c s

module _ (env : Env) where
  -- `test_if_valid_server`.
  unfoldable pub test_if_valid_server : Text → Bool
  test_if_valid_server host =
      if has_char b':' host then env.resolves host else env.resolves (host ++ text ":0")

  -- `get_servers`.
  unfoldable pub get_servers : Text → List Text
  get_servers s = select (λ x. not (is_empty x) && test_if_valid_server x) (split b',' s)

  -- `parse_relay_servers`.
  unfoldable pub parse_relay_servers : Text → Server → Server
  parse_relay_servers text s =
      let rs = get_servers text in
      record s { conf = record (s.conf) { relay_servers0 = rs; relay_servers = rs } }

  -- `get_pk`: the id and key of a peer, signed by the server.
  unfoldable pub get_pk : Text → Text → M Bytes
  get_pk version id = do
    sk ← gets (λ s. s.conf.inner.sk)
    if is_empty version then pure [] else (elim sk [
      | none ↦ pure []
      | some sk ↦ do
        peer ← get env id
        elim peer [ none ↦ pure [] | some p ↦ pure (env.sign_id_pk sk id p.pk) ]
    ])

  -- `is_lan`.
  unfoldable pub is_lan : SocketAddr → Inner → Bool
  is_lan addr inner = elim inner.mask [
    | none ↦ false
    | some network ↦ elim addr [
      | v4 ip port ↦ env.network_contains network ip
      | v6 ip port flowinfo scope_id ↦ elim (to_ipv4 ip) [
        | none ↦ false
        | some ip' ↦ env.network_contains network ip'
      ]
    ]
  ]

-- `get_relay_server`: the only server, or the next of several. The counter is a `usize`.
unfoldable pub get_relay_server : M Text
get_relay_server s =
    let rs = s.conf.relay_servers in
    let n = length rs in
    if is_empty rs
    then (ok [], s)
    else if nat_eq n 1
    then (ok (item_or rs 0 []), s)
    else (ok (item_or rs (s.rotation % n) []), record s { rotation = (s.rotation + 1) % 2 ^ 64 })
