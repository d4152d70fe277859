-- ===== src/Relay/Pair/Matching.antt =====
-- On the pairing in `make_pair_` of src/relay_server.rs.
use nat_server.Common.{
  ℕ, ◌+◌, ◌<◌, list_has_eq, list_eq_iff, ◌≡◌, ◌≢◌, true, not, ◌&&◌, ◌||◌, none, some, List, [], ◌∷◌,
  arith, is_empty, inl, inr, Bool-cases, ◌==◌, leb,
}
use nat_server.Common.Map.{Map, lookup, insert, remove, lookup-insert_self, lookup-remove}
use nat_server.Common.Text.{Text}
use nat_server.Message.{RequestRelay}
use nat_server.Relay.Types.{Relay, Stream, Waiting}
use nat_server.Relay.Pair.{waits, paired, raw_if, pair_timeout, request_relay, wake, expire}

-- The request is let in: it has a uuid, and no key is set or the right one is given.
pub record IsAccepted (key : Text) (rf : RequestRelay) : Type 0 where
  pub has_key : (is_empty key || rf.licence_key == key) ≡ true
  pub has_uuid : rf.uuid ≢ []

pub request_waits :
    (key : Text) (rf : RequestRelay) (a : Stream) (id : Text) (now : ℕ) (r : Relay)
    → IsAccepted key rf
    → lookup rf.uuid r.peers ≡ none
    → request_relay key rf a id now r ≡ (
      waits,
      record r {
        peers = insert rf.uuid a r.peers;
        sleeping = record { uuid = rf.uuid; until = now + pair_timeout } ∷ r.sleeping;
      },
    )
unfolding request_relay
request_waits key rf a id now r ok free = ground arith

request_pairs :
    (key : Text) (rf : RequestRelay) (a b : Stream) (id : Text) (now : ℕ) (r : Relay)
    → IsAccepted key rf
    → lookup rf.uuid r.peers ≡ some a
    → request_relay key rf b id now r ≡ (
      paired (raw_if (not b.ws && not a.ws) b) (raw_if (not b.ws && not a.ws) a),
      record r { peers = remove rf.uuid r.peers; usage = insert id (0, 0, 0, 0) r.usage },
    )
unfolding request_relay
request_pairs key rf a b id now r ok found = ground arith

module _ (key : Text) (rf rf' : RequestRelay) (a b : Stream) (id id' : Text) (t t' : ℕ) (r : Relay)
    (first : IsAccepted key rf) (second : IsAccepted key rf') (same : rf'.uuid ≡ rf.uuid)
    (free : lookup rf.uuid r.peers ≡ none) where
  -- Of two accepted requests of one uuid under which none waits, the first waits and the second is
  -- paired with it, raw if neither is a WebSocket; then nothing waits under the uuid, and the usage of
  -- the second has its entry.
  pub request_relay_pair :
      let (o, r1) = request_relay key rf a id t r in
      let (o', r2) = request_relay key rf' b id' t' r1 in
      let raw = not b.ws && not a.ws in
      (o ≡ waits)
      × (o' ≡ paired (raw_if raw b) (raw_if raw a))
      × (lookup rf.uuid r2.peers ≡ none)
      × (lookup id' r2.usage ≡ some (0, 0, 0, 0))
  request_relay_pair =
      let w : Waiting = record { uuid = rf.uuid; until = t + pair_timeout } in
      let r1 : Relay = record r { peers = insert rf.uuid a r.peers; sleeping = w ∷ r.sleeping } in
      let found : lookup rf'.uuid r1.peers ≡ some a =
        rw same (lookup-insert_self rf.uuid a r.peers) in
      ground (
        arith,
        request_waits key rf a id t r first free,
        request_pairs key rf' a b id' t' r1 second found,
        lookup-remove rf'.uuid rf.uuid r1.peers,
        list_eq_iff rf'.uuid rf.uuid,
        lookup-insert_self id' (0, 0, 0, 0) r.usage,
      )

-- What is taken out stays out.
pub lookup-wake :
    (uuid : Text) (now : ℕ) (ws : List Waiting) (peers : Map Text Stream)
    → lookup uuid peers ≡ none
    → lookup uuid (wake now ws peers) ≡ none
unfolding wake
lookup-wake uuid now [] peers h = h
lookup-wake uuid now (w ∷ ws) peers h = elim (Bool-cases (leb w.until now)) [
  | inl due ↦ rw due (
      lookup-wake uuid now ws (remove w.uuid peers)
        (ground (arith, lookup-remove w.uuid uuid peers)))
  | inr not_due ↦ rw not_due (lookup-wake uuid now ws peers h)
]

module _ (key : Text) (rf rf' rf'' : RequestRelay) (a b c : Stream) (id id' id'' : Text)
    (t t' t'' : ℕ) (r : Relay) (first : IsAccepted key rf) (second : IsAccepted key rf')
    (third : IsAccepted key rf'') (same : rf'.uuid ≡ rf.uuid) (same' : rf''.uuid ≡ rf.uuid)
    (free : lookup rf.uuid r.peers ≡ none) where
  -- After such a pair, a third accepted request of the uuid, made while the task of the first still
  -- sleeps, waits, and is taken out when that task wakes, before its own 30 seconds are over.
  pub request_relay_early :
      t < t''
      → t'' < t + pair_timeout
      → let r1 = (request_relay key rf a id t r).1 in
        let r2 = (request_relay key rf' b id' t' r1).1 in
        let r3 = (request_relay key rf'' c id'' t'' r2).1 in
        (lookup rf.uuid r3.peers ≡ some c)
        × (lookup rf.uuid (expire (t + pair_timeout) r3).peers ≡ none)
  unfolding expire wake
  request_relay_early later within =
      let w : Waiting = record { uuid = rf.uuid; until = t + pair_timeout } in
      let r1 : Relay = record r { peers = insert rf.uuid a r.peers; sleeping = w ∷ r.sleeping } in
      let r2 : Relay = record r1 {
        peers = remove rf'.uuid r1.peers;
        usage = insert id' (0, 0, 0, 0) r.usage;
      } in
      let found : lookup rf'.uuid r1.peers ≡ some a =
        rw same (lookup-insert_self rf.uuid a r.peers) in
      let free' : lookup rf''.uuid r2.peers ≡ none =
        ground (arith, lookup-remove rf'.uuid rf''.uuid r1.peers, list_eq_iff rf'.uuid rf''.uuid) in
      let peers = insert rf''.uuid c r2.peers in
      let held : lookup rf.uuid peers ≡ some c =
        ground (arith, lookup-insert_self rf''.uuid c r2.peers) in
      let gone : lookup rf.uuid (remove rf.uuid peers) ≡ none =
        ground (arith, lookup-remove rf.uuid rf.uuid peers, list_eq_iff rf.uuid rf.uuid) in
      ground (
        arith,
        request_waits key rf a id t r first free,
        request_pairs key rf' a b id' t' r1 second found,
        request_waits key rf'' c id'' t'' r2 third free',
        held,
        lookup-wake rf.uuid (t + pair_timeout) r.sleeping (remove rf.uuid peers) gone,
      )
