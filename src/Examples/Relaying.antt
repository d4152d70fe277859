-- ===== src/Examples/Relaying.antt =====
-- Examples for the relay.
use nat_server.Common.{ℕ, ◌≡◌, refl, list_eq, list_has_eq, true, none, some, List, [], ◌∷◌, arith}
use nat_server.Common.Map.{lookup}
use nat_server.Common.Text.{text}
use nat_server.Relay.Types.{default_settings}
use nat_server.Relay.Pair.{waits, paired, request_relay, expire}
use nat_server.Relay.Pair.Matching.{IsAccepted, request_relay_pair}
use nat_server.Relay.Loop.{
  Transfer, Input, from_peer, from_stream, go_on, start_transfer, account, receive, after_input,
  second, round, run,
}
use nat_server.Relay.Loop.Accounting.{transfer_of, run_forwards, stream_out, peer_out}
use nat_server.Relay.Pair.Expiry.{request_relay_expires}
use nat_server.Examples.{the_relay, the_relay_env, stream_of, relay_as}

accepts : IsAccepted [] (relay_as (text "u"))
accepts = record { has_key = refl; has_uuid = ground arith }

request_relay_pair_example :
    let (o, r1) = request_relay [] (relay_as (text "u")) (stream_of 1) (text "i") 0 the_relay in
    let (o', r2) = request_relay [] (relay_as (text "u")) (stream_of 2) (text "j") 50 r1 in
    (o ≡ waits)
    × (o' ≡ paired (record (stream_of 2) { raw = true }) (record (stream_of 1) { raw = true }))
    × (lookup (text "u") r2.peers ≡ none)
    × (lookup (text "j") r2.usage ≡ some (0, 0, 0, 0))
unfolding lookup
request_relay_pair_example =
    request_relay_pair [] (relay_as (text "u")) (relay_as (text "u")) (stream_of 1) (stream_of 2)
      (text "i") (text "j") 0 50 the_relay accepts accepts refl refl

-- Data both ways, within a second and after it.
abbrev traffic : List (ℕ × Input)
traffic =
    (100, from_peer (1 ∷ 2 ∷ []) true)
    ∷ (200, from_stream (3 ∷ []) true)
    ∷ (1_500, from_peer (4 ∷ []) true)
    ∷ []

abbrev begun : Transfer
begun = start_transfer the_relay_env (text "i") (text "ip") 0 default_settings

goes_on : (run traffic the_relay begun).0 ≡ go_on (transfer_of (run traffic the_relay begun).0)
unfolding run round receive account after_input second start_transfer list_eq
goes_on = refl

run_forwards_example :
    let u = transfer_of (run traffic the_relay begun).0 in
    (u.to_stream ≡ stream_out traffic begun.to_stream)
    × (u.to_peer ≡ peer_out traffic begun.to_peer)
run_forwards_example =
    run_forwards traffic the_relay begun (transfer_of (run traffic the_relay begun).0) goes_on

request_relay_expires_example :
    lookup
      (text "u")
      (expire 40_000
        (request_relay [] (relay_as (text "u")) (stream_of 1) (text "i") 0 the_relay).1).peers
    ≡ none
unfolding lookup
request_relay_expires_example =
    request_relay_expires [] (relay_as (text "u")) (stream_of 1) (text "i") 0 40_000 the_relay
      accepts refl (omega arith)
