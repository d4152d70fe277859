-- ===== src/Examples/Clients.antt =====
-- Examples for nat-client: a request to the proxy, its target, the bridge, and versions.
use nat_server.Common.{
  ℕ, zero, suc, ◌-◌, ◌≡◌, refl, ltb, true, false, some, [], ◌∷◌, if◌then◌else◌, arith, length, ap,
  map, contains, nat_has_eq,
}
use nat_server.Common.Text.{Text, Bytes, text}
use nat_server.Client.Proxy.{ProxyEnv, proxy_uuid, is_proxy_uuid, proxy_target}
use nat_server.Client.Proxy.RoundTrip.{proxy_target-proxy_uuid}
use nat_server.Client.Socks.{SocksEnv, relayed, handle_client, read_line}
use nat_server.Client.Socks.Requests.{domain_target, client_bytes, handle_client-served}
use nat_server.Client.Socks.Lines.{HasEnded, read_line_ends}
use nat_server.Client.Bridge.{
  opened, receiving, local_sends, read_local, Joined, Moves, here, next, caller_steps, both_opened,
}
use nat_server.Client.Bridge.Waiting.{both_wait, both_wait_silent}

-- A code without colons: characters from the colon on are moved up by one.
abbrev code : ℕ → ℕ
code c = if ltb c 58 then c else suc c

abbrev plain : ℕ → ℕ
plain c = if ltb c 58 then c else c - 1

abbrev pub the_proxy : ProxyEnv
the_proxy = record {
  encode = map code;
  decode = λ t. some (map plain t);
  check_port = λ host port. host;
  increase_port = λ host n. host;
  version = text "1";
}

pub plain-code : (t : Text) → map plain (map code t) ≡ t
plain-code [] = refl
plain-code (c ∷ t) = ground (arith, plain-code t)

pub no_colon : (t : Text) → contains b':' (map code t) ≡ false
no_colon [] = refl
no_colon (c ∷ t) = ground (arith, no_colon t)

proxy_target-proxy_uuid_example :
    (is_proxy_uuid (proxy_uuid the_proxy (text "0123abcd") (text "::1") 443) ≡ true)
    × (proxy_target the_proxy (proxy_uuid the_proxy (text "0123abcd") (text "::1") 443)
        ≡ some (text "::1", 443))
proxy_target-proxy_uuid_example =
    proxy_target-proxy_uuid the_proxy (text "0123abcd") (text "::1") 443
      (λ t. ap some (plain-code t)) no_colon (omega arith) (omega arith)

abbrev the_socks : SocksEnv
the_socks = record { from_utf8 = some; from_utf8_lossy = λ b. b; relays = λ host port. true }

handle_client-served_example :
    handle_client the_socks
      (client_bytes (0 ∷ 2 ∷ []) (domain_target (text "a.b")) 443 (text "GET"))
    ≡ record {
      written = 5 ∷ 0 ∷ 5 ∷ 0 ∷ 0 ∷ 1 ∷ 0 ∷ 0 ∷ 0 ∷ 0 ∷ 0 ∷ 0 ∷ [];
      ended = relayed (text "a.b") 443 (text "GET");
    }
handle_client-served_example =
    handle_client-served the_socks (0 ∷ 2 ∷ []) (domain_target (text "a.b")) (text "a.b") 443
      (text "GET") refl

unfoldable letters : ℕ → Bytes
letters zero = []
letters (suc n) = b'a' ∷ letters n

length-letters : (n : ℕ) → length (letters n) ≡ n
unfolding letters
length-letters zero = refl
length-letters (suc n) = ap suc (length-letters n)

read_line_ends_example : HasEnded 8192 (letters 9000) (read_line b'G' (b'G' ∷ []) 1 (letters 9000))
read_line_ends_example = read_line_ends b'G' (letters 9000) (omega (arith, length-letters 9000))

abbrev chunk : Bytes
chunk = text "x"

-- The caller's program sends, and its chunk is read but not sent.
abbrev held_back : Joined
held_back = record both_wait { caller = record opened { holder = receiving; held = some chunk } }

to_held_back : Moves both_wait held_back
to_held_back =
    next (next here (caller_steps (local_sends chunk refl) refl))
      (caller_steps (read_local chunk [] refl refl refl refl) refl)

both_wait_silent_example :
    Moves both_opened both_wait
    × (held_back.caller.to_relay ≡ [])
    × (held_back.exit.to_relay ≡ [])
    × (held_back.caller.to_local ≡ [])
    × (held_back.exit.to_local ≡ [])
both_wait_silent_example = both_wait_silent held_back to_held_back (refl, refl)
