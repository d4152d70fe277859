-- ===== src/Client/Proxy/RoundTrip.antt =====
-- On the uuid by which nat-client/src/socks5.rs names a target, and its reading in
-- nat-client/src/rendezvous_mediator.rs.
use nat_server.Common.{
  ℕ, ◌<◌, ◌^◌, ◌≡◌, refl, true, false, some, ◌∷◌, ◌++◌, arith, contains, nat_has_eq, ◌∙◌, ap,
}
use nat_server.Common.Split.{splitn, split_once, strip_prefix, decimal}
use nat_server.Common.Split.Laws.{
  split_once-append, rsplit_once-append, parse_unsigned-decimal, decimal_plain,
}
use nat_server.Common.Text.{Text, text}
use nat_server.Client.Proxy.{
  ProxyEnv, proxy_uuid, proxy_target, is_proxy_uuid, decoded, target_of, second_part,
}

-- The three pieces of a uuid.
pieces :
    (code hex8 : Text)
    → contains b':' code ≡ false
    → second_part (splitn 3 b':' (text "proxy:" ++ (code ++ (b':' ∷ hex8)))) ≡ some code
unfolding splitn split_once
pieces code hex8 h = rw (split_once-append b':' code hex8 h) refl

target_read :
    (host : Text) (port : ℕ)
    → 0 < port
    → port < 2 ^ 16
    → target_of (some (host ++ (b':' ∷ decimal port))) ≡ some (host, port)
target_read host port h k =
    rw (rsplit_once-append b':' host (decimal port) (decimal_plain port b':' refl))
      (rw (parse_unsigned-decimal (2 ^ 16) port k h) (ground arith))

-- The exit node reads from the uuid of the proxy the host and the port that were asked for, whatever
-- colons are in the host, if the port is not 0. Of the crate base64 it takes that decoding undoes
-- encoding and that a code has no colon.
pub proxy_target-proxy_uuid :
    (p : ProxyEnv) (hex8 host : Text) (port : ℕ)
    → ((t : Text) → p.decode (p.encode t) ≡ some t)
    → ((t : Text) → contains b':' (p.encode t) ≡ false)
    → 0 < port
    → port < 2 ^ 16
    → (is_proxy_uuid (proxy_uuid p hex8 host port) ≡ true)
      × (proxy_target p (proxy_uuid p hex8 host port) ≡ some (host, port))
unfolding proxy_uuid proxy_target is_proxy_uuid strip_prefix
proxy_target-proxy_uuid p hex8 host port undo plain h k =
    let target = host ++ (b':' ∷ decimal port) in
    (
      refl,
      ap (λ o. target_of (decoded p o)) (pieces (p.encode target) hex8 (plain target))
          ∙ ap target_of (undo target)
          ∙ target_read host port h k,
    )
