-- ===== src/Client/Socks/Requests.antt =====
-- On the requests that RFC 1928 describes, as nat-client/src/socks5.rs reads them.
use nat_server.Common.{
  ℕ, ◌+◌, ◌*◌, ◌/◌, ◌%◌, ◌≡◌, refl, Option, some, [], ◌∷◌, ◌++◌, arith, if◌then◌else◌, length, ap,
}
use nat_server.Common.Text.{Text, Bytes}
use nat_server.Client.Socks.{
  SocksEnv, got, read_exact, read_host, parse_socks5_addr, push_read, dotted, Handled, relayed,
  ends, no_auth, socks_reply, relay_failed, socks_target, socks_request, handle_socks5,
  handle_client,
}

read_exact-append : (a rest : Bytes) → read_exact (length a) (a ++ rest) ≡ got a rest
unfolding read_exact
read_exact-append [] rest = refl
read_exact-append (b ∷ a) rest = ap (push_read b) (read_exact-append a rest)

-- The address of a request: its type and its bytes.
pub data Target : Type 0 where
  ipv4_target : ℕ → ℕ → ℕ → ℕ → Target
  domain_target : Bytes → Target

abbrev pub target_type : Target → ℕ
target_type (ipv4_target a b c d) = 1
target_type (domain_target domain) = 3

abbrev pub target_bytes : Target → Bytes
target_bytes (ipv4_target a b c d) = a ∷ b ∷ c ∷ d ∷ []
target_bytes (domain_target domain) = length domain ∷ domain

-- The text by which the target is named, if it has one.
abbrev pub target_text : SocksEnv → Target → Option Text
target_text v (ipv4_target a b c d) = some (dotted (a ∷ b ∷ c ∷ d ∷ []))
target_text v (domain_target domain) = v.from_utf8 domain

-- A client's greeting with its methods, its request to connect, and what it sends next.
abbrev pub client_bytes : Bytes → Target → ℕ → Bytes → Bytes
client_bytes methods target port rest =
    5
    ∷ length methods
    ∷ (methods
        ++ (5
            ∷ 1
            ∷ 0
            ∷ target_type target
            ∷ (target_bytes target ++ (port / 256 ∷ port % 256 ∷ rest))))

-- The address and the port are read from the bytes after the header.
host_read :
    (v : SocksEnv) (target : Target) (host : Text) (more : Bytes)
    → target_text v target ≡ some host
    → read_host v (target_type target) (target_bytes target ++ more) ≡ got host more
unfolding read_host read_exact
host_read v (ipv4_target a b c d) host more h =
    let q : dotted (a ∷ b ∷ c ∷ d ∷ []) ≡ host = ground arith in rw q refl
host_read v (domain_target domain) host more h = rw (read_exact-append domain more, h) refl

address_read :
    (v : SocksEnv) (target : Target) (host : Text) (port : ℕ) (rest : Bytes)
    → target_text v target ≡ some host
    → parse_socks5_addr v
        (target_type target)
        (target_bytes target ++ (port / 256 ∷ port % 256 ∷ rest))
      ≡ got (host, port) rest
unfolding parse_socks5_addr read_exact
address_read v target host port rest h =
    rw (host_read v target host (port / 256 ∷ port % 256 ∷ rest) h)
      (let q : port / 256 * 256 + port % 256 ≡ port = omega arith in rw q refl)

-- What the proxy does for a host and a port.
abbrev pub served : SocksEnv → Text → ℕ → Bytes → Handled
served v host port rest =
    if v.relays host port
    then record { written = no_auth ++ socks_reply 0; ended = relayed host port rest }
    else ends (no_auth ++ socks_reply 5) relay_failed

-- A client that greets, with whatever methods, and asks to connect to an IPv4 address or to a domain
-- name in UTF-8, is connected to this host and port, with its further bytes passed on; if the relay
-- fails it is told so.
pub handle_client-served :
    (v : SocksEnv) (methods : Bytes) (target : Target) (host : Text) (port : ℕ) (rest : Bytes)
    → target_text v target ≡ some host
    → handle_client v (client_bytes methods target port rest) ≡ served v host port rest
unfolding handle_client handle_socks5 socks_request socks_target
handle_client-served v methods target host port rest h =
    rw
      (read_exact-append methods (
        5 ∷ 1 ∷ 0 ∷ target_type target ∷ (target_bytes target ++ (port / 256 ∷ port % 256 ∷ rest))))
      (unfold read_exact in rw (address_read v target host port rest h) refl)
