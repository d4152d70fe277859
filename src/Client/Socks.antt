-- ===== src/Client/Socks.antt =====
-- nat-client/src/socks5.rs: the dialogues of SOCKS5 and of HTTP CONNECT. A connection is the list of
-- the bytes that arrive on it and the bytes written so far; when the list is used up, a read fails.
pub mod Lines
pub mod Requests
use mathlib.Core.List.{reverse}
use nat_server.Common.{
  ℕ, zero, suc, ◌+◌, ◌-◌, ◌*◌, ◌/◌, ◌%◌, ◌^◌, Bool, true, false, ◌&&◌, ◌||◌, not, Option, none,
  some, List, [], ◌∷◌, ◌++◌, ltb, leb, nat_eq, ◌==◌, list_has_eq, if◌then◌else◌, is_empty,
  unwrap_or, map,
}
use nat_server.Common.Split.{splitn, rsplit_once, strip_prefix, decimal}
use nat_server.Common.Text.{Text, Bytes, text, parse_unsigned, trim_end}

-- How the handling of a connection ends.
pub data Stop : Type 0 where
  eof bad_version bad_command bad_address_type bad_domain line_too_long bad_method bad_format : Stop
  relay_failed : Stop

-- The standard library's reading of UTF-8, and whether `connect_via_relay` succeeds for a target.
pub record SocksEnv : Type 0 where
  pub from_utf8 : Bytes → Option Text
  pub from_utf8_lossy : Bytes → Text
  pub relays : Text → ℕ → Bool

-- A value read and the bytes after it.
pub data Read (A : Type 0) : Type 0 where
  got : A → Bytes → Read A
  stop : Stop → Read A

infixl 5 ◌>>=◌
abbrev pub ◌>>=◌ : {A B : Type 0} → Read A → (A → Bytes → Read B) → Read B
got a rest >>= f = f a rest
stop x >>= f = stop x

abbrev pub push_read : ℕ → Read Bytes → Read Bytes
push_read b (got bs rest) = got (b ∷ bs) rest
push_read b (stop x) = stop x

-- `read_exact` into a buffer of `n` bytes.
unfoldable pub read_exact : ℕ → Bytes → Read Bytes
read_exact zero input = got [] input
read_exact (suc n) [] = stop eof
read_exact (suc n) (b ∷ input) = push_read b (read_exact n input)

abbrev pub hex_digit : ℕ → ℕ
hex_digit d = if ltb d 10 then b'0' + d else b'a' + (d - 10)

-- `{:02x}` of a byte.
abbrev pub hex2 : ℕ → Text
hex2 b = hex_digit (b / 16) ∷ hex_digit (b % 16) ∷ []

-- `{}.{}.{}.{}`
unfoldable pub dotted : Bytes → Text
dotted [] = []
dotted (b ∷ []) = decimal b
dotted (b ∷ c ∷ bs) = decimal b ++ (b'.' ∷ dotted (c ∷ bs))

-- Pairs of bytes in hexadecimal, between colons.
unfoldable pub colons : Bytes → Text
colons (a ∷ b ∷ []) = hex2 a ++ hex2 b
colons (a ∷ b ∷ bs) = hex2 a ++ (hex2 b ++ (b':' ∷ colons bs))
colons _ = []

-- `u16::from_be_bytes`.
abbrev pub big_endian : Bytes → ℕ
big_endian [] = 0
big_endian (b ∷ []) = b
big_endian (b ∷ c ∷ bs) = b * 256 + c

abbrev pub first_byte : Bytes → ℕ
first_byte [] = 0
first_byte (b ∷ bs) = b

module _ (v : SocksEnv) where
  abbrev pub domain_of : Option Text → Bytes → Read Text
  domain_of none rest = stop bad_domain
  domain_of (some t) rest = got t rest

  unfoldable pub read_host : ℕ → Bytes → Read Text
  read_host atyp input =
      if nat_eq atyp 1
      then read_exact 4 input >>= (λ ip rest. got (dotted ip) rest)
      else if nat_eq atyp 3
      then read_exact 1 input >>= (λ len rest.
        read_exact (first_byte len) rest >>= (λ domain rest'. domain_of (v.from_utf8 domain) rest'))
      else if nat_eq atyp 4
      then read_exact 16 input >>= (λ ip rest. got (colons ip) rest)
      else stop bad_address_type

  -- `parse_socks5_addr`.
  unfoldable pub parse_socks5_addr : ℕ → Bytes → Read (Text × ℕ)
  parse_socks5_addr atyp input =
      read_host atyp input
      >>= (λ host rest. read_exact 2 rest >>= (λ port rest'. got (host, big_endian port) rest'))

-- What a handler did: the bytes that it wrote, and how it ended: with a failure, or with a relay to the
-- target and the bytes that are to be passed on.
pub data End : Type 0 where
  failed : Stop → End
  relayed : Text → ℕ → Bytes → End

pub record Handled : Type 0 where
  pub written : Bytes
  pub ended : End

abbrev pub ends : Bytes → Stop → Handled
ends written x = record { written = written; ended = failed x }

-- The reply with this code, and an address of zeros.
abbrev pub socks_reply : ℕ → Bytes
socks_reply code = 5 ∷ code ∷ 0 ∷ 1 ∷ 0 ∷ 0 ∷ 0 ∷ 0 ∷ 0 ∷ 0 ∷ []

abbrev pub no_auth : Bytes
no_auth = 5 ∷ 0 ∷ []

module _ (v : SocksEnv) where
  unfoldable pub socks_target : Read (Text × ℕ) → Handled
  socks_target (stop x) = ends no_auth x
  socks_target (got (host, port) rest) =
      if v.relays host port
      then record { written = no_auth ++ socks_reply 0; ended = relayed host port rest }
      else ends (no_auth ++ socks_reply 5) relay_failed

  -- The header: version, command, a reserved byte, address type.
  unfoldable pub socks_request : Read Bytes → Handled
  socks_request (got (ver ∷ cmd ∷ rsv ∷ atyp ∷ []) rest) =
      if not (nat_eq ver 5)
      then ends no_auth bad_version
      else if not (nat_eq cmd 1)
      then ends (no_auth ++ socks_reply 7) bad_command
      else socks_target (parse_socks5_addr v atyp rest)
  socks_request (stop x) = ends no_auth x
  socks_request _ = ends no_auth eof

  abbrev pub socks_methods : Read Bytes → Handled
  socks_methods (stop x) = ends [] x
  socks_methods (got methods rest) = socks_request (read_exact 4 rest)

  -- `handle_socks5`, after the first byte: the methods are read and not looked at.
  unfoldable pub handle_socks5 : Bytes → Handled
  handle_socks5 [] = ends [] eof
  handle_socks5 (nmethods ∷ input) = socks_methods (read_exact nmethods input)

-- The rest of the first line. `last` is the byte before, `line` what was read, backwards, and `len`
-- its length.
unfoldable pub read_line : ℕ → Bytes → ℕ → Bytes → Read Bytes
read_line last line len [] = stop eof
read_line last line len (b ∷ input) =
    let rest = read_line b (b ∷ line) (len + 1) input in
    if nat_eq last b'\r' && nat_eq b b'\n'
    then got (reverse (b ∷ line)) input
    else if ltb 8192 (len + 1)
    then stop line_too_long
    else rest

-- The headers up to an empty line; `t1 t2 t3` are the last three bytes.
unfoldable pub skip_headers : ℕ → ℕ → ℕ → Bytes → Read (Unit {0})
skip_headers t1 t2 t3 [] = stop eof
skip_headers t1 t2 t3 (b ∷ input) =
    let rest = skip_headers t2 t3 b input in
    if (nat_eq t1 b'\r' && nat_eq t2 b'\n') && (nat_eq t3 b'\r' && nat_eq b b'\n')
    then got tt input
    else rest

-- ASCII upper case.
abbrev pub ascii_upper : ℕ → ℕ
ascii_upper c = if leb b'a' c && leb c b'z' then c - 32 else c

abbrev pub is_connect : Text → Bool
is_connect line = elim (strip_prefix (text "CONNECT ") (map ascii_upper line)) [
  | none ↦ false
  | some rest ↦ true
]

-- `host:port`, where a port that does not parse, or none, is 80.
abbrev pub http_target : Option (Text × Text) → Text → Text × ℕ
http_target none host_port = (host_port, 80)
http_target (some (host, port)) host_port = (host, unwrap_or (parse_unsigned (2 ^ 16) port) 80)

module _ (v : SocksEnv) where
  abbrev pub http_relay : Text × ℕ → Bytes → Handled
  http_relay (host, port) rest =
      if v.relays host port
      then record {
        written = text "HTTP/1.1 200 Connection established\r\n\r\n";
        ended = relayed host port rest;
      }
      else ends (text "HTTP/1.1 502 Bad Gateway\r\n\r\n") relay_failed

  abbrev pub http_parts : List Text → Bytes → Handled
  http_parts (method ∷ host_port ∷ parts) rest =
      http_relay (http_target (rsplit_once b':' host_port) host_port) rest
  http_parts _ rest = ends [] bad_format

  abbrev pub http_skipped : Text → Read (Unit {0}) → Handled
  http_skipped line (stop x) = ends [] x
  http_skipped line (got _ rest) = http_parts (splitn 3 b' ' line) rest

  -- `handle_http_connect`.
  unfoldable pub handle_http_connect : Text → Bytes → Handled
  handle_http_connect first_line input =
      let line = trim_end first_line in
      if is_connect line then http_skipped line (skip_headers 0 0 0 input) else ends [] bad_method

  abbrev pub http_line : Read Bytes → Handled
  http_line (stop x) = ends [] x
  http_line (got line rest) = handle_http_connect (v.from_utf8_lossy line) rest

  -- `handle_client`: the first byte tells the protocol.
  unfoldable pub handle_client : Bytes → Handled
  handle_client [] = ends [] eof
  handle_client (b ∷ input) =
      if nat_eq b 5 then handle_socks5 v input else http_line (read_line b (b ∷ []) 1 input)
