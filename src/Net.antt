-- ===== src/Net.antt =====
-- Socket addresses (std::net), and the two wire protocols of
-- libs/core-common/src/rendezvous_codec.rs.
use nat_server.Common.{
  ℕ, ◌/◌, ◌%◌, ◌^◌, ◌≡◌, ◌↔◌, Bool, true, false, ◌&&◌, Option, none, some, arith, nat_eq, Eq,
  if◌then◌else◌, [], ◌∷◌,
}
use nat_server.Common.Text.{Bytes}

-- An address as one number: 32 bits or 128.
pub data IpAddr : Type 0 where
  ipv4 : ℕ → IpAddr
  ipv6 : ℕ → IpAddr

abbrev pub ip_eq : IpAddr → IpAddr → Bool
ip_eq (ipv4 a) (ipv4 b) = nat_eq a b
ip_eq (ipv6 a) (ipv6 b) = nat_eq a b
ip_eq _ _ = false

pub ip_eq_iff : (a b : IpAddr) → (ip_eq a b ≡ true) ↔ (a ≡ b)
ip_eq_iff (ipv4 a) (ipv4 b) = ground arith
ip_eq_iff (ipv4 a) (ipv6 b) = ground arith
ip_eq_iff (ipv6 a) (ipv4 b) = ground arith
ip_eq_iff (ipv6 a) (ipv6 b) = ground arith

instance abbrev pub ip_has_eq : Eq IpAddr
ip_has_eq = record { same = ip_eq; same_iff = ip_eq_iff }

-- `v4 ip port` and `v6 ip port flowinfo scope_id`.
pub data SocketAddr : Type 0 where
  v4 : ℕ → ℕ → SocketAddr
  v6 : ℕ → ℕ → ℕ → ℕ → SocketAddr

abbrev pub addr_eq : SocketAddr → SocketAddr → Bool
addr_eq (v4 a p) (v4 b q) = nat_eq a b && nat_eq p q
addr_eq (v6 a p f s) (v6 b q g t) = nat_eq a b && (nat_eq p q && (nat_eq f g && nat_eq s t))
addr_eq _ _ = false

pub addr_eq_iff : (a b : SocketAddr) → (addr_eq a b ≡ true) ↔ (a ≡ b)
addr_eq_iff (v4 a p) (v4 b q) = ground arith
addr_eq_iff (v4 a p) (v6 b q g t) = ground arith
addr_eq_iff (v6 a p f s) (v4 b q) = ground arith
addr_eq_iff (v6 a p f s) (v6 b q g t) = ground arith

instance abbrev pub addr_has_eq : Eq SocketAddr
addr_has_eq = record { same = addr_eq; same_iff = addr_eq_iff }

-- `SocketAddr::ip` and `SocketAddr::port`.
abbrev pub ip_of : SocketAddr → IpAddr
ip_of (v4 a p) = ipv4 a
ip_of (v6 a p f s) = ipv6 a

abbrev pub port_of : SocketAddr → ℕ
port_of (v4 a p) = p
port_of (v6 a p f s) = p

-- `IpAddr::is_loopback`: 127.0.0.0/8, or ::1.
abbrev pub is_loopback : IpAddr → Bool
is_loopback (ipv4 a) = nat_eq (a / 2 ^ 24) 127
is_loopback (ipv6 a) = nat_eq a 1

-- `Ipv6Addr::to_ipv4`: the addresses ::a.b.c.d and ::ffff:a.b.c.d.
abbrev pub to_ipv4 : ℕ → Option ℕ
to_ipv4 a =
    if nat_eq (a / 2 ^ 32) 0
    then some a
    else if nat_eq (a / 2 ^ 32) 0xffff
    then some (a % 2 ^ 32)
    else none

pub data Protocol : Type 0 where
  proto3 capnp : Protocol

-- The protocol of a message is told by its first byte.
abbrev pub detect : Bytes → Protocol
detect [] = proto3
detect (b ∷ bs) = if nat_eq b 0 then capnp else proto3
