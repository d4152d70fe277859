-- ===== src/Client/Mediator/Jobs.antt =====
-- The tasks of nat-client/src/rendezvous_mediator.rs: what they ask the network for, and what they leave.
pub mod Works
use nat_server.Common.{ℕ, suc, ◌-◌, ◌%◌, ◌^◌, Bool, Option, none, some, List, ◌∷◌, if◌then◌else◌}
use nat_server.Common.Int.{ℤ, pos, negsuc}
use nat_server.Common.Text.{Text, Bytes}
use nat_server.Net.{SocketAddr, v4, v6, IpAddr, ipv4, ipv6, Protocol, proto3}
use nat_server.Message
use nat_server.Message.{Message}
use nat_server.Client.Proxy.{ProxyEnv}

-- The network and the system as they answer the n-th question, the codec, and the text of addresses.
-- `connects` gives the local address of a new connection, `listens` the port of a new listener, and
-- `accepts` says whether the KCP handshake ends in time.
pub record JobEnv : Type 0 where
  pub proxy : ProxyEnv
  pub parse : Bytes → Option Message
  pub can_encode : Message → Protocol → Bool
  pub parse_addr : Text → Option SocketAddr
  pub ip_to_string : IpAddr → Text
  pub mangle_encode : ℕ → SocketAddr → Bytes
  pub mangle_decode : Bytes → SocketAddr
  pub new_uuid : ℕ → Text
  pub connects : ℕ → Option SocketAddr
  pub reaches : ℕ → Bool
  pub sends : ℕ → Bool
  pub replies : ℕ → Option Bytes
  pub binds_udp : ℕ → Bool
  pub public_port : ℕ → Option ℕ
  pub accepts : ℕ → Bool
  pub listens : ℕ → Option ℕ

-- The tunnels of `PortForwardManager`, with what they are made of.
pub data Tunnel : Type 0 where
  inbound : SocketAddr → SocketAddr → Text → Text → ℕ → Tunnel
  inbound_kcp : SocketAddr → Text → Text → ℕ → Tunnel
  relayed : Text → Text → SocketAddr → Text → ℕ → Tunnel
  proxied : Text → Bytes → Text → ℕ → Tunnel
  outbound_direct : ℕ → SocketAddr → Tunnel
  outbound_kcp : ℕ → SocketAddr → Tunnel
  outbound_relay : ℕ → Text → Bytes → Tunnel

-- What a task does: a message to a server, a SYN or UDP probes to a peer, a tunnel.
pub data Act : Type 0 where
  told : Text → Message → Protocol → Act
  syn : SocketAddr → SocketAddr → Act
  probes : SocketAddr → Act
  opens : Tunnel → Act

-- The last act first, and the number of questions.
pub record Work : Type 0 where
  pub acts : List Act
  pub calls : ℕ

-- A task: `none` where it ends with an error.
abbrev pub Job : Type 0 → Type 0
Job A = Work → Option A × Work

module _ {A : Type 0} where
  abbrev pub pure : A → Job A
  pure a w = (some a, w)

  abbrev pub bail : Job A
  bail w = (none, w)

  abbrev pub lift : Option A → Job A
  lift o w = (o, w)

  abbrev pub as_value : Option A × Work → Option (Option A) × Work
  as_value (o, w) = (some o, w)

  -- The result as a value.
  abbrev pub attempt : Job A → Job (Option A)
  attempt j w = as_value (j w)

  -- The answer to the next question.
  abbrev pub ask : (ℕ → A) → Job A
  ask f w = (some (f w.calls), record w { calls = suc w.calls })

abbrev pub onward : {A B : Type 0} → (A → Job B) → Option A × Work → Option B × Work
onward f (none, w) = (none, w)
onward f (some a, w) = f a w

infixl 5 ◌>>=◌ ◌>>◌
abbrev pub ◌>>=◌ : {A B : Type 0} → Job A → (A → Job B) → Job B
◌>>=◌ j f w = onward f (j w)

abbrev pub ◌>>◌ : {A B : Type 0} → Job A → Job B → Job B
j >> k = j >>= λ _. k

abbrev pub act : Act → Job (Unit {0})
act a w = (some tt, record w { acts = a ∷ w.acts })

-- `as u16` of an i32.
abbrev pub as_u16 : ℤ → ℕ
as_u16 (pos n) = n % 2 ^ 16
as_u16 (negsuc n) = 2 ^ 16 - 1 - n % 2 ^ 16

-- `SocketAddr::new`.
abbrev pub addr_at : IpAddr → ℕ → SocketAddr
addr_at (ipv4 a) p = v4 a p
addr_at (ipv6 a) p = v6 a p 0 0

module _ (e : JobEnv) where
  -- `connect_tcp`: the local address of the connection.
  unfoldable pub connect_tcp : Job SocketAddr
  connect_tcp = do local ← ask e.connects; lift local

  -- A question whose `false` is an error.
  unfoldable pub must : (ℕ → Bool) → Job (Unit {0})
  must f = do ok ← ask f; if ok then pure tt else bail

  -- `send_rendezvous`, and `serialize` or `write_to_bytes` with `send_raw`: in the wire protocol, or in
  -- proto3 where that cannot carry the message.
  unfoldable pub tell : Text → Message → Protocol → Job (Unit {0})
  unfolding must
  tell host x wire = do
    must e.sends
    act (told host x (if e.can_encode x wire then wire else proto3))
