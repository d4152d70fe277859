-- ===== src/Client/Proxy/Notice.antt =====
-- On the notice of nat-client/src/socks5.rs as src/rendezvous_server.rs handles it.
use nat_server.Common.{
  ℕ, ◌≡◌, refl, Bool, Option, none, some, List, [], ◌∷◌, arith, list_has_eq, if◌then◌else◌,
  is_empty, Bool-cases, inl, inr, ◌∙◌,
}
use nat_server.Common.Map.{lookup}
use nat_server.Common.Text.{Text}
use nat_server.Net.{SocketAddr, Protocol, addr_has_eq}
use nat_server.Database.Statements.{db_get_peer, statement}
use nat_server.Message
use nat_server.Message.{Message}
use nat_server.State.{Env, Server, Sink, M, Result, ok, err, after, pure, ◌>>=◌}
use nat_server.PeerMap.{get}
use nat_server.Rendezvous.Output.{send_to_tcp}
use nat_server.Rendezvous.Relays.{get_pk, get_relay_server}
use nat_server.Rendezvous.Tcp.{handle_relay_response, chosen_relay, relay_id, handle_tcp_message}
use nat_server.Client.Proxy.{ProxyEnv, RelayCall, connect_via_relay}

-- Nothing was sent, put on the channel, or taken from the waiting connections.
pub record IsSilent (s t : Server) : Type 0 where
  pub sent : t.sent ≡ s.sent
  pub channel : t.channel ≡ s.channel
  pub tcp_punch : t.tcp_punch ≡ s.tcp_punch

IsSilent-trans : (s t u : Server) → IsSilent s t → IsSilent t u → IsSilent s u
IsSilent-trans s t u h k = ground arith

module _ {A B : Type 0} (s : Server) (Q : Server → Type 0)
    (weaken : (t : Server) → IsSilent s t → Q t) where
  bound_silent :
      (f : A → M B) (o : Result A × Server)
      → ((a : A) (t : Server) → IsSilent s t → Q (after (f a) t))
      → IsSilent s o.1
      → Q (elim o.0 as (λ _. Result B × Server) [ ok a ↦ f a o.1 | err e ↦ (err e, o.1) ]).1
  bound_silent f (ok a, t) k h = k a t h
  bound_silent f (err e, t) k h = weaken t h

  -- What holds after a step that is silent.
  bind_silent :
      (m : M A) (f : A → M B) (t : Server)
      → IsSilent s (after m t)
      → ((a : A) (t : Server) → IsSilent s t → Q (after (f a) t))
      → Q (after (m >>= f) t)
  bind_silent m f t h k = bound_silent f (m t) k h

module _ (env : Env) where
  db_get_peer-IsSilent : (id : Text) (s : Server) → IsSilent s (after (db_get_peer env id) s)
  unfolding db_get_peer statement
  db_get_peer-IsSilent id s = ground arith

  get-IsSilent : (id : Text) (s : Server) → IsSilent s (after (get env id) s)
  unfolding get
  get-IsSilent id s = grind (arith, db_get_peer-IsSilent id s)

  get_pk-IsSilent : (version id : Text) (s : Server) → IsSilent s (after (get_pk env version id) s)
  unfolding get_pk
  get_pk-IsSilent version id s = grind (arith, get-IsSilent id s)

  chosen_relay-IsSilent :
      (relay : Text) (addr : SocketAddr) (s : Server)
      → IsSilent s (after (chosen_relay env relay addr) s)
  unfolding chosen_relay get_relay_server
  chosen_relay-IsSilent relay addr s = ground arith

  send_unsent :
      (m : Message) (addr : SocketAddr) (s : Server)
      → lookup (env.try_into_v4 addr) s.tcp_punch ≡ none
      → ((after (send_to_tcp env m addr) s).sent ≡ s.sent)
        × ((after (send_to_tcp env m addr) s).channel ≡ s.channel)
  unfolding send_to_tcp
  send_unsent m addr s h = ground arith

-- Nothing was sent, and nothing put on the channel.
abbrev pub IsUnsent : Server → Server → Type 0
IsUnsent s t = (t.sent ≡ s.sent) × (t.channel ≡ s.channel)

silent-IsUnsent : (s t : Server) → IsSilent s t → IsUnsent s t
silent-IsUnsent s t h = (h.sent, h.channel)

-- An answer for which no connection waits.
relay_response-IsUnsent :
    (env : Env) (rr : Message.RelayResponse) (s : Server)
    → lookup (env.try_into_v4 (env.mangle_decode rr.socket_addr)) s.tcp_punch ≡ none
    → IsUnsent s (after (handle_relay_response env rr) s)
unfolding handle_relay_response
relay_response-IsUnsent env rr s h =
    bind_silent s (IsUnsent s) (silent-IsUnsent s) signed relayed s signed_silent (λ union t k.
      bind_silent s (IsUnsent s) (silent-IsUnsent s) (chosen_relay env rr.relay_server addr)
        (answered union) t
        (IsSilent-trans s t (after (chosen_relay env rr.relay_server addr) t) k
          (chosen_relay-IsSilent env rr.relay_server addr t))
        (λ relay u l.
          let none_waits : lookup (env.try_into_v4 addr) u.tcp_punch ≡ none = rw l.tcp_punch h in
          let (no_sent, no_data) = send_unsent env (final union relay) addr u none_waits in
          (no_sent ∙ l.sent, no_data ∙ l.channel)))
  where
    addr : SocketAddr
    addr = env.mangle_decode rr.socket_addr

    id : Text
    id = relay_id rr.union

    signed : M (Option Message.RelayUnion)
    signed =
        if is_empty id
        then pure rr.union
        else (do pk ← get_pk env rr.version id; pure (some (Message.RelayUnion.pk pk)))

    final : Option Message.RelayUnion → Text → Message
    final union relay =
        Message.relay_response (record rr { socket_addr = []; relay_server = relay; union = union })

    answered : Option Message.RelayUnion → Text → M (Unit {0})
    answered union relay = send_to_tcp env (final union relay) addr

    relayed : Option Message.RelayUnion → M (Unit {0})
    relayed union = chosen_relay env rr.relay_server addr >>= answered union

    signed_silent : IsSilent s (after signed s)
    signed_silent = elim (Bool-cases (is_empty id)) [
      | inl y ↦ rw (signed, y) (record { sent = refl; channel = refl; tcp_punch = refl })
      | inr n ↦
          rw (signed, n)
            (bind_silent s (IsSilent s) (λ t k. k) (get_pk env rr.version id)
              (λ pk. pure (some (Message.RelayUnion.pk pk))) s (get_pk-IsSilent env rr.version id s)
              (λ pk t k. k))
    ]

-- The rendezvous server does nothing with the notice of the proxy: if no connection waits under the
-- address that an empty field stands for, no message goes to anyone, so that the exit node is told
-- nothing, whatever node, target and configuration.
pub connect_via_relay-IsUnsent :
    (env : Env) (p : ProxyEnv) (hex8 server relay_cfg exit_peer host : Text) (servers : List Text)
    (port : ℕ) (call : RelayCall) (sink : Option Sink) (addr : SocketAddr) (key : Text) (ws : Bool)
    (wire : Protocol) (s : Server)
    → lookup (env.try_into_v4 (env.mangle_decode [])) s.tcp_punch ≡ none
    → connect_via_relay p hex8 (server ∷ servers) relay_cfg exit_peer host port ≡ some call
    → IsUnsent s (
        after (handle_tcp_message env (Message.relay_response call.notice) sink addr key ws wire) s)
unfolding handle_tcp_message connect_via_relay
connect_via_relay-IsUnsent env p hex8 server relay_cfg exit_peer host servers port call sink addr
      key ws wire s h q =
    relay_response-IsUnsent env call.notice s (ground (arith, h))
