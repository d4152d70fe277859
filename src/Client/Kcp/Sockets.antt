-- ===== src/Client/Kcp/Sockets.antt =====
-- On the sockets between which nat-client/src/kcp_tunnel.rs shakes hands.
use nat_server.Common.{
  false, ◌++◌, ◌==◌, list_has_eq, list_eq, ◌≡◌, ◌≢◌, refl, sym, ◌∙◌, ◌⊎◌, inl, inr,
}
use nat_server.Net.{addr_has_eq, addr_eq_iff}
use nat_server.Client.Kcp.{
  connect_magic, Datagram, Ends, Handshake, started, arrive, Step, asks, connect_probes,
  accept_probes, arrives, lost, Run, here, next,
}
use nat_server.Client.Kcp.Order.{All, All-taken, IsNoReply, arrive_cases}

-- A request comes from the socket that sends it, and nothing is a reply.
abbrev IsOwn : Ends → Datagram → Type 0
IsOwn e d = IsNoReply d × (((d.bytes == connect_magic) ≡ false) ⊎ (d.from ≡ e.connect_at))

record IsApart (e : Ends) (s : Handshake) : Type 0 where
  pub waits : s.connected ≡ false
  pub deaf : s.accepted ≡ false
  pub own : All (IsOwn e) s.flight

arrive-IsApart :
    (e : Ends) (d : Datagram) (s : Handshake)
    → e.accept_peer ≢ e.connect_at
    → IsOwn e d
    → IsApart e s
    → arrive e d s ≡ s
arrive-IsApart e d s apart (n, o) h = elim (arrive_cases e d s) [
  | inl same ↦ same
  | inr (inl (a, b, c)) ↦ absurd (cc (n, c))
  | inr (inr (a, b, c, g)) ↦ elim o [
    | inl k ↦ absurd (cc (k, c))
    | inr k ↦ absurd (apart (sym ((addr_eq_iff d.from e.accept_peer).0 b) ∙ k))
  ]
]

Step-IsApart :
    (e : Ends) (s t : Handshake)
    → e.accept_peer ≢ e.connect_at
    → Step e s t
    → IsApart e s
    → IsApart e t
unfolding list_eq
Step-IsApart e s t apart (asks w q) h =
    rw q (record { waits = h.waits; deaf = h.deaf; own = ((refl, inr refl), h.own) })
Step-IsApart e s t apart (connect_probes q) h =
    rw q (record { waits = h.waits; deaf = h.deaf; own = ((refl, inl refl), h.own) })
Step-IsApart e s t apart (accept_probes q) h =
    rw q (record { waits = h.waits; deaf = h.deaf; own = ((refl, inl refl), h.own) })
Step-IsApart e s t apart (lost before after d f q) h =
    let (o, rest) = All-taken (IsOwn e) before after d (rw f at h.own) in
    rw q (record { waits = h.waits; deaf = h.deaf; own = rest })
Step-IsApart e s t apart (arrives before after d f q) h =
    let (o, rest) = All-taken (IsOwn e) before after d (rw f at h.own) in
    let s' : Handshake = record s { flight = before ++ after } in
    let k : IsApart e s' = record { waits = h.waits; deaf = h.deaf; own = rest } in
    rw (q, arrive-IsApart e d s' apart o k) k

Run-IsApart :
    (e : Ends) (s t : Handshake)
    → e.accept_peer ≢ e.connect_at
    → Run e s t
    → IsApart e s
    → IsApart e t
Run-IsApart e s t apart here h = h
Run-IsApart e s t apart (next r st) h = Step-IsApart e _ t apart st (Run-IsApart e s _ apart r h)

-- Where the end that accepts was told another address than that of the socket from which the other end
-- dials, as of a socket that was bound for the question about the public port only, neither end ever has a
-- tunnel, whatever is sent and whatever arrives.
pub other_socket_unanswered :
    (e : Ends) (t : Handshake)
    → e.accept_peer ≢ e.connect_at
    → Run e started t
    → (t.connected ≡ false) × (t.accepted ≡ false)
other_socket_unanswered e t apart r =
    let k = Run-IsApart e started t apart r (record { waits = refl; deaf = refl; own = tt }) in
    (k.waits, k.deaf)
