-- ===== src/Client/Kcp/Order.antt =====
-- On the order in which the ends of nat-client/src/kcp_tunnel.rs leave the handshake.
use nat_server.Common.{
  true, false, List, [], ◌∷◌, ◌++◌, ◌==◌, list_has_eq, list_eq, ◌≡◌, refl, ap, arith, ◌⊎◌, inl, inr,
}
use nat_server.Net.{addr_has_eq}
use nat_server.Client.Kcp.{
  connect_magic, accept_magic, Datagram, Ends, Handshake, started, accept_reply, kcp_connect,
  kcp_accept, arrive, Step, asks, connect_probes, accept_probes, arrives, lost, Run, here, next,
}

-- What holds of every datagram.
abbrev pub All : (Datagram → Type 0) → List Datagram → Type 0
All P [] = Unit {0}
All P (d ∷ ds) = P d × All P ds

pub All-taken :
    (P : Datagram → Type 0) (before after : List Datagram) (d : Datagram)
    → All P (before ++ d ∷ after)
    → P d × All P (before ++ after)
All-taken P [] after d h = h
All-taken P (x ∷ before) after d (p, h) =
    let (q, rest) = All-taken P before after d h in (q, (p, rest))

abbrev pub IsNoReply : Datagram → Type 0
IsNoReply d = (d.bytes == accept_magic) ≡ false

-- The accepting end has not answered, and the other end cannot have heard it.
record IsUnanswered (s : Handshake) : Type 0 where
  pub waits : s.connected ≡ false
  pub silent : All IsNoReply s.flight

-- What an arrival can do.
pub arrive_cases :
    (e : Ends) (d : Datagram) (s : Handshake)
    → (arrive e d s ≡ s)
      ⊎ ((arrive e d s ≡ record s { connected = true })
          × ((d.from == e.connect_peer) ≡ true)
          × ((d.bytes == accept_magic) ≡ true))
      ⊎ ((arrive e d s ≡ record s { accepted = true; flight = accept_reply e ∷ s.flight })
          × ((d.from == e.accept_peer) ≡ true)
          × ((d.bytes == connect_magic) ≡ true)
          × (s.accepted ≡ false))
unfolding arrive kcp_connect kcp_accept
arrive_cases e d s = ground arith

-- A step leaves the handshake unanswered, or is the answer.
Step-IsUnanswered :
    (e : Ends) (s t : Handshake)
    → Step e s t
    → IsUnanswered s
    → IsUnanswered t ⊎ ((s.accepted ≡ false) × (t.accepted ≡ true))
unfolding list_eq
Step-IsUnanswered e s t (asks w q) h =
    inl (rw q (record { waits = h.waits; silent = (refl, h.silent) }))
Step-IsUnanswered e s t (connect_probes q) h =
    inl (rw q (record { waits = h.waits; silent = (refl, h.silent) }))
Step-IsUnanswered e s t (accept_probes q) h =
    inl (rw q (record { waits = h.waits; silent = (refl, h.silent) }))
Step-IsUnanswered e s t (lost before after d f q) h = inl (
    rw q (record {
      waits = h.waits;
      silent = (All-taken IsNoReply before after d (rw f at h.silent)).1;
    }))
Step-IsUnanswered e s t (arrives before after d f q) h =
    let (n, rest) = All-taken IsNoReply before after d (rw f at h.silent) in
    let s' : Handshake = record s { flight = before ++ after } in
    rw q (elim (arrive_cases e d s') [
      | inl same ↦ rw same (inl (record { waits = h.waits; silent = rest }))
      | inr (inl (a, b, c)) ↦ absurd (cc (n, c))
      | inr (inr (a, b, c, g)) ↦ inr (g, ap (λ x. x.accepted) a)
    ])

-- An end that has accepted stays so.
Step-accepted : (e : Ends) (s t : Handshake) → Step e s t → s.accepted ≡ true → t.accepted ≡ true
Step-accepted e s t (asks w q) h = rw q h
Step-accepted e s t (connect_probes q) h = rw q h
Step-accepted e s t (accept_probes q) h = rw q h
Step-accepted e s t (lost before after d f q) h = rw q h
Step-accepted e s t (arrives before after d f q) h =
    rw q (elim (arrive_cases e d (record s { flight = before ++ after })) [
      | inl same ↦ rw same h
      | inr (inl (a, b, c)) ↦ rw a h
      | inr (inr (a, b, c, g)) ↦ rw a refl
    ])

Run-IsUnanswered :
    (e : Ends) (s t : Handshake) → Run e s t → IsUnanswered s → IsUnanswered t ⊎ (t.accepted ≡ true)
Run-IsUnanswered e s t here h = inl h
Run-IsUnanswered e s t (next r st) h = elim (Run-IsUnanswered e s _ r h) [
  | inl still ↦ elim (Step-IsUnanswered e _ t st still) [ inl k ↦ inl k | inr (a, b) ↦ inr b ]
  | inr k ↦ inr (Step-accepted e _ t st k)
]

-- From the start, whatever datagrams are lost, delayed or come in another order, an end that has
-- connected is matched by one that has accepted.
pub connected_accepted :
    (e : Ends) (t : Handshake) → Run e started t → t.connected ≡ true → t.accepted ≡ true
connected_accepted e t r h =
    elim (Run-IsUnanswered e started t r (record { waits = refl; silent = tt })) [
      | inl k ↦ absurd (cc (h, k.waits))
      | inr k ↦ k
    ]

Run-IsUnheard :
    (e : Ends) (s t : Handshake)
    → Run e s t
    → s.accepted ≡ true
    → IsUnanswered s
    → IsUnanswered t × (t.accepted ≡ true)
Run-IsUnheard e s t here a h = (h, a)
Run-IsUnheard e s t (next r st) a h =
    let (k, b) = Run-IsUnheard e s _ r a h in
    elim (Step-IsUnanswered e _ t st k) [
      | inl k' ↦ (k', Step-accepted e _ t st b)
      | inr (n, c) ↦ absurd (cc (n, b))
    ]

-- Once one end has accepted, the other has not connected and no reply is under way, because it was lost,
-- no later steps connect the other end, and the first stays with its tunnel.
pub lost_reply_unconnected :
    (e : Ends) (s t : Handshake)
    → s.accepted ≡ true
    → s.connected ≡ false
    → All IsNoReply s.flight
    → Run e s t
    → (t.connected ≡ false) × (t.accepted ≡ true)
lost_reply_unconnected e s t a w n r =
    let (k, b) = Run-IsUnheard e s t r a (record { waits = w; silent = n }) in (k.waits, b)
