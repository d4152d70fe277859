-- ===== src/Codec/RoundTrip.antt =====
-- On what a message becomes in Cap'n Proto and back, in libs/core-common/src/rendezvous_codec.rs.
use nat_server.Common.{
  true, false, Option, none, some, [], ◌∷◌, ◌≡◌, refl, arith, if◌then◌else◌, ◌||◌, ap, unwrap_or,
  ◌⊎◌, inl, inr, Option-cases,
}
use nat_server.Common.Int.{ℤ, pos, eq_ℤ, eq_ℤ_iff}
use nat_server.Common.Text.{Bytes}
use nat_server.Net.{capnp, detect}
use nat_server.Message
use nat_server.Message.{Message}
use nat_server.Codec.Schema.{Struct}
use nat_server.Codec.{
  Crates, union_read, is_local_of, nat_type_of, relay_union_read, id_of, pk_of, read_struct,
  update_or_default, build, capnp_to_proto3, to_capnp, from_capnp, parse, serialize,
}

-- A NAT type that proto3 does not know is unknown.
abbrev pub known_number : ℤ → ℤ
known_number n = if eq_ℤ n (pos 1) || eq_ℤ n (pos 2) then n else pos 0

-- A oneof that is unset, false or an empty key reads as an unknown NAT type or an empty id, and an unset
-- update as an empty one.
abbrev pub punch_union : Option Message.PunchUnion → Option Message.PunchUnion
punch_union none = some (Message.nat_type Message.unknown_nat)
punch_union (some (Message.is_local false)) = some (Message.nat_type Message.unknown_nat)
punch_union (some (Message.is_local true)) = some (Message.is_local true)
punch_union (some (Message.nat_type n)) = some (Message.nat_type n)

abbrev pub relay_union : Option Message.RelayUnion → Option Message.RelayUnion
relay_union none = some (Message.RelayUnion.id [])
relay_union (some (Message.RelayUnion.id t)) = some (Message.RelayUnion.id t)
relay_union (some (Message.RelayUnion.pk [])) = some (Message.RelayUnion.id [])
relay_union (some (Message.RelayUnion.pk (b ∷ bs))) = some (Message.RelayUnion.pk (b ∷ bs))

abbrev pub update_read : Option Message.ConfigUpdate → Option Message.ConfigUpdate
update_read none = some (record { serial = pos 0; rendezvous_servers = [] })
update_read (some cu) = some cu

-- What arrives of a message that is sent in Cap'n Proto.
abbrev pub as_carried : Message → Message
as_carried (Message.punch_hole r) =
    Message.punch_hole (record r { nat_type = known_number r.nat_type; control_permissions = [] })
as_carried (Message.punch_hole_response r) =
    Message.punch_hole_response (record r { union = punch_union r.union })
as_carried (Message.relay_response r) =
    Message.relay_response (record r { union = relay_union r.union })
as_carried (Message.test_nat_response r) =
    Message.test_nat_response (record r { cu = update_read r.cu })
as_carried m = m

number_known :
    (n : ℤ)
    → Message.nat_type_number (unwrap_or (Message.enum_value n) Message.unknown_nat)
      ≡ known_number n
number_known n = ground (arith, eq_ℤ_iff n (pos 0), eq_ℤ_iff n (pos 1), eq_ℤ_iff n (pos 2))

union_carried :
    (u : Option Message.PunchUnion)
    → some (union_read (is_local_of u) (nat_type_of u)) ≡ punch_union u
union_carried none = refl
union_carried (some (Message.is_local true)) = refl
union_carried (some (Message.is_local false)) = refl
union_carried (some (Message.nat_type n)) = refl

relay_union_carried :
    (u : Option Message.RelayUnion) → some (relay_union_read (id_of u) (pk_of u)) ≡ relay_union u
relay_union_carried none = refl
relay_union_carried (some (Message.RelayUnion.id t)) = refl
relay_union_carried (some (Message.RelayUnion.pk [])) = refl
relay_union_carried (some (Message.RelayUnion.pk (b ∷ bs))) = refl

update_carried :
    (u : Option Message.ConfigUpdate)
    → some (record {
      serial = (update_or_default u).serial;
      rendezvous_servers = (update_or_default u).rendezvous_servers;
    })
      ≡ update_read u
update_carried none = refl
update_carried (some cu) = refl

-- A message is not supported, or its struct reads as described.
build_read :
    (c : Crates) (m : Message) → (build m ≡ none) ⊎ (read_struct c (build m) ≡ some (as_carried m))
unfolding build capnp_to_proto3
build_read c (Message.register_peer r) = inl refl
build_read c (Message.register_peer_response b) = inr refl
build_read c (Message.punch_hole_request r) = inl refl
build_read c (Message.punch_hole r) = inr (
    ap (λ n. some (Message.punch_hole (record r { nat_type = n; control_permissions = [] })))
      (number_known r.nat_type))
build_read c (Message.punch_hole_sent r) = inl refl
build_read c (Message.punch_hole_response r) =
    inr (
      ap (λ u. some (Message.punch_hole_response (record r { union = u }))) (union_carried r.union))
build_read c (Message.fetch_local_addr r) = inl refl
build_read c (Message.local_addr r) = inr refl
build_read c (Message.configure_update r) = inr refl
build_read c (Message.register_pk r) = inl refl
build_read c (Message.register_pk_response r) = inr refl
build_read c (Message.software_update url) = inr refl
build_read c (Message.request_relay r) = inl refl
build_read c (Message.relay_response r) =
    inr (
      ap (λ u. some (Message.relay_response (record r { union = u })))
        (relay_union_carried r.union))
build_read c (Message.test_nat_request n) = inl refl
build_read c (Message.test_nat_response r) =
    inr (ap (λ u. some (Message.test_nat_response (record r { cu = u }))) (update_carried r.cu))
build_read c (Message.online_request id ps) = inl refl
build_read c (Message.online_response states) = inr refl
build_read c (Message.peer_discovery r) = inr refl
build_read c (Message.key_exchange keys) = inl refl
build_read c (Message.hc token) = inl refl
build_read c Message.other = inl refl

-- Where the crate capnp reads back what it writes, and what it writes begins with a zero byte, a message
-- that is serialized in Cap'n Proto is parsed as itself but for this. In a PunchHole a NAT type without
-- name becomes 0 and the control permissions are lost; in a PunchHoleResponse a union that is unset or
-- says `is_local` false becomes an unknown NAT type; in a RelayResponse a union that is unset or an empty
-- key becomes an empty id; in a TestNatResponse an unset update becomes an empty one.
pub parse-serialize :
    (c : Crates) (m : Message) (b : Bytes)
    → ((x : Struct) (b' : Bytes) → c.write x ≡ some b' → c.read b' ≡ some x)
    → ((x : Struct) (b' : Bytes) → c.write x ≡ some b' → detect b' ≡ capnp)
    → serialize c m capnp ≡ some b
    → parse c b ≡ some (as_carried m)
unfolding serialize to_capnp parse from_capnp
parse-serialize c m b reads marked sent = elim (Option-cases (build m)) [
  | inl e ↦ ground (arith, e, sent)
  | inr (x, e) ↦
      ground (arith, e, sent, build_read c m, reads x b (rw e at sent), marked x b (rw e at sent))
]
