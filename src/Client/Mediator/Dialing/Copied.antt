-- ===== src/Client/Mediator/Dialing/Copied.antt =====
-- On the loop of `register_relay` of nat-client/src/port_forward.rs from the relay to the service.
use nat_server.Common.{
  ℕ, zero, suc, ◌<◌, ◌≡◌, refl, ap, arith, Bool, true, false, Option, none, some, List, [], ◌∷◌,
  length, take, ◌⊎◌, inl, inr, Bool-cases,
}
use nat_server.Common.Text.{Bytes}
use nat_server.Client.Mediator.Dialing.{copy_frames}

-- The frames before the first error, or the end.
abbrev pub frames_of : List (Option Bytes) → List Bytes
frames_of [] = []
frames_of (none ∷ events) = []
frames_of (some b ∷ events) = b ∷ frames_of events

-- The first frames, in order, up to a write that fails or to the last frame.
pub record IsDelivered (writes : ℕ → Bool) (frames delivered : List Bytes) : Type 0 where
  pub count : ℕ
  pub taken : delivered ≡ take count frames
  pub succeeded : (i : ℕ) → i < count → writes i ≡ true
  pub stopped : (count ≡ length frames) ⊎ (writes count ≡ false)

pub copy_frames-IsDelivered :
    (writes : ℕ → Bool) (events : List (Option Bytes))
    → IsDelivered writes (frames_of events) (copy_frames writes events)
unfolding copy_frames
copy_frames-IsDelivered writes [] = record {
  count = 0;
  taken = refl;
  succeeded = λ i h. absurd (omega arith);
  stopped = inl refl;
}
copy_frames-IsDelivered writes (none ∷ events) = record {
  count = 0;
  taken = refl;
  succeeded = λ i h. absurd (omega arith);
  stopped = inl refl;
}
copy_frames-IsDelivered writes (some b ∷ events) =
    let rest = copy_frames-IsDelivered (λ n. writes (suc n)) events in
    elim (Bool-cases (writes 0)) [
      | inl y ↦ record {
        count = suc rest.count;
        taken = rw y (ap (λ bs. b ∷ bs) rest.taken);
        succeeded = λ i h. earlier rest.count rest.succeeded y i h;
        stopped = elim rest.stopped [ inl e ↦ inl (ap suc e) | inr w ↦ inr w ];
      }
      | inr x ↦ record {
        count = 0;
        taken = rw x refl;
        succeeded = λ i h. absurd (omega arith);
        stopped = inr x;
      }
    ]
  where
    earlier :
        (count : ℕ)
        → ((i : ℕ) → i < count → writes (suc i) ≡ true)
        → writes 0 ≡ true
        → (i : ℕ) → i < suc count
        → writes i ≡ true
    earlier count h y zero k = y
    earlier count h y (suc i) k = h i (omega arith)
