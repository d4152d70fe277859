-- ===== src/Rendezvous/Online/Bits.antt =====
-- On the bits that `handle_online_request` of src/rendezvous_server.rs answers.
use Prim.Native.Nat.{bit_or}
use nat_server.Common.{
  ℕ, zero, suc, ◌+◌, ◌-◌, ◌*◌, ◌/◌, ◌%◌, ◌^◌, ◌≤◌, ◌<◌, ◌≡◌, inl, inr, refl, ◌∙◌, Bool, true, ◌&&◌,
  some, List, [], ◌∷◌, arith, if◌then◌else◌, ltb, nat_eq, length, get_elem?, get_or, set, replicate,
  length-set, length-replicate, Bool-cases,
}
use nat_server.Common.Text.{Text, Bytes}
use nat_server.State.{Server}
use nat_server.Rendezvous.Online.{mark, is_seen, mark_online_from, online_states}

-- Bit `k` of a byte, from the right.
pub bit : ℕ → ℕ → ℕ
bit b k = b / 2 ^ k % 2

-- The bit of index `i`, from the left.
pub read_bit : ℕ → Bytes → ℕ
read_bit i states = bit (get_or states (i / 8) 0) (7 - i % 8)

-- A test holds of all numbers below a bound.
abbrev every : ℕ → (ℕ → Bool) → Bool
every zero test = true
every (suc bound) test = every bound test && test bound

every-lt :
    (bound : ℕ) (test : ℕ → Bool) (i : ℕ) → i < bound → every bound test ≡ true → test i ≡ true
every-lt zero test i lt all = absurd (omega arith)
every-lt (suc bound) test i lt all = ground (arith, every-lt bound test i)

-- Setting bit `k` of a byte sets that bit, and no other.
sets_bit : ℕ → ℕ → ℕ → Bool
unfolding bit
sets_bit b k j =
    let c = bit_or b (2 ^ k) in ltb c 256 && nat_eq (bit c j) (if nat_eq k j then 1 else bit b j)

bit_table : every 256 (λ b. every 8 (λ k. every 8 (λ j. sets_bit b k j))) ≡ true
unfolding sets_bit
bit_table = refl

sets_bit_lem : (b k j : ℕ) → b < 256 → k < 8 → j < 8 → sets_bit b k j ≡ true
sets_bit_lem b k j hb hk hj =
    every-lt 8 (λ j. sets_bit b k j) j hj
      (every-lt 8 (λ k. every 8 (λ j. sets_bit b k j)) k hk
        (every-lt 256 (λ b. every 8 (λ k. every 8 (λ j. sets_bit b k j))) b hb bit_table))

bit-bit_or :
    (b k j : ℕ)
    → b < 256
    → k < 8
    → j < 8
    → (bit_or b (2 ^ k) < 256) × (bit (bit_or b (2 ^ k)) j ≡ (if nat_eq k j then 1 else bit b j))
unfolding sets_bit
bit-bit_or b k j hb hk hj = ground (arith, sets_bit_lem b k j hb hk hj)

-- Every element is a byte.
abbrev pub AreBytes : Bytes → Type 0
AreBytes [] = Unit
AreBytes (b ∷ bs) = (b < 256) × AreBytes bs

get_or-lt : (bs : Bytes) (i : ℕ) → AreBytes bs → get_or bs i 0 < 256
get_or-lt [] i h = omega arith
get_or-lt (b ∷ bs) zero h = h.0
get_or-lt (b ∷ bs) (suc i) h = get_or-lt bs i h.1

set-AreBytes : (bs : Bytes) (i v : ℕ) → v < 256 → AreBytes bs → AreBytes (set bs i v)
set-AreBytes [] i v lt h = tt
set-AreBytes (b ∷ bs) zero v lt h = (lt, h.1)
set-AreBytes (b ∷ bs) (suc i) v lt h = (h.0, set-AreBytes bs i v lt h.1)

get_or-set :
    (bs : Bytes) (i j v : ℕ)
    → i < length bs
    → get_or (set bs i v) j 0 ≡ (if nat_eq i j then v else get_or bs j 0)
get_or-set [] i j v h = elim h [ ]
get_or-set (b ∷ bs) zero zero v h = ground arith
get_or-set (b ∷ bs) zero (suc j) v h = ground arith
get_or-set (b ∷ bs) (suc i) zero v h = ground arith
get_or-set (b ∷ bs) (suc i) (suc j) v h = ground (arith, get_or-set bs i j v)

replicate-AreBytes : (n : ℕ) → AreBytes (replicate n 0)
replicate-AreBytes zero = tt
replicate-AreBytes (suc n) = (omega arith, replicate-AreBytes n)

get_or-replicate : (n i : ℕ) → get_or {A = ℕ} (replicate n 0) i 0 ≡ 0
get_or-replicate zero i = refl
get_or-replicate (suc n) zero = refl
get_or-replicate (suc n) (suc i) = get_or-replicate n i

mark-AreBytes : (i : ℕ) (bs : Bytes) → AreBytes bs → AreBytes (mark i bs)
unfolding mark
mark-AreBytes i bs h =
    set-AreBytes bs (i / 8) _
      ((bit-bit_or (get_or bs (i / 8) 0) (7 - i % 8) 0 (get_or-lt bs (i / 8) h) (omega arith)
        (omega arith)).0)
      h

length-mark : (i : ℕ) (bs : Bytes) → length (mark i bs) ≡ length bs
unfolding mark
length-mark i bs = length-set bs (i / 8) _

read_bit-mark :
    (i j : ℕ) (bs : Bytes)
    → AreBytes bs
    → i / 8 < length bs
    → read_bit j (mark i bs) ≡ (if nat_eq i j then 1 else read_bit j bs)
unfolding read_bit mark
read_bit-mark i j bs h room =
    let b = get_or bs (i / 8) 0 in
    ground (
      arith,
      get_or-set bs (i / 8) (j / 8) (bit_or b (2 ^ (7 - i % 8))) room,
      bit-bit_or b (7 - i % 8) (7 - j % 8) (get_or-lt bs (i / 8) h) (omega arith) (omega arith),
    )

-- The loop leaves the bits before its index alone.
mark_online_from_before :
    (s : Server) (ids : List Text) (i j : ℕ) (bs : Bytes)
    → AreBytes bs
    → i + length ids ≤ 8 * length bs
    → j < i
    → read_bit j (mark_online_from s i ids bs) ≡ read_bit j bs
unfolding mark_online_from
mark_online_from_before s [] i j bs h room lt = refl
mark_online_from_before s (id ∷ ids) i j bs h room lt = elim (Bool-cases (is_seen s id)) [
  | inl seen ↦ rw seen (
      mark_online_from_before s ids (suc i) j (mark i bs) (mark-AreBytes i bs h)
        (omega (arith, length-mark i bs)) (omega arith)
      ∙ ground (arith, read_bit-mark i j bs h (omega arith)))
  | inr unseen ↦
      rw unseen (mark_online_from_before s ids (suc i) j bs h (omega arith) (omega arith))
]

-- And gives the bit of each id its value.
mark_online_from_at :
    (s : Server) (ids : List Text) (i k : ℕ) (bs : Bytes) (id : Text)
    → AreBytes bs
    → i + length ids ≤ 8 * length bs
    → get_elem? ids k ≡ some id
    → read_bit (i + k) (mark_online_from s i ids bs)
      ≡ (if is_seen s id then 1 else read_bit (i + k) bs)
unfolding mark_online_from
mark_online_from_at s [] i k bs id h room e = cc
mark_online_from_at s (x ∷ ids) i zero bs id h room e = elim (Bool-cases (is_seen s x)) [
  | inl seen ↦ ground (
    arith,
    mark_online_from_before s ids (suc i) (i + zero) (mark i bs) (mark-AreBytes i bs h)
        (omega (arith, length-mark i bs)) (omega arith),
    read_bit-mark i (i + zero) bs h (omega arith),
  )
  | inr unseen ↦
      ground
        (arith, mark_online_from_before s ids (suc i) (i + zero) bs h (omega arith) (omega arith))
]
mark_online_from_at s (x ∷ ids) i (suc k) bs id h room e = elim (Bool-cases (is_seen s x)) [
  | inl seen ↦ ground (
    arith,
    mark_online_from_at s ids (suc i) k (mark i bs) id (mark-AreBytes i bs h)
        (omega (arith, length-mark i bs)) e,
    read_bit-mark i (i + suc k) bs h (omega arith),
  )
  | inr unseen ↦ ground (arith, mark_online_from_at s ids (suc i) k bs id h (omega arith) e)
]

read_bit-replicate : (n i : ℕ) → read_bit i (replicate n 0) ≡ 0
unfolding read_bit bit
read_bit-replicate n i = ground (arith, get_or-replicate n (i / 8))

-- Bit `k` of the answer, from the left, is 1 if the peer of the k-th id is online, else 0.
pub online_states_bit :
    (s : Server) (ids : List Text) (k : ℕ) (id : Text)
    → get_elem? ids k ≡ some id
    → read_bit k (online_states s ids) ≡ (if is_seen s id then 1 else 0)
unfolding online_states
online_states_bit s ids k id e =
    let n = (length ids + 7) / 8 in
    ground (
      arith,
      mark_online_from_at s ids 0 k (replicate n 0) id (replicate-AreBytes n)
          (omega (arith, length-replicate n (zero))) e,
      read_bit-replicate n k,
    )
