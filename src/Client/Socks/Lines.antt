-- ===== src/Client/Socks/Lines.antt =====
-- On the first line of a request to the HTTP proxy of nat-client/src/socks5.rs.
use nat_server.Common.{
  ℕ, suc, ◌+◌, ◌≤◌, ◌≡◌, refl, true, false, ◌&&◌, [], ◌∷◌, arith, nat_eq, ltb, length, zero,
  Bool-cases, inl, inr,
}
use nat_server.Common.Text.{Bytes}
use nat_server.Client.Socks.{Read, got, stop, line_too_long, read_line}

-- The loop has ended, and has read no more than `n` of the bytes.
abbrev pub HasEnded : {A : Type 0} → ℕ → Bytes → Read A → Type 0
HasEnded n input (got a rest) = length input ≤ n + length rest
HasEnded n input (stop x) = x ≡ line_too_long

later :
    {A : Type 0} (b n : ℕ) (input : Bytes) (r : Read A)
    → HasEnded n input r
    → HasEnded (suc n) (b ∷ input) r
later b n input (got a rest) h = omega arith
later b n input (stop x) h = h

-- `n` is how many bytes the line may still take.
read_line-HasEnded :
    (last : ℕ) (line : Bytes) (len n : ℕ) (input : Bytes)
    → len + n ≡ 8192
    → suc n ≤ length input
    → HasEnded (suc n) input (read_line last line len input)
unfolding read_line
read_line-HasEnded last line len n [] h k = absurd (omega arith)
read_line-HasEnded last line len zero (b ∷ input) h k =
    let long : ltb 8192 (len + 1) ≡ true = ground arith in
    elim (Bool-cases (nat_eq last b'\r' && nat_eq b b'\n')) [
      | inl y ↦ rw y (omega arith)
      | inr x ↦ rw (x, long) refl
    ]
read_line-HasEnded last line len (suc m) (b ∷ input) h k =
    let short : ltb 8192 (len + 1) ≡ false = ground arith in
    let rest =
      later b (suc m) input (read_line b (b ∷ line) (len + 1) input)
        (read_line-HasEnded b (b ∷ line) (len + 1) m input (omega arith) (omega arith)) in
    elim (Bool-cases (nat_eq last b'\r' && nat_eq b b'\n')) [
      | inl y ↦ rw y (omega arith)
      | inr x ↦ rw (x, short) rest
    ]

-- After at most 8192 further bytes, whatever they are, the first line of a request has been read, or
-- was refused as too long: the loop that reads it does not wait for more.
pub read_line_ends :
    (b : ℕ) (input : Bytes)
    → 8192 ≤ length input
    → HasEnded 8192 input (read_line b (b ∷ []) 1 input)
read_line_ends b input h = read_line-HasEnded b (b ∷ []) 1 8191 input refl h
