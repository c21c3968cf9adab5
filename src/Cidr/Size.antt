-- ===== src/Cidr/Size.antt =====
-- The size of a network, and its first address: snmpdiscovery/cidr.go (the loop of expandCIDRs).
use native.Mathlib.Nat.{add-mul, mul-le-mul_right, mod-lt, one-le-pow, two-pow-succ}
use snmp_sd.Base.{
  ℕ, zero, suc, ◌+◌, ◌-◌, ◌*◌, ◌/◌, ◌%◌, ◌^◌, ◌≤◌, ◌<◌, [], ◌∷◌, ◌≡◌, refl, arith, ap, ◌∙◌, length,
}
use snmp_sd.Cidr.{Bytes, mask_bytes}
use snmp_sd.Cidr.Byte.{up_to_8}
use snmp_sd.Cidr.Host.{free_bits, size, place, AreBytes}

row_lt : (t k m p : ℕ) → t < k → p < m → t * m + p < k * m
row_lt t k m p h e =
    let grown : (t + 1) * m ≡ t * m + m = rw (add-mul t 1 m) (omega arith) in
    omega (arith, e, grown, mul-le-mul_right {m = t + 1} {n = k} m (omega (arith, h)))

pub place-lt-size : (ones : ℕ) (bs : Bytes) → AreBytes bs → place ones bs < size ones (length bs)
place-lt-size ones [] h = omega arith
place-lt-size ones (b ∷ bs) (h, hs) =
    row_lt (b % 2 ^ free_bits ones) (2 ^ free_bits ones) (size (ones - 8) (length bs))
      (place (ones - 8) bs) (mod-lt b (one-le-pow (free_bits ones) 2 (omega arith)))
      (place-lt-size (ones - 8) bs hs)

pow_sum : (a b : ℕ) → 2 ^ a * 2 ^ b ≡ 2 ^ (a + b)
pow_sum zero b = let start : 0 + b ≡ b = omega arith in rw start (omega arith)
pow_sum (suc a) b =
    let shift : suc a + b ≡ suc (a + b) = omega arith in
    rw (shift, two-pow-succ a, two-pow-succ (a + b), add-mul (2 ^ a) (2 ^ a) (2 ^ b), pow_sum a b)
      refl

pub size_lem : (ones n : ℕ) → ones ≤ 8 * n → size ones n ≡ 2 ^ (8 * n - ones)
size_lem ones zero h = let none_left : 0 - ones ≡ 0 = omega arith in rw none_left refl
size_lem ones (suc n) h =
    rw (size_lem (ones - 8) n (omega arith))
      (pow_sum (free_bits ones) (8 * n - (ones - 8)) ∙ ap (λ k. 2 ^ k) (omega arith))

-- A masked byte starts its block.
abbrev MaskedByte : ℕ → ℕ → Type 0
MaskedByte k b = (b / 2 ^ k * 2 ^ k % 2 ^ k ≡ 0) × (b / 2 ^ k * 2 ^ k < 256)

masked_byte : (k : ℕ) → k ≤ 8 → (b : ℕ) → b < 256 → MaskedByte k b
masked_byte =
    up_to_8 (λ k. (b : ℕ) → b < 256 → MaskedByte k b) (λ b h. omega arith) (λ b h. omega arith)
      (λ b h. omega arith) (λ b h. omega arith) (λ b h. omega arith) (λ b h. omega arith)
      (λ b h. omega arith) (λ b h. omega arith) (λ b h. omega arith)

pub length-mask_bytes : (ones : ℕ) (bs : Bytes) → length (mask_bytes ones bs) ≡ length bs
unfolding mask_bytes
length-mask_bytes ones [] = refl
length-mask_bytes ones (b ∷ bs) = omega (arith, length-mask_bytes (ones - 8) bs)

pub AreBytes-mask_bytes : (ones : ℕ) (bs : Bytes) → AreBytes bs → AreBytes (mask_bytes ones bs)
unfolding mask_bytes
AreBytes-mask_bytes ones [] h = tt
AreBytes-mask_bytes ones (b ∷ bs) (h, hs) =
    ((masked_byte (free_bits ones) (omega arith) b h).1, AreBytes-mask_bytes (ones - 8) bs hs)

pub place-mask_bytes : (ones : ℕ) (bs : Bytes) → AreBytes bs → place ones (mask_bytes ones bs) ≡ 0
unfolding mask_bytes
place-mask_bytes ones [] h = refl
place-mask_bytes ones (b ∷ bs) (h, hs) =
    rw ((masked_byte (free_bits ones) (omega arith) b h).0, place-mask_bytes (ones - 8) bs hs)
      (omega arith)
