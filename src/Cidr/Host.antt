-- ===== src/Cidr/Host.antt =====
-- The place of an address in its network, and the next one: snmpdiscovery/cidr.go (incIP) against the
-- mask of `IPNet.Contains`.
use Prim.Native.Nat.{min}
use snmp_sd.Base.{
  ℕ, zero, suc, ◌+◌, ◌-◌, ◌*◌, ◌/◌, ◌%◌, ◌^◌, ◌≤◌, ◌<◌, Bool, true, false, [], ◌∷◌, ◌≡◌, refl, ◌≢◌,
  ◌⊎◌, inl, inr, Bool-cases, arith, sym, ap, eqb, if◌then◌else◌, length, All,
}
use native.Mathlib.Nat.{add-mul, eq_of_mul-eq-mul_right, one-le-pow}
use snmp_sd.Cidr.{Bytes, mask_byte, mask_bytes, inc_bytes}
use snmp_sd.Cidr.Byte.{NextByte, next_byte}

-- How many bits of the first byte belong to the host.
abbrev pub free_bits : ℕ → ℕ
free_bits ones = 8 - min ones 8

-- The number of addresses of a network of so many bytes, and the number of those in front of this one.
abbrev pub size : ℕ → ℕ → ℕ
size ones zero = 1
size ones (suc bytes) = 2 ^ free_bits ones * size (ones - 8) bytes

abbrev pub place : ℕ → Bytes → ℕ
place ones [] = 0
place ones (b ∷ bs) = b % 2 ^ free_bits ones * size (ones - 8) (length bs) + place (ones - 8) bs

abbrev pub AreBytes : Bytes → Type 0
AreBytes = All (λ b. b < 256)

-- In the next address the place grows by one and the network stays, or the address was the last one:
-- then it starts anew, and the network changes unless it is the whole space.
abbrev pub NextPlace : ℕ → Bytes → Bytes × Bool → Type 0
NextPlace ones bs (next, carry) =
    ((place ones next ≡ place ones bs + 1)
      × (mask_bytes ones next ≡ mask_bytes ones bs)
      × (carry ≡ false))
    ⊎ ((place ones bs + 1 ≡ size ones (length bs))
        × (place ones next ≡ 0)
        × (ones ≡ 0 → carry ≡ true)
        × (1 ≤ ones → mask_bytes ones next ≢ mask_bytes ones bs))

next_row : (t m p : ℕ) → p + 1 ≡ m → (t + 1) * m + 0 ≡ t * m + p + 1
next_row t m p h = rw (add-mul t 1 m) (omega (arith, h))

last_row : (t k m p : ℕ) → t + 1 ≡ k → p + 1 ≡ m → t * m + p + 1 ≡ k * m
last_row t k m p h e =
    let grown : (t + 1) * m ≡ t * m + m = rw (add-mul t 1 m) (omega arith) in
    omega (arith, e, grown, ap (λ n. n * m) h)

mask_bytes_zero :
    (xs ys : Bytes)
    → length xs ≡ length ys
    → AreBytes xs
    → AreBytes ys
    → mask_bytes 0 xs ≡ mask_bytes 0 ys
unfolding mask_bytes
mask_bytes_zero [] [] h hx hy = refl
mask_bytes_zero [] (y ∷ ys) h hx hy = absurd (omega (arith, h))
mask_bytes_zero (x ∷ xs) [] h hx hy = absurd (omega (arith, h))
mask_bytes_zero (x ∷ xs) (y ∷ ys) h (hx, hxs) (hy, hys) =
    let heads : mask_byte 0 x ≡ mask_byte 0 y = omega arith in
    rw (heads, mask_bytes_zero xs ys (omega (arith, h)) hxs hys) refl

pub length-inc_bytes : (bs : Bytes) → length (inc_bytes bs).0 ≡ length bs
unfolding inc_bytes
length-inc_bytes [] = refl
length-inc_bytes (b ∷ bs) = ground (arith, length-inc_bytes bs)

pub AreBytes-inc_bytes : (bs : Bytes) → AreBytes bs → AreBytes (inc_bytes bs).0
unfolding inc_bytes
AreBytes-inc_bytes [] h = tt
AreBytes-inc_bytes (b ∷ bs) (h, hs) = elim (Bool-cases (inc_bytes bs).1) [
  | inl e ↦ rw e (omega arith, AreBytes-inc_bytes bs hs)
  | inr e ↦ rw e (h, AreBytes-inc_bytes bs hs)
]

-- The first byte of a mask, by the quotient that the mask keeps.
mask_byte_same :
    (ones x y : ℕ)
    → x / 2 ^ free_bits ones ≡ y / 2 ^ free_bits ones
    → mask_byte (min ones 8) x ≡ mask_byte (min ones 8) y
mask_byte_same ones x y h = rw h refl

mask_byte_differs :
    (ones x y : ℕ)
    → x / 2 ^ free_bits ones ≢ y / 2 ^ free_bits ones
    → mask_byte (min ones 8) x ≢ mask_byte (min ones 8) y
mask_byte_differs ones x y h e = h (
    eq_of_mul-eq-mul_right (2 ^ free_bits ones) (one-le-pow (free_bits ones) 2 (omega arith)) _ _ e)

cons_tail : {x y : ℕ} {xs ys : Bytes} → x ∷ xs ≡ y ∷ ys → xs ≡ ys
cons_tail h = cc

cons_head : {x y : ℕ} {xs ys : Bytes} → x ∷ xs ≡ y ∷ ys → x ≡ y
cons_head h = cc

true≢false : true ≢ false
true≢false = λ h. cc

not_eqb : (n : ℕ) → n ≢ 0 → eqb n 0 ≡ false
not_eqb n h = ground (arith, h)

is_eqb : (n : ℕ) → n ≡ 0 → eqb n 0 ≡ true
is_eqb n h = ground arith

-- A byte that can grow within its block has free bits, so the bytes behind it are all host.
no_rest : (ones b : ℕ) → b % 2 ^ free_bits ones + 1 < 2 ^ free_bits ones → ones - 8 ≡ 0
no_rest ones b h = elim (Bool-cases (eqb (free_bits ones) 0)) [
  | inr e ↦ ground arith
  | inl e ↦
      let none_free : free_bits ones ≡ 0 = ground arith in
      let stuck : b % 2 ^ 0 + 1 < 2 ^ 0 = rw none_free at h in absurd (omega (arith, stuck))
]

module _ (ones b : ℕ) (bs : Bytes) (hb : b < 256) (hs : AreBytes bs) (next : Bytes)
    (len : length next ≡ length bs) (hn : AreBytes next) where
  -- Without a carry the first byte stays.
  step_plain : NextPlace (ones - 8) bs (next, false) → NextPlace ones (b ∷ bs) (b ∷ next, false)
  unfolding mask_bytes
  step_plain (inl (grown, same, _)) = inl (rw (len, grown) (omega arith), rw same refl, refl)
  step_plain (inr (last, start, whole, other)) =
      let inside : 1 ≤ ones - 8 = elim (Bool-cases (eqb (ones - 8) 0)) [
        | inl e ↦ absurd (true≢false (sym (whole (ground arith))))
        | inr e ↦ ground arith
      ] in
      let none_free : free_bits ones ≡ 0 = omega arith in
      let low : b % 2 ^ free_bits ones ≡ 0 = rw none_free (omega arith) in
      let row : b % 2 ^ free_bits ones + 1 ≡ 2 ^ free_bits ones = rw none_free (omega arith) in
      inr (
        last_row (b % 2 ^ free_bits ones) _ _ _ row last,
        rw (low, start) (omega arith),
        (λ e. absurd (omega (arith, e))),
        (λ _ e. other inside (cons_tail e)),
      )

  -- With a carry the first byte moves on: within its block, or to the next one.
  step_carry :
      NextPlace (ones - 8) bs (next, true)
      → NextPlace ones (b ∷ bs) (((b + 1) % 256) ∷ next, eqb ((b + 1) % 256) 0)
  unfolding mask_bytes NextByte
  step_carry (inl (_, _, carry)) = absurd (true≢false carry)
  step_carry (inr (last, start, _, _)) = elim (next_byte (free_bits ones) (omega arith) b hb) [
    | inl (lt, low, high, more) ↦
        let small : ones - 8 ≡ 0 = no_rest ones b lt in
        let rest : mask_bytes (ones - 8) next ≡ mask_bytes (ones - 8) bs =
          rw small (mask_bytes_zero next bs len hn hs) in
        inl (
          rw (len, low, start) (next_row (b % 2 ^ free_bits ones) _ _ last),
          rw (mask_byte_same ones ((b + 1) % 256) b high, rest) refl,
          not_eqb _ more,
        )
    | inr (lt, low, full, change) ↦ inr (
      last_row (b % 2 ^ free_bits ones) _ _ _ lt last,
      rw (low, start) (omega arith),
      (λ e. is_eqb _ (full (omega (arith, e)))),
      (λ one e. mask_byte_differs ones ((b + 1) % 256) b (change (omega arith)) (cons_head e)),
    )
  ]

pub next_place :
    (ones : ℕ) (bs : Bytes) → ones ≤ 8 * length bs → AreBytes bs → NextPlace ones bs (inc_bytes bs)
unfolding inc_bytes mask_bytes
next_place ones [] h tt = inr (omega arith, omega arith, (λ e. refl), (λ e. absurd (omega arith)))
next_place ones (b ∷ bs) h (hb, hs) =
    step (inc_bytes bs) (length-inc_bytes bs) (AreBytes-inc_bytes bs hs)
      (next_place (ones - 8) bs (omega arith) hs)
  where
    step :
        (r : Bytes × Bool)
        → length r.0 ≡ length bs
        → AreBytes r.0
        → NextPlace (ones - 8) bs r
        → NextPlace ones
            (b ∷ bs)
            (if r.1 then (((b + 1) % 256) ∷ r.0, eqb ((b + 1) % 256) 0) else (b ∷ r.0, false))
    step (next, true) len hn ih = step_carry ones b bs hb hs next len hn ih
    step (next, false) len hn ih = step_plain ones b bs hb hs next len hn ih
