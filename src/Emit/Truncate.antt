-- ===== src/Emit/Truncate.antt =====
-- `truncateAtRuneBoundary` and `normaliseDeviceName` of snmpdiscovery/emit.go keep a prefix that ends
-- between two runes.
use snmp_sd.Base.{
  ℕ, zero, suc, ◌≤◌, ◌<◌, Text, ◌≡◌, refl, sym, true, false, List, [], ◌∷◌, ◌⊎◌, inl, inr, leb, eqb,
  arith, length, take, Bool-cases,
}
use snmp_sd.Emit.{starts_rune, back_up, truncate_at_rune_boundary}

back_up-le : (s : Text) (n : ℕ) → back_up s n ≤ n
unfolding back_up
back_up-le s zero = omega arith
back_up-le s (suc n) = ground (arith, back_up-le s n)

back_up-starts : (s : Text) (n : ℕ) → (back_up s n ≡ 0) ⊎ (starts_rune s (back_up s n) ≡ true)
unfolding back_up
back_up-starts s zero = inl refl
back_up-starts s (suc n) = ground (arith, back_up-starts s n)

back_up-last : (s : Text) (n k : ℕ) → back_up s n < k → k ≤ n → starts_rune s k ≡ false
unfolding back_up
back_up-last s zero k lt le = ground arith
back_up-last s (suc n) k lt le = elim (Bool-cases (starts_rune s (suc n))) [
  | inl e ↦ ground arith
  | inr e ↦ elim (Bool-cases (eqb k (suc n))) [
    | inl same ↦ (let k' : k ≡ suc n = ground arith in rw k' e)
    | inr other ↦ back_up-last s n k (ground arith) (ground arith)
  ]
]

take_all {ℓ} : {A : Type ℓ} (xs : List A) → take (length xs) xs ≡ xs
take_all [] = refl
take_all (x ∷ xs) = ground (arith, take_all xs)

-- A place where a text can be cut without cutting a UTF-8 sequence: the start, the end, and before a
-- byte that starts a rune.
abbrev pub IsBoundary : Text → ℕ → Type 0
IsBoundary s n = (n ≡ length s) ⊎ (n ≡ 0) ⊎ (starts_rune s n ≡ true)

-- The last boundary within the limit.
abbrev pub IsLongestCut : Text → ℕ → ℕ → Type 0
IsLongestCut s max n =
    (n ≤ max)
    × (n ≤ length s)
    × IsBoundary s n
    × ((k : ℕ) → k ≤ max → k ≤ length s → IsBoundary s k → k ≤ n)

back_up-longest :
    (s : Text) (max k : ℕ) → max < length s → k ≤ max → IsBoundary s k → k ≤ back_up s max
back_up-longest s max k short le (inl e) = ground arith
back_up-longest s max k short le (inr (inl e)) = ground arith
back_up-longest s max k short le (inr (inr e)) = elim (Bool-cases (leb k (back_up s max))) [
  | inl below ↦ ground arith
  | inr above ↦ ground (arith, back_up-last s max k)
]

-- A truncated text is the longest prefix within the limit that cuts no UTF-8 sequence; a text within
-- the limit is kept whole.
pub truncate_at_rune_boundary_lem :
    (s : Text) (max : ℕ)
    → (n : ℕ) × (truncate_at_rune_boundary s max ≡ take n s) × IsLongestCut s max n
unfolding truncate_at_rune_boundary
truncate_at_rune_boundary_lem s max = elim (Bool-cases (leb (length s) max)) [
  | inl e ↦
      rw e
        (length s, sym (take_all s), (ground arith, omega arith, inl refl, (λ k lt le inside. le)))
  | inr e ↦ rw e (
    back_up s max,
    refl,
    (
      back_up-le s max,
      ground (arith, back_up-le s max),
      inr (back_up-starts s max),
      (λ k le inside b. back_up-longest s max k (ground arith) le b),
    ),
  )
]
