-- ===== src/Base/Lists.antt =====
-- Lists measured by native numbers, and lists of texts that serve as Go's `map[string]struct{}`.
use Prim.Native.Nat.{ℕ, zero, suc, ◌+◌, ◌≤◌}
use mathlib.Core.Path.{◌≡◌, refl}
use mathlib.Core.Bool.{Bool, true, false, ◌&&◌, ◌||◌, not}
use mathlib.Core.List.{List, [], ◌∷◌, ◌++◌, map}
use mathlib.Core.Option.{Option, none, some}
use native.Mathlib.Omega.{arith}
use snmp_sd.Base.Tests.{if◌then◌else◌}
use snmp_sd.Base.Texts.{Text, ◌==◌}

module _ {ℓ} {A : Type ℓ} where
  abbrev pub length : List A → ℕ
  length [] = 0
  length (x ∷ xs) = suc (length xs)

  abbrev pub take : ℕ → List A → List A
  take zero xs = []
  take (suc n) [] = []
  take (suc n) (x ∷ xs) = x ∷ take n xs

  abbrev pub drop : ℕ → List A → List A
  drop zero xs = xs
  drop (suc n) [] = []
  drop (suc n) (x ∷ xs) = drop n xs

  abbrev pub get_elem? : List A → ℕ → Option A
  get_elem? [] i = none
  get_elem? (x ∷ xs) zero = some x
  get_elem? (x ∷ xs) (suc i) = get_elem? xs i

  -- The elements that pass a Boolean test, in order.
  abbrev pub keep : (A → Bool) → List A → List A
  keep p [] = []
  keep p (x ∷ xs) = if p x then x ∷ keep p xs else keep p xs

  -- Every element satisfies `P`.
  abbrev pub All {κ} : (A → Type κ) → List A → Type κ
  All P [] = Unit
  All P (x ∷ xs) = P x × All P xs

  pub length-append : (xs ys : List A) → length (xs ++ ys) ≡ length xs + length ys
  length-append [] ys = omega arith
  length-append (x ∷ xs) ys = omega (arith, length-append xs ys)

  pub length-keep-le : (p : A → Bool) (xs : List A) → length (keep p xs) ≤ length xs
  length-keep-le p [] = omega arith
  length-keep-le p (x ∷ xs) = ground (arith, length-keep-le p xs)

  pub All-append {κ} : (P : A → Type κ) (xs ys : List A) → All P xs → All P ys → All P (xs ++ ys)
  All-append P [] ys tt there = there
  All-append P (x ∷ xs) ys (first, here) there = (first, All-append P xs ys here there)

-- Whether a text is among the texts.
abbrev pub contains : Text → List Text → Bool
contains a [] = false
contains a (x ∷ xs) = a == x || contains a xs

-- No text stands twice.
abbrev pub Distinct : List Text → Type 0
Distinct [] = Unit
Distinct (x ∷ xs) = (contains x xs ≡ false) × Distinct xs

pub contains-append :
    (a : Text) (xs ys : List Text) → contains a (xs ++ ys) ≡ (contains a xs || contains a ys)
contains-append a [] ys = refl
contains-append a (x ∷ xs) ys = ground (arith, contains-append a xs ys)

-- The loop that keeps the first element for each key: `seen` holds the keys met so far.
module _ {A : Type 0} (key : A → Text) where
  unfoldable pub unique_by : List Text → List A → List A
  unique_by seen [] = []
  unique_by seen (x ∷ xs) = elim (contains (key x) seen) [
    | true ↦ unique_by seen xs
    | false ↦ x ∷ unique_by (key x ∷ seen) xs
  ]

  -- What is kept has each key once, and none of the keys seen before.
  pub contains-unique_by :
      (a : Text) (seen : List Text) (xs : List A)
      → contains a (map key (unique_by seen xs))
        ≡ (contains a (map key xs) && not (contains a seen))
  unfolding unique_by ◌==◌
  contains-unique_by a seen [] = refl
  contains-unique_by a seen (x ∷ xs) =
      ground (arith, contains-unique_by a seen xs, contains-unique_by a (key x ∷ seen) xs)

  pub unique_by-Distinct : (seen : List Text) (xs : List A) → Distinct (map key (unique_by seen xs))
  unfolding unique_by ◌==◌
  unique_by-Distinct seen [] = tt
  unique_by-Distinct seen (x ∷ xs) = ground (
    arith,
    unique_by-Distinct seen xs,
    unique_by-Distinct (key x ∷ seen) xs,
    contains-unique_by (key x) (key x ∷ seen) xs,
  )

-- Whether an element passes a Boolean test.
abbrev pub any {ℓ} : {A : Type ℓ} → (A → Bool) → List A → Bool
any p [] = false
any p (x ∷ xs) = p x || any p xs

pub any-append {ℓ} :
    {A : Type ℓ} (p : A → Bool) (xs ys : List A) → any p (xs ++ ys) ≡ (any p xs || any p ys)
any-append p [] ys = refl
any-append p (x ∷ xs) ys = ground (arith, any-append p xs ys)

pub contains-keep :
    (a : Text) (p : Text → Bool) (xs : List Text) → contains a (keep p xs) ≡ (contains a xs && p a)
unfolding ◌==◌
contains-keep a p [] = refl
contains-keep a p (x ∷ xs) = ground (arith, contains-keep a p xs)
