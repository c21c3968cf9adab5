-- ===== src/Base/Maps.antt =====
-- Go's `map[string]V` as a list of pairs without repeated keys, in order of insertion.
use mathlib.Core.Path.{◌≡◌, refl}
use mathlib.Core.Bool.{true, false, ◌||◌, not}
use mathlib.Core.List.{List, [], ◌∷◌, map}
use mathlib.Core.Option.{Option, none, some}
use native.Mathlib.Omega.{arith}
use snmp_sd.Base.Tests.{if◌then◌else◌, Bool-cases}
use snmp_sd.Base.Texts.{Text, ◌==◌}
use snmp_sd.Base.Lists.{contains, Distinct, All, keep}
use mathlib.Core.Logic.{inl, inr}

abbrev pub Assoc {ℓ} : Type ℓ → Type ℓ
Assoc V = List (Text × V)

module _ {ℓ} {V : Type ℓ} where
  abbrev pub keys : Assoc V → List Text
  keys = map (λ e. e.0)

  unfoldable pub lookup : Text → Assoc V → Option V
  lookup k [] = none
  lookup k ((j, v) ∷ m) = if j == k then some v else lookup k m

  unfoldable pub insert : Text → V → Assoc V → Assoc V
  insert key new [] = (key, new) ∷ []
  insert key new ((at, old) ∷ rest) =
      if at == key then (key, new) ∷ rest else (at, old) ∷ insert key new rest

  pub lookup-insert :
      (k j : Text) (v : V) (m : Assoc V)
      → lookup j (insert k v m) ≡ (if k == j then some v else lookup j m)
  unfolding lookup insert ◌==◌
  lookup-insert k j v [] = refl
  lookup-insert k j v ((i, w) ∷ m) = ground (arith, lookup-insert k j v m)

  pub contains-keys-insert :
      (k j : Text) (v : V) (m : Assoc V)
      → contains j (keys (insert k v m)) ≡ (j == k || contains j (keys m))
  unfolding insert ◌==◌
  contains-keys-insert k j v [] = refl
  contains-keys-insert k j v ((i, w) ∷ m) = ground (arith, contains-keys-insert k j v m)

  pub insert-Distinct :
      (k : Text) (v : V) (m : Assoc V) → Distinct (keys m) → Distinct (keys (insert k v m))
  unfolding insert ◌==◌
  insert-Distinct k v [] h = ground arith
  insert-Distinct k v ((i, w) ∷ m) h =
      ground (arith, insert-Distinct k v m, contains-keys-insert k i v m)

  pub lookup_absent : (k : Text) (m : Assoc V) → contains k (keys m) ≡ false → lookup k m ≡ none
  unfolding lookup ◌==◌
  lookup_absent k [] h = refl
  lookup_absent k ((j, v) ∷ m) h = ground (arith, lookup_absent k m)

  pub contains-keys-lookup :
      (k : Text) (m : Assoc V)
      → contains k (keys m) ≡ elim (lookup k m) [ none ↦ false | some _ ↦ true ]
  unfolding lookup ◌==◌
  contains-keys-lookup k [] = refl
  contains-keys-lookup k ((j, v) ∷ m) = ground (arith, contains-keys-lookup k m)

pub All-insert :
    {V : Type 0} (P : Text × V → Type 0) (k : Text) (v : V) (m : Assoc V)
    → P (k, v)
    → All P m
    → All P (insert k v m)
unfolding insert
All-insert P k v [] h hs = (h, tt)
All-insert P k v ((i, w) ∷ m) h (hi, hs) = elim (Bool-cases (i == k)) [
  | inl e ↦ rw e (h, hs)
  | inr e ↦ rw e (hi, All-insert P k v m h hs)
]

module _ {V : Type 0} where
  abbrev pub remove : Text → Assoc V → Assoc V
  remove k = keep (λ e. not (e.0 == k))

  pub lookup-remove :
      (k j : Text) (m : Assoc V) → lookup j (remove k m) ≡ (if k == j then none else lookup j m)
  unfolding lookup ◌==◌
  lookup-remove k j [] = ground arith
  lookup-remove k j ((i, w) ∷ m) = ground (arith, lookup-remove k j m)
