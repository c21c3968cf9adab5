-- ===== src/Base/Numbers.antt =====
-- Go's `int` and its decimal texts: `strconv.Itoa` and `strconv.Atoi`.
use Prim.Native.Nat.{ℕ, zero, suc, ◌+◌, ◌-◌, ◌*◌, ◌/◌, ◌%◌, ◌^◌, ◌≤◌, ◌<◌}
use mathlib.Core.Path.{◌≡◌, refl}
use mathlib.Core.Logic.{◌≢◌}
use mathlib.Core.Bool.{◌&&◌}
use mathlib.Core.List.{[], ◌∷◌}
use mathlib.Core.Option.{Option, none, some}
use native.Mathlib.Omega.{arith}
use snmp_sd.Base.Tests.{ltb, leb, eqb, if◌then◌else◌}
use snmp_sd.Base.Texts.{Text, codes, Lacks}

-- `negsuc n` is -(n + 1).
pub data ℤ : Type 0 where
  pos : ℕ → ℤ
  negsuc : ℕ → ℤ

-- A signed number as a natural one, with 0 for every negative number.
abbrev pub pos_part : ℤ → ℕ
pos_part (pos n) = n
pos_part (negsuc n) = 0

-- The decimal digits of `n` in front of `out`: one round for each digit, so `n` rounds and one
-- more are enough.
digits : ℕ → ℕ → Text → Text
digits zero n out = out
digits (suc fuel) n out =
    let next = digits fuel (n / 10) ((b'0' + n % 10) ∷ out) in
    if ltb n 10 then (b'0' + n) ∷ out else next

-- `strconv.Itoa` of a number that is not negative
unfoldable pub itoa : ℕ → Text
unfolding digits
itoa n = digits (suc n) n []

-- The number that digits spell behind `n`; `none` at any other byte.
scan : ℕ → Text → Option ℕ
scan n [] = some n
scan n (c ∷ s) =
    let rest = scan (n * 10 + (c - b'0')) s in if leb b'0' c && leb c b'9' then rest else none

-- Digits, and at least one of them.
digits_value : Text → Option ℕ
unfolding scan
digits_value [] = none
digits_value (c ∷ s) = scan 0 (c ∷ s)

-- An `int` has 64 bits: a value out of range is an error.
positive_int : Option ℕ → Option ℤ
positive_int none = none
positive_int (some n) = if ltb n (2 ^ 63) then some (pos n) else none

negative_int : Option ℕ → Option ℤ
negative_int none = none
negative_int (some zero) = some (pos 0)
negative_int (some (suc n)) = if ltb n (2 ^ 63) then some (negsuc n) else none

-- `strconv.Atoi`: decimal digits behind at most one sign
unfoldable pub atoi : Text → Option ℤ
unfolding digits_value positive_int negative_int
atoi [] = none
atoi (c ∷ s) =
    if eqb c b'+'
    then positive_int (digits_value s)
    else if eqb c b'-'
    then negative_int (digits_value s)
    else positive_int (digits_value (c ∷ s))

atoi_tests :
    (atoi (codes "042") ≡ some (pos 42))
    × (atoi (codes "-1") ≡ some (negsuc 0))
    × (atoi (codes "1x") ≡ none)
    × (atoi (codes "9223372036854775808") ≡ none)
    × (itoa 6527 ≡ codes "6527")
    × (itoa 0 ≡ codes "0")
unfolding atoi itoa
atoi_tests = (refl, refl, refl, refl, refl, refl)

-- A text of decimal digits.
abbrev pub AllDigits : Text → Type 0
AllDigits [] = Unit
AllDigits (c ∷ s) = (b'0' ≤ c) × (c ≤ b'9') × AllDigits s

AllDigits-digits : (fuel n : ℕ) (out : Text) → AllDigits out → AllDigits (digits fuel n out)
unfolding digits
AllDigits-digits zero n out h = h
AllDigits-digits (suc fuel) n out h =
    ground (arith, AllDigits-digits fuel (n / 10) ((b'0' + n % 10) ∷ out))

digits-ne-nil : (fuel n : ℕ) (out : Text) → n < fuel → digits fuel n out ≢ []
unfolding digits
digits-ne-nil zero n out h = elim h [ ]
digits-ne-nil (suc fuel) n out h =
    ground (arith, digits-ne-nil fuel (n / 10) ((b'0' + n % 10) ∷ out))

-- Reading the digits of `n` gives `n`.
scan-digits : (fuel n : ℕ) (out : Text) → n < fuel → scan 0 (digits fuel n out) ≡ scan n out
unfolding digits scan
scan-digits zero n out h = elim h [ ]
scan-digits (suc fuel) n out h = ground (arith, scan-digits fuel (n / 10) ((b'0' + n % 10) ∷ out))

pub AllDigits-itoa : (n : ℕ) → AllDigits (itoa n)
unfolding itoa
AllDigits-itoa n = AllDigits-digits (suc n) n [] tt

pub itoa-ne-nil : (n : ℕ) → itoa n ≢ []
unfolding itoa
itoa-ne-nil n = digits-ne-nil (suc n) n [] (omega arith)

scan-itoa : (n : ℕ) → scan 0 (itoa n) ≡ some n
unfolding itoa scan
scan-itoa n = scan-digits (suc n) n [] (omega arith)

atoi_of_scan :
    (s : Text) (n : ℕ)
    → s ≢ []
    → AllDigits s
    → scan 0 s ≡ some n
    → n < 2 ^ 63
    → atoi s ≡ some (pos n)
unfolding atoi
atoi_of_scan [] n h _ _ _ = absurd (h refl)
atoi_of_scan (c ∷ s) n _ (lo, hi, _) e fits = ground arith

-- `Atoi` reads back what `Itoa` wrote.
pub atoi-itoa : (n : ℕ) → n < 2 ^ 63 → atoi (itoa n) ≡ some (pos n)
atoi-itoa n = atoi_of_scan (itoa n) n (itoa-ne-nil n) (AllDigits-itoa n) (scan-itoa n)

pub Lacks-of_AllDigits : (c : ℕ) (s : Text) → c < b'0' → AllDigits s → Lacks c s
Lacks-of_AllDigits c [] h _ = tt
Lacks-of_AllDigits c (d ∷ s) h (lo, hi, rest) = (omega arith, Lacks-of_AllDigits c s h rest)
