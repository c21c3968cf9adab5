-- ===== src/Base/Texts.antt =====
-- Go strings as lists of bytes, with the functions of the package `strings` that the program calls.
-- `TrimSpace` and `ToLower` are those of Go on ASCII text; bytes from 128 on are left as they are.
use Prim.Native.Nat.{ℕ, ◌+◌, ◌-◌, ◌<◌}
use Prim.Native.Char.{code}
use Prim.Native.String.{String}
use mathlib.Core.Path.{◌≡◌, refl, ap}
use mathlib.Core.Logic.{◌↔◌, ◌≢◌}
use mathlib.Core.Bool.{Bool, true, false, ◌&&◌, ◌||◌}
use mathlib.Core.Option.{Option, none, some}
use mathlib.Core.List.{List, [], ◌∷◌, ◌++◌, map, reverse}
use native.Mathlib.Decide.{ℕ_discrete}
use native.Mathlib.Omega.{arith}
use snmp_sd.Base.Tests.{leb, eqb, if◌then◌else◌, verdict}

abbrev pub Text : Type 0
Text = List ℕ

-- The bytes of an ASCII literal.
abbrev pub codes : String → Text
codes String.[] = []
codes (String.◌∷◌ c s) = code c ∷ codes s

text_cons : {x y : ℕ} {xs ys : Text} → Dec (x ≡ y) → Dec (xs ≡ ys) → Dec (x ∷ xs ≡ y ∷ ys)
text_cons (yes p) (yes q) = yes (cc)
text_cons (yes p) (no q) = no (λ e. q (cc))
text_cons (no p) _ = no (λ e. p (cc))

unfoldable pub text_dec : Discrete Text
unfolding text_cons ℕ_discrete
text_dec [] [] = yes refl
text_dec [] (y ∷ ys) = no (λ e. cc)
text_dec (x ∷ xs) [] = no (λ e. cc)
text_dec (x ∷ xs) (y ∷ ys) = text_cons (ℕ_discrete x y) (text_dec xs ys)

infix 50 ◌==◌
unfoldable pub ◌==◌ : Text → Text → Bool
a == b = verdict (text_dec a b)

pub eq_iff : (a b : Text) → ((a == b) ≡ true) ↔ (a ≡ b)
unfolding ◌==◌
eq_iff a b = ground arith

pub eq_refl : (a : Text) → (a == a) ≡ true
unfolding ◌==◌
eq_refl a = ground arith

-- `strings.TrimSpace`
is_space : ℕ → Bool
is_space c = eqb c 32 || leb 9 c && leb c 13

trim_left : Text → Text
trim_left [] = []
trim_left (c ∷ s) = if is_space c then trim_left s else c ∷ s

keep_unless_blank : ℕ → Text → Text
keep_unless_blank c [] = if is_space c then [] else c ∷ []
keep_unless_blank c (d ∷ s) = c ∷ d ∷ s

trim_right : Text → Text
trim_right [] = []
trim_right (c ∷ s) = keep_unless_blank c (trim_right s)

unfoldable pub trim : Text → Text
unfolding is_space trim_left keep_unless_blank trim_right
trim s = trim_right (trim_left s)

-- `strings.ToLower` and `strings.ToUpper`
lower_byte : ℕ → ℕ
lower_byte c = if leb b'A' c && leb c b'Z' then c + 32 else c

upper_byte : ℕ → ℕ
upper_byte c = if leb b'a' c && leb c b'z' then c - 32 else c

unfoldable pub lower : Text → Text
unfolding lower_byte
lower = map lower_byte

unfoldable pub upper : Text → Text
unfolding upper_byte
upper = map upper_byte

-- `strings.CutPrefix`: the text behind the prefix
unfoldable pub cut_prefix : Text → Text → Option Text
cut_prefix [] s = some s
cut_prefix (p ∷ ps) [] = none
cut_prefix (p ∷ ps) (c ∷ s) = if eqb p c then cut_prefix ps s else none

is_some {ℓ} : {A : Type ℓ} → Option A → Bool
is_some none = false
is_some (some _) = true

unfoldable pub has_prefix : Text → Text → Bool
unfolding cut_prefix is_some
has_prefix p s = is_some (cut_prefix p s)

unfoldable pub trim_prefix : Text → Text → Text
unfolding cut_prefix
trim_prefix p s = elim (cut_prefix p s) [ none ↦ s | some rest ↦ rest ]

unfoldable pub has_suffix : Text → Text → Bool
unfolding has_prefix
has_suffix p s = has_prefix (reverse p) (reverse s)

unfoldable pub trim_suffix : Text → Text → Text
unfolding trim_prefix
trim_suffix p s = reverse (trim_prefix (reverse p) (reverse s))

-- `strings.Contains`
unfoldable pub contains_text : Text → Text → Bool
unfolding has_prefix
contains_text p [] = has_prefix p []
contains_text p (c ∷ s) = has_prefix p (c ∷ s) || contains_text p s

-- `strings.Cut` at a byte: what stands before and behind its first occurrence
cut_step : ℕ → ℕ → Text → Option (Text × Text) → Option (Text × Text)
cut_step sep c s rest =
    if eqb c sep
    then some ([], s)
    else elim rest [ none ↦ none | some (before, after) ↦ some (c ∷ before, after) ]

unfoldable pub cut : ℕ → Text → Option (Text × Text)
unfolding cut_step
cut sep [] = none
cut sep (c ∷ s) = cut_step sep c s (cut sep s)

-- `strings.Split` at a byte, and `strings.Join`
onto_first : ℕ → List Text → List Text
onto_first c [] = (c ∷ []) ∷ []
onto_first c (p ∷ ps) = (c ∷ p) ∷ ps

unfoldable pub split : ℕ → Text → List Text
unfolding onto_first
split sep [] = [] ∷ []
split sep (c ∷ s) = let rest = split sep s in if eqb c sep then [] ∷ rest else onto_first c rest

unfoldable pub join : ℕ → List Text → Text
join sep [] = []
join sep (p ∷ []) = p
join sep (p ∷ q ∷ ps) = p ++ (sep ∷ join sep (q ∷ ps))

-- `strings.ReplaceAll` of one byte by another
unfoldable pub replace_byte : ℕ → ℕ → Text → Text
replace_byte from to = map (λ c. if eqb c from then to else c)

-- No byte of the text is `c`.
abbrev pub Lacks : ℕ → Text → Type 0
Lacks c [] = Unit
Lacks c (d ∷ s) = (d ≢ c) × Lacks c s

abbrev pub AllLack : ℕ → List Text → Type 0
AllLack c [] = Unit
AllLack c (p ∷ ps) = Lacks c p × AllLack c ps

-- Facts on trimming.
trim_left_idem : (s : Text) → trim_left (trim_left s) ≡ trim_left s
unfolding trim_left
trim_left_idem [] = refl
trim_left_idem (c ∷ s) = ground (arith, trim_left_idem s)

trim_right_idem : (s : Text) → trim_right (trim_right s) ≡ trim_right s
unfolding trim_right keep_unless_blank
trim_right_idem [] = refl
trim_right_idem (c ∷ s) = blank c (trim_right s) (trim_right_idem s)
  where
    blank :
        (d : ℕ) (r : Text)
        → trim_right r ≡ r
        → trim_right (keep_unless_blank d r) ≡ keep_unless_blank d r
    blank d [] h = ground arith
    blank d (e ∷ r) h = ap (keep_unless_blank d) h

trim_left_stays :
    (c : ℕ) (r : Text)
    → is_space c ≡ false
    → trim_left (keep_unless_blank c r) ≡ keep_unless_blank c r
unfolding trim_left keep_unless_blank
trim_left_stays c [] h = ground arith
trim_left_stays c (d ∷ r) h = ground arith

trim_left-trim_right : (s : Text) → trim_left (trim_right (trim_left s)) ≡ trim_right (trim_left s)
unfolding trim_left trim_right
trim_left-trim_right [] = refl
trim_left-trim_right (c ∷ s) =
    ground (arith, trim_left-trim_right s, trim_left_stays c (trim_right s))

-- Trimming twice is trimming once.
pub trim_idem : (s : Text) → trim (trim s) ≡ trim s
unfolding trim
trim_idem s = rw (trim_left-trim_right s) (trim_right_idem (trim_left s))

pub trim-nil : trim [] ≡ []
unfolding trim
trim-nil = refl

pub split-ne-nil : (sep : ℕ) (s : Text) → split sep s ≢ []
unfolding split
split-ne-nil sep [] = λ e. cc
split-ne-nil sep (c ∷ s) = ground (arith, split-ne-nil sep s)

split-append :
    (sep : ℕ) (p rest : Text) → Lacks sep p → split sep (p ++ sep ∷ rest) ≡ p ∷ split sep rest
unfolding split
split-append sep [] rest _ = ground arith
split-append sep (c ∷ p) rest (h, hs) = ground (arith, split-append sep p rest hs)

split-one : (sep : ℕ) (p : Text) → Lacks sep p → split sep p ≡ p ∷ []
unfolding split
split-one sep [] _ = refl
split-one sep (c ∷ p) (h, hs) = ground (arith, split-one sep p hs)

-- Splitting a join gives the parts back, if there is a part and none holds the separator.
pub split-join :
    (sep : ℕ) (ps : List Text) → ps ≢ [] → AllLack sep ps → split sep (join sep ps) ≡ ps
unfolding join
split-join sep [] h _ = absurd (h refl)
split-join sep (p ∷ []) _ (hp, _) = split-one sep p hp
split-join sep (p ∷ q ∷ ps) _ (hp, hs) =
    rw (split-append sep p (join sep (q ∷ ps)) hp, split-join sep (q ∷ ps) (λ e. cc) hs)

-- How often the byte occurs.
abbrev pub occurrences : ℕ → Text → ℕ
occurrences sep [] = 0
occurrences sep (c ∷ s) = (if eqb c sep then 1 else 0) + occurrences sep s

keep_unless_blank-ne-nil : (c : ℕ) (r : Text) → is_space c ≡ false → keep_unless_blank c r ≢ []
unfolding keep_unless_blank
keep_unless_blank-ne-nil c [] h = ground arith
keep_unless_blank-ne-nil c (d ∷ r) h = λ e. cc

-- A text that starts with a byte beyond the blank is not blank.
pub trim-ne-nil : (c : ℕ) (s : Text) → 32 < c → trim (c ∷ s) ≢ []
unfolding trim is_space trim_left trim_right
trim-ne-nil c s h =
    let visible : is_space c ≡ false = ground arith in
    rw visible (keep_unless_blank-ne-nil c (trim_right s) visible)
