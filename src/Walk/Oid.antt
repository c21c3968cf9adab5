-- ===== src/Walk/Oid.antt =====
-- OIDs of a walk as texts and as lists of numbers: snmpdiscovery/walkparse.go (walkOID, oidParts,
-- joinParts, oidHasPrefix) and walkcluster.go (oidLess).
use snmp_sd.Base.{
  ℕ, suc, ◌+◌, Bool, true, false, ◌||◌, ◌&&◌, Option, none, some, List, [], ◌∷◌, ◌++◌, ltb, eqb,
  if◌then◌else◌, Text, codes, ◌==◌, trim, has_prefix, trim_prefix, cut_prefix, split, join, ℤ, pos,
  negsuc, atoi, itoa, map, ◌≡◌, refl,
}
use snmp_sd.Fingerprint.{normalize_oid}

pub record WalkVar : Type 0 where
  pub oid : Text
  pub type : Text
  pub value : Text

-- A second dot in front of "iso." goes with it; the "iso" stands for the number 1.
unfoldable pub walk_oid : Text → Text
unfolding has_prefix trim_prefix normalize_oid
walk_oid text =
    let s = trim text in
    let s = if has_prefix (codes ".iso.") s then trim_prefix (codes ".") s else s in
    if has_prefix (codes "iso.") s
    then codes "1." ++ trim_prefix (codes "iso.") s
    else normalize_oid s

-- `strconv.Itoa`
unfoldable pub int_text : ℤ → Text
int_text (pos n) = itoa n
int_text (negsuc n) = b'-' ∷ itoa (suc n)

-- The numbers of the pieces; one that is no number makes the whole list empty.
unfoldable pub cons_part : Option ℤ → Option (List ℤ) → Option (List ℤ)
cons_part none rest = none
cons_part (some n) none = none
cons_part (some n) (some rest) = some (n ∷ rest)

unfoldable pub read_parts : List Text → Option (List ℤ)
unfolding atoi cons_part
read_parts [] = some []
read_parts (b ∷ bits) = cons_part (atoi b) (read_parts bits)

unfoldable pub or_empty : Option (List ℤ) → List ℤ
or_empty none = []
or_empty (some parts) = parts

unfoldable pub oid_parts : Text → List ℤ
unfolding walk_oid read_parts or_empty split ◌==◌
oid_parts text =
    let oid = walk_oid text in if oid == [] then [] else or_empty (read_parts (split b'.' oid))

unfoldable pub join_parts : List ℤ → Text
unfolding join int_text
join_parts p = join b'.' (map int_text p)

unfoldable pub oid_has_prefix : Text → Text → Bool
unfolding walk_oid ◌==◌ has_prefix
oid_has_prefix oid prefix =
    let o = walk_oid oid in
    let p = walk_oid prefix in p == [] || (o == p || has_prefix (p ++ codes ".") o)

unfoldable pub int_ltb : ℤ → ℤ → Bool
int_ltb (pos m) (pos n) = ltb m n
int_ltb (pos m) (negsuc n) = false
int_ltb (negsuc m) (pos n) = true
int_ltb (negsuc m) (negsuc n) = ltb n m

unfoldable pub int_eqb : ℤ → ℤ → Bool
int_eqb (pos m) (pos n) = eqb m n
int_eqb (negsuc m) (negsuc n) = eqb m n
int_eqb _ _ = false

unfoldable pub parts_less : List ℤ → List ℤ → Bool
unfolding int_ltb int_eqb
parts_less [] [] = false
parts_less [] (y ∷ ys) = true
parts_less (x ∷ xs) [] = false
parts_less (x ∷ xs) (y ∷ ys) = if int_eqb x y then parts_less xs ys else int_ltb x y

unfoldable pub oid_less : Text → Text → Bool
unfolding parts_less oid_parts
oid_less a b = parts_less (oid_parts a) (oid_parts b)

oid_tests :
    (walk_oid (codes " .iso.3.6 ") ≡ codes "1.3.6")
    × (walk_oid (codes ".1.3.6") ≡ codes "1.3.6")
    × (oid_parts (codes "1.x") ≡ [])
    × (join_parts (pos 1 ∷ pos 30 ∷ []) ≡ codes "1.30")
    × (oid_has_prefix (codes ".1.3.6") (codes "1.3") ≡ true)
    × (oid_has_prefix (codes "1.36") (codes "1.3") ≡ false)
    × (oid_less (codes "1.3.10") (codes "1.3.9") ≡ false)
unfolding walk_oid oid_parts join_parts oid_has_prefix oid_less trim snmp_sd.Base.text_dec itoa
oid_tests = (refl, refl, refl, refl, refl, refl, refl)
