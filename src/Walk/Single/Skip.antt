-- ===== src/Walk/Single/Skip.antt =====
-- Which candidate columns are dropped: snmpdiscovery/walkcluster.go (the loop over `claimed` in
-- clusterSingleColumns).
use snmp_sd.Base.{
  ℕ, suc, ◌+◌, ◌≤◌, Bool, true, false, ◌||◌, ◌&&◌, Option, none, some, List, [], ◌∷◌, ◌≡◌, refl,
  ◌≢◌, Text, codes, ◌==◌, has_prefix, split, split-ne-nil, arith, ltb, length, occurrences,
  Bool-cases, inl, inr, atoi, ℤ, ◌++◌, Option-cases,
}
use snmp_sd.Walk.Oid.{walk_oid, oid_parts, oid_has_prefix, cons_part, read_parts, or_empty}
use snmp_sd.Walk.Single.{is_deeper, is_claimed}

length-split : (sep : ℕ) (s : Text) → length (split sep s) ≡ suc (occurrences sep s)
unfolding split
length-split sep [] = refl
length-split sep (c ∷ s) = ground (arith, length-split sep s, split-ne-nil sep s)

occurrences-prefix :
    (sep : ℕ) (p s : Text) → has_prefix p s ≡ true → occurrences sep p ≤ occurrences sep s
unfolding has_prefix
occurrences-prefix sep [] s h = omega arith
occurrences-prefix sep (c ∷ p) [] h = ground arith
occurrences-prefix sep (c ∷ p) (d ∷ s) h = ground (arith, occurrences-prefix sep p s)

occurrences-append :
    (sep : ℕ) (s t : Text) → occurrences sep (s ++ t) ≡ occurrences sep s + occurrences sep t
occurrences-append sep [] t = omega arith
occurrences-append sep (c ∷ s) t = omega (arith, occurrences-append sep s t)

length-cons_part :
    (n : Option ℤ) (rest : Option (List ℤ)) (parts : List ℤ) (m : ℕ)
    → cons_part n rest ≡ some parts
    → ((tail : List ℤ) → rest ≡ some tail → length tail ≡ m)
    → length parts ≡ suc m
unfolding cons_part
length-cons_part none rest parts m h _ = cc
length-cons_part (some n) none parts m h _ = cc
length-cons_part (some n) (some tail) parts m h len = ground (arith, len tail refl)

length-read_parts :
    (bits : List Text) (parts : List ℤ) → read_parts bits ≡ some parts → length parts ≡ length bits
unfolding read_parts
length-read_parts [] parts h = ground arith
length-read_parts (b ∷ bits) parts h =
    length-cons_part (atoi b) (read_parts bits) parts (length bits) h (length-read_parts bits)

-- The pieces of a text that is not blank.
pieces : Text → ℕ
pieces [] = 0
pieces (c ∷ s) = suc (occurrences b'.' (c ∷ s))

length-oid_parts-le : (oid : Text) → length (oid_parts oid) ≤ pieces (walk_oid oid)
unfolding oid_parts pieces ◌==◌ or_empty
length-oid_parts-le oid = elim (Option-cases (read_parts (split b'.' (walk_oid oid)))) [
  | inl e ↦ rw e (ground arith)
  | inr (parts, e) ↦ rw e (
      ground (
        arith,
        length-read_parts (split b'.' (walk_oid oid)) parts e,
        length-split b'.' (walk_oid oid),
      ))
]

length-oid_parts :
    (oid : Text) → oid_parts oid ≢ [] → length (oid_parts oid) ≡ pieces (walk_oid oid)
unfolding oid_parts pieces ◌==◌ or_empty
length-oid_parts oid h = elim (Option-cases (read_parts (split b'.' (walk_oid oid)))) [
  | inl e ↦ absurd (h (rw e (ground arith)))
  | inr (parts, e) ↦ rw e (
      ground (
        arith,
        length-read_parts (split b'.' (walk_oid oid)) parts e,
        length-split b'.' (walk_oid oid),
      ))
]

pieces-le :
    (c oid : Text) → oid_has_prefix c oid ≡ true → pieces (walk_oid oid) ≤ pieces (walk_oid c)
unfolding oid_has_prefix pieces ◌==◌
pieces-le c oid h = ground (
  arith,
  occurrences-prefix b'.' (walk_oid oid ++ codes ".") (walk_oid c),
  occurrences-append b'.' (walk_oid oid) (codes "."),
)

not_deeper : (m n : ℕ) → m ≤ n → ltb n m ≡ false
not_deeper m n h = ground arith

-- A column below the OID has at least as many numbers.
never_deeper : (c oid : Text) → oid_parts c ≢ [] → (oid_has_prefix c oid && is_deeper oid c) ≡ false
unfolding is_deeper
never_deeper c oid h = elim (Bool-cases (oid_has_prefix c oid)) [
  | inr e ↦ rw e refl
  | inl e ↦
      let le = pieces-le c oid e in
      let here = length-oid_parts-le oid in
      let all = length-oid_parts c h in
      rw (e, not_deeper (length (oid_parts oid)) (length (oid_parts c)) (omega arith)) refl
]

only_second : (a b rest : Bool) → b ≡ false → rest ≡ false → ((a || b) && b || rest) ≡ false
only_second a b rest h k = ground arith

-- No claimed OID drops a candidate: one of which the column is a part has no more numbers than the
-- column. So the condition under which `clusterSingleColumns` skips a column never holds.
pub is_claimed_lem :
    (c : Text) (claimed : List Text) → oid_parts c ≢ [] → is_claimed c claimed ≡ false
unfolding is_claimed is_deeper
is_claimed_lem c [] h = refl
is_claimed_lem c (oid ∷ claimed) h =
    only_second (oid_has_prefix oid c) _ _ (never_deeper c oid h) (is_claimed_lem c claimed h)
