-- ===== src/Walk/Library/Best.antt =====
-- Which entry of the library a walked OID is given to: snmpdiscovery/walkcover.go (Lookup).
use snmp_sd.Base.{
  ℕ, ◌≤◌, ◌<◌, true, false, Option, none, some, List, [], ◌∷◌, ◌++◌, ◌≡◌, refl, Text, All, keep,
  arith, ltb, ap, sym, ◌⊎◌, inl, inr, Bool-cases,
}
use mathlib.Core.Path.{subst}
use snmp_sd.Walk.Oid.{walk_oid}
use snmp_sd.Walk.Library.{LibraryHit, hit_score, owns, best_hit, library_lookup}

-- The entries that own the OID score `bound` at most.
abbrev pub OwnersWithin : Text → ℕ → List LibraryHit → Type 0
OwnersWithin oid bound hits = All (λ h. hit_score h ≤ bound) (keep (owns oid) hits)

-- The entries that own the OID score less than `bound`.
abbrev pub OwnersBelow : Text → ℕ → List LibraryHit → Type 0
OwnersBelow oid bound hits = All (λ h. hit_score h < bound) (keep (owns oid) hits)

-- The entry that the search from `best` over `hits` returns.
abbrev pub IsBest : Text → List LibraryHit → Option LibraryHit → Type 0
IsBest oid hits none = keep (owns oid) hits ≡ []
IsBest oid hits (some b) =
    (owns oid b ≡ true)
    × ((before : List LibraryHit) × (after : List LibraryHit) × (hits ≡ before ++ (b ∷ after))
        × OwnersBelow oid (hit_score b) before
        × OwnersWithin oid (hit_score b) after)

-- The same for a search that starts with an entry: that entry stays, or a better one is found.
Improves : Text → List LibraryHit → LibraryHit → LibraryHit → Type 0
Improves oid hits start b =
    ((b ≡ start) × OwnersWithin oid (hit_score start) hits)
    ⊎ ((hit_score start < hit_score b) × IsBest oid hits (some b))

All-keep_cons :
    (oid : Text) (P : LibraryHit → Type 0) (h : LibraryHit) (hits : List LibraryHit)
    → (owns oid h ≡ true → P h)
    → All P (keep (owns oid) hits)
    → All P (keep (owns oid) (h ∷ hits))
All-keep_cons oid P h hits first rest = elim (Bool-cases (owns oid h)) [
  | inl own ↦ rw own (first own, rest)
  | inr out ↦ rw out rest
]

within_cons :
    (oid : Text) (h : LibraryHit) (hits : List LibraryHit) (start b : LibraryHit)
    → (owns oid h ≡ true → hit_score h ≤ hit_score start)
    → Improves oid hits start b
    → Improves oid (h ∷ hits) start b
unfolding Improves
within_cons oid h hits start b le (inl (e, rest)) = inl (e, All-keep_cons oid _ h hits le rest)
within_cons oid h hits start b le (inr (lt, (own, (before, after, e, lo, hi)))) = inr (
  lt,
  (
    own,
    (
      h ∷ before,
      after,
      ap (λ l. h ∷ l) e,
      All-keep_cons oid _ h before (λ o. omega (arith, le o)) lo,
      hi,
    ),
  ),
)

found_cons :
    (oid : Text) (h : LibraryHit) (hits : List LibraryHit) (b : LibraryHit)
    → owns oid h ≡ true
    → Improves oid hits h b
    → IsBest oid (h ∷ hits) (some b)
unfolding Improves
found_cons oid h hits b own (inl (e, rest)) =
    subst (λ x. IsBest oid (h ∷ hits) (some x)) (sym e) (own, ([], hits, refl, tt, rest))
found_cons oid h hits b own (inr (lt, (owned, (before, after, e, lo, hi)))) =
    (owned, (h ∷ before, after, ap (λ l. h ∷ l) e, All-keep_cons oid _ h before (λ o. lt) lo, hi))

found_over :
    (oid : Text) (h : LibraryHit) (hits : List LibraryHit) (start b : LibraryHit)
    → owns oid h ≡ true
    → hit_score start < hit_score h
    → Improves oid hits h b
    → Improves oid (h ∷ hits) start b
unfolding Improves
found_over oid h hits start b own lt (inl (e, rest)) = inr (
  subst (λ x. hit_score start < hit_score x) (sym e) lt,
  found_cons oid h hits b own (inl (e, rest)),
)
found_over oid h hits start b own lt (inr (more, best)) =
    inr (omega arith, found_cons oid h hits b own (inr (more, best)))

ltb_no : (m n : ℕ) → ltb m n ≡ false → n ≤ m
ltb_no m n h = ground arith

ltb_yes : (m n : ℕ) → ltb m n ≡ true → m < n
ltb_yes m n h = ground arith

best_from :
    (oid : Text) (start : LibraryHit) (hits : List LibraryHit)
    → (b : LibraryHit) × (best_hit oid (some start) hits ≡ some b) × Improves oid hits start b
unfolding best_hit Improves
best_from oid start [] = (start, refl, inl (refl, tt))
best_from oid start (h ∷ hits) = elim (Bool-cases (owns oid h)) [
  | inr out ↦
      let (b, e, im) = best_from oid start hits in
      (b, rw out e, within_cons oid h hits start b (λ o. absurd (cc)) im)
  | inl own ↦ elim (Bool-cases (ltb (hit_score start) (hit_score h))) [
    | inl lt ↦
        let (b, e, im) = best_from oid h hits in
        (b, rw (own, lt) e, found_over oid h hits start b own (ltb_yes _ _ lt) im)
    | inr ge ↦
        let (b, e, im) = best_from oid start hits in
        (b, rw (own, ge) e, within_cons oid h hits start b (λ _. ltb_no _ _ ge) im)
  ]
]

skip_cons :
    (oid : Text) (h : LibraryHit) (hits : List LibraryHit) (r : Option LibraryHit)
    → owns oid h ≡ false
    → IsBest oid hits r
    → IsBest oid (h ∷ hits) r
skip_cons oid h hits none out best = rw out best
skip_cons oid h hits (some b) out (own, (before, after, e, lo, hi)) = (
  own,
  (h ∷ before, after, ap (λ l. h ∷ l) e, All-keep_cons oid _ h before (λ o. absurd (cc)) lo, hi),
)

best_hit_lem : (oid : Text) (hits : List LibraryHit) → IsBest oid hits (best_hit oid none hits)
unfolding best_hit
best_hit_lem oid [] = refl
best_hit_lem oid (h ∷ hits) = elim (Bool-cases (owns oid h)) [
  | inr out ↦ rw out (skip_cons oid h hits (best_hit oid none hits) out (best_hit_lem oid hits))
  | inl own ↦
      let (b, e, im) = best_from oid h hits in
      let found : best_hit oid none (h ∷ hits) ≡ some b = rw own e in
      subst (IsBest oid (h ∷ hits)) (sym found) (found_cons oid h hits b own im)
]

-- `Lookup` finds nothing exactly when no entry is the column of the OID or a parent of it; what it
-- finds is such an entry, with the highest score of them all and the first one with that score.
pub library_lookup_lem :
    (oids : List LibraryHit) (oid : Text) → IsBest (walk_oid oid) oids (library_lookup oids oid)
unfolding library_lookup
library_lookup_lem oids oid = best_hit_lem (walk_oid oid) oids
