-- ===== src/Tiers/Names.antt =====
-- The names that `TierTargets` gives to rows: no two rows of an expanded catalog share one.
use snmp_sd.Base.{
  ℕ, Text, ◌==◌, ◌≡◌, refl, ap, sym, ◌∙◌, true, false, List, [], ◌∷◌, ◌++◌, map, Result, ok, err,
  arith, contains, contains-append, Distinct, eq_iff, All,
}
use mathlib.Core.List.{append_cancel_right, map-append}
use snmp_sd.Target.{AlloyTarget}
use snmp_sd.Tiers.{
  all_tiers, base_name, tier_row, tier_targets, expand_tiers, expand_ok, normalize_tiers,
  targets_for_tiers,
}
use snmp_sd.Tiers.Parse.{are_tiers, normalize_tiers-tier_list, are_tiers-tier_list}

last_byte : Text → ℕ
last_byte [] = 0
last_byte (c ∷ []) = c
last_byte (c ∷ d ∷ s) = last_byte (d ∷ s)

last_byte-append : (s : Text) (c : ℕ) (t : Text) → last_byte (s ++ c ∷ t) ≡ last_byte (c ∷ t)
unfolding last_byte
last_byte-append [] c t = refl
last_byte-append (a ∷ []) c t = refl
last_byte-append (a ∷ b ∷ s) c t = last_byte-append (b ∷ s) c t

last_byte_tier :
    (t u : Text)
    → contains t all_tiers ≡ true
    → contains u all_tiers ≡ true
    → last_byte (b'-' ∷ t) ≡ last_byte (b'-' ∷ u)
    → t ≡ u
unfolding last_byte ◌==◌
last_byte_tier t u ht hu e = ground arith

-- A suffixed name tells its tier and its base.
suffix-injective :
    (m n t u : Text)
    → contains t all_tiers ≡ true
    → contains u all_tiers ≡ true
    → m ++ b'-' ∷ t ≡ n ++ b'-' ∷ u
    → (t ≡ u) × (m ≡ n)
suffix-injective m n t u ht hu e =
    let same =
      last_byte_tier t u ht hu
        (sym (last_byte-append m b'-' t) ∙ ap last_byte e ∙ last_byte-append n b'-' u) in
    (same, append_cancel_right m n (b'-' ∷ u) (rw same at e))

abbrev pub names : List AlloyTarget → List Text
names = map (λ t. t.name)

abbrev pub bases : List AlloyTarget → List Text
bases = map base_name

contains-tier_targets :
    (n t u : Text) (xs : List AlloyTarget)
    → contains t all_tiers ≡ true
    → contains u all_tiers ≡ true
    → contains (n ++ b'-' ∷ t) (names (tier_targets xs u)) ≡ true
    → (t ≡ u) × (contains n (bases xs) ≡ true)
unfolding tier_targets tier_row
contains-tier_targets n t u [] ht hu h = cc
contains-tier_targets n t u (x ∷ xs) ht hu h = ground (
  arith,
  contains-tier_targets n t u xs ht hu,
  suffix-injective n (base_name x) t u ht hu,
  eq_iff (n ++ b'-' ∷ t) (base_name x ++ b'-' ∷ u),
  eq_iff n (base_name x),
)

Distinct-tier_targets :
    (t : Text) (xs : List AlloyTarget)
    → contains t all_tiers ≡ true
    → Distinct (bases xs)
    → Distinct (names (tier_targets xs t))
unfolding tier_targets tier_row
Distinct-tier_targets t [] ht d = tt
Distinct-tier_targets t (x ∷ xs) ht (d, ds) =
    ground
      (arith, Distinct-tier_targets t xs ht ds, contains-tier_targets (base_name x) t t xs ht ht)

contains-expand_tiers :
    (n t : Text) (xs : List AlloyTarget) (tiers : List Text)
    → contains t all_tiers ≡ true
    → are_tiers tiers ≡ true
    → contains t tiers ≡ false
    → contains (n ++ b'-' ∷ t) (names (expand_tiers xs tiers)) ≡ false
unfolding expand_tiers are_tiers
contains-expand_tiers n t xs [] ht hs h = refl
contains-expand_tiers n t xs (u ∷ tiers) ht hs h =
    rw (map-append, contains-append)
      (ground (
        arith,
        contains-expand_tiers n t xs tiers ht,
        contains-tier_targets n t u xs ht,
        eq_iff t u,
      ))

Distinct-append :
    (xs ys : List Text)
    → Distinct xs
    → Distinct ys
    → All (λ x. contains x ys ≡ false) xs
    → Distinct (xs ++ ys)
Distinct-append [] ys dx dy apart = dy
Distinct-append (x ∷ xs) ys (d, ds) dy (a, as') =
    (rw (contains-append x xs ys, d, a), Distinct-append xs ys ds dy as')

tier_targets-apart :
    (t : Text) (xs catalog : List AlloyTarget) (tiers : List Text)
    → contains t all_tiers ≡ true
    → are_tiers tiers ≡ true
    → contains t tiers ≡ false
    → All (λ n. contains n (names (expand_tiers catalog tiers)) ≡ false) (names (tier_targets xs t))
unfolding tier_targets tier_row
tier_targets-apart t [] catalog tiers ht hs h = tt
tier_targets-apart t (x ∷ xs) catalog tiers ht hs h = ground (
  arith,
  tier_targets-apart t xs catalog tiers ht hs h,
  contains-expand_tiers (base_name x) t catalog tiers ht hs h,
)

Distinct-expand_tiers :
    (catalog : List AlloyTarget) (tiers : List Text)
    → are_tiers tiers ≡ true
    → Distinct tiers
    → Distinct (bases catalog)
    → Distinct (names (expand_tiers catalog tiers))
unfolding expand_tiers are_tiers
Distinct-expand_tiers catalog [] a d b = tt
Distinct-expand_tiers catalog (t ∷ tiers) a (d, ds) b =
    let valid : contains t all_tiers ≡ true = ground arith in
    let rest : are_tiers tiers ≡ true = ground arith in
    rw map-append (
      Distinct-append (names (tier_targets catalog t)) (names (expand_tiers catalog tiers))
        (Distinct-tier_targets t catalog valid b) (Distinct-expand_tiers catalog tiers rest ds b)
        (tier_targets-apart t catalog catalog tiers valid rest d))

-- If the devices of a catalog have different names, an address standing in for a blank one, then no
-- two rows of the catalog expanded into any tiers have one name.
pub targets_for_tiers-Distinct :
    (catalog : List AlloyTarget) (tiers : List Text)
    → Distinct (bases catalog)
    → Distinct (names (targets_for_tiers catalog tiers))
unfolding targets_for_tiers expand_ok
targets_for_tiers-Distinct catalog tiers b = go (normalize_tiers tiers) refl
  where
    go :
        (r : Result (List Text))
        → normalize_tiers tiers ≡ r
        → Distinct (names (expand_ok catalog r))
    go (ok l) e =
        let (h, c, o, same, ne) = normalize_tiers-tier_list tiers l e in
        let facts = are_tiers-tier_list h c o in
        Distinct-expand_tiers catalog l (rw same facts.0) (rw same facts.1) b
    go (err x) e = tt
