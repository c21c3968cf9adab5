-- ===== src/Fingerprint/Match.antt =====
-- Which matcher decides, and what the catalog of modules lets through.
use mathlib.Core.List.{map-append}
use snmp_sd.Base.{
  Text, ◌≡◌, refl, ◌≢◌, Bool, true, false, ◌&&◌, ◌||◌, not, none, some, List, [], ◌∷◌, ◌++◌, map,
  ◌==◌, arith, trim, contains, contains-append, keep, Assoc, eq_iff, ◌∙◌, All, ap, Distinct,
  trim_idem,
}
use snmp_sd.Fingerprint.{
  Matcher, Fingerprinter, ModuleTiers, known, unknown, matcher_hit, first_hit, matcher_tiers,
  default_tiers, match_tiers_result, from_hit, keep_known, missing, filter_tiers_to_known,
  non_blank,
}
use snmp_sd.Fingerprint.Unique.{unique_modules_lem, contains-non_blank}

module _ (matches : Text → Text → Bool) where
  first_hit_found :
      (labels : Assoc Text) (before after : List Matcher) (m : Matcher)
      → All (λ x. matcher_hit matches x labels ≡ false) before
      → matcher_hit matches m labels ≡ true
      → first_hit matches (before ++ m ∷ after) labels ≡ some m
  unfolding first_hit
  first_hit_found labels [] after m missed hit = rw hit
  first_hit_found labels (b ∷ before) after m (miss, missed) hit =
      rw miss (first_hit_found labels before after m missed hit)

  first_hit-none :
      (labels : Assoc Text) (ms : List Matcher)
      → All (λ x. matcher_hit matches x labels ≡ false) ms
      → first_hit matches ms labels ≡ none
  unfolding first_hit
  first_hit-none labels [] missed = refl
  first_hit-none labels (m ∷ ms) (miss, missed) = rw miss (first_hit-none labels ms missed)

  -- The first matcher that hits decides alone: what stands before it missed, and what stands behind
  -- it is not looked at.
  pub match_tiers_result_first :
      (f : Fingerprinter) (labels : Assoc Text) (before after : List Matcher) (m : Matcher)
      → f.matchers ≡ before ++ m ∷ after
      → All (λ x. matcher_hit matches x labels ≡ false) before
      → matcher_hit matches m labels ≡ true
      → match_tiers_result matches f labels ≡ (matcher_tiers m, known)
  unfolding match_tiers_result
  match_tiers_result_first f labels before after m e missed hit =
      ap (from_hit f) (
        ap (λ ms. first_hit matches ms labels) e ∙ first_hit_found labels before after m missed hit)

  -- If every matcher misses, the defaults are used and the device counts as unknown.
  pub match_tiers_result_default :
      (f : Fingerprinter) (labels : Assoc Text)
      → All (λ x. matcher_hit matches x labels ≡ false) f.matchers
      → match_tiers_result matches f labels ≡ (default_tiers f, unknown)
  unfolding match_tiers_result
  match_tiers_result_default f labels missed =
      ap (from_hit f) (first_hit-none labels f.matchers missed)

contains-keep :
    (a : Text) (p : Text → Bool) (xs : List Text) → contains a (keep p xs) ≡ (contains a xs && p a)
contains-keep a p [] = refl
contains-keep a p (x ∷ xs) = ground (arith, contains-keep a p xs, eq_iff a x)

unfoldable pub in_tier : List Text → Text → Bool
in_tier mods a = contains a (map trim mods) && not (a == [])

contains-keep_known :
    (modules mods : List Text) (a : Text)
    → contains a (keep_known modules mods) ≡ (in_tier mods a && contains a modules)
unfolding keep_known in_tier
contains-keep_known modules mods a = ground (
  arith,
  contains-keep a (λ m. contains m modules) (keep non_blank (map trim mods)),
  contains-non_blank a (map trim mods),
)

contains-missing :
    (modules mods : List Text) (a : Text)
    → contains a (missing modules mods) ≡ (in_tier mods a && not (contains a modules))
unfolding missing in_tier
contains-missing modules mods a = ground (
  arith,
  contains-keep a (λ m. not (contains m modules)) (keep non_blank (map trim mods)),
  contains-non_blank a (map trim mods),
)

trim-kept :
    (p q : Text → Bool) (mods : List Text)
    → map trim (keep p (keep q (map trim mods))) ≡ keep p (keep q (map trim mods))
trim-kept p q [] = refl
trim-kept p q (m ∷ mods) = ground (arith, trim-kept p q mods, trim_idem m)

trim-missing : (modules mods : List Text) → map trim (missing modules mods) ≡ missing modules mods
unfolding missing
trim-missing modules mods = trim-kept (λ m. not (contains m modules)) non_blank mods

contains-trim-missing :
    (modules : List Text) (t : ModuleTiers) (a : Text)
    → contains a
        (map trim (missing modules t.hot ++ (missing modules t.cold ++ missing modules t.topology)))
      ≡ ((in_tier t.hot a || in_tier t.cold a || in_tier t.topology a) && not (contains a modules))
contains-trim-missing modules t a =
    rw
      (
        map-append,
        map-append,
        trim-missing modules t.hot,
        trim-missing modules t.cold,
        trim-missing modules t.topology,
        contains-append,
        contains-append,
      )
      (ground (
        arith,
        contains-missing modules t.hot a,
        contains-missing modules t.cold a,
        contains-missing modules t.topology a,
      ))

blank_in_tier :
    (t : ModuleTiers) (a : Text)
    → (a == []) ≡ true
    → (in_tier t.hot a || in_tier t.cold a || in_tier t.topology a) ≡ false
unfolding in_tier
blank_in_tier t a h = ground arith

-- With a catalog of modules, each tier keeps exactly its names that the catalog has, and the dropped
-- names, each told once, are exactly those of a tier that the catalog lacks.
pub record IsFiltered (modules : List Text) (t kept : ModuleTiers) (dropped : List Text) (a : Text)
    : Type 0 where
  pub hot : contains a kept.hot ≡ (in_tier t.hot a && contains a modules)
  pub cold : contains a kept.cold ≡ (in_tier t.cold a && contains a modules)
  pub topology : contains a kept.topology ≡ (in_tier t.topology a && contains a modules)
  pub lost :
      contains a dropped
      ≡ ((in_tier t.hot a || in_tier t.cold a || in_tier t.topology a) && not (contains a modules))
  pub told_once : Distinct dropped

-- With a catalog of modules that is not empty, each tier keeps exactly its trimmed names, not blank,
-- that the catalog has; dropped are exactly the names of some tier that the catalog lacks, each once.
pub filter_tiers_to_known_lem :
    (t : ModuleTiers) (modules : List Text) (a : Text)
    → modules ≢ []
    → IsFiltered modules t (filter_tiers_to_known t modules).0 (filter_tiers_to_known t modules).1 a
unfolding filter_tiers_to_known
filter_tiers_to_known_lem t [] a h = absurd (h refl)
filter_tiers_to_known_lem t (k ∷ modules) a h =
    let catalog = k ∷ modules in
    let gone = missing catalog t.hot ++ (missing catalog t.cold ++ missing catalog t.topology) in
    record {
      hot = contains-keep_known catalog t.hot a;
      cold = contains-keep_known catalog t.cold a;
      topology = contains-keep_known catalog t.topology a;
      lost = ground (
        arith,
        (unique_modules_lem gone a).1,
        contains-trim-missing catalog t a,
        blank_in_tier t a,
      );
      told_once = (unique_modules_lem gone a).0;
    }
