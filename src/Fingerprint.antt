-- ===== src/Fingerprint.antt =====
-- Fingerprinting: snmpdiscovery/fingerprint.go. The regular expressions of the matchers are compiled by
-- the package `regexp`, whose `MatchString` is the parameter `matches`.
pub mod Unique
pub mod Match
use snmp_sd.Base.{
  ℕ, zero, suc, ◌+◌, Text, codes, ◌≡◌, refl, Bool, true, false, ◌&&◌, ◌||◌, not, Option, none, some,
  List, [], ◌∷◌, ◌++◌, map, ◌==◌, ltb, if◌then◌else◌, lower, trim, trim_prefix, has_suffix,
  contains_text, length, contains, unique_by, keep, Assoc, lookup, Result, ok, err, ◌>>◌,
}

pub record Matcher : Type 0 where
  pub label : Text
  pub regex : Text
  pub modules : List Text
  pub modules_hot : List Text
  pub modules_cold : List Text
  pub modules_topology : List Text

pub record Fingerprinter : Type 0 where
  pub probe_oids : List Text
  pub default_modules : List Text
  pub default_modules_hot : List Text
  pub default_modules_cold : List Text
  pub default_modules_topology : List Text
  pub matchers : List Matcher

pub record ModuleTiers : Type 0 where
  pub hot : List Text
  pub cold : List Text
  pub topology : List Text

-- `FingerprintKnown` and `FingerprintUnknown`
pub data Fingerprint : Type 0 where
  known unknown : Fingerprint

unfoldable pub normalize_oid : Text → Text
normalize_oid s = trim_prefix (codes "iso.") (trim_prefix (codes ".") (trim s))

pub non_blank : Text → Bool
non_blank m = not (m == [])

-- Each module once, trimmed, the blank ones left out.
unfoldable pub unique_modules : List Text → List Text
unfolding non_blank
unique_modules mods = unique_by (λ m. m) [] (keep non_blank (map trim mods))

any_text : (Text → Bool) → List Text → Bool
any_text p [] = false
any_text p (x ∷ xs) = p x || any_text p xs

unfoldable pub is_topology_module : Text → Bool
unfolding any_text
is_topology_module name =
    let n = lower (trim name) in
    contains n (codes "lldp_mib" ∷ codes "cdp_mib" ∷ codes "bgp4_mib" ∷ codes "ospf_mib" ∷ [])
    || any_text (λ suf. has_suffix suf n) (codes "_topo" ∷ codes "_bgp" ∷ [])
    || any_text (λ tok. contains_text tok n)
        (codes "lldp" ∷ codes "cdp" ∷ codes "ospf" ∷ codes "isis" ∷ [])

-- The buckets of `partitionLegacyModules`.
pub data Bucket : Type 0 where
  hot_bucket cold_bucket topology_bucket : Bucket

abbrev pub if_mib : Text
if_mib = codes "if_mib"

abbrev pub if32_mib : Text
if32_mib = codes "if32_mib"

abbrev pub if_mib_meta : Text
if_mib_meta = codes "if_mib_meta"

abbrev pub if32_mib_meta : Text
if32_mib_meta = codes "if32_mib_meta"

-- What the switch adds for a module: pairs of a bucket and a name, in order.
unfoldable pub placements : Text → List (Bucket × Text)
placements m =
    if m == if_mib
    then (hot_bucket, m) ∷ (cold_bucket, if_mib_meta) ∷ []
    else if m == if32_mib
    then (hot_bucket, m) ∷ (cold_bucket, if32_mib_meta) ∷ []
    else if m == if_mib_meta || m == if32_mib_meta
    then (cold_bucket, m) ∷ []
    else if is_topology_module m
    then (topology_bucket, m) ∷ []
    else (cold_bucket, m) ∷ []

unfoldable pub all_placements : List Text → List (Bucket × Text)
unfolding placements
all_placements [] = []
all_placements (m ∷ mods) = placements (trim m) ++ all_placements mods

is_hot : Bucket → Bool
is_hot hot_bucket = true
is_hot _ = false

is_cold : Bucket → Bool
is_cold cold_bucket = true
is_cold _ = false

is_topology : Bucket → Bool
is_topology topology_bucket = true
is_topology _ = false

-- `add` leaves out a blank name and one that any bucket has.
unfoldable pub placed : List Text → List (Bucket × Text)
unfolding all_placements non_blank
placed mods = unique_by (λ p. p.1) [] (keep (λ p. non_blank p.1) (all_placements mods))

unfoldable pub bucket : (Bucket → Bool) → List (Bucket × Text) → List Text
bucket b ps = map (λ p. p.1) (keep (λ p. b p.0) ps)

unfoldable pub partition_legacy_modules : List Text → ModuleTiers
unfolding placed bucket is_hot is_cold is_topology
partition_legacy_modules mods = record {
  hot = bucket is_hot (placed mods);
  cold = bucket is_cold (placed mods);
  topology = bucket is_topology (placed mods);
}

unfoldable pub has_tier : Matcher → Bool
has_tier m = ltb 0 (length m.modules_hot + length m.modules_cold + length m.modules_topology)

label_value : Option Text → Text
label_value none = []
label_value (some v) = v

unfoldable pub tiers_of : List Text → List Text → List Text → ModuleTiers
unfolding unique_modules
tiers_of hot cold topology = record {
  hot = unique_modules hot;
  cold = unique_modules cold;
  topology = unique_modules topology;
}

unfoldable pub matcher_tiers : Matcher → ModuleTiers
unfolding has_tier tiers_of partition_legacy_modules
matcher_tiers m =
    if has_tier m
    then tiers_of m.modules_hot m.modules_cold m.modules_topology
    else partition_legacy_modules m.modules

unfoldable pub default_tiers : Fingerprinter → ModuleTiers
unfolding tiers_of partition_legacy_modules
default_tiers f =
    if ltb 0 (
      length f.default_modules_hot
      + length f.default_modules_cold
      + length f.default_modules_topology)
    then tiers_of f.default_modules_hot f.default_modules_cold f.default_modules_topology
    else partition_legacy_modules f.default_modules

-- The tiers of the matcher that hit, or the defaults.
unfoldable pub from_hit : Fingerprinter → Option Matcher → ModuleTiers × Fingerprint
unfolding matcher_tiers default_tiers
from_hit f (some m) = (matcher_tiers m, known)
from_hit f none = (default_tiers f, unknown)

module _ (matches : Text → Text → Bool) where
  -- A matcher looks at its label's value as it is, without and with a leading dot.
  unfoldable pub matcher_hit : Matcher → Assoc Text → Bool
  unfolding label_value normalize_oid lookup
  matcher_hit m labels =
      let value = label_value (lookup m.label labels) in
      not (value == [])
      && (matches m.regex value
          || matches m.regex (normalize_oid value)
          || matches m.regex (b'.' ∷ normalize_oid value))

  -- The first matcher that hits.
  unfoldable pub first_hit : List Matcher → Assoc Text → Option Matcher
  unfolding matcher_hit
  first_hit [] labels = none
  first_hit (m ∷ ms) labels = if matcher_hit m labels then some m else first_hit ms labels

  unfoldable pub match_tiers_result : Fingerprinter → Assoc Text → ModuleTiers × Fingerprint
  unfolding first_hit from_hit
  match_tiers_result f labels = from_hit f (first_hit f.matchers labels)

  unfoldable pub match_tiers : Fingerprinter → Assoc Text → ModuleTiers
  unfolding match_tiers_result
  match_tiers f labels = (match_tiers_result f labels).0

  unfoldable pub match_modules : Fingerprinter → Assoc Text → List Text
  unfolding match_tiers unique_modules
  match_modules f labels =
      let t = match_tiers f labels in unique_modules (t.hot ++ (t.cold ++ t.topology))

-- The modules of one tier that the catalog of modules has, and those that it lacks.
unfoldable pub keep_known : List Text → List Text → List Text
unfolding non_blank
keep_known modules mods = keep (λ m. contains m modules) (keep non_blank (map trim mods))

unfoldable pub missing : List Text → List Text → List Text
unfolding non_blank
missing modules mods = keep (λ m. not (contains m modules)) (keep non_blank (map trim mods))

-- With no catalog of modules nothing is filtered.
unfoldable pub filter_tiers_to_known : ModuleTiers → List Text → ModuleTiers × List Text
unfolding keep_known missing unique_modules
filter_tiers_to_known t [] = (t, [])
filter_tiers_to_known t (k ∷ modules) =
    let catalog = k ∷ modules in
    (
      record {
        hot = keep_known catalog t.hot;
        cold = keep_known catalog t.cold;
        topology = keep_known catalog t.topology;
      },
      unique_modules
          (missing catalog t.hot ++ (missing catalog t.cold ++ missing catalog t.topology)),
    )

-- `compile`: `regexp_compile` is `regexp.Compile`. The first expression that does not compile is the
-- error.
unfoldable pub compile : (Text → Result (Unit {0})) → List Matcher → Result (Unit {0})
compile regexp_compile [] = ok tt
compile regexp_compile (m ∷ ms) = regexp_compile m.regex >> compile regexp_compile ms
