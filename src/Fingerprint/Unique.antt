-- ===== src/Fingerprint/Unique.antt =====
-- The lists of modules that fingerprinting makes: each module once, none blank, none lost.
use snmp_sd.Base.{
  Text, ◌≡◌, refl, Bool, false, ◌&&◌, ◌||◌, not, List, [], ◌∷◌, ◌++◌, map, ◌==◌, arith, trim,
  contains, contains-append, keep, Distinct, contains-unique_by, unique_by-Distinct, eq_iff, ◌∙◌,
  ap,
}
use snmp_sd.Fingerprint.{
  ModuleTiers, unique_modules, non_blank, Bucket, hot_bucket, cold_bucket, topology_bucket, is_hot,
  is_cold, is_topology, placed, bucket, partition_legacy_modules, all_placements, placements,
  if_mib, if32_mib, if_mib_meta, if32_mib_meta,
}

map_same : (xs : List Text) → map (λ (m : Text). m) xs ≡ xs
map_same [] = refl
map_same (x ∷ xs) = ground (arith, map_same xs)

pub contains-non_blank :
    (a : Text) (xs : List Text) → contains a (keep non_blank xs) ≡ (contains a xs && not (a == []))
unfolding non_blank
contains-non_blank a [] = refl
contains-non_blank a (x ∷ xs) = ground (arith, contains-non_blank a xs, eq_iff a x)

and_true : (b : Bool) → (b && not false) ≡ b
and_true b = ground arith

-- `uniqueModules` keeps exactly the trimmed names that are not blank, each once.
pub unique_modules_lem :
    (mods : List Text) (a : Text)
    → Distinct (unique_modules mods)
      × (contains a (unique_modules mods) ≡ (contains a (map trim mods) && not (a == [])))
unfolding unique_modules
unique_modules_lem mods a =
    let xs = keep non_blank (map trim mods) in
    let once = unique_by-Distinct (λ m. m) [] xs in
    let same = contains-unique_by (λ m. m) a [] xs in
    (
      rw map_same at once,
      (rw (map_same, map_same, and_true) at same) ∙ contains-non_blank a (map trim mods),
    )

abbrev placed_names : List (Bucket × Text) → List Text
placed_names = map (λ p. p.1)

contains-bucket :
    (b : Bucket → Bool) (ps : List (Bucket × Text)) (a : Text)
    → contains a (placed_names ps) ≡ false
    → contains a (bucket b ps) ≡ false
unfolding bucket
contains-bucket b [] a h = refl
contains-bucket b ((c, n) ∷ ps) a h = ground (arith, contains-bucket b ps a)

bucket-Distinct :
    (b : Bucket → Bool) (ps : List (Bucket × Text))
    → Distinct (placed_names ps)
    → Distinct (bucket b ps)
unfolding bucket
bucket-Distinct b [] d = tt
bucket-Distinct b ((c, n) ∷ ps) (d, ds) =
    ground (arith, bucket-Distinct b ps ds, contains-bucket b ps n d)

-- A name in one bucket is in no other.
buckets_apart :
    (b c : Bucket → Bool) (ps : List (Bucket × Text)) (a : Text)
    → ((x : Bucket) → (b x && c x) ≡ false)
    → Distinct (placed_names ps)
    → (contains a (bucket b ps) && contains a (bucket c ps)) ≡ false
unfolding bucket
buckets_apart b c [] a apart d = refl
buckets_apart b c ((x, n) ∷ ps) a apart (d, ds) = ground (
  arith,
  apart x,
  buckets_apart b c ps a apart ds,
  contains-bucket b ps n d,
  contains-bucket c ps n d,
  eq_iff a n,
)

contains-buckets :
    (ps : List (Bucket × Text)) (a : Text)
    → (contains a (bucket is_hot ps)
        || contains a (bucket is_cold ps)
        || contains a (bucket is_topology ps))
      ≡ contains a (placed_names ps)
unfolding bucket is_hot is_cold is_topology
contains-buckets [] a = refl
contains-buckets ((hot_bucket, n) ∷ ps) a = ground (arith, contains-buckets ps a)
contains-buckets ((cold_bucket, n) ∷ ps) a = ground (arith, contains-buckets ps a)
contains-buckets ((topology_bucket, n) ∷ ps) a = ground (arith, contains-buckets ps a)

contains-keep_named :
    (ps : List (Bucket × Text)) (a : Text)
    → contains a (placed_names (keep (λ p. non_blank p.1) ps))
      ≡ (contains a (placed_names ps) && not (a == []))
unfolding non_blank
contains-keep_named [] a = refl
contains-keep_named ((b, n) ∷ ps) a = ground (arith, contains-keep_named ps a, eq_iff a n)

-- The names that a list of modules stands for: itself, and the inventory module of each interface
-- module.
abbrev pub stands_for : List Text → Text → Bool
stands_for mods a =
    contains a mods
    || a == if_mib_meta && contains if_mib mods
    || a == if32_mib_meta && contains if32_mib mods

contains-placements :
    (m a : Text)
    → contains a (placed_names (placements m))
      ≡ (a == m || a == if_mib_meta && if_mib == m || a == if32_mib_meta && if32_mib == m)
unfolding placements
contains-placements m a =
    ground (arith, eq_iff m if_mib, eq_iff if_mib m, eq_iff m if32_mib, eq_iff if32_mib m)

map-append-names :
    (ps qs : List (Bucket × Text)) → placed_names (ps ++ qs) ≡ placed_names ps ++ placed_names qs
map-append-names [] qs = refl
map-append-names (p ∷ ps) qs = ap (λ r. p.1 ∷ r) (map-append-names ps qs)

contains-all_placements :
    (mods : List Text) (a : Text)
    → contains a (placed_names (all_placements mods)) ≡ stands_for (map trim mods) a
unfolding all_placements
contains-all_placements [] a = ground arith
contains-all_placements (m ∷ mods) a =
    rw (map-append-names, contains-append)
      (ground (arith, contains-all_placements mods a, contains-placements (trim m) a))

abbrev pub in_some_tier : ModuleTiers → Text → Bool
in_some_tier t a = contains a t.hot || contains a t.cold || contains a t.topology

-- The name is in one tier at most, and no tier has a name twice.
pub record AtMostOnce (t : ModuleTiers) (a : Text) : Type 0 where
  pub hot_cold : (contains a t.hot && contains a t.cold) ≡ false
  pub hot_topology : (contains a t.hot && contains a t.topology) ≡ false
  pub cold_topology : (contains a t.cold && contains a t.topology) ≡ false
  pub hot_once : Distinct t.hot
  pub cold_once : Distinct t.cold
  pub topology_once : Distinct t.topology

hot_or_cold : (x : Bucket) → (is_hot x && is_cold x) ≡ false
unfolding is_hot is_cold
hot_or_cold hot_bucket = refl
hot_or_cold cold_bucket = refl
hot_or_cold topology_bucket = refl

hot_or_topology : (x : Bucket) → (is_hot x && is_topology x) ≡ false
unfolding is_hot is_topology
hot_or_topology hot_bucket = refl
hot_or_topology cold_bucket = refl
hot_or_topology topology_bucket = refl

cold_or_topology : (x : Bucket) → (is_cold x && is_topology x) ≡ false
unfolding is_cold is_topology
cold_or_topology hot_bucket = refl
cold_or_topology cold_bucket = refl
cold_or_topology topology_bucket = refl

-- `partitionLegacyModules` puts a name in a tier exactly if the list stands for it and it is not
-- blank; no name is in two tiers, and no tier has a name twice.
pub partition_legacy_modules_lem :
    (mods : List Text) (a : Text)
    → (in_some_tier (partition_legacy_modules mods) a
        ≡ (stands_for (map trim mods) a && not (a == [])))
      × AtMostOnce (partition_legacy_modules mods) a
unfolding partition_legacy_modules placed
partition_legacy_modules_lem mods a =
    let ps = keep (λ p. non_blank p.1) (all_placements mods) in
    let qs = placed mods in
    let once : Distinct (placed_names qs) = unique_by-Distinct (λ p. p.1) [] ps in
    (
      contains-buckets qs a
          ∙ (rw and_true at (contains-unique_by (λ p. p.1) a [] ps))
          ∙ contains-keep_named (all_placements mods) a
          ∙ ap (λ b. b && not (a == [])) (contains-all_placements mods a),
      record {
        hot_cold = buckets_apart is_hot is_cold qs a hot_or_cold once;
        hot_topology = buckets_apart is_hot is_topology qs a hot_or_topology once;
        cold_topology = buckets_apart is_cold is_topology qs a cold_or_topology once;
        hot_once = bucket-Distinct is_hot qs once;
        cold_once = bucket-Distinct is_cold qs once;
        topology_once = bucket-Distinct is_topology qs once;
      },
    )
