-- ===== src/Walk/Library.antt =====
-- The OIDs of the shipped modules: snmpdiscovery/walkcover.go. A module file is taken after the YAML
-- parser, its modules in the order in which the map is walked; the walk over the directory is not
-- modelled, its files are a list.
pub mod Best
use snmp_sd.Base.{
  ℕ, suc, ◌+◌, ◌*◌, Bool, true, false, ◌||◌, not, Option, none, some, List, [], ◌∷◌, ◌++◌, ltb, eqb,
  if◌then◌else◌, Text, codes, ◌==◌, has_prefix, length, text_leb, sort_by, contains,
}
use snmp_sd.Walk.Oid.{walk_oid, oid_parts}

-- `metric`, `lookup` and `walk`
pub data HitKind : Type 0 where
  metric_hit lookup_hit walk_hit : HitKind

unfoldable pub kind_text : HitKind → Text
kind_text metric_hit = codes "metric"
kind_text lookup_hit = codes "lookup"
kind_text walk_hit = codes "walk"

pub record LibraryHit : Type 0 where
  pub module_name : Text
  pub name : Text
  pub kind : HitKind
  pub oid : Text

pub record LibLookup : Type 0 where
  pub oid : Text
  pub labelname : Text

pub record LibMetric : Type 0 where
  pub name : Text
  pub oid : Text
  pub lookups : List LibLookup

pub record LibModule : Type 0 where
  pub metrics : List LibMetric
  pub walk : List Text
  pub get : List Text

-- The hit for an OID that is not blank.
hit_for : Text → Text → HitKind → Text → List LibraryHit
unfolding ◌==◌
hit_for owner name kind oid =
    if oid == []
    then []
    else record { module_name = owner; name = name; kind = kind; oid = oid } ∷ []

label_or : Text → Text → Text
unfolding ◌==◌
label_or metric label = if label == [] then metric ++ codes " lookup" else label

lookup_hits : Text → Text → List LibLookup → List LibraryHit
unfolding hit_for label_or walk_oid
lookup_hits owner metric [] = []
lookup_hits owner metric (lu ∷ more) =
    hit_for owner (label_or metric lu.labelname) lookup_hit (walk_oid lu.oid)
    ++ lookup_hits owner metric more

metric_hits : Text → List LibMetric → List LibraryHit
unfolding hit_for lookup_hits walk_oid
metric_hits owner [] = []
metric_hits owner (met ∷ more) =
    hit_for owner met.name metric_hit (walk_oid met.oid)
    ++ (lookup_hits owner met.name met.lookups ++ metric_hits owner more)

walk_hits : Text → List Text → List LibraryHit
unfolding hit_for walk_oid
walk_hits owner [] = []
walk_hits owner (oid ∷ more) = hit_for owner [] walk_hit (walk_oid oid) ++ walk_hits owner more

unfoldable pub load_library_file : List (Text × LibModule) → List LibraryHit
unfolding metric_hits walk_hits
load_library_file [] = []
load_library_file ((owner, m) ∷ more) =
    metric_hits owner m.metrics ++ (walk_hits owner (m.walk ++ m.get) ++ load_library_file more)

-- Longer OIDs first, then in byte order.
hit_less : LibraryHit → LibraryHit → Bool
unfolding oid_parts text_leb
hit_less a b =
    let li = length (oid_parts a.oid) in
    let lj = length (oid_parts b.oid) in if eqb li lj then not (text_leb b.oid a.oid) else ltb lj li

all_hits : List (List (Text × LibModule)) → List LibraryHit
unfolding load_library_file
all_hits [] = []
all_hits (file ∷ files) = load_library_file file ++ all_hits files

unfoldable pub load_library_oids : List (List (Text × LibModule)) → List LibraryHit
unfolding sort_by hit_less all_hits
load_library_oids files = sort_by hit_less (all_hits files)

kind_score : HitKind → ℕ
kind_score metric_hit = 3
kind_score lookup_hit = 2
kind_score walk_hit = 1

module_score : Text → ℕ
unfolding ◌==◌
module_score owner =
    if contains owner
      (codes "if_mib" ∷ codes "if32_mib" ∷ codes "device_base" ∷ codes "ip_addr" ∷ [])
    then 2
    else if contains owner (codes "if_mib_meta" ∷ codes "if32_mib_meta" ∷ [])
    then 1
    else 0

unfoldable pub hit_score : LibraryHit → ℕ
unfolding kind_score module_score oid_parts
hit_score h = kind_score h.kind * 1000 + length (oid_parts h.oid) * 10 + module_score h.module_name

-- Whether the OID is the hit's column or stands under it.
unfoldable pub owns : Text → LibraryHit → Bool
unfolding ◌==◌ has_prefix
owns oid h = oid == h.oid || has_prefix (h.oid ++ codes ".") oid

-- The best hit so far stands in `best`; without one the score to beat is -1.
beats : LibraryHit → Option LibraryHit → Bool
unfolding hit_score
beats h none = true
beats h (some best) = ltb (hit_score best) (hit_score h)

unfoldable pub best_hit : Text → Option LibraryHit → List LibraryHit → Option LibraryHit
unfolding owns beats
best_hit oid best [] = best
best_hit oid best (h ∷ hits) =
    best_hit oid (if owns oid h then if beats h best then some h else best else best) hits

unfoldable pub library_lookup : List LibraryHit → Text → Option LibraryHit
unfolding best_hit walk_oid
library_lookup oids oid = best_hit (walk_oid oid) none oids

unfoldable pub format_hit : LibraryHit → Text
unfolding ◌==◌ kind_text
format_hit h =
    let name = if h.name == [] then kind_text h.kind else h.name in
    if h.module_name == [] then name else name ++ codes " (" ++ h.module_name ++ codes ")"
