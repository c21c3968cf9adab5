-- ===== src/Tests/Walks.antt =====
-- The properties of the walk analysis on a small walk: snmpdiscovery/walk*.go.
use snmp_sd.Base.{
  false, not, ◌&&◌, List, [], ◌∷◌, ◌≡◌, ◌≢◌, refl, Text, codes, ◌==◌, map, contains, Distinct, All,
  trim, if◌then◌else◌, ok, err, module_required, length, text_dec, itoa, insert_by,
}
use snmp_sd.Walk.Oid.{WalkVar, walk_oid, oid_parts}
use snmp_sd.Walk.Library.{LibraryHit, metric_hit, walk_hit, library_lookup}
use snmp_sd.Walk.Library.Best.{IsBest, library_lookup_lem}
use snmp_sd.Walk.Single.{is_claimed}
use snmp_sd.Walk.Single.Skip.{is_claimed_lem}
use snmp_sd.Walk.Cluster.{cluster_walk}
use snmp_sd.Walk.Cluster.Exact.{under_tables}
use snmp_sd.Walk.Cluster.Accounted.{is_scalar, cluster_walk_lem}
use snmp_sd.Walk.Pick.{PickFile, draft_pick, is_covered}
use snmp_sd.Walk.Emit.{emit_body}
use snmp_sd.Walk.Emit.Total.{first_bare, whole_body, outcome_of, emit_body_lem}
use snmp_sd.Walk.Names.Legal.{IsLegalName}
use snmp_sd.Walk.Emit.Listed.{IsLegalTable}
use snmp_sd.Walk.Emit.Draft.{IsLegalMetric, draft_pick_lem}

abbrev var : Text → Text → Text → WalkVar
var oid type value = record { oid = oid; type = type; value = value }

-- A scalar, and a table of two columns with two rows.
abbrev small_walk : List WalkVar
small_walk =
    var (codes "1.3.6.1.4.1.9.1.0") (codes "INTEGER") (codes "7")
    ∷ var (codes "1.3.6.1.4.1.9.2.1.1.1") (codes "Counter32") (codes "10")
    ∷ var (codes "1.3.6.1.4.1.9.2.1.1.2") (codes "Counter32") (codes "20")
    ∷ var (codes "1.3.6.1.4.1.9.2.1.2.1") (codes "STRING") (codes "a")
    ∷ var (codes "1.3.6.1.4.1.9.2.1.2.2") (codes "STRING") (codes "b")
    ∷ []

abbrev small_library : List LibraryHit
small_library =
    record { module_name = codes "system"; name = []; kind = walk_hit; oid = codes "1.3.6.1.4.1.9" }
    ∷ record {
      module_name = codes "if_mib";
      name = codes "snmp_x";
      kind = metric_hit;
      oid = codes "1.3.6.1.4.1.9.1";
    }
    ∷ []

-- One column with two rows, which `ClusterWalk` lists as four tables, one below the other.
abbrev nested_walk : List WalkVar
nested_walk = var (codes "1.3.6.7.1") [] (codes "a") ∷ var (codes "1.3.6.7.2") [] (codes "b") ∷ []

nested_tables : length (cluster_walk nested_walk).tables ≡ 4
unfolding cluster_walk text_dec trim itoa insert_by
nested_tables = refl

library_lookup_lem_example :
    IsBest
      (walk_oid (codes ".1.3.6.1.4.1.9.1.0"))
      small_library
      (library_lookup small_library (codes ".1.3.6.1.4.1.9.1.0"))
library_lookup_lem_example = library_lookup_lem small_library (codes ".1.3.6.1.4.1.9.1.0")

numeric : oid_parts (codes "1.3.6") ≢ []
unfolding oid_parts text_dec trim
numeric = λ e. cc

is_claimed_lem_example : is_claimed (codes "1.3.6") (codes "1.3.6.7.1" ∷ []) ≡ false
is_claimed_lem_example = is_claimed_lem (codes "1.3.6") (codes "1.3.6.7.1" ∷ []) numeric

cluster_walk_lem_example :
    let cat = cluster_walk small_walk in
    ((x : Text)
      → is_scalar x cat.scalars
        ≡ (contains x (map (λ v. v.oid) small_walk) && not (under_tables x cat.tables)))
    × Distinct (map (λ s. s.oid) cat.scalars)
cluster_walk_lem_example = cluster_walk_lem small_walk

abbrev drafted : PickFile
drafted = draft_pick (cluster_walk small_walk) [] small_walk

emit_body_lem_example : emit_body drafted ≡ (
    if trim drafted.module_name == []
    then err module_required
    else outcome_of (first_bare drafted.tables) (whole_body drafted))
emit_body_lem_example = emit_body_lem drafted

draft_pick_lem_example :
    let p = draft_pick (cluster_walk small_walk) small_library small_walk in
    All (λ s. IsLegalName s.name) p.scalars
    × All IsLegalTable p.tables
    × (emit_body p ≡ ok (whole_body p))
    × All IsLegalMetric (whole_body p).metrics
    × All (λ s. is_covered small_library s.oid ≡ false) p.scalars
draft_pick_lem_example = draft_pick_lem (cluster_walk small_walk) small_library small_walk
