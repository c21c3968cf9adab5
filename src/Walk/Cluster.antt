-- ===== src/Walk/Cluster.antt =====
-- The clustering of a walk into tables and scalars: snmpdiscovery/walkcluster.go (ClusterWalk). A Go map
-- that is walked in an open order is walked in the order of insertion.
pub mod Exact
mod Claimed
pub mod Accounted
use snmp_sd.Base.{
  ℕ, zero, suc, ◌+◌, Bool, true, false, ◌||◌, ◌&&◌, not, Option, none, some, List, [], ◌∷◌, ◌++◌,
  map, eqb, leb, ltb, if◌then◌else◌, Text, length, keep, contains, Assoc, keys, ℤ, sort_by,
}
use snmp_sd.Walk.Oid.{WalkVar, oid_has_prefix, oid_less}
use snmp_sd.Walk.Trie.{
  OidTrie, Kids, node, end, kid, build_trie, is_lone_leaf, child_keys, instance_suffixes,
}
use snmp_sd.Walk.Table.{
  WalkColumn, WalkTable, WalkScalar, WalkCatalog, ColInfo, index_by_oid, suffix_set,
  same_suffix_len, overlap_count, table_from_columns, is_scalar_dot_zero_table,
}
use snmp_sd.Walk.Single.{Clustered, mark_subtree, cluster_single_columns}

col_info : ℤ → List Text → Option ℕ → ColInfo
unfolding suffix_set
col_info k suf none = record { part = k; suf = suf; set = suffix_set suf; ln = 0; ok = false }
col_info k suf (some ln) = record {
  part = k;
  suf = suf;
  set = suffix_set suf;
  ln = ln;
  ok = leb 1 ln && leb 1 (length suf);
}

unfoldable pub col_infos : Kids → List ColInfo
unfolding col_info is_lone_leaf same_suffix_len instance_suffixes
col_infos end = []
col_infos (kid k ch kids) =
    let suf = instance_suffixes ch in
    let rest = col_infos kids in
    if is_lone_leaf ch then rest else col_info k suf (same_suffix_len suf) ∷ rest

-- The columns behind `i` that have its index length and an index in common with it.
joins : ColInfo → ColInfo → Bool
unfolding overlap_count
joins i j = j.ok && eqb j.ln i.ln && not (eqb (overlap_count i.set j.set) 0)

unfoldable pub table_at : List ℤ → Assoc WalkVar → List ColInfo → Option WalkTable
unfolding joins table_from_columns is_scalar_dot_zero_table
table_at path by_oid [] = none
table_at path by_oid (i ∷ infos) =
    let group = i ∷ keep (joins i) infos in
    let t = table_from_columns path i.ln group by_oid in
    let later = table_at path by_oid infos in
    if not i.ok
    then later
    else if ltb (length group) 2
    then later
    else if eqb t.rows 0 || is_scalar_dot_zero_table t
    then later
    else some t

-- Every variable below the columns is used.
unfoldable pub mark_columns : Assoc WalkVar → List WalkColumn → List Text → List Text
unfolding mark_subtree
mark_columns by_oid [] used = used
mark_columns by_oid (c ∷ columns) used =
    mark_columns by_oid columns (mark_subtree used c.oid (keys by_oid))

unfoldable pub add_table : Assoc WalkVar → Option WalkTable → Clustered → Clustered
unfolding mark_columns
add_table by_oid none st = st
add_table by_oid (some t) st = record {
  used = mark_columns by_oid t.columns st.used;
  tables = st.tables ++ (t ∷ []);
}

unfoldable pub visit_node : Assoc WalkVar → List ℤ → Kids → Clustered → Clustered
unfolding child_keys add_table table_at col_infos
visit_node by_oid path kids st =
    if leb 2 (length (child_keys kids))
    then add_table by_oid (table_at path by_oid (col_infos kids)) st
    else st

unfoldable mutual
  unfolding visit_node

  pub visit : Assoc WalkVar → List ℤ → OidTrie → Clustered → Clustered
  visit by_oid path (node leaf kids) st =
      visit_kids by_oid path kids (visit_node by_oid path kids st)

  pub visit_kids : Assoc WalkVar → List ℤ → Kids → Clustered → Clustered
  visit_kids by_oid path end st = st
  visit_kids by_oid path (kid k t kids) st =
      visit_kids by_oid path kids (visit by_oid (path ++ (k ∷ [])) t st)

unfoldable pub leftovers : List Text → List WalkVar → List WalkVar
leftovers used vars = keep (λ v. not (contains v.oid used)) vars

-- What no table uses, each OID once.
unfoldable pub scalars_of : List Text → List WalkVar → List WalkScalar
scalars_of used [] = []
scalars_of used (v ∷ vars) =
    let again = scalars_of used vars in
    let fresh = scalars_of (v.oid ∷ used) vars in
    if contains v.oid used
    then again
    else record { oid = v.oid; type = v.type; value = v.value } ∷ fresh

unfoldable pub catalog_of : List WalkVar → Clustered → WalkCatalog
unfolding scalars_of oid_less sort_by
catalog_of vars st = record {
  scalars = sort_by (λ a b. oid_less a.oid b.oid) (scalars_of st.used vars);
  tables = sort_by (λ a b. oid_less a.entry_oid b.entry_oid) st.tables;
}

unfoldable pub cluster_walk : List WalkVar → WalkCatalog
unfolding visit build_trie index_by_oid leftovers cluster_single_columns catalog_of
cluster_walk vars =
    let st = visit (index_by_oid vars) [] (build_trie vars) (record { used = []; tables = [] }) in
    catalog_of vars (cluster_single_columns (leftovers st.used vars) st)
