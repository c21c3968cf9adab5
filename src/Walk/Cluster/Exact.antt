-- ===== src/Walk/Cluster/Exact.antt =====
-- The tables found in the tree use what stands below their columns, and nothing else:
-- snmpdiscovery/walkcluster.go (the function `visit` of ClusterWalk).
use snmp_sd.Base.{
  Bool, true, ◌||◌, ◌&&◌, Option, none, some, List, [], ◌∷◌, ◌++◌, any, any-append, ◌≡◌, refl, Text,
  ◌==◌, contains, contains-append, contains-keep, keep, Assoc, keys, arith, ℤ, Bool-cases, inl, inr,
  leb, length,
}
use snmp_sd.Walk.Oid.{WalkVar, oid_has_prefix}
use snmp_sd.Walk.Trie.{OidTrie, Kids, node, end, kid, child_keys}
use snmp_sd.Walk.Table.{WalkColumn, WalkTable, WalkScalar}
use snmp_sd.Walk.Single.{Clustered, mark_subtree}
use snmp_sd.Walk.Cluster.{
  mark_columns, table_at, col_infos, add_table, visit_node, visit, visit_kids,
}

-- Whether the OID stands under one of the columns.
abbrev pub under_columns : Text → List WalkColumn → Bool
under_columns x = any (λ c. oid_has_prefix x c.oid)

-- Whether the OID stands under a column of one of the tables.
abbrev pub under_tables : Text → List WalkTable → Bool
under_tables x = any (λ t. under_columns x t.columns)

-- Whether the OID is that of a scalar.
abbrev pub is_scalar : Text → List WalkScalar → Bool
is_scalar x = any (λ s. x == s.oid)

pub contains-mark_subtree :
    (x : Text) (used : List Text) (col : Text) (oids : List Text)
    → contains x (mark_subtree used col oids)
      ≡ (contains x used || contains x oids && oid_has_prefix x col)
unfolding mark_subtree
contains-mark_subtree x used col oids =
    rw
      (
        contains-append x used (keep (λ oid. oid_has_prefix oid col) oids),
        contains-keep x (λ oid. oid_has_prefix oid col) oids,
      )
      refl

contains-mark_columns :
    (x : Text) (by_oid : Assoc WalkVar) (columns : List WalkColumn) (used : List Text)
    → contains x (mark_columns by_oid columns used)
      ≡ (contains x used || contains x (keys by_oid) && under_columns x columns)
unfolding mark_columns
contains-mark_columns x by_oid [] used = ground arith
contains-mark_columns x by_oid (c ∷ columns) used =
    let e = contains-mark_subtree x used c.oid (keys by_oid) in
    ground
      (arith, e, contains-mark_columns x by_oid columns (mark_subtree used c.oid (keys by_oid)))

module _ (x : Text) where
  -- The OID is used exactly when it stands under a column of the tables so far.
  unfoldable pub Exact : Clustered → Type 0
  Exact st = contains x st.used ≡ under_tables x st.tables

  module _ (by_oid : Assoc WalkVar) (walked : contains x (keys by_oid) ≡ true) where
    Exact-add_table :
        (t : Option WalkTable) (st : Clustered) → Exact st → Exact (add_table by_oid t st)
    unfolding Exact add_table
    Exact-add_table none st h = h
    Exact-add_table (some t) st h =
        rw (contains-mark_columns x by_oid t.columns st.used, walked, h)
          (ground (arith, any-append (λ s. under_columns x s.columns) st.tables (t ∷ [])))

    Exact-visit_node :
        (path : List ℤ) (kids : Kids) (st : Clustered)
        → Exact st
        → Exact (visit_node by_oid path kids st)
    unfolding visit_node
    Exact-visit_node path kids st h = elim (Bool-cases (leb 2 (length (child_keys kids)))) [
      | inl e ↦ rw e (Exact-add_table (table_at path by_oid (col_infos kids)) st h)
      | inr e ↦ rw e h
    ]

    mutual
      unfolding visit

      pub Exact-visit :
          (path : List ℤ) (n : OidTrie) (st : Clustered) → Exact st → Exact (visit by_oid path n st)
      Exact-visit path (node leaf kids) st h =
          Exact-visit_kids path kids (visit_node by_oid path kids st)
            (Exact-visit_node path kids st h)

      Exact-visit_kids :
          (path : List ℤ) (kids : Kids) (st : Clustered)
          → Exact st
          → Exact (visit_kids by_oid path kids st)
      Exact-visit_kids path end st h = h
      Exact-visit_kids path (kid k t kids) st h =
          Exact-visit_kids path kids (visit by_oid (path ++ (k ∷ [])) t st)
            (Exact-visit (path ++ (k ∷ [])) t st h)
