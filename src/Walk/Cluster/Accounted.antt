-- ===== src/Walk/Cluster/Accounted.antt =====
-- Which variables of a walk become scalars: snmpdiscovery/walkcluster.go (ClusterWalk).
use snmp_sd.Base.{
  Bool, true, ◌||◌, ◌&&◌, not, List, [], ◌∷◌, map, any, any-sort_by, ◌≡◌, refl, Text, ◌==◌,
  contains, contains-keys-insert, Distinct, Distinct-sort_by, Assoc, keys, insert, arith,
}
use snmp_sd.Walk.Oid.{WalkVar, oid_less}
use snmp_sd.Walk.Trie.{build_trie}
use snmp_sd.Walk.Table.{WalkScalar, by_oid_from, index_by_oid}
use snmp_sd.Walk.Single.{Clustered, cluster_single_columns}
use snmp_sd.Walk.Cluster.{visit, leftovers, scalars_of, catalog_of, cluster_walk}
use snmp_sd.Walk.Cluster.Exact.{Exact, under_columns, under_tables, Exact-visit}
use snmp_sd.Walk.Cluster.Claimed.{IsLive, Exact-cluster_single_columns}

-- Whether the OID is that of a scalar.
abbrev pub is_scalar : Text → List WalkScalar → Bool
is_scalar x = any (λ s. x == s.oid)

contains-keys-by_oid_from :
    (x : Text) (vars : List WalkVar) (m : Assoc WalkVar)
    → contains x (keys (by_oid_from m vars))
      ≡ (contains x (keys m) || contains x (map (λ v. v.oid) vars))
unfolding by_oid_from
contains-keys-by_oid_from x [] m = ground arith
contains-keys-by_oid_from x (v ∷ vars) m =
    ground
      (arith, contains-keys-by_oid_from x vars (insert v.oid v m), contains-keys-insert v.oid x v m)

contains-leftovers :
    (x : Text) (used : List Text) (vars : List WalkVar)
    → contains x (map (λ v. v.oid) (leftovers used vars))
      ≡ (contains x (map (λ v. v.oid) vars) && not (contains x used))
unfolding leftovers ◌==◌
contains-leftovers x used [] = refl
contains-leftovers x used (v ∷ vars) = ground (arith, contains-leftovers x used vars)

is_scalar-scalars_of :
    (x : Text) (used : List Text) (vars : List WalkVar)
    → is_scalar x (scalars_of used vars)
      ≡ (contains x (map (λ v. v.oid) vars) && not (contains x used))
unfolding scalars_of ◌==◌
is_scalar-scalars_of x used [] = refl
is_scalar-scalars_of x used (v ∷ vars) =
    ground (arith, is_scalar-scalars_of x used vars, is_scalar-scalars_of x (v.oid ∷ used) vars)

contains-is_scalar :
    (x : Text) (ss : List WalkScalar) → contains x (map (λ s. s.oid) ss) ≡ is_scalar x ss
contains-is_scalar x [] = refl
contains-is_scalar x (s ∷ ss) = ground (arith, contains-is_scalar x ss)

scalars_of-Distinct :
    (used : List Text) (vars : List WalkVar) → Distinct (map (λ s. s.oid) (scalars_of used vars))
unfolding scalars_of ◌==◌
scalars_of-Distinct used [] = tt
scalars_of-Distinct used (v ∷ vars) = ground (
  arith,
  scalars_of-Distinct used vars,
  scalars_of-Distinct (v.oid ∷ used) vars,
  contains-is_scalar v.oid (scalars_of (v.oid ∷ used) vars),
  is_scalar-scalars_of v.oid (v.oid ∷ used) vars,
)

module _ (vars : List WalkVar) where
  -- The state of `ClusterWalk` after the tree has been visited, and after the single columns.
  visited : Clustered
  visited = visit (index_by_oid vars) [] (build_trie vars) (record { used = []; tables = [] })

  settled : Clustered
  unfolding visited
  settled = cluster_single_columns (leftovers visited.used vars) visited

  walked_oids : List Text
  walked_oids = map (λ v. v.oid) vars

  Exact-settled : (x : Text) → contains x walked_oids ≡ true → Exact x settled
  unfolding visited settled walked_oids Exact index_by_oid IsLive
  Exact-settled x walked =
      let known : contains x (keys (index_by_oid vars)) ≡ true =
        rw (contains-keys-by_oid_from x vars [], walked) refl in
      let exact : Exact x visited =
        Exact-visit x (index_by_oid vars) known [] (build_trie vars) _ refl in
      let live : IsLive x (leftovers visited.used vars) visited.used =
        rw (contains-leftovers x visited.used vars, walked) (ground arith) in
      Exact-cluster_single_columns x (leftovers visited.used vars) visited live exact

-- The scalars of `ClusterWalk` are the variables of the walk that stand under no column of a table: an
-- OID is that of a scalar exactly when a variable has it and no column of a table contains it. Each
-- scalar has an OID of its own.
pub cluster_walk_lem :
    (vars : List WalkVar)
    → let cat = cluster_walk vars in
      ((x : Text)
        → is_scalar x cat.scalars
          ≡ (contains x (map (λ v. v.oid) vars) && not (under_tables x cat.tables)))
      × Distinct (map (λ s. s.oid) cat.scalars)
unfolding cluster_walk catalog_of visited settled walked_oids Exact
cluster_walk_lem vars = (
  λ x.
      rw
        (
          any-sort_by (λ a b. oid_less a.oid b.oid) (λ s. x == s.oid)
              (scalars_of (settled vars).used vars),
          any-sort_by (λ a b. oid_less a.entry_oid b.entry_oid) (λ t. under_columns x t.columns)
              (settled vars).tables,
          is_scalar-scalars_of x (settled vars).used vars,
        )
        (ground (arith, Exact-settled vars x)),
  Distinct-sort_by (λ a b. oid_less a.oid b.oid) (λ s. s.oid) _
      (scalars_of-Distinct (settled vars).used vars),
)
