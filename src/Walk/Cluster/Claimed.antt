-- ===== src/Walk/Cluster/Claimed.antt =====
-- The tables of one column use what stands below it, and nothing else: snmpdiscovery/walkcluster.go
-- (clusterSingleColumns).
use snmp_sd.Base.{
  ℕ, zero, suc, true, ◌||◌, ◌&&◌, List, [], ◌∷◌, ◌++◌, map, any-append, All, All-sort_by,
  All-insert, ◌≡◌, Text, contains, Assoc, arith, Bool-cases, inl, inr, leb, ltb,
}
use snmp_sd.Walk.Oid.{WalkVar, oid_has_prefix}
use snmp_sd.Walk.Table.{WalkTable}
use snmp_sd.Walk.Single.{
  Clustered, mark_subtree, single_column, consider, consider_all, candidates, claim_columns,
  is_deeper, groups_from, is_claimed, cluster_single_columns,
}
use snmp_sd.Walk.Cluster.Exact.{Exact, under_columns, contains-mark_subtree}

module _ (x : Text) where
  -- The candidate's only column has the OID under which it is kept.
  IsOwn : Text × WalkTable → Type 0
  IsOwn e = under_columns x e.1.columns ≡ oid_has_prefix x e.0

  IsOwn-consider :
      (n : ℕ) (col : Text) (vs : List WalkVar) (best : Assoc WalkTable)
      → All IsOwn best
      → All IsOwn (consider n col vs best)
  unfolding IsOwn consider single_column
  IsOwn-consider n col vs best h =
      let put = All-insert IsOwn col (single_column n col vs) best (ground arith) h in
      ground (arith, h, put)

  IsOwn-consider_all :
      (n : ℕ) (groups : Assoc (List WalkVar)) (best : Assoc WalkTable)
      → All IsOwn best
      → All IsOwn (consider_all n groups best)
  unfolding consider_all
  IsOwn-consider_all n [] best h = h
  IsOwn-consider_all n ((col, vs) ∷ groups) best h =
      IsOwn-consider_all n groups (consider n col vs best) (IsOwn-consider n col vs best h)

  IsOwn-candidates :
      (rounds n : ℕ) (used : List Text) (leftover : List WalkVar) (best : Assoc WalkTable)
      → All IsOwn best
      → All IsOwn (candidates rounds n used leftover best)
  unfolding candidates
  IsOwn-candidates zero n used leftover best h = h
  IsOwn-candidates (suc rounds) n used leftover best h =
      IsOwn-candidates rounds (suc n) used leftover _
        (IsOwn-consider_all n (groups_from n used [] leftover) best h)

  -- The OID is used already or still to be placed.
  unfoldable pub IsLive : List WalkVar → List Text → Type 0
  IsLive leftover used = (contains x used || contains x (map (λ v. v.oid) leftover)) ≡ true

  Exact-claim :
      (leftover : List WalkVar) (c : Text) (t : WalkTable) (st : Clustered)
      → IsOwn (c, t)
      → IsLive leftover st.used
      → Exact x st
      → Exact x (record {
        used = mark_subtree st.used c (map (λ v. v.oid) leftover);
        tables = st.tables ++ (t ∷ []);
      })
  unfolding Exact IsLive IsOwn
  Exact-claim leftover c t st own live h = ground (
    arith,
    own,
    live,
    h,
    contains-mark_subtree x st.used c (map (λ v. v.oid) leftover),
    any-append (λ s. under_columns x s.columns) st.tables (t ∷ []),
  )

  IsLive-mark_subtree :
      (leftover : List WalkVar) (used : List Text) (c : Text)
      → IsLive leftover used
      → IsLive leftover (mark_subtree used c (map (λ v. v.oid) leftover))
  unfolding IsLive
  IsLive-mark_subtree leftover used c live =
      ground (arith, live, contains-mark_subtree x used c (map (λ v. v.oid) leftover))

  Exact-claim_columns :
      (leftover : List WalkVar) (claimed : List Text) (cols : Assoc WalkTable) (st : Clustered)
      → All IsOwn cols
      → IsLive leftover st.used
      → Exact x st
      → Exact x (claim_columns leftover claimed cols st)
  unfolding claim_columns
  Exact-claim_columns leftover claimed [] st _ _ h = h
  Exact-claim_columns leftover claimed ((c, t) ∷ cols) st (own, rest) live h =
      let skipped = Exact-claim_columns leftover claimed cols st rest live h in
      let oids = map (λ v. v.oid) leftover in
      let taken =
        Exact-claim_columns leftover (mark_subtree claimed c oids) cols
          (record { used = mark_subtree st.used c oids; tables = st.tables ++ (t ∷ []) }) rest
          (IsLive-mark_subtree leftover st.used c live) (Exact-claim leftover c t st own live h) in
      elim (Bool-cases (is_claimed c claimed)) [
        | inl e ↦ rw e skipped
        | inr e ↦ elim (Bool-cases (leb 6 t.index_pieces && ltb t.rows 3)) [
          | inl f ↦ rw (e, f) skipped
          | inr f ↦ rw (e, f) taken
        ]
      ]

  pub Exact-cluster_single_columns :
      (leftover : List WalkVar) (st : Clustered)
      → IsLive leftover st.used
      → Exact x st
      → Exact x (cluster_single_columns leftover st)
  unfolding cluster_single_columns
  Exact-cluster_single_columns leftover st live h =
      let own =
        All-sort_by (λ a b. is_deeper a.0 b.0) IsOwn _
          (IsOwn-candidates 8 1 st.used leftover [] tt) in
      Exact-claim_columns leftover [] _ st own live h
