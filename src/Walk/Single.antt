-- ===== src/Walk/Single.antt =====
-- Tables of one column: snmpdiscovery/walkcluster.go (clusterSingleColumns, markSubtree). A Go map that
-- is walked in an open order is walked in the order of insertion; a set of OIDs is a list of them.
pub mod Skip
use snmp_sd.Base.{
  ℕ, zero, suc, ◌+◌, ◌-◌, Bool, true, false, ◌||◌, ◌&&◌, not, Option, none, some, List, [], ◌∷◌,
  ◌++◌, map, any, eqb, leb, ltb, if◌then◌else◌, Text, codes, ◌==◌, has_suffix, trim_prefix, length,
  take, keep, contains, unique_by, Assoc, keys, lookup, insert, ℤ, sort_by, sort_texts,
}
use snmp_sd.Walk.Oid.{WalkVar, oid_parts, join_parts, oid_has_prefix, int_text}
use snmp_sd.Walk.Table.{WalkColumn, WalkTable, index_by_oid, column_samples}

-- The state of `ClusterWalk`: the OIDs in use and the tables so far.
pub record Clustered : Type 0 where
  pub used : List Text
  pub tables : List WalkTable

unfoldable pub mark_subtree : List Text → Text → List Text → List Text
unfolding oid_has_prefix
mark_subtree used col oids = used ++ keep (λ oid. oid_has_prefix oid col) oids

-- The variables grouped by all but the last `n` numbers of their OIDs.
group_with : Text → WalkVar → Assoc (List WalkVar) → Assoc (List WalkVar)
unfolding lookup insert
group_with col v groups =
    insert col (elim (lookup col groups) [ none ↦ v ∷ [] | some vs ↦ vs ++ (v ∷ []) ]) groups

unfoldable pub groups_from :
    ℕ → List Text → Assoc (List WalkVar) → List WalkVar → Assoc (List WalkVar)
unfolding group_with oid_parts join_parts
groups_from n used groups [] = groups
groups_from n used groups (v ∷ vars) =
    let p = oid_parts v.oid in
    let with_v = group_with (join_parts (take (length p - n) p)) v groups in
    groups_from n used
      (if contains v.oid used then groups else if leb (length p) n then groups else with_v) vars

ends_in_zero : WalkVar → Bool
unfolding has_suffix
ends_in_zero v = has_suffix (codes ".0") v.oid

has_length : ℕ → WalkVar → Bool
unfolding oid_parts
has_length n v = eqb (length (oid_parts v.oid)) n

-- The last number of a column, as a text.
last_text : List ℤ → Text
unfolding int_text
last_text [] = []
last_text (n ∷ []) = int_text n
last_text (m ∷ n ∷ p) = last_text (n ∷ p)

unfoldable pub single_column : ℕ → Text → List WalkVar → WalkTable
unfolding last_text oid_parts join_parts column_samples index_by_oid unique_by trim_prefix
    sort_texts
single_column n col vs =
    let (samples, typ) = column_samples col (index_by_oid vs) in
    let idx = unique_by (λ s. s) [] (map (λ v. trim_prefix (col ++ codes ".") v.oid) vs) in
    let p = oid_parts col in
    record {
      entry_oid = join_parts (take (length p - 1) p);
      index_pieces = n;
      index_samples = sort_texts idx;
      rows = length idx;
      columns =
          record {
            oid = col;
            col = last_text p;
            type = typ;
            samples = samples;
            instances = length vs;
          }
          ∷ [];
    }

-- Whether the column has as many rows already.
has_rows : Option WalkTable → ℕ → Bool
has_rows none n = false
has_rows (some t) n = leb n t.rows

unfoldable pub consider : ℕ → Text → List WalkVar → Assoc WalkTable → Assoc WalkTable
unfolding ends_in_zero has_length has_rows single_column lookup insert oid_parts
consider n col vs best =
    if ltb (length vs) 2
    then best
    else if not (any (λ v. not (ends_in_zero v)) vs)
    then best
    else if any (λ v. not (has_length (length (oid_parts col) + n) v)) vs
    then best
    else if has_rows (lookup col best) (length vs)
    then best
    else insert col (single_column n col vs) best

unfoldable pub consider_all : ℕ → Assoc (List WalkVar) → Assoc WalkTable → Assoc WalkTable
unfolding consider
consider_all n [] best = best
consider_all n ((col, vs) ∷ groups) best = consider_all n groups (consider n col vs best)

-- `rounds` rounds from `n` on.
unfoldable pub candidates : ℕ → ℕ → List Text → List WalkVar → Assoc WalkTable → Assoc WalkTable
unfolding consider_all groups_from
candidates zero n used leftover best = best
candidates (suc rounds) n used leftover best =
    candidates rounds (suc n) used leftover (consider_all n (groups_from n used [] leftover) best)

unfoldable pub is_deeper : Text → Text → Bool
unfolding oid_parts
is_deeper a b = ltb (length (oid_parts b)) (length (oid_parts a))

-- The two tests of the loop over `claimed`.
unfoldable pub is_claimed : Text → List Text → Bool
unfolding oid_has_prefix is_deeper
is_claimed c claimed =
    any
      (λ oid.
        (oid_has_prefix oid c || oid_has_prefix c oid && is_deeper oid c)
        && (oid_has_prefix c oid && is_deeper oid c))
      claimed

unfoldable pub claim_columns : List WalkVar → List Text → Assoc WalkTable → Clustered → Clustered
unfolding is_claimed mark_subtree
claim_columns leftover claimed [] st = st
claim_columns leftover claimed ((c, t) ∷ cols) st =
    let skipped = claim_columns leftover claimed cols st in
    let oids = map (λ v. v.oid) leftover in
    let taken =
      claim_columns leftover (mark_subtree claimed c oids) cols
        (record { used = mark_subtree st.used c oids; tables = st.tables ++ (t ∷ []) }) in
    if is_claimed c claimed
    then skipped
    else if leb 6 t.index_pieces && ltb t.rows 3
    then skipped
    else taken

unfoldable pub cluster_single_columns : List WalkVar → Clustered → Clustered
unfolding candidates claim_columns is_deeper sort_by
cluster_single_columns leftover st =
    let best = candidates 8 1 st.used leftover [] in
    claim_columns leftover [] (sort_by (λ a b. is_deeper a.0 b.0) best) st
