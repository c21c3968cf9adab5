-- ===== src/Walk/Emit/Listed.antt =====
-- The names in a drafted shopping list: snmpdiscovery/walkpick.go (DraftPick).
use snmp_sd.Base.{
  Bool, true, false, List, [], ◌∷◌, ◌++◌, if◌then◌else◌, All, All-append, Bool-cases, inl, inr,
}
use snmp_sd.Walk.Table.{WalkColumn, WalkScalar, WalkTable}
use snmp_sd.Walk.Library.{LibraryHit}
use snmp_sd.Walk.Names.{is_string_type, guess_name_from_oid}
use snmp_sd.Walk.Names.Legal.{
  IsLegalName, default_index_labels-IsLegal, sanitize_metric_name-IsLegalName,
  sanitize_label_name-IsLegalName,
}
use snmp_sd.Walk.Pick.{
  PickScalar, PickCol, PickTable, is_covered, draft_scalars, draft_columns, draft_table, keep_table,
  draft_tables,
}

abbrev pub AllLegal : List PickCol → Type 0
AllLegal = All (λ (c : PickCol). IsLegalName c.name)

-- The names of indexes, metrics and labels of a table are legal.
abbrev pub IsLegalTable : PickTable → Type 0
IsLegalTable t = All IsLegalName t.index_labels × AllLegal t.metrics × AllLegal t.labels

add_column-IsLegal :
    (lib : List LibraryHit) (c : WalkColumn) (covered text : Bool) (label metric : PickCol)
    (pt : PickTable)
    → IsLegalName label.name
    → IsLegalName metric.name
    → IsLegalTable pt
    → IsLegalTable (
        if covered
        then pt
        else if text
        then record pt { labels = pt.labels ++ (label ∷ []) }
        else record pt { metrics = pt.metrics ++ (metric ∷ []) })
add_column-IsLegal lib c true text label metric pt hl hm h = h
add_column-IsLegal lib c false true label metric pt hl hm (index, metrics, labels) = (
  index,
  metrics,
  All-append (λ (q : PickCol). IsLegalName q.name) pt.labels (label ∷ []) labels (hl, tt),
)
add_column-IsLegal lib c false false label metric pt hl hm (index, metrics, labels) = (
  index,
  All-append (λ (q : PickCol). IsLegalName q.name) pt.metrics (metric ∷ []) metrics (hm, tt),
  labels,
)

draft_columns-IsLegal :
    (lib : List LibraryHit) (columns : List WalkColumn) (pt : PickTable)
    → IsLegalTable pt
    → IsLegalTable (draft_columns lib columns pt)
unfolding draft_columns
draft_columns-IsLegal lib [] pt h = h
draft_columns-IsLegal lib (c ∷ columns) pt h = draft_columns-IsLegal lib columns _ (
    add_column-IsLegal lib c (is_covered lib c.oid) _ _ _ pt
      (sanitize_label_name-IsLegalName (guess_name_from_oid c.oid))
      (sanitize_metric_name-IsLegalName (guess_name_from_oid c.oid)) h)

keep_table-IsLegal :
    (pt : PickTable) (rest : List PickTable)
    → IsLegalTable pt
    → All IsLegalTable rest
    → All IsLegalTable (keep_table pt rest)
unfolding keep_table
keep_table-IsLegal pt rest h hs = by_metrics pt.metrics
  where
    by_metrics :
        (ms : List PickCol) → All IsLegalTable (elim ms [ [] ↦ rest | m ∷ metrics ↦ pt ∷ rest ])
    by_metrics [] = hs
    by_metrics (m ∷ ms) = (h, hs)

pub draft_tables-IsLegal :
    (lib : List LibraryHit) (tables : List WalkTable) → All IsLegalTable (draft_tables lib tables)
unfolding draft_tables draft_table
draft_tables-IsLegal lib [] = tt
draft_tables-IsLegal lib (t ∷ tables) =
    keep_table-IsLegal (draft_table lib t) (draft_tables lib tables)
      (draft_columns-IsLegal lib t.columns _ (default_index_labels-IsLegal t.index_pieces, tt, tt))
      (draft_tables-IsLegal lib tables)

pub draft_scalars-IsLegal :
    (lib : List LibraryHit) (scalars : List WalkScalar)
    → All (λ (s : PickScalar). IsLegalName s.name) (draft_scalars lib scalars)
unfolding draft_scalars
draft_scalars-IsLegal lib [] = tt
draft_scalars-IsLegal lib (s ∷ scalars) = elim (Bool-cases (is_covered lib s.oid)) [
  | inl e ↦ rw e (draft_scalars-IsLegal lib scalars)
  | inr e ↦ elim (Bool-cases (is_string_type s.type)) [
    | inl f ↦ rw (e, f) (draft_scalars-IsLegal lib scalars)
    | inr f ↦
        let legal = sanitize_metric_name-IsLegalName (guess_name_from_oid s.oid) in
        rw (e, f) (legal, draft_scalars-IsLegal lib scalars)
  ]
]
