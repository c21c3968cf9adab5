-- ===== src/Walk/Emit/Draft.antt =====
-- A drafted shopping list can be emitted: snmpdiscovery/walkpick.go (DraftPick, EmitPickModule).
use snmp_sd.Base.{
  false, Option, none, some, List, [], ◌∷◌, ◌++◌, map, ◌≡◌, refl, ◌≢◌, ◌∙◌, Text, codes, ◌==◌, trim,
  trim-ne-nil, All, All-append, arith, Bool-cases, inl, inr, ok,
}
use snmp_sd.Walk.Table.{WalkScalar, WalkTable, WalkCatalog}
use snmp_sd.Walk.Oid.{WalkVar}
use snmp_sd.Walk.Library.{LibraryHit}
use snmp_sd.Walk.Names.Legal.{
  IsLegalName, IsLegalName-bare_index, sanitize_metric_name-IsLegalName,
  sanitize_label_name-IsLegalName,
}
use snmp_sd.Walk.Names.{is_string_type}
use snmp_sd.Walk.Pick.{
  PickScalar, PickCol, PickTable, local_name, guess_module_name, is_covered, draft_scalars,
  draft_table, keep_table, draft_tables, draft_pick,
}
use snmp_sd.Walk.Emit.{
  EmitIndex, index_labels_of, gauge_index, EmitMetric, EmitLookup, scalar_metric, table_metric,
  label_lookup, emit_body,
}
use snmp_sd.Walk.Emit.Listed.{IsLegalTable, draft_scalars-IsLegal, draft_tables-IsLegal}
use snmp_sd.Walk.Emit.Total.{first_bare, tables_metrics, whole_body, emit_body_lem}

-- The metric's name, the names of its indexes and those of its labels are legal.
abbrev pub IsLegalMetric : EmitMetric → Type 0
IsLegalMetric m =
    IsLegalName m.name
    × All (λ (i : EmitIndex). IsLegalName i.labelname) m.indexes
    × All (λ (l : EmitLookup). IsLegalName l.labelname) m.lookups

first_bare-keep_table :
    (pt : PickTable) (rest : List PickTable)
    → first_bare rest ≡ none
    → first_bare (keep_table pt rest) ≡ none
unfolding keep_table
first_bare-keep_table pt rest h = bare pt.metrics refl
  where
    bare :
        (ms : List PickCol)
        → pt.metrics ≡ ms
        → first_bare (elim ms [ [] ↦ rest | m ∷ metrics ↦ pt ∷ rest ]) ≡ none
    bare [] e = h
    bare (m ∷ ms) e = rw e h

first_bare-draft_tables :
    (lib : List LibraryHit) (tables : List WalkTable) → first_bare (draft_tables lib tables) ≡ none
unfolding draft_tables
first_bare-draft_tables lib [] = refl
first_bare-draft_tables lib (t ∷ tables) =
    first_bare-keep_table (draft_table lib t) (draft_tables lib tables)
      (first_bare-draft_tables lib tables)

not_equal : (s : Text) → s ≢ [] → (s == []) ≡ false
unfolding ◌==◌
not_equal s h = ground (arith, h)

trim-local_name : (n : Option Text) → (trim (local_name n) == []) ≡ false
unfolding local_name
trim-local_name none = not_equal _ (trim-ne-nil b'l' (codes "ocal_walk") (omega arith))
trim-local_name (some n) = not_equal _ (trim-ne-nil b'l' (codes "ocal_" ++ n) (omega arith))

trim-guess_module_name : (cat : WalkCatalog) → (trim (guess_module_name cat) == []) ≡ false
unfolding guess_module_name
trim-guess_module_name cat = trim-local_name _

label_lookup-IsLegal :
    (t : PickTable) (labels : List PickCol)
    → All (λ (l : EmitLookup). IsLegalName l.labelname) (map (label_lookup t) labels)
unfolding label_lookup
label_lookup-IsLegal t [] = tt
label_lookup-IsLegal t (lab ∷ labels) =
    (sanitize_label_name-IsLegalName lab.name, label_lookup-IsLegal t labels)

gauge_index-IsLegal :
    (labels : List Text)
    → All IsLegalName labels
    → All (λ (i : EmitIndex). IsLegalName i.labelname) (map gauge_index labels)
unfolding gauge_index
gauge_index-IsLegal [] h = tt
gauge_index-IsLegal (lab ∷ labels) (h, hs) = (h, gauge_index-IsLegal labels hs)

index_labels_of-IsLegal :
    (t : PickTable) → All IsLegalName t.index_labels → All IsLegalName (index_labels_of t)
unfolding index_labels_of
index_labels_of-IsLegal t h = by_labels t.index_labels h
  where
    by_labels :
        (labels : List Text)
        → All IsLegalName labels
        → All IsLegalName (elim labels [ [] ↦ codes "index" ∷ [] | lab ∷ labs ↦ lab ∷ labs ])
    by_labels [] h = (IsLegalName-bare_index, tt)
    by_labels (lab ∷ labs) h = h

table_metric-IsLegal :
    (t : PickTable) (metrics : List PickCol)
    → All IsLegalName t.index_labels
    → All IsLegalMetric (map (table_metric t) metrics)
unfolding table_metric
table_metric-IsLegal t [] h = tt
table_metric-IsLegal t (m ∷ metrics) h = (
  (
    sanitize_metric_name-IsLegalName m.name,
    gauge_index-IsLegal (index_labels_of t) (index_labels_of-IsLegal t h),
    label_lookup-IsLegal t t.labels,
  ),
  table_metric-IsLegal t metrics h,
)

tables_metrics-IsLegal :
    (tables : List PickTable) → All IsLegalTable tables → All IsLegalMetric (tables_metrics tables)
tables_metrics-IsLegal [] h = tt
tables_metrics-IsLegal (t ∷ tables) ((index, metrics, labels), h) =
    All-append IsLegalMetric (map (table_metric t) t.metrics) (tables_metrics tables)
      (table_metric-IsLegal t t.metrics index) (tables_metrics-IsLegal tables h)

scalar_metric-IsLegal : (scalars : List PickScalar) → All IsLegalMetric (map scalar_metric scalars)
unfolding scalar_metric
scalar_metric-IsLegal [] = tt
scalar_metric-IsLegal (s ∷ scalars) =
    ((sanitize_metric_name-IsLegalName s.name, tt, tt), scalar_metric-IsLegal scalars)

draft_scalars_uncovered :
    (lib : List LibraryHit) (scalars : List WalkScalar)
    → All (λ (s : PickScalar). is_covered lib s.oid ≡ false) (draft_scalars lib scalars)
unfolding draft_scalars
draft_scalars_uncovered lib [] = tt
draft_scalars_uncovered lib (s ∷ scalars) = elim (Bool-cases (is_covered lib s.oid)) [
  | inl e ↦ rw e (draft_scalars_uncovered lib scalars)
  | inr e ↦ elim (Bool-cases (is_string_type s.type)) [
    | inl f ↦ rw (e, f) (draft_scalars_uncovered lib scalars)
    | inr f ↦ rw (e, f) (e, draft_scalars_uncovered lib scalars)
  ]
]

-- The shopping list that `DraftPick` makes names its scalars and the metrics, labels and indexes of its
-- tables as Prometheus accepts, and lists no scalar that the library covers. It is always emitted,
-- whatever the walk and the library, and the names of the emitted metrics, indexes and labels are
-- accepted too.
pub draft_pick_lem :
    (cat : WalkCatalog) (lib : List LibraryHit) (vars : List WalkVar)
    → let p = draft_pick cat lib vars in
      All (λ (s : PickScalar). IsLegalName s.name) p.scalars
      × All IsLegalTable p.tables
      × (emit_body p ≡ ok (whole_body p))
      × All IsLegalMetric (whole_body p).metrics
      × All (λ (s : PickScalar). is_covered lib s.oid ≡ false) p.scalars
unfolding draft_pick
draft_pick_lem cat lib vars =
    let p = draft_pick cat lib vars in
    (
      draft_scalars-IsLegal lib cat.scalars,
      draft_tables-IsLegal lib cat.tables,
      emit_body_lem p
          ∙ rw (trim-guess_module_name cat, first_bare-draft_tables lib cat.tables) refl,
      All-append IsLegalMetric (map scalar_metric p.scalars) (tables_metrics p.tables)
          (scalar_metric-IsLegal p.scalars)
          (tables_metrics-IsLegal p.tables (draft_tables-IsLegal lib cat.tables)),
      draft_scalars_uncovered lib cat.scalars,
    )
