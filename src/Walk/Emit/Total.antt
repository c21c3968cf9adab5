-- ===== src/Walk/Emit/Total.antt =====
-- What is emitted for a shopping list: snmpdiscovery/walkpick.go (EmitPickModule, DraftPick).
use mathlib.Core.List.{append-nil, append_assoc}
use snmp_sd.Base.{
  Option, none, some, List, [], ◌∷◌, ◌++◌, map, ◌≡◌, refl, ◌∙◌, if◌then◌else◌, Text, ◌==◌, trim,
  Bool-cases, inl, inr, Result, ok, err, module_required, no_metrics,
}
use snmp_sd.Walk.Pick.{PickScalar, PickCol, PickTable, PickFile}
use snmp_sd.Walk.Emit.{
  EmitMetric, EmitBody, scalar_metric, instance_of, table_metric, table_column_oid, emit_scalars,
  emit_table, emit_tables, emit_body,
}

-- The entry of the first table without metrics.
abbrev pub first_bare : List PickTable → Option Text
first_bare [] = none
first_bare (t ∷ tables) = elim t.metrics [ [] ↦ some t.entry | m ∷ metrics ↦ first_bare tables ]

abbrev pub tables_metrics : List PickTable → List EmitMetric
tables_metrics [] = []
tables_metrics (t ∷ tables) = map (table_metric t) t.metrics ++ tables_metrics tables

-- The OIDs to walk: for each table those of its labels, then those of its metrics.
abbrev pub tables_walk : List PickTable → List Text
tables_walk [] = []
tables_walk (t ∷ tables) =
    (map (λ lab. table_column_oid t.entry lab.column) t.labels
      ++ map (λ m. table_column_oid t.entry m.column) t.metrics)
    ++ tables_walk tables

abbrev pub whole_body : PickFile → EmitBody
whole_body p = record {
  walk = tables_walk p.tables;
  get = map instance_of p.scalars;
  metrics = map scalar_metric p.scalars ++ tables_metrics p.tables;
}

emit_scalars_lem :
    (scalars : List PickScalar) (body : EmitBody)
    → emit_scalars scalars body ≡ record body {
      get = body.get ++ map instance_of scalars;
      metrics = body.metrics ++ map scalar_metric scalars;
    }
unfolding emit_scalars
emit_scalars_lem [] body = rw (append-nil body.get, append-nil body.metrics) refl
emit_scalars_lem (s ∷ scalars) body =
    emit_scalars_lem scalars (record body {
      metrics = body.metrics ++ (scalar_metric s ∷ []);
      get = body.get ++ (instance_of s ∷ []);
    })
    ∙ rw
        (
          append_assoc body.get (instance_of s ∷ []) (map instance_of scalars),
          append_assoc body.metrics (scalar_metric s ∷ []) (map scalar_metric scalars),
        )
        refl

-- The outcome of the loop over the tables.
abbrev pub outcome_of : Option Text → EmitBody → Result EmitBody
outcome_of none body = ok body
outcome_of (some entry) body = err (no_metrics entry)

outcome_of_metrics :
    (metrics : List PickCol) (entry : Text) (rest : Result EmitBody) (bare : Option Text)
    (body : EmitBody)
    → rest ≡ outcome_of bare body
    → elim metrics [ [] ↦ err (no_metrics entry) | m ∷ ms ↦ rest ]
      ≡ outcome_of (elim metrics [ [] ↦ some entry | m ∷ ms ↦ bare ]) body
outcome_of_metrics [] entry rest bare body h = refl
outcome_of_metrics (m ∷ ms) entry rest bare body h = h

emit_tables_lem :
    (tables : List PickTable) (body : EmitBody)
    → emit_tables tables body
      ≡ outcome_of (first_bare tables) (record body {
        walk = body.walk ++ tables_walk tables;
        metrics = body.metrics ++ tables_metrics tables;
      })
unfolding emit_tables emit_table
emit_tables_lem [] body = rw (append-nil body.walk, append-nil body.metrics) refl
emit_tables_lem (t ∷ tables) body = outcome_of_metrics t.metrics t.entry _ _ _ (
    emit_tables_lem tables (emit_table t body)
    ∙ rw
        (
          append_assoc body.walk
              (map (λ lab. table_column_oid t.entry lab.column) t.labels
                ++ map (λ m. table_column_oid t.entry m.column) t.metrics)
              (tables_walk tables),
          append_assoc body.metrics (map (table_metric t) t.metrics) (tables_metrics tables),
        )
        refl)

-- `EmitPickModule` fails exactly on a blank module name and on a table without metrics, the first of
-- which it reports. Otherwise the module has the metrics of the scalars, then those of the tables; it
-- gets the instances of the scalars, and walks each table's labels and then its metrics.
pub emit_body_lem :
    (p : PickFile)
    → emit_body p ≡ (
        if trim p.module_name == []
        then err module_required
        else outcome_of (first_bare p.tables) (whole_body p))
unfolding emit_body
emit_body_lem p = elim (Bool-cases (trim p.module_name == [])) [
  | inl e ↦ rw e refl
  | inr e ↦
      rw
        (
          e,
          emit_scalars_lem p.scalars (record { walk = []; get = []; metrics = [] }),
          emit_tables_lem p.tables (record {
            walk = [];
            get = map instance_of p.scalars;
            metrics = map scalar_metric p.scalars;
          }),
        )
        refl
]
