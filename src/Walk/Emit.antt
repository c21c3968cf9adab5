-- ===== src/Walk/Emit.antt =====
-- The exporter module made from a shopping list: snmpdiscovery/walkpick.go (EmitPickModule,
-- PickCoveredNames). The YAML encoder is the parameter `marshal`.
pub mod Total
pub mod Draft
pub mod Listed
use snmp_sd.Base.Error.{Error}
use snmp_sd.Base.{
  ℕ, Bool, true, false, ◌||◌, not, Option, none, some, List, [], ◌∷◌, ◌++◌, map, if◌then◌else◌,
  Text, codes, ◌==◌, trim, has_suffix, contains, ℤ, Result, ok, err, module_required, no_metrics,
  ◌>>=◌,
}
use snmp_sd.Walk.Oid.{walk_oid, int_text}
use snmp_sd.Walk.Library.{LibraryHit, library_lookup, format_hit}
use snmp_sd.Walk.Names.{metric_oid, sanitize_metric_name, sanitize_label_name}
use snmp_sd.Walk.Pick.{PickScalar, PickCol, PickTable, PickFile}

pub record EmitLookup : Type 0 where
  pub labels : List Text
  pub labelname : Text
  pub oid : Text
  pub type : Text

pub record EmitIndex : Type 0 where
  pub labelname : Text
  pub type : Text

pub record EmitMetric : Type 0 where
  pub name : Text
  pub oid : Text
  pub type : Text
  pub help : Text
  pub indexes : List EmitIndex
  pub lookups : List EmitLookup

pub record EmitBody : Type 0 where
  pub walk : List Text
  pub get : List Text
  pub metrics : List EmitMetric

type_or : Text → Text → Text
unfolding ◌==◌
type_or default_type typ = if typ == [] then default_type else typ

unfoldable pub table_column_oid : Text → ℤ → Text
unfolding walk_oid int_text
table_column_oid entry column = walk_oid entry ++ codes "." ++ int_text column

unfoldable pub instance_of : PickScalar → Text
unfolding metric_oid has_suffix
instance_of s = if has_suffix (codes ".0") s.oid then s.oid else metric_oid s.oid ++ codes ".0"

unfoldable pub scalar_metric : PickScalar → EmitMetric
unfolding metric_oid type_or sanitize_metric_name instance_of
scalar_metric s = record {
  name = sanitize_metric_name s.name;
  oid = metric_oid s.oid;
  type = type_or (codes "gauge") s.type;
  help = codes "from walk-emit " ++ instance_of s;
  indexes = [];
  lookups = [];
}

unfoldable pub emit_scalars : List PickScalar → EmitBody → EmitBody
unfolding scalar_metric instance_of
emit_scalars [] body = body
emit_scalars (s ∷ scalars) body = emit_scalars scalars (record body {
  metrics = body.metrics ++ (scalar_metric s ∷ []);
  get = body.get ++ (instance_of s ∷ []);
})

unfoldable pub index_labels_of : PickTable → List Text
index_labels_of t = elim t.index_labels [ [] ↦ codes "index" ∷ [] | lab ∷ labs ↦ lab ∷ labs ]

unfoldable pub gauge_index : Text → EmitIndex
gauge_index lab = record { labelname = lab; type = codes "gauge" }

unfoldable pub label_lookup : PickTable → PickCol → EmitLookup
unfolding index_labels_of table_column_oid type_or sanitize_label_name
label_lookup t lab = record {
  labels = index_labels_of t;
  labelname = sanitize_label_name lab.name;
  oid = table_column_oid t.entry lab.column;
  type = type_or (codes "DisplayString") lab.type;
}

unfoldable pub table_metric : PickTable → PickCol → EmitMetric
unfolding index_labels_of gauge_index table_column_oid type_or sanitize_metric_name int_text
    label_lookup
table_metric t m = record {
  name = sanitize_metric_name m.name;
  oid = table_column_oid t.entry m.column;
  type = type_or (codes "gauge") m.type;
  help = codes "from walk-emit column " ++ int_text m.column ++ codes " of " ++ t.entry;
  indexes = map gauge_index (index_labels_of t);
  lookups = map (label_lookup t) t.labels;
}

unfoldable pub emit_table : PickTable → EmitBody → EmitBody
unfolding table_metric label_lookup table_column_oid
emit_table t body = record body {
  metrics = body.metrics ++ map (table_metric t) t.metrics;
  walk =
      body.walk
      ++ (map (λ lab. table_column_oid t.entry lab.column) t.labels
          ++ map (λ m. table_column_oid t.entry m.column) t.metrics);
}

-- A table without metrics ends the loop with an error.
unfoldable pub emit_tables : List PickTable → EmitBody → Result EmitBody
unfolding emit_table
emit_tables [] body = ok body
emit_tables (t ∷ tables) body =
    let rest = emit_tables tables (emit_table t body) in
    elim t.metrics [ [] ↦ err (no_metrics t.entry) | m ∷ metrics ↦ rest ]

unfoldable pub emit_body : PickFile → Result EmitBody
unfolding trim ◌==◌ emit_scalars emit_tables
emit_body p =
    if trim p.module_name == []
    then err module_required
    else emit_tables p.tables
        (emit_scalars p.scalars (record { walk = []; get = []; metrics = [] }))

-- The head of the file, on the bytes of its UTF-8 text.
unfoldable pub emit_head : PickFile → Text
unfolding ◌==◌
emit_head p =
    let head =
      codes "# Generated by snmp-discovery walk-emit. Overlay "
      ++ (226 ∷ 128 ∷ 148 ∷ [])
      ++ codes " do not replace the shipped library."
      ++ (10 ∷ []) in
    if p.sys_object_id == []
    then head
    else head
      ++ codes "# sysObjectID from the walk: "
      ++ p.sys_object_id
      ++ codes " (pin with a discovery override if you want it auto-mapped)"
      ++ (10 ∷ [])

module _ (marshal : Text → EmitBody → Result Text) where
  unfoldable pub emit_pick_module : PickFile → Result Text
  unfolding emit_body emit_head
  emit_pick_module p =
      emit_body p >>= λ body. marshal p.module_name body >>= λ raw. ok (emit_head p ++ raw)

-- The library's hits for the OIDs, each text once.
add_covered : List LibraryHit → List Text → List Text → List Text
unfolding library_lookup format_hit ◌==◌
add_covered lib seen [] = []
add_covered lib seen (oid ∷ oids) = elim (library_lookup lib oid) [
  | none ↦ add_covered lib seen oids
  | some h ↦
      let skipped = add_covered lib seen oids in
      let added = add_covered lib (format_hit h ∷ seen) oids in
      if contains (format_hit h) seen
      then skipped
      else (format_hit h ++ codes " [" ++ oid ++ codes "]") ∷ added
]

table_oids : List PickTable → List Text
unfolding table_column_oid
table_oids [] = []
table_oids (t ∷ tables) =
    map (λ m. table_column_oid t.entry m.column) t.metrics
    ++ (map (λ lab. table_column_oid t.entry lab.column) t.labels ++ table_oids tables)

unfoldable pub pick_covered_names : PickFile → List LibraryHit → List Text
unfolding add_covered table_oids
pick_covered_names p lib = add_covered lib [] (map (λ s. s.oid) p.scalars ++ table_oids p.tables)
