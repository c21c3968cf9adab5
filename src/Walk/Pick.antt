-- ===== src/Walk/Pick.antt =====
-- The shopping list of a walk and the exporter module made from it: snmpdiscovery/walkpick.go. The YAML
-- encoder is the parameter `marshal`.
use snmp_sd.Base.{
  Bool, true, false, ◌||◌, Option, none, some, List, [], ◌∷◌, ◌++◌, map, if◌then◌else◌, Text, codes,
  ◌==◌, trim, ℤ, pos, atoi, Result, ok, err, module_required, nothing_to_emit,
}
use snmp_sd.Walk.Oid.{WalkVar}
use snmp_sd.Walk.Table.{WalkColumn, WalkTable, WalkScalar, WalkCatalog}
use snmp_sd.Walk.Library.{LibraryHit, library_lookup}
use snmp_sd.Walk.Names.{
  guess_exporter_type, sanitize_metric_name, sanitize_label_name, guess_name_from_oid,
  enterprise_id, sys_object_id_from_walk, default_index_labels, is_string_type,
}

pub record PickScalar : Type 0 where
  pub oid : Text
  pub name : Text
  pub type : Text

pub record PickCol : Type 0 where
  pub column : ℤ
  pub name : Text
  pub type : Text

pub record PickTable : Type 0 where
  pub entry : Text
  pub index_labels : List Text
  pub metrics : List PickCol
  pub labels : List PickCol

pub record PickFile : Type 0 where
  pub module_name : Text
  pub sys_object_id : Text
  pub scalars : List PickScalar
  pub tables : List PickTable

-- The module is named after the first enterprise OID.
enterprise_of : List Text → Option Text
unfolding enterprise_id ◌==◌
enterprise_of [] = none
enterprise_of (oid ∷ oids) =
    let n = enterprise_id oid in if n == [] then enterprise_of oids else some n

unfoldable pub local_name : Option Text → Text
local_name none = codes "local_walk"
local_name (some n) = codes "local_" ++ n

unfoldable pub guess_module_name : WalkCatalog → Text
unfolding enterprise_of local_name
guess_module_name cat =
    local_name (enterprise_of (map (λ s. s.oid) cat.scalars ++ map (λ t. t.entry_oid) cat.tables))

unfoldable pub is_covered : List LibraryHit → Text → Bool
unfolding library_lookup
is_covered lib oid = elim (library_lookup lib oid) [ none ↦ false | some _ ↦ true ]

unfoldable pub draft_scalars : List LibraryHit → List WalkScalar → List PickScalar
unfolding is_covered is_string_type sanitize_metric_name guess_name_from_oid guess_exporter_type
draft_scalars lib [] = []
draft_scalars lib (s ∷ scalars) =
    let rest = draft_scalars lib scalars in
    if is_covered lib s.oid
    then rest
    else if is_string_type s.type
    then rest
    else record {
      oid = s.oid;
      name = sanitize_metric_name (guess_name_from_oid s.oid);
      type = guess_exporter_type s.type;
    }
      ∷ rest

-- A text column becomes a label.
is_label : WalkColumn → Bool
unfolding is_string_type ◌==◌
is_label c = is_string_type c.type || c.type == codes "IpAddress"

label_type : WalkColumn → Text
unfolding guess_exporter_type ◌==◌
label_type c =
    if c.type == codes "IpAddress"
    then codes "InetAddressIPv4"
    else if guess_exporter_type c.type == codes "gauge"
    then codes "DisplayString"
    else guess_exporter_type c.type

-- `strconv.Atoi` with its error dropped; the text of a column is one that `Itoa` wrote
column_number : Text → ℤ
unfolding atoi
column_number col = elim (atoi col) [ none ↦ pos 0 | some n ↦ n ]

unfoldable pub draft_columns : List LibraryHit → List WalkColumn → PickTable → PickTable
unfolding is_covered is_label label_type column_number sanitize_metric_name sanitize_label_name
    guess_name_from_oid guess_exporter_type
draft_columns lib [] pt = pt
draft_columns lib (c ∷ columns) pt =
    let stem = guess_name_from_oid c.oid in
    let label : PickCol = record {
      column = column_number c.col;
      name = sanitize_label_name stem;
      type = label_type c;
    } in
    let metric : PickCol = record {
      column = column_number c.col;
      name = sanitize_metric_name stem;
      type = guess_exporter_type c.type;
    } in
    draft_columns lib columns (
      if is_covered lib c.oid
      then pt
      else if is_label c
      then record pt { labels = pt.labels ++ (label ∷ []) }
      else record pt { metrics = pt.metrics ++ (metric ∷ []) })

unfoldable pub draft_table : List LibraryHit → WalkTable → PickTable
unfolding draft_columns default_index_labels
draft_table lib t = draft_columns lib t.columns (record {
  entry = t.entry_oid;
  index_labels = default_index_labels t.index_pieces;
  metrics = [];
  labels = [];
})

-- A table without metrics is left out.
unfoldable pub keep_table : PickTable → List PickTable → List PickTable
keep_table pt rest = elim pt.metrics [ [] ↦ rest | m ∷ metrics ↦ pt ∷ rest ]

unfoldable pub draft_tables : List LibraryHit → List WalkTable → List PickTable
unfolding draft_table keep_table
draft_tables lib [] = []
draft_tables lib (t ∷ tables) = keep_table (draft_table lib t) (draft_tables lib tables)

unfoldable pub draft_pick : WalkCatalog → List LibraryHit → List WalkVar → PickFile
unfolding guess_module_name sys_object_id_from_walk draft_scalars draft_tables
draft_pick cat lib vars = record {
  module_name = guess_module_name cat;
  sys_object_id = sys_object_id_from_walk vars;
  scalars = draft_scalars lib cat.scalars;
  tables = draft_tables lib cat.tables;
}

-- `LoadPickFile` behind the YAML parser
unfoldable pub load_pick_file : PickFile → Result PickFile
unfolding trim ◌==◌
load_pick_file p =
    let module_name = trim p.module_name in
    if module_name == [] then err module_required else elim p.scalars [
      | s ∷ scalars ↦ ok (record p { module_name = module_name })
      | [] ↦ elim p.tables [
        | t ∷ tables ↦ ok (record p { module_name = module_name })
        | [] ↦ err nothing_to_emit
      ]
    ]
