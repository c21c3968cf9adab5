-- ===== src/Walk/Table.antt =====
-- Tables and columns: snmpdiscovery/walkcluster.go (WalkColumn, WalkTable, WalkScalar, WalkCatalog,
-- tableFromColumns, columnSamples and what they use).
use snmp_sd.Base.{
  ℕ, ◌+◌, Bool, true, false, ◌||◌, ◌&&◌, Option, none, some, List, [], ◌∷◌, ◌++◌, map, eqb, leb,
  ltb, if◌then◌else◌, Text, codes, ◌==◌, has_prefix, length, keep, unique_by, contains, Assoc, keys,
  lookup, insert, ℤ, sort_by, sort_texts,
}
use snmp_sd.Walk.Oid.{WalkVar, join_parts, oid_less, int_text}

pub record WalkColumn : Type 0 where
  pub oid : Text
  pub col : Text
  pub type : Text
  pub samples : List Text
  pub instances : ℕ

pub record WalkTable : Type 0 where
  pub entry_oid : Text
  pub index_pieces : ℕ
  pub index_samples : List Text
  pub rows : ℕ
  pub columns : List WalkColumn

pub record WalkScalar : Type 0 where
  pub oid : Text
  pub type : Text
  pub value : Text

pub record WalkCatalog : Type 0 where
  pub scalars : List WalkScalar
  pub tables : List WalkTable

unfoldable pub by_oid_from : Assoc WalkVar → List WalkVar → Assoc WalkVar
unfolding insert
by_oid_from m [] = m
by_oid_from m (v ∷ vars) = by_oid_from (insert v.oid v m) vars

-- A map without repeated keys; the last variable of an OID stays.
unfoldable pub index_by_oid : List WalkVar → Assoc WalkVar
unfolding by_oid_from
index_by_oid vars = by_oid_from [] vars

unfoldable pub suffix_set : List Text → List Text
unfolding unique_by
suffix_set ss = unique_by (λ s. s) [] ss

dots : Text → ℕ
dots [] = 0
dots (c ∷ s) = (if eqb c b'.' then 1 else 0) + dots s

unfoldable pub suffix_piece_count : Text → ℕ
unfolding dots
suffix_piece_count [] = 0
suffix_piece_count (c ∷ s) = dots (c ∷ s) + 1

all_pieces : ℕ → List Text → Bool
unfolding suffix_piece_count
all_pieces n [] = true
all_pieces n (s ∷ ss) = eqb (suffix_piece_count s) n && all_pieces n ss

unfoldable pub same_suffix_len : List Text → Option ℕ
unfolding all_pieces suffix_piece_count
same_suffix_len [] = none
same_suffix_len (s ∷ ss) = let n = suffix_piece_count s in if all_pieces n ss then some n else none

unfoldable pub overlap_count : List Text → List Text → ℕ
unfolding ◌==◌
overlap_count a b = length (keep (λ k. contains k b) a)

unfoldable pub in_column : Text → Text → Bool
unfolding ◌==◌ has_prefix
in_column col oid = oid == col || has_prefix (col ++ codes ".") oid

unfoldable pub value_at : Text → Assoc WalkVar → WalkVar
unfolding lookup
value_at oid by_oid = elim (lookup oid by_oid) [
  | some v ↦ v
  | none ↦ record { oid = []; type = []; value = [] }
]

-- The loop over the OIDs of a column: the first type that is not blank, and the values that are not
-- blank until there are four.
first_type : Text → Text → Text
unfolding ◌==◌
first_type typ found = if typ == [] then found else typ

more_samples : Text → List Text → List Text
unfolding ◌==◌
more_samples value samples = if value == [] then samples else samples ++ (value ∷ [])

unfoldable pub sample_loop : Assoc WalkVar → Text → List Text → List Text → List Text × Text
unfolding value_at first_type more_samples
sample_loop by_oid typ samples [] = (samples, typ)
sample_loop by_oid typ samples (oid ∷ oids) =
    let v = value_at oid by_oid in
    let now = more_samples v.value samples in
    let typ = first_type typ v.type in
    let rest = sample_loop by_oid typ now oids in if leb 4 (length now) then (now, typ) else rest

unfoldable pub column_samples : Text → Assoc WalkVar → List Text × Text
unfolding sample_loop in_column oid_less sort_by
column_samples col_oid by_oid =
    sample_loop by_oid [] [] (sort_by oid_less (keep (in_column col_oid) (keys by_oid)))

-- A child of a node that looks like a column; `ln` is 0 unless `ok`.
pub record ColInfo : Type 0 where
  pub part : ℤ
  pub suf : List Text
  pub set : List Text
  pub ln : ℕ
  pub ok : Bool

column_of : List ℤ → Assoc WalkVar → ColInfo → WalkColumn
unfolding join_parts int_text column_samples
column_of entry by_oid g =
    let col_oid = join_parts (entry ++ (g.part ∷ [])) in
    let (samples, typ) = column_samples col_oid by_oid in
    record {
      oid = col_oid;
      col = int_text g.part;
      type = typ;
      samples = samples;
      instances = length g.suf;
    }

all_suffixes : List ColInfo → List Text
all_suffixes [] = []
all_suffixes (g ∷ group) = g.suf ++ all_suffixes group

unfoldable pub table_from_columns : List ℤ → ℕ → List ColInfo → Assoc WalkVar → WalkTable
unfolding join_parts column_of all_suffixes suffix_set oid_less sort_by sort_texts
table_from_columns entry index_pieces group by_oid =
    let row_set = suffix_set (all_suffixes group) in
    record {
      entry_oid = join_parts entry;
      index_pieces = index_pieces;
      index_samples = sort_texts row_set;
      rows = length row_set;
      columns = sort_by (λ a b. oid_less a.oid b.oid) (map (column_of entry by_oid) group);
    }

unfoldable pub is_scalar_dot_zero_table : WalkTable → Bool
unfolding ◌==◌
is_scalar_dot_zero_table t =
    if ltb 1 t.rows then false else elim t.index_samples [ s ∷ [] ↦ s == codes "0" | _ ↦ false ]
