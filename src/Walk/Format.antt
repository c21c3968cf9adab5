-- ===== src/Walk/Format.antt =====
-- The printed catalog of a walk: snmpdiscovery/walkformat.go. The text is what is written to the writer
-- `w`; a newline is the byte 10.
use snmp_sd.Base.{
  ℕ, ◌+◌, Bool, true, false, ◌||◌, ◌&&◌, not, Option, none, some, List, [], ◌∷◌, ◌++◌, ltb, leb,
  eqb, if◌then◌else◌, Text, codes, ◌==◌, lower, contains_text, length, take, keep, itoa,
}
use snmp_sd.Walk.Table.{WalkColumn, WalkTable, WalkScalar, WalkCatalog}
use snmp_sd.Walk.Library.{LibraryHit, library_lookup, format_hit}
use snmp_sd.Walk.Pick.{is_covered}

abbrev line_end : Text
line_end = 10 ∷ []

-- The ellipsis in UTF-8.
abbrev ellipsis : Text
ellipsis = 226 ∷ 128 ∷ 166 ∷ []

-- `strings.Join` with ", "
comma_list : List Text → Text
comma_list [] = []
comma_list (s ∷ []) = s
comma_list (s ∷ t ∷ ss) = s ++ codes ", " ++ comma_list (t ∷ ss)

unfoldable pub count_noun : ℕ → Text → Text → Text
unfolding itoa
count_noun n one many = if eqb n 1 then codes "1 " ++ one else itoa n ++ codes " " ++ many

shown_samples : List Text → Text
unfolding comma_list
shown_samples [] = []
shown_samples (s ∷ samples) =
    let shown =
      if ltb 3 (length (s ∷ samples))
      then take 3 (s ∷ samples) ++ (ellipsis ∷ [])
      else s ∷ samples in
    codes " (" ++ comma_list shown ++ codes ")"

unfoldable pub describe_index : ℕ → List Text → Text
unfolding shown_samples itoa
describe_index pieces samples =
    if eqb pieces 1
    then codes "index is 1 number" ++ shown_samples samples
    else codes "index is " ++ itoa pieces ++ codes " numbers" ++ shown_samples samples

hint_for : Text → Text
unfolding lower contains_text ◌==◌
hint_for type =
    if contains_text (codes "counter") (lower type)
    then codes "looks like a counter"
    else if type == codes "STRING" || type == codes "DisplayString" || type == codes "Hex-STRING"
    then codes "looks like a name label"
    else if type == codes "IpAddress"
    then codes "looks like an address"
    else if type == codes "INTEGER" || type == codes "Gauge32" || type == codes "Gauge"
    then codes "looks like a gauge"
    else []

-- `text` between `before` and `after`, unless it is blank.
around : Text → Text → Text → Text
around before [] after = []
around before (c ∷ s) after = before ++ (c ∷ s) ++ after

unfoldable pub describe_column : WalkColumn → Text
unfolding hint_for around comma_list
describe_column c =
    let samples =
      comma_list c.samples ++ (if leb 4 (length c.samples) then codes ", " ++ ellipsis else []) in
    codes "."
    ++ c.col
    ++ codes "  "
    ++ c.type
    ++ around (codes "  ") samples []
    ++ around (codes "  (") (hint_for c.type) (codes ")")

all_covered : List LibraryHit → List WalkColumn → Bool
unfolding is_covered
all_covered lib [] = true
all_covered lib (c ∷ columns) = is_covered lib c.oid && all_covered lib columns

unfoldable pub table_fully_covered : WalkTable → List LibraryHit → Bool
unfolding all_covered
table_fully_covered t lib = elim t.columns [
  | [] ↦ false
  | c ∷ columns ↦ all_covered lib (c ∷ columns)
]

unfoldable pub scalar_covered : WalkScalar → List LibraryHit → Bool
unfolding is_covered
scalar_covered s lib = is_covered lib s.oid

-- What the library has already, behind a line.
already : Option LibraryHit → Text
unfolding format_hit
already none = []
already (some h) = codes "  already " ++ format_hit h

column_lines : List LibraryHit → Text → List WalkColumn → Text
unfolding describe_column already library_lookup
column_lines lib pad [] = []
column_lines lib pad (c ∷ columns) =
    pad
    ++ codes "  "
    ++ describe_column c
    ++ already (library_lookup lib c.oid)
    ++ line_end
    ++ column_lines lib pad columns

unfoldable pub write_table : WalkTable → List LibraryHit → Text → Text
unfolding describe_index column_lines itoa
write_table t lib pad =
    pad
    ++ codes "table "
    ++ t.entry_oid
    ++ codes "   "
    ++ itoa t.rows
    ++ codes " rows, "
    ++ describe_index t.index_pieces t.index_samples
    ++ line_end
    ++ column_lines lib pad t.columns

table_lines : List LibraryHit → List WalkTable → Text
unfolding write_table
table_lines lib [] = []
table_lines lib (t ∷ tables) = write_table t lib (codes "  ") ++ table_lines lib tables

scalar_head : WalkScalar → Text
scalar_head s =
    codes "  " ++ s.oid ++ line_end ++ codes "    one value: " ++ s.value ++ codes "  " ++ s.type

new_scalar_lines : List WalkScalar → Text
unfolding scalar_head
new_scalar_lines [] = []
new_scalar_lines (s ∷ scalars) = scalar_head s ++ line_end ++ new_scalar_lines scalars

-- A covered scalar has a hit.
covered_scalar_lines : List LibraryHit → List WalkScalar → Text
unfolding scalar_head already library_lookup
covered_scalar_lines lib [] = []
covered_scalar_lines lib (s ∷ scalars) =
    scalar_head s
    ++ already (library_lookup lib s.oid)
    ++ line_end
    ++ covered_scalar_lines lib scalars

hidden_line : List WalkScalar → List WalkTable → Bool → Text
unfolding count_noun
hidden_line scalars tables show_covered =
    if ltb 0 (length tables + length scalars) && not show_covered
    then count_noun (length scalars) (codes "scalar") (codes "scalars")
      ++ codes " and "
      ++ count_noun (length tables) (codes "table") (codes "tables")
      ++ codes " already in the library (hidden; --show-covered to list)"
      ++ line_end
    else []

new_part : List LibraryHit → List WalkScalar → List WalkTable → Text
unfolding new_scalar_lines table_lines
new_part lib scalars tables =
    codes "not in the library"
    ++ line_end
    ++ (if eqb (length scalars + length tables) 0
        then codes "  (nothing new "
          ++ (226 ∷ 128 ∷ 148 ∷ [])
          ++ codes " this walk is already covered)"
          ++ line_end
        else [])
    ++ new_scalar_lines scalars
    ++ table_lines lib tables

covered_part : List LibraryHit → List WalkScalar → List WalkTable → Bool → Text
unfolding covered_scalar_lines table_lines
covered_part lib scalars tables show_covered =
    if show_covered && ltb 0 (length scalars + length tables)
    then line_end
      ++ codes "already in the library"
      ++ line_end
      ++ covered_scalar_lines lib scalars
      ++ table_lines lib tables
    else []

unfoldable pub write_walk_catalog : WalkCatalog → List LibraryHit → Bool → Text
unfolding itoa table_fully_covered scalar_covered hidden_line new_part covered_part
write_walk_catalog cat lib show_covered =
    let cov_tables = keep (λ t. table_fully_covered t lib) cat.tables in
    let cov_scalars = keep (λ s. scalar_covered s lib) cat.scalars in
    let new_tables = keep (λ t. not (table_fully_covered t lib)) cat.tables in
    let new_scalars = keep (λ s. not (scalar_covered s lib)) cat.scalars in
    codes "walk catalog: "
    ++ itoa (length cat.scalars)
    ++ codes " scalars, "
    ++ itoa (length cat.tables)
    ++ codes " tables"
    ++ line_end
    ++ hidden_line cov_scalars cov_tables show_covered
    ++ line_end
    ++ new_part lib new_scalars new_tables
    ++ covered_part lib cov_scalars cov_tables show_covered
