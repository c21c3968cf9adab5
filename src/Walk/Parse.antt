-- ===== src/Walk/Parse.antt =====
-- The text of `snmpwalk -On`: snmpdiscovery/walkparse.go (ParseWalkText, parseWalkLine, isWalkType) and
-- walkformat.go (FilterWalk). A failing read of the input is not modelled; a line that is too long for
-- the scanner is.
use snmp_sd.Base.{
  ℕ, zero, suc, ◌*◌, Bool, true, false, ◌||◌, not, Option, none, some, List, [], ◌∷◌, ltb,
  if◌then◌else◌, Text, codes, ◌==◌, trim, has_prefix, cut_prefix, contains_text, cut, split, length,
  keep, contains, trim_suffix, Result, ok, err, walk_line_too_long, no_numeric_oids, trim_prefix,
  ◌≡◌, refl,
}
use snmp_sd.Walk.Oid.{WalkVar, walk_oid, oid_parts, oid_has_prefix}
use mathlib.Core.List.{reverse}

-- `strings.Cut` at a text that is not empty
cut_around : Text → Text → Option Text → Option (Text × Text) → Option (Text × Text)
cut_around sep s (some after) later = some ([], after)
cut_around sep [] none later = none
cut_around sep (c ∷ s) none none = none
cut_around sep (c ∷ s) none (some (before, after)) = some (c ∷ before, after)

unfoldable pub cut_text : Text → Text → Option (Text × Text)
unfolding cut_around cut_prefix
cut_text sep [] = none
cut_text sep (c ∷ s) = cut_around sep (c ∷ s) (cut_prefix sep (c ∷ s)) (cut_text sep s)

-- `strings.Trim` of quotes
drop_quotes : Text → Text
drop_quotes [] = []
drop_quotes (c ∷ s) = if ltb c 34 || ltb 34 c then c ∷ s else drop_quotes s

trim_quotes : Text → Text
unfolding drop_quotes
trim_quotes s = reverse (drop_quotes (reverse (drop_quotes s)))

abbrev pub walk_types : List Text
walk_types =
    codes "STRING"
    ∷ codes "Hex-STRING"
    ∷ codes "INTEGER"
    ∷ codes "Integer32"
    ∷ codes "Gauge32"
    ∷ codes "Gauge"
    ∷ codes "Counter32"
    ∷ codes "Counter64"
    ∷ codes "Counter"
    ∷ codes "Timeticks"
    ∷ codes "OID"
    ∷ codes "IpAddress"
    ∷ codes "Network Address"
    ∷ codes "BITS"
    ∷ codes "Opaque"
    ∷ codes "Float"
    ∷ codes "Double"
    ∷ codes "NULL"
    ∷ codes "NoSuchObject"
    ∷ codes "NoSuchInstance"
    ∷ codes "EndOfMibView"
    ∷ []

unfoldable pub is_walk_type : Text → Bool
unfolding ◌==◌
is_walk_type s = contains s walk_types

-- The type and the value behind the equals sign: a type has a name of the list above.
typed_by : Text → Option (Text × Text) → Text × Text
unfolding is_walk_type
typed_by rest none = ([], rest)
typed_by rest (some ([], val)) = ([], rest)
typed_by rest (some (c ∷ head, val)) =
    if is_walk_type (c ∷ head) then (c ∷ head, val) else ([], rest)

variable_of : Text → Text → Option WalkVar
unfolding typed_by trim_quotes ◌==◌ trim walk_oid oid_parts cut_text
variable_of name rest =
    let oid = walk_oid name in
    let (typ, val) = typed_by rest (cut_text (codes ": ") rest) in
    elim (oid_parts oid) [
      | [] ↦ none
      | part ∷ parts ↦ some (record { oid = oid; type = typ; value = trim_quotes (trim val) })
    ]

unfoldable pub parse_walk_line : Text → Option WalkVar
unfolding variable_of cut_text cut trim
parse_walk_line line = elim (cut_text (codes " = ") line) [
  | some (name, rest) ↦ variable_of name rest
  | none ↦ elim (cut b'=' line) [
    | none ↦ none
    | some (name, rest) ↦ variable_of (trim name) (trim rest)
  ]
]

unfoldable pub is_skipped_line : Text → Bool
unfolding ◌==◌ has_prefix contains_text
is_skipped_line line =
    line == []
    || has_prefix (codes "#") line
    || has_prefix (codes "End of MIB") line
    || contains_text (codes "No more variables") line

-- The lines of a `bufio.Scanner`: nothing stands behind the last newline, and a carriage return in
-- front of a newline goes with it.
without_return : Text → Text
unfolding trim_suffix
without_return line = trim_suffix (13 ∷ []) line

scan_lines : List Text → List Text
unfolding without_return
scan_lines [] = []
scan_lines (last ∷ []) = if ltb 0 (length last) then without_return last ∷ [] else []
scan_lines (line ∷ next ∷ more) = without_return line ∷ scan_lines (next ∷ more)

abbrev pub max_line : ℕ
max_line = 1024 * 1024

-- The variables of the lines, or the number of lines read in front of one that does not fit.
read_lines : ℕ → List Text → Result (List WalkVar)
unfolding parse_walk_line is_skipped_line trim
read_lines line_no [] = ok []
read_lines line_no (raw ∷ lines) =
    let line = trim raw in
    let later = read_lines (suc line_no) lines in
    if ltb (length raw) max_line
    then if is_skipped_line line then later else elim (parse_walk_line line) [
      | none ↦ later
      | some v ↦ elim later [ err e ↦ err e | ok vars ↦ ok (v ∷ vars) ]
    ]
    else err (walk_line_too_long line_no)

some_variable : Result (List WalkVar) → Result (List WalkVar)
some_variable (err e) = err e
some_variable (ok []) = err no_numeric_oids
some_variable (ok (v ∷ vars)) = ok (v ∷ vars)

unfoldable pub parse_walk_text : Text → Result (List WalkVar)
unfolding some_variable read_lines scan_lines split
parse_walk_text input = some_variable (read_lines 0 (scan_lines (split 10 input)))

unfoldable pub filter_walk : List WalkVar → Text → List WalkVar
unfolding oid_has_prefix trim ◌==◌
filter_walk vars prefix =
    if trim prefix == [] then vars else keep (λ v. oid_has_prefix v.oid prefix) vars

parse_tests :
    (parse_walk_line (codes ".1.3.6 = STRING: \"a b\"")
      ≡ some (record { oid = codes "1.3.6"; type = codes "STRING"; value = codes "a b" }))
    × (parse_walk_line (codes "sysName.0 = x") ≡ none)
    × (parse_walk_line (codes "iso.3 =STRINGS: 5")
        ≡ some (record { oid = codes "1.3"; type = []; value = codes "STRINGS: 5" }))
unfolding parse_walk_line snmp_sd.Base.text_dec
parse_tests = (refl, refl, refl)
