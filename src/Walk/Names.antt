-- ===== src/Walk/Names.antt =====
-- Names made from OIDs: snmpdiscovery/walkpick.go (sanitizeIdent, sanitizeMetricName,
-- sanitizeLabelName, guessNameFromOID, enterpriseID and the guesses on types).
pub mod Legal
use snmp_sd.Base.{
  ℕ, zero, suc, ◌+◌, ◌-◌, Bool, true, false, ◌||◌, ◌&&◌, not, Option, none, some, List, [], ◌∷◌,
  ◌++◌, map, eqb, leb, ltb, if◌then◌else◌, Text, codes, ◌==◌, trim, lower, has_prefix, trim_prefix,
  trim_suffix, contains_text, cut, drop, length, itoa, ℤ, join,
}
use mathlib.Core.List.{reverse}
use snmp_sd.Emit.{rune_width}
use snmp_sd.Walk.Oid.{WalkVar, walk_oid, oid_parts, int_text}

unfoldable pub metric_oid : Text → Text
unfolding walk_oid trim_suffix
metric_oid instance_oid = trim_suffix (codes ".0") (walk_oid instance_oid)

unfoldable pub guess_exporter_type : Text → Text
unfolding lower contains_text ◌==◌
guess_exporter_type walk_type =
    let t = lower walk_type in
    if contains_text (codes "counter") t
    then codes "counter"
    else if t == codes "string" || t == codes "hex-string" || t == codes "displaystring"
    then codes "DisplayString"
    else codes "gauge"

unfoldable pub is_ident_byte : ℕ → Bool
is_ident_byte r =
    eqb r b'_'
    || (leb b'a' r && leb r b'z' || (leb b'A' r && leb r b'Z' || leb b'0' r && leb r b'9'))

-- One underscore for each rune that is no letter, digit or underscore; a byte that starts no rune
-- counts as one. Each round takes a byte at least, so that the length of the text is fuel enough.
unfoldable pub ident_loop : ℕ → Text → Text
unfolding rune_width is_ident_byte
ident_loop fuel [] = []
ident_loop zero (a ∷ s) = []
ident_loop (suc fuel) (a ∷ s) =
    let k = rune_width (a ∷ s) in
    let rest = ident_loop fuel (if eqb k 0 then s else drop k (a ∷ s)) in
    (if is_ident_byte a then a else b'_') ∷ rest

-- `strings.Trim` of underscores
unfoldable pub drop_underscores : Text → Text
drop_underscores [] = []
drop_underscores (c ∷ s) = if eqb c b'_' then drop_underscores s else c ∷ s

unfoldable pub trim_underscores : Text → Text
unfolding drop_underscores
trim_underscores s = reverse (drop_underscores (reverse (drop_underscores s)))

unfoldable pub or_unnamed : Text → Text
or_unnamed [] = codes "unnamed"
or_unnamed (c ∷ s) = c ∷ s

unfoldable pub sanitize_ident : Text → Text
unfolding trim ident_loop trim_underscores or_unnamed ◌==◌
sanitize_ident text =
    let name = trim text in
    let rest = or_unnamed (trim_underscores (ident_loop (length name) name)) in
    if name == [] then codes "unnamed" else rest

unfoldable pub sanitize_metric_name : Text → Text
unfolding sanitize_ident has_prefix
sanitize_metric_name name =
    let s = sanitize_ident name in if has_prefix (codes "snmp_") s then s else codes "snmp_" ++ s

unfoldable pub label_from : Text → Text
label_from [] = codes "unnamed"
label_from (c ∷ s) = if leb b'0' c && leb c b'9' then b'n' ∷ c ∷ s else c ∷ s

unfoldable pub sanitize_label_name : Text → Text
unfolding sanitize_ident label_from
sanitize_label_name name = label_from (sanitize_ident name)

-- The last three numbers of the OID, or all of them.
unfoldable pub guess_name_from_oid : Text → Text
unfolding metric_oid oid_parts int_text join sanitize_ident
guess_name_from_oid oid = elim (oid_parts (metric_oid oid)) [
  | [] ↦ codes "snmp_value"
  | n ∷ p ↦ sanitize_ident (join b'_' (map int_text (drop (length (n ∷ p) - 3) (n ∷ p))))
]

unfoldable pub enterprise_id : Text → Text
unfolding walk_oid has_prefix trim_prefix cut
enterprise_id text =
    let oid = walk_oid text in
    let rest = trim_prefix (codes "1.3.6.1.4.1.") oid in
    if has_prefix (codes "1.3.6.1.4.1.") oid
    then elim (cut b'.' rest) [ none ↦ rest | some (id, after) ↦ id ]
    else []

unfoldable pub sys_object_id_from_walk : List WalkVar → Text
unfolding walk_oid trim ◌==◌
sys_object_id_from_walk [] = []
sys_object_id_from_walk (v ∷ vars) =
    if walk_oid v.oid == codes "1.3.6.1.2.1.1.2.0" && not (v.value == [])
    then walk_oid (trim v.value)
    else sys_object_id_from_walk vars

unfoldable pub index_labels_from : ℕ → ℕ → List Text
unfolding itoa
index_labels_from zero i = []
index_labels_from (suc n) i = (codes "index_" ++ itoa (suc i)) ∷ index_labels_from n (suc i)

unfoldable pub default_index_labels : ℕ → List Text
unfolding index_labels_from
default_index_labels n = if leb n 1 then codes "index" ∷ [] else index_labels_from n 0

unfoldable pub is_string_type : Text → Bool
unfolding lower ◌==◌
is_string_type walk_type =
    let t = lower walk_type in
    t == codes "string" || t == codes "hex-string" || t == codes "displaystring" || t == codes "oid"
