-- ===== src/Emit.antt =====
-- Names and service discovery groups: snmpdiscovery/emit.go.
pub mod Truncate
pub mod Unique
pub mod Atomic
pub mod Labels
use snmp_sd.Base.{
  ℕ, zero, suc, ◌+◌, Text, codes, Bool, true, false, not, Option, none, some, List, [], ◌∷◌, ◌++◌,
  ◌==◌, ◌&&◌, ◌||◌, ltb, leb, eqb, if◌then◌else◌, trim, lower, cut, join, map, length, take, drop,
  get_elem?, Assoc, lookup, insert,
}
use snmp_sd.Target.{AlloyTarget}
use snmp_sd.Address.{must_canon_ip, name_addr_suffix}

pub record FileSdGroup : Type 0 where
  pub targets : List Text
  pub labels : Assoc Text

-- The labels that every group has.
unfoldable pub base_labels : Bool → AlloyTarget → Assoc Text
base_labels true t =
    (codes "__param_module", t.module_hot)
    ∷ (codes "__param_auth", t.auth)
    ∷ (codes "device_name", t.device_name)
    ∷ []
base_labels false t =
    (codes "name", t.name)
    ∷ (codes "module", t.module_hot)
    ∷ (codes "auth", t.auth)
    ∷ (codes "address", t.address)
    ∷ (codes "device_name", t.device_name)
    ∷ []

unfoldable pub with_label : Text → Text → Assoc Text → Assoc Text
with_label k v labels = if v == [] then labels else insert k v labels

unfoldable pub labels_of : Bool → AlloyTarget → Assoc Text
unfolding base_labels with_label
labels_of prometheus_params t =
    let labels = with_label (codes "snmp_tier") t.snmp_tier (
      with_label (codes "snmp_group") t.snmp_group
        (with_label (codes "sysObjectID") t.sys_object_id (base_labels prometheus_params t))) in
    elim t.aliases [
      | [] ↦ labels
      | a ∷ more ↦ insert (codes "snmp_aliases") (join b',' (a ∷ more)) labels
    ]

unfoldable pub http_sd_groups : List AlloyTarget → Bool → List FileSdGroup
unfolding labels_of
http_sd_groups targets prometheus_params =
    map (λ t. record { targets = t.address ∷ []; labels = labels_of prometheus_params t }) targets

abbrev between : ℕ → ℕ → ℕ → Bool
between lo hi b = leb lo b && leb b hi

-- How many bytes the UTF-8 sequence at the head of a text has; 0 where there is none.
unfoldable pub rune_width : Text → ℕ
rune_width [] = 0
rune_width (a ∷ []) = if ltb a 128 then 1 else 0
rune_width (a ∷ b ∷ []) =
    if ltb a 128 then 1 else if between 194 223 a && between 128 191 b then 2 else 0
rune_width (a ∷ b ∷ c ∷ s) =
    if ltb a 128
    then 1
    else if between 194 223 a && between 128 191 b
    then 2
    else if between 224 239 a
        && between (if eqb a 224 then 160 else 128) (if eqb a 237 then 159 else 191) b
        && between 128 191 c
    then 3
    else if between 240 244 a
        && between (if eqb a 240 then 144 else 128) (if eqb a 244 then 143 else 191) b
        && between 128 191 c
        && elim s [ [] ↦ false | d ∷ more ↦ between 128 191 d ]
    then 4
    else 0

-- `unicode.IsControl` of the rune with these bytes.
unfoldable pub is_control : Text → Bool
is_control [] = false
is_control (a ∷ []) = ltb a 32 || eqb a 127
is_control (a ∷ b ∷ []) = eqb a 194 && between 128 159 b
is_control (a ∷ b ∷ c ∷ s) = false

-- What `strings.Map` writes for one rune; a byte that starts none becomes U+FFFD.
unfoldable pub strip_rune : ℕ → Text → Text
unfolding is_control
strip_rune zero s = 239 ∷ 191 ∷ 189 ∷ []
strip_rune (suc k) s = if is_control (take (suc k) s) then [] else take (suc k) s

-- Each round takes a byte at least, so that the length of the text is fuel enough.
unfoldable pub strip_loop : ℕ → Text → Text
unfolding rune_width strip_rune
strip_loop fuel [] = []
strip_loop zero (a ∷ s) = []
strip_loop (suc fuel) (a ∷ s) =
    let k = rune_width (a ∷ s) in
    let rest = strip_loop fuel (if eqb k 0 then s else drop k (a ∷ s)) in
    strip_rune k (a ∷ s) ++ rest

unfoldable pub strip_controls : Text → Text
unfolding strip_loop
strip_controls s = strip_loop (length s) s

-- `utf8.RuneStart`
unfoldable pub rune_start : ℕ → Bool
rune_start b = not (between 128 191 b)

unfoldable pub starts_rune : Text → ℕ → Bool
unfolding rune_start
starts_rune s n = elim (get_elem? s n) [ none ↦ true | some b ↦ rune_start b ]

-- The loop that goes back to the start of a rune.
unfoldable pub back_up : Text → ℕ → ℕ
unfolding starts_rune
back_up s zero = 0
back_up s (suc n) = let before = back_up s n in if starts_rune s (suc n) then suc n else before

unfoldable pub truncate_at_rune_boundary : Text → ℕ → Text
unfolding back_up
truncate_at_rune_boundary s max_bytes =
    if leb (length s) max_bytes then s else take (back_up s max_bytes) s

unfoldable pub normalise_device_name : Text → Text
unfolding strip_controls truncate_at_rune_boundary
normalise_device_name s = truncate_at_rune_boundary (lower (trim (strip_controls s))) 255

-- The text before the first dot, unless that is the first byte.
unfoldable pub short_name : Text → Text
short_name n = elim (cut b'.' n) [
  | none ↦ n
  | some (before, after) ↦ if before == [] then n else before
]

-- The scrape target's name and the name to join by.
unfoldable pub target_names : Text → Text → Text × Text
unfolding normalise_device_name short_name
target_names sys_name addr =
    let canon = must_canon_ip addr in
    let n = trim (strip_controls sys_name) in
    if n == [] || n == canon
    then (name_addr_suffix canon, canon)
    else (short_name n, normalise_device_name n)

-- Whether another address owns the name.
unfoldable pub taken : Text → Text → Assoc Text → Bool
taken name addr used = elim (lookup name used) [ none ↦ false | some owner ↦ not (owner == addr) ]

unfoldable pub unique_name : AlloyTarget → Assoc Text → Text
unfolding taken
unique_name t used =
    let name = if trim t.name == [] then t.address else trim t.name in
    let longer =
      if taken name t.address used then name ++ codes "-" ++ name_addr_suffix t.address else name in
    if taken longer t.address used then name_addr_suffix t.address else longer

unfoldable pub uniquify_loop : Assoc Text → List AlloyTarget → List AlloyTarget
unfolding unique_name
uniquify_loop used [] = []
uniquify_loop used (t ∷ ts) =
    let name = unique_name t used in
    record t { name = name } ∷ uniquify_loop (insert name t.address used) ts

unfoldable pub uniquify_names : List AlloyTarget → List AlloyTarget
unfolding uniquify_loop
uniquify_names targets = uniquify_loop [] targets
