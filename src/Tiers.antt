-- ===== src/Tiers.antt =====
-- The scrape tiers: snmpdiscovery/discover.go, and `TierTargets` of snmpdiscovery/scan.go.
pub mod Parse
pub mod Names
use snmp_sd.Base.{
  Text, codes, ◌==◌, ◌++◌, Bool, true, false, ◌||◌, List, [], ◌∷◌, Result, ok, err, unknown_tier,
  tiers_empty, if◌then◌else◌, lower, trim, split, join, keep, contains, Option, none, some,
}
use snmp_sd.Target.{AlloyTarget}

abbrev pub hot : Text
hot = codes "hot"

abbrev pub cold : Text
cold = codes "cold"

abbrev pub topology : Text
topology = codes "topology"

abbrev pub all_tiers : List Text
all_tiers = hot ∷ cold ∷ topology ∷ []

-- What the loop of `ParseEnabledTiers` comes to: an early return at `all`, or the tiers named.
pub data Wanted : Type 0 where
  every : Wanted
  these : List Text → Wanted

unfoldable pub collect_tiers : List Text → List Text → Result Wanted
collect_tiers want [] = ok (these want)
collect_tiers want (part ∷ parts) =
    let p = trim part in
    let skip = collect_tiers want parts in
    let next = collect_tiers (p ∷ want) parts in
    if p == []
    then skip
    else if p == codes "all"
    then ok every
    else if contains p all_tiers
    then next
    else err (unknown_tier p)

wanted_tiers : Wanted → Result (List Text)
wanted_tiers every = ok all_tiers
wanted_tiers (these []) = err tiers_empty
wanted_tiers (these (w ∷ want)) = ok (keep (λ t. contains t (w ∷ want)) all_tiers)

bind_wanted : Result Wanted → Result (List Text)
unfolding wanted_tiers
bind_wanted (ok w) = wanted_tiers w
bind_wanted (err e) = err e

unfoldable pub parse_enabled_tiers : Text → Result (List Text)
unfolding bind_wanted collect_tiers
parse_enabled_tiers text =
    let s = trim (lower text) in
    if s == [] || s == codes "all"
    then ok all_tiers
    else bind_wanted (collect_tiers [] (split b',' s))

unfoldable pub normalize_tiers : List Text → Result (List Text)
unfolding parse_enabled_tiers
normalize_tiers [] = ok all_tiers
normalize_tiers (t ∷ tiers) = parse_enabled_tiers (join b',' (t ∷ tiers))

unfoldable pub tier_enabled : List Text → Text → Bool
tier_enabled [] name = true
tier_enabled (t ∷ tiers) name = contains name (t ∷ tiers)

unfoldable pub tier_module : AlloyTarget → Text → Text
tier_module t tier =
    if tier == cold
    then t.module_cold
    else if tier == topology
    then t.module_topology
    else t.module_hot

-- The name of the row before its suffix.
abbrev pub base_name : AlloyTarget → Text
base_name t = if trim t.name == [] then t.address else trim t.name

unfoldable pub tier_row : AlloyTarget → Text → AlloyTarget
unfolding tier_module
tier_row t tier = record {
  name = base_name t ++ b'-' ∷ tier;
  address = t.address;
  module_hot = tier_module t tier;
  module_cold = [];
  module_topology = [];
  auth = t.auth;
  device_name = t.device_name;
  sys_object_id = t.sys_object_id;
  snmp_group = t.snmp_group;
  snmp_tier = tier;
  aliases = [];
}

unfoldable pub tier_targets : List AlloyTarget → Text → List AlloyTarget
unfolding tier_row
tier_targets [] tier = []
tier_targets (t ∷ targets) tier =
    let rest = tier_targets targets tier in
    if trim (tier_module t tier) == [] then rest else tier_row t tier ∷ rest

unfoldable pub expand_tiers : List AlloyTarget → List Text → List AlloyTarget
unfolding tier_targets
expand_tiers catalog [] = []
expand_tiers catalog (t ∷ tiers) = tier_targets catalog t ++ expand_tiers catalog tiers

expand_ok : List AlloyTarget → Result (List Text) → List AlloyTarget
unfolding expand_tiers
expand_ok catalog (ok tiers) = expand_tiers catalog tiers
expand_ok catalog (err e) = []

unfoldable pub targets_for_tier : List AlloyTarget → Text → List AlloyTarget
unfolding expand_ok normalize_tiers
targets_for_tier catalog tier = elim (parse_enabled_tiers tier) [
  | ok tiers ↦ expand_ok catalog (normalize_tiers tiers)
  | err e ↦ []
]

unfoldable pub targets_for_tiers : List AlloyTarget → List Text → List AlloyTarget
unfolding expand_ok
targets_for_tiers catalog tiers = expand_ok catalog (normalize_tiers tiers)
