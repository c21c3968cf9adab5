-- ===== src/Overrides.antt =====
-- Operator overrides on top of live probes: snmpdiscovery/groups.go.
pub mod Apply
use snmp_sd.Base.Error.{Error}
use snmp_sd.Base.{
  ℕ, zero, suc, ◌+◌, Text, codes, Bool, true, false, not, Option, none, some, List, [], ◌∷◌, ◌++◌,
  ◌==◌, ◌&&◌, ◌||◌, Result, ok, err, ◌>>=◌, ◌>>◌, ltb, leb, eqb, if◌then◌else◌, trim, lower, split,
  join, map, length, keep, contains, Assoc, lookup, insert, no_groups, group_without_name,
  duplicate_group, group_without_cidrs, group_without_auths, description_not_one_line,
  description_too_long, unknown_mode, config_or_cidrs, auths_required,
}
use snmp_sd.Target.{AlloyTarget}
use snmp_sd.Address.{must_canon_ip}
use snmp_sd.Fingerprint.{ModuleTiers, partition_legacy_modules}

pub record Override : Type 0 where
  pub address : Text
  pub ignore : Bool
  pub name : Text
  pub module_legacy : Text
  pub module_hot : Text
  pub module_cold : Text
  pub module_topology : Text
  pub auth : Text

unfoldable pub ignored_addresses : List Override → List Text
ignored_addresses [] = []
ignored_addresses (o ∷ ov) =
    let rest = ignored_addresses ov in
    if not o.ignore
    then rest
    else if trim o.address == []
    then rest
    else must_canon_ip (trim o.address) ∷ rest

-- `splitCSVModules` of snmpdiscovery/groups.go and `splitCSV` of snmpdiscovery/runconfig.go
unfoldable pub split_csv : Text → List Text
split_csv s = keep (λ p. not (p == [])) (map trim (split b',' s))

abbrev pub join_modules : List Text → Text
join_modules = join b','

-- The three modules of a target after an override that names tiers.
unfoldable pub pin_tiers : Override → AlloyTarget → AlloyTarget
pin_tiers o t = record t {
  module_hot =
      if not (trim o.module_hot == [])
      then trim o.module_hot
      else if not (trim o.module_legacy == [])
      then trim o.module_legacy
      else t.module_hot;
  module_cold = if not (trim o.module_cold == []) then trim o.module_cold else t.module_cold;
  module_topology =
      if not (trim o.module_topology == []) then trim o.module_topology else t.module_topology;
}

unfoldable pub pin_legacy : Text → AlloyTarget → AlloyTarget
pin_legacy legacy t =
    let tiers = partition_legacy_modules (split_csv legacy) in
    record t {
      module_hot = join_modules tiers.hot;
      module_cold = join_modules tiers.cold;
      module_topology = join_modules tiers.topology;
    }

unfoldable pub apply_module_override : Override → AlloyTarget → AlloyTarget
unfolding pin_tiers pin_legacy
apply_module_override o t =
    if not (trim o.module_hot == [])
      || not (trim o.module_cold == [])
      || not (trim o.module_topology == [])
    then pin_tiers o t
    else if trim o.module_legacy == []
    then t
    else pin_legacy (trim o.module_legacy) t

-- The overrides by address: a later one replaces an earlier one.
unfoldable pub overrides_by_addr : Assoc Override → List Override → Assoc Override
overrides_by_addr m [] = m
overrides_by_addr m (o ∷ ov) =
    let skip = overrides_by_addr m ov in
    let put = overrides_by_addr (insert (must_canon_ip (trim o.address)) o m) ov in
    if trim o.address == [] then skip else put

unfoldable pub override_target : Override → AlloyTarget → AlloyTarget
unfolding apply_module_override
override_target o t =
    let named =
      if trim o.name == [] then t else record t { name = trim o.name; device_name = trim o.name } in
    let pinned = apply_module_override o named in
    if trim o.auth == [] then pinned else record pinned { auth = trim o.auth }

-- `none`: the override says to ignore the device.
unfoldable pub overridden : Option Override → AlloyTarget → Option AlloyTarget
unfolding override_target
overridden none t = some t
overridden (some o) t = if o.ignore then none else some (override_target o t)

unfoldable pub override_all : Assoc Override → List AlloyTarget → List AlloyTarget
unfolding overridden
override_all by_addr [] = []
override_all by_addr (t ∷ ts) =
    let addr = must_canon_ip t.address in
    let rest = override_all by_addr ts in
    elim (overridden (lookup addr by_addr) (record t { address = addr })) [
      | none ↦ rest
      | some t' ↦ t' ∷ rest
    ]

unfoldable pub apply_overrides : List AlloyTarget → List Override → List AlloyTarget
unfolding override_all overrides_by_addr
apply_overrides targets ov = override_all (overrides_by_addr [] ov) targets
