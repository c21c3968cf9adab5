-- ===== src/Overrides/Apply.antt =====
-- What `applyOverrides` of snmpdiscovery/groups.go makes of the rows of a scan.
use snmp_sd.Base.{
  Text, ap, ◌∙◌, ◌≡◌, refl, Bool, not, Option, none, some, List, [], ◌∷◌, ◌==◌, ◌&&◌, ◌||◌,
  if◌then◌else◌, arith, trim, Assoc, lookup, insert, lookup-insert,
}
use snmp_sd.Target.{AlloyTarget}
use snmp_sd.Address.{must_canon_ip}
use snmp_sd.Fingerprint.{partition_legacy_modules}
use snmp_sd.Overrides.{
  Override, split_csv, join_modules, apply_module_override, pin_tiers, pin_legacy,
  overrides_by_addr, override_target, overridden, override_all, apply_overrides,
}

abbrev pub is_for : Text → Override → Bool
is_for a o = not (trim o.address == []) && must_canon_ip (trim o.address) == a

-- The last override for an address.
abbrev pub last_override : Text → List Override → Option Override
last_override a [] = none
last_override a (o ∷ ov) = elim (last_override a ov) [
  | some later ↦ some later
  | none ↦ if is_for a o then some o else none
]

lookup-overrides_by_addr :
    (a : Text) (ov : List Override) (m : Assoc Override)
    → lookup a (overrides_by_addr m ov)
      ≡ elim (last_override a ov) [ some o ↦ some o | none ↦ lookup a m ]
unfolding overrides_by_addr
lookup-overrides_by_addr a [] m = refl
lookup-overrides_by_addr a (o ∷ ov) m = ground (
  arith,
  lookup-overrides_by_addr a ov m,
  lookup-overrides_by_addr a ov (insert (must_canon_ip (trim o.address)) o m),
  lookup-insert (must_canon_ip (trim o.address)) a o m,
)

-- The text of an override, trimmed, or what was there if it is blank.
abbrev pub given : Text → Text → Text
given s old = if trim s == [] then old else trim s

abbrev pub names_a_tier : Override → Bool
names_a_tier o =
    not (trim o.module_hot == [])
    || not (trim o.module_cold == [])
    || not (trim o.module_topology == [])

-- The row under an override, which changes no other field.
abbrev pub row_under : Override → AlloyTarget → AlloyTarget
row_under o t =
    let parts = partition_legacy_modules (split_csv (trim o.module_legacy)) in
    record t {
      name = given o.name t.name;
      device_name = given o.name t.device_name;
      auth = given o.auth t.auth;
      module_hot =
          if names_a_tier o
          then given o.module_hot (given o.module_legacy t.module_hot)
          else if trim o.module_legacy == []
          then t.module_hot
          else join_modules parts.hot;
      module_cold =
          if names_a_tier o
          then given o.module_cold t.module_cold
          else if trim o.module_legacy == []
          then t.module_cold
          else join_modules parts.cold;
      module_topology =
          if names_a_tier o
          then given o.module_topology t.module_topology
          else if trim o.module_legacy == []
          then t.module_topology
          else join_modules parts.topology;
    }

override_target-row_under : (o : Override) (t : AlloyTarget) → override_target o t ≡ row_under o t
unfolding override_target apply_module_override pin_tiers pin_legacy
override_target-row_under o t = ground arith

-- The row under the override for its address, if there is one; `none` if that ignores it.
abbrev pub row_for : Option Override → AlloyTarget → Option AlloyTarget
row_for none t = some t
row_for (some o) t = if o.ignore then none else some (row_under o t)

overridden-row_for : (o : Option Override) (t : AlloyTarget) → overridden o t ≡ row_for o t
unfolding overridden
overridden-row_for none t = refl
overridden-row_for (some o) t =
    ap (λ u. if o.ignore then none else some u) (override_target-row_under o t)

abbrev pub rows_under : List Override → List AlloyTarget → List AlloyTarget
rows_under ov [] = []
rows_under ov (t ∷ ts) =
    let a = must_canon_ip t.address in
    let rest = rows_under ov ts in
    elim (row_for (last_override a ov) (record t { address = a })) [
      | none ↦ rest
      | some u ↦ u ∷ rest
    ]

override_all-rows_under :
    (by_addr : Assoc Override) (ov : List Override) (ts : List AlloyTarget)
    → ((k : Text) → lookup k by_addr ≡ last_override k ov)
    → override_all by_addr ts ≡ rows_under ov ts
unfolding override_all
override_all-rows_under by_addr ov [] h = refl
override_all-rows_under by_addr ov (t ∷ ts) h =
    let a = must_canon_ip t.address in
    let t0 : AlloyTarget = record t { address = a } in
    let rest = override_all-rows_under by_addr ov ts h in
    let row : overridden (lookup a by_addr) t0 ≡ row_for (last_override a ov) t0 =
      overridden-row_for (lookup a by_addr) t0 ∙ ap (λ o. row_for o t0) (h a) in
    let out = override_all by_addr ts in
    ap (λ (o : Option AlloyTarget). elim o [ none ↦ out | some u ↦ u ∷ out ]) row
    ∙ ap
        (λ (us : List AlloyTarget). elim (row_for (last_override a ov) t0) [
          | none ↦ us
          | some u ↦ u ∷ us
        ])
        rest

lookup-last_override :
    (ov : List Override) (k : Text) → lookup k (overrides_by_addr [] ov) ≡ last_override k ov
unfolding lookup
lookup-last_override ov k = by_last (last_override k ov) (lookup-overrides_by_addr k ov [])
  where
    by_last :
        (o : Option Override)
        → lookup k (overrides_by_addr [] ov) ≡ elim o [ some x ↦ some x | none ↦ none ]
        → lookup k (overrides_by_addr [] ov) ≡ o
    by_last none e = e
    by_last (some x) e = e

-- `applyOverrides` returns the rows in their order, each under its canonical address. The last override
-- for this address decides: without one nothing else of the row changes, one that ignores removes the
-- row, and any other sets the names, the auth and the modules for which it gives a text that is not
-- blank, and no other field.
pub apply_overrides_lem :
    (ts : List AlloyTarget) (ov : List Override) → apply_overrides ts ov ≡ rows_under ov ts
unfolding apply_overrides
apply_overrides_lem ts ov =
    override_all-rows_under (overrides_by_addr [] ov) ov ts (lookup-last_override ov)
