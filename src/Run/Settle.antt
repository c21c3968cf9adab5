-- ===== src/Run/Settle.antt =====
-- What a run of snmpdiscovery/scan.go leaves in the catalog.
use snmp_sd.Base.{
  All, eq_iff, ℕ, Text, ◌≡◌, refl, true, false, none, List, [], ◌∷◌, ◌||◌, Result, ok, err, ◌>>=◌,
  if◌then◌else◌, arith, map, contains, Distinct,
}
use snmp_sd.Target.{AlloyTarget}
use snmp_sd.Auth.{SnmpAuth}
use snmp_sd.Catalog.{
  Catalog, CatalogEntry, address_of, snapshot, merge_found, drop_addresses, drop_set,
  entries_without,
}
use snmp_sd.Catalog.Merge.{
  entry_at, target_at, merged, merge_time, entry_at-merge_found, merge_found-Distinct,
}
use snmp_sd.Catalog.Sticky.{entry_at-drop_addresses}
use snmp_sd.Groups.{DiscoveryGroup, DiscoveryFile}
use snmp_sd.Overrides.{Override, ignored_addresses}
use snmp_sd.Scan.{GroupRuntime, Plan}
use snmp_sd.Worker.{Network, ScanParams}
use snmp_sd.Run.{ScanStats, Output, settle_catalog, finish_scan, run_scan}

-- After the catalog is settled an address has no entry if it was folded into another or if an override
-- ignores it, and otherwise what the merge makes of the row found and of the entry before.
pub settle_catalog_lem :
    (a : Text) (p : ScanParams) (overrides : List Override) (found : List AlloyTarget)
    (collapsed : List Text) (now : ℕ) (c : Catalog)
    → entry_at a (settle_catalog p overrides found collapsed now c).entries ≡ (
        if contains a (drop_set (ignored_addresses overrides)) || contains a (drop_set collapsed)
        then none
        else merged p.misses (merge_time now now) (target_at a found) (entry_at a c.entries))
unfolding settle_catalog
settle_catalog_lem a p overrides found collapsed now c =
    let m = (merge_found found now now p.misses c).0 in
    let single = (drop_addresses collapsed m).0 in
    let dropped = entry_at-drop_addresses a (ignored_addresses overrides) single in
    let folded = entry_at-drop_addresses a collapsed m in
    let here = entry_at-merge_found a found now now p.misses c in
    rw (dropped, folded, here) (ground arith)

contains-entries_without :
    (a : Text) (dropped : List Text) (es : List CatalogEntry)
    → contains a (map address_of es) ≡ false
    → contains a (map address_of (entries_without dropped es)) ≡ false
contains-entries_without a dropped [] h = refl
contains-entries_without a dropped (e ∷ es) h =
    ground (arith, contains-entries_without a dropped es)

entries_without-Distinct :
    (dropped : List Text) (es : List CatalogEntry)
    → Distinct (map address_of es)
    → Distinct (map address_of (entries_without dropped es))
entries_without-Distinct dropped [] h = tt
entries_without-Distinct dropped (e ∷ es) (n, h) = ground (
  arith,
  entries_without-Distinct dropped es h,
  contains-entries_without (address_of e) dropped es n,
)

drop_addresses-Distinct :
    (addrs : List Text) (c : Catalog)
    → Distinct (map address_of c.entries)
    → Distinct (map address_of (drop_addresses addrs c).0.entries)
unfolding drop_addresses
drop_addresses-Distinct [] c h = h
drop_addresses-Distinct (a ∷ addrs) c h =
    entries_without-Distinct (drop_set (a ∷ addrs)) c.entries h

settle_catalog-Distinct :
    (p : ScanParams) (overrides : List Override) (found : List AlloyTarget) (collapsed : List Text)
    (now : ℕ) (c : Catalog)
    → Distinct (map address_of (settle_catalog p overrides found collapsed now c).entries)
unfolding settle_catalog
settle_catalog-Distinct p overrides found collapsed now c =
    let m = (merge_found found now now p.misses c).0 in
    drop_addresses-Distinct (ignored_addresses overrides) (drop_addresses collapsed m).0
      (drop_addresses-Distinct collapsed m (merge_found-Distinct found now now p.misses c))

-- No two entries have one address, and no address that an override ignores has an entry.
abbrev pub IsSettled : DiscoveryFile → Catalog → Type 0
IsSettled cfg c =
    Distinct (map address_of c.entries)
    × All (λ a. entry_at a c.entries ≡ none) (drop_set (ignored_addresses cfg.overrides))

All-contains :
    {P : Text → Type 0} (xs : List Text) → ((a : Text) → contains a xs ≡ true → P a) → All P xs
All-contains [] h = tt
All-contains (x ∷ xs) h =
    (h x (ground (arith, eq_iff x x)), All-contains xs (λ a e. h a (ground arith)))

settle_catalog-IsSettled :
    (p : ScanParams) (cfg : DiscoveryFile) (found : List AlloyTarget) (collapsed : List Text)
    (now : ℕ) (c : Catalog)
    → IsSettled cfg (settle_catalog p cfg.overrides found collapsed now c)
settle_catalog-IsSettled p cfg found collapsed now c = (
  settle_catalog-Distinct p cfg.overrides found collapsed now c,
  All-contains (drop_set (ignored_addresses cfg.overrides))
      (λ a e. ground (arith, settle_catalog_lem a p cfg.overrides found collapsed now c)),
)

-- What a run may leave, by what its plan came to.
abbrev pub IsRun : DiscoveryFile → Catalog → Result Plan → Catalog × Result ScanStats → Type 0
IsRun cfg c (err e) (c', r) = (c' ≡ c) × (r ≡ err e)
IsRun cfg c (ok plan) (c', r) = IsSettled cfg c'

module _ (net : Network) (write : Output → Result (Unit {0}))
    (walk : Text → ℕ → List SnmpAuth → List Text) where
  finish_scan-IsSettled :
      (p : ScanParams) (cfg : DiscoveryFile) (now : ℕ) (rts : List GroupRuntime) (plan : Plan)
      (c : Catalog)
      → IsSettled cfg (finish_scan net write walk p cfg.overrides now rts plan c).0
  unfolding finish_scan
  finish_scan-IsSettled p cfg now rts plan c = settle_catalog-IsSettled p cfg _ _ now c

  -- A run that fails before its first probe returns that error and leaves the catalog as it was. Any
  -- other run, whether its files could be written or not, leaves a catalog in which no two entries
  -- have one address and no address that an override ignores has an entry.
  pub run_scan_lem :
      (p : ScanParams) (cfg : DiscoveryFile)
      (load : List DiscoveryGroup → Result (List GroupRuntime))
      (plan : List GroupRuntime → List AlloyTarget → Result Plan) (now : ℕ) (c : Catalog)
      → IsRun cfg c
          (load cfg.groups >>= λ rts. plan rts (snapshot c).0)
          (run_scan net write walk p cfg load plan now c)
  unfolding run_scan
  run_scan_lem p cfg load plan now c = by_load (load cfg.groups)
    where
      by_plan :
          (rts : List GroupRuntime) (planned : Result Plan)
          → IsRun cfg c planned (elim planned [
            | err e ↦ (c, err e)
            | ok jobs ↦ finish_scan net write walk p cfg.overrides now rts jobs c
          ])
      by_plan rts (err e) = (refl, refl)
      by_plan rts (ok jobs) = finish_scan-IsSettled p cfg now rts jobs c

      by_load :
          (loaded : Result (List GroupRuntime))
          → IsRun cfg c (loaded >>= λ rts. plan rts (snapshot c).0) (elim loaded [
            | err e ↦ (c, err e)
            | ok rts ↦ elim (plan rts (snapshot c).0) [
              | err e ↦ (c, err e)
              | ok jobs ↦ finish_scan net write walk p cfg.overrides now rts jobs c
            ]
          ])
      by_load (err e) = (refl, refl)
      by_load (ok rts) = by_plan rts (plan rts (snapshot c).0)
