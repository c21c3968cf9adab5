-- ===== src/Run.antt =====
-- One discovery run with a catalog: the settling half of snmpdiscovery/scan.go; Fresh is the run without.
pub mod Settle
pub mod Fresh
use snmp_sd.Base.Error.{Error}
use snmp_sd.Base.{
  ℕ, zero, suc, ◌+◌, Text, codes, Bool, true, false, not, Option, none, some, List, [], ◌∷◌, ◌++◌,
  ◌==◌, ◌&&◌, ◌||◌, ℤ, Result, ok, err, ◌>>=◌, ◌>>◌, ltb, eqb, if◌then◌else◌, map, length, keep,
  contains, unique_by, text_leb, Assoc,
}
use snmp_sd.Target.{AlloyTarget}
use snmp_sd.Address.{must_canon_ip}
use snmp_sd.Auth.{SnmpAuth}
use snmp_sd.Probe.{ProbeDetail, ProbeResult, Reply, probe}
use snmp_sd.Fingerprint.{
  Fingerprint, known, unknown, Fingerprinter, match_tiers_result, filter_tiers_to_known,
}
use snmp_sd.Tiers.{all_tiers, hot, tier_enabled, tier_targets, targets_for_tiers}
use snmp_sd.Catalog.{Catalog, CatalogEntry, snapshot, snapshot_entries, merge_found, drop_addresses}
use snmp_sd.Groups.{DiscoveryGroup, DiscoveryFile}
use snmp_sd.Overrides.{Override, ignored_addresses, apply_overrides, join_modules}
use snmp_sd.Emit.{target_names, uniquify_names}
use snmp_sd.Identity.{collapse_same_hostname}
use snmp_sd.Worker.{Network, ScanParams, ProbeBatchStats, add, probe_all}
use snmp_sd.Scan.{
  GroupRuntime, ProbeJob, Plan, plan_initial_jobs, dedupe_targets, tier_sibling_path,
}
use snmp_sd.Scan.Crawl.{plan_crawl_jobs}

-- `sort.Slice` by address
unfoldable pub insert_target : AlloyTarget → List AlloyTarget → List AlloyTarget
insert_target t [] = t ∷ []
insert_target t (u ∷ us) =
    if text_leb t.address u.address then t ∷ u ∷ us else u ∷ insert_target t us

unfoldable pub sort_targets : List AlloyTarget → List AlloyTarget
unfolding insert_target
sort_targets [] = []
sort_targets (t ∷ ts) = insert_target t (sort_targets ts)

-- The rows of a scan before they meet the catalog, and the addresses folded into others.
unfoldable pub settle_found :
    ScanParams → List Override → List AlloyTarget → List AlloyTarget × List Text
unfolding sort_targets
settle_found p overrides found =
    let collapsed =
      collapse_same_hostname (dedupe_targets (apply_overrides found overrides))
        p.allow_duplicate_sys_name in
    (sort_targets (uniquify_names collapsed.0), collapsed.1)

-- The merge with the catalog: `now` is the time of the merge.
unfoldable pub settle_catalog :
    ScanParams → List Override → List AlloyTarget → List Text → ℕ → Catalog → Catalog
settle_catalog p overrides found collapsed now c =
    let merged = (merge_found found now now p.misses c).0 in
    let single = (drop_addresses collapsed merged).0 in
    (drop_addresses (ignored_addresses overrides) single).0

-- The rows to publish.
unfoldable pub published : Catalog → List AlloyTarget
unfolding sort_targets
published c = uniquify_names (sort_targets (snapshot c).0)

pub record ScanStats : Type 0 where
  pub sweep : ℕ
  pub ping_up : ℕ
  pub found : ℕ
  pub catalog : ℕ
  pub dropped : ℕ
  pub dedupes : ℕ
  pub probes : ProbeBatchStats
  pub stale : ℕ
  pub added : ℕ

abbrev pub addresses : List CatalogEntry → List Text
addresses = map (λ e. e.target.address)

-- The addresses of the first entries that the second lack.
abbrev pub lacking : List Text → List CatalogEntry → ℕ
lacking addrs others = length (keep (λ a. not (contains a (addresses others))) addrs)

-- What is written: a list of rows for Alloy, the groups of the rows for Prometheus, the catalog.
pub data Output : Type 0 where
  alloy_yaml file_sd : Text → List AlloyTarget → Output
  catalog_state : Text → Catalog → Output

unfoldable pub alloy_outputs : ScanParams → List AlloyTarget → List Text → List Output
alloy_outputs p rows [] = []
alloy_outputs p rows (tier ∷ tiers) =
    let enabled : List Text = elim p.enabled_tiers [ [] ↦ all_tiers | t ∷ ts ↦ t ∷ ts ] in
    alloy_yaml
      (if tier == hot then p.out_alloy else tier_sibling_path p.out_alloy (codes "-" ++ tier))
      (if tier_enabled enabled tier then tier_targets rows tier else [])
    ∷ alloy_outputs p rows tiers

unfoldable pub outputs : ScanParams → Catalog → List AlloyTarget → List Output
unfolding alloy_outputs
outputs p c rows =
    (if p.out_alloy == [] then [] else alloy_outputs p rows all_tiers)
    ++ ((if p.out_sd == []
          then []
          else file_sd p.out_sd (targets_for_tiers rows p.enabled_tiers) ∷ [])
        ++ (if p.state_path == [] then [] else catalog_state p.state_path c ∷ []))

-- `write` is what writes one file; the first failure ends the publication.
unfoldable pub write_all : (Output → Result (Unit {0})) → List Output → Result (Unit {0})
write_all write [] = ok tt
write_all write (o ∷ os) = write o >> write_all write os

unfoldable pub publish_catalog :
    (Output → Result (Unit {0})) → ScanParams → Catalog → List AlloyTarget → Result (Unit {0})
unfolding outputs write_all
publish_catalog write p c rows = write_all write (outputs p c rows)

-- What the run does once its jobs are planned.
unfoldable pub finish_scan :
    Network
    → (Output → Result (Unit {0}))
    → (Text → ℕ → List SnmpAuth → List Text)
    → ScanParams
    → List Override
    → ℕ
    → List GroupRuntime
    → Plan
    → Catalog
    → Catalog × Result ScanStats
unfolding probe_all settle_found settle_catalog published publish_catalog add
finish_scan net write walk p overrides now rts plan c =
    let prev = (snapshot c).0 in
    let swept = probe_all net p plan.jobs in
    let crawled = probe_all net p (plan_crawl_jobs walk rts prev swept.0 plan.claimed).0 in
    let settled = settle_found p overrides (swept.0 ++ crawled.0) in
    let after = settle_catalog p overrides settled.0 settled.1 now c in
    let rows = published after in
    (
      after,
      publish_catalog write p after rows >>= λ _. ok (record {
        sweep = plan.sweep;
        ping_up = plan.ping_up;
        found = length settled.0;
        catalog = length rows;
        dropped = lacking (unique_by (λ a. a) [] (addresses c.entries)) after.entries;
        dedupes = length settled.1;
        probes = add swept.1 crawled.1;
        stale = length (keep (λ e. ltb 0 e.misses) after.entries);
        added = lacking (addresses after.entries) c.entries;
      }),
    )

-- `load` is `loadGroupRuntimes` for the file's groups, `plan` the planner for the catalog's rows.
unfoldable pub run_scan :
    Network
    → (Output → Result (Unit {0}))
    → (Text → ℕ → List SnmpAuth → List Text)
    → ScanParams
    → DiscoveryFile
    → (List DiscoveryGroup → Result (List GroupRuntime))
    → (List GroupRuntime → List AlloyTarget → Result Plan)
    → ℕ
    → Catalog
    → Catalog × Result ScanStats
unfolding finish_scan
run_scan net write walk p cfg load plan now c = elim (load cfg.groups) [
  | err e ↦ (c, err e)
  | ok rts ↦ elim (plan rts (snapshot c).0) [
    | err e ↦ (c, err e)
    | ok jobs ↦ finish_scan net write walk p cfg.overrides now rts jobs c
  ]
]
