-- ===== src/Run/Fresh.antt =====
-- A run without a catalog: snmpdiscovery/scan.go (RunScan and publishCatalog with a nil Catalog). Nothing
-- is merged or dropped, and no state is written.
use snmp_sd.Base.{ℕ, Text, List, [], ◌∷◌, ◌++◌, ◌==◌, Result, ok, ◌>>=◌, if◌then◌else◌, length}
use snmp_sd.Target.{AlloyTarget}
use snmp_sd.Auth.{SnmpAuth}
use snmp_sd.Tiers.{all_tiers, targets_for_tiers}
use snmp_sd.Groups.{DiscoveryGroup, DiscoveryFile}
use snmp_sd.Overrides.{Override}
use snmp_sd.Worker.{Network, ScanParams, add, probe_all}
use snmp_sd.Scan.{GroupRuntime, Plan}
use snmp_sd.Scan.Crawl.{plan_crawl_jobs}
use snmp_sd.Run.{Output, file_sd, ScanStats, alloy_outputs, write_all, settle_found}

unfoldable pub fresh_outputs : ScanParams → List AlloyTarget → List Output
unfolding alloy_outputs targets_for_tiers ◌==◌
fresh_outputs p rows =
    (if p.out_alloy == [] then [] else alloy_outputs p rows all_tiers)
    ++ (if p.out_sd == []
        then []
        else file_sd p.out_sd (targets_for_tiers rows p.enabled_tiers) ∷ [])

module _ (net : Network) (write : Output → Result (Unit {0}))
    (walk : Text → ℕ → List SnmpAuth → List Text) where
  unfoldable pub finish_fresh_scan :
      ScanParams → List Override → List GroupRuntime → Plan → Result ScanStats
  unfolding probe_all plan_crawl_jobs settle_found write_all fresh_outputs add
  finish_fresh_scan p overrides rts plan =
      let swept = probe_all net p plan.jobs in
      let crawled = probe_all net p (plan_crawl_jobs walk rts [] swept.0 plan.claimed).0 in
      let settled = settle_found p overrides (swept.0 ++ crawled.0) in
      write_all write (fresh_outputs p settled.0) >>= λ _. ok (record {
        sweep = plan.sweep;
        ping_up = plan.ping_up;
        found = length settled.0;
        catalog = length settled.0;
        dropped = 0;
        dedupes = length settled.1;
        probes = add swept.1 crawled.1;
        stale = 0;
        added = 0;
      })

  -- `load` is `loadGroupRuntimes` for the file's groups, `plan` the planner without known rows.
  unfoldable pub run_fresh_scan :
      ScanParams
      → DiscoveryFile
      → (List DiscoveryGroup → Result (List GroupRuntime))
      → (List GroupRuntime → List AlloyTarget → Result Plan)
      → Result ScanStats
  unfolding finish_fresh_scan
  run_fresh_scan p cfg load plan =
      load cfg.groups >>= λ rts. plan rts [] >>= λ jobs. finish_fresh_scan p cfg.overrides rts jobs
