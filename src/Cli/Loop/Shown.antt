-- ===== src/Cli/Loop/Shown.antt =====
-- What the gauges of the process show after a scan.
use snmp_sd.Base.{◌≡◌, ℕ, false, none, Result, ok, err, ◌>>=◌}
use snmp_sd.Catalog.{Catalog, snapshot, snapshot_entries}
use snmp_sd.Groups.{DiscoveryFile}
use snmp_sd.Worker.{ScanParams}
use snmp_sd.Run.{ScanStats, run_scan}
use snmp_sd.Cli.Metrics.{CliMetrics}
use snmp_sd.Cli.Metrics.Gauges.{Shows, observe_scan-Shows}
use snmp_sd.Cli.Loop.{
  Settings, Surroundings, Process, observe, discover, in_flight_set, scan_config, scanned,
  scan_locked, scan_once,
}

ShowsCatalog : ScanParams → CliMetrics → Catalog → Type 0
ShowsCatalog p m c = Shows (snapshot_entries c) (snapshot c).0 p.enabled_tiers m

scanned-Shows :
    (p : ScanParams) (took : ℕ) (c : Catalog) (m : CliMetrics) (result : Result ScanStats)
    → let r = scanned p took c m (result >>= λ stats. ok ((snapshot c).0, stats)) in
      r.1 ≡ none → ShowsCatalog p r.0.0 r.0.1
unfolding scanned ShowsCatalog
scanned-Shows p took c m (err e) h = cc
scanned-Shows p took c m (ok stats) h =
    observe_scan-Shows stats took (snapshot c).0 (snapshot_entries c) p.enabled_tiers m

scan_locked-Shows :
    (p : ScanParams) (o : Surroundings) (cfg : Result DiscoveryFile) (m : CliMetrics) (c : Catalog)
    → let r = scan_locked p o cfg m c in r.1 ≡ none → ShowsCatalog p r.0.0 r.0.1
unfolding scan_locked discover
scan_locked-Shows p o (err e) m c h = cc
scan_locked-Shows p o (ok cfg) m c h =
    let r = run_scan o.net o.write o.walk p cfg o.load_groups o.plan o.now c in
    scanned-Shows p o.took r.0 (observe o.notices m) r.1 h

-- After a scan without an error the gauges agree with the catalog that it left: for each group the
-- number of its devices and of those that the scan missed, and for each tier that is published the
-- number of rows that the catalog has for it, 0 for any other tier.
pub scan_once_lem :
    (f : Settings) (p : ScanParams) (o : Surroundings) (s : Process)
    → s.locked ≡ false
    → let r = scan_once f p o s in
      r.1 ≡ none
      → Shows (snapshot_entries r.0.catalog) (snapshot r.0.catalog).0 p.enabled_tiers r.0.metrics
unfolding scan_once in_flight_set Shows ShowsCatalog
scan_once_lem f p o s free =
    rw free (scan_locked-Shows p o (scan_config f o) (in_flight_set 1 s.metrics) s.catalog)
