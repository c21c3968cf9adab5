-- ===== src/Cli/Loop.antt =====
-- The process of cmd/snmp-discovery/main.go (run): one scan at a time under the lock, and the loop that
-- scans again at every tick; Discover of snmpdiscovery/discover.go. The listener serves the catalog
-- beside the loop (Http); whether its port could be had is a parameter, and of the log only the errors of scans are kept.
pub mod Ticks
pub mod Shown
use snmp_sd.Base.Error.{Error}
use snmp_sd.Base.{
  ℕ, zero, suc, ◌+◌, Text, codes, Bool, true, false, ◌&&◌, not, Option, none, some, List, [], ◌∷◌,
  ◌++◌, ◌==◌, Result, ok, err, ◌>>=◌, if◌then◌else◌, ℤ, pos, negsuc, trim, in_command,
}
use snmp_sd.Target.{AlloyTarget}
use snmp_sd.Auth.{SnmpAuth}
use snmp_sd.Catalog.{Catalog, CatalogEntry, snapshot, snapshot_entries, replace, load_entries}
use snmp_sd.Groups.{DiscoveryGroup, DiscoveryFile, FileRead, load_run_config, merge_overrides_file}
use snmp_sd.Worker.{Network, ScanParams}
use snmp_sd.Scan.{GroupRuntime, Plan}
use snmp_sd.Run.{ScanStats, Output, run_scan}
use snmp_sd.Probe.{ProbeDetail}
use snmp_sd.Cli.Metrics.{
  CliMetrics, DeviceFoundDetail, probe_begin, probe_end, device_found, observe_scan,
}

pub record Settings : Type 0 where
  pub config_path : Text
  pub cidrs : Text
  pub auths : Text
  pub port : ℕ
  pub allow_large : Bool
  pub default_fp : Text
  pub overrides_path : Text
  pub listen : Text
  pub interval : ℤ

-- A call of the observer.
pub data Notice : Type 0 where
  begun : Notice
  ended : ProbeDetail → Notice
  found : DeviceFoundDetail → Notice

unfoldable pub observe : List Notice → CliMetrics → CliMetrics
unfolding probe_begin probe_end device_found
observe [] m = m
observe (begun ∷ notices) m = observe notices (probe_begin m)
observe (ended d ∷ notices) m = observe notices (probe_end d m)
observe (found d ∷ notices) m = observe notices (device_found d m)

-- What the files and the network answer during one scan, when it starts and how long it takes, and
-- the calls of the observer that the scan makes.
pub record Surroundings : Type 0 where
  pub load_file : Text → Result DiscoveryFile
  pub read_file : Text → FileRead
  pub unmarshal : Text → Result DiscoveryFile
  pub load_groups : List DiscoveryGroup → Result (List GroupRuntime)
  pub plan : List GroupRuntime → List AlloyTarget → Result Plan
  pub net : Network
  pub walk : Text → ℕ → List SnmpAuth → List Text
  pub write : Output → Result (Unit {0})
  pub now : ℕ
  pub took : ℕ
  pub notices : List Notice

pub record Process : Type 0 where
  pub locked : Bool
  pub metrics : CliMetrics
  pub catalog : Catalog

unfoldable pub out_yaml : Text → Text → Text
unfolding trim ◌==◌
out_yaml catalog alloy = if trim alloy == [] then trim catalog else trim alloy

unfoldable pub state_file : Text → Text → Text
unfolding trim ◌==◌
state_file path yaml =
    if trim path == [] && not (yaml == []) then yaml ++ codes ".state.json" else trim path

-- The catalog before the first scan, from what the state and the device list hold.
unfoldable pub first_catalog :
    Result (List CatalogEntry) → Result (List AlloyTarget) → ℕ → Catalog → Catalog
unfolding load_entries replace
first_catalog (ok (e ∷ entries)) _ now c = load_entries (e ∷ entries) now c
first_catalog _ (ok (t ∷ rows)) now c = replace (t ∷ rows) now c
first_catalog _ _ now c = c

-- `Discover` with the catalog of the parameters.
unfoldable pub discover :
    ScanParams
    → Surroundings
    → DiscoveryFile
    → Catalog
    → Catalog × Result (List AlloyTarget × ScanStats)
unfolding run_scan
discover p o cfg c =
    let r = run_scan o.net o.write o.walk p cfg o.load_groups o.plan o.now c in
    (r.0, r.1 >>= λ stats. ok ((snapshot r.0).0, stats))

unfoldable pub count_failure : CliMetrics → CliMetrics
count_failure m = record m { scans = m.scans + 1; failures = m.failures + 1 }

unfoldable pub scan_config : Settings → Surroundings → Result DiscoveryFile
unfolding load_run_config merge_overrides_file
scan_config f o =
    load_run_config o.load_file f.config_path f.cidrs f.auths f.port f.allow_large f.default_fp
    >>= λ cfg. merge_overrides_file o.read_file o.unmarshal cfg f.overrides_path

unfoldable pub scanned :
    ScanParams
    → ℕ
    → Catalog
    → CliMetrics
    → Result (List AlloyTarget × ScanStats)
    → (CliMetrics × Catalog) × Option Error
unfolding count_failure observe_scan snapshot_entries
scanned p took c m (err e) = ((count_failure m, c), some e)
scanned p took c m (ok (rows, stats)) =
    ((observe_scan stats took rows (some (snapshot_entries c)) p.enabled_tiers m, c), none)

-- What one scan does while it holds the lock.
unfoldable pub scan_locked :
    ScanParams
    → Surroundings
    → Result DiscoveryFile
    → CliMetrics
    → Catalog
    → (CliMetrics × Catalog) × Option Error
unfolding discover observe count_failure scanned
scan_locked p o (err e) m c = ((count_failure m, c), some e)
scan_locked p o (ok cfg) m c =
    let r = discover p o cfg c in scanned p o.took r.0 (observe o.notices m) r.1

unfoldable pub in_flight_set : ℕ → CliMetrics → CliMetrics
in_flight_set n m = record m { scan_in_flight = n }

unfoldable pub scan_once : Settings → ScanParams → Surroundings → Process → Process × Option Error
unfolding scan_config scan_locked in_flight_set
scan_once f p o s =
    if s.locked
    then (record s { metrics = record s.metrics { skipped = s.metrics.skipped + 1 } }, none)
    else let r = scan_locked p o (scan_config f o) (in_flight_set 1 s.metrics) s.catalog in
      (record { locked = false; metrics = in_flight_set 0 r.0.0; catalog = r.0.1 }, r.1)

add_error : Option Error → List Error → List Error
add_error none logged = logged
add_error (some e) logged = e ∷ logged

-- One scan for each tick until the signal; an error is logged, and the loop goes on.
unfoldable pub run_ticks :
    Settings → ScanParams → List Surroundings → Process → Process × List Error
unfolding scan_once add_error
run_ticks f p [] s = (s, [])
run_ticks f p (o ∷ ticks) s =
    let r = scan_once f p o s in
    let rest = run_ticks f p ticks r.0 in (rest.0, add_error r.1 rest.1)

unfoldable pub is_periodic : ℤ → Bool
is_periodic (pos zero) = false
is_periodic (pos (suc n)) = true
is_periodic (negsuc n) = false

unfoldable pub listen_error : Settings → Option Error → Option Error
unfolding trim ◌==◌
listen_error f none = none
listen_error f (some e) =
    if trim f.listen == [] then none else some (in_command (codes "listen " ++ trim f.listen) e)

unfoldable pub run_loop : Settings → ScanParams → List Surroundings → Process → Process × List Error
unfolding run_ticks is_periodic
run_loop f p ticks s = if is_periodic f.interval then run_ticks f p ticks s else (s, [])

-- After the first scan, by its error and that of the listener.
unfoldable pub after_first :
    Settings
    → ScanParams
    → List Surroundings
    → Process
    → Option Error
    → Option Error
    → Process × List Error × Option Error
unfolding run_loop
after_first f p ticks s (some e) _ = (s, [], some e)
after_first f p ticks s none (some e) = (s, [], some e)
after_first f p ticks s none none = (let r = run_loop f p ticks s in (r.0, r.1, none))

-- The first scan, the listener, the loop: what is left, what was logged and the error that ends the
-- process. `bound` is the error of `net.Listen`.
unfoldable pub run_process :
    Settings
    → ScanParams
    → Option Error
    → Surroundings
    → List Surroundings
    → Process
    → Process × List Error × Option Error
unfolding scan_once after_first listen_error
run_process f p bound first ticks s =
    let r = scan_once f p first s in after_first f p ticks r.0 r.1 (listen_error f bound)
