-- ===== src/Tests/Processes.antt =====
-- The process of the command on sample data: two ticks, the first of which finds no configuration.
use snmp_sd.Base.{
  refl, trim, ◌==◌, text_dec, ◌+◌, false, none, length, [], ◌∷◌, pos, codes, ok, err,
  config_or_cidrs,
}
use snmp_sd.Groups.{missing, load_run_config, merge_overrides_file}
use snmp_sd.Cli.Metrics.{CliMetrics}
use snmp_sd.Run.{run_scan, finish_scan, publish_catalog, outputs, alloy_outputs, write_all}
use snmp_sd.Cli.Loop.{
  Settings, Surroundings, Process, scan_once, run_process, scan_config, scan_locked, scanned,
  discover,
}
use snmp_sd.Catalog.{snapshot, snapshot_entries}
use snmp_sd.Cli.Metrics.Gauges.{Shows}
use snmp_sd.Cli.Loop.Shown.{scan_once_lem}
use snmp_sd.Cli.Loop.Ticks.{Advances, IsIdle, count, answered, run_process_lem}
use snmp_sd.Tests.{lab}
use snmp_sd.Tests.Catalogs.{params, network, load, plan_one, file, silent_walk, write_ok}

abbrev no_metrics : CliMetrics
no_metrics = record {
  scans = 0;
  failures = 0;
  skipped = 0;
  durations = [];
  scan_in_flight = 0;
  devices = [];
  targets = [];
  sweep = 0;
  ping_up = 0;
  ping_dead = 0;
  dropped = 0;
  dedupes = 0;
  stale = [];
  probes = [];
  probe_errors = [];
  in_flight = pos 0;
  probe_ok = 0;
  probe_errs = 0;
  first_auth = [];
  auth_fallback = [];
  auth_failures = 0;
  probe_retries = 0;
  fingerprint = [];
  mod_dropped = [];
  device_info = [];
}

abbrev start : Process
start = record { locked = false; metrics = no_metrics; catalog = lab }

abbrev settings : Settings
settings = record {
  config_path = codes "discovery.yml";
  cidrs = [];
  auths = [];
  port = 161;
  allow_large = false;
  default_fp = codes "network";
  overrides_path = [];
  listen = codes ":9780";
  interval = pos 60;
}

abbrev usual : Surroundings
usual = record {
  load_file = λ path. ok file;
  read_file = λ path. missing;
  unmarshal = λ text. ok file;
  load_groups = load;
  plan = plan_one;
  net = network;
  walk = silent_walk;
  write = write_ok;
  now = 9;
  took = 2;
  notices = [];
}

abbrev no_file : Surroundings
no_file = record usual { load_file = λ path. err config_or_cidrs }

run_process_lem_example :
    let r = run_process settings params none usual (no_file ∷ usual ∷ []) start in
    Advances start
      (1 + answered settings r.2 (no_file ∷ usual ∷ []))
      (count (scan_once settings params usual start).1 + length r.1)
      r.0
unfolding IsIdle
run_process_lem_example =
    run_process_lem settings params none usual (no_file ∷ usual ∷ []) start (refl, refl)

scan_once_lem_example :
    let r = scan_once settings params usual start in
    Shows (snapshot_entries r.0.catalog) (snapshot r.0.catalog).0 params.enabled_tiers r.0.metrics
unfolding scan_once scan_config load_run_config merge_overrides_file scan_locked scanned discover
    run_scan finish_scan publish_catalog outputs alloy_outputs write_all trim ◌==◌ text_dec
scan_once_lem_example = scan_once_lem settings params usual start refl refl
