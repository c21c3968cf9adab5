-- ===== src/Cli/Metrics.antt =====
-- The metrics of the command: cmd/snmp-discovery/metrics.go. A vector maps the values of its labels to a
-- number; gauges that only take counts are natural numbers, the one that is counted up and down an
-- integer. Names, help texts and registration are left out.
pub mod Counters
pub mod Gauges
use snmp_sd.Base.{
  ℕ, zero, suc, ◌+◌, ◌-◌, Text, codes, Bool, true, false, ◌&&◌, ◌||◌, Option, none, some, List, [],
  ◌∷◌, ◌++◌, ◌==◌, ltb, if◌then◌else◌, length, ℤ, pos, negsuc,
}
use snmp_sd.Target.{AlloyTarget}
use snmp_sd.Catalog.{CatalogEntry}
use snmp_sd.Tiers.{all_tiers, tier_targets}
use snmp_sd.Probe.{ProbeDetail, reason_ok, reason_other}
use snmp_sd.Run.{ScanStats}

abbrev pub Vec : Type 0
Vec = List (List Text × ℕ)

same_labels : List Text → List Text → Bool
unfolding ◌==◌
same_labels [] [] = true
same_labels (a ∷ more) (b ∷ others) = a == b && same_labels more others
same_labels _ _ = false

-- `WithLabelValues(labels...).Add(n)`, and `Set(n)`
unfoldable pub add_to : List Text → ℕ → Vec → Vec
unfolding same_labels
add_to labels n [] = (labels, n) ∷ []
add_to labels n ((ls, m) ∷ vec) =
    if same_labels ls labels then (ls, m + n) ∷ vec else (ls, m) ∷ add_to labels n vec

unfoldable pub set_to : List Text → ℕ → Vec → Vec
unfolding same_labels
set_to labels n [] = (labels, n) ∷ []
set_to labels n ((ls, m) ∷ vec) =
    if same_labels ls labels then (ls, n) ∷ vec else (ls, m) ∷ set_to labels n vec

pub record CliMetrics : Type 0 where
  pub scans : ℕ
  pub failures : ℕ
  pub skipped : ℕ
  pub durations : List ℕ
  pub scan_in_flight : ℕ
  pub devices : Vec
  pub targets : Vec
  pub sweep : ℕ
  pub ping_up : ℕ
  pub ping_dead : ℕ
  pub dropped : ℕ
  pub dedupes : ℕ
  pub stale : Vec
  pub probes : Vec
  pub probe_errors : Vec
  pub in_flight : ℤ
  pub probe_ok : ℕ
  pub probe_errs : ℕ
  pub first_auth : Vec
  pub auth_fallback : Vec
  pub auth_failures : ℕ
  pub probe_retries : ℕ
  pub fingerprint : Vec
  pub mod_dropped : Vec
  pub device_info : Vec

unfoldable pub label_or_unknown : Text → Text
unfolding ◌==◌
label_or_unknown s = if s == [] then codes "unknown" else s

unfoldable pub up_one : ℤ → ℤ
up_one (pos n) = pos (suc n)
up_one (negsuc zero) = pos 0
up_one (negsuc (suc n)) = negsuc n

unfoldable pub down_one : ℤ → ℤ
down_one (pos zero) = negsuc 0
down_one (pos (suc n)) = pos n
down_one (negsuc n) = negsuc (suc n)

unfoldable pub probe_begin : CliMetrics → CliMetrics
unfolding up_one
probe_begin m = record m { in_flight = up_one m.in_flight }

error_reason : Text → Text
unfolding ◌==◌
error_reason reason = if reason == [] || reason == reason_ok then reason_other else reason

probe_outcome : ProbeDetail → CliMetrics → CliMetrics
unfolding label_or_unknown add_to error_reason
probe_outcome d m =
    let group = label_or_unknown d.group in
    if d.success
    then if d.first_auth
      then record m {
        probes = add_to (codes "success" ∷ group ∷ []) 1 m.probes;
        first_auth = add_to (group ∷ []) 1 m.first_auth;
      }
      else record m {
        probes = add_to (codes "success" ∷ group ∷ []) 1 m.probes;
        auth_fallback = add_to (group ∷ label_or_unknown d.auth ∷ []) 1 m.auth_fallback;
      }
    else record m {
      probes = add_to (codes "error" ∷ group ∷ []) 1 m.probes;
      probe_errors = add_to (error_reason d.reason ∷ group ∷ []) 1 m.probe_errors;
    }

-- Adding nothing is no change.
unfoldable pub probe_end : ProbeDetail → CliMetrics → CliMetrics
unfolding down_one probe_outcome
probe_end d m =
    let out = probe_outcome d (record m { in_flight = down_one m.in_flight }) in
    record out {
      auth_failures = out.auth_failures + d.auth_fails;
      probe_retries = out.probe_retries + d.retries;
    }

-- `DeviceFoundDetail`, as far as the metrics read it.
pub record DeviceFoundDetail : Type 0 where
  pub group : Text
  pub fingerprint : Text
  pub dropped_modules : List Text

unfoldable pub device_found : DeviceFoundDetail → CliMetrics → CliMetrics
unfolding label_or_unknown add_to ◌==◌
device_found d m =
    let group = label_or_unknown d.group in
    let result = if d.fingerprint == [] then codes "unknown" else d.fingerprint in
    let n = length d.dropped_modules in
    record m {
      fingerprint = add_to (result ∷ group ∷ []) 1 m.fingerprint;
      mod_dropped = if ltb 0 n then add_to (group ∷ []) n m.mod_dropped else m.mod_dropped;
    }

abbrev pub group_of : CatalogEntry → Text
group_of e = label_or_unknown e.target.snmp_group

device_labels : CatalogEntry → List Text
unfolding label_or_unknown
device_labels e =
    e.target.address
    ∷ e.target.device_name
    ∷ e.target.sys_object_id
    ∷ group_of e
    ∷ label_or_unknown e.target.auth
    ∷ []

count_stale : CatalogEntry → Vec → Vec
unfolding add_to
count_stale e stale = if ltb 0 e.misses then add_to (group_of e ∷ []) 1 stale else stale

-- The vectors of the catalog's entries: devices and stale ones by group, and one for each device.
count_entries : List CatalogEntry → Vec × Vec × Vec → Vec × Vec × Vec
unfolding add_to set_to count_stale device_labels
count_entries [] vecs = vecs
count_entries (e ∷ entries) (devices, stale, info) =
    count_entries entries
      (add_to (group_of e ∷ []) 1 devices, count_stale e stale, set_to (device_labels e) 1 info)

count_rows : List AlloyTarget → Vec → Vec
unfolding label_or_unknown add_to
count_rows [] devices = devices
count_rows (t ∷ rows) devices =
    count_rows rows (add_to (label_or_unknown t.snmp_group ∷ []) 1 devices)

count_tiers : List AlloyTarget → List Text → Vec → Vec
unfolding tier_targets set_to
count_tiers rows [] targets = targets
count_tiers rows (tier ∷ tiers) targets =
    count_tiers rows tiers (set_to (tier ∷ []) (length (tier_targets rows tier)) targets)

unfoldable pub shown_tiers : List Text → List Text
shown_tiers [] = all_tiers
shown_tiers (tier ∷ tiers) = tier ∷ tiers

by_group : List AlloyTarget → Option (List CatalogEntry) → Vec × Vec × Vec
unfolding count_entries count_rows
by_group rows none = (count_rows rows [], [], [])
by_group rows (some entries) = count_entries entries ([], [], [])

-- `stats.Sweep - stats.PingUp`, at least 0, is what the subtraction gives.
unfoldable pub observe_scan :
    ScanStats
    → ℕ
    → List AlloyTarget
    → Option (List CatalogEntry)
    → List Text
    → CliMetrics
    → CliMetrics
unfolding by_group count_tiers shown_tiers
observe_scan stats duration rows catalog tiers m =
    let (devices, stale, info) = by_group rows catalog in
    record m {
      scans = m.scans + 1;
      durations = m.durations ++ (duration ∷ []);
      sweep = stats.sweep;
      ping_up = stats.ping_up;
      ping_dead = stats.sweep - stats.ping_up;
      probe_ok = stats.probes.success;
      probe_errs = stats.probes.errors;
      dedupes = stats.dedupes;
      dropped = m.dropped + stats.dropped;
      devices = devices;
      stale = stale;
      device_info = info;
      targets = count_tiers rows (shown_tiers tiers) [];
    }
