-- ===== src/Cli/Metrics/Counters.antt =====
-- The counters of scans, failures and skipped ticks under the calls of the observer.
use snmp_sd.Base.{ℕ, ◌+◌, ◌≡◌, refl, arith, List, Option}
use snmp_sd.Target.{AlloyTarget}
use snmp_sd.Catalog.{CatalogEntry}
use snmp_sd.Probe.{ProbeDetail}
use snmp_sd.Run.{ScanStats}
use snmp_sd.Cli.Metrics.{
  CliMetrics, DeviceFoundDetail, probe_begin, probe_end, probe_outcome, device_found, observe_scan,
}

-- `t` counts `n` scans and `k` failures more than `m`, and as many skipped ticks.
unfoldable pub CountsOn : CliMetrics → ℕ → ℕ → CliMetrics → Type 0
CountsOn m n k t = (t.skipped ≡ m.skipped) × (t.scans ≡ m.scans + n) × (t.failures ≡ m.failures + k)

abbrev pub counters : CliMetrics → ℕ × ℕ × ℕ
counters m = (m.skipped, m.scans, m.failures)

pub counters-probe_begin : (m : CliMetrics) → counters (probe_begin m) ≡ counters m
unfolding probe_begin
counters-probe_begin m = refl

pub counters-probe_end : (d : ProbeDetail) (m : CliMetrics) → counters (probe_end d m) ≡ counters m
unfolding probe_end probe_outcome
counters-probe_end d m = ground arith

pub counters-device_found :
    (d : DeviceFoundDetail) (m : CliMetrics) → counters (device_found d m) ≡ counters m
unfolding device_found
counters-device_found d m = refl

pub observe_scan-CountsOn :
    (stats : ScanStats) (took : ℕ) (rows : List AlloyTarget) (c : Option (List CatalogEntry))
    (tiers : List _) (m : CliMetrics)
    → CountsOn m 1 0 (observe_scan stats took rows c tiers m)
unfolding CountsOn observe_scan
observe_scan-CountsOn stats took rows c tiers m = (refl, refl, omega arith)
