-- ===== src/Cli/Loop/Ticks.antt =====
-- What the counters of the process say after any number of ticks.
use snmp_sd.Base.Error.{Error}
use snmp_sd.Base.{
  ℕ, suc, ◌+◌, ◌≡◌, refl, sym, ap, ◌∙◌, arith, Bool, true, false, Option, none, some, List, [], ◌∷◌,
  Result, ok, err, length, if◌then◌else◌,
}
use snmp_sd.Target.{AlloyTarget}
use snmp_sd.Cli.Metrics.{probe_begin, probe_end, device_found}
use snmp_sd.Run.{ScanStats}
use snmp_sd.Groups.{DiscoveryFile}
use snmp_sd.Catalog.{Catalog, snapshot_entries}
use snmp_sd.Worker.{ScanParams}
use snmp_sd.Cli.Metrics.{CliMetrics}
use snmp_sd.Cli.Metrics.Counters.{
  CountsOn, counters, counters-probe_begin, counters-probe_end, counters-device_found,
  observe_scan-CountsOn,
}
use snmp_sd.Cli.Loop.{
  Settings, Surroundings, Process, Notice, begun, ended, found, observe, count_failure, discover,
  in_flight_set, scan_config, scanned, scan_locked, scan_once, add_error, run_ticks, is_periodic,
  run_loop, listen_error, after_first, run_process,
}

unfoldable pub count : Option Error → ℕ
count none = 0
count (some e) = 1

counters-observe :
    (notices : List Notice) (m : CliMetrics) → counters (observe notices m) ≡ counters m
unfolding observe
counters-observe [] m = refl
counters-observe (begun ∷ notices) m =
    counters-observe notices (probe_begin m) ∙ counters-probe_begin m
counters-observe (ended d ∷ notices) m =
    counters-observe notices (probe_end d m) ∙ counters-probe_end d m
counters-observe (found d ∷ notices) m =
    counters-observe notices (device_found d m) ∙ counters-device_found d m

failure-CountsOn : (a m : CliMetrics) → counters m ≡ counters a → CountsOn a 1 1 (count_failure m)
unfolding count_failure CountsOn
failure-CountsOn a m h = (ap (λ c. c.0) h, ap (λ c. c.1 + 1) h, ap (λ c. c.2 + 1) h)

scan-CountsOn : (a m t : CliMetrics) → counters m ≡ counters a → CountsOn m 1 0 t → CountsOn a 1 0 t
unfolding CountsOn
scan-CountsOn a m t h (x, y, z) =
    (x ∙ ap (λ c. c.0) h, y ∙ ap (λ c. c.1 + 1) h, z ∙ ap (λ c. c.2 + 0) h)

scanned-CountsOn :
    (p : ScanParams) (took : ℕ) (c : Catalog) (a m : CliMetrics)
    (result : Result (List AlloyTarget × ScanStats))
    → counters m ≡ counters a
    → let r = scanned p took c m result in CountsOn a 1 (count r.1) r.0.0
unfolding scanned count
scanned-CountsOn p took c a m (err e) h = failure-CountsOn a m h
scanned-CountsOn p took c a m (ok (rows, stats)) h =
    scan-CountsOn a m _ h
      (observe_scan-CountsOn stats took rows (some (snapshot_entries c)) p.enabled_tiers m)

scan_locked-CountsOn :
    (p : ScanParams) (o : Surroundings) (cfg : Result DiscoveryFile) (m : CliMetrics) (c : Catalog)
    → let r = scan_locked p o cfg m c in CountsOn m 1 (count r.1) r.0.0
unfolding scan_locked count
scan_locked-CountsOn p o (err e) m c = failure-CountsOn m m refl
scan_locked-CountsOn p o (ok cfg) m c =
    let r = discover p o cfg c in
    scanned-CountsOn p o.took r.0 m (observe o.notices m) r.1 (counters-observe o.notices m)

-- The process between two scans: the lock is free and no scan is counted as under way.
unfoldable pub IsIdle : Process → Type 0
IsIdle s = (s.locked ≡ false) × (s.metrics.scan_in_flight ≡ 0)

unfoldable pub Advances : Process → ℕ → ℕ → Process → Type 0
Advances s n k t = IsIdle t × CountsOn s.metrics n k t.metrics

-- A scan that starts on an idle process is never skipped: it leaves the process idle, is counted, and
-- is counted as failed exactly if it has an error.
pub scan_once-Advances :
    (f : Settings) (p : ScanParams) (o : Surroundings) (s : Process)
    → IsIdle s
    → Advances s 1 (count (scan_once f p o s).1) (scan_once f p o s).0
unfolding IsIdle Advances scan_once in_flight_set CountsOn
scan_once-Advances f p o s (free, quiet) =
    rw free (
      (refl, refl),
      scan_locked-CountsOn p o (scan_config f o) (in_flight_set 1 s.metrics) s.catalog,
    )

length-add_error :
    (e : Option Error) (logged : List Error) → length (add_error e logged) ≡ count e + length logged
unfolding add_error count
length-add_error none logged = omega arith
length-add_error (some e) logged = ground arith

Advances-then :
    (s t u : Process) (n k i j : ℕ)
    → CountsOn s.metrics n k t.metrics
    → Advances t i j u
    → Advances s (n + i) (k + j) u
unfolding Advances CountsOn
Advances-then s t u n k i j (p, q, r) (idle, (x, y, z)) = (idle, (x ∙ p, omega arith, omega arith))

no_scan : (s : Process) → IsIdle s → Advances s 0 0 s
unfolding Advances CountsOn
no_scan s idle = (idle, (refl, omega arith, omega arith))

Advances-at : (s t : Process) (n k i j : ℕ) → n ≡ i → k ≡ j → Advances s n k t → Advances s i j t
unfolding Advances CountsOn
Advances-at s t n k i j p q (idle, (x, y, z)) = (idle, (x, omega arith, omega arith))

run_ticks-Advances :
    (f : Settings) (p : ScanParams) (ticks : List Surroundings) (s : Process)
    → IsIdle s
    → let r = run_ticks f p ticks s in Advances s (length ticks) (length r.1) r.0
unfolding run_ticks Advances
run_ticks-Advances f p [] s idle = no_scan s idle
run_ticks-Advances f p (o ∷ ticks) s idle =
    let r = scan_once f p o s in
    let (idle_then, counts) = scan_once-Advances f p o s idle in
    let rest = run_ticks f p ticks r.0 in
    Advances-at s _ (1 + length ticks) _ (suc (length ticks)) _ (omega arith)
      (sym (length-add_error r.1 rest.1))
      (Advances-then s r.0 rest.0 1 (count r.1) (length ticks) (length rest.1) counts
        (run_ticks-Advances f p ticks r.0 idle_then))

-- The ticks that the loop answers: all of them, if an interval is set and no error ended the process.
unfoldable pub answered : Settings → Option Error → List Surroundings → ℕ
answered f (some e) ticks = 0
answered f none ticks = if is_periodic f.interval then length ticks else 0

run_loop-Advances :
    (f : Settings) (p : ScanParams) (ticks : List Surroundings) (s : Process)
    → IsIdle s
    → let r = run_loop f p ticks s in Advances s (answered f none ticks) (length r.1) r.0
unfolding run_loop answered
run_loop-Advances f p ticks s idle = by_interval (is_periodic f.interval)
  where
    by_interval :
        (b : Bool)
        → let r = if b then run_ticks f p ticks s else (s, []) in
          Advances s (if b then length ticks else 0) (length r.1) r.0
    by_interval true = run_ticks-Advances f p ticks s idle
    by_interval false = no_scan s idle

after_first-Advances :
    (f : Settings) (p : ScanParams) (ticks : List Surroundings) (s : Process) (a b : Option Error)
    → IsIdle s
    → let r = after_first f p ticks s a b in Advances s (answered f r.2 ticks) (length r.1) r.0
unfolding after_first answered
after_first-Advances f p ticks s (some e) _ idle = no_scan s idle
after_first-Advances f p ticks s none (some e) idle = no_scan s idle
after_first-Advances f p ticks s none none idle = run_loop-Advances f p ticks s idle

-- No scan is skipped: from an idle process, whatever the files and the network answer and however
-- many ticks come, the process ends idle; it has counted the first scan and one scan for each tick
-- that it answers, all of them if an interval is set and no error ended it, and none as skipped; and
-- the failures are those that it logged, and the first scan if that failed. The count of scans includes
-- the scans that failed.
pub run_process_lem :
    (f : Settings) (p : ScanParams) (bound : Option Error) (first : Surroundings)
    (ticks : List Surroundings) (s : Process)
    → IsIdle s
    → let r = run_process f p bound first ticks s in
      Advances s (1 + answered f r.2 ticks) (count (scan_once f p first s).1 + length r.1) r.0
unfolding run_process Advances
run_process_lem f p bound first ticks s idle =
    let r = scan_once f p first s in
    let (idle_then, counts) = scan_once-Advances f p first s idle in
    let rest = after_first f p ticks r.0 r.1 (listen_error f bound) in
    Advances-then s r.0 rest.0 1 (count r.1) (answered f rest.2 ticks) (length rest.1) counts
      (after_first-Advances f p ticks r.0 r.1 (listen_error f bound) idle_then)
