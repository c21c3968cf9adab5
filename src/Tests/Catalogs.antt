-- ===== src/Tests/Catalogs.antt =====
-- The catalog's theorems on sample data.
use snmp_sd.Base.{
  ℕ, Text, codes, ◌≡◌, ◌+◌, ◌||◌, refl, false, none, some, List, [], ◌∷◌, pos, if◌then◌else◌,
  length, contains, Distinct, ◌==◌, text_dec, Result, ok, map, ◌>>=◌, arith,
}
use snmp_sd.Catalog.{address_of, drop_set, drop_addresses, merge_found, snapshot}
use snmp_sd.Catalog.Merge.{
  entry_at, drops, target_at, merged, merge_time, entry_at-merge_found, merge_found-Distinct,
}
use snmp_sd.Catalog.Sticky.{merge_scans, entry_at-merge_scans, is_named, drop_addresses_lem}
use snmp_sd.Target.{AlloyTarget}
use snmp_sd.Auth.{SnmpAuth}
use snmp_sd.Scan.{GroupRuntime, Plan}
use snmp_sd.Groups.{DiscoveryGroup, DiscoveryFile}
use snmp_sd.Overrides.{ignored_addresses}
use snmp_sd.Worker.{Network, ScanParams}
use snmp_sd.Run.{Output, settle_catalog, run_scan}
use snmp_sd.Run.Settle.{settle_catalog_lem, run_scan_lem, IsRun}
use snmp_sd.Probe.{failed}
use snmp_sd.Tests.{addr_1, addr_2, sw1, sw2, entry_1, lab, group, runtime, fingerprinter}

entry_at-merge_found_example :
    entry_at addr_2 (merge_found (sw1 ∷ []) 9 9 (pos 3) lab).0.entries
    ≡ merged (pos 3) (merge_time 9 9) (target_at addr_2 (sw1 ∷ [])) (entry_at addr_2 lab.entries)
entry_at-merge_found_example = entry_at-merge_found addr_2 (sw1 ∷ []) 9 9 (pos 3) lab

merge_found-Distinct_example :
    Distinct (map address_of (merge_found (sw1 ∷ sw1 ∷ []) 9 9 (pos 3) lab).0.entries)
merge_found-Distinct_example = merge_found-Distinct (sw1 ∷ sw1 ∷ []) 9 9 (pos 3) lab

-- Two scans that find the second device only.
abbrev missing_first : List (ℕ × List AlloyTarget)
missing_first = (7, sw2 ∷ []) ∷ (8, sw2 ∷ []) ∷ []

entry_at-merge_scans_example : entry_at addr_1 (merge_scans (pos 3) missing_first lab).entries ≡ (
    if drops (pos 3) (entry_1.misses + length missing_first)
    then none
    else some (record entry_1 { misses = entry_1.misses + length missing_first }))
unfolding ◌==◌ text_dec
entry_at-merge_scans_example =
    entry_at-merge_scans addr_1 (pos 3) missing_first lab entry_1 (omega arith) (refl, (refl, tt))
      refl

drop_addresses_lem_example :
    (entry_at addr_1 (drop_addresses (codes " 10.0.0.1 " ∷ []) lab).0.entries
      ≡ (if is_named addr_1 (codes " 10.0.0.1 " ∷ []) then none else entry_at addr_1 lab.entries))
    × ((drop_addresses (codes " 10.0.0.1 " ∷ []) lab).1
          + length (drop_addresses (codes " 10.0.0.1 " ∷ []) lab).0.entries
        ≡ length lab.entries)
drop_addresses_lem_example = drop_addresses_lem addr_1 (codes " 10.0.0.1 " ∷ []) lab

abbrev pub params : ScanParams
params = record {
  retries = 1;
  misses = pos 3;
  known_modules = [];
  allow_duplicate_sys_name = false;
  enabled_tiers = [];
  out_alloy = codes "out.yml";
  out_sd = [];
  state_path = [];
}

settle_catalog_lem_example :
    entry_at addr_1 (settle_catalog params [] (sw2 ∷ []) (addr_1 ∷ []) 9 lab).entries ≡ (
      if contains addr_1 (drop_set (ignored_addresses []))
        || contains addr_1 (drop_set (addr_1 ∷ []))
      then none
      else merged params.misses
          (merge_time 9 9)
          (target_at addr_1 (sw2 ∷ []))
          (entry_at addr_1 lab.entries))
settle_catalog_lem_example = settle_catalog_lem addr_1 params [] (sw2 ∷ []) (addr_1 ∷ []) 9 lab

abbrev pub network : Network
network = record {
  connect = λ ip port auth. none;
  get = λ ip port oids auth n. failed (codes "request timeout");
  matches = λ r s. false;
}

abbrev pub load : List DiscoveryGroup → Result (List GroupRuntime)
load gs = ok (runtime ∷ [])

abbrev pub plan_one : List GroupRuntime → List AlloyTarget → Result Plan
plan_one rts prev = ok (record {
  jobs =
      record { ip = addr_1; group = group; auths = runtime.auths; fp = fingerprinter; port = 161 }
      ∷ [];
  claimed = (addr_1, codes "lab") ∷ [];
  sweep = 1;
  ping_up = 1;
})

abbrev pub file : DiscoveryFile
file = record { groups = group ∷ []; overrides = [] }

abbrev pub silent_walk : Text → ℕ → List SnmpAuth → List Text
silent_walk addr port auths = []

abbrev pub write_ok : Output → Result (Unit {0})
write_ok o = ok tt

run_scan_lem_example :
    IsRun file lab
      (load file.groups >>= λ rts. plan_one rts (snapshot lab).0)
      (run_scan network write_ok silent_walk params file load plan_one 9 lab)
run_scan_lem_example = run_scan_lem network write_ok silent_walk params file load plan_one 9 lab
