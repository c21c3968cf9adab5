-- ===== src/Tests/Scans.antt =====
-- The theorems on the planning of a scan and on one probe, on sample data.
use mathlib.Core.List.{Perm}
use snmp_sd.Base.{
  ℕ, zero, suc, unique_by, cut, has_prefix, split, join, lower, itoa, lookup, insert, Text, codes,
  ◌≡◌, refl, false, none, Option, List, [], ◌∷◌, ◌++◌, All, Distinct, trim, ◌==◌, if◌then◌else◌,
  arith, text_dec, Result, ok,
}
use snmp_sd.Auth.{SnmpAuth}
use snmp_sd.Address.{parse_addr, canon_ip, must_canon_ip}
use snmp_sd.Address.V4.{parse_v4, print_v4}
use snmp_sd.Cidr.{
  unique_strings, expand_cidrs, filter_excluded, parse_cidr, parse_ip_nets, ip_in_nets,
}
use snmp_sd.Groups.{DiscoveryGroup, group_uses_ping, group_mode}
use snmp_sd.Probe.{Reply, packet, failed, text_value, probe, asked_oids, start_detail}
use snmp_sd.Probe.Answer.{Outcomes, probe_lem}
use snmp_sd.Scan.{Plan, sweep_ips, prefer_auth, plan_initial_jobs, plan_groups}
use snmp_sd.Scan.Crawl.{plan_crawl_jobs}
use snmp_sd.Scan.Claims.{ips_of, plan_jobs-Distinct}
use snmp_sd.Scan.Allowed.{IsAllowed, plan_crawl_jobs-IsAllowed}
use snmp_sd.Scan.Prefer.{first_name, preferred, prefer_auth_lem}
use snmp_sd.Neighbor.{lldp_prefix, neighbor_from_oid}
use snmp_sd.Neighbor.Lldp.{four, lldp_index, neighbor_from_oid-lldp}
use snmp_sd.Identity.{collapse_same_hostname}
use snmp_sd.Identity.Collapse.{host_names, collapse_same_hostname-Distinct}
use snmp_sd.Scan.Sweep.{IsSwept, sweep_ips_lem}
use snmp_sd.Tests.{group, device, addr_1, addr_2, sw1, runtime, auth_named}

abbrev no_ping : List Text → Result (List Text)
no_ping ips = ok ips

abbrev walk : Text → ℕ → List SnmpAuth → List Text
walk addr port auths = addr_1 ∷ addr_2 ∷ codes "10.9.9.9" ∷ []

abbrev first_plan : Plan
first_plan = record {
  jobs =
      record {
        ip = addr_1;
        group = runtime.group;
        auths = runtime.auths;
        fp = runtime.fp;
        port = 161;
      }
      ∷ [];
  claimed = (addr_1, codes "lab") ∷ [];
  sweep = 0;
  ping_up = 0;
}

plan_jobs-Distinct_example : Distinct (
    ips_of
      (first_plan.jobs ++ (plan_crawl_jobs walk (runtime ∷ []) [] (sw1 ∷ []) first_plan.claimed).0))
unfolding plan_initial_jobs plan_groups ◌==◌ text_dec group_mode lower trim unique_strings unique_by
    lookup canon_ip insert must_canon_ip cut has_prefix parse_v4 split print_v4 join itoa
plan_jobs-Distinct_example =
    plan_jobs-Distinct false none no_ping walk (runtime ∷ []) [] (sw1 ∷ []) first_plan refl

plan_crawl_jobs-IsAllowed_example :
    All IsAllowed (plan_crawl_jobs walk (runtime ∷ []) [] (sw1 ∷ []) ((addr_1, codes "lab") ∷ [])).0
plan_crawl_jobs-IsAllowed_example =
    plan_crawl_jobs-IsAllowed walk (runtime ∷ []) [] (sw1 ∷ []) ((addr_1, codes "lab") ∷ [])

abbrev two_auths : List SnmpAuth
two_auths = auth_named (codes "a") ∷ auth_named (codes "b") ∷ []

prefer_auth_lem_example :
    Perm (prefer_auth two_auths (codes " b")) two_auths
    × (first_name (prefer_auth two_auths (codes " b")) ≡ (
        if trim (codes " b") == []
        then first_name two_auths
        else preferred (trim (codes " b")) two_auths))
prefer_auth_lem_example = prefer_auth_lem two_auths (codes " b")

abbrev connect : SnmpAuth → Option Text
connect auth = none

-- The first attempt fails, the second answers.
abbrev get : List Text → SnmpAuth → ℕ → Reply
get oids auth zero = failed (codes "request timeout")
get oids auth (suc n) =
    packet (record { name = codes ".1.3.6.1.2.1.1.5.0"; value = text_value (codes "sw1") } ∷ [])

probe_lem_example :
    Outcomes connect
      (get (asked_oids []))
      addr_1
      2
      two_auths
      0
      start_detail
      (probe connect get addr_1 2 two_auths [])
probe_lem_example = probe_lem connect get addr_1 2 two_auths []

collapse_same_hostname-Distinct_example :
    Distinct (host_names (collapse_same_hostname (sw1 ∷ device (codes "SW1") addr_2 ∷ []) false).0)
collapse_same_hostname-Distinct_example =
    collapse_same_hostname-Distinct (sw1 ∷ device (codes "SW1") addr_2 ∷ [])

neighbor_from_oid-lldp_example :
    (neighbor_from_oid (codes "." ++ lldp_prefix ++ lldp_index 0 7 1 (four 10 0 0 9))
      ≡ print_v4 10 0 0 9)
    × (neighbor_from_oid (codes "." ++ lldp_prefix ++ lldp_index 0 7 1 (4 ∷ four 10 0 0 9))
        ≡ print_v4 10 0 0 9)
neighbor_from_oid-lldp_example =
    neighbor_from_oid-lldp 0 7 1 10 0 0 9
      (omega arith, (omega arith, (omega arith, (omega arith, tt))))

abbrev ranged : DiscoveryGroup
ranged = record group { exclude = codes "10.0.0.2" ∷ [] }

abbrev swept : List Text × ℕ × ℕ
swept = (codes "10.0.0.0" ∷ addr_1 ∷ codes "10.0.0.3" ∷ [], 3, 3)

sweep_ips_lem_example : IsSwept ranged swept
unfolding sweep_ips expand_cidrs group_uses_ping filter_excluded ◌==◌ text_dec trim cut parse_cidr
    parse_addr parse_v4 split parse_ip_nets canon_ip has_prefix print_v4 join itoa unique_strings
    unique_by ip_in_nets must_canon_ip
sweep_ips_lem_example = sweep_ips_lem false none no_ping ranged swept refl refl
