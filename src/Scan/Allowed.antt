-- ===== src/Scan/Allowed.antt =====
-- The crawl of snmpdiscovery/scan.go stays inside the address ranges of its group.
use snmp_sd.Base.{
  ℕ, Text, ◌≡◌, true, not, List, [], ◌∷◌, ◌++◌, ◌==◌, ◌||◌, arith, map, keep, All, All-append,
  Assoc, insert, Bool-cases, inl, inr,
}
use snmp_sd.Target.{AlloyTarget}
use snmp_sd.Address.{must_canon_ip}
use snmp_sd.Auth.{SnmpAuth}
use snmp_sd.Cidr.{unique_strings, allow_neighbor}
use snmp_sd.Groups.{DiscoveryGroup, group_mode, mode_crawl, mode_both}
use snmp_sd.Scan.{
  GroupRuntime, ProbeJob, job_for, claim, last_auth_by_addr, put_auths, prefer_auth, last_auth,
}
use snmp_sd.Scan.Crawl.{neighbors, crawl_from, crawl_groups, plan_crawl_jobs, may_probe, walk_from}

-- A job of a group that crawls, for an address in the group's ranges and outside its exclusions.
abbrev pub IsAllowed : ProbeJob → Type 0
IsAllowed j =
    (allow_neighbor j.ip j.group.cidrs j.group.exclude ≡ true)
    × ((group_mode j.group == mode_crawl || group_mode j.group == mode_both) ≡ true)

abbrev Crawls : GroupRuntime → Type 0
Crawls rt = (group_mode rt.group == mode_crawl || group_mode rt.group == mode_both) ≡ true

claim-IsAllowed :
    (rt : GroupRuntime) (last : Assoc Text) (ips : List Text) (claimed : Assoc Text)
    → Crawls rt
    → All (λ ip. allow_neighbor ip rt.group.cidrs rt.group.exclude ≡ true) ips
    → All IsAllowed (claim rt last ips claimed).0
unfolding claim job_for
claim-IsAllowed rt last [] claimed c h = tt
claim-IsAllowed rt last (ip ∷ ips) claimed c (a, h) = ground (
  arith,
  claim-IsAllowed rt last ips claimed c h,
  claim-IsAllowed rt last ips (insert ip rt.group.name claimed) c h,
)

keep-may_probe :
    (g : DiscoveryGroup) (addr : Text) (ips : List Text)
    → All (λ ip. allow_neighbor ip g.cidrs g.exclude ≡ true) (keep (may_probe g addr) ips)
keep-may_probe g addr [] = tt
keep-may_probe g addr (ip ∷ ips) = ground (arith, keep-may_probe g addr ips)

module _ (walk : Text → ℕ → List SnmpAuth → List Text) where
  crawl_from-IsAllowed :
      (rt : GroupRuntime) (last : Assoc Text) (addrs : List Text) (claimed : Assoc Text)
      → Crawls rt
      → All IsAllowed (crawl_from walk rt last addrs claimed).0
  unfolding crawl_from neighbors
  crawl_from-IsAllowed rt last [] claimed c = tt
  crawl_from-IsAllowed rt last (addr ∷ addrs) claimed c =
      let from = must_canon_ip addr in
      let reported =
        map must_canon_ip (walk from rt.port (prefer_auth rt.auths (last_auth from last))) in
      let here = claim rt last (keep (may_probe rt.group from) reported) claimed in
      All-append IsAllowed here.0 (crawl_from walk rt last addrs here.1).0
        (claim-IsAllowed rt last (keep (may_probe rt.group from) reported) claimed c
          (keep-may_probe rt.group from reported))
        (crawl_from-IsAllowed rt last addrs here.1 c)

  crawl_groups-IsAllowed :
      (last : Assoc Text) (seeds : List AlloyTarget) (rts : List GroupRuntime)
      (claimed : Assoc Text)
      → All IsAllowed (crawl_groups walk last seeds rts claimed).0
  unfolding crawl_groups
  crawl_groups-IsAllowed last seeds [] claimed = tt
  crawl_groups-IsAllowed last seeds (rt ∷ rts) claimed =
      let addrs = unique_strings (walk_from rt.group seeds) in
      let here = crawl_from walk rt last addrs claimed in
      elim (Bool-cases (group_mode rt.group == mode_crawl || group_mode rt.group == mode_both)) [
        | inl e ↦ rw e (
            All-append IsAllowed here.0 (crawl_groups walk last seeds rts here.1).0
              (crawl_from-IsAllowed rt last addrs claimed e)
              (crawl_groups-IsAllowed last seeds rts here.1))
        | inr e ↦ rw e (crawl_groups-IsAllowed last seeds rts claimed)
      ]

  -- Whatever the neighbours report, every address that the crawl probes is one that the group's ranges
  -- allow and its exclusions do not name, and the group is one that crawls.
  pub plan_crawl_jobs-IsAllowed :
      (rts : List GroupRuntime) (prev found : List AlloyTarget) (claimed : Assoc Text)
      → All IsAllowed (plan_crawl_jobs walk rts prev found claimed).0
  unfolding plan_crawl_jobs
  plan_crawl_jobs-IsAllowed rts prev found claimed =
      crawl_groups-IsAllowed (put_auths (λ t. not (t.auth == [])) (last_auth_by_addr prev) found)
        (found ++ prev) rts claimed
