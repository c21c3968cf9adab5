-- ===== src/Scan/Crawl.antt =====
-- `planCrawlJobs` of snmpdiscovery/scan.go: the neighbours of known devices become jobs. The walk of
-- the neighbour tables is a parameter.
use snmp_sd.Base.{
  ℕ, Text, Bool, not, List, [], ◌∷◌, ◌++◌, ◌==◌, ◌&&◌, ◌||◌, if◌then◌else◌, map, keep, Assoc,
}
use snmp_sd.Target.{AlloyTarget}
use snmp_sd.Address.{must_canon_ip}
use snmp_sd.Cidr.{unique_strings, allow_neighbor}
use snmp_sd.Auth.{SnmpAuth}
use snmp_sd.Groups.{DiscoveryGroup, group_mode, mode_crawl, mode_both}
use snmp_sd.Scan.{
  GroupRuntime, ProbeJob, given_seeds, put_auths, last_auth_by_addr, last_auth, prefer_auth, claim,
}

-- The addresses whose neighbours a group looks at.
unfoldable pub walk_from : DiscoveryGroup → List AlloyTarget → List Text
walk_from g seeds =
    given_seeds g
    ++ map (λ t. t.address)
        (keep (λ t. (t.snmp_group == [] || t.snmp_group == g.name) && not (t.address == [])) seeds)

abbrev pub may_probe : DiscoveryGroup → Text → Text → Bool
may_probe g addr ip = not (ip == addr) && allow_neighbor ip g.cidrs g.exclude

-- `walk` gives the neighbours that a device reports.
module _ (walk : Text → ℕ → List SnmpAuth → List Text) where
  unfoldable pub neighbors : GroupRuntime → Assoc Text → Text → List Text
  neighbors rt last addr =
      keep (may_probe rt.group addr)
        (map must_canon_ip (walk addr rt.port (prefer_auth rt.auths (last_auth addr last))))

  unfoldable pub crawl_from :
      GroupRuntime → Assoc Text → List Text → Assoc Text → List ProbeJob × Assoc Text
  unfolding neighbors
  crawl_from rt last [] claimed = ([], claimed)
  crawl_from rt last (addr ∷ addrs) claimed =
      let here = claim rt last (neighbors rt last (must_canon_ip addr)) claimed in
      let more = crawl_from rt last addrs here.1 in (here.0 ++ more.0, more.1)

  unfoldable pub crawl_groups :
      Assoc Text → List AlloyTarget → List GroupRuntime → Assoc Text → List ProbeJob × Assoc Text
  unfolding crawl_from walk_from
  crawl_groups last seeds [] claimed = ([], claimed)
  crawl_groups last seeds (rt ∷ rts) claimed =
      let skip = crawl_groups last seeds rts claimed in
      let here = crawl_from rt last (unique_strings (walk_from rt.group seeds)) claimed in
      let more = crawl_groups last seeds rts here.1 in
      if group_mode rt.group == mode_crawl || group_mode rt.group == mode_both
      then (here.0 ++ more.0, more.1)
      else skip

  -- The jobs, and the claims, which the source updates in place.
  unfoldable pub plan_crawl_jobs :
      List GroupRuntime
      → List AlloyTarget
      → List AlloyTarget
      → Assoc Text
      → List ProbeJob × Assoc Text
  unfolding crawl_groups put_auths last_auth_by_addr
  plan_crawl_jobs rts prev found claimed =
      crawl_groups (put_auths (λ t. not (t.auth == [])) (last_auth_by_addr prev) found)
        (found ++ prev) rts claimed
