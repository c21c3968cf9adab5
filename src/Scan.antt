-- ===== src/Scan.antt =====
-- Which addresses one scan probes: the planning half of snmpdiscovery/scan.go. ICMP, the neighbour
-- walk and the reading of fingerprinters and auths are parameters.
pub mod Crawl
pub mod Claims
pub mod Allowed
pub mod Prefer
pub mod Sweep
use snmp_sd.Base.Error.{Error}
use snmp_sd.Base.{
  ℕ, zero, suc, ◌+◌, Text, codes, Bool, true, false, not, Option, none, some, List, [], ◌∷◌, ◌++◌,
  ◌==◌, ◌&&◌, ◌||◌, Result, ok, err, ◌>>=◌, ◌>>◌, ltb, leb, eqb, if◌then◌else◌, trim, map, length,
  keep, contains, unique_by, Assoc, lookup, insert, has_suffix, trim_suffix, in_group,
  in_group_exclude, in_group_ping, in_group_fingerprinter, fingerprinter_missing,
}
use snmp_sd.Target.{AlloyTarget}
use snmp_sd.Address.{must_canon_ip}
use snmp_sd.Cidr.{expand_cidrs, filter_excluded, unique_strings, allow_neighbor}
use snmp_sd.Auth.{SnmpAuth}
use snmp_sd.Fingerprint.{Fingerprinter, compile}
use snmp_sd.Groups.{
  DiscoveryGroup, DiscoveryFile, group_mode, group_uses_ping, mode_sweep, mode_crawl, mode_both,
}

pub record GroupRuntime : Type 0 where
  pub group : DiscoveryGroup
  pub auths : List SnmpAuth
  pub fp : Fingerprinter
  pub port : ℕ

pub record ProbeJob : Type 0 where
  pub ip : Text
  pub group : DiscoveryGroup
  pub auths : List SnmpAuth
  pub fp : Fingerprinter
  pub port : ℕ

abbrev pub in_group_of {ℓ} : {A : Type ℓ} → (Error → Error) → Result A → Result A
in_group_of wrap (ok a) = ok a
in_group_of wrap (err e) = err (wrap e)

-- `load_auths` is `loadAuthsOverlay` for the names of a group, `regexp_compile` is `regexp.Compile`.
unfoldable pub load_group_runtime :
    (List Text → Result (List SnmpAuth))
    → (Text → Result (Unit {0}))
    → Assoc Fingerprinter
    → Text
    → ℕ
    → DiscoveryGroup
    → Result GroupRuntime
load_group_runtime load_auths regexp_compile fps default_fp default_port g =
    let fp_name = if g.fingerprinter == [] then default_fp else g.fingerprinter in
    elim (lookup fp_name fps) [
      | none ↦ err (fingerprinter_missing g.name fp_name)
      | some fp ↦
          (in_group_of (in_group_fingerprinter g.name) (compile regexp_compile fp.matchers) >>= λ _.
          in_group_of (in_group g.name) (load_auths g.auths) >>= λ auths. ok (record {
            group = g;
            auths = auths;
            fp = fp;
            port = if eqb g.port 0 then default_port else g.port;
          }))
    ]

unfoldable pub load_group_runtimes :
    (List Text → Result (List SnmpAuth))
    → (Text → Result (Unit {0}))
    → Assoc Fingerprinter
    → Text
    → ℕ
    → List DiscoveryGroup
    → Result (List GroupRuntime)
unfolding load_group_runtime
load_group_runtimes load_auths regexp_compile fps default_fp default_port [] = ok []
load_group_runtimes load_auths regexp_compile fps default_fp default_port (g ∷ gs) = do
  rt ← load_group_runtime load_auths regexp_compile fps default_fp default_port g
  rts ← load_group_runtimes load_auths regexp_compile fps default_fp default_port gs
  ok (rt ∷ rts)

-- The seeds of a group, blank ones left out, trimmed.
unfoldable pub given_seeds : DiscoveryGroup → List Text
given_seeds g = keep (λ s. not (s == [])) (map trim g.seeds)

unfoldable pub seed_ips : DiscoveryGroup → List AlloyTarget → List Text
unfolding given_seeds
seed_ips g prev =
    map must_canon_ip (given_seeds g)
    ++ map (λ t. must_canon_ip t.address)
        (keep (λ t. t.snmp_group == g.name && not (t.address == [])) prev)

-- The auth that each address answered to.
unfoldable pub put_auths : (AlloyTarget → Bool) → Assoc Text → List AlloyTarget → Assoc Text
put_auths has_auth m [] = m
put_auths has_auth m (t ∷ ts) =
    let put = put_auths has_auth (insert (must_canon_ip t.address) t.auth m) ts in
    let skip = put_auths has_auth m ts in if not (t.address == []) && has_auth t then put else skip

unfoldable pub last_auth_by_addr : List AlloyTarget → Assoc Text
unfolding put_auths
last_auth_by_addr prev = put_auths (λ t. not (trim t.auth == [])) [] prev

-- `none` where no auth has the name; else the auths before it, itself, and those behind.
unfoldable pub split_at_auth :
    Text → List SnmpAuth → Option (List SnmpAuth × SnmpAuth × List SnmpAuth)
split_at_auth name [] = none
split_at_auth name (a ∷ auths) =
    let rest = split_at_auth name auths in
    if a.name == name
    then some ([], a, auths)
    else elim rest [ none ↦ none | some (before, b, after) ↦ some (a ∷ before, b, after) ]

unfoldable pub prefer_auth : List SnmpAuth → Text → List SnmpAuth
unfolding split_at_auth
prefer_auth auths name =
    if trim name == [] || ltb (length auths) 2
    then auths
    else elim (split_at_auth (trim name) auths) [
      | none ↦ auths
      | some (before, a, after) ↦ a ∷ (before ++ after)
    ]

-- A missing key of the map reads as the empty name.
unfoldable pub last_auth : Text → Assoc Text → Text
last_auth ip last = elim (lookup ip last) [ none ↦ [] | some name ↦ name ]

unfoldable pub job_for : GroupRuntime → Assoc Text → Text → ProbeJob
unfolding prefer_auth last_auth
job_for rt last ip = record {
  ip = ip;
  group = rt.group;
  auths = prefer_auth rt.auths (last_auth ip last);
  fp = rt.fp;
  port = rt.port;
}

-- Every address that no group has claimed becomes a job of this group.
unfoldable pub claim :
    GroupRuntime → Assoc Text → List Text → Assoc Text → List ProbeJob × Assoc Text
unfolding job_for
claim rt last [] claimed = ([], claimed)
claim rt last (ip ∷ ips) claimed = elim (lookup ip claimed) [
  | some owner ↦ claim rt last ips claimed
  | none ↦
      let more = claim rt last ips (insert ip rt.group.name claimed) in
      (job_for rt last ip ∷ more.0, more.1)
]

pub record Plan : Type 0 where
  pub jobs : List ProbeJob
  pub claimed : Assoc Text
  pub sweep : ℕ
  pub ping_up : ℕ

-- What a group's jobs and counts make of the plan of the groups behind it.
abbrev pub add_group : List ProbeJob → ℕ → ℕ → Plan → Plan
add_group jobs swept pinged more = record more {
  jobs = jobs ++ more.jobs;
  sweep = swept + more.sweep;
  ping_up = pinged + more.ping_up;
}

-- `ping` is the flag of the run, `ping_filter` the filter that a test may set, `icmp_alive` the ICMP
-- sweep of snmpdiscovery/ping.go.
module _ (ping : Bool) (ping_filter : Option (List Text → Result (List Text)))
    (icmp_alive : List Text → Result (List Text)) where
  unfoldable pub filter_ping : List Text → Result (List Text)
  filter_ping [] = ok []
  filter_ping (ip ∷ ips) = elim ping_filter [
    | some filter ↦ filter (ip ∷ ips)
    | none ↦ if ping then icmp_alive (ip ∷ ips) else ok (ip ∷ ips)
  ]

  -- The addresses of a sweep, how many there are, and how many of them are let through.
  unfoldable pub sweep_ips : DiscoveryGroup → Result (List Text × ℕ × ℕ)
  unfolding filter_ping
  sweep_ips g = do
    all ← in_group_of (in_group g.name) (expand_cidrs g.cidrs g.allow_large)
    raw ← in_group_of (in_group_exclude g.name) (filter_excluded all g.exclude)
    (if group_uses_ping g ping
        then (in_group_of (in_group_ping g.name) (filter_ping raw) >>= λ alive.
            ok (alive, length raw, length alive))
        else ok (raw, length raw, length raw))

  unfoldable pub group_ips : DiscoveryGroup → Result (List Text × ℕ × ℕ)
  unfolding sweep_ips
  group_ips g =
      if group_mode g == mode_sweep || group_mode g == mode_both then sweep_ips g else ok ([], 0, 0)

  -- The loop of `planInitialJobs` over the groups.
  unfoldable pub plan_groups :
      Assoc Text → List AlloyTarget → List GroupRuntime → Assoc Text → Result Plan
  unfolding group_ips seed_ips claim
  plan_groups last prev [] claimed =
      ok (record { jobs = []; claimed = claimed; sweep = 0; ping_up = 0 })
  plan_groups last prev (rt ∷ rts) claimed = do
    swept ← group_ips rt.group
    let now = claim rt last (unique_strings (swept.0 ++ seed_ips rt.group prev)) claimed
    more ← plan_groups last prev rts now.1
    ok (add_group now.0 swept.1 swept.2 more)

  unfoldable pub plan_initial_jobs : List GroupRuntime → List AlloyTarget → Result Plan
  unfolding plan_groups last_auth_by_addr
  plan_initial_jobs rts prev = plan_groups (last_auth_by_addr prev) prev rts []

-- `expandJobs`, the planner without ICMP.
unfoldable pub expand_jobs : List GroupRuntime → Result (List ProbeJob)
unfolding plan_initial_jobs
expand_jobs rts =
    plan_initial_jobs false (some (λ ips. ok ips)) (λ ips. ok ips) rts [] >>= λ plan. ok plan.jobs

unfoldable pub dedupe_targets : List AlloyTarget → List AlloyTarget
dedupe_targets ts = unique_by (λ t. t.address) [] ts

unfoldable pub tier_sibling_path : Text → Text → Text
tier_sibling_path path suffix =
    if has_suffix (codes ".yml") path
    then trim_suffix (codes ".yml") path ++ suffix ++ codes ".yml"
    else if has_suffix (codes ".yaml") path
    then trim_suffix (codes ".yaml") path ++ suffix ++ codes ".yaml"
    else path ++ suffix
