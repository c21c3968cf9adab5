-- ===== src/Scan/Claims.antt =====
-- No address is probed twice in one scan: the claims of `planInitialJobs` and `planCrawlJobs` of
-- snmpdiscovery/scan.go.
use snmp_sd.Base.{
  ℕ, Text, ◌≡◌, refl, sym, Bool, true, false, not, Option, none, some, List, [], ◌∷◌, ◌++◌, ◌==◌,
  ◌||◌, Result, ok, ◌>>=◌, >>=-eq-ok, ok-injective, eq_iff, arith, map, contains, Distinct,
  contains-append, Assoc, keys, lookup, insert, contains-keys-insert, contains-keys-lookup,
  Bool-cases, inl, inr,
}
use snmp_sd.Target.{AlloyTarget}
use snmp_sd.Auth.{SnmpAuth}
use snmp_sd.Address.{must_canon_ip}
use snmp_sd.Cidr.{unique_strings}
use snmp_sd.Groups.{group_mode, mode_crawl, mode_both}
use snmp_sd.Scan.{
  GroupRuntime, ProbeJob, Plan, job_for, claim, add_group, last_auth_by_addr, put_auths, group_ips,
  seed_ips, plan_groups, plan_initial_jobs,
}
use snmp_sd.Scan.Crawl.{neighbors, crawl_from, crawl_groups, plan_crawl_jobs, walk_from}

abbrev pub ips_of : List ProbeJob → List Text
ips_of = map (λ j. j.ip)

-- Jobs with distinct addresses, none of them claimed before, and all of them claimed after.
abbrev pub AreClaimed : Assoc Text → List ProbeJob → Assoc Text → Type 0
AreClaimed before jobs after =
    Distinct (ips_of jobs)
    × ((a : Text) → contains a (ips_of jobs) ≡ true → contains a (keys before) ≡ false)
    × ((a : Text)
        → contains a (keys after) ≡ (contains a (keys before) || contains a (ips_of jobs)))

none_claimed : (m : Assoc Text) → AreClaimed m [] m
none_claimed m = (tt, (λ a h. cc), (λ a. ground arith))

Distinct-append :
    (xs ys : List Text)
    → Distinct xs
    → Distinct ys
    → ((a : Text) → contains a ys ≡ true → contains a xs ≡ false)
    → Distinct (xs ++ ys)
Distinct-append [] ys dx dy h = dy
Distinct-append (x ∷ xs) ys (n, dx) dy h = (
  ground (arith, contains-append x xs ys, h x, eq_iff x x),
  Distinct-append xs ys dx dy (λ a e. ground (arith, h a)),
)

ips_of-append : (xs ys : List ProbeJob) → ips_of (xs ++ ys) ≡ ips_of xs ++ ips_of ys
ips_of-append [] ys = refl
ips_of-append (x ∷ xs) ys = ground (arith, ips_of-append xs ys)

claimed_append :
    (m1 m2 m3 : Assoc Text) (xs ys : List ProbeJob)
    → AreClaimed m1 xs m2
    → AreClaimed m2 ys m3
    → AreClaimed m1 (xs ++ ys) m3
claimed_append m1 m2 m3 xs ys (dx, fx, kx) (dy, fy, ky) = rw (ips_of-append xs ys) (
  Distinct-append (ips_of xs) (ips_of ys) dx dy (λ a e. ground (arith, fy a e, kx a)),
  (λ a e. ground (arith, contains-append a (ips_of xs) (ips_of ys), fx a, fy a, kx a)),
  (λ a. ground (arith, contains-append a (ips_of xs) (ips_of ys), kx a, ky a)),
)

abbrev pub Claims : Assoc Text → List ProbeJob × Assoc Text → Type 0
Claims before r = AreClaimed before r.0 r.1

one_claimed :
    (j : ProbeJob) (owner : Text) (m : Assoc Text)
    → lookup j.ip m ≡ none
    → AreClaimed m (j ∷ []) (insert j.ip owner m)
one_claimed j owner m e = (
  (refl, tt),
  (λ a h. ground (arith, contains-keys-lookup j.ip m, eq_iff a j.ip)),
  (λ a. ground (arith, contains-keys-insert j.ip a owner m)),
)

-- One address: skipped if it has an owner, and a job otherwise.
claim_step :
    (j : ProbeJob) (name : Text) (m : Assoc Text) (o : Option Text)
    (skip more : List ProbeJob × Assoc Text)
    → lookup j.ip m ≡ o
    → Claims m skip
    → Claims (insert j.ip name m) more
    → Claims m (elim o [ some owner ↦ skip | none ↦ (j ∷ more.0, more.1) ])
claim_step j name m (some owner) skip more e s c = s
claim_step j name m none skip more e s c =
    claimed_append m (insert j.ip name m) more.1 (j ∷ []) more.0 (one_claimed j name m e) c

claim_lem :
    (rt : GroupRuntime) (last : Assoc Text) (ips : List Text) (claimed : Assoc Text)
    → Claims claimed (claim rt last ips claimed)
unfolding claim job_for
claim_lem rt last [] claimed = none_claimed claimed
claim_lem rt last (ip ∷ ips) claimed =
    claim_step (job_for rt last ip) rt.group.name claimed (lookup ip claimed)
      (claim rt last ips claimed) (claim rt last ips (insert ip rt.group.name claimed)) refl
      (claim_lem rt last ips claimed) (claim_lem rt last ips (insert ip rt.group.name claimed))

module _ (walk : Text → ℕ → List SnmpAuth → List Text) where
  crawl_from_lem :
      (rt : GroupRuntime) (last : Assoc Text) (addrs : List Text) (claimed : Assoc Text)
      → Claims claimed (crawl_from walk rt last addrs claimed)
  unfolding crawl_from
  crawl_from_lem rt last [] claimed = none_claimed claimed
  crawl_from_lem rt last (addr ∷ addrs) claimed =
      let here = claim rt last (neighbors walk rt last (must_canon_ip addr)) claimed in
      let more = crawl_from walk rt last addrs here.1 in
      claimed_append claimed here.1 more.1 here.0 more.0
        (claim_lem rt last (neighbors walk rt last (must_canon_ip addr)) claimed)
        (crawl_from_lem rt last addrs here.1)

  crawl_groups_lem :
      (last : Assoc Text) (seeds : List AlloyTarget) (rts : List GroupRuntime)
      (claimed : Assoc Text)
      → Claims claimed (crawl_groups walk last seeds rts claimed)
  unfolding crawl_groups
  crawl_groups_lem last seeds [] claimed = none_claimed claimed
  crawl_groups_lem last seeds (rt ∷ rts) claimed =
      let addrs = unique_strings (walk_from rt.group seeds) in
      let here = crawl_from walk rt last addrs claimed in
      let more = crawl_groups walk last seeds rts here.1 in
      elim (Bool-cases (group_mode rt.group == mode_crawl || group_mode rt.group == mode_both)) [
        | inl e ↦ rw e (
            claimed_append claimed here.1 more.1 here.0 more.0
              (crawl_from_lem rt last addrs claimed) (crawl_groups_lem last seeds rts here.1))
        | inr e ↦ rw e (crawl_groups_lem last seeds rts claimed)
      ]

module _ (ping : Bool) (ping_filter : Option (List Text → Result (List Text)))
    (icmp_alive : List Text → Result (List Text)) where
  plan_groups_lem :
      (last : Assoc Text) (prev : List AlloyTarget) (rts : List GroupRuntime) (claimed : Assoc Text)
      (plan : Plan)
      → plan_groups ping ping_filter icmp_alive last prev rts claimed ≡ ok plan
      → AreClaimed claimed plan.jobs plan.claimed
  unfolding plan_groups
  plan_groups_lem last prev [] claimed plan h = rw (sym (ok-injective h)) (none_claimed claimed)
  plan_groups_lem last prev (rt ∷ rts) claimed plan h =
      let (swept, es, h') =
        >>=-eq-ok (group_ips ping ping_filter icmp_alive rt.group)
          (λ swept.
            plan_groups ping ping_filter icmp_alive last prev rts
              (claim rt last (unique_strings (swept.0 ++ seed_ips rt.group prev)) claimed).1
            >>= λ more. ok (
                add_group
                  (claim rt last (unique_strings (swept.0 ++ seed_ips rt.group prev)) claimed).0
                  swept.1 swept.2 more))
          h in
      let ips = unique_strings (swept.0 ++ seed_ips rt.group prev) in
      let now = claim rt last ips claimed in
      let (more, em, e) =
        >>=-eq-ok (plan_groups ping ping_filter icmp_alive last prev rts now.1)
          (λ more. ok (add_group now.0 swept.1 swept.2 more)) h' in
      rw (sym (ok-injective e)) (
        claimed_append claimed now.1 more.claimed now.0 more.jobs (claim_lem rt last ips claimed)
          (plan_groups_lem last prev rts now.1 more em))

  -- No address is probed twice in one scan: the jobs that the planner makes of sweeps, seeds and the
  -- catalog, together with those that the crawl adds for the neighbours, have distinct addresses,
  -- whatever the devices found and the neighbours reported.
  pub plan_jobs-Distinct :
      (walk : Text → ℕ → List SnmpAuth → List Text) (rts : List GroupRuntime)
      (prev found : List AlloyTarget) (plan : Plan)
      → plan_initial_jobs ping ping_filter icmp_alive rts prev ≡ ok plan
      → Distinct (ips_of (plan.jobs ++ (plan_crawl_jobs walk rts prev found plan.claimed).0))
  unfolding plan_initial_jobs plan_crawl_jobs
  plan_jobs-Distinct walk rts prev found plan h =
      let first = plan_groups_lem (last_auth_by_addr prev) prev rts [] plan h in
      let last = put_auths (λ t. not (t.auth == [])) (last_auth_by_addr prev) found in
      let crawl = crawl_groups walk last (found ++ prev) rts plan.claimed in
      (claimed_append [] plan.claimed crawl.1 plan.jobs crawl.0 first
        (crawl_groups_lem walk last (found ++ prev) rts plan.claimed)).0
