-- ===== src/Worker.antt =====
-- What a worker of `probeAll` of snmpdiscovery/scan.go makes of one job: a row, and what it counts. The
-- workers that probe side by side are taken in the order of the jobs.
use snmp_sd.Base.{
  ℕ, ◌+◌, Text, codes, Bool, Option, none, some, List, [], ◌∷◌, ℤ, if◌then◌else◌, length, Assoc,
}
use snmp_sd.Target.{AlloyTarget}
use snmp_sd.Address.{must_canon_ip}
use snmp_sd.Auth.{SnmpAuth}
use snmp_sd.Probe.{ProbeDetail, ProbeResult, Reply, probe}
use snmp_sd.Fingerprint.{known, unknown, match_tiers_result, filter_tiers_to_known}
use snmp_sd.Overrides.{join_modules}
use snmp_sd.Emit.{target_names}
use snmp_sd.Scan.{ProbeJob}

pub record ProbeBatchStats : Type 0 where
  pub errors : ℕ
  pub success : ℕ
  pub first_auth : ℕ
  pub fallback : ℕ
  pub retries : ℕ
  pub modules_dropped : ℕ
  pub fp_known : ℕ
  pub fp_unknown : ℕ

abbrev pub no_stats : ProbeBatchStats
no_stats = record {
  errors = 0;
  success = 0;
  first_auth = 0;
  fallback = 0;
  retries = 0;
  modules_dropped = 0;
  fp_known = 0;
  fp_unknown = 0;
}

unfoldable pub add : ProbeBatchStats → ProbeBatchStats → ProbeBatchStats
add s o = record {
  errors = s.errors + o.errors;
  success = s.success + o.success;
  first_auth = s.first_auth + o.first_auth;
  fallback = s.fallback + o.fallback;
  retries = s.retries + o.retries;
  modules_dropped = s.modules_dropped + o.modules_dropped;
  fp_known = s.fp_known + o.fp_known;
  fp_unknown = s.fp_unknown + o.fp_unknown;
}

-- What the run reaches outside: the SNMP session of an address and port, and `regexp.MatchString`.
pub record Network : Type 0 where
  pub connect : Text → ℕ → SnmpAuth → Option Text
  pub get : Text → ℕ → List Text → SnmpAuth → ℕ → Reply
  pub matches : Text → Text → Bool

pub record ScanParams : Type 0 where
  pub retries : ℕ
  pub misses : ℤ
  pub known_modules : List Text
  pub allow_duplicate_sys_name : Bool
  pub enabled_tiers : List Text
  pub out_alloy : Text
  pub out_sd : Text
  pub state_path : Text

abbrev pub labels_from : ProbeResult → Assoc Text
labels_from res =
    (codes "sysObjectID", res.sys_object_id)
    ∷ (codes "sysName", res.sys_name)
    ∷ (codes "sysDescr", res.sys_descr)
    ∷ []

-- The row of a device that a probe has identified, and what it counts.
unfoldable pub found_target :
    Network → ScanParams → ProbeJob → ProbeResult → ProbeDetail → AlloyTarget × ProbeBatchStats
found_target net p j res detail =
    let matched = match_tiers_result net.matches j.fp (labels_from res) in
    let filtered = filter_tiers_to_known matched.0 p.known_modules in
    let names = target_names res.sys_name res.addr in
    (
      record {
        name = names.0;
        address = must_canon_ip res.addr;
        module_hot = join_modules filtered.0.hot;
        module_cold = join_modules filtered.0.cold;
        module_topology = join_modules filtered.0.topology;
        auth = res.auth_name;
        device_name = names.1;
        sys_object_id = res.sys_object_id;
        snmp_group = j.group.name;
        snmp_tier = [];
        aliases = [];
      },
      record {
        errors = 0;
        success = 1;
        first_auth = if detail.first_auth then 1 else 0;
        fallback = if detail.first_auth then 0 else 1;
        retries = detail.retries;
        modules_dropped = length filtered.1;
        fp_known = elim matched.1 [ known ↦ 1 | unknown ↦ 0 ];
        fp_unknown = elim matched.1 [ known ↦ 0 | unknown ↦ 1 ];
      },
    )

-- One round of a worker.
unfoldable pub probe_job : Network → ScanParams → ProbeJob → Option AlloyTarget × ProbeBatchStats
unfolding found_target
probe_job net p j =
    let tried =
      probe (net.connect j.ip j.port) (net.get j.ip j.port) j.ip p.retries j.auths
        j.fp.probe_oids in
    elim tried.0 [
      | none ↦ (none, record no_stats { errors = 1; retries = tried.1.retries })
      | some res ↦
          let found = found_target net p j res tried.1 in
          if tried.1.success
          then (some found.0, found.1)
          else (none, record no_stats { errors = 1; retries = tried.1.retries })
    ]

unfoldable pub probe_all : Network → ScanParams → List ProbeJob → List AlloyTarget × ProbeBatchStats
unfolding probe_job add
probe_all net p [] = ([], no_stats)
probe_all net p (j ∷ jobs) =
    let one = probe_job net p j in
    let more = probe_all net p jobs in
    (elim one.0 [ none ↦ more.0 | some t ↦ t ∷ more.0 ], add one.1 more.1)
