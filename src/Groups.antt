-- ===== src/Groups.antt =====
-- The discovery file: its groups and their validation, of snmpdiscovery/groups.go, and the run
-- configuration of snmpdiscovery/runconfig.go.
pub mod Valid
use snmp_sd.Base.Error.{Error}
use snmp_sd.Base.{
  ℕ, zero, suc, ◌+◌, Text, codes, Bool, true, false, not, Option, none, some, List, [], ◌∷◌, ◌++◌,
  ◌==◌, ◌&&◌, ◌||◌, Result, ok, err, ◌>>=◌, ◌>>◌, ltb, leb, eqb, if◌then◌else◌, trim, lower, split,
  join, map, length, keep, contains, Assoc, lookup, insert, no_groups, group_without_name,
  duplicate_group, group_without_cidrs, group_without_auths, description_not_one_line,
  description_too_long, unknown_mode, config_or_cidrs, auths_required,
}
use snmp_sd.Overrides.{Override, split_csv}
use snmp_sd.Target.{AlloyTarget}
use snmp_sd.Address.{must_canon_ip}
use snmp_sd.Fingerprint.{ModuleTiers, partition_legacy_modules}

-- `ping` is the pointer of the source: `none` is nil.
pub record DiscoveryGroup : Type 0 where
  pub name : Text
  pub description : Text
  pub cidrs : List Text
  pub exclude : List Text
  pub seeds : List Text
  pub auths : List Text
  pub fingerprinter : Text
  pub port : ℕ
  pub allow_large : Bool
  pub mode : Text
  pub ping : Option Bool

pub record DiscoveryFile : Type 0 where
  pub groups : List DiscoveryGroup
  pub overrides : List Override

abbrev pub mode_sweep : Text
mode_sweep = codes "sweep"

abbrev pub mode_crawl : Text
mode_crawl = codes "crawl"

abbrev pub mode_both : Text
mode_both = codes "both"

abbrev pub max_group_description : ℕ
max_group_description = 256

-- `strings.ContainsAny(description, "\r\n")`
unfoldable pub has_line_break : Text → Bool
has_line_break [] = false
has_line_break (c ∷ s) = eqb c 13 || eqb c 10 || has_line_break s

unfoldable pub validate_group_description : Text → Text → Result (Unit {0})
unfolding has_line_break
validate_group_description name description =
    if has_line_break description
    then err (description_not_one_line name)
    else if ltb max_group_description (length description)
    then err (description_too_long name)
    else ok tt

unfoldable pub group_mode : DiscoveryGroup → Text
group_mode g = if lower (trim g.mode) == [] then mode_both else lower (trim g.mode)

unfoldable pub group_uses_ping : DiscoveryGroup → Bool → Bool
group_uses_ping g false = false
group_uses_ping g true = elim g.ping [ none ↦ true | some b ↦ b ]

unfoldable pub is_mode : Text → Bool
is_mode m = m == mode_sweep || m == mode_crawl || m == mode_both

-- The body of the loop of `validate` behind the test for a duplicate.
unfoldable pub validate_group : Text → DiscoveryGroup → Result (Unit {0})
unfolding validate_group_description group_mode is_mode
validate_group name g =
    if eqb (length g.cidrs) 0
    then err (group_without_cidrs name)
    else if eqb (length g.auths) 0
    then err (group_without_auths name)
    else do
      validate_group_description name g.description
      if is_mode (group_mode g) then ok tt else err (unknown_mode name g.mode)

unfoldable pub validate_groups : ℕ → List Text → List DiscoveryGroup → Result (Unit {0})
unfolding validate_group
validate_groups i seen [] = ok tt
validate_groups i seen (g ∷ gs) =
    let name = trim g.name in
    let rest = validate_groups (i + 1) (name ∷ seen) gs in
    if name == []
    then err (group_without_name i)
    else if contains name seen
    then err (duplicate_group name)
    else (validate_group name g >> rest)

unfoldable pub validate : DiscoveryFile → Result (Unit {0})
unfolding validate_groups
validate f = elim f.groups [ [] ↦ err no_groups | g ∷ gs ↦ validate_groups 0 [] (g ∷ gs) ]

unfoldable pub cli_group : Text → List Text → List Text → ℕ → Bool → Text → DiscoveryFile
cli_group name cidrs auths port allow_large fp = record {
  groups =
      record {
        name = if name == [] then codes "cli" else name;
        description = [];
        cidrs = cidrs;
        exclude = [];
        seeds = [];
        auths = auths;
        fingerprinter = if fp == [] then codes "network" else fp;
        port = port;
        allow_large = allow_large;
        mode = mode_sweep;
        ping = none;
      }
      ∷ [];
  overrides = [];
}

-- `load` is `LoadDiscoveryFile`, which reads and validates the file of a path.
unfoldable pub load_run_config :
    (Text → Result DiscoveryFile) → Text → Text → Text → ℕ → Bool → Text → Result DiscoveryFile
unfolding cli_group split_csv
load_run_config load config_path cidrs auths port allow_large fp =
    if not (trim config_path == [])
    then load (trim config_path)
    else if eqb (length (split_csv cidrs)) 0
    then err config_or_cidrs
    else if eqb (length (split_csv auths)) 0
    then err auths_required
    else ok (cli_group (codes "cli") (split_csv cidrs) (split_csv auths) port allow_large fp)

-- `LoadDiscoveryFile`: `read_file` is `os.ReadFile`, `unmarshal` is `yaml.Unmarshal`.
unfoldable pub load_discovery_file :
    (Text → Result Text) → (Text → Result DiscoveryFile) → Text → Result DiscoveryFile
unfolding validate
load_discovery_file read_file unmarshal path = do
  b ← read_file path
  f ← unmarshal b
  validate f
  ok f

-- What reading the overrides file gives: it may be missing.
pub data FileRead : Type 0 where
  missing : FileRead
  unreadable : Error → FileRead
  contents : Text → FileRead

-- `MergeOverridesFile`: only the overrides of the file are appended.
unfoldable pub merge_overrides_file :
    (Text → FileRead) → (Text → Result DiscoveryFile) → DiscoveryFile → Text → Result DiscoveryFile
merge_overrides_file read_file unmarshal cfg path =
    if trim path == [] then ok cfg else elim (read_file (trim path)) [
      | missing ↦ ok cfg
      | unreadable e ↦ err e
      | contents b ↦
          (unmarshal b >>= λ extra.
          ok (record cfg { overrides = cfg.overrides ++ extra.overrides }))
    ]
