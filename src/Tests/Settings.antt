-- ===== src/Tests/Settings.antt =====
-- The theorems on auths, groups, tiers and fingerprints on sample data.
use snmp_sd.Base.{
  Text, codes, ◌≡◌, ◌≢◌, ◌↔◌, refl, Bool, true, false, not, List, [], ◌∷◌, ◌==◌, text_dec, ◌&&◌,
  map, trim, Distinct, Assoc, lookup, insert, Result, ok,
}
use snmp_sd.Auth.{SnmpAuthYaml, parse_auth, version_auth, community_auth, or_error}
use snmp_sd.AuthFile.{
  put_all, parse_named, some_auths, names_to_try, file_auths, read_auths_map, load_auths_overlay,
}
use snmp_sd.Auth.Sound.{IsUsable, parse_auth-IsUsable}
use snmp_sd.AuthFile.Load.{AreLoaded, load_auths_overlay_sound}
use snmp_sd.Groups.{validate}
use snmp_sd.Overrides.{Override, apply_overrides}
use snmp_sd.Overrides.Apply.{rows_under, apply_overrides_lem}
use snmp_sd.Groups.Valid.{IsValidFile, validate_lem}
use snmp_sd.Tiers.{targets_for_tiers, hot, cold}
use snmp_sd.Tiers.Names.{names, targets_for_tiers-Distinct}
use snmp_sd.Fingerprint.{
  ModuleTiers, known, matcher_hit, match_tiers_result, matcher_tiers, filter_tiers_to_known,
  partition_legacy_modules,
}
use snmp_sd.Fingerprint.Match.{match_tiers_result_first, filter_tiers_to_known_lem, IsFiltered}
use snmp_sd.Fingerprint.Unique.{partition_legacy_modules_lem, in_some_tier, stands_for, AtMostOnce}
use snmp_sd.Tests.{sw1, sw2, matcher, fingerprinter, yaml_v2, auth_named, group}

parse_auth-IsUsable_example :
    IsUsable (auth_named (codes "v2")).version (auth_named (codes "v2"))
    × ((auth_named (codes "v2")).name ≡ codes "v2")
unfolding parse_auth version_auth community_auth ◌==◌ text_dec
parse_auth-IsUsable_example =
    parse_auth-IsUsable (codes "v2") yaml_v2 (auth_named (codes "v2")) refl

abbrev read_file : Text → Result Text
read_file path = ok path

abbrev unmarshal : Text → Result (Assoc SnmpAuthYaml)
unmarshal b = ok ((codes "v2", yaml_v2) ∷ [])

load_auths_overlay_sound_example :
    ((auth_named (codes "v2") ∷ []) ≢ [])
    × ((read : Assoc SnmpAuthYaml × Text) × (read_auths_map read_file unmarshal
            (codes "snmp.yml")
            []
          ≡ ok read)
        × AreLoaded read.0 (names_to_try read.0 (codes "v2" ∷ [])) (auth_named (codes "v2") ∷ []))
unfolding load_auths_overlay read_auths_map file_auths put_all parse_named some_auths names_to_try
    or_error lookup insert parse_auth version_auth community_auth ◌==◌ text_dec trim
load_auths_overlay_sound_example =
    load_auths_overlay_sound read_file unmarshal (codes "snmp.yml") [] (codes "v2" ∷ [])
      (auth_named (codes "v2") ∷ []) refl

abbrev lab_auths : Assoc SnmpAuthYaml
lab_auths = (codes "v2", yaml_v2) ∷ []

validate_lem_example :
    (validate (record { groups = group ∷ []; overrides = [] }) ≡ ok tt)
    ↔ IsValidFile (record { groups = group ∷ []; overrides = [] })
validate_lem_example = validate_lem (record { groups = group ∷ []; overrides = [] })

targets_for_tiers-Distinct_example :
    Distinct (names (targets_for_tiers (sw1 ∷ sw2 ∷ []) (hot ∷ cold ∷ [])))
unfolding ◌==◌ text_dec trim
targets_for_tiers-Distinct_example =
    targets_for_tiers-Distinct (sw1 ∷ sw2 ∷ []) (hot ∷ cold ∷ []) (refl, (refl, tt))

abbrev labels : Assoc Text
labels = (codes "sysDescr", codes "router") ∷ []

abbrev always : Text → Text → Bool
always regex value = true

abbrev never : Text → Text → Bool
never regex value = false

match_tiers_result_first_example :
    match_tiers_result always fingerprinter labels ≡ (matcher_tiers matcher, known)
unfolding matcher_hit lookup ◌==◌ text_dec trim
match_tiers_result_first_example =
    match_tiers_result_first always fingerprinter labels [] [] matcher refl tt refl

abbrev tiers : ModuleTiers
tiers = record { hot = codes "if_mib" ∷ []; cold = codes "gone" ∷ []; topology = [] }

abbrev kept : ModuleTiers × List Text
kept = filter_tiers_to_known tiers (codes "if_mib" ∷ [])

filter_tiers_to_known_lem_example :
    IsFiltered (codes "if_mib" ∷ []) tiers kept.0 kept.1 (codes "gone")
filter_tiers_to_known_lem_example =
    filter_tiers_to_known_lem tiers (codes "if_mib" ∷ []) (codes "gone") (λ e. cc)

abbrev modules : List Text
modules = codes "if_mib" ∷ codes " lldp_mib" ∷ codes "if_mib" ∷ []

partition_legacy_modules_lem_example :
    (in_some_tier (partition_legacy_modules modules) (codes "if_mib")
      ≡ (stands_for (map trim modules) (codes "if_mib") && not (codes "if_mib" == [])))
    × AtMostOnce (partition_legacy_modules modules) (codes "if_mib")
partition_legacy_modules_lem_example = partition_legacy_modules_lem modules (codes "if_mib")

abbrev pin : Override
pin = record {
  address = codes "10.0.0.1";
  ignore = false;
  name = codes "core";
  module_legacy = [];
  module_hot = [];
  module_cold = [];
  module_topology = [];
  auth = [];
}

apply_overrides_lem_example :
    apply_overrides (sw1 ∷ sw2 ∷ []) (pin ∷ []) ≡ rows_under (pin ∷ []) (sw1 ∷ sw2 ∷ [])
apply_overrides_lem_example = apply_overrides_lem (sw1 ∷ sw2 ∷ []) (pin ∷ [])
