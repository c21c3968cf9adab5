-- ===== src/Init/Check.antt =====
-- `init --check`: snmpdiscovery/initcfg.go (AuthNamesInFile, CheckAuthDiscovery). Reading the names of a
-- file of auths is a parameter, `os.ReadFile` and the YAML parser behind it; so is `LoadDiscoveryFile`.
use snmp_sd.Base.{
  Text, not, List, [], ◌∷◌, ◌++◌, ◌==◌, Result, ok, err, ◌>>=◌, eqb, length, if◌then◌else◌, trim,
  contains, keep, unique_by, no_auth_names, names_missing,
}
use snmp_sd.Groups.{DiscoveryGroup, DiscoveryFile}

module _ (auth_names_in_file : Text → Result (List Text))
    (load_discovery_file : Text → Result DiscoveryFile) where
  -- The names of a file, unless its path is blank.
  unfoldable pub names_of : Text → Result (List Text)
  unfolding trim ◌==◌
  names_of path = if trim path == [] then ok [] else auth_names_in_file (trim path)

  source_of : Text → List Text
  unfolding trim ◌==◌
  source_of path = if trim path == [] then [] else trim path ∷ []

  group_auths : List DiscoveryGroup → List Text
  group_auths [] = []
  group_auths (g ∷ groups) = g.auths ++ group_auths groups

  -- Each auth that is not known, once.
  unfoldable pub missing_auths : List Text → List DiscoveryGroup → List Text
  unfolding group_auths unique_by ◌==◌
  missing_auths names groups =
      unique_by (λ a. a) [] (keep (λ a. not (contains a names)) (group_auths groups))

  report : List Text → List Text → Result (Unit {0})
  report sources [] = ok tt
  report sources (a ∷ missing) = err (names_missing (a ∷ missing) sources)

  check_names_of : Text → List Text → List Text → Result (Unit {0})
  unfolding missing_auths report
  check_names_of discovery_path sources names =
      if eqb (length names) 0
      then err (no_auth_names sources)
      else (load_discovery_file discovery_path >>= λ disc.
          report sources (missing_auths names disc.groups))

  unfoldable pub check_auth_discovery : Text → Text → Text → Result (Unit {0})
  unfolding names_of source_of check_names_of
  check_auth_discovery auths_path discovery_path snmp_config_path = names_of auths_path >>= λ first.
      names_of snmp_config_path >>= λ second.
      check_names_of discovery_path (source_of auths_path ++ source_of snmp_config_path)
        (first ++ second)
