-- ===== src/AuthFile.antt =====
-- Loading the named auths from the snmp_exporter file and an overlay: snmpdiscovery/snmp.go. Reading a
-- file and parsing YAML are parameters.
pub mod Load
use snmp_sd.Base.Error.{Error}
use snmp_sd.Base.{
  ℕ, zero, suc, Text, codes, Bool, true, false, not, Option, none, some, List, [], ◌∷◌, ◌++◌, ◌==◌,
  ◌&&◌, ◌||◌, ℤ, pos, negsuc, Result, ok, err, ◌>>=◌, if◌then◌else◌, trim, lower, upper, map, Assoc,
  keys, lookup, insert, sort_texts, unsupported_version, username_missing, password_missing,
  priv_password_missing, unknown_security_level, unknown_auth_protocol, unknown_priv_protocol,
  auths_exclusive, overlay_empty, no_auths, auth_missing, in_auth, in_overlay, in_auths_file,
}
use snmp_sd.Auth.{SnmpAuth, SnmpAuthYaml, or_error, parse_auth}

-- `for k, v := range from { merged[k] = v }`
unfoldable pub put_all {ℓ} : {A : Type ℓ} → Assoc A → Assoc A → Assoc A
put_all merged [] = merged
put_all merged ((k, v) ∷ from) = put_all (insert k v merged) from

-- The loop of `loadAuthsOverlay` over the names.
unfoldable pub parse_named : Assoc SnmpAuthYaml → Text → List Text → Result (List SnmpAuth)
unfolding parse_auth
parse_named cfg src [] = ok []
parse_named cfg src (n ∷ names) = do
  a ← or_error (lookup n cfg) (auth_missing n src)
  parsed ← parse_auth n a
  out ← parse_named cfg src names
  ok (parsed ∷ out)

unfoldable pub some_auths : List SnmpAuth → Result (List SnmpAuth)
some_auths [] = err no_auths
some_auths (a ∷ auths) = ok (a ∷ auths)

-- The names to try: all of them in byte order when none is asked for.
unfoldable pub names_to_try : Assoc SnmpAuthYaml → List Text → List Text
names_to_try cfg [] = sort_texts (keys cfg)
names_to_try cfg (n ∷ names) = n ∷ names

-- `read_file` is `os.ReadFile`, `unmarshal` is `yaml.Unmarshal` into `snmpFile`, whose one field is
-- the map of auths.
module _ (read_file : Text → Result Text) (unmarshal : Text → Result (Assoc SnmpAuthYaml)) where
  unfoldable pub validate_auths_overlay : Text → Result (Assoc SnmpAuthYaml)
  validate_auths_overlay b = elim (unmarshal b) [
    | err e ↦ err (in_overlay e)
    | ok auths ↦ elim auths [ [] ↦ err overlay_empty | a ∷ more ↦ ok (a ∷ more) ]
  ]

  -- `none` is the nil overlay.
  unfoldable pub resolve_auths_overlay : Text → Text → Result (Option Text)
  unfolding validate_auths_overlay
  resolve_auths_overlay inline file =
      let from_file : Result (Option Text) = elim (read_file (trim file)) [
        | err e ↦ err (in_auths_file e)
        | ok b ↦ (validate_auths_overlay b >>= λ _. ok (some b))
      ] in
      let from_inline : Result (Option Text) =
        validate_auths_overlay (trim inline) >>= λ _. ok (some (trim inline)) in
      if not (trim inline == []) && not (trim file == [])
      then err auths_exclusive
      else if not (trim file == [])
      then from_file
      else if not (trim inline == [])
      then from_inline
      else ok none

  -- The map of the file: an unreadable file is an error only where no overlay replaces it.
  unfoldable pub file_auths : Text → Text → Result (Assoc SnmpAuthYaml)
  unfolding put_all
  file_auths path overlay = if path == [] then ok [] else elim (read_file path) [
    | err e ↦ if trim overlay == [] then err e else ok []
    | ok b ↦ (unmarshal b >>= λ auths. ok (put_all [] auths))
  ]

  unfoldable pub read_auths_map : Text → Text → Result (Assoc SnmpAuthYaml × Text)
  unfolding file_auths validate_auths_overlay
  read_auths_map path overlay = file_auths path overlay >>= λ merged.
      if trim overlay == []
      then ok (merged, path)
      else (validate_auths_overlay overlay >>= λ auths. ok (
        put_all merged auths,
        if trim path == [] then codes "auths overlay" else path ++ codes " + auths overlay",
      ))

  unfoldable pub load_auths_overlay : Text → Text → List Text → Result (List SnmpAuth)
  unfolding read_auths_map parse_named some_auths names_to_try
  load_auths_overlay path overlay names = do
    read ← read_auths_map path overlay
    out ← parse_named read.0 read.1 (names_to_try read.0 names)
    some_auths out
