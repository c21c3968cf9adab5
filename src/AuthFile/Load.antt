-- ===== src/AuthFile/Load.antt =====
-- What `loadAuthsOverlay` of snmpdiscovery/snmp.go returns, and which of two definitions of an auth
-- it takes.
use snmp_sd.Base.{
  Text, ◌≡◌, ◌≢◌, refl, Option, none, some, List, [], ◌∷◌, Result, ok, ◌>>=◌, sym, auth_missing,
  lookup_absent, >>=-eq-ok, arith, eq_iff, trim, Distinct, Assoc, keys, lookup, insert,
  lookup-insert,
}
use snmp_sd.Auth.{SnmpAuth, SnmpAuthYaml, parse_auth, or_error}
use snmp_sd.AuthFile.{
  put_all, parse_named, some_auths, names_to_try, file_auths, validate_auths_overlay,
  read_auths_map, load_auths_overlay,
}
use snmp_sd.Auth.Sound.{IsUsable, parse_auth-IsUsable}

-- One auth for each name, in order: usable, under that name, and the parse of the map's entry.
abbrev pub AreLoaded : Assoc SnmpAuthYaml → List Text → List SnmpAuth → Type 0
AreLoaded cfg [] [] = Unit
AreLoaded cfg [] (a ∷ auths) = ⊥
AreLoaded cfg (n ∷ names) [] = ⊥
AreLoaded cfg (n ∷ names) (a ∷ auths) =
    ((y : SnmpAuthYaml) × (lookup n cfg ≡ some y) × (parse_auth n y ≡ ok a))
    × (a.name ≡ n)
    × IsUsable a.version a
    × AreLoaded cfg names auths

one_named :
    (o : Option SnmpAuthYaml) (n src : Text) (rest : Result (List SnmpAuth)) (auths : List SnmpAuth)
    → (or_error o (auth_missing n src) >>= λ a.
        parse_auth n a >>= λ p. rest >>= λ out. ok (p ∷ out))
      ≡ ok auths
    → (y : SnmpAuthYaml) × (a : SnmpAuth) × (out : List SnmpAuth) × (o ≡ some y)
      × (parse_auth n y ≡ ok a)
      × (rest ≡ ok out)
      × (a ∷ out ≡ auths)
unfolding or_error
one_named none n src rest auths h = cc
one_named (some y) n src rest auths h =
    let (a, ea, h') = >>=-eq-ok (parse_auth n y) (λ p. rest >>= λ out. ok (p ∷ out)) h in
    let (out, eo, h'') = >>=-eq-ok rest (λ out. ok (a ∷ out)) h' in (y, a, out, refl, ea, eo, cc)

parse_named-AreLoaded :
    (cfg : Assoc SnmpAuthYaml) (src : Text) (names : List Text) (auths : List SnmpAuth)
    → parse_named cfg src names ≡ ok auths
    → AreLoaded cfg names auths
unfolding parse_named
parse_named-AreLoaded cfg src [] [] h = tt
parse_named-AreLoaded cfg src [] (a ∷ auths) h = cc
parse_named-AreLoaded cfg src (n ∷ names) auths h =
    let (y, a, out, ey, ea, eo, eq) =
      one_named (lookup n cfg) n src (parse_named cfg src names) auths h in
    let (usable, name) = parse_auth-IsUsable n y a ea in
    rw (sym eq) ((y, ey, ea), name, usable, parse_named-AreLoaded cfg src names out eo)

lookup-put_all :
    (k : Text) (m from : Assoc SnmpAuthYaml)
    → Distinct (keys from)
    → lookup k (put_all m from) ≡ elim (lookup k from) [ some v ↦ some v | none ↦ lookup k m ]
unfolding put_all lookup
lookup-put_all k m [] d = refl
lookup-put_all k m ((j, v) ∷ from) (d, ds) = ground (
  arith,
  lookup-put_all k (insert j v m) from ds,
  lookup-insert j k v m,
  lookup_absent j from d,
  eq_iff j k,
)

some_auths_lem :
    (out auths : List SnmpAuth) → some_auths out ≡ ok auths → (auths ≢ []) × (out ≡ auths)
unfolding some_auths
some_auths_lem [] auths h = cc
some_auths_lem (a ∷ out) auths h = ground arith

module _ (read_file : Text → Result Text) (unmarshal : Text → Result (Assoc SnmpAuthYaml)) where
  -- A successful load is not empty, and holds one usable auth for each name to try, in the order of
  -- the names, each the parse of what the merged map holds under its name.
  pub load_auths_overlay_sound :
      (path overlay : Text) (names : List Text) (auths : List SnmpAuth)
      → load_auths_overlay read_file unmarshal path overlay names ≡ ok auths
      → (auths ≢ [])
        × ((read : Assoc SnmpAuthYaml × Text) × (read_auths_map read_file unmarshal path overlay
              ≡ ok read)
            × AreLoaded read.0 (names_to_try read.0 names) auths)
  unfolding load_auths_overlay
  load_auths_overlay_sound path overlay names auths h =
      let (read, er, h') =
        >>=-eq-ok (read_auths_map read_file unmarshal path overlay)
          (λ read. parse_named read.0 read.1 (names_to_try read.0 names) >>= some_auths) h in
      let (out, eo, h'') =
        >>=-eq-ok (parse_named read.0 read.1 (names_to_try read.0 names)) some_auths h' in
      let (ne, same) = some_auths_lem out auths h'' in
      (
        ne,
        (
          read,
          er,
          parse_named-AreLoaded read.0 read.1 (names_to_try read.0 names) auths (rw same at eo),
        ),
      )

  -- Where both the file and the overlay define an auth the overlay's definition is taken, and the
  -- file's wherever the overlay has none; the keys of the overlay, a map, are distinct.
  pub read_auths_map-overlay_wins :
      (path overlay k : Text) (base over read : Assoc SnmpAuthYaml) (src : Text)
      → trim overlay ≢ []
      → file_auths read_file unmarshal path overlay ≡ ok base
      → unmarshal overlay ≡ ok over
      → Distinct (keys over)
      → read_auths_map read_file unmarshal path overlay ≡ ok (read, src)
      → lookup k read ≡ elim (lookup k over) [ some v ↦ some v | none ↦ lookup k base ]
  unfolding read_auths_map validate_auths_overlay
  read_auths_map-overlay_wins path overlay k base over read src t hb ho d h =
      ground (arith, eq_iff (trim overlay) [], lookup-put_all k base over d)
