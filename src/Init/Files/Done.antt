-- ===== src/Init/Files/Done.antt =====
-- What a successful run of `init` has written: snmpdiscovery/initcfg.go (WriteInitFiles, writeNewFile,
-- ValidateInitPlan).
use snmp_sd.Base.Error.{Error}
use snmp_sd.Base.{
  ℕ, Text, Bool, false, ◌&&◌, not, Option, none, some, [], ◌==◌, ◌≡◌, refl, ◌∙◌, Result, ok, err,
  lookup, Bool-cases, inl, inr, ◌≢◌,
}
use snmp_sd.Init.{InitPlan, validate_init_plan}
use snmp_sd.Init.Render.{render_auths_yaml, render_discovery_yaml}
use snmp_sd.Init.Files.{
  Disk, Os, owner_only, world_readable, then_chmod, is_there, write_new_file, then_discovery,
  write_texts, if_valid, write_init_files,
}
use snmp_sd.Init.Files.Kept.{write_new_file_elsewhere}

-- The file has the text and the mode.
abbrev pub Holds : Disk → Text → Text → ℕ → Type 0
Holds disk path body mode = lookup path disk ≡ some (record { body = body; mode = mode })

some-ne-none : (e : Error) → some e ≢ none
some-ne-none e h = cc

module _ (os : Os) where
  then_chmod_done :
      (path body : Text) (mode : ℕ) (r : Disk × Option Error)
      → (r.1 ≡ none → (old : ℕ) × Holds r.0 path body old)
      → (then_chmod os path mode r).1 ≡ none
      → Holds (then_chmod os path mode r).0 path body mode
  unfolding then_chmod
  then_chmod_done path body mode (disk, some e) h done = cc
  then_chmod_done path body mode (disk, none) h done =
      let (old, there) = h refl in os.chmod_done path body old mode disk there done

  write_new_file_done :
      (path body : Text) (mode : ℕ) (overwrite : Bool) (disk : Disk)
      → (write_new_file os path body mode overwrite disk).1 ≡ none
      → Holds (write_new_file os path body mode overwrite disk).0 path body mode
  unfolding write_new_file
  write_new_file_done path body mode overwrite disk done = elim (Bool-cases (path == [])) [
    | inl e ↦ absurd (some-ne-none _ (rw e at done))
    | inr e ↦ elim (Bool-cases (is_there path disk && not overwrite)) [
      | inl f ↦ absurd (some-ne-none _ (rw (e, f) at done))
      | inr f ↦
          rw (e, f)
            (then_chmod_done path body mode (os.write_file path body mode disk)
              (os.write_file_done path body mode disk) (rw (e, f) at done))
    ]
  ]

  -- Both files, the first of which the second write leaves alone.
  then_discovery_done :
      (auths_path discovery_path ay dy : Text) (overwrite : Bool) (r : Disk × Option Error)
      → (discovery_path == auths_path) ≡ false
      → (r.1 ≡ none → Holds r.0 auths_path ay owner_only)
      → (then_discovery os discovery_path dy overwrite r).1 ≡ none
      → let disk = (then_discovery os discovery_path dy overwrite r).0 in
        Holds disk auths_path ay owner_only × Holds disk discovery_path dy world_readable
  unfolding then_discovery
  then_discovery_done auths_path discovery_path ay dy overwrite (disk, some e) apart h done = cc
  then_discovery_done auths_path discovery_path ay dy overwrite (disk, none) apart h done = (
    write_new_file_elsewhere os discovery_path dy auths_path world_readable overwrite disk apart
        ∙ h refl,
    write_new_file_done discovery_path dy world_readable overwrite disk done,
  )

  write_texts_done :
      (auths_path discovery_path : Text) (overwrite : Bool) (disk : Disk) (ay dy : Result Text)
      → (discovery_path == auths_path) ≡ false
      → (write_texts os auths_path discovery_path overwrite disk ay dy).1 ≡ none
      → let after = (write_texts os auths_path discovery_path overwrite disk ay dy).0 in
        (a : Text) × (d : Text) × (ay ≡ ok a)
        × (dy ≡ ok d)
        × Holds after auths_path a owner_only
        × Holds after discovery_path d world_readable
  unfolding write_texts
  write_texts_done auths_path discovery_path overwrite disk (err e) dy apart done = cc
  write_texts_done auths_path discovery_path overwrite disk (ok a) (err e) apart done = cc
  write_texts_done auths_path discovery_path overwrite disk (ok a) (ok d) apart done =
      let both =
        then_discovery_done auths_path discovery_path a d overwrite
          (write_new_file os auths_path a owner_only overwrite disk) apart
          (write_new_file_done auths_path a owner_only overwrite disk) done in
      (a, d, refl, refl, both.0, both.1)

  if_valid_done :
      (disk : Disk) (valid : Result (Unit {0})) (r : Disk × Option Error)
      → (if_valid os disk valid r).1 ≡ none
      → (valid ≡ ok tt) × (if_valid os disk valid r ≡ r)
  unfolding if_valid
  if_valid_done disk (err e) r done = cc
  if_valid_done disk (ok tt) r done = (refl, refl)

  -- When `init` reports no error, for two different paths, the plan was valid, the auths file holds the
  -- rendered auths and only its owner may read it, and the discovery file holds the rendered groups.
  pub write_init_files_done :
      (yaml_scalar : Text → Text) (auths_path discovery_path : Text) (p : InitPlan)
      (overwrite : Bool) (disk : Disk)
      → (discovery_path == auths_path) ≡ false
      → (write_init_files os yaml_scalar auths_path discovery_path p overwrite disk).1 ≡ none
      → let after =
          (write_init_files os yaml_scalar auths_path discovery_path p overwrite disk).0 in
        (validate_init_plan p ≡ ok tt)
        × ((a : Text) × (d : Text) × (render_auths_yaml yaml_scalar p.auths ≡ ok a)
            × (render_discovery_yaml yaml_scalar p.groups ≡ ok d)
            × Holds after auths_path a owner_only
            × Holds after discovery_path d world_readable)
  unfolding write_init_files
  write_init_files_done yaml_scalar auths_path discovery_path p overwrite disk apart done =
      let ay = render_auths_yaml yaml_scalar p.auths in
      let dy = render_discovery_yaml yaml_scalar p.groups in
      let r = write_texts os auths_path discovery_path overwrite disk ay dy in
      let (valid, same) = if_valid_done disk (validate_init_plan p) r done in
      (
        valid,
        rw same (
            write_texts_done auths_path discovery_path overwrite disk ay dy apart
              (rw same at done)),
      )
