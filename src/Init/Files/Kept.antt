-- ===== src/Init/Files/Kept.antt =====
-- What a failed or successful run of `init` leaves on the disk: snmpdiscovery/initcfg.go
-- (WriteInitFiles, writeNewFile).
use snmp_sd.Base.Error.{Error}
use snmp_sd.Base.{
  ℕ, Text, Bool, false, ◌&&◌, not, Option, none, some, [], ◌==◌, eq_iff, ◌≡◌, refl, ◌∙◌, Result, ok,
  err, lookup, arith, Bool-cases, inl, inr,
}
use snmp_sd.Init.{InitPlan, validate_init_plan}
use snmp_sd.Init.Render.{render_auths_yaml, render_discovery_yaml}
use snmp_sd.Disk.{File, Disk}
use snmp_sd.Init.Files.{
  Os, owner_only, world_readable, then_chmod, is_there, write_new_file, then_discovery, write_texts,
  if_valid, write_init_files,
}

-- A path that is there is not the one of a file that is not.
apart :
    (path k : Text) (f : File) (disk : Disk)
    → lookup k disk ≡ some f
    → is_there path disk ≡ false
    → (path == k) ≡ false
unfolding is_there
apart path k f disk h gone = elim (Bool-cases (path == k)) [
  | inr e ↦ e
  | inl e ↦ absurd (ground (arith, h, gone, eq_iff path k))
]

module _ (os : Os) where
  then_chmod_elsewhere :
      (path k : Text) (mode : ℕ) (r : Disk × Option Error)
      → (path == k) ≡ false
      → lookup k (then_chmod os path mode r).0 ≡ lookup k r.0
  unfolding then_chmod
  then_chmod_elsewhere path k mode (disk, some e) h = refl
  then_chmod_elsewhere path k mode (disk, none) h = os.chmod_elsewhere path mode disk k h

  pub write_new_file_elsewhere :
      (path body k : Text) (mode : ℕ) (overwrite : Bool) (disk : Disk)
      → (path == k) ≡ false
      → lookup k (write_new_file os path body mode overwrite disk).0 ≡ lookup k disk
  unfolding write_new_file
  write_new_file_elsewhere path body k mode overwrite disk h = elim (Bool-cases (path == [])) [
    | inl e ↦ rw e refl
    | inr e ↦ elim (Bool-cases (is_there path disk && not overwrite)) [
      | inl f ↦ rw (e, f) refl
      | inr f ↦
          rw (e, f)
            (then_chmod_elsewhere path k mode (os.write_file path body mode disk) h
              ∙ os.write_file_elsewhere path body mode disk k h)
    ]
  ]

  write_new_file_keeps :
      (path body k : Text) (mode : ℕ) (f : File) (disk : Disk)
      → lookup k disk ≡ some f
      → lookup k (write_new_file os path body mode false disk).0 ≡ some f
  unfolding write_new_file
  write_new_file_keeps path body k mode f disk h = elim (Bool-cases (is_there path disk)) [
    | inl e ↦ elim (Bool-cases (path == [])) [ inl d ↦ rw d h | inr d ↦ rw (d, e) h ]
    | inr e ↦ write_new_file_elsewhere path body k mode false disk (apart path k f disk h e) ∙ h
  ]

  then_discovery_keeps :
      (path body k : Text) (f : File) (r : Disk × Option Error)
      → lookup k r.0 ≡ some f
      → lookup k (then_discovery os path body false r).0 ≡ some f
  unfolding then_discovery
  then_discovery_keeps path body k f (disk, some e) h = h
  then_discovery_keeps path body k f (disk, none) h =
      write_new_file_keeps path body k world_readable f disk h

  write_texts_keeps :
      (auths_path discovery_path k : Text) (f : File) (disk : Disk) (ay dy : Result Text)
      → lookup k disk ≡ some f
      → lookup k (write_texts os auths_path discovery_path false disk ay dy).0 ≡ some f
  unfolding write_texts
  write_texts_keeps auths_path discovery_path k f disk (err e) dy h = h
  write_texts_keeps auths_path discovery_path k f disk (ok ay) (err e) h = h
  write_texts_keeps auths_path discovery_path k f disk (ok ay) (ok dy) h =
      then_discovery_keeps discovery_path dy k f _
        (write_new_file_keeps auths_path ay k owner_only f disk h)

  if_valid_keeps :
      (k : Text) (f : File) (disk : Disk) (valid : Result (Unit {0})) (r : Disk × Option Error)
      → lookup k disk ≡ some f
      → lookup k r.0 ≡ some f
      → lookup k (if_valid os disk valid r).0 ≡ some f
  unfolding if_valid
  if_valid_keeps k f disk (err e) r h _ = h
  if_valid_keeps k f disk (ok done) r _ h = h

  -- Without `overwrite`, `init` changes no file that is there, whether it succeeds or fails.
  pub write_init_files_keeps :
      (yaml_scalar : Text → Text) (auths_path discovery_path : Text) (p : InitPlan) (disk : Disk)
      (k : Text) (f : File)
      → lookup k disk ≡ some f
      → lookup k (write_init_files os yaml_scalar auths_path discovery_path p false disk).0 ≡ some f
  unfolding write_init_files
  write_init_files_keeps yaml_scalar auths_path discovery_path p disk k f h =
      if_valid_keeps k f disk (validate_init_plan p) _ h (
        write_texts_keeps auths_path discovery_path k f disk (render_auths_yaml yaml_scalar p.auths)
          (render_discovery_yaml yaml_scalar p.groups) h)
