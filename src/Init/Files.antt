-- ===== src/Init/Files.antt =====
-- Writing the two files: snmpdiscovery/initcfg.go (WriteInitFiles, writeNewFile). The file system is a
-- map from paths to files; `os.WriteFile` and `os.Chmod` are operations of the interface `Os`, which
-- change no file but the one that they are called on.
pub mod Kept
pub mod Done
use snmp_sd.Base.Error.{Error}
use snmp_sd.Base.{
  ℕ, ◌+◌, ◌*◌, Text, codes, Bool, true, false, ◌&&◌, not, Option, none, some, List, [], ◌∷◌, ◌==◌,
  ◌≡◌, Result, ok, err, if◌then◌else◌, Assoc, lookup, empty_path, file_exists,
}
use snmp_sd.Disk.{File, Disk}
use snmp_sd.Init.{InitPlan, validate_init_plan}
use snmp_sd.Init.Render.{render_auths_yaml, render_discovery_yaml}

-- Each operation gives the disk after it and its error, if any. `os.Stat` succeeds exactly on the paths
-- of the disk.
pub record Os : Type 0 where
  pub write_file : Text → Text → ℕ → Disk → Disk × Option Error
  pub chmod : Text → ℕ → Disk → Disk × Option Error
  pub write_file_elsewhere :
      (path body : Text) (mode : ℕ) (disk : Disk) (other : Text)
      → (path == other) ≡ false
      → lookup other (write_file path body mode disk).0 ≡ lookup other disk
  pub chmod_elsewhere :
      (path : Text) (mode : ℕ) (disk : Disk) (other : Text)
      → (path == other) ≡ false
      → lookup other (chmod path mode disk).0 ≡ lookup other disk
  pub write_file_done :
      (path body : Text) (mode : ℕ) (disk : Disk)
      → (write_file path body mode disk).1 ≡ none
      → (old : ℕ) × (lookup path (write_file path body mode disk).0
          ≡ some (record { body = body; mode = old }))
  pub chmod_done :
      (path body : Text) (old mode : ℕ) (disk : Disk)
      → lookup path disk ≡ some (record { body = body; mode = old })
      → (chmod path mode disk).1 ≡ none
      → lookup path (chmod path mode disk).0 ≡ some (record { body = body; mode = mode })

-- 0o600 and 0o644
abbrev pub owner_only : ℕ
owner_only = 6 * 64

abbrev pub world_readable : ℕ
world_readable = 6 * 64 + 4 * 8 + 4

unfoldable pub is_there : Text → Disk → Bool
unfolding lookup
is_there path disk = elim (lookup path disk) [ none ↦ false | some _ ↦ true ]

module _ (os : Os) where
  unfoldable pub then_chmod : Text → ℕ → Disk × Option Error → Disk × Option Error
  then_chmod path mode (disk, some e) = (disk, some e)
  then_chmod path mode (disk, none) = os.chmod path mode disk

  unfoldable pub write_new_file : Text → Text → ℕ → Bool → Disk → Disk × Option Error
  unfolding then_chmod is_there ◌==◌
  write_new_file path body mode overwrite disk =
      if path == []
      then (disk, some empty_path)
      else if is_there path disk && not overwrite
      then (disk, some (file_exists path))
      else then_chmod path mode (os.write_file path body mode disk)

  -- The discovery file is written when the auths file has been.
  unfoldable pub then_discovery : Text → Text → Bool → Disk × Option Error → Disk × Option Error
  unfolding write_new_file
  then_discovery path body overwrite (disk, some e) = (disk, some e)
  then_discovery path body overwrite (disk, none) =
      write_new_file path body world_readable overwrite disk

  unfoldable pub write_texts :
      Text → Text → Bool → Disk → Result Text → Result Text → Disk × Option Error
  unfolding write_new_file then_discovery
  write_texts auths_path discovery_path overwrite disk (err e) _ = (disk, some e)
  write_texts auths_path discovery_path overwrite disk (ok ay) (err e) = (disk, some e)
  write_texts auths_path discovery_path overwrite disk (ok ay) (ok dy) =
      then_discovery discovery_path dy overwrite
        (write_new_file auths_path ay owner_only overwrite disk)

  -- Nothing is written for a plan that is not valid.
  unfoldable pub if_valid : Disk → Result (Unit {0}) → Disk × Option Error → Disk × Option Error
  if_valid disk (err e) written = (disk, some e)
  if_valid disk (ok done) written = written

  module _ (yaml_scalar : Text → Text) where
    unfoldable pub write_init_files : Text → Text → InitPlan → Bool → Disk → Disk × Option Error
    unfolding validate_init_plan if_valid write_texts render_auths_yaml render_discovery_yaml
    write_init_files auths_path discovery_path p overwrite disk =
        if_valid disk (validate_init_plan p) (
          write_texts auths_path discovery_path overwrite disk
            (render_auths_yaml yaml_scalar p.auths) (render_discovery_yaml yaml_scalar p.groups))
