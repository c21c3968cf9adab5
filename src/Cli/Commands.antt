-- ===== src/Cli/Commands.antt =====
-- The commands `init`, `walk-catalog`, `walk-pick` and `walk-emit` after the parsing of their flags:
-- cmd/snmp-discovery/init.go and walk.go. What they print on success is left out, except the catalog.
-- Reading and decoding files is a parameter, and so are the SNMP library and the YAML encoder; files are
-- written through the interface `Os`.
use snmp_sd.Base.Error.{Error}
use snmp_sd.Base.{
  ℕ, ℤ, ◌%◌, ◌+◌, Text, codes, Bool, not, Option, none, some, List, [], ◌∷◌, ◌++◌, ◌==◌, Result, ok,
  err, ◌>>=◌, if◌then◌else◌, trim, itoa, length, pos, no_walk_source, no_oids_left, in_command,
}
use snmp_sd.Disk.{Disk}
use snmp_sd.Init.{InitAuth, InitGroup, InitPlan, validate_init_plan}
use snmp_sd.Init.Files.{Os, world_readable, write_new_file, write_init_files}
use snmp_sd.Init.Flags.{parse_auth_v2_flag, parse_auth_v3_flag, parse_group_flag}
use snmp_sd.Walk.Oid.{WalkVar}
use snmp_sd.Walk.Parse.{parse_walk_text, filter_walk}
use snmp_sd.Walk.Library.{LibraryHit, LibModule, load_library_oids}
use snmp_sd.Walk.Live.{Walked, walk_target}
use snmp_sd.Auth.{SnmpAuth}
use snmp_sd.Groups.{DiscoveryFile}
use snmp_sd.Init.Check.{check_auth_discovery}
use snmp_sd.Walk.Cluster.{cluster_walk}
use snmp_sd.Walk.Pick.{PickFile, draft_pick, load_pick_file}
use snmp_sd.Walk.Emit.{EmitBody, emit_pick_module}
use snmp_sd.Walk.Format.{write_walk_catalog}

-- Each flag in turn; the first one that is wrong ends the loop.
each_flag : {A : Type 0} → (Text → Result A) → List Text → Result (List A)
each_flag parse [] = ok []
each_flag parse (s ∷ flags) = parse s >>= λ a. each_flag parse flags >>= λ more. ok (a ∷ more)

unfoldable pub plan_from_flags : List Text → List Text → List Text → List Text → Result InitPlan
unfolding each_flag parse_auth_v2_flag parse_auth_v3_flag parse_group_flag validate_init_plan
plan_from_flags v1 v2 v3 groups = each_flag (λ s. parse_auth_v2_flag s (pos 1)) v1 >>= λ a1.
    each_flag (λ s. parse_auth_v2_flag s (pos 2)) v2 >>= λ a2.
    each_flag parse_auth_v3_flag v3 >>= λ a3. each_flag parse_group_flag groups >>= λ gs.
    let p : InitPlan = record { auths = a1 ++ a2 ++ a3; groups = gs } in
    elim (validate_init_plan p) [ err e ↦ err e | ok done ↦ ok p ]

unfoldable pub suggest_next_auth : List InitAuth → Text
unfolding itoa
suggest_next_auth [] = codes "public_v2"
suggest_next_auth (a ∷ have) = codes "site" ++ itoa (length (a ∷ have) + 1) ++ codes "_v2"

unfoldable pub suggest_next_group : List InitGroup → Text
unfolding itoa
suggest_next_group [] = codes "lab"
suggest_next_group (g ∷ have) = codes "site" ++ itoa (length (g ∷ have) + 1)

pub record WalkFlags : Type 0 where
  pub file : Text
  pub target : Text
  pub auth : Text
  pub snmp_cfg : Text
  pub oid : Text
  pub modules : Text
  pub prefix : Text
  pub port : ℕ
  pub timeout : ℤ

-- What a live walk meets: the library's auths, the connection and the two walks of the SNMP library.
pub record LiveNet : Type 0 where
  pub load_auth : Text → Text → Result SnmpAuth
  pub connect : Text → ℕ → ℤ → ℤ → SnmpAuth → Option Error
  pub bulk_walk : Text → ℕ → ℤ → ℤ → SnmpAuth → Text → Walked
  pub get_next_walk : Text → ℕ → ℤ → ℤ → SnmpAuth → Text → Walked

-- `init` with a plan from its flags. `wizard` is the plan that the questions lead to.
module _ (os : Os) (yaml_scalar : Text → Text) (wizard : Result InitPlan)
    (auth_names_in_file : Text → Result (List Text))
    (load_discovery_file : Text → Result DiscoveryFile) where
  or_path : Text → Text → Text
  unfolding trim ◌==◌
  or_path path default_path = if trim path == [] then default_path else trim path

  init_plan : List Text → List Text → List Text → List Text → Result InitPlan
  unfolding plan_from_flags
  init_plan v1 v2 v3 groups = elim (v2 ++ v1 ++ v3 ++ groups) [
    | [] ↦ wizard
    | s ∷ flags ↦ plan_from_flags v1 v2 v3 groups
  ]

  unfoldable pub run_init_check : Text → Text → Text → Text → Text → Disk → Disk × Option Error
  unfolding or_path check_auth_discovery
  run_init_check auths_out disc_out check_auths check_disc snmp_cfg disk =
      elim (check_auth_discovery auth_names_in_file load_discovery_file
        (or_path check_auths auths_out) (or_path check_disc disc_out) snmp_cfg) [
          | err e ↦ (disk, some e)
          | ok done ↦ (disk, none)
        ]

  unfoldable pub run_init_write :
      Text
      → Text
      → Bool
      → List Text
      → List Text
      → List Text
      → List Text
      → Disk
      → Disk × Option Error
  unfolding init_plan write_init_files
  run_init_write auths_out disc_out force v1 v2 v3 groups disk = elim (init_plan v1 v2 v3 groups) [
    | err e ↦ (disk, some e)
    | ok plan ↦ write_init_files os yaml_scalar auths_out disc_out plan force disk
  ]

module _ (os : Os) (read_file : Text → Result Text) (live : LiveNet)
    (read_library : Text → Result (List (List (Text × LibModule))))
    (pick_yaml : PickFile → Result Text) (read_pick : Text → Result PickFile)
    (marshal : Text → EmitBody → Result Text) where
  unfoldable pub walk_vars : WalkFlags → Result (List WalkVar)
  unfolding parse_walk_text walk_target trim ◌==◌
  walk_vars w =
      if not (trim w.file == [])
      then (read_file w.file >>= parse_walk_text)
      else if not (trim w.target == [])
      then walk_target live.load_auth live.connect live.bulk_walk live.get_next_walk w.target
          (w.port % 65536) w.auth w.snmp_cfg w.oid w.timeout (pos 1)
      else err no_walk_source

  -- Without a library no OID counts as covered.
  library_or_none : Text → List LibraryHit
  unfolding load_library_oids
  library_or_none modules = elim (read_library modules) [
    | err e ↦ []
    | ok files ↦ load_library_oids files
  ]

  with_library : Text → List WalkVar → Result (List WalkVar × List LibraryHit)
  unfolding library_or_none
  with_library modules [] = err no_oids_left
  with_library modules (v ∷ vars) = ok (v ∷ vars, library_or_none modules)

  unfoldable pub load_walk : WalkFlags → Result (List WalkVar × List LibraryHit)
  unfolding walk_vars with_library filter_walk
  load_walk w = walk_vars w >>= λ vars. with_library w.modules (filter_walk vars w.prefix)

  -- `WritePickFile` and `WriteEmitFile`, with the rendered text.
  write_text : Text → Result Text → Bool → Disk → Disk × Option Error
  unfolding write_new_file
  write_text path (err e) force disk = (disk, some e)
  write_text path (ok body) force disk = write_new_file os path body world_readable force disk

  -- The text on the standard output stands first.
  unfoldable pub run_walk_catalog :
      WalkFlags → Bool → Text → Bool → Disk → Text × (Disk × Option Error)
  unfolding load_walk write_text cluster_walk draft_pick write_walk_catalog trim ◌==◌
  run_walk_catalog w show_covered write_pick force disk = elim (load_walk w) [
    | err e ↦ ([], (disk, some (in_command (codes "walk-catalog") e)))
    | ok (vars, lib) ↦
        let cat = cluster_walk vars in
        (
          write_walk_catalog cat lib show_covered,
          if trim write_pick == []
              then (disk, none)
              else write_text (trim write_pick) (pick_yaml (draft_pick cat lib vars)) force disk,
        )
  ]

  unfoldable pub run_walk_pick : WalkFlags → Text → Bool → Disk → Disk × Option Error
  unfolding load_walk write_text cluster_walk draft_pick
  run_walk_pick w out force disk = elim (load_walk w) [
    | err e ↦ (disk, some (in_command (codes "walk-pick") e))
    | ok (vars, lib) ↦
        write_text out (pick_yaml (draft_pick (cluster_walk vars) lib vars)) force disk
  ]

  -- The warning on picks that the library covers is left out.
  unfoldable pub run_walk_emit : Text → Text → Bool → Disk → Disk × Option Error
  unfolding load_pick_file emit_pick_module write_text
  run_walk_emit pick out force disk = elim (read_pick pick >>= load_pick_file) [
    | err e ↦ (disk, some (in_command (codes "walk-emit") e))
    | ok p ↦ elim (emit_pick_module marshal p) [
      | err e ↦ (disk, some (in_command (codes "walk-emit") e))
      | ok body ↦ write_text out (ok body) force disk
    ]
  ]
