-- ===== src/Emit/Atomic.antt =====
-- Writing a file in one piece: snmpdiscovery/emit.go (writeFileAtomic). Each system call may fail;
-- `fails` says with which error, `partial` is what a failing write leaves in the temporary file, whose
-- name is `tmp`, and `removes` says whether the removal of that file works.
pub mod Whole
use snmp_sd.Base.Error.{Error}
use snmp_sd.Base.{
  ℕ, ◌*◌, Text, Bool, true, false, Option, none, some, List, [], ◌∷◌, ◌++◌, ◌==◌, if◌then◌else◌,
  trim, insert, remove, empty_path,
}
use snmp_sd.Disk.{File, Disk, alter, move}

-- The system calls in the order of the code.
pub data Call : Type 0 where
  mkdir_all create_temp write chmod sync close rename : Call

abbrev pub calls : List Call
calls = mkdir_all ∷ create_temp ∷ write ∷ chmod ∷ sync ∷ close ∷ rename ∷ []

-- `os.CreateTemp` makes a file that only its owner may read and write.
abbrev pub temp_mode : ℕ
temp_mode = 6 * 64

module _ (tmp : Text) (partial : Text) (fails : Call → Option Error) (removes : Bool)
    (path b : Text) (mode : ℕ) where
  -- The disk after a call that succeeds. The calls before the renaming work on the temporary file,
  -- and the renaming moves what that file holds.
  unfoldable pub effect : Call → Disk → Disk
  unfolding insert alter move
  effect mkdir_all disk = disk
  effect create_temp disk = insert tmp (record { body = []; mode = temp_mode }) disk
  effect write disk = alter tmp (λ f. record f { body = f.body ++ b }) disk
  effect chmod disk = alter tmp (λ f. record f { mode = mode }) disk
  effect sync disk = disk
  effect close disk = disk
  effect rename disk = move tmp path disk

  -- The deferred `os.Remove`, whose error is dropped.
  unfoldable pub clean_up : Disk → List Disk
  clean_up disk = if removes then remove tmp disk ∷ [] else []

  -- The disks after a call that fails: what the call leaves, then, once the temporary file is there,
  -- what the deferred removal leaves.
  unfoldable pub disks_after_failure : Call → Disk → List Disk
  unfolding alter clean_up
  disks_after_failure mkdir_all disk = disk ∷ []
  disks_after_failure create_temp disk = disk ∷ []
  disks_after_failure write disk =
      let left = alter tmp (λ f. record f { body = f.body ++ partial }) disk in left ∷ clean_up left
  disks_after_failure chmod disk = disk ∷ clean_up disk
  disks_after_failure sync disk = disk ∷ clean_up disk
  disks_after_failure close disk = disk ∷ clean_up disk
  disks_after_failure rename disk = disk ∷ clean_up disk

  -- The disks from the first one on, one for each call, and the error.
  unfoldable pub proceed :
      Disk → List Disk → Option Error → List Disk × Option Error → List Disk × Option Error
  proceed disk failed (some e) rest = (disk ∷ failed, some e)
  proceed disk failed none rest = (disk ∷ rest.0, rest.1)

  unfoldable pub run_calls : List Call → Disk → List Disk × Option Error
  unfolding effect disks_after_failure proceed
  run_calls [] disk = (disk ∷ [], none)
  run_calls (c ∷ cs) disk =
      proceed disk (disks_after_failure c disk) (fails c) (run_calls cs (effect c disk))

  unfoldable pub write_file_atomic : Disk → List Disk × Option Error
  unfolding run_calls trim ◌==◌
  write_file_atomic disk =
      if trim path == [] then (disk ∷ [], some empty_path) else run_calls calls disk
