-- ===== src/Emit/Atomic/Whole.antt =====
-- A reader of the file, between any two calls and if the process ends at one, sees the old file or the new:
-- snmpdiscovery/emit.go (writeFileAtomic).
use snmp_sd.Base.Error.{Error}
use snmp_sd.Base.{
  ℕ, Text, Bool, true, false, Option, none, some, List, [], ◌∷◌, ◌==◌, eq_refl, ◌≡◌, refl, ◌∙◌, ◌⊎◌,
  inl, inr, arith, trim, lookup, lookup-insert, remove, lookup-remove, All, if◌then◌else◌,
  Bool-cases,
}
use snmp_sd.Disk.{
  File, Disk, lookup-alter_other, lookup-alter_same, lookup-move_to, lookup-move_from,
}
use snmp_sd.Emit.Atomic.{
  Call, mkdir_all, create_temp, write, chmod, sync, close, rename, calls, temp_mode, effect,
  clean_up, disks_after_failure, proceed, run_calls, write_file_atomic,
}

abbrev pub last_disk : List Disk → Disk → Disk
last_disk [] disk = disk
last_disk (d ∷ ds) disk = last_disk ds d

module _ (tmp : Text) (partial : Text) (fails : Call → Option Error) (removes : Bool)
    (path b : Text) (mode : ℕ) (apart : (tmp == path) ≡ false) where
  apart2 : (path == tmp) ≡ false
  unfolding ◌==◌
  apart2 = ground (arith, apart)

  abbrev pub new_file : File
  new_file = record { body = b; mode = mode }

  -- The file is as it was, or new.
  abbrev pub IsWhole : Option File → Disk → Type 0
  IsWhole old d = (lookup path d ≡ old) ⊎ (lookup path d ≡ some new_file)

  -- After the last call: the new file without an error, the old one with it; and no temporary file,
  -- unless its removal failed.
  abbrev pub Outcome : Option File → Option Error → Disk → Type 0
  Outcome old none d = (lookup path d ≡ some new_file) × (lookup tmp d ≡ none)
  Outcome old (some e) d = (lookup path d ≡ old) × (removes ≡ true → lookup tmp d ≡ none)

  abbrev IsGood : Option File → List Disk × Option Error → Disk → Type 0
  IsGood old r d = All (IsWhole old) r.0 × Outcome old r.1 (last_disk r.0 d)

  abbrev FailsWell : Option File → List Disk → Disk → Type 0
  FailsWell old failed d =
      All (IsWhole old) failed × ((why : Error) → Outcome old (some why) (last_disk failed d))

  lookup-remove_tmp : (d : Disk) → lookup path (remove tmp d) ≡ lookup path d
  lookup-remove_tmp d = rw (lookup-remove tmp path d, apart) refl

  remove_tmp_gone : (d : Disk) → lookup tmp (remove tmp d) ≡ none
  remove_tmp_gone d = rw (lookup-remove tmp tmp d, eq_refl tmp) refl

  clean_up-FailsWell :
      (old : Option File) (d e : Disk)
      → lookup path d ≡ old
      → FailsWell old (d ∷ clean_up tmp partial fails removes path b mode d) e
  unfolding clean_up
  clean_up-FailsWell old d e h = by_removal removes
    where
      by_removal :
          (r : Bool)
          → let failed = d ∷ (if r then remove tmp d ∷ [] else []) in
            All (IsWhole old) failed
            × ((why : Error)
                → (lookup path (last_disk failed e) ≡ old)
                  × (r ≡ true → lookup tmp (last_disk failed e) ≡ none))
      by_removal true =
          let kept = lookup-remove_tmp d ∙ h in
          ((inl h, (inl kept, tt)), λ why. (kept, λ _. remove_tmp_gone d))
      by_removal false = ((inl h, tt), λ why. (h, λ e. cc))

  -- The calls that find the temporary file there.
  abbrev has_temp : Call → Bool
  has_temp mkdir_all = false
  has_temp create_temp = false
  has_temp _ = true

  failure-FailsWell :
      (old : Option File) (c : Call) (d : Disk)
      → lookup path d ≡ old
      → (has_temp c ≡ true) ⊎ (lookup tmp d ≡ none)
      → FailsWell old (disks_after_failure tmp partial fails removes path b mode c d) d
  unfolding disks_after_failure
  failure-FailsWell old mkdir_all d h (inl t) = cc
  failure-FailsWell old mkdir_all d h (inr t) = ((inl h, tt), λ why. (h, λ _. t))
  failure-FailsWell old create_temp d h (inl t) = cc
  failure-FailsWell old create_temp d h (inr t) = ((inl h, tt), λ why. (h, λ _. t))
  failure-FailsWell old write d h t =
      clean_up-FailsWell old _ d (lookup-alter_other tmp path _ d apart ∙ h)
  failure-FailsWell old chmod d h t = clean_up-FailsWell old d d h
  failure-FailsWell old sync d h t = clean_up-FailsWell old d d h
  failure-FailsWell old close d h t = clean_up-FailsWell old d d h
  failure-FailsWell old rename d h t = clean_up-FailsWell old d d h

  proceed-IsGood :
      (old : Option File) (d e : Disk) (failed : List Disk) (why : Option Error)
      (rest : List Disk × Option Error)
      → lookup path d ≡ old
      → FailsWell old failed d
      → IsGood old rest d
      → IsGood old (proceed tmp partial fails removes path b mode d failed why rest) e
  unfolding proceed
  proceed-IsGood old d e failed none rest h hf (all, end) = ((inl h, all), end)
  proceed-IsGood old d e failed (some why) rest h (all, end) hr = ((inl h, all), end why)

  -- One call, with the old file still in place.
  step :
      (old : Option File) (c : Call) (cs : List Call) (d e : Disk)
      → lookup path d ≡ old
      → (has_temp c ≡ true) ⊎ (lookup tmp d ≡ none)
      → (let next = effect tmp partial fails removes path b mode c d in
          IsGood old (run_calls tmp partial fails removes path b mode cs next) d)
      → IsGood old (run_calls tmp partial fails removes path b mode (c ∷ cs) d) e
  unfolding run_calls
  step old c cs d e h t next =
      proceed-IsGood old d e _ (fails c) _ h (failure-FailsWell old c d h t) next

  run_calls_lem :
      (disk : Disk)
      → lookup tmp disk ≡ none
      → IsGood (lookup path disk) (run_calls tmp partial fails removes path b mode calls disk) disk
  unfolding effect run_calls
  run_calls_lem disk fresh =
      let old = lookup path disk in
      let d1 = effect tmp partial fails removes path b mode create_temp disk in
      let d2 = effect tmp partial fails removes path b mode write d1 in
      let d3 = effect tmp partial fails removes path b mode chmod d2 in
      let p1 : lookup path d1 ≡ old = rw (lookup-insert tmp path _ disk, apart) refl in
      let p2 : lookup path d2 ≡ old = lookup-alter_other tmp path _ d1 apart ∙ p1 in
      let p3 : lookup path d3 ≡ old = lookup-alter_other tmp path _ d2 apart ∙ p2 in
      let t1 : lookup tmp d1 ≡ some (record { body = []; mode = temp_mode }) =
        rw (lookup-insert tmp tmp _ disk, eq_refl tmp) refl in
      let t2 : lookup tmp d2 ≡ some (record { body = b; mode = temp_mode }) =
        lookup-alter_same tmp _ d1 _ t1 in
      let t3 : lookup tmp d3 ≡ some new_file = lookup-alter_same tmp _ d2 _ t2 in
      let new = lookup-move_to tmp path d3 new_file t3 in
      let gone = lookup-move_from tmp path d3 new_file apart2 t3 in
      step old mkdir_all (create_temp ∷ write ∷ chmod ∷ sync ∷ close ∷ rename ∷ []) disk disk refl
        (inr fresh)
        (step old create_temp (write ∷ chmod ∷ sync ∷ close ∷ rename ∷ []) disk disk refl
          (inr fresh)
          (step old write (chmod ∷ sync ∷ close ∷ rename ∷ []) d1 disk p1 (inl refl) (
            step old chmod (sync ∷ close ∷ rename ∷ []) d2 d1 p2 (inl refl) (
              step old sync (close ∷ rename ∷ []) d3 d2 p3 (inl refl) (
                step old close (rename ∷ []) d3 d3 p3 (inl refl)
                  (step old rename [] d3 d3 p3 (inl refl) ((inr new, tt), (new, gone))))))))

  -- Whatever fails, and after every call, the file at the path is the old one or the new one, whole.
  -- Without an error it is the new one in the end, with an error the old one. The temporary file is
  -- gone in the end, except after an error if its removal fails too; its name must be new and not that
  -- of the file.
  pub write_file_atomic_lem :
      (disk : Disk)
      → lookup tmp disk ≡ none
      → let r = write_file_atomic tmp partial fails removes path b mode disk in
        All (IsWhole (lookup path disk)) r.0 × Outcome (lookup path disk) r.1 (last_disk r.0 disk)
  unfolding write_file_atomic
  write_file_atomic_lem disk fresh = elim (Bool-cases (trim path == [])) [
    | inl e ↦ rw (e, All) ((inl refl, tt), (refl, λ _. fresh))
    | inr e ↦ rw (e, All) (run_calls_lem disk fresh)
  ]
