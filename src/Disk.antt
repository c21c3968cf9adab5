-- ===== src/Disk.antt =====
-- Files on a disk: a map from paths to files. Directories are not modelled.
use snmp_sd.Base.{
  ℕ, Text, Option, none, some, ◌≡◌, refl, false, ◌==◌, eq_refl, Assoc, lookup, insert, remove,
  lookup-insert, lookup-remove,
}

-- The contents and the permission bits.
pub record File : Type 0 where
  pub body : Text
  pub mode : ℕ

abbrev pub Disk : Type 0
Disk = Assoc File

alter_found : Text → (File → File) → Disk → Option File → Disk
alter_found k change disk none = disk
alter_found k change disk (some f) = insert k (change f) disk

-- What a call on an open file does to it.
unfoldable pub alter : Text → (File → File) → Disk → Disk
unfolding alter_found
alter k change disk = alter_found k change disk (lookup k disk)

move_found : Text → Text → Disk → Option File → Disk
move_found k to disk none = disk
move_found k to disk (some f) = insert to f (remove k disk)

-- `os.Rename`: the file that stands at the first path, if any, stands at the second one then.
unfoldable pub move : Text → Text → Disk → Disk
unfolding move_found
move k to disk = move_found k to disk (lookup k disk)

pub lookup-alter_other :
    (k j : Text) (change : File → File) (disk : Disk)
    → (k == j) ≡ false
    → lookup j (alter k change disk) ≡ lookup j disk
unfolding alter alter_found
lookup-alter_other k j change disk apart = by_file (lookup k disk)
  where
    by_file : (f : Option File) → lookup j (alter_found k change disk f) ≡ lookup j disk
    by_file none = refl
    by_file (some f) = rw (lookup-insert k j (change f) disk, apart) refl

pub lookup-alter_same :
    (k : Text) (change : File → File) (disk : Disk) (f : File)
    → lookup k disk ≡ some f
    → lookup k (alter k change disk) ≡ some (change f)
unfolding alter alter_found
lookup-alter_same k change disk f h = rw (h, lookup-insert k k (change f) disk, eq_refl k) refl

pub lookup-move_to :
    (k to : Text) (disk : Disk) (f : File)
    → lookup k disk ≡ some f
    → lookup to (move k to disk) ≡ some f
unfolding move move_found
lookup-move_to k to disk f h = rw (h, lookup-insert to to f (remove k disk), eq_refl to) refl

pub lookup-move_from :
    (k to : Text) (disk : Disk) (f : File)
    → (to == k) ≡ false
    → lookup k disk ≡ some f
    → lookup k (move k to disk) ≡ none
unfolding move move_found
lookup-move_from k to disk f apart h =
    rw (h, lookup-insert to k f (remove k disk), apart, lookup-remove k k disk, eq_refl k) refl
