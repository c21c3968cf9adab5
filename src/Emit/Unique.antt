-- ===== src/Emit/Unique.antt =====
-- The names that `uniquifyNames` of snmpdiscovery/emit.go gives.
use snmp_sd.Base.{
  Text, codes, true, ◌++◌, ◌||◌, ◌∙◌, ◌⊎◌, inl, inr, Bool-cases, lookup, ◌≡◌, refl, ap, false, List,
  [], ◌∷◌, map, ◌==◌, eq_iff, if◌then◌else◌, arith, trim, contains, Distinct, All, Assoc, keys,
  insert, lookup_absent, contains-keys-insert,
}
use snmp_sd.Target.{AlloyTarget}
use snmp_sd.Emit.{name_addr_suffix, taken, unique_name, uniquify_loop, uniquify_names}

-- The name that a row asks for: its own, trimmed, or its address.
abbrev pub wanted_name : AlloyTarget → Text
wanted_name t = if trim t.name == [] then t.address else trim t.name

abbrev pub wanted_names : List AlloyTarget → List Text
wanted_names = map wanted_name

-- A row under its wanted name.
abbrev pub under_wanted_name : AlloyTarget → AlloyTarget
under_wanted_name t = record t { name = wanted_name t }

-- None of the names is used.
abbrev Unused : Assoc Text → List Text → Type 0
Unused used = All (λ n. contains n (keys used) ≡ false)

Unused-insert :
    (n addr : Text) (used : Assoc Text) (names : List Text)
    → Unused used names
    → contains n names ≡ false
    → Unused (insert n addr used) names
Unused-insert n addr used [] u h = tt
Unused-insert n addr used (m ∷ names) (um, u) h = ground (
  arith,
  Unused-insert n addr used names u,
  contains-keys-insert n m addr used,
  eq_iff m n,
  eq_iff n m,
)

taken_absent :
    (n addr : Text) (used : Assoc Text) → contains n (keys used) ≡ false → taken n addr used ≡ false
unfolding taken
taken_absent n addr used h = rw (lookup_absent n used h, taken) refl

unique_name-wanted :
    (t : AlloyTarget) (used : Assoc Text)
    → contains (wanted_name t) (keys used) ≡ false
    → unique_name t used ≡ wanted_name t
unfolding unique_name
unique_name-wanted t used h =
    let free = taken_absent (wanted_name t) t.address used h in rw (free, free) refl

uniquify_loop-wanted :
    (used : Assoc Text) (ts : List AlloyTarget)
    → Unused used (wanted_names ts)
    → Distinct (wanted_names ts)
    → uniquify_loop used ts ≡ map under_wanted_name ts
unfolding uniquify_loop
uniquify_loop-wanted used [] u d = refl
uniquify_loop-wanted used (t ∷ ts) (ut, u) (n, d) =
    let name = unique_name-wanted t used ut in
    rw name (
      ap (λ rows. under_wanted_name t ∷ rows)
        (uniquify_loop-wanted (insert (wanted_name t) t.address used) ts
          (Unused-insert (wanted_name t) t.address used (wanted_names ts) u n) d))

all-Unused : (names : List Text) → Unused [] names
all-Unused [] = tt
all-Unused (n ∷ names) = (refl, all-Unused names)

-- If the rows ask for distinct names, an address standing in for a blank one, each gets the name that
-- it asks for.
uniquify_names-wanted :
    (ts : List AlloyTarget)
    → Distinct (wanted_names ts)
    → uniquify_names ts ≡ map under_wanted_name ts
unfolding uniquify_names
uniquify_names-wanted ts d = uniquify_loop-wanted [] ts (all-Unused (wanted_names ts)) d

abbrev pub longer_name : AlloyTarget → Text
longer_name t = wanted_name t ++ codes "-" ++ name_addr_suffix t.address

-- The name that a row gets where `seen` are the names of the rows before it: the one that it asks for,
-- if it is new; else that with the address behind it, if this is new; else the address alone.
abbrev pub IsNameFor : List Text → AlloyTarget → Text → Type 0
IsNameFor seen t n =
    ((n ≡ wanted_name t) × (contains n seen ≡ false))
    ⊎ ((contains (wanted_name t) seen ≡ true) × (n ≡ longer_name t) × (contains n seen ≡ false))
    ⊎ ((contains (wanted_name t) seen ≡ true)
        × (contains (longer_name t) seen ≡ true)
        × (n ≡ name_addr_suffix t.address))

-- The rows of the second list are those of the first, in order, changed in their names only.
abbrev pub AreNamed : List Text → List AlloyTarget → List AlloyTarget → Type 0
AreNamed seen [] [] = Unit
AreNamed seen (t ∷ ts) (u ∷ us) =
    (u ≡ record t { name = u.name }) × IsNameFor seen t u.name × AreNamed (u.name ∷ seen) ts us
AreNamed seen _ _ = ⊥

-- No name belongs to the address.
abbrev IsForeign : Assoc Text → Text → Type 0
IsForeign used a = All (λ (p : Text × Text). (p.1 == a) ≡ false) used

IsForeign-insert :
    (a n addr : Text) (used : Assoc Text)
    → (addr == a) ≡ false
    → IsForeign used a
    → IsForeign (insert n addr used) a
unfolding insert
IsForeign-insert a n addr [] h f = (h, tt)
IsForeign-insert a n addr ((m, b) ∷ used) h (fb, f) =
    ground (arith, IsForeign-insert a n addr used h f)

taken-contains :
    (n a : Text) (used : Assoc Text) → IsForeign used a → taken n a used ≡ contains n (keys used)
unfolding taken lookup ◌==◌
taken-contains n a [] f = refl
taken-contains n a ((m, b) ∷ used) (fb, f) = ground (arith, taken-contains n a used f)

unique_name-IsNameFor :
    (t : AlloyTarget) (used : Assoc Text) (seen : List Text)
    → IsForeign used t.address
    → ((n : Text) → contains n (keys used) ≡ contains n seen)
    → IsNameFor seen t (unique_name t used)
unfolding unique_name
unique_name-IsNameFor t used seen f same =
    let first : taken (wanted_name t) t.address used ≡ contains (wanted_name t) seen =
      taken-contains (wanted_name t) t.address used f ∙ same (wanted_name t) in
    let second : taken (longer_name t) t.address used ≡ contains (longer_name t) seen =
      taken-contains (longer_name t) t.address used f ∙ same (longer_name t) in
    elim (Bool-cases (contains (wanted_name t) seen)) [
      | inr new ↦ (let free = first ∙ new in rw (free, free) (inl (refl, new)))
      | inl old ↦ elim (Bool-cases (contains (longer_name t) seen)) [
        | inr new ↦
            (let no = second ∙ new in
              let yes = first ∙ old in rw (yes, no) (inr (inl (old, refl, new))))
        | inl both ↦
            (let no = second ∙ both in
              let yes = first ∙ old in rw (yes, no) (inr (inr (old, both, refl))))
      ]
    ]

others_stay :
    (n addr : Text) (used : Assoc Text) (ts : List AlloyTarget)
    → contains addr (map (λ t. t.address) ts) ≡ false
    → All (λ (t : AlloyTarget). IsForeign used t.address) ts
    → All (λ (t : AlloyTarget). IsForeign (insert n addr used) t.address) ts
others_stay n addr used [] h f = tt
others_stay n addr used (t ∷ ts) h (ft, f) = (
  IsForeign-insert t.address n addr used (ground arith) ft,
  others_stay n addr used ts (ground arith) f,
)

uniquify_loop-AreNamed :
    (used : Assoc Text) (seen : List Text) (ts : List AlloyTarget)
    → Distinct (map (λ t. t.address) ts)
    → All (λ (t : AlloyTarget). IsForeign used t.address) ts
    → ((n : Text) → contains n (keys used) ≡ contains n seen)
    → AreNamed seen ts (uniquify_loop used ts)
unfolding uniquify_loop
uniquify_loop-AreNamed used seen [] d f same = tt
uniquify_loop-AreNamed used seen (t ∷ ts) (n, d) (ft, f) same =
    let name = unique_name t used in
    (
      refl,
      unique_name-IsNameFor t used seen ft same,
      uniquify_loop-AreNamed (insert name t.address used) (name ∷ seen) ts d
          (others_stay name t.address used ts n f)
          (λ m. contains-keys-insert name m t.address used ∙ ap (λ b. (m == name) || b) (same m)),
    )

nothing_used : (ts : List AlloyTarget) → All (λ (t : AlloyTarget). IsForeign [] t.address) ts
nothing_used [] = tt
nothing_used (t ∷ ts) = (tt, nothing_used ts)

-- For rows with distinct addresses `uniquifyNames` changes nothing but names. A row gets the name that
-- it asks for, its address if that is blank, unless a row before it has that name; then the name with
-- the address behind it, unless a row before it has this one too; and then the address alone. So a
-- name is given twice only where a row had to take its address alone.
pub uniquify_names_lem :
    (ts : List AlloyTarget)
    → Distinct (map (λ t. t.address) ts)
    → AreNamed [] ts (uniquify_names ts)
unfolding uniquify_names
uniquify_names_lem ts d = uniquify_loop-AreNamed [] [] ts d (nothing_used ts) (λ n. refl)
