-- ===== src/Scan/Prefer.antt =====
-- `preferAuth` of snmpdiscovery/scan.go: the auths are reordered, the last successful one first.
use mathlib.Core.List.{Perm, perm_middle}
use mathlib.Core.List.Perm
use snmp_sd.Base.{
  Text, ◌≡◌, refl, ap, true, false, Option, none, some, List, [], ◌∷◌, ◌++◌, map, ◌==◌, eq_iff,
  if◌then◌else◌, arith, trim, length, ltb, contains, Bool-cases, inl, inr,
}
use snmp_sd.Auth.{SnmpAuth}
use snmp_sd.Scan.{split_at_auth, prefer_auth}

abbrev pub auth_names : List SnmpAuth → List Text
auth_names = map (λ a. a.name)

-- The parts of a split are the list, its middle has the name, and nothing before it has.
abbrev IsSplit : Text → List SnmpAuth → Option (List SnmpAuth × SnmpAuth × List SnmpAuth) → Type 0
IsSplit name auths none = contains name (auth_names auths) ≡ false
IsSplit name auths (some (before, a, after)) =
    (auths ≡ before ++ (a ∷ after)) × (a.name ≡ name) × (contains name (auth_names before) ≡ false)

IsSplit-step :
    (name : Text) (b : SnmpAuth) (auths : List SnmpAuth)
    (rest : Option (List SnmpAuth × SnmpAuth × List SnmpAuth))
    → IsSplit name auths rest
    → IsSplit name (b ∷ auths) (
        if b.name == name
        then some ([], b, auths)
        else elim rest [ none ↦ none | some (before, c, after) ↦ some (b ∷ before, c, after) ])
IsSplit-step name b auths none h = elim (Bool-cases (b.name == name)) [
  | inl e ↦ rw e (refl, ground (arith, eq_iff b.name name), refl)
  | inr e ↦ rw e (ground (arith, eq_iff b.name name, eq_iff name b.name))
]
IsSplit-step name b auths (some (before, c, after)) (split, named, first) =
    elim (Bool-cases (b.name == name)) [
      | inl e ↦ rw e (refl, ground (arith, eq_iff b.name name), refl)
      | inr e ↦
          rw e
            (ap (λ xs. b ∷ xs) split, named, ground (arith, eq_iff b.name name, eq_iff name b.name))
    ]

split_at_auth_lem :
    (name : Text) (auths : List SnmpAuth) → IsSplit name auths (split_at_auth name auths)
unfolding split_at_auth
split_at_auth_lem name [] = refl
split_at_auth_lem name (b ∷ auths) =
    IsSplit-step name b auths (split_at_auth name auths) (split_at_auth_lem name auths)

-- The name of the first auth.
abbrev pub first_name : List SnmpAuth → Option Text
first_name [] = none
first_name (a ∷ auths) = some a.name

-- The name of the first auth when `name` is preferred.
abbrev pub preferred : Text → List SnmpAuth → Option Text
preferred name auths = if contains name (auth_names auths) then some name else first_name auths

contains-middle :
    (name : Text) (before after : List SnmpAuth) (a : SnmpAuth)
    → a.name ≡ name
    → contains name (auth_names (before ++ a ∷ after)) ≡ true
contains-middle name [] after a e = ground (arith, eq_iff name a.name)
contains-middle name (b ∷ before) after a e = ground (arith, contains-middle name before after a e)

prefer-IsSplit :
    (name : Text) (auths : List SnmpAuth) (o : Option (List SnmpAuth × SnmpAuth × List SnmpAuth))
    → IsSplit name auths o
    → Perm (elim o [ none ↦ auths | some (before, a, after) ↦ a ∷ (before ++ after) ]) auths
      × (first_name (elim o [ none ↦ auths | some (before, a, after) ↦ a ∷ (before ++ after) ])
          ≡ preferred name auths)
prefer-IsSplit name auths none h = (Perm.refl auths, rw h refl)
prefer-IsSplit name auths (some (before, a, after)) (split, named, first) = (
  rw split (Perm.symm (perm_middle before after)),
  rw (split, contains-middle name before after a named) (ap (λ n. some n) named),
)

short_preferred :
    (name : Text) (auths : List SnmpAuth)
    → ltb (length auths) 2 ≡ true
    → first_name auths ≡ preferred name auths
short_preferred name [] l = refl
short_preferred name (a ∷ []) l = ground (arith, eq_iff name a.name)
short_preferred name (a ∷ b ∷ auths) l = ground arith

-- The auths that are tried are those of the group, none lost or added; and the first has the name that
-- the catalog holds for the address, trimmed, if that is not blank and one of them has it, and is the
-- group's first otherwise.
pub prefer_auth_lem :
    (auths : List SnmpAuth) (name : Text)
    → Perm (prefer_auth auths name) auths
      × (first_name (prefer_auth auths name)
          ≡ (if trim name == [] then first_name auths else preferred (trim name) auths))
unfolding prefer_auth
prefer_auth_lem auths name =
    let split =
      prefer-IsSplit (trim name) auths (split_at_auth (trim name) auths)
        (split_at_auth_lem (trim name) auths) in
    elim (Bool-cases (trim name == [])) [
      | inl e ↦ rw e (Perm.refl auths, refl)
      | inr e ↦ rw e (elim (Bool-cases (ltb (length auths) 2)) [
        | inl l ↦ rw l (Perm.refl auths, short_preferred (trim name) auths l)
        | inr l ↦ rw l split
      ])
    ]
