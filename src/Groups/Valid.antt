-- ===== src/Groups/Valid.antt =====
-- What `validate` of snmpdiscovery/groups.go accepts, against a description of a valid file.
use snmp_sd.Base.{
  ℕ, ◌+◌, ◌≤◌, Text, ◌≡◌, ◌≢◌, ◌↔◌, refl, true, false, List, [], ◌∷◌, map, Result, ok, err, eq_iff,
  arith, trim, length, contains, Distinct, All, no_groups,
}
use snmp_sd.Groups.{
  DiscoveryGroup, DiscoveryFile, has_line_break, max_group_description, validate_group_description,
  group_mode, is_mode, validate_group, validate_groups, validate,
}

-- A group has a name, address ranges, auths, a short description on one line and a known mode.
abbrev pub IsValidGroup : DiscoveryGroup → Type 0
IsValidGroup g =
    (trim g.name ≢ [])
    × (g.cidrs ≢ [])
    × (g.auths ≢ [])
    × (has_line_break g.description ≡ false)
    × (length g.description ≤ max_group_description)
    × (is_mode (group_mode g) ≡ true)

abbrev pub group_names : List DiscoveryGroup → List Text
group_names = map (λ g. trim g.name)

abbrev pub IsValidFile : DiscoveryFile → Type 0
IsValidFile f = (f.groups ≢ []) × All IsValidGroup f.groups × Distinct (group_names f.groups)

length_zero {ℓ} : {A : Type ℓ} (xs : List A) → (length xs ≡ 0) ↔ (xs ≡ [])
length_zero [] = ground arith
length_zero (x ∷ xs) = ground arith

validate_group_lem :
    (name : Text) (g : DiscoveryGroup)
    → trim g.name ≢ []
    → (validate_group name g ≡ ok tt) ↔ IsValidGroup g
unfolding validate_group validate_group_description
validate_group_lem name g h = ground (arith, length_zero g.cidrs, length_zero g.auths)

-- The names of the groups are none of those seen.
abbrev Fresh : List Text → List Text → Type 0
Fresh seen = All (λ n. contains n seen ≡ false)

Fresh-cons :
    (n : Text) (seen names : List Text)
    → Fresh (n ∷ seen) names ↔ (Fresh seen names × (contains n names ≡ false))
Fresh-cons n seen [] = ground arith
Fresh-cons n seen (m ∷ names) = ground (arith, Fresh-cons n seen names, eq_iff n m, eq_iff m n)

validate_groups_lem :
    (i : ℕ) (seen : List Text) (gs : List DiscoveryGroup)
    → (validate_groups i seen gs ≡ ok tt)
      ↔ (All IsValidGroup gs × Distinct (group_names gs) × Fresh seen (group_names gs))
unfolding validate_groups
validate_groups_lem i seen [] = ground arith
validate_groups_lem i seen (g ∷ gs) = ground (
  arith,
  validate_groups_lem (i + 1) (trim g.name ∷ seen) gs,
  validate_group_lem (trim g.name) g,
  Fresh-cons (trim g.name) seen (group_names gs),
  eq_iff (trim g.name) [],
)

Fresh-nil : (names : List Text) → Fresh [] names
Fresh-nil [] = tt
Fresh-nil (n ∷ names) = (refl, Fresh-nil names)

-- A discovery file is accepted exactly if it has a group, no two groups have one name, and each group
-- has a name, address ranges, auths, a description of one line and 256 bytes at most, and a mode that
-- is one of the three.
pub validate_lem : (f : DiscoveryFile) → (validate f ≡ ok tt) ↔ IsValidFile f
unfolding validate
validate_lem f = go f.groups
  where
    go :
        (gs : List DiscoveryGroup)
        → (elim gs as (λ x. Result (Unit {0})) [
          | [] ↦ err no_groups
          | g ∷ more ↦ validate_groups 0 [] (g ∷ more)
        ]
            ≡ ok tt)
          ↔ ((gs ≢ []) × All IsValidGroup gs × Distinct (group_names gs))
    go [] = ground arith
    go (g ∷ gs) =
        ground (arith, validate_groups_lem 0 [] (g ∷ gs), Fresh-nil (group_names (g ∷ gs)))
