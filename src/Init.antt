-- ===== src/Init.antt =====
-- The plan of the first two files and its validation: snmpdiscovery/initcfg.go (ValidateInitPlan,
-- validateInitCIDR). The port of a group is not validated.
pub mod Render
pub mod Files
pub mod Flags
pub mod Check
use snmp_sd.Base.Error.{Error}
use snmp_sd.Base.{
  ℕ, zero, suc, ◌+◌, ◌-◌, Text, codes, Bool, true, false, ◌&&◌, ◌||◌, not, Option, none, some, List,
  [], ◌∷◌, ◌==◌, Result, ok, err, ◌>>◌, ltb, leb, eqb, if◌then◌else◌, trim, lower, cut, length,
  contains, ℤ, pos, negsuc, invalid_cidr, init_no_auths, init_no_groups, init_auth_name,
  init_duplicate_auth, auth_without_community, auth_without_username, auth_without_password,
  auth_without_priv_password, init_security_level, init_version, empty_cidr, wider_than,
  auth_not_in_plan, in_group, group_without_name, duplicate_group, group_without_cidrs,
  group_without_auths, unknown_mode,
}
use snmp_sd.Address.{canon_ip}
use snmp_sd.Cidr.{IpNet, parse_cidr, bits_of, host_bits, max_sweep_host_bits}
use snmp_sd.Groups.{mode_sweep, is_mode}

pub record InitAuth : Type 0 where
  pub name : Text
  pub version : ℤ
  pub community : Text
  pub username : Text
  pub password : Text
  pub priv_password : Text
  pub security_level : Text
  pub auth_protocol : Text
  pub priv_protocol : Text
  pub context_name : Text

pub record InitGroup : Type 0 where
  pub name : Text
  pub cidrs : List Text
  pub auths : List Text
  pub fingerprinter : Text
  pub mode : Text
  pub port : ℕ
  pub ping : Bool
  pub allow_large : Bool

pub record InitPlan : Type 0 where
  pub auths : List InitAuth
  pub groups : List InitGroup

is_letter : ℕ → Bool
is_letter c = leb b'A' c && leb c b'Z' || leb b'a' c && leb c b'z'

is_name_byte : ℕ → Bool
unfolding is_letter
is_name_byte c =
    is_letter c || (leb b'0' c && leb c b'9' || (eqb c b'_' || (eqb c b'.' || eqb c b'-')))

all_name_bytes : Text → Bool
unfolding is_name_byte
all_name_bytes [] = true
all_name_bytes (c ∷ s) = is_name_byte c && all_name_bytes s

-- `authNameRE`
unfoldable pub is_auth_name : Text → Bool
unfolding is_letter all_name_bytes
is_auth_name [] = false
is_auth_name (c ∷ s) = is_letter c && all_name_bytes s

unfoldable pub level_of : InitAuth → Text
unfolding trim ◌==◌
level_of a = if trim a.security_level == [] then codes "authPriv" else trim a.security_level

unfoldable pub check_level : Text → InitAuth → Result (Unit {0})
unfolding level_of trim ◌==◌
check_level name a =
    let level = level_of a in
    if level == codes "noAuthNoPriv"
    then ok tt
    else if level == codes "authNoPriv"
    then if trim a.password == [] then err (auth_without_password name) else ok tt
    else if level == codes "authPriv"
    then if trim a.password == [] || trim a.priv_password == []
      then err (auth_without_priv_password name)
      else ok tt
    else err (init_security_level name level)

unfoldable pub is_v1_or_v2 : ℤ → Bool
is_v1_or_v2 (pos n) = eqb n 1 || eqb n 2
is_v1_or_v2 (negsuc n) = false

unfoldable pub is_v3 : ℤ → Bool
is_v3 (pos n) = eqb n 3
is_v3 (negsuc n) = false

unfoldable pub check_version : Text → InitAuth → Result (Unit {0})
unfolding check_level is_v1_or_v2 is_v3 trim ◌==◌
check_version name a =
    if is_v1_or_v2 a.version
    then if trim a.community == [] then err (auth_without_community name) else ok tt
    else if is_v3 a.version
    then if trim a.username == [] then err (auth_without_username name) else check_level name a
    else err (init_version name a.version)

-- The loop over the auths; the names seen are the result.
unfoldable pub check_auths : ℕ → List Text → List InitAuth → Result (List Text)
unfolding check_version is_auth_name trim ◌==◌
check_auths i seen [] = ok seen
check_auths i seen (a ∷ auths) =
    let name = trim a.name in
    let rest = check_auths (suc i) (name ∷ seen) auths in
    if not (is_auth_name name)
    then err (init_auth_name i a.name)
    else if contains name seen
    then err (init_duplicate_auth name)
    else (check_version name a >> rest)

too_wide_net : Text → Bool → Option IpNet → Result (Unit {0})
too_wide_net s allow_large none = err (invalid_cidr s)
too_wide_net s allow_large (some n) =
    if ltb max_sweep_host_bits (host_bits n) && not allow_large
    then err (wider_than s (bits_of n - max_sweep_host_bits))
    else ok tt

unfoldable pub validate_init_cidr : Text → Bool → Result (Unit {0})
unfolding too_wide_net parse_cidr canon_ip trim ◌==◌ cut
validate_init_cidr raw allow_large =
    let s = trim raw in
    if s == [] then err empty_cidr else elim (cut b'/' s) [
      | none ↦ elim (canon_ip s) [ err e ↦ err e | ok ip ↦ ok tt ]
      | some parts ↦ too_wide_net s allow_large (parse_cidr s)
    ]

unfoldable pub check_cidrs : Text → Bool → List Text → Result (Unit {0})
unfolding validate_init_cidr
check_cidrs name allow_large [] = ok tt
check_cidrs name allow_large (c ∷ cidrs) =
    let rest = check_cidrs name allow_large cidrs in
    elim (validate_init_cidr c allow_large) [ err e ↦ err (in_group name e) | ok done ↦ rest ]

unfoldable pub check_names : Text → List Text → List Text → Result (Unit {0})
unfolding ◌==◌
check_names name seen [] = ok tt
check_names name seen (a ∷ auths) =
    let rest = check_names name seen auths in
    if contains a seen then rest else err (auth_not_in_plan name a)

unfoldable pub mode_of : InitGroup → Text
unfolding lower trim ◌==◌
mode_of g = if lower (trim g.mode) == [] then mode_sweep else lower (trim g.mode)

unfoldable pub check_group : Text → List Text → InitGroup → Result (Unit {0})
unfolding check_cidrs check_names mode_of is_mode
check_group name seen_auths g =
    if eqb (length g.cidrs) 0
    then err (group_without_cidrs name)
    else (check_cidrs name g.allow_large g.cidrs
        >> (if eqb (length g.auths) 0
            then err (group_without_auths name)
            else (check_names name seen_auths g.auths
                >> (if is_mode (mode_of g) then ok tt else err (unknown_mode name g.mode)))))

unfoldable pub check_groups : ℕ → List Text → List Text → List InitGroup → Result (Unit {0})
unfolding check_group trim ◌==◌
check_groups i seen_auths seen [] = ok tt
check_groups i seen_auths seen (g ∷ groups) =
    let name = trim g.name in
    let rest = check_groups (suc i) seen_auths (name ∷ seen) groups in
    if name == []
    then err (group_without_name i)
    else if contains name seen
    then err (duplicate_group name)
    else (check_group name seen_auths g >> rest)

checked_groups : InitPlan → Result (List Text) → Result (Unit {0})
unfolding check_groups
checked_groups p (err e) = err e
checked_groups p (ok seen_auths) = check_groups 0 seen_auths [] p.groups

unfoldable pub validate_init_plan : InitPlan → Result (Unit {0})
unfolding check_auths checked_groups
validate_init_plan p =
    if eqb (length p.auths) 0
    then err init_no_auths
    else if eqb (length p.groups) 0
    then err init_no_groups
    else checked_groups p (check_auths 0 [] p.auths)
