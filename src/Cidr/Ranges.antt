-- ===== src/Cidr/Ranges.antt =====
-- The addresses that the entries of a list of ranges stand for: snmpdiscovery/cidr.go (expandCIDRs).
use snmp_sd.Base.{
  Text, Bool, not, ◌||◌, ◌&&◌, Option, none, some, List, [], ◌∷◌, ◌++◌, map, any, ◌≡◌, refl, sym,
  ap, ◌∙◌, ok, err, ◌>>=◌, >>=-eq-ok, ok-injective, if◌then◌else◌, trim, contains, ◌==◌, arith,
  unique_by, contains-unique_by,
}
use snmp_sd.Address.{canon_ip}
use snmp_sd.Cidr.{
  IpNet, parse_cidr, sweep, print_bytes, has_slash, expand_net, expand_one, canon_or_same,
  unique_strings, expand_all, expand_cidrs,
}

-- The addresses of a network.
abbrev pub net_addresses : Option IpNet → List Text
net_addresses none = []
net_addresses (some n) = elim (sweep n) [ none ↦ [] | some ips ↦ map print_bytes ips ]

-- The addresses that an entry stands for: those of its network, or its one address.
abbrev pub range_addresses : Text → List Text
range_addresses raw =
    if raw == []
    then []
    else if has_slash raw
    then net_addresses (parse_cidr raw)
    else elim (canon_ip raw) [ ok ip ↦ ip ∷ [] | err e ↦ [] ]

abbrev pub is_in_range : Text → Text → Bool
is_in_range a raw = contains a (map canon_or_same (range_addresses (trim raw)))

-- Whether the address is one of some entry, in canonical form.
abbrev pub is_in_ranges : Text → List Text → Bool
is_in_ranges a = any (is_in_range a)

expand_net-addresses :
    (raw : Text) (allow_large : Bool) (net : Option IpNet) (ips : List Text)
    → expand_net raw allow_large net ≡ ok ips
    → ips ≡ net_addresses net
unfolding expand_net
expand_net-addresses raw allow_large none ips h = cc
expand_net-addresses raw allow_large (some n) ips h = ground arith

expand_one-addresses :
    (raw : Text) (allow_large : Bool) (ips : List Text)
    → expand_one raw allow_large ≡ ok ips
    → ips ≡ range_addresses raw
unfolding expand_one
expand_one-addresses raw allow_large ips h =
    ground (arith, expand_net-addresses raw allow_large (parse_cidr raw) ips)

contains-map-append :
    (a : Text) (xs ys : List Text)
    → contains a (map canon_or_same (xs ++ ys))
      ≡ (contains a (map canon_or_same xs) || contains a (map canon_or_same ys))
contains-map-append a [] ys = refl
contains-map-append a (x ∷ xs) ys = ground (arith, contains-map-append a xs ys)

expand_all-addresses :
    (a : Text) (cidrs : List Text) (allow_large : Bool) (all : List Text)
    → expand_all cidrs allow_large ≡ ok all
    → contains a (map canon_or_same all) ≡ is_in_ranges a cidrs
unfolding expand_all
expand_all-addresses a [] allow_large all h = rw (sym (ok-injective h)) refl
expand_all-addresses a (raw ∷ cidrs) allow_large all h =
    let (ips, here, h1) =
      >>=-eq-ok (expand_one (trim raw) allow_large)
        (λ ips. expand_all cidrs allow_large >>= λ more. ok (ips ++ more)) h in
    let (more, rest, e) = >>=-eq-ok (expand_all cidrs allow_large) (λ more. ok (ips ++ more)) h1 in
    ap (λ xs. contains a (map canon_or_same xs)) (sym (ok-injective e))
    ∙ contains-map-append a ips more
    ∙ ap (λ xs. contains a (map canon_or_same xs) || contains a (map canon_or_same more))
        (expand_one-addresses (trim raw) allow_large ips here)
    ∙ ap (λ b. is_in_range a raw || b) (expand_all-addresses a cidrs allow_large more rest)

pub map_self : (xs : List Text) → map (λ x. x) xs ≡ xs
map_self [] = refl
map_self (x ∷ xs) = ap (λ ys. x ∷ ys) (map_self xs)

contains-unique_strings :
    (a : Text) (xs : List Text) → contains a (unique_strings xs) ≡ contains a (map canon_or_same xs)
unfolding unique_strings
contains-unique_strings a xs =
    let ys = map canon_or_same xs in
    ap (contains a) (sym (map_self (unique_by (λ s. s) [] ys)))
    ∙ contains-unique_by (λ s. s) a [] ys
    ∙ ap (λ zs. contains a zs && not (contains a [])) (map_self ys)
    ∙ ground arith

pub expand_cidrs-addresses :
    (a : Text) (cidrs : List Text) (allow_large : Bool) (ips : List Text)
    → expand_cidrs cidrs allow_large ≡ ok ips
    → contains a ips ≡ is_in_ranges a cidrs
unfolding expand_cidrs
expand_cidrs-addresses a cidrs allow_large ips h =
    let (all, ea, e) = >>=-eq-ok (expand_all cidrs allow_large) (λ xs. ok (unique_strings xs)) h in
    ap (contains a) (sym (ok-injective e))
    ∙ contains-unique_strings a all
    ∙ expand_all-addresses a cidrs allow_large all ea
