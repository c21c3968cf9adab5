-- ===== src/Scan/Sweep.antt =====
-- The addresses that a sweep of snmpdiscovery/scan.go yields before ICMP: `expandCIDRs` and
-- `filterExcluded` of snmpdiscovery/cidr.go together.
use mathlib.Core.Path.{subst}
use snmp_sd.Base.Error.{Error}
use snmp_sd.Base.{
  ℕ, Text, ◌≡◌, refl, ap, sym, ◌∙◌, ◌&&◌, contains-keep, Bool, false, not, Option, List, [], ◌∷◌,
  in_group, in_group_exclude, Result, ok, err, ◌>>=◌, >>=-eq-ok, ok-injective, arith, map, length,
  keep, contains, unique_by-Distinct, Distinct, All,
}
use snmp_sd.Cidr.{
  IpNet, unique_strings, canon_or_same, expand_cidrs, expand_all, parse_ip_nets, ip_in_nets,
  filter_excluded,
}
use snmp_sd.Cidr.Ranges.{map_self, is_in_ranges, expand_cidrs-addresses}
use snmp_sd.Groups.{DiscoveryGroup, group_uses_ping}
use snmp_sd.Scan.{sweep_ips, in_group_of}

unique_strings-Distinct : (xs : List Text) → Distinct (unique_strings xs)
unfolding unique_strings
unique_strings-Distinct xs =
    let once = unique_by-Distinct (λ s. s) [] (map canon_or_same xs) in rw map_self at once

contains-keep-false :
    (a : Text) (p : Text → Bool) (xs : List Text)
    → contains a xs ≡ false
    → contains a (keep p xs) ≡ false
contains-keep-false a p [] h = refl
contains-keep-false a p (x ∷ xs) h = ground (arith, contains-keep-false a p xs)

keep-Distinct : (p : Text → Bool) (xs : List Text) → Distinct xs → Distinct (keep p xs)
keep-Distinct p [] d = tt
keep-Distinct p (x ∷ xs) (n, d) = ground (arith, keep-Distinct p xs d, contains-keep-false x p xs n)

All-keep :
    (nets : List IpNet) (xs : List Text)
    → All (λ ip. ip_in_nets ip nets ≡ false) (keep (λ ip. not (ip_in_nets ip nets)) xs)
All-keep nets [] = tt
All-keep nets (x ∷ xs) = ground (arith, All-keep nets xs)

expand_cidrs-Distinct :
    (cidrs : List Text) (allow_large : Bool) (ips : List Text)
    → expand_cidrs cidrs allow_large ≡ ok ips
    → Distinct ips
unfolding expand_cidrs
expand_cidrs-Distinct cidrs allow_large ips h =
    let (all, ea, e) = >>=-eq-ok (expand_all cidrs allow_large) (λ xs. ok (unique_strings xs)) h in
    rw (ok-injective e) at (unique_strings-Distinct all)

in_group_of-eq-ok {ℓ} :
    {A : Type ℓ} (wrap : Error → Error) (r : Result A) {a : A}
    → in_group_of wrap r ≡ ok a
    → r ≡ ok a
in_group_of-eq-ok wrap (ok b) h = h
in_group_of-eq-ok wrap (err e) h = cc

-- The addresses are distinct: those of the group's ranges that are outside every excluded range. Both
-- counts are their number.
abbrev pub IsSwept : DiscoveryGroup → List Text × ℕ × ℕ → Type 0
IsSwept g swept =
    Distinct swept.0
    × (swept.1 ≡ length swept.0)
    × (swept.2 ≡ length swept.0)
    × ((nets : List IpNet) × (parse_ip_nets g.exclude ≡ ok nets)
        × All (λ ip. ip_in_nets ip nets ≡ false) swept.0
        × ((a : Text) → contains a swept.0 ≡ (is_in_ranges a g.cidrs && not (ip_in_nets a nets))))

excluded_lem :
    (g : DiscoveryGroup) (all raw : List Text)
    → Distinct all
    → ((a : Text) → contains a all ≡ is_in_ranges a g.cidrs)
    → filter_excluded all g.exclude ≡ ok raw
    → IsSwept g (raw, length raw, length raw)
unfolding filter_excluded
excluded_lem g all raw d ranges h =
    let (nets, en, e) =
      >>=-eq-ok (parse_ip_nets g.exclude) (λ nets. ok (keep (λ ip. not (ip_in_nets ip nets)) all))
        h in
    let same = ok-injective e in
    (
      rw same at (keep-Distinct (λ ip. not (ip_in_nets ip nets)) all d),
      refl,
      refl,
      (
        nets,
        en,
        rw same at (All-keep nets all),
        λ a.
            ap (contains a) (sym same)
            ∙ contains-keep a (λ ip. not (ip_in_nets ip nets)) all
            ∙ ap (λ b. b && not (ip_in_nets a nets)) (ranges a),
      ),
    )

module _ (ping : Bool) (ping_filter : Option (List Text → Result (List Text)))
    (icmp_alive : List Text → Result (List Text)) where
  -- A sweep without ICMP that succeeds yields each address of the group's ranges that is in no excluded
  -- range, once and in canonical form, and no other one, and counts them as swept and as let through. A
  -- range stands for what `sweep` takes of its network, or for its one address.
  pub sweep_ips_lem :
      (g : DiscoveryGroup) (swept : List Text × ℕ × ℕ)
      → group_uses_ping g ping ≡ false
      → sweep_ips ping ping_filter icmp_alive g ≡ ok swept
      → IsSwept g swept
  unfolding sweep_ips
  sweep_ips_lem g swept quiet h =
      let (all, ea, h1) =
        >>=-eq-ok (in_group_of (in_group g.name) (expand_cidrs g.cidrs g.allow_large))
          (λ all. in_group_of (in_group_exclude g.name) (filter_excluded all g.exclude) >>= λ raw.
            ok (raw, length raw, length raw))
          (rw quiet at h) in
      let (raw, er, h2) =
        >>=-eq-ok (in_group_of (in_group_exclude g.name) (filter_excluded all g.exclude))
          (λ raw. ok (raw, length raw, length raw)) h1 in
      subst (IsSwept g) (ok-injective h2) (
        excluded_lem g all raw
          (expand_cidrs-Distinct g.cidrs g.allow_large all
            (in_group_of-eq-ok (in_group g.name) (expand_cidrs g.cidrs g.allow_large) ea))
          (λ a.
            expand_cidrs-addresses a g.cidrs g.allow_large all
              (in_group_of-eq-ok (in_group g.name) (expand_cidrs g.cidrs g.allow_large) ea))
          (in_group_of-eq-ok (in_group_exclude g.name) (filter_excluded all g.exclude) er))
