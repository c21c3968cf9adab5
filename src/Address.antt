-- ===== src/Address.antt =====
-- Addresses: `canonIP` and its relatives of snmpdiscovery/cidr.go, over `net.ParseIP`, `IP.String`,
-- `IP.To4` and `net.SplitHostPort`.
pub mod V4
pub mod V6
use mathlib.Core.List.{reverse}
use snmp_sd.Base.{
  ℕ, zero, suc, ◌+◌, ◌*◌, ◌/◌, ◌%◌, Text, codes, ◌≡◌, refl, Bool, true, false, ◌&&◌, ◌||◌, not,
  Option, none, some, List, [], ◌∷◌, ◌==◌, text_dec, Result, ok, err, empty_address, invalid_ip,
  ltb, leb, eqb, if◌then◌else◌, trim, has_prefix, cut, replace_byte, split, join, itoa,
}
use snmp_sd.Address.V4.{parse_v4, print_v4}
use snmp_sd.Address.V6.{parse_v6, print_v6}

-- An IPv4-mapped IPv6 address is the IPv4 address, as `To4` has it.
pub data Ip : Type 0 where
  v4 : ℕ → ℕ → ℕ → ℕ → Ip
  v6 : List ℕ → Ip

ip4 : Option (List ℕ) → Option Ip
ip4 (some (a ∷ b ∷ c ∷ d ∷ [])) = some (v4 a b c d)
ip4 _ = none

to4 : List ℕ → Ip
to4 (zero ∷ zero ∷ zero ∷ zero ∷ zero ∷ f ∷ g ∷ h ∷ []) =
    if eqb f 65535
    then v4 (g / 256) (g % 256) (h / 256) (h % 256)
    else v6 (0 ∷ 0 ∷ 0 ∷ 0 ∷ 0 ∷ f ∷ g ∷ h ∷ [])
to4 gs = v6 gs

ip6 : Option (List ℕ) → Option Ip
ip6 none = none
ip6 (some gs) = some (v6 gs)

-- The first `.`, `:` or `%` decides how an address is read; a zone is refused.
dispatch : Text → Text → Option Ip
unfolding ip4 ip6
dispatch whole [] = none
dispatch whole (c ∷ s) =
    if eqb c b'.'
    then ip4 (parse_v4 whole)
    else if eqb c b':'
    then ip6 (parse_v6 whole)
    else if eqb c b'%'
    then none
    else dispatch whole s

-- `netip.ParseAddr`, a zone being refused
unfoldable pub parse_addr : Text → Option Ip
unfolding dispatch
parse_addr s = dispatch s s

unfoldable pub to_v4 : Ip → Ip
unfolding to4
to_v4 (v4 a b c d) = v4 a b c d
to_v4 (v6 gs) = to4 gs

-- `net.ParseIP`, with `To4` applied to its result
unfoldable pub parse_ip : Text → Option Ip
unfolding parse_addr to_v4
parse_ip s = elim (parse_addr s) [ none ↦ none | some ip ↦ some (to_v4 ip) ]

unfoldable pub print_ip : Ip → Text
print_ip (v4 a b c d) = print_v4 a b c d
print_ip (v6 gs) = print_v6 gs

-- What stands before and behind the last occurrence of a byte.
unfoldable pub cut_last : ℕ → Text → Option (Text × Text)
cut_last c s = elim (cut c (reverse s)) [
  | none ↦ none
  | some (behind, before) ↦ some (reverse before, reverse behind)
]

has_byte : ℕ → Text → Bool
has_byte c [] = false
has_byte c (d ∷ s) = eqb c d || has_byte c s

-- `[host]:port`: the last colon stands right behind the first closing bracket.
bracketed_host : Text → Option Text
unfolding has_byte
bracketed_host s = elim (cut b']' s) [
  | none ↦ none
  | some (host, []) ↦ none
  | some (host, c ∷ port) ↦
      if eqb c b':'
        && not
            (has_byte b':' port || has_byte b'[' (host) || has_byte b'[' port || has_byte b']' port)
      then some host
      else none
]

plain_host : Option (Text × Text) → Option Text
unfolding has_byte
plain_host none = none
plain_host (some (host, port)) =
    if has_byte b':' host
      || has_byte b'[' host
      || has_byte b']' host
      || has_byte b'[' port
      || has_byte b']' port
    then none
    else some host

-- The host that `net.SplitHostPort` returns; `none` is its error.
unfoldable pub split_host : Text → Option Text
unfolding bracketed_host plain_host cut_last
split_host [] = none
split_host (c ∷ s) = if eqb c b'[' then bracketed_host s else plain_host (cut_last b':' (c ∷ s))

-- The text between the brackets, if a bracket closes behind the second byte.
unbracket : Text → Text
unfolding cut_last
unbracket [] = []
unbracket (c ∷ s) = elim (cut_last b']' s) [
  | none ↦ c ∷ s
  | some (inner, _) ↦ if inner == [] then c ∷ s else inner
]

unfoldable pub host_of : Text → Text
unfolding unbracket split_host
host_of s = elim (split_host s) [
  | some host ↦ host
  | none ↦ if has_prefix (b'[' ∷ []) s then unbracket s else s
]

unfoldable pub canon_ip : Text → Result Text
unfolding host_of parse_ip print_ip
canon_ip raw =
    let s = trim raw in
    if s == []
    then err empty_address
    else elim (parse_ip (host_of s)) [ none ↦ err (invalid_ip raw) | some ip ↦ ok (print_ip ip) ]

unfoldable pub must_canon_ip : Text → Text
unfolding canon_ip
must_canon_ip raw = elim (canon_ip raw) [ ok s ↦ s | err e ↦ trim raw ]

unfoldable pub name_addr_suffix : Text → Text
unfolding must_canon_ip
name_addr_suffix addr = replace_byte b':' b'-' (must_canon_ip addr)

canon_tests :
    (canon_ip (codes " 1.2.3.4 ") ≡ ok (codes "1.2.3.4"))
    × (canon_ip (codes "2001:0DB8::1") ≡ ok (codes "2001:db8::1"))
    × (canon_ip (codes "[2001:db8::1]") ≡ ok (codes "2001:db8::1"))
    × (canon_ip (codes "[2001:db8::1]:161") ≡ ok (codes "2001:db8::1"))
    × (canon_ip (codes "1.2.3.4:161") ≡ ok (codes "1.2.3.4"))
    × (canon_ip (codes "::ffff:1.2.3.4") ≡ ok (codes "1.2.3.4"))
    × (canon_ip (codes "nope") ≡ err (invalid_ip (codes "nope")))
    × (name_addr_suffix (codes "2001:db8::1") ≡ codes "2001-db8--1")
unfolding name_addr_suffix trim has_prefix cut replace_byte split join itoa parse_v4 print_v4
    parse_v6 print_v6 ◌==◌ text_dec
canon_tests = (refl, refl, refl, refl, refl, refl, refl, refl)
