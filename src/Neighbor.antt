-- ===== src/Neighbor.antt =====
-- Neighbour addresses: what snmpdiscovery/crawl.go reads out of the LLDP and CDP tables. The SNMP walk
-- is a parameter: the variables of the two tables that an auth gets to see.
pub mod Lldp
use snmp_sd.Base.{
  ℕ, zero, suc, ◌+◌, ◌-◌, Text, codes, Bool, true, false, not, Option, none, some, List, [], ◌∷◌,
  ◌++◌, ◌==◌, ◌&&◌, ◌||◌, ℤ, pos, negsuc, atoi, Result, ok, err, ltb, leb, eqb, if◌then◌else◌, trim,
  cut_prefix, trim_prefix, split, map, length, drop, get_elem?, keep, unique_by,
}
use snmp_sd.Address.{Ip, v4, v6, canon_ip, must_canon_ip, parse_ip, to_v4, print_ip}
use snmp_sd.Cidr.{bytes_ip}
use snmp_sd.Auth.{SnmpAuth}
use snmp_sd.Probe.{Pdu, PduValue, text_value, bytes_value, nil_value, other_value}

print_bytes_ip : Ip → Text
print_bytes_ip (v4 a b c d) = print_ip (v4 a b c d)
print_bytes_ip (v6 gs) = must_canon_ip (print_ip (v6 gs))

unfoldable pub ip_from_bytes : List ℕ → Text
unfolding print_bytes_ip
ip_from_bytes bs =
    if eqb (length bs) 4
    then print_ip (bytes_ip bs)
    else if eqb (length bs) 16
    then print_bytes_ip (to_v4 (bytes_ip bs))
    else []

-- `none` where a number is missing or no byte.
byte_of : Option ℤ → Option ℕ
byte_of (some (pos n)) = if leb n 255 then some n else none
byte_of _ = none

cons_byte : Option ℕ → Option (List ℕ) → Option (List ℕ)
cons_byte (some b) (some bs) = some (b ∷ bs)
cons_byte _ _ = none

unfoldable pub octet_bytes : List Text → Option (List ℕ)
unfolding byte_of cons_byte
octet_bytes [] = some []
octet_bytes (o ∷ os) = cons_byte (byte_of (atoi o)) (octet_bytes os)

-- Whether a number stands for exactly `need`.
is_number : ℕ → Option ℤ → Bool
is_number need (some (pos n)) = eqb n need
is_number need _ = false

-- A length in front of the octets is dropped.
unfoldable pub without_length : ℕ → List Text → List Text
unfolding is_number
without_length need [] = []
without_length need (o ∷ os) =
    if eqb (length (o ∷ os)) (need + 1) && is_number need (atoi o) then os else o ∷ os

from_bytes : Option (List ℕ) → Text
from_bytes none = []
from_bytes (some bs) = ip_from_bytes bs

unfoldable pub ip_of_octets : ℕ → List Text → Text
unfolding without_length from_bytes
ip_of_octets need octets =
    let os = without_length need octets in
    if ltb (length os) need then [] else from_bytes (octet_bytes (drop (length os - need) os))

-- Subtype 1 is IPv4, subtype 2 is IPv6.
unfoldable pub ip_from_oid_octets : ℤ → List Text → Text
unfolding ip_of_octets
ip_from_oid_octets (pos (suc zero)) octets = ip_of_octets 4 octets
ip_from_oid_octets (pos (suc (suc zero))) octets = ip_of_octets 16 octets
ip_from_oid_octets _ octets = []

-- The trailing octets of an index, if their number stands in front of them.
unfoldable pub trailing_ip : ℕ → ℤ → List Text → Text
unfolding is_number
trailing_ip size subtype parts =
    let behind = drop (length parts - size - 1) parts in
    if ltb (length parts) (size + 1) then [] else elim behind [
      | [] ↦ []
      | count ∷ octets ↦
          if is_number size (atoi count) then ip_from_oid_octets subtype octets else []
    ]

unfoldable pub neighbor_from_cdp_oid : Text → Text
unfolding trailing_ip
neighbor_from_cdp_oid oid =
    let parts = split b'.' (trim_prefix (codes ".") oid) in
    let four = trailing_ip 4 (pos 1) parts in
    if ltb (length parts) 6 then [] else if four == [] then trailing_ip 16 (pos 2) parts else four

-- What stands behind the first occurrence of a text.
unfoldable pub after_text : Text → Text → Option Text
unfolding cut_prefix
after_text p [] = cut_prefix p []
after_text p (c ∷ s) =
    let later = after_text p s in
    elim (cut_prefix p (c ∷ s)) [ some rest ↦ some rest | none ↦ later ]

abbrev pub lldp_prefix : Text
lldp_prefix = codes "1.0.8802.1.1.2.1.4.2.1.4."

-- The index behind the column: time mark, port, index, subtype, and the octets.
unfoldable pub lldp_ip : List Text → Text
lldp_ip (mark ∷ port ∷ index ∷ subtype ∷ o ∷ os) = elim (atoi subtype) [
  | none ↦ []
  | some n ↦ ip_from_oid_octets n (o ∷ os)
]
lldp_ip _ = []

unfoldable pub neighbor_from_oid : Text → Text
unfolding lldp_ip
neighbor_from_oid raw =
    let oid = trim_prefix (codes ".") raw in
    elim (after_text lldp_prefix oid) [
      | none ↦ neighbor_from_cdp_oid oid
      | some rest ↦ lldp_ip (split b'.' rest)
    ]

unfoldable pub neighbor_from_pdu : Pdu → Text
neighbor_from_pdu p = elim p.value [
  | bytes_value bs ↦ if ip_from_bytes bs == [] then neighbor_from_oid p.name else ip_from_bytes bs
  | text_value s ↦ elim (canon_ip (trim s)) [ ok c ↦ c | err e ↦ neighbor_from_oid p.name ]
  | nil_value ↦ neighbor_from_oid p.name
  | other_value s ↦ neighbor_from_oid p.name
]

all_zero : List ℕ → Bool
all_zero [] = true
all_zero (g ∷ gs) = eqb g 0 && all_zero gs

-- The loopback address of IPv6.
is_one : List ℕ → Bool
unfolding all_zero
is_one [] = false
is_one (g ∷ []) = eqb g 1
is_one (g ∷ h ∷ gs) = eqb g 0 && is_one (h ∷ gs)

in_fe80 : List ℕ → Bool
in_fe80 [] = false
in_fe80 (g ∷ gs) = leb 65152 g && leb g 65215

in_ff00 : List ℕ → Bool
in_ff00 [] = false
in_ff00 (g ∷ gs) = leb 65280 g

-- Unspecified, loopback, multicast, link local, or an IPv4 address that starts with 255.
unfoldable pub is_special : Ip → Bool
unfolding all_zero is_one in_fe80 in_ff00
is_special (v4 a b c d) =
    (eqb a 0 && eqb b 0 && eqb c 0 && eqb d 0)
    || eqb a 127
    || (leb 224 a && leb a 239)
    || (eqb a 169 && eqb b 254)
    || eqb a 255
is_special (v6 gs) = all_zero gs || is_one gs || in_ff00 gs || in_fe80 gs

unfoldable pub usable_neighbor_ip : Text → Bool
unfolding is_special
usable_neighbor_ip ip = elim (canon_ip ip) [
  | err e ↦ false
  | ok c ↦ elim (parse_ip c) [ none ↦ false | some a ↦ not (is_special a) ]
]

-- The usable neighbours of the variables that a walk meets, each once.
unfoldable pub snmp_walk_xdp : List Pdu → List Text
unfolding neighbor_from_pdu usable_neighbor_ip
snmp_walk_xdp pdus =
    unique_by (λ ip. ip) []
      (keep (λ ip. not (ip == []) && usable_neighbor_ip ip) (map neighbor_from_pdu pdus))

-- The first auth that sees a neighbour. `walk` gives the variables of the two tables.
unfoldable pub walk_neighbors : (SnmpAuth → List Pdu) → List SnmpAuth → List Text
unfolding snmp_walk_xdp
walk_neighbors walk [] = []
walk_neighbors walk (a ∷ auths) = elim (snmp_walk_xdp (walk a)) [
  | [] ↦ walk_neighbors walk auths
  | ip ∷ ips ↦ ip ∷ ips
]
