-- ===== src/Cidr.antt =====
-- CIDR expansion and exclusion: snmpdiscovery/cidr.go, over `net.ParseCIDR` and `IPNet.Contains`.
mod Byte
mod Host
mod Size
pub mod Ends
pub mod Ranges
use Prim.Native.Nat.{min}
use snmp_sd.Base.{
  ℕ, zero, suc, ◌+◌, ◌-◌, ◌*◌, ◌/◌, ◌%◌, ◌^◌, Text, codes, Bool, true, false, ◌&&◌, ◌||◌, not,
  Option, none, some, List, [], ◌∷◌, ◌++◌, map, ◌==◌, Result, ok, err, ◌>>=◌, invalid_ip,
  invalid_cidr, too_wide, sweep_does_not_end, ltb, leb, eqb, if◌then◌else◌, trim, cut, length,
  unique_by, keep,
}
use snmp_sd.Address.{Ip, v4, v6, parse_addr, parse_ip, to_v4, print_ip, canon_ip, must_canon_ip}

-- `maxSweepHostBits`
abbrev pub max_sweep_host_bits : ℕ
max_sweep_host_bits = 10

abbrev pub Bytes : Type 0
Bytes = List ℕ

-- `n.IP` with its host bits cleared, and the length of the prefix; four bytes or sixteen.
pub record IpNet : Type 0 where
  pub ip : Bytes
  pub ones : ℕ

abbrev pub bits_of : IpNet → ℕ
bits_of n = 8 * length n.ip

abbrev pub host_bits : IpNet → ℕ
host_bits n = bits_of n - n.ones

group_bytes : List ℕ → Bytes
group_bytes [] = []
group_bytes (g ∷ gs) = (g / 256) ∷ (g % 256) ∷ group_bytes gs

unfoldable pub ip_bytes : Ip → Bytes
unfolding group_bytes
ip_bytes (v4 a b c d) = a ∷ b ∷ c ∷ d ∷ []
ip_bytes (v6 gs) = group_bytes gs

byte_groups : Bytes → List ℕ
byte_groups (a ∷ b ∷ bs) = (a * 256 + b) ∷ byte_groups bs
byte_groups _ = []

-- The address that four or sixteen bytes are.
unfoldable pub bytes_ip : Bytes → Ip
unfolding byte_groups
bytes_ip (a ∷ b ∷ c ∷ d ∷ []) = v4 a b c d
bytes_ip bs = v6 (byte_groups bs)

-- A byte with its last `8 - ones` bits cleared, and with them set.
abbrev pub mask_byte : ℕ → ℕ → ℕ
mask_byte ones b = b / 2 ^ (8 - ones) * 2 ^ (8 - ones)

abbrev pub fill_byte : ℕ → ℕ → ℕ
fill_byte ones b = mask_byte ones b + (2 ^ (8 - ones) - 1)

-- `IP.Mask` of a prefix of `ones` bits
unfoldable pub mask_bytes : ℕ → Bytes → Bytes
mask_bytes ones [] = []
mask_bytes ones (b ∷ bs) = mask_byte (min ones 8) b ∷ mask_bytes (ones - 8) bs

unfoldable pub fill_bytes : ℕ → Bytes → Bytes
fill_bytes ones [] = []
fill_bytes ones (b ∷ bs) = fill_byte (min ones 8) b ∷ fill_bytes (ones - 8) bs

-- `net.ParseCIDR`: an address, a slash, and a number of bits that the address has.
net_of : Ip → Option ℕ → Option IpNet
unfolding ip_bytes mask_bytes
net_of ip none = none
net_of ip (some ones) =
    if leb ones (8 * length (ip_bytes ip))
    then some (record { ip = mask_bytes ones (ip_bytes ip); ones = ones })
    else none

prefix_length : ℕ → Text → Option ℕ
prefix_length n [] = some n
prefix_length n (c ∷ s) =
    let rest = prefix_length (n * 10 + (c - b'0')) s in
    if leb b'0' c && leb c b'9' then rest else none

cidr_parts : Option (Text × Text) → Option IpNet
unfolding net_of prefix_length
cidr_parts none = none
cidr_parts (some (addr, [])) = none
cidr_parts (some (addr, c ∷ s)) = elim (parse_addr addr) [
  | none ↦ none
  | some ip ↦ net_of ip (prefix_length 0 (c ∷ s))
]

unfoldable pub parse_cidr : Text → Option IpNet
unfolding cidr_parts
parse_cidr s = cidr_parts (cut b'/' s)

-- A network of IPv4-mapped addresses is the network of the IPv4 addresses.
unfoldable pub net_v4 : IpNet → IpNet
unfolding bytes_ip to_v4 ip_bytes
net_v4 n =
    let short = ip_bytes (to_v4 (bytes_ip n.ip)) in
    record { ip = short; ones = n.ones - (8 * length n.ip - 8 * length short) }

-- `IP.To4`: four bytes for an IPv4 or IPv4-mapped address
unfoldable pub short_bytes : Bytes → Bytes
unfolding bytes_ip to_v4 ip_bytes
short_bytes bs = ip_bytes (to_v4 (bytes_ip bs))

-- `IPNet.Contains`
unfoldable pub net_contains : IpNet → Bytes → Bool
unfolding net_v4 mask_bytes short_bytes
net_contains n bs =
    let m = net_v4 n in
    let ip = short_bytes bs in
    eqb (length ip) (length m.ip) && mask_bytes m.ones ip == mask_bytes m.ones m.ip

-- `incIP`: the new bytes, and whether the carry ran off the front.
unfoldable pub inc_bytes : Bytes → Bytes × Bool
inc_bytes [] = ([], true)
inc_bytes (b ∷ bs) =
    let (rest, carry) = inc_bytes bs in
    if carry then (((b + 1) % 256) ∷ rest, eqb ((b + 1) % 256) 0) else (b ∷ rest, false)

unfoldable pub inc_ip : Bytes → Bytes
unfolding inc_bytes
inc_ip bs = (inc_bytes bs).0

unfoldable pub is_network : IpNet → Bytes → Bool
is_network n ip = n.ip == ip

unfoldable pub is_broadcast : IpNet → Bytes → Bool
unfolding fill_bytes
is_broadcast n ip = fill_bytes n.ones n.ip == ip

-- Network and IPv4 broadcast addresses are left out of networks with 8 host bits or more.
unfoldable pub is_skipped : IpNet → Bytes → Bool
unfolding is_network is_broadcast short_bytes
is_skipped n ip =
    leb 8 (host_bits n) && (is_network n ip || eqb (length (short_bytes ip)) 4 && is_broadcast n ip)

-- The loop over the addresses of a network; `none` means that the fuel ran out.
unfoldable pub sweep_loop : ℕ → IpNet → Bytes → Option (List Bytes)
unfolding net_contains inc_ip
sweep_loop zero n ip = none
sweep_loop (suc fuel) n ip =
    let rest = sweep_loop fuel n (inc_ip ip) in
    if net_contains n ip then elim rest [ none ↦ none | some ips ↦ some (ip ∷ ips) ] else some []

-- One round for each address and one for the end.
unfoldable pub sweep : IpNet → Option (List Bytes)
unfolding sweep_loop is_skipped
sweep n = elim (sweep_loop (2 ^ host_bits n + 1) n n.ip) [
  | none ↦ none
  | some ips ↦ some (keep (λ ip. not (is_skipped n ip)) ips)
]

unfoldable pub print_bytes : Bytes → Text
unfolding bytes_ip
print_bytes bs = must_canon_ip (print_ip (bytes_ip bs))

unfoldable pub expand_net : Text → Bool → Option IpNet → Result (List Text)
unfolding sweep print_bytes
expand_net raw allow_large none = err (invalid_cidr raw)
expand_net raw allow_large (some n) =
    let swept : Result (List Text) = elim (sweep n) [
      | none ↦ err (sweep_does_not_end raw)
      | some ips ↦ ok (map print_bytes ips)
    ] in
    if ltb max_sweep_host_bits (host_bits n) && not allow_large then err (too_wide raw) else swept

unfoldable pub has_slash : Text → Bool
has_slash s = elim (cut b'/' s) [ none ↦ false | some _ ↦ true ]

-- One entry of the list of CIDRs, trimmed.
unfoldable pub expand_one : Text → Bool → Result (List Text)
unfolding expand_net has_slash
expand_one raw allow_large =
    if raw == []
    then ok []
    else if has_slash raw
    then expand_net raw allow_large (parse_cidr raw)
    else elim (canon_ip raw) [ ok ip ↦ ok (ip ∷ []) | err e ↦ err (invalid_ip raw) ]

unfoldable pub canon_or_same : Text → Text
canon_or_same s = elim (canon_ip s) [ ok c ↦ c | err e ↦ s ]

unfoldable pub unique_strings : List Text → List Text
unfolding canon_or_same
unique_strings xs = unique_by (λ s. s) [] (map canon_or_same xs)

unfoldable pub expand_all : List Text → Bool → Result (List Text)
unfolding expand_one
expand_all [] allow_large = ok []
expand_all (raw ∷ cidrs) allow_large = do
  ips ← expand_one (trim raw) allow_large
  more ← expand_all cidrs allow_large
  ok (ips ++ more)

unfoldable pub expand_cidrs : List Text → Bool → Result (List Text)
unfolding expand_all
expand_cidrs cidrs allow_large = do ips ← expand_all cidrs allow_large; ok (unique_strings ips)

-- An entry without a slash stands for its one address.
as_cidr : Ip → Text → Text
as_cidr (v4 _ _ _ _) ip = ip ++ codes "/32"
as_cidr (v6 _) ip = ip ++ codes "/128"

single_cidr : Text → Text
unfolding as_cidr
single_cidr ip = elim (parse_ip ip) [ none ↦ ip ++ codes "/128" | some a ↦ as_cidr a ip ]

parse_net : Text → Result IpNet
unfolding has_slash single_cidr
parse_net raw = do
  cidr ←
      (if has_slash raw
        then ok raw
        else elim (canon_ip raw) [ ok ip ↦ ok (single_cidr ip) | err e ↦ err (invalid_cidr raw) ])
  elim (parse_cidr cidr) [ none ↦ err (invalid_cidr raw) | some n ↦ ok n ]

unfoldable pub parse_ip_nets : List Text → Result (List IpNet)
unfolding parse_net
parse_ip_nets [] = ok []
parse_ip_nets (raw ∷ cidrs) =
    let rest = parse_ip_nets cidrs in
    if trim raw == [] then rest else do n ← parse_net (trim raw); nets ← rest; ok (n ∷ nets)

any_contains : List IpNet → Bytes → Bool
any_contains [] ip = false
any_contains (n ∷ nets) ip = net_contains n ip || any_contains nets ip

unfoldable pub ip_in_nets : Text → List IpNet → Bool
unfolding any_contains
ip_in_nets ip nets = elim (canon_ip ip) [
  | err e ↦ false
  | ok c ↦ elim (parse_ip c) [ none ↦ false | some a ↦ any_contains nets (ip_bytes a) ]
]

unfoldable pub filter_excluded : List Text → List Text → Result (List Text)
filter_excluded ips exclude = do
  nets ← parse_ip_nets exclude
  ok (keep (λ ip. not (ip_in_nets ip nets)) ips)

-- snmpdiscovery/crawl.go: whether a neighbour may be probed
unfoldable pub allow_neighbor : Text → List Text → List Text → Bool
allow_neighbor ip cidrs exclude = elim (parse_ip_nets cidrs) [
  | err e ↦ false
  | ok [] ↦ false
  | ok (n ∷ nets) ↦ elim (parse_ip_nets exclude) [
    | err e ↦ false
    | ok excl ↦ ip_in_nets ip (n ∷ nets) && not (ip_in_nets ip excl)
  ]
]
