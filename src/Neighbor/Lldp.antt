-- ===== src/Neighbor/Lldp.antt =====
-- The address that an LLDP index carries is read back: `neighborFromOID` of snmpdiscovery/crawl.go.
use snmp_sd.Base.{
  ℕ, ◌≤◌, Text, codes, ◌≡◌, refl, ap, ◌∙◌, some, List, [], ◌∷◌, ◌++◌, pos, atoi, itoa, atoi-itoa,
  AllDigits-itoa, Lacks-of_AllDigits, AllLack, split, join, split-join, map, arith, All,
  trim_prefix, cut_prefix,
}
use snmp_sd.Address.{print_ip}
use snmp_sd.Address.V4.{print_v4}
use snmp_sd.Cidr.{bytes_ip}
use snmp_sd.Neighbor.{
  ip_from_bytes, octet_bytes, byte_of, cons_byte, is_number, without_length, from_bytes,
  ip_of_octets, ip_from_oid_octets, after_text, lldp_prefix, lldp_ip, neighbor_from_oid,
}

abbrev pub IsByte : ℕ → Type 0
IsByte n = n ≤ 255

atoi-small : (n : ℕ) → n ≤ 255 → atoi (itoa n) ≡ some (pos n)
atoi-small n h = atoi-itoa n (ground arith)

numbers-AllLack : (ns : List ℕ) → AllLack b'.' (map itoa ns)
numbers-AllLack [] = tt
numbers-AllLack (n ∷ ns) =
    (Lacks-of_AllDigits b'.' (itoa n) (omega arith) (AllDigits-itoa n), numbers-AllLack ns)

octet_bytes-itoa : (ns : List ℕ) → All IsByte ns → octet_bytes (map itoa ns) ≡ some ns
unfolding octet_bytes byte_of cons_byte
octet_bytes-itoa [] h = refl
octet_bytes-itoa (n ∷ ns) (b, h) = ground (arith, octet_bytes-itoa ns h, atoi-small n b)

abbrev pub four : ℕ → ℕ → ℕ → ℕ → List ℕ
four a b c d = a ∷ b ∷ c ∷ d ∷ []

ip_of_octets-four :
    (a b c d : ℕ)
    → All IsByte (four a b c d)
    → (ip_of_octets 4 (map itoa (four a b c d)) ≡ print_v4 a b c d)
      × (ip_of_octets 4 (map itoa (4 ∷ four a b c d)) ≡ print_v4 a b c d)
unfolding ip_of_octets without_length is_number from_bytes ip_from_bytes bytes_ip print_ip
ip_of_octets-four a b c d h = (
  rw (octet_bytes-itoa (four a b c d) h) refl,
  rw (atoi-small 4 (omega arith), octet_bytes-itoa (four a b c d) h) refl,
)

-- The index behind the column of an LLDP management address.
abbrev pub lldp_index : ℕ → ℕ → ℕ → List ℕ → Text
lldp_index mark port index octets = join b'.' (map itoa (mark ∷ port ∷ index ∷ 1 ∷ octets))

lldp_ip-v4 :
    (mark port index subtype o : Text) (os : List Text)
    → atoi subtype ≡ some (pos 1)
    → lldp_ip (mark ∷ port ∷ index ∷ subtype ∷ o ∷ os) ≡ ip_of_octets 4 (o ∷ os)
unfolding lldp_ip ip_from_oid_octets
lldp_ip-v4 mark port index subtype o os h = rw (h, lldp_ip) refl

lldp_ip-numbers :
    (mark port index o : ℕ) (os : List ℕ)
    → lldp_ip (split b'.' (lldp_index mark port index (o ∷ os)))
      ≡ ip_of_octets 4 (map itoa (o ∷ os))
lldp_ip-numbers mark port index o os =
    let numbers : List ℕ = mark ∷ port ∷ index ∷ 1 ∷ o ∷ os in
    ap lldp_ip (split-join b'.' (map itoa numbers) (λ e. cc) (numbers-AllLack numbers))
    ∙ lldp_ip-v4 (itoa mark) (itoa port) (itoa index) (itoa 1) (itoa o) (map itoa os)
        (atoi-small 1 (omega arith))

-- The IPv4 address in an LLDP management index, with the length of the address in front of its four
-- bytes or without, is read back in dotted form, whatever the time mark, the port and the index are.
pub neighbor_from_oid-lldp :
    (mark port index a b c d : ℕ)
    → All IsByte (four a b c d)
    → (neighbor_from_oid (codes "." ++ lldp_prefix ++ lldp_index mark port index (four a b c d))
        ≡ print_v4 a b c d)
      × (neighbor_from_oid
            (codes "." ++ lldp_prefix ++ lldp_index mark port index (4 ∷ four a b c d))
          ≡ print_v4 a b c d)
unfolding neighbor_from_oid after_text trim_prefix cut_prefix
neighbor_from_oid-lldp mark port index a b c d h =
    let (plain, counted) = ip_of_octets-four a b c d h in
    (
      lldp_ip-numbers mark port index a (b ∷ c ∷ d ∷ []) ∙ plain,
      lldp_ip-numbers mark port index 4 (four a b c d) ∙ counted,
    )
