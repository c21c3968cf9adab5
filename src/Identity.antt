-- ===== src/Identity.antt =====
-- One catalog row for each host name: snmpdiscovery/identity.go. Where the code ranges over the map of
-- names, the model takes the names in the order of their first address.
pub mod Collapse
use snmp_sd.Base.{
  ℕ, ◌+◌, Text, Bool, true, false, not, Option, none, some, List, [], ◌∷◌, ◌++◌, map, ◌==◌, ◌&&◌,
  ◌||◌, ltb, eqb, if◌then◌else◌, trim, lower, cut, length, keep, unique_by, sort_texts, text_leb,
}
use snmp_sd.Target.{AlloyTarget}
use snmp_sd.Address.{Ip, v4, v6, parse_addr, must_canon_ip}

-- `netip.ParseAddr`: an address, and the zone that may stand behind one of IPv6.
zoned : Option Ip → Text → Option (Ip × Text)
zoned (some (v6 groups)) (c ∷ zone) = some (v6 groups, c ∷ zone)
zoned _ _ = none

unfoldable pub parse_netip : Text → Option (Ip × Text)
unfolding zoned
parse_netip s = elim (cut b'%' s) [
  | none ↦ elim (parse_addr s) [ none ↦ none | some ip ↦ some (ip, []) ]
  | some (before, zone) ↦ zoned (parse_addr before) zone
]

unfoldable pub ltb_text : Text → Text → Bool
ltb_text a b = not (text_leb b a)

-- `netip.Addr.Less`: IPv4 first, then by number, then by zone.
unfoldable pub netip_less : Ip × Text → Ip × Text → Bool
unfolding ltb_text
netip_less (v4 a b c d, z) (v4 a' b' c' d', z') =
    ltb_text (a ∷ b ∷ c ∷ d ∷ []) (a' ∷ b' ∷ c' ∷ d' ∷ [])
netip_less (v4 a b c d, z) (v6 gs, z') = true
netip_less (v6 gs, z) (v4 a b c d, z') = false
netip_less (v6 gs, z) (v6 gs', z') = ltb_text gs gs' || text_leb gs gs' && ltb_text z z'

-- `compareProbeAddr(a, b) < 0`: an address comes before what is none.
unfoldable pub probe_addr_less : Text → Text → Bool
unfolding netip_less
probe_addr_less a b = elim (parse_netip (must_canon_ip a)) [
  | some p ↦ elim (parse_netip (must_canon_ip b)) [ some q ↦ netip_less p q | none ↦ true ]
  | none ↦ elim (parse_netip (must_canon_ip b)) [ some q ↦ false | none ↦ ltb_text a b ]
]

-- Empty where the name is none or is an address.
unfoldable pub hostname_collapse_key : Text → Text → Text
hostname_collapse_key device_name addr =
    let n = lower (trim device_name) in
    if n == []
    then []
    else if n == lower (must_canon_ip addr)
    then []
    else elim (parse_netip n) [ some ip ↦ [] | none ↦ n ]

unfoldable pub merge_aliases : List Text → List Text
merge_aliases parts =
    sort_texts
      (unique_by (λ a. a) [] (map must_canon_ip (keep (λ a. not (a == [])) (map trim parts))))

-- A target with its index.
abbrev pub Row : Type 0
Row = ℕ × AlloyTarget

unfoldable pub rows_from : ℕ → List AlloyTarget → List Row
rows_from i [] = []
rows_from i (t ∷ ts) = (i, t) ∷ rows_from (i + 1) ts

abbrev pub key_of : Row → Text
key_of r = hostname_collapse_key r.1.device_name r.1.address

-- The rows of one key.
abbrev pub rows_at : Text → List Row → List Row
rows_at k = keep (λ r. key_of r == k)

-- The row with the lowest address, the first of equals.
unfoldable pub lowest : Row → List Row → Row
lowest win [] = win
lowest win (r ∷ rows) = lowest (if probe_addr_less r.1.address win.1.address then r else win) rows

-- The rows of a key that lose, given its winner.
abbrev pub losers : Row → List Row → List Row
losers win = keep (λ r. not (eqb r.0 win.0))

join_lists : List (List Text) → List Text
join_lists [] = []
join_lists (xs ∷ xss) = xs ++ join_lists xss

-- The winner's aliases: its own, the addresses that it takes over, and their aliases.
unfoldable pub inherit : List Row → AlloyTarget → AlloyTarget
unfolding join_lists
inherit lost t = record t {
  aliases = merge_aliases (
      t.aliases
      ++ (sort_texts (map (λ l. l.1.address) lost) ++ join_lists (map (λ l. l.1.aliases) lost)));
}

-- What becomes of a row among the rows of its key: `none` if it is folded into another one.
unfoldable pub collapse_among : List Row → Row → Option AlloyTarget
unfolding lowest inherit
collapse_among [] r = some r.1
collapse_among (first ∷ []) r = some r.1
collapse_among (first ∷ second ∷ more) r =
    let win = lowest first (second ∷ more) in
    if eqb r.0 win.0 then some (inherit (losers win (first ∷ second ∷ more)) r.1) else none

unfoldable pub collapse_row : List Row → Row → Option AlloyTarget
unfolding collapse_among
collapse_row rows r =
    if key_of r == [] then some r.1 else collapse_among (rows_at (key_of r) rows) r

unfoldable pub put_row : Option AlloyTarget → List AlloyTarget → List AlloyTarget
put_row none out = out
put_row (some t) out = t ∷ out

unfoldable pub collapse_rows : List Row → List Row → List AlloyTarget
unfolding collapse_row put_row
collapse_rows all [] = []
collapse_rows all (r ∷ rows) = put_row (collapse_row all r) (collapse_rows all rows)

-- The addresses that are folded, key by key.
unfoldable pub folded_at : List Row → List Text
unfolding lowest
folded_at [] = []
folded_at (first ∷ more) = map (λ r. r.1.address) (losers (lowest first more) (first ∷ more))

unfoldable pub folded : List Text → List Row → List Text
unfolding folded_at
folded [] rows = []
folded (k ∷ keys) rows = folded_at (rows_at k rows) ++ folded keys rows

abbrev pub host_keys : List Row → List Text
host_keys rows = unique_by (λ k. k) [] (keep (λ k. not (k == [])) (map key_of rows))

-- The rows that stay, and the addresses of the others.
unfoldable pub collapse_same_hostname : List AlloyTarget → Bool → List AlloyTarget × List Text
unfolding collapse_rows folded rows_from
collapse_same_hostname targets allow_dup =
    let rows = rows_from 0 targets in
    if allow_dup || ltb (length targets) 2
    then (targets, [])
    else (collapse_rows rows rows, folded (host_keys rows) rows)
