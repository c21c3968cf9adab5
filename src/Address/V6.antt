-- ===== src/Address/V6.antt =====
-- Sixteen-byte addresses as eight groups of sixteen bits: `net.ParseIP` and `IP.String` (RFC 5952).
use snmp_sd.Base.{
  ℕ, zero, suc, ◌+◌, ◌-◌, ◌*◌, ◌/◌, ◌%◌, Text, codes, ◌≡◌, refl, Bool, true, false, ◌&&◌, ◌||◌, not,
  Option, none, some, List, [], ◌∷◌, ◌++◌, ltb, leb, eqb, if◌then◌else◌, length, take, drop, split,
}
use snmp_sd.Address.V4.{parse_v4}

hex_value : ℕ → Option ℕ
hex_value c =
    if leb b'0' c && leb c b'9'
    then some (c - b'0')
    else if leb b'a' c && leb c b'f'
    then some (c - 87)
    else if leb b'A' c && leb c b'F'
    then some (c - 55)
    else none

-- The hexadecimal digits in front, as their number and value, and the text behind them.
hex_run : ℕ → ℕ → Text → ℕ × ℕ × Text
unfolding hex_value
hex_run count acc [] = (count, acc, [])
hex_run count acc (c ∷ s) = elim (hex_value c) [
  | none ↦ (count, acc, c ∷ s)
  | some d ↦ hex_run (count + 1) (acc * 16 + d) s
]

-- The groups read so far, and where `::` stood.
pub record Groups : Type 0 where
  pub read : List ℕ
  pub ellipsis : Option ℕ

is_some : Option ℕ → Bool
is_some none = false
is_some (some _) = true

-- An address with dots at the end fills the last two groups.
with_quad : Groups → Option (List ℕ) → Option Groups
with_quad g (some (a ∷ b ∷ c ∷ d ∷ [])) =
    some (record g { read = g.read ++ (a * 256 + b) ∷ (c * 256 + d) ∷ [] })
with_quad g _ = none

quad_here : Groups → Text → Option Groups
unfolding is_some with_quad
quad_here g s =
    if not (is_some g.ellipsis) && not (eqb (length g.read) 6) || ltb 6 (length g.read)
    then none
    else with_quad g (parse_v4 s)

-- What follows a group: the end, or a colon and more, or `::` and perhaps nothing.
pub data After : Type 0 where
  finished : Groups → After
  continue : Groups → Text → After
  broken : After

after_group : Groups → Text → After
unfolding is_some
after_group g [] = finished g
after_group g (c ∷ []) = broken
after_group g (c ∷ d ∷ s) =
    if not (eqb c b':')
    then broken
    else if not (eqb d b':')
    then continue g (d ∷ s)
    else if is_some g.ellipsis
    then broken
    else after_ellipsis (record g { ellipsis = some (length g.read) }) s
  where
    after_ellipsis : Groups → Text → After
    after_ellipsis h [] = finished h
    after_ellipsis h (e ∷ r) = continue h (e ∷ r)

starts_dot : Text → Bool
starts_dot [] = false
starts_dot (c ∷ s) = eqb c b'.'

-- At most eight rounds, as each adds a group; text that is left after them is an error.
groups_loop : ℕ → Groups → Text → Option Groups
unfolding hex_run quad_here after_group starts_dot
groups_loop zero g s = none
groups_loop (suc rounds) g s =
    let (count, acc, rest) = hex_run 0 0 s in
    let g' = record g { read = g.read ++ acc ∷ [] } in
    if eqb count 0 || ltb 4 count
    then none
    else if starts_dot rest
    then quad_here g s
    else elim (after_group g' rest) [
      | finished h ↦ some h
      | continue h t ↦ groups_loop rounds h t
      | broken ↦ none
    ]

zeros : ℕ → List ℕ
zeros zero = []
zeros (suc n) = 0 ∷ zeros n

-- `::` stands for the groups that are missing, and at least one must be.
fill : Groups → Option (List ℕ)
unfolding zeros
fill g = elim g.ellipsis [
  | none ↦ if eqb (length g.read) 8 then some g.read else none
  | some at ↦
      if ltb (length g.read) 8
      then some (take at g.read ++ zeros (8 - length g.read) ++ drop at g.read)
      else none
]

fill_groups : Option Groups → Option (List ℕ)
unfolding fill
fill_groups none = none
fill_groups (some g) = fill g

abbrev no_groups : Groups
no_groups = record { read = []; ellipsis = none }

unfoldable pub parse_v6 : Text → Option (List ℕ)
unfolding fill_groups groups_loop
parse_v6 (a ∷ b ∷ []) =
    if eqb a b':' && eqb b b':'
    then some (zeros 8)
    else fill_groups (groups_loop 8 no_groups (a ∷ b ∷ []))
parse_v6 (a ∷ b ∷ c ∷ s) =
    if eqb a b':' && eqb b b':'
    then fill_groups (groups_loop 8 (record no_groups { ellipsis = some 0 }) (c ∷ s))
    else fill_groups (groups_loop 8 no_groups (a ∷ b ∷ c ∷ s))
parse_v6 _ = none

hex_digit : ℕ → ℕ
hex_digit d = if ltb d 10 then b'0' + d else 87 + d

hex_digits : ℕ → ℕ → Text → Text
unfolding hex_digit
hex_digits zero n out = out
hex_digits (suc fuel) n out =
    let next = hex_digits fuel (n / 16) (hex_digit (n % 16) ∷ out) in
    if ltb n 16 then hex_digit n ∷ out else next

-- The number in hexadecimal, with no leading zero; a group has at most four digits.
hex : ℕ → Text
unfolding hex_digits
hex n = hex_digits 4 n []

-- The length of the run of zeros in front.
zero_run : List ℕ → ℕ
zero_run [] = 0
zero_run (g ∷ gs) = if eqb g 0 then suc (zero_run gs) else 0

-- The first of the longest runs of two or more zeros: where it starts and how long it is.
longest : ℕ → List ℕ → ℕ × ℕ → ℕ × ℕ
unfolding zero_run
longest i [] best = best
longest i (g ∷ gs) (start, count) =
    let run = zero_run (g ∷ gs) in
    longest (i + 1) gs (if ltb 1 run && ltb count run then (i, run) else (start, count))

colons : List ℕ → Text
unfolding hex
colons [] = []
colons (g ∷ []) = hex g
colons (g ∷ h ∷ gs) = hex g ++ b':' ∷ colons (h ∷ gs)

unfoldable pub print_v6 : List ℕ → Text
unfolding longest colons
print_v6 gs =
    let (start, count) = longest 0 gs (0, 0) in
    if eqb count 0
    then colons gs
    else colons (take start gs) ++ b':' ∷ b':' ∷ colons (drop (start + count) gs)

v6_tests :
    (parse_v6 (codes "2001:db8::1") ≡ some (8193 ∷ 3512 ∷ 0 ∷ 0 ∷ 0 ∷ 0 ∷ 0 ∷ 1 ∷ []))
    × (parse_v6 (codes "::") ≡ some (0 ∷ 0 ∷ 0 ∷ 0 ∷ 0 ∷ 0 ∷ 0 ∷ 0 ∷ []))
    × (parse_v6 (codes "::ffff:192.0.2.1") ≡ some (0 ∷ 0 ∷ 0 ∷ 0 ∷ 0 ∷ 65535 ∷ 49152 ∷ 513 ∷ []))
    × (parse_v6 (codes "1:2:3:4:5:6:7") ≡ none)
    × (parse_v6 (codes "1::2::3") ≡ none)
    × (parse_v6 (codes "1:2:3:4:5:6:7:8:9") ≡ none)
    × (print_v6 (8193 ∷ 3512 ∷ 0 ∷ 0 ∷ 1 ∷ 0 ∷ 0 ∷ 1 ∷ []) ≡ codes "2001:db8::1:0:0:1")
    × (print_v6 (0 ∷ 0 ∷ 0 ∷ 0 ∷ 0 ∷ 0 ∷ 0 ∷ 0 ∷ []) ≡ codes "::")
unfolding parse_v6 print_v6 parse_v4 split
v6_tests = (refl, refl, refl, refl, refl, refl, refl, refl)
