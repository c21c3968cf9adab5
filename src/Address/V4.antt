-- ===== src/Address/V4.antt =====
-- Dotted quads: the four-byte addresses that `net.ParseIP` reads and `IP.String` writes.
use snmp_sd.Base.{
  ℕ, ◌+◌, ◌-◌, ◌*◌, Text, codes, ◌≡◌, refl, Bool, ◌&&◌, ◌||◌, Option, none, some, List, [], ◌∷◌,
  ltb, leb, eqb, if◌then◌else◌, split, join, itoa,
}

-- A decimal number at most 255 with no leading zero: one to three digits.
octet_from : ℕ → Text → Option ℕ
octet_from n [] = some n
octet_from n (c ∷ s) =
    let m = n * 10 + (c - b'0') in
    let rest = octet_from m s in
    if not_digit c then none else if eqb n 0 then none else if ltb 255 m then none else rest
  where
    not_digit : ℕ → Bool
    not_digit d = ltb d b'0' || ltb b'9' d

unfoldable pub parse_octet : Text → Option ℕ
unfolding octet_from
parse_octet [] = none
parse_octet (c ∷ s) = if leb b'0' c && leb c b'9' then octet_from (c - b'0') s else none

four : Option ℕ → Option ℕ → Option ℕ → Option ℕ → Option (List ℕ)
four (some a) (some b) (some c) (some d) = some (a ∷ b ∷ c ∷ d ∷ [])
four _ _ _ _ = none

quad : List Text → Option (List ℕ)
unfolding four
quad (a ∷ b ∷ c ∷ d ∷ []) = four (parse_octet a) (parse_octet b) (parse_octet c) (parse_octet d)
quad _ = none

unfoldable pub parse_v4 : Text → Option (List ℕ)
unfolding quad parse_octet
parse_v4 s = quad (split b'.' s)

unfoldable pub print_v4 : ℕ → ℕ → ℕ → ℕ → Text
print_v4 a b c d = join b'.' (itoa a ∷ itoa b ∷ itoa c ∷ itoa d ∷ [])

v4_tests :
    (parse_v4 (codes "192.0.2.10") ≡ some (192 ∷ 0 ∷ 2 ∷ 10 ∷ []))
    × (parse_v4 (codes "192.0.2.256") ≡ none)
    × (parse_v4 (codes "192.0.02.1") ≡ none)
    × (parse_v4 (codes "192.0.2") ≡ none)
    × (print_v4 192 0 2 10 ≡ codes "192.0.2.10")
unfolding parse_v4 print_v4 split join itoa
v4_tests = (refl, refl, refl, refl, refl)
