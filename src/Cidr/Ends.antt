-- ===== src/Cidr/Ends.antt =====
-- The sweep of an IPv4 network ends: snmpdiscovery/cidr.go (the loop of expandCIDRs).
use mathlib.Core.Path.{subst}
use native.Mathlib.Nat.{one-le-pow}
use snmp_sd.Base.{
  ℕ, zero, suc, ◌+◌, ◌-◌, ◌*◌, ◌^◌, ◌≤◌, ◌<◌, true, false, not, some, List, [], ◌∷◌, ◌==◌, eq_iff,
  ◌≡◌, refl, ◌≢◌, inl, inr, arith, sym, ◌∙◌, length, All, keep,
}
use snmp_sd.Cidr.{
  Bytes, IpNet, host_bits, mask_bytes, short_bytes, net_v4, net_contains, inc_bytes, inc_ip,
  is_skipped, sweep_loop, sweep,
}
use snmp_sd.Cidr.Host.{size, place, AreBytes, next_place, length-inc_bytes, AreBytes-inc_bytes}
use snmp_sd.Cidr.Size.{
  place-lt-size, size_lem, length-mask_bytes, AreBytes-mask_bytes, place-mask_bytes,
}

-- The first addresses from one on, each the successor of the one before.
abbrev pub addresses : ℕ → Bytes → List Bytes
addresses zero ip = []
addresses (suc n) ip = ip ∷ addresses n (inc_ip ip)

short_bytes_four : (bs : Bytes) → length bs ≡ 4 → short_bytes bs ≡ bs
unfolding short_bytes
short_bytes_four [] h = absurd (omega (arith, h))
short_bytes_four (a ∷ []) h = absurd (omega (arith, h))
short_bytes_four (a ∷ b ∷ []) h = absurd (omega (arith, h))
short_bytes_four (a ∷ b ∷ c ∷ []) h = absurd (omega (arith, h))
short_bytes_four (a ∷ b ∷ c ∷ d ∷ []) h = refl
short_bytes_four (a ∷ b ∷ c ∷ d ∷ e ∷ bs) h = absurd (omega (arith, h))

-- In a network of four bytes, membership is a comparison of masked bytes.
net_contains_four :
    (n : IpNet) (ip : Bytes)
    → length n.ip ≡ 4
    → length ip ≡ 4
    → net_contains n ip ≡ (mask_bytes n.ones ip == mask_bytes n.ones n.ip)
unfolding net_contains net_v4 short_bytes
net_contains_four n ip h e =
    let same : n.ones - (8 * 4 - 8 * 4) ≡ n.ones = omega arith in
    rw (short_bytes_four ip e, short_bytes_four n.ip h, e, h, same) refl

-- One round of the loop on an address of the network, and on one beyond it.
round_inside :
    (fuel : ℕ) (n : IpNet) (ip : Bytes) (ips : List Bytes)
    → net_contains n ip ≡ true
    → sweep_loop fuel n (inc_ip ip) ≡ some ips
    → sweep_loop (suc fuel) n ip ≡ some (ip ∷ ips)
unfolding sweep_loop
round_inside fuel n ip ips h e = rw (h, e) refl

round_beyond :
    (fuel : ℕ) (n : IpNet) (ip : Bytes)
    → net_contains n ip ≡ false
    → sweep_loop (suc fuel) n ip ≡ some []
unfolding sweep_loop
round_beyond fuel n ip h = rw h refl

not_equal : (a b : Bytes) → a ≢ b → (a == b) ≡ false
unfolding ◌==◌
not_equal a b h = ground (arith, h)

module _ (n : IpNet) (four : length n.ip ≡ 4) (fits : n.ones ≤ 32) (inside : 1 ≤ n.ones) where
  in_net :
      (ip : Bytes)
      → length ip ≡ 4
      → mask_bytes n.ones ip ≡ mask_bytes n.ones n.ip
      → net_contains n ip ≡ true
  in_net ip len same =
      net_contains_four n ip four len
      ∙ (eq_iff (mask_bytes n.ones ip) (mask_bytes n.ones n.ip)).1 same

  beyond_net :
      (ip : Bytes)
      → length ip ≡ 4
      → mask_bytes n.ones ip ≢ mask_bytes n.ones n.ip
      → net_contains n ip ≡ false
  beyond_net ip len other = net_contains_four n ip four len ∙ not_equal _ _ other

  -- The last address has no next one in the network.
  full :
      (ip : Bytes)
      → AreBytes ip
      → length ip ≡ 4
      → place n.ones ip + 1 ≡ size n.ones 4
      → place n.ones (inc_bytes ip).0 ≡ place n.ones ip + 1
      → ⊥
  full ip bytes len here grown =
      let below = place-lt-size n.ones (inc_bytes ip).0 (AreBytes-inc_bytes ip bytes) in
      let length_four = length-inc_bytes ip ∙ len in
      let below_four : place n.ones (inc_bytes ip).0 < size n.ones 4 =
        subst (λ k. place n.ones (inc_bytes ip).0 < size n.ones k) length_four below in
      omega (arith, below_four, grown, here)

  length-inc_ip : (ip : Bytes) → length ip ≡ 4 → length (inc_ip ip) ≡ 4
  unfolding inc_ip
  length-inc_ip ip len = length-inc_bytes ip ∙ len

  -- From an address of the network with `left` addresses behind it, the loop takes those and ends.
  sweep_loop_lem :
      (left : ℕ) (ip : Bytes)
      → AreBytes ip
      → length ip ≡ 4
      → mask_bytes n.ones ip ≡ mask_bytes n.ones n.ip
      → place n.ones ip + suc left ≡ size n.ones 4
      → (sweep_loop (suc (suc left)) n ip ≡ some (addresses (suc left) ip))
        × All (λ a. net_contains n a ≡ true) (addresses (suc left) ip)
  unfolding inc_ip
  sweep_loop_lem zero ip bytes len same here =
      elim (next_place n.ones ip (omega (arith, len, fits)) bytes) [
        | inl (grown, _, _) ↦ absurd (full ip bytes len here grown)
        | inr (_, _, _, other) ↦ (
          round_inside 1 n ip [] (in_net ip len same) (
              round_beyond 0 n (inc_ip ip)
                (beyond_net (inc_ip ip) (length-inc_ip ip len) (λ e. other inside (e ∙ sym same)))),
          (in_net ip len same, tt),
        )
      ]
  sweep_loop_lem (suc left) ip bytes len same here =
      elim (next_place n.ones ip (omega (arith, len, fits)) bytes) [
        | inl (grown, mask, _) ↦
            let rest =
              sweep_loop_lem left (inc_ip ip) (AreBytes-inc_bytes ip bytes) (length-inc_ip ip len)
                (mask ∙ same) (omega (arith, grown, here)) in
            (
              round_inside (suc (suc left)) n ip (addresses (suc left) (inc_ip ip))
                  (in_net ip len same) rest.0,
              (in_net ip len same, rest.1),
            )
        | inr (last, _, _, _) ↦
            let ended : place n.ones ip + 1 ≡ size n.ones 4 =
              subst (λ k. place n.ones ip + 1 ≡ size n.ones k) len last in
            absurd (omega (arith, ended, here))
      ]

sweep_some :
    (n : IpNet) (rounds : ℕ) (ips : List Bytes)
    → 2 ^ host_bits n + 1 ≡ rounds
    → sweep_loop rounds n n.ip ≡ some ips
    → sweep n ≡ some (keep (λ a. not (is_skipped n a)) ips)
unfolding sweep
sweep_some n rounds ips fuel h =
    let swept : sweep_loop (2 ^ host_bits n + 1) n n.ip ≡ some ips =
      subst (λ k. sweep_loop k n n.ip ≡ some ips) (sym fuel) h in
    rw (swept, sweep) refl

-- The sweep of an IPv4 network with a prefix of one bit at least ends: 2 ^ (32 - prefix) rounds and one
-- for the end are enough. It takes so many addresses, each the successor of the one before, from the
-- network's own address on, all of them in the network, and leaves out those that are skipped.
pub sweep_lem :
    (ones : ℕ) (ip : Bytes)
    → length ip ≡ 4
    → AreBytes ip
    → 1 ≤ ones
    → ones ≤ 32
    → let n : IpNet = record { ip = mask_bytes ones ip; ones = ones } in
      let ips = addresses (2 ^ (32 - ones)) n.ip in
      (sweep n ≡ some (keep (λ a. not (is_skipped n a)) ips))
      × All (λ a. net_contains n a ≡ true) ips
sweep_lem ones ip len bytes inside fits =
    let n : IpNet = record { ip = mask_bytes ones ip; ones = ones } in
    let four : length n.ip ≡ 4 = length-mask_bytes ones ip ∙ len in
    let some_rounds = one-le-pow (32 - ones) 2 (omega arith) in
    let rounds : 2 ^ (32 - ones) ≡ suc (2 ^ (32 - ones) - 1) = omega (arith, some_rounds) in
    let hosts : size ones 4 ≡ 2 ^ (32 - ones) = size_lem ones 4 fits in
    let swept =
      sweep_loop_lem n four fits inside (2 ^ (32 - ones) - 1) n.ip
        (AreBytes-mask_bytes ones ip bytes) four refl
        (rw (place-mask_bytes ones ip bytes) (omega (arith, hosts, rounds))) in
    let fuel : 2 ^ host_bits n + 1 ≡ suc (suc (2 ^ (32 - ones) - 1)) =
      rw four (omega (arith, rounds)) in
    subst
      (λ k.
        (sweep n ≡ some (keep (λ a. not (is_skipped n a)) (addresses k n.ip)))
        × All (λ a. net_contains n a ≡ true) (addresses k n.ip))
      (sym rounds) (sweep_some n _ _ fuel swept.0, swept.1)
