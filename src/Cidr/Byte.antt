-- ===== src/Cidr/Byte.antt =====
-- A byte and the byte after it: snmpdiscovery/cidr.go (incIP).
use snmp_sd.Base.{ℕ, zero, suc, ◌+◌, ◌/◌, ◌%◌, ◌^◌, ◌≤◌, ◌<◌, ◌≡◌, ◌≢◌, ◌⊎◌, arith}

-- A byte and its successor, by the free bits: the successor is in the same block, or it starts one.
unfoldable pub NextByte : ℕ → ℕ → Type 0
NextByte k b =
    ((b % 2 ^ k + 1 < 2 ^ k)
      × ((b + 1) % 256 % 2 ^ k ≡ b % 2 ^ k + 1)
      × ((b + 1) % 256 / 2 ^ k ≡ b / 2 ^ k)
      × ((b + 1) % 256 ≢ 0))
    ⊎ ((b % 2 ^ k + 1 ≡ 2 ^ k)
        × ((b + 1) % 256 % 2 ^ k ≡ 0)
        × (k ≡ 8 → (b + 1) % 256 ≡ 0)
        × (k < 8 → (b + 1) % 256 / 2 ^ k ≢ b / 2 ^ k))

pub up_to_8 :
    (P : ℕ → Type 0) → P 0 → P 1 → P 2 → P 3 → P 4 → P 5 → P 6 → P 7 → P 8 → (k : ℕ) → k ≤ 8 → P k
up_to_8 P p0 p1 p2 p3 p4 p5 p6 p7 p8 zero h = p0
up_to_8 P p0 p1 p2 p3 p4 p5 p6 p7 p8 (suc zero) h = p1
up_to_8 P p0 p1 p2 p3 p4 p5 p6 p7 p8 (suc (suc zero)) h = p2
up_to_8 P p0 p1 p2 p3 p4 p5 p6 p7 p8 (suc (suc (suc zero))) h = p3
up_to_8 P p0 p1 p2 p3 p4 p5 p6 p7 p8 (suc (suc (suc (suc zero)))) h = p4
up_to_8 P p0 p1 p2 p3 p4 p5 p6 p7 p8 (suc (suc (suc (suc (suc zero))))) h = p5
up_to_8 P p0 p1 p2 p3 p4 p5 p6 p7 p8 (suc (suc (suc (suc (suc (suc zero)))))) h = p6
up_to_8 P p0 p1 p2 p3 p4 p5 p6 p7 p8 (suc (suc (suc (suc (suc (suc (suc zero))))))) h = p7
up_to_8 P p0 p1 p2 p3 p4 p5 p6 p7 p8 (suc (suc (suc (suc (suc (suc (suc (suc zero)))))))) h = p8
up_to_8 P p0 p1 p2 p3 p4 p5 p6 p7 p8 (suc (suc (suc (suc (suc (suc (suc (suc (suc k))))))))) h =
    absurd (omega (arith, h))

pub next_byte : (k : ℕ) → k ≤ 8 → (b : ℕ) → b < 256 → NextByte k b
unfolding NextByte
next_byte =
    up_to_8 (λ k. (b : ℕ) → b < 256 → NextByte k b) (λ b h. omega arith) (λ b h. omega arith)
      (λ b h. omega arith) (λ b h. omega arith) (λ b h. omega arith) (λ b h. omega arith)
      (λ b h. omega arith) (λ b h. omega arith) (λ b h. omega arith)
