-- ===== src/Shard/Partition.antt =====
-- The shards of a catalog: what a query is let through, and that no device is lost or served twice.
use mathlib.Core.List.{Perm, perm_middle, append-nil}
use mathlib.Core.List.Perm
use snmp_sd.Base.{
  ℕ, zero, suc, ◌<◌, Text, ◌≡◌, refl, true, false, Option, none, some, List, [], ◌∷◌, ◌++◌, ℤ, pos,
  negsuc, ok, ltb, eqb, if◌then◌else◌, atoi, itoa, atoi-itoa, itoa-ne-nil, eq_iff, ◌^◌, arith,
  Bool-cases, inl, inr,
}
use snmp_sd.Target.{AlloyTarget}
use snmp_sd.Shard.{check_shard, check_shards, parse_shard_query, shard_of, filter_shard}

check_shard_sound :
    (o : Option ℤ) (n s m : ℕ)
    → check_shard o n ≡ ok (some (s, m))
    → (o ≡ some (pos s)) × (m ≡ n) × (s < n)
unfolding check_shard
check_shard_sound (some (pos k)) n s m h = ground arith
check_shard_sound none n s m h = cc
check_shard_sound (some (negsuc k)) n s m h = cc

check_shards_sound :
    (o : Option ℤ) (shard : Text) (s n : ℕ)
    → check_shards o shard ≡ ok (some (s, n))
    → (atoi shard ≡ some (pos s)) × (o ≡ some (pos n)) × (s < n)
unfolding check_shards
check_shards_sound (some (pos zero)) shard s n h = cc
check_shards_sound (some (pos (suc k))) shard s n h =
    ground (arith, check_shard_sound (atoi shard) (suc k) s n)
check_shards_sound (some (negsuc k)) shard s n h = cc
check_shards_sound none shard s n h = cc

-- A query that asks for a shard is let through only if both numbers are written out and the shard is
-- below the number of shards.
pub parse_shard_query_sound :
    (shard shards : Text) (s n : ℕ)
    → parse_shard_query shard shards ≡ ok (some (s, n))
    → (atoi shard ≡ some (pos s)) × (atoi shards ≡ some (pos n)) × (s < n)
unfolding parse_shard_query
parse_shard_query_sound shard shards s n h =
    ground (arith, check_shards_sound (atoi shards) shard s n)

-- The two numbers of a query are read back as they were written.
pub parse_shard_query-itoa :
    (s n : ℕ) → s < n → n < 2 ^ 63 → parse_shard_query (itoa s) (itoa n) ≡ ok (some (s, n))
unfolding parse_shard_query check_shards check_shard
parse_shard_query-itoa s zero h fits = ground arith
parse_shard_query-itoa s (suc n) h fits = ground (
  arith,
  eq_iff (itoa s) [],
  eq_iff (itoa (suc n)) [],
  itoa-ne-nil s,
  itoa-ne-nil (suc n),
  atoi-itoa s,
  atoi-itoa (suc n),
)

module _ (md5 : Text → List ℕ) where
  shard_of-lt : (addr : Text) (n : ℕ) → 0 < n → shard_of md5 addr n < n
  unfolding shard_of
  shard_of-lt addr n h = ground arith

  -- The shards below `m` of a catalog cut into `n`, one after the other.
  unfoldable pub shards_below : List AlloyTarget → ℕ → ℕ → List AlloyTarget
  shards_below targets n zero = []
  shards_below targets n (suc m) = filter_shard md5 targets m n ++ shards_below targets n m

  filter_shard-cons :
      (t : AlloyTarget) (ts : List AlloyTarget) (m n : ℕ)
      → 1 < n
      → filter_shard md5 (t ∷ ts) m n ≡ (
          if eqb (shard_of md5 t.address n) m
          then t ∷ filter_shard md5 ts m n
          else filter_shard md5 ts m n)
  unfolding filter_shard
  filter_shard-cons t ts m n h = ground arith

  shards_below-cons :
      (t : AlloyTarget) (ts : List AlloyTarget) (n m : ℕ)
      → 1 < n
      → Perm (shards_below (t ∷ ts) n m) (
          if ltb (shard_of md5 t.address n) m then t ∷ shards_below ts n m else shards_below ts n m)
  unfolding shards_below
  shards_below-cons t ts n zero h =
      let e : ltb (shard_of md5 t.address n) 0 ≡ false = ground arith in rw e (Perm.refl [])
  shards_below-cons t ts n (suc m) h = elim (Bool-cases (eqb (shard_of md5 t.address n) m)) [
    | inl here ↦
        let now : ltb (shard_of md5 t.address n) (suc m) ≡ true = ground arith in
        let later : ltb (shard_of md5 t.address n) m ≡ false = ground arith in
        let ih = shards_below-cons t ts n m h in
        rw (filter_shard-cons t ts m n h, here, now)
          (Perm.cons t (Perm.append_left (filter_shard md5 ts m n) (rw later at ih)))
    | inr there ↦ elim (Bool-cases (ltb (shard_of md5 t.address n) m)) [
      | inl below ↦
          let now : ltb (shard_of md5 t.address n) (suc m) ≡ true = ground arith in
          let ih = shards_below-cons t ts n m h in
          rw (filter_shard-cons t ts m n h, there, now)
            (Perm.trans (Perm.append_left (filter_shard md5 ts m n) (rw below at ih))
              (perm_middle (filter_shard md5 ts m n) (shards_below ts n m)))
      | inr above ↦
          let now : ltb (shard_of md5 t.address n) (suc m) ≡ false = ground arith in
          let ih = shards_below-cons t ts n m h in
          rw (filter_shard-cons t ts m n h, there, now)
            (Perm.append_left (filter_shard md5 ts m n) (rw above at ih))
    ]
  ]

  shards_below-nil : (n m : ℕ) → shards_below [] n m ≡ []
  unfolding shards_below filter_shard
  shards_below-nil n zero = refl
  shards_below-nil n (suc m) = ground (arith, shards_below-nil n m)

  -- Served one after the other, the shards of a catalog hold each of its rows as often as it does.
  pub shards_below-perm :
      (targets : List AlloyTarget) (n : ℕ) → 0 < n → Perm (shards_below targets n n) targets
  shards_below-perm targets zero h = elim h [ ]
  shards_below-perm targets (suc zero) h =
      unfold shards_below filter_shard in rw (append-nil targets) (Perm.refl targets)
  shards_below-perm [] (suc (suc n)) h = rw shards_below-nil (Perm.refl [])
  shards_below-perm (t ∷ ts) (suc (suc n)) h =
      let here : ltb (shard_of md5 t.address (suc (suc n))) (suc (suc n)) ≡ true =
        ground (arith, shard_of-lt t.address (suc (suc n))) in
      let split = shards_below-cons t ts (suc (suc n)) (suc (suc n)) (omega arith) in
      Perm.trans (rw here at split) (Perm.cons t (shards_below-perm ts (suc (suc n)) h))
