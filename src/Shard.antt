-- ===== src/Shard.antt =====
-- The shards of snmpdiscovery/shard.go. MD5 is a parameter: it maps the bytes of an address to the
-- sixteen bytes of the digest.
pub mod Partition
use snmp_sd.Base.{
  ℕ, zero, suc, ◌+◌, ◌*◌, ◌%◌, Text, Bool, true, false, Option, none, some, List, [], ◌∷◌, ◌==◌,
  ◌&&◌, ◌||◌, ℤ, pos, negsuc, Result, ok, err, shard_unpaired, shards_not_positive,
  shard_out_of_range, ltb, leb, eqb, if◌then◌else◌, atoi, drop, keep,
}
use snmp_sd.Target.{AlloyTarget}

big_endian_from : ℕ → List ℕ → ℕ
big_endian_from acc [] = acc
big_endian_from acc (b ∷ bs) = big_endian_from (acc * 256 + b) bs

-- `binary.BigEndian.Uint64`
unfoldable pub big_endian : List ℕ → ℕ
unfolding big_endian_from
big_endian = big_endian_from 0

-- What the two query parameters come to: no filter, or a shard and a number of shards.
check_shard : Option ℤ → ℕ → Result (Option (ℕ × ℕ))
check_shard (some (pos s)) n = if ltb s n then ok (some (s, n)) else err shard_out_of_range
check_shard _ n = err shard_out_of_range

check_shards : Option ℤ → Text → Result (Option (ℕ × ℕ))
unfolding check_shard
check_shards (some (pos zero)) shard = err shards_not_positive
check_shards (some (pos (suc n))) shard = check_shard (atoi shard) (suc n)
check_shards _ shard = err shards_not_positive

unfoldable pub parse_shard_query : Text → Text → Result (Option (ℕ × ℕ))
unfolding check_shards
parse_shard_query shard shards =
    if shard == [] && shards == []
    then ok none
    else if shard == [] || shards == []
    then err shard_unpaired
    else check_shards (atoi shards) shard

module _ (md5 : Text → List ℕ) where
  unfoldable pub shard_of : Text → ℕ → ℕ
  shard_of addr shards = if leb shards 1 then 0 else big_endian (drop 8 (md5 addr)) % shards

  unfoldable pub filter_shard : List AlloyTarget → ℕ → ℕ → List AlloyTarget
  unfolding shard_of
  filter_shard targets shard shards =
      if leb shards 1 then targets else keep (λ t. eqb (shard_of t.address shards) shard) targets
