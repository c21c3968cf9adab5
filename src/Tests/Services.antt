-- ===== src/Tests/Services.antt =====
-- The theorems on shards, HTTP and names on sample data.
use mathlib.Core.List.{Perm}
use snmp_sd.Base.Error.{Error}
use snmp_sd.Base.{
  ℕ, map, replace_byte, cut, has_prefix, split, join, trim, lookup, insert, text_dec, ◌==◌, ◌<◌,
  arith, Text, codes, ◌≡◌, refl, true, false, some, List, [], ◌∷◌, ◌++◌, length, take, itoa, atoi,
  pos, Result, ok, All, Option, none, empty_path,
}
use snmp_sd.Disk.{Disk}
use snmp_sd.Emit.Atomic.{Call, rename, write_file_atomic}
use snmp_sd.Emit.Atomic.Whole.{IsWhole, Outcome, last_disk, write_file_atomic_lem}
use snmp_sd.Target.{AlloyTarget}
use snmp_sd.Catalog.{snapshot}
use snmp_sd.Shard.{filter_shard}
use snmp_sd.Shard.Partition.{
  parse_shard_query-itoa, parse_shard_query_sound, shards_below, shards_below-perm,
}
use snmp_sd.Emit.{FileSdGroup, http_sd_groups, uniquify_names, truncate_at_rune_boundary}
use snmp_sd.Address.{name_addr_suffix}
use snmp_sd.Address.V4.{parse_v4, print_v4}
use snmp_sd.Emit.Unique.{AreNamed, uniquify_names_lem}
use snmp_sd.Emit.Labels.{FitTargets, http_sd_groups_lem}
use snmp_sd.Emit.Truncate.{IsLongestCut, truncate_at_rune_boundary_lem}
use snmp_sd.Http.{
  get_method, head_method, last_modified, http_sd_handler, alloy_yaml_handler,
  new_discovery_mux_tiers,
}
use snmp_sd.Http.Serve.{IsHeadOf, sd_shard, head_lem}
use snmp_sd.Tests.{device, sw1, sw2, lab}

-- Sixteen bytes, the last of them the length of the text.
abbrev digest : Text → List ℕ
digest s = 0 ∷ 0 ∷ 0 ∷ 0 ∷ 0 ∷ 0 ∷ 0 ∷ 0 ∷ 0 ∷ 0 ∷ 0 ∷ 0 ∷ 0 ∷ 0 ∷ 0 ∷ length s ∷ []

parse_shard_query_sound_example :
    (atoi (itoa 1) ≡ some (pos 1)) × (atoi (itoa 3) ≡ some (pos 3)) × (1 < 3)
parse_shard_query_sound_example =
    parse_shard_query_sound (itoa 1) (itoa 3) 1 3
      (parse_shard_query-itoa 1 3 (omega arith) (omega arith))

shards_below-perm_example : Perm (shards_below digest (sw1 ∷ sw2 ∷ []) 3 3) (sw1 ∷ sw2 ∷ [])
shards_below-perm_example = shards_below-perm digest (sw1 ∷ sw2 ∷ []) 3 (omega arith)

abbrev to_json : List FileSdGroup → Result Text
to_json groups = ok (codes "[]")

abbrev to_yaml : List AlloyTarget → Result Text
to_yaml targets = ok (codes "[]")

abbrev show_time : ℕ → Text
show_time t = codes "now"

abbrev message : Error → Text
message e = codes "error"

sd_shard_example :
    new_discovery_mux_tiers digest to_json to_yaml show_time show_time message lab []
      (record { method = get_method; path = codes "/sd"; shard = itoa 1; shards = itoa 3 })
    ≡ some (record {
      status = 200;
      headers =
          (codes "Content-Type", codes "application/json")
          ∷ (
            codes "X-Snmp-Discovery-Count",
            itoa (length (filter_shard digest (snapshot lab).0 1 3)),
          )
          ∷ last_modified show_time (snapshot lab).1;
      body = codes "[]" ++ codes "\n";
    })
sd_shard_example =
    sd_shard digest to_json to_yaml show_time show_time message lab [] 1 3 (codes "[]")
      (omega arith) (omega arith) refl

head_lem_example :
    IsHeadOf
      (http_sd_handler digest to_json to_yaml show_time show_time message lab true []
        (record { method = head_method; path = codes "/sd"; shard = []; shards = [] }))
      (http_sd_handler digest to_json to_yaml show_time show_time message lab true []
        (record { method = get_method; path = codes "/sd"; shard = []; shards = [] }))
    × IsHeadOf
        (alloy_yaml_handler digest to_json to_yaml show_time show_time message lab
          (record { method = head_method; path = codes "/sd"; shard = []; shards = [] }))
        (alloy_yaml_handler digest to_json to_yaml show_time show_time message lab
          (record { method = get_method; path = codes "/sd"; shard = []; shards = [] }))
head_lem_example =
    head_lem digest to_json to_yaml show_time show_time message lab true [] (codes "/sd") [] []

-- The two bytes of one letter, cut in the middle.
abbrev umlaut : Text
umlaut = 195 ∷ 164 ∷ []

truncate_at_rune_boundary_lem_example :
    (n : ℕ) × (truncate_at_rune_boundary umlaut 1 ≡ take n umlaut) × IsLongestCut umlaut 1 n
truncate_at_rune_boundary_lem_example = truncate_at_rune_boundary_lem umlaut 1

http_sd_groups_lem_example : FitTargets true (http_sd_groups (sw1 ∷ sw2 ∷ []) true) (sw1 ∷ sw2 ∷ [])
http_sd_groups_lem_example = http_sd_groups_lem (sw1 ∷ sw2 ∷ []) true

-- Four rows of which the last is given the name of the first.
abbrev colliding : List AlloyTarget
colliding =
    device (codes "10.0.0.3") (codes "1.1.1.1")
    ∷ device (codes "x-10.0.0.3") (codes "2.2.2.2")
    ∷ device (codes "x") (codes "3.3.3.3")
    ∷ device (codes "x") (codes "10.0.0.3")
    ∷ []

uniquify_names_lem_example : AreNamed [] colliding (uniquify_names colliding)
unfolding ◌==◌ text_dec
uniquify_names_lem_example = uniquify_names_lem colliding (refl, (refl, (refl, (refl, tt))))

uniquify_names_collides :
    map (λ t. t.name) (uniquify_names colliding)
    ≡ codes "10.0.0.3" ∷ codes "x-10.0.0.3" ∷ codes "x" ∷ codes "10.0.0.3" ∷ []
unfolding uniquify_names ◌==◌ text_dec trim lookup insert name_addr_suffix replace_byte cut
    has_prefix parse_v4 split print_v4 join itoa
uniquify_names_collides = refl

-- The disk holds an old file; the renaming fails, and the removal of the temporary file too.
abbrev disk_full : Call → Option Error
disk_full rename = some empty_path
disk_full _ = none

abbrev disk : Disk
disk = (codes "sd.json", record { body = codes "[]"; mode = 420 }) ∷ []

other_name : (codes ".sd.json.tmp-1" == codes "sd.json") ≡ false
unfolding ◌==◌ text_dec
other_name = refl

no_temp : lookup (codes ".sd.json.tmp-1") disk ≡ none
unfolding lookup ◌==◌ text_dec
no_temp = refl

write_file_atomic_lem_example :
    let r =
      write_file_atomic
        (codes ".sd.json.tmp-1")
        []
        disk_full
        false
        (codes "sd.json")
        (codes "[1]")
        420
        disk in
    All
      (IsWhole
        (codes ".sd.json.tmp-1")
        []
        disk_full
        false
        (codes "sd.json")
        (codes "[1]")
        420
        other_name
        (lookup (codes "sd.json") disk))
      r.0
    × Outcome
        (codes ".sd.json.tmp-1")
        []
        disk_full
        false
        (codes "sd.json")
        (codes "[1]")
        420
        other_name
        (lookup (codes "sd.json") disk)
        r.1
        (last_disk r.0 disk)
write_file_atomic_lem_example =
    write_file_atomic_lem (codes ".sd.json.tmp-1") [] disk_full false (codes "sd.json")
      (codes "[1]") 420 other_name disk no_temp
