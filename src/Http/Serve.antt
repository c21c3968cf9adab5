-- ===== src/Http/Serve.antt =====
-- What the handlers of snmpdiscovery/httpsd.go answer.
use snmp_sd.Base.Error.{Error}
use snmp_sd.Base.{
  ℕ, ◌<◌, ◌^◌, Text, codes, ◌≡◌, refl, Bool, false, some, List, [], ◌∷◌, ◌++◌, if◌then◌else◌, eqb,
  ◌==◌, text_dec, arith, itoa, length, Result, ok,
}
use snmp_sd.Target.{AlloyTarget}
use snmp_sd.Catalog.{Catalog, snapshot}
use snmp_sd.Shard.{filter_shard}
use snmp_sd.Shard.Partition.{parse_shard_query-itoa}
use snmp_sd.Emit.{FileSdGroup, http_sd_groups}
use snmp_sd.Http.{
  Response, get_method, head_method, last_modified, apply_shard_query, newline, respond, serve_sd,
  sd_targets, http_sd_handler, alloy_yaml_handler, new_discovery_mux_tiers,
}

-- `head` answers a HEAD request as `get` answers the GET.
abbrev pub IsHeadOf : Response → Response → Type 0
IsHeadOf head get =
    (head.status ≡ get.status)
    × (head.headers ≡ get.headers)
    × (head.body ≡ (if eqb get.status 200 then [] else get.body))

module _ (md5 : Text → List ℕ) (to_json : List FileSdGroup → Result Text)
    (to_yaml : List AlloyTarget → Result Text) (http_time rfc3339 : ℕ → Text)
    (message : Error → Text) where
  -- `GET /sd?shard=s&shards=n` with `s` below `n`, a 64-bit number, answers 200 with the groups of that shard of the
  -- catalog and their number, if they can be encoded.
  pub sd_shard :
      (c : Catalog) (tiers : List Text) (s n : ℕ) (body : Text)
      → s < n
      → n < 2 ^ 63
      → to_json (http_sd_groups (filter_shard md5 (snapshot c).0 s n) false) ≡ ok body
      → new_discovery_mux_tiers md5 to_json to_yaml http_time rfc3339 message c tiers
          (record { method = get_method; path = codes "/sd"; shard = itoa s; shards = itoa n })
        ≡ some (record {
          status = 200;
          headers =
              (codes "Content-Type", codes "application/json")
              ∷ (
                codes "X-Snmp-Discovery-Count",
                itoa (length (filter_shard md5 (snapshot c).0 s n)),
              )
              ∷ last_modified http_time (snapshot c).1;
          body = body ++ codes "\n";
        })
  unfolding new_discovery_mux_tiers http_sd_handler apply_shard_query serve_sd respond sd_targets
      newline ◌==◌ text_dec
  sd_shard c tiers s n body h fits e = rw (parse_shard_query-itoa s n h fits, e) refl

  -- `HEAD` answers as `GET` does, for the service discovery and for Alloy's YAML: the same status and headers, and no body
  -- where the status is 200, the same one elsewhere.
  pub head_lem :
      (c : Catalog) (p : Bool) (tiers : List Text) (path shard shards : Text)
      → IsHeadOf
          (http_sd_handler md5 to_json to_yaml http_time rfc3339 message c p tiers
            (record { method = head_method; path = path; shard = shard; shards = shards }))
          (http_sd_handler md5 to_json to_yaml http_time rfc3339 message c p tiers
            (record { method = get_method; path = path; shard = shard; shards = shards }))
        × IsHeadOf
            (alloy_yaml_handler md5 to_json to_yaml http_time rfc3339 message c
              (record { method = head_method; path = path; shard = shard; shards = shards }))
            (alloy_yaml_handler md5 to_json to_yaml http_time rfc3339 message c
              (record { method = get_method; path = path; shard = shard; shards = shards }))
  unfolding http_sd_handler alloy_yaml_handler serve_sd respond ◌==◌ text_dec
  head_lem c p tiers path shard shards = ground arith
