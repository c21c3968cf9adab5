-- ===== src/Http.antt =====
-- The HTTP service of snmpdiscovery/httpsd.go. A request is what the handlers read of it; encoding to
-- JSON and YAML, printing a time and the text of an error are parameters.

pub mod Serve
use snmp_sd.Base.Error.{Error}
use snmp_sd.Base.{
  ℕ, zero, suc, Text, codes, Bool, true, false, not, Option, none, some, List, [], ◌∷◌, ◌++◌, ◌==◌,
  ◌&&◌, ◌||◌, eqb, if◌then◌else◌, itoa, length, Assoc, Result, ok, err, ◌>>=◌,
}
use snmp_sd.Target.{AlloyTarget}
use snmp_sd.Catalog.{Catalog, snapshot}
use snmp_sd.Tiers.{all_tiers, targets_for_tiers}
use snmp_sd.Shard.{parse_shard_query, filter_shard}
use snmp_sd.Emit.{FileSdGroup, http_sd_groups}

-- `shard` and `shards` are the values of the query, empty where it has none.
pub record Request : Type 0 where
  pub method : Text
  pub path : Text
  pub shard : Text
  pub shards : Text

pub record Response : Type 0 where
  pub status : ℕ
  pub headers : Assoc Text
  pub body : Text

abbrev pub get_method : Text
get_method = codes "GET"

abbrev pub head_method : Text
head_method = codes "HEAD"

-- `http.Error`
abbrev pub http_error : Text → ℕ → Response
http_error text status = record {
  status = status;
  headers =
      (codes "Content-Type", codes "text/plain; charset=utf-8")
      ∷ (codes "X-Content-Type-Options", codes "nosniff")
      ∷ [];
  body = text ++ codes "\n";
}

abbrev pub is_read : Text → Bool
is_read method = method == get_method || method == head_method

-- The body is written unless the method is HEAD.
abbrev pub body_for : Text → Text → Text
body_for method body = if method == head_method then [] else body

abbrev pub last_modified : (ℕ → Text) → ℕ → Assoc Text
last_modified http_time zero = []
last_modified http_time (suc t) = (codes "Last-Modified", http_time (suc t)) ∷ []

module _ (md5 : Text → List ℕ) (to_json : List FileSdGroup → Result Text)
    (to_yaml : List AlloyTarget → Result Text) (http_time rfc3339 : ℕ → Text)
    (message : Error → Text) where
  unfoldable pub apply_shard_query : Request → List AlloyTarget → Result (List AlloyTarget)
  apply_shard_query r targets = parse_shard_query r.shard r.shards >>= λ query. elim query [
    | none ↦ ok targets
    | some (shard, shards) ↦ ok (filter_shard md5 targets shard shards)
  ]

  -- `answer` encodes the targets; a failure to do so is the server's.
  unfoldable pub respond : Text → Text → Result Text → ℕ → Assoc Text → Response
  respond method content_type (err e) count more = http_error (message e) 500
  respond method content_type (ok body) count more = record {
    status = 200;
    headers =
        (codes "Content-Type", content_type) ∷ (codes "X-Snmp-Discovery-Count", itoa count) ∷ more;
    body = body_for method body;
  }

  unfoldable pub sd_targets : Bool → List Text → List AlloyTarget → List AlloyTarget
  sd_targets true tiers targets = targets_for_tiers targets tiers
  sd_targets false tiers targets = targets

  unfoldable pub newline : Result Text → Result Text
  newline (err e) = err e
  newline (ok body) = ok (body ++ codes "\n")

  unfoldable pub serve_sd : Bool → List Text → Text → List AlloyTarget → ℕ → Response
  unfolding sd_targets respond newline
  serve_sd prometheus_params tiers method targets updated =
      let rows = sd_targets prometheus_params tiers targets in
      respond method (codes "application/json")
        (newline (to_json (http_sd_groups rows prometheus_params))) (length rows)
        (last_modified http_time updated)

  unfoldable pub http_sd_handler : Catalog → Bool → List Text → Request → Response
  unfolding apply_shard_query serve_sd
  http_sd_handler c prometheus_params tiers r =
      if not (is_read r.method)
      then http_error (codes "method not allowed") 405
      else elim (apply_shard_query r (snapshot c).0) [
        | err e ↦ http_error (message e) 400
        | ok targets ↦ serve_sd prometheus_params tiers r.method targets (snapshot c).1
      ]

  unfoldable pub alloy_yaml_handler : Catalog → Request → Response
  unfolding apply_shard_query respond
  alloy_yaml_handler c r =
      if not (is_read r.method)
      then http_error (codes "method not allowed") 405
      else elim (apply_shard_query r (snapshot c).0) [
        | err e ↦ http_error (message e) 400
        | ok targets ↦
            respond r.method (codes "application/yaml") (to_yaml targets) (length targets) []
      ]

  never_or : ℕ → Text
  never_or zero = codes "never"
  never_or (suc t) = rfc3339 (suc t)

  unfoldable pub healthz_handler : Catalog → Request → Response
  unfolding never_or
  healthz_handler c r =
      let read = snapshot c in
      record {
        status = 200;
        headers = (codes "Content-Type", codes "text/plain; charset=utf-8") ∷ [];
        body =
            codes "ok "
            ++ itoa (length read.0)
            ++ codes " targets "
            ++ never_or read.1
            ++ codes "\n";
      }

  -- With no tiers every tier is served.
  unfoldable pub served_tiers : List Text → List Text
  served_tiers [] = all_tiers
  served_tiers (t ∷ tiers) = t ∷ tiers

  -- The routes; `none` is the multiplexer's own 404.
  unfoldable pub new_discovery_mux_tiers : Catalog → List Text → Request → Option Response
  unfolding http_sd_handler alloy_yaml_handler healthz_handler served_tiers
  new_discovery_mux_tiers c tiers r =
      if r.path == codes "/sd"
      then some (http_sd_handler c false [] r)
      else if r.path == codes "/sd/prometheus"
      then some (http_sd_handler c true (served_tiers tiers) r)
      else if r.path == codes "/alloy"
      then some (alloy_yaml_handler c r)
      else if r.path == codes "/healthz"
      then some (healthz_handler c r)
      else none

  unfoldable pub new_discovery_mux : Catalog → Request → Option Response
  unfolding new_discovery_mux_tiers
  new_discovery_mux c = new_discovery_mux_tiers c []
