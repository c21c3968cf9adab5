-- ===== src/Init/Flags.antt =====
-- The values of the flags --auth-v2c, --auth-v3 and --group: snmpdiscovery/initcfg.go (ParseAuthV2Flag,
-- ParseAuthV3Flag, ParseGroupFlag and the functions that split them).
use snmp_sd.Base.{
  ℕ, suc, ◌^◌, Text, codes, Bool, true, false, ◌||◌, not, Option, none, some, List, [], ◌∷◌, ◌==◌,
  Result, ok, err, ◌>>=◌, ltb, eqb, if◌then◌else◌, trim, contains_text, contains, cut, split, map,
  keep, length, Assoc, lookup, insert, ℤ, pos, negsuc, atoi, flag_version, flag_not_pair,
  flag_incomplete, flag_without_name, group_flag_incomplete, flag_port, flag_bool,
}
use snmp_sd.Groups.{mode_sweep}
use snmp_sd.Init.{InitAuth, InitGroup, is_v1_or_v2}

is_not_blank : Text → Bool
unfolding ◌==◌
is_not_blank s = not (s == [])

unfoldable pub split_semi : Text → List Text
unfolding is_not_blank split trim
split_semi s = keep is_not_blank (map trim (split b';' s))

unfoldable pub first_non_empty : List Text → Text
unfolding trim ◌==◌
first_non_empty [] = []
first_non_empty (s ∷ ss) = if trim s == [] then first_non_empty ss else trim s

-- One part of the flag; the first one may be a name alone.
put_part : ℕ → Text → Assoc Text → Assoc Text
unfolding cut trim insert ◌==◌
put_part i part out = if part == [] then out else elim (cut b'=' part) [
  | some (k, v) ↦ insert (trim k) v out
  | none ↦ if eqb i 0 then insert (codes "name") part (insert (codes "_name") part out) else out
]

put_parts : ℕ → List Text → Assoc Text → Assoc Text
unfolding put_part trim
put_parts i [] out = out
put_parts i (part ∷ parts) out = put_parts (suc i) parts (put_part i (trim part) out)

unfoldable pub split_flag_kv : Text → Assoc Text
unfolding put_parts split
split_flag_kv s = put_parts 0 (split b',' s) []

-- The value of a key, blank when it is missing.
unfoldable pub flag_value : Assoc Text → Text → Text
unfolding lookup
flag_value kv key = elim (lookup key kv) [ none ↦ [] | some v ↦ v ]

named_community : Text → Result (Text × Text)
unfolding split_flag_kv flag_value contains_text cut trim
named_community s =
    let kv = split_flag_kv s in
    if contains_text (codes ",") s
      || (contains_text (codes "name=") s || contains_text (codes "community=") s)
    then ok (flag_value kv (codes "name"), flag_value kv (codes "community"))
    else elim (cut b'=' s) [
      | none ↦ err (flag_not_pair s)
      | some (name, comm) ↦ ok (trim name, comm)
    ]

v2_auth : Text → ℤ → Text × Text → Result InitAuth
unfolding ◌==◌
v2_auth s version (name, community) =
    if name == [] || community == []
    then err (flag_incomplete s)
    else ok (record {
      name = name;
      version = version;
      community = community;
      username = [];
      password = [];
      priv_password = [];
      security_level = [];
      auth_protocol = [];
      priv_protocol = [];
      context_name = [];
    })

unfoldable pub parse_auth_v2_flag : Text → ℤ → Result InitAuth
unfolding is_v1_or_v2 named_community v2_auth trim
parse_auth_v2_flag s version =
    if is_v1_or_v2 version
    then (named_community (trim s) >>= v2_auth (trim s) version)
    else err (flag_version version)

-- The first value that is not blank, of the keys and then the default.
first_of : Assoc Text → List Text → Text → Text
unfolding first_non_empty flag_value
first_of kv keys default_value = elim (first_non_empty (map (flag_value kv) keys)) [
  | [] ↦ first_non_empty (default_value ∷ [])
  | c ∷ s ↦ c ∷ s
]

unfoldable pub parse_auth_v3_flag : Text → Result InitAuth
unfolding first_of split_flag_kv ◌==◌
parse_auth_v3_flag s =
    let kv = split_flag_kv s in
    let name = first_of kv (codes "name" ∷ codes "_name" ∷ []) [] in
    let level = first_of kv (codes "level" ∷ codes "security_level" ∷ []) (codes "authPriv") in
    let auth_p = first_of kv (codes "auth-proto" ∷ codes "auth_protocol" ∷ []) (codes "SHA256") in
    let priv_p = first_of kv (codes "priv-proto" ∷ codes "priv_protocol" ∷ []) (codes "AES") in
    if name == []
    then err (flag_without_name s)
    else ok (record {
      name = name;
      version = pos 3;
      community = [];
      username = first_of kv (codes "user" ∷ codes "username" ∷ []) [];
      password = first_of kv (codes "auth" ∷ codes "password" ∷ []) [];
      priv_password = first_of kv (codes "priv" ∷ codes "priv_password" ∷ []) [];
      security_level = level;
      auth_protocol = auth_p;
      priv_protocol = priv_p;
      context_name = first_of kv (codes "context" ∷ codes "context_name" ∷ []) [];
    })

-- `strconv.ParseUint` in base 10 with 16 bits: no sign, and below 65536.
fits_port : Text → Option ℤ → Result ℕ
fits_port v none = err (flag_port v)
fits_port v (some (negsuc n)) = err (flag_port v)
fits_port v (some (pos n)) = if ltb n (2 ^ 16) then ok n else err (flag_port v)

parse_port : Text → Result ℕ
unfolding fits_port atoi
parse_port [] = err (flag_port [])
parse_port (c ∷ v) =
    let port = fits_port (c ∷ v) (atoi (c ∷ v)) in
    if eqb c b'+' || eqb c b'-' then err (flag_port (c ∷ v)) else port

-- `strconv.ParseBool`
parse_bool : Text → Result Bool
unfolding ◌==◌
parse_bool v =
    if contains v
      (codes "1" ∷ codes "t" ∷ codes "T" ∷ codes "TRUE" ∷ codes "true" ∷ codes "True" ∷ [])
    then ok true
    else if contains v
        (codes "0" ∷ codes "f" ∷ codes "F" ∷ codes "FALSE" ∷ codes "false" ∷ codes "False" ∷ [])
    then ok false
    else err (flag_bool v)

-- What a value that is not blank spells, else the default.
parse_or : {A : Type 0} → (Text → Result A) → Text → A → Result A
parse_or parse [] default_value = ok default_value
parse_or parse (c ∷ s) default_value = parse (c ∷ s)

semi_list : Text → List Text
unfolding split_semi ◌==◌
semi_list v = if v == [] then [] else split_semi v

complete_group : Text → InitGroup → Result InitGroup
unfolding ◌==◌
complete_group s g =
    if g.name == [] || (eqb (length g.cidrs) 0 || eqb (length g.auths) 0)
    then err (group_flag_incomplete s)
    else ok g

unfoldable pub parse_group_flag : Text → Result InitGroup
unfolding first_of split_flag_kv flag_value semi_list parse_or parse_port parse_bool complete_group
parse_group_flag s =
    let kv = split_flag_kv s in
    parse_or parse_port (flag_value kv (codes "port")) 161 >>= λ port.
    parse_or parse_bool (flag_value kv (codes "ping")) true >>= λ ping.
    parse_or parse_bool (flag_value kv (codes "allow_large")) false >>= λ allow_large.
    complete_group s (record {
      name = first_of kv (codes "name" ∷ codes "_name" ∷ []) [];
      cidrs = semi_list (flag_value kv (codes "cidrs"));
      auths = semi_list (flag_value kv (codes "auths"));
      fingerprinter = first_of kv (codes "fingerprinter" ∷ []) (codes "network");
      mode = first_of kv (codes "mode" ∷ []) mode_sweep;
      port = port;
      ping = ping;
      allow_large = allow_large;
    })
