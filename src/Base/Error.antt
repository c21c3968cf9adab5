-- ===== src/Base/Error.antt =====
-- Go's `(value, error)` results. Each `fmt.Errorf` of the modelled code is a constructor of `Error`;
-- its arguments are the values that the message is about.
use Prim.Native.Nat.{ℕ}
use mathlib.Core.Path.{◌≡◌, refl}
use mathlib.Core.Bool.{Bool}
use mathlib.Core.List.{List}
use snmp_sd.Base.Texts.{Text}
use snmp_sd.Base.Numbers.{ℤ}

pub data Error : Type 0 where
  empty_address : Error
  invalid_ip : Text → Error
  invalid_cidr too_wide sweep_does_not_end : Text → Error
  unknown_tier : Text → Error
  tiers_empty : Error
  shard_unpaired shards_not_positive shard_out_of_range : Error
  unsupported_version : Text → ℤ → Error
  username_missing password_missing priv_password_missing : Text → Error
  unknown_security_level unknown_auth_protocol unknown_priv_protocol : Text → Error
  auths_exclusive overlay_empty no_auths : Error
  auth_missing : Text → Text → Error
  in_auth : Text → Error → Error
  in_overlay in_auths_file : Error → Error
  not_read not_parsed : Text → Error
  no_groups : Error
  group_without_name : ℕ → Error
  duplicate_group group_without_cidrs group_without_auths : Text → Error
  description_not_one_line description_too_long : Text → Error
  unknown_mode : Text → Text → Error
  config_or_cidrs auths_required : Error
  in_group in_group_exclude in_group_ping in_group_fingerprinter : Text → Error → Error
  fingerprinter_missing : Text → Text → Error
  init_no_auths init_no_groups : Error
  init_auth_name : ℕ → Text → Error
  init_duplicate_auth auth_without_community auth_without_username : Text → Error
  auth_without_password auth_without_priv_password : Text → Error
  init_security_level : Text → Text → Error
  init_version : Text → ℤ → Error
  empty_cidr : Error
  wider_than : Text → ℕ → Error
  auth_not_in_plan : Text → Text → Error
  empty_path : Error
  file_exists : Text → Error
  flag_version : ℤ → Error
  flag_not_pair flag_incomplete flag_without_name group_flag_incomplete : Text → Error
  flag_port flag_bool : Text → Error
  icmp_listen_failed : Bool → Error → Error → Error
  no_walk_source no_oids_left : Error
  in_command : Text → Error → Error
  no_auth_names : List Text → Error
  names_missing : List Text → List Text → Error
  walk_line_too_long : ℕ → Error
  walk_failed : Text → Error → Error → Error
  no_variables : Text → Error
  no_numeric_oids : Error
  module_required nothing_to_emit : Error
  no_metrics : Text → Error

pub data Result {ℓ} (V : Type ℓ) : Type ℓ where
  err : Error → Result V
  ok : V → Result V

infixl 5 ◌>>=◌ ◌>>◌
abbrev pub ◌>>=◌ {ℓ κ} : {S : Type ℓ} {T : Type κ} → Result S → (S → Result T) → Result T
err why >>= next = err why
ok v >>= next = next v

abbrev pub ◌>>◌ {ℓ} : {T : Type ℓ} → Result (Unit {0}) → Result T → Result T
err why >> after = err why
ok done >> after = after

pub ok-injective {ℓ} : {V : Type ℓ} {v w : V} → ok v ≡ ok w → v ≡ w
ok-injective h = cc

-- Both halves of a chain that succeeds have succeeded.
pub >>=-eq-ok {ℓ κ} :
    {S : Type ℓ} {T : Type κ} (r : Result S) (next : S → Result T) {out : T}
    → (r >>= next) ≡ ok out
    → (v : S) × (r ≡ ok v) × (next v ≡ ok out)
>>=-eq-ok (err why) next h = cc
>>=-eq-ok (ok v) next h = (v, refl, h)
