-- ===== src/Auth.antt =====
-- The SNMP credentials of snmpdiscovery/snmp.go: an entry of the snmp_exporter file is turned into what
-- the SNMP client is given. The constants of gosnmp that the code names are constructors here.
pub mod Sound
use snmp_sd.Base.Error.{Error}
use snmp_sd.Base.{
  ℕ, zero, suc, Text, codes, Bool, true, false, not, Option, none, some, List, [], ◌∷◌, ◌++◌, ◌==◌,
  ◌&&◌, ◌||◌, ℤ, pos, negsuc, Result, ok, err, ◌>>=◌, if◌then◌else◌, trim, lower, upper, map, Assoc,
  keys, lookup, insert, sort_texts, unsupported_version, username_missing, password_missing,
  priv_password_missing, unknown_security_level, unknown_auth_protocol, unknown_priv_protocol,
  auths_exclusive, overlay_empty, no_auths, auth_missing, in_auth, in_overlay, in_auths_file,
}

pub data SnmpVersion : Type 0 where
  version_1 version_2c version_3 : SnmpVersion

pub data MsgFlags : Type 0 where
  no_auth_no_priv auth_no_priv auth_priv : MsgFlags

-- `unset_auth` is the zero value, which versions 1 and 2c keep.
pub data AuthProtocol : Type 0 where
  unset_auth no_auth md5 sha sha_224 sha_256 sha_384 sha_512 : AuthProtocol

pub data PrivProtocol : Type 0 where
  unset_priv no_priv des aes aes_192 aes_256 aes_192c aes_256c : PrivProtocol

pub record SnmpAuth : Type 0 where
  pub name : Text
  pub community : Text
  pub version : SnmpVersion
  pub username : Text
  pub password : Text
  pub priv_password : Text
  pub context_name : Text
  pub msg_flags : MsgFlags
  pub auth_protocol : AuthProtocol
  pub priv_protocol : PrivProtocol

pub record SnmpAuthYaml : Type 0 where
  pub community : Text
  pub version : ℤ
  pub username : Text
  pub password : Text
  pub priv_password : Text
  pub context_name : Text
  pub security_level : Text
  pub auth_protocol : Text
  pub priv_protocol : Text

-- The first word of a list of cases that a text is among, with its value.
unfoldable pub among {ℓ} : {A : Type ℓ} → Text → List (Text × A) → Option A
among s [] = none
among s ((w, a) ∷ cases) = let rest = among s cases in if s == w then some a else rest

unfoldable pub or_error {ℓ} : {A : Type ℓ} → Option A → Error → Result A
or_error none e = err e
or_error (some a) e = ok a

abbrev pub security_levels : List (Text × MsgFlags)
security_levels =
    ([], no_auth_no_priv)
    ∷ (codes "noauthnopriv", no_auth_no_priv)
    ∷ (codes "authnopriv", auth_no_priv)
    ∷ (codes "authpriv", auth_priv)
    ∷ []

unfoldable pub parse_security_level : Text → Result MsgFlags
unfolding among or_error
parse_security_level s =
    or_error (among (lower (trim s)) security_levels) (unknown_security_level s)

abbrev pub auth_protocols : List (Text × AuthProtocol)
auth_protocols =
    ([], md5)
    ∷ (codes "MD5", md5)
    ∷ (codes "SHA", sha)
    ∷ (codes "SHA1", sha)
    ∷ (codes "SHA224", sha_224)
    ∷ (codes "SHA256", sha_256)
    ∷ (codes "SHA384", sha_384)
    ∷ (codes "SHA512", sha_512)
    ∷ (codes "NOAUTH", no_auth)
    ∷ []

unfoldable pub parse_auth_protocol : Text → Result AuthProtocol
unfolding among or_error
parse_auth_protocol s = or_error (among (upper (trim s)) auth_protocols) (unknown_auth_protocol s)

abbrev pub priv_protocols : List (Text × PrivProtocol)
priv_protocols =
    ([], des)
    ∷ (codes "DES", des)
    ∷ (codes "AES", aes)
    ∷ (codes "AES128", aes)
    ∷ (codes "AES192", aes_192)
    ∷ (codes "AES256", aes_256)
    ∷ (codes "AES192C", aes_192c)
    ∷ (codes "AES256C", aes_256c)
    ∷ (codes "NOPRIV", no_priv)
    ∷ []

unfoldable pub parse_priv_protocol : Text → Result PrivProtocol
unfolding among or_error
parse_priv_protocol s = or_error (among (upper (trim s)) priv_protocols) (unknown_priv_protocol s)

-- `if out.AuthProtocol == gosnmp.NoAuth { out.AuthProtocol = gosnmp.SHA }`
unfoldable pub at_least_sha : AuthProtocol → AuthProtocol
at_least_sha no_auth = sha
at_least_sha p = p

unfoldable pub at_least_aes : PrivProtocol → PrivProtocol
at_least_aes no_priv = aes
at_least_aes p = p

-- The switch on the security level, which fixes the protocols.
unfoldable pub secure : Text → SnmpAuth → MsgFlags → AuthProtocol → PrivProtocol → Result SnmpAuth
unfolding at_least_sha at_least_aes
secure name out no_auth_no_priv ap pp =
    ok
      (record out { msg_flags = no_auth_no_priv; auth_protocol = no_auth; priv_protocol = no_priv })
secure name out auth_no_priv ap pp =
    if out.password == []
    then err (password_missing name)
    else ok (record out {
      msg_flags = auth_no_priv;
      auth_protocol = at_least_sha ap;
      priv_protocol = no_priv;
    })
secure name out auth_priv ap pp =
    if out.password == []
    then err (password_missing name)
    else if out.priv_password == []
    then err (priv_password_missing name)
    else ok (record out {
      msg_flags = auth_priv;
      auth_protocol = at_least_sha ap;
      priv_protocol = at_least_aes pp;
    })

-- `fmt.Errorf("auth %q: %w", name, err)`
unfoldable pub named {ℓ} : {A : Type ℓ} → Text → Result A → Result A
named name (ok a) = ok a
named name (err e) = err (in_auth name e)

abbrev pub bare_auth : Text → SnmpAuthYaml → SnmpVersion → SnmpAuth
bare_auth name a v = record {
  name = name;
  community = [];
  version = v;
  username = [];
  password = [];
  priv_password = [];
  context_name = a.context_name;
  msg_flags = no_auth_no_priv;
  auth_protocol = unset_auth;
  priv_protocol = unset_priv;
}

-- Versions 1 and 2c: a community, `public` if none is given.
unfoldable pub community_auth : Text → SnmpAuthYaml → SnmpVersion → SnmpAuth
community_auth name a v = record (bare_auth name a v) {
  community = if a.community == [] then codes "public" else a.community;
}

unfoldable pub user_auth : Text → SnmpAuthYaml → Result SnmpAuth
unfolding named parse_security_level parse_auth_protocol parse_priv_protocol secure
user_auth name a =
    let out = record (bare_auth name a version_3) {
      username = a.username;
      password = a.password;
      priv_password = a.priv_password;
    } in
    if a.username == [] then err (username_missing name) else do
      flags ← named name (parse_security_level a.security_level)
      auth_proto ← named name (parse_auth_protocol a.auth_protocol)
      priv_proto ← named name (parse_priv_protocol a.priv_protocol)
      secure name out flags auth_proto priv_proto

unfoldable pub version_auth : Text → SnmpAuthYaml → ℤ → Result SnmpAuth
unfolding community_auth user_auth
version_auth name a (pos zero) = ok (community_auth name a version_2c)
version_auth name a (pos (suc zero)) = ok (community_auth name a version_1)
version_auth name a (pos (suc (suc zero))) = ok (community_auth name a version_2c)
version_auth name a (pos (suc (suc (suc zero)))) = user_auth name a
version_auth name a v = err (unsupported_version name v)

unfoldable pub parse_auth : Text → SnmpAuthYaml → Result SnmpAuth
unfolding version_auth
parse_auth name a = version_auth name a a.version
