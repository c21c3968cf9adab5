-- ===== src/Auth/Sound.antt =====
-- What `parseAuth` of snmpdiscovery/snmp.go promises of the credentials that it lets through.
use snmp_sd.Base.{
  zero, suc, Text, ◌≡◌, ◌≢◌, refl, [], ℤ, pos, negsuc, Result, ok, err, ◌>>=◌, arith, eq_iff,
  Option, none, some, List, ◌∷◌, ap, All, ok-injective, ◌==◌, true, false, Bool, trim, upper,
  if◌then◌else◌,
}
use snmp_sd.Base.Error.{Error}
use mathlib.Core.Path.{subst}
use snmp_sd.Auth.{
  SnmpVersion, version_3, MsgFlags, no_auth_no_priv, auth_no_priv, auth_priv, AuthProtocol,
  PrivProtocol, no_auth, no_priv, unset_auth, unset_priv, among, or_error, auth_protocols,
  priv_protocols, SnmpAuth, SnmpAuthYaml, at_least_sha, at_least_aes, secure, user_auth,
  community_auth, version_auth, parse_auth, named, parse_security_level, parse_auth_protocol,
  parse_priv_protocol, bare_auth,
}

-- What the security level of a version 3 user asks of its keys and protocols. A protocol is set if it
-- is neither the zero value nor the one for none.
abbrev pub IsSetAuth : AuthProtocol → Type 0
IsSetAuth p = (p ≢ no_auth) × (p ≢ unset_auth)

abbrev pub IsSetPriv : PrivProtocol → Type 0
IsSetPriv p = (p ≢ no_priv) × (p ≢ unset_priv)

abbrev pub IsSecured : MsgFlags → SnmpAuth → Type 0
IsSecured no_auth_no_priv a = (a.auth_protocol ≡ no_auth) × (a.priv_protocol ≡ no_priv)
IsSecured auth_no_priv a =
    (a.password ≢ []) × IsSetAuth a.auth_protocol × (a.priv_protocol ≡ no_priv)
IsSecured auth_priv a =
    (a.password ≢ [])
    × (a.priv_password ≢ [])
    × IsSetAuth a.auth_protocol
    × IsSetPriv a.priv_protocol

-- Versions 1 and 2c have a community and no user; version 3 has a user and no community.
abbrev pub IsUsable : SnmpVersion → SnmpAuth → Type 0
IsUsable version_3 a = (a.community ≡ []) × (a.username ≢ []) × IsSecured a.msg_flags a
IsUsable _ a =
    (a.community ≢ [])
    × (a.username ≡ [])
    × (a.password ≡ [])
    × (a.priv_password ≡ [])
    × (a.msg_flags ≡ no_auth_no_priv)

at_least_sha_set : (p : AuthProtocol) → p ≢ unset_auth → IsSetAuth (at_least_sha p)
unfolding at_least_sha
at_least_sha_set p h = ground arith

at_least_aes_set : (p : PrivProtocol) → p ≢ unset_priv → IsSetPriv (at_least_aes p)
unfolding at_least_aes
at_least_aes_set p h = ground arith

-- What `among` finds has the property of every value in the list.
among-All :
    {A : Type 0} (P : A → Type 0) (s : Text) (cases : List (Text × A)) (a : A)
    → All (λ (c : Text × A). P c.1) cases
    → among s cases ≡ some a
    → P a
unfolding among
among-All P s [] a h e = cc
among-All {A = A} P s ((w, b) ∷ cases) a (hb, h) e =
    pick (s == w) (among s cases) e (among-All P s cases a h)
  where
    pick :
        (q : Bool) (rest : Option A)
        → (if q then some b else rest) ≡ some a
        → (rest ≡ some a → P a)
        → P a
    pick true rest e h = (let same : b ≡ a = ground arith in subst P same hb)
    pick false rest e h = h e

or_error-eq-ok : {A : Type 0} (o : Option A) (e : Error) (a : A) → or_error o e ≡ ok a → o ≡ some a
unfolding or_error
or_error-eq-ok none e a h = cc
or_error-eq-ok (some b) e a h = ap some (ok-injective h)

parse_auth_protocol-set :
    (s : Text) (p : AuthProtocol) → parse_auth_protocol s ≡ ok p → p ≢ unset_auth
unfolding parse_auth_protocol
parse_auth_protocol-set s p h =
    among-All (λ q. q ≢ unset_auth) (upper (trim s)) auth_protocols p
      (
        (λ e. cc),
        (
          (λ e. cc),
          (
            (λ e. cc),
            ((λ e. cc), ((λ e. cc), ((λ e. cc), ((λ e. cc), ((λ e. cc), ((λ e. cc), tt)))))),
          ),
        ),
      )
      (or_error-eq-ok (among (upper (trim s)) auth_protocols) _ p h)

parse_priv_protocol-set :
    (s : Text) (p : PrivProtocol) → parse_priv_protocol s ≡ ok p → p ≢ unset_priv
unfolding parse_priv_protocol
parse_priv_protocol-set s p h =
    among-All (λ q. q ≢ unset_priv) (upper (trim s)) priv_protocols p
      (
        (λ e. cc),
        (
          (λ e. cc),
          (
            (λ e. cc),
            ((λ e. cc), ((λ e. cc), ((λ e. cc), ((λ e. cc), ((λ e. cc), ((λ e. cc), tt)))))),
          ),
        ),
      )
      (or_error-eq-ok (among (upper (trim s)) priv_protocols) _ p h)

-- What `secure` keeps of the credentials, and that they fit the level.
abbrev SecureLem : SnmpAuth → MsgFlags → SnmpAuth → Type 0
SecureLem out f a =
    IsSecured a.msg_flags a
    × (a.msg_flags ≡ f)
    × (a.version ≡ out.version)
    × (a.community ≡ out.community)
    × (a.username ≡ out.username)
    × (a.name ≡ out.name)

secure_lem :
    (name : Text) (out : SnmpAuth) (f : MsgFlags) (ap : AuthProtocol) (pp : PrivProtocol)
    (a : SnmpAuth)
    → ap ≢ unset_auth
    → pp ≢ unset_priv
    → secure name out f ap pp ≡ ok a
    → SecureLem out f a
unfolding secure
secure_lem name out no_auth_no_priv ap pp a sa sp h = ground arith
secure_lem name out auth_no_priv ap pp a sa sp h =
    ground (arith, at_least_sha_set ap sa, eq_iff out.password [])
secure_lem name out auth_priv ap pp a sa sp h = ground (
  arith,
  at_least_sha_set ap sa,
  at_least_aes_set pp sp,
  eq_iff out.password [],
  eq_iff out.priv_password [],
)

-- The chain of `user_auth` behind its guard.
user_chain :
    (name : Text) (out : SnmpAuth) (rf : Result MsgFlags) (ra : Result AuthProtocol)
    (rp : Result PrivProtocol) (a : SnmpAuth)
    → ((p : AuthProtocol) → ra ≡ ok p → p ≢ unset_auth)
    → ((p : PrivProtocol) → rp ≡ ok p → p ≢ unset_priv)
    → (named name rf >>= λ f.
        named name ra >>= λ ap. named name rp >>= λ pp. secure name out f ap pp)
      ≡ ok a
    → (f : MsgFlags) × SecureLem out f a
unfolding named
user_chain name out (ok f) (ok ap) (ok pp) a sa sp h =
    (f, secure_lem name out f ap pp a (sa ap refl) (sp pp refl) h)
user_chain name out (ok f) (ok ap) (err e) a sa sp h = cc
user_chain name out (ok f) (err e) rp a sa sp h = cc
user_chain name out (err e) ra rp a sa sp h = cc

user-IsUsable :
    (name : Text) (y : SnmpAuthYaml) (a : SnmpAuth)
    → user_auth name y ≡ ok a
    → IsUsable a.version a × (a.name ≡ name)
unfolding user_auth
user-IsUsable name y a h =
    let out = record (bare_auth name y version_3) {
      username = y.username;
      password = y.password;
      priv_password = y.priv_password;
    } in
    ground (
      arith,
      eq_iff y.username [],
      user_chain name out (parse_security_level y.security_level)
          (parse_auth_protocol y.auth_protocol) (parse_priv_protocol y.priv_protocol) a
          (parse_auth_protocol-set y.auth_protocol) (parse_priv_protocol-set y.priv_protocol),
    )

version-IsUsable :
    (name : Text) (y : SnmpAuthYaml) (v : ℤ) (a : SnmpAuth)
    → version_auth name y v ≡ ok a
    → IsUsable a.version a × (a.name ≡ name)
unfolding version_auth community_auth
version-IsUsable name y (pos zero) a h = ground (arith, eq_iff y.community [])
version-IsUsable name y (pos (suc zero)) a h = ground (arith, eq_iff y.community [])
version-IsUsable name y (pos (suc (suc zero))) a h = ground (arith, eq_iff y.community [])
version-IsUsable name y (pos (suc (suc (suc zero)))) a h = user-IsUsable name y a h
version-IsUsable name y (pos (suc (suc (suc (suc n))))) a h = cc
version-IsUsable name y (negsuc n) a h = cc

-- Credentials that `parseAuth` lets through are complete: versions 1 and 2c have a community and no
-- user; version 3 has a user, and for `authNoPriv` a password and an authentication protocol, for
-- `authPriv` a privacy password and a privacy protocol besides; they keep the name that they had.
pub parse_auth-IsUsable :
    (name : Text) (y : SnmpAuthYaml) (a : SnmpAuth)
    → parse_auth name y ≡ ok a
    → IsUsable a.version a × (a.name ≡ name)
unfolding parse_auth
parse_auth-IsUsable name y a h = version-IsUsable name y y.version a h
