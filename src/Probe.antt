-- ===== src/Probe.antt =====
-- One identity probe: `probe` and `stringifyPDU` of snmpdiscovery/snmp.go, and the reasons of
-- snmpdiscovery/observer.go. The SNMP session is a parameter: whether a connection fails, and what the
-- n-th `Get` of an auth answers. An error is its message.
pub mod Answer
use snmp_sd.Base.{
  ℕ, zero, suc, ◌+◌, Text, codes, Bool, true, false, Option, none, some, List, [], ◌∷◌, ◌==◌, ◌&&◌,
  ◌||◌, eqb, if◌then◌else◌, trim, lower, contains_text, has_suffix,
}
use snmp_sd.Fingerprint.{normalize_oid}
use snmp_sd.Auth.{SnmpAuth}

abbrev pub reason_ok : Text
reason_ok = codes "ok"

abbrev pub reason_timeout : Text
reason_timeout = codes "timeout"

abbrev pub reason_refused : Text
reason_refused = codes "refused"

abbrev pub reason_connect : Text
reason_connect = codes "connect"

abbrev pub reason_empty : Text
reason_empty = codes "empty"

abbrev pub reason_no_sys : Text
reason_no_sys = codes "no_sys"

abbrev pub reason_no_auth : Text
reason_no_auth = codes "no_auth"

abbrev pub reason_other : Text
reason_other = codes "other"

-- `none` is the nil error.
unfoldable pub classify_probe_error : Option Text → Text
classify_probe_error none = reason_ok
classify_probe_error (some e) =
    let s = lower e in
    if contains_text (codes "timeout") s || contains_text (codes "deadline") s
    then reason_timeout
    else if contains_text (codes "connection refused") s || contains_text (codes "refused") s
    then reason_refused
    else if contains_text (codes "empty snmp") s
    then reason_empty
    else if contains_text (codes "no sys") s
    then reason_no_sys
    else if contains_text (codes "no auth") s
    then reason_no_auth
    else if contains_text (codes "connect") s
        || contains_text (codes "unreachable") s
        || contains_text (codes "no route") s
        || contains_text (codes "network is down") s
    then reason_connect
    else reason_other

unfoldable pub probe_reason_actionable : Text → Bool
probe_reason_actionable reason =
    reason == reason_no_auth || reason == reason_no_sys || reason == reason_empty

pub record ProbeDetail : Type 0 where
  pub duration : ℕ
  pub success : Bool
  pub reason : Text
  pub first_auth : Bool
  pub auth_fails : ℕ
  pub retries : ℕ
  pub address : Text
  pub group : Text
  pub auth : Text

pub record ProbeResult : Type 0 where
  pub addr : Text
  pub auth_name : Text
  pub sys_object_id : Text
  pub sys_name : Text
  pub sys_descr : Text

-- The dynamic type of a variable's value: a string, bytes, nil, or what `fmt.Sprint` prints.
pub data PduValue : Type 0 where
  text_value bytes_value : Text → PduValue
  nil_value : PduValue
  other_value : Text → PduValue

pub record Pdu : Type 0 where
  pub name : Text
  pub value : PduValue

-- What a `Get` returns: an error, or a packet with its variables; a nil packet has none.
pub data Reply : Type 0 where
  failed : Text → Reply
  packet : List Pdu → Reply

unfoldable pub stringify_pdu : PduValue → Text
stringify_pdu (text_value s) = trim s
stringify_pdu (bytes_value s) = trim s
stringify_pdu nil_value = []
stringify_pdu (other_value s) = trim s

unfoldable pub read_variable : Pdu → ProbeResult → ProbeResult
unfolding stringify_pdu
read_variable v res =
    let oid = normalize_oid v.name in
    let val = stringify_pdu v.value in
    if has_suffix (codes "1.2.1.1.2.0") oid
    then record res { sys_object_id = normalize_oid val }
    else if has_suffix (codes "1.2.1.1.5.0") oid
    then record res { sys_name = val }
    else if has_suffix (codes "1.2.1.1.1.0") oid
    then record res { sys_descr = val }
    else res

unfoldable pub read_variables : List Pdu → ProbeResult → ProbeResult
unfolding read_variable
read_variables [] res = res
read_variables (v ∷ vs) res = read_variables vs (read_variable v res)

abbrev pub empty_result : Text → SnmpAuth → ProbeResult
empty_result addr a = record {
  addr = addr;
  auth_name = a.name;
  sys_object_id = [];
  sys_name = [];
  sys_descr = [];
}

-- How one auth ends: the next auth is tried for a reason after an error, or the device is known.
pub data Outcome : Type 0 where
  next_auth : (reason last : Text) → Outcome
  identified : ProbeResult → Outcome

unfoldable pub judge : ProbeResult → Outcome
judge res =
    if res.sys_object_id == [] && res.sys_name == [] && res.sys_descr == []
    then next_auth reason_no_sys (codes "no sys* fields")
    else identified res

unfoldable pub read_reply : Text → SnmpAuth → Reply → Outcome
unfolding judge read_variables classify_probe_error
read_reply addr a (failed e) = next_auth (classify_probe_error (some e)) e
read_reply addr a (packet []) = next_auth reason_empty (codes "empty SNMP response")
read_reply addr a (packet (v ∷ vs)) = judge (read_variables (v ∷ vs) (empty_result addr a))

-- The loop over the attempts: `left` more are allowed after this one. It ends with the reply and with
-- the number of retries made.
unfoldable pub try_get : (ℕ → Reply) → ℕ → ℕ → Reply × ℕ
try_get get attempt zero = (get attempt, attempt)
try_get get attempt (suc left) = elim (get attempt) [
  | packet vs ↦ (packet vs, attempt)
  | failed e ↦ try_get get (suc attempt) left
]

abbrev pub succeeded : ℕ → ProbeDetail → ProbeDetail
succeeded i d = record d {
  success = true;
  reason = reason_ok;
  first_auth = eqb i 0;
  auth_fails = i;
}

abbrev pub failed_once : Text → ProbeDetail → ProbeDetail
failed_once reason d = record d { reason = reason; auth_fails = d.auth_fails + 1 }

abbrev pub retried : ℕ → ProbeDetail → ProbeDetail
retried n d = record d { retries = d.retries + n }

-- Behind the loop over the auths.
unfoldable pub give_up : Option Text → ProbeDetail → ProbeDetail
unfolding classify_probe_error
give_up none d =
    if d.reason == reason_no_auth || d.reason == []
    then record d { reason = classify_probe_error (some (codes "no auth succeeded")) }
    else d
give_up (some last) d =
    if d.reason == reason_no_auth || d.reason == []
    then record d { reason = classify_probe_error (some last) }
    else d

-- The detail starts without an auth. The deferred write of the duration comes after the return value
-- has been copied, so that the caller reads 0. Negative retries count as none.
abbrev pub start_detail : ProbeDetail
start_detail = record {
  duration = 0;
  success = false;
  reason = reason_no_auth;
  first_auth = false;
  auth_fails = 0;
  retries = 0;
  address = [];
  group = [];
  auth = [];
}

-- `connect` gives the error of a connection, `get` the answer to the n-th attempt.
module _ (connect : SnmpAuth → Option Text) (get : SnmpAuth → ℕ → Reply) where
  unfoldable pub try_auth : Text → ℕ → SnmpAuth → Outcome × ℕ
  unfolding try_get read_reply classify_probe_error
  try_auth addr retries a = elim (connect a) [
    | some e ↦ (next_auth (classify_probe_error (some e)) e, 0)
    | none ↦ let got = try_get (get a) 0 retries in (read_reply addr a got.0, got.1)
  ]

  unfoldable pub probe_loop :
      Text → ℕ → List SnmpAuth → ℕ → Option Text → ProbeDetail → Option ProbeResult × ProbeDetail
  unfolding try_auth give_up
  probe_loop addr retries [] i last d = (none, give_up last d)
  probe_loop addr retries (a ∷ auths) i last d =
      let tried = try_auth addr retries a in
      elim tried.0 [
        | identified res ↦ (some res, succeeded i (retried tried.1 d))
        | next_auth reason e ↦
            probe_loop addr retries auths (i + 1) (some e) (failed_once reason (retried tried.1 d))
      ]

  unfoldable pub probe_auths : Text → ℕ → List SnmpAuth → Option ProbeResult × ProbeDetail
  unfolding probe_loop
  probe_auths addr retries [] = (none, start_detail)
  probe_auths addr retries (a ∷ auths) = probe_loop addr retries (a ∷ auths) 0 none start_detail

-- The OIDs that are asked for: those given, or the ones of sysObjectID, sysName and sysDescr.
unfoldable pub asked_oids : List Text → List Text
asked_oids [] =
    codes "1.3.6.1.2.1.1.2.0" ∷ codes "1.3.6.1.2.1.1.5.0" ∷ codes "1.3.6.1.2.1.1.1.0" ∷ []
asked_oids (oid ∷ oids) = oid ∷ oids

unfoldable pub probe :
    (SnmpAuth → Option Text)
    → (List Text → SnmpAuth → ℕ → Reply)
    → Text
    → ℕ
    → List SnmpAuth
    → List Text
    → Option ProbeResult × ProbeDetail
unfolding probe_auths asked_oids
probe connect get addr retries auths oids =
    probe_auths connect (get (asked_oids oids)) addr retries auths
