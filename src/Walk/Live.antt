-- ===== src/Walk/Live.antt =====
-- A live walk: snmpdiscovery/walklive.go. The SNMP client is a parameter: what a bulk walk and a walk by
-- get-next hand to the callback before they end, and the error with which they end, if any. So is the
-- reading of the auth. Durations are in nanoseconds.
use snmp_sd.Base.Error.{Error}
use snmp_sd.Base.{
  ℕ, ◌*◌, Option, none, some, List, [], ◌∷◌, ◌++◌, map, if◌then◌else◌, Text, codes, ◌==◌, trim, eqb,
  ℤ, pos, negsuc, Result, ok, err, ◌>>=◌, walk_failed, no_variables,
}
use snmp_sd.Auth.{SnmpAuth}
use snmp_sd.Walk.Oid.{WalkVar, walk_oid}

-- The types of `gosnmp` that have a name; `other_type` stands for all the rest.
pub data PduType : Type 0 where
  octet_string integer counter32 counter64 gauge32 time_ticks ip_address object_identifier
        other_type :
      PduType

unfoldable pub pdu_type_name : PduType → Text
pdu_type_name octet_string = codes "STRING"
pdu_type_name integer = codes "INTEGER"
pdu_type_name counter32 = codes "Counter32"
pdu_type_name counter64 = codes "Counter64"
pdu_type_name gauge32 = codes "Gauge32"
pdu_type_name time_ticks = codes "Timeticks"
pdu_type_name ip_address = codes "IpAddress"
pdu_type_name object_identifier = codes "OID"
pdu_type_name other_type = []

-- `gosnmp.SnmpPDU`; `shown` is the text that `fmt.Sprint` makes of the value.
pub record WalkPdu : Type 0 where
  pub name : Text
  pub type : PduType
  pub shown : Text

-- What a walk hands to the callback, and its error.
pub record Walked : Type 0 where
  pub pdus : List WalkPdu
  pub failed : Option Error

unfoldable pub variable_of_pdu : WalkPdu → WalkVar
unfolding walk_oid pdu_type_name
variable_of_pdu pdu = record {
  oid = walk_oid pdu.name;
  type = pdu_type_name pdu.type;
  value = pdu.shown;
}

-- `default` for a port or a duration that is not set
default_port : ℕ → ℕ
default_port port = if eqb port 0 then 161 else port

-- Three seconds
default_timeout : ℤ → ℤ
default_timeout (pos n) = if eqb n 0 then pos (3 * 1000000000) else pos n
default_timeout (negsuc n) = pos (3 * 1000000000)

unfoldable pub some_variables : Text → List WalkVar → Result (List WalkVar)
some_variables oid [] = err (no_variables oid)
some_variables oid (v ∷ vars) = ok (v ∷ vars)

-- The variables of the bulk walk, and on its failure those of a walk by get-next behind them.
unfoldable pub collect : Text → Walked → Walked → Result (List WalkVar)
unfolding variable_of_pdu some_variables
collect oid bulk next =
    let out = map variable_of_pdu bulk.pdus in
    elim bulk.failed [
      | none ↦ some_variables oid out
      | some e ↦ elim next.failed [
        | some e2 ↦ err (walk_failed oid e e2)
        | none ↦ some_variables oid (out ++ map variable_of_pdu next.pdus)
      ]
    ]

module _ (load_auth : Text → Text → Result SnmpAuth)
    (connect : Text → ℕ → ℤ → ℤ → SnmpAuth → Option Error)
    (bulk_walk get_next_walk : Text → ℕ → ℤ → ℤ → SnmpAuth → Text → Walked) where
  unfoldable pub walk_target : Text → ℕ → Text → Text → Text → ℤ → ℤ → Result (List WalkVar)
  unfolding default_port default_timeout collect trim ◌==◌ walk_oid
  walk_target addr port auth_name snmp_config oid timeout retries =
      let oid = if trim oid == [] then codes "1.3.6.1" else oid in
      let port = default_port port in
      let timeout = default_timeout timeout in
      load_auth snmp_config auth_name >>= λ auth. elim (connect addr port timeout retries auth) [
        | some e ↦ err e
        | none ↦
            collect oid (bulk_walk addr port timeout retries auth (walk_oid oid))
              (get_next_walk addr port timeout retries auth (walk_oid oid))
      ]
