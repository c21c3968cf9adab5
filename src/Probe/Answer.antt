-- ===== src/Probe/Answer.antt =====
-- Which auth answers a `probe` of snmpdiscovery/snmp.go, and what its detail reports.
use snmp_sd.Base.{
  ℕ, zero, suc, ◌+◌, ◌*◌, ◌≤◌, Text, ◌≡◌, ◌≢◌, ◌⊎◌, refl, true, Option, none, some, List, [], ◌∷◌,
  eqb, eq_iff, arith, length, All,
}
use snmp_sd.Auth.{SnmpAuth}
use snmp_sd.Probe.{
  ProbeDetail, ProbeResult, Reply, packet, failed, Outcome, next_auth, identified, Pdu, judge,
  read_reply, read_variable, read_variables, empty_result, try_get, try_auth, probe_loop,
  probe_auths, asked_oids, give_up, probe, start_detail, succeeded, failed_once, retried, reason_ok,
}

try_get-le : (get : ℕ → Reply) (attempt left : ℕ) → (try_get get attempt left).1 ≤ attempt + left
unfolding try_get
try_get-le get attempt zero = omega arith
try_get-le get attempt (suc left) = ground (arith, try_get-le get (suc attempt) left)

-- A device is identified by at least one of its three system fields.
abbrev pub IsIdentified : ProbeResult → Type 0
IsIdentified res = (res.sys_object_id ≢ []) ⊎ (res.sys_name ≢ []) ⊎ (res.sys_descr ≢ [])

judge_lem : (res got : ProbeResult) → judge got ≡ identified res → IsIdentified res × (res ≡ got)
unfolding judge
judge_lem res got h =
    ground (arith, eq_iff got.sys_object_id [], eq_iff got.sys_name [], eq_iff got.sys_descr [])

read_variables-addr :
    (vs : List Pdu) (res : ProbeResult)
    → ((read_variables vs res).auth_name ≡ res.auth_name)
      × ((read_variables vs res).addr ≡ res.addr)
unfolding read_variables read_variable
read_variables-addr [] res = (refl, refl)
read_variables-addr (v ∷ vs) res = ground (arith, read_variables-addr vs (read_variable v res))

-- The result carries the address and the auth that were asked.
abbrev pub Answers : Text → SnmpAuth → ProbeResult → Type 0
Answers addr a res = IsIdentified res × (res.auth_name ≡ a.name) × (res.addr ≡ addr)

read_reply_lem :
    (addr : Text) (a : SnmpAuth) (r : Reply) (res : ProbeResult)
    → read_reply addr a r ≡ identified res
    → Answers addr a res
unfolding read_reply
read_reply_lem addr a (failed e) res h = cc
read_reply_lem addr a (packet []) res h = cc
read_reply_lem addr a (packet (v ∷ vs)) res h = ground (
  arith,
  judge_lem res (read_variables (v ∷ vs) (empty_result addr a)),
  read_variables-addr (v ∷ vs) (empty_result addr a),
)

module _ (connect : SnmpAuth → Option Text) (get : SnmpAuth → ℕ → Reply) where
  try_auth-le :
      (addr : Text) (retries : ℕ) (a : SnmpAuth) → (try_auth connect get addr retries a).1 ≤ retries
  unfolding try_auth
  try_auth-le addr retries a = ground (arith, try_get-le (get a) 0 retries)

  try_auth_lem :
      (addr : Text) (retries : ℕ) (a : SnmpAuth) (res : ProbeResult)
      → (try_auth connect get addr retries a).0 ≡ identified res
      → Answers addr a res
  unfolding try_auth
  try_auth_lem addr retries a res h =
      ground (arith, read_reply_lem addr a (try_get (get a) 0 retries).0 res)

  -- The auth does not identify the device.
  abbrev pub Fails : Text → ℕ → SnmpAuth → Type 0
  Fails addr retries a =
      (reason : Text) × (last : Text) × ((try_auth connect get addr retries a).0
        ≡ next_auth reason last)

  -- `res` comes from the first auth of the list that identifies the device, `fails` of them before it.
  abbrev pub FirstAnswer : Text → ℕ → List SnmpAuth → ℕ → ProbeResult → Type 0
  FirstAnswer addr retries [] fails res = ⊥
  FirstAnswer addr retries (a ∷ auths) zero res =
      ((try_auth connect get addr retries a).0 ≡ identified res) × Answers addr a res
  FirstAnswer addr retries (a ∷ auths) (suc fails) res =
      Fails addr retries a × FirstAnswer addr retries auths fails res

  -- What the loop over `auths` adds to a detail, from the auth with number `i` on.
  abbrev pub Outcomes :
      Text → ℕ → List SnmpAuth → ℕ → ProbeDetail → Option ProbeResult × ProbeDetail → Type 0
  Outcomes addr retries auths i d (some res, d') =
      ((k : ℕ) × (d'.auth_fails ≡ i + k) × FirstAnswer addr retries auths k res)
      × (d'.success ≡ true)
      × (d'.reason ≡ reason_ok)
      × (d'.first_auth ≡ eqb d'.auth_fails 0)
      × (d'.retries ≤ d.retries + length auths * retries)
  Outcomes addr retries auths i d (none, d') =
      All (Fails addr retries) auths
      × (d'.auth_fails ≡ d.auth_fails + length auths)
      × (d'.success ≡ d.success)
      × (d'.retries ≤ d.retries + length auths * retries)

  give_up_lem :
      (addr : Text) (retries i : ℕ) (last : Option Text) (d : ProbeDetail)
      → Outcomes addr retries [] i d (none, give_up last d)
  unfolding give_up
  give_up_lem addr retries i none d = ground arith
  give_up_lem addr retries i (some e) d = ground arith

  -- One failing auth in front of what the loop does with the others.
  after_failure :
      (addr : Text) (retries i n : ℕ) (a : SnmpAuth) (auths : List SnmpAuth) (reason : Text)
      (d : ProbeDetail) (r : Option ProbeResult × ProbeDetail)
      → Fails addr retries a
      → n ≤ retries
      → Outcomes addr retries auths (i + 1) (failed_once reason (retried n d)) r
      → Outcomes addr retries (a ∷ auths) i d r
  after_failure addr retries i n a auths reason d (some res, d') f le
        ((k, e, fa), s, r, one, bound) =
      ((suc k, omega arith, (f, fa)), s, r, one, omega arith)
  after_failure addr retries i n a auths reason d (none, d') f le (all, fails, s, bound) =
      ((f, all), omega arith, s, omega arith)

  first_found :
      (addr : Text) (retries i n : ℕ) (a : SnmpAuth) (auths : List SnmpAuth) (res : ProbeResult)
      (d : ProbeDetail)
      → (try_auth connect get addr retries a).0 ≡ identified res
      → n ≤ retries
      → Outcomes addr retries (a ∷ auths) i d (some res, succeeded i (retried n d))
  first_found addr retries i n a auths res d e le =
      ((0, omega arith, (e, try_auth_lem addr retries a res e)), refl, refl, refl, omega arith)

  -- One auth of the loop, by how it ends; `rest` is what the loop does with the others.
  by_outcome :
      (addr : Text) (retries i : ℕ) (a : SnmpAuth) (auths : List SnmpAuth) (d : ProbeDetail)
      (rest : Text → ProbeDetail → Option ProbeResult × ProbeDetail)
      (ih : (e : Text) (d' : ProbeDetail) → Outcomes addr retries auths (i + 1) d' (rest e d'))
      (o : Outcome) (n : ℕ)
      → (try_auth connect get addr retries a).0 ≡ o
      → n ≤ retries
      → Outcomes addr retries (a ∷ auths) i d (elim o [
        | identified res ↦ (some res, succeeded i (retried n d))
        | next_auth reason e ↦ rest e (failed_once reason (retried n d))
      ])
  by_outcome addr retries i a auths d rest ih (identified res) n e le =
      first_found addr retries i n a auths res d e le
  by_outcome addr retries i a auths d rest ih (next_auth reason msg) n e le =
      after_failure addr retries i n a auths reason d (rest msg (failed_once reason (retried n d)))
        (reason, msg, e) le (ih msg (failed_once reason (retried n d)))

  probe_loop_lem :
      (addr : Text) (retries : ℕ) (auths : List SnmpAuth) (i : ℕ) (last : Option Text)
      (d : ProbeDetail)
      → Outcomes addr retries auths i d (probe_loop connect get addr retries auths i last d)
  unfolding probe_loop
  probe_loop_lem addr retries [] i last d = give_up_lem addr retries i last d
  probe_loop_lem addr retries (a ∷ auths) i last d =
      by_outcome addr retries i a auths d
        (λ e d'. probe_loop connect get addr retries auths (i + 1) (some e) d')
        (λ e d'. probe_loop_lem addr retries auths (i + 1) (some e) d')
        (try_auth connect get addr retries a).0 (try_auth connect get addr retries a).1 refl
        (try_auth-le addr retries a)

  probe_auths_lem :
      (addr : Text) (retries : ℕ) (auths : List SnmpAuth)
      → Outcomes addr retries auths 0 start_detail (probe_auths connect get addr retries auths)
  unfolding probe_auths
  probe_auths_lem addr retries [] = ground arith
  probe_auths_lem addr retries (a ∷ auths) =
      probe_loop_lem addr retries (a ∷ auths) 0 none start_detail

-- A probe that finds a device has tried the auths in order up to the first that identifies it when it
-- is asked for the OIDs given, or for those of the system fields if none are given: the result names
-- that auth and the address, has a system field, and the detail counts the auths that failed before
-- it. A probe that finds none has failed with every auth and counts them all. Either way there are at
-- most `retries` retries for each auth.
pub probe_lem :
    (connect : SnmpAuth → Option Text) (get : List Text → SnmpAuth → ℕ → Reply) (addr : Text)
    (retries : ℕ) (auths : List SnmpAuth) (oids : List Text)
    → Outcomes connect
        (get (asked_oids oids))
        addr
        retries
        auths
        0
        start_detail
        (probe connect get addr retries auths oids)
unfolding probe
probe_lem connect get addr retries auths oids =
    probe_auths_lem connect (get (asked_oids oids)) addr retries auths
