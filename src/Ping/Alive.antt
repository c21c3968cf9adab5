-- ===== src/Ping/Alive.antt =====
-- Which addresses the ICMP filter lets through: snmpdiscovery/ping.go (icmpAlive).
use snmp_sd.Base.Error.{Error}
use snmp_sd.Base.{
  ℕ, Text, Bool, true, false, ◌||◌, ◌&&◌, not, Option, List, [], ◌∷◌, ◌++◌, ◌≡◌, refl, ◌==◌, Result,
  ok, err, >>=-eq-ok, ok-injective, contains, contains-append, contains-keep, map, arith, ℤ,
  Bool-cases, inl, inr, eq_iff, eq_refl, sym, ap, ◌∙◌,
}
use snmp_sd.Address.{must_canon_ip}
use snmp_sd.Ping.{
  Message, note, listen_icmp, replies, ping_family, ping_some, family, peer_ip, ping_timeout,
  icmp_alive,
}

-- Whether a reply of the family came from the address.
abbrev pub answered : Bool → Text → List Message → Bool
answered want_v6 a [] = false
answered want_v6 a (m ∷ messages) =
    m.is_reply && (a == peer_ip m.peer want_v6 && not (a == [])) || answered want_v6 a messages

module _ (listen_packet : Text → Text → Option Error)
    (received : Bool → List Text → ℕ → List Message) where
  same :
      (ip a : Text) (want rest : List Text)
      → a ≡ ip
      → contains a (note true ip want rest)
        ≡ (contains a want && (a == ip && not (a == [])) || contains a rest)
  unfolding note
  same ip a want rest e = rw e (
      rw (eq_refl ip) (elim (Bool-cases (ip == [])) [
        | inl f ↦ rw f (ground arith)
        | inr f ↦ rw f (elim (Bool-cases (contains ip want)) [
          | inl g ↦ rw (g, eq_refl ip) refl
          | inr g ↦ rw g refl
        ])
      ]))

  contains-note :
      (is_reply : Bool) (ip a : Text) (want rest : List Text)
      → contains a (note is_reply ip want rest)
        ≡ (contains a want && (is_reply && (a == ip && not (a == []))) || contains a rest)
  unfolding note
  contains-note false ip a want rest = ground arith
  contains-note true ip a want rest = elim (Bool-cases (a == ip)) [
    | inl e ↦ same ip a want rest ((eq_iff a ip).0 e)
    | inr e ↦ rw e (ground (arith, e))
  ]

  contains-replies :
      (want_v6 : Bool) (a : Text) (want : List Text) (messages : List Message)
      → contains a (replies want_v6 want messages)
        ≡ (contains a want && answered want_v6 a messages)
  unfolding replies
  contains-replies want_v6 a want [] = ground arith
  contains-replies want_v6 a want (m ∷ messages) =
      contains-note m.is_reply (peer_ip m.peer want_v6) a want _
      ∙ rw (contains-replies want_v6 a want messages) (ground arith)

  ping_family_lem :
      (want_v6 : Bool) (a : Text) (ips out : List Text) (timeout : ℕ)
      → ping_family listen_packet received want_v6 ips timeout ≡ ok out
      → contains a out ≡ (contains a ips && answered want_v6 a (received want_v6 ips timeout))
  unfolding ping_family
  ping_family_lem want_v6 a ips out timeout h =
      opened (listen_icmp listen_packet received want_v6) h
    where
      opened :
          (socket : Result (Unit {0}))
          → elim socket [
            | err e ↦ err e
            | ok done ↦ ok (replies want_v6 ips (received want_v6 ips timeout))
          ]
            ≡ ok out
          → contains a out ≡ (contains a ips && answered want_v6 a (received want_v6 ips timeout))
      opened (err e) h = cc
      opened (ok done) h =
          ap (contains a) (sym (ok-injective h))
          ∙ contains-replies want_v6 a ips (received want_v6 ips timeout)

  ping_some_lem :
      (want_v6 : Bool) (a : Text) (ips out : List Text) (timeout : ℕ)
      → ping_some listen_packet received want_v6 ips timeout ≡ ok out
      → contains a out ≡ (contains a ips && answered want_v6 a (received want_v6 ips timeout))
  unfolding ping_some
  ping_some_lem want_v6 a [] out timeout h = ap (contains a) (sym (ok-injective h))
  ping_some_lem want_v6 a (ip ∷ ips) out timeout h =
      ping_family_lem want_v6 a (ip ∷ ips) out timeout h

  -- Whether the address is one of the family that is pinged and a reply came from it.
  abbrev pub is_up : Bool → Text → List Text → ℕ → Bool
  is_up want_v6 a ips timeout =
      let asked = family want_v6 ips in
      contains a asked && answered want_v6 a (received want_v6 asked timeout)

  -- When the sockets open, the filter lets through exactly the canonical addresses of the sweep that were
  -- pinged in their family and that a reply on the socket of this family came from.
  pub icmp_alive_lem :
      (ips out : List Text) (timeout : ℤ) (a : Text)
      → icmp_alive listen_packet received ips timeout ≡ ok out
      → let t = ping_timeout timeout in
        contains a out
        ≡ (contains a (map must_canon_ip ips) && (is_up false a ips t || is_up true a ips t))
  unfolding icmp_alive
  icmp_alive_lem [] out timeout a h = ap (contains a) (sym (ok-injective h))
  icmp_alive_lem (ip ∷ ips) out timeout a h =
      let t = ping_timeout timeout in
      let (alive4, e4, h4) =
        >>=-eq-ok (ping_some listen_packet received false (family false (ip ∷ ips)) t) _ h in
      let (alive6, e6, h6) =
        >>=-eq-ok (ping_some listen_packet received true (family true (ip ∷ ips)) t) _ h4 in
      ap (contains a) (sym (ok-injective h6))
      ∙ contains-keep a (λ c. contains c (alive4 ++ alive6)) (map must_canon_ip (ip ∷ ips))
      ∙ rw
          (
            contains-append a alive4 alive6,
            ping_some_lem false a _ alive4 t e4,
            ping_some_lem true a _ alive6 t e6,
          )
          refl
