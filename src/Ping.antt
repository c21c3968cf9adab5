-- ===== src/Ping.antt =====
-- The ICMP filter of a sweep: snmpdiscovery/ping.go. The sockets are parameters: what `icmp.ListenPacket`
-- reports for a network, and the messages that a socket receives until its deadline, in order. A message
-- that cannot be parsed is none of them; the echo requests have no other effect.
pub mod Alive
use snmp_sd.Base.Error.{Error}
use snmp_sd.Base.{
  ℕ, ◌*◌, Text, codes, Bool, true, false, ◌&&◌, ◌||◌, not, Option, none, some, List, [], ◌∷◌, ◌++◌,
  ◌==◌, Result, ok, err, ◌>>=◌, eqb, if◌then◌else◌, map, keep, contains, ℤ, pos, negsuc, length,
  icmp_listen_failed,
}
use snmp_sd.Address.{Ip, v4, v6, parse_ip, print_ip, canon_ip, must_canon_ip, split_host}

-- `net.Addr`: the address of an `IPAddr` or `UDPAddr`, or the text of another address.
pub data Peer : Type 0 where
  ip_peer : Option Ip → Peer
  text_peer : Text → Peer

pub record Message : Type 0 where
  pub is_reply : Bool
  pub peer : Peer

unfoldable pub is_v4 : Ip → Bool
is_v4 (v4 _ _ _ _) = true
is_v4 (v6 _) = false

raw_peer : Peer → Option Ip
unfolding split_host parse_ip
raw_peer (ip_peer ip) = ip
raw_peer (text_peer s) = parse_ip (elim (split_host s) [ none ↦ s | some host ↦ host ])

-- The canonical text of an address of the wanted family.
of_family : Bool → Text → Option Ip → Text
unfolding is_v4
of_family want_v6 c none = []
of_family true c (some ip) = if is_v4 ip then [] else c
of_family false c (some ip) = if is_v4 ip then c else []

unfoldable pub peer_ip : Peer → Bool → Text
unfolding raw_peer of_family canon_ip parse_ip print_ip
peer_ip peer want_v6 = elim (raw_peer peer) [
  | none ↦ []
  | some ip ↦ elim (canon_ip (print_ip ip)) [ err e ↦ [] | ok c ↦ of_family want_v6 c (parse_ip c) ]
]

-- An echo reply from a wanted address is noted.
unfoldable pub note : Bool → Text → List Text → List Text → List Text
note is_reply ip want rest =
    if not is_reply
    then rest
    else if ip == []
    then rest
    else if contains ip want
    then ip ∷ rest
    else rest

-- The wanted addresses that a reply comes from.
unfoldable pub replies : Bool → List Text → List Message → List Text
unfolding peer_ip note
replies want_v6 want [] = []
replies want_v6 want (m ∷ messages) =
    note m.is_reply (peer_ip m.peer want_v6) want (replies want_v6 want messages)

-- The addresses of one family, in their canonical form.
unfoldable pub family : Bool → List Text → List Text
unfolding is_v4 canon_ip parse_ip
family want_v6 [] = []
family want_v6 (ip ∷ ips) =
    let rest = family want_v6 ips in
    elim (canon_ip ip) [
      | err e ↦ rest
      | ok c ↦ elim (parse_ip c) [
        | none ↦ rest
        | some parsed ↦
            if is_v4 parsed
            then (if want_v6 then rest else c ∷ rest)
            else if want_v6
            then c ∷ rest
            else rest
      ]
    ]

unfoldable pub ping_timeout : ℤ → ℕ
ping_timeout (negsuc n) = 400 * 1000000
ping_timeout (pos n) = if eqb n 0 then 400 * 1000000 else n

module _ (listen_packet : Text → Text → Option Error)
    (received : Bool → List Text → ℕ → List Message) where
  -- An unprivileged socket, else a privileged one.
  unfoldable pub listen_icmp : Bool → Result (Unit {0})
  listen_icmp want_v6 =
      let first =
        if want_v6
        then listen_packet (codes "udp6") (codes "::")
        else listen_packet (codes "udp4") (codes "0.0.0.0") in
      let second =
        if want_v6
        then listen_packet (codes "ip6:ipv6-icmp") (codes "::")
        else listen_packet (codes "ip4:icmp") (codes "0.0.0.0") in
      elim first [
        | none ↦ ok tt
        | some e ↦ elim second [ none ↦ ok tt | some e2 ↦ err (icmp_listen_failed want_v6 e e2) ]
      ]

  unfoldable pub ping_family : Bool → List Text → ℕ → Result (List Text)
  unfolding listen_icmp replies
  ping_family want_v6 ips timeout = elim (listen_icmp want_v6) [
    | err e ↦ err e
    | ok opened ↦ ok (replies want_v6 ips (received want_v6 ips timeout))
  ]

  -- No socket for a family without addresses.
  unfoldable pub ping_some : Bool → List Text → ℕ → Result (List Text)
  unfolding ping_family
  ping_some want_v6 [] timeout = ok []
  ping_some want_v6 (ip ∷ ips) timeout = ping_family want_v6 (ip ∷ ips) timeout

  unfoldable pub icmp_alive : List Text → ℤ → Result (List Text)
  unfolding ping_some family ping_timeout must_canon_ip ◌==◌
  icmp_alive [] timeout = ok []
  icmp_alive (ip ∷ ips) timeout =
      ping_some false (family false (ip ∷ ips)) (ping_timeout timeout) >>= λ alive4.
      ping_some true (family true (ip ∷ ips)) (ping_timeout timeout) >>= λ alive6.
      ok (keep (λ c. contains c (alive4 ++ alive6)) (map must_canon_ip (ip ∷ ips)))
