-- ===== src/Tests/Inits.antt =====
-- The theorems on `init`, on sweeps and on the ICMP filter, on sample data.
use snmp_sd.Base.{
  ℕ, ◌-◌, ◌^◌, Text, codes, true, false, not, Option, none, some, [], ◌∷◌, ◌==◌, ◌≡◌, refl, ok, All,
  keep, arith, lookup, insert, lookup-insert, pos, eq_refl, text_dec, trim, Bool, List, contains,
  map, ◌&&◌, ◌||◌, split,
}
use snmp_sd.Base.Error.{Error}
use snmp_sd.Cidr.{IpNet, mask_bytes, net_contains, is_skipped, sweep}
use snmp_sd.Cidr.Ends.{addresses, sweep_lem}
use snmp_sd.Init.{InitAuth, InitGroup, InitPlan, validate_init_plan}
use snmp_sd.Init.Render.{render_auths_yaml, render_discovery_yaml}
use snmp_sd.Address.{v4, must_canon_ip}
use snmp_sd.Ping.{Message, ip_peer, icmp_alive, ping_timeout}
use snmp_sd.Ping.Alive.{is_up, icmp_alive_lem}
use snmp_sd.Disk.{File, Disk}
use snmp_sd.Init.Files.{Os, owner_only, world_readable, write_init_files}
use snmp_sd.Init.Files.Kept.{write_init_files_keeps}
use snmp_sd.Init.Files.Done.{Holds, write_init_files_done}

-- 10.0.0.77/24, from the address as it is written.
sweep_lem_example :
    let n : IpNet = record { ip = mask_bytes 24 (10 ∷ 0 ∷ 0 ∷ 77 ∷ []); ones = 24 } in
    let ips = addresses (2 ^ (32 - 24)) n.ip in
    (sweep n ≡ some (keep (λ a. not (is_skipped n a)) ips)) × All (λ a. net_contains n a ≡ true) ips
sweep_lem_example =
    sweep_lem 24 (10 ∷ 0 ∷ 0 ∷ 77 ∷ []) refl
      (omega arith, (omega arith, (omega arith, (omega arith, tt)))) (omega arith) (omega arith)

-- A file system without failures.
set_mode : Option File → Text → ℕ → Disk → Disk
unfolding insert
set_mode none path mode disk = disk
set_mode (some f) path mode disk = insert path (record f { mode = mode }) disk

sane_chmod : Text → ℕ → Disk → Disk × Option Error
unfolding set_mode lookup
sane_chmod path mode disk = (set_mode (lookup path disk) path mode disk, none)

sane_write : Text → Text → ℕ → Disk → Disk × Option Error
unfolding insert
sane_write path body mode disk = (insert path (record { body = body; mode = mode }) disk, none)

set_mode_elsewhere :
    (f : Option File) (path : Text) (mode : ℕ) (disk : Disk) (other : Text)
    → (path == other) ≡ false
    → lookup other (set_mode f path mode disk) ≡ lookup other disk
unfolding set_mode
set_mode_elsewhere none path mode disk other h = refl
set_mode_elsewhere (some f) path mode disk other h = rw (lookup-insert path other _ disk, h) refl

sane_os : Os
unfolding sane_chmod sane_write
sane_os = record {
  write_file = sane_write;
  chmod = sane_chmod;
  write_file_elsewhere =
      λ path body mode disk other h. rw (lookup-insert path other _ disk, h) refl;
  chmod_elsewhere =
      λ path mode disk other h. set_mode_elsewhere (lookup path disk) path mode disk other h;
  write_file_done =
      λ path body mode disk h. (mode, rw (lookup-insert path path _ disk, eq_refl path) refl);
  chmod_done = λ path body old mode disk there h.
      rw (there, set_mode) (rw (lookup-insert path path _ disk, eq_refl path) refl);
}

abbrev lab_auth : InitAuth
lab_auth = record {
  name = codes "lab_v2";
  version = pos 2;
  community = codes "public";
  username = [];
  password = [];
  priv_password = [];
  security_level = [];
  auth_protocol = [];
  priv_protocol = [];
  context_name = [];
}

abbrev lab_group : InitGroup
lab_group = record {
  name = codes "lab";
  cidrs = codes "10.0.0.0/24" ∷ [];
  auths = codes "lab_v2" ∷ [];
  fingerprinter = [];
  mode = [];
  port = 0;
  ping = true;
  allow_large = false;
}

abbrev lab_plan : InitPlan
lab_plan = record { auths = lab_auth ∷ []; groups = lab_group ∷ [] }

abbrev old_auths : File
old_auths = record { body = codes "auths: {}"; mode = owner_only }

-- The auths file is there already.
abbrev old_disk : Disk
old_disk = (codes "auths.yml", old_auths) ∷ []

old_auths_there : lookup (codes "auths.yml") old_disk ≡ some old_auths
unfolding lookup ◌==◌ text_dec
old_auths_there = refl

write_init_files_keeps_example :
    lookup
      (codes "auths.yml")
      (write_init_files sane_os
        (λ s. s)
        (codes "auths.yml")
        (codes "discovery.yml")
        lab_plan
        false
        old_disk).0
    ≡ some old_auths
write_init_files_keeps_example =
    write_init_files_keeps sane_os (λ s. s) (codes "auths.yml") (codes "discovery.yml") lab_plan
      old_disk (codes "auths.yml") old_auths old_auths_there

apart : (codes "discovery.yml" == codes "auths.yml") ≡ false
unfolding ◌==◌ text_dec
apart = refl

-- The run that overwrites the old file succeeds.
succeeds :
    (write_init_files sane_os
      (λ s. s)
      (codes "auths.yml")
      (codes "discovery.yml")
      lab_plan
      true
      old_disk).1
    ≡ none
unfolding sane_os write_init_files ◌==◌ text_dec trim snmp_sd.Address.V4.parse_v4 split
succeeds = refl

write_init_files_done_example :
    let after =
      (write_init_files sane_os
        (λ s. s)
        (codes "auths.yml")
        (codes "discovery.yml")
        lab_plan
        true
        old_disk).0 in
    (validate_init_plan lab_plan ≡ ok tt)
    × ((a : Text) × (d : Text) × (render_auths_yaml (λ s. s) lab_plan.auths ≡ ok a)
        × (render_discovery_yaml (λ s. s) lab_plan.groups ≡ ok d)
        × Holds after (codes "auths.yml") a owner_only
        × Holds after (codes "discovery.yml") d world_readable)
write_init_files_done_example =
    write_init_files_done sane_os (λ s. s) (codes "auths.yml") (codes "discovery.yml") lab_plan true
      old_disk apart succeeds

-- Sockets open, and a reply comes from the first of two addresses.
abbrev open_socket : Text → Text → Option Error
open_socket network address = none

abbrev one_reply : Bool → List Text → ℕ → List Message
one_reply want_v6 ips timeout = record { is_reply = true; peer = ip_peer (some (v4 10 0 0 1)) } ∷ []

one_alive :
    icmp_alive open_socket one_reply (codes "10.0.0.1" ∷ codes "10.0.0.2" ∷ []) (pos 0)
    ≡ ok (codes "10.0.0.1" ∷ [])
unfolding icmp_alive ◌==◌ text_dec trim snmp_sd.Base.cut snmp_sd.Base.has_prefix
    snmp_sd.Address.V4.parse_v4 split snmp_sd.Address.V4.print_v4 snmp_sd.Base.join
    snmp_sd.Base.itoa
one_alive = refl

icmp_alive_lem_example : contains (codes "10.0.0.1") (codes "10.0.0.1" ∷ []) ≡ (
    contains (codes "10.0.0.1") (map must_canon_ip (codes "10.0.0.1" ∷ codes "10.0.0.2" ∷ []))
    && (is_up open_socket one_reply false
          (codes "10.0.0.1")
          (codes "10.0.0.1" ∷ codes "10.0.0.2" ∷ [])
          (ping_timeout (pos 0))
        || is_up open_socket one_reply true
            (codes "10.0.0.1")
            (codes "10.0.0.1" ∷ codes "10.0.0.2" ∷ [])
            (ping_timeout (pos 0))))
icmp_alive_lem_example =
    icmp_alive_lem open_socket one_reply (codes "10.0.0.1" ∷ codes "10.0.0.2" ∷ [])
      (codes "10.0.0.1" ∷ []) (pos 0) (codes "10.0.0.1") one_alive
