-- ===== src/Tests.antt =====
-- Sample data, and the theorems applied to it.
pub mod Catalogs
pub mod Scans
pub mod Settings
pub mod Services
pub mod Walks
pub mod Inits
pub mod Processes
use snmp_sd.Base.{ℕ, Text, codes, none, List, [], ◌∷◌, Option, ℤ, pos, true, false, Result, ok, err}
use snmp_sd.Target.{AlloyTarget}
use snmp_sd.Catalog.{Catalog, CatalogEntry}
use snmp_sd.Fingerprint.{Fingerprinter, Matcher}
use snmp_sd.Auth.{SnmpAuth, SnmpAuthYaml, version_2c, no_auth_no_priv, unset_auth, unset_priv}
use snmp_sd.Groups.{DiscoveryGroup}
use snmp_sd.Scan.{GroupRuntime, Plan}

abbrev pub addr_1 : Text
addr_1 = codes "10.0.0.1"

abbrev pub addr_2 : Text
addr_2 = codes "10.0.0.2"

abbrev pub device : Text → Text → AlloyTarget
device name addr = record {
  name = name;
  address = addr;
  module_hot = codes "if_mib";
  module_cold = codes "if_mib_meta";
  module_topology = [];
  auth = codes "public_v2";
  device_name = name;
  sys_object_id = [];
  snmp_group = codes "lab";
  snmp_tier = [];
  aliases = [];
}

abbrev pub sw1 : AlloyTarget
sw1 = device (codes "sw1") addr_1

abbrev pub sw2 : AlloyTarget
sw2 = device (codes "sw2") addr_2

abbrev pub entry_1 : CatalogEntry
entry_1 = record { target = sw1; last_seen = 3; misses = 1 }

abbrev pub lab : Catalog
lab = record {
  entries = entry_1 ∷ record { target = sw2; last_seen = 4; misses = 0 } ∷ [];
  updated = 4;
}

abbrev pub matcher : Matcher
matcher = record {
  label = codes "sysDescr";
  regex = codes "r";
  modules = [];
  modules_hot = codes "if_mib" ∷ [];
  modules_cold = [];
  modules_topology = [];
}

abbrev pub fingerprinter : Fingerprinter
fingerprinter = record {
  probe_oids = [];
  default_modules = codes "if_mib" ∷ [];
  default_modules_hot = [];
  default_modules_cold = [];
  default_modules_topology = [];
  matchers = matcher ∷ [];
}

abbrev pub yaml_v2 : SnmpAuthYaml
yaml_v2 = record {
  community = codes "lab";
  version = pos 2;
  username = [];
  password = [];
  priv_password = [];
  context_name = [];
  security_level = [];
  auth_protocol = [];
  priv_protocol = [];
}

abbrev pub auth_named : Text → SnmpAuth
auth_named name = record {
  name = name;
  community = codes "lab";
  version = version_2c;
  username = [];
  password = [];
  priv_password = [];
  context_name = [];
  msg_flags = no_auth_no_priv;
  auth_protocol = unset_auth;
  priv_protocol = unset_priv;
}

abbrev pub group : DiscoveryGroup
group = record {
  name = codes "lab";
  description = [];
  cidrs = codes "10.0.0.0/30" ∷ [];
  exclude = [];
  seeds = addr_1 ∷ [];
  auths = codes "v2" ∷ [];
  fingerprinter = [];
  port = 161;
  allow_large = false;
  mode = codes "crawl";
  ping = none;
}

abbrev pub runtime : GroupRuntime
runtime = record {
  group = group;
  auths = auth_named (codes "v2") ∷ [];
  fp = fingerprinter;
  port = 161;
}
