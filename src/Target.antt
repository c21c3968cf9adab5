-- ===== src/Target.antt =====
-- AlloyTarget of snmpdiscovery/emit.go: one row of the published catalog.
use snmp_sd.Base.{Text, List}

-- `module_hot` is the field `Module` of the source: the modules of the hot tier.
pub record AlloyTarget : Type 0 where
  pub name : Text
  pub address : Text
  pub module_hot : Text
  pub module_cold : Text
  pub module_topology : Text
  pub auth : Text
  pub device_name : Text
  pub sys_object_id : Text
  pub snmp_group : Text
  pub snmp_tier : Text
  pub aliases : List Text
