-- ===== src/Init/Render.antt =====
-- The text of the two files: snmpdiscovery/initcfg.go (RenderAuthsYAML, RenderDiscoveryYAML). The YAML
-- of a scalar, `yaml.Marshal` of a string, trimmed, is the parameter `yaml_scalar`.
use snmp_sd.Base.{
  ℕ, suc, Text, codes, Bool, true, false, List, [], ◌∷◌, ◌++◌, ◌==◌, Result, ok, err, eqb,
  if◌then◌else◌, trim, ℤ, pos, negsuc, itoa, init_no_auths, init_no_groups,
}
use snmp_sd.Init.{InitAuth, InitGroup, is_v1_or_v2, level_of, mode_of}

abbrev line_end : Text
line_end = 10 ∷ []

-- The number under the verb %d
signed : ℤ → Text
unfolding itoa
signed (pos n) = itoa n
signed (negsuc n) = codes "-" ++ itoa (suc n)

or_default : Text → Text → Text
unfolding ◌==◌
or_default value default_value = if value == [] then default_value else value

unfoldable pub auth_protocol_of : InitAuth → Text
unfolding or_default level_of trim ◌==◌
auth_protocol_of a =
    or_default (trim a.auth_protocol)
      (if level_of a == codes "noAuthNoPriv" then [] else codes "SHA256")

unfoldable pub priv_protocol_of : InitAuth → Text
unfolding or_default level_of trim ◌==◌
priv_protocol_of a =
    or_default (trim a.priv_protocol) (if level_of a == codes "authPriv" then codes "AES" else [])

unfoldable pub fingerprinter_of : InitGroup → Text
unfolding or_default trim
fingerprinter_of g = or_default (trim g.fingerprinter) (codes "network")

unfoldable pub port_of : InitGroup → ℕ
port_of g = if eqb g.port 0 then 161 else g.port

module _ (yaml_scalar : Text → Text) where
  -- A line of a field, unless the value is blank.
  field : Text → Text → Text
  unfolding ◌==◌
  field key value = if value == [] then [] else key ++ yaml_scalar value ++ line_end

  auth_fields : InitAuth → Text
  unfolding field level_of is_v1_or_v2 auth_protocol_of priv_protocol_of trim
  auth_fields a =
      if is_v1_or_v2 a.version
      then codes "    community: " ++ yaml_scalar a.community ++ line_end
      else codes "    security_level: "
        ++ yaml_scalar (level_of a)
        ++ line_end
        ++ codes "    username: "
        ++ yaml_scalar a.username
        ++ line_end
        ++ field (codes "    password: ") a.password
        ++ field (codes "    priv_password: ") a.priv_password
        ++ field (codes "    auth_protocol: ") (auth_protocol_of a)
        ++ field (codes "    priv_protocol: ") (priv_protocol_of a)
        ++ field (codes "    context_name: ") (trim a.context_name)

  auth_blocks : List InitAuth → Text
  unfolding auth_fields signed
  auth_blocks [] = []
  auth_blocks (a ∷ auths) =
      codes "  "
      ++ a.name
      ++ codes ":"
      ++ line_end
      ++ codes "    version: "
      ++ signed a.version
      ++ line_end
      ++ auth_fields a
      ++ auth_blocks auths

  unfoldable pub render_auths_yaml : List InitAuth → Result Text
  unfolding auth_blocks
  render_auths_yaml [] = err init_no_auths
  render_auths_yaml (a ∷ auths) = ok (
      codes "# Generated by snmp-discovery init. Keep mode 0600. Do not commit."
      ++ line_end
      ++ codes "# Discovery lists these names only. Merge this map into the exporter --config.file."
      ++ line_end
      ++ codes "auths:"
      ++ line_end
      ++ auth_blocks (a ∷ auths))

  item_lines : List Text → Text
  item_lines [] = []
  item_lines (s ∷ ss) = codes "      - " ++ yaml_scalar s ++ line_end ++ item_lines ss

  bool_text : Bool → Text
  bool_text true = codes "true"
  bool_text false = codes "false"

  group_blocks : List InitGroup → Text
  unfolding item_lines bool_text fingerprinter_of mode_of port_of itoa
  group_blocks [] = []
  group_blocks (g ∷ groups) =
      codes "  - name: "
      ++ yaml_scalar g.name
      ++ line_end
      ++ codes "    cidrs:"
      ++ line_end
      ++ item_lines g.cidrs
      ++ codes "    auths:"
      ++ line_end
      ++ item_lines g.auths
      ++ codes "    fingerprinter: "
      ++ yaml_scalar (fingerprinter_of g)
      ++ line_end
      ++ codes "    mode: "
      ++ yaml_scalar (mode_of g)
      ++ line_end
      ++ codes "    ping: "
      ++ bool_text g.ping
      ++ line_end
      ++ codes "    port: "
      ++ itoa (port_of g)
      ++ line_end
      ++ (if g.allow_large then codes "    allow_large: true" ++ line_end else [])
      ++ group_blocks groups

  unfoldable pub render_discovery_yaml : List InitGroup → Result Text
  unfolding group_blocks
  render_discovery_yaml [] = err init_no_groups
  render_discovery_yaml (g ∷ groups) = ok (
      codes "# Generated by snmp-discovery init. Auths are names from auths.yml."
      ++ line_end
      ++ codes "groups:"
      ++ line_end
      ++ group_blocks (g ∷ groups)
      ++ codes "overrides: []"
      ++ line_end)
