-- ===== src/Ldap/Domain.antt =====
-- The domain's own entries: ldap.cpp, `netbios_domain_name` to `default_domain_sid`, `root_dse_entry`
-- to `virtual_ad_objects`, and `ldap_service_principal`.
use endorium_nexus.Ldap.Ber.{append_octet_string, append_tlv, partial_attribute}
use endorium_nexus.Ldap.Names.{parent_dn_from_dn, rdn_value_from_dn}
use endorium_nexus.Ldap.Objects.{LdapObject}
use endorium_nexus.Ldap.Changes.{rdn_attribute_from_dn}
use endorium_nexus.Maps.{assign}
use Prim.Native.Nat.{bit_xor}
use endorium_nexus.Prelude.{
  leb, if◌then◌else◌, take, is_empty, Text, codes, to_string, find_char, to_lower, ℕ, ◌+◌, ◌-◌, ◌*◌,
  ◌%◌, ◌^◌, not, ◌&&◌, Option, none, some, List, [], ◌∷◌, ◌++◌, map,
}

pub record LdapDirectoryInfo : Type 0 where
  pub dns_name : Text
  pub base_dn : Text
  pub realm : Text
  pub site_name : Text
  pub domain_controller_host : Text
  pub domain_controller_address : Text
  pub domain_sid : Text

unfoldable pub to_upper : ℕ → ℕ
to_upper ch = if leb b'a' ch && leb ch b'z' then ch - 32 else ch

unfoldable pub netbios_domain_name : LdapDirectoryInfo → Text
netbios_domain_name directory = map to_upper (elim (find_char b'.' directory.dns_name) [
  | none ↦ directory.dns_name
  | some separator ↦ take separator directory.dns_name
])

-- The loop over the characters, from a hash.
unfoldable pub hash32 : ℕ → Text → ℕ
hash32 hash [] = hash
hash32 hash (ch ∷ rest) = hash32 (bit_xor hash ch * 16777619 % 2 ^ 32) rest

unfoldable pub stable_hash32 : Text → ℕ
stable_hash32 value = hash32 2166136261 value

unfoldable pub default_domain_sid : LdapDirectoryInfo → Text
default_domain_sid directory =
    let domain =
      if is_empty directory.dns_name
      then codes "endorium.local"
      else map to_lower directory.dns_name in
    let part =
      λ (suffix : Text). to_string (1000 + stable_hash32 (domain ++ suffix) % 1000000000) in
    if not (is_empty directory.domain_sid)
    then directory.domain_sid
    else codes "S-1-5-21-"
      ++ (part (codes ":a")
          ++ (codes "-" ++ (part (codes ":b") ++ (codes "-" ++ part (codes ":c")))))

module _ (directory : LdapDirectoryInfo) where
  unfoldable pub ldap_service_principal : Text
  ldap_service_principal =
      codes "ldap/"
      ++ map to_lower (directory.domain_controller_host ++ (codes "." ++ directory.dns_name))

  -- Names that both entries share.
  unfoldable pub configuration_dn : Text
  configuration_dn = codes "cn=Configuration," ++ directory.base_dn

  unfoldable pub schema_dn : Text
  schema_dn = codes "cn=Schema," ++ configuration_dn

  unfoldable pub dc_fqdn : Text
  dc_fqdn = directory.domain_controller_host ++ (codes "." ++ directory.dns_name)

  unfoldable pub root_attributes : List (Text × List Text)
  root_attributes =
      let ds_service_name =
        codes "cn=NTDS Settings,cn="
        ++ (directory.domain_controller_host
            ++ (codes ",cn=Servers,cn="
                ++ (directory.site_name ++ (codes ",cn=Sites," ++ configuration_dn)))) in
      (codes "defaultNamingContext", directory.base_dn ∷ [])
      ∷ (codes "rootDomainNamingContext", directory.base_dn ∷ [])
      ∷ (codes "configurationNamingContext", configuration_dn ∷ [])
      ∷ (codes "schemaNamingContext", schema_dn ∷ [])
      ∷ (codes "namingContexts", directory.base_dn ∷ configuration_dn ∷ schema_dn ∷ [])
      ∷ (codes "subschemaSubentry", schema_dn ∷ [])
      ∷ (codes "dnsHostName", dc_fqdn ∷ [])
      ∷ (
        codes "ldapServiceName",
        (directory.dns_name
              ++ (codes ":"
                  ++ (directory.domain_controller_host ++ (codes "$@" ++ directory.realm))))
            ∷ [],
      )
      ∷ (codes "serverName", ds_service_name ∷ [])
      ∷ (codes "dsServiceName", ds_service_name ∷ [])
      ∷ (codes "supportedLDAPVersion", codes "3" ∷ codes "2" ∷ [])
      ∷ (
        codes "supportedSASLMechanisms",
        codes "GSSAPI" ∷ codes "GSS-SPNEGO" ∷ codes "EXTERNAL" ∷ [],
      )
      ∷ (
        codes "supportedCapabilities",
        codes "1.2.840.113556.1.4.800"
            ∷ codes "1.2.840.113556.1.4.1670"
            ∷ codes "1.2.840.113556.1.4.1791"
            ∷ [],
      )
      ∷ (
        codes "supportedControl",
        codes "1.2.840.113556.1.4.319"
            ∷ codes "1.2.840.113556.1.4.473"
            ∷ codes "1.2.840.113556.1.4.474"
            ∷ codes "1.2.840.113556.1.4.417"
            ∷ codes "1.2.840.113556.1.4.528"
            ∷ codes "1.2.840.113556.1.4.529"
            ∷ codes "1.2.840.113556.1.4.801"
            ∷ codes "1.2.840.113556.1.4.805"
            ∷ codes "1.2.840.113556.1.4.841"
            ∷ codes "1.2.840.113556.1.4.970"
            ∷ codes "1.2.840.113556.1.4.1338"
            ∷ codes "1.2.840.113556.1.4.1339"
            ∷ codes "1.2.840.113556.1.4.1340"
            ∷ codes "1.2.840.113556.1.4.1413"
            ∷ codes "1.2.840.113556.1.4.1504"
            ∷ codes "1.2.840.113556.1.4.1852"
            ∷ codes "1.2.840.113556.1.4.1948"
            ∷ codes "1.2.840.113556.1.4.2064"
            ∷ codes "1.2.840.113556.1.4.2065"
            ∷ codes "1.2.840.113556.1.4.2239"
            ∷ codes "2.16.840.1.113730.3.4.9"
            ∷ [],
      )
      ∷ (codes "domainControllerFunctionality", codes "7" ∷ [])
      ∷ (codes "domainFunctionality", codes "7" ∷ [])
      ∷ (codes "forestFunctionality", codes "7" ∷ [])
      ∷ (codes "isGlobalCatalogReady", codes "TRUE" ∷ [])
      ∷ (codes "highestCommittedUSN", codes "1" ∷ [])
      ∷ (codes "vendorName", codes "Endorium Nexus" ∷ [])
      ∷ []

-- The loop that encodes the attributes.
unfoldable pub partial_attributes : List (Text × List Text) → List ℕ
partial_attributes [] = []
partial_attributes ((name, values) ∷ attributes) =
    partial_attribute name values ++ partial_attributes attributes

unfoldable pub root_dse_entry : LdapDirectoryInfo → List ℕ
root_dse_entry directory =
    append_tlv (append_octet_string [] []) 0x30 (partial_attributes (root_attributes directory))

unfoldable pub with_rdn : Option (Text × Text) → List (Text × Text) → List (Text × Text)
with_rdn none attributes = attributes
with_rdn (some (name, value)) attributes = assign name value attributes

unfoldable pub rdn_name : Option (Text × Text) → Text → Text
rdn_name none dn = dn
rdn_name (some (name, value)) dn = value

-- The attributes are given in the order of a map.
unfoldable pub virtual_object : Text → Text → List Text → List (Text × Text) → LdapObject
virtual_object dn kind classes attributes =
    let rdn = rdn_attribute_from_dn dn in
    record {
      dn = dn;
      parent_dn = parent_dn_from_dn dn;
      kind = kind;
      object_classes = classes;
      attributes =
          assign (codes "name") (rdn_name rdn dn)
            (assign (codes "distinguishedName") dn (with_rdn rdn attributes));
    }

-- An object of one class below `top`.
unfoldable pub plain_object : Text → Text → List (Text × Text) → LdapObject
plain_object dn kind attributes = virtual_object dn kind (codes "top" ∷ kind ∷ []) attributes

module _ (directory : LdapDirectoryInfo) where
  unfoldable pub under_base : Text → Text
  under_base name = name ++ directory.base_dn

  unfoldable pub sites_dn : Text
  sites_dn = codes "cn=Sites," ++ configuration_dn directory

  unfoldable pub site_dn : Text
  site_dn = codes "cn=" ++ (directory.site_name ++ (codes "," ++ sites_dn))

  unfoldable pub servers_dn : Text
  servers_dn = codes "cn=Servers," ++ site_dn

  unfoldable pub dc_server_dn : Text
  dc_server_dn = codes "cn=" ++ (directory.domain_controller_host ++ (codes "," ++ servers_dn))

  unfoldable pub partitions_dn : Text
  partitions_dn = codes "cn=Partitions," ++ configuration_dn directory

  unfoldable pub virtual_ad_objects : List LdapObject
  virtual_ad_objects =
      let netbios_domain = netbios_domain_name directory in
      virtual_object directory.base_dn (codes "domainDNS")
        (codes "top" ∷ codes "domain" ∷ codes "domainDNS" ∷ [])
        ((codes "dc", rdn_value_from_dn directory.base_dn)
          ∷ (codes "dnsRoot", directory.dns_name)
          ∷ (codes "nETBIOSName", netbios_domain)
          ∷ (codes "objectSid", default_domain_sid directory)
          ∷ [])
      ∷ plain_object (under_base (codes "cn=Users,")) (codes "container") []
      ∷ plain_object (under_base (codes "cn=Computers,")) (codes "container") []
      ∷ plain_object (under_base (codes "ou=Domain Controllers,")) (codes "organizationalUnit") []
      ∷ plain_object (under_base (codes "cn=System,")) (codes "container") []
      ∷ plain_object (under_base (codes "cn=Policies,cn=System,")) (codes "container") []
      ∷ plain_object (under_base (codes "cn=ForeignSecurityPrincipals,")) (codes "container") []
      ∷ plain_object (under_base (codes "cn=Managed Service Accounts,")) (codes "container") []
      ∷ plain_object (under_base (codes "cn=Program Data,")) (codes "container") []
      ∷ plain_object (configuration_dn directory) (codes "configuration")
          ((codes "objectCategory", codes "configuration") ∷ [])
      ∷ plain_object (schema_dn directory) (codes "dMD")
          ((codes "schemaInfo", codes "Endorium Nexus AD schema milestone") ∷ [])
      ∷ plain_object sites_dn (codes "sitesContainer") []
      ∷ plain_object site_dn (codes "site") []
      ∷ plain_object servers_dn (codes "serversContainer") []
      ∷ plain_object dc_server_dn (codes "server") (
          (codes "dNSHostName", dc_fqdn directory)
          ∷ (
            codes "serverReference",
            codes "cn="
                ++ (directory.domain_controller_host
                    ++ (codes ",ou=Domain Controllers," ++ directory.base_dn)),
          )
          ∷ [])
      ∷ virtual_object (codes "cn=NTDS Settings," ++ dc_server_dn) (codes "nTDSDSA")
          (codes "top" ∷ codes "applicationSettings" ∷ codes "nTDSDSA" ∷ [])
          ((codes "dMDLocation", schema_dn directory)
            ∷ (codes "msDS-Behavior-Version", codes "7")
            ∷ [])
      ∷ plain_object partitions_dn (codes "crossRefContainer") []
      ∷ plain_object (codes "cn=" ++ (directory.dns_name ++ (codes "," ++ partitions_dn)))
          (codes "crossRef")
          ((codes "dnsRoot", directory.dns_name)
            ∷ (codes "nCName", directory.base_dn)
            ∷ (codes "nETBIOSName", netbios_domain)
            ∷ (codes "systemFlags", codes "3")
            ∷ [])
      ∷ []
