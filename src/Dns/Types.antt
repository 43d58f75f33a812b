-- ===== src/Dns/Types.antt =====
-- The types and constants of dns.hpp, dns.cpp (lines 14 to 40) and of core/models.hpp.
use endorium_nexus.Prelude.{Text, codes, ℕ, Bool, false, List, []}

pub record DnsRecord : Type 0 where
  pub name : Text
  pub type : Text
  pub value : Text
  pub dns_class : Text
  pub ttl : ℕ
  pub priority : ℕ
  pub weight : ℕ
  pub port : ℕ
  pub flags : Text

-- The default member initialisers.
abbrev pub new_record : DnsRecord
new_record = record {
  name = [];
  type = [];
  value = [];
  dns_class = codes "IN";
  ttl = 3600;
  priority = 0;
  weight = 0;
  port = 0;
  flags = [];
}

pub record DnsZone : Type 0 where
  pub name : Text
  pub serial : ℕ
  pub records : List DnsRecord

pub record DnsQuestion : Type 0 where
  pub name : Text
  pub type : ℕ
  pub qclass : ℕ
  pub end_offset : ℕ

pub record AuthorizedUpdateZone : Type 0 where
  pub authorized : Bool
  pub update_zone_name : Text
  pub storage_zone_name : Text

pub record DnsDynamicUpdateRecord : Type 0 where
  pub zone_name : Text
  pub record_value : DnsRecord
  pub deletion : Bool
  pub delete_rrset : Bool

pub record DnsDynamicUpdate : Type 0 where
  pub is_update : Bool
  pub valid : Bool
  pub authorized : Bool
  pub zone_name : Text
  pub records : List DnsDynamicUpdateRecord

abbrev pub no_update : DnsDynamicUpdate
no_update = record {
  is_update = false;
  valid = false;
  authorized = false;
  zone_name = [];
  records = [];
}

pub record ActiveDirectoryDnsConfig : Type 0 where
  pub dns_name : Text
  pub site_name : Text
  pub domain_controller_host : Text
  pub domain_controller_address : Text
  pub ldap_port : ℕ
  pub kerberos_port : ℕ
  pub kpasswd_port : ℕ
  pub global_catalog_port : ℕ

abbrev pub dns_type_a : ℕ
dns_type_a = 1

abbrev pub dns_type_ns : ℕ
dns_type_ns = 2

abbrev pub dns_type_cname : ℕ
dns_type_cname = 5

abbrev pub dns_type_soa : ℕ
dns_type_soa = 6

abbrev pub dns_type_txt : ℕ
dns_type_txt = 16

abbrev pub dns_type_aaaa : ℕ
dns_type_aaaa = 28

abbrev pub dns_type_srv : ℕ
dns_type_srv = 33

abbrev pub dns_type_any : ℕ
dns_type_any = 255

abbrev pub dns_class_in : ℕ
dns_class_in = 1

abbrev pub dns_class_none : ℕ
dns_class_none = 254

abbrev pub dns_class_any : ℕ
dns_class_any = 255

abbrev pub dns_opcode_update : ℕ
dns_opcode_update = 5

abbrev pub dns_rcode_formerr : ℕ
dns_rcode_formerr = 1

abbrev pub dns_rcode_notauth : ℕ
dns_rcode_notauth = 9
