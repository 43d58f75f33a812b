-- ===== src/Dns/Zones.antt =====
-- The zone that describes the domain's own services, and merging it into the stored zones: dns.cpp,
-- `make_active_directory_dns_zone` and `merge_active_directory_dns_zone`.
pub mod Merge
use endorium_nexus.Dns.Types.{DnsRecord, DnsZone, ActiveDirectoryDnsConfig}
use endorium_nexus.Dns.Wire.{lowercase_ascii, trim_trailing_dot}
use endorium_nexus.Dns.Update.{canonical}
use endorium_nexus.Prelude.{
  ltb, leb, ◌==◌, if◌then◌else◌, ltb→lt, lt→ltb, le→ltb, leb→le, ==_iff, tests, Bool-cases,
  Option-cases, length, get_elem?, set, take, drop, is_empty, any, keep, All, All-append,
  length-append, length-set, length-take, length-drop, take-append-drop, take-append, drop-append,
  get_elem?-lt, get_elem?-append, set-append, Outcome, ok, reject, fault, ◌>>=◌, ◌>>◌, reject_if,
  attempt, byte_at, Outcome-cases, Ensures, Ends, returns, rejects, Ensures-bind, Ensures-ok,
  Ensures-ne-fault, Ensures-map, Ensures-attempt, Ensures-guard, Ensures-if, byte_at-lt,
  byte_at-Ensures, Text, codes, text_eq, text_eq_refl, text_eq→eq, text_eq_iff, ends_with, to_lower,
  to_lower_idem, map-to_lower_idem, ℕ, zero, suc, ◌+◌, ◌-◌, ◌*◌, ◌/◌, ◌%◌, ◌^◌, ◌≤◌, ◌<◌, min, max,
  ◌≡◌, refl, sym, ap, ◌∙◌, ◌≢◌, ◌↔◌, ◌⊎◌, inl, inr, Bool, true, false, not, ◌&&◌, ◌||◌, Option,
  none, some, List, [], ◌∷◌, ◌++◌, map, append_assoc, append-nil, arith,
}

unfoldable pub or_default : Text → Text → Text
or_default value fallback = if is_empty value then fallback else value

abbrev srv_record : Text → Text → ℕ → DnsRecord
srv_record name target port = record {
  name = name;
  type = codes "SRV";
  value = target;
  dns_class = codes "IN";
  ttl = 300;
  priority = 0;
  weight = 100;
  port = port;
  flags = [];
}

unfoldable pub make_active_directory_dns_zone : ActiveDirectoryDnsConfig → DnsZone
make_active_directory_dns_zone config =
    let dns_name = trim_trailing_dot config.dns_name in
    let site_name = or_default config.site_name (codes "Default-First-Site-Name") in
    let dc_host = or_default config.domain_controller_host (codes "dc1") in
    let dc_address = or_default config.domain_controller_address (codes "127.0.0.1") in
    let dc_target = dc_host ++ (b'.' ∷ (dns_name ++ codes ".")) in
    let srv = λ (name : Text) (port : ℕ). srv_record name dc_target port in
    let ns = record (srv_record (codes "@") dc_target 0) {
      type = codes "NS";
      ttl = 3600;
      weight = 0;
    } in
    let a = record (srv_record dc_host dc_address 0) { type = codes "A"; weight = 0 } in
    record {
      name = dns_name;
      serial = 1;
      records =
          ns
          ∷ a
          ∷ srv (codes "_ldap._tcp") config.ldap_port
          ∷ srv (codes "_ldap._tcp.dc._msdcs") config.ldap_port
          ∷ srv (codes "_ldap._tcp." ++ (site_name ++ codes "._sites")) config.ldap_port
          ∷ srv (codes "_ldap._tcp." ++ (site_name ++ codes "._sites.dc._msdcs")) config.ldap_port
          ∷ srv (codes "_kerberos._tcp") config.kerberos_port
          ∷ srv (codes "_kerberos._udp") config.kerberos_port
          ∷ srv (codes "_kerberos._tcp.dc._msdcs") config.kerberos_port
          ∷ srv (codes "_kerberos._tcp." ++ (site_name ++ codes "._sites.dc._msdcs"))
              config.kerberos_port
          ∷ srv (codes "_kerberos._tcp." ++ (site_name ++ codes "._sites")) config.kerberos_port
          ∷ srv (codes "_kpasswd._tcp") config.kpasswd_port
          ∷ srv (codes "_kpasswd._udp") config.kpasswd_port
          ∷ srv (codes "_gc._tcp") config.global_catalog_port
          ∷ srv (codes "_gc._tcp." ++ (site_name ++ codes "._sites")) config.global_catalog_port
          ∷ srv (codes "_ldap._tcp.gc._msdcs") config.global_catalog_port
          ∷ [];
    }

-- The test by which a stored record counts as the record to be merged; the TTL does not count.
unfoldable pub same_record : DnsRecord → DnsRecord → Bool
same_record r candidate =
    text_eq (canonical candidate.name) (canonical r.name)
    && text_eq (lowercase_ascii candidate.type) (lowercase_ascii r.type)
    && text_eq (canonical candidate.value) (canonical r.value)
    && text_eq (lowercase_ascii candidate.dns_class) (lowercase_ascii r.dns_class)
    && candidate.priority == r.priority
    && candidate.weight == r.weight
    && candidate.port == r.port
    && text_eq candidate.flags r.flags

-- The loop over the records of the zone that is merged.
unfoldable pub merge_records : List DnsRecord → List DnsRecord → List DnsRecord
merge_records stored [] = stored
merge_records stored (r ∷ rs) =
    merge_records (if any (same_record r) stored then stored else stored ++ r ∷ []) rs

unfoldable pub merge_zone : DnsZone → DnsZone → DnsZone
merge_zone zone ad_zone = record zone {
  serial = max zone.serial ad_zone.serial;
  records = merge_records zone.records ad_zone.records;
}

-- The first zone of that name takes the records; without one the zone is added at the end.
unfoldable pub merge_active_directory_dns_zone : List DnsZone → DnsZone → List DnsZone
merge_active_directory_dns_zone [] ad_zone = ad_zone ∷ []
merge_active_directory_dns_zone (zone ∷ zones) ad_zone =
    let rest = merge_active_directory_dns_zone zones ad_zone in
    if text_eq (canonical zone.name) (canonical ad_zone.name)
    then merge_zone zone ad_zone ∷ zones
    else zone ∷ rest
