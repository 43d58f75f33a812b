-- ===== src/Dns/Runs.antt =====
-- Concrete runs of the DNS library, and its theorems at concrete inputs.
use endorium_nexus.Dns.Types.{
  DnsRecord, new_record, DnsZone, DnsQuestion, AuthorizedUpdateZone, DnsDynamicUpdate,
  ActiveDirectoryDnsConfig, dns_type_a,
}
use endorium_nexus.Dns.Wire.{
  lowercase_ascii, trim_trailing_dot, read_u16, dns_opcode, write_u16, write_u32, with_dot,
  name_or_root, read_labels, read_dns_name, split_dots, write_labels, write_dns_name,
  parse_question,
}
use endorium_nexus.Dns.Wire.Safety.{Advances, read_dns_name-Ensures}
use endorium_nexus.Dns.Wire.RoundTrip.{IsLabel, name_of}
use endorium_nexus.Dns.Wire.ReadBack.{read_dns_name-write_dns_name}
use endorium_nexus.Dns.Update.{
  canonical, zone_exists_for_update, authorized_update_zone, relative_update_name,
  parse_update_rdata, skip_dns_records, parse_update_records, is_update_zone, update_reply,
  dns_update_response, parse_dns_dynamic_update,
}
use endorium_nexus.Dns.Update.Authority.{IsContained, parse_dns_dynamic_update-IsContained}
use endorium_nexus.Dns.Update.Agreement.{HasRcode, rcode-iff-authorized}
use endorium_nexus.Dns.Answer.{
  type_code, record_fqdn, ipv4_bytes, ipv4_parts, octet, unsigned_part, digits_value,
  append_record_data, matches_question, matching_records, write_header, append_answer,
  append_answers, resolve_dns_query, resolve_dns_tcp_query,
}
use endorium_nexus.Dns.Answer.Safety.{resolve_dns_query-Ends, resolve_dns_tcp_query-Ends}
use endorium_nexus.Dns.Answer.Layout.{answers_bytes}
use endorium_nexus.Dns.Answer.Replies.{
  Packet, IsQuestion, packet_bytes, section_bytes, question_of, resolve_dns_query-packet,
}
use endorium_nexus.Dns.Answer.Walk.{skip_dns_records-append_answers}
use endorium_nexus.Dns.Zones.{make_active_directory_dns_zone, merge_active_directory_dns_zone}
use endorium_nexus.Dns.Zones.Merge.{merge_active_directory_dns_zone_idem}
use endorium_nexus.Dns.Addresses.{address, ipv4_bytes_ignores_more, address_survives}
use endorium_nexus.Dns.Owners.{record_fqdn-relative_update_name, record_fqdn_collides}
use endorium_nexus.Prelude.{
  length, any, keep, All, ok, reject, byte_at, Ensures, Ends, slice, codes, text_eq, ends_with,
  to_lower, ℕ, ◌+◌, ◌*◌, ◌%◌, ◌^◌, ◌<◌, ◌≡◌, refl, ◌≢◌, ◌↔◌, true, false, some, List, [], ◌∷◌, ◌++◌,
  arith,
}

abbrev host_record : DnsRecord
host_record = record new_record { name = codes "dc1"; type = codes "A"; value = codes "10.0.0.7" }

abbrev zone : DnsZone
zone = record { name = codes "Corp.lan."; serial = 4; records = host_record ∷ [] }

abbrev packet : Packet
packet = record {
  id_high = 0xab;
  id_low = 0xcd;
  flags_high = 1;
  flags_low = 0;
  count_high = 0;
  count_low = 1;
  counts = 0 ∷ 0 ∷ 0 ∷ 0 ∷ 0 ∷ 0 ∷ [];
  label = codes "DC1";
  labels = codes "corp" ∷ codes "lan" ∷ [];
  type_high = 0;
  type_low = 1;
  class_high = 0;
  class_low = 1;
  more = [];
}

-- The answer to a query in another letter case, byte for byte.
answered :
    resolve_dns_query (packet_bytes packet) (zone ∷ [])
    ≡ ok (
        0xab
        ∷ 0xcd
        ∷ 0x81
        ∷ 0x80
        ∷ 0
        ∷ 1
        ∷ 0
        ∷ 1
        ∷ 0
        ∷ 0
        ∷ 0
        ∷ 0
        ∷ 3
        ∷ (codes "DC1"
            ++ 4
              ∷ (codes "corp"
                  ++ 3
                    ∷ (codes "lan"
                        ++ 0
                          ∷ 0
                          ∷ 1
                          ∷ 0
                          ∷ 1
                          ∷ 3
                          ∷ (codes "dc1"
                              ++ 4
                                ∷ (codes "corp"
                                    ++ 3
                                      ∷ (codes "lan"
                                          ++ 0 ∷ 0 ∷ 1 ∷ 0 ∷ 1 ∷ 0 ∷ 0 ∷ 14 ∷ 16 ∷ 0 ∷ 4 ∷ 10 ∷ 0
                                            ∷ 0 ∷ 7 ∷ [])))))))
unfolding resolve_dns_query read_u16 byte_at dns_opcode parse_question read_dns_name read_labels
    slice with_dot name_or_root lowercase_ascii to_lower trim_trailing_dot matching_records keep
    matches_question type_code record_fqdn canonical ends_with text_eq write_header write_u16
    write_u32 append_answers append_answer write_dns_name write_labels split_dots append_record_data
    ipv4_bytes ipv4_parts octet unsigned_part digits_value
answered = refl

packet_labels : All IsLabel (packet.label ∷ packet.labels)
packet_labels = ground arith

packet-IsQuestion : IsQuestion packet
unfolding dns_opcode
packet-IsQuestion = record {
  counts_length = refl;
  asks = omega arith;
  no_update_flags = omega arith;
  good_labels = packet_labels;
}

resolve_dns_query-packet_example :
    resolve_dns_query (packet_bytes packet) (zone ∷ [])
    ≡ ok (
        write_header
          (0xab * 256 + 0xcd)
          0x8180
          1
          (length (matching_records (question_of packet) (zone ∷ [])) % 2 ^ 16)
        ++ (section_bytes packet
            ++ answers_bytes
                (question_of packet)
                (matching_records (question_of packet) (zone ∷ []))))
resolve_dns_query-packet_example = resolve_dns_query-packet packet packet-IsQuestion (zone ∷ [])

not_at : text_eq (name_of (codes "DC1" ∷ codes "corp" ∷ codes "lan" ∷ [])) (codes "@") ≡ false
unfolding text_eq
not_at = refl

read_dns_name-write_dns_name_example :
    read_dns_name (write_dns_name (1 ∷ 2 ∷ []) (codes "DC1.corp.lan") ++ 9 ∷ []) 2
    ≡ ok (codes "DC1.corp.lan", length (write_dns_name (1 ∷ 2 ∷ []) (codes "DC1.corp.lan")))
read_dns_name-write_dns_name_example =
    read_dns_name-write_dns_name (codes "DC1") (codes "corp" ∷ codes "lan" ∷ []) (1 ∷ 2 ∷ [])
      (9 ∷ []) packet_labels not_at

-- A name that points at itself.
abbrev looping : List ℕ
looping = 0xc0 ∷ 0 ∷ []

read_dns_name-Ensures_example : Ensures (Advances looping 0) (read_dns_name looping 0)
read_dns_name-Ensures_example = read_dns_name-Ensures looping 0

looping_refused : read_dns_name looping 0 ≡ reject
unfolding read_dns_name read_labels byte_at
looping_refused = refl

resolve_dns_query-Ends_example : Ends (resolve_dns_query (packet_bytes packet) (zone ∷ []))
resolve_dns_query-Ends_example = resolve_dns_query-Ends (packet_bytes packet) (zone ∷ [])

abbrev frame : List ℕ
frame = 0 ∷ 30 ∷ packet_bytes packet

resolve_dns_tcp_query-Ends_example : Ends (resolve_dns_tcp_query frame (zone ∷ []))
resolve_dns_tcp_query-Ends_example = resolve_dns_tcp_query-Ends frame (zone ∷ [])

-- An update of the zone `corp.lan` with no records.
abbrev update_packet : List ℕ
update_packet = packet_bytes (record packet {
  flags_high = 0x28;
  label = codes "corp";
  labels = codes "lan" ∷ [];
  type_low = 6;
})

abbrev accepted : DnsDynamicUpdate
accepted = record {
  is_update = true;
  valid = true;
  authorized = true;
  zone_name = codes "corp.lan";
  records = [];
}

parsed : parse_dns_dynamic_update update_packet (zone ∷ []) ≡ ok accepted
unfolding parse_dns_dynamic_update read_u16 byte_at dns_opcode parse_question read_dns_name
    read_labels slice with_dot name_or_root lowercase_ascii to_lower trim_trailing_dot
    is_update_zone authorized_update_zone canonical text_eq skip_dns_records parse_update_records
parsed = refl

parse_dns_dynamic_update-IsContained_example :
    Ensures (IsContained (zone ∷ [])) (parse_dns_dynamic_update update_packet (zone ∷ []))
parse_dns_dynamic_update-IsContained_example =
    parse_dns_dynamic_update-IsContained update_packet (zone ∷ [])

abbrev reply : List ℕ
reply =
    0xab
    ∷ 0xcd
    ∷ 0xa8
    ∷ 0
    ∷ 0
    ∷ 1
    ∷ 0
    ∷ 0
    ∷ 0
    ∷ 0
    ∷ 0
    ∷ 0
    ∷ 4
    ∷ (codes "corp" ++ 3 ∷ (codes "lan" ++ 0 ∷ 0 ∷ 6 ∷ 0 ∷ 1 ∷ []))

replied : dns_update_response update_packet (zone ∷ []) ≡ ok reply
unfolding dns_update_response read_u16 byte_at parse_question read_dns_name read_labels slice
    with_dot name_or_root lowercase_ascii to_lower trim_trailing_dot is_update_zone
    zone_exists_for_update any canonical text_eq update_reply write_u16
replied = refl

rcode-iff-authorized_example : (HasRcode 0 reply) ↔ (true ≡ true)
rcode-iff-authorized_example =
    rcode-iff-authorized update_packet (zone ∷ []) accepted reply parsed replied refl (omega arith)

abbrev question : DnsQuestion
question = record { name = codes "DC1.corp.lan"; type = 1; qclass = 1; end_offset = 30 }

small_data : length (append_record_data [] host_record) < 2 ^ 16
unfolding append_record_data text_eq ipv4_bytes ipv4_parts octet unsigned_part digits_value
    split_dots
small_data = omega arith

skip_dns_records-append_answers_example :
    skip_dns_records (append_answers (7 ∷ []) question (host_record ∷ [])) 1 1
    ≡ ok (length (append_answers (7 ∷ []) question (host_record ∷ [])))
skip_dns_records-append_answers_example =
    skip_dns_records-append_answers question (codes "DC1") (codes "corp" ∷ codes "lan" ∷ []) refl
      packet_labels not_at (host_record ∷ []) (7 ∷ []) (small_data, tt)

abbrev domain : ActiveDirectoryDnsConfig
domain = record {
  dns_name = codes "corp.lan";
  site_name = [];
  domain_controller_host = [];
  domain_controller_address = [];
  ldap_port = 389;
  kerberos_port = 88;
  kpasswd_port = 464;
  global_catalog_port = 3268;
}

abbrev ad_zone : DnsZone
ad_zone = make_active_directory_dns_zone domain

merge_active_directory_dns_zone_idem_example :
    merge_active_directory_dns_zone (merge_active_directory_dns_zone (zone ∷ []) ad_zone) ad_zone
    ≡ merge_active_directory_dns_zone (zone ∷ []) ad_zone
merge_active_directory_dns_zone_idem_example =
    merge_active_directory_dns_zone_idem (zone ∷ []) ad_zone

ipv4_bytes_ignores_more_example :
    ipv4_bytes (address 10 0 0 7 (codes ".evil")) ≡ some (10 ∷ 0 ∷ 0 ∷ 7 ∷ [])
ipv4_bytes_ignores_more_example =
    ipv4_bytes_ignores_more 10 0 0 7 (omega arith) (omega arith) (omega arith) (omega arith)
      (codes "evil")

address_survives_example :
    (r : DnsRecord) × (parse_update_rdata (5 ∷ 10 ∷ 0 ∷ 0 ∷ 7 ∷ []) 1 4 dns_type_a host_record
      ≡ ok (r, true))
    × (append_record_data [] r ≡ 10 ∷ 0 ∷ 0 ∷ 7 ∷ [])
address_survives_example =
    address_survives 10 0 0 7 (omega arith) (omega arith) (omega arith) (omega arith) (5 ∷ []) []
      host_record refl

abbrev target : AuthorizedUpdateZone
target = record {
  authorized = true;
  update_zone_name = codes "corp.lan";
  storage_zone_name = codes "corp.lan";
}

record_fqdn-relative_update_name_example :
    record_fqdn zone
      (record host_record { name = relative_update_name (codes "PC.Corp.lan.") target })
    ≡ canonical (codes "PC.Corp.lan.")
unfolding canonical lowercase_ascii to_lower trim_trailing_dot text_eq ends_with
record_fqdn-relative_update_name_example =
    record_fqdn-relative_update_name zone target (codes "PC.Corp.lan.") (codes "pc") refl refl refl
      host_record refl refl refl refl refl

record_fqdn_collides_example :
    (record_fqdn zone
        (record host_record { name = relative_update_name (codes "corp.lan.corp.lan") target })
      ≡ canonical (codes "Corp.lan."))
    × (canonical (codes "corp.lan.corp.lan") ≢ canonical (codes "Corp.lan."))
unfolding canonical lowercase_ascii to_lower trim_trailing_dot text_eq
record_fqdn_collides_example =
    record_fqdn_collides zone target (codes "corp.lan.corp.lan") (codes "corp.lan") refl refl refl
      host_record refl refl
