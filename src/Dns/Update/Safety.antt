-- ===== src/Dns/Update/Safety.antt =====
-- The parser of dynamic updates stays inside the packet and ends, whatever its bytes are.
use endorium_nexus.Dns.Types.{
  DnsRecord, DnsZone, AuthorizedUpdateZone, DnsDynamicUpdateRecord, dns_opcode_update,
  dns_class_any, dns_class_none, dns_class_in, dns_type_a, dns_type_ns, dns_type_cname,
  dns_type_txt, dns_type_srv,
}
use endorium_nexus.Dns.Wire.{dns_opcode, read_dns_name, parse_question}
use endorium_nexus.Dns.Wire.Safety.{
  read_u16-Ensures, read_u32-Ensures, read_dns_name-Ensures, parse_question-Ensures,
}
use endorium_nexus.Dns.Update.{
  ipv4_text, with_newline, read_txt, read_target, parse_update_rdata, skip_dns_records, type_name,
  update_record, push_back, parse_update_records, is_update_zone, dns_update_response,
  authorized_update_zone, parse_dns_dynamic_update,
}
use endorium_nexus.Prelude.{
  ltb, ◌==◌, length, is_empty, Ensures, Ends, returns, Ensures-bind, Ensures-map, Ensures-attempt,
  Ensures-guard, Ensures-if, slice-Ensures, byte_at-Ensures, Text, ℕ, zero, suc, ◌+◌, ◌-◌, ◌≤◌, ◌≡◌,
  ◌⊎◌, not, ◌&&◌, ◌||◌, List, [], ◌++◌, arith,
}

ipv4_text-Ends : (query : List ℕ) (offset : ℕ) → Ends (ipv4_text query offset)
unfolding ipv4_text
ipv4_text-Ends query offset =
    Ensures-if (ltb (length query) (offset + 4)) _ _ (λ _. returns tt)
      λ room. Ensures-bind _ _ (byte_at-Ensures query offset (ground arith)) λ a _.
        Ensures-bind _ _ (byte_at-Ensures query (offset + 1) (ground arith)) λ b _.
          Ensures-bind _ _ (byte_at-Ensures query (offset + 2) (ground arith)) λ c _.
            Ensures-bind _ _ (byte_at-Ensures query (offset + 3) (ground arith)) λ d _. returns tt

read_txt-Ends :
    (query : List ℕ) (rounds offset end : ℕ) (text : Text)
    → end ≤ length query
    → end - offset ≤ rounds
    → Ends (read_txt query rounds offset end text)
unfolding read_txt
read_txt-Ends query zero offset end text inside enough =
    Ensures-if (ltb offset end) _ _ (λ e. absurd (ground arith)) (λ _. returns tt)
read_txt-Ends query (suc rounds) offset end text inside enough =
    Ensures-if (not (ltb offset end)) _ _ (λ _. returns tt)
      λ more. Ensures-bind _ _ (byte_at-Ensures query offset (ground arith)) λ size _.
        Ensures-if (ltb end (offset + 1 + size)) _ _ (λ _. returns tt)
          λ fits.
            Ensures-bind _ _ (slice-Ensures query (offset + 1) size (ground arith)) λ string _.
              read_txt-Ends query rounds (offset + 1 + size) end (with_newline text ++ string)
                inside (ground arith)

read_target-Ends : (query : List ℕ) (offset end : ℕ) → Ends (read_target query offset end)
unfolding read_target
read_target-Ends query offset end =
    Ensures-attempt (read_dns_name query offset) _ _ (read_dns_name-Ensures query offset)
      (returns tt)
      λ (name, after) _. Ensures-if (ltb end after) _ _ (λ _. returns tt) (λ _. returns tt)

pub parse_update_rdata-Ends :
    (query : List ℕ) (rdata_offset rdlength type : ℕ) (r : DnsRecord)
    → Ends (parse_update_rdata query rdata_offset rdlength type r)
unfolding parse_update_rdata
parse_update_rdata-Ends query offset rdlength type r =
    Ensures-if (ltb (length query) (offset + rdlength)) _ _ (λ _. returns tt)
      λ inside.
        Ensures-if (type == dns_type_a) _ _
          (λ _.
            Ensures-if (not (rdlength == 4)) _ _ (λ _. returns tt)
              λ _. Ensures-bind _ _ (ipv4_text-Ends query offset) λ _ _. returns tt)
          λ _.
            Ensures-if (type == dns_type_srv) _ _
              (λ _.
                Ensures-if (ltb rdlength 7) _ _ (λ _. returns tt)
                  λ long. Ensures-bind _ _ (read_u16-Ensures query offset (ground arith)) λ _ _.
                    Ensures-bind _ _ (read_u16-Ensures query (offset + 2) (ground arith)) λ _ _.
                      Ensures-bind _ _ (read_u16-Ensures query (offset + 4) (ground arith)) λ _ _.
                        Ensures-bind _ _ (read_target-Ends query (offset + 6) (offset + rdlength))
                          λ _ _. returns tt)
              λ _.
                Ensures-if (type == dns_type_ns || type == dns_type_cname) _ _
                  (λ _.
                    Ensures-bind _ _ (read_target-Ends query offset (offset + rdlength))
                      λ _ _. returns tt)
                  λ _.
                    Ensures-if (type == dns_type_txt) _ _
                      (λ _.
                        Ensures-bind _ _
                          (read_txt-Ends query rdlength offset (offset + rdlength) [] (ground arith)
                            (omega arith))
                          λ _ _. returns tt)
                      λ _. returns tt

-- Walking over records never leaves the packet and never moves back.
pub skip_dns_records-Ensures :
    (query : List ℕ) (offset count : ℕ)
    → Ensures
        (λ after. (offset ≤ after) × ((after ≤ length query) ⊎ (after ≡ offset)))
        (skip_dns_records query offset count)
unfolding skip_dns_records
skip_dns_records-Ensures query offset zero = returns (omega arith)
skip_dns_records-Ensures query offset (suc count) =
    Ensures-bind _ _ (read_dns_name-Ensures query offset) λ (name, after) moved.
      Ensures-guard (ltb (length query) (after + 10)) _ λ room.
        Ensures-bind _ _ (read_u16-Ensures query (after + 8) (ground arith)) λ rdlength _.
          Ensures-guard (ltb (length query) (after + 10 + rdlength)) _ λ fits.
            Ensures-map _ (skip_dns_records-Ensures query (after + 10 + rdlength) count)
              λ end walked. ground arith

update_record-Ends :
    (query : List ℕ) (zone : AuthorizedUpdateZone) (owner_name : Text)
    (type record_class ttl rdlength offset : ℕ)
    → Ends (update_record query zone owner_name type record_class ttl rdlength offset)
unfolding update_record
update_record-Ends query zone owner_name type record_class ttl rdlength offset =
    let deletion = record_class == dns_class_any || record_class == dns_class_none in
    Ensures-if (is_empty (type_name type)) _ _ (λ _. returns tt)
      λ _.
        Ensures-if (not deletion && not (record_class == dns_class_in)) _ _ (λ _. returns tt)
          λ _.
            Ensures-if (not deletion) _ _
              (λ _.
                Ensures-bind _ _ (parse_update_rdata-Ends query offset rdlength type _)
                  λ _ _. returns tt)
              λ _.
                Ensures-if (ltb 0 rdlength) _ _
                  (λ _.
                    Ensures-bind _ _ (parse_update_rdata-Ends query offset rdlength type _)
                      λ _ _. returns tt)
                  λ _. returns tt

parse_update_records-Ends :
    (query : List ℕ) (offset count : ℕ) (zone : AuthorizedUpdateZone)
    (records : List DnsDynamicUpdateRecord)
    → Ends (parse_update_records query offset count zone records)
unfolding parse_update_records
parse_update_records-Ends query offset zero zone records = returns tt
parse_update_records-Ends query offset (suc count) zone records =
    Ensures-attempt (read_dns_name query offset) _ _ (read_dns_name-Ensures query offset)
      (returns tt)
      λ (owner_name, after) _.
        Ensures-if (ltb (length query) (after + 10)) _ _ (λ _. returns tt)
          λ room. Ensures-bind _ _ (read_u16-Ensures query after (ground arith)) λ type _.
            Ensures-bind _ _ (read_u16-Ensures query (after + 2) (ground arith)) λ record_class _.
              Ensures-bind _ _ (read_u32-Ensures query (after + 4) (ground arith)) λ ttl _.
                Ensures-bind _ _ (read_u16-Ensures query (after + 8) (ground arith)) λ rdlength _.
                  Ensures-if (ltb (length query) (after + 10 + rdlength)) _ _ (λ _. returns tt)
                    λ _.
                      Ensures-bind _ _
                        (update_record-Ends query zone owner_name type record_class ttl rdlength
                          (after + 10))
                        λ entry _.
                          parse_update_records-Ends query (after + 10 + rdlength) count zone
                            (push_back records entry)

pub dns_update_response-Ends :
    (query : List ℕ) (zones : List DnsZone)
    → 12 ≤ length query
    → Ends (dns_update_response query zones)
unfolding dns_update_response
dns_update_response-Ends query zones long =
    Ensures-bind _ _ (read_u16-Ensures query 0 (omega arith)) λ id _.
      Ensures-attempt (parse_question query) _ _ (parse_question-Ensures query) (returns tt)
        λ question inside.
          Ensures-if (is_update_zone question) _ _
            (λ _.
              Ensures-bind _ _ (slice-Ensures query 12 (question.end_offset - 12) (omega arith))
                λ _ _. returns tt)
            λ _. returns tt

pub parse_dns_dynamic_update-Ends :
    (query : List ℕ) (zones : List DnsZone) → Ends (parse_dns_dynamic_update query zones)
unfolding parse_dns_dynamic_update
parse_dns_dynamic_update-Ends query zones =
    Ensures-if (ltb (length query) 12) _ _ (λ _. returns tt)
      λ long. Ensures-bind _ _ (read_u16-Ensures query 2 (ground arith)) λ flags _.
        Ensures-if (not (dns_opcode flags == dns_opcode_update)) _ _ (λ _. returns tt)
          λ _.
            Ensures-attempt (parse_question query) _ _ (parse_question-Ensures query) (returns tt)
              λ question inside.
                Ensures-if (not (is_update_zone question)) _ _ (λ _. returns tt)
                  λ _.
                    Ensures-if (not ((authorized_update_zone question zones).authorized)) _ _
                      (λ _. returns tt)
                      λ _.
                        Ensures-bind _ _ (read_u16-Ensures query 6 (ground arith))
                          λ prerequisites _.
                            Ensures-bind _ _ (read_u16-Ensures query 8 (ground arith)) λ updates _.
                              Ensures-attempt
                                (skip_dns_records query question.end_offset prerequisites) _ _
                                (skip_dns_records-Ensures query question.end_offset prerequisites)
                                (returns tt)
                                λ offset _.
                                  Ensures-bind _ _
                                    (parse_update_records-Ends query offset updates
                                      (authorized_update_zone question zones) [])
                                    λ _ _. returns tt
