-- ===== src/Dns/Update.antt =====
-- Dynamic updates (RFC 2136): dns.cpp, `zone_exists_for_update` to `dns_update_response`, and
-- `parse_dns_dynamic_update`.
pub mod Safety
pub mod Authority
pub mod Agreement
use endorium_nexus.Dns.Types.{
  DnsRecord, new_record, DnsZone, DnsQuestion, AuthorizedUpdateZone, DnsDynamicUpdateRecord,
  DnsDynamicUpdate, no_update, dns_type_a, dns_type_ns, dns_type_cname, dns_type_soa, dns_type_txt,
  dns_type_srv, dns_type_any, dns_class_in, dns_class_none, dns_class_any, dns_opcode_update,
  dns_rcode_formerr, dns_rcode_notauth,
}
use endorium_nexus.Dns.Wire.{
  lowercase_ascii, trim_trailing_dot, read_u16, read_u32, dns_opcode, write_u16, read_dns_name,
  parse_question,
}
use endorium_nexus.Prelude.{
  ltb, leb, ◌==◌, if◌then◌else◌, ltb→lt, lt→ltb, le→ltb, leb→le, ==_iff, tests, Bool-cases,
  Option-cases, length, get_elem?, set, take, drop, is_empty, any, keep, All, All-append,
  length-append, length-set, length-take, length-drop, take-append-drop, take-append, drop-append,
  drop-append_le, get_elem?-lt, get_elem?-append, set-append, Outcome, ok, reject, fault, ◌>>=◌,
  ◌>>◌, reject_if, attempt, byte_at, Outcome-cases, Ensures, Ends, returns, rejects, Ensures-bind,
  Ensures-ok, Ensures-ne-fault, Ensures-map, Ensures-attempt, Ensures-guard, Ensures-if, Returns,
  returned, Returns-bind, Returns-attempt, Returns-option, Returns-if, Returns-ok, Returns-Ensures,
  Returns-value, slice-Returns, byte_at-append, byte_at-behind, slice, slice-append, slice-Ensures,
  byte_at-lt, byte_at-Ensures, Text, codes, text_eq, text_eq_refl, text_eq→eq, text_eq_iff, ℤ, pos,
  negsuc, digits_of, to_string, digit_in, digits_run, wrapped, unsigned_run, prefixed_run, run_of,
  signed_run, stoul, is_space, trim_start, trim_end, behind_last, before_last, is_digit,
  decimal_value, unsigned_value, negated, signed_value, stoi, find_char, starts_with,
  starts_with-append, find_text, contains, contains-append, ends_with, to_lower, to_lower_idem,
  map-to_lower_idem, ℕ, zero, suc, ◌+◌, ◌-◌, ◌*◌, ◌/◌, ◌%◌, ◌^◌, ◌≤◌, ◌<◌, min, max, ◌≡◌, refl, sym,
  ap, ◌∙◌, ◌≢◌, ◌↔◌, ◌⊎◌, inl, inr, Bool, true, false, not, ◌&&◌, ◌||◌, Option, none, some, List,
  [], ◌∷◌, ◌++◌, map, append_assoc, append-nil, arith,
}

-- The form in which names are compared.
unfoldable pub canonical : Text → Text
canonical name = lowercase_ascii (trim_trailing_dot name)

unfoldable pub zone_exists_for_update : DnsQuestion → List DnsZone → Bool
zone_exists_for_update question zones =
    let zone_name = canonical question.name in
    any
      (λ zone.
        text_eq zone_name (canonical zone.name)
        || text_eq zone_name (codes "_msdcs." ++ canonical zone.name))
      zones

unfoldable pub authorized_update_zone : DnsQuestion → List DnsZone → AuthorizedUpdateZone
authorized_update_zone question [] = record {
  authorized = false;
  update_zone_name = canonical question.name;
  storage_zone_name = [];
}
authorized_update_zone question (zone ∷ zones) =
    let zone_name = canonical question.name in
    let candidate = canonical zone.name in
    let found : AuthorizedUpdateZone = record {
      authorized = true;
      update_zone_name = zone_name;
      storage_zone_name = candidate;
    } in
    if text_eq zone_name candidate
    then found
    else if text_eq zone_name (codes "_msdcs." ++ candidate)
    then found
    else authorized_update_zone question zones

unfoldable pub type_name : ℕ → Text
type_name type =
    if type == dns_type_a
    then codes "A"
    else if type == dns_type_ns
    then codes "NS"
    else if type == dns_type_cname
    then codes "CNAME"
    else if type == dns_type_txt
    then codes "TXT"
    else if type == dns_type_srv
    then codes "SRV"
    else if type == dns_type_any
    then codes "ANY"
    else []

-- In the last test a size that goes below 0 wraps, and `substr` then keeps the whole name.
unfoldable pub relative_update_name : Text → AuthorizedUpdateZone → Text
relative_update_name fqdn zone =
    let name = canonical fqdn in
    let storage_zone = canonical zone.storage_zone_name in
    let update_zone = canonical zone.update_zone_name in
    if text_eq name storage_zone
    then codes "@"
    else if not (is_empty storage_zone)
        && ltb (length storage_zone) (length name)
        && ends_with name (b'.' ∷ storage_zone)
    then take (length name - length storage_zone - 1) name
    else if not (is_empty update_zone) && text_eq name update_zone
    then (if text_eq update_zone storage_zone
        then codes "@"
        else if leb (length update_zone) (length storage_zone)
        then update_zone
        else take (length update_zone - length storage_zone - 1) update_zone)
    else name

-- std::to_string of a byte: no leading zeros.
unfoldable pub byte_text : ℕ → Text
byte_text n =
    if ltb n 10
    then (b'0' + n) ∷ []
    else if ltb n 100
    then (b'0' + n / 10) ∷ (b'0' + n % 10) ∷ []
    else (b'0' + n / 100) ∷ (b'0' + n / 10 % 10) ∷ (b'0' + n % 10) ∷ []

unfoldable pub ipv4_text : List ℕ → ℕ → Outcome Text
ipv4_text query offset = if ltb (length query) (offset + 4) then ok [] else do
  a ← byte_at query offset
  b ← byte_at query (offset + 1)
  c ← byte_at query (offset + 2)
  d ← byte_at query (offset + 3)
  ok (byte_text a ++ b'.' ∷ (byte_text b ++ b'.' ∷ (byte_text c ++ b'.' ∷ byte_text d)))

-- `text.push_back('\n')` unless it is empty
unfoldable pub with_newline : Text → Text
with_newline text = if is_empty text then text else text ++ 10 ∷ []

-- The loop over the strings of a TXT record; `none` is `return false`.
unfoldable pub read_txt : List ℕ → ℕ → ℕ → ℕ → Text → Outcome (Option Text)
read_txt query zero offset end text = if ltb offset end then fault else ok (some text)
read_txt query (suc rounds) offset end text = if not (ltb offset end) then ok (some text) else do
  size ← byte_at query offset
  let next = do
    string ← slice query (offset + 1) size
    read_txt query rounds (offset + 1 + size) end (with_newline text ++ string)
  if ltb end (offset + 1 + size) then ok none else next

-- The host name in the data of an NS, CNAME or SRV record.
unfoldable pub read_target : List ℕ → ℕ → ℕ → Outcome (Option Text)
read_target query offset end = do
  target ← attempt (read_dns_name query offset)
  elim target [
    | none ↦ ok none
    | some (name, after) ↦
        if ltb end after then ok none else ok (some (trim_trailing_dot name ++ b'.' ∷ []))
  ]

-- The record as the call leaves it, and whether it returned true.
abbrev with_value : DnsRecord → Option Text → DnsRecord × Bool
with_value r none = (r, false)
with_value r (some value) = (record r { value = value }, true)

unfoldable pub parse_update_rdata : List ℕ → ℕ → ℕ → ℕ → DnsRecord → Outcome (DnsRecord × Bool)
parse_update_rdata query rdata_offset rdlength type r =
    let end = rdata_offset + rdlength in
    if ltb (length query) end
    then ok (r, false)
    else if type == dns_type_a
    then (if not (rdlength == 4) then ok (r, false) else do
      value ← ipv4_text query rdata_offset
      ok (record r { value = value }, not (is_empty value)))
    else if type == dns_type_srv
    then (if ltb rdlength 7 then ok (r, false) else do
      priority ← read_u16 query rdata_offset
      weight ← read_u16 query (rdata_offset + 2)
      port ← read_u16 query (rdata_offset + 4)
      target ← read_target query (rdata_offset + 6) end
      ok (with_value (record r { priority = priority; weight = weight; port = port }) target))
    else if type == dns_type_ns || type == dns_type_cname
    then (do target ← read_target query rdata_offset end; ok (with_value r target))
    else if type == dns_type_txt
    then (do text ← read_txt query rdlength rdata_offset end []; ok (with_value r text))
    else ok (r, false)

unfoldable pub skip_dns_records : List ℕ → ℕ → ℕ → Outcome ℕ
skip_dns_records query offset zero = ok offset
skip_dns_records query offset (suc count) = do
  (_, after) ← read_dns_name query offset
  reject_if (ltb (length query) (after + 10))
  rdlength ← read_u16 query (after + 8)
  reject_if (ltb (length query) (after + 10 + rdlength))
  skip_dns_records query (after + 10 + rdlength) count

abbrev update_entry : AuthorizedUpdateZone → DnsRecord → Bool → Bool → DnsDynamicUpdateRecord
update_entry zone r deletion delete_rrset = record {
  zone_name = zone.storage_zone_name;
  record_value = r;
  deletion = deletion;
  delete_rrset = delete_rrset;
}

-- The body of the loop of `parse_update_records` behind the record's fixed fields. `none` is
-- `continue`.
unfoldable pub update_record :
    List ℕ
    → AuthorizedUpdateZone
    → Text
    → ℕ
    → ℕ
    → ℕ
    → ℕ
    → ℕ
    → Outcome (Option DnsDynamicUpdateRecord)
update_record query zone owner_name type record_class ttl rdlength offset =
    let r = record new_record {
      name = relative_update_name owner_name zone;
      type = type_name type;
      ttl = if ttl == 0 then 300 else ttl;
    } in
    let deletion = record_class == dns_class_any || record_class == dns_class_none in
    let delete_rrset = record_class == dns_class_any || type == dns_type_any in
    let parsed = parse_update_rdata query offset rdlength type r in
    if is_empty (type_name type)
    then ok none
    else if not deletion && not (record_class == dns_class_in)
    then ok none
    else if not deletion
    then (do
      (filled, good) ← parsed
      ok (if good then some (update_entry zone filled deletion delete_rrset) else none))
    else if ltb 0 rdlength
    then (do (filled, _) ← parsed; ok (some (update_entry zone filled deletion delete_rrset)))
    else ok (some (update_entry zone r deletion delete_rrset))

abbrev push_back {ℓ} : {A : Type ℓ} → List A → Option A → List A
push_back records none = records
push_back records (some r) = records ++ r ∷ []

-- A record that is cut short discards the records before it: `return {}`.
unfoldable pub parse_update_records :
    List ℕ
    → ℕ
    → ℕ
    → AuthorizedUpdateZone
    → List DnsDynamicUpdateRecord
    → Outcome (List DnsDynamicUpdateRecord)
parse_update_records query offset zero zone records = ok records
parse_update_records query offset (suc count) zone records = do
  owner ← attempt (read_dns_name query offset)
  elim owner [
    | none ↦ ok []
    | some (owner_name, after) ↦ if ltb (length query) (after + 10) then ok [] else do
      type ← read_u16 query after
      record_class ← read_u16 query (after + 2)
      ttl ← read_u32 query (after + 4)
      rdlength ← read_u16 query (after + 8)
      if ltb (length query) (after + 10 + rdlength) then ok [] else do
        entry ← update_record query zone owner_name type record_class ttl rdlength (after + 10)
        parse_update_records query (after + 10 + rdlength) count zone (push_back records entry)
  ]

-- The test that both `dns_update_response` and `parse_dns_dynamic_update` make on the zone section.
unfoldable pub is_update_zone : DnsQuestion → Bool
is_update_zone question =
    (question.type == dns_type_soa || question.type == dns_type_any)
    && question.qclass == dns_class_in

-- The six header words of a reply to an update, and the zone section if it is echoed.
-- `0x8000 | (5 << 11) | rcode` has no bit in common with a response code below 16.
unfoldable pub update_reply : ℕ → ℕ → ℕ → List ℕ → List ℕ
update_reply transaction_id rcode zone_count echo =
    write_u16
      (write_u16
        (write_u16
          (write_u16
            (write_u16 (write_u16 [] transaction_id) (0x8000 + dns_opcode_update * 2 ^ 11 + rcode))
            zone_count)
          0)
        0)
      0
    ++ echo

unfoldable pub dns_update_response : List ℕ → List DnsZone → Outcome (List ℕ)
dns_update_response query zones = do
  transaction_id ← read_u16 query 0
  parsed ← attempt (parse_question query)
  elim parsed [
    | none ↦ ok (update_reply transaction_id dns_rcode_formerr 0 [])
    | some question ↦
        if is_update_zone question
        then (do
          echo ← slice query 12 (question.end_offset - 12)
          ok (
              update_reply transaction_id
                (if zone_exists_for_update question zones then 0 else dns_rcode_notauth) 1 echo))
        else ok (update_reply transaction_id dns_rcode_formerr 0 [])
  ]

abbrev malformed_update : DnsDynamicUpdate
malformed_update = record no_update { is_update = true }

unfoldable pub parse_dns_dynamic_update : List ℕ → List DnsZone → Outcome DnsDynamicUpdate
parse_dns_dynamic_update query zones = if ltb (length query) 12 then ok no_update else do
  flags ← read_u16 query 2
  if not (dns_opcode flags == dns_opcode_update) then ok no_update else do
    parsed ← attempt (parse_question query)
    elim parsed [
      | none ↦ ok malformed_update
      | some question ↦ if not (is_update_zone question) then ok malformed_update else do
        let zone = authorized_update_zone question zones
        let named = record malformed_update {
          valid = true;
          authorized = zone.authorized;
          zone_name =
              if is_empty zone.storage_zone_name
              then zone.update_zone_name
              else zone.storage_zone_name;
        }
        if not zone.authorized then ok named else do
          prerequisite_count ← read_u16 query 6
          update_count ← read_u16 query 8
          skipped ← attempt (skip_dns_records query question.end_offset prerequisite_count)
          elim skipped [
            | none ↦ ok (record named { valid = false })
            | some offset ↦ do
              records ← parse_update_records query offset update_count zone []
              ok (record named { records = records })
          ]
    ]
