-- ===== src/Dns/Answer.antt =====
-- Answering queries: dns.cpp, `type_code` to `matching_records`, `resolve_dns_query` and
-- `resolve_dns_tcp_query`.
pub mod Safety
pub mod Layout
pub mod Replies
pub mod Walk
use endorium_nexus.Dns.Types.{
  DnsRecord, DnsZone, DnsQuestion, dns_type_a, dns_type_ns, dns_type_cname, dns_type_soa,
  dns_type_txt, dns_type_aaaa, dns_type_srv, dns_type_any, dns_class_in, dns_opcode_update,
}
use endorium_nexus.Dns.Wire.{
  lowercase_ascii, read_u16, dns_opcode, write_u16, write_u32, write_dns_name, split_dots,
  parse_question,
}
use endorium_nexus.Dns.Update.{canonical, dns_update_response}
use endorium_nexus.Prelude.{
  ltb, leb, ◌==◌, if◌then◌else◌, ltb→lt, lt→ltb, le→ltb, leb→le, ==_iff, tests, Bool-cases,
  Option-cases, length, get_elem?, set, take, drop, is_empty, any, keep, All, All-append,
  length-append, length-set, length-take, length-drop, take-append-drop, take-append, drop-append,
  get_elem?-lt, get_elem?-append, set-append, Outcome, ok, reject, fault, ◌>>=◌, ◌>>◌, reject_if,
  attempt, byte_at, Outcome-cases, Ensures, Ends, returns, rejects, Ensures-bind, Ensures-ok,
  Ensures-ne-fault, Ensures-map, Ensures-attempt, Ensures-guard, Ensures-if, byte_at-append,
  byte_at-behind, slice, slice-append, slice-Ensures, byte_at-lt, byte_at-Ensures, Text, codes,
  text_eq, text_eq_refl, text_eq→eq, text_eq_iff, ends_with, to_lower, to_lower_idem,
  map-to_lower_idem, ℕ, zero, suc, ◌+◌, ◌-◌, ◌*◌, ◌/◌, ◌%◌, ◌^◌, ◌≤◌, ◌<◌, min, max, ◌≡◌, refl, sym,
  ap, ◌∙◌, ◌≢◌, ◌↔◌, ◌⊎◌, inl, inr, Bool, true, false, not, ◌&&◌, ◌||◌, Option, none, some, List,
  [], ◌∷◌, ◌++◌, map, append_assoc, append-nil, arith,
}

unfoldable pub type_code : Text → ℕ
type_code type =
    let normalized = lowercase_ascii type in
    if text_eq normalized (codes "a")
    then dns_type_a
    else if text_eq normalized (codes "ns")
    then dns_type_ns
    else if text_eq normalized (codes "cname")
    then dns_type_cname
    else if text_eq normalized (codes "soa")
    then dns_type_soa
    else if text_eq normalized (codes "txt")
    then dns_type_txt
    else if text_eq normalized (codes "aaaa")
    then dns_type_aaaa
    else if text_eq normalized (codes "srv")
    then dns_type_srv
    else 0

unfoldable pub record_fqdn : DnsZone → DnsRecord → Text
record_fqdn zone r =
    let name = canonical r.name in
    let zone_name = canonical zone.name in
    if text_eq r.name (codes "@") || is_empty r.name
    then zone_name
    else if text_eq name zone_name
        || (ltb (length zone_name) (length name) && ends_with name (b'.' ∷ zone_name))
    then name
    else name ++ b'.' ∷ zone_name

-- std::from_chars on an int, where the digits must reach to the end: a sign is accepted, and
-- `part < 0` refuses every negative number but -0. A part above 255 is refused, so the overflow
-- of an int is too.
unfoldable pub digits_value : Text → ℕ → Option ℕ
digits_value [] value = some value
digits_value (c ∷ s) value =
    let rest = digits_value s (value * 10 + (c - b'0')) in
    if leb b'0' c && leb c b'9' then rest else none

unfoldable pub unsigned_part : Text → Option ℕ
unsigned_part [] = none
unsigned_part (c ∷ s) = digits_value (c ∷ s) 0

abbrev only_up_to : ℕ → Option ℕ → Option ℕ
only_up_to limit none = none
only_up_to limit (some part) = if ltb limit part then none else some part

unfoldable pub octet : Text → Option ℕ
octet [] = none
octet (c ∷ s) =
    if c == b'-' then only_up_to 0 (unsigned_part s) else only_up_to 255 (unsigned_part (c ∷ s))

-- The four parts in front of the dots. The loop stops after the fourth, whatever comes behind it.
unfoldable pub ipv4_parts : List Text → Option (List ℕ)
ipv4_parts (a ∷ b ∷ c ∷ d ∷ _) = elim (octet a) [
  | none ↦ none
  | some i ↦ elim (octet b) [
    | none ↦ none
    | some j ↦ elim (octet c) [
      | none ↦ none
      | some k ↦ elim (octet d) [ none ↦ none | some l ↦ some (i ∷ j ∷ k ∷ l ∷ []) ]
    ]
  ]
]
ipv4_parts _ = none

-- `none` is `ok = false`; the callers do not read the array then.
unfoldable pub ipv4_bytes : Text → Option (List ℕ)
ipv4_bytes value = ipv4_parts (split_dots value)

unfoldable pub append_record_data : List ℕ → DnsRecord → List ℕ
append_record_data response r =
    if text_eq r.type (codes "A")
    then elim (ipv4_bytes r.value) [ none ↦ response | some parts ↦ response ++ parts ]
    else if text_eq r.type (codes "SRV")
    then write_dns_name (write_u16 (write_u16 (write_u16 response r.priority) r.weight) r.port)
        r.value
    else if text_eq r.type (codes "NS") || text_eq r.type (codes "CNAME")
    then write_dns_name response r.value
    else if text_eq r.type (codes "TXT")
    then response ++ min (length r.value) 255 ∷ take (min (length r.value) 255) r.value
    else response

unfoldable pub matches_question : DnsQuestion → DnsZone → DnsRecord → Bool
matches_question question zone r =
    let record_type = type_code r.type in
    if record_type == 0
    then false
    else (question.type == dns_type_any || question.type == record_type)
      && (question.qclass == dns_class_in || question.qclass == dns_type_any)
      && text_eq question.name (record_fqdn zone r)

unfoldable pub matching_records : DnsQuestion → List DnsZone → List DnsRecord
matching_records question [] = []
matching_records question (zone ∷ zones) =
    keep (matches_question question zone) zone.records ++ matching_records question zones

-- The twelve bytes of a header.
unfoldable pub write_header : ℕ → ℕ → ℕ → ℕ → List ℕ
write_header transaction_id flags questions answers =
    write_u16
      (write_u16
        (write_u16 (write_u16 (write_u16 (write_u16 [] transaction_id) flags) questions) answers) 0)
      0

-- One round of the loop over the answers. The length of the data is written when it is known.
unfoldable pub append_answer : List ℕ → DnsQuestion → DnsRecord → List ℕ
append_answer response question answer =
    let fixed =
      write_u32
        (write_u16 (write_u16 (write_dns_name response question.name) (type_code answer.type))
          dns_class_in)
        answer.ttl in
    let rdlength_offset = length fixed in
    let started = write_u16 fixed 0 in
    let finished = append_record_data started answer in
    let rdata_size = length finished - length started in
    set (set finished rdlength_offset (rdata_size / 256 % 256)) (rdlength_offset + 1)
      (rdata_size % 256)

unfoldable pub append_answers : List ℕ → DnsQuestion → List DnsRecord → List ℕ
append_answers response question [] = response
append_answers response question (answer ∷ answers) =
    append_answers (append_answer response question answer) question answers

-- An empty vector is no reply.
unfoldable pub resolve_dns_query : List ℕ → List DnsZone → Outcome (List ℕ)
resolve_dns_query query zones = if ltb (length query) 12 then ok [] else do
  transaction_id ← read_u16 query 0
  request_flags ← read_u16 query 2
  if dns_opcode request_flags == dns_opcode_update then dns_update_response query zones else do
    parsed ← attempt (parse_question query)
    elim parsed [
      | none ↦ ok (write_header transaction_id 0x8181 0 0)
      | some question ↦ do
        let answers = matching_records question zones
        section ← slice query 12 (question.end_offset - 12)
        let header = write_header transaction_id 0x8180 1 (length answers % 2 ^ 16)
        ok (append_answers (header ++ section) question answers)
    ]

unfoldable pub resolve_dns_tcp_query : List ℕ → List DnsZone → Outcome (List ℕ)
resolve_dns_tcp_query frame zones = if ltb (length frame) 2 then ok [] else do
  expected_size ← read_u16 frame 0
  if expected_size == 0 || ltb (length frame) (expected_size + 2) then ok [] else do
    query ← slice frame 2 expected_size
    response ← resolve_dns_query query zones
    ok (if is_empty response then [] else write_u16 [] (length response % 2 ^ 16) ++ response)
