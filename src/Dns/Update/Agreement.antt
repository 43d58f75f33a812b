-- ===== src/Dns/Update/Agreement.antt =====
-- The reply to an update and the changes that the update makes are two readings of one packet, by
-- two functions: where they agree, and where they do not.
use endorium_nexus.Dns.Types.{
  DnsZone, DnsQuestion, DnsDynamicUpdate, dns_opcode_update, dns_rcode_formerr, dns_rcode_notauth,
}
use endorium_nexus.Dns.Wire.{write_u16, dns_opcode, parse_question}
use endorium_nexus.Dns.Wire.Safety.{EndsInside, read_u16-Ensures, parse_question-Ensures}
use endorium_nexus.Dns.Update.{
  zone_exists_for_update, authorized_update_zone, is_update_zone, update_reply, skip_dns_records,
  dns_update_response, parse_dns_dynamic_update,
}
use endorium_nexus.Dns.Update.Authority.{
  authorized_update_zone-authorized, parse_update_records-AllFiled,
}
use endorium_nexus.Dns.Update.Safety.{skip_dns_records-Ensures}
use endorium_nexus.Prelude.{
  ltb, ◌==◌, if◌then◌else◌, Bool-cases, length, get_elem?, Outcome, ok, Outcome-cases, Ensures,
  returns, Ensures-bind, Ensures-ok, Ensures-ne-fault, Ensures-attempt, Ensures-if, slice-Ensures,
  ℕ, ◌+◌, ◌-◌, ◌≤◌, ◌<◌, ◌≡◌, ap, ◌↔◌, inl, inr, Bool, true, false, not, some, List, [], arith,
}

-- The response code, which fills the low half of the fourth byte.
abbrev pub HasRcode : ℕ → List ℕ → Type 0
HasRcode rcode response = get_elem? response 3 ≡ some rcode

update_reply-HasRcode :
    (id rcode count : ℕ) (echo : List ℕ)
    → rcode < 16
    → HasRcode rcode (update_reply id rcode count echo)
unfolding update_reply write_u16
update_reply-HasRcode id rcode count echo small = ap (λ n. some n) (omega arith)

abbrev expected_rcode : Outcome DnsQuestion → List DnsZone → ℕ
expected_rcode (ok question) zones =
    if is_update_zone question
    then (if zone_exists_for_update question zones then 0 else dns_rcode_notauth)
    else dns_rcode_formerr
expected_rcode _ zones = dns_rcode_formerr

response_rcode :
    (query : List ℕ) (zones : List DnsZone)
    → 12 ≤ length query
    → Ensures
        (HasRcode (expected_rcode (parse_question query) zones))
        (dns_update_response query zones)
unfolding dns_update_response
response_rcode query zones long =
    elim (Outcome-cases (parse_question query)
      (Ensures-ne-fault _ (parse_question-Ensures query))) [
        | inl refused ↦ rw refused (
            Ensures-bind _ _ (read_u16-Ensures query 0 (omega arith))
              λ id _. returns (update_reply-HasRcode id dns_rcode_formerr 0 [] (omega arith)))
        | inr (question, e) ↦ rw e (
            Ensures-bind _ _ (read_u16-Ensures query 0 (omega arith)) λ id _.
              elim (Bool-cases (is_update_zone question)) [
                | inl zone ↦ rw zone (
                    Ensures-bind _ _
                      (slice-Ensures query 12 (question.end_offset - 12) (
                        inside question
                          (Ensures-ok question (rw e at (parse_question-Ensures query)))))
                      λ echo _. returns (
                        update_reply-HasRcode id _ 1 echo
                          (small (zone_exists_for_update question zones))))
                | inr other ↦
                    rw other
                      (returns (update_reply-HasRcode id dns_rcode_formerr 0 [] (omega arith)))
              ])
      ]
  where
    inside :
        (question : DnsQuestion)
        → EndsInside query question
        → 12 + (question.end_offset - 12) ≤ length query
    inside question h = omega arith

    small : (b : Bool) → (if b then 0 else dns_rcode_notauth) < 16
    small true = omega arith
    small false = omega arith

update_authorized :
    (query : List ℕ) (zones : List DnsZone)
    → Ensures
        (λ u.
          u.is_update ≡ true
          → (u.authorized ≡ true) ↔ (expected_rcode (parse_question query) zones ≡ 0))
        (parse_dns_dynamic_update query zones)
unfolding parse_dns_dynamic_update
update_authorized query zones =
    elim (Outcome-cases (parse_question query)
      (Ensures-ne-fault _ (parse_question-Ensures query))) [
        | inl refused ↦ rw refused (
            Ensures-if (ltb (length query) 12) _ _ (λ _. returns (λ no_update. cc))
              λ long. Ensures-bind _ _ (read_u16-Ensures query 2 (ground arith)) λ flags _.
                Ensures-if (not (dns_opcode flags == dns_opcode_update)) _ _
                  (λ _. returns (λ no_update. cc)) (λ _. returns (λ _. ground arith)))
        | inr (question, e) ↦ rw e (
            Ensures-if (ltb (length query) 12) _ _ (λ _. returns (λ no_update. cc))
              λ long. Ensures-bind _ _ (read_u16-Ensures query 2 (ground arith)) λ flags _.
                Ensures-if (not (dns_opcode flags == dns_opcode_update)) _ _
                  (λ _. returns (λ no_update. cc))
                  λ _.
                    let zone = authorized_update_zone question zones in
                    let found = authorized_update_zone-authorized question zones in
                    Ensures-if (not (is_update_zone question)) _ _
                      (λ b. returns (λ _. ground arith))
                      λ b.
                        Ensures-if (not (zone.authorized)) _ _
                          (λ c. returns (λ _. ground (arith, found)))
                          λ c.
                            Ensures-bind _ _ (read_u16-Ensures query 6 (ground arith))
                              λ prerequisites _.
                                Ensures-bind _ _ (read_u16-Ensures query 8 (ground arith))
                                  λ updates _.
                                    Ensures-attempt
                                      (skip_dns_records query question.end_offset prerequisites) _ _
                                      (skip_dns_records-Ensures query question.end_offset
                                        prerequisites)
                                      (returns (λ _. ground (arith, found)))
                                      λ offset _.
                                        Ensures-bind _ _
                                          (parse_update_records-AllFiled query offset updates zone
                                            [] tt)
                                          λ records _. returns (λ _. ground (arith, found)))
      ]

-- A packet of at least 12 bytes that is read as an update is answered with the response code 0 (done) exactly when the
-- sender's zone is authorised, whatever the packet holds behind the zone section.
pub rcode-iff-authorized :
    (query : List ℕ) (zones : List DnsZone) (update : DnsDynamicUpdate) (response : List ℕ)
    → parse_dns_dynamic_update query zones ≡ ok update
    → dns_update_response query zones ≡ ok response
    → update.is_update ≡ true
    → 12 ≤ length query
    → (HasRcode 0 response) ↔ (update.authorized ≡ true)
rcode-iff-authorized query zones update response parsed replied opcode long =
    let code = Ensures-ok response (rw replied at (response_rcode query zones long)) in
    let authorized = Ensures-ok update (rw parsed at (update_authorized query zones)) opcode in
    (λ done. authorized.1 (cc (code, done)), λ a. rw code (ap (λ n. some n) (authorized.0 a)))
