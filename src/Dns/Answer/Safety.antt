-- ===== src/Dns/Answer/Safety.antt =====
-- The DNS server answers every packet without leaving it, whatever its bytes are.
use endorium_nexus.Dns.Types.{DnsZone, dns_opcode_update}
use endorium_nexus.Dns.Wire.{dns_opcode, parse_question}
use endorium_nexus.Dns.Wire.Safety.{read_u16-Ensures, parse_question-Ensures}
use endorium_nexus.Dns.Update.Safety.{dns_update_response-Ends}
use endorium_nexus.Dns.Answer.{resolve_dns_query, resolve_dns_tcp_query}
use endorium_nexus.Prelude.{
  ltb, ◌==◌, length, Ends, returns, Ensures-bind, Ensures-attempt, Ensures-if, slice-Ensures, ℕ,
  ◌+◌, ◌-◌, ◌||◌, List, arith,
}

-- On any packet and any stored zones the resolver reads no byte outside the packet and ends.
pub resolve_dns_query-Ends :
    (query : List ℕ) (zones : List DnsZone) → Ends (resolve_dns_query query zones)
unfolding resolve_dns_query
resolve_dns_query-Ends query zones =
    Ensures-if (ltb (length query) 12) _ _ (λ _. returns tt)
      λ long. Ensures-bind _ _ (read_u16-Ensures query 0 (ground arith)) λ id _.
        Ensures-bind _ _ (read_u16-Ensures query 2 (ground arith)) λ flags _.
          Ensures-if (dns_opcode flags == dns_opcode_update) _ _
            (λ _. dns_update_response-Ends query zones (ground arith))
            λ _.
              Ensures-attempt (parse_question query) _ _ (parse_question-Ensures query) (returns tt)
                λ question inside.
                  Ensures-bind _ _ (slice-Ensures query 12 (question.end_offset - 12) (omega arith))
                    λ _ _. returns tt

-- On any TCP frame, short ones and wrong lengths included, the resolver reads no byte outside the
-- frame and ends.
pub resolve_dns_tcp_query-Ends :
    (frame : List ℕ) (zones : List DnsZone) → Ends (resolve_dns_tcp_query frame zones)
unfolding resolve_dns_tcp_query
resolve_dns_tcp_query-Ends frame zones =
    Ensures-if (ltb (length frame) 2) _ _ (λ _. returns tt)
      λ framed. Ensures-bind _ _ (read_u16-Ensures frame 0 (ground arith)) λ expected_size _.
        Ensures-if (expected_size == 0 || ltb (length frame) (expected_size + 2)) _ _
          (λ _. returns tt)
          λ whole.
            Ensures-bind _ _ (slice-Ensures frame 2 expected_size (ground arith))
              λ query _. Ensures-bind _ _ (resolve_dns_query-Ends query zones) λ _ _. returns tt
