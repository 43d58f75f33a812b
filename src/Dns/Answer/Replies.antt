-- ===== src/Dns/Answer/Replies.antt =====
-- What the server replies to a well-formed question.
use endorium_nexus.Dns.Types.{DnsRecord, DnsZone, DnsQuestion, dns_opcode_update}
use endorium_nexus.Dns.Wire.{lowercase_ascii, read_u16, dns_opcode, read_dns_name, parse_question}
use endorium_nexus.Dns.Wire.RoundTrip.{IsLabel, name_of, wire, trim_trailing_dot-name_of}
use endorium_nexus.Dns.Wire.ReadBack.{read_dns_name-wire}
use endorium_nexus.Dns.Answer.{matching_records, write_header, resolve_dns_query}
use endorium_nexus.Dns.Answer.Layout.{answers_bytes, append_answers-append}
use endorium_nexus.Prelude.{
  ltb, ◌==◌, length, All, length-append, ok, byte_at, byte_at-append, slice, slice-append, Text, ℕ,
  ◌+◌, ◌-◌, ◌*◌, ◌%◌, ◌^◌, ◌≡◌, refl, ap, ◌∙◌, ◌≢◌, false, List, [], ◌∷◌, ◌++◌, append_assoc, arith,
}

pub read_u16-bytes :
    (front back : List ℕ) (high low : ℕ)
    → read_u16 (front ++ high ∷ low ∷ back) (length front) ≡ ok (high * 256 + low)
unfolding read_u16
read_u16-bytes front back high low =
    let second : byte_at (front ++ high ∷ low ∷ back) (length front + 1) ≡ ok low =
      rw (← length-append front (high ∷ []), ← append_assoc front (high ∷ []) (low ∷ back))
        (byte_at-append (front ++ high ∷ []) back low) in
    rw (byte_at-append front (low ∷ back) high, second)

-- A query packet: six header bytes that the server reads, six that it does not, the name in its
-- wire form, the type, the class, and whatever follows the question.
pub record Packet : Type 0 where
  pub id_high : ℕ
  pub id_low : ℕ
  pub flags_high : ℕ
  pub flags_low : ℕ
  pub count_high : ℕ
  pub count_low : ℕ
  pub counts : List ℕ
  pub label : Text
  pub labels : List Text
  pub type_high : ℕ
  pub type_low : ℕ
  pub class_high : ℕ
  pub class_low : ℕ
  pub more : List ℕ

abbrev header_bytes : Packet → List ℕ
header_bytes p =
    p.id_high ∷ p.id_low ∷ p.flags_high ∷ p.flags_low ∷ p.count_high ∷ p.count_low ∷ p.counts

abbrev tail_bytes : Packet → List ℕ
tail_bytes p = p.type_high ∷ p.type_low ∷ p.class_high ∷ p.class_low ∷ []

abbrev pub section_bytes : Packet → List ℕ
section_bytes p = wire (p.label ∷ p.labels) ++ tail_bytes p

abbrev pub packet_bytes : Packet → List ℕ
packet_bytes p = header_bytes p ++ (section_bytes p ++ p.more)

-- A well-formed question that is no update.
pub record IsQuestion (p : Packet) : Type 0 where
  pub counts_length : length p.counts ≡ 6
  pub asks : p.count_high * 256 + p.count_low ≢ 0
  pub no_update_flags : dns_opcode (p.flags_high * 256 + p.flags_low) ≢ dns_opcode_update
  pub good_labels : All IsLabel (p.label ∷ p.labels)

abbrev pub question_of : Packet → DnsQuestion
question_of p = record {
  name = lowercase_ascii (name_of (p.label ∷ p.labels));
  type = p.type_high * 256 + p.type_low;
  qclass = p.class_high * 256 + p.class_low;
  end_offset = 12 + length (section_bytes p);
}

module _ (p : Packet) (good : IsQuestion p) where
  header_size : length (header_bytes p) ≡ 12
  header_size = omega (arith, good.counts_length)

  read_id : read_u16 (packet_bytes p) 0 ≡ ok (p.id_high * 256 + p.id_low)
  unfolding read_u16 byte_at
  read_id = refl

  read_flags : read_u16 (packet_bytes p) 2 ≡ ok (p.flags_high * 256 + p.flags_low)
  unfolding read_u16 byte_at
  read_flags = refl

  read_count : read_u16 (packet_bytes p) 4 ≡ ok (p.count_high * 256 + p.count_low)
  unfolding read_u16 byte_at
  read_count = refl

  read_name :
      read_dns_name (packet_bytes p) 12
      ≡ ok (name_of (p.label ∷ p.labels), 12 + length (wire (p.label ∷ p.labels)))
  read_name =
      let back : List ℕ = tail_bytes p ++ p.more in
      let regroup : packet_bytes p ≡ header_bytes p ++ (wire (p.label ∷ p.labels) ++ back) =
        simp append_assoc in
      rw (regroup, ← header_size)
        (read_dns_name-wire p.label p.labels (header_bytes p) back good.good_labels)

  read_type :
      read_u16 (packet_bytes p) (12 + length (wire (p.label ∷ p.labels))) ≡ ok (question_of p).type
  read_type =
      let front : List ℕ = header_bytes p ++ wire (p.label ∷ p.labels) in
      let at : length front ≡ 12 + length (wire (p.label ∷ p.labels)) =
        omega (arith, length-append (header_bytes p) (wire (p.label ∷ p.labels)), header_size) in
      let regroup : packet_bytes p
          ≡ front ++ p.type_high ∷ p.type_low ∷ p.class_high ∷ p.class_low ∷ p.more =
        simp append_assoc in
      rw (regroup, ← at)
        (read_u16-bytes front (p.class_high ∷ p.class_low ∷ p.more) p.type_high p.type_low)

  read_class :
      read_u16 (packet_bytes p) (12 + length (wire (p.label ∷ p.labels)) + 2)
      ≡ ok (question_of p).qclass
  read_class =
      let front : List ℕ =
        header_bytes p ++ (wire (p.label ∷ p.labels) ++ p.type_high ∷ p.type_low ∷ []) in
      let at : length front ≡ 12 + length (wire (p.label ∷ p.labels)) + 2 = omega (
        arith,
        length-append (header_bytes p) (wire (p.label ∷ p.labels) ++ p.type_high ∷ p.type_low ∷ []),
        length-append (wire (p.label ∷ p.labels)) (p.type_high ∷ p.type_low ∷ []),
        header_size,
      ) in
      let regroup : packet_bytes p ≡ front ++ p.class_high ∷ p.class_low ∷ p.more =
        simp append_assoc in
      rw (regroup, ← at) (read_u16-bytes front p.more p.class_high p.class_low)

  packet_length :
      length (packet_bytes p) ≡ 12 + length (wire (p.label ∷ p.labels)) + 4 + length p.more
  packet_length = omega (
    arith,
    length-append (header_bytes p) (section_bytes p ++ p.more),
    length-append (section_bytes p) p.more,
    length-append (wire (p.label ∷ p.labels)) (tail_bytes p),
    header_size,
  )

  parse_question-packet : parse_question (packet_bytes p) ≡ ok (question_of p)
  unfolding parse_question
  parse_question-packet =
      let long : ltb (length (packet_bytes p)) 12 ≡ false = ground (arith, packet_length) in
      let asks : (p.count_high * 256 + p.count_low == 0) ≡ false = ground (arith, good.asks) in
      let room : ltb (length (packet_bytes p)) (12 + length (wire (p.label ∷ p.labels)) + 4)
          ≡ false =
        ground (arith, packet_length) in
      rw (long, read_count, asks, read_name, room, read_type, read_class)
        (ap
            (λ (n : Text). ok (record {
              name = lowercase_ascii n;
              type = p.type_high * 256 + p.type_low;
              qclass = p.class_high * 256 + p.class_low;
              end_offset = 12 + length (wire (p.label ∷ p.labels)) + 4;
            }))
            (trim_trailing_dot-name_of p.label p.labels good.good_labels)
          ∙ ap
              (λ (e : ℕ). ok (record {
                name = lowercase_ascii (name_of (p.label ∷ p.labels));
                type = p.type_high * 256 + p.type_low;
                qclass = p.class_high * 256 + p.class_low;
                end_offset = e;
              }))
              (omega (arith, length-append (wire (p.label ∷ p.labels)) (tail_bytes p))))

  section_slice : slice (packet_bytes p) 12 ((question_of p).end_offset - 12) ≡ ok (section_bytes p)
  section_slice =
      let size : 12 + length (section_bytes p) - 12 ≡ length (section_bytes p) = omega arith in
      rw (size, ← header_size) (slice-append (header_bytes p) (section_bytes p) p.more)

  -- The server answers a well-formed question, in any letter case, with one message: the sender's
  -- transaction id, the flags 0x8180, one question, the number of matching records, the question
  -- section byte for byte, and an answer for each matching record in the order of the zones.
  pub resolve_dns_query-packet :
      (zones : List DnsZone)
      → (let answers = matching_records (question_of p) zones in
          resolve_dns_query (packet_bytes p) zones
          ≡ ok (
              write_header (p.id_high * 256 + p.id_low) 0x8180 1 (length answers % 2 ^ 16)
              ++ (section_bytes p ++ answers_bytes (question_of p) answers)))
  unfolding resolve_dns_query
  resolve_dns_query-packet zones =
      let answers : List DnsRecord = matching_records (question_of p) zones in
      let long : ltb (length (packet_bytes p)) 12 ≡ false = ground (arith, packet_length) in
      let plain : (dns_opcode (p.flags_high * 256 + p.flags_low) == dns_opcode_update) ≡ false =
        ground (arith, good.no_update_flags) in
      let header : List ℕ =
        write_header (p.id_high * 256 + p.id_low) 0x8180 1 (length answers % 2 ^ 16) in
      rw (long, read_id, read_flags, plain, parse_question-packet, section_slice)
        (ap (λ (l : List ℕ). ok l)
          (append_answers-append (header ++ section_bytes p) (question_of p) answers
            ∙ append_assoc header (section_bytes p) (answers_bytes (question_of p) answers)))
