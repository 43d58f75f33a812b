-- ===== src/Dns/Answer/Walk.antt =====
-- The program's own reader of record sections, on the answer sections that the program writes.
use endorium_nexus.Dns.Types.{DnsRecord, DnsQuestion, dns_class_in}
use endorium_nexus.Dns.Wire.{read_u16, write_u16, write_u32, read_dns_name}
use endorium_nexus.Dns.Wire.RoundTrip.{IsLabel, name_of, wire, write_dns_name-wire}
use endorium_nexus.Dns.Wire.ReadBack.{read_dns_name-wire}
use endorium_nexus.Dns.Update.{skip_dns_records}
use endorium_nexus.Dns.Answer.{type_code, append_record_data, append_answers}
use endorium_nexus.Dns.Answer.Layout.{answer_bytes, answers_bytes, append_answers-append}
use endorium_nexus.Dns.Answer.Replies.{read_u16-bytes}
use endorium_nexus.Prelude.{
  length, All, length-append, ok, Text, codes, text_eq, ℕ, suc, ◌+◌, ◌/◌, ◌%◌, ◌^◌, ◌≤◌, ◌<◌, ◌≡◌,
  refl, sym, ap, ◌∙◌, false, List, [], ◌∷◌, ◌++◌, append_assoc, append-nil, arith,
}

read_u16-written :
    (front back : List ℕ) (n : ℕ)
    → n < 2 ^ 16
    → read_u16 (front ++ (write_u16 [] n ++ back)) (length front) ≡ ok n
unfolding write_u16
read_u16-written front back n h =
    read_u16-bytes front back (n / 256 % 256) (n % 256) ∙ ap (λ v. ok v) (omega arith)

abbrev fixed_bytes : DnsRecord → List ℕ
fixed_bytes a = write_u16 [] (type_code a.type) ++ (write_u16 [] dns_class_in ++ write_u32 [] a.ttl)

length-fixed_bytes : (a : DnsRecord) → length (fixed_bytes a) ≡ 8
unfolding write_u16 write_u32
length-fixed_bytes a = refl

length-write_u16 : (n : ℕ) → length (write_u16 [] n) ≡ 2
unfolding write_u16
length-write_u16 n = refl

-- One round over what one answer wrote.
skip_step :
    (bytes : List ℕ) (offset after size count : ℕ) (name : Text)
    → read_dns_name bytes offset ≡ ok (name, after)
    → after + 10 ≤ length bytes
    → read_u16 bytes (after + 8) ≡ ok size
    → after + 10 + size ≤ length bytes
    → skip_dns_records bytes offset (suc count) ≡ skip_dns_records bytes (after + 10 + size) count
unfolding skip_dns_records
skip_step bytes offset after size count name named room sized fits = ground arith

skip_none : (bytes : List ℕ) (offset : ℕ) → skip_dns_records bytes offset 0 ≡ ok offset
unfolding skip_dns_records
skip_none bytes offset = refl

module _ (question : DnsQuestion) (label : Text) (labels : List Text)
    (named : question.name ≡ name_of (label ∷ labels)) (good : All IsLabel (label ∷ labels))
    (not_at : text_eq (name_of (label ∷ labels)) (codes "@") ≡ false) where
  abbrev name_bytes : List ℕ
  name_bytes = wire (label ∷ labels)

  answer_bytes-wire :
      (a : DnsRecord)
      → answer_bytes question a
        ≡ name_bytes
          ++ (fixed_bytes a
              ++ (write_u16 [] (length (append_record_data [] a)) ++ append_record_data [] a))
  answer_bytes-wire a = rw (named, write_dns_name-wire label labels good not_at) (simp append_assoc)

  skip_answer :
      (front back : List ℕ) (a : DnsRecord) (count : ℕ)
      → length (append_record_data [] a) < 2 ^ 16
      → skip_dns_records (front ++ (answer_bytes question a ++ back)) (length front) (suc count)
        ≡ skip_dns_records
            (front ++ (answer_bytes question a ++ back))
            (length (front ++ answer_bytes question a))
            count
  skip_answer front back a count small =
      let rdata : List ℕ = append_record_data [] a in
      let size : List ℕ = write_u16 [] (length rdata) in
      let behind_name : List ℕ = fixed_bytes a ++ (size ++ (rdata ++ back)) in
      let before_size : List ℕ = front ++ (name_bytes ++ fixed_bytes a) in
      let bytes : List ℕ = front ++ (answer_bytes question a ++ back) in
      let after : ℕ = length front + length name_bytes in
      let as_name : bytes ≡ front ++ (name_bytes ++ behind_name) =
        rw (answer_bytes-wire a) (simp append_assoc) in
      let as_size : bytes ≡ before_size ++ (size ++ (rdata ++ back)) =
        rw (answer_bytes-wire a) (simp append_assoc) in
      let size_at : length before_size ≡ after + 8 = omega (
        arith,
        length-append front (name_bytes ++ fixed_bytes a),
        length-append name_bytes (fixed_bytes a),
        length-fixed_bytes a,
      ) in
      let total : length bytes ≡ after + 10 + length rdata + length back = omega (
        arith,
        ap (λ (t : List ℕ). length t) as_size,
        length-append before_size (size ++ (rdata ++ back)),
        length-append size (rdata ++ back),
        length-append rdata back,
        length-write_u16 (length rdata),
        size_at,
      ) in
      let end : after + 10 + length rdata ≡ length (front ++ answer_bytes question a) = omega (
        arith,
        total,
        length-append front (answer_bytes question a ++ back),
        length-append (answer_bytes question a) back,
        length-append front (answer_bytes question a),
      ) in
      skip_step bytes (length front) after (length rdata) count (name_of (label ∷ labels))
        (rw as_name (read_dns_name-wire label labels front behind_name good)) (omega (arith, total))
        (rw (as_size, ← size_at)
          (read_u16-written before_size (rdata ++ back) (length rdata) small))
        (omega (arith, total))
      ∙ ap (λ n. skip_dns_records bytes n count) end

  skip_answers :
      (answers : List DnsRecord) (front : List ℕ)
      → All (λ a. length (append_record_data [] a) < 2 ^ 16) answers
      → skip_dns_records (front ++ answers_bytes question answers) (length front) (length answers)
        ≡ ok (length (front ++ answers_bytes question answers))
  skip_answers [] front h = skip_none (front ++ []) (length front) ∙ rw append-nil
  skip_answers (a ∷ answers) front (small, h) =
      let moved : List ℕ = front ++ answer_bytes question a in
      let regroup : front ++ (answer_bytes question a ++ answers_bytes question answers)
          ≡ moved ++ answers_bytes question answers =
        sym (append_assoc front (answer_bytes question a) (answers_bytes question answers)) in
      skip_answer front (answers_bytes question answers) a (length answers) small
      ∙ rw regroup (skip_answers answers moved h)

  -- Walking from behind the question over as many records as were answered ends exactly at the end
  -- of the message: every answer's announced data length is its real one. The question's name is
  -- spelled by good labels and is not `@`, and no record's data reaches 65536 bytes.
  pub skip_dns_records-append_answers :
      (answers : List DnsRecord) (front : List ℕ)
      → All (λ a. length (append_record_data [] a) < 2 ^ 16) answers
      → skip_dns_records (append_answers front question answers) (length front) (length answers)
        ≡ ok (length (append_answers front question answers))
  skip_dns_records-append_answers answers front small =
      rw (append_answers-append front question answers) (skip_answers answers front small)
