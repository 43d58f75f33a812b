-- ===== src/Dns/Answer/Layout.antt =====
-- The layout of the answer section.
use native.Mathlib.Numerals.{add-one}
use endorium_nexus.Dns.Types.{DnsRecord, DnsQuestion, dns_class_in}
use endorium_nexus.Dns.Wire.{write_u16, write_u32, write_dns_name}
use endorium_nexus.Dns.Wire.Names.{write_dns_name-append}
use endorium_nexus.Dns.Answer.{
  type_code, ipv4_bytes, append_record_data, append_answer, append_answers,
}
use endorium_nexus.Prelude.{
  Bool-cases, length, set, length-append, codes, text_eq, ℕ, suc, ◌+◌, ◌-◌, ◌/◌, ◌%◌, ◌≡◌, refl,
  sym, ap, ◌∙◌, inl, inr, ◌||◌, Option, none, some, List, [], ◌∷◌, ◌++◌, append_assoc, append-nil,
  arith,
}

pub append_record_data-append :
    (response : List ℕ) (r : DnsRecord)
    → append_record_data response r ≡ response ++ append_record_data [] r
unfolding append_record_data write_u16
append_record_data-append response r =
    let numbers : List ℕ = write_u16 (write_u16 (write_u16 [] r.priority) r.weight) r.port in
    elim (Bool-cases (text_eq r.type (codes "A"))) [
      | inl a ↦ rw a (address (ipv4_bytes r.value))
      | inr not_a ↦ rw not_a (elim (Bool-cases (text_eq r.type (codes "SRV"))) [
        | inl srv ↦ rw srv (
            ap (λ t. write_dns_name t r.value) (regroup response (r.priority) (r.weight) (r.port))
            ∙ write_dns_name-append (response ++ numbers) r.value
            ∙ append_assoc response numbers (write_dns_name [] r.value)
            ∙ ap (λ t. response ++ t) (sym (write_dns_name-append numbers r.value)))
        | inr not_srv ↦
            rw not_srv
              (elim (Bool-cases (text_eq r.type (codes "NS") || text_eq r.type (codes "CNAME"))) [
                | inl host ↦ rw host (write_dns_name-append response r.value)
                | inr other ↦ rw other (elim (Bool-cases (text_eq r.type (codes "TXT"))) [
                  | inl txt ↦ rw txt
                  | inr none_of_them ↦ rw none_of_them (sym (append-nil response))
                ])
              ])
      ])
    ]
  where
    regroup :
        (xs : List ℕ) (a b c : ℕ)
        → write_u16 (write_u16 (write_u16 xs a) b) c
          ≡ xs ++ write_u16 (write_u16 (write_u16 [] a) b) c
    regroup xs a b c = simp append_assoc

    address :
        (o : Option (List ℕ))
        → ◌≡◌ {A = List ℕ}
            (elim o [ none ↦ response | some parts ↦ response ++ parts ])
            (response ++ elim o [ none ↦ [] | some parts ↦ parts ])
    address none = sym (append-nil response)
    address (some parts) = refl

-- The bytes of one answer: its name, type, class, TTL, the length of its data, and the data.
abbrev pub answer_bytes : DnsQuestion → DnsRecord → List ℕ
answer_bytes question answer =
    write_dns_name [] question.name
    ++ (write_u16 [] (type_code answer.type)
        ++ (write_u16 [] dns_class_in
            ++ (write_u32 [] answer.ttl
                ++ (write_u16 [] (length (append_record_data [] answer))
                    ++ append_record_data [] answer))))

-- Writing two bytes that were reserved.
patch :
    (front back : List ℕ) (x y v w : ℕ)
    → set (set (front ++ x ∷ y ∷ back) (length front) v) (suc (length front)) w
      ≡ front ++ v ∷ w ∷ back
patch [] back x y v w = refl
patch (b ∷ front) back x y v w = ap (λ t. b ∷ t) (patch front back x y v w)

size_behind : (front back : List ℕ) → length (front ++ back) - length front ≡ length back
size_behind front back = omega (arith, length-append front back)

-- The length that is written last is that of the data.
write_size :
    (fixed data_bytes : List ℕ)
    → (let finished = write_u16 fixed 0 ++ data_bytes in
        let size = length finished - length (write_u16 fixed 0) in
        set (set finished (length fixed) (size / 256 % 256)) (length fixed + 1) (size % 256))
      ≡ fixed ++ (write_u16 [] (length data_bytes) ++ data_bytes)
unfolding write_u16
write_size fixed data_bytes =
    rw (size_behind (fixed ++ 0 ∷ 0 ∷ []) data_bytes, append_assoc, add-one)
      (patch fixed data_bytes 0 0 _ _)

pub append_answer-append :
    (response : List ℕ) (question : DnsQuestion) (answer : DnsRecord)
    → append_answer response question answer ≡ response ++ answer_bytes question answer
unfolding append_answer
append_answer-append response question answer = rw (append_record_data-append, write_size) (regroup)
  where
    regroup :
        write_u32
            (write_u16
              (write_u16 (write_dns_name response question.name) (type_code answer.type))
              dns_class_in)
            answer.ttl
          ++ (write_u16 [] (length (append_record_data [] answer)) ++ append_record_data [] answer)
        ≡ response ++ answer_bytes question answer
    regroup =
        rw (write_dns_name-append response question.name)
          (unfold write_u16 write_u32 in simp append_assoc)

abbrev pub answers_bytes : DnsQuestion → List DnsRecord → List ℕ
answers_bytes question [] = []
answers_bytes question (answer ∷ answers) =
    answer_bytes question answer ++ answers_bytes question answers

pub append_answers-append :
    (response : List ℕ) (question : DnsQuestion) (answers : List DnsRecord)
    → append_answers response question answers ≡ response ++ answers_bytes question answers
unfolding append_answers
append_answers-append response question [] = sym (append-nil response)
append_answers-append response question (answer ∷ answers) =
    append_answers-append (append_answer response question answer) question answers
    ∙ rw append_answer-append
        (append_assoc response (answer_bytes question answer) (answers_bytes question answers))
