-- ===== src/Ldap/Ber/RoundTrip.antt =====
-- What the LDAP writers write, the LDAP readers read back.
use endorium_nexus.Ldap.Ber.{append_length, tlv, append_tlv, read_length_bytes, read_length}
use endorium_nexus.Prelude.{
  ltb, leb, ltb→lt, Bool-cases, length, length-append, ok, byte_at, byte_at-append, byte_at-behind,
  ℕ, ◌+◌, ◌*◌, ◌/◌, ◌%◌, ◌^◌, ◌≤◌, ◌<◌, ◌≡◌, refl, ap, ◌∙◌, inl, inr, false, List, [], ◌∷◌, ◌++◌,
  append_assoc, arith,
}

-- The bytes of a length.
abbrev pub size_bytes : ℕ → List ℕ
size_bytes size = append_length [] size

append_length-append :
    (output : List ℕ) (size : ℕ) → append_length output size ≡ output ++ size_bytes size
unfolding append_length
append_length-append output size = ground arith

pub append_tlv-append :
    (output : List ℕ) (tag : ℕ) (payload : List ℕ)
    → append_tlv output tag payload ≡ output ++ tlv tag payload
unfolding append_tlv tlv
append_tlv-append output tag payload =
    rw
      (
        append_length-append (output ++ tag ∷ []) (length payload),
        append_length-append (tag ∷ []) (length payload),
      )
      (simp append_assoc)

pub tlv_lem :
    (tag : ℕ) (payload : List ℕ) → tlv tag payload ≡ tag ∷ (size_bytes (length payload) ++ payload)
unfolding tlv
tlv_lem tag payload = rw (append_length-append (tag ∷ []) (length payload))

module _ (input : List ℕ) (offset : ℕ) where
  read_short :
      (first : ℕ)
      → byte_at input offset ≡ ok first
      → offset < length input
      → first < 128
      → read_length input offset ≡ ok (first, offset + 1)
  unfolding read_length
  read_short first at inside small = ground arith

  read_one :
      (a : ℕ)
      → byte_at input offset ≡ ok 0x81
      → byte_at input (offset + 1) ≡ ok a
      → offset + 2 ≤ length input
      → read_length input offset ≡ ok (a, offset + 2)
  unfolding read_length read_length_bytes
  read_one a at next inside =
      let some_byte : leb (length input) offset ≡ false = ground arith in
      let room : ltb (length input) (offset + 1 + 1) ≡ false = ground arith in
      rw (some_byte, at, room, next) (ground arith)

  read_two :
      (a b : ℕ)
      → byte_at input offset ≡ ok 0x82
      → byte_at input (offset + 1) ≡ ok a
      → byte_at input (offset + 2) ≡ ok b
      → offset + 3 ≤ length input
      → read_length input offset ≡ ok (a * 256 + b, offset + 3)
  unfolding read_length read_length_bytes
  read_two a b at next last inside =
      let some_byte : leb (length input) offset ≡ false = ground arith in
      let room : ltb (length input) (offset + 1 + 2) ≡ false = ground arith in
      let last_byte : byte_at input (offset + 1 + 1) ≡ ok b =
        ap (λ i. byte_at input i) (omega arith) ∙ last in
      rw (some_byte, at, room, next, last_byte) (ground arith)

module _ (front back : List ℕ) where
  -- A length below 65536 is read back, and the offset moves behind it.
  pub read_length-size_bytes :
      (size : ℕ)
      → size < 2 ^ 16
      → read_length (front ++ (size_bytes size ++ back)) (length front)
        ≡ ok (size, length front + length (size_bytes size))
  unfolding append_length
  read_length-size_bytes size small = elim (Bool-cases (ltb size 0x80)) [
    | inl short ↦ rw short (
        read_short (front ++ size ∷ back) (length front) size (byte_at-append front back size)
          (omega (arith, length-append front (size ∷ back))) (ltb→lt _ _ short))
    | inr longer ↦ rw longer (elim (Bool-cases (leb size 0xff)) [
      | inl one ↦ rw one (
          read_one (front ++ 0x81 ∷ size ∷ back) (length front) size
            (byte_at-append front (size ∷ back) 0x81)
            (byte_at-behind front (0x81 ∷ []) back size 1 refl)
            (omega (arith, length-append front (0x81 ∷ size ∷ back))))
      | inr two ↦ rw two (words two)
    ])
  ]
    where
      high : ℕ
      high = size / 256 % 256

      low : ℕ
      low = size % 256

      words :
          leb size 0xff ≡ false
          → read_length (front ++ 0x82 ∷ high ∷ low ∷ back) (length front)
            ≡ ok (size, length front + 3)
      words two =
          read_two (front ++ 0x82 ∷ high ∷ low ∷ back) (length front) high low
            (byte_at-append front (high ∷ low ∷ back) 0x82)
            (byte_at-behind front (0x82 ∷ []) (low ∷ back) high 1 refl)
            (byte_at-behind front (0x82 ∷ high ∷ []) back low 2 refl)
            (omega (arith, length-append front (0x82 ∷ high ∷ low ∷ back)))
          ∙ ap (λ (n : ℕ). ok (n, length front + 3)) (omega arith)

  -- A length of 65536 or more is written in two bytes all the same: what is read back is its
  -- remainder modulo 65536.
  pub read_length_wraps :
      (size : ℕ)
      → 2 ^ 16 ≤ size
      → read_length (front ++ (size_bytes size ++ back)) (length front)
        ≡ ok (size % 2 ^ 16, length front + 3)
  unfolding append_length
  read_length_wraps size large =
      let not_short : ltb size 0x80 ≡ false = ground arith in
      let not_one : leb size 0xff ≡ false = ground arith in
      rw (not_short, not_one) (wrapped (size / 256 % 256) (size % 256) (omega arith))
    where
      wrapped :
          (high low : ℕ)
          → high * 256 + low ≡ size % 2 ^ 16
          → read_length (front ++ 0x82 ∷ high ∷ low ∷ back) (length front)
            ≡ ok (size % 2 ^ 16, length front + 3)
      wrapped high low e =
          read_two (front ++ 0x82 ∷ high ∷ low ∷ back) (length front) high low
            (byte_at-append front (high ∷ low ∷ back) 0x82)
            (byte_at-behind front (0x82 ∷ []) (low ∷ back) high 1 refl)
            (byte_at-behind front (0x82 ∷ high ∷ []) back low 2 refl)
            (omega (arith, length-append front (0x82 ∷ high ∷ low ∷ back)))
          ∙ ap (λ (n : ℕ). ok (n, length front + 3)) e
