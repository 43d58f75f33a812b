-- ===== src/Ldap/Ber/Messages.antt =====
-- LDAP messages: the header that is written is the header that is read.
use endorium_nexus.Ldap.Ber.{
  LdapNode, tlv, significant_bytes, with_sign_byte, integer_value, read_length, read_node,
  read_integer, string_from_node,
}
use endorium_nexus.Ldap.Ber.RoundTrip.{size_bytes, tlv_lem, read_length-size_bytes}
use endorium_nexus.Prelude.{
  length, length-append, ok, byte_at, byte_at-append, slice-append, ℕ, suc, ◌+◌, ◌*◌, ◌%◌, ◌^◌, ◌≤◌,
  ◌<◌, ◌≡◌, refl, sym, ◌∙◌, List, [], ◌∷◌, ◌++◌, append_assoc, arith,
}

-- The node of a tag and a payload that stand behind `front`.
abbrev pub node_at : List ℕ → ℕ → List ℕ → LdapNode
node_at front tag payload = record {
  tag = tag;
  content_offset = length front + 1 + length (size_bytes (length payload));
  content_length = length payload;
  next_offset = length front + 1 + length (size_bytes (length payload)) + length payload;
}

pub length-tlv :
    (tag : ℕ) (payload : List ℕ)
    → length (tlv tag payload) ≡ 1 + length (size_bytes (length payload)) + length payload
length-tlv tag payload =
    rw (tlv_lem tag payload) (omega (arith, length-append (size_bytes (length payload)) payload))

node_step :
    (input : List ℕ) (offset limit tag size content : ℕ)
    → byte_at input offset ≡ ok tag
    → read_length input (offset + 1) ≡ ok (size, content)
    → offset < content
    → content + size ≤ limit
    → content + size ≤ length input
    → read_node input offset limit
      ≡ ok (record {
        tag = tag;
        content_offset = content;
        content_length = size;
        next_offset = content + size;
      })
unfolding read_node
node_step input offset limit tag size content at sized behind fits inside = ground arith

module _ (front back : List ℕ) (tag : ℕ) (payload : List ℕ) (small : length payload < 2 ^ 16) where
  pub read_node-tlv :
      (limit : ℕ)
      → length front + length (tlv tag payload) ≤ limit
      → read_node (front ++ (tlv tag payload ++ back)) (length front) limit
        ≡ ok (node_at front tag payload)
  read_node-tlv limit fits =
      let size : List ℕ = size_bytes (length payload) in
      let input : List ℕ = front ++ (tlv tag payload ++ back) in
      let flat : input ≡ front ++ tag ∷ (size ++ (payload ++ back)) =
        rw (tlv_lem tag payload) (simp append_assoc) in
      let split : input ≡ (front ++ tag ∷ []) ++ (size ++ (payload ++ back)) =
        flat ∙ sym (append_assoc front (tag ∷ []) (size ++ (payload ++ back))) in
      let at : length (front ++ tag ∷ []) ≡ length front + 1 = length-append front (tag ∷ []) in
      let sized : read_length input (length front + 1)
          ≡ ok (length payload, length front + 1 + length size) =
        rw (split, ← at)
          (read_length-size_bytes (front ++ tag ∷ []) (payload ++ back) (length payload) small) in
      node_step input (length front) limit tag (length payload) (length front + 1 + length size)
        (rw flat (byte_at-append front (size ++ (payload ++ back)) tag)) sized (omega arith)
        (omega (arith, length-tlv tag payload))
        (omega (
          arith,
          length-tlv tag payload,
          length-append front (tlv tag payload ++ back),
          length-append (tlv tag payload) back,
        ))

  pub next_offset-node_at :
      (node_at front tag payload).next_offset ≡ length (front ++ tlv tag payload)
  next_offset-node_at = omega (arith, length-append front (tlv tag payload), length-tlv tag payload)

  pub split-payload :
      (front ++ (tlv tag payload ++ back))
      ≡ (front ++ tag ∷ size_bytes (length payload)) ++ (payload ++ back)
  split-payload = rw (tlv_lem tag payload) (simp append_assoc)

  pub string_from_node-tlv :
      string_from_node (front ++ (tlv tag payload ++ back)) (node_at front tag payload) ≡ ok payload
  unfolding string_from_node
  string_from_node-tlv =
      let head : List ℕ = front ++ tag ∷ size_bytes (length payload) in
      let at : length head ≡ length front + 1 + length (size_bytes (length payload)) =
        omega (arith, length-append front (tag ∷ size_bytes (length payload))) in
      rw (split-payload, ← at) (slice-append head payload back)

-- The number that the bytes spell, modulo 2 ^ 32.
abbrev pub number : ℕ → List ℕ → ℕ
number value [] = value
number value (byte ∷ bytes) = number ((value * 256 + byte) % 2 ^ 32) bytes

read_integer_end :
    (input : List ℕ) (offset value : ℕ) → read_integer input 0 offset value ≡ ok value
unfolding read_integer
read_integer_end input offset value = refl

read_integer_step :
    (input : List ℕ) (count offset value byte : ℕ)
    → byte_at input offset ≡ ok byte
    → read_integer input (suc count) offset value
      ≡ read_integer input count (offset + 1) ((value * 256 + byte) % 2 ^ 32)
unfolding read_integer
read_integer_step input count offset value byte at = rw at

pub read_integer-number :
    (bytes front back : List ℕ) (value : ℕ)
    → read_integer (front ++ (bytes ++ back)) (length bytes) (length front) value
      ≡ ok (number value bytes)
read_integer-number [] front back value = read_integer_end (front ++ back) (length front) value
read_integer-number (byte ∷ bytes) front back value =
    read_integer_step (front ++ byte ∷ (bytes ++ back)) (length bytes) (length front) value byte
      (byte_at-append front (bytes ++ back) byte)
    ∙ rw (← append_assoc front (byte ∷ []) (bytes ++ back), ← length-append front (byte ∷ []))
        (read_integer-number bytes (front ++ byte ∷ []) back ((value * 256 + byte) % 2 ^ 32))

pub number-integer_value : (value : ℕ) → value < 2 ^ 32 → number 0 (integer_value value) ≡ value
unfolding integer_value with_sign_byte significant_bytes
number-integer_value value h = ground arith
