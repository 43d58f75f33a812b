-- ===== src/Ldap/Ber/Header.antt =====
-- LDAP messages: the header that is written is the header that is read.
use endorium_nexus.Ldap.Ber.{
  LdapNode, tlv, integer_value, ldap_message, read_node, read_integer, string_from_node,
  read_message_header,
}
use endorium_nexus.Ldap.Ber.RoundTrip.{size_bytes, append_tlv-append}
use endorium_nexus.Ldap.Ber.Messages.{
  node_at, length-tlv, read_node-tlv, next_offset-node_at, split-payload, string_from_node-tlv,
  read_integer-number, number-integer_value,
}
use endorium_nexus.Prelude.{
  ◌==◌, length, length-append, ok, ℕ, ◌+◌, ◌^◌, ◌<◌, ◌≡◌, refl, sym, ap, ◌∙◌, true, List, [], ◌∷◌,
  ◌++◌, append_assoc, arith,
}

header_step :
    (input : List ℕ) (m i o : LdapNode) (id : ℕ)
    → read_node input 0 (length input) ≡ ok m
    → m.tag ≡ 0x30
    → read_node input m.content_offset (m.content_offset + m.content_length) ≡ ok i
    → i.tag ≡ 0x02
    → read_integer input i.content_length i.content_offset 0 ≡ ok id
    → read_node input i.next_offset (m.content_offset + m.content_length) ≡ ok o
    → read_message_header input ≡ ok (id, o.tag, o)
unfolding read_message_header
header_step input m i o id read_m tag_m read_i tag_i read_id read_o =
    let is_sequence : (m.tag == 0x30) ≡ true = ground arith in
    let is_integer : (i.tag == 0x02) ≡ true = ground arith in
    rw (read_m, is_sequence, read_i, is_integer, read_id, read_o)

abbrev pub body : ℕ → ℕ → List ℕ → List ℕ
body message_id op_tag op_payload = tlv 0x02 (integer_value message_id) ++ tlv op_tag op_payload

ldap_message-body :
    (message_id op_tag : ℕ) (op_payload : List ℕ)
    → ldap_message message_id op_tag op_payload ≡ tlv 0x30 (body message_id op_tag op_payload)
unfolding ldap_message
ldap_message-body message_id op_tag op_payload = rw (
  append_tlv-append [] 0x02 (integer_value message_id),
  append_tlv-append (tlv 0x02 (integer_value message_id)) op_tag op_payload,
)

module _ (id op : ℕ) (payload back : List ℕ) (id_fits : id < 2 ^ 32)
    (small : length (body id op payload) < 2 ^ 16) where
  abbrev number_bytes : List ℕ
  number_bytes = integer_value id

  abbrev whole : List ℕ
  whole = body id op payload

  abbrev head : List ℕ
  head = 0x30 ∷ size_bytes (length whole)

  abbrev input : List ℕ
  input = tlv 0x30 whole ++ back

  abbrev message : LdapNode
  message = node_at [] 0x30 whole

  head_size : length head ≡ message.content_offset
  head_size = omega arith

  sizes : length whole ≡ length (tlv 0x02 number_bytes) + length (tlv op payload)
  sizes = length-append (tlv 0x02 number_bytes) (tlv op payload)

  number_small : length number_bytes < 2 ^ 16
  number_small = omega (arith, sizes, length-tlv 0x02 number_bytes)

  payload_small : length payload < 2 ^ 16
  payload_small = omega (arith, sizes, length-tlv op payload)

  as_head : input ≡ head ++ (tlv 0x02 number_bytes ++ (tlv op payload ++ back))
  as_head = split-payload [] back 0x30 whole small ∙ simp append_assoc

  read_outer : read_node input 0 (length input) ≡ ok message
  read_outer =
      read_node-tlv [] back 0x30 whole small (length input)
        (omega (arith, length-append (tlv 0x30 whole) back))

  read_id_node :
      read_node input message.content_offset (message.content_offset + message.content_length)
      ≡ ok (node_at head 0x02 number_bytes)
  read_id_node =
      rw (as_head, ← head_size)
        (read_node-tlv head (tlv op payload ++ back) 0x02 number_bytes number_small
          (length head + length whole) (omega (arith, sizes)))

  read_id :
      read_integer input (length number_bytes) (node_at head 0x02 number_bytes).content_offset 0
      ≡ ok id
  read_id =
      let front : List ℕ = head ++ 0x02 ∷ size_bytes (length number_bytes) in
      let at : length front ≡ (node_at head 0x02 number_bytes).content_offset =
        omega (arith, length-append head (0x02 ∷ size_bytes (length number_bytes))) in
      rw (as_head, split-payload head (tlv op payload ++ back) 0x02 number_bytes number_small, ← at)
        (read_integer-number number_bytes front (tlv op payload ++ back) 0
          ∙ ap (λ n. ok n) (number-integer_value id id_fits))

  abbrev pub op_node : LdapNode
  op_node = node_at (head ++ tlv 0x02 number_bytes) op payload

  as_op : input ≡ (head ++ tlv 0x02 number_bytes) ++ (tlv op payload ++ back)
  as_op = as_head ∙ sym (append_assoc head (tlv 0x02 number_bytes) (tlv op payload ++ back))

  read_op :
      read_node input
        (node_at head 0x02 number_bytes).next_offset
        (message.content_offset + message.content_length)
      ≡ ok op_node
  read_op =
      let limit : ℕ = message.content_offset + message.content_length in
      rw (as_op, next_offset-node_at head (tlv op payload ++ back) 0x02 number_bytes number_small)
        (read_node-tlv (head ++ tlv 0x02 number_bytes) back op payload payload_small limit
          (omega (arith, sizes, head_size, length-append head (tlv 0x02 number_bytes))))

  -- The reader of message headers gets from a written message, whatever follows it, the message id,
  -- the operation's tag, and a node that holds the operation's payload. The id is any `int`, and the
  -- content of the message is below 65536 bytes.
  pub read_message_header-ldap_message :
      (node : LdapNode) × (read_message_header (ldap_message id op payload ++ back)
        ≡ ok (id, op, node))
      × (string_from_node (ldap_message id op payload ++ back) node ≡ ok payload)
  read_message_header-ldap_message = rw (ldap_message-body id op payload) (
    op_node,
    header_step input message (node_at head 0x02 number_bytes) op_node id read_outer refl
        read_id_node refl read_id read_op,
    rw as_op (string_from_node-tlv (head ++ tlv 0x02 number_bytes) back op payload payload_small),
  )
