-- ===== src/Ldap/Ber.antt =====
-- Writing and reading BER, and the LDAP message around an operation: ldap.cpp, `append_length` to
-- `integer_from_node`.
--
-- An `int` is its bit pattern of 32 bits, so `value << 8 | byte` is taken modulo 2 ^ 32 and
-- `value >= 0 && value <= 127` is a bound on the pattern. The lengths that `read_length` accepts have
-- at most four bytes and do not overflow a 64-bit `size_t`.
pub mod Safety
pub mod RoundTrip
pub mod Messages
pub mod Header
use endorium_nexus.Prelude.{
  ltb, leb, ◌==◌, if◌then◌else◌, ltb→lt, lt→ltb, le→ltb, leb→le, ==_iff, tests, Bool-cases,
  Option-cases, length, get_elem?, set, take, drop, is_empty, any, keep, All, All-append,
  length-append, length-set, length-take, length-drop, take-append-drop, take-append, drop-append,
  get_elem?-lt, get_elem?-append, set-append, Outcome, ok, reject, fault, ◌>>=◌, ◌>>◌, reject_if,
  attempt, byte_at, Outcome-cases, Ensures, Ends, returns, rejects, Ensures-bind, Ensures-ok,
  Ensures-ne-fault, Ensures-map, Ensures-attempt, Ensures-guard, Ensures-if, byte_at-append,
  byte_at-behind, slice, slice-append, slice-Ensures, byte_at-lt, byte_at-Ensures, Text, codes,
  text_eq, text_eq_refl, text_eq→eq, text_eq_iff, ends_with, to_lower, to_lower_idem,
  map-to_lower_idem, ℕ, zero, suc, ◌+◌, ◌-◌, ◌*◌, ◌/◌, ◌%◌, ◌^◌, ◌≤◌, ◌<◌, min, max, ◌≡◌, refl, sym,
  ap, ◌∙◌, ◌≢◌, ◌↔◌, ◌⊎◌, inl, inr, Bool, true, false, not, ◌&&◌, ◌||◌, Option, none, some, List,
  [], ◌∷◌, ◌++◌, map, append_assoc, append-nil, arith,
}

pub record LdapNode : Type 0 where
  pub tag : ℕ
  pub content_offset : ℕ
  pub content_length : ℕ
  pub next_offset : ℕ

pub record LdapControl : Type 0 where
  pub oid : Text
  pub critical : Bool
  pub value : List ℕ

unfoldable pub append_length : List ℕ → ℕ → List ℕ
append_length output size =
    if ltb size 0x80
    then output ++ size ∷ []
    else if leb size 0xff
    then output ++ 0x81 ∷ size ∷ []
    else output ++ 0x82 ∷ size / 256 % 256 ∷ size % 256 ∷ []

unfoldable pub tlv : ℕ → List ℕ → List ℕ
tlv tag payload = append_length (tag ∷ []) (length payload) ++ payload

unfoldable pub append_tlv : List ℕ → ℕ → List ℕ → List ℕ
append_tlv output tag payload = append_length (output ++ tag ∷ []) (length payload) ++ payload

-- The loop over the shifts 24, 16, 8 and 0: leading zero bytes are left out, but for the last byte.
unfoldable pub significant_bytes : List ℕ → List ℕ
significant_bytes [] = []
significant_bytes (byte ∷ []) = byte ∷ []
significant_bytes (byte ∷ next ∷ rest) =
    let more = significant_bytes (next ∷ rest) in if byte == 0 then more else byte ∷ next ∷ rest

-- A zero byte in front of a byte whose top bit is set.
unfoldable pub with_sign_byte : List ℕ → List ℕ
with_sign_byte [] = []
with_sign_byte (byte ∷ rest) = if leb 128 byte then 0 ∷ byte ∷ rest else byte ∷ rest

unfoldable pub integer_value : ℕ → List ℕ
integer_value value =
    if leb value 127
    then value ∷ []
    else with_sign_byte (
        significant_bytes
          (value / 2 ^ 24 % 256 ∷ value / 2 ^ 16 % 256 ∷ value / 2 ^ 8 % 256 ∷ value % 256 ∷ []))

unfoldable pub append_octet_string : List ℕ → Text → List ℕ
append_octet_string output value = append_tlv output 0x04 value

unfoldable pub append_octet_bytes : List ℕ → List ℕ → List ℕ
append_octet_bytes output value = append_tlv output 0x04 value

unfoldable pub result_payload : ℕ → Text → List ℕ
result_payload result_code diagnostic =
    append_octet_string (append_octet_string (append_tlv [] 0x0a (integer_value result_code)) [])
      diagnostic

unfoldable pub ldap_message : ℕ → ℕ → List ℕ → List ℕ
ldap_message message_id op_tag op_payload =
    tlv 0x30 (append_tlv (append_tlv [] 0x02 (integer_value message_id)) op_tag op_payload)

unfoldable pub bind_response_payload : ℕ → Text → List ℕ → List ℕ
bind_response_payload result_code diagnostic credentials =
    let payload = result_payload result_code diagnostic in
    if is_empty credentials then payload else append_tlv payload 0x87 credentials

-- One control, in its sequence.
unfoldable pub control_bytes : LdapControl → List ℕ
control_bytes control =
    let named = append_octet_string [] control.oid in
    let marked = if control.critical then append_tlv named 0x01 (0xff ∷ []) else named in
    tlv 0x30 (if is_empty control.value then marked else append_octet_bytes marked control.value)

unfoldable pub controls_bytes : List LdapControl → List ℕ
controls_bytes [] = []
controls_bytes (control ∷ controls) = control_bytes control ++ controls_bytes controls

unfoldable pub ldap_message_with_controls : ℕ → ℕ → List ℕ → List LdapControl → List ℕ
ldap_message_with_controls message_id op_tag op_payload controls =
    let payload = append_tlv (append_tlv [] 0x02 (integer_value message_id)) op_tag op_payload in
    tlv 0x30
      (if is_empty controls then payload else append_tlv payload 0xa0 (controls_bytes controls))

-- The loop over the bytes of a long length; it returns the length and the offset behind it.
unfoldable pub read_length_bytes : List ℕ → ℕ → ℕ → ℕ → Outcome (ℕ × ℕ)
read_length_bytes input zero offset size = ok (size, offset)
read_length_bytes input (suc count) offset size = do
  byte ← byte_at input offset
  read_length_bytes input count (offset + 1) (size * 256 + byte)

unfoldable pub read_length : List ℕ → ℕ → Outcome (ℕ × ℕ)
read_length input offset = do
  reject_if (leb (length input) offset)
  first ← byte_at input offset
  let count = first % 128
  if ltb first 128 then ok (first, offset + 1) else do
    reject_if (count == 0 || ltb 4 count || ltb (length input) (offset + 1 + count))
    read_length_bytes input count (offset + 1) 0

unfoldable pub read_node : List ℕ → ℕ → ℕ → Outcome LdapNode
read_node input offset limit = do
  reject_if (leb limit offset || leb (length input) offset)
  tag ← byte_at input offset
  (size, content_offset) ← read_length input (offset + 1)
  reject_if (ltb limit (content_offset + size) || ltb (length input) (content_offset + size))
  ok (record {
    tag = tag;
    content_offset = content_offset;
    content_length = size;
    next_offset = content_offset + size;
  })

-- `value = (value << 8U) | input[offset]` over `count` bytes.
unfoldable pub read_integer : List ℕ → ℕ → ℕ → ℕ → Outcome ℕ
read_integer input zero offset value = ok value
read_integer input (suc count) offset value = do
  byte ← byte_at input offset
  read_integer input count (offset + 1) ((value * 256 + byte) % 2 ^ 32)

unfoldable pub integer_from_node : List ℕ → LdapNode → Outcome ℕ
integer_from_node input node = read_integer input node.content_length node.content_offset 0

-- The message id, the operation's tag and its node.
unfoldable pub read_message_header : List ℕ → Outcome (ℕ × ℕ × LdapNode)
read_message_header input = do
  message ← read_node input 0 (length input)
  reject_if (not (message.tag == 0x30))
  let limit = message.content_offset + message.content_length
  id_node ← read_node input message.content_offset limit
  reject_if (not (id_node.tag == 0x02))
  message_id ← read_integer input id_node.content_length id_node.content_offset 0
  protocol_op ← read_node input id_node.next_offset limit
  ok (message_id, protocol_op.tag, protocol_op)

unfoldable pub string_from_node : List ℕ → LdapNode → Outcome Text
string_from_node input node = slice input node.content_offset node.content_length

unfoldable pub octet_strings : List ℕ → List (List ℕ) → List ℕ
octet_strings payload [] = payload
octet_strings payload (value ∷ values) = octet_strings (append_octet_bytes payload value) values

-- `partial_attribute` and `partial_attribute_bytes`, which differ in the type of the values only.
unfoldable pub partial_attribute : Text → List (List ℕ) → List ℕ
partial_attribute name values =
    tlv 0x30 (append_tlv (append_octet_string [] name) 0x31 (octet_strings [] values))

-- The node behind the object identifier, if it is a Boolean: the criticality, and the node behind it.
unfoldable pub read_critical : List ℕ → Option LdapNode → ℕ → Outcome (Bool × Option LdapNode)
read_critical input none field_limit = ok (false, none)
read_critical input (some next) field_limit =
    if not (next.tag == 0x01) then ok (false, some next) else do
      after ← attempt (read_node input next.next_offset field_limit)
      if next.content_length == 0
          then ok (false, after)
          else do byte ← byte_at input next.content_offset; ok (not (byte == 0), after)

unfoldable pub read_control_value : List ℕ → Option LdapNode → Outcome (List ℕ)
read_control_value input none = ok []
read_control_value input (some next) =
    if next.tag == 0x04 then slice input next.content_offset next.content_length else ok []

-- The fields of one control; `reject` makes the loop end with what it has.
unfoldable pub read_control : List ℕ → LdapNode → Outcome LdapControl
read_control input sequence = do
  let field_limit = sequence.content_offset + sequence.content_length
  oid ← read_node input sequence.content_offset field_limit
  reject_if (not (oid.tag == 0x04))
  name ← string_from_node input oid
  next ← attempt (read_node input oid.next_offset field_limit)
  (critical, after) ← read_critical input next field_limit
  value ← read_control_value input after
  ok (record { oid = name; critical = critical; value = value })

-- One control and the offset behind it.
unfoldable pub read_control_at : List ℕ → ℕ → ℕ → Outcome (LdapControl × ℕ)
read_control_at input offset limit = do
  sequence ← read_node input offset limit
  reject_if (not (sequence.tag == 0x30))
  control ← read_control input sequence
  ok (control, sequence.next_offset)

unfoldable pub read_controls : List ℕ → ℕ → ℕ → ℕ → List LdapControl → Outcome (List LdapControl)
read_controls input zero offset limit controls = fault
read_controls input (suc rounds) offset limit controls =
    if not (ltb offset limit) then ok controls else do
      found ← attempt (read_control_at input offset limit)
      elim found [
        | none ↦ ok controls
        | some (control, next) ↦ read_controls input rounds next limit (controls ++ control ∷ [])
      ]

-- The node of the controls, if there is one: it stands behind the operation.
unfoldable pub controls_node : List ℕ → Outcome LdapNode
controls_node input = do
  message ← read_node input 0 (length input)
  reject_if (not (message.tag == 0x30))
  let limit = message.content_offset + message.content_length
  id_node ← read_node input message.content_offset limit
  protocol_op ← read_node input id_node.next_offset limit
  node ← read_node input protocol_op.next_offset limit
  reject_if (not (node.tag == 0xa0))
  ok node

unfoldable pub read_message_controls : List ℕ → Outcome (List LdapControl)
read_message_controls input = do
  found ← attempt (controls_node input)
  elim found [
    | none ↦ ok []
    | some node ↦
        read_controls input (node.content_length + 1) node.content_offset
          (node.content_offset + node.content_length) []
  ]
