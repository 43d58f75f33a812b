-- ===== src/Ldap/Ber/Safety.antt =====
-- The readers of LDAP messages stay inside the message and end, whatever its bytes are.
use endorium_nexus.Ldap.Ber.{
  LdapNode, LdapControl, read_length_bytes, read_length, read_node, read_integer,
  read_message_header, string_from_node, read_critical, read_control_value, read_control,
  read_control_at, read_controls, controls_node, read_message_controls,
}
use endorium_nexus.Prelude.{
  ltb, leb, ◌==◌, length, Outcome, attempt, Ensures, Ends, returns, rejects, Ensures-bind,
  Ensures-map, Ensures-guard, Ensures-if, Returns, returned, Returns-attempt, Returns-if,
  Returns-Ensures, slice-Ensures, byte_at-Ensures, ℕ, zero, suc, ◌+◌, ◌-◌, ◌*◌, ◌%◌, ◌^◌, ◌≤◌, ◌<◌,
  ◌≡◌, not, ◌||◌, Option, none, some, List, [], ◌∷◌, ◌++◌, arith,
}

read_length_bytes-Ensures :
    (input : List ℕ) (count offset size : ℕ)
    → offset + count ≤ length input
    → Ensures (λ r. r.1 ≡ offset + count) (read_length_bytes input count offset size)
unfolding read_length_bytes
read_length_bytes-Ensures input zero offset size h = returns (omega arith)
read_length_bytes-Ensures input (suc count) offset size h =
    Ensures-bind _ _ (byte_at-Ensures input offset (omega arith)) λ byte _.
      Ensures-map _
        (read_length_bytes-Ensures input count (offset + 1) (size * 256 + byte) (omega arith))
        λ r at. omega arith

read_length-Ensures :
    (input : List ℕ) (offset : ℕ) → Ensures (λ r. offset < r.1) (read_length input offset)
unfolding read_length
read_length-Ensures input offset = Ensures-guard (leb (length input) offset) _ λ inside.
    Ensures-bind _ _ (byte_at-Ensures input offset (ground arith)) λ first _.
      Ensures-if (ltb first 128) _ _ (λ _. returns (omega arith))
        λ long.
          Ensures-guard
            (first % 128 == 0
              || ltb 4 (first % 128)
              || ltb (length input) (offset + 1 + first % 128))
            _
            λ fits.
              Ensures-map _
                (read_length_bytes-Ensures input (first % 128) (offset + 1) 0 (ground arith))
                λ r at. omega arith

-- A node's content lies behind its tag and length, inside the message and the enclosing node.
pub record IsInside (input : List ℕ) (offset limit : ℕ) (node : LdapNode) : Type 0 where
  pub starts : offset < node.content_offset
  pub ends : node.next_offset ≡ node.content_offset + node.content_length
  pub below_limit : node.next_offset ≤ limit
  pub below_size : node.next_offset ≤ length input

-- On any bytes `read_node` reads inside the message; a node that it returns lies behind the offset
-- and ends inside the message and inside the limit.
pub read_node-Ensures :
    (input : List ℕ) (offset limit : ℕ)
    → Ensures (IsInside input offset limit) (read_node input offset limit)
unfolding read_node
read_node-Ensures input offset limit =
    Ensures-guard (leb limit offset || leb (length input) offset) _ λ inside.
      Ensures-bind _ _ (byte_at-Ensures input offset (ground arith)) λ tag _.
        Ensures-bind _ _ (read_length-Ensures input (offset + 1)) λ (size, content) behind.
          Ensures-guard (ltb limit (content + size) || ltb (length input) (content + size)) _
            λ fits. returns (ground arith)

pub read_integer-Ends :
    (input : List ℕ) (count offset value : ℕ)
    → offset + count ≤ length input
    → Ends (read_integer input count offset value)
unfolding read_integer
read_integer-Ends input zero offset value h = returns tt
read_integer-Ends input (suc count) offset value h =
    Ensures-bind _ _ (byte_at-Ensures input offset (omega arith)) λ byte _.
      read_integer-Ends input count (offset + 1) ((value * 256 + byte) % 2 ^ 32) (omega arith)

-- On any bytes the reader of a message's id and operation stays inside the message and ends; the
-- content of the operation that it returns, and the place behind it, lie inside the message.
pub read_message_header-Ensures :
    (input : List ℕ)
    → Ensures
        (λ r.
          (r.2.next_offset ≤ length input)
          × (r.2.content_offset + r.2.content_length ≤ length input))
        (read_message_header input)
unfolding read_message_header
read_message_header-Ensures input =
    Ensures-bind _ _ (read_node-Ensures input 0 (length input)) λ message m.
      Ensures-guard (not (message.tag == 0x30)) _ λ _.
        Ensures-bind _ _
          (read_node-Ensures input message.content_offset
            (message.content_offset + message.content_length))
          λ id_node i. Ensures-guard (not (id_node.tag == 0x02)) _ λ _.
            Ensures-bind _ _
              (read_integer-Ends input id_node.content_length id_node.content_offset 0
                (omega arith))
              λ id _.
                Ensures-bind _ _
                  (read_node-Ensures input id_node.next_offset
                    (message.content_offset + message.content_length))
                  λ op o. returns (omega arith, omega arith)

abbrev OptionInside : List ℕ → Option LdapNode → Type 0
OptionInside input none = Unit
OptionInside input (some node) = node.content_offset + node.content_length ≤ length input

attempt_node-Ensures :
    (input : List ℕ) (offset limit : ℕ)
    → Ensures (OptionInside input) (attempt (read_node input offset limit))
attempt_node-Ensures input offset limit =
    go (read_node input offset limit) (read_node-Ensures input offset limit)
  where
    go :
        (m : Outcome LdapNode)
        → Ensures (IsInside input offset limit) m
        → Ensures (OptionInside input) (attempt m)
    go m (returns h) = returns (omega arith)
    go m rejects = returns tt

read_critical-Ensures :
    (input : List ℕ) (next : Option LdapNode) (field_limit : ℕ)
    → OptionInside input next
    → Ensures (λ r. OptionInside input r.1) (read_critical input next field_limit)
unfolding read_critical
read_critical-Ensures input none field_limit h = returns tt
read_critical-Ensures input (some next) field_limit h =
    Ensures-if (not (next.tag == 0x01)) _ _ (λ _. returns h)
      λ _.
        Ensures-bind _ _ (attempt_node-Ensures input next.next_offset field_limit) λ after inside.
          Ensures-if (next.content_length == 0) _ _ (λ _. returns inside)
            λ full.
              Ensures-bind _ _ (byte_at-Ensures input next.content_offset (ground arith))
                λ byte _. returns inside

read_control_value-Ends :
    (input : List ℕ) (next : Option LdapNode)
    → OptionInside input next
    → Ends (read_control_value input next)
unfolding read_control_value
read_control_value-Ends input none h = returns tt
read_control_value-Ends input (some next) h =
    Ensures-if (next.tag == 0x04) _ _
      (λ _. Ensures-map _ (slice-Ensures input next.content_offset next.content_length h) λ _ _. tt)
      (λ _. returns tt)

read_control-Ends : (input : List ℕ) (sequence : LdapNode) → Ends (read_control input sequence)
unfolding read_control string_from_node
read_control-Ends input sequence =
    let field_limit = sequence.content_offset + sequence.content_length in
    Ensures-bind _ _ (read_node-Ensures input sequence.content_offset field_limit) λ oid o.
      Ensures-guard (not (oid.tag == 0x04)) _ λ _.
        Ensures-bind _ _ (slice-Ensures input oid.content_offset oid.content_length (omega arith))
          λ name _.
            Ensures-bind _ _ (attempt_node-Ensures input oid.next_offset field_limit) λ next n.
              Ensures-bind _ _ (read_critical-Ensures input next field_limit n)
                λ (critical, after) a.
                  Ensures-bind _ _ (read_control_value-Ends input after a) λ value _. returns tt

read_control_at-Ensures :
    (input : List ℕ) (offset limit : ℕ)
    → Ensures (λ r. offset < r.1) (read_control_at input offset limit)
unfolding read_control_at
read_control_at-Ensures input offset limit =
    Ensures-bind _ _ (read_node-Ensures input offset limit) λ sequence s.
      Ensures-guard (not (sequence.tag == 0x30)) _
        λ _. Ensures-bind _ _ (read_control-Ends input sequence) λ control _. returns (omega arith)

read_controls-Returns :
    (input : List ℕ) (rounds offset limit : ℕ) (controls : List LdapControl)
    → limit - offset < rounds
    → Returns (λ _. Unit {0}) (read_controls input rounds offset limit controls)
unfolding read_controls
read_controls-Returns input zero offset limit controls h = elim h [ ]
read_controls-Returns input (suc rounds) offset limit controls h =
    Returns-if (not (ltb offset limit)) _ _ (λ _. returned tt)
      λ more.
        Returns-attempt (read_control_at input offset limit) _ _
          (read_control_at-Ensures input offset limit) (returned tt)
          λ (control, next) moved.
            read_controls-Returns input rounds next limit (controls ++ control ∷ []) (ground arith)

controls_node-Ends : (input : List ℕ) → Ends (controls_node input)
unfolding controls_node
controls_node-Ends input = Ensures-bind _ _ (read_node-Ensures input 0 (length input)) λ message _.
    Ensures-guard (not (message.tag == 0x30)) _ λ _.
      let limit = message.content_offset + message.content_length in
      Ensures-bind _ _ (read_node-Ensures input message.content_offset limit) λ id_node _.
        Ensures-bind _ _ (read_node-Ensures input id_node.next_offset limit) λ op _.
          Ensures-bind _ _ (read_node-Ensures input op.next_offset limit)
            λ node _. Ensures-guard (not (node.tag == 0xa0)) _ λ _. returns tt

pub read_message_controls-Returns :
    (input : List ℕ) → Returns (λ _. Unit {0}) (read_message_controls input)
unfolding read_message_controls
read_message_controls-Returns input =
    Returns-attempt (controls_node input) _ _ (controls_node-Ends input) (returned tt) λ node _.
      read_controls-Returns input (node.content_length + 1) node.content_offset
        (node.content_offset + node.content_length) [] (omega arith)

-- On any bytes the reader of a message's controls stays inside the message and ends.
read_message_controls-Ends : (input : List ℕ) → Ends (read_message_controls input)
read_message_controls-Ends input = Returns-Ensures _ (read_message_controls-Returns input)
