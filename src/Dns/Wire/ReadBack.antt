-- ===== src/Dns/Wire/ReadBack.antt =====
-- `read_dns_name` on what `write_dns_name` wrote, wherever it stands in a message.
use endorium_nexus.Dns.Wire.{write_dns_name, with_dot, name_or_root, read_labels, read_dns_name}
use endorium_nexus.Dns.Wire.Names.{write_dns_name-append}
use endorium_nexus.Dns.Wire.RoundTrip.{IsLabel, dotted, name_of, wire, write_dns_name-wire}
use endorium_nexus.Prelude.{
  length, is_empty, All, length-append, ok, byte_at, byte_at-append, slice, slice-append, Text,
  codes, text_eq, ℕ, zero, suc, ◌+◌, ◌≤◌, ◌<◌, ◌≡◌, refl, sym, ap, ◌∙◌, false, List, [], ◌∷◌, ◌++◌,
  append_assoc, append-nil, arith,
}

module _ (bytes : List ℕ) (level rounds offset : ℕ) (output : Text) where
  read_end :
      byte_at bytes offset ≡ ok 0
      → offset < length bytes
      → read_labels bytes (suc level) (suc rounds) offset output
        ≡ ok (name_or_root output, offset + 1)
  unfolding read_labels
  read_end at inside = ground arith

  read_label :
      (size : ℕ) (label : Text)
      → byte_at bytes offset ≡ ok size
      → 0 < size
      → size ≤ 63
      → slice bytes (offset + 1) size ≡ ok label
      → offset + 1 + size ≤ length bytes
      → read_labels bytes (suc level) (suc rounds) offset output
        ≡ read_labels bytes (suc level) rounds (offset + 1 + size) (with_dot output ++ label)
  unfolding read_labels
  read_label size label at some_byte small sliced inside = ground arith

-- The name that the loop has put together behind the labels.
abbrev extend : Text → List Text → Text
extend output [] = output
extend output (label ∷ labels) = extend (with_dot output ++ label) labels

extend-dotted :
    (output : Text) (labels : List Text)
    → is_empty output ≡ false
    → extend output labels ≡ output ++ dotted labels
unfolding with_dot
extend-dotted output [] h = sym (append-nil output)
extend-dotted [] (label ∷ labels) h = cc
extend-dotted (c ∷ output) (label ∷ labels) h =
    extend-dotted (c ∷ ((output ++ b'.' ∷ []) ++ label)) labels refl ∙ simp append_assoc

read_labels-wire :
    (labels : List Text) (front back : List ℕ) (level rounds : ℕ) (output : Text)
    → All IsLabel labels
    → length labels < rounds
    → read_labels (front ++ (wire labels ++ back)) (suc level) rounds (length front) output
      ≡ ok (name_or_root (extend output labels), length front + length (wire labels))
read_labels-wire labels front back level zero output h enough = elim enough [ ]
read_labels-wire [] front back level (suc rounds) output h enough =
    read_end (front ++ 0 ∷ back) level rounds (length front) output (byte_at-append front back 0)
      (omega (arith, length-append front (0 ∷ back)))
read_labels-wire (label ∷ labels) front back level (suc rounds) output ((full, short, plain), h)
      enough =
    let size : ℕ = length label in
    let rest : List ℕ = wire labels ++ back in
    let bytes : List ℕ = front ++ size ∷ ((label ++ wire labels) ++ back) in
    let moved : List ℕ = front ++ size ∷ label in
    let split : bytes ≡ (front ++ size ∷ []) ++ (label ++ rest) = simp append_assoc in
    let split_moved : bytes ≡ moved ++ rest = simp append_assoc in
    let after_size : length (front ++ size ∷ []) ≡ length front + 1 =
      length-append front (size ∷ []) in
    let after_label : length moved ≡ length front + 1 + size =
      omega (arith, length-append front (size ∷ label)) in
    let sliced : slice bytes (length front + 1) size ≡ ok label =
      rw (split, ← after_size) (slice-append (front ++ size ∷ []) label rest) in
    let again : read_labels bytes (suc level) rounds (length front + 1 + size)
          (with_dot output ++ label)
        ≡ ok (
          name_or_root (extend (with_dot output ++ label) labels),
          length moved + length (wire labels),
        ) =
      rw (split_moved, ← after_label)
        (read_labels-wire labels moved back level rounds (with_dot output ++ label) h
          (omega arith)) in
    read_label bytes level rounds (length front) output size label
      (byte_at-append front ((label ++ wire labels) ++ back) size) (positive label full) short
      sliced (omega (arith, ap (λ (t : List ℕ). length t) split_moved, length-append moved rest))
    ∙ again
    ∙ ap (λ n. ok (name_or_root (extend (with_dot output ++ label) labels), n))
        (omega (arith, length-append label (wire labels)))
  where
    positive : (s : Text) → is_empty s ≡ false → 0 < length s
    positive [] e = cc
    positive (c ∷ s) e = omega arith

length-wire : (labels : List Text) → length labels < length (wire labels)
length-wire [] = omega arith
length-wire (label ∷ labels) = omega (arith, length-wire labels, length-append label (wire labels))

extend-name_of :
    (label : Text) (labels : List Text)
    → is_empty label ≡ false
    → name_or_root (extend [] (label ∷ labels)) ≡ name_of (label ∷ labels)
unfolding with_dot name_or_root
extend-name_of [] labels h = cc
extend-name_of (c ∷ label) labels h = rw (extend-dotted (c ∷ label) labels refl)

module _ (label : Text) (labels : List Text) (front back : List ℕ) where
  -- The wire form of a name is read back as the name, and the offset moves behind it.
  pub read_dns_name-wire :
      All IsLabel (label ∷ labels)
      → read_dns_name (front ++ (wire (label ∷ labels) ++ back)) (length front)
        ≡ ok (name_of (label ∷ labels), length front + length (wire (label ∷ labels)))
  unfolding read_dns_name
  read_dns_name-wire h =
      let bytes : List ℕ = front ++ (wire (label ∷ labels) ++ back) in
      read_labels-wire (label ∷ labels) front back 8 (length bytes + 1) [] h (
        omega (
          arith,
          length-wire (label ∷ labels),
          length-append front (wire (label ∷ labels) ++ back),
          length-append (wire (label ∷ labels)) back,
        ))
      ∙ rw (extend-name_of label labels h.0.0)

  -- `read_dns_name` reads back the name that `write_dns_name` appended to a message, whatever
  -- stands before and behind it, and leaves the offset at the end of what was written. The name is
  -- one that is spelled by labels of 1 to 63 characters without dots, and not the name `@`.
  pub read_dns_name-write_dns_name :
      All IsLabel (label ∷ labels)
      → text_eq (name_of (label ∷ labels)) (codes "@") ≡ false
      → read_dns_name (write_dns_name front (name_of (label ∷ labels)) ++ back) (length front)
        ≡ ok (name_of (label ∷ labels), length (write_dns_name front (name_of (label ∷ labels))))
  read_dns_name-write_dns_name h not_at =
      rw
        (
          write_dns_name-append,
          write_dns_name-wire label labels h not_at,
          append_assoc front (wire (label ∷ labels)) back,
          length-append front (wire (label ∷ labels)),
        )
        (read_dns_name-wire h)
