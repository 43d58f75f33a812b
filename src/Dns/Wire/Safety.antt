-- ===== src/Dns/Wire/Safety.antt =====
-- The readers of untrusted packets stay inside the packet and end, whatever its bytes are.
use endorium_nexus.Dns.Types.{DnsQuestion}
use endorium_nexus.Dns.Wire.{
  read_u16, read_u32, read_labels, read_dns_name, with_dot, parse_question,
}
use endorium_nexus.Prelude.{
  ltb, leb, ◌==◌, length, Ensures, returns, rejects, Ensures-bind, Ensures-map, Ensures-guard,
  Ensures-if, slice-Ensures, byte_at-Ensures, Text, ℕ, zero, suc, ◌+◌, ◌-◌, ◌*◌, ◌/◌, ◌%◌, ◌≤◌, ◌<◌,
  not, ◌||◌, List, [], ◌++◌, arith,
}

pub read_u16-Ensures :
    (bytes : List ℕ) (offset : ℕ)
    → offset + 2 ≤ length bytes
    → Ensures (λ _. Unit {0}) (read_u16 bytes offset)
unfolding read_u16
read_u16-Ensures bytes offset h =
    Ensures-bind _ _ (byte_at-Ensures bytes offset (omega arith)) λ high _.
      Ensures-bind _ _ (byte_at-Ensures bytes (offset + 1) (omega arith)) λ low _. returns tt

pub read_u32-Ensures :
    (bytes : List ℕ) (offset : ℕ)
    → offset + 4 ≤ length bytes
    → Ensures (λ _. Unit {0}) (read_u32 bytes offset)
unfolding read_u32
read_u32-Ensures bytes offset h =
    Ensures-bind _ _ (byte_at-Ensures bytes offset (omega arith)) λ a _.
      Ensures-bind _ _ (byte_at-Ensures bytes (offset + 1) (omega arith)) λ b _.
        Ensures-bind _ _ (byte_at-Ensures bytes (offset + 2) (omega arith)) λ c _.
          Ensures-bind _ _ (byte_at-Ensures bytes (offset + 3) (omega arith)) λ d _. returns tt

-- What a name's reader promises of the offset that it leaves.
abbrev pub Advances : List ℕ → ℕ → Text × ℕ → Type 0
Advances bytes offset result = (offset < result.1) × (result.1 ≤ length bytes)

read_labels-Ensures :
    (bytes : List ℕ) (level rounds offset : ℕ) (output : Text)
    → length bytes - offset < rounds
    → Ensures (Advances bytes offset) (read_labels bytes level rounds offset output)
unfolding read_labels
read_labels-Ensures bytes zero rounds offset output h = rejects
read_labels-Ensures bytes (suc level) zero offset output h = elim h [ ]
read_labels-Ensures bytes (suc level) (suc rounds) offset output h =
    Ensures-guard (leb (length bytes) offset) _ λ more.
      Ensures-bind _ _ (byte_at-Ensures bytes offset (ground arith)) λ size _.
        Ensures-if (size == 0) _ _ (λ _. returns (ground arith))
          λ _.
            Ensures-if (size / 64 == 3) _ _
              (λ _. Ensures-guard (leb (length bytes) (offset + 1)) _ λ pair.
                Ensures-bind _ _ (byte_at-Ensures bytes (offset + 1) (ground arith)) λ low _.
                  Ensures-bind _ _
                    (read_labels-Ensures bytes level (length bytes + 1) (size % 64 * 256 + low) []
                      (omega arith))
                    λ _ _. returns (ground arith))
              λ _.
                Ensures-guard (not (size / 64 == 0) || ltb (length bytes) (offset + 1 + size)) _
                  λ fits.
                    Ensures-bind _ _ (slice-Ensures bytes (offset + 1) size (ground arith))
                      λ label _.
                        Ensures-map _
                          (read_labels-Ensures bytes (suc level) rounds (offset + 1 + size)
                            (with_dot output ++ label) (ground arith))
                          λ result moved. omega arith

-- On any bytes, compression pointers that form a loop included, `read_dns_name` reads no byte outside
-- the packet and ends; when it returns a name, the offset has moved forward and is inside the packet
-- or at its end.
pub read_dns_name-Ensures :
    (bytes : List ℕ) (offset : ℕ) → Ensures (Advances bytes offset) (read_dns_name bytes offset)
unfolding read_dns_name
read_dns_name-Ensures bytes offset =
    read_labels-Ensures bytes 9 (length bytes + 1) offset [] (omega arith)

-- A question that is accepted ends inside the packet, behind its header, type and class.
abbrev pub EndsInside : List ℕ → DnsQuestion → Type 0
EndsInside query question = (17 ≤ question.end_offset) × (question.end_offset ≤ length query)

pub parse_question-Ensures : (query : List ℕ) → Ensures (EndsInside query) (parse_question query)
unfolding parse_question
parse_question-Ensures query = Ensures-guard (ltb (length query) 12) _ λ long.
    Ensures-bind _ _ (read_u16-Ensures query 4 (ground arith)) λ count _.
      Ensures-guard (count == 0) _ λ _.
        Ensures-bind _ _ (read_dns_name-Ensures query 12) λ (name, offset) moved.
          Ensures-guard (ltb (length query) (offset + 4)) _ λ room.
            Ensures-bind _ _ (read_u16-Ensures query offset (ground arith)) λ type _.
              Ensures-bind _ _ (read_u16-Ensures query (offset + 2) (ground arith))
                λ qclass _. returns (ground arith)
