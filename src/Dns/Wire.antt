-- ===== src/Dns/Wire.antt =====
-- Reading and writing the wire format: dns.cpp, `lowercase_ascii` to `parse_question`.
--
-- A byte vector is a list of numbers below 256, so `a << 8 | b` of two bytes is `a * 256 + b`,
-- `b & 0xc0` is read off `b / 64`, and `b & 0x3f` is `b % 64`. An offset that C++ passes by
-- reference is returned beside the result.
pub mod Safety
pub mod Names
pub mod RoundTrip
pub mod ReadBack
use endorium_nexus.Dns.Types.{DnsQuestion}
use endorium_nexus.Prelude.{
  ltb, leb, ◌==◌, if◌then◌else◌, ltb→lt, lt→ltb, le→ltb, leb→le, ==_iff, tests, Bool-cases,
  Option-cases, length, get_elem?, set, take, drop, is_empty, any, keep, All, All-append,
  length-append, length-set, length-take, length-drop, take-append-drop, take-append, drop-append,
  get_elem?-lt, get_elem?-append, set-append, Outcome, ok, reject, fault, ◌>>=◌, ◌>>◌, reject_if,
  attempt, byte_at, Outcome-cases, Ensures, Ends, returns, rejects, Ensures-bind, Ensures-ok,
  Ensures-ne-fault, Ensures-map, Ensures-attempt, Ensures-guard, Ensures-if, byte_at-append,
  byte_at-behind, slice, slice-append, slice-Ensures, byte_at-lt, byte_at-Ensures, Text, codes,
  text_eq, text_eq_refl, text_eq→eq, text_eq_iff, ends_with, to_lower, to_lower_idem,
  map-to_lower_idem, ℕ, zero, suc, ◌+◌, ◌-◌, ◌*◌, ◌/◌, ◌%◌, ◌^◌, ◌≤◌, ◌<◌, min, max, ◌≡◌, refl, sym,
  ap, ◌∙◌, ◌≢◌, ◌↔◌, ◌⊎◌, inl, inr, Bool, true, false, not, ◌&&◌, ◌||◌, Option, none, some, List,
  [], ◌∷◌, ◌++◌, map, append_assoc, append-nil, arith,
}

unfoldable pub lowercase_ascii : Text → Text
lowercase_ascii value = map to_lower value

-- `pop_back` while the last character is a dot.
unfoldable pub trim_trailing_dot : Text → Text
trim_trailing_dot [] = []
trim_trailing_dot (c ∷ s) =
    let rest = trim_trailing_dot s in if c == b'.' && is_empty rest then [] else c ∷ rest

unfoldable pub read_u16 : List ℕ → ℕ → Outcome ℕ
read_u16 bytes offset = do
  high ← byte_at bytes offset
  low ← byte_at bytes (offset + 1)
  ok (high * 256 + low)

unfoldable pub read_u32 : List ℕ → ℕ → Outcome ℕ
read_u32 bytes offset = do
  a ← byte_at bytes offset
  b ← byte_at bytes (offset + 1)
  c ← byte_at bytes (offset + 2)
  d ← byte_at bytes (offset + 3)
  ok (a * 2 ^ 24 + b * 2 ^ 16 + c * 2 ^ 8 + d)

unfoldable pub dns_opcode : ℕ → ℕ
dns_opcode flags = flags / 2 ^ 11 % 16

unfoldable pub write_u16 : List ℕ → ℕ → List ℕ
write_u16 bytes value = bytes ++ value / 256 % 256 ∷ value % 256 ∷ []

unfoldable pub write_u32 : List ℕ → ℕ → List ℕ
write_u32 bytes value =
    bytes ++ value / 2 ^ 24 % 256 ∷ value / 2 ^ 16 % 256 ∷ value / 2 ^ 8 % 256 ∷ value % 256 ∷ []

-- `output += "."` unless it is empty
unfoldable pub with_dot : Text → Text
with_dot output = if is_empty output then output else output ++ b'.' ∷ []

unfoldable pub name_or_root : Text → Text
name_or_root output = if is_empty output then codes "." else output

-- What the pointer branch makes of the labels before the pointer and of the name behind it.
unfoldable pub join_pointed : Text → Text → Text
join_pointed output pointed =
    if text_eq pointed (codes ".") then name_or_root output else with_dot output ++ pointed

-- The loop of `read_dns_name`. The first number is 9 - depth, so zero is `depth > 8`; the second
-- bounds the rounds of the loop. A pointer starts a call of its own with enough rounds.
unfoldable pub read_labels : List ℕ → ℕ → ℕ → ℕ → Text → Outcome (Text × ℕ)
read_labels bytes zero rounds offset output = reject
read_labels bytes (suc level) zero offset output = fault
read_labels bytes (suc level) (suc rounds) offset output = do
  reject_if (leb (length bytes) offset)
  size ← byte_at bytes offset
  let follow = do
    reject_if (leb (length bytes) (offset + 1))
    low ← byte_at bytes (offset + 1)
    (pointed, _) ← read_labels bytes level (length bytes + 1) (size % 64 * 256 + low) []
    ok (join_pointed output pointed, offset + 2)
  let next = do
    reject_if (not (size / 64 == 0) || ltb (length bytes) (offset + 1 + size))
    label ← slice bytes (offset + 1) size
    read_labels bytes (suc level) rounds (offset + 1 + size) (with_dot output ++ label)
  if size == 0
      then ok (name_or_root output, offset + 1)
      else if size / 64 == 3
      then follow
      else next

unfoldable pub read_dns_name : List ℕ → ℕ → Outcome (Text × ℕ)
read_dns_name bytes offset = read_labels bytes 9 (length bytes + 1) offset []

abbrev cons_head : ℕ → List Text → List Text
cons_head c [] = (c ∷ []) ∷ []
cons_head c (label ∷ labels) = (c ∷ label) ∷ labels

-- The pieces that `normalized.find('.', start)` cuts, one after the other.
unfoldable pub split_dots : Text → List Text
split_dots [] = [] ∷ []
split_dots (c ∷ s) = let rest = split_dots s in if c == b'.' then [] ∷ rest else cons_head c rest

-- The loop of `write_dns_name`. Behind a trimmed name's last dot there is always a piece, so the
-- test `start < normalized.size()` fails only after the last piece.
unfoldable pub write_labels : List ℕ → List Text → List ℕ
write_labels bytes [] = bytes ++ 0 ∷ []
write_labels bytes (label ∷ labels) =
    let next = write_labels (bytes ++ length label ∷ label) labels in
    if ltb 63 (length label) then bytes ++ 0 ∷ [] else next

unfoldable pub write_dns_name : List ℕ → Text → List ℕ
write_dns_name bytes name =
    let normalized = trim_trailing_dot name in
    if is_empty normalized || text_eq normalized (codes "@")
    then bytes ++ 0 ∷ []
    else write_labels bytes (split_dots normalized)

unfoldable pub parse_question : List ℕ → Outcome DnsQuestion
parse_question query = do
  reject_if (ltb (length query) 12)
  count ← read_u16 query 4
  reject_if (count == 0)
  (name, offset) ← read_dns_name query 12
  reject_if (ltb (length query) (offset + 4))
  type ← read_u16 query offset
  qclass ← read_u16 query (offset + 2)
  ok (record {
    name = lowercase_ascii (trim_trailing_dot name);
    type = type;
    qclass = qclass;
    end_offset = offset + 4;
  })
