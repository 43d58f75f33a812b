-- ===== src/Ldap/Names.antt =====
-- Distinguished names: ldap.cpp, `split_dn`, `is_valid_dn`, `parent_dn_from_dn`, `rdn_value_from_dn`.
pub mod Splitting
use endorium_nexus.Prelude.{
  find_char, ltb, leb, ◌==◌, if◌then◌else◌, ltb→lt, lt→ltb, le→ltb, leb→le, ==_iff, tests,
  Bool-cases, Option-cases, length, get_elem?, set, take, drop, is_empty, any, keep, All,
  All-append, length-append, length-set, length-take, length-drop, take-append-drop, take-append,
  drop-append, get_elem?-lt, get_elem?-append, set-append, Outcome, ok, reject, fault, ◌>>=◌, ◌>>◌,
  reject_if, attempt, byte_at, Outcome-cases, Ensures, Ends, returns, rejects, Ensures-bind,
  Ensures-ok, Ensures-ne-fault, Ensures-map, Ensures-attempt, Ensures-guard, Ensures-if,
  byte_at-append, byte_at-behind, slice, slice-append, slice-Ensures, byte_at-lt, byte_at-Ensures,
  Text, codes, text_eq, text_eq_refl, text_eq→eq, text_eq_iff, ends_with, to_lower, to_lower_idem,
  map-to_lower_idem, ℕ, zero, suc, ◌+◌, ◌-◌, ◌*◌, ◌/◌, ◌%◌, ◌^◌, ◌≤◌, ◌<◌, min, max, ◌≡◌, refl, sym,
  ap, ◌∙◌, ◌≢◌, ◌↔◌, ◌⊎◌, inl, inr, Bool, true, false, not, ◌&&◌, ◌||◌, Option, none, some, List,
  [], ◌∷◌, ◌++◌, map, append_assoc, append-nil, arith,
}

-- The loop of `split_dn`: the rest of the name, the part so far, and whether the last character was
-- a backslash that escapes the next one.
unfoldable pub split_loop : Text → Text → Bool → List Text → List Text
split_loop [] current escaped parts = if is_empty current then parts else parts ++ current ∷ []
split_loop (ch ∷ rest) current true parts = split_loop rest (current ++ ch ∷ []) false parts
split_loop (ch ∷ rest) current false parts =
    let escape = split_loop rest (current ++ ch ∷ []) true parts in
    let close =
      split_loop rest [] false (if is_empty current then parts else parts ++ current ∷ []) in
    let plain = split_loop rest (current ++ ch ∷ []) false parts in
    if ch == 92 then escape else if ch == b',' then close else plain

unfoldable pub split_dn : Text → List Text
split_dn distinguished_name = split_loop distinguished_name [] false []

-- An attribute, an equals sign and a value, neither of them empty.
unfoldable pub is_valid_part : Text → Bool
is_valid_part part = elim (find_char b'=' part) [
  | none ↦ false
  | some position ↦ ltb 0 position && ltb position (length part - 1)
]

unfoldable pub is_valid_dn : Text → Bool
is_valid_dn distinguished_name =
    let parts = split_dn distinguished_name in
    if is_empty parts then false else not (any (λ part. not (is_valid_part part)) parts)

unfoldable pub parent_loop : Text → Bool → Text
parent_loop [] escaped = []
parent_loop (ch ∷ rest) true = parent_loop rest false
parent_loop (ch ∷ rest) false =
    let escape = parent_loop rest true in
    let plain = parent_loop rest false in
    if ch == 92 then escape else if ch == b',' then rest else plain

unfoldable pub parent_dn_from_dn : Text → Text
parent_dn_from_dn dn = parent_loop dn false

-- `dn.substr(0, dn.find(','))`, the whole name if there is no comma.
unfoldable pub first_part : Text → Text
first_part dn = elim (find_char b',' dn) [ none ↦ dn | some position ↦ take position dn ]

unfoldable pub rdn_value_from_dn : Text → Text
rdn_value_from_dn dn =
    let part = first_part dn in
    elim (find_char b'=' part) [
      | none ↦ part
      | some equals ↦ if leb (length part) (equals + 1) then part else drop (equals + 1) part
    ]
