-- ===== src/Ldap/Matches.antt =====
-- How an assertion matches an object: ldap.cpp, `object_attribute_equals` to
-- `object_attribute_bitwise_matches`.
pub mod Fragments
pub mod Substring
use endorium_nexus.Ldap.Objects.{LdapObject, equals_ascii_case, ldap_attribute_base_name}
use endorium_nexus.Ldap.Values.{
  uuid_string_to_ad_guid_bytes, object_guid_binary_value, object_attribute_values,
}
use endorium_nexus.Ldap.Sids.{token_group_sid_values}
use Prim.Native.Nat.{bit_and}
use endorium_nexus.Prelude.{
  ltb, leb, ◌==◌, if◌then◌else◌, ltb→lt, lt→ltb, le→ltb, leb→le, ==_iff, tests, Bool-cases,
  Option-cases, length, get_elem?, set, take, drop, is_empty, any, keep, All, All-append,
  length-append, length-set, length-take, length-drop, take-append-drop, take-append, drop-append,
  drop-append_le, get_elem?-lt, get_elem?-append, set-append, Outcome, ok, reject, fault, ◌>>=◌,
  ◌>>◌, reject_if, attempt, byte_at, Outcome-cases, Ensures, Ends, returns, rejects, Ensures-bind,
  Ensures-ok, Ensures-ne-fault, Ensures-map, Ensures-attempt, Ensures-guard, Ensures-if, Returns,
  returned, Returns-bind, Returns-attempt, Returns-option, Returns-if, Returns-ok, Returns-Ensures,
  Returns-value, slice-Returns, byte_at-append, byte_at-behind, slice, slice-append, slice-Ensures,
  byte_at-lt, byte_at-Ensures, Text, codes, text_eq, text_eq_refl, text_eq→eq, text_eq_iff, ℤ, pos,
  negsuc, digits_of, to_string, digit_in, digits_run, wrapped, unsigned_run, prefixed_run, run_of,
  signed_run, stoul, is_space, trim_start, trim_end, behind_last, before_last, is_digit,
  decimal_value, unsigned_value, negated, signed_value, stoi, find_char, starts_with,
  starts_with-append, find_text, contains, contains-append, ends_with, to_lower, to_lower_idem,
  map-to_lower_idem, ℕ, zero, suc, ◌+◌, ◌-◌, ◌*◌, ◌/◌, ◌%◌, ◌^◌, ◌≤◌, ◌<◌, min, max, ◌≡◌, refl, sym,
  ap, ◌∙◌, ◌≢◌, ◌↔◌, ◌⊎◌, inl, inr, Bool, true, false, not, ◌&&◌, ◌||◌, Option, none, some, List,
  [], ◌∷◌, ◌++◌, map, append_assoc, append-nil, arith,
}

-- The subauthorities, four bytes each, as text behind dashes.
unfoldable pub subauthorities_text : ℕ → List ℕ → Option Text
subauthorities_text zero bytes = some []
subauthorities_text (suc count) (a ∷ b ∷ c ∷ d ∷ bytes) = elim (subauthorities_text count bytes) [
  | none ↦ none
  | some rest ↦ some (b'-' ∷ (to_string (a + b * 2 ^ 8 + c * 2 ^ 16 + d * 2 ^ 24) ++ rest))
]
subauthorities_text (suc count) bytes = none

-- A security identifier in bytes, as text: revision 1, and 1 to 15 subauthorities.
unfoldable pub binary_sid : List ℕ → Option Text
binary_sid (revision ∷ count ∷ a ∷ b ∷ c ∷ d ∷ e ∷ f ∷ bytes) =
    let authority = ((((a * 256 + b) * 256 + c) * 256 + d) * 256 + e) * 256 + f in
    if not (revision == 1) || count == 0 || ltb 15 count
    then none
    else elim (subauthorities_text count bytes) [
      | none ↦ none
      | some rest ↦ some (codes "S-1-" ++ (to_string authority ++ rest))
    ]
binary_sid expected = none

unfoldable pub guid_equals : List ℕ → Text → Bool
guid_equals actual expected =
    if text_eq actual expected then true else elim (uuid_string_to_ad_guid_bytes expected) [
      | none ↦ false
      | some guid ↦ text_eq guid actual
    ]

unfoldable pub any_equals : List Text → Text → Bool
any_equals values expected = any (λ value. equals_ascii_case value expected) values

-- Lower case, without dashes, underscores and blanks.
unfoldable pub plain : Text → Text
plain value = keep (λ ch. not (ch == b'-' || ch == b'_' || is_space ch)) (map to_lower value)

unfoldable pub up_to_comma : Text → Text
up_to_comma value = elim (find_char b',' value) [ none ↦ value | some comma ↦ take comma value ]

-- The value of the first `cn=`, up to a comma.
unfoldable pub category_token : Text → Text
category_token expected =
    let token = map to_lower expected in
    plain (elim (find_text token (codes "cn=")) [
      | none ↦ token
      | some cn ↦ up_to_comma (drop (cn + 3) token)
    ])

unfoldable pub category_equals : LdapObject → Text → Bool
category_equals object expected =
    let token = category_token expected in
    let kind = plain object.kind in
    text_eq token kind
    || ((text_eq token (codes "person") || text_eq token (codes "user"))
        && text_eq kind (codes "user"))
    || (text_eq token (codes "organizationalunit") && text_eq kind (codes "organizationalunit"))
    || any (λ object_class. text_eq (plain object_class) token) object.object_classes

unfoldable pub or_text : Option Text → Text → Text
or_text none other = other
or_text (some text) other = text

unfoldable pub object_attribute_equals : LdapObject → Text → Text → Option (List LdapObject) → Bool
object_attribute_equals object attribute expected all_objects =
    let normalized_attribute = map to_lower (ldap_attribute_base_name attribute) in
    let values = object_attribute_values object attribute all_objects in
    if text_eq normalized_attribute (codes "objectguid")
    then guid_equals (object_guid_binary_value object) expected
    else if text_eq normalized_attribute (codes "objectsid")
    then any_equals values (or_text (binary_sid expected) expected)
    else if text_eq normalized_attribute (codes "tokengroups")
    then any_equals (token_group_sid_values object all_objects)
        (or_text (binary_sid expected) expected)
    else if text_eq normalized_attribute (codes "objectcategory")
    then category_equals object expected || any_equals values expected
    else any_equals values expected

-- find from an offset
unfoldable pub find_from : Text → Text → ℕ → Option ℕ
find_from value needle offset =
    if ltb (length value) offset
    then none
    else elim (find_text (drop offset value) needle) [ none ↦ none | some i ↦ some (offset + i) ]

-- The loop over the inner fragments: the offset behind the last of them.
unfoldable pub find_fragments : Text → List Text → ℕ → Option ℕ
find_fragments value [] offset = some offset
find_fragments value (fragment ∷ fragments) offset =
    let needle = map to_lower fragment in
    elim (find_from value needle offset) [
      | none ↦ none
      | some found ↦ find_fragments value fragments (found + length needle)
    ]

unfoldable pub initial_offset : Text → Option Text → Option ℕ
initial_offset value none = some 0
initial_offset value (some initial) =
    let prefix = map to_lower initial in
    if starts_with value prefix then some (length prefix) else none

unfoldable pub ends_behind : Text → Text → ℕ → Bool
ends_behind value final offset =
    let suffix = map to_lower final in
    if not (ends_with value suffix)
    then false
    else leb (length suffix) (length value) && leb offset (length value - length suffix)

unfoldable pub has_text : Option Text → Bool
has_text none = false
has_text (some text) = true

unfoldable pub final_matches : Text → Option Text → List Text → Option Text → ℕ → Bool
final_matches value initial fragments none offset = has_text initial || not (is_empty fragments)
final_matches value initial fragments (some final) offset = ends_behind value final offset

unfoldable pub substring_pattern_matches_value : Text → Option Text → List Text → Option Text → Bool
substring_pattern_matches_value candidate initial fragments final =
    let value = map to_lower candidate in
    elim (initial_offset value initial) [
      | none ↦ false
      | some offset ↦ elim (find_fragments value fragments offset) [
        | none ↦ false
        | some behind ↦ final_matches value initial fragments final behind
      ]
    ]

unfoldable pub object_attribute_substring_matches :
    LdapObject → Text → Option Text → List Text → Option Text → Option (List LdapObject) → Bool
object_attribute_substring_matches object attribute initial fragments final all_objects =
    any (λ value. substring_pattern_matches_value value initial fragments final)
      (object_attribute_values object attribute all_objects)

unfoldable pub parse_u64 : Text → Option ℕ
parse_u64 value = elim (stoul 0 value) [
  | none ↦ none
  | some (parsed, rest) ↦ if is_empty rest then some parsed else none
]

unfoldable pub bits_match : Bool → ℕ → Option ℕ → Bool
bits_match require_all_bits expected none = false
bits_match require_all_bits expected (some actual) =
    if require_all_bits
    then bit_and actual expected == expected
    else not (bit_and actual expected == 0)

unfoldable pub object_attribute_bitwise_matches :
    LdapObject → Text → Text → Bool → Option (List LdapObject) → Bool
object_attribute_bitwise_matches object attribute expected require_all_bits all_objects =
    elim (parse_u64 expected) [
      | none ↦ false
      | some bits ↦
          any (λ value. bits_match require_all_bits bits (parse_u64 value))
            (object_attribute_values object attribute all_objects)
    ]
