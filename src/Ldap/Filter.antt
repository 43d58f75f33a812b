-- ===== src/Ldap/Filter.antt =====
-- Search filters: ldap.cpp, `filter_matches_object`.
pub mod Safety
use endorium_nexus.Ldap.Ber.{LdapNode, read_node, string_from_node}
use endorium_nexus.Ldap.Objects.{LdapObject}
use endorium_nexus.Ldap.Members.{object_attribute_transitive_matches}
use endorium_nexus.Ldap.Sids.{object_has_attribute}
use endorium_nexus.Ldap.Matches.{
  object_attribute_equals, object_attribute_substring_matches, object_attribute_bitwise_matches,
}
use endorium_nexus.Prelude.{
  ltb, leb, ◌==◌, if◌then◌else◌, ltb→lt, lt→ltb, le→ltb, leb→le, ==_iff, tests, Bool-cases,
  Option-cases, length, get_elem?, set, take, drop, is_empty, any, keep, All, All-append,
  length-append, length-set, length-take, length-drop, take-append-drop, take-append, drop-append,
  drop-append_le, get_elem?-lt, get_elem?-append, set-append, Outcome, ok, reject, fault, ◌>>=◌,
  ◌>>◌, reject_if, attempt, byte_at, Outcome-cases, Ensures, Ends, returns, rejects, Ensures-bind,
  Ensures-ok, Ensures-ne-fault, Ensures-map, Ensures-attempt, Ensures-guard, Ensures-if, Returns,
  returned, Returns-bind, Returns-attempt, Returns-option, Returns-if, Returns-ok, Returns-Ensures,
  Returns-value, slice-Returns, byte_at-append, byte_at-behind, slice, slice-append, slice-Ensures,
  byte_at-lt, byte_at-Ensures, Text, codes, text_eq, text_eq_refl, text_eq→eq, text_eq_iff, ℤ, pos,
  negsuc, digits_of, to_string, digit_in, digits_run, wrapped, unsigned_run, prefixed_run, run_of,
  signed_run, stoul, is_space, trim_start, trim_end, behind_last, before_last, is_digit,
  decimal_value, unsigned_value, negated, signed_value, stoi, find_char, starts_with,
  starts_with-append, find_text, contains, contains-append, ends_with, to_lower, to_lower_idem,
  map-to_lower_idem, ℕ, zero, suc, ◌+◌, ◌-◌, ◌*◌, ◌/◌, ◌%◌, ◌^◌, ◌≤◌, ◌<◌, min, max, ◌≡◌, refl, sym,
  ap, ◌∙◌, ◌≢◌, ◌↔◌, ◌⊎◌, inl, inr, Bool, true, false, not, ◌&&◌, ◌||◌, Option, none, some, List,
  [], ◌∷◌, ◌++◌, map, append_assoc, append-nil, arith,
}

module _ (input : List ℕ) where
  -- The loops over the filters of a conjunction and of a disjunction; `matches` is the recursive call.
  unfoldable pub all_match : (LdapNode → Outcome Bool) → ℕ → ℕ → ℕ → Outcome Bool
  all_match matches zero offset limit = fault
  all_match matches (suc rounds) offset limit = if not (ltb offset limit) then ok true else do
    child ← attempt (read_node input offset limit)
    elim child [
      | none ↦ ok false
      | some node ↦ matches node >>= λ matched.
          if matched then all_match matches rounds node.next_offset limit else ok false
    ]

  unfoldable pub any_matches : (LdapNode → Outcome Bool) → ℕ → ℕ → ℕ → Outcome Bool
  any_matches matches zero offset limit = fault
  any_matches matches (suc rounds) offset limit = if not (ltb offset limit) then ok false else do
    child ← attempt (read_node input offset limit)
    elim child [
      | none ↦ ok false
      | some node ↦ matches node >>= λ matched.
          if matched then ok true else any_matches matches rounds node.next_offset limit
    ]

  unfoldable pub none_matches : (LdapNode → Outcome Bool) → ℕ → ℕ → Outcome Bool
  none_matches matches offset limit = do
    child ← attempt (read_node input offset limit)
    elim child [ none ↦ ok false | some node ↦ matches node >>= λ matched. ok (not matched) ]

-- The parts of a substring assertion; a later initial or final one takes the place of an earlier one.
pub record Fragments : Type 0 where
  pub initial : Option Text
  pub final : Option Text
  pub inner : List Text

unfoldable pub add_fragment : Fragments → ℕ → Text → Fragments
add_fragment parts tag text =
    if tag == 0x80
    then record { initial = some text; final = parts.final; inner = parts.inner }
    else if tag == 0x81
    then record { initial = parts.initial; final = parts.final; inner = parts.inner ++ text ∷ [] }
    else if tag == 0x82
    then record { initial = parts.initial; final = some text; inner = parts.inner }
    else parts

-- The parts of an extensible assertion.
pub record Assertion : Type 0 where
  pub matching_rule : Text
  pub attribute : Text
  pub match_value : Text

unfoldable pub add_part : Assertion → ℕ → Text → Assertion
add_part parts tag text =
    if tag == 0x81
    then record {
      matching_rule = text;
      attribute = parts.attribute;
      match_value = parts.match_value;
    }
    else if tag == 0x82
    then record {
      matching_rule = parts.matching_rule;
      attribute = text;
      match_value = parts.match_value;
    }
    else if tag == 0x83
    then record {
      matching_rule = parts.matching_rule;
      attribute = parts.attribute;
      match_value = text;
    }
    else parts

-- The loops over the fields of an assertion; `none` is a field that cannot be read. The source takes a
-- field's text only where it has a use for the tag.
unfoldable pub read_fields :
    {A : Type 0} → (A → ℕ → Text → A) → List ℕ → ℕ → ℕ → ℕ → A → Outcome (Option A)
read_fields add input zero offset limit parts = fault
read_fields add input (suc rounds) offset limit parts =
    if not (ltb offset limit) then ok (some parts) else do
      field ← attempt (read_node input offset limit)
      elim field [
        | none ↦ ok none
        | some node ↦ do
          text ← string_from_node input node
          read_fields add input rounds node.next_offset limit (add parts node.tag text)
      ]

module _ (input : List ℕ) (object : LdapObject) (all_objects : Option (List LdapObject)) where
  -- The value that stands behind the attribute's name.
  unfoldable pub value_equals : LdapNode → ℕ → Outcome Bool
  value_equals attribute limit = do
    value ← attempt (read_node input attribute.next_offset limit)
    elim value [
      | none ↦ ok false
      | some node ↦ do
        name ← string_from_node input attribute
        expected ← string_from_node input node
        ok (object_attribute_equals object name expected all_objects)
    ]

  unfoldable pub equality_matches : LdapNode → Outcome Bool
  equality_matches filter = do
    let limit = filter.content_offset + filter.content_length
    attribute ← attempt (read_node input filter.content_offset limit)
    elim attribute [
      | none ↦ ok false
      | some first ↦ if not (first.tag == 0x30) then value_equals first limit else do
        let sequence_limit = first.content_offset + first.content_length
        inside ← attempt (read_node input first.content_offset sequence_limit)
        elim inside [ none ↦ ok false | some name ↦ value_equals name sequence_limit ]
    ]

  unfoldable pub fragments_match : LdapNode → LdapNode → Outcome Bool
  fragments_match attribute fragments = do
    found ←
        read_fields add_fragment input (fragments.content_length + 1) fragments.content_offset
          (fragments.content_offset + fragments.content_length)
          (record { initial = none; final = none; inner = [] })
    elim found [
      | none ↦ ok false
      | some parts ↦ do
        name ← string_from_node input attribute
        ok (
            object_attribute_substring_matches object name parts.initial parts.inner parts.final
              all_objects)
    ]

  unfoldable pub substring_matches : LdapNode → Outcome Bool
  substring_matches filter = do
    let limit = filter.content_offset + filter.content_length
    first ← attempt (read_node input filter.content_offset limit)
    elim first [
      | none ↦ ok false
      | some attribute ↦ if not (attribute.tag == 0x04) then ok false else do
        second ← attempt (read_node input attribute.next_offset limit)
        elim second [
          | none ↦ ok false
          | some fragments ↦
              if not (fragments.tag == 0x30) then ok false else fragments_match attribute fragments
        ]
    ]

  unfoldable pub rule_matches : Assertion → Outcome Bool
  rule_matches parts =
      let equal = object_attribute_equals object parts.attribute parts.match_value all_objects in
      if is_empty parts.attribute
      then ok false
      else if text_eq parts.matching_rule (codes "1.2.840.113556.1.4.803")
      then ok (
          object_attribute_bitwise_matches object parts.attribute parts.match_value true
            all_objects)
      else if text_eq parts.matching_rule (codes "1.2.840.113556.1.4.804")
      then ok (
          object_attribute_bitwise_matches object parts.attribute parts.match_value false
            all_objects)
      else if text_eq parts.matching_rule (codes "1.2.840.113556.1.4.1941")
      then (object_attribute_transitive_matches object parts.attribute parts.match_value all_objects
          >>= λ matched. ok (matched || equal))
      else if is_empty parts.matching_rule
      then ok equal
      else ok false

  unfoldable pub extensible_matches : LdapNode → Outcome Bool
  extensible_matches filter = do
    found ←
        read_fields add_part input (filter.content_length + 1) filter.content_offset
          (filter.content_offset + filter.content_length)
          (record { matching_rule = []; attribute = []; match_value = [] })
    elim found [ none ↦ ok false | some parts ↦ rule_matches parts ]

  -- `fault` is a filter nested deeper than the rounds it was given.
  unfoldable pub filter_matches : ℕ → LdapNode → Outcome Bool
  filter_matches zero filter = fault
  filter_matches (suc depth) filter =
      let inner = filter_matches depth in
      let limit = filter.content_offset + filter.content_length in
      let rounds = filter.content_length + 1 in
      if filter.tag == 0xa0
      then all_match input inner rounds filter.content_offset limit
      else if filter.tag == 0xa1
      then any_matches input inner rounds filter.content_offset limit
      else if filter.tag == 0xa2
      then none_matches input inner filter.content_offset limit
      else if filter.tag == 0x87
      then (string_from_node input filter >>= λ name.
          ok (object_has_attribute object name all_objects))
      else if filter.tag == 0xa3
      then equality_matches filter
      else if filter.tag == 0xa4
      then substring_matches filter
      else if filter.tag == 0xa9
      then extensible_matches filter
      else ok true

-- A filter inside a filter is shorter than it.
unfoldable pub filter_matches_object :
    List ℕ → LdapNode → LdapObject → Option (List LdapObject) → Outcome Bool
filter_matches_object input filter object all_objects =
    filter_matches input object all_objects (filter.content_length + 1) filter
