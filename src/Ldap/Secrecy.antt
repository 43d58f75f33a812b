-- ===== src/Ldap/Secrecy.antt =====
-- The stored password hashes: no answer of a search shows them, and no assertion can test them.
use endorium_nexus.Ldap.Objects.{
  LdapObject, equals_ascii_case, ldap_attribute_base_name, ldap_attribute_matches,
}
use endorium_nexus.Ldap.Values.{object_attribute_values}
use endorium_nexus.Ldap.Sids.{object_attribute_binary_values, object_has_attribute}
use endorium_nexus.Ldap.Matches.{
  object_attribute_equals, object_attribute_substring_matches, object_attribute_bitwise_matches,
  any_equals, parse_u64,
}
use endorium_nexus.Ldap.Entries.{
  LdapEntryAttribute, attribute_of, add_attribute, add_attributes, wants_no_attributes,
  has_requested_attribute, ldap_attributes_for_object,
}
use endorium_nexus.Prelude.{
  if◌then◌else◌, Bool-cases, Option-cases, is_empty, any, All, All-append, Text, codes, text_eq,
  text_eq→eq, to_lower, ◌≡◌, inl, inr, Bool, true, false, not, ◌&&◌, ◌||◌, Option, List, [], ◌∷◌,
  ◌++◌, map,
}

-- The attribute's name, letter case and options aside, is that of the password hash.
abbrev pub IsHash : Text → Type 0
IsHash attribute = ldap_attribute_matches attribute (codes "userPasswordHash") ≡ true

hash_name :
    (attribute : Text)
    → IsHash attribute
    → map to_lower (ldap_attribute_base_name attribute) ≡ codes "userpasswordhash"
unfolding ldap_attribute_matches equals_ascii_case to_lower
hash_name attribute h = text_eq→eq _ _ h

module _ (object : LdapObject) (attribute : Text) (all_objects : Option (List LdapObject))
    (h : IsHash attribute) where
  hidden_values : object_attribute_values object attribute all_objects ≡ []
  unfolding object_attribute_values ldap_attribute_matches equals_ascii_case text_eq to_lower
  hidden_values = rw (hash_name attribute h)

  hidden_binary : object_attribute_binary_values object attribute all_objects ≡ []
  unfolding object_attribute_binary_values ldap_attribute_matches equals_ascii_case text_eq to_lower
  hidden_binary = rw (hash_name attribute h)

  no_presence : object_has_attribute object attribute all_objects ≡ false
  unfolding object_has_attribute ldap_attribute_matches equals_ascii_case text_eq to_lower
  no_presence = rw (hash_name attribute h, hidden_values)

  no_equality :
      (expected : Text) → object_attribute_equals object attribute expected all_objects ≡ false
  unfolding object_attribute_equals text_eq any_equals any
  no_equality expected = rw (hash_name attribute h, hidden_values)

  no_substring :
      (initial : Option Text) (fragments : List Text) (final : Option Text)
      → object_attribute_substring_matches object attribute initial fragments final all_objects
        ≡ false
  unfolding object_attribute_substring_matches any
  no_substring initial fragments final = rw hidden_values

  no_bits :
      (expected : Text) (require_all_bits : Bool)
      → object_attribute_bitwise_matches object attribute expected require_all_bits all_objects
        ≡ false
  unfolding object_attribute_bitwise_matches any
  no_bits expected require_all_bits = elim (Option-cases (parse_u64 expected)) [
    | inl e ↦ rw (e, object_attribute_bitwise_matches)
    | inr (bits, e) ↦ rw (e, object_attribute_bitwise_matches, hidden_values)
  ]

  -- No presence, equality, substring or bitwise assertion on the attribute of the password hash holds
  -- of an object.
  pub hash_untested :
      (expected : Text) (initial : Option Text) (fragments : List Text) (final : Option Text)
      (require_all_bits : Bool)
      → (object_has_attribute object attribute all_objects ≡ false)
        × (object_attribute_equals object attribute expected all_objects ≡ false)
        × (object_attribute_substring_matches object attribute initial fragments final all_objects
            ≡ false)
        × (object_attribute_bitwise_matches object attribute expected require_all_bits all_objects
            ≡ false)
  hash_untested expected initial fragments final require_all_bits = (
    no_presence,
    no_equality expected,
    no_substring initial fragments final,
    no_bits expected require_all_bits,
  )

-- The attribute is not that of the password hash.
abbrev pub Shown : LdapEntryAttribute → Type 0
Shown attribute = ldap_attribute_matches attribute.name (codes "userPasswordHash") ≡ false

module _ (object : LdapObject) (all_objects : Option (List LdapObject)) where
  hash-attribute_of : (name : Text) → IsHash name → attribute_of object all_objects name ≡ []
  unfolding attribute_of
  hash-attribute_of name h =
      rw (hidden_binary object name all_objects h, hidden_values object name all_objects h)

  single-All :
      (b c : Bool) (x y : LdapEntryAttribute)
      → Shown x
      → Shown y
      → All Shown (if b then x ∷ [] else if c then y ∷ [] else [])
  single-All true c x y h k = (h, tt)
  single-All false true x y h k = (k, tt)
  single-All false false x y h k = tt

  attribute_of-All : (name : Text) → All Shown (attribute_of object all_objects name)
  unfolding attribute_of
  attribute_of-All name =
      elim (Bool-cases (ldap_attribute_matches name (codes "userPasswordHash"))) [
        | inl h ↦ rw (hash-attribute_of name h) tt
        | inr h ↦
            let binary_values = object_attribute_binary_values object name all_objects in
            let values = object_attribute_values object name all_objects in
            single-All (not (is_empty binary_values)) (not (is_empty values))
              (record { name = name; string_values = []; binary_values = binary_values })
              (record { name = name; string_values = values; binary_values = [] }) h h
      ]

  add_attribute-All :
      (attributes : List LdapEntryAttribute) (name : Text)
      → All Shown attributes
      → All Shown (add_attribute object all_objects attributes name)
  unfolding add_attribute
  add_attribute-All attributes name h =
      by_case (any (λ existing. equals_ascii_case existing.name name) attributes)
    where
      by_case :
          (b : Bool)
          → All Shown (if b then attributes else attributes ++ attribute_of object all_objects name)
      by_case true = h
      by_case false =
          All-append Shown attributes (attribute_of object all_objects name) h
            (attribute_of-All name)

  add_attributes-All :
      (names : List Text) (attributes : List LdapEntryAttribute)
      → All Shown attributes
      → All Shown (add_attributes object all_objects attributes names)
  unfolding add_attributes
  add_attributes-All [] attributes h = h
  add_attributes-All (name ∷ names) attributes h =
      add_attributes-All names (add_attribute object all_objects attributes name)
        (add_attribute-All attributes name h)

  if-All :
      (b : Bool) (xs ys : List LdapEntryAttribute)
      → All Shown xs
      → All Shown ys
      → All Shown (if b then xs else ys)
  if-All true xs ys h k = h
  if-All false xs ys h k = k

  -- Whatever attributes a search asks for, the entry of an object has none whose name, letter case
  -- and options aside, is that of the password hash.
  pub ldap_attributes_for_object-Shown :
      (requested_attributes : List Text)
      → All Shown (ldap_attributes_for_object object all_objects requested_attributes)
  unfolding ldap_attributes_for_object
  ldap_attributes_for_object-Shown requested_attributes =
      let all_user_attributes =
        is_empty requested_attributes || has_requested_attribute requested_attributes (codes "*") in
      let all_operational_attributes = has_requested_attribute requested_attributes (codes "+") in
      if-All (wants_no_attributes requested_attributes) _ _ tt (
        if-All (all_user_attributes && not all_operational_attributes) _ _
          (add_attributes-All _ [] tt) (add_attributes-All _ _ (add_attributes-All _ [] tt)))
