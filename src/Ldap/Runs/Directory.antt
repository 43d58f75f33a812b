-- ===== src/Ldap/Runs/Directory.antt =====
-- Concrete runs of searches, binds and writes, and their theorems at concrete inputs.
use endorium_nexus.Ldap.Ber.{LdapNode}
use endorium_nexus.Ldap.Objects.{
  LdapObject, equals_ascii_case, find_object_by_dn, constructed_member_of_values,
  constructed_member_values, is_group_object,
}
use endorium_nexus.Ldap.Objects.{ldap_attribute_matches, ldap_attribute_base_name}
use endorium_nexus.Ldap.Sids.{object_has_attribute}
use endorium_nexus.Ldap.Matches.{
  object_attribute_equals, object_attribute_substring_matches, object_attribute_bitwise_matches,
}
use endorium_nexus.Ldap.Entries.{ldap_attributes_for_object}
use endorium_nexus.Ldap.Secrecy.{IsHash, hash_untested, Shown, ldap_attributes_for_object-Shown}
use endorium_nexus.Ldap.Members.{member_of_chain_contains, member_chain_contains}
use endorium_nexus.Ldap.Members.Chain.{Leads, Decides, chains-Decides}
use endorium_nexus.Ldap.Matches.{substring_pattern_matches_value}
use endorium_nexus.Ldap.Matches.Substring.{
  IsComposed, is_asserted, substring_pattern_matches_value_lem,
}
use endorium_nexus.Ldap.Filter.{filter_matches_object}
use endorium_nexus.Ldap.Filter.Safety.{filter_matches_object-Returns}
use endorium_nexus.Ldap.Search.{search_response}
use endorium_nexus.Ldap.Search.Safety.{search_response-Returns}
use endorium_nexus.Prelude.{
  All, ok, codes, text_eq, find_char, to_lower, ℕ, ◌≡◌, refl, ◌↔◌, Bool, true, false, none, some,
  List, [], ◌∷◌, map, arith,
}

abbrev user_object : LdapObject
user_object = record {
  dn = codes "cn=u";
  parent_dn = [];
  kind = codes "user";
  object_classes = codes "user" ∷ [];
  attributes = (codes "memberOf", codes "cn=g") ∷ [];
}

abbrev inner_group : LdapObject
inner_group = record {
  dn = codes "cn=g";
  parent_dn = [];
  kind = codes "group";
  object_classes = codes "group" ∷ [];
  attributes = (codes "memberOf", codes "cn=h") ∷ (codes "member", codes "cn=u") ∷ [];
}

abbrev outer_group : LdapObject
outer_group = record {
  dn = codes "cn=h";
  parent_dn = [];
  kind = codes "group";
  object_classes = codes "group" ∷ [];
  attributes = (codes "member", codes "cn=g") ∷ (codes "memberOf", codes "cn=g") ∷ [];
}

abbrev stored_objects : List LdapObject
stored_objects = user_object ∷ inner_group ∷ outer_group ∷ []

stored : find_object_by_dn stored_objects user_object.dn ≡ some user_object
unfolding find_object_by_dn equals_ascii_case text_eq to_lower
stored = refl

chains-Decides_example :
    Decides (member_of_chain_contains user_object (codes "CN=H") stored_objects) (
      Leads
        (λ o. true)
        (λ o. constructed_member_of_values o (some stored_objects))
        stored_objects
        (codes "CN=H")
        user_object)
    × Decides (member_chain_contains user_object (codes "CN=H") stored_objects) (
        Leads is_group_object
          (λ o. constructed_member_values o (some stored_objects))
          stored_objects
          (codes "CN=H")
          user_object)
chains-Decides_example = chains-Decides stored_objects (codes "CN=H") user_object stored

substring_pattern_matches_value_lem_example :
    (substring_pattern_matches_value
        (codes "ababc")
        (some (codes "A"))
        (codes "b" ∷ codes "AB" ∷ [])
        (some (codes "c"))
      ≡ true)
    ↔ ((is_asserted (some (codes "A")) (codes "b" ∷ codes "AB" ∷ []) (some (codes "c")) ≡ true)
        × IsComposed
            (map to_lower (codes "ababc"))
            (some (codes "A"))
            (codes "b" ∷ codes "AB" ∷ [])
            (some (codes "c")))
substring_pattern_matches_value_lem_example =
    substring_pattern_matches_value_lem (codes "ababc") (some (codes "A"))
      (codes "b" ∷ codes "AB" ∷ []) (some (codes "c"))

-- A conjunction of a presence and a negated presence.
abbrev filter_bytes : List ℕ
filter_bytes = 0xa0 ∷ 8 ∷ 0x87 ∷ 2 ∷ 99 ∷ 110 ∷ 0xa2 ∷ 2 ∷ 0x87 ∷ 0 ∷ []

abbrev filter_node : LdapNode
filter_node = record { tag = 0xa0; content_offset = 2; content_length = 8; next_offset = 10 }

filter_matches_object-Returns_example :
    (matched : Bool) × (filter_matches_object filter_bytes filter_node user_object
        (some stored_objects)
      ≡ ok matched)
filter_matches_object-Returns_example =
    filter_matches_object-Returns filter_bytes filter_node user_object (some stored_objects)
      (omega arith)

-- A search under cn=h whose operation starts at the sixth byte.
abbrev search_bytes : List ℕ
search_bytes =
    0x30 ∷ 34 ∷ 2 ∷ 1 ∷ 5 ∷ 0x63 ∷ 29 ∷ 4 ∷ 4 ∷ 99 ∷ 110 ∷ 61 ∷ 104 ∷ 10 ∷ 1 ∷ 2 ∷ 10 ∷ 1 ∷ 0 ∷ 2
    ∷ 1 ∷ 0 ∷ 2 ∷ 1 ∷ 0 ∷ 1 ∷ 1 ∷ 0 ∷ 0x87 ∷ 4 ∷ 109 ∷ 97 ∷ 105 ∷ 108 ∷ 0x30 ∷ 0 ∷ []

abbrev search_node : LdapNode
search_node = record { tag = 0x63; content_offset = 7; content_length = 29; next_offset = 36 }

search_response-Returns_example :
    (answer : List ℕ) × (search_response
        (1 ∷ [])
        (2 ∷ [])
        (outer_group ∷ [])
        search_bytes
        5
        search_node
        stored_objects
      ≡ ok answer)
search_response-Returns_example =
    search_response-Returns (1 ∷ []) (2 ∷ []) (outer_group ∷ []) search_bytes 5 search_node
      stored_objects

abbrev hashed_user : LdapObject
hashed_user = record {
  dn = codes "cn=u";
  parent_dn = [];
  kind = codes "user";
  object_classes = codes "user" ∷ [];
  attributes = (codes "userpasswordhash", codes "5f4d") ∷ (codes "mail", codes "u@x") ∷ [];
}

option_name : IsHash (codes "USERPASSWORDHASH;binary")
unfolding ldap_attribute_matches ldap_attribute_base_name find_char equals_ascii_case text_eq
    to_lower
option_name = refl

hash_untested_example :
    (object_has_attribute hashed_user (codes "USERPASSWORDHASH;binary") none ≡ false)
    × (object_attribute_equals hashed_user (codes "USERPASSWORDHASH;binary") (codes "5f4d") none
        ≡ false)
    × (object_attribute_substring_matches hashed_user
          (codes "USERPASSWORDHASH;binary")
          (some (codes "5"))
          []
          none
          none
        ≡ false)
    × (object_attribute_bitwise_matches hashed_user
          (codes "USERPASSWORDHASH;binary")
          (codes "5f4d")
          true
          none
        ≡ false)
hash_untested_example =
    hash_untested hashed_user (codes "USERPASSWORDHASH;binary") none option_name (codes "5f4d")
      (some (codes "5")) [] none true

ldap_attributes_for_object-Shown_example :
    All Shown
      (ldap_attributes_for_object hashed_user none (codes "*" ∷ codes "userPasswordHash;x" ∷ []))
ldap_attributes_for_object-Shown_example =
    ldap_attributes_for_object-Shown hashed_user none (codes "*" ∷ codes "userPasswordHash;x" ∷ [])
