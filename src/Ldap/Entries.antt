-- ===== src/Ldap/Entries.antt =====
-- The scope of a search and the entries it returns: ldap.cpp, `object_in_scope` to
-- `search_result_entry`.
use endorium_nexus.Ldap.Ber.{append_tlv, append_octet_string, partial_attribute}
use endorium_nexus.Ldap.Names.{parent_dn_from_dn}
use endorium_nexus.Ldap.Objects.{LdapObject, equals_ascii_case, ends_with_ascii_case}
use endorium_nexus.Ldap.Values.{object_attribute_values}
use endorium_nexus.Ldap.Sids.{object_attribute_binary_values}
use endorium_nexus.Ldap.Requests.{SearchRequest}
use endorium_nexus.Prelude.{
  ◌==◌, if◌then◌else◌, is_empty, any, Text, codes, text_eq, ℕ, Bool, false, not, ◌&&◌, ◌||◌, Option,
  List, [], ◌∷◌, ◌++◌,
}

pub record LdapEntryAttribute : Type 0 where
  pub name : Text
  pub string_values : List Text
  pub binary_values : List (List ℕ)

unfoldable pub object_in_scope : LdapObject → SearchRequest → Bool
object_in_scope object request =
    let parent =
      if is_empty object.parent_dn then parent_dn_from_dn object.dn else object.parent_dn in
    if is_empty request.base_dn
    then false
    else if request.scope == 0
    then equals_ascii_case object.dn request.base_dn
    else if request.scope == 1
    then equals_ascii_case parent request.base_dn
    else equals_ascii_case object.dn request.base_dn
      || ends_with_ascii_case object.dn (codes "," ++ request.base_dn)

unfoldable pub wants_no_attributes : List Text → Bool
wants_no_attributes [] = false
wants_no_attributes (first ∷ []) = text_eq first (codes "1.1")
wants_no_attributes (first ∷ second ∷ rest) = false

unfoldable pub has_requested_attribute : List Text → Text → Bool
has_requested_attribute requested_attributes attribute =
    any (λ requested. equals_ascii_case requested attribute) requested_attributes

module _ (object : LdapObject) (all_objects : Option (List LdapObject)) where
  -- The attribute of a name: its binary values, else its values, else nothing.
  unfoldable pub attribute_of : Text → List LdapEntryAttribute
  attribute_of name =
      let binary_values = object_attribute_binary_values object name all_objects in
      let values = object_attribute_values object name all_objects in
      if not (is_empty binary_values)
      then record { name = name; string_values = []; binary_values = binary_values } ∷ []
      else if not (is_empty values)
      then record { name = name; string_values = values; binary_values = [] } ∷ []
      else []

  unfoldable pub add_attribute : List LdapEntryAttribute → Text → List LdapEntryAttribute
  add_attribute attributes name =
      if any (λ existing. equals_ascii_case existing.name name) attributes
      then attributes
      else attributes ++ attribute_of name

  unfoldable pub add_attributes : List LdapEntryAttribute → List Text → List LdapEntryAttribute
  add_attributes attributes [] = attributes
  add_attributes attributes (name ∷ names) = add_attributes (add_attribute attributes name) names

  -- The names of the stored attributes, without that of the password hash.
  unfoldable pub stored_names : List (Text × Text) → List Text
  stored_names [] = []
  stored_names ((key, value) ∷ rest) =
      let names = stored_names rest in
      if equals_ascii_case key (codes "userPasswordHash") then names else key ∷ names

  unfoldable pub constructed_names : List Text
  constructed_names =
      codes "sAMAccountType"
      ∷ codes "primaryGroupToken"
      ∷ codes "memberOf"
      ∷ codes "tokenGroups"
      ∷ []

  unfoldable pub user_names : List Text
  user_names =
      codes "objectClass"
      ∷ codes "distinguishedName"
      ∷ codes "name"
      ∷ codes "objectGUID"
      ∷ codes "whenCreated"
      ∷ codes "whenChanged"
      ∷ codes "uSNCreated"
      ∷ codes "uSNChanged"
      ∷ (stored_names object.attributes ++ constructed_names)

  -- The loop over the requested names, which leaves out `*` and `+`.
  unfoldable pub named_requests : List Text → List Text
  named_requests [] = []
  named_requests (requested ∷ rest) =
      let names = named_requests rest in
      if text_eq requested (codes "*") || text_eq requested (codes "+")
      then names
      else requested ∷ names

  unfoldable pub ldap_attributes_for_object : List Text → List LdapEntryAttribute
  ldap_attributes_for_object requested_attributes =
      let all_user_attributes =
        is_empty requested_attributes || has_requested_attribute requested_attributes (codes "*") in
      let all_operational_attributes = has_requested_attribute requested_attributes (codes "+") in
      if wants_no_attributes requested_attributes
      then []
      else if all_user_attributes && not all_operational_attributes
      then add_attributes [] user_names
      else add_attributes
          (add_attributes [] (
            if all_user_attributes
            then user_names
            else if all_operational_attributes
            then constructed_names
            else []))
          (named_requests requested_attributes)

  -- The loop that encodes the attributes.
  unfoldable pub encoded_attributes : List LdapEntryAttribute → List ℕ
  encoded_attributes [] = []
  encoded_attributes (attribute ∷ attributes) =
      (if is_empty attribute.binary_values
        then partial_attribute attribute.name attribute.string_values
        else partial_attribute attribute.name attribute.binary_values)
      ++ encoded_attributes attributes

  unfoldable pub search_result_entry : List Text → List ℕ
  search_result_entry requested_attributes =
      append_tlv (append_octet_string [] object.dn) 0x30
        (encoded_attributes (ldap_attributes_for_object requested_attributes))
