-- ===== src/Ldap/Sids.antt =====
-- Security identifiers and descriptors, and the attributes that are bytes: ldap.cpp,
-- `sid_subauthorities` to `object_has_attribute`.
use endorium_nexus.Ldap.Objects.{
  LdapObject, append_unique_value, object_group_rids, group_contains_object, find_object_attribute,
  ldap_attribute_matches,
}
use endorium_nexus.Ldap.Values.{
  append_u16_le, append_u32_le, object_guid_binary_value, object_attribute_values,
}
use endorium_nexus.Prelude.{
  ltb, leb, ◌==◌, if◌then◌else◌, length, drop, is_empty, Text, codes, to_string, stoul, before_last,
  starts_with, ℕ, ◌+◌, ◌%◌, ◌^◌, Bool, false, not, ◌||◌, Option, none, some, List, [], ◌∷◌, ◌++◌,
}

-- The parts behind `S-1-5-`: numbers between dashes. A part that is no number is refused.
unfoldable pub sid_parts : Text → Text → List ℕ → Option (List ℕ)
sid_parts [] part values = elim (stoul 10 part) [
  | none ↦ none
  | some (value, rest) ↦ if is_empty rest then some (values ++ value % 2 ^ 32 ∷ []) else none
]
sid_parts (ch ∷ text) part values =
    let longer = sid_parts text (part ++ ch ∷ []) values in
    let next : Option (List ℕ) = elim (stoul 10 part) [
      | none ↦ none
      | some (value, rest) ↦
          if is_empty rest
          then (if is_empty text
              then some (values ++ value % 2 ^ 32 ∷ [])
              else sid_parts text [] (values ++ value % 2 ^ 32 ∷ []))
          else none
    ] in
    if ch == b'-' then next else longer

unfoldable pub sid_subauthorities : Text → Option (List ℕ)
sid_subauthorities sid =
    let parts = drop 6 sid in
    if not (starts_with sid (codes "S-1-5-"))
    then none
    else if is_empty parts
    then some []
    else sid_parts parts [] []

unfoldable pub append_subauthorities : List ℕ → List ℕ → List ℕ
append_subauthorities output [] = output
append_subauthorities output (subauthority ∷ rest) =
    append_subauthorities (append_u32_le output subauthority) rest

unfoldable pub sid_bytes : Text → List ℕ
sid_bytes sid = elim (sid_subauthorities sid) [
  | none ↦ []
  | some subauthorities ↦
      if is_empty subauthorities || ltb 15 (length subauthorities)
      then []
      else append_subauthorities (1 ∷ length subauthorities ∷ 0 ∷ 0 ∷ 0 ∷ 0 ∷ 0 ∷ 5 ∷ [])
          subauthorities
]

unfoldable pub has_few : Option (List ℕ) → Bool
has_few none = false
has_few (some subauthorities) = leb (length subauthorities) 4

unfoldable pub domain_sid_from_object_sid : Text → Text
domain_sid_from_object_sid sid =
    if has_few (sid_subauthorities sid)
    then sid
    else elim (before_last b'-' sid) [ none ↦ sid | some front ↦ front ]

unfoldable pub security_descriptor_ace : Text → ℕ → List ℕ
security_descriptor_ace sid access_mask =
    let encoded_sid = sid_bytes sid in
    if is_empty encoded_sid
    then []
    else append_u32_le (append_u16_le (0 ∷ 0 ∷ []) (8 + length encoded_sid)) access_mask
      ++ encoded_sid

-- The entries that could be encoded, and their number.
unfoldable pub dacl_aces : List Text → List ℕ → ℕ → List ℕ × ℕ
dacl_aces [] aces ace_count = (aces, ace_count)
dacl_aces (sid ∷ sids) aces ace_count =
    let ace = security_descriptor_ace sid 0x000f01ff in
    dacl_aces sids (aces ++ ace) (if is_empty ace then ace_count else ace_count + 1)

unfoldable pub security_descriptor_dacl : List Text → List ℕ
security_descriptor_dacl allowed_sids =
    let (aces, ace_count) = dacl_aces allowed_sids [] 0 in
    append_u16_le (append_u16_le (append_u16_le (2 ∷ 0 ∷ []) (8 + length aces)) ace_count) 0 ++ aces

unfoldable pub domain_sid_of : List Text → Text
domain_sid_of [] = []
domain_sid_of (sid ∷ sids) = domain_sid_from_object_sid sid

unfoldable pub minimal_security_descriptor : LdapObject → List ℕ
minimal_security_descriptor object =
    let domain_sid = domain_sid_of (object_attribute_values object (codes "objectSid") none) in
    let owner = sid_bytes (codes "S-1-5-32-544") in
    let group =
      sid_bytes
        (if is_empty domain_sid then codes "S-1-5-32-544" else domain_sid ++ codes "-512") in
    let admins : List Text =
      if is_empty domain_sid then [] else (domain_sid ++ codes "-512") ∷ [] in
    let dacl = security_descriptor_dacl (codes "S-1-5-18" ∷ codes "S-1-5-32-544" ∷ admins) in
    if is_empty owner || is_empty group || is_empty dacl
    then []
    else append_u32_le
        (append_u32_le
          (append_u32_le (append_u32_le (append_u16_le (1 ∷ 0 ∷ []) 0x8004) 20) (20 + length owner))
          0)
        (20 + length owner + length group)
      ++ (owner ++ (group ++ dacl))

unfoldable pub group_sid : LdapObject → List Text → List Text
group_sid group sids = elim (find_object_attribute group (codes "objectSid")) [
  | none ↦ sids
  | some (key, sid) ↦ append_unique_value sids sid
]

unfoldable pub group_sids : LdapObject → List LdapObject → List Text → List Text
group_sids object [] sids = sids
group_sids object (group ∷ groups) sids =
    group_sids object groups
      (if group_contains_object group object then group_sid group sids else sids)

unfoldable pub rid_sids : Text → List ℕ → List Text → List Text
rid_sids domain_sid [] sids = sids
rid_sids domain_sid (rid ∷ rids) sids =
    rid_sids domain_sid rids (append_unique_value sids (domain_sid ++ codes "-" ++ to_string rid))

unfoldable pub token_group_sid_values : LdapObject → Option (List LdapObject) → List Text
token_group_sid_values object all_objects =
    let domain_sid = domain_sid_of (object_attribute_values object (codes "objectSid") none) in
    elim all_objects [
      | some objects ↦ group_sids object objects []
      | none ↦ if is_empty domain_sid then [] else rid_sids domain_sid (object_group_rids object) []
    ]

unfoldable pub encoded_sids : List Text → List (List ℕ)
encoded_sids [] = []
encoded_sids (sid ∷ sids) =
    let encoded = sid_bytes sid in
    let rest = encoded_sids sids in if is_empty encoded then rest else encoded ∷ rest

unfoldable pub object_attribute_binary_values :
    LdapObject → Text → Option (List LdapObject) → List (List ℕ)
object_attribute_binary_values object attribute all_objects =
    let is = ldap_attribute_matches attribute in
    let descriptor = minimal_security_descriptor object in
    if is (codes "objectGUID")
    then object_guid_binary_value object ∷ []
    else if is (codes "objectSid")
    then encoded_sids (object_attribute_values object attribute none)
    else if is (codes "tokenGroups")
    then encoded_sids (token_group_sid_values object all_objects)
    else if is (codes "nTSecurityDescriptor")
    then (if is_empty descriptor then [] else descriptor ∷ [])
    else []

unfoldable pub object_has_attribute : LdapObject → Text → Option (List LdapObject) → Bool
object_has_attribute object attribute all_objects =
    let is = ldap_attribute_matches attribute in
    if is (codes "objectGUID")
    then length (object_guid_binary_value object) == 16
    else if is (codes "nTSecurityDescriptor")
    then not (is_empty (minimal_security_descriptor object))
    else if is (codes "tokenGroups")
    then not (is_empty (object_attribute_binary_values object attribute all_objects))
    else not (is_empty (object_attribute_values object attribute all_objects))
