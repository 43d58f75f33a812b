-- ===== src/Ldap/Objects.antt =====
-- Objects of the directory and who is a member of which group: ldap.cpp, `equals_ascii_case` to
-- `find_object_by_dn`.
use endorium_nexus.Prelude.{
  ltb, ◌==◌, if◌then◌else◌, length, take, drop, is_empty, any, Text, codes, text_eq, stoul,
  is_space, trim_start, trim_end, behind_last, find_char, ends_with, to_lower, ℕ, ◌-◌, ◌^◌, Bool,
  true, false, not, ◌&&◌, ◌||◌, Option, none, some, List, [], ◌∷◌, ◌++◌, map,
}

-- The attributes in the order of their keys.
pub record LdapObject : Type 0 where
  pub dn : Text
  pub parent_dn : Text
  pub kind : Text
  pub object_classes : List Text
  pub attributes : List (Text × Text)

unfoldable pub equals_ascii_case : Text → Text → Bool
equals_ascii_case left right = text_eq (map to_lower left) (map to_lower right)

unfoldable pub trim_ascii_copy : Text → Text
trim_ascii_copy value = trim_end (trim_start value)

unfoldable pub ends_with_ascii_case : Text → Text → Bool
ends_with_ascii_case value suffix =
    if ltb (length value) (length suffix)
    then false
    else equals_ascii_case (drop (length value - length suffix) value) suffix

unfoldable pub ldap_attribute_base_name : Text → Text
ldap_attribute_base_name attribute = elim (find_char b';' attribute) [
  | none ↦ attribute
  | some option ↦ take option attribute
]

unfoldable pub ldap_attribute_matches : Text → Text → Bool
ldap_attribute_matches attribute expected =
    equals_ascii_case (ldap_attribute_base_name attribute) expected

unfoldable pub push_entry : Text → List Text → List Text
push_entry entry values =
    let trimmed = trim_ascii_copy entry in
    if is_empty trimmed then values else values ++ trimmed ∷ []

-- The loop over the characters: `commas` says whether a comma separates as well.
unfoldable pub split_entries : Bool → Text → Text → List Text → List Text
split_entries commas [] entry values = push_entry entry values
split_entries commas (ch ∷ rest) entry values =
    let next = split_entries commas rest [] (push_entry entry values) in
    let more = split_entries commas rest (entry ++ ch ∷ []) values in
    if ch == b';' || (commas && ch == b',') then next else more

unfoldable pub split_ldap_values : Text → Text → List Text
split_ldap_values attribute value =
    let is_spn = equals_ascii_case attribute (codes "servicePrincipalName") in
    if is_spn
      || equals_ascii_case attribute (codes "member")
      || equals_ascii_case attribute (codes "memberOf")
    then split_entries is_spn value [] []
    else value ∷ []

unfoldable pub find_attribute : List (Text × Text) → Text → Option (Text × Text)
find_attribute [] attribute = none
find_attribute ((key, value) ∷ rest) attribute =
    let later = find_attribute rest attribute in
    if equals_ascii_case key attribute then some (key, value) else later

unfoldable pub find_object_attribute : LdapObject → Text → Option (Text × Text)
find_object_attribute object attribute = find_attribute object.attributes attribute

unfoldable pub append_unique_value : List Text → Text → List Text
append_unique_value values value =
    let trimmed = trim_ascii_copy value in
    if is_empty trimmed || any (λ current. equals_ascii_case current trimmed) values
    then values
    else values ++ trimmed ∷ []

-- The loop that appends many.
unfoldable pub append_unique_values : List Text → List Text → List Text
append_unique_values values [] = values
append_unique_values values (value ∷ more) =
    append_unique_values (append_unique_value values value) more

unfoldable pub parse_u32_decimal : Text → Option ℕ
parse_u32_decimal value = elim (stoul 10 (trim_ascii_copy value)) [
  | none ↦ none
  | some (parsed, rest) ↦ if is_empty rest && ltb parsed (2 ^ 32) then some parsed else none
]

unfoldable pub rid_of_sid : Text → Option ℕ
rid_of_sid sid = elim (behind_last b'-' sid) [
  | none ↦ none
  | some rest ↦ if is_empty rest then none else parse_u32_decimal rest
]

unfoldable pub object_rid : LdapObject → Option ℕ
object_rid object = elim (find_object_attribute object (codes "rid")) [
  | some (key, value) ↦ parse_u32_decimal value
  | none ↦ elim (find_object_attribute object (codes "objectSid")) [
    | some (key, value) ↦ rid_of_sid value
    | none ↦ none
  ]
]

unfoldable pub push_rid : Option ℕ → List ℕ → List ℕ
push_rid none rids = rids
push_rid (some rid) rids = if any (λ known. known == rid) rids then rids else rids ++ rid ∷ []

unfoldable pub rid_tokens : Text → Text → List ℕ → List ℕ
rid_tokens [] token rids = push_rid (parse_u32_decimal token) rids
rid_tokens (ch ∷ rest) token rids =
    let next = rid_tokens rest [] (push_rid (parse_u32_decimal token) rids) in
    let more = rid_tokens rest (token ++ ch ∷ []) rids in
    if ch == b',' || ch == b';' || is_space ch then next else more

unfoldable pub parse_rid_list : Text → List ℕ
parse_rid_list value = rid_tokens value [] []

unfoldable pub primary_rid : Text → Option ℕ
primary_rid value = elim (parse_u32_decimal value) [
  | none ↦ none
  | some rid ↦ if rid == 0 then none else some rid
]

unfoldable pub object_group_rids : LdapObject → List ℕ
object_group_rids object =
    let rids : List ℕ = elim (find_object_attribute object (codes "groupRids")) [
      | none ↦ []
      | some (key, value) ↦ parse_rid_list value
    ] in
    elim (find_object_attribute object (codes "primaryGroupID")) [
      | none ↦ rids
      | some (key, value) ↦ push_rid (primary_rid value) rids
    ]

unfoldable pub object_has_class : LdapObject → Text → Bool
object_has_class object object_class =
    any (λ candidate. equals_ascii_case candidate object_class) object.object_classes

unfoldable pub has_value : {A : Type 0} → Option A → Bool
has_value none = false
has_value (some a) = true

unfoldable pub is_group_object : LdapObject → Bool
is_group_object object =
    equals_ascii_case object.kind (codes "group")
    || object_has_class object (codes "group")
    || has_value (find_object_attribute object (codes "groupType"))

-- The account's name ends in a dollar sign.
unfoldable pub ends_in_dollar : Text → Bool
ends_in_dollar value = ends_with value (codes "$")

unfoldable pub is_computer_object : LdapObject → Bool
is_computer_object object =
    if equals_ascii_case object.kind (codes "computer")
      || object_has_class object (codes "computer")
    then true
    else elim (find_object_attribute object (codes "sAMAccountName")) [
      | none ↦ false
      | some (key, value) ↦ ends_in_dollar value
    ]

unfoldable pub is_user_object : LdapObject → Bool
is_user_object object =
    equals_ascii_case object.kind (codes "user")
    || object_has_class object (codes "user")
    || has_value (find_object_attribute object (codes "userPrincipalName"))

unfoldable pub member_value_matches_dn : Text → Text → Bool
member_value_matches_dn member_values dn =
    any (λ value. equals_ascii_case value dn) (split_ldap_values (codes "member") member_values)

unfoldable pub is_listed_member : LdapObject → LdapObject → Bool
is_listed_member group object = elim (find_object_attribute group (codes "member")) [
  | none ↦ false
  | some (key, value) ↦ member_value_matches_dn value object.dn
]

unfoldable pub has_group_rid : LdapObject → Option ℕ → Bool
has_group_rid object none = false
has_group_rid object (some rid) = any (λ known. known == rid) (object_group_rids object)

unfoldable pub group_contains_object : LdapObject → LdapObject → Bool
group_contains_object group object =
    if not (is_group_object group) || equals_ascii_case group.dn object.dn
    then false
    else is_listed_member group object || has_group_rid object (object_rid group)

-- The values that the object itself states.
unfoldable pub explicit_values : LdapObject → Text → List Text
explicit_values object attribute = elim (find_object_attribute object attribute) [
  | none ↦ []
  | some (key, value) ↦ append_unique_values [] (split_ldap_values key value)
]

unfoldable pub groups_of : LdapObject → List LdapObject → List Text → List Text
groups_of object [] values = values
groups_of object (group ∷ groups) values =
    groups_of object groups
      (if group_contains_object group object then append_unique_value values group.dn else values)

-- `all_objects` may be a null pointer.
unfoldable pub constructed_member_of_values : LdapObject → Option (List LdapObject) → List Text
constructed_member_of_values object all_objects =
    let values = explicit_values object (codes "memberOf") in
    elim all_objects [ none ↦ values | some objects ↦ groups_of object objects values ]

unfoldable pub members_of : LdapObject → ℕ → List LdapObject → List Text → List Text
members_of group rid [] values = values
members_of group rid (candidate ∷ candidates) values = members_of group rid candidates (
    if equals_ascii_case candidate.dn group.dn || not (has_group_rid candidate (some rid))
    then values
    else append_unique_value values candidate.dn)

unfoldable pub members_by_rid : LdapObject → Option ℕ → List LdapObject → List Text → List Text
members_by_rid group none objects values = values
members_by_rid group (some rid) objects values = members_of group rid objects values

unfoldable pub constructed_member_values : LdapObject → Option (List LdapObject) → List Text
constructed_member_values group all_objects =
    let values = explicit_values group (codes "member") in
    elim all_objects [
      | none ↦ values
      | some objects ↦
          if not (is_group_object group)
          then values
          else members_by_rid group (object_rid group) objects values
    ]

unfoldable pub find_object_by_dn : List LdapObject → Text → Option LdapObject
find_object_by_dn [] dn = none
find_object_by_dn (candidate ∷ rest) dn =
    let later = find_object_by_dn rest dn in
    if equals_ascii_case candidate.dn dn then some candidate else later

unfoldable pub contains_visited_dn : List Text → Text → Bool
contains_visited_dn visited_dns dn = any (λ visited. equals_ascii_case visited dn) visited_dns
