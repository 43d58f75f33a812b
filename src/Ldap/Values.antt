-- ===== src/Ldap/Values.antt =====
-- The values of an attribute: ldap.cpp, `append_u16_le`, `hex_value` to `object_guid_binary_value` and
-- `sam_account_type` to `object_attribute_values`.
use endorium_nexus.Ldap.Objects.{
  LdapObject, trim_ascii_copy, ldap_attribute_base_name, ldap_attribute_matches, split_ldap_values,
  find_object_attribute, object_rid, is_group_object, is_computer_object, is_user_object,
  constructed_member_of_values, constructed_member_values,
}
use endorium_nexus.Ldap.Names.{rdn_value_from_dn}
use Prim.Native.Nat.{bit_xor}
use endorium_nexus.Prelude.{
  ◌==◌, if◌then◌else◌, length, is_empty, Text, codes, to_string, digit_in, starts_with, to_lower, ℕ,
  zero, suc, ◌+◌, ◌*◌, ◌/◌, ◌%◌, ◌^◌, ◌&&◌, ◌||◌, Option, none, some, List, [], ◌∷◌, ◌++◌, map,
}

unfoldable pub append_u16_le : List ℕ → ℕ → List ℕ
append_u16_le output value = output ++ value % 256 ∷ value / 256 % 256 ∷ []

unfoldable pub append_u32_le : List ℕ → ℕ → List ℕ
append_u32_le output value =
    output ++ value % 256 ∷ value / 2 ^ 8 % 256 ∷ value / 2 ^ 16 % 256 ∷ value / 2 ^ 24 % 256 ∷ []

unfoldable pub hex_value : ℕ → Option ℕ
hex_value ch = digit_in 16 ch

-- The digits without dashes and braces; another character is refused.
unfoldable pub uuid_digits : Text → Option (List ℕ)
uuid_digits [] = some []
uuid_digits (ch ∷ rest) =
    let later = uuid_digits rest in
    if ch == b'-' || ch == b'{' || ch == b'}' then later else elim (hex_value ch) [
      | none ↦ none
      | some digit ↦ elim later [ none ↦ none | some digits ↦ some (digit ∷ digits) ]
    ]

unfoldable pub digit_pairs : List ℕ → List ℕ
digit_pairs [] = []
digit_pairs (high ∷ []) = []
digit_pairs (high ∷ low ∷ rest) = (high * 16 + low) ∷ digit_pairs rest

-- The first three fields with their bytes turned round.
unfoldable pub ad_order : List ℕ → List ℕ
ad_order (a ∷ b ∷ c ∷ d ∷ e ∷ f ∷ g ∷ h ∷ rest) = d ∷ c ∷ b ∷ a ∷ f ∷ e ∷ h ∷ g ∷ rest
ad_order raw = raw

unfoldable pub uuid_string_to_ad_guid_bytes : Text → Option (List ℕ)
uuid_string_to_ad_guid_bytes value = elim (uuid_digits (trim_ascii_copy value)) [
  | none ↦ none
  | some digits ↦ if length digits == 32 then some (ad_order (digit_pairs digits)) else none
]

unfoldable pub hash_bytes : Text → ℕ → ℕ
hash_bytes [] hash = hash
hash_bytes (ch ∷ rest) hash = hash_bytes rest (bit_xor hash ch * 1099511628211 % 2 ^ 64)

-- The sixteen rounds, the first at `index`.
unfoldable pub guid_rounds : ℕ → ℕ → ℕ → List ℕ
guid_rounds zero index hash = []
guid_rounds (suc rounds) index hash =
    hash / 2 ^ (index % 8 * 8) % 256
    ∷ guid_rounds rounds (index + 1)
        (bit_xor hash ((index + 17) * 0x9e3779b97f4a7c15 % 2 ^ 64) * 1099511628211 % 2 ^ 64)

-- Version and variant.
unfoldable pub guid_bits : ℕ → List ℕ → List ℕ
guid_bits index [] = []
guid_bits index (byte ∷ rest) =
    (if index == 7 then byte % 16 + 0x40 else if index == 8 then byte % 64 + 0x80 else byte)
    ∷ guid_bits (index + 1) rest

unfoldable pub stable_object_guid_bytes : LdapObject → List ℕ
stable_object_guid_bytes object =
    let seed = map to_lower (if is_empty object.dn then object.kind else object.dn) in
    guid_bits 0 (guid_rounds 16 0 (hash_bytes seed 1469598103934665603))

unfoldable pub stored_guid : Text → Option (List ℕ)
stored_guid value = elim (uuid_string_to_ad_guid_bytes value) [
  | some encoded ↦ some encoded
  | none ↦ if length value == 16 then some value else none
]

unfoldable pub object_guid_binary_value : LdapObject → List ℕ
object_guid_binary_value object = elim (find_object_attribute object (codes "objectGUID")) [
  | none ↦ stable_object_guid_bytes object
  | some (key, value) ↦ elim (stored_guid value) [
    | none ↦ stable_object_guid_bytes object
    | some guid ↦ guid
  ]
]

unfoldable pub group_account_type : LdapObject → Text
group_account_type object = elim (find_object_attribute object (codes "objectSid")) [
  | none ↦ codes "268435456"
  | some (key, sid) ↦
      if starts_with sid (codes "S-1-5-32-") then codes "536870912" else codes "268435456"
]

unfoldable pub sam_account_type : LdapObject → Option Text
sam_account_type object =
    if is_group_object object
    then some (group_account_type object)
    else if is_computer_object object
    then some (codes "805306369")
    else if is_user_object object
    then some (codes "805306368")
    else none

unfoldable pub name_values : LdapObject → List Text
name_values object = elim (find_object_attribute object (codes "cn")) [
  | none ↦ rdn_value_from_dn object.dn ∷ []
  | some (key, cn) ↦ cn ∷ []
]

-- The stored values, or a default.
unfoldable pub stored_or : LdapObject → Text → List Text → List Text
stored_or object base_attribute default = elim (find_object_attribute object base_attribute) [
  | none ↦ default
  | some (key, value) ↦ split_ldap_values key value
]

unfoldable pub rid_values : Option ℕ → List Text
rid_values none = []
rid_values (some rid) = to_string rid ∷ []

unfoldable pub optional_values : Option Text → List Text
optional_values none = []
optional_values (some value) = value ∷ []

unfoldable pub object_attribute_values : LdapObject → Text → Option (List LdapObject) → List Text
object_attribute_values object attribute all_objects =
    let is = ldap_attribute_matches attribute in
    let base_attribute = ldap_attribute_base_name attribute in
    if is (codes "objectClass")
    then object.object_classes
    else if is (codes "distinguishedName") || is (codes "dn")
    then object.dn ∷ []
    else if is (codes "name")
    then name_values object
    else if is (codes "objectCategory")
    then object.kind ∷ []
    else if is (codes "memberOf")
    then constructed_member_of_values object all_objects
    else if is (codes "member") && is_group_object object
    then constructed_member_values object all_objects
    else if is (codes "primaryGroupToken") && is_group_object object
    then rid_values (object_rid object)
    else if is (codes "sAMAccountType")
    then optional_values (sam_account_type object)
    else if is (codes "whenCreated") || is (codes "whenChanged")
    then stored_or object base_attribute (codes "20260101000000.0Z" ∷ [])
    else if is (codes "uSNCreated") || is (codes "uSNChanged")
    then stored_or object base_attribute (codes "1" ∷ [])
    else if is (codes "userPasswordHash")
    then []
    else stored_or object base_attribute []
