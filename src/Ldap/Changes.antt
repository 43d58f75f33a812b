-- ===== src/Ldap/Changes.antt =====
-- Reading the requests of writes: ldap.cpp, `rdn_attribute_from_dn` to `parse_modify_dn_request`.
pub mod Safety
use endorium_nexus.Ldap.Ber.{LdapNode, read_node, integer_from_node, string_from_node}
use endorium_nexus.Ldap.Names.{first_part, parent_dn_from_dn, is_valid_dn}
use endorium_nexus.Ldap.Objects.{LdapObject, equals_ascii_case, find_object_attribute}
use endorium_nexus.Ldap.Requests.{read_tagged}
use endorium_nexus.Ldap.Writes.{LdapMutation, add, modify, rename, remove}
use endorium_nexus.Maps.{assign}
use endorium_nexus.Prelude.{
  ltb, leb, ◌==◌, if◌then◌else◌, ltb→lt, lt→ltb, le→ltb, leb→le, ==_iff, tests, Bool-cases,
  Option-cases, length, get_elem?, set, take, drop, is_empty, any, keep, All, All-append,
  length-append, length-set, length-take, length-drop, take-append-drop, take-append, drop-append,
  drop-append_le, get_elem?-lt, get_elem?-append, set-append, Outcome, ok, reject, fault, ◌>>=◌,
  ◌>>◌, reject_if, attempt, byte_at, Outcome-cases, Ensures, Ends, returns, rejects, Ensures-bind,
  Ensures-ok, Ensures-ne-fault, Ensures-map, Ensures-attempt, Ensures-guard, Ensures-if, Returns,
  returned, Returns-bind, Returns-attempt, Returns-option, Returns-if, Returns-ok, slice-Returns,
  byte_at-append, byte_at-behind, slice, slice-append, slice-Ensures, byte_at-lt, byte_at-Ensures,
  Text, codes, text_eq, text_eq_refl, text_eq→eq, text_eq_iff, ℤ, pos, negsuc, digits_of, to_string,
  digit_in, digits_run, wrapped, unsigned_run, prefixed_run, run_of, signed_run, stoul, is_space,
  trim_start, trim_end, behind_last, before_last, is_digit, decimal_value, unsigned_value, negated,
  signed_value, stoi, find_char, starts_with, starts_with-append, find_text, contains,
  contains-append, ends_with, to_lower, to_lower_idem, map-to_lower_idem, ℕ, zero, suc, ◌+◌, ◌-◌,
  ◌*◌, ◌/◌, ◌%◌, ◌^◌, ◌≤◌, ◌<◌, min, max, ◌≡◌, refl, sym, ap, ◌∙◌, ◌≢◌, ◌↔◌, ◌⊎◌, inl, inr, Bool,
  true, false, not, ◌&&◌, ◌||◌, Option, none, some, List, [], ◌∷◌, ◌++◌, map, append_assoc,
  append-nil, arith,
}

-- The name and the value around the first `=` of the first part.
unfoldable pub rdn_attribute_from_dn : Text → Option (Text × Text)
rdn_attribute_from_dn dn =
    let part = first_part dn in
    elim (find_char b'=' part) [
      | none ↦ none
      | some equals ↦
          if equals == 0 || leb (length part) (equals + 1)
          then none
          else some (take equals part, drop (equals + 1) part)
    ]

unfoldable pub find_attribute_values : List (Text × List Text) → Text → Option (List Text)
find_attribute_values [] name = none
find_attribute_values ((key, values) ∷ rest) name =
    let later = find_attribute_values rest name in
    if equals_ascii_case key name then some values else later

-- The loop over the values, from what is joined already.
unfoldable pub join_values : Text → List Text → Text
join_values joined [] = joined
join_values joined (value ∷ values) =
    join_values ((if is_empty joined then joined else joined ++ codes ";") ++ value) values

unfoldable pub joined_attribute_values : List Text → Text
joined_attribute_values values = join_values [] values

-- The loop over the values of a set; one that cannot be read ends it.
unfoldable pub read_values : List ℕ → ℕ → ℕ → ℕ → List Text → Outcome (List Text)
read_values input zero offset limit values = fault
read_values input (suc rounds) offset limit values =
    if not (ltb offset limit) then ok values else do
      found ← attempt (read_node input offset limit)
      elim found [
        | none ↦ ok values
        | some value ↦
            if not (value.tag == 0x04)
            then read_values input rounds value.next_offset limit values
            else do
              text ← string_from_node input value
              read_values input rounds value.next_offset limit (values ++ text ∷ [])
      ]

unfoldable pub values_from_set : List ℕ → LdapNode → Outcome (List Text)
values_from_set input set_node =
    if not (set_node.tag == 0x31)
    then ok []
    else read_values input (set_node.content_length + 1) set_node.content_offset
        (set_node.content_offset + set_node.content_length) []

-- A partial attribute: its type and its values.
unfoldable pub read_attribute : List ℕ → LdapNode → Outcome (Text × List Text)
read_attribute input attribute = do
  let attribute_limit = attribute.content_offset + attribute.content_length
  name ← read_tagged input 0x04 attribute.content_offset attribute_limit
  values ← read_node input name.next_offset attribute_limit
  text ← string_from_node input name
  list ← values_from_set input values
  ok (text, list)

unfoldable pub read_sequence :
    List ℕ → ℕ → ℕ → ℕ → List (Text × List Text) → Outcome (List (Text × List Text))
read_sequence input zero offset limit attributes = fault
read_sequence input (suc rounds) offset limit attributes =
    if not (ltb offset limit) then ok attributes else do
      attribute ← read_tagged input 0x30 offset limit
      (name, values) ← read_attribute input attribute
      read_sequence input rounds attribute.next_offset limit (assign name values attributes)

unfoldable pub parse_attribute_sequence : List ℕ → LdapNode → Outcome (List (Text × List Text))
parse_attribute_sequence input attributes_node = do
  reject_if (not (attributes_node.tag == 0x30))
  read_sequence input (attributes_node.content_length + 1) attributes_node.content_offset
      (attributes_node.content_offset + attributes_node.content_length) []

unfoldable pub has_object_class : List Text → Text → Bool
has_object_class classes expected = any (λ value. equals_ascii_case value expected) classes

unfoldable pub is_unit_name : Option (Text × Text) → Bool
is_unit_name none = false
is_unit_name (some (name, value)) = equals_ascii_case name (codes "ou")

unfoldable pub infer_object_kind : Text → List Text → Text
infer_object_kind dn classes =
    let has = has_object_class classes in
    if has (codes "computer")
    then codes "computer"
    else if has (codes "group")
    then codes "group"
    else if has (codes "organizationalUnit")
    then codes "organizationalUnit"
    else if has (codes "container")
    then codes "container"
    else if has (codes "user") || has (codes "person") || has (codes "inetOrgPerson")
    then codes "user"
    else if is_unit_name (rdn_attribute_from_dn dn)
    then codes "organizationalUnit"
    else codes "container"

-- The loop over the attributes, in the order of their names.
unfoldable pub storage_attributes_from_values : List (Text × List Text) → List (Text × Text)
storage_attributes_from_values [] = []
storage_attributes_from_values ((key, entries) ∷ values) =
    let rest = storage_attributes_from_values values in
    if equals_ascii_case key (codes "objectClass")
    then rest
    else (key, joined_attribute_values entries) ∷ rest

unfoldable pub or_no_classes : Option (List Text) → List Text
or_no_classes none = []
or_no_classes (some classes) = classes

-- The attribute of the name itself, unless it is given.
unfoldable pub with_rdn_attribute : LdapObject → Option (Text × Text) → LdapObject
with_rdn_attribute object none = object
with_rdn_attribute object (some (name, value)) = elim (find_object_attribute object name) [
  | some given ↦ object
  | none ↦ record {
    dn = object.dn;
    parent_dn = object.parent_dn;
    kind = object.kind;
    object_classes = object.object_classes;
    attributes = assign name value object.attributes;
  }
]

-- The object that an `add` of these attributes stores.
unfoldable pub added_object : Text → List (Text × List Text) → LdapObject
added_object dn parsed_attributes =
    let classes = or_no_classes (find_attribute_values parsed_attributes (codes "objectClass")) in
    with_rdn_attribute
      (record {
        dn = dn;
        parent_dn = parent_dn_from_dn dn;
        kind = infer_object_kind dn classes;
        object_classes = classes;
        attributes = storage_attributes_from_values parsed_attributes;
      })
      (rdn_attribute_from_dn dn)

unfoldable pub parse_add_request : List ℕ → LdapNode → Outcome LdapMutation
parse_add_request input op_node = do
  let limit = op_node.content_offset + op_node.content_length
  dn ← read_tagged input 0x04 op_node.content_offset limit
  attributes ← read_node input dn.next_offset limit
  parsed_attributes ← parse_attribute_sequence input attributes
  text ← string_from_node input dn
  let object = added_object text parsed_attributes
  ok (record {
    kind = add;
    previous_dn = [];
    object = object;
    attributes = object.attributes;
    attribute_operations = [];
  })

-- One change: its operation, its attribute and the values.
unfoldable pub read_change : List ℕ → LdapNode → Outcome (ℕ × Text × List Text)
read_change input change = do
  let field_limit = change.content_offset + change.content_length
  operation ← read_tagged input 0x0a change.content_offset field_limit
  partial ← read_tagged input 0x30 operation.next_offset field_limit
  (name, values) ← read_attribute input partial
  operation_code ← integer_from_node input operation
  ok (operation_code, name, values)

-- The loop over the changes: the attributes and their operations.
unfoldable pub read_changes :
    List ℕ
    → ℕ
    → ℕ
    → ℕ
    → List (Text × Text)
    → List (Text × ℕ)
    → Outcome (List (Text × Text) × List (Text × ℕ))
read_changes input zero offset limit attributes operations = fault
read_changes input (suc rounds) offset limit attributes operations =
    if not (ltb offset limit) then ok (attributes, operations) else do
      change ← read_tagged input 0x30 offset limit
      (operation_code, name, values) ← read_change input change
      read_changes input rounds change.next_offset limit
          (assign name (joined_attribute_values values) attributes)
          (assign name operation_code operations)

unfoldable pub parse_modify_request : List ℕ → LdapNode → Outcome LdapMutation
parse_modify_request input op_node = do
  let limit = op_node.content_offset + op_node.content_length
  dn ← read_tagged input 0x04 op_node.content_offset limit
  changes ← read_tagged input 0x30 dn.next_offset limit
  text ← string_from_node input dn
  (attributes, operations) ←
      read_changes input (changes.content_length + 1) changes.content_offset
        (changes.content_offset + changes.content_length) [] []
  ok (record {
    kind = modify;
    previous_dn = [];
    object = record {
      dn = text;
      parent_dn = parent_dn_from_dn text;
      kind = [];
      object_classes = [];
      attributes = attributes;
    };
    attributes = attributes;
    attribute_operations = operations;
  })

unfoldable pub parse_delete_request : List ℕ → LdapNode → Outcome LdapMutation
parse_delete_request input op_node = do
  dn ← string_from_node input op_node
  reject_if (is_empty dn)
  ok (record {
    kind = remove;
    previous_dn = [];
    object = record {
      dn = dn;
      parent_dn = parent_dn_from_dn dn;
      kind = [];
      object_classes = [];
      attributes = [];
    };
    attributes = [];
    attribute_operations = [];
  })

-- The new superior, if something is left: its text and the offset behind it.
unfoldable pub read_superior : List ℕ → ℕ → ℕ → Outcome (Text × ℕ)
read_superior input offset limit = if not (ltb offset limit) then ok ([], offset) else do
  new_superior ← read_tagged input 0x80 offset limit
  text ← string_from_node input new_superior
  ok (text, new_superior.next_offset)

unfoldable pub rdn_attributes : Option (Text × Text) → List (Text × Text)
rdn_attributes none = []
rdn_attributes (some (name, value)) = assign (codes "name") value (assign name value [])

-- The rename of an object to a name under a parent.
unfoldable pub renamed : Text → Text → Text → Outcome LdapMutation
renamed previous_dn new_rdn_value new_parent_dn = do
  let new_dn =
      if is_empty new_parent_dn
      then new_rdn_value
      else new_rdn_value ++ (codes "," ++ new_parent_dn)
  reject_if (not (is_valid_dn previous_dn) || not (is_valid_dn new_dn))
  let attributes =
      assign (codes "distinguishedName") new_dn
        (rdn_attributes (rdn_attribute_from_dn new_rdn_value))
  ok (record {
    kind = rename;
    previous_dn = previous_dn;
    object = record {
      dn = new_dn;
      parent_dn = new_parent_dn;
      kind = [];
      object_classes = [];
      attributes = attributes;
    };
    attributes = attributes;
    attribute_operations = [];
  })

unfoldable pub parse_modify_dn_request : List ℕ → LdapNode → Outcome LdapMutation
parse_modify_dn_request input op_node = do
  let limit = op_node.content_offset + op_node.content_length
  entry ← read_tagged input 0x04 op_node.content_offset limit
  new_rdn ← read_tagged input 0x04 entry.next_offset limit
  delete_old_rdn ← read_tagged input 0x01 new_rdn.next_offset limit
  (superior, offset) ← read_superior input delete_old_rdn.next_offset limit
  reject_if (not (offset == limit))
  previous_dn ← string_from_node input entry
  new_rdn_value ← string_from_node input new_rdn
  reject_if (is_empty previous_dn || is_empty new_rdn_value)
  renamed previous_dn new_rdn_value
      (if is_empty superior then parent_dn_from_dn previous_dn else superior)
