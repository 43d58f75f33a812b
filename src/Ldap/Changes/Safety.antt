-- ===== src/Ldap/Changes/Safety.antt =====
-- The requests of a session are read on any bytes: no read outside the message, and no endless loop.
use endorium_nexus.Ldap.Ber.{LdapNode, read_node, integer_from_node}
use endorium_nexus.Ldap.Ber.Safety.{read_node-Ensures, read_integer-Ends}
use endorium_nexus.Ldap.Names.{is_valid_dn}
use endorium_nexus.Ldap.Requests.{
  read_authentication, mechanism_node, sasl_credentials_of, parse_bind_request,
  parse_compare_request,
}
use endorium_nexus.Ldap.Search.Safety.{read_tagged-Ensures, text-Ends}
use endorium_nexus.Ldap.Changes.{
  read_values, values_from_set, read_attribute, read_sequence, parse_attribute_sequence,
  parse_add_request, read_change, read_changes, parse_modify_request, parse_delete_request,
  read_superior, renamed, parse_modify_dn_request, joined_attribute_values,
}
use endorium_nexus.Maps.{assign}
use endorium_nexus.Prelude.{
  ltb, ◌==◌, if◌then◌else◌, length, is_empty, Ensures, Ends, returns, Ensures-bind, Ensures-attempt,
  Ensures-guard, Ensures-if, Text, codes, ℕ, zero, suc, ◌+◌, ◌-◌, ◌≤◌, ◌<◌, not, ◌||◌, List, [],
  ◌∷◌, ◌++◌, arith,
}

renamed-Ends :
    (previous_dn new_rdn_value new_parent_dn : Text)
    → Ends (renamed previous_dn new_rdn_value new_parent_dn)
unfolding renamed
renamed-Ends previous_dn new_rdn_value new_parent_dn =
    let new_dn : Text =
      if is_empty new_parent_dn
      then new_rdn_value
      else new_rdn_value ++ (codes "," ++ new_parent_dn) in
    Ensures-guard (not (is_valid_dn previous_dn) || not (is_valid_dn new_dn)) _ λ _. returns tt

module _ (input : List ℕ) where
  read_values-Ends :
      (rounds offset limit : ℕ) (values : List Text)
      → limit - offset < rounds
      → Ends (read_values input rounds offset limit values)
  unfolding read_values
  read_values-Ends zero offset limit values h = elim h [ ]
  read_values-Ends (suc rounds) offset limit values h =
      Ensures-if (not (ltb offset limit)) _ _ (λ _. returns tt)
        λ more.
          Ensures-attempt (read_node input offset limit) _ _ (read_node-Ensures input offset limit)
            (returns tt)
            λ value i.
              Ensures-if (not (value.tag == 0x04)) _ _
                (λ _. read_values-Ends rounds value.next_offset limit values (ground arith))
                λ _.
                  Ensures-bind _ _ (text-Ends input value (omega (arith, i.ends, i.below_size)))
                    λ text _.
                      read_values-Ends rounds value.next_offset limit (values ++ text ∷ [])
                        (ground arith)

  values_from_set-Ends : (node : LdapNode) → Ends (values_from_set input node)
  unfolding values_from_set
  values_from_set-Ends node =
      Ensures-if (not (node.tag == 0x31)) _ _ (λ _. returns tt)
        λ _. read_values-Ends (node.content_length + 1) node.content_offset _ [] (omega arith)

  read_attribute-Ends : (attribute : LdapNode) → Ends (read_attribute input attribute)
  unfolding read_attribute
  read_attribute-Ends attribute =
      let limit = attribute.content_offset + attribute.content_length in
      Ensures-bind _ _ (read_tagged-Ensures input 0x04 attribute.content_offset limit) λ name n.
        Ensures-bind _ _ (read_node-Ensures input name.next_offset limit) λ values _.
          Ensures-bind _ _ (text-Ends input name (omega (arith, n.ends, n.below_size)))
            λ text _. Ensures-bind _ _ (values_from_set-Ends values) λ list _. returns tt

  read_sequence-Ends :
      (rounds offset limit : ℕ) (attributes : List (Text × List Text))
      → limit - offset < rounds
      → Ends (read_sequence input rounds offset limit attributes)
  unfolding read_sequence
  read_sequence-Ends zero offset limit attributes h = elim h [ ]
  read_sequence-Ends (suc rounds) offset limit attributes h =
      Ensures-if (not (ltb offset limit)) _ _ (λ _. returns tt)
        λ more. Ensures-bind _ _ (read_tagged-Ensures input 0x30 offset limit) λ attribute i.
          Ensures-bind _ _ (read_attribute-Ends attribute) λ (name, values) _.
            read_sequence-Ends rounds attribute.next_offset limit (assign name values attributes) (
              let moved : offset < attribute.next_offset = omega (arith, i.starts, i.ends) in
              ground arith)

  pub parse_add_request-Ends : (op_node : LdapNode) → Ends (parse_add_request input op_node)
  unfolding parse_add_request parse_attribute_sequence
  parse_add_request-Ends op_node =
      let limit = op_node.content_offset + op_node.content_length in
      Ensures-bind _ _ (read_tagged-Ensures input 0x04 op_node.content_offset limit) λ dn d.
        Ensures-bind _ _ (read_node-Ensures input dn.next_offset limit) λ attributes _.
          Ensures-bind {P = λ _. Unit {0}} _ _
            (Ensures-guard (not (attributes.tag == 0x30)) _ λ _.
              read_sequence-Ends (attributes.content_length + 1) attributes.content_offset _ []
                (omega arith))
            λ parsed _.
              Ensures-bind _ _ (text-Ends input dn (omega (arith, d.ends, d.below_size)))
                λ text _. returns tt

  read_change-Ends : (change : LdapNode) → Ends (read_change input change)
  unfolding read_change integer_from_node
  read_change-Ends change =
      let limit = change.content_offset + change.content_length in
      Ensures-bind _ _ (read_tagged-Ensures input 0x0a change.content_offset limit) λ operation o.
        Ensures-bind _ _ (read_tagged-Ensures input 0x30 operation.next_offset limit) λ partial _.
          Ensures-bind _ _ (read_attribute-Ends partial) λ (name, values) _.
            Ensures-bind _ _
              (read_integer-Ends input operation.content_length operation.content_offset 0
                (omega (arith, o.ends, o.below_size)))
              λ code _. returns tt

  read_changes-Ends :
      (rounds offset limit : ℕ) (attributes : List (Text × Text)) (operations : List (Text × ℕ))
      → limit - offset < rounds
      → Ends (read_changes input rounds offset limit attributes operations)
  unfolding read_changes
  read_changes-Ends zero offset limit attributes operations h = elim h [ ]
  read_changes-Ends (suc rounds) offset limit attributes operations h =
      Ensures-if (not (ltb offset limit)) _ _ (λ _. returns tt)
        λ more. Ensures-bind _ _ (read_tagged-Ensures input 0x30 offset limit) λ change i.
          Ensures-bind _ _ (read_change-Ends change) λ (code, name, values) _.
            read_changes-Ends rounds change.next_offset limit
              (assign name (joined_attribute_values values) attributes)
              (assign name code operations)
              (let moved : offset < change.next_offset = omega (arith, i.starts, i.ends) in
                ground arith)

  pub parse_modify_request-Ends : (op_node : LdapNode) → Ends (parse_modify_request input op_node)
  unfolding parse_modify_request
  parse_modify_request-Ends op_node =
      let limit = op_node.content_offset + op_node.content_length in
      Ensures-bind _ _ (read_tagged-Ensures input 0x04 op_node.content_offset limit) λ dn d.
        Ensures-bind _ _ (read_tagged-Ensures input 0x30 dn.next_offset limit) λ changes _.
          Ensures-bind _ _ (text-Ends input dn (omega (arith, d.ends, d.below_size))) λ text _.
            Ensures-bind _ _
              (read_changes-Ends (changes.content_length + 1) changes.content_offset _ [] []
                (omega arith))
              λ (attributes, operations) _. returns tt

  pub parse_delete_request-Ends :
      (op_node : LdapNode)
      → op_node.content_offset + op_node.content_length ≤ length input
      → Ends (parse_delete_request input op_node)
  unfolding parse_delete_request
  parse_delete_request-Ends op_node h =
      Ensures-bind _ _ (text-Ends input op_node h)
        λ dn _. Ensures-guard (is_empty dn) _ λ _. returns tt

  read_superior-Ends : (offset limit : ℕ) → Ends (read_superior input offset limit)
  unfolding read_superior
  read_superior-Ends offset limit =
      Ensures-if (not (ltb offset limit)) _ _ (λ _. returns tt)
        λ _. Ensures-bind _ _ (read_tagged-Ensures input 0x80 offset limit) λ node i.
          Ensures-bind _ _ (text-Ends input node (omega (arith, i.ends, i.below_size)))
            λ text _. returns tt

  pub parse_modify_dn_request-Ends :
      (op_node : LdapNode) → Ends (parse_modify_dn_request input op_node)
  unfolding parse_modify_dn_request
  parse_modify_dn_request-Ends op_node =
      let limit = op_node.content_offset + op_node.content_length in
      Ensures-bind _ _ (read_tagged-Ensures input 0x04 op_node.content_offset limit) λ entry e.
        Ensures-bind _ _ (read_tagged-Ensures input 0x04 entry.next_offset limit) λ new_rdn n.
          Ensures-bind _ _ (read_tagged-Ensures input 0x01 new_rdn.next_offset limit) λ flag _.
            Ensures-bind _ _ (read_superior-Ends flag.next_offset limit) λ (superior, offset) _.
              Ensures-guard (not (offset == limit)) _ λ _.
                Ensures-bind _ _ (text-Ends input entry (omega (arith, e.ends, e.below_size)))
                  λ previous_dn _.
                    Ensures-bind _ _ (text-Ends input new_rdn (omega (arith, n.ends, n.below_size)))
                      λ value _.
                        Ensures-guard (is_empty previous_dn || is_empty value) _
                          λ _. renamed-Ends previous_dn value _

  pub parse_compare_request-Ends : (op_node : LdapNode) → Ends (parse_compare_request input op_node)
  unfolding parse_compare_request
  parse_compare_request-Ends op_node =
      let limit = op_node.content_offset + op_node.content_length in
      Ensures-bind _ _ (read_tagged-Ensures input 0x04 op_node.content_offset limit) λ dn d.
        Ensures-bind _ _ (read_tagged-Ensures input 0x30 dn.next_offset limit) λ assertion a.
          let inner = assertion.content_offset + assertion.content_length in
          Ensures-bind _ _ (read_tagged-Ensures input 0x04 assertion.content_offset inner)
            λ attribute t.
              Ensures-bind _ _ (read_tagged-Ensures input 0x04 attribute.next_offset inner)
                λ value v.
                  Ensures-bind _ _ (text-Ends input dn (omega (arith, d.ends, d.below_size))) λ _ _.
                    Ensures-bind _ _
                      (text-Ends input attribute (omega (arith, t.ends, t.below_size)))
                      λ _ _.
                        Ensures-bind _ _
                          (text-Ends input value (omega (arith, v.ends, v.below_size)))
                          λ _ _. returns tt

  mechanism_node-Ensures :
      (node : LdapNode)
      → Ensures
          (λ r. r.0.content_offset + r.0.content_length ≤ length input)
          (mechanism_node input node)
  unfolding mechanism_node
  mechanism_node-Ensures node =
      Ensures-bind _ _ (read_node-Ensures input node.content_offset _) λ first f.
        Ensures-if (not (first.tag == 0x30)) _ _
          (λ _. returns (omega (arith, f.ends, f.below_size)))
          λ _.
            Ensures-bind _ _ (read_node-Ensures input first.content_offset _)
              λ inner i. returns (omega (arith, i.ends, i.below_size))

  sasl_credentials_of-Ends : (offset limit : ℕ) → Ends (sasl_credentials_of input offset limit)
  unfolding sasl_credentials_of
  sasl_credentials_of-Ends offset limit =
      Ensures-attempt (read_node input offset limit) _ _ (read_node-Ensures input offset limit)
        (returns tt)
        λ node i.
          Ensures-if (node.tag == 0x04) _ _
            (λ _. text-Ends input node (omega (arith, i.ends, i.below_size))) λ _. returns tt

  read_authentication-Ends :
      (node : LdapNode)
      → node.content_offset + node.content_length ≤ length input
      → Ends (read_authentication input node)
  unfolding read_authentication
  read_authentication-Ends node h =
      Ensures-if (node.tag == 0x80) _ _
        (λ _. Ensures-bind _ _ (text-Ends input node h) λ _ _. returns tt)
        λ _.
          Ensures-if (not (node.tag == 0xa3)) _ _ (λ _. returns tt)
            λ _. Ensures-bind _ _ (mechanism_node-Ensures node) λ (mechanism, limit) m.
              Ensures-guard (not (mechanism.tag == 0x04)) _ λ _.
                Ensures-bind _ _ (text-Ends input mechanism m) λ _ _.
                  Ensures-bind _ _ (sasl_credentials_of-Ends mechanism.next_offset limit)
                    λ _ _. returns tt

  pub parse_bind_request-Ends : (op_node : LdapNode) → Ends (parse_bind_request input op_node)
  unfolding parse_bind_request integer_from_node
  parse_bind_request-Ends op_node =
      let limit = op_node.content_offset + op_node.content_length in
      Ensures-bind _ _ (read_tagged-Ensures input 0x02 op_node.content_offset limit) λ version v.
        Ensures-bind _ _
          (read_integer-Ends input version.content_length version.content_offset 0
            (omega (arith, v.ends, v.below_size)))
          λ _ _.
            Ensures-bind _ _ (read_tagged-Ensures input 0x04 version.next_offset limit) λ name n.
              Ensures-bind _ _ (text-Ends input name (omega (arith, n.ends, n.below_size))) λ _ _.
                Ensures-bind _ _ (read_node-Ensures input name.next_offset limit)
                  λ authentication a.
                    Ensures-bind _ _
                      (read_authentication-Ends authentication
                        (omega (arith, a.ends, a.below_size)))
                      λ _ _. returns tt
