-- ===== src/Ldap/Search/Safety.antt =====
-- A search is answered on any bytes: no read outside the message, and no endless loop.
use endorium_nexus.Ldap.Ber.{LdapNode, read_node, string_from_node, integer_from_node}
use endorium_nexus.Ldap.Ber.Safety.{
  IsInside, read_node-Ensures, read_integer-Ends, read_message_controls-Returns,
}
use endorium_nexus.Ldap.Objects.{LdapObject}
use endorium_nexus.Ldap.Controls.{has_unsupported_critical_control}
use endorium_nexus.Ldap.Requests.{
  SearchRequest, read_tagged, skip_nodes, read_attributes, requested_attributes,
  parse_search_request,
}
use endorium_nexus.Ldap.Entries.{object_in_scope, has_requested_attribute}
use endorium_nexus.Ldap.Filter.{filter_matches_object}
use endorium_nexus.Ldap.Filter.Safety.{filter_matches_object-Returns}
use endorium_nexus.Ldap.Search.{
  merge_virtual_objects, contains_ascii_case, passes_filter, search_entries, search_response,
}
use endorium_nexus.Prelude.{
  ltb, ◌==◌, length, is_empty, Outcome, ok, Ensures, Ends, returns, Ensures-bind, Ensures-map,
  Ensures-attempt, Ensures-guard, Ensures-if, Returns, returned, Returns-bind, Returns-attempt,
  Returns-if, Returns-ok, slice-Ensures, Text, codes, ℕ, zero, suc, ◌+◌, ◌-◌, ◌≤◌, ◌<◌, ◌≡◌, true,
  not, ◌||◌, Option, none, some, List, [], ◌∷◌, ◌++◌, arith,
}

abbrev pub Settles {ℓ} : {A : Type ℓ} → Outcome A → Type ℓ
Settles m = Returns (λ _. Unit {0}) m

module _ (input : List ℕ) where
  pub read_tagged-Ensures :
      (tag offset limit : ℕ)
      → Ensures (IsInside input offset limit) (read_tagged input tag offset limit)
  unfolding read_tagged
  read_tagged-Ensures tag offset limit =
      Ensures-bind _ _ (read_node-Ensures input offset limit)
        λ node i. Ensures-guard (not (node.tag == tag)) _ λ _. returns i

  skip_nodes-Ends : (count offset limit : ℕ) → Ends (skip_nodes input count offset limit)
  unfolding skip_nodes
  skip_nodes-Ends zero offset limit = returns tt
  skip_nodes-Ends (suc count) offset limit =
      Ensures-bind _ _ (read_node-Ensures input offset limit)
        λ node i. skip_nodes-Ends count node.next_offset limit

  pub text-Ends :
      (node : LdapNode)
      → node.content_offset + node.content_length ≤ length input
      → Ends (string_from_node input node)
  unfolding string_from_node
  text-Ends node h =
      Ensures-map _ (slice-Ensures input node.content_offset node.content_length h) λ _ _. tt

  read_attributes-Ends :
      (rounds offset limit : ℕ) (attributes : List Text)
      → limit - offset < rounds
      → Ends (read_attributes input rounds offset limit attributes)
  unfolding read_attributes
  read_attributes-Ends zero offset limit attributes h = elim h [ ]
  read_attributes-Ends (suc rounds) offset limit attributes h =
      Ensures-if (not (ltb offset limit)) _ _ (λ _. returns tt)
        λ more.
          Ensures-attempt (read_node input offset limit) _ _ (read_node-Ensures input offset limit)
            (returns tt)
            λ node i.
              Ensures-if (not (node.tag == 0x04)) _ _
                (λ _. read_attributes-Ends rounds node.next_offset limit attributes (ground arith))
                λ _.
                  Ensures-bind _ _ (text-Ends node (omega (arith, i.ends, i.below_size))) λ text _.
                    read_attributes-Ends rounds node.next_offset limit (attributes ++ text ∷ [])
                      (ground arith)

  requested_attributes-Ends : (offset limit : ℕ) → Ends (requested_attributes input offset limit)
  unfolding requested_attributes
  requested_attributes-Ends offset limit =
      Ensures-attempt (read_node input offset limit) _ _ (read_node-Ensures input offset limit)
        (returns tt)
        λ node i.
          Ensures-if (not (node.tag == 0x30)) _ _ (λ _. returns tt)
            λ _.
              read_attributes-Ends (node.content_length + 1) node.content_offset _ [] (omega arith)

  -- The filter of a search, if it has one, lies inside the message.
  abbrev FilterInside : Option LdapNode → Type 0
  FilterInside none = Unit
  FilterInside (some node) = node.content_offset + node.content_length ≤ length input

  parse_search_request-Ensures :
      (op_node : LdapNode)
      → Ensures
          (λ (search : SearchRequest). FilterInside search.filter)
          (parse_search_request input op_node)
  unfolding parse_search_request integer_from_node
  parse_search_request-Ensures op_node =
      let limit = op_node.content_offset + op_node.content_length in
      Ensures-bind _ _ (read_tagged-Ensures 0x04 op_node.content_offset limit) λ base b.
        Ensures-bind _ _ (text-Ends base (omega (arith, b.ends, b.below_size))) λ base_dn _.
          Ensures-bind _ _ (read_tagged-Ensures 0x0a base.next_offset limit) λ scope s.
            Ensures-bind _ _
              (read_integer-Ends input scope.content_length scope.content_offset 0
                (omega (arith, s.ends, s.below_size)))
              λ value _. Ensures-bind _ _ (skip_nodes-Ends 4 scope.next_offset limit) λ offset _.
                Ensures-bind _ _ (read_node-Ensures input offset limit) λ filter f.
                  Ensures-bind _ _ (requested_attributes-Ends filter.next_offset limit)
                    λ attributes _. returns (omega (arith, f.ends, f.below_size))

  module _ (message_id : ℕ) (search : SearchRequest) (all : List LdapObject)
      (inside : FilterInside search.filter) where
    passes_filter-Returns :
        (object : LdapObject) → Settles (passes_filter input message_id search all object)
    unfolding passes_filter
    passes_filter-Returns object = by_filter search.filter inside
      where
        by_filter :
            (m : Option LdapNode)
            → FilterInside m
            → Settles (elim m [
              | none ↦ ok true
              | some filter ↦ filter_matches_object input filter object (some all)
            ])
        by_filter none h = returned tt
        by_filter (some filter) h =
            let (matched, e) = filter_matches_object-Returns input filter object (some all) h in
            rw e (returned tt)

    search_entries-Returns :
        (objects : List LdapObject) → Settles (search_entries input message_id search all objects)
    unfolding search_entries
    search_entries-Returns [] = returned tt
    search_entries-Returns (object ∷ objects) =
        let rest = search_entries-Returns objects in
        Returns-if (not (object_in_scope object search)) _ _ (λ _. rest)
          λ _. Returns-bind _ _ (passes_filter-Returns object) λ matched _.
            Returns-if (not matched) _ _ (λ _. rest)
              λ _. Returns-bind _ _ rest λ entries _. returned tt

pub search_response-Settles :
    (netlogon_entry root_dse_entry : List ℕ) (virtual_objects : List LdapObject) (request : List ℕ)
    (message_id : ℕ) (op_node : LdapNode) (objects : List LdapObject)
    → Settles (
        search_response netlogon_entry root_dse_entry virtual_objects request message_id op_node
          objects)
unfolding search_response
search_response-Settles netlogon_entry root_dse_entry virtual_objects request message_id op_node
      objects =
    Returns-bind _ _ (read_message_controls-Returns request) λ controls _.
      Returns-if (has_unsupported_critical_control controls) _ _ (λ _. returned tt)
        λ _.
          Returns-attempt (parse_search_request request op_node) _ _
            (parse_search_request-Ensures request op_node) (returned tt)
            λ search inside.
              Returns-if
                (contains_ascii_case request (codes "netlogon")
                  || has_requested_attribute search.attributes (codes "netlogon"))
                _ _ (λ _. returned tt)
                λ _.
                  Returns-if (is_empty search.base_dn) _ _ (λ _. returned tt)
                    λ _.
                      Returns-bind _ _
                        (search_entries-Returns request message_id search
                          (merge_virtual_objects objects virtual_objects) inside
                          (merge_virtual_objects objects virtual_objects))
                        λ entries _. returned tt

-- On any bytes, any operation node and any objects, a search is answered: it reads inside the
-- message only, and its loops and its recursion end.
pub search_response-Returns :
    (netlogon_entry root_dse_entry : List ℕ) (virtual_objects : List LdapObject) (request : List ℕ)
    (message_id : ℕ) (op_node : LdapNode) (objects : List LdapObject)
    → (answer : List ℕ) × (search_response netlogon_entry root_dse_entry virtual_objects request
          message_id op_node objects
        ≡ ok answer)
search_response-Returns netlogon_entry root_dse_entry virtual_objects request message_id op_node
      objects =
    Returns-ok _ (
      search_response-Settles netlogon_entry root_dse_entry virtual_objects request message_id
        op_node objects)
