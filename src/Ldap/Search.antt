-- ===== src/Ldap/Search.antt =====
-- Answering a search and a comparison: ldap.cpp, `merge_virtual_objects`, `compare_response` and the
-- search of `ldap_ad_response_impl`.
--
-- The objects that the directory's own settings stand for, its root entry and its answer to a
-- locator's ping are arguments.
pub mod Safety
use endorium_nexus.Ldap.Ber.{
  LdapNode, LdapControl, ldap_message, result_payload, ldap_message_with_controls,
  read_message_controls,
}
use endorium_nexus.Ldap.Names.{is_valid_dn}
use endorium_nexus.Ldap.Objects.{LdapObject, equals_ascii_case, find_object_by_dn}
use endorium_nexus.Ldap.Matches.{object_attribute_equals}
use endorium_nexus.Ldap.Controls.{has_unsupported_critical_control, search_done_controls}
use endorium_nexus.Ldap.Requests.{SearchRequest, CompareRequest, parse_search_request}
use endorium_nexus.Ldap.Filter.{filter_matches_object}
use endorium_nexus.Ldap.Entries.{object_in_scope, has_requested_attribute, search_result_entry}
use endorium_nexus.Prelude.{
  ltb, leb, ◌==◌, if◌then◌else◌, ltb→lt, lt→ltb, le→ltb, leb→le, ==_iff, tests, Bool-cases,
  Option-cases, length, get_elem?, set, take, drop, is_empty, any, keep, All, All-append,
  length-append, length-set, length-take, length-drop, take-append-drop, take-append, drop-append,
  drop-append_le, get_elem?-lt, get_elem?-append, set-append, Outcome, ok, reject, fault, ◌>>=◌,
  ◌>>◌, reject_if, attempt, byte_at, Outcome-cases, Ensures, Ends, returns, rejects, Ensures-bind,
  Ensures-ok, Ensures-ne-fault, Ensures-map, Ensures-attempt, Ensures-guard, Ensures-if, Returns,
  returned, Returns-bind, Returns-attempt, Returns-option, Returns-if, Returns-ok, slice-Returns,
  byte_at-append, byte_at-behind, slice, slice-append, slice-Ensures, byte_at-lt, byte_at-Ensures,
  Text, codes, text_eq, text_eq_refl, text_eq→eq, text_eq_iff, ℤ, pos, negsuc, digits_of, to_string,
  digit_in, digits_run, wrapped, unsigned_run, prefixed_run, run_of, signed_run, stoul, is_space,
  trim_start, trim_end, behind_last, before_last, is_digit, decimal_value, unsigned_value, negated,
  signed_value, stoi, find_char, starts_with, starts_with-append, find_text, contains,
  contains-append, ends_with, to_lower, to_lower_idem, map-to_lower_idem, ℕ, zero, suc, ◌+◌, ◌-◌,
  ◌*◌, ◌/◌, ◌%◌, ◌^◌, ◌≤◌, ◌<◌, min, max, ◌≡◌, refl, sym, ap, ◌∙◌, ◌≢◌, ◌↔◌, ◌⊎◌, inl, inr, Bool,
  true, false, not, ◌&&◌, ◌||◌, Option, none, some, List, [], ◌∷◌, ◌++◌, map, append_assoc,
  append-nil, arith,
}

unfoldable pub merge_virtual_objects : List LdapObject → List LdapObject → List LdapObject
merge_virtual_objects merged [] = merged
merge_virtual_objects merged (object ∷ virtual_objects) =
    if any (λ existing. equals_ascii_case existing.dn object.dn) merged
    then merge_virtual_objects merged virtual_objects
    else merge_virtual_objects (merged ++ object ∷ []) virtual_objects

unfoldable pub compare_response :
    ℕ → Outcome CompareRequest → List LdapObject → List LdapObject → Outcome (List ℕ)
compare_response message_id parsed virtual_objects objects = do
  compare ← attempt parsed
  elim compare [
    | none ↦
        ok (
          ldap_message message_id 0x6f (result_payload 34 (codes "malformed LDAP compare request")))
    | some request ↦
        let searchable_objects = merge_virtual_objects objects virtual_objects in
        if not (is_valid_dn request.dn)
        then ok (
            ldap_message message_id 0x6f
              (result_payload 34 (codes "malformed LDAP compare request")))
        else elim (find_object_by_dn searchable_objects request.dn) [
          | none ↦
              ok (
                ldap_message message_id 0x6f
                  (result_payload 32 (codes "LDAP object was not found")))
          | some object ↦ ok (
              ldap_message message_id 0x6f (
                result_payload
                  (if object_attribute_equals object request.attribute request.value
                      (some searchable_objects)
                    then 6
                    else 5)
                  []))
        ]
  ]

-- contains_ascii_case
unfoldable pub contains_ascii_case : List ℕ → Text → Bool
contains_ascii_case input needle =
    not (is_empty needle) && contains (map to_lower input) (map to_lower needle)

module _ (request : List ℕ) (message_id : ℕ) (search : SearchRequest)
    (searchable_objects : List LdapObject) where
  -- Whether the search has no filter, or its filter holds of the object.
  unfoldable pub passes_filter : LdapObject → Outcome Bool
  passes_filter object = elim search.filter [
    | none ↦ ok true
    | some filter ↦ filter_matches_object request filter object (some searchable_objects)
  ]

  -- The loop over the objects: the messages of those in scope that the filter holds of.
  unfoldable pub search_entries : List LdapObject → Outcome (List ℕ)
  search_entries [] = ok []
  search_entries (object ∷ objects) =
      let rest = search_entries objects in
      if not (object_in_scope object search)
      then rest
      else passes_filter object >>= λ matched.
          if not matched
          then rest
          else rest >>= λ entries. ok (
              ldap_message message_id 0x64
                (search_result_entry object (some searchable_objects) search.attributes)
              ++ entries)

-- The answer to operation 0x63.
module _ (netlogon_entry root_dse_entry : List ℕ) (virtual_objects : List LdapObject) where
  unfoldable pub search_response : List ℕ → ℕ → LdapNode → List LdapObject → Outcome (List ℕ)
  search_response request message_id op_node objects = do
    request_controls ← read_message_controls request
    if has_unsupported_critical_control request_controls
        then ok (
            ldap_message message_id 0x65
              (result_payload 12 (codes "unsupported critical LDAP control")))
        else do
          parsed ← attempt (parse_search_request request op_node)
          elim parsed [
            | none ↦ ok (
                ldap_message message_id 0x65
                  (result_payload 2 (codes "malformed LDAP search request")))
            | some search ↦
                let done =
                  ldap_message_with_controls message_id 0x65 (result_payload 0 [])
                    (search_done_controls request_controls) in
                let searchable_objects = merge_virtual_objects objects virtual_objects in
                if contains_ascii_case request (codes "netlogon")
                  || has_requested_attribute search.attributes (codes "netlogon")
                then ok (ldap_message message_id 0x64 netlogon_entry ++ done)
                else if is_empty search.base_dn
                then ok (ldap_message message_id 0x64 root_dse_entry ++ done)
                else (search_entries request message_id search searchable_objects searchable_objects
                    >>= λ entries. ok (entries ++ done))
          ]
