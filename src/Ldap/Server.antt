-- ===== src/Ldap/Server.antt =====
-- One message to the LDAP server: ldap.cpp, `ldap_ad_response_impl`.
pub mod Safety
use endorium_nexus.Ldap.Ber.{LdapNode, ldap_message, result_payload, read_message_header}
use endorium_nexus.Ldap.Objects.{LdapObject}
use endorium_nexus.Ldap.Requests.{parse_bind_request, parse_compare_request}
use endorium_nexus.Ldap.Search.{search_response, compare_response}
use endorium_nexus.Ldap.Session.{LdapSessionInfo, KerberosApReqValidationResult, bind_response}
use endorium_nexus.Ldap.Writes.{LdapMutation, LdapMutationResult, write_response}
use endorium_nexus.Ldap.Changes.{
  parse_add_request, parse_modify_request, parse_delete_request, parse_modify_dn_request,
}
use endorium_nexus.Ldap.Domain.{
  LdapDirectoryInfo, ldap_service_principal, root_dse_entry, virtual_ad_objects,
}
use endorium_nexus.Ldap.Locator.{netlogon_entry}
use endorium_nexus.Prelude.{
  ltb, leb, ◌==◌, if◌then◌else◌, ltb→lt, lt→ltb, le→ltb, leb→le, ==_iff, tests, Bool-cases,
  Option-cases, length, get_elem?, set, take, drop, is_empty, any, keep, All, All-append,
  length-append, length-set, length-take, length-drop, take-append-drop, take-append, drop-append,
  drop-append_le, get_elem?-lt, get_elem?-append, set-append, Outcome, ok, reject, fault, ◌>>=◌,
  ◌>>◌, reject_if, attempt, byte_at, Outcome-cases, Ensures, Ends, returns, rejects, Ensures-bind,
  Ensures-ok, Ensures-ne-fault, Ensures-map, Ensures-attempt, Ensures-guard, Ensures-if, Returns,
  returned, Returns-bind, Returns-attempt, Returns-option, Returns-if, Returns-ok, Returns-Ensures,
  Returns-value, slice-Returns, byte_at-append, byte_at-behind, slice, slice-append, slice-Ensures,
  byte_at-lt, byte_at-Ensures, Text, codes, text_eq, text_eq_refl, text_eq→eq, text_eq_iff, ℤ, pos,
  negsuc, digits_of, to_string, digit_in, digits_run, wrapped, unsigned_run, prefixed_run, run_of,
  signed_run, stoul, is_space, trim_start, trim_end, behind_last, before_last, is_digit,
  decimal_value, unsigned_value, negated, signed_value, stoi, find_char, starts_with,
  starts_with-append, find_text, contains, contains-append, ends_with, to_lower, to_lower_idem,
  map-to_lower_idem, ℕ, zero, suc, ◌+◌, ◌-◌, ◌*◌, ◌/◌, ◌%◌, ◌^◌, ◌≤◌, ◌<◌, min, max, ◌≡◌, refl, sym,
  ap, ◌∙◌, ◌≢◌, ◌↔◌, ◌⊎◌, inl, inr, Bool, true, false, not, ◌&&◌, ◌||◌, Option, none, some, List,
  [], ◌∷◌, ◌++◌, map, append_assoc, append-nil, arith,
}

-- What the server is configured with.
pub record Settings (Directory : Type 0) : Type 0 where
  pub info : LdapDirectoryInfo
  pub kerberos_realm : Option (List ℕ → Text → KerberosApReqValidationResult)
  pub simple_bind_verifier : Option (Text → Text → Option Text)
  pub mutation_handler : Option (LdapMutation → Directory → LdapMutationResult × Directory)

-- The check of a ticket for this server's service.
unfoldable pub for_service :
    Text
    → Option (List ℕ → Text → KerberosApReqValidationResult)
    → Option (List ℕ → KerberosApReqValidationResult)
for_service service_principal none = none
for_service service_principal (some validate) = some (λ ap_req. validate ap_req service_principal)

-- What a message leads to: the answer, the session and the directory.
pub record Reply (Directory : Type 0) : Type 0 where
  pub answer : List ℕ
  pub session : Option LdapSessionInfo
  pub directory : Directory

module _ {Directory : Type 0} (settings : Settings Directory) (request : List ℕ)
    (objects : List LdapObject) (session : Option LdapSessionInfo) (directory : Directory) where
  -- An answer that leaves the session and the directory as they are.
  unfoldable pub only : List ℕ → Reply Directory
  only answer = record { answer = answer; session = session; directory = directory }

  unfoldable pub bind_operation : ℕ → LdapNode → Outcome (Reply Directory)
  bind_operation message_id op_node = do
    parsed ← attempt (parse_bind_request request op_node)
    (answer, later) ←
        bind_response message_id parsed
          (for_service (ldap_service_principal settings.info) settings.kerberos_realm) session
          settings.simple_bind_verifier
    ok (record { answer = answer; session = later; directory = directory })

  unfoldable pub write_operation : ℕ → ℕ → Outcome LdapMutation → Text → Outcome (Reply Directory)
  write_operation message_id response_tag parsed malformed_message = do
    mutation ← attempt parsed
    let (answer, later) =
        write_response message_id response_tag mutation settings.mutation_handler malformed_message
          session directory
    ok (record { answer = answer; session = session; directory = later })

  unfoldable pub operation : ℕ → ℕ → LdapNode → Outcome (Reply Directory)
  operation message_id op_tag op_node =
      if op_tag == 0x60
      then bind_operation message_id op_node
      else if op_tag == 0x63
      then (search_response (netlogon_entry settings.info) (root_dse_entry settings.info)
            (virtual_ad_objects settings.info) request message_id op_node objects
          >>= λ answer. ok (only answer))
      else if op_tag == 0x42
      then ok (only [])
      else if op_tag == 0x68
      then write_operation message_id 0x69 (parse_add_request request op_node)
          (codes "malformed LDAP add request")
      else if op_tag == 0x66
      then write_operation message_id 0x67 (parse_modify_request request op_node)
          (codes "malformed LDAP modify request")
      else if op_tag == 0x4a
      then write_operation message_id 0x6b (parse_delete_request request op_node)
          (codes "malformed LDAP delete request")
      else if op_tag == 0x6c
      then write_operation message_id 0x6d (parse_modify_dn_request request op_node)
          (codes "malformed LDAP modifyDN request")
      else if op_tag == 0x6e
      then (compare_response message_id (parse_compare_request request op_node)
            (virtual_ad_objects settings.info) objects
          >>= λ answer. ok (only answer))
      else ok (
          only (
            ldap_message message_id 0x65
              (result_payload 2 (codes "operation is not implemented in this AD milestone"))))

  unfoldable pub ldap_ad_response_impl : Outcome (Reply Directory)
  ldap_ad_response_impl = do
    header ← attempt (read_message_header request)
    elim header [
      | none ↦ ok (only [])
      | some (message_id, op_tag, op_node) ↦ operation message_id op_tag op_node
    ]
