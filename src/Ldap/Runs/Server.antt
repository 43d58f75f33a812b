-- ===== src/Ldap/Runs/Server.antt =====
-- Concrete runs of the LDAP server's messages, and its theorems at concrete inputs.
use endorium_nexus.Ldap.Session.{
  LdapSessionInfo, KerberosApReqValidationResult, anonymous, bind_answer, bind_response,
  accepted_bind, simple_bind, verified_bind, named_session, set_session,
}
use endorium_nexus.Ldap.Server.{
  Reply, for_service, ldap_ad_response_impl, operation, bind_operation, write_operation,
}
use endorium_nexus.Ldap.Server.Safety.{
  guarded, Authorized, opened, answered, ldap_ad_response_impl-Authorized,
}
use endorium_nexus.Ldap.Ber.{
  read_message_header, read_node, read_length, read_integer, integer_from_node, string_from_node,
}
use endorium_nexus.Ldap.Requests.{parse_bind_request, read_tagged, read_authentication}
use endorium_nexus.Ldap.Changes.{parse_delete_request}
use endorium_nexus.Ldap.Writes.{
  handled, run_handler, violation_of, is_refused_session, has_bad_previous_dn,
}
use endorium_nexus.Ldap.Names.{is_valid_dn, is_valid_part, split_dn, split_loop}
use endorium_nexus.Ldap.Writes.{LdapMutation, LdapMutationResult, write_response}
use endorium_nexus.Ldap.Domain.{LdapDirectoryInfo}
use endorium_nexus.Prelude.{
  if◌then◌else◌, any, ok, byte_at, slice, Text, codes, text_eq, find_char, ℕ, suc, ◌≡◌, refl, true,
  false, Option, none, some, List, [], ◌∷◌,
}

abbrev verify : Text → Text → Option Text
verify name password = if text_eq password (codes "secret") then some (codes "u@X") else none

abbrev validate : List ℕ → KerberosApReqValidationResult
validate ap_req = record {
  is_ok = false;
  diagnostic = [];
  client_principal = [];
  response_token = [];
}

abbrev validate_for : List ℕ → Text → KerberosApReqValidationResult
validate_for ap_req service_principal = validate ap_req

abbrev verified_session : LdapSessionInfo
verified_session = record {
  authenticated = true;
  bind_dn = codes "cn=u";
  principal = codes "u@X";
  sasl_mechanism = [];
}

-- A handler that counts its calls.
abbrev count : LdapMutation → ℕ → LdapMutationResult × ℕ
count m n = (record { is_ok = true; result_code = 0; diagnostic = [] }, suc n)

abbrev example_domain : LdapDirectoryInfo
example_domain = record {
  dns_name = codes "x";
  base_dn = codes "dc=x";
  realm = codes "X";
  site_name = codes "s";
  domain_controller_host = codes "dc";
  domain_controller_address = codes "10.0.0.1";
  domain_sid = [];
}

-- A bind with a password, and a deletion.
abbrev bind_bytes : List ℕ
bind_bytes =
    0x30
    ∷ 22
    ∷ 2
    ∷ 1
    ∷ 1
    ∷ 0x60
    ∷ 17
    ∷ 2
    ∷ 1
    ∷ 3
    ∷ 4
    ∷ 4
    ∷ 99
    ∷ 110
    ∷ 61
    ∷ 117
    ∷ 0x80
    ∷ 6
    ∷ codes "secret"

abbrev delete_bytes : List ℕ
delete_bytes = 0x30 ∷ 9 ∷ 2 ∷ 1 ∷ 2 ∷ 0x4a ∷ 4 ∷ 99 ∷ 110 ∷ 61 ∷ 117 ∷ []

accepted :
    ldap_ad_response_impl
      (guarded verify validate_for example_domain (some count))
      bind_bytes
      []
      (some anonymous)
      7
    ≡ ok (record { answer = bind_answer 1 0 [] []; session = some verified_session; directory = 7 })
unfolding ldap_ad_response_impl operation bind_operation for_service bind_response accepted_bind
    simple_bind verified_bind named_session set_session text_eq read_message_header read_node
    read_length byte_at read_integer parse_bind_request read_tagged integer_from_node
    string_from_node slice read_authentication
accepted = refl

deleted :
    ldap_ad_response_impl
      (guarded verify validate_for example_domain (some count))
      delete_bytes
      []
      (some verified_session)
      7
    ≡ ok (record {
      answer = handled 2 0x6b (record { is_ok = true; result_code = 0; diagnostic = [] });
      session = some verified_session;
      directory = 8;
    })
unfolding ldap_ad_response_impl operation write_operation write_response read_message_header
    read_node read_length byte_at read_integer parse_delete_request string_from_node slice
    run_handler violation_of is_refused_session has_bad_previous_dn is_valid_dn is_valid_part
    split_dn split_loop find_char handled any
deleted = refl

ldap_ad_response_impl-Authorized_example :
    (reply : Reply ℕ) × (ldap_ad_response_impl
        (guarded verify validate_for example_domain (some count))
        delete_bytes
        []
        (some verified_session)
        7
      ≡ ok reply)
    × Authorized verify validate_for example_domain (some count) verified_session 7 reply.directory
ldap_ad_response_impl-Authorized_example =
    ldap_ad_response_impl-Authorized verify validate_for example_domain (some count) delete_bytes []
      verified_session 7
      (answered bind_bytes [] anonymous verified_session 7 7 (bind_answer 1 0 [] []) opened
        accepted)
