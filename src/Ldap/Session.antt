-- ===== src/Ldap/Session.antt =====
-- Binds and writes of an LDAP session: ldap.cpp, `extract_kerberos_ap_req` to `bind_response` and
-- `validate_add_schema`, `write_response`.
--
-- The verifier of passwords, the check of a Kerberos ticket (kerberos.cpp) and the handler of writes
-- are arguments, as they are in the source; `none` is a null pointer.
pub mod Safety
use endorium_nexus.Ldap.Ber.{
  read_node, tlv, append_tlv, ldap_message, result_payload, bind_response_payload,
}
use endorium_nexus.Ldap.Names.{is_valid_dn}
use endorium_nexus.Ldap.Objects.{
  LdapObject, equals_ascii_case, find_object_attribute, ends_in_dollar,
}
use endorium_nexus.Ldap.Controls.{is_supported_sasl_mechanism}
use endorium_nexus.Ldap.Requests.{LdapBindRequest}
use endorium_nexus.Prelude.{
  ltb, leb, ◌==◌, if◌then◌else◌, ltb→lt, lt→ltb, le→ltb, leb→le, ==_iff, tests, Bool-cases,
  Option-cases, length, get_elem?, set, take, drop, is_empty, any, keep, All, All-append,
  length-append, length-set, length-take, length-drop, take-append-drop, take-append, drop-append,
  drop-append_le, get_elem?-lt, get_elem?-append, set-append, Outcome, ok, reject, fault, ◌>>=◌,
  ◌>>◌, reject_if, attempt, byte_at, Outcome-cases, Ensures, Ends, returns, rejects, Ensures-bind,
  Ensures-ok, Ensures-ne-fault, Ensures-map, Ensures-attempt, Ensures-guard, Ensures-if, Returns,
  returned, Returns-bind, Returns-attempt, Returns-option, Returns-if, Returns-ok, slice-Returns,
  byte_at-append, byte_at-behind, slice, slice-append, slice-Ensures, byte_at-lt, byte_at-Ensures,
  Text, codes, text_eq, text_eq_refl, text_eq→eq, text_eq_iff, ℤ, pos, negsuc, digits_of, to_string,
  digit_in, digits_run, wrapped, unsigned_run, prefixed_run, run_of, signed_run, stoul, is_space,
  trim_start, trim_end, behind_last, before_last, is_digit, decimal_value, unsigned_value, negated,
  signed_value, stoi, find_char, starts_with, starts_with-append, find_text, contains,
  contains-append, ends_with, to_lower, to_lower_idem, map-to_lower_idem, ℕ, zero, suc, ◌+◌, ◌-◌,
  ◌*◌, ◌/◌, ◌%◌, ◌^◌, ◌≤◌, ◌<◌, min, max, ◌≡◌, refl, sym, ap, ◌∙◌, ◌≢◌, ◌↔◌, ◌⊎◌, inl, inr, Bool,
  true, false, not, ◌&&◌, ◌||◌, Option, none, some, List, [], ◌∷◌, ◌++◌, map, append_assoc,
  append-nil, arith,
}

pub record LdapSessionInfo : Type 0 where
  pub authenticated : Bool
  pub bind_dn : Text
  pub principal : Text
  pub sasl_mechanism : Text

-- The fields of the ticket's check that a bind looks at.
pub record KerberosApReqValidationResult : Type 0 where
  pub is_ok : Bool
  pub diagnostic : Text
  pub client_principal : Text
  pub response_token : List ℕ

-- The first application request among the bytes, or nothing.
unfoldable pub extract_from : List ℕ → ℕ → ℕ → Outcome (List ℕ)
extract_from credentials zero offset = ok []
extract_from credentials (suc rounds) offset = do
  found ← attempt (read_node credentials offset (length credentials))
  elim found [
    | none ↦ extract_from credentials rounds (offset + 1)
    | some node ↦
        if node.tag == 0x6e
        then slice credentials offset (node.next_offset - offset)
        else extract_from credentials rounds (offset + 1)
  ]

unfoldable pub extract_kerberos_ap_req : List ℕ → Outcome (List ℕ)
extract_kerberos_ap_req credentials = extract_from credentials (length credentials) 0

unfoldable pub spnego_response_token : List ℕ → List ℕ
spnego_response_token response_token =
    let neg_token_payload =
      append_tlv (append_tlv [] 0xa0 (tlv 0x0a (0 ∷ []))) 0xa2 (tlv 0x04 response_token) in
    let neg_token_resp = tlv 0xa1 (tlv 0x30 neg_token_payload) in
    tlv 0x60 ((0x06 ∷ 0x06 ∷ 0x2b ∷ 0x06 ∷ 0x01 ∷ 0x05 ∷ 0x05 ∷ 0x02 ∷ []) ++ neg_token_resp)

unfoldable pub sasl_response_token : LdapBindRequest → List ℕ → List ℕ
sasl_response_token request response_token =
    if is_empty response_token
    then []
    else if equals_ascii_case request.sasl_mechanism (codes "GSS-SPNEGO")
    then spnego_response_token response_token
    else response_token

unfoldable pub bind_answer : ℕ → ℕ → Text → List ℕ → List ℕ
bind_answer message_id result_code diagnostic credentials =
    ldap_message message_id 0x61 (bind_response_payload result_code diagnostic credentials)

-- `if (session != nullptr)` around the writes to the session.
unfoldable pub set_session : Option LdapSessionInfo → LdapSessionInfo → Option LdapSessionInfo
set_session none new = none
set_session (some old) new = some new

unfoldable pub anonymous : LdapSessionInfo
anonymous = record { authenticated = false; bind_dn = []; principal = []; sasl_mechanism = [] }

module _ (message_id : ℕ) (request : LdapBindRequest) (session : Option LdapSessionInfo) where
  -- The session of a bind under the name that it gives.
  unfoldable pub named_session : Bool → Text → Text → LdapSessionInfo
  named_session authenticated principal sasl_mechanism = record {
    authenticated = authenticated;
    bind_dn = request.name;
    principal = principal;
    sasl_mechanism = sasl_mechanism;
  }

  -- The verifier's answer on the name and the password.
  unfoldable pub verified_bind : Option Text → List ℕ × Option LdapSessionInfo
  verified_bind none = (
    bind_answer message_id 49 (codes "LDAP simple bind credentials are invalid") [],
    set_session session (named_session false [] []),
  )
  verified_bind (some verified_principal) =
      let principal = if is_empty verified_principal then request.name else verified_principal in
      (bind_answer message_id 0 [] [], set_session session (named_session true principal []))

  unfoldable pub simple_bind : Option (Text → Text → Option Text) → List ℕ × Option LdapSessionInfo
  simple_bind simple_bind_verifier =
      if is_empty request.name && is_empty request.simple_password
      then (bind_answer message_id 0 [] [], set_session session anonymous)
      else elim simple_bind_verifier [
        | none ↦ (
          bind_answer message_id 0 [] [],
          set_session session
              (named_session (not (is_empty request.simple_password)) request.name []),
        )
        | some verify ↦ verified_bind (verify request.name request.simple_password)
      ]

  unfoldable pub kerberos_bind :
      (List ℕ → KerberosApReqValidationResult) → List ℕ → List ℕ × Option LdapSessionInfo
  kerberos_bind validate ap_req =
      let validation = validate ap_req in
      if is_empty ap_req
      then (bind_answer message_id 49 (codes "LDAP SASL Kerberos AP-REQ is missing") [], session)
      else if not validation.is_ok
      then (bind_answer message_id 49 validation.diagnostic [], session)
      else (
        bind_answer message_id 0 [] (sasl_response_token request validation.response_token),
        set_session session (named_session true validation.client_principal request.sasl_mechanism),
      )

  -- A mechanism that is taken at its word.
  unfoldable pub trusted_bind : List ℕ × Option LdapSessionInfo
  trusted_bind = (
    bind_answer message_id 0 [] [],
    set_session session (
        named_session
          (equals_ascii_case request.sasl_mechanism (codes "EXTERNAL")
            || not (is_empty request.sasl_credentials))
          request.name request.sasl_mechanism),
  )

  unfoldable pub is_kerberos_bind : Bool
  is_kerberos_bind =
      not (is_empty request.sasl_credentials)
      && (equals_ascii_case request.sasl_mechanism (codes "GSS-SPNEGO")
          || equals_ascii_case request.sasl_mechanism (codes "GSSAPI"))

  unfoldable pub sasl_bind :
      Option (List ℕ → KerberosApReqValidationResult) → Outcome (List ℕ × Option LdapSessionInfo)
  sasl_bind kerberos_realm =
      if not (is_supported_sasl_mechanism request.sasl_mechanism)
      then ok (bind_answer message_id 7 (codes "unsupported LDAP SASL mechanism") [], session)
      else elim kerberos_realm [
        | none ↦ ok trusted_bind
        | some validate ↦
            if is_kerberos_bind
            then (extract_kerberos_ap_req request.sasl_credentials >>= λ ap_req.
                ok (kerberos_bind validate ap_req))
            else ok trusted_bind
      ]

  unfoldable pub accepted_bind :
      Option (Text → Text → Option Text)
      → Option (List ℕ → KerberosApReqValidationResult)
      → Outcome (List ℕ × Option LdapSessionInfo)
  accepted_bind simple_bind_verifier kerberos_realm =
      if not (request.version == 2) && not (request.version == 3)
      then ok (bind_answer message_id 2 (codes "unsupported LDAP bind version") [], session)
      else if request.auth_tag == 0x80
      then ok (simple_bind simple_bind_verifier)
      else if request.auth_tag == 0xa3
      then sasl_bind kerberos_realm
      else ok
          (bind_answer message_id 7 (codes "unsupported LDAP authentication choice") [], session)

-- The answer and the session after it.
unfoldable pub bind_response :
    ℕ
    → Option LdapBindRequest
    → Option (List ℕ → KerberosApReqValidationResult)
    → Option LdapSessionInfo
    → Option (Text → Text → Option Text)
    → Outcome (List ℕ × Option LdapSessionInfo)
bind_response message_id none kerberos_realm session simple_bind_verifier =
    ok (bind_answer message_id 2 (codes "malformed LDAP bind request") [], session)
bind_response message_id (some request) kerberos_realm session simple_bind_verifier =
    accepted_bind message_id request session simple_bind_verifier kerberos_realm
