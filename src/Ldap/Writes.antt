-- ===== src/Ldap/Writes.antt =====
-- Writes to the directory: ldap.cpp, `validate_add_schema` and `write_response`.
--
-- The handler of writes is an argument, as it is in the source; it changes a directory of any type.
use endorium_nexus.Ldap.Ber.{ldap_message, result_payload}
use endorium_nexus.Ldap.Names.{is_valid_dn}
use endorium_nexus.Ldap.Objects.{
  LdapObject, equals_ascii_case, find_object_attribute, ends_in_dollar,
}
use endorium_nexus.Ldap.Session.{LdapSessionInfo}
use endorium_nexus.Prelude.{
  ◌==◌, if◌then◌else◌, is_empty, any, Text, codes, is_digit, ℕ, Bool, false, not, ◌||◌, Option,
  none, some, List, [],
}

pub data LdapMutationType : Type 0 where
  add : LdapMutationType
  modify : LdapMutationType
  rename : LdapMutationType
  remove : LdapMutationType

pub record LdapMutation : Type 0 where
  pub kind : LdapMutationType
  pub previous_dn : Text
  pub object : LdapObject
  pub attributes : List (Text × Text)
  pub attribute_operations : List (Text × ℕ)

pub record LdapMutationResult : Type 0 where
  pub is_ok : Bool
  pub result_code : ℕ
  pub diagnostic : Text

unfoldable pub computer_violation : Option (Text × Text) → Option (ℕ × Text)
computer_violation none = some (65, codes "computer accounts require a sAMAccountName attribute")
computer_violation (some (key, value)) =
    if is_empty value
    then some (65, codes "computer accounts require a sAMAccountName attribute")
    else if not (ends_in_dollar value)
    then some (19, codes "computer sAMAccountName must end with '$'")
    else none

unfoldable pub control_violation : Option (Text × Text) → Option (ℕ × Text)
control_violation none = none
control_violation (some (key, value)) =
    if is_empty value || any (λ ch. not (is_digit ch)) value
    then some (19, codes "userAccountControl must be a numeric value")
    else none

unfoldable pub validate_add_schema : LdapObject → Option (ℕ × Text)
validate_add_schema object =
    let computer =
      if equals_ascii_case object.kind (codes "computer")
      then computer_violation (find_object_attribute object (codes "sAMAccountName"))
      else none in
    if is_empty object.object_classes
    then some (65, codes "LDAP add requires at least one objectClass")
    else elim computer [
      | some violation ↦ some violation
      | none ↦ control_violation (find_object_attribute object (codes "userAccountControl"))
    ]

-- The violation of an `add`; the other writes are not looked at.
unfoldable pub violation_of : LdapMutation → Option (ℕ × Text)
violation_of mutation = elim mutation.kind [
  | add ↦ validate_add_schema mutation.object
  | modify ↦ none
  | rename ↦ none
  | remove ↦ none
]

unfoldable pub has_bad_previous_dn : LdapMutation → Bool
has_bad_previous_dn mutation = elim mutation.kind [
  | add ↦ false
  | modify ↦ false
  | rename ↦ is_empty mutation.previous_dn || not (is_valid_dn mutation.previous_dn)
  | remove ↦ false
]

unfoldable pub is_refused_session : Option LdapSessionInfo → Bool
is_refused_session none = false
is_refused_session (some session) = not session.authenticated

module _ (message_id response_tag : ℕ) where
  unfoldable pub write_answer : ℕ → Text → List ℕ
  write_answer result_code diagnostic =
      ldap_message message_id response_tag (result_payload result_code diagnostic)

  unfoldable pub handled : LdapMutationResult → List ℕ
  handled result =
      if not result.is_ok
      then write_answer (if result.result_code == 0 then 80 else result.result_code)
          result.diagnostic
      else write_answer 0 []

module _ {Directory : Type 0} (message_id response_tag : ℕ) where
  unfoldable pub run_handler :
      Option (LdapMutation → Directory → LdapMutationResult × Directory)
      → LdapMutation
      → Directory
      → List ℕ × Directory
  run_handler none mutation directory =
      (write_answer message_id response_tag 53 (codes "LDAP write handler unavailable"), directory)
  run_handler (some mutation_handler) mutation directory =
      let (result, later) = mutation_handler mutation directory in
      (handled message_id response_tag result, later)

  -- The answer and the directory after it.
  unfoldable pub write_response :
      Option LdapMutation
      → Option (LdapMutation → Directory → LdapMutationResult × Directory)
      → Text
      → Option LdapSessionInfo
      → Directory
      → List ℕ × Directory
  write_response none mutation_handler malformed_message session directory =
      (write_answer message_id response_tag 34 malformed_message, directory)
  write_response (some mutation) mutation_handler malformed_message session directory =
      if not (is_valid_dn mutation.object.dn) || has_bad_previous_dn mutation
      then (write_answer message_id response_tag 34 malformed_message, directory)
      else if is_refused_session session
      then (
        write_answer message_id response_tag 50 (codes "LDAP write requires an authenticated bind"),
        directory,
      )
      else elim (violation_of mutation) [
        | some (result_code, diagnostic) ↦
            (write_answer message_id response_tag result_code diagnostic, directory)
        | none ↦ run_handler mutation_handler mutation directory
      ]
