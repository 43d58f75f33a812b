-- ===== src/Ldap/Server/Safety.antt =====
-- Every message is answered, and no message changes the directory unless its session may.
use endorium_nexus.Ldap.Ber.{LdapNode, read_message_header}
use endorium_nexus.Ldap.Ber.Safety.{read_message_header-Ensures}
use endorium_nexus.Ldap.Objects.{LdapObject, find_object_by_dn}
use endorium_nexus.Ldap.Names.{is_valid_dn}
use endorium_nexus.Ldap.Ber.{ldap_message, result_payload}
use endorium_nexus.Ldap.Matches.{object_attribute_equals}
use endorium_nexus.Ldap.Requests.{LdapBindRequest, CompareRequest, parse_bind_request}
use endorium_nexus.Ldap.Search.{compare_response, merge_virtual_objects}
use endorium_nexus.Ldap.Search.Safety.{Settles, search_response-Settles}
use endorium_nexus.Ldap.Session.{
  LdapSessionInfo, KerberosApReqValidationResult, anonymous, bind_response,
}
use endorium_nexus.Ldap.Session.Safety.{
  Justified, IsSound, anonymous-IsSound, bind_response-Returns, write_response-authorized,
}
use endorium_nexus.Ldap.Writes.{LdapMutation, LdapMutationResult}
use endorium_nexus.Ldap.Changes.Safety.{
  parse_bind_request-Ends, parse_compare_request-Ends, parse_add_request-Ends,
  parse_modify_request-Ends, parse_delete_request-Ends, parse_modify_dn_request-Ends,
}
use endorium_nexus.Ldap.Server.{
  Settings, for_service, Reply, only, bind_operation, write_operation, operation,
  ldap_ad_response_impl,
}
use endorium_nexus.Ldap.Domain.{
  LdapDirectoryInfo, ldap_service_principal, root_dse_entry, virtual_ad_objects,
}
use endorium_nexus.Ldap.Locator.{netlogon_entry}
use endorium_nexus.Prelude.{
  ◌==◌, if◌then◌else◌, length, Outcome, ok, ◌>>=◌, attempt, Ends, returns, rejects, Returns,
  returned, Returns-bind, Returns-attempt, Returns-if, Returns-ok, Returns-value, Text, codes, ℕ,
  ◌+◌, ◌≤◌, ◌≡◌, refl, ◌⊎◌, inl, true, not, Option, none, some, List, [],
}

compare-Settles :
    (message_id : ℕ) (parsed : Outcome CompareRequest) (virtual_objects objects : List LdapObject)
    → Ends parsed
    → Settles (compare_response message_id parsed virtual_objects objects)
unfolding compare_response
compare-Settles message_id parsed virtual_objects objects h =
    Returns-attempt parsed _ _ h (returned tt) λ request _.
      Returns-if (not (is_valid_dn request.dn)) _ _ (λ _. returned tt)
        λ _.
          found request
            (find_object_by_dn (merge_virtual_objects objects virtual_objects) request.dn)
  where
    found :
        (request : CompareRequest) (m : Option LdapObject)
        → Settles (elim m [
          | none ↦
              ok (
                ldap_message message_id 0x6f
                  (result_payload 32 (codes "LDAP object was not found")))
          | some object ↦ ok (
              ldap_message message_id 0x6f (
                result_payload
                  (if object_attribute_equals object request.attribute request.value
                      (some (merge_virtual_objects objects virtual_objects))
                    then 6
                    else 5)
                  []))
        ])
    found request none = returned tt
    found request (some object) = returned tt

module _ {Directory : Type 0} (verify : Text → Text → Option Text)
    (validate_for : List ℕ → Text → KerberosApReqValidationResult) (info : LdapDirectoryInfo)
    (mutation_handler : Option (LdapMutation → Directory → LdapMutationResult × Directory)) where
  -- The check of a ticket for this server's service.
  abbrev pub validate : List ℕ → KerberosApReqValidationResult
  validate ap_req = validate_for ap_req (ldap_service_principal info)

  -- Settings with a verifier of passwords and a realm.
  abbrev pub guarded : Settings Directory
  guarded = record {
    info = info;
    kerberos_realm = some validate_for;
    simple_bind_verifier = some verify;
    mutation_handler = mutation_handler;
  }

  -- The directory is as before, or the session is authenticated and has a reason to be.
  abbrev pub Authorized : LdapSessionInfo → Directory → Directory → Type 0
  Authorized session before after =
      (after ≡ before) ⊎ ((session.authenticated ≡ true) × Justified verify validate session)

  module _ (request : List ℕ) (objects : List LdapObject) (session : LdapSessionInfo)
      (directory : Directory) (sound : IsSound verify validate (some session)) where
    abbrev Good : Reply Directory → Type 0
    Good reply =
        IsSound verify validate reply.session × Authorized session directory reply.directory

    only-Good :
        (answer : List ℕ) → Good (only guarded request objects (some session) directory answer)
    unfolding only
    only-Good answer = (sound, inl refl)

    bind-Returns :
        (message_id : ℕ) (op_node : LdapNode)
        → Returns Good
            (bind_operation guarded request objects (some session) directory message_id op_node)
    unfolding bind_operation for_service
    bind-Returns message_id op_node =
        bind_option message_id (parse_bind_request request op_node)
          (parse_bind_request-Ends request op_node)
      where
        bind_option :
            (message_id : ℕ) (m : Outcome LdapBindRequest)
            → Ends m
            → Returns Good (do
              parsed ← attempt m
              (answer, later) ←
                  bind_response message_id parsed (some validate) (some session) (some verify)
              ok (record { answer = answer; session = later; directory = directory }))
        bind_option message_id _ (returns {a = bind_request} h) =
            Returns-bind _ _
              (bind_response-Returns verify validate message_id (some bind_request) (some session)
                sound)
              λ (answer, later) k. returned (k, inl refl)
        bind_option message_id _ rejects =
            Returns-bind _ _
              (bind_response-Returns verify validate message_id none (some session) sound)
              λ (answer, later) k. returned (k, inl refl)

    write-Returns :
        (message_id response_tag : ℕ) (parsed : Outcome LdapMutation) (malformed_message : Text)
        → Ends parsed
        → Returns Good (
            write_operation guarded request objects
              (some session)
              directory
              message_id
              response_tag
              parsed
              malformed_message)
    unfolding write_operation
    write-Returns message_id response_tag _ malformed_message (returns {a = mutation} h) =
        returned (
          sound,
          write_response-authorized verify validate message_id response_tag (some mutation)
              mutation_handler malformed_message directory session sound,
        )
    write-Returns message_id response_tag _ malformed_message rejects = returned (
      sound,
      write_response-authorized verify validate message_id response_tag none mutation_handler
          malformed_message directory session sound,
    )

    operation-Returns :
        (message_id op_tag : ℕ) (op_node : LdapNode)
        → op_node.content_offset + op_node.content_length ≤ length request
        → Returns Good
            (operation guarded request objects (some session) directory message_id op_tag op_node)
    unfolding operation
    operation-Returns message_id op_tag op_node inside =
        Returns-if (op_tag == 0x60) _ _ (λ _. bind-Returns message_id op_node)
          λ _.
            Returns-if (op_tag == 0x63) _ _
              (λ _.
                Returns-bind _ _
                  (search_response-Settles (netlogon_entry info) (root_dse_entry info)
                    (virtual_ad_objects info) request message_id op_node objects)
                  λ answer _. returned (only-Good answer))
              λ _.
                Returns-if (op_tag == 0x42) _ _ (λ _. returned (only-Good []))
                  λ _.
                    Returns-if (op_tag == 0x68) _ _
                      (λ _.
                        write-Returns message_id 0x69 _ _ (parse_add_request-Ends request op_node))
                      λ _.
                        Returns-if (op_tag == 0x66) _ _
                          (λ _.
                            write-Returns message_id 0x67 _ _
                              (parse_modify_request-Ends request op_node))
                          λ _.
                            Returns-if (op_tag == 0x4a) _ _
                              (λ _.
                                write-Returns message_id 0x6b _ _
                                  (parse_delete_request-Ends request op_node inside))
                              λ _.
                                Returns-if (op_tag == 0x6c) _ _
                                  (λ _.
                                    write-Returns message_id 0x6d _ _
                                      (parse_modify_dn_request-Ends request op_node))
                                  λ _.
                                    Returns-if (op_tag == 0x6e) _ _
                                      (λ _.
                                        Returns-bind _ _
                                          (compare-Settles message_id _ (virtual_ad_objects info)
                                            objects (parse_compare_request-Ends request op_node))
                                          λ answer _. returned (only-Good answer))
                                      λ _. returned (only-Good _)

    impl-Returns :
        Returns Good (ldap_ad_response_impl guarded request objects (some session) directory)
    unfolding ldap_ad_response_impl
    impl-Returns =
        Returns-attempt (read_message_header request) _ _ (read_message_header-Ensures request)
          (returned (only-Good []))
          λ (message_id, op_tag, op_node) inside.
            operation-Returns message_id op_tag op_node inside.1

  -- The sessions of a connection, by the messages that it sends.
  pub data Connection : LdapSessionInfo → Type 0 where
    opened : Connection anonymous
    answered :
        (request : List ℕ) (objects : List LdapObject) (session later : LdapSessionInfo)
        (before after : Directory) (answer : List ℕ)
        → Connection session
        → ldap_ad_response_impl guarded request objects (some session) before
          ≡ ok (record { answer = answer; session = some later; directory = after })
        → Connection later

  Connection-IsSound :
      (session : LdapSessionInfo) → Connection session → IsSound verify validate (some session)
  Connection-IsSound _ opened = anonymous-IsSound verify validate
  Connection-IsSound _ (answered request objects session later before after answer earlier e) =
      (Returns-value {P = Good request objects session before (Connection-IsSound session earlier)}
        (record { answer = answer; session = some later; directory = after })
        (rw (← e)
          (impl-Returns request objects session before (Connection-IsSound session earlier)))).0

  -- With a verifier of passwords and a realm, any bytes that a connection sends are answered, with no
  -- read outside the message and no endless loop, and they change the directory only if the session
  -- is authenticated, by a password that the verifier accepted for the bound name, by a ticket that
  -- is valid for the principal, or by naming the mechanism EXTERNAL.
  pub ldap_ad_response_impl-Authorized :
      (request : List ℕ) (objects : List LdapObject) (session : LdapSessionInfo)
      (directory : Directory)
      → Connection session
      → (reply : Reply Directory) × (ldap_ad_response_impl guarded request objects
            (some session)
            directory
          ≡ ok reply)
        × Authorized session directory reply.directory
  ldap_ad_response_impl-Authorized request objects session directory connection =
      let h =
        impl-Returns request objects session directory (Connection-IsSound session connection) in
      let (reply, e) = Returns-ok _ h in
      (
        reply,
        e,
        (Returns-value
            {P = Good request objects session directory (Connection-IsSound session connection)}
            reply (rw (← e) h)).1,
      )
