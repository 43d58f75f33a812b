-- ===== src/Ldap/Session/Safety.antt =====
-- Who may write: a session is authenticated by a password, by a ticket, or by naming the mechanism
-- EXTERNAL, and the directory changes in an authenticated session only.
use endorium_nexus.Ldap.Objects.{equals_ascii_case}
use endorium_nexus.Ldap.Controls.{is_supported_sasl_mechanism}
use endorium_nexus.Ldap.Requests.{LdapBindRequest}
use endorium_nexus.Ldap.Ber.{read_node}
use endorium_nexus.Ldap.Ber.Safety.{read_node-Ensures}
use endorium_nexus.Ldap.Session.{
  extract_from, LdapSessionInfo, KerberosApReqValidationResult, extract_kerberos_ap_req,
  set_session, anonymous, named_session, verified_bind, simple_bind, kerberos_bind, trusted_bind,
  is_kerberos_bind, sasl_bind, accepted_bind, bind_response,
}
use endorium_nexus.Ldap.Writes.{
  LdapMutation, LdapMutationResult, is_refused_session, write_response,
}
use endorium_nexus.Prelude.{
  ◌==◌, if◌then◌else◌, Bool-cases, length, is_empty, Outcome, Returns, returned, Returns-bind,
  Returns-attempt, Returns-if, slice-Returns, Text, codes, ℕ, zero, suc, ◌+◌, ◌-◌, ◌≡◌, refl, ◌⊎◌,
  inl, inr, Bool, true, false, not, ◌&&◌, Option, none, some, List, arith,
}

extract_from-Returns :
    (credentials : List ℕ) (rounds offset : ℕ)
    → Returns (λ _. Unit {0}) (extract_from credentials rounds offset)
unfolding extract_from
extract_from-Returns credentials zero offset = returned tt
extract_from-Returns credentials (suc rounds) offset =
    Returns-attempt (read_node credentials offset (length credentials)) _ _
      (read_node-Ensures credentials offset (length credentials))
      (extract_from-Returns credentials rounds (offset + 1))
      λ node i.
        Returns-if (node.tag == 0x6e) _ _
          (λ _.
            slice-Returns credentials offset (node.next_offset - offset)
              (omega (arith, i.starts, i.ends, i.below_size)))
          λ _. extract_from-Returns credentials rounds (offset + 1)

extract-Returns :
    (credentials : List ℕ) → Returns (λ _. Unit {0}) (extract_kerberos_ap_req credentials)
unfolding extract_kerberos_ap_req
extract-Returns credentials = extract_from-Returns credentials (length credentials) 0

module _ (verify : Text → Text → Option Text)
    (validate : List ℕ → KerberosApReqValidationResult) where
  -- Why a session is authenticated.
  pub data Justified (session : LdapSessionInfo) : Type 0 where
    by_password :
        (password verified_principal : Text)
        → verify session.bind_dn password ≡ some verified_principal
        → Justified session
    by_ticket :
        (ap_req : List ℕ)
        → (validate ap_req).is_ok ≡ true
        → session.principal ≡ (validate ap_req).client_principal
        → Justified session
    by_external :
        equals_ascii_case session.sasl_mechanism (codes "EXTERNAL") ≡ true → Justified session

  -- An authenticated session has a reason.
  abbrev pub IsSound : Option LdapSessionInfo → Type 0
  IsSound none = Unit
  IsSound (some session) = session.authenticated ≡ true → Justified session

  abbrev Keeps : Outcome (List ℕ × Option LdapSessionInfo) → Type 0
  Keeps m = Returns (λ r. IsSound r.1) m

  set-IsSound :
      (session : Option LdapSessionInfo) (new : LdapSessionInfo)
      → IsSound (some new)
      → IsSound (set_session session new)
  unfolding set_session
  set-IsSound none new h = tt
  set-IsSound (some old) new h = h

  pub anonymous-IsSound : IsSound (some anonymous)
  unfolding anonymous
  anonymous-IsSound h = absurd_bool h
    where
      absurd_bool : {A : Type 0} → false ≡ true → A
      absurd_bool h = cc

  pick :
      (b : Bool) (x y : List ℕ × Option LdapSessionInfo)
      → (b ≡ true → IsSound x.1)
      → (b ≡ false → IsSound y.1)
      → IsSound (if b then x else y).1
  pick true x y h k = h refl
  pick false x y h k = k refl

  module _ (message_id : ℕ) (request : LdapBindRequest) (session : Option LdapSessionInfo)
      (sound : IsSound session) where
    verified-IsSound :
        (m : Option Text)
        → verify request.name request.simple_password ≡ m
        → IsSound (verified_bind message_id request session m).1
    unfolding verified_bind named_session
    verified-IsSound none e = set-IsSound session _ (λ h. absurd_bool h)
      where
        absurd_bool : {A : Type 0} → false ≡ true → A
        absurd_bool h = cc
    verified-IsSound (some principal) e =
        set-IsSound session _ (λ h. by_password request.simple_password principal e)

    simple-IsSound : IsSound (simple_bind message_id request session (some verify)).1
    unfolding simple_bind
    simple-IsSound =
        pick (is_empty request.name && is_empty request.simple_password) _ _
          (λ _. set-IsSound session _ anonymous-IsSound) (λ _. verified-IsSound _ refl)

    kerberos-IsSound :
        (ap_req : List ℕ) → IsSound (kerberos_bind message_id request session validate ap_req).1
    unfolding kerberos_bind named_session
    kerberos-IsSound ap_req =
        pick (is_empty ap_req) _ _ (λ _. sound)
          λ _.
            pick (not (validate ap_req).is_ok) _ _ (λ _. sound)
              λ e. set-IsSound session _ (λ h. by_ticket ap_req (ground (arith, e)) refl)

    trusted-IsSound :
        is_supported_sasl_mechanism request.sasl_mechanism ≡ true
        → is_kerberos_bind message_id request session ≡ false
        → IsSound (trusted_bind message_id request session).1
    unfolding trusted_bind is_kerberos_bind is_supported_sasl_mechanism named_session
    trusted-IsSound supported other =
        set-IsSound session _ (λ h. by_external (ground (arith, h, supported, other)))

    sasl-Keeps : Keeps (sasl_bind message_id request session (some validate))
    unfolding sasl_bind
    sasl-Keeps =
        Returns-if (not (is_supported_sasl_mechanism request.sasl_mechanism)) _ _
          (λ _. returned sound)
          λ supported.
            Returns-if (is_kerberos_bind message_id request session) _ _
              (λ _.
                Returns-bind _ _ (extract-Returns request.sasl_credentials)
                  λ ap_req _. returned (kerberos-IsSound ap_req))
              λ other. returned (trusted-IsSound (ground (arith, supported)) other)

    accepted-Keeps : Keeps (accepted_bind message_id request session (some verify) (some validate))
    unfolding accepted_bind
    accepted-Keeps =
        Returns-if (not (request.version == 2) && not (request.version == 3)) _ _
          (λ _. returned sound)
          λ _.
            Returns-if (request.auth_tag == 0x80) _ _ (λ _. returned simple-IsSound)
              λ _. Returns-if (request.auth_tag == 0xa3) _ _ (λ _. sasl-Keeps) λ _. returned sound

  -- A bind keeps the reason, and does not fault.
  pub bind_response-Returns :
      (message_id : ℕ) (request : Option LdapBindRequest) (session : Option LdapSessionInfo)
      → IsSound session
      → Returns
          (λ r. IsSound r.1)
          (bind_response message_id request (some validate) session (some verify))
  unfolding bind_response
  bind_response-Returns message_id none session sound = returned sound
  bind_response-Returns message_id (some request) session sound =
      accepted-Keeps message_id request session sound

  module _ {Directory : Type 0} (message_id response_tag : ℕ) (mutation : Option LdapMutation)
      (mutation_handler : Option (LdapMutation → Directory → LdapMutationResult × Directory))
      (malformed_message : Text) (directory : Directory) where
    refused_unchanged :
        (session : Option LdapSessionInfo)
        → is_refused_session session ≡ true
        → (write_response message_id response_tag mutation mutation_handler malformed_message
            session directory).1
          ≡ directory
    unfolding write_response
    refused_unchanged session e = by_mutation mutation
      where
        by_mutation :
            (m : Option LdapMutation)
            → (write_response message_id response_tag m mutation_handler malformed_message session
                directory).1
              ≡ directory
        by_mutation none = refl
        by_mutation (some m) = ground (arith, e)

    -- A write in a session that has a reason when it is authenticated.
    pub write_response-authorized :
        (session : LdapSessionInfo)
        → IsSound (some session)
        → ((write_response message_id response_tag mutation mutation_handler malformed_message
              (some session)
              directory).1
            ≡ directory)
          ⊎ ((session.authenticated ≡ true) × Justified session)
    unfolding is_refused_session
    write_response-authorized session sound = elim (Bool-cases session.authenticated) [
      | inl e ↦ inr (e, sound e)
      | inr e ↦ inl (refused_unchanged (some session) (ground (arith, e)))
    ]
