-- ===== src/Ldap/Controls.antt =====
-- The controls of a request and of the end of a search: ldap.cpp, `is_supported_control` to
-- `search_done_controls`.
use endorium_nexus.Ldap.Ber.{LdapControl, append_tlv, tlv, integer_value}
use endorium_nexus.Ldap.Objects.{equals_ascii_case}
use endorium_nexus.Prelude.{
  if◌then◌else◌, any, Text, codes, text_eq, ℕ, Bool, false, not, ◌&&◌, ◌||◌, List, [], ◌∷◌, ◌++◌,
}

unfoldable pub supported : List Text
supported =
    codes "1.2.840.113556.1.4.319"
    ∷ codes "1.2.840.113556.1.4.473"
    ∷ codes "1.2.840.113556.1.4.474"
    ∷ codes "1.2.840.113556.1.4.417"
    ∷ codes "1.2.840.113556.1.4.528"
    ∷ codes "1.2.840.113556.1.4.529"
    ∷ codes "1.2.840.113556.1.4.801"
    ∷ codes "1.2.840.113556.1.4.805"
    ∷ codes "1.2.840.113556.1.4.841"
    ∷ codes "1.2.840.113556.1.4.970"
    ∷ codes "1.2.840.113556.1.4.1338"
    ∷ codes "1.2.840.113556.1.4.1339"
    ∷ codes "1.2.840.113556.1.4.1340"
    ∷ codes "1.2.840.113556.1.4.1413"
    ∷ codes "1.2.840.113556.1.4.1504"
    ∷ codes "1.2.840.113556.1.4.1852"
    ∷ codes "1.2.840.113556.1.4.1948"
    ∷ codes "1.2.840.113556.1.4.2064"
    ∷ codes "1.2.840.113556.1.4.2065"
    ∷ codes "1.2.840.113556.1.4.2239"
    ∷ codes "2.16.840.1.113730.3.4.9"
    ∷ codes "2.16.840.1.113730.3.4.10"
    ∷ []

unfoldable pub is_supported_control : Text → Bool
is_supported_control oid = any (λ supported_oid. text_eq oid supported_oid) supported

unfoldable pub is_supported_sasl_mechanism : Text → Bool
is_supported_sasl_mechanism mechanism =
    equals_ascii_case mechanism (codes "GSS-SPNEGO")
    || equals_ascii_case mechanism (codes "GSSAPI")
    || equals_ascii_case mechanism (codes "EXTERNAL")

unfoldable pub has_unsupported_critical_control : List LdapControl → Bool
has_unsupported_critical_control controls =
    any (λ control. control.critical && not (is_supported_control control.oid)) controls

unfoldable pub has_control : List LdapControl → Text → Bool
has_control controls oid = any (λ control. text_eq control.oid oid) controls

unfoldable pub has_paged_results_control : List LdapControl → Bool
has_paged_results_control controls =
    any (λ control. text_eq control.oid (codes "1.2.840.113556.1.4.319")) controls

unfoldable pub paged_results_response_value : List ℕ
paged_results_response_value = tlv 0x30 (append_tlv (append_tlv [] 0x02 (integer_value 0)) 0x04 [])

unfoldable pub sort_response_value : List ℕ
sort_response_value = tlv 0x30 (append_tlv [] 0x0a (integer_value 0))

unfoldable pub vlv_response_value : List ℕ
vlv_response_value = tlv 0x30 (
    append_tlv
      (append_tlv (append_tlv (append_tlv [] 0x02 (integer_value 1)) 0x02 (integer_value 1)) 0x0a
        (integer_value 0))
      0x04 [])

-- `if (test) controls.push_back(control)`
unfoldable pub control_if : Bool → Text → List ℕ → List LdapControl
control_if test oid value =
    if test then record { oid = oid; critical = false; value = value } ∷ [] else []

unfoldable pub search_done_controls : List LdapControl → List LdapControl
search_done_controls request_controls =
    control_if (has_paged_results_control request_controls) (codes "1.2.840.113556.1.4.319")
      paged_results_response_value
    ++ (control_if (has_control request_controls (codes "1.2.840.113556.1.4.473"))
          (codes "1.2.840.113556.1.4.474") sort_response_value
        ++ control_if (has_control request_controls (codes "2.16.840.1.113730.3.4.9"))
            (codes "2.16.840.1.113730.3.4.10") vlv_response_value)
