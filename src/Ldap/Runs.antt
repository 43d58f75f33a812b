-- ===== src/Ldap/Runs.antt =====
-- Concrete runs of the LDAP library, and its theorems at concrete inputs.
mod Directory
mod Server
use endorium_nexus.Ldap.Ber.{read_message_controls}
use endorium_nexus.Ldap.Ber.{string_from_node}
use endorium_nexus.Ldap.Ber.{
  append_length, append_tlv, integer_value, with_sign_byte, significant_bytes, LdapNode, tlv,
  ldap_message, read_length, read_message_header,
}
use endorium_nexus.Ldap.Ber.RoundTrip.{read_length-size_bytes, read_length_wraps}
use endorium_nexus.Ldap.Ber.Header.{body, read_message_header-ldap_message}
use endorium_nexus.Ldap.Ber.Safety.{read_message_header-Ensures}
use endorium_nexus.Ldap.Names.{split_dn, parent_dn_from_dn, rdn_value_from_dn}
use endorium_nexus.Ldap.Names.Splitting.{
  IsRdn, split_dn-joined, split_dn-parent_dn_from_dn, rdn_value_from_dn_cuts,
}
use endorium_nexus.Prelude.{
  ltb, leb, ◌==◌, if◌then◌else◌, ltb→lt, lt→ltb, le→ltb, leb→le, ==_iff, tests, Bool-cases,
  Option-cases, length, get_elem?, set, take, drop, is_empty, any, keep, All, All-append,
  length-append, length-set, length-take, length-drop, take-append-drop, take-append, drop-append,
  drop-append_le, get_elem?-lt, get_elem?-append, set-append, Outcome, ok, reject, fault, ◌>>=◌,
  ◌>>◌, reject_if, attempt, byte_at, Outcome-cases, Ensures, Ends, returns, rejects, Ensures-bind,
  Ensures-ok, Ensures-ne-fault, Ensures-map, Ensures-attempt, Ensures-guard, Ensures-if, Returns,
  returned, Returns-bind, Returns-attempt, Returns-option, Returns-if, Returns-ok, Returns-Ensures,
  Returns-value, slice-Returns, byte_at-append, byte_at-behind, slice, slice-append, slice-Ensures,
  byte_at-lt, byte_at-Ensures, Text, codes, text_eq, text_eq_refl, text_eq→eq, text_eq_iff, ℤ, pos,
  negsuc, digits_of, to_string, digit_in, digits_run, wrapped, unsigned_run, prefixed_run, run_of,
  signed_run, stoul, is_space, trim_start, trim_end, behind_last, before_last, is_digit,
  decimal_value, unsigned_value, negated, signed_value, stoi, find_char, starts_with,
  starts_with-append, find_text, contains, contains-append, ends_with, to_lower, to_lower_idem,
  map-to_lower_idem, ℕ, zero, suc, ◌+◌, ◌-◌, ◌*◌, ◌/◌, ◌%◌, ◌^◌, ◌≤◌, ◌<◌, min, max, ◌≡◌, refl, sym,
  ap, ◌∙◌, ◌≢◌, ◌↔◌, ◌⊎◌, inl, inr, Bool, true, false, not, ◌&&◌, ◌||◌, Option, none, some, List,
  [], ◌∷◌, ◌++◌, map, append_assoc, append-nil, arith,
}

abbrev bind_payload : List ℕ
bind_payload = 0x0a ∷ 1 ∷ 0 ∷ 4 ∷ 0 ∷ 4 ∷ 0 ∷ []

-- A bind response of message 300.
written : ldap_message 300 0x61 bind_payload ≡ 0x30 ∷ 13 ∷ 2 ∷ 2 ∷ 1 ∷ 44 ∷ 0x61 ∷ 7 ∷ bind_payload
unfolding ldap_message append_tlv tlv append_length integer_value with_sign_byte significant_bytes
written = refl

payload_fits : length (body 300 0x61 bind_payload) < 2 ^ 16
unfolding append_length append_tlv tlv integer_value with_sign_byte significant_bytes
payload_fits = omega arith

read_message_header-ldap_message_example :
    (node : LdapNode) × (read_message_header (ldap_message 300 0x61 bind_payload ++ 0x30 ∷ 0 ∷ [])
      ≡ ok (300, 0x61, node))
    × (string_from_node (ldap_message 300 0x61 bind_payload ++ 0x30 ∷ 0 ∷ []) node
        ≡ ok bind_payload)
read_message_header-ldap_message_example =
    read_message_header-ldap_message 300 0x61 bind_payload (0x30 ∷ 0 ∷ []) (omega arith)
      payload_fits

read_message_header-Ensures_example :
    Ensures
      (λ (r : ℕ × ℕ × LdapNode).
        (r.2.next_offset ≤ 6) × (r.2.content_offset + r.2.content_length ≤ 6))
      (read_message_header (0x30 ∷ 0x84 ∷ 0xff ∷ 0xff ∷ 0xff ∷ 0xff ∷ []))
read_message_header-Ensures_example =
    read_message_header-Ensures (0x30 ∷ 0x84 ∷ 0xff ∷ 0xff ∷ 0xff ∷ 0xff ∷ [])

read_length-size_bytes_example : read_length (0x04 ∷ 0x82 ∷ 0x12 ∷ 0x34 ∷ 7 ∷ []) 1 ≡ ok (0x1234, 4)
unfolding append_length
read_length-size_bytes_example = read_length-size_bytes (0x04 ∷ []) (7 ∷ []) 0x1234 (omega arith)

read_length_wraps_example : read_length (0x04 ∷ 0x82 ∷ 0 ∷ 5 ∷ 7 ∷ []) 1 ≡ ok (5, 4)
unfolding append_length
read_length_wraps_example = read_length_wraps (0x04 ∷ []) (7 ∷ []) 0x10005 (omega arith)

abbrev escaped_part : Text
escaped_part = codes "cn=Doe\\, J"

escaped_part-IsRdn : IsRdn escaped_part
escaped_part-IsRdn = (
  refl,
  inr (
    omega arith,
    omega arith,
    inr (
      omega arith,
      omega arith,
      inr (
        omega arith,
        omega arith,
        inr (
          omega arith,
          omega arith,
          inr (
            omega arith,
            omega arith,
            inr (
              omega arith,
              omega arith,
              inl (refl, inr (omega arith, omega arith, inr (omega arith, omega arith, tt))),
            ),
          ),
        ),
      ),
    ),
  ),
)

users-IsRdn : IsRdn (codes "ou=x")
users-IsRdn = (
  refl,
  inr (
    omega arith,
    omega arith,
    inr (
      omega arith,
      omega arith,
      inr (omega arith, omega arith, inr (omega arith, omega arith, tt)),
    ),
  ),
)

split_dn-joined_example : split_dn (codes "cn=Doe\\, J,ou=x") ≡ escaped_part ∷ codes "ou=x" ∷ []
split_dn-joined_example =
    split_dn-joined escaped_part (codes "ou=x" ∷ []) (escaped_part-IsRdn, (users-IsRdn, tt))

split_dn-parent_dn_from_dn_example :
    (parent_dn_from_dn (codes "cn=Doe\\, J,ou=x") ≡ codes "ou=x")
    × (split_dn (parent_dn_from_dn (codes "cn=Doe\\, J,ou=x")) ≡ codes "ou=x" ∷ [])
split_dn-parent_dn_from_dn_example =
    split_dn-parent_dn_from_dn escaped_part (codes "ou=x") []
      (escaped_part-IsRdn, (users-IsRdn, tt))

rdn_value_from_dn_cuts_example : rdn_value_from_dn (codes "cn=Doe\\, J,ou=x") ≡ codes "Doe\\"
rdn_value_from_dn_cuts_example =
    rdn_value_from_dn_cuts (codes "cn") (codes "Doe") (codes " J,ou=x")
      ((omega arith, omega arith), ((omega arith, omega arith), tt))
      (omega arith, (omega arith, (omega arith, tt)))
