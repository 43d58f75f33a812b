-- ===== src/Ldap/Locator.antt =====
-- The answer to a locator's ping: ldap.cpp, `dns_compressed_name` to `netlogon_entry`.
use endorium_nexus.Ldap.Ber.{append_octet_string, append_tlv, partial_attribute}
use endorium_nexus.Ldap.Values.{append_u16_le, append_u32_le, hash_bytes}
use endorium_nexus.Ldap.Domain.{LdapDirectoryInfo, netbios_domain_name, to_upper, dc_fqdn}
use Prim.Native.Nat.{bit_xor}
use endorium_nexus.Prelude.{
  ltb, ◌==◌, if◌then◌else◌, length, is_empty, Text, codes, ℤ, pos, negsuc, stoi, ℕ, zero, suc, ◌+◌,
  ◌*◌, ◌/◌, ◌%◌, ◌^◌, not, ◌||◌, Option, none, some, List, [], ◌∷◌, ◌++◌, map,
}

-- The loop over the labels, with the label so far: an empty or a long one ends it.
unfoldable pub compress_labels : Text → Text → List ℕ
compress_labels label [] =
    if is_empty label || ltb 63 (length label) then [] else length label ∷ label
compress_labels label (ch ∷ rest) =
    let next = compress_labels [] rest in
    let more = compress_labels (label ++ ch ∷ []) rest in
    if not (ch == b'.')
    then more
    else if is_empty label || ltb 63 (length label)
    then []
    else (length label ∷ label) ++ next

unfoldable pub dns_compressed_name : Text → List ℕ
dns_compressed_name value = compress_labels [] value ++ 0 ∷ []

-- The loop over the sixteen bytes, the first at `index`.
unfoldable pub stable_rounds : ℕ → ℕ → ℕ → List ℕ
stable_rounds zero index hash = []
stable_rounds (suc rounds) index hash =
    hash / 2 ^ (index % 8 * 8) % 256
    ∷ stable_rounds rounds (index + 1)
        (bit_xor hash ((index + 1) * 0x9e3779b97f4a7c15 % 2 ^ 64) * 1099511628211 % 2 ^ 64)

unfoldable pub stable_guid_bytes : LdapDirectoryInfo → List ℕ
stable_guid_bytes directory =
    stable_rounds 16 0
      (hash_bytes (directory.dns_name ++ (codes "|" ++ directory.base_dn)) 1469598103934665603)

-- `std::getline` up to a dot, again and again, with the part so far: nothing behind a last dot is no part.
unfoldable pub dotted_parts : Text → Text → List Text
dotted_parts part [] = if is_empty part then [] else part ∷ []
dotted_parts part (ch ∷ rest) =
    let next = dotted_parts [] rest in
    let more = dotted_parts (part ++ ch ∷ []) rest in if ch == b'.' then part ∷ next else more

unfoldable pub address_octet : Option ℤ → Option ℕ
address_octet none = none
address_octet (some (pos value)) = if ltb 255 value then none else some value
address_octet (some (negsuc value)) = none

unfoldable pub with_octet : ℕ → Option (List ℕ) → Option (List ℕ)
with_octet octet none = none
with_octet octet (some rest) = some (octet ∷ rest)

unfoldable pub address_octets : List Text → Option (List ℕ)
address_octets [] = some []
address_octets (part ∷ parts) = elim (address_octet (stoi part)) [
  | none ↦ none
  | some octet ↦ with_octet octet (address_octets parts)
]

-- ipv4_bytes: the loopback address stands for anything that is not four numbers of a byte.
unfoldable pub address_bytes : Text → List ℕ
address_bytes value =
    let parts = dotted_parts [] value in
    let loopback = 127 ∷ 0 ∷ 0 ∷ 1 ∷ [] in
    if not (length parts == 4)
    then loopback
    else elim (address_octets parts) [ none ↦ loopback | some bytes ↦ bytes ]

unfoldable pub compressed_names : List Text → List ℕ
compressed_names [] = []
compressed_names (value ∷ values) = dns_compressed_name value ++ compressed_names values

-- The sum of the flags: primary, global catalogue, LDAP, directory, key distribution, time, closest
-- site, writable, good time, full secrets, web service, DNS controller, domain and forest.
unfoldable pub locator_flags : ℕ
locator_flags =
    0x1 + 0x4 + 0x8 + 0x10 + 0x20 + 0x40 + 0x80 + 0x100 + 0x200 + 0x1000 + 0x2000 + 0x20000000
    + 0x40000000 + 0x80000000

unfoldable pub netlogon_sam_logon_response_ex : LdapDirectoryInfo → List ℕ
netlogon_sam_logon_response_ex directory =
    let start = append_u32_le (append_u16_le (append_u16_le [] 23) 0) locator_flags in
    let names = compressed_names (
      directory.dns_name
      ∷ directory.dns_name
      ∷ dc_fqdn directory
      ∷ netbios_domain_name directory
      ∷ map to_upper directory.domain_controller_host
      ∷ []
      ∷ directory.site_name
      ∷ directory.site_name
      ∷ []) in
    let socket =
      append_u16_le (append_u16_le (start ++ (stable_guid_bytes directory ++ (names ++ 16 ∷ []))) 2)
        0 in
    let address =
      socket
      ++ (address_bytes directory.domain_controller_address
          ++ (0 ∷ 0 ∷ 0 ∷ 0 ∷ 0 ∷ 0 ∷ 0 ∷ 0 ∷ [])) in
    append_u16_le (append_u16_le (append_u32_le address (0x1 + 0x4 + 0x8)) 0xffff) 0xffff

unfoldable pub netlogon_entry : LdapDirectoryInfo → List ℕ
netlogon_entry directory =
    append_tlv (append_octet_string [] []) 0x30
      (partial_attribute (codes "NetLogon") (netlogon_sam_logon_response_ex directory ∷ []))
