-- ===== src/Dhcp/Runs.antt =====
-- Concrete runs of the choice of a lease, and its theorem at a concrete input.
use endorium_nexus.Dns.Update.{byte_text}
use endorium_nexus.Dhcp.Leases.{
  DhcpLease, DhcpPool, is_taken, find_client, skip_blanks, skip_digits, store_octet, extract_digits,
  extract_sign, extract_octet, extract_dot, bit_or, ip_to_u32, u32_to_ip, next_free, new_lease,
  keep_or, allocate_next_lease,
}
use endorium_nexus.Prelude.{
  any, ok, Text, codes, text_eq, is_digit, decimal_value, unsigned_value, ◌≡◌, refl, List, [], ◌∷◌,
}

abbrev pool : DhcpPool
pool = record {
  name = codes "lan";
  subnet = codes "10.0.0.0/24";
  range_start = codes "10.0.0.7";
  range_end = codes "10.0.0.9";
  options = [];
  leases = [];
}

abbrev lease : Text → Text → DhcpLease
lease ip state = record {
  ip_address = ip;
  client_id = codes "aa";
  hostname = [];
  state = state;
  expires_at = [];
}

abbrev leases : List DhcpLease
leases = lease (codes "10.0.0.7") (codes "active") ∷ lease (codes "10.0.0.8") (codes "expired") ∷ []

-- The address of an expired lease is handed out again.
allocated :
    allocate_next_lease pool leases (codes "bb") (codes "pc") (codes "later")
    ≡ ok (new_lease (codes "bb") (codes "pc") (codes "later") (codes "10.0.0.8"))
unfolding allocate_next_lease keep_or find_client next_free is_taken u32_to_ip byte_text any text_eq
    ip_to_u32 extract_octet extract_dot extract_sign extract_digits store_octet skip_blanks
    skip_digits unsigned_value decimal_value is_digit bit_or
allocated = refl
