-- ===== src/Dhcp/Leases.antt =====
-- The choice of a lease: libs/protocol/src/dhcp.cpp, `allocate_next_lease`.
use endorium_nexus.Dns.Update.{byte_text}
use endorium_nexus.Prelude.{
  ltb, leb, ◌==◌, if◌then◌else◌, any, Outcome, ok, reject, fault, ◌>>=◌, Text, codes, text_eq,
  is_digit, unsigned_value, ℕ, zero, suc, ◌+◌, ◌-◌, ◌*◌, ◌/◌, ◌%◌, ◌^◌, Bool, true, false, not,
  ◌&&◌, ◌||◌, Option, none, some, List, [], ◌∷◌, ◌++◌,
}

pub record DhcpLease : Type 0 where
  pub ip_address : Text
  pub client_id : Text
  pub hostname : Text
  pub state : Text
  pub expires_at : Text

-- `options` in the order of the keys.
pub record DhcpPool : Type 0 where
  pub name : Text
  pub subnet : Text
  pub range_start : Text
  pub range_end : Text
  pub options : List (Text × Text)
  pub leases : List DhcpLease

-- std::any_of over the leases.
unfoldable pub is_taken : List DhcpLease → Text → Bool
is_taken leases ip =
    any
      (λ (lease : DhcpLease).
        text_eq lease.ip_address ip && not (text_eq lease.state (codes "expired")))
      leases

unfoldable pub find_client : List DhcpLease → Text → Option DhcpLease
find_client [] client_id = none
find_client (lease ∷ leases) client_id =
    let later = find_client leases client_id in
    if text_eq lease.client_id client_id then some lease else later

-- operator>> skips blanks first.
unfoldable pub skip_blanks : Text → Text
skip_blanks [] = []
skip_blanks (c ∷ s) =
    let rest = skip_blanks s in if c == b' ' || (leb 9 c && leb c 13) then rest else c ∷ s

unfoldable pub skip_digits : Text → Text
skip_digits [] = []
skip_digits (c ∷ s) = let rest = skip_digits s in if is_digit c then rest else c ∷ s

-- A number of 32 bits, negated if a minus sign stood in front; a larger one is the largest, and the
-- stream fails. What is left of a stream that has failed is `none`.
unfoldable pub store_octet : Bool → ℕ → Text → ℕ × Option Text
store_octet negative value rest =
    if leb (2 ^ 32) value
    then (2 ^ 32 - 1, none)
    else ((if negative then (2 ^ 32 - value) % 2 ^ 32 else value), some rest)

unfoldable pub extract_digits : Bool → Text → ℕ × Option Text
extract_digits negative s = elim (unsigned_value s) [
  | none ↦ (0, none)
  | some value ↦ store_octet negative value (skip_digits s)
]

unfoldable pub extract_sign : Text → ℕ × Option Text
extract_sign [] = (0, none)
extract_sign (c ∷ s) =
    if c == b'-'
    then extract_digits true s
    else if c == b'+'
    then extract_digits false s
    else extract_digits false (c ∷ s)

unfoldable pub extract_octet : Option Text → ℕ × Option Text
extract_octet none = (0, none)
extract_octet (some s) = extract_sign (skip_blanks s)

-- Any character is taken for the dot.
unfoldable pub extract_dot : Option Text → Option Text
extract_dot none = none
extract_dot (some s) = elim (skip_blanks s) [ [] ↦ none | c ∷ rest ↦ some rest ]

-- The bits of octets above 255 are or-ed into those of the octets in front.
unfoldable pub bit_or : ℕ → ℕ → ℕ → ℕ
bit_or zero a b = 0
bit_or (suc bits) a b =
    2 * bit_or bits (a / 2) (b / 2) + (if (a % 2 == 0) && (b % 2 == 0) then 0 else 1)

unfoldable pub ip_to_u32 : Text → ℕ
ip_to_u32 ip =
    let (first, after_first) = extract_octet (some ip) in
    let (second, after_second) = extract_octet (extract_dot after_first) in
    let (third, after_third) = extract_octet (extract_dot after_second) in
    let (fourth, after_fourth) = extract_octet (extract_dot after_third) in
    bit_or 32 (first * 2 ^ 24 % 2 ^ 32)
      (bit_or 32 (second * 2 ^ 16 % 2 ^ 32) (bit_or 32 (third * 2 ^ 8 % 2 ^ 32) fourth))

unfoldable pub u32_to_ip : ℕ → Text
u32_to_ip value =
    byte_text (value / 2 ^ 24 % 256)
    ++ codes "."
    ++ byte_text (value / 2 ^ 16 % 256)
    ++ codes "."
    ++ byte_text (value / 2 ^ 8 % 256)
    ++ codes "."
    ++ byte_text (value % 256)

-- The loop over the candidates, a 32-bit number that wraps around; out of rounds is `fault`.
unfoldable pub next_free : ℕ → ℕ → ℕ → List DhcpLease → Outcome Text
next_free zero candidate end leases = fault
next_free (suc rounds) candidate end leases =
    let later = next_free rounds ((candidate + 1) % 2 ^ 32) end leases in
    if ltb end candidate
    then reject
    else if is_taken leases (u32_to_ip candidate)
    then later
    else ok (u32_to_ip candidate)

unfoldable pub new_lease : Text → Text → Text → Text → DhcpLease
new_lease client_id hostname expires_at ip = record {
  ip_address = ip;
  client_id = client_id;
  hostname = hostname;
  state = codes "active";
  expires_at = expires_at;
}

-- A client that has a lease keeps it.
unfoldable pub keep_or : Option DhcpLease → Outcome DhcpLease → Outcome DhcpLease
keep_or (some lease) search = ok lease
keep_or none search = search

-- The time that a new lease ends is given as `expires_at`.
unfoldable pub allocate_next_lease :
    DhcpPool → List DhcpLease → Text → Text → Text → Outcome DhcpLease
allocate_next_lease pool existing_leases client_id hostname expires_at =
    let start = ip_to_u32 pool.range_start in
    let end = ip_to_u32 pool.range_end in
    keep_or (find_client existing_leases client_id) (
      next_free (suc (end + 1 - start)) start end existing_leases >>= λ ip.
      ok (new_lease client_id hostname expires_at ip))
