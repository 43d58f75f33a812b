-- ===== src/Dhcp/Choice.antt =====
-- A pool hands out its first free address.
use endorium_nexus.Dhcp.Leases.{DhcpLease, is_taken, u32_to_ip}
use endorium_nexus.Prelude.{Outcome, ok, reject, Text, ℕ, ◌≤◌, ◌<◌, ◌≡◌, ◌⊎◌, true, false, List}

-- The text is the address of a number in the range, it is free, and those before it are taken.
pub record IsFirstFree (start end : ℕ) (leases : List DhcpLease) (ip : Text) : Type 0 where
  pub number : ℕ
  pub in_range : (start ≤ number) × (number ≤ end)
  pub is_text : ip ≡ u32_to_ip number
  pub is_free : is_taken leases ip ≡ false
  pub others_taken : (n : ℕ) → start ≤ n → n < number → is_taken leases (u32_to_ip n) ≡ true

-- Every address of the range is taken.
abbrev pub AllTaken : ℕ → ℕ → List DhcpLease → Type 0
AllTaken start end leases = (n : ℕ) → start ≤ n → n ≤ end → is_taken leases (u32_to_ip n) ≡ true

-- A search has found the first free address, or there is none.
abbrev Searched : ℕ → ℕ → List DhcpLease → Outcome Text → Type 0
Searched start end leases search =
    ((ip : Text) × (search ≡ ok ip) × IsFirstFree start end leases ip)
    ⊎ ((search ≡ reject) × AllTaken start end leases)
