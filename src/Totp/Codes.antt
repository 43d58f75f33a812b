-- ===== src/Totp/Codes.antt =====
-- Base32 secrets and time-based codes: libs/security/src/totp.cpp. The `int` buffer of the base32
-- loops is kept modulo 2 ^ 32.
use endorium_nexus.Prelude.{
  ltb, leb, ◌==◌, if◌then◌else◌, length, Outcome, ok, ◌>>=◌, byte_at, Text, codes, text_eq, ℤ, pos,
  negsuc, ℕ, zero, suc, ◌+◌, ◌-◌, ◌*◌, ◌/◌, ◌%◌, ◌^◌, Bool, true, false, ◌&&◌, Option, none, some,
  List, [], ◌∷◌, ◌++◌,
}

-- kAlphabet[value]
unfoldable pub base32_letter : ℕ → ℕ
base32_letter value = if ltb value 26 then b'A' + value else b'2' + (value - 26)

-- The inner loop: a letter for each five bits; the bits that are left.
unfoldable pub emit : ℕ → ℕ → ℕ → Text × ℕ
emit zero buffer bits_left = ([], bits_left)
emit (suc rounds) buffer bits_left =
    let more = emit rounds buffer (bits_left - 5) in
    if leb 5 bits_left
    then (base32_letter (buffer / 2 ^ (bits_left - 5) % 32) ∷ more.0, more.1)
    else ([], bits_left)

-- The loop over the bytes, with at most twelve bits in hand, and the letter for the rest.
unfoldable pub encode_loop : List ℕ → ℕ → ℕ → Text
encode_loop [] buffer bits_left =
    if ltb 0 bits_left then base32_letter (buffer * 2 ^ (5 - bits_left) % 32) ∷ [] else []
encode_loop (byte ∷ rest) buffer bits_left =
    let buffer = (buffer * 256 + byte) % 2 ^ 32 in
    let (letters, left) = emit 3 buffer (bits_left + 8) in letters ++ encode_loop rest buffer left

unfoldable pub base32_encode : List ℕ → Text
base32_encode bytes = encode_loop bytes 0 0

unfoldable pub base32_value : ℕ → Option ℕ
base32_value ch =
    if leb b'A' ch && leb ch b'Z'
    then some (ch - b'A')
    else if leb b'2' ch && leb ch b'7'
    then some (26 + (ch - b'2'))
    else none

-- One character: the buffer, the bits in hand, and a byte if there are eight of them.
unfoldable pub decode_step : ℕ → ℕ → ℕ → ℕ × ℕ × List ℕ
decode_step value buffer bits_left =
    let shifted = (buffer * 32 + value) % 2 ^ 32 in
    if leb 3 bits_left
    then (shifted, bits_left - 3, shifted / 2 ^ (bits_left - 3) % 256 ∷ [])
    else (shifted, bits_left + 5, [])

unfoldable pub decode_loop : Text → ℕ → ℕ → List ℕ
decode_loop [] buffer bits_left = []
decode_loop (ch ∷ input) buffer bits_left =
    let skipped = decode_loop input buffer bits_left in
    elim (base32_value ch) [
      | none ↦ if ch == b'=' then [] else skipped
      | some value ↦
          let (next, left, bytes) = decode_step value buffer bits_left in
          bytes ++ decode_loop input next left
    ]

unfoldable pub base32_decode : Text → List ℕ
base32_decode input = decode_loop input 0 0

abbrev digit : ℕ → ℕ → ℕ
digit code place = b'0' + code / place % 10

-- Six digits; `code` is below a million.
unfoldable pub format_code : ℕ → Text
format_code code =
    digit code 100000
    ∷ digit code 10000
    ∷ digit code 1000
    ∷ digit code 100
    ∷ digit code 10
    ∷ digit code 1
    ∷ []

-- The counter in eight bytes, the highest first.
unfoldable pub counter_bytes : ℕ → ℕ → List ℕ
counter_bytes zero counter = []
counter_bytes (suc index) counter = counter / 2 ^ (index * 8) % 256 ∷ counter_bytes index counter

unfoldable pub provisioning_uri : Text → Text → Text → Text
provisioning_uri issuer account_name secret =
    codes "otpauth://totp/"
    ++ issuer
    ++ codes ":"
    ++ account_name
    ++ codes "?secret="
    ++ secret
    ++ codes "&issuer="
    ++ issuer

-- One number less another.
unfoldable pub difference : ℕ → ℕ → ℤ
difference m n = if leb n m then pos (m - n) else negsuc (n - m - 1)

-- The count of the steps of 30 seconds, rounded towards 0, as 64 bits without a sign.
unfoldable pub counter_of : ℤ → ℕ
counter_of (pos seconds) = seconds / 30 % 2 ^ 64
counter_of (negsuc seconds) = (2 ^ 64 - (seconds + 1) / 30 % 2 ^ 64) % 2 ^ 64

-- `hmac_sha1` is OpenSSL's, of a key and a message; a time is in whole seconds from 1970 on, or
-- before it.
module _ (hmac_sha1 : List ℕ → List ℕ → List ℕ) where
  unfoldable pub code_at : Text → ℤ → Outcome Text
  code_at secret time =
      let digest = hmac_sha1 (base32_decode secret) (counter_bytes 8 (counter_of time)) in
      do
        last ← byte_at digest (length digest - 1)
        let offset = last % 16
        first ← byte_at digest offset
        second ← byte_at digest (offset + 1)
        third ← byte_at digest (offset + 2)
        fourth ← byte_at digest (offset + 3)
        let binary_code = first % 128 * 2 ^ 24 + second * 2 ^ 16 + third * 2 ^ 8 + fourth
        ok (format_code (binary_code % 1000000))

  -- The loop over the window: `steps` are left, and `seconds` less `back` is the time of the next.
  unfoldable pub try_codes : Text → Text → ℕ → ℕ → ℕ → Outcome Bool
  try_codes secret code back zero seconds = ok false
  try_codes secret code back (suc steps) seconds =
      code_at secret (difference seconds back) >>= λ candidate.
      let later = try_codes secret code back steps (seconds + 30) in
      if text_eq candidate code then ok true else later

  -- A window below 0 has no steps.
  unfoldable pub verify : Text → Text → ℕ → ℤ → Outcome Bool
  verify secret code seconds (pos window) =
      try_codes secret code (window * 30) (2 * window + 1) seconds
  verify secret code seconds (negsuc window) = ok false
