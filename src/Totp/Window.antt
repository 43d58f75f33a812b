-- ===== src/Totp/Window.antt =====
-- Which codes are accepted.
use endorium_nexus.Totp.Codes.{difference, code_at}
use endorium_nexus.Prelude.{length, Outcome, ok, reject, fault, Text, ℕ, ◌+◌, ◌*◌, ◌<◌, ◌≡◌, List}

abbrev text_of : Text → Outcome Text → Text
text_of t (ok s) = s
text_of t reject = t
text_of t fault = t

module _ (hmac_sha1 : List ℕ → List ℕ → List ℕ)
    (digest_size : (key message : List ℕ) → length (hmac_sha1 key message) ≡ 20)
    (secret code : Text) where
  module _ (back : ℕ) where
    -- The code at so many seconds less `back`.
    abbrev at : ℕ → Outcome Text
    at seconds = code_at hmac_sha1 secret (difference seconds back)

    -- One of the steps has this code.
    abbrev pub Shows : ℕ → ℕ → Type 0
    Shows steps seconds = (k : ℕ) × (k < steps) × (at (seconds + k * 30) ≡ ok code)
