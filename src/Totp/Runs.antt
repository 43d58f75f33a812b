-- ===== src/Totp/Runs.antt =====
-- Concrete runs of the one-time codes, and their theorem at a concrete input.
use endorium_nexus.Totp.Codes.{
  base32_letter, emit, encode_loop, base32_encode, base32_value, decode_step, decode_loop,
  base32_decode, format_code, counter_of, code_at,
}
use endorium_nexus.Prelude.{ok, byte_at, codes, pos, ℕ, ◌≡◌, refl, List, [], ◌∷◌}

encoded : base32_encode (codes "foobar") ≡ codes "MZXW6YTBOI"
unfolding base32_encode encode_loop emit base32_letter
encoded = refl

decoded : base32_decode (codes "MZXW6YTBOI") ≡ codes "foobar"
unfolding base32_decode decode_loop decode_step base32_value
decoded = refl

-- The digest that RFC 4226 gives as an example.
abbrev digest : List ℕ → List ℕ → List ℕ
digest key message =
    0x1f ∷ 0x86 ∷ 0x98 ∷ 0x69 ∷ 0x0e ∷ 0x02 ∷ 0xca ∷ 0x16 ∷ 0x61 ∷ 0x85 ∷ 0x50 ∷ 0xef ∷ 0x7f ∷ 0x19
    ∷ 0xda ∷ 0x8e ∷ 0x94 ∷ 0x5b ∷ 0x55 ∷ 0x5a ∷ []

shown : code_at digest (codes "MZXW6YTBOI") (pos 59) ≡ ok (codes "872921")
unfolding code_at counter_of format_code byte_at
shown = refl
