-- ===== src/Dns/Addresses.antt =====
-- IPv4 addresses: from the bytes of an update to the stored text and back to the bytes of an answer.
use endorium_nexus.Dns.Types.{DnsRecord, dns_type_a}
use endorium_nexus.Dns.Wire.{split_dots}
use endorium_nexus.Dns.Wire.RoundTrip.{split_dots-append, split_dots-dot, split_dots-nil}
use endorium_nexus.Dns.Update.{byte_text, ipv4_text, parse_update_rdata}
use endorium_nexus.Dns.Answer.{
  digits_value, unsigned_part, octet, ipv4_parts, ipv4_bytes, append_record_data,
}
use endorium_nexus.Prelude.{
  ltb, ◌==◌, length, is_empty, any, All, length-append, ok, byte_at-append, byte_at-behind, Text,
  codes, text_eq, text_eq_iff, ℕ, zero, suc, ◌+◌, ◌<◌, ◌≡◌, refl, sym, ap, ◌∙◌, ◌≢◌, Bool, true,
  false, not, ◌&&◌, none, some, List, [], ◌∷◌, ◌++◌, append-nil, arith,
}

-- Every byte is printed without a dot and read back as itself.
good_byte : ℕ → Bool
unfolding octet unsigned_part digits_value byte_text
good_byte n =
    elim (octet (byte_text n)) [ none ↦ false | some m ↦ m == n ]
    && not (any (λ c. c == b'.') (byte_text n))

all_good : ℕ → Bool
all_good zero = true
all_good (suc n) = good_byte n && all_good n

all_good_below : (n x : ℕ) → all_good n ≡ true → x < n → good_byte x ≡ true
unfolding all_good
all_good_below zero x h lt = elim lt [ ]
all_good_below (suc n) x h lt = ground (arith, all_good_below n x)

good_bytes : all_good 256 ≡ true
unfolding all_good good_byte any
good_bytes = refl

octet-byte_text : (n : ℕ) → n < 256 → octet (byte_text n) ≡ some n
unfolding good_byte
octet-byte_text n h = ground (arith, all_good_below 256 n good_bytes h)

no_dots : (s : Text) → any (λ c. c == b'.') s ≡ false → All (λ c. c ≢ b'.') s
unfolding any
no_dots [] h = tt
no_dots (c ∷ s) h = (ground arith, no_dots s (ground arith))

byte_text_plain : (n : ℕ) → n < 256 → All (λ c. c ≢ b'.') (byte_text n)
unfolding good_byte
byte_text_plain n h = no_dots (byte_text n) (ground (arith, all_good_below 256 n good_bytes h))

split_dots-part :
    (n : ℕ) (rest : Text)
    → n < 256
    → split_dots (byte_text n ++ b'.' ∷ rest) ≡ byte_text n ∷ split_dots rest
split_dots-part n rest h =
    split_dots-append (byte_text n) (b'.' ∷ rest) (byte_text_plain n h)
    ∙ rw (split_dots-dot, append-nil (byte_text n))

split_dots-last : (n : ℕ) → n < 256 → split_dots (byte_text n) ≡ byte_text n ∷ []
split_dots-last n h =
    ap split_dots (sym (append-nil (byte_text n)))
    ∙ split_dots-append (byte_text n) [] (byte_text_plain n h)
    ∙ rw (split_dots-nil, append-nil (byte_text n))

-- The dotted decimal form of four bytes, with what is to follow it.
abbrev pub address : ℕ → ℕ → ℕ → ℕ → Text → Text
address a b c d more =
    byte_text a ++ b'.' ∷ (byte_text b ++ b'.' ∷ (byte_text c ++ b'.' ∷ (byte_text d ++ more)))

ipv4_parts_four :
    (s t u v : Text) (rest : List Text) {a b c d : ℕ}
    → octet s ≡ some a
    → octet t ≡ some b
    → octet u ≡ some c
    → octet v ≡ some d
    → ipv4_parts (s ∷ t ∷ u ∷ v ∷ rest) ≡ some (a ∷ b ∷ c ∷ d ∷ [])
unfolding ipv4_parts
ipv4_parts_four s t u v rest e f g h = ground arith

-- The data of an A record whose value is that address.
append_record_data-address :
    (r : DnsRecord) (parts : List ℕ)
    → r.type ≡ codes "A"
    → ipv4_bytes r.value ≡ some parts
    → append_record_data [] r ≡ parts
unfolding append_record_data
append_record_data-address r parts a e =
    let named : text_eq r.type (codes "A") ≡ true = (text_eq_iff r.type (codes "A")).1 a in
    rw (named, e)

is_empty-append_cons : (s t : Text) (c : ℕ) → is_empty (s ++ c ∷ t) ≡ false
is_empty-append_cons [] t c = refl
is_empty-append_cons (d ∷ s) t c = refl

module _ (a b c d : ℕ) (ha : a < 256) (hb : b < 256) (hc : c < 256) (hd : d < 256) where
  parts :
      (rest : List Text)
      → ipv4_parts (byte_text a ∷ byte_text b ∷ byte_text c ∷ byte_text d ∷ rest)
        ≡ some (a ∷ b ∷ c ∷ d ∷ [])
  parts rest =
      ipv4_parts_four (byte_text a) (byte_text b) (byte_text c) (byte_text d) rest
        (octet-byte_text a ha) (octet-byte_text b hb) (octet-byte_text c hc) (octet-byte_text d hd)

  ipv4_bytes-address : ipv4_bytes (address a b c d []) ≡ some (a ∷ b ∷ c ∷ d ∷ [])
  unfolding ipv4_bytes
  ipv4_bytes-address =
      rw
        (
          append-nil (byte_text d),
          split_dots-part a _ ha,
          split_dots-part b _ hb,
          split_dots-part c _ hc,
          split_dots-last d hd,
        )
        (parts [])

  -- Whatever stands behind a dot after the fourth part of an address is not read: the text is taken
  -- for the address in front of it.
  pub ipv4_bytes_ignores_more :
      (more : Text) → ipv4_bytes (address a b c d (b'.' ∷ more)) ≡ some (a ∷ b ∷ c ∷ d ∷ [])
  unfolding ipv4_bytes
  ipv4_bytes_ignores_more more =
      rw
        (
          split_dots-part a _ ha,
          split_dots-part b _ hb,
          split_dots-part c _ hc,
          split_dots-part d more hd,
        )
        (parts (split_dots more))

  ipv4_text-bytes :
      (front back : List ℕ)
      → ipv4_text (front ++ a ∷ b ∷ c ∷ d ∷ back) (length front) ≡ ok (address a b c d [])
  unfolding ipv4_text
  ipv4_text-bytes front back =
      let room : ltb (length (front ++ a ∷ b ∷ c ∷ d ∷ back)) (length front + 4) ≡ false =
        ground (arith, length-append front (a ∷ b ∷ c ∷ d ∷ back)) in
      rw (
        room,
        byte_at-append front (b ∷ c ∷ d ∷ back) a,
        byte_at-behind front (a ∷ []) (c ∷ d ∷ back) b 1 refl,
        byte_at-behind front (a ∷ b ∷ []) (d ∷ back) c 2 refl,
        byte_at-behind front (a ∷ b ∷ c ∷ []) back d 3 refl,
        append-nil (byte_text d),
      )

  -- An A record that a dynamic update carries is served with the same four bytes: the parser takes
  -- the data at its offset, turns it into text, and an answer turns the text into those bytes again.
  pub address_survives :
      (front back : List ℕ) (r : DnsRecord)
      → r.type ≡ codes "A"
      → (parsed : DnsRecord) × (parse_update_rdata
            (front ++ a ∷ b ∷ c ∷ d ∷ back)
            (length front)
            4
            dns_type_a
            r
          ≡ ok (parsed, true))
        × (append_record_data [] parsed ≡ a ∷ b ∷ c ∷ d ∷ [])
  unfolding parse_update_rdata
  address_survives front back r is_a =
      let room : ltb (length (front ++ a ∷ b ∷ c ∷ d ∷ back)) (length front + 4) ≡ false =
        ground (arith, length-append front (a ∷ b ∷ c ∷ d ∷ back)) in
      let more : Text = byte_text b ++ b'.' ∷ (byte_text c ++ b'.' ∷ (byte_text d ++ [])) in
      (
        record r { value = address a b c d [] },
        rw (room, ipv4_text-bytes front back, is_empty-append_cons (byte_text a) more b'.'),
        append_record_data-address (record r { value = address a b c d [] }) (a ∷ b ∷ c ∷ d ∷ [])
            is_a ipv4_bytes-address,
      )
