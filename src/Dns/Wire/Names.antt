-- ===== src/Dns/Wire/Names.antt =====
-- Writing a name appends to the message, and what it appends does not depend on the message.
use endorium_nexus.Dns.Wire.{
  trim_trailing_dot, split_dots, write_labels, write_dns_name, write_u16, write_u32,
}
use endorium_nexus.Prelude.{
  ltb, Bool-cases, length, is_empty, Text, codes, text_eq, ℕ, ◌≡◌, refl, sym, ap, ◌∙◌, inl, inr,
  ◌||◌, List, [], ◌∷◌, ◌++◌, append_assoc,
}

pub write_labels-append :
    (bytes : List ℕ) (labels : List Text)
    → write_labels bytes labels ≡ bytes ++ write_labels [] labels
unfolding write_labels
write_labels-append bytes [] = refl
write_labels-append bytes (label ∷ labels) =
    let more : List ℕ = length label ∷ label in
    elim (Bool-cases (ltb 63 (length label))) [
      | inl long ↦ rw long
      | inr short ↦ rw short (
          write_labels-append (bytes ++ more) labels
          ∙ append_assoc bytes more (write_labels [] labels)
          ∙ ap (λ t. bytes ++ t) (sym (write_labels-append more labels)))
    ]

pub write_dns_name-append :
    (bytes : List ℕ) (name : Text) → write_dns_name bytes name ≡ bytes ++ write_dns_name [] name
unfolding write_dns_name
write_dns_name-append bytes name =
    elim (Bool-cases
      (is_empty (trim_trailing_dot name) || text_eq (trim_trailing_dot name) (codes "@"))) [
        | inl root ↦ rw root
        | inr other ↦ rw other (write_labels-append bytes (split_dots (trim_trailing_dot name)))
      ]

pub write_u16-append : (bytes : List ℕ) (n : ℕ) → write_u16 bytes n ≡ bytes ++ write_u16 [] n
unfolding write_u16
write_u16-append bytes n = refl

pub write_u32-append : (bytes : List ℕ) (n : ℕ) → write_u32 bytes n ≡ bytes ++ write_u32 [] n
unfolding write_u32
write_u32-append bytes n = refl
