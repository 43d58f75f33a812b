-- ===== src/Dns/Wire/RoundTrip.antt =====
-- Names on the wire: what `write_dns_name` writes, `read_dns_name` reads back.
use endorium_nexus.Dns.Wire.{trim_trailing_dot, cons_head, split_dots, write_labels, write_dns_name}
use endorium_nexus.Dns.Wire.Names.{write_labels-append}
use endorium_nexus.Prelude.{
  ◌==◌, le→ltb, Bool-cases, length, is_empty, All, Text, codes, text_eq, ℕ, ◌≤◌, ◌≡◌, refl, ap, ◌∙◌,
  ◌≢◌, inl, inr, false, List, [], ◌∷◌, ◌++◌, append-nil, arith,
}

-- A label that DNS allows, and that holds no dot.
abbrev pub IsLabel : Text → Type 0
IsLabel label = (is_empty label ≡ false) × (length label ≤ 63) × All (λ c. c ≢ b'.') label

abbrev pub dotted : List Text → Text
dotted [] = []
dotted (label ∷ labels) = b'.' ∷ (label ++ dotted labels)

-- The name that the labels spell.
abbrev pub name_of : List Text → Text
name_of [] = []
name_of (label ∷ labels) = label ++ dotted labels

-- RFC 1035: each label behind its length, and the empty label at the end.
abbrev pub wire : List Text → List ℕ
wire [] = 0 ∷ []
wire (label ∷ labels) = length label ∷ (label ++ wire labels)

abbrev pub glue : Text → List Text → List Text
glue s [] = s ∷ []
glue s (label ∷ labels) = (s ++ label) ∷ labels

dot-false : (c : ℕ) → c ≢ b'.' → (c == b'.') ≡ false
dot-false c h = ground arith

split_dots-nonempty : (t : Text) → split_dots t ≡ glue [] (split_dots t)
unfolding split_dots
split_dots-nonempty [] = refl
split_dots-nonempty (c ∷ t) = elim (Bool-cases (c == b'.')) [
  | inl dot ↦ rw dot
  | inr other ↦ rw other (head (split_dots t))
]
  where
    head : (ls : List Text) → cons_head c ls ≡ glue [] (cons_head c ls)
    head [] = refl
    head (l ∷ ls) = refl

cons_head-glue : (c : ℕ) (s : Text) (ls : List Text) → cons_head c (glue s ls) ≡ glue (c ∷ s) ls
cons_head-glue c s [] = refl
cons_head-glue c s (l ∷ ls) = refl

split_dots-cons : (c : ℕ) (s : Text) → c ≢ b'.' → split_dots (c ∷ s) ≡ cons_head c (split_dots s)
unfolding split_dots
split_dots-cons c s h = rw (dot-false c h)

pub split_dots-dot : (s : Text) → split_dots (b'.' ∷ s) ≡ [] ∷ split_dots s
unfolding split_dots
split_dots-dot s = refl

pub split_dots-nil : split_dots [] ≡ [] ∷ []
unfolding split_dots
split_dots-nil = refl

trim_trailing_dot-cons :
    (c : ℕ) (s : Text) → c ≢ b'.' → trim_trailing_dot (c ∷ s) ≡ c ∷ trim_trailing_dot s
unfolding trim_trailing_dot
trim_trailing_dot-cons c s h = rw (dot-false c h)

trim_trailing_dot-dot :
    (s : Text)
    → is_empty (trim_trailing_dot s) ≡ false
    → trim_trailing_dot (b'.' ∷ s) ≡ b'.' ∷ trim_trailing_dot s
unfolding trim_trailing_dot
trim_trailing_dot-dot s h = rw h

trim_trailing_dot-nil : trim_trailing_dot [] ≡ []
unfolding trim_trailing_dot
trim_trailing_dot-nil = refl

write_labels-cons :
    (bytes : List ℕ) (label : Text) (labels : List Text)
    → length label ≤ 63
    → write_labels bytes (label ∷ labels) ≡ write_labels (bytes ++ length label ∷ label) labels
unfolding write_labels
write_labels-cons bytes label labels h = rw (le→ltb 63 (length label) h)

pub split_dots-append :
    (s t : Text) → All (λ c. c ≢ b'.') s → split_dots (s ++ t) ≡ glue s (split_dots t)
split_dots-append [] t h = split_dots-nonempty t
split_dots-append (c ∷ s) t (hc, hs) =
    split_dots-cons c (s ++ t) hc
    ∙ rw (split_dots-append s t hs) (cons_head-glue c s (split_dots t))

split_dots-name_of :
    (label : Text) (labels : List Text)
    → All IsLabel (label ∷ labels)
    → split_dots (name_of (label ∷ labels)) ≡ label ∷ labels
split_dots-name_of label [] ((_, _, plain), _) =
    split_dots-append label [] plain ∙ rw (split_dots-nil, append-nil label)
split_dots-name_of label (next ∷ labels) ((_, _, plain), h) =
    split_dots-append label (dotted (next ∷ labels)) plain
    ∙ rw (split_dots-dot, split_dots-name_of next labels h, append-nil label)

trim_trailing_dot-append :
    (s t : Text) → All (λ c. c ≢ b'.') s → trim_trailing_dot (s ++ t) ≡ s ++ trim_trailing_dot t
trim_trailing_dot-append [] t h = refl
trim_trailing_dot-append (c ∷ s) t (hc, hs) =
    trim_trailing_dot-cons c (s ++ t) hc ∙ ap (λ l. c ∷ l) (trim_trailing_dot-append s t hs)

is_empty-append : (s t : Text) → is_empty s ≡ false → is_empty (s ++ t) ≡ false
is_empty-append [] t h = cc
is_empty-append (c ∷ s) t h = refl

trim_trailing_dot-dotted :
    (labels : List Text) → All IsLabel labels → trim_trailing_dot (dotted labels) ≡ dotted labels
trim_trailing_dot-dotted [] h = trim_trailing_dot-nil
trim_trailing_dot-dotted (label ∷ labels) ((full, _, plain), h) =
    let inner : trim_trailing_dot (label ++ dotted labels) ≡ label ++ dotted labels =
      trim_trailing_dot-append label (dotted labels) plain
      ∙ ap (λ t. label ++ t) (trim_trailing_dot-dotted labels h) in
    trim_trailing_dot-dot (label ++ dotted labels)
      (rw inner (is_empty-append label (dotted labels) full))
    ∙ ap (λ t. b'.' ∷ t) inner

pub trim_trailing_dot-name_of :
    (label : Text) (labels : List Text)
    → All IsLabel (label ∷ labels)
    → trim_trailing_dot (name_of (label ∷ labels)) ≡ name_of (label ∷ labels)
trim_trailing_dot-name_of label labels ((full, _, plain), h) =
    trim_trailing_dot-append label (dotted labels) plain
    ∙ ap (λ t. label ++ t) (trim_trailing_dot-dotted labels h)

write_labels-wire : (labels : List Text) → All IsLabel labels → write_labels [] labels ≡ wire labels
write_labels-wire [] h = unfold write_labels in refl
write_labels-wire (label ∷ labels) ((_, short, _), h) =
    write_labels-cons [] label labels short
    ∙ rw (write_labels-append (length label ∷ label) labels, write_labels-wire labels h)

-- Writing the name that the labels spell writes the labels. The name `@` stands for the root.
pub write_dns_name-wire :
    (label : Text) (labels : List Text)
    → All IsLabel (label ∷ labels)
    → text_eq (name_of (label ∷ labels)) (codes "@") ≡ false
    → write_dns_name [] (name_of (label ∷ labels)) ≡ wire (label ∷ labels)
write_dns_name-wire label labels h not_at =
    unfold write_dns_name in
    rw
      (
        trim_trailing_dot-name_of label labels h,
        is_empty-append label (dotted labels) h.0.0,
        not_at,
        split_dots-name_of label labels h,
      )
      (write_labels-wire (label ∷ labels) h)
