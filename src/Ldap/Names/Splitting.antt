-- ===== src/Ldap/Names/Splitting.antt =====
-- Splitting a distinguished name: escaped commas do not split, and the parent is what stands behind
-- the first part.
use endorium_nexus.Ldap.Names.{
  split_loop, split_dn, first_part, parent_loop, parent_dn_from_dn, rdn_value_from_dn,
}
use endorium_nexus.Prelude.{
  find_char, leb, length, drop, is_empty, All, All-append, length-append, take-append, Text, ℕ, suc,
  ◌+◌, ◌<◌, ◌≡◌, refl, sym, ap, ◌∙◌, ◌≢◌, ◌⊎◌, inl, inr, Bool, true, false, some, List, [], ◌∷◌,
  ◌++◌, append_assoc, append-nil, arith,
}

-- Every comma of the text is escaped, and the text does not end in an open escape. The Boolean says
-- whether a backslash stands in front.
abbrev pub IsClosed : Bool → Text → Type 0
IsClosed true [] = ⊥
IsClosed false [] = Unit
IsClosed true (c ∷ s) = IsClosed false s
IsClosed false (c ∷ s) = ((c ≡ 92) × IsClosed true s) ⊎ ((c ≢ 92) × (c ≢ b',') × IsClosed false s)

-- A relative distinguished name.
abbrev pub IsRdn : Text → Type 0
IsRdn s = (is_empty s ≡ false) × IsClosed false s

module _ (ch : ℕ) (rest current : Text) (parts : List Text) where
  split_escape :
      ch ≡ 92
      → split_loop (ch ∷ rest) current false parts ≡ split_loop rest (current ++ ch ∷ []) true parts
  unfolding split_loop
  split_escape e = ground arith

  split_plain :
      ch ≢ 92
      → ch ≢ b','
      → split_loop (ch ∷ rest) current false parts
        ≡ split_loop rest (current ++ ch ∷ []) false parts
  unfolding split_loop
  split_plain e f = ground arith

  split_escaped :
      split_loop (ch ∷ rest) current true parts ≡ split_loop rest (current ++ ch ∷ []) false parts
  unfolding split_loop
  split_escaped = refl

split_comma :
    (rest current : Text) (parts : List Text)
    → is_empty current ≡ false
    → split_loop (b',' ∷ rest) current false parts
      ≡ split_loop rest [] false (parts ++ current ∷ [])
unfolding split_loop
split_comma rest current parts full = rw full

split_end :
    (current : Text) (parts : List Text)
    → is_empty current ≡ false
    → split_loop [] current false parts ≡ parts ++ current ∷ []
unfolding split_loop
split_end current parts full = rw full

split_loop-append :
    (escaped : Bool) (s t current : Text) (parts : List Text)
    → IsClosed escaped s
    → split_loop (s ++ t) current escaped parts ≡ split_loop t (current ++ s) false parts
split_loop-append true [] t current parts h = elim h [ ]
split_loop-append false [] t current parts h = rw (append-nil current)
split_loop-append true (c ∷ s) t current parts h =
    split_escaped c (s ++ t) current parts
    ∙ split_loop-append false s t (current ++ c ∷ []) parts h
    ∙ rw (append_assoc current (c ∷ []) s)
split_loop-append false (c ∷ s) t current parts (inl (e, h)) =
    split_escape c (s ++ t) current parts e
    ∙ split_loop-append true s t (current ++ c ∷ []) parts h
    ∙ rw (append_assoc current (c ∷ []) s)
split_loop-append false (c ∷ s) t current parts (inr (e, f, h)) =
    split_plain c (s ++ t) current parts e f
    ∙ split_loop-append false s t (current ++ c ∷ []) parts h
    ∙ rw (append_assoc current (c ∷ []) s)

-- The parts joined by commas.
abbrev pub joined : Text → List Text → Text
joined part [] = part
joined part (next ∷ parts) = part ++ b',' ∷ joined next parts

split_loop-joined :
    (part : Text) (more before : List Text)
    → All IsRdn (part ∷ more)
    → split_loop (joined part more) [] false before ≡ before ++ part ∷ more
split_loop-joined part [] before ((full, closed), _) =
    ap (λ t. split_loop t [] false before) (sym (append-nil part))
    ∙ split_loop-append false part [] [] before closed
    ∙ split_end part before full
split_loop-joined part (next ∷ more) before ((full, closed), h) =
    split_loop-append false part (b',' ∷ joined next more) [] before closed
    ∙ split_comma (joined next more) part before full
    ∙ split_loop-joined next more (before ++ part ∷ []) h
    ∙ append_assoc before (part ∷ []) (next ∷ more)

-- Splitting a distinguished name gives back the relative names that it was joined from. Each of them
-- is not empty, has a backslash before each of its commas, and ends in no open escape.
pub split_dn-joined :
    (part : Text) (parts : List Text)
    → All IsRdn (part ∷ parts)
    → split_dn (joined part parts) ≡ part ∷ parts
unfolding split_dn
split_dn-joined part parts h = split_loop-joined part parts [] h

parent_plain :
    (ch : ℕ) (rest : Text)
    → ch ≢ 92
    → ch ≢ b','
    → parent_loop (ch ∷ rest) false ≡ parent_loop rest false
unfolding parent_loop
parent_plain ch rest e f = ground arith

parent_escape :
    (ch : ℕ) (rest : Text) → ch ≡ 92 → parent_loop (ch ∷ rest) false ≡ parent_loop rest true
unfolding parent_loop
parent_escape ch rest e = ground arith

parent_escaped : (ch : ℕ) (rest : Text) → parent_loop (ch ∷ rest) true ≡ parent_loop rest false
unfolding parent_loop
parent_escaped ch rest = refl

parent_comma : (rest : Text) → parent_loop (b',' ∷ rest) false ≡ rest
unfolding parent_loop
parent_comma rest = refl

parent_loop-append :
    (escaped : Bool) (s rest : Text)
    → IsClosed escaped s
    → parent_loop (s ++ b',' ∷ rest) escaped ≡ rest
parent_loop-append true [] rest h = elim h [ ]
parent_loop-append false [] rest h = parent_comma rest
parent_loop-append true (c ∷ s) rest h = parent_escaped c _ ∙ parent_loop-append false s rest h
parent_loop-append false (c ∷ s) rest (inl (e, h)) =
    parent_escape c _ e ∙ parent_loop-append true s rest h
parent_loop-append false (c ∷ s) rest (inr (e, f, h)) =
    parent_plain c _ e f ∙ parent_loop-append false s rest h

-- The parent of a joined name is the name joined from the other parts, so its parts are all but the
-- first. The parts are not empty, have a backslash before each comma, and end in no open escape.
pub split_dn-parent_dn_from_dn :
    (part next : Text) (parts : List Text)
    → All IsRdn (part ∷ next ∷ parts)
    → (parent_dn_from_dn (joined part (next ∷ parts)) ≡ joined next parts)
      × (split_dn (parent_dn_from_dn (joined part (next ∷ parts))) ≡ next ∷ parts)
unfolding parent_dn_from_dn
split_dn-parent_dn_from_dn part next parts ((full, closed), h) =
    let parent = parent_loop-append false part (joined next parts) closed in
    (parent, rw parent (split_dn-joined next parts h))

find_char-append :
    (wanted : ℕ) (s t : Text)
    → All (λ c. c ≢ wanted) s
    → find_char wanted (s ++ wanted ∷ t) ≡ some (length s)
unfolding find_char
find_char-append wanted [] t h = ground arith
find_char-append wanted (c ∷ s) t (hc, hs) = ground (arith, find_char-append wanted s t hs)

first_part-append : (s more : Text) → All (λ c. c ≢ b',') s → first_part (s ++ b',' ∷ more) ≡ s
unfolding first_part
first_part-append s more h =
    let found = find_char-append b',' s more h in
    let kept = take-append s (b',' ∷ more) in ground (arith, found, kept)

value_step :
    (dn : Text) (equals : ℕ)
    → find_char b'=' (first_part dn) ≡ some equals
    → equals + 1 < length (first_part dn)
    → rdn_value_from_dn dn ≡ drop (equals + 1) (first_part dn)
unfolding rdn_value_from_dn
value_step dn equals found long =
    let short : leb (length (first_part dn)) (equals + 1) ≡ false = ground arith in
    ground (arith, found, short)

drop_past : (s t : Text) (c : ℕ) → drop (length s + 1) (s ++ c ∷ t) ≡ t
drop_past [] t c = refl
drop_past (d ∷ s) t c = ap (λ n. drop n (d ∷ (s ++ c ∷ t))) (eq s) ∙ drop_past s t c
  where
    eq : (s : Text) → suc (length s) + 1 ≡ suc (length s + 1)
    eq s = omega arith

no_commas :
    (attribute : Text)
    → All (λ c. (c ≢ b',') × (c ≢ b'=')) attribute
    → All (λ c. c ≢ b',') attribute × All (λ c. c ≢ b'=') attribute
no_commas [] h = (tt, tt)
no_commas (c ∷ s) ((a, b), h) = let (hs, ks) = no_commas s h in ((a, hs), (b, ks))

-- `rdn_value_from_dn` cuts at the first comma although it is escaped: the value of `cn=Doe\, John` comes
-- out as `Doe\`, while `split_dn` keeps the part whole. The attribute and the value's front hold no
-- comma, the attribute no equals sign.
pub rdn_value_from_dn_cuts :
    (attribute front more : Text)
    → All (λ c. (c ≢ b',') × (c ≢ b'=')) attribute
    → All (λ c. c ≢ b',') front
    → rdn_value_from_dn (attribute ++ b'=' ∷ (front ++ 92 ∷ b',' ∷ more)) ≡ front ++ 92 ∷ []
rdn_value_from_dn_cuts attribute front more h k =
    let (no_comma, no_equals) = no_commas attribute h in
    let tail : Text = front ++ 92 ∷ [] in
    let part : Text = attribute ++ b'=' ∷ tail in
    let whole : attribute ++ b'=' ∷ (front ++ 92 ∷ b',' ∷ more) ≡ part ++ b',' ∷ more =
      simp append_assoc in
    let closed : All (λ c. c ≢ b',') part =
      All-append _ attribute (b'=' ∷ tail) no_comma
        ((λ e. omega arith), All-append _ front (92 ∷ []) k ((λ e. omega arith), tt)) in
    let size : length attribute + 1 < length part =
      ground (arith, length-append attribute (b'=' ∷ tail), length-append front (92 ∷ [])) in
    let first : first_part (part ++ b',' ∷ more) ≡ part = first_part-append part more closed in
    ap rdn_value_from_dn whole
    ∙ value_step (part ++ b',' ∷ more) (length attribute)
        (rw first (find_char-append b'=' attribute tail no_equals)) (rw first size)
    ∙ rw first (drop_past attribute tail b'=')
