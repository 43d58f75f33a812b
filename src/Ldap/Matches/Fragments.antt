-- ===== src/Ldap/Matches/Fragments.antt =====
-- The loop over the inner fragments: it finds them exactly where the text is composed of them.
use endorium_nexus.Ldap.Matches.{find_from, find_fragments}
use endorium_nexus.Prelude.{
  ltb, Bool-cases, Option-cases, length, take, drop, length-append, length-take, length-drop,
  take-append-drop, drop-append, Text, starts_with, starts_with-append, find_text, to_lower, ℕ, ◌+◌,
  ◌≤◌, ◌≡◌, refl, sym, ap, ◌∙◌, inl, inr, true, false, none, some, List, [], ◌∷◌, ◌++◌, map,
  append_assoc, arith,
}

-- The fragments in lower case, each with some text in front of it.
pub data Spaced : List Text → Text → Type 0 where
  none_left : Spaced [] []
  spaced :
      (gap fragment : Text) (fragments : List Text) (more : Text)
      → Spaced fragments more
      → Spaced (fragment ∷ fragments) (gap ++ (map to_lower fragment ++ more))

pub starts_split : (s w : Text) → starts_with s w ≡ true → (back : Text) × (s ≡ w ++ back)
unfolding starts_with
starts_split s [] h = (s, refl)
starts_split [] (d ∷ w) h = cc
starts_split (c ∷ s) (d ∷ w) h =
    let (back, e) = starts_split s w (ground (arith, h)) in (back, ground (arith, h, e))

find_split :
    (s w : Text) (i : ℕ)
    → find_text s w ≡ some i
    → (front : Text) × (back : Text) × (length front ≡ i) × (s ≡ front ++ (w ++ back))
unfolding find_text
find_split [] [] i h = ([], [], ground (arith, h), refl)
find_split [] (d ∷ w) i h = cc
find_split (c ∷ s) w i h = elim (Bool-cases (starts_with (c ∷ s) w)) [
  | inl e ↦ let (back, q) = starts_split (c ∷ s) w e in ([], back, ground (arith, h, e), q)
  | inr e ↦ elim (Option-cases (find_text s w)) [
    | inl f ↦ let wrong : none ≡ some i = ground (arith, h, e, f) in cc
    | inr (j, f) ↦
        let (front, back, size, q) = find_split s w j f in
        (c ∷ front, back, ground (arith, h, e, f, size), ap (λ l. c ∷ l) q)
  ]
]

find_here : (s w : Text) → starts_with s w ≡ true → find_text s w ≡ some 0
unfolding find_text starts_with
find_here [] [] h = refl
find_here [] (d ∷ w) h = cc
find_here (c ∷ s) w h = ground (arith, h)

find_first :
    (gap w back : Text) → (i : ℕ) × (find_text (gap ++ (w ++ back)) w ≡ some i) × (i ≤ length gap)
unfolding find_text
find_first [] w back = (0, find_here (w ++ back) w (starts_with-append w back), omega arith)
find_first (c ∷ gap) w back = elim (Bool-cases (starts_with (c ∷ (gap ++ (w ++ back))) w)) [
  | inl e ↦ (0, find_here _ w e, omega arith)
  | inr e ↦
      let (i, f, low) = find_first gap w back in (i + 1, ground (arith, e, f), omega (arith, low))
]

find_from_step :
    (front rest w : Text) (i : ℕ)
    → find_text rest w ≡ some i
    → find_from (front ++ rest) w (length front) ≡ some (length front + i)
unfolding find_from
find_from_step front rest w i f =
    let inside : ltb (length (front ++ rest)) (length front) ≡ false =
      ground (arith, length-append front rest) in
    rw (inside, drop-append front rest, f)

find_from-none :
    (front rest w : Text)
    → find_text rest w ≡ none
    → find_from (front ++ rest) w (length front) ≡ none
unfolding find_from
find_from-none front rest w f =
    let inside : ltb (length (front ++ rest)) (length front) ≡ false =
      ground (arith, length-append front rest) in
    rw (inside, drop-append front rest, f)

module _ (value fragment : Text) (fragments : List Text) (offset : ℕ) where
  fragments_step :
      (found : ℕ)
      → find_from value (map to_lower fragment) offset ≡ some found
      → find_fragments value (fragment ∷ fragments) offset
        ≡ find_fragments value fragments (found + length (map to_lower fragment))
  unfolding find_fragments
  fragments_step found f = rw (f, find_fragments)

  fragments_stop :
      find_from value (map to_lower fragment) offset ≡ none
      → find_fragments value (fragment ∷ fragments) offset ≡ none
  unfolding find_fragments
  fragments_stop f = rw (f, find_fragments)

-- What is found is composed of the fragments.
pub fragments_sound :
    (fragments : List Text) (front rest : Text) (behind : ℕ)
    → find_fragments (front ++ rest) fragments (length front) ≡ some behind
    → (inner : Text) × (back : Text) × Spaced fragments inner
      × (rest ≡ inner ++ back)
      × (behind ≡ length front + length inner)
unfolding find_fragments
fragments_sound [] front rest behind h = ([], rest, none_left, refl, ground (arith, h))
fragments_sound (fragment ∷ fragments) front rest behind h =
    let w : Text = map to_lower fragment in
    elim (Option-cases (find_text rest w)) [
      | inl f ↦
          let wrong : none ≡ some behind =
            sym (fragments_stop _ fragment fragments _ (find_from-none front rest w f)) ∙ h in
          cc
      | inr (i, f) ↦
          let (gap, back, size, q) = find_split rest w i f in
          let front' : Text = front ++ (gap ++ w) in
          let whole : front ++ rest ≡ front' ++ back = ap (λ l. front ++ l) q ∙ simp append_assoc in
          let at : length front + i + length w ≡ length front' =
            omega (arith, size, length-append front (gap ++ w), length-append gap w) in
          let run =
            sym (
              fragments_step _ fragment fragments _ (length front + i)
                (find_from_step front rest w i f))
            ∙ h in
          let (inner, tail, s, split, ends) =
            fragments_sound fragments front' back behind (rw (← whole, ← at) run) in
          (
            gap ++ (w ++ inner),
            tail,
            spaced gap fragment fragments inner s,
            q ∙ ap (λ l. gap ++ (w ++ l)) split ∙ simp append_assoc,
            omega (
              arith,
              ends,
              length-append front (gap ++ w),
              length-append gap w,
              length-append gap (w ++ inner),
              length-append w inner,
            ),
          )
    ]

regroup : (a b c d : Text) → a ++ ((b ++ c) ++ d) ≡ (a ++ b) ++ (c ++ d)
regroup a b c d = simp append_assoc

-- What is composed of them is found, and no further behind.
pub fragments_complete :
    (fragments : List Text) (inner : Text) (front extra back : Text)
    → Spaced fragments inner
    → (behind : ℕ) × (find_fragments (front ++ (extra ++ (inner ++ back))) fragments (length front)
        ≡ some behind)
      × (behind ≤ length front + length extra + length inner)
unfolding find_fragments
fragments_complete _ _ front extra back none_left = (length front, refl, omega arith)
fragments_complete _ _ front extra back (spaced gap fragment fragments more s) =
    let w : Text = map to_lower fragment in
    let back' : Text = more ++ back in
    let before : Text = (extra ++ gap) ++ w in
    let (i, f, low) = find_first (extra ++ gap) w back' in
    let k : ℕ = i + length w in
    let fits : k ≤ length before = omega (arith, low, length-append (extra ++ gap) w) in
    let front' : Text = front ++ take k before in
    let extra' : Text = drop k before in
    let (behind, run, bound) = fragments_complete fragments more front' extra' back s in
    let start : front ++ (extra ++ ((gap ++ (w ++ more)) ++ back))
        ≡ front ++ ((extra ++ gap) ++ (w ++ back')) =
      simp append_assoc in
    let moved : front ++ ((extra ++ gap) ++ (w ++ back')) ≡ front' ++ (extra' ++ back') =
      ap (λ l. front ++ l)
        (sym (append_assoc (extra ++ gap) w back')
          ∙ ap (λ l. l ++ back') (sym (take-append-drop k before)))
      ∙ regroup front (take k before) (drop k before) back' in
    let at : length front + i + length w ≡ length front' =
      omega (arith, fits, length-append front (take k before), length-take k before) in
    (
      behind,
      ap (λ v. find_fragments v (fragment ∷ fragments) (length front)) start
          ∙ fragments_step _ fragment fragments _ (length front + i) (find_from_step front _ w i f)
          ∙ rw (moved, at) run,
      omega (
        arith,
        bound,
        fits,
        length-append front (take k before),
        length-take k before,
        length-drop k before,
        length-append (extra ++ gap) w,
        length-append extra gap,
        length-append gap (w ++ more),
        length-append w more,
      ),
    )
