-- ===== src/Ldap/Matches/Substring.antt =====
-- A substring assertion matches exactly the values that are its fragments in order, with anything
-- between them: taking each fragment at its first place loses nothing.
use endorium_nexus.Ldap.Matches.{
  find_fragments, initial_offset, ends_behind, has_text, final_matches,
  substring_pattern_matches_value,
}
use endorium_nexus.Ldap.Matches.Fragments.{
  Spaced, starts_split, fragments_sound, fragments_complete,
}
use endorium_nexus.Prelude.{
  leb, Bool-cases, Option-cases, length, take, drop, is_empty, length-append, length-take,
  take-append-drop, drop-append, drop-append_le, Text, text_eq, text_eq_refl, text_eq→eq,
  starts_with, starts_with-append, ends_with, to_lower, ℕ, ◌-◌, ◌≤◌, ◌≡◌, refl, sym, ap, ◌∙◌, ◌↔◌,
  inl, inr, Bool, true, false, not, ◌||◌, Option, none, some, List, [], ◌++◌, map, append_assoc,
  append-nil, arith,
}

abbrev pub lower_or_empty : Option Text → Text
lower_or_empty none = []
lower_or_empty (some text) = map to_lower text

-- The value is the initial fragment, the inner ones with gaps, a gap, and the final one.
pub record IsComposed (value : Text) (initial : Option Text) (fragments : List Text)
    (final : Option Text) : Type 0 where
  pub inner : Text
  pub gap : Text
  pub is_spaced : Spaced fragments inner
  pub parts : value ≡ lower_or_empty initial ++ (inner ++ (gap ++ lower_or_empty final))

offset_split :
    (value : Text) (initial : Option Text) (offset : ℕ)
    → initial_offset value initial ≡ some offset
    → (back : Text) × (value ≡ lower_or_empty initial ++ back)
      × (offset ≡ length (lower_or_empty initial))
unfolding initial_offset
offset_split value none offset h = (value, refl, ground (arith, h))
offset_split value (some initial) offset h =
    elim (Bool-cases (starts_with value (map to_lower initial))) [
      | inl e ↦
          let (back, q) = starts_split value (map to_lower initial) e in
          (back, q, ground (arith, h, e))
      | inr e ↦ let wrong : none ≡ some offset = ground (arith, h, e) in cc
    ]

offset_found :
    (initial : Option Text) (back : Text)
    → initial_offset (lower_or_empty initial ++ back) initial
      ≡ some (length (lower_or_empty initial))
unfolding initial_offset
offset_found none back = refl
offset_found (some initial) back = rw (starts_with-append (map to_lower initial) back)

ends_split :
    (value final : Text) (offset : ℕ)
    → ends_behind value final offset ≡ true
    → (front : Text) × (value ≡ front ++ map to_lower final) × (offset ≤ length front)
unfolding ends_behind ends_with
ends_split value final offset h =
    let w : Text = map to_lower final in
    let k : ℕ = length value - length w in
    let same : text_eq (drop k value) w ≡ true = ground (arith, h) in
    let small : length w ≤ length value = ground (arith, h) in
    let low : offset ≤ k = ground (arith, h) in
    (
      take k value,
      sym (take-append-drop k value) ∙ ap (λ l. take k value ++ l) (text_eq→eq _ w same),
      omega (arith, length-take k value, low),
    )

ends_found :
    (front final : Text) (offset : ℕ)
    → offset ≤ length front
    → ends_behind (front ++ map to_lower final) final offset ≡ true
unfolding ends_behind ends_with
ends_found front final offset h =
    let w : Text = map to_lower final in
    let size : length (front ++ w) - length w ≡ length front =
      omega (arith, length-append front w) in
    let fits : leb (length w) (length (front ++ w)) ≡ true =
      ground (arith, length-append front w) in
    let low : leb offset (length front) ≡ true = ground arith in
    rw (size, fits, drop-append front w, text_eq_refl w, low)

-- The assertion has at least one part.
abbrev pub is_asserted : Option Text → List Text → Option Text → Bool
is_asserted initial fragments final = has_text initial || not (is_empty fragments) || has_text final

module _ (candidate : Text) (initial : Option Text) (fragments : List Text)
    (final : Option Text) where
  initial_fails :
      initial_offset (map to_lower candidate) initial ≡ none
      → substring_pattern_matches_value candidate initial fragments final ≡ false
  unfolding substring_pattern_matches_value
  initial_fails e = rw (e, substring_pattern_matches_value)

  fragments_fail :
      (offset : ℕ)
      → initial_offset (map to_lower candidate) initial ≡ some offset
      → find_fragments (map to_lower candidate) fragments offset ≡ none
      → substring_pattern_matches_value candidate initial fragments final ≡ false
  unfolding substring_pattern_matches_value
  fragments_fail offset e f = rw (e, f, substring_pattern_matches_value)

  final_decides :
      (offset behind : ℕ)
      → initial_offset (map to_lower candidate) initial ≡ some offset
      → find_fragments (map to_lower candidate) fragments offset ≡ some behind
      → substring_pattern_matches_value candidate initial fragments final
        ≡ final_matches (map to_lower candidate) initial fragments final behind
  unfolding substring_pattern_matches_value
  final_decides offset behind e f = rw (e, f, substring_pattern_matches_value)

-- What is behind the fragments is a gap and the final fragment.
final_split :
    (start back : Text) (initial : Option Text) (fragments : List Text) (final : Option Text)
    → final_matches (start ++ back) initial fragments final (length start) ≡ true
    → (is_asserted initial fragments final ≡ true)
      × (gap : Text) × (back ≡ gap ++ lower_or_empty final)
unfolding final_matches has_text
final_split start back initial fragments none h = (ground (arith, h), back, sym (append-nil back))
final_split start back initial fragments (some final) h =
    let (front, q, low) = ends_split (start ++ back) final (length start) h in
    (
      ground arith,
      drop (length start) front,
      sym (drop-append start back)
          ∙ ap (λ v. drop (length start) v) q
          ∙ drop-append_le (length start) front (map to_lower final) low,
    )

final_found :
    (front : Text) (initial : Option Text) (fragments : List Text) (final : Option Text)
    (behind : ℕ)
    → is_asserted initial fragments final ≡ true
    → behind ≤ length front
    → final_matches (front ++ lower_or_empty final) initial fragments final behind ≡ true
unfolding final_matches has_text
final_found front initial fragments none behind h low = ground (arith, h)
final_found front initial fragments (some final) behind h low = ends_found front final behind low

module _ (candidate : Text) (initial : Option Text) (fragments : List Text)
    (final : Option Text) where
  value-IsComposed :
      substring_pattern_matches_value candidate initial fragments final ≡ true
      → (is_asserted initial fragments final ≡ true)
        × IsComposed (map to_lower candidate) initial fragments final
  value-IsComposed h =
      let value : Text = map to_lower candidate in
      let first : Text = lower_or_empty initial in
      elim (Option-cases (initial_offset value initial)) [
        | inl e ↦
            let wrong : false ≡ true =
              sym (initial_fails candidate initial fragments final e) ∙ h in
            cc
        | inr (offset, e) ↦
            let (rest, q, at) = offset_split value initial offset e in
            elim (Option-cases (find_fragments value fragments offset)) [
              | inl f ↦
                  let wrong : false ≡ true =
                    sym (fragments_fail candidate initial fragments final offset e f) ∙ h in
                  cc
              | inr (behind, f) ↦
                  let (inner, back, s, split, ends) =
                    fragments_sound fragments first rest behind (rw (← q, ← at) f) in
                  let whole : value ≡ (first ++ inner) ++ back =
                    q ∙ ap (λ l. first ++ l) split ∙ sym (append_assoc first inner back) in
                  let size : behind ≡ length (first ++ inner) =
                    omega (arith, ends, length-append first inner) in
                  let last : final_matches value initial fragments final behind ≡ true =
                    sym (final_decides candidate initial fragments final offset behind e f) ∙ h in
                  let (asserted, gap, tail) =
                    final_split (first ++ inner) back initial fragments final
                      (rw (← whole, ← size) last) in
                  (
                    asserted,
                    record {
                      inner = inner;
                      gap = gap;
                      is_spaced = s;
                      parts = q ∙ ap (λ l. first ++ l) (split ∙ ap (λ l. inner ++ l) tail);
                    },
                  )
            ]
      ]

  composed_matches :
      is_asserted initial fragments final ≡ true
      → IsComposed (map to_lower candidate) initial fragments final
      → substring_pattern_matches_value candidate initial fragments final ≡ true
  composed_matches asserted c =
      let value : Text = map to_lower candidate in
      let first : Text = lower_or_empty initial in
      let back : Text = c.gap ++ lower_or_empty final in
      let (behind, run, bound) = fragments_complete fragments c.inner first [] back c.is_spaced in
      let front : Text = first ++ (c.inner ++ c.gap) in
      let whole : value ≡ front ++ lower_or_empty final = c.parts ∙ simp append_assoc in
      final_decides candidate initial fragments final (length first) behind
        (rw c.parts (offset_found initial (c.inner ++ back))) (rw c.parts run)
      ∙ rw whole (
          final_found front initial fragments final behind asserted (
            omega
              (arith, bound, length-append first (c.inner ++ c.gap), length-append c.inner c.gap)))

-- A substring assertion holds of a value exactly when it has a part and the value, letter case
-- aside, is the initial fragment, the inner fragments in their order with any text in front of each,
-- any text, and the final fragment: looking for each fragment at its first place misses no match.
pub substring_pattern_matches_value_lem :
    (candidate : Text) (initial : Option Text) (fragments : List Text) (final : Option Text)
    → (substring_pattern_matches_value candidate initial fragments final ≡ true) ↔ (
        (is_asserted initial fragments final ≡ true)
        × IsComposed (map to_lower candidate) initial fragments final)
substring_pattern_matches_value_lem candidate initial fragments final = (
  value-IsComposed candidate initial fragments final,
  λ (asserted, composed). composed_matches candidate initial fragments final asserted composed,
)
