-- ===== src/Maps.antt =====
-- `std::map` with texts as keys, in the order of the keys.
use endorium_nexus.Prelude.{
  ltb, ◌==◌, if◌then◌else◌, Bool-cases, keep, Text, text_eq, text_eq_refl, text_eq→eq, ◌≡◌, refl,
  sym, ap, ◌∙◌, ◌⊎◌, inl, inr, Bool, true, false, not, ◌&&◌, ◌||◌, Option, none, some, List, [],
  ◌∷◌,
}

unfoldable pub text_lt : Text → Text → Bool
text_lt s [] = false
text_lt [] (d ∷ t) = true
text_lt (c ∷ s) (d ∷ t) = ltb c d || (c == d && text_lt s t)

pub same_keys : (j k : Text) → text_eq j k ≡ true → (i : Text) → text_eq i j ≡ text_eq i k
same_keys j k h i = rw (text_eq→eq j k h)

module _ {ℓ} {A : Type ℓ} where
  unfoldable pub lookup : Text → List (Text × A) → Option A
  lookup key [] = none
  lookup key ((k, a) ∷ m) = let later = lookup key m in if text_eq key k then some a else later

  -- m[key] = a
  unfoldable pub assign : Text → A → List (Text × A) → List (Text × A)
  assign key a [] = (key, a) ∷ []
  assign key a ((k, b) ∷ m) =
      let later = assign key a m in
      if text_eq key k
      then (key, a) ∷ m
      else if text_lt key k
      then (key, a) ∷ (k, b) ∷ m
      else (k, b) ∷ later

  unfoldable pub erase : Text → List (Text × A) → List (Text × A)
  erase key m = keep (λ entry. not (text_eq key entry.0)) m

  assign_same :
      (key k : Text) (a b : A) (m : List (Text × A))
      → text_eq key k ≡ true
      → assign key a ((k, b) ∷ m) ≡ (key, a) ∷ m
  unfolding assign
  assign_same key k a b m h = rw h

  assign_other :
      (key k : Text) (a b : A) (m : List (Text × A))
      → text_eq key k ≡ false
      → (assign key a ((k, b) ∷ m) ≡ (key, a) ∷ (k, b) ∷ m)
        ⊎ (assign key a ((k, b) ∷ m) ≡ (k, b) ∷ assign key a m)
  unfolding assign
  assign_other key k a b m h = elim (Bool-cases (text_lt key k)) [
    | inl e ↦ inl (rw (h, e))
    | inr e ↦ inr (rw (h, e))
  ]

  pub lookup_same :
      (key k : Text) (a : A) (m : List (Text × A))
      → text_eq key k ≡ true
      → lookup key ((k, a) ∷ m) ≡ some a
  unfolding lookup
  lookup_same key k a m h = rw h

  pub lookup_other :
      (key k : Text) (a : A) (m : List (Text × A))
      → text_eq key k ≡ false
      → lookup key ((k, a) ∷ m) ≡ lookup key m
  unfolding lookup
  lookup_other key k a m h = rw h

  lookup_cong :
      (key k : Text) (a : A) (m n : List (Text × A))
      → lookup key m ≡ lookup key n
      → lookup key ((k, a) ∷ m) ≡ lookup key ((k, a) ∷ n)
  unfolding lookup
  lookup_cong key k a m n h = ap (λ r. if text_eq key k then some a else r) h

  pub lookup-assign :
      (key : Text) (a : A) (m : List (Text × A)) → lookup key (assign key a m) ≡ some a
  unfolding assign
  lookup-assign key a [] = lookup_same key key a [] (text_eq_refl key)
  lookup-assign key a ((k, b) ∷ m) = elim (Bool-cases (text_eq key k)) [
    | inl e ↦
        ap (lookup key) (assign_same key k a b m e) ∙ lookup_same key key a m (text_eq_refl key)
    | inr e ↦ elim (assign_other key k a b m e) [
      | inl f ↦ ap (lookup key) f ∙ lookup_same key key a ((k, b) ∷ m) (text_eq_refl key)
      | inr f ↦ ap (lookup key) f ∙ lookup_other key k b _ e ∙ lookup-assign key a m
    ]
  ]

  pub lookup-assign-other :
      (key other : Text) (a : A) (m : List (Text × A))
      → text_eq other key ≡ false
      → lookup other (assign key a m) ≡ lookup other m
  unfolding assign
  lookup-assign-other key other a [] h = lookup_other other key a [] h
  lookup-assign-other key other a ((k, b) ∷ m) h = elim (Bool-cases (text_eq key k)) [
    | inl e ↦
        ap (lookup other) (assign_same key k a b m e)
        ∙ lookup_other other key a m h
        ∙ sym (lookup_other other k b m (sym (same_keys key k e other) ∙ h))
    | inr e ↦ elim (assign_other key k a b m e) [
      | inl f ↦ ap (lookup other) f ∙ lookup_other other key a ((k, b) ∷ m) h
      | inr f ↦
          ap (lookup other) f ∙ lookup_cong other k b _ m (lookup-assign-other key other a m h)
    ]
  ]

  erase_same :
      (key k : Text) (b : A) (m : List (Text × A))
      → text_eq key k ≡ true
      → erase key ((k, b) ∷ m) ≡ erase key m
  unfolding erase keep
  erase_same key k b m h = rw h

  erase_other :
      (key k : Text) (b : A) (m : List (Text × A))
      → text_eq key k ≡ false
      → erase key ((k, b) ∷ m) ≡ (k, b) ∷ erase key m
  unfolding erase keep
  erase_other key k b m h = rw h

  pub lookup-erase : (key : Text) (m : List (Text × A)) → lookup key (erase key m) ≡ none
  unfolding erase keep lookup
  lookup-erase key [] = refl
  lookup-erase key ((k, b) ∷ m) = elim (Bool-cases (text_eq key k)) [
    | inl e ↦ ap (lookup key) (erase_same key k b m e) ∙ lookup-erase key m
    | inr e ↦
        ap (lookup key) (erase_other key k b m e)
        ∙ lookup_other key k b (erase key m) e
        ∙ lookup-erase key m
  ]

  pub lookup-erase-other :
      (key other : Text) (m : List (Text × A))
      → text_eq other key ≡ false
      → lookup other (erase key m) ≡ lookup other m
  unfolding erase keep
  lookup-erase-other key other [] h = refl
  lookup-erase-other key other ((k, b) ∷ m) h = elim (Bool-cases (text_eq key k)) [
    | inl e ↦
        ap (lookup other) (erase_same key k b m e)
        ∙ lookup-erase-other key other m h
        ∙ sym (lookup_other other k b m (sym (same_keys key k e other) ∙ h))
    | inr e ↦
        ap (lookup other) (erase_other key k b m e)
        ∙ lookup_cong other k b (erase key m) m (lookup-erase-other key other m h)
  ]
