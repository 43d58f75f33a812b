-- ===== src/Ldap/Members/Seen.antt =====
-- The names that a walk has seen: comparison up to letter case, and how many objects are unseen.
use endorium_nexus.Ldap.Objects.{
  LdapObject, equals_ascii_case, find_object_by_dn, contains_visited_dn,
}
use endorium_nexus.Prelude.{
  if◌then◌else◌, Bool-cases, length, any, Text, text_eq, text_eq_refl, text_eq→eq, to_lower, ℕ, ◌+◌,
  ◌≤◌, ◌<◌, ◌≡◌, refl, ap, ◌∙◌, inl, inr, true, false, ◌||◌, some, List, [], ◌∷◌, ◌++◌, map, arith,
}

equals_refl : (a : Text) → equals_ascii_case a a ≡ true
unfolding equals_ascii_case
equals_refl a = text_eq_refl (map to_lower a)

lower_same : (a b : Text) → equals_ascii_case a b ≡ true → map to_lower a ≡ map to_lower b
unfolding equals_ascii_case
lower_same a b h = text_eq→eq _ _ h

equals_right :
    (a b c : Text) → equals_ascii_case b c ≡ true → equals_ascii_case a b ≡ equals_ascii_case a c
unfolding equals_ascii_case
equals_right a b c h = ap (text_eq (map to_lower a)) (lower_same b c h)

pub find_same :
    (objects : List LdapObject) (a b : Text)
    → equals_ascii_case a b ≡ true
    → find_object_by_dn objects a ≡ find_object_by_dn objects b
unfolding find_object_by_dn
find_same [] a b h = refl
find_same (o ∷ os) a b h = rw (equals_right o.dn a b h, find_same os a b h)

pub find-equals :
    (objects : List LdapObject) (dn : Text) (g : LdapObject)
    → find_object_by_dn objects dn ≡ some g
    → equals_ascii_case g.dn dn ≡ true
unfolding find_object_by_dn
find-equals [] dn g h = cc
find-equals (o ∷ os) dn g h = elim (Bool-cases (equals_ascii_case o.dn dn)) [
  | inl e ↦ let same : o ≡ g = ground (arith, h, e) in rw (← same) e
  | inr e ↦ find-equals os dn g (ground (arith, h, e))
]

-- What is found under a name is what is found under its own name.
pub find_own :
    (objects : List LdapObject) (dn : Text) (g : LdapObject)
    → find_object_by_dn objects dn ≡ some g
    → find_object_by_dn objects g.dn ≡ some g
find_own objects dn g h = find_same objects g.dn dn (find-equals objects dn g h) ∙ h

pub seen_step :
    (seen : List Text) (d x : Text)
    → contains_visited_dn (seen ++ d ∷ []) x ≡ contains_visited_dn seen x || equals_ascii_case d x
unfolding contains_visited_dn any
seen_step [] d x = ground arith
seen_step (s ∷ seen) d x = ground (arith, seen_step seen d x)

abbrev pub Grows : List Text → List Text → Type 0
Grows seen later =
    (x : Text) → contains_visited_dn seen x ≡ true → contains_visited_dn later x ≡ true

pub Grows-push : (seen : List Text) (d : Text) → Grows seen (seen ++ d ∷ [])
Grows-push seen d x h = seen_step seen d x ∙ rw h

pub seen_pushed : (seen : List Text) (d : Text) → contains_visited_dn (seen ++ d ∷ []) d ≡ true
seen_pushed seen d = ground (arith, seen_step seen d d, equals_refl d)

-- How many objects have not been seen.
pub unseen : List Text → List LdapObject → ℕ
unseen seen [] = 0
unseen seen (o ∷ os) = (if contains_visited_dn seen o.dn then 0 else 1) + unseen seen os

pub unseen-le-length : (seen : List Text) (os : List LdapObject) → unseen seen os ≤ length os
unfolding unseen
unseen-le-length seen [] = omega arith
unseen-le-length seen (o ∷ os) = ground (arith, unseen-le-length seen os)

pub unseen_falls :
    (seen later : List Text) (os : List LdapObject)
    → Grows seen later
    → unseen later os ≤ unseen seen os
unfolding unseen
unseen_falls seen later [] h = omega arith
unseen_falls seen later (o ∷ os) h = ground (arith, unseen_falls seen later os h, h o.dn)

-- Entering an object that was found and not seen leaves fewer unseen.
pub unseen-push :
    (seen : List Text) (os : List LdapObject) (dn : Text) (g : LdapObject)
    → find_object_by_dn os dn ≡ some g
    → contains_visited_dn seen g.dn ≡ false
    → unseen (seen ++ g.dn ∷ []) os < unseen seen os
unfolding unseen find_object_by_dn
unseen-push seen [] dn g h k = cc
unseen-push seen (o ∷ os) dn g h k = elim (Bool-cases (equals_ascii_case o.dn dn)) [
  | inl e ↦
      let same : o ≡ g = ground (arith, h, e) in
      rw same (
        rw (k, seen_pushed seen g.dn)
          (omega (arith, unseen_falls seen (seen ++ g.dn ∷ []) os (Grows-push seen g.dn))))
  | inr e ↦
      ground (arith, unseen-push seen os dn g (ground (arith, h, e)) k, Grows-push seen g.dn o.dn)
]
