-- ===== src/Prelude/Texts.antt =====
-- `std::string` as a list of bytes, and the operations of the standard library that the program
-- calls on it.
use Prim.Native.Nat.{ℕ, ◌+◌, ◌-◌}
use Prim.Native.Char.{code}
use Prim.Native.String.{String}
use mathlib.Core.Path.{◌≡◌, refl}
use mathlib.Core.Logic.{◌↔◌}
use mathlib.Core.Bool.{Bool, true, false, ◌&&◌, ◌||◌}
use mathlib.Core.List.{List, [], ◌∷◌, ◌++◌, map}
use mathlib.Core.Option.{Option, none, some}
use native.Mathlib.Omega.{arith}
use endorium_nexus.Prelude.Tests.{◌==◌, leb, if◌then◌else◌}
use endorium_nexus.Prelude.Lists.{length, drop, is_empty}

abbrev pub Text : Type 0
Text = List ℕ

-- The bytes of an ASCII literal.
abbrev pub codes : String → Text
codes String.[] = []
codes (String.◌∷◌ c s) = code c ∷ codes s

-- operator==
unfoldable pub text_eq : Text → Text → Bool
text_eq [] [] = true
text_eq (c ∷ s) (d ∷ t) = c == d && text_eq s t
text_eq _ _ = false

pub text_eq_refl : (s : Text) → text_eq s s ≡ true
unfolding text_eq
text_eq_refl [] = refl
text_eq_refl (c ∷ s) = ground (arith, text_eq_refl s)

pub text_eq→eq : (s t : Text) → text_eq s t ≡ true → s ≡ t
unfolding text_eq
text_eq→eq [] [] h = refl
text_eq→eq [] (d ∷ t) h = cc
text_eq→eq (c ∷ s) [] h = cc
text_eq→eq (c ∷ s) (d ∷ t) h = ground (arith, text_eq→eq s t)

pub text_eq_iff : (s t : Text) → (text_eq s t ≡ true) ↔ (s ≡ t)
text_eq_iff s t = (text_eq→eq s t, λ e. rw e (text_eq_refl t))

-- ends_with
unfoldable pub ends_with : Text → Text → Bool
ends_with s suffix =
    leb (length suffix) (length s) && text_eq (drop (length s - length suffix) s) suffix

-- find of one character
unfoldable pub find_char : ℕ → Text → Option ℕ
find_char wanted [] = none
find_char wanted (ch ∷ rest) =
    let later = find_char wanted rest in
    if ch == wanted
    then some 0
    else elim later [ none ↦ none | some position ↦ some (position + 1) ]

unfoldable pub starts_with : Text → Text → Bool
starts_with s [] = true
starts_with [] (d ∷ t) = false
starts_with (c ∷ s) (d ∷ t) = c == d && starts_with s t

-- find of a text
unfoldable pub find_text : Text → Text → Option ℕ
find_text [] wanted = if is_empty wanted then some 0 else none
find_text (c ∷ s) wanted =
    let later = find_text s wanted in
    if starts_with (c ∷ s) wanted
    then some 0
    else elim later [ none ↦ none | some i ↦ some (i + 1) ]

-- find is not npos.
unfoldable pub contains : Text → Text → Bool
contains s wanted = elim (find_text s wanted) [ none ↦ false | some i ↦ true ]

pub starts_with-append : (wanted back : Text) → starts_with (wanted ++ back) wanted ≡ true
unfolding starts_with
starts_with-append [] back = refl
starts_with-append (c ∷ s) back = ground (arith, starts_with-append s back)

contains_here : (s wanted : Text) → starts_with s wanted ≡ true → contains s wanted ≡ true
unfolding contains find_text starts_with
contains_here [] [] h = refl
contains_here [] (d ∷ t) h = ground (arith, h)
contains_here (c ∷ s) wanted h = ground (arith, h)

contains_later :
    (c : ℕ) (s wanted : Text) → contains s wanted ≡ true → contains (c ∷ s) wanted ≡ true
unfolding contains find_text
contains_later c s wanted h = ground (arith, h)

-- A text that stands somewhere in the other is found.
pub contains-append :
    (front wanted back : Text) → contains (front ++ (wanted ++ back)) wanted ≡ true
contains-append [] wanted back =
    contains_here (wanted ++ back) wanted (starts_with-append wanted back)
contains-append (c ∷ front) wanted back =
    contains_later c _ wanted (contains-append front wanted back)

-- std::isspace in the C locale
unfoldable pub is_space : ℕ → Bool
is_space c = c == b' ' || (leb 9 c && leb c 13)

unfoldable pub trim_start : Text → Text
trim_start [] = []
trim_start (c ∷ s) = let rest = trim_start s in if is_space c then rest else c ∷ s

unfoldable pub trim_end : Text → Text
trim_end [] = []
trim_end (c ∷ s) = let rest = trim_end s in if is_empty rest && is_space c then [] else c ∷ rest

-- What stands behind the last occurrence of a character.
unfoldable pub behind_last : ℕ → Text → Option Text
behind_last wanted [] = none
behind_last wanted (c ∷ s) = elim (behind_last wanted s) [
  | none ↦ if c == wanted then some s else none
  | some rest ↦ some rest
]

-- What stands in front of the last occurrence of a character.
unfoldable pub before_last : ℕ → Text → Option Text
before_last wanted [] = none
before_last wanted (c ∷ s) = elim (before_last wanted s) [
  | none ↦ if c == wanted then some [] else none
  | some front ↦ some (c ∷ front)
]

-- std::tolower in the C locale.
unfoldable pub to_lower : ℕ → ℕ
to_lower c = if leb b'A' c && leb c b'Z' then c + 32 else c

pub to_lower_idem : (c : ℕ) → to_lower (to_lower c) ≡ to_lower c
unfolding to_lower
to_lower_idem c = ground arith

pub map-to_lower_idem : (s : Text) → map to_lower (map to_lower s) ≡ map to_lower s
map-to_lower_idem [] = refl
map-to_lower_idem (c ∷ s) = cc (to_lower_idem c, map-to_lower_idem s)
