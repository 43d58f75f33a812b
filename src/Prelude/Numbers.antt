-- ===== src/Prelude/Numbers.antt =====
-- `int` and its reading from a text.
use Prim.Native.Nat.{ℕ, zero, suc, ◌+◌, ◌-◌, ◌*◌, ◌/◌, ◌%◌, ◌^◌}
use mathlib.Core.Bool.{Bool, true, false, ◌&&◌, ◌||◌}
use mathlib.Core.List.{[], ◌∷◌, ◌++◌}
use mathlib.Core.Option.{Option, none, some}
use endorium_nexus.Prelude.Tests.{ltb, leb, ◌==◌, if◌then◌else◌}
use endorium_nexus.Prelude.Texts.{Text, trim_start, to_lower}

-- `int`, which may be negative: `pos n` is n, `negsuc n` is -n-1.
pub data ℤ : Type 0 where
  pos : ℕ → ℤ
  negsuc : ℕ → ℤ

-- std::stoi in base 10, in three steps: blanks, a sign, digits. An exception is `none`.
unfoldable pub is_digit : ℕ → Bool
is_digit c = leb b'0' c && leb c b'9'

unfoldable pub decimal_value : Text → ℕ → ℕ
decimal_value [] value = value
decimal_value (c ∷ s) value =
    let more = decimal_value s (value * 10 + (c - b'0')) in if is_digit c then more else value

unfoldable pub unsigned_value : Text → Option ℕ
unsigned_value [] = none
unsigned_value (c ∷ s) = if is_digit c then some (decimal_value (c ∷ s) 0) else none

abbrev pub negated : ℕ → ℤ
negated zero = pos 0
negated (suc n) = negsuc n

unfoldable pub signed_value : Text → Option ℤ
signed_value [] = none
signed_value (c ∷ s) =
    let negative = c == b'-' in
    elim (unsigned_value (if negative || c == b'+' then s else c ∷ s)) [
      | none ↦ none
      | some n ↦
          if negative
          then (if leb n (2 ^ 31) then some (negated n) else none)
          else if ltb n (2 ^ 31)
          then some (pos n)
          else none
    ]

unfoldable pub stoi : Text → Option ℤ
stoi [] = none
stoi (c ∷ s) =
    let rest = stoi s in if c == b' ' || (leb 9 c && leb c 13) then rest else signed_value (c ∷ s)

-- std::to_string of an unsigned number; there are at most as many digits as the fuel, n + 1.
unfoldable pub digits_of : ℕ → ℕ → Text
digits_of zero n = []
digits_of (suc fuel) n =
    let front = digits_of fuel (n / 10) in
    if ltb n 10 then (b'0' + n) ∷ [] else front ++ (b'0' + n % 10) ∷ []

unfoldable pub to_string : ℕ → Text
to_string n = digits_of (suc n) n

unfoldable pub digit_in : ℕ → ℕ → Option ℕ
digit_in base c =
    let value =
      if is_digit c
      then c - b'0'
      else if leb b'a' c && leb c b'z'
      then c - b'a' + 10
      else if leb b'A' c && leb c b'Z'
      then c - b'A' + 10
      else base in
    if ltb value base then some value else none

-- The digits at the front of a text, and what follows them.
unfoldable pub digits_run : ℕ → Text → ℕ → ℕ × Text
digits_run base [] value = (value, [])
digits_run base (c ∷ s) value = elim (digit_in base c) [
  | none ↦ (value, c ∷ s)
  | some d ↦ digits_run base s (value * base + d)
]

-- A number of 64 bits, negated if a minus sign stood in front.
unfoldable pub wrapped : Bool → ℕ × Text → Option (ℕ × Text)
wrapped negative (value, rest) =
    if ltb value (2 ^ 64)
    then some ((if negative then (2 ^ 64 - value) % 2 ^ 64 else value), rest)
    else none

unfoldable pub unsigned_run : ℕ → Bool → Text → Option (ℕ × Text)
unsigned_run base negative [] = none
unsigned_run base negative (c ∷ s) = elim (digit_in base c) [
  | none ↦ none
  | some d ↦ wrapped negative (digits_run base (c ∷ s) 0)
]

unfoldable pub starts_hex : Text → Bool
starts_hex [] = false
starts_hex (c ∷ s) = elim (digit_in 16 c) [ none ↦ false | some d ↦ true ]

-- Base 0: hexadecimal behind 0x, octal behind 0, decimal else.
unfoldable pub prefixed_run : Bool → Text → Option (ℕ × Text)
prefixed_run negative [] = none
prefixed_run negative (c ∷ []) = unsigned_run 10 negative (c ∷ [])
prefixed_run negative (c ∷ d ∷ s) =
    if c == b'0' && to_lower d == b'x' && starts_hex s
    then unsigned_run 16 negative s
    else if c == b'0'
    then unsigned_run 8 negative (c ∷ d ∷ s)
    else unsigned_run 10 negative (c ∷ d ∷ s)

unfoldable pub run_of : ℕ → Bool → Text → Option (ℕ × Text)
run_of base negative s = if base == 0 then prefixed_run negative s else unsigned_run base negative s

unfoldable pub signed_run : ℕ → Text → Option (ℕ × Text)
signed_run base [] = none
signed_run base (c ∷ s) =
    if c == b'-'
    then run_of base true s
    else if c == b'+'
    then run_of base false s
    else run_of base false (c ∷ s)

-- std::stoul and std::stoull, both of 64 bits: the number and the text behind it; an exception is
-- `none`.
unfoldable pub stoul : ℕ → Text → Option (ℕ × Text)
stoul base s = signed_run base (trim_start s)
