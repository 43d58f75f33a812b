-- ===== src/Vcs/Names.antt =====
-- Names of repositories and branches, and scopes of tokens: libs/vcs/src/repository.cpp.
pub mod Safety
use endorium_nexus.Prelude.{
  ltb, leb, ◌==◌, if◌then◌else◌, ltb→lt, lt→ltb, le→ltb, leb→le, ==_iff, tests, Bool-cases,
  Option-cases, length, get_elem?, set, take, drop, is_empty, any, keep, All, All-append,
  length-append, length-set, length-take, length-drop, take-append-drop, take-append, drop-append,
  get_elem?-lt, get_elem?-append, set-append, Outcome, ok, reject, fault, ◌>>=◌, ◌>>◌, reject_if,
  attempt, byte_at, Outcome-cases, Ensures, Ends, returns, rejects, Ensures-bind, Ensures-ok,
  Ensures-ne-fault, Ensures-map, Ensures-attempt, Ensures-guard, Ensures-if, byte_at-append,
  byte_at-behind, slice, slice-append, slice-Ensures, byte_at-lt, byte_at-Ensures, Text, codes,
  text_eq, text_eq_refl, text_eq→eq, text_eq_iff, ℤ, pos, negsuc, is_digit, decimal_value,
  unsigned_value, negated, signed_value, stoi, find_char, starts_with, find_text, contains,
  contains-append, ends_with, to_lower, to_lower_idem, map-to_lower_idem, ℕ, zero, suc, ◌+◌, ◌-◌,
  ◌*◌, ◌/◌, ◌%◌, ◌^◌, ◌≤◌, ◌<◌, min, max, ◌≡◌, refl, sym, ap, ◌∙◌, ◌≢◌, ◌↔◌, ◌⊎◌, inl, inr, Bool,
  true, false, not, ◌&&◌, ◌||◌, Option, none, some, List, [], ◌∷◌, ◌++◌, map, append_assoc,
  append-nil, arith,
}

abbrev pub is_between : ℕ → ℕ → ℕ → Bool
is_between low high c = leb low c && leb c high

-- std::isalnum in the C locale
unfoldable pub is_alnum : ℕ → Bool
is_alnum c = is_between b'0' b'9' c || is_between b'A' b'Z' c || is_between b'a' b'z' c

unfoldable pub is_word_character : ℕ → Bool
is_word_character c = is_alnum c || c == b'-' || c == b'_' || c == b'.'

-- back() of the text that starts with the given byte
unfoldable pub last_byte : ℕ → Text → ℕ
last_byte c [] = c
last_byte c (d ∷ s) = last_byte d s

unfoldable pub is_valid_repository_name : Text → Bool
is_valid_repository_name [] = false
is_valid_repository_name (front ∷ rest) =
    let name = front ∷ rest in
    if ltb 96 (length name)
    then false
    else if not (is_alnum front) || not (is_alnum (last_byte front rest))
    then false
    else if contains name (codes "..")
        || contains name (codes ".git")
        || ends_with name (codes ".lock")
    then false
    else not (any (λ c. not (is_word_character c)) name)

unfoldable pub is_branch_byte : ℕ → Bool
is_branch_byte c = not (
    ltb c 33
    || c == b'~'
    || c == b'^'
    || c == b':'
    || c == b'?'
    || c == b'*'
    || c == b'['
    || c == 92)

unfoldable pub is_valid_branch_name : Text → Bool
is_valid_branch_name [] = false
is_valid_branch_name (front ∷ rest) =
    let name = front ∷ rest in
    let back = last_byte front rest in
    if ltb 128 (length name)
    then false
    else if front == b'/' || back == b'/' || back == b'.'
    then false
    else if contains name (codes "..")
        || contains name (codes "@{")
        || contains name (codes "//")
        || ends_with name (codes ".lock")
    then false
    else not (any (λ c. not (is_branch_byte c)) name)

unfoldable pub token_scope_allows : Text → Bool → Bool
token_scope_allows scope require_write =
    if require_write
    then text_eq scope (codes "write")
    else text_eq scope (codes "read") || text_eq scope (codes "write")
