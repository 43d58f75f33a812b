-- ===== src/Vcs/Names/Safety.antt =====
-- What a valid name cannot hold: a repository's name is one component of a path, below the root of
-- all repositories.
use endorium_nexus.Vcs.Names.{is_alnum, is_word_character, is_valid_repository_name}
use endorium_nexus.Prelude.{
  ltb, Bool-cases, length, any, All, Text, codes, contains, contains-append, ℕ, ◌≤◌, ◌<◌, ◌≡◌, ◌≢◌,
  inl, inr, Bool, true, false, not, [], ◌∷◌, ◌++◌, arith,
}

-- A text that names a file in the directory it is joined to, and no other.
pub record IsComponent (name : Text) : Type 0 where
  pub short : (0 < length name) × (length name ≤ 96)
  pub no_separator : All (λ c. (c ≢ b'/') × (c ≢ 92) × (32 < c)) name
  pub no_parent : (front back : Text) → name ≢ front ++ (codes ".." ++ back)
  pub no_suffix : (front back : Text) → name ≢ front ++ (codes ".git" ++ back)

word_byte : (c : ℕ) → is_word_character c ≡ true → (c ≢ b'/') × (c ≢ 92) × (32 < c)
unfolding is_word_character is_alnum
word_byte c h = ground (arith, h)

impossible : {A : Type 0} → true ≡ false → A
impossible e = cc

bytes_pass :
    (P : ℕ → Type 0) (test : ℕ → Bool) (name : Text)
    → ((c : ℕ) → test c ≡ true → P c)
    → any (λ c. not (test c)) name ≡ false
    → All P name
unfolding any
bytes_pass P test [] f h = tt
bytes_pass P test (c ∷ s) f h = elim (Bool-cases (test c)) [
  | inl e ↦ (f c e, bytes_pass P test s f (ground (arith, h, e)))
  | inr e ↦ impossible (ground (arith, h, e))
]

found :
    (name front wanted back : Text)
    → contains name wanted ≡ false
    → name ≢ front ++ (wanted ++ back)
found name front wanted back h e =
    let there : contains name wanted ≡ true = rw e (contains-append front wanted back) in cc

record PassesTests (name : Text) : Type 0 where
  size : ltb 96 (length name) ≡ false
  parent : contains name (codes "..") ≡ false
  suffix : contains name (codes ".git") ≡ false
  bytes : any (λ c. not (is_word_character c)) name ≡ false

is_valid_repository_name-PassesTests :
    (c : ℕ) (s : Text) → is_valid_repository_name (c ∷ s) ≡ true → PassesTests (c ∷ s)
unfolding is_valid_repository_name
is_valid_repository_name-PassesTests c s h = record {
  size = ground (arith, h);
  parent = ground (arith, h);
  suffix = ground (arith, h);
  bytes = ground (arith, h);
}

-- A valid repository name is one component of a path: not empty, at most 96 bytes, without a slash,
-- a backslash, a blank or a control character, and neither `..` nor `.git` stands in it.
pub is_valid_repository_name-IsComponent :
    (name : Text) → is_valid_repository_name name ≡ true → IsComponent name
unfolding is_valid_repository_name
is_valid_repository_name-IsComponent [] h = ground (arith, h)
is_valid_repository_name-IsComponent (c ∷ s) h =
    let t = is_valid_repository_name-PassesTests c s h in
    record {
      short = ground (arith, t.size);
      no_separator = bytes_pass _ is_word_character (c ∷ s) word_byte t.bytes;
      no_parent = λ front back. found (c ∷ s) front (codes "..") back t.parent;
      no_suffix = λ front back. found (c ∷ s) front (codes ".git") back t.suffix;
    }
