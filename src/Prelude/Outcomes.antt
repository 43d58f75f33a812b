-- ===== src/Prelude/Outcomes.antt =====
-- What a routine over untrusted bytes can do: return a value, refuse the input, or fault.
use mathlib.Core.Path.{◌≡◌, refl}
use mathlib.Core.Logic.{◌≢◌, ◌⊎◌, inl, inr}
use mathlib.Core.Bool.{Bool, true, false}
use mathlib.Core.Option.{Option, none, some}
use mathlib.Core.List.{List, ◌∷◌, ◌++◌, append_assoc}
use Prim.Native.Nat.{◌≤◌}
use endorium_nexus.Prelude.Tests.{leb}
use endorium_nexus.Prelude.Lists.{take, drop, length-take, length-drop, drop-append, take-append}
use Prim.Native.Nat.{ℕ, ◌+◌, ◌<◌}
use native.Mathlib.Omega.{arith}
use endorium_nexus.Prelude.Tests.{if◌then◌else◌}
use endorium_nexus.Prelude.Lists.{get_elem?, get_elem?-lt, get_elem?-append, length, length-append}

-- `reject` is `return false` or an empty optional. `fault` is a read outside the vector (undefined
-- behaviour in C++) or a loop that runs past the rounds it was given; no C++ run is meant to do either.
pub data Outcome {ℓ} (A : Type ℓ) : Type ℓ where
  ok : A → Outcome A
  reject : Outcome A
  fault : Outcome A

infixl 5 ◌>>=◌ ◌>>◌
abbrev pub ◌>>=◌ {ℓ κ} : {A : Type ℓ} {B : Type κ} → Outcome A → (A → Outcome B) → Outcome B
ok a >>= f = f a
reject >>= f = reject
fault >>= f = fault

abbrev pub ◌>>◌ {ℓ} : {B : Type ℓ} → Outcome (Unit {0}) → Outcome B → Outcome B
m >> k = m >>= λ _. k

-- `if (test) return false;`
abbrev pub reject_if : Bool → Outcome (Unit {0})
reject_if true = reject
reject_if false = ok tt

-- A callee's `return false` that the caller tests instead of passing on.
abbrev pub attempt {ℓ} : {A : Type ℓ} → Outcome A → Outcome (Option A)
attempt (ok a) = ok (some a)
attempt reject = ok none
attempt fault = fault

-- bytes[i]
unfoldable pub byte_at : List ℕ → ℕ → Outcome ℕ
byte_at bytes i = elim (get_elem? bytes i) [ none ↦ fault | some b ↦ ok b ]

-- The run does not fault, and a value that it returns satisfies `P`.
pub data Ensures {ℓ κ} {A : Type ℓ} (P : A → Type κ) : Outcome A → Type (ℓ ⊔ κ) where
  returns : {a : A} → P a → Ensures P (ok a)
  rejects : Ensures P reject

-- The run does not fault.
abbrev pub Ends {ℓ} : {A : Type ℓ} → Outcome A → Type ℓ
Ends m = Ensures (λ _. Unit {0}) m

module _ {ℓ κ ι} {A : Type ℓ} {B : Type ι} {P : A → Type κ} {Q : B → Type κ} where
  pub Ensures-bind :
      (m : Outcome A) (f : A → Outcome B)
      → Ensures P m
      → ((a : A) → P a → Ensures Q (f a))
      → Ensures Q (m >>= f)
  Ensures-bind m f (returns {a = a} h) k = k a h
  Ensures-bind m f rejects k = rejects

module _ {ℓ κ} {A : Type ℓ} {P : A → Type κ} where
  pub Ensures-ok : (a : A) → Ensures P (ok a) → P a
  Ensures-ok a (returns h) = h

  pub Ensures-ne-fault : (m : Outcome A) → Ensures P m → m ≢ fault
  Ensures-ne-fault m (returns h) e = cc
  Ensures-ne-fault m rejects e = cc

  pub Ensures-map :
      {Q : A → Type κ} (m : Outcome A) → Ensures P m → ((a : A) → P a → Q a) → Ensures Q m
  Ensures-map m (returns {a = a} h) k = returns (k a h)
  Ensures-map m rejects k = rejects

  pub Ensures-guard :
      (b : Bool) (k : Outcome A) → (b ≡ false → Ensures P k) → Ensures P (reject_if b >> k)
  Ensures-guard true k h = rejects
  Ensures-guard false k h = h refl

  pub Ensures-if :
      (b : Bool) (m n : Outcome A)
      → (b ≡ true → Ensures P m)
      → (b ≡ false → Ensures P n)
      → Ensures P (if b then m else n)
  Ensures-if true m n h k = h refl
  Ensures-if false m n h k = k refl

pub byte_at-lt : (bytes : List ℕ) (i : ℕ) → i < length bytes → (b : ℕ) × (byte_at bytes i ≡ ok b)
unfolding byte_at
byte_at-lt bytes i h = let (b, e) = get_elem?-lt bytes i h in (b, rw (e, byte_at))

pub byte_at-Ensures :
    (bytes : List ℕ) (i : ℕ) → i < length bytes → Ensures (λ _. Unit {0}) (byte_at bytes i)
byte_at-Ensures bytes i h = let (b, e) = byte_at-lt bytes i h in rw e (returns tt)

module _ {ℓ κ ι} {A : Type ℓ} {B : Type ι} {P : A → Type κ} {Q : B → Type κ} where
  -- A callee's refusal is a case of its own.
  pub Ensures-attempt :
      (m : Outcome A) (none_case : Outcome B) (some_case : A → Outcome B)
      → Ensures P m
      → Ensures Q none_case
      → ((a : A) → P a → Ensures Q (some_case a))
      → Ensures Q (attempt m >>= λ o. elim o [ none ↦ none_case | some a ↦ some_case a ])
  Ensures-attempt m none_case some_case (returns {a = a} h) n k = k a h
  Ensures-attempt m none_case some_case rejects n k = n

pub Outcome-cases {ℓ} :
    {A : Type ℓ} (m : Outcome A) → m ≢ fault → (m ≡ reject) ⊎ ((a : A) × (m ≡ ok a))
Outcome-cases (ok a) h = inr (a, refl)
Outcome-cases reject h = inl refl
Outcome-cases fault h = absurd (h refl)

pub byte_at-append :
    (front back : List ℕ) (b : ℕ) → byte_at (front ++ b ∷ back) (length front) ≡ ok b
unfolding byte_at
byte_at-append front back b = rw (get_elem?-append front back b, byte_at)

pub byte_at-behind :
    (front middle back : List ℕ) (b k : ℕ)
    → length middle ≡ k
    → byte_at (front ++ (middle ++ b ∷ back)) (length front + k) ≡ ok b
byte_at-behind front middle back b k e =
    let at : length (front ++ middle) ≡ length front + k =
      omega (arith, length-append front middle) in
    rw (← append_assoc front middle (b ∷ back), ← at) (byte_at-append (front ++ middle) back b)

-- The bytes from an offset on, as many as are asked for: `append(bytes.data() + offset, count)`, or the
-- range constructor of a string or a vector.
unfoldable pub slice : List ℕ → ℕ → ℕ → Outcome (List ℕ)
slice bytes offset count =
    if leb (offset + count) (length bytes) then ok (take count (drop offset bytes)) else fault

pub slice-Ensures :
    (bytes : List ℕ) (offset count : ℕ)
    → offset + count ≤ length bytes
    → Ensures (λ s. length s ≡ count) (slice bytes offset count)
unfolding slice
slice-Ensures bytes offset count h =
    Ensures-if (leb (offset + count) (length bytes)) _ _
      (λ _.
        returns (omega (arith, length-take count (drop offset bytes), length-drop offset bytes)))
      (λ e. absurd (ground arith))

pub slice-append :
    (front middle back : List ℕ)
    → slice (front ++ (middle ++ back)) (length front) (length middle) ≡ ok middle
unfolding slice
slice-append front middle back =
    let fits : leb (length front + length middle) (length (front ++ (middle ++ back))) ≡ true =
      ground (arith, length-append front (middle ++ back), length-append middle back) in
    rw (fits, drop-append front (middle ++ back), take-append middle back)

-- The run returns a value, and the value satisfies `P`.
pub data Returns {ℓ κ} {A : Type ℓ} (P : A → Type κ) : Outcome A → Type (ℓ ⊔ κ) where
  returned : {a : A} → P a → Returns P (ok a)

module _ {ℓ κ ι} {A : Type ℓ} {B : Type ι} {P : A → Type κ} {Q : B → Type κ} where
  pub Returns-bind :
      (m : Outcome A) (f : A → Outcome B)
      → Returns P m
      → ((a : A) → P a → Returns Q (f a))
      → Returns Q (m >>= f)
  Returns-bind m f (returned {a = a} h) k = k a h

  -- A callee's refusal is a case of its own.
  pub Returns-attempt :
      (m : Outcome A) (none_case : Outcome B) (some_case : A → Outcome B)
      → Ensures P m
      → Returns Q none_case
      → ((a : A) → P a → Returns Q (some_case a))
      → Returns Q (attempt m >>= λ o. elim o [ none ↦ none_case | some a ↦ some_case a ])
  Returns-attempt m none_case some_case (returns {a = a} h) n k = k a h
  Returns-attempt m none_case some_case rejects n k = n

module _ {ℓ κ ι} {A : Type ℓ} {B : Type ι} {Q : B → Type κ} where
  pub Returns-option :
      (m : Outcome (Option A)) (none_case : Outcome B) (some_case : A → Outcome B)
      → Returns (λ _. Unit {0}) m
      → Returns Q none_case
      → ((a : A) → Returns Q (some_case a))
      → Returns Q (m >>= λ o. elim o [ none ↦ none_case | some a ↦ some_case a ])
  Returns-option m none_case some_case (returned {a = none} h) n k = n
  Returns-option m none_case some_case (returned {a = some a} h) n k = k a

module _ {ℓ κ} {A : Type ℓ} {P : A → Type κ} where
  pub Returns-if :
      (b : Bool) (m n : Outcome A)
      → (b ≡ true → Returns P m)
      → (b ≡ false → Returns P n)
      → Returns P (if b then m else n)
  Returns-if true m n h k = h refl
  Returns-if false m n h k = k refl

  pub Returns-Ensures : (m : Outcome A) → Returns P m → Ensures P m
  Returns-Ensures m (returned h) = returns h

  pub Returns-value : (a : A) → Returns P (ok a) → P a
  Returns-value a (returned h) = h

  pub Returns-ok : (m : Outcome A) → Returns P m → (a : A) × (m ≡ ok a)
  Returns-ok m (returned {a = a} h) = (a, refl)

pub slice-Returns :
    (bytes : List ℕ) (offset count : ℕ)
    → offset + count ≤ length bytes
    → Returns (λ _. Unit {0}) (slice bytes offset count)
unfolding slice
slice-Returns bytes offset count h =
    Returns-if (leb (offset + count) (length bytes)) _ _ (λ _. returned tt)
      (λ e. absurd (ground arith))
