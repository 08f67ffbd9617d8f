-- ===== src/Prelude/Lists.antt =====
-- Lists as the program's arrays use them: search, replacement of the element found, tests.
use Prim.Native.Nat.{ℕ, zero, suc, ◌+◌, ◌-◌, ◌≤◌}
use mathlib.Core.Path.{◌≡◌, refl}
use mathlib.Core.Logic.{inl, inr}
use mathlib.Core.Bool.{Bool, true, false, ◌&&◌, ◌||◌}
use mathlib.Core.List.{List, [], ◌∷◌, ◌++◌}
use mathlib.Core.Option.{Option, none, some}
use native.Mathlib.Omega.{arith}
use vidyut.Prelude.Tests.{if◌then◌else◌, Bool-cases, and_split, and_join}

module _ {ℓ} {A : Type ℓ} where
  abbrev pub length : List A → ℕ
  length [] = 0
  length (x ∷ xs) = suc (length xs)

  abbrev pub drop : ℕ → List A → List A
  drop zero xs = xs
  drop (suc n) [] = []
  drop (suc n) (x ∷ xs) = drop n xs

  abbrev pub take : ℕ → List A → List A
  take zero xs = []
  take (suc n) [] = []
  take (suc n) (x ∷ xs) = x ∷ take n xs

  abbrev pub filter : (A → Bool) → List A → List A
  filter keeps [] = []
  filter keeps (x ∷ xs) = if keeps x then x ∷ filter keeps xs else filter keeps xs

  -- `xs.slice(-n)`: the last `n` elements, or all where there are fewer.
  abbrev pub take_last : ℕ → List A → List A
  take_last n xs = drop (length xs - n) xs

  -- `xs.at(-1)`
  abbrev pub get_last? : List A → Option A
  get_last? [] = none
  get_last? (x ∷ []) = some x
  get_last? (x ∷ y ∷ xs) = get_last? (y ∷ xs)

  -- `xs.find(p)`
  abbrev pub find? : (A → Bool) → List A → Option A
  find? p [] = none
  find? p (x ∷ xs) = if p x then some x else find? p xs

  -- An assignment through the reference that `find` returned.
  abbrev pub replace_first : (A → Bool) → A → List A → List A
  replace_first p y [] = []
  replace_first p y (x ∷ xs) = if p x then y ∷ xs else x ∷ replace_first p y xs

  -- `xs.every(p)`, `xs.some(p)`
  abbrev pub all : (A → Bool) → List A → Bool
  all p [] = true
  all p (x ∷ xs) = p x && all p xs

  abbrev pub any : (A → Bool) → List A → Bool
  any p [] = false
  any p (x ∷ xs) = p x || any p xs

module _ {ℓ} {A : Type ℓ} where
  pub length-append : (xs ys : List A) → length (xs ++ ys) ≡ length xs + length ys
  length-append [] ys = omega arith
  length-append (x ∷ xs) ys = omega (arith, length-append xs ys)

  pub length-drop : (n : ℕ) (xs : List A) → length (drop n xs) ≡ length xs - n
  length-drop zero xs = omega arith
  length-drop (suc n) [] = omega arith
  length-drop (suc n) (x ∷ xs) = omega (arith, length-drop n xs)

  pub length-take_last : (n : ℕ) (xs : List A) → length (take_last n xs) ≤ n
  length-take_last n xs = omega (arith, length-drop (length xs - n) xs)

  pub all-append :
      (p : A → Bool) (xs ys : List A) → all p xs ≡ true → all p ys ≡ true → all p (xs ++ ys) ≡ true
  all-append p [] ys h k = k
  all-append p (x ∷ xs) ys h k =
      let (a, b) = and_split (p x) (all p xs) h in and_join _ _ a (all-append p xs ys b k)

  pub all-drop : (p : A → Bool) (n : ℕ) (xs : List A) → all p xs ≡ true → all p (drop n xs) ≡ true
  all-drop p zero xs h = h
  all-drop p (suc n) [] h = refl
  all-drop p (suc n) (x ∷ xs) h = all-drop p n xs (and_split (p x) (all p xs) h).1

  pub find?-holds : (p : A → Bool) (xs : List A) (y : A) → find? p xs ≡ some y → p y ≡ true
  find?-holds p [] y h = ground arith
  find?-holds p (x ∷ xs) y h = ground (arith, find?-holds p xs y)

  -- A search finds what was put in place of its first hit.
  pub find?-replaced :
      (p : A → Bool) (xs : List A) (y z : A)
      → find? p xs ≡ some y
      → p z ≡ true
      → find? p (replace_first p z xs) ≡ some z
  find?-replaced p [] y z h k = absurd (ground arith)
  find?-replaced p (x ∷ xs) y z h k = ground (arith, find?-replaced p xs y z)

  pub find?-all :
      (p q : A → Bool) (xs : List A) (y : A) → find? p xs ≡ some y → all q xs ≡ true → q y ≡ true
  find?-all p q [] y h k = ground arith
  find?-all p q (x ∷ xs) y h k = ground (arith, find?-all p q xs y)

  pub all-replace_first :
      (p q : A → Bool) (y : A) (xs : List A)
      → all q xs ≡ true
      → q y ≡ true
      → all q (replace_first p y xs) ≡ true
  all-replace_first p q y [] h k = refl
  all-replace_first p q y (x ∷ xs) h k = ground (arith, all-replace_first p q y xs)

  -- Nothing is found exactly when no element passes.
  pub find?-any : (p : A → Bool) (xs : List A) → find? p xs ≡ none → any p xs ≡ false
  find?-any p [] h = refl
  find?-any p (x ∷ xs) h = ground (arith, find?-any p xs)

  pub any-find? : (p : A → Bool) (xs : List A) → any p xs ≡ true → (y : A) × (find? p xs ≡ some y)
  any-find? p [] h = ground arith
  any-find? p (x ∷ xs) h = elim (Bool-cases (p x)) [
    | inl e ↦ (x, rw e)
    | inr e ↦ let (y, f) = any-find? p xs (rw e at h) in (y, rw e f)
  ]

module _ {ℓ κ} {A : Type ℓ} where
  abbrev pub All : (A → Type κ) → List A → Type κ
  All P [] = Unit
  All P (x ∷ xs) = P x × All P xs

  pub All-append : (P : A → Type κ) (xs ys : List A) → All P xs → All P ys → All P (xs ++ ys)
  All-append P [] ys h k = k
  All-append P (x ∷ xs) ys h k = (h.0, All-append P xs ys h.1 k)

  pub find?-All :
      (P : A → Type κ) (p : A → Bool) (xs : List A) (y : A) → find? p xs ≡ some y → All P xs → P y
  find?-All P p [] y h k = absurd (ground arith)
  find?-All P p (x ∷ xs) y h k = elim (Bool-cases (p x)) [
    | inl e ↦ let same : x ≡ y = ground arith in rw (← same) k.0
    | inr e ↦ find?-All P p xs y (ground arith) k.1
  ]

  pub All-All : (P : A → Type κ) → ((x : A) → P x) → (xs : List A) → All P xs
  All-All P h [] = tt
  All-All P h (x ∷ xs) = (h x, All-All P h xs)

  pub All-replace_first :
      (P : A → Type κ) (p : A → Bool) (y : A) (xs : List A)
      → All P xs
      → P y
      → All P (replace_first p y xs)
  All-replace_first P p y [] h k = tt
  All-replace_first P p y (x ∷ xs) h k = elim (Bool-cases (p x)) [
    | inl e ↦ rw e (k, h.1)
    | inr e ↦ rw e (h.0, All-replace_first P p y xs h.1 k)
  ]

  pub All-split : (P : A → Type κ) (xs ys : List A) → All P (xs ++ ys) → All P xs × All P ys
  All-split P [] ys h = (tt, h)
  All-split P (x ∷ xs) ys h = let (a, b) = All-split P xs ys h.1 in ((h.0, a), b)
