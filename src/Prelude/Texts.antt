-- ===== src/Prelude/Texts.antt =====
-- Equality of texts, of optional values and of lists, as the program's `===` decides it.
use Prim.Native.String.{String}
use mathlib.Core.Path.{◌≡◌, refl}
use mathlib.Core.Bool.{Bool, true, false, not, ◌&&◌}
use mathlib.Core.List.{List, [], ◌∷◌}
use mathlib.Core.Option.{Option, none, some}
use text.Mathlib.TextPositions.{eq_refl}
pub use text.Mathlib.Text.{◌==◌ as str_eq}
pub use text.Mathlib.TextEquality.{eq_iff as str_eq_iff}
use vidyut.Prelude.Tests.{and_join}
use vidyut.Prelude.Lists.{any}

pub str_eq_refl : (s : String) → str_eq s s ≡ true
str_eq_refl s = eq_refl s

module _ {ℓ} {A : Type ℓ} where
  abbrev pub opt_eq : (A → A → Bool) → Option A → Option A → Bool
  opt_eq eq none none = true
  opt_eq eq (some a) (some b) = eq a b
  opt_eq eq none (some b) = false
  opt_eq eq (some a) none = false

  -- `o === undefined || p(o)`
  abbrev pub opt_all : (A → Bool) → Option A → Bool
  opt_all p none = true
  opt_all p (some a) = p a

  abbrev pub list_eq : (A → A → Bool) → List A → List A → Bool
  list_eq eq [] [] = true
  list_eq eq (x ∷ xs) (y ∷ ys) = eq x y && list_eq eq xs ys
  list_eq eq [] (y ∷ ys) = false
  list_eq eq (x ∷ xs) [] = false

  pub opt_eq_refl :
      (eq : A → A → Bool) → ((a : A) → eq a a ≡ true) → (o : Option A) → opt_eq eq o o ≡ true
  opt_eq_refl eq h none = refl
  opt_eq_refl eq h (some a) = h a

  pub list_eq_refl :
      (eq : A → A → Bool) → ((a : A) → eq a a ≡ true) → (l : List A) → list_eq eq l l ≡ true
  list_eq_refl eq h [] = refl
  list_eq_refl eq h (x ∷ xs) = and_join _ _ (h x) (list_eq_refl eq h xs)

-- `new Set(ids).size === ids.length`
abbrev pub all_distinct : List String → Bool
all_distinct [] = true
all_distinct (x ∷ xs) = not (any (str_eq x) xs) && all_distinct xs

abbrev pub bool_eq : Bool → Bool → Bool
bool_eq true b = b
bool_eq false b = not b

pub bool_eq_refl : (b : Bool) → bool_eq b b ≡ true
bool_eq_refl true = refl
bool_eq_refl false = refl
