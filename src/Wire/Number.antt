-- ===== src/Wire/Number.antt =====
-- The numbers of the program where they reach it unchecked. A double is ± n / 2 ^ k, or not finite.
use vidyut.Prelude.{
  ℕ, ◌*◌, ◌/◌, ◌%◌, ◌^◌, ◌≤◌, ◌≡◌, Bool, true, false, not, ◌&&◌, ◌||◌, Option, none, some, leb,
  ◌==◌, if◌then◌else◌, arith,
}
use vidyut.Wire.Types.{max_safe_integer}

pub data Number : Type 0 where
  -- sign (true for minus), n, k
  dyadic : Bool → ℕ → ℕ → Number
  not_finite : Number

abbrev pub natural : ℕ → Number
natural n = dyadic false n 0

unfoldable pub is_safe_integer : Number → Bool
is_safe_integer (dyadic minus n k) = n % 2 ^ k == 0 && leb (n / 2 ^ k) max_safe_integer
is_safe_integer not_finite = false

unfoldable pub is_finite : Number → Bool
is_finite (dyadic minus n k) = true
is_finite not_finite = false

-- `x >= 0`
unfoldable pub is_non_negative : Number → Bool
is_non_negative (dyadic minus n k) = not minus || n == 0
is_non_negative not_finite = false

-- `x >= y` on finite numbers.
unfoldable pub at_least : Number → Number → Bool
at_least (dyadic false n k) (dyadic false m l) = leb (m * 2 ^ k) (n * 2 ^ l)
at_least (dyadic false n k) (dyadic true m l) = true
at_least (dyadic true n k) (dyadic false m l) = n == 0 && m == 0
at_least (dyadic true n k) (dyadic true m l) = leb (n * 2 ^ l) (m * 2 ^ k)
at_least _ _ = false

-- The value of a number that passes `Number.isSafeInteger(x) && x >= 0`.
unfoldable pub natural? : Number → Option ℕ
natural? (dyadic minus n k) =
    if is_safe_integer (dyadic minus n k) && is_non_negative (dyadic minus n k)
    then some (n / 2 ^ k)
    else none
natural? not_finite = none

pub natural?-le : (x : Number) (n : ℕ) → natural? x ≡ some n → n ≤ max_safe_integer
unfolding natural? is_safe_integer
natural?-le (dyadic minus m k) n h = ground arith
natural?-le not_finite n h = absurd (ground arith)

pub natural?-natural : (n : ℕ) → n ≤ max_safe_integer → natural? (natural n) ≡ some n
unfolding natural? is_safe_integer is_non_negative
natural?-natural n h = ground arith
