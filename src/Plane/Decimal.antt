-- ===== src/Plane/Decimal.antt =====
-- `parseOffset` and `parseNonNegativeInteger` of src/transfer/laptop-data-plane.ts, against the text
-- that `String(n)` gives.
use vidyut.Prelude.{
  ℕ, zero, suc, ◌+◌, ◌-◌, ◌*◌, ◌/◌, ◌%◌, ◌≤◌, ◌<◌, ◌≡◌, ◌↔◌, refl, sym, ap, ◌∙◌, String, Bool, true,
  false, ◌&&◌, List, [], ◌∷◌, ◌++◌, Option, none, some, arith, leb, ltb, if◌then◌else◌, all,
  and_split, and_join, Bool-cases, inl, inr,
}
use mathlib.Core.List.{append-nil}
use vidyut.Wire.Types.{max_safe_integer}
use vidyut.Wire.Patterns.{codes, is_digit}

-- `/^(0|[1-9][0-9]*)$/`
unfoldable pub is_decimal : List ℕ → Bool
is_decimal [] = false
is_decimal (c ∷ []) = is_digit c
is_decimal (c ∷ d ∷ cs) = leb b'1' c && leb c b'9' && all is_digit (d ∷ cs)

-- The number that digits stand for, behind those read already.
unfoldable pub value : List ℕ → ℕ → ℕ
value [] n = n
value (c ∷ cs) n = value cs (n * 10 + (c - b'0'))

-- A longer text than a safe integer's rounds to a number that is no safe integer.
abbrev pub if_safe : ℕ → Option ℕ
if_safe n = if leb n max_safe_integer then some n else none

unfoldable pub parse_offset : Option String → Option ℕ
unfolding is_decimal value
parse_offset none = none
parse_offset (some text) = if is_decimal (codes text) then if_safe (value (codes text) 0) else none

-- A second copy of the same code.
unfoldable pub parse_non_negative_integer : Option String → Option ℕ
unfolding is_decimal value
parse_non_negative_integer none = none
parse_non_negative_integer (some text) =
    if is_decimal (codes text) then if_safe (value (codes text) 0) else none

-- `String(n)` in front of `rest`; a number has fewer digits than its successor counts.
unfoldable pub digits_onto : ℕ → ℕ → List ℕ → List ℕ
digits_onto zero n rest = rest
digits_onto (suc fuel) n rest =
    let more = digits_onto fuel (n / 10) ((b'0' + n % 10) ∷ rest) in
    if ltb n 10 then (b'0' + n) ∷ rest else more

unfoldable pub decimal : ℕ → List ℕ
decimal n = digits_onto (suc n) n []

-- Any fuel above the number will do.
digits_onto-fuel :
    (f g n : ℕ) (rest : List ℕ) → n < f → n < g → digits_onto f n rest ≡ digits_onto g n rest
unfolding digits_onto
digits_onto-fuel zero g n rest h k = absurd (omega arith)
digits_onto-fuel (suc f) zero n rest h k = absurd (omega arith)
digits_onto-fuel (suc f) (suc g) n rest h k = elim (Bool-cases (ltb n 10)) [
  | inl e ↦ rw e
  | inr e ↦
      rw e (digits_onto-fuel f g (n / 10) ((b'0' + n % 10) ∷ rest) (ground arith) (ground arith))
]

-- The last digit comes off.
digits_onto-last :
    (f a d : ℕ) (rest : List ℕ)
    → 0 < a
    → d < 10
    → a * 10 + d < f
    → digits_onto f (a * 10 + d) rest ≡ digits_onto f a ((b'0' + d) ∷ rest)
unfolding digits_onto
digits_onto-last zero a d rest h k l = absurd (omega arith)
digits_onto-last (suc f) a d rest h k l =
    let big : ltb (a * 10 + d) 10 ≡ false = ground arith in
    let whole : (a * 10 + d) / 10 ≡ a = omega arith in
    let last : (a * 10 + d) % 10 ≡ d = omega arith in
    rw (big, whole, last)
      (digits_onto-fuel f (suc f) a ((b'0' + d) ∷ rest) (omega arith) (omega arith))

value-ge : (cs : List ℕ) (n : ℕ) → n ≤ value cs n
unfolding value
value-ge [] n = omega arith
value-ge (c ∷ cs) n = omega (arith, value-ge cs (n * 10 + (c - b'0')))

-- Digits that are read behind a number which is not zero are the ones that it is printed with.
digits_onto-value :
    (f n : ℕ) (cs rest : List ℕ)
    → 0 < n
    → all is_digit cs ≡ true
    → value cs n < f
    → digits_onto f (value cs n) rest ≡ digits_onto f n (cs ++ rest)
unfolding value
digits_onto-value f n [] rest h k l = refl
digits_onto-value f n (c ∷ cs) rest h k l =
    let (digit, others) = and_split (is_digit c) (all is_digit cs) k in
    let small : c - b'0' < 10 = ground arith in
    let same : b'0' + (c - b'0') ≡ c = ground arith in
    let lower = value-ge cs (n * 10 + (c - b'0')) in
    digits_onto-value f (n * 10 + (c - b'0')) cs rest (omega arith) others l
    ∙ digits_onto-last f n (c - b'0') (cs ++ rest) h small (omega arith)
    ∙ rw same

-- What is printed reads as the number.
value-digits_onto :
    (f n : ℕ) (rest : List ℕ) → n < f → value (digits_onto f n rest) 0 ≡ value rest n
unfolding value digits_onto
value-digits_onto zero n rest h = absurd (omega arith)
value-digits_onto (suc f) n rest h = elim (Bool-cases (ltb n 10)) [
  | inl e ↦ let same : 0 * 10 + (b'0' + n - b'0') ≡ n = omega arith in rw e (ap (value rest) same)
  | inr e ↦
      let back : n / 10 * 10 + (b'0' + n % 10 - b'0') ≡ n = omega arith in
      rw e (value-digits_onto f (n / 10) ((b'0' + n % 10) ∷ rest) (ground arith) ∙ rw back)
]

is_decimal-front :
    (c : ℕ) (cs : List ℕ)
    → (leb b'1' c && leb c b'9') ≡ true
    → all is_digit cs ≡ true
    → is_decimal (c ∷ cs) ≡ true
unfolding is_decimal
is_decimal-front c [] h k = ground arith
is_decimal-front c (d ∷ cs) h k = ground arith

is_decimal-digits_onto :
    (f n : ℕ) (rest : List ℕ)
    → 0 < n
    → n < f
    → all is_digit rest ≡ true
    → is_decimal (digits_onto f n rest) ≡ true
unfolding digits_onto
is_decimal-digits_onto zero n rest h k l = absurd (omega arith)
is_decimal-digits_onto (suc f) n rest h k l = elim (Bool-cases (ltb n 10)) [
  | inl e ↦ rw e (is_decimal-front (b'0' + n) rest (ground arith) l)
  | inr e ↦
      let digit : is_digit (b'0' + n % 10) ≡ true = ground arith in
      rw e (
        is_decimal-digits_onto f (n / 10) ((b'0' + n % 10) ∷ rest) (ground arith) (ground arith)
          (and_join _ _ digit l))
]

pub is_decimal-decimal : (n : ℕ) → is_decimal (decimal n) ≡ true
unfolding decimal is_decimal digits_onto
is_decimal-decimal zero = refl
is_decimal-decimal (suc n) =
    is_decimal-digits_onto (suc (suc n)) (suc n) [] (omega arith) (omega arith) refl

pub value-decimal : (n : ℕ) → value (decimal n) 0 ≡ n
unfolding decimal
value-decimal n = unfold value in value-digits_onto (suc n) n [] (omega arith)

-- A text of the pattern is the one that its number prints as.
decimal-value : (cs : List ℕ) → is_decimal cs ≡ true → decimal (value cs 0) ≡ cs
unfolding is_decimal decimal value
decimal-value [] h = absurd (cc h)
decimal-value (c ∷ []) h =
    let small : ltb (0 * 10 + (c - b'0')) 10 ≡ true = ground arith in
    let same : b'0' + (0 * 10 + (c - b'0')) ≡ c = ground arith in
    unfold digits_onto in rw (small, same)
decimal-value (c ∷ d ∷ cs) h =
    let (first, rest) = and_split (leb b'1' c && leb c b'9') (all is_digit (d ∷ cs)) h in
    let n = 0 * 10 + (c - b'0') in
    let positive : 0 < n = ground arith in
    let small : ltb n 10 ≡ true = ground arith in
    let same : b'0' + n ≡ c = ground arith in
    digits_onto-value (suc (value (d ∷ cs) n)) n (d ∷ cs) [] positive rest (omega arith)
    ∙ (unfold digits_onto in rw (small, same) (append-nil (c ∷ d ∷ cs)))

if_safe-eq-some : (m n : ℕ) → (if_safe m ≡ some n) ↔ ((m ≡ n) × (n ≤ max_safe_integer))
if_safe-eq-some m n = ground arith

-- A text is read as the offset `n` exactly where it is the decimal text of `n`, without leading
-- zeros, and `n` is a safe integer; the second copy of the code reads the same texts.
pub parse_offset-decimal :
    (text : String) (n : ℕ)
    → ((parse_offset (some text) ≡ some n) ↔ ((codes text ≡ decimal n) × (n ≤ max_safe_integer)))
      × (parse_non_negative_integer (some text) ≡ parse_offset (some text))
unfolding parse_offset parse_non_negative_integer
parse_offset-decimal text n = ((forth, back), refl)
  where
    forth :
        (if is_decimal (codes text) then if_safe (value (codes text) 0) else none) ≡ some n
        → (codes text ≡ decimal n) × (n ≤ max_safe_integer)
    forth h = elim (Bool-cases (is_decimal (codes text))) [
      | inl e ↦
          let (m, safe) = (if_safe-eq-some (value (codes text) 0) n).0 (rw e at h) in
          (sym (decimal-value (codes text) e) ∙ rw m, safe)
      | inr e ↦ absurd (cc (rw e at h))
    ]

    back :
        (codes text ≡ decimal n) × (n ≤ max_safe_integer)
        → (if is_decimal (codes text) then if_safe (value (codes text) 0) else none) ≡ some n
    back (same, safe) =
        rw (same, is_decimal-decimal n, value-decimal n) ((if_safe-eq-some n n).1 (refl, safe))
