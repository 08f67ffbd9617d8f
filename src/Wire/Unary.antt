-- ===== src/Wire/Unary.antt =====
-- Lists of numbers as texts and back, for concrete runs that need a base64 of some kind.
use vidyut.Prelude.{
  ℕ, zero, suc, ◌+◌, ◌≡◌, refl, ap, ◌∙◌, String, List, [], ◌∷◌, ◌==◌, if◌then◌else◌, arith,
}
use vidyut.Wire.Patterns.{codes}

abbrev pub unary : ℕ → String → String
unary zero s = String.◌∷◌ "b" s
unary (suc n) s = String.◌∷◌ "a" (unary n s)

abbrev pub write : List ℕ → String
write [] = ""
write (n ∷ ns) = unary n (write ns)

abbrev pub read : List ℕ → ℕ → List ℕ
read [] acc = []
read (c ∷ cs) acc = if c == b'a' then read cs (suc acc) else acc ∷ read cs 0

read-unary : (n acc : ℕ) (s : String) → read (codes (unary n s)) acc ≡ (n + acc) ∷ read (codes s) 0
read-unary zero acc s = ap (λ k. k ∷ read (codes s) 0) (omega arith)
read-unary (suc n) acc s = read-unary n (suc acc) s ∙ ap (λ k. k ∷ read (codes s) 0) (omega arith)

pub read-write : (ns : List ℕ) → read (codes (write ns)) 0 ≡ ns
read-write [] = refl
read-write (n ∷ ns) =
    read-unary n 0 (write ns) ∙ rw (read-write ns) (ap (λ k. k ∷ ns) (omega arith))
