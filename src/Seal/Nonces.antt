-- ===== src/Seal/Nonces.antt =====
-- The bytes of the nonces of src/shared/session-seal.ts.
use vidyut.Prelude.{
  ℕ, zero, suc, ◌*◌, ◌/◌, ◌%◌, ◌<◌, ◌≡◌, refl, true, List, [], ◌∷◌, arith, ok, ltb, Bool-cases, inl,
  inr,
}
use vidyut.Seal.{SealDirection, direction_byte, big_endian, seal_nonce, counter_limit}

abbrev bytes_limit : ℕ → ℕ
bytes_limit zero = 1
bytes_limit (suc k) = 256 * bytes_limit k

big_endian-injective :
    (k n m : ℕ) (xs ys : List ℕ)
    → n < bytes_limit k
    → m < bytes_limit k
    → big_endian k n xs ≡ big_endian k m ys
    → (n ≡ m) × (xs ≡ ys)
unfolding big_endian
big_endian-injective zero n m xs ys hn hm e = (omega arith, e)
big_endian-injective (suc k) n m xs ys hn hm e =
    let (high, rest) =
      big_endian-injective k (n / 256) (m / 256) (n % 256 ∷ xs) (m % 256 ∷ ys) (omega arith)
        (omega arith) e in
    let low : n % 256 ≡ m % 256 = cc rest in (omega arith, cc rest)

direction_byte-injective : (d d' : SealDirection) → direction_byte d ≡ direction_byte d' → d ≡ d'
unfolding direction_byte
direction_byte-injective SealDirection.relay_to_phone SealDirection.relay_to_phone e = refl
direction_byte-injective SealDirection.phone_to_relay SealDirection.phone_to_relay e = refl
direction_byte-injective SealDirection.relay_to_phone SealDirection.phone_to_relay e =
    absurd (omega arith)
direction_byte-injective SealDirection.phone_to_relay SealDirection.relay_to_phone e =
    absurd (omega arith)

nonce_parts :
    (d d' : SealDirection) (c c' : ℕ)
    → c < counter_limit
    → c' < counter_limit
    → direction_byte d ∷ 0 ∷ 0 ∷ 0 ∷ big_endian 8 c []
      ≡ direction_byte d' ∷ 0 ∷ 0 ∷ 0 ∷ big_endian 8 c' []
    → (d ≡ d') × (c ≡ c')
nonce_parts d d' c c' h h' e =
    (direction_byte-injective d d' (cc e), (big_endian-injective 8 c c' [] [] h h' (cc e)).0)

written :
    (d : SealDirection) (c : ℕ)
    → ltb c counter_limit ≡ true
    → seal_nonce d c ≡ ok (direction_byte d ∷ 0 ∷ 0 ∷ 0 ∷ big_endian 8 c [])
unfolding seal_nonce
written d c h = rw h refl

-- Two nonces are the same only if the direction and the counter are.
pub seal_nonce-injective :
    (d d' : SealDirection) (c c' : ℕ) (nonce : List ℕ)
    → seal_nonce d c ≡ ok nonce
    → seal_nonce d' c' ≡ ok nonce
    → (d ≡ d') × (c ≡ c')
unfolding seal_nonce
seal_nonce-injective d d' c c' nonce h h' = elim (Bool-cases (ltb c counter_limit)) [
  | inr large ↦ absurd (ground arith)
  | inl small ↦ elim (Bool-cases (ltb c' counter_limit)) [
    | inr large ↦ absurd (ground arith)
    | inl fits ↦
        nonce_parts d d' c c' (ground arith) (ground arith)
          (cc (written d c small, written d' c' fits, h, h'))
  ]
]
