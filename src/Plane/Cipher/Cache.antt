-- ===== src/Plane/Cipher/Cache.antt =====
-- `deriveTransferKey` of src/shared/transfer-crypto.ts with its cache, against the derivation alone.
use vidyut.Prelude.{
  ℕ, ◌≡◌, refl, sym, ◌∙◌, String, Bool, true, false, not, List, [], ◌∷◌, ◌++◌, Option, none, some,
  arith, list_eq, any, ◌==◌, Bool-cases, Option-cases, inl, inr, All, if◌then◌else◌, map,
}
use vidyut.Wire.Patterns.{codes}
use vidyut.Plane.Cipher.{Aead, transfer_key}

-- The module's `Map`, the newest entry first.
abbrev pub KeyCache : Type 0
KeyCache = List (List ℕ × List ℕ)

unfoldable pub find_key : List ℕ → KeyCache → Option (List ℕ)
find_key k [] = none
find_key k ((j, key) ∷ rest) = if list_eq ◌==◌ j k then some key else find_key k rest

-- The secret, a zero and the identifier.
unfoldable pub cache_key : String → String → List ℕ
cache_key pairing_secret transfer_id = codes pairing_secret ++ (0 ∷ codes transfer_id)

module _ (aead : Aead) where
  abbrev pub hit_or_new : KeyCache → List ℕ → List ℕ → Option (List ℕ) → List ℕ × KeyCache
  hit_or_new cache k fresh (some key) = (key, cache)
  hit_or_new cache k fresh none = (fresh, (k, fresh) ∷ cache)

  unfoldable pub derive_transfer_key : String → String → KeyCache → List ℕ × KeyCache
  unfolding find_key cache_key transfer_key
  derive_transfer_key pairing_secret transfer_id cache =
      hit_or_new cache (cache_key pairing_secret transfer_id)
        (transfer_key aead pairing_secret transfer_id)
        (find_key (cache_key pairing_secret transfer_id) cache)

  -- The keys that calls get, one after the other, from a cache that is empty at first.
  unfoldable pub derive_all : List (String × String) → KeyCache → List (List ℕ)
  derive_all [] cache = []
  derive_all ((pairing_secret, transfer_id) ∷ rest) cache =
      let (key, cache') = derive_transfer_key pairing_secret transfer_id cache in
      key ∷ derive_all rest cache'

-- No code point of an identifier is zero.
abbrev pub has_no_zero : String → Bool
has_no_zero text = not (any (λ c. c == 0) (codes text))

list_eq-eq : (xs ys : List ℕ) → list_eq ◌==◌ xs ys ≡ true → xs ≡ ys
list_eq-eq [] [] h = refl
list_eq-eq [] (y ∷ ys) h = absurd (cc h)
list_eq-eq (x ∷ xs) [] h = absurd (cc h)
list_eq-eq (x ∷ xs) (y ∷ ys) h = ground (arith, list_eq-eq xs ys)

has_zero : (c d b : List ℕ) → any (λ n. n == 0) b ≡ false → b ≡ c ++ (0 ∷ d) → ⊥
has_zero [] d b h e = ground arith
has_zero (y ∷ c) d [] h e = cc e
has_zero (y ∷ c) d (x ∷ b) h e = has_zero c d b (ground arith) (ground arith)

-- Where only the text behind the separator is free of zeros, the last zero separates.
split_unique :
    (a b c d : List ℕ)
    → any (λ n. n == 0) b ≡ false
    → any (λ n. n == 0) d ≡ false
    → a ++ (0 ∷ b) ≡ c ++ (0 ∷ d)
    → (a ≡ c) × (b ≡ d)
split_unique [] b [] d h k e = (refl, ground arith)
split_unique [] b (y ∷ c) d h k e = absurd (has_zero c d b h (ground arith))
split_unique (x ∷ a) b [] d h k e = absurd (has_zero a b d k (ground arith))
split_unique (x ∷ a) b (y ∷ c) d h k e =
    let (p, q) = split_unique a b c d h k (ground arith) in (ground arith, q)

module _ (aead : Aead) where
  -- Every entry is the key that its secret and identifier derive.
  abbrev IsEntry : List ℕ × List ℕ → Type 0
  IsEntry (k, key) =
      (secret : String) × (id : String) × (has_no_zero id ≡ true)
      × (k ≡ cache_key secret id)
      × (key ≡ transfer_key aead secret id)

  found_key :
      (cache : KeyCache) (secret id : String) (key : List ℕ)
      → has_no_zero id ≡ true
      → All IsEntry cache
      → find_key (cache_key secret id) cache ≡ some key
      → key ≡ transfer_key aead secret id
  unfolding find_key cache_key transfer_key
  found_key [] secret id key h a e = absurd (cc e)
  found_key ((j, k) ∷ cache) secret id key h (entry, a) e =
      elim (Bool-cases (list_eq ◌==◌ j (cache_key secret id))) [
        | inr miss ↦ found_key cache secret id key h a (rw miss at e)
        | inl hit ↦
            let (secret', id', free, named, made) = entry in
            let (same_secret, same_id) =
              split_unique (codes secret') (codes id') (codes secret) (codes id) (ground arith)
                (ground arith) (sym named ∙ list_eq-eq j _ hit) in
            let same : k ≡ key = cc (rw hit at e) in
            sym same ∙ made ∙ rw (transfer_key, same_secret, same_id)
      ]

  derive_all-cached :
      (calls : List (String × String)) (cache : KeyCache)
      → All (λ call. has_no_zero call.1 ≡ true) calls
      → All IsEntry cache
      → derive_all aead calls cache ≡ map (λ call. transfer_key aead call.0 call.1) calls
  unfolding derive_all derive_transfer_key
  derive_all-cached [] cache h a = refl
  derive_all-cached ((secret, id) ∷ calls) cache (h, hs) a =
      elim (Option-cases (find_key (cache_key secret id) cache)) [
        | inl e ↦ rw (
          e,
          derive_all-cached calls ((cache_key secret id, transfer_key aead secret id) ∷ cache) hs
              ((secret, id, h, refl, refl), a),
        )
        | inr (key, e) ↦
            rw (e, found_key cache secret id key h a e, derive_all-cached calls cache hs a)
      ]

  -- Calls for identifiers without a zero character get from the cache, which is empty at first, the
  -- keys that the derivation alone gives for their secrets and identifiers.
  pub derive_all-transfer_key :
      (calls : List (String × String))
      → All (λ call. has_no_zero call.1 ≡ true) calls
      → derive_all aead calls [] ≡ map (λ call. transfer_key aead call.0 call.1) calls
  derive_all-transfer_key calls h = derive_all-cached calls [] h tt
