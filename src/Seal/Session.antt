-- ===== src/Seal/Session.antt =====
-- Both ends of a session of src/shared/session-seal.ts.
use vidyut.Prelude.{
  ℕ, ◌+◌, ◌≤◌, ◌<◌, ◌≡◌, refl, ap, ◌∙◌, String, true, false, List, [], ◌∷◌, some, arith, Result, ok,
  ltb, ◌==◌, length, map, All, list_eq, list_eq_refl, nat_eq_refl,
}
use vidyut.Wire.Messages.{RelayMessage, SealedMessage}
use vidyut.Seal.{
  SealDirection, SealError, Codec, SessionSealer, receive_direction, seal, open_sealed,
  direction_byte, big_endian, open_under, sealed_under, seal_nonce, counter_limit,
}

-- What the documents of AES-GCM and JSON say of a message: its text decrypts under the key and the
-- nonce that it was encrypted with, behind a tag of 16 bytes, and parses to the message.
pub record Handles (codec : Codec) (m : RelayMessage) : Type 0 where
  pub decrypts :
      (key : String) (nonce : List ℕ)
      → codec.decrypt key nonce (codec.encrypt key nonce (codec.stringify m))
        ≡ some (codec.stringify m)
  pub has_tag :
      (key : String) (nonce : List ℕ)
      → ltb (length (codec.encrypt key nonce (codec.stringify m))) 16 ≡ false
  pub parses : codec.parse (codec.stringify m) ≡ some m

-- Base64 decodes what it encoded.
abbrev pub Decodes : Codec → Type 0
Decodes codec = (bytes : List ℕ) → codec.from_base64 (codec.to_base64 bytes) ≡ bytes

-- `r` opens what `s` seals next.
pub record IsPeer (s r : SessionSealer) : Type 0 where
  pub same_key : r.key ≡ s.key
  pub directions : receive_direction r ≡ s.send_direction
  pub in_step : r.received ≡ s.sent

abbrev pub more_sent : SessionSealer → SessionSealer
more_sent s = record s { sent = s.sent + 1 }

abbrev pub more_received : SessionSealer → SessionSealer
more_received r = record r { received = r.received + 1 }

IsPeer-more : (s r : SessionSealer) → IsPeer s r → IsPeer (more_sent s) (more_received r)
IsPeer-more s r p = record {
  same_key = p.same_key;
  directions = p.directions;
  in_step = ap (λ n. n + 1) p.in_step;
}

pub nonce_exists :
    (d : SealDirection) (c : ℕ) → c < counter_limit → (nonce : List ℕ) × (seal_nonce d c ≡ ok nonce)
unfolding seal_nonce
nonce_exists d c h =
    let small : ltb c counter_limit ≡ true = ground arith in
    (direction_byte d ∷ 0 ∷ 0 ∷ 0 ∷ big_endian 8 c [], rw small refl)

pub list_eq-eq : (xs ys : List ℕ) → list_eq ◌==◌ xs ys ≡ true → xs ≡ ys
list_eq-eq [] [] h = refl
list_eq-eq (x ∷ xs) (y ∷ ys) h =
    let same : x ≡ y = ground arith in
    let rest : xs ≡ ys = list_eq-eq xs ys (ground arith) in rw (same, rest)
list_eq-eq [] (y ∷ ys) h = absurd (cc h)
list_eq-eq (x ∷ xs) [] h = absurd (cc h)

module _ (codec : Codec) where
  pub seal_under :
      (s : SessionSealer) (m : RelayMessage) (nonce : List ℕ)
      → seal_nonce s.send_direction s.sent ≡ ok nonce
      → seal codec s m ≡ (more_sent s, ok (sealed_under codec s m nonce))
  unfolding seal
  seal_under s m nonce h = rw (h, seal) refl

  pub open_with :
      (r : SessionSealer) (x : SealedMessage) (nonce : List ℕ)
      → seal_nonce (receive_direction r) r.received ≡ ok nonce
      → open_sealed codec r x ≡ open_under codec r x nonce
  unfolding open_sealed
  open_with r x nonce h = rw (h, open_sealed) refl

  abbrev pub seal_all : SessionSealer → List RelayMessage → List (Result SealError SealedMessage)
  seal_all s [] = []
  seal_all s (m ∷ ms) = (seal codec s m).1 ∷ seal_all (seal codec s m).0 ms

  abbrev pub open_all : SessionSealer → List SealedMessage → List (Result SealError RelayMessage)
  open_all r [] = []
  open_all r (x ∷ xs) = (open_sealed codec r x).1 ∷ open_all (open_sealed codec r x).0 xs

  abbrev pub opened_all : SessionSealer → List SealedMessage → SessionSealer
  opened_all r [] = r
  opened_all r (x ∷ xs) = opened_all (open_sealed codec r x).0 xs

  module _ (decodes : Decodes codec) where
    opens_sealed :
        (s r : SessionSealer) (m : RelayMessage) (nonce : List ℕ)
        → Handles codec m
        → r.key ≡ s.key
        → open_under codec r (sealed_under codec s m nonce) nonce ≡ (more_received r, ok m)
    opens_sealed s r m nonce handles same = rw (
      ← same,
      decodes nonce,
      decodes (codec.encrypt r.key nonce (codec.stringify m)),
      list_eq_refl ◌==◌ nat_eq_refl nonce,
      handles.has_tag r.key nonce,
      handles.decrypts r.key nonce,
      handles.parses,
    )

    -- Whatever one end seals opens at the other, the same messages in the same order, as long as
    -- the counter stays below 2 ^ 64.
    pub seal_all-open_all :
        (ms : List RelayMessage) (s r : SessionSealer)
        → All (Handles codec) ms
        → IsPeer s r
        → s.sent + length ms ≤ counter_limit
        → (xs : List SealedMessage) × (seal_all s ms ≡ map ok xs) × (open_all r xs ≡ map ok ms)
    seal_all-open_all [] s r a p h = ([], refl, refl)
    seal_all-open_all (m ∷ ms) s r a p h =
        let (nonce, e) = nonce_exists s.send_direction s.sent (omega arith) in
        let (xs, sealed, opened) =
          seal_all-open_all ms (more_sent s) (more_received r) a.1 (IsPeer-more s r p)
            (omega arith) in
        let x = sealed_under codec s m nonce in
        let opens =
          open_with r x nonce (rw (p.directions, p.in_step) e)
          ∙ opens_sealed s r m nonce a.0 p.same_key in
        (x ∷ xs, rw (seal_under s m nonce e, sealed), rw (opens, opened))
