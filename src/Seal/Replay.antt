-- ===== src/Seal/Replay.antt =====
-- Messages that come twice, or back to their sender, in src/shared/session-seal.ts.
use vidyut.Prelude.{
  ℕ, ◌+◌, ◌≤◌, ◌<◌, ◌≡◌, refl, ap, sym, ◌∙◌, false, List, [], ◌∷◌, arith, ok, err, ltb, ◌==◌,
  length, Bool-cases, Option-cases, inl, inr, list_eq, subst, ◌≢◌,
}
use vidyut.Wire.Messages.{RelayMessage, SealedMessage}
use vidyut.Seal.{
  SealDirection, SealError, Codec, SessionSealer, receive_direction, other_direction, seal,
  open_sealed, open_under, sealed_under, seal_nonce, counter_limit,
}
use vidyut.Seal.Nonces.{seal_nonce-injective}
use vidyut.Seal.Session.{
  Decodes, more_received, nonce_exists, list_eq-eq, seal_under, open_with, opened_all,
}

turns : (d : SealDirection) → other_direction d ≢ d
turns SealDirection.relay_to_phone e = absurd (cc e)
turns SealDirection.phone_to_relay e = absurd (cc e)

module _ (codec : Codec) where
  -- What an open that succeeds says of the nonce and of the counter.
  record Opened (r r' : SessionSealer) (x : SealedMessage) : Type 0 where
    nonce : List ℕ
    made : seal_nonce (receive_direction r) r.received ≡ ok nonce
    carried : codec.from_base64 x.nonce ≡ nonce
    counted : r' ≡ more_received r

  Opened-under :
      (r r' : SessionSealer) (x : SealedMessage) (m : RelayMessage) (nonce : List ℕ)
      → seal_nonce (receive_direction r) r.received ≡ ok nonce
      → open_under codec r x nonce ≡ (r', ok m)
      → Opened r r' x
  Opened-under r r' x m nonce e h =
      elim (Bool-cases (list_eq ◌==◌ (codec.from_base64 x.nonce) nonce)) [
        | inr other ↦ absurd (ground arith)
        | inl same ↦ elim (Bool-cases (ltb (length (codec.from_base64 x.payload)) 16)) [
          | inl short ↦ absurd (ground arith)
          | inr long ↦
              elim (Option-cases (codec.decrypt r.key nonce (codec.from_base64 x.payload))) [
                | inl bad ↦ absurd (ground arith)
                | inr (text, good) ↦ record {
                  nonce = nonce;
                  made = e;
                  carried = list_eq-eq _ _ same;
                  counted = cc (rw (same, long, good) at h);
                }
              ]
        ]
      ]

  Opened-Opened :
      (r r' : SessionSealer) (x : SealedMessage) (m : RelayMessage)
      → r.received < counter_limit
      → open_sealed codec r x ≡ (r', ok m)
      → Opened r r' x
  Opened-Opened r r' x m fits h =
      let (nonce, e) = nonce_exists (receive_direction r) r.received fits in
      Opened-under r r' x m nonce e (sym (open_with codec r x nonce e) ∙ h)

  refused_under :
      (r : SessionSealer) (x : SealedMessage) (nonce : List ℕ)
      → seal_nonce (receive_direction r) r.received ≡ ok nonce
      → codec.from_base64 x.nonce ≢ nonce
      → open_sealed codec r x ≡ (r, err SealError.out_of_sequence)
  refused_under r x nonce e other =
      elim (Bool-cases (list_eq ◌==◌ (codec.from_base64 x.nonce) nonce)) [
        | inl same ↦ absurd (other (list_eq-eq _ _ same))
        | inr differs ↦ open_with codec r x nonce e ∙ rw differs refl
      ]

  too_far :
      (d : SealDirection) (c : ℕ)
      → ltb c counter_limit ≡ false
      → seal_nonce d c ≡ err SealError.counter_too_large
  unfolding seal_nonce
  too_far d c h = rw h refl

  opened-fits :
      (r r' : SessionSealer) (x : SealedMessage) (m : RelayMessage)
      → open_sealed codec r x ≡ (r', ok m)
      → r.received < counter_limit
  unfolding open_sealed
  opened-fits r r' x m h = elim (Bool-cases (ltb r.received counter_limit)) [
    | inl fits ↦ ground arith
    | inr large ↦
        absurd (cc (rw (too_far (receive_direction r) r.received large, open_sealed) at h))
  ]

  -- A later state of an end: the direction stays, the counter does not go back.
  record Follows (r later : SessionSealer) : Type 0 where
    same_direction : later.send_direction ≡ r.send_direction
    no_earlier : r.received ≤ later.received

  under-Follows :
      (r : SessionSealer) (x : SealedMessage) (nonce : List ℕ)
      → Follows r (open_under codec r x nonce).0
  under-Follows r x nonce = elim (Bool-cases (list_eq ◌==◌ (codec.from_base64 x.nonce) nonce)) [
    | inr other ↦ rw other (record { same_direction = refl; no_earlier = omega arith })
    | inl same ↦ elim (Bool-cases (ltb (length (codec.from_base64 x.payload)) 16)) [
      | inl short ↦ rw (same, short) (record { same_direction = refl; no_earlier = omega arith })
      | inr long ↦ elim (Option-cases (codec.decrypt r.key nonce (codec.from_base64 x.payload))) [
        | inl bad ↦
            rw (same, long, bad) (record { same_direction = refl; no_earlier = omega arith })
        | inr (text, good) ↦
            rw (same, long, good) (record { same_direction = refl; no_earlier = omega arith })
      ]
    ]
  ]

  open-Follows : (r : SessionSealer) (x : SealedMessage) → Follows r (open_sealed codec r x).0
  unfolding open_sealed
  open-Follows r x = elim (Bool-cases (ltb r.received counter_limit)) [
    | inr large ↦
        rw (too_far (receive_direction r) r.received large, open_sealed)
          (record { same_direction = refl; no_earlier = omega arith })
    | inl small ↦
        let (nonce, e) = nonce_exists (receive_direction r) r.received (ground arith) in
        subst (λ o. Follows r o.0) (sym (open_with codec r x nonce e)) (under-Follows r x nonce)
  ]

  opened_all-Follows :
      (r : SessionSealer) (xs : List SealedMessage) → Follows r (opened_all codec r xs)
  opened_all-Follows r [] = record { same_direction = refl; no_earlier = omega arith }
  opened_all-Follows r (x ∷ xs) =
      let f = open-Follows r x in
      let g = opened_all-Follows (open_sealed codec r x).0 xs in
      record {
        same_direction = g.same_direction ∙ f.same_direction;
        no_earlier = omega (arith, f.no_earlier, g.no_earlier);
      }

  -- A message that has been opened never opens again: whatever arrived in between, a replay is out of
  -- sequence and changes nothing, as long as the counter is below 2 ^ 64.
  pub open_sealed-once :
      (r r' : SessionSealer) (x : SealedMessage) (m : RelayMessage) (xs : List SealedMessage)
      → open_sealed codec r x ≡ (r', ok m)
      → (opened_all codec r' xs).received < counter_limit
      → open_sealed codec (opened_all codec r' xs) x
        ≡ (opened_all codec r' xs, err SealError.out_of_sequence)
  open_sealed-once r r' x m xs h fits =
      let o = Opened-Opened r r' x m (opened-fits r r' x m h) h in
      let f = opened_all-Follows r' xs in
      let later = opened_all codec r' xs in
      let (nonce, e) = nonce_exists (receive_direction later) later.received fits in
      let counted : r'.received ≡ r.received + 1 = ap (λ s. s.received) o.counted in
      refused_under later x nonce e λ same.
        let (_, counters) =
          seal_nonce-injective (receive_direction later) (receive_direction r) later.received
            r.received nonce e (o.made ∙ ap ok (sym o.carried ∙ same)) in
        omega (arith, f.no_earlier, counted, counters)

  -- A message that an end has sealed is not opened by that end, at whatever counter it stands: what
  -- is sent back to its sender is out of sequence.
  pub open_sealed-reflected :
      (s later : SessionSealer) (m : RelayMessage)
      → Decodes codec
      → s.sent < counter_limit
      → later.send_direction ≡ s.send_direction
      → later.received < counter_limit
      → (x : SealedMessage) × ((seal codec s m).1 ≡ ok x)
        × (open_sealed codec later x ≡ (later, err SealError.out_of_sequence))
  open_sealed-reflected s later m decodes sends same fits =
      let (sent, made) = nonce_exists s.send_direction s.sent sends in
      let (nonce, e) = nonce_exists (receive_direction later) later.received fits in
      (
        sealed_under codec s m sent,
        ap (λ o. o.1) (seal_under codec s m sent made),
        refused_under later _ nonce e λ back.
            let (turned, _) =
              seal_nonce-injective (receive_direction later) s.send_direction later.received s.sent
                nonce e (made ∙ ap ok (sym (decodes sent) ∙ back)) in
            turns (s.send_direction) (sym (ap other_direction same) ∙ turned),
      )
