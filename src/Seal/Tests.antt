-- ===== src/Seal/Tests.antt =====
-- Concrete runs of src/shared/session-seal.ts, with a codec of unary numbers for base64.
use vidyut.Prelude.{ℕ, ◌≡◌, refl, List, [], ◌∷◌, map, some, ok, err, true, arith}
use vidyut.Wire.Patterns.{codes}
use vidyut.Wire.Unary.{write, read, read-write}
use vidyut.Wire.Messages.{RelayMessage, SealedMessage}
use vidyut.Seal.{
  Codec, SealDirection, SealError, SessionSealer, new_sealer, open_sealed, seal, seal_nonce,
  direction_byte, big_endian, sealed_under,
}
use vidyut.Seal.Nonces.{seal_nonce-injective}
use vidyut.Seal.Session.{
  Decodes, Handles, IsPeer, seal_all, open_all, seal_all-open_all, more_received,
}
use vidyut.Seal.Replay.{open_sealed-once, open_sealed-reflected}

abbrev message : RelayMessage
message = RelayMessage.telemetry_subscribe true

abbrev codec : Codec
codec = record {
  encrypt = λ key nonce text. 0 ∷ 0 ∷ 0 ∷ 0 ∷ 0 ∷ 0 ∷ 0 ∷ 0 ∷ 0 ∷ 0 ∷ 0 ∷ 0 ∷ 0 ∷ 0 ∷ 0 ∷ 0 ∷ [];
  decrypt = λ key nonce bytes. some "m";
  to_base64 = write;
  from_base64 = λ s. read (codes s) 0;
  stringify = λ m. "m";
  parse = λ t. some message;
}

codec-Decodes : Decodes codec
codec-Decodes = read-write

message-Handles : Handles codec message
message-Handles = record {
  decrypts = λ key nonce. refl;
  has_tag = λ key nonce. refl;
  parses = refl;
}

abbrev relay : SessionSealer
relay = new_sealer "key" SealDirection.relay_to_phone

abbrev phone : SessionSealer
phone = new_sealer "key" SealDirection.phone_to_relay

relay-IsPeer : IsPeer relay phone
relay-IsPeer = record { same_key = refl; directions = refl; in_step = refl }

seal_all-open_all_example :
    (xs : List SealedMessage) × (seal_all codec relay (message ∷ message ∷ []) ≡ map ok xs)
    × (open_all codec phone xs ≡ map ok (message ∷ message ∷ []))
seal_all-open_all_example =
    seal_all-open_all codec codec-Decodes (message ∷ message ∷ []) relay phone
      (message-Handles, (message-Handles, tt)) relay-IsPeer (omega arith)

abbrev first_nonce : List ℕ
first_nonce = 0 ∷ 0 ∷ 0 ∷ 0 ∷ 0 ∷ 0 ∷ 0 ∷ 0 ∷ 0 ∷ 0 ∷ 0 ∷ 0 ∷ []

first_made : seal_nonce SealDirection.relay_to_phone 0 ≡ ok first_nonce
unfolding seal_nonce direction_byte big_endian
first_made = refl

abbrev counter : ℕ
counter = 0

seal_nonce-injective_example :
    (SealDirection.relay_to_phone ≡ SealDirection.relay_to_phone) × (counter ≡ counter)
seal_nonce-injective_example =
    seal_nonce-injective SealDirection.relay_to_phone SealDirection.relay_to_phone counter counter
      first_nonce first_made first_made

abbrev first_sealed : SealedMessage
first_sealed = sealed_under codec relay message first_nonce

first_opens : open_sealed codec phone first_sealed ≡ (more_received phone, ok message)
unfolding open_sealed seal_nonce direction_byte big_endian
first_opens = refl

open_sealed-once_example :
    open_sealed codec (more_received phone) first_sealed
    ≡ (more_received phone, err SealError.out_of_sequence)
open_sealed-once_example =
    open_sealed-once codec phone (more_received phone) first_sealed message [] first_opens
      (omega arith)

open_sealed-reflected_example :
    (x : SealedMessage) × ((seal codec relay message).1 ≡ ok x)
    × (open_sealed codec relay x ≡ (relay, err SealError.out_of_sequence))
open_sealed-reflected_example =
    open_sealed-reflected codec relay relay message codec-Decodes (omega arith) refl (omega arith)
