-- ===== src/Seal.antt =====
-- The sealed control session of src/shared/session-seal.ts. Bytes are natural numbers below 256.
-- AES-256-GCM, base64 and JSON are parameters.
pub mod Nonces
pub mod Session
pub mod Replay
mod Tests
use vidyut.Prelude.{
  ℕ, zero, suc, ◌+◌, ◌/◌, ◌%◌, String, Bool, not, List, [], ◌∷◌, Option, none, some, Result, ok,
  err, ltb, ◌==◌, length, list_eq, if◌then◌else◌,
}
use vidyut.Wire.Messages.{RelayMessage, SealedMessage}

pub data SealDirection : Type 0 where
  relay_to_phone phone_to_relay : SealDirection

unfoldable pub direction_byte : SealDirection → ℕ
direction_byte SealDirection.relay_to_phone = 0
direction_byte SealDirection.phone_to_relay = 1

abbrev pub other_direction : SealDirection → SealDirection
other_direction SealDirection.relay_to_phone = SealDirection.phone_to_relay
other_direction SealDirection.phone_to_relay = SealDirection.relay_to_phone

-- The messages of the exceptions, that of `writeBigUInt64BE` among them.
pub data SealError : Type 0 where
  counter_too_large out_of_sequence too_short not_authentic not_json : SealError

-- The lowest `k` bytes of a number, highest first, in front of `rest`: the last one is written first.
unfoldable pub big_endian : ℕ → ℕ → List ℕ → List ℕ
big_endian zero n rest = rest
big_endian (suc k) n rest = big_endian k (n / 256) (n % 256 ∷ rest)

-- 2 ^ 64
abbrev pub counter_limit : ℕ
counter_limit = 18_446_744_073_709_551_616

unfoldable pub seal_nonce : SealDirection → ℕ → Result SealError (List ℕ)
unfolding direction_byte big_endian
seal_nonce direction counter =
    if ltb counter counter_limit
    then ok (direction_byte direction ∷ 0 ∷ 0 ∷ 0 ∷ big_endian 8 counter [])
    else err SealError.counter_too_large

-- `encrypt` gives the ciphertext with its tag of 16 bytes, `decrypt` fails where the tag is wrong.
pub record Codec : Type 0 where
  pub encrypt : String → List ℕ → String → List ℕ
  pub decrypt : String → List ℕ → List ℕ → Option String
  pub to_base64 : List ℕ → String
  pub from_base64 : String → List ℕ
  pub stringify : RelayMessage → String
  pub parse : String → Option RelayMessage

pub record SessionSealer : Type 0 where
  pub key : String
  pub send_direction : SealDirection
  pub sent : ℕ
  pub received : ℕ

abbrev pub new_sealer : String → SealDirection → SessionSealer
new_sealer key send_direction = record {
  key = key;
  send_direction = send_direction;
  sent = 0;
  received = 0;
}

abbrev pub receive_direction : SessionSealer → SealDirection
receive_direction s = other_direction s.send_direction

abbrev pub parsed : Option RelayMessage → Result SealError RelayMessage
parsed none = err SealError.not_json
parsed (some m) = ok m

module _ (codec : Codec) where
  abbrev pub sealed_under : SessionSealer → RelayMessage → List ℕ → SealedMessage
  sealed_under s m nonce = record {
    nonce = codec.to_base64 nonce;
    payload = codec.to_base64 (codec.encrypt s.key nonce (codec.stringify m));
  }

  unfoldable pub seal :
      SessionSealer → RelayMessage → SessionSealer × Result SealError SealedMessage
  unfolding seal_nonce
  seal s m = elim (seal_nonce s.send_direction s.sent) [
    | err e ↦ (s, err e)
    | ok nonce ↦ (record s { sent = s.sent + 1 }, ok (sealed_under s m nonce))
  ]

  -- The counter moves before `JSON.parse`, which may still throw.
  abbrev pub open_under :
      SessionSealer → SealedMessage → List ℕ → SessionSealer × Result SealError RelayMessage
  open_under s m expected =
      if not (list_eq ◌==◌ (codec.from_base64 m.nonce) expected)
      then (s, err SealError.out_of_sequence)
      else if ltb (length (codec.from_base64 m.payload)) 16
      then (s, err SealError.too_short)
      else elim (codec.decrypt s.key expected (codec.from_base64 m.payload)) [
        | none ↦ (s, err SealError.not_authentic)
        | some text ↦ (record s { received = s.received + 1 }, parsed (codec.parse text))
      ]

  unfoldable pub open_sealed :
      SessionSealer → SealedMessage → SessionSealer × Result SealError RelayMessage
  unfolding seal_nonce
  open_sealed s m = elim (seal_nonce (receive_direction s) s.received) [
    | err e ↦ (s, err e)
    | ok expected ↦ open_under s m expected
  ]
