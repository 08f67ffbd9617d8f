-- ===== src/Wire/Frames.antt =====
-- Payload frames of src/shared/wire.ts: their type, `isPayloadFrame`, `encodedPayloadBytes`.
use vidyut.Prelude.{ℕ, ◌+◌, String, Bool, true, false, ◌&&◌, ◌||◌, Option, none, some, str_eq}
use vidyut.Wire.Number.{Number, is_finite}
use vidyut.Wire.Json.{Json, Fields, get, as_object, as_string, as_number, test, optional}
use vidyut.Wire.Guards.{is_text, is_version_one}

pub data PayloadType : Type 0 where
  image text link : PayloadType

pub record PayloadAlternative : Type 0 where
  pub mime : String
  pub nonce : String
  pub payload : String

-- `ts` is any finite number.
pub record PayloadFrame : Type 0 where
  pub type : PayloadType
  pub mime : String
  pub origin : String
  pub ts : Number
  pub nonce : String
  pub payload : String
  pub alt : Option PayloadAlternative

abbrev pub is_link : PayloadType → Bool
is_link PayloadType.link = true
is_link _ = false

-- `value === text`
abbrev pub is_the_text : String → Option Json → Bool
is_the_text s j = test (λ x. str_eq x s) (as_string j)

abbrev pub is_payload_type : Option Json → Bool
is_payload_type j = is_the_text "image" j || is_the_text "text" j || is_the_text "link" j

unfoldable pub alternative_fields : Fields → Bool
alternative_fields fs =
    is_the_text "text/html" (get "mime" fs)
    && (is_text (get "nonce" fs) && is_text (get "payload" fs))

abbrev pub is_payload_alternative : Option Json → Bool
is_payload_alternative j = test (λ x. test alternative_fields (as_object x)) j

unfoldable pub frame_fields : Fields → Bool
frame_fields fs =
    is_version_one (get "v" fs)
    && (is_payload_type (get "type" fs)
        && (is_text (get "mime" fs)
            && (is_text (get "origin" fs)
                && (test is_finite (as_number (get "ts" fs))
                    && (is_text (get "nonce" fs)
                        && (is_text (get "payload" fs)
                            && optional is_payload_alternative (get "alt" fs)))))))

unfoldable pub is_payload_frame : Json → Bool
is_payload_frame j = test frame_fields (as_object j)

-- `Buffer.from(text, "base64").byteLength` is a parameter.
unfoldable pub encoded_payload_bytes : (String → ℕ) → PayloadFrame → ℕ
encoded_payload_bytes base64_bytes f = elim f.alt [
  | none ↦ base64_bytes f.payload
  | some alt ↦ base64_bytes f.payload + base64_bytes alt.payload
]
