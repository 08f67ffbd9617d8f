-- ===== src/Wire/Encode.antt =====
-- A typed offer of src/shared/wire.ts as the object that its guards read.
use vidyut.Prelude.{ℕ, String, List, [], ◌∷◌, map, Option, none, some}
use vidyut.Wire.Types.{
  Span, Attempt, TransferTimingSummary, TransferFileOffer, TransferOffer, TransferDirection,
}
use vidyut.Wire.Number.{natural}
use vidyut.Wire.Json.{Json, Fields, end, field, num, str, bool, arr, obj, to_items}

abbrev pub nat_json : ℕ → Json
nat_json n = num (natural n)

-- `...(x === undefined ? {} : { [key]: x })`
abbrev pub optional_field {ℓ} : {A : Type ℓ} → String → (A → Json) → Option A → Fields → Fields
optional_field key encode none rest = rest
optional_field key encode (some a) rest = field key (encode a) rest

abbrev pub span_json : Span → Json
span_json s =
    obj (field "startMs" (nat_json s.start_ms) (optional_field "endMs" nat_json s.end_ms end))

abbrev pub stages_fields : List (String × Span) → Fields
stages_fields [] = end
stages_fields ((k, s) ∷ rest) = field k (span_json s) (stages_fields rest)

abbrev pub attempt_json : Attempt → Json
attempt_json a =
    obj (field "attempt" (nat_json a.attempt) (field "stages" (obj (stages_fields a.stages)) end))

abbrev pub timing_summary_json : TransferTimingSummary → Json
timing_summary_json t = obj (
    field "v" (nat_json 1) (
      field "wallAnchorMs" (nat_json t.wall_anchor_ms) (
        optional_field "offerWallMs" nat_json t.offer_wall_ms (
          optional_field "acceptWallMs" nat_json t.accept_wall_ms
            (field "attempts" (arr (to_items (map attempt_json t.attempts))) end)))))

abbrev pub file_offer_json : TransferFileOffer → Json
file_offer_json f = obj (
    field "fileId" (str f.file_id) (
      field "filename" (str f.filename) (
        field "mime" (str f.mime) (
          field "size" (nat_json f.size) (
            field "lastModifiedMs" (nat_json f.last_modified_ms) (
              optional_field "lastModifiedKnown" bool f.last_modified_known (
                field "sha256" (str f.sha256) (
                  optional_field "senderTiming" timing_summary_json f.sender_timing
                    (optional_field "folder" str f.folder end)))))))))

abbrev pub direction_text : TransferDirection → String
direction_text TransferDirection.laptop_to_phone = "laptop_to_phone"
direction_text TransferDirection.phone_to_laptop = "phone_to_laptop"

unfoldable pub offer_json : TransferOffer → Json
offer_json o = obj (
    field "transferId" (str o.transfer_id) (
      field "batchId" (str o.batch_id) (
        field "origin" (str o.origin) (
          field "direction" (str (direction_text o.direction)) (
            field "createdAtMs" (nat_json o.created_at_ms)
              (field "files" (arr (to_items (map file_offer_json o.files))) end))))))
