-- ===== src/Wire/Types.antt =====
-- The transfer part of src/shared/wire.ts: offers, timing summaries, control messages.
-- Byte counts and clock readings are natural numbers; an optional field is an `Option`.
use vidyut.Prelude.{ℕ, String, Bool, List, Option}

-- `Number.MAX_SAFE_INTEGER`
abbrev pub max_safe_integer : ℕ
max_safe_integer = 9_007_199_254_740_991

pub data TransferDirection : Type 0 where
  laptop_to_phone phone_to_laptop : TransferDirection

-- One stage of an attempt: `{ startMs, endMs? }`.
pub record Span : Type 0 where
  pub start_ms : ℕ
  pub end_ms : Option ℕ

-- `stages` is a dictionary from the stage's name, in the order of insertion.
pub record Attempt : Type 0 where
  pub attempt : ℕ
  pub stages : List (String × Span)

pub record TransferTimingSummary : Type 0 where
  pub wall_anchor_ms : ℕ
  pub offer_wall_ms : Option ℕ
  pub accept_wall_ms : Option ℕ
  pub attempts : List Attempt

pub record TransferFileOffer : Type 0 where
  pub file_id : String
  pub filename : String
  pub mime : String
  pub size : ℕ
  pub last_modified_ms : ℕ
  pub last_modified_known : Option Bool
  pub sha256 : String
  pub sender_timing : Option TransferTimingSummary
  pub folder : Option String

pub record TransferOffer : Type 0 where
  pub transfer_id : String
  pub batch_id : String
  pub origin : String
  pub direction : TransferDirection
  pub created_at_ms : ℕ
  pub files : List TransferFileOffer

pub data TransferControlMessage : Type 0 where
  transfer_offer : TransferOffer → TransferControlMessage
  -- transferId, fileId, confirmedOffset, maxChunkBytes
  transfer_accept : String → String → ℕ → Option ℕ → TransferControlMessage
  -- transferId, fileId, confirmedOffset
  transfer_progress : String → String → ℕ → TransferControlMessage
  -- transferId, fileId
  transfer_pause transfer_resume transfer_cancel : String → Option String → TransferControlMessage
  -- transferId, fileId, sha256
  transfer_file_complete : String → String → String → TransferControlMessage
  -- transferId, fileId, code
  transfer_file_failed : String → String → String → TransferControlMessage

-- `"0".repeat(64)`
abbrev pub unknown_transfer_sha256 : String
unknown_transfer_sha256 = "0000000000000000000000000000000000000000000000000000000000000000"
