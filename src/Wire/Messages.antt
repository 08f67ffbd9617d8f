-- ===== src/Wire/Messages.antt =====
-- The messages between the relay and a phone, of src/shared/wire.ts.
use vidyut.Prelude.{ℕ, String, Bool, true, false, List, Option}
use vidyut.Wire.Types.{TransferControlMessage}
use vidyut.Wire.Number.{Number}
use vidyut.Wire.Frames.{PayloadFrame}
use vidyut.Wire.Browse.{BrowseRequest}

pub data ClipboardStatus : Type 0 where
  starting healthy degraded disabled : ClipboardStatus

pub record ClipboardHealth : Type 0 where
  pub enabled : Bool
  pub status : ClipboardStatus
  pub watcher : Option String
  pub error : Option String
  pub paused : Option Bool
  pub paused_until : Option ℕ

-- `status: "ok" | "degraded"`
pub record RelayHealth : Type 0 where
  pub is_degraded : Bool
  pub relay_name : String
  pub clipboard : Option ClipboardHealth

pub data BatteryState : Type 0 where
  charging on_battery plugged_in : BatteryState

-- A reading that is `null` is `none`.
pub record LaptopTelemetry : Type 0 where
  pub ts : Number
  pub battery_percent : Option Number
  pub battery_state : Option BatteryState
  pub memory_used_bytes : Option Number
  pub memory_total_bytes : Option Number
  pub storage_used_bytes : Option Number
  pub storage_total_bytes : Option Number
  pub cpu_usage_percent : Option Number
  pub cpu_temperature_celsius : Option Number

pub record BrowseRoot : Type 0 where
  pub id : String
  pub name : String

-- `size` is absent for folders.
pub record BrowseEntry : Type 0 where
  pub name : String
  pub is_folder : Bool
  pub size : Option ℕ
  pub modified_ms : Number

pub record BrowseMatch : Type 0 where
  pub entry : BrowseEntry
  pub root : String
  pub path : String

pub data BrowseAnswer : Type 0 where
  roots : List BrowseRoot → BrowseAnswer
  -- entries, truncated
  entries : List BrowseEntry → Bool → BrowseAnswer
  -- files, bytes
  queued : ℕ → ℕ → BrowseAnswer
  -- mime, data
  thumb : String → String → BrowseAnswer
  -- matches, truncated
  matches : List BrowseMatch → Bool → BrowseAnswer
  -- code, message
  refused : String → String → BrowseAnswer

pub record SealedMessage : Type 0 where
  pub nonce : String
  pub payload : String

pub data RelayMessage : Type 0 where
  -- challenge, maxPayloadBytes, features
  hello : String → ℕ → Option (List String) → RelayMessage
  -- deviceId, proof, clientChallenge, features
  auth : String → String → Option String → Option (List String) → RelayMessage
  -- health, relayProof, features
  auth_ok : Option RelayHealth → Option String → Option (List String) → RelayMessage
  health : RelayHealth → RelayMessage
  telemetry : LaptopTelemetry → RelayMessage
  -- frame, sentAt
  publish : PayloadFrame → Option Number → RelayMessage
  payload : PayloadFrame → RelayMessage
  -- ts, stale
  ack : Number → Bool → RelayMessage
  transfer_control : TransferControlMessage → RelayMessage
  telemetry_subscribe : Bool → RelayMessage
  browse_request : BrowseRequest → RelayMessage
  -- requestId, answer
  browse_result : String → BrowseAnswer → RelayMessage
  sealed : SealedMessage → RelayMessage
  -- code, message
  error : String → String → RelayMessage

-- `travelsUnsealed` of src/shared/session-seal.ts
unfoldable pub travels_unsealed : RelayMessage → Bool
travels_unsealed (RelayMessage.publish frame sent_at) = true
travels_unsealed (RelayMessage.payload frame) = true
travels_unsealed _ = false
