-- ===== src/Plane/Sessions.antt =====
-- `ReceiverProgressSession` and `ReceiverProgressSessions` of src/transfer/laptop-data-plane.ts. The
-- locks of `runExclusive` make the requests on one file one after the other.
use Prim.Native.String.{◌++◌}
use vidyut.Prelude.{
  ℕ, ◌+◌, ◌*◌, String, Bool, ◌||◌, List, [], ◌∷◌, Option, none, some, leb, ltb, if◌then◌else◌,
  str_eq,
}
use vidyut.Queue.Types.{TransferFileRecord}
use vidyut.Queue.Timing.{lookup}

-- An option that is left out has its default.
pub record ReceiverProgressPolicy : Type 0 where
  pub checkpoint_bytes : Option ℕ
  pub checkpoint_interval_ms : Option ℕ
  pub publish_interval_ms : Option ℕ

pub record Session : Type 0 where
  pub checkpoint_bytes : ℕ
  pub checkpoint_interval_ms : ℕ
  pub publish_interval_ms : ℕ
  pub accepted_offset : ℕ
  pub durable_offset : ℕ
  pub last_checkpoint_at : ℕ
  pub last_published_at : ℕ

abbrev pub or_default : Option ℕ → ℕ → ℕ
or_default none d = d
or_default (some n) d = n

unfoldable pub new_session : ReceiverProgressPolicy → ℕ → TransferFileRecord → Session
new_session policy now r = record {
  checkpoint_bytes = or_default policy.checkpoint_bytes (4 * 1024 * 1024);
  checkpoint_interval_ms = or_default policy.checkpoint_interval_ms 1_000;
  publish_interval_ms = or_default policy.publish_interval_ms 1_000;
  accepted_offset = r.confirmed_offset;
  durable_offset = r.confirmed_offset;
  last_checkpoint_at = now;
  last_published_at = now;
}

-- `offset - durableOffset >= checkpointBytes || now - lastCheckpointAt >= checkpointIntervalMs`
unfoldable pub should_checkpoint : ℕ → ℕ → Session → Bool
should_checkpoint offset now s =
    leb (s.durable_offset + s.checkpoint_bytes) offset
    || leb (s.last_checkpoint_at + s.checkpoint_interval_ms) now

unfoldable pub should_publish : ℕ → Bool → Session → Bool
should_publish now immediate s = immediate || leb (s.last_published_at + s.publish_interval_ms) now

unfoldable pub mark_accepted : ℕ → Session → Session
mark_accepted offset s = record s { accepted_offset = offset }

unfoldable pub mark_checkpoint : ℕ → ℕ → Session → Session
mark_checkpoint offset now s = record s {
  accepted_offset = offset;
  durable_offset = offset;
  last_checkpoint_at = now;
}

unfoldable pub mark_published : ℕ → Session → Session
mark_published now s = record s { last_published_at = now }

unfoldable pub progress_key : String → String → String
progress_key transfer_id file_id = transfer_id ++ ":" ++ file_id

abbrev pub or_else : Option Session → Session → Session
or_else none s = s
or_else (some found) s = found

-- A record that confirms more than the session has accepted moves both offsets up.
unfoldable pub raised : TransferFileRecord → Session → Session
raised r s =
    if ltb s.accepted_offset r.confirmed_offset
    then record s { accepted_offset = r.confirmed_offset; durable_offset = r.confirmed_offset }
    else s

unfoldable pub session_for :
    ReceiverProgressPolicy → ℕ → String → TransferFileRecord → List (String × Session) → Session
unfolding progress_key raised new_session
session_for policy now transfer_id r sessions =
    raised r
      (or_else (lookup (progress_key transfer_id r.file_id) sessions) (new_session policy now r))

abbrev pub accepted_or : Option Session → ℕ → ℕ
accepted_or none fallback = fallback
accepted_or (some s) fallback = s.accepted_offset

unfoldable pub live_accepted_offset : String → String → ℕ → List (String × Session) → ℕ
unfolding progress_key
live_accepted_offset transfer_id file_id fallback sessions =
    accepted_or (lookup (progress_key transfer_id file_id) sessions) fallback

-- `sessions.delete(key)`
unfoldable pub forget : String → List (String × Session) → List (String × Session)
forget key [] = []
forget key ((j, s) ∷ rest) = if str_eq j key then rest else (j, s) ∷ forget key rest

unfoldable pub clear : String → String → List (String × Session) → List (String × Session)
unfolding forget progress_key
clear transfer_id file_id sessions = forget (progress_key transfer_id file_id) sessions
