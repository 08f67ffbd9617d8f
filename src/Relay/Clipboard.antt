-- ===== src/Relay/Clipboard.antt =====
-- `startClipboardSync` of src/relay/clipboard-sync.ts. The clipboard, the encryption and the digest
-- are parameters; `none` is what a call that threw, or found nothing, gives. A change is read,
-- tested and published in one step, which reads the clock once.
pub mod Echoes
use vidyut.Prelude.{
  ℕ, ◌+◌, String, Bool, true, false, ◌&&◌, ◌||◌, List, [], ◌∷◌, Option, none, some, leb, ◌==◌, any,
  str_eq, if◌then◌else◌,
}
use vidyut.Wire.Patterns.{codes, trim}
use vidyut.Wire.Frames.{PayloadType, PayloadFrame, is_link}
use vidyut.Relay.Pool.{Pool, publish}
use vidyut.Relay.Link.{is_openable_link}

abbrev pub echo_window_ms : ℕ
echo_window_ms = 5_000

-- What the last incoming write put on the clipboard. `id` tells one write from another.
pub record Echo : Type 0 where
  pub id : ℕ
  pub digests : List String
  pub at : ℕ

-- `opened` is what was handed to `openLink`, the newest first.
pub record Sync : Type 0 where
  pub last_incoming : Option Echo
  pub next_id : ℕ
  pub pool : Pool
  pub opened : List String

pub record Content : Type 0 where
  pub type : PayloadType
  pub mime : String
  pub bytes : String

-- How a write to the clipboard ends: with an exception, or with what was written if it differs.
pub data Written : Type 0 where
  failed : Written
  written : Option String → Written

module _ (origin : String) (digest : String → String) (encrypt : Content → ℕ → Option PayloadFrame)
    (decrypt : PayloadFrame → Option String) where
  abbrev pub is_echo : Content → ℕ → Echo → Bool
  is_echo c now e = any (str_eq (digest c.bytes)) e.digests && leb now (e.at + echo_window_ms)

  abbrev pub echoes : Content → ℕ → Option Echo → Bool
  echoes c now none = false
  echoes c now (some e) = is_echo c now e

  -- `encryptPayload` and `pool.publish`, which orders the frame by its own time.
  abbrev pub published : Content → ℕ → Sync → Sync
  published c now s = elim (encrypt c now) [
    | none ↦ s
    | some frame ↦ record s { pool = (publish frame (some origin) now s.pool).1 }
  ]

  -- The watcher's callback: what `clipboard.read` gave.
  unfoldable pub on_change : Bool → ℕ → Option Content → Sync → Sync
  on_change paused now none s = s
  on_change paused now (some c) s =
      if paused
      then s
      else if echoes c now s.last_incoming
      then record s { last_incoming = none }
      else published c now s

  abbrev pub is_own : PayloadFrame → Option String → Bool
  is_own frame none = str_eq frame.origin origin
  is_own frame (some source) = str_eq source origin || str_eq frame.origin origin

  -- The pool's listener, up to the write that it starts: its number and its data.
  unfoldable pub on_payload :
      Bool → ℕ → PayloadFrame → Option String → Sync → Sync × Option (ℕ × String)
  on_payload paused now frame source s =
      if is_own frame source || paused then (s, none) else elim (decrypt frame) [
        | none ↦ (s, none)
        | some bytes ↦ (
          record s {
            last_incoming = some (record { id = s.next_id; digests = digest bytes ∷ []; at = now });
            next_id = s.next_id + 1;
          },
          some (s.next_id, bytes),
        )
      ]

  -- The object of the write, where it is still the last one.
  abbrev pub on_same : ℕ → (Echo → Option Echo) → Option Echo → Option Echo
  on_same id f none = none
  on_same id f (some e) = if e.id == id then f e else some e

  abbrev pub with_digest : Option String → Echo → Option Echo
  with_digest none e = some e
  with_digest (some bytes) e = some (record e { digests = digest bytes ∷ e.digests })

  -- `openLinkFrom`: the text is trimmed for the launch.
  abbrev pub open_link : (List ℕ → String) → PayloadFrame → String → Sync → Sync
  open_link text frame bytes s =
      if is_link frame.type && is_openable_link bytes
      then record s { opened = text (trim (codes bytes)) ∷ s.opened }
      else s

  -- What `writeIncoming` does once the write has ended. `text` is the string of its code points.
  unfoldable pub on_written : (List ℕ → String) → ℕ → PayloadFrame → String → Written → Sync → Sync
  on_written text id frame bytes failed s = record s {
    last_incoming = on_same id (λ e. none) s.last_incoming;
  }
  on_written text id frame bytes (written w) s =
      open_link text frame bytes
        (record s { last_incoming = on_same id (with_digest w) s.last_incoming })
