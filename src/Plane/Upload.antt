-- ===== src/Plane/Upload.antt =====
-- `handleUpload` and `handleUploadLocked` of src/transfer/laptop-data-plane.ts: a chunk that the phone
-- sends. A request runs to its end before the next one on the same file starts.
pub mod Finish
pub mod SteadyCalls
pub mod Steady
pub mod Records
pub mod Bytes
pub mod Receiving
pub mod Steps
pub mod Moving
pub mod Opening
pub mod Publishing
pub mod Sent
pub mod Assembling
pub mod Handled
pub mod History
pub mod Accepting
pub mod Delivered
pub mod Candidates
use vidyut.Prelude.{
  ℕ, ◌+◌, String, Bool, true, false, not, ◌&&◌, ◌||◌, List, [], ◌∷◌, Option, none, some, Result, ok,
  err, leb, ltb, ◌==◌, if◌then◌else◌, length, find?, str_eq, opt_all, get_last?,
}
use vidyut.Paths.{NodePath, partial_path_for}
use vidyut.Wire.Types.{
  TransferDirection, TransferTimingSummary, transfer_progress, transfer_file_failed,
  unknown_transfer_sha256,
}
use vidyut.Wire.Patterns.{is_sha256_hex}
use vidyut.Wire.Number.{natural}
use vidyut.Queue.Types.{TransferFileRecord, TransferBatchRecord, is_active}
use vidyut.Queue.Timing.{Env, lookup, assign}
use vidyut.Queue.Store.{Queue, has_transfer_id, has_file_id}
use vidyut.Queue.Progress.{mark_stage, begin_verification, confirm_progress, fail, present}
use vidyut.Plane.Decimal.{parse_non_negative_integer}
use vidyut.Plane.Cipher.{Aead, CipherError, decrypt_transfer_chunk}
use vidyut.Plane.Sessions.{
  ReceiverProgressPolicy, Session, progress_key, session_for, live_accepted_offset, new_session,
  should_checkpoint, should_publish, mark_accepted, mark_checkpoint, mark_published, clear,
}
use vidyut.Plane.Disk.{
  FileSystem, OpenAnswer, opened, missing, not_opened, WriteAnswer, bytes_written, not_written,
}
use vidyut.Plane.State.{
  Response, refused, refused_at, accepted, Thrown, of_disk, body_lost, Flow, next, reply, throw,
  Plane, Act, ◌>>=◌, ◌>>◌, replies, throws, gets, or_reply, or_raise, modify, refuse_unless, when,
  on_queue, publish, file_terminal,
}

-- What the data plane is built with. `sha256` is `hashFile` on the bytes, in hexadecimal.
-- `candidate` is the n-th path beside the requested one.
pub record Config (Disk : Type 0) : Type 0 where
  pub fs : FileSystem Disk
  pub paths : NodePath
  pub aead : Aead
  pub secret : String
  pub chunk_bytes : ℕ
  pub policy : ReceiverProgressPolicy
  pub clock : ℕ → Env
  pub sha256 : List ℕ → String
  pub candidate : String → ℕ → String

-- The headers that an upload reads, none where one is missing, and its body, if it arrives.
pub record UploadRequest : Type 0 where
  pub nonce : Option String
  pub sha256 : Option String
  pub plaintext_bytes : Option String
  pub content_length : Option String
  pub body : Option (List ℕ)

abbrev pub same_direction : TransferDirection → TransferDirection → Bool
same_direction TransferDirection.laptop_to_phone TransferDirection.laptop_to_phone = true
same_direction TransferDirection.phone_to_laptop TransferDirection.phone_to_laptop = true
same_direction TransferDirection.laptop_to_phone TransferDirection.phone_to_laptop = false
same_direction TransferDirection.phone_to_laptop TransferDirection.laptop_to_phone = false

-- `lookup`
unfoldable pub find_transfer :
    Queue → String → String → TransferDirection → Option TransferFileRecord
find_transfer q transfer_id file_id direction =
    elim (find? (has_transfer_id transfer_id) q.batches) [
      | none ↦ none
      | some b ↦
          if same_direction b.direction direction then find? (has_file_id file_id) b.files else none
    ]

-- The path to write to, of a file that is active and has one.
unfoldable pub active_destination : TransferFileRecord → Option String
active_destination r = if is_active r.status then present r.destination_path else none

unfoldable pub fits : ℕ → ℕ → TransferFileRecord → ℕ → Bool
fits chunk_bytes offset r n =
    leb n chunk_bytes && (leb (offset + n) r.size && not (ltb 0 r.size && n == 0))

abbrev pub sized : ℕ → ℕ → TransferFileRecord → Option ℕ → Option ℕ
sized chunk_bytes offset r none = none
sized chunk_bytes offset r (some n) = if fits chunk_bytes offset r n then some n else none

-- The nonce and the number of bytes that the headers announce, where they are acceptable.
unfoldable pub announced : ℕ → ℕ → TransferFileRecord → UploadRequest → Option (String × ℕ)
unfolding fits
announced chunk_bytes offset r req = elim (present req.nonce) [
  | none ↦ none
  | some nonce ↦
      elim (sized chunk_bytes offset r (parse_non_negative_integer req.plaintext_bytes)) [
        | none ↦ none
        | some n ↦ some (nonce, n)
      ]
]

abbrev pub opened_or_none : Result CipherError (List ℕ) → Option (List ℕ)
opened_or_none (ok bytes) = some bytes
opened_or_none (err e) = none

-- `record.timing?.attempts.at(-1)?.stages[stage] !== undefined`
abbrev pub is_some {ℓ} : {A : Type ℓ} → Option A → Bool
is_some none = false
is_some (some a) = true

abbrev pub has_timing_stage : String → Option TransferTimingSummary → Bool
has_timing_stage stage none = false
has_timing_stage stage (some t) = elim (get_last? t.attempts) [
  | none ↦ false
  | some a ↦ is_some (lookup stage a.stages)
]

abbrev pub is_deferred : TransferFileRecord → Bool
is_deferred r = str_eq r.sha256 unknown_transfer_sha256

-- `isSha256Hex(claimed) && claimed !== unknownTransferSha256`
abbrev pub is_claim : Option String → Bool
is_claim none = false
is_claim (some sha) = is_sha256_hex sha && not (str_eq sha unknown_transfer_sha256)

-- The answer where the last chunk's digest is not the one to expect.
unfoldable pub digest_refusal : TransferFileRecord → Option String → Option Response
digest_refusal r claimed =
    if is_deferred r
    then (if is_claim claimed then none else some (refused 409 "digest_missing"))
    else if opt_all (λ sha. str_eq sha r.sha256) claimed
    then none
    else some (refused 409 "hash_mismatch")

abbrev pub as_sent : Option String → String
as_sent none = ""
as_sent (some sha) = sha

-- The digest that the file has to have: for a deferred one, the one sent with the last chunk.
unfoldable pub expected_sha256 : TransferFileRecord → Option String → String
expected_sha256 r claimed = if is_deferred r then as_sent claimed else r.sha256

module _ {Disk : Type 0} (c : Config Disk) (transfer_id file_id : String) where
  -- A change of the file's session, which is there.
  unfoldable pub set_session : Session → Act Disk (Unit {0})
  unfolding progress_key
  set_session s =
      modify λ p. record p { sessions = assign (progress_key transfer_id file_id) s p.sessions }

  -- `sessionFor`
  unfoldable pub open_session : TransferFileRecord → Act Disk Session
  unfolding set_session session_for
  open_session r = do
    s ← gets λ p. session_for c.policy (c.clock p.tick).monotonic_now transfer_id r p.sessions
    set_session s
    gets λ p. s

  unfoldable pub end_session : Act Disk (Unit {0})
  unfolding clear
  end_session = modify λ p. record p { sessions = clear transfer_id file_id p.sessions }

  unfoldable pub mark : String → Bool → Act Disk (Unit {0})
  unfolding on_queue mark_stage
  mark stage end = on_queue c.clock λ env q. mark_stage env q transfer_id file_id stage end

  -- What every failure of a file ends with.
  unfoldable pub give_up : String → Act Disk (Unit {0})
  unfolding on_queue publish end_session file_terminal fail
  give_up code = do
    on_queue c.clock λ env q. fail env q transfer_id file_id code
    publish (transfer_file_failed transfer_id file_id code)
    end_session
    file_terminal

  unfoldable pub remove : String → Act Disk (Unit {0})
  remove path = modify λ p. record p { disk = c.fs.unlink p.disk path }

  abbrev pub open_answer : String → ℕ → Act Disk OpenAnswer
  open_answer partial offset p =
      if offset == 0
      then (let (answer, d) = c.fs.open_truncated p.disk partial in
          (next answer, record p { disk = d }))
      else (next (c.fs.open_existing p.disk partial), p)

  abbrev pub make_parent : String → Act Disk Bool
  make_parent partial p =
      let (made, d) = c.fs.make_directory p.disk (c.paths.dirname partial) in
      (next made, record p { disk = d })

  abbrev pub missing_partial : String → Act Disk (Unit {0})
  missing_partial partial = do
    remove partial
    give_up "partial_state_missing"
    replies (refused_at 409 "partial_state_missing" 0)

  abbrev pub after_open : String → OpenAnswer → Act Disk (Unit {0})
  after_open partial opened = gets λ p. tt
  after_open partial missing = missing_partial partial
  after_open partial not_opened = throws of_disk

  unfoldable pub open_partial : String → ℕ → Act Disk (Unit {0})
  unfolding give_up remove
  open_partial partial offset = do
    made ← make_parent partial
    or_raise (if made then some tt else none) of_disk
    answer ← open_answer partial offset
    after_open partial answer

  abbrev pub write_answer : String → ℕ → List ℕ → Act Disk WriteAnswer
  write_answer partial offset bytes p =
      let (answer, d) = c.fs.write_at p.disk partial offset bytes in
      (next answer, record p { disk = d })

  abbrev pub after_write : ℕ → WriteAnswer → Act Disk (Unit {0})
  after_write n (bytes_written m) = refuse_unless (m == n) (refused 507 "destination_short_write")
  after_write n not_written = throws of_disk

  -- An empty chunk is not written.
  unfoldable pub write_chunk : String → ℕ → List ℕ → Act Disk (Unit {0})
  write_chunk partial offset bytes =
      when (ltb 0 (length bytes))
        do answer ← write_answer partial offset bytes; after_write (length bytes) answer

  unfoldable pub sync_partial : String → Act Disk (Unit {0})
  sync_partial partial = do
    synced ← gets λ p. c.fs.sync p.disk partial
    or_raise (if synced then some tt else none) of_disk

  abbrev pub refuse_some : Option Response → Act Disk (Unit {0})
  refuse_some none = gets λ p. tt
  refuse_some (some r) = replies r

  -- The queue and the session move to the new offset.
  unfoldable pub advance : ℕ → ℕ → Bool → Bool → Session → Act Disk Session
  unfolding on_queue set_session begin_verification confirm_progress mark_checkpoint mark_accepted
  advance confirmed now last checkpoint_due s =
      if last
      then (do
        on_queue c.clock λ env q. begin_verification env q transfer_id file_id confirmed
        set_session (mark_checkpoint confirmed now s)
        gets λ p. mark_checkpoint confirmed now s)
      else if checkpoint_due
      then (do
        on_queue c.clock
            λ env q. confirm_progress env q transfer_id file_id (natural confirmed) none
        set_session (mark_checkpoint confirmed now s)
        gets λ p. mark_checkpoint confirmed now s)
      else (do set_session (mark_accepted confirmed s); gets λ p. mark_accepted confirmed s)

  unfoldable pub announce : ℕ → ℕ → Session → Act Disk (Unit {0})
  unfolding publish set_session mark_published
  announce confirmed now s = do
    publish (transfer_progress transfer_id file_id confirmed)
    set_session (mark_published now s)
