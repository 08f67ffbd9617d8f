-- ===== src/Plane/Download.antt =====
-- The download branch of `handleAuthenticated` of src/transfer/laptop-data-plane.ts, and
-- `handleLocalEnqueue`.
pub mod Serving
use vidyut.Prelude.{
  ℕ, ◌+◌, ◌-◌, String, Bool, true, false, not, ◌&&◌, ◌||◌, List, [], ◌∷◌, Option, none, some,
  Result, ok, err, min, leb, ltb, ◌==◌, if◌then◌else◌, length, str_eq, any,
}
use vidyut.Wire.Types.{TransferDirection}
use vidyut.Wire.Json.{Json, as_array, as_string}
use vidyut.Queue.Types.{TransferFileRecord}
use vidyut.Queue.Progress.{present}
use vidyut.Chunks.{legacy_transfer_chunk_bytes}
use vidyut.Plane.Cipher.{
  TransferChunkMetadata, EncryptedTransferChunk, CipherError, encrypt_transfer_chunk,
}
use vidyut.Plane.Sessions.{or_default}
use vidyut.Plane.Disk.{
  StatAnswer, found, no_entry, no_access, stat_failed, SourceAnswer, source_opened, source_missing,
  source_denied, source_failed,
}
use vidyut.Plane.State.{
  Response, refused, refused_at, served, offered, enqueue_failed, of_disk, of_cipher, Plane, Act,
  ◌>>=◌, ◌>>◌, gets, or_reply, replies, throws, refuse_unless,
}
use vidyut.Plane.Upload.{Config, find_transfer}

-- `Math.min(chunkBytes, maxChunkBytes ?? legacy, Math.max(0, size - offset))`
unfoldable pub chunk_to_serve : ℕ → ℕ → TransferFileRecord → ℕ
chunk_to_serve chunk_bytes offset r =
    min chunk_bytes
      (min (or_default r.max_chunk_bytes legacy_transfer_chunk_bytes) (r.size - offset))

-- `record.size > 0 && offset >= record.size`
abbrev pub is_past_end : ℕ → TransferFileRecord → Bool
is_past_end offset r = ltb 0 r.size && leb r.size offset

module _ {Disk : Type 0} (c : Config Disk) (transfer_id file_id : String) where
  -- The metadata of the source against the record.
  abbrev pub check_source : TransferFileRecord → StatAnswer → Act Disk (Unit {0})
  check_source r (found is_file size modified) =
      refuse_unless (is_file && (size == r.size && modified == r.last_modified_ms))
        (refused 409 "source_changed")
  check_source r no_entry = replies (refused 409 "source_unavailable")
  check_source r no_access = replies (refused 409 "source_permission_denied")
  check_source r stat_failed = throws of_disk

  abbrev pub check_open : SourceAnswer → Act Disk (Unit {0})
  check_open source_opened = gets λ p. tt
  check_open source_missing = replies (refused 409 "source_unavailable")
  check_open source_denied = replies (refused 409 "source_permission_denied")
  check_open source_failed = throws of_disk

  -- Nothing is read where nothing is to be served.
  abbrev pub source_bytes : String → ℕ → ℕ → Plane Disk → List ℕ
  source_bytes path offset n p = if ltb 0 n then c.fs.read_at p.disk path offset n else []

  abbrev pub served_chunk :
      ℕ → ℕ → ℕ → Result CipherError EncryptedTransferChunk → Act Disk Response
  served_chunk offset n size (ok chunk) =
      gets λ p. served chunk.nonce chunk.ciphertext offset n size (offset + n == size)
  served_chunk offset n size (err e) = throws of_cipher

  abbrev pub metadata_of : ℕ → ℕ → TransferChunkMetadata
  metadata_of offset n = record {
    transfer_id = transfer_id;
    file_id = file_id;
    offset = offset;
    plaintext_bytes = n;
  }

  -- `nonce` is drawn at random.
  unfoldable pub handle_download : List ℕ → ℕ → Act Disk Response
  unfolding find_transfer chunk_to_serve encrypt_transfer_chunk
  handle_download nonce offset = do
    known ← gets λ p. find_transfer p.queue transfer_id file_id TransferDirection.laptop_to_phone
    r ← or_reply known (refused 404 "transfer_not_found")
    refuse_unless (offset == r.confirmed_offset)
        (refused_at 409 "offset_not_confirmed" r.confirmed_offset)
    path ← or_reply (present r.source_path) (refused 404 "transfer_not_found")
    refuse_unless (not (is_past_end offset r)) (refused 416 "range_not_satisfiable")
    metadata ← gets λ p. c.fs.stat p.disk path
    check_source r metadata
    answer ← gets λ p. c.fs.open_source p.disk path
    check_open answer
    let n = chunk_to_serve c.chunk_bytes offset r
    plaintext ← gets (source_bytes path offset n)
    refuse_unless (length plaintext == n) (refused 409 "source_short_read")
    served_chunk offset n r.size
        (encrypt_transfer_chunk c.aead (metadata_of offset n) plaintext c.secret nonce)

-- What `handleLocalEnqueue` reads of a request, `body` parsed as JSON, if it parses.
pub record EnqueueRequest : Type 0 where
  pub digest : Option String
  pub body : List ℕ
  pub json : Option Json

abbrev pub is_path : Json → Bool
is_path (Json.str s) = not (str_eq s "")
is_path _ = false

abbrev pub texts_of : List Json → List String
texts_of [] = []
texts_of (Json.str s ∷ js) = s ∷ texts_of js
texts_of (_ ∷ js) = texts_of js

-- One to a hundred texts, none of them empty.
unfoldable pub enqueue_paths : Json → Option (List String)
enqueue_paths j = elim (as_array (some j)) [
  | none ↦ none
  | some js ↦
      if length js == 0 || ltb 100 (length js) || any (λ p. not (is_path p)) js
      then none
      else some (texts_of js)
]

abbrev pub is_digest : Option String → String → Bool
is_digest none actual = false
is_digest (some expected) actual = not (str_eq expected "") && str_eq actual expected

abbrev pub enqueued : {Disk : Type 0} → Result String String → Act Disk Response
enqueued (ok id) = gets λ p. offered id
enqueued (err message) = gets λ p. enqueue_failed message

-- `enqueue` is `enqueueLaptopFiles`, where the data plane has one.
unfoldable pub handle_local_enqueue :
    {Disk : Type 0}
    → Config Disk
    → Option (List String → Result String String)
    → EnqueueRequest
    → Act Disk Response
unfolding enqueue_paths
handle_local_enqueue c enqueue req = do
  call ← or_reply enqueue (refused 503 "enqueue_unavailable")
  refuse_unless (is_digest req.digest (c.sha256 req.body)) (refused 400 "body_digest_mismatch")
  json ← or_reply req.json (refused 400 "invalid_json")
  paths ← or_reply (enqueue_paths json) (refused 400 "invalid_paths")
  enqueued (call paths)
