-- ===== src/Coordinator/Devices.antt =====
-- `handleDeviceConnected`, `handleDeviceDisconnected` and `enqueueLaptopEntries` of
-- src/transfer/transfer-coordinator.ts, with `mimeForPath`.
pub mod Slices
use vidyut.Prelude.{
  ℕ, suc, zero, ◌+◌, String, Bool, true, false, not, ◌&&◌, ◌||◌, List, [], ◌∷◌, ◌++◌, map, Option,
  none, some, Result, ok, err, leb, ltb, ◌==◌, if◌then◌else◌, find?, any, filter, str_eq, length,
  take, drop,
}
use vidyut.Wire.Types.{TransferOffer, TransferDirection, transfer_offer, transfer_file_failed}
use vidyut.Wire.Patterns.{codes}
use vidyut.Queue.Types.{TransferFileRecord, TransferBatchRecord, is_active}
use vidyut.Queue.Batch.{QueueError}
use vidyut.Queue.Store.{Queue, M}
use vidyut.Queue.Progress.{fail}
use vidyut.Queue.Control.{partial_of}
use vidyut.Queue.Claim.{EnqueueTransferFile, enqueue}
use vidyut.Queue.Offers.{offer_of, offer}
use vidyut.Plane.Disk.{StatAnswer, found, no_entry, no_access, stat_failed}
use vidyut.Plane.State.{
  Plane, Act, ◌>>=◌, ◌>>◌, gets, throws, publish, raise_unless, or_raise, each, on_queue, ask_queue,
  of_disk, no_selection, not_regular, too_large,
}
use vidyut.Plane.Upload.{is_some, end_session}
use vidyut.Plane.Checkpoint.{checkpoint_and}
use vidyut.Coordinator.{CoordinatorOptions, to_phone, activate_next}
use vidyut.Coordinator.Offers.{remove_partial}

abbrev pub is_from : String → Option String → Bool
is_from device none = false
is_from device (some d) = str_eq d device

-- An offer to the phone that no device has answered yet.
unfoldable pub is_open_offer : TransferBatchRecord → Bool
is_open_offer b =
    to_phone b && (not (is_some b.source_device_id) && any (λ f. is_active f.status) b.files)

-- The active files of the device, each behind its transfer.
unfoldable pub files_of_device :
    String → List TransferBatchRecord → List (String × TransferFileRecord)
files_of_device device [] = []
files_of_device device (b ∷ bs) =
    (if is_from device b.source_device_id
      then map (λ f. (b.transfer_id, f)) (filter (λ f. is_active f.status) b.files)
      else [])
    ++ files_of_device device bs

-- A path to send, and the folder that it lands in on the phone.
pub record LaptopFileEntry : Type 0 where
  pub path : String
  pub folder : Option String

abbrev pub max_offer_files : ℕ
max_offer_files = 100

-- `files.slice(start, start + maxOfferFiles)`, one slice for each step of the loop.
unfoldable pub slices_from : {A : Type 0} → ℕ → List A → List (List A)
slices_from zero xs = []
slices_from (suc fuel) [] = []
slices_from (suc fuel) (x ∷ xs) =
    take max_offer_files (x ∷ xs) ∷ slices_from fuel (drop max_offer_files (x ∷ xs))

-- Every slice but the last is full, so that there are no more than there are files.
unfoldable pub slices : {A : Type 0} → List A → List (List A)
unfolding slices_from
slices xs = slices_from (length xs) xs

-- [a-z0-9], behind `toLowerCase`
abbrev pub lower : ℕ → ℕ
lower c = if leb 65 c && leb c 90 then c + 32 else c

abbrev pub is_word : ℕ → Bool
is_word c = (leb 97 c && leb c 122) || (leb 48 c && leb c 57)

-- What `/\.([a-z0-9]+)$/` has matched so far, none where no dot is left to begin with.
abbrev pub extended : Option (List ℕ) → ℕ → Option (List ℕ)
extended none c = if c == 46 then some [] else none
extended (some e) c = if c == 46 then some [] else if is_word c then some (e ++ (c ∷ [])) else none

unfoldable pub extension_from : Option (List ℕ) → List ℕ → Option (List ℕ)
extension_from e [] = e
extension_from e (c ∷ cs) = extension_from (extended e (lower c)) cs

abbrev pub same_codes : List ℕ → List ℕ → Bool
same_codes [] [] = true
same_codes [] (d ∷ ds) = false
same_codes (c ∷ cs) [] = false
same_codes (c ∷ cs) (d ∷ ds) = c == d && same_codes cs ds

abbrev pub mime_types : List (String × String)
mime_types =
    ("txt", "text/plain")
    ∷ ("pdf", "application/pdf")
    ∷ ("json", "application/json")
    ∷ ("csv", "text/csv")
    ∷ ("png", "image/png")
    ∷ ("jpg", "image/jpeg")
    ∷ ("jpeg", "image/jpeg")
    ∷ ("gif", "image/gif")
    ∷ ("webp", "image/webp")
    ∷ ("mp3", "audio/mpeg")
    ∷ ("mp4", "video/mp4")
    ∷ ("zip", "application/zip")
    ∷ []

unfoldable pub mime_in : List (String × String) → List ℕ → String
mime_in [] e = "application/octet-stream"
mime_in ((extension, mime) ∷ rest) e =
    if same_codes (codes extension) e then mime else mime_in rest e

abbrev pub extension_or_empty : Option (List ℕ) → List ℕ
extension_or_empty none = []
extension_or_empty (some e) = e

unfoldable pub mime_for_path : String → String
unfolding mime_in extension_from
mime_for_path path = mime_in mime_types (extension_or_empty (extension_from none (codes path)))

module _ {Disk : Type 0} (c : CoordinatorOptions Disk) where
  abbrev pub answer_open : Option TransferBatchRecord → Act Disk (Unit {0})
  answer_open none = do claimed ← activate_next c; gets λ p. tt
  answer_open (some b) = publish (transfer_offer (offer_of b))

  unfoldable pub handle_device_connected : Act Disk (Unit {0})
  unfolding is_open_offer activate_next publish
  handle_device_connected = do
    open_offer ← gets λ p. find? is_open_offer p.queue.batches
    answer_open open_offer

  unfoldable pub drop_file : String × TransferFileRecord → Act Disk (Unit {0})
  unfolding checkpoint_and on_queue fail end_session publish
  drop_file (transfer_id, f) = checkpoint_and c.plane transfer_id f.file_id (do
    on_queue c.plane.clock λ env q. fail env q transfer_id f.file_id "peer_disconnected"
    remove_partial c transfer_id f.file_id (partial_of c.plane.paths f)
    end_session c.plane transfer_id f.file_id
    publish (transfer_file_failed transfer_id f.file_id "peer_disconnected"))

  unfoldable pub handle_device_disconnected : String → Act Disk (Unit {0})
  unfolding files_of_device each drop_file
  handle_device_disconnected device = do
    files ← gets λ p. files_of_device device p.queue.batches
    each drop_file files

  abbrev pub regular : StatAnswer → Act Disk (ℕ × ℕ)
  regular (found is_file size modified) = do
    raise_unless is_file not_regular
    raise_unless (leb size c.max_file_bytes) too_large
    gets λ p. (size, modified)
  regular no_entry = throws of_disk
  regular no_access = throws of_disk
  regular stat_failed = throws of_disk

  unfoldable pub read_entry : LaptopFileEntry → Act Disk EnqueueTransferFile
  unfolding mime_for_path
  read_entry e = do
    answer ← gets λ p. c.plane.fs.stat p.disk e.path
    info ← regular answer
    bytes ← λ p. or_raise (c.plane.fs.read p.disk e.path) of_disk p
    gets λ p. record {
      filename = c.plane.paths.basename e.path;
      mime = mime_for_path e.path;
      size = info.0;
      last_modified_ms = info.1;
      sha256 = c.plane.sha256 bytes;
      source_path = some e.path;
      destination_path = none;
      folder = e.folder;
    }

  unfoldable pub read_entries : List LaptopFileEntry → Act Disk (List EnqueueTransferFile)
  unfolding read_entry
  read_entries [] = gets λ p. []
  read_entries (e ∷ es) = do file ← read_entry e; files ← read_entries es; gets λ p. file ∷ files

  abbrev pub offered_in : Queue → M TransferOffer → Result QueueError (TransferOffer × Queue)
  offered_in q (err e) = err e
  offered_in q (ok o) = ok (o, q)

  abbrev pub offer_enqueued :
      Result QueueError (TransferBatchRecord × Queue) → Result QueueError (TransferOffer × Queue)
  offer_enqueued (err e) = err e
  offer_enqueued (ok (b, q)) = offered_in q (offer q b.transfer_id)

  unfoldable pub enqueue_slice : List EnqueueTransferFile → Act Disk TransferOffer
  unfolding ask_queue enqueue offer
  enqueue_slice files =
      ask_queue c.plane.clock λ env q.
        offer_enqueued (enqueue env q TransferDirection.laptop_to_phone "laptop" files none)

  unfoldable pub enqueue_slices : List (List EnqueueTransferFile) → Act Disk (List TransferOffer)
  unfolding enqueue_slice
  enqueue_slices [] = gets λ p. []
  enqueue_slices (s ∷ ss) = do o ← enqueue_slice s; os ← enqueue_slices ss; gets λ p. o ∷ os

  unfoldable pub enqueue_laptop_entries : List LaptopFileEntry → Act Disk (List TransferOffer)
  unfolding read_entries enqueue_slices slices activate_next
  enqueue_laptop_entries entries = do
    raise_unless (not (length entries == 0)) no_selection
    files ← read_entries entries
    offers ← enqueue_slices (slices files)
    claimed ← activate_next c
    gets λ p. offers

  abbrev pub first_offer : List TransferOffer → Option TransferOffer
  first_offer [] = none
  first_offer (o ∷ os) = some o

  unfoldable pub enqueue_laptop_files : List String → Act Disk (Option TransferOffer)
  unfolding enqueue_laptop_entries
  enqueue_laptop_files paths = do
    raise_unless (not (length paths == 0)) no_selection
    offers ← enqueue_laptop_entries (map (λ path. record { path = path; folder = none }) paths)
    gets λ p. first_offer offers
