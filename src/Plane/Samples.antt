-- ===== src/Plane/Samples.antt =====
-- A transfer of three bytes, a disk and a configuration, for the tests on src/transfer.
use vidyut.Prelude.{refl, inl, String, [], ◌∷◌, none, some}
use vidyut.Wire.Types.{TransferFileOffer, TransferDirection}
use vidyut.Wire.Patterns.{codes}
use vidyut.Wire.Unary.{write, read}
use vidyut.Queue.Types.{TransferFileRecord, TransferFileStatus, TransferBatchStatus}
use vidyut.Queue.Store.{Queue}
use vidyut.Plane.Cipher.{Aead}
use vidyut.Plane.Disk.Memory.{Files, memory, memory-IsLawful, set}
use vidyut.Plane.State.{Plane}
use vidyut.Plane.Upload.{Config, find_transfer, active_destination}
use vidyut.Plane.Upload.Receiving.{Receiving}

-- A cipher that hides nothing.
abbrev pub aead : Aead
aead = record {
  derive = λ secret salt. salt;
  encrypt = λ key iv bound plaintext. plaintext;
  decrypt = λ key iv bound ciphertext. some ciphertext;
  associated = λ m nonce. [];
  to_base64 = write;
  from_base64 = λ text. read (codes text) 0;
}

abbrev pub transfer_id : String
transfer_id = "transfer-0123456789abcdef"

abbrev pub file_id : String
file_id = "file-0123456789abcdef"

abbrev pub sha : String
sha = "aaaaaaaaaaaaaaaaaaaaaaaaaaaaaaaaaaaaaaaaaaaaaaaaaaaaaaaaaaaaaaaa"

abbrev pub offer : TransferFileOffer
offer = record {
  file_id = file_id;
  filename = "notes.txt";
  mime = "text/plain";
  size = 3;
  last_modified_ms = 0;
  last_modified_known = none;
  sha256 = sha;
  sender_timing = none;
  folder = none;
}

abbrev pub file : TransferFileRecord
file = record {
  offered = offer;
  source_path = some "/home/notes.txt";
  destination_path = some "/downloads/notes.txt";
  finalizing_path = none;
  max_chunk_bytes = none;
  status = TransferFileStatus.active;
  confirmed_offset = 0;
  error_code = none;
  timing = none;
}

abbrev pub queue : TransferDirection → Queue
queue direction = record {
  state = record {
    v = 1;
    batches =
        (record {
          transfer_id = transfer_id;
          batch_id = "batch-0123456789abcdef";
          origin = "phone";
          direction = direction;
          source_device_id = none;
          created_at_ms = 7;
          updated_at_ms = 7;
          expires_at_ms = 604_800_007;
          status = TransferBatchStatus.active;
          files = file ∷ [];
        })
        ∷ [];
  };
  monotonic_anchors = [];
  saved = [];
  unlinked = [];
}

-- A disk that has the source of the download, and nothing else.
abbrev pub files : Files
files = set (λ path. none) "/home/notes.txt" (some (5 ∷ 6 ∷ 7 ∷ []))

abbrev pub plane : TransferDirection → Plane Files
plane direction = record {
  queue = queue direction;
  disk = files;
  sessions = [];
  published = [];
  terminals = 0;
  tick = 0;
}

abbrev pub config : Config Files
config = record {
  fs = memory;
  paths = record {
    join = λ a b. b;
    dirname = λ path. "/downloads";
    basename = λ path. "notes.txt";
  };
  aead = aead;
  secret = "secret";
  chunk_bytes = 2;
  policy = record {
    checkpoint_bytes = none;
    checkpoint_interval_ms = none;
    publish_interval_ms = none;
  };
  clock = λ n. record { now = 100; monotonic_now = 30; id = λ prefix k. prefix };
  sha256 = λ bytes. sha;
  candidate = λ requested n. requested;
}

unfoldable pub receiving :
    Receiving config memory-IsLawful transfer_id file_id "/downloads/notes.txt" offer []
      (plane TransferDirection.phone_to_laptop)
unfolding find_transfer active_destination
receiving = record {
  file = file;
  is_found = refl;
  target = refl;
  same_offer = refl;
  synced = refl;
  on_disk = inl refl;
}
