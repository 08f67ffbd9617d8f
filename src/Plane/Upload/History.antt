-- ===== src/Plane/Upload/History.antt =====
-- Histories of the uploads of one file of src/transfer/laptop-data-plane.ts.
use vidyut.Prelude.{ℕ, ◌⊎◌, String, List, [], ◌∷◌, ◌++◌}
use vidyut.Wire.Types.{TransferFileOffer}
use vidyut.Plane.Disk.{IsLawful}
use vidyut.Plane.State.{Response, Flow, next, reply, throw, Plane}
use vidyut.Plane.Upload.{Config, UploadRequest}
use vidyut.Plane.Upload.Finish.{handle_upload}
use vidyut.Plane.Upload.Receiving.{Receiving, Idle}
use vidyut.Plane.Upload.Publishing.{Finished}
use vidyut.Plane.Upload.Sent.{plaintext_of}

module _ {Disk : Type 0} (c : Config Disk) (w : IsLawful c.fs)
    (transfer_id file_id requested : String) (offer : TransferFileOffer) where
  -- The uploads of the file, one after the other.
  unfoldable pub upload_all : List (ℕ × UploadRequest) → Plane Disk → Plane Disk
  unfolding handle_upload
  upload_all [] p = p
  upload_all ((offset, req) ∷ us) p =
      upload_all us (handle_upload c transfer_id file_id offset req p).1

  abbrev pub received_by : Flow Response → List ℕ → List ℕ → List ℕ
  received_by (next a) xs bytes = xs ++ bytes
  received_by (reply a) xs bytes = xs
  received_by (throw e) xs bytes = xs

  -- The bytes of the chunks that were taken, in their order, behind those received before.
  unfoldable pub assembled : List (ℕ × UploadRequest) → Plane Disk → List ℕ → List ℕ
  unfolding handle_upload plaintext_of
  assembled [] p xs = xs
  assembled ((offset, req) ∷ us) p xs =
      let ended = handle_upload c transfer_id file_id offset req p in
      assembled us ended.1 (received_by ended.0 xs (plaintext_of c transfer_id file_id offset req))

  -- Being received, finished with the bytes, or idle.
  abbrev pub Standing : List ℕ → Plane Disk → Type 0
  Standing xs p =
      Receiving c w transfer_id file_id requested offer xs p
      ⊎ (Finished c w transfer_id file_id requested offer xs p
          ⊎ Idle c w transfer_id file_id requested offer p)
