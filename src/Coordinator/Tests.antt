-- ===== src/Coordinator/Tests.antt =====
-- Concrete messages to src/transfer/transfer-coordinator.ts on the file system in memory.
use vidyut.Prelude.{String, ◌≡◌, refl, false, [], ◌∷◌, All, none, some}
use vidyut.Wire.Types.{TransferOffer, TransferDirection}
use vidyut.Plane.Disk.Memory.{Files, memory-IsLawful}
use vidyut.Plane.State.{Plane}
use vidyut.Plane.Rules.{Ends}
use vidyut.Plane.Upload.Receiving.{Receiving}
use vidyut.Plane.Samples.{transfer_id, file_id, offer, plane, config, receiving}
use vidyut.Coordinator.{CoordinatorOptions}
use vidyut.Coordinator.Offers.{accept_phone_offer}
use vidyut.Coordinator.Offers.Answered.{Answered, Unchanged, accept_phone_offer-Answered}
use vidyut.Coordinator.Control.{pause_transfer}
use vidyut.Coordinator.Control.Paused.{IsPaused, pause_transfer-IsPaused}
use vidyut.Coordinator.Devices.{slices, mime_for_path, extension_from, mime_in}
use vidyut.Coordinator.Devices.Slices.{joined, IsOfferable, slices-IsOfferable}

abbrev options : CoordinatorOptions Files
options = record {
  plane = config;
  destination_directory = "/downloads";
  max_file_bytes = 1_000;
  max_chunk_bytes = none;
  available_bytes = λ d. some 2;
  comes_first = λ a b. false;
}

-- Three bytes, where there is room for two.
abbrev new_offer : TransferOffer
new_offer = record {
  transfer_id = "transfer-another-0123456789";
  batch_id = "batch-0123456789abcdef";
  origin = "phone";
  direction = TransferDirection.phone_to_laptop;
  created_at_ms = 7;
  files = offer ∷ [];
}

abbrev receiver : Plane Files
receiver = plane TransferDirection.phone_to_laptop

abbrev sender : Plane Files
sender = plane TransferDirection.laptop_to_phone

accept_phone_offer-Answered_example :
    Ends
      (Answered options new_offer "device" receiver)
      (λ _ _. ⊥)
      (Unchanged options new_offer "device" receiver)
      (accept_phone_offer options new_offer "device" receiver)
accept_phone_offer-Answered_example =
    accept_phone_offer-Answered options new_offer "device" receiver refl

pause_transfer-IsPaused_example :
    Ends
      (λ _. IsPaused options memory-IsLawful transfer_id file_id "/downloads/notes.txt" offer [])
      (λ _ _. ⊥)
      (Receiving config memory-IsLawful transfer_id file_id "/downloads/notes.txt" offer [])
      (pause_transfer options transfer_id (some file_id) receiver)
pause_transfer-IsPaused_example =
    pause_transfer-IsPaused options memory-IsLawful transfer_id file_id "/downloads/notes.txt" offer
      [] receiver refl receiving

slices-IsOfferable_example :
    (joined {A = String} (slices ("/a" ∷ "/b" ∷ [])) ≡ "/a" ∷ "/b" ∷ [])
    × All (IsOfferable {A = String}) (slices ("/a" ∷ "/b" ∷ []))
slices-IsOfferable_example = slices-IsOfferable ("/a" ∷ "/b" ∷ [])

mime_of_archive : mime_for_path "/home/a.b/Photos.ZIP" ≡ "application/zip"
unfolding mime_for_path extension_from mime_in
mime_of_archive = refl

mime_of_hidden : mime_for_path "/home/zip" ≡ "application/octet-stream"
unfolding mime_for_path extension_from mime_in
mime_of_hidden = refl
