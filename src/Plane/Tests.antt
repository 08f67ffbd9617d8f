-- ===== src/Plane/Tests.antt =====
-- Concrete requests to src/transfer/laptop-data-plane.ts on the file system in memory.
use vidyut.Prelude.{
  false, none, ℕ, ◌≡◌, ◌↔◌, ◌≤◌, refl, String, List, [], ◌∷◌, some, ok, arith, map,
}
use vidyut.Wire.Types.{TransferDirection, max_safe_integer}
use vidyut.Wire.Patterns.{codes}
use vidyut.Plane.Decimal.{decimal, parse_offset, parse_non_negative_integer, parse_offset-decimal}
use vidyut.Plane.Cipher.{decrypt_transfer_chunk, transfer_key}
use vidyut.Plane.Cipher.Cache.{derive_all, derive_all-transfer_key}
use vidyut.Plane.Disk.Memory.{memory-Works, memory-IsLawful}
use vidyut.Plane.Upload.{UploadRequest, announced, fits}
use vidyut.Plane.State.{accepted}
use vidyut.Plane.Upload.Finish.{
  received_chunk, handle_upload, run_uploads, Upload, finalize_without_overwrite, candidate_rounds,
}
use vidyut.Plane.Upload.SteadyCalls.{Steady}
use vidyut.Plane.Upload.Steady.{run_uploads-Steady}
use vidyut.Plane.Upload.Receiving.{Receiving}
use vidyut.Plane.Upload.Delivered.{handle_upload-Delivered}
use vidyut.Plane.Upload.Candidates.{Picked, Untouched, finalize_without_overwrite-Picked}
use vidyut.Plane.Download.{handle_download}
use vidyut.Plane.Download.Serving.{Serves, handle_download-Serves}
use vidyut.Plane.Checkpoint.{checkpoint}
use vidyut.Plane.Checkpoint.Durable.{AllDurable, checkpoint-AllDurable}
use vidyut.Plane.Rules.{Ends}
use vidyut.Plane.Samples.{aead, file, transfer_id, file_id, offer, queue, plane, config, receiving}

parse_offset-decimal_example :
    ((parse_offset (some "120") ≡ some 120)
      ↔ ((codes "120" ≡ decimal 120) × (120 ≤ max_safe_integer)))
    × (parse_non_negative_integer (some "120") ≡ parse_offset (some "120"))
parse_offset-decimal_example = parse_offset-decimal "120" 120

no_leading_zero : parse_offset (some "0120") ≡ none
unfolding parse_offset
no_leading_zero = refl

derive_all-transfer_key_example :
    derive_all aead (("secret", "transfer-1") ∷ ("secret", "transfer-1") ∷ []) []
    ≡ map
        (λ (call : String × String). transfer_key aead call.0 call.1)
        (("secret", "transfer-1") ∷ ("secret", "transfer-1") ∷ [])
derive_all-transfer_key_example =
    derive_all-transfer_key aead (("secret", "transfer-1") ∷ ("secret", "transfer-1") ∷ [])
      (refl, (refl, tt))

abbrev request : String → List ℕ → UploadRequest
request count body = record {
  nonce = some "nonce";
  sha256 = none;
  plaintext_bytes = some count;
  content_length = none;
  body = some body;
}

-- Two bytes, the same again, which is refused, and the last byte.
abbrev requests : List (ℕ × UploadRequest)
requests =
    (0, request "2" (8 ∷ 9 ∷ [])) ∷ (0, request "2" (8 ∷ 9 ∷ [])) ∷ (2, request "1" (10 ∷ [])) ∷ []

abbrev uploads : List Upload
uploads =
    (record {
      transfer_id = transfer_id;
      file_id = file_id;
      offset = 0;
      request = request "2" (8 ∷ 9 ∷ []);
    })
    ∷ []

run_uploads-Steady_example :
    Steady
      (queue TransferDirection.phone_to_laptop)
      (run_uploads config uploads (plane TransferDirection.phone_to_laptop)).queue
run_uploads-Steady_example =
    run_uploads-Steady config (λ n. omega arith) uploads (plane TransferDirection.phone_to_laptop)

finalize_without_overwrite-Picked_example :
    Ends
      (Picked config memory-IsLawful transfer_id file_id "/home/notes.txt" "/downloads/notes.txt"
        candidate_rounds 0
        (plane TransferDirection.phone_to_laptop))
      (λ _ _. ⊥)
      (Untouched config memory-IsLawful transfer_id file_id "/home/notes.txt" "/downloads/notes.txt"
        (plane TransferDirection.phone_to_laptop))
      (finalize_without_overwrite config transfer_id file_id "/home/notes.txt"
        "/downloads/notes.txt"
        (plane TransferDirection.phone_to_laptop))
finalize_without_overwrite-Picked_example =
    finalize_without_overwrite-Picked config memory-IsLawful transfer_id file_id "/home/notes.txt"
      "/downloads/notes.txt" (plane TransferDirection.phone_to_laptop)

handle_download-Serves_example :
    Ends
      (λ answer q.
        Serves config transfer_id file_id [] 0 (plane TransferDirection.laptop_to_phone) answer
        × (q ≡ plane TransferDirection.laptop_to_phone))
      (λ _ q. q ≡ plane TransferDirection.laptop_to_phone)
      (λ q. q ≡ plane TransferDirection.laptop_to_phone)
      (handle_download config transfer_id file_id [] 0 (plane TransferDirection.laptop_to_phone))
handle_download-Serves_example =
    handle_download-Serves config transfer_id file_id [] 0 (plane TransferDirection.laptop_to_phone)

checkpoint-AllDurable_example :
    Ends
      (λ _. AllDurable config memory-IsLawful transfer_id file_id "/downloads/notes.txt" offer [])
      (λ _ _. ⊥)
      (Receiving config memory-IsLawful transfer_id file_id "/downloads/notes.txt" offer [])
      (checkpoint config transfer_id file_id (plane TransferDirection.phone_to_laptop))
checkpoint-AllDurable_example =
    checkpoint-AllDurable config memory-IsLawful transfer_id file_id "/downloads/notes.txt" offer []
      (plane TransferDirection.phone_to_laptop) receiving

-- The first two bytes of three.
abbrev first_request : UploadRequest
first_request = request "2" (8 ∷ 9 ∷ [])

first_announced : announced 2 0 file first_request ≡ some ("nonce", 2)
unfolding announced fits parse_non_negative_integer
first_announced = refl

first_opens :
    decrypt_transfer_chunk aead
      (received_chunk config transfer_id file_id 0 2 "nonce" (8 ∷ 9 ∷ []))
      "secret"
    ≡ ok (8 ∷ 9 ∷ [])
unfolding decrypt_transfer_chunk
first_opens = refl

handle_upload-Delivered_example :
    Ends
      (λ answer q.
        (answer ≡ accepted 2 false)
        × Receiving config memory-IsLawful transfer_id file_id "/downloads/notes.txt" offer
            (8 ∷ 9 ∷ [])
            q)
      (λ _ _. ⊥)
      (λ _. ⊥)
      (handle_upload config transfer_id file_id 0 first_request
        (plane TransferDirection.phone_to_laptop))
unfolding receiving parse_non_negative_integer
handle_upload-Delivered_example =
    handle_upload-Delivered config memory-IsLawful memory-Works transfer_id file_id
      "/downloads/notes.txt" offer (omega arith) [] (plane TransferDirection.phone_to_laptop)
      receiving first_request "nonce" 2 (8 ∷ 9 ∷ []) (8 ∷ 9 ∷ []) first_announced refl refl refl
      first_opens (omega arith)
