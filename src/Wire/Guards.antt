-- ===== src/Wire/Guards.antt =====
-- `isTransferOffer`, `isTransferControlMessage` and their parts, of src/shared/wire.ts.
use vidyut.Prelude.{
  String, Bool, false, not, ◌&&◌, ◌||◌, List, map, Option, none, some, leb, ltb, ◌==◌, all, length,
  str_eq, if◌then◌else◌, all_distinct,
}
use vidyut.Wire.Number.{Number, natural?, is_finite, at_least}
use vidyut.Wire.Patterns.{is_id, is_sha256_hex, is_filename, is_relative_folder}
use vidyut.Wire.Json.{
  Json, Fields, obj, entries, get, as_object, as_array, as_string, as_number, as_bool, is_some,
  test, optional,
}

-- `isNonNegativeSafeInteger`
unfoldable pub is_natural : Option Json → Bool
is_natural j = test (λ n. is_some (natural? n)) (as_number j)

-- The same with `> 0`.
unfoldable pub is_positive : Option Json → Bool
is_positive j = test (λ n. test (ltb 0) (natural? n)) (as_number j)

-- `x === 1`
unfoldable pub is_version_one : Option Json → Bool
is_version_one j = test (λ n. test (◌==◌ 1) (natural? n)) (as_number j)

-- `isId`
unfoldable pub id_ok : Option Json → Bool
id_ok j = test is_id (as_string j)

-- `isSha256Hex`
unfoldable pub sha256_ok : Option Json → Bool
sha256_ok j = test is_sha256_hex (as_string j)

abbrev pub is_text : Option Json → Bool
is_text j = is_some (as_string j)

abbrev pub is_non_empty_text : Option Json → Bool
is_non_empty_text j = test (λ s. not (str_eq s "")) (as_string j)

abbrev pub end_after : Number → Option Json → Bool
end_after start j = test (λ e. is_finite e && at_least e start) (as_number j)

-- One value of `stages`.
unfoldable pub is_span : Json → Bool
is_span j =
    test
      (λ fs.
        test (λ start. is_finite start && optional (end_after start) (get "endMs" fs))
          (as_number (get "startMs" fs)))
      (as_object j)

abbrev pub is_stages : Option Json → Bool
is_stages (some (obj fs)) = all (λ kv. is_span kv.1) (entries fs)
is_stages _ = false

-- One element of `attempts`.
unfoldable pub is_attempt : Json → Bool
is_attempt j =
    test (λ fs. is_natural (get "attempt" fs) && is_stages (get "stages" fs)) (as_object j)

-- `isTransferTiming`
unfoldable pub is_transfer_timing : Json → Bool
is_transfer_timing j =
    test
      (λ fs.
        is_version_one (get "v" fs)
        && (is_natural (get "wallAnchorMs" fs)
            && (optional is_natural (get "offerWallMs" fs)
                && (optional is_natural (get "acceptWallMs" fs)
                    && test (λ l. leb (length l) 4 && all is_attempt l)
                        (as_array (get "attempts" fs))))))
      (as_object j)

abbrev pub timing_json : Option Json → Bool
timing_json j = test is_transfer_timing j

abbrev pub is_boolean : Option Json → Bool
is_boolean j = is_some (as_bool j)

-- `isTransferFileOffer` on the properties of the value
unfoldable pub file_offer_fields : Fields → Bool
file_offer_fields fs =
    id_ok (get "fileId" fs)
    && (test is_filename (as_string (get "filename" fs))
        && (is_non_empty_text (get "mime" fs)
            && (is_natural (get "size" fs)
                && (is_natural (get "lastModifiedMs" fs)
                    && (optional is_boolean (get "lastModifiedKnown" fs)
                        && (sha256_ok (get "sha256" fs)
                            && (optional timing_json (get "senderTiming" fs)
                                && optional (λ j. test is_relative_folder (as_string j))
                                    (get "folder" fs))))))))

unfoldable pub is_transfer_file_offer : Json → Bool
is_transfer_file_offer j = test file_offer_fields (as_object j)

abbrev pub text_or_empty : Option String → String
text_or_empty none = ""
text_or_empty (some s) = s

abbrev pub fields_or_end : Option Fields → Fields
fields_or_end none = Fields.end
fields_or_end (some fs) = fs

-- `file.fileId` of an element that has passed.
abbrev pub file_id_of : Json → String
file_id_of j = text_or_empty (as_string (get "fileId" (fields_or_end (as_object j))))

abbrev pub is_direction : Option Json → Bool
is_direction j = test (λ s. str_eq s "laptop_to_phone" || str_eq s "phone_to_laptop") (as_string j)

unfoldable pub is_file_list : List Json → Bool
is_file_list l =
    ltb 0 (length l)
    && (leb (length l) 100 && (all is_transfer_file_offer l && all_distinct (map file_id_of l)))

unfoldable pub offer_fields : Fields → Bool
offer_fields fs =
    id_ok (get "transferId" fs)
    && (id_ok (get "batchId" fs)
        && (is_non_empty_text (get "origin" fs)
            && (is_direction (get "direction" fs)
                && (is_natural (get "createdAtMs" fs)
                    && test is_file_list (as_array (get "files" fs))))))

unfoldable pub is_transfer_offer : Json → Bool
is_transfer_offer j = test offer_fields (as_object j)

abbrev pub is_offer : Option Json → Bool
is_offer j = test is_transfer_offer j

-- `isTransferControlMessage` on the kind and the properties
unfoldable pub control_fields : String → Fields → Bool
control_fields kind fs =
    if str_eq kind "transfer_offer"
    then is_offer (get "offer" fs)
    else if str_eq kind "transfer_accept"
    then id_ok (get "transferId" fs)
      && (id_ok (get "fileId" fs)
          && (is_natural (get "confirmedOffset" fs)
              && optional is_positive (get "maxChunkBytes" fs)))
    else if str_eq kind "transfer_progress"
    then id_ok (get "transferId" fs)
      && (id_ok (get "fileId" fs) && is_natural (get "confirmedOffset" fs))
    else if str_eq kind "transfer_pause"
        || str_eq kind "transfer_resume"
        || str_eq kind "transfer_cancel"
    then id_ok (get "transferId" fs) && optional id_ok (get "fileId" fs)
    else if str_eq kind "transfer_file_complete"
    then id_ok (get "transferId" fs) && (id_ok (get "fileId" fs) && sha256_ok (get "sha256" fs))
    else if str_eq kind "transfer_file_failed"
    then id_ok (get "transferId" fs)
      && (id_ok (get "fileId" fs) && is_non_empty_text (get "code" fs))
    else false

unfoldable pub is_transfer_control_message : Json → Bool
is_transfer_control_message j =
    test
      (λ fs.
        is_version_one (get "v" fs)
        && test (λ kind. control_fields kind fs) (as_string (get "kind" fs)))
      (as_object j)
