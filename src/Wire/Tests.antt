-- ===== src/Wire/Tests.antt =====
-- Concrete values for the guards of src/shared/wire.ts.
use vidyut.Prelude.{◌≡◌, refl, String, true, some}
use vidyut.Wire.Number.{natural, natural?, is_safe_integer, is_non_negative, is_finite}
use vidyut.Wire.Patterns.{is_id}
use vidyut.Wire.Json.{Json, Fields, obj, field, end, str, num, as_object, as_string, get}
use vidyut.Wire.Guards.{is_version_one, id_ok}
use vidyut.Wire.Frames.{PayloadFrame, is_payload_frame, frame_fields, alternative_fields}
use vidyut.Wire.Browse.{
  BrowseRequest, is_browse_request, request_fields, list_fields, pull_fields, thumb_fields,
  search_fields,
}
use vidyut.Wire.Read.{is_payload_frame-read, read_frame}
use vidyut.Wire.Requests.{is_browse_request-read, read_request, keeps_limits}

abbrev frame : Json
frame = obj (
    field "v" (num (natural 1)) (
      field "type" (str "text") (
        field "mime" (str "text/plain") (
          field "origin" (str "phone") (
            field "ts" (num (natural 5))
              (field "nonce" (str "n") (field "payload" (str "aGk=") end)))))))

frame_passes : is_payload_frame frame ≡ true
unfolding is_payload_frame frame_fields alternative_fields is_version_one natural? is_safe_integer
    is_non_negative is_finite
frame_passes = refl

is_payload_frame-read_example :
    (fs : Fields) × (as_object frame ≡ some fs)
    × (f : PayloadFrame) × (read_frame fs ≡ some f)
    × (is_finite f.ts ≡ true)
is_payload_frame-read_example = is_payload_frame-read frame frame_passes

abbrev search : Json
search = obj (
    field "v" (num (natural 1)) (
      field "kind" (str "browse_search")
        (field "requestId" (str "request-0123456789") (field "query" (str "notes") end))))

search_passes : is_browse_request search ≡ true
unfolding is_browse_request request_fields list_fields pull_fields thumb_fields search_fields
    is_version_one natural? is_safe_integer is_non_negative id_ok is_id
search_passes = refl

is_browse_request-read_example :
    (fs : Fields) × (id : String) × (kind : String) × (as_object search ≡ some fs)
    × (as_string (get "requestId" fs) ≡ some id)
    × (is_id id ≡ true)
    × (as_string (get "kind" fs) ≡ some kind)
    × (r : BrowseRequest) × (read_request id kind fs ≡ some r)
    × (keeps_limits r ≡ true)
is_browse_request-read_example = is_browse_request-read search search_passes
