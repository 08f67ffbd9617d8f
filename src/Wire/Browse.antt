-- ===== src/Wire/Browse.antt =====
-- Requests to browse the shared folders, of src/shared/wire.ts: their type and `isBrowseRequest`.
use vidyut.Prelude.{
  ℕ, String, Bool, true, false, ◌&&◌, ◌||◌, List, Option, none, some, leb, ltb, all, length, str_eq,
  if◌then◌else◌,
}
use vidyut.Wire.Patterns.{codes, trim, utf16_length}
use vidyut.Wire.Json.{Json, Fields, get, as_object, as_array, as_string, test, optional}
use vidyut.Wire.Guards.{is_text, is_non_empty_text, is_version_one, id_ok}
use vidyut.Wire.Frames.{is_the_text}

pub data BrowseThumbSize : Type 0 where
  small large : BrowseThumbSize

-- requestId, and: root and path; root and paths; root, path and size; query, root and path.
pub data BrowseRequest : Type 0 where
  browse_list : String → Option String → Option String → BrowseRequest
  browse_pull : String → String → List String → BrowseRequest
  browse_thumb : String → String → String → Option BrowseThumbSize → BrowseRequest
  browse_search : String → String → Option String → Option String → BrowseRequest

abbrev pub min_search_query_length : ℕ
min_search_query_length = 2

abbrev pub max_search_query_length : ℕ
max_search_query_length = 100

unfoldable pub is_browse_kind : String → Bool
is_browse_kind kind =
    str_eq kind "browse_list"
    || str_eq kind "browse_pull"
    || str_eq kind "browse_thumb"
    || str_eq kind "browse_search"

abbrev pub is_absent : Option Json → Bool
is_absent none = true
is_absent (some j) = false

unfoldable pub list_fields : Fields → Bool
list_fields fs =
    (is_absent (get "root" fs) && is_absent (get "path" fs))
    || (is_text (get "root" fs) && optional is_text (get "path" fs))

abbrev pub is_path_list : List Json → Bool
is_path_list l = ltb 0 (length l) && (leb (length l) 100 && all (λ j. is_text (some j)) l)

unfoldable pub pull_fields : Fields → Bool
pull_fields fs = is_text (get "root" fs) && test is_path_list (as_array (get "paths" fs))

abbrev pub is_thumb_size : Option Json → Bool
is_thumb_size j = is_the_text "small" j || is_the_text "large" j

unfoldable pub thumb_fields : Fields → Bool
thumb_fields fs =
    is_text (get "root" fs)
    && (is_non_empty_text (get "path" fs) && optional is_thumb_size (get "size" fs))

abbrev pub is_query : String → Bool
is_query s =
    leb min_search_query_length (utf16_length (trim (codes s)))
    && leb (utf16_length (codes s)) max_search_query_length

unfoldable pub search_fields : Fields → Bool
search_fields fs =
    test is_query (as_string (get "query" fs))
    && (optional is_text (get "root" fs)
        && (is_absent (get "path" fs) || (is_text (get "root" fs) && is_text (get "path" fs))))

unfoldable pub request_fields : String → Fields → Bool
request_fields kind fs =
    if str_eq kind "browse_list"
    then list_fields fs
    else if str_eq kind "browse_pull"
    then pull_fields fs
    else if str_eq kind "browse_thumb"
    then thumb_fields fs
    else if str_eq kind "browse_search"
    then search_fields fs
    else false

unfoldable pub is_browse_request : Json → Bool
is_browse_request j =
    test
      (λ fs.
        is_version_one (get "v" fs)
        && (id_ok (get "requestId" fs)
            && test (λ kind. request_fields kind fs) (as_string (get "kind" fs))))
      (as_object j)
