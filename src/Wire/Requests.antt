-- ===== src/Wire/Requests.antt =====
-- The request that stands behind `isBrowseRequest` of src/shared/wire.ts.
use vidyut.Prelude.{
  ◌≡◌, refl, String, Bool, true, not, ◌&&◌, ◌||◌, List, [], ◌∷◌, Option, none, some, arith, str_eq,
  length, all, leb, ltb, Bool-cases, Option-cases, inl, inr, if◌then◌else◌,
}
use vidyut.Wire.Patterns.{is_id}
use vidyut.Wire.Json.{Json, Fields, get, as_object, as_array, as_string, test, optional, is_some}
use vidyut.Wire.Guards.{is_text, id_ok}
use vidyut.Wire.Frames.{is_the_text}
use vidyut.Wire.Browse.{
  BrowseRequest, BrowseThumbSize, is_browse_request, request_fields, list_fields, pull_fields,
  thumb_fields, search_fields, is_query, is_path_list, is_absent, is_thumb_size,
}

-- A property that is absent, or a text.
abbrev given : Option String → Option (Option String)
given none = none
given (some s) = some (some s)

abbrev optional_text : Option Json → Option (Option String)
optional_text none = some none
optional_text (some j) = given (as_string (some j))

abbrev cons_text : Option String → Option (List String) → Option (List String)
cons_text (some s) (some ss) = some (s ∷ ss)
cons_text _ _ = none

abbrev texts : List Json → Option (List String)
texts [] = some []
texts (j ∷ js) = cons_text (as_string (some j)) (texts js)

abbrev optional_size : Option Json → Option (Option BrowseThumbSize)
optional_size none = some none
optional_size (some j) =
    if is_the_text "small" (some j)
    then some (some BrowseThumbSize.small)
    else if is_the_text "large" (some j)
    then some (some BrowseThumbSize.large)
    else none

abbrev list_of : String → Option (Option String) → Option (Option String) → Option BrowseRequest
list_of id (some root) (some path) = some (BrowseRequest.browse_list id root path)
list_of id _ _ = none

abbrev pull_of : String → Option String → Option (List String) → Option BrowseRequest
pull_of id (some root) (some paths) = some (BrowseRequest.browse_pull id root paths)
pull_of id _ _ = none

abbrev thumb_of :
    String → Option String → Option String → Option (Option BrowseThumbSize) → Option BrowseRequest
thumb_of id (some root) (some path) (some size) =
    some (BrowseRequest.browse_thumb id root path size)
thumb_of id _ _ _ = none

abbrev search_of :
    String → Option String → Option (Option String) → Option (Option String) → Option BrowseRequest
search_of id (some query) (some root) (some path) =
    some (BrowseRequest.browse_search id query root path)
search_of id _ _ _ = none

abbrev pub read_request : String → String → Fields → Option BrowseRequest
read_request id kind fs =
    if str_eq kind "browse_list"
    then list_of id (optional_text (get "root" fs)) (optional_text (get "path" fs))
    else if str_eq kind "browse_pull"
    then pull_of id (as_string (get "root" fs))
        (elim (as_array (get "paths" fs)) [ none ↦ none | some l ↦ texts l ])
    else if str_eq kind "browse_thumb"
    then thumb_of id (as_string (get "root" fs)) (as_string (get "path" fs))
        (optional_size (get "size" fs))
    else if str_eq kind "browse_search"
    then search_of id (as_string (get "query" fs)) (optional_text (get "root" fs))
        (optional_text (get "path" fs))
    else none

abbrev path_in_root : Option String → Option String → Bool
path_in_root root none = true
path_in_root root (some path) = is_some root

-- A path only with its root, one to a hundred paths, a path that is not empty, a query of two
-- characters and at most a hundred.
abbrev pub keeps_limits : BrowseRequest → Bool
keeps_limits (BrowseRequest.browse_list id root path) = path_in_root root path
keeps_limits (BrowseRequest.browse_pull id root paths) =
    ltb 0 (length paths) && leb (length paths) 100
keeps_limits (BrowseRequest.browse_thumb id root path size) = not (str_eq path "")
keeps_limits (BrowseRequest.browse_search id query root path) =
    is_query query && path_in_root root path

abbrev Read : Option BrowseRequest → Type 0
Read o = (r : BrowseRequest) × (o ≡ some r) × (keeps_limits r ≡ true)

list-Read :
    (id : String) (root path : Option Json)
    → ((is_absent root && is_absent path) || (is_text root && optional is_text path)) ≡ true
    → Read (list_of id (optional_text root) (optional_text path))
list-Read id none none h = (BrowseRequest.browse_list id none none, refl, refl)
list-Read id none (some p) h = absurd (cc h)
list-Read id (some r) none h = elim (Option-cases (as_string (some r))) [
  | inl e ↦ absurd (ground arith)
  | inr (s, e) ↦ rw (e, list_of) (BrowseRequest.browse_list id (some s) none, refl, refl)
]
list-Read id (some r) (some p) h = elim (Option-cases (as_string (some r))) [
  | inl e ↦ absurd (ground arith)
  | inr (s, e) ↦ elim (Option-cases (as_string (some p))) [
    | inl e' ↦ absurd (ground arith)
    | inr (t, e') ↦ rw (e, e') (BrowseRequest.browse_list id (some s) (some t), refl, refl)
  ]
]

texts_read :
    (l : List Json)
    → all (λ j. is_text (some j)) l ≡ true
    → (ss : List String) × (texts l ≡ some ss) × (length ss ≡ length l)
texts_read [] h = ([], refl, refl)
texts_read (j ∷ js) h = elim (Option-cases (as_string (some j))) [
  | inl e ↦ absurd (ground arith)
  | inr (s, e) ↦
      let (ss, reads, long) = texts_read js (ground arith) in
      (s ∷ ss, rw (e, reads, cons_text), rw long)
]

pull-Read :
    (id : String) (root : Option String) (paths : Option (List Json))
    → (is_some root && test is_path_list paths) ≡ true
    → Read (pull_of id root (elim paths [ none ↦ none | some l ↦ texts l ]))
pull-Read id none paths h = absurd (cc h)
pull-Read id (some root) none h = absurd (cc h)
pull-Read id (some root) (some l) h =
    let (ss, reads, long) = texts_read l (ground arith) in
    (BrowseRequest.browse_pull id root ss, rw reads, rw long (ground arith))

size_read :
    (size : Option Json)
    → optional is_thumb_size size ≡ true
    → (s : Option BrowseThumbSize) × (optional_size size ≡ some s)
size_read none h = (none, refl)
size_read (some j) h = elim (Bool-cases (is_the_text "small" (some j))) [
  | inl e ↦ (some BrowseThumbSize.small, rw e)
  | inr e ↦ (some BrowseThumbSize.large, rw (e, rw e at h))
]

thumb-Read :
    (id : String) (root path : Option String) (size : Option Json)
    → (is_some root && (test (λ s. not (str_eq s "")) path && optional is_thumb_size size)) ≡ true
    → Read (thumb_of id root path (optional_size size))
thumb-Read id none path size h = absurd (cc h)
thumb-Read id (some root) none size h = absurd (cc h)
thumb-Read id (some root) (some path) size h =
    let (s, reads) = size_read size (ground arith) in
    (BrowseRequest.browse_thumb id root path s, rw reads, ground arith)

search-Read :
    (id : String) (query : Option String) (root path : Option Json)
    → (test is_query query
        && (optional is_text root && (is_absent path || (is_text root && is_text path))))
      ≡ true
    → Read (search_of id query (optional_text root) (optional_text path))
search-Read id none root path h = absurd (cc h)
search-Read id (some q) none none h =
    (BrowseRequest.browse_search id q none none, refl, ground arith)
search-Read id (some q) none (some p) h = absurd (ground arith)
search-Read id (some q) (some r) none h = elim (Option-cases (as_string (some r))) [
  | inl e ↦ absurd (ground arith)
  | inr (s, e) ↦
      rw (e, search_of) (BrowseRequest.browse_search id q (some s) none, refl, ground arith)
]
search-Read id (some q) (some r) (some p) h = elim (Option-cases (as_string (some r))) [
  | inl e ↦ absurd (ground arith)
  | inr (s, e) ↦ elim (Option-cases (as_string (some p))) [
    | inl e' ↦ absurd (ground arith)
    | inr (t, e') ↦
        rw (e, e') (BrowseRequest.browse_search id q (some s) (some t), refl, ground arith)
  ]
]

kind-Read :
    (id kind : String) (fs : Fields)
    → request_fields kind fs ≡ true
    → Read (read_request id kind fs)
unfolding request_fields list_fields pull_fields thumb_fields search_fields
kind-Read id kind fs h = elim (Bool-cases (str_eq kind "browse_list")) [
  | inl e ↦ rw e (list-Read id (get "root" fs) (get "path" fs) (rw e at h))
  | inr e ↦ elim (Bool-cases (str_eq kind "browse_pull")) [
    | inl p ↦
        rw (e, p)
          (pull-Read id (as_string (get "root" fs)) (as_array (get "paths" fs)) (rw (e, p) at h))
    | inr p ↦ elim (Bool-cases (str_eq kind "browse_thumb")) [
      | inl t ↦
          rw (e, p, t)
            (thumb-Read id (as_string (get "root" fs)) (as_string (get "path" fs)) (get "size" fs)
              (rw (e, p, t) at h))
      | inr t ↦ elim (Bool-cases (str_eq kind "browse_search")) [
        | inl s ↦
            rw (e, p, t, s)
              (search-Read id (as_string (get "query" fs)) (get "root" fs) (get "path" fs)
                (rw (e, p, t, s) at h))
        | inr s ↦ absurd (cc (rw (e, p, t, s) at h))
      ]
    ]
  ]
]

-- A value that `isBrowseRequest` lets through is an object with a `requestId` of the pattern that
-- reads as a request: a path comes with its root, a pull names one to a hundred paths, a thumbnail's
-- path is not empty, and a query has two characters behind `trim` and at most a hundred.
pub is_browse_request-read :
    (j : Json)
    → is_browse_request j ≡ true
    → (fs : Fields) × (id : String) × (kind : String) × (as_object j ≡ some fs)
      × (as_string (get "requestId" fs) ≡ some id)
      × (is_id id ≡ true)
      × (as_string (get "kind" fs) ≡ some kind)
      × (r : BrowseRequest) × (read_request id kind fs ≡ some r)
      × (keeps_limits r ≡ true)
unfolding is_browse_request id_ok
is_browse_request-read j h = elim (Option-cases (as_object j)) [
  | inl e ↦ absurd (ground arith)
  | inr (fs, e) ↦ elim (Option-cases (as_string (get "requestId" fs))) [
    | inl i ↦ absurd (ground arith)
    | inr (id, i) ↦ elim (Option-cases (as_string (get "kind" fs))) [
      | inl k ↦ absurd (ground arith)
      | inr (kind, k) ↦
          let (r, reads, limits) = kind-Read id kind fs (ground arith) in
          (fs, id, kind, e, i, ground arith, k, r, reads, limits)
    ]
  ]
]
