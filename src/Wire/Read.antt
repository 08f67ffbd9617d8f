-- ===== src/Wire/Read.antt =====
-- The frame that stands behind `isPayloadFrame` of src/shared/wire.ts, property by property.
use vidyut.Prelude.{
  ◌≡◌, refl, String, Bool, true, ◌&&◌, Option, none, some, arith, str_eq, str_eq_iff, Option-cases,
  inl, inr, if◌then◌else◌,
}
use vidyut.Wire.Number.{Number, is_finite}
use vidyut.Wire.Json.{Json, Fields, get, as_object, as_string, as_number, test, optional, is_some}
use vidyut.Wire.Guards.{is_text, is_version_one}
use vidyut.Wire.Frames.{
  PayloadType, PayloadFrame, PayloadAlternative, is_payload_frame, frame_fields, alternative_fields,
  is_payload_type, is_payload_alternative,
}

abbrev pub type_of_text : String → Option PayloadType
type_of_text s =
    if str_eq s "image"
    then some PayloadType.image
    else if str_eq s "text"
    then some PayloadType.text
    else if str_eq s "link"
    then some PayloadType.link
    else none

-- `typeof x === "string"`
abbrev pub bind {ℓ ℓ'} : {A : Type ℓ} {B : Type ℓ'} → Option A → (A → Option B) → Option B
bind none k = none
bind (some a) k = k a

abbrev alternative_of : Option String → Option String → Option String → Option PayloadAlternative
alternative_of (some mime) (some nonce) (some payload) =
    some (record { mime = mime; nonce = nonce; payload = payload })
alternative_of _ _ _ = none

abbrev read_alternative : Fields → Option PayloadAlternative
read_alternative fs =
    alternative_of (as_string (get "mime" fs)) (as_string (get "nonce" fs))
      (as_string (get "payload" fs))

abbrev read_optional_alternative : Option Json → Option (Option PayloadAlternative)
read_optional_alternative none = some none
read_optional_alternative (some j) =
    bind (bind (as_object j) read_alternative) λ alt. some (some alt)

abbrev pub frame_of :
    Option PayloadType
    → Option String
    → Option String
    → Option Number
    → Option String
    → Option String
    → Option (Option PayloadAlternative)
    → Option PayloadFrame
frame_of (some type) (some mime) (some origin) (some ts) (some nonce) (some payload) (some alt) =
    some (record {
      type = type;
      mime = mime;
      origin = origin;
      ts = ts;
      nonce = nonce;
      payload = payload;
      alt = alt;
    })
frame_of _ _ _ _ _ _ _ = none

abbrev pub read_frame : Fields → Option PayloadFrame
read_frame fs =
    frame_of (bind (as_string (get "type" fs)) type_of_text) (as_string (get "mime" fs))
      (as_string (get "origin" fs)) (as_number (get "ts" fs)) (as_string (get "nonce" fs))
      (as_string (get "payload" fs)) (read_optional_alternative (get "alt" fs))

read_text : (j : Option Json) → is_text j ≡ true → (s : String) × (as_string j ≡ some s)
read_text j h = elim (Option-cases (as_string j)) [ inl e ↦ absurd (ground arith) | inr r ↦ r ]

read_type :
    (j : Option Json)
    → is_payload_type j ≡ true
    → (t : PayloadType) × (bind (as_string j) type_of_text ≡ some t)
read_type j h = elim (Option-cases (as_string j)) [
  | inl e ↦ absurd (ground arith)
  | inr (s, e) ↦ elim (Option-cases (type_of_text s)) [
    | inl none_of ↦ absurd (ground arith)
    | inr (t, is_t) ↦ (t, rw e is_t)
  ]
]

read_finite :
    (j : Option Json)
    → test is_finite (as_number j) ≡ true
    → (x : Number) × (as_number j ≡ some x) × (is_finite x ≡ true)
read_finite j h = elim (Option-cases (as_number j)) [
  | inl e ↦ absurd (ground arith)
  | inr (x, e) ↦ (x, e, ground arith)
]

alternative_parts :
    (m n p : Option String)
    → (test (λ x. str_eq x "text/html") m && (is_some n && is_some p)) ≡ true
    → (a : PayloadAlternative) × (alternative_of m n p ≡ some a) × (a.mime ≡ "text/html")
alternative_parts (some mime) (some nonce) (some payload) h = (
  record { mime = mime; nonce = nonce; payload = payload },
  refl,
  (str_eq_iff mime "text/html").0 (ground arith),
)
alternative_parts none n p h = absurd (cc h)
alternative_parts (some mime) none p h = absurd (ground arith)
alternative_parts (some mime) (some nonce) none h = absurd (ground arith)

read_alternative_fields :
    (fs : Fields)
    → alternative_fields fs ≡ true
    → (a : PayloadAlternative) × (read_alternative fs ≡ some a) × (a.mime ≡ "text/html")
unfolding alternative_fields
read_alternative_fields fs h =
    alternative_parts (as_string (get "mime" fs)) (as_string (get "nonce" fs))
      (as_string (get "payload" fs)) h

read_optional :
    (j : Option Json)
    → optional is_payload_alternative j ≡ true
    → (a : Option PayloadAlternative) × (read_optional_alternative j ≡ some a)
read_optional none h = (none, refl)
read_optional (some j) h = elim (Option-cases (as_object j)) [
  | inl e ↦ absurd (ground arith)
  | inr (fs, e) ↦ let (a, ea, html) = read_alternative_fields fs (rw e at h) in (some a, rw (e, ea))
]

frame_parts :
    (t : Option PayloadType) (m o : Option String) (ts : Option Number) (n p : Option String)
    (a : Option (Option PayloadAlternative))
    → is_some t ≡ true
    → (is_some m && (is_some o && (test is_finite ts && (is_some n && (is_some p && is_some a)))))
      ≡ true
    → (f : PayloadFrame) × (frame_of t m o ts n p a ≡ some f) × (is_finite f.ts ≡ true)
frame_parts (some t) (some m) (some o) (some x) (some n) (some p) (some a) h k = (
  record { type = t; mime = m; origin = o; ts = x; nonce = n; payload = p; alt = a },
  refl,
  ground arith,
)
frame_parts none m o ts n p a h k = absurd (cc h)
frame_parts (some t) none o ts n p a h k = absurd (cc k)
frame_parts (some t) (some m) none ts n p a h k = absurd (cc k)
frame_parts (some t) (some m) (some o) none n p a h k = absurd (cc k)
frame_parts (some t) (some m) (some o) (some x) none p a h k = absurd (ground arith)
frame_parts (some t) (some m) (some o) (some x) (some n) none a h k = absurd (ground arith)
frame_parts (some t) (some m) (some o) (some x) (some n) (some p) none h k = absurd (ground arith)

tests_split :
    (v t m o x n p a a' : Bool)
    → (v && (t && (m && (o && (x && (n && (p && a))))))) ≡ true
    → (a ≡ true → a' ≡ true)
    → (t ≡ true) × ((m && (o && (x && (n && (p && a'))))) ≡ true)
tests_split v t m o x n p a a' h k = ground arith

some-is_some {ℓ} : {A : Type ℓ} (o : Option A) → (a : A) × (o ≡ some a) → is_some o ≡ true
some-is_some o (a, e) = rw e

fields_read :
    (fs : Fields)
    → frame_fields fs ≡ true
    → (f : PayloadFrame) × (read_frame fs ≡ some f) × (is_finite f.ts ≡ true)
unfolding frame_fields
fields_read fs h =
    let (type_ok, rest_ok) =
      tests_split (is_version_one (get "v" fs)) (is_payload_type (get "type" fs))
        (is_text (get "mime" fs)) (is_text (get "origin" fs))
        (test is_finite (as_number (get "ts" fs))) (is_text (get "nonce" fs))
        (is_text (get "payload" fs)) (optional is_payload_alternative (get "alt" fs)) _ h
        (λ e. some-is_some _ (read_optional (get "alt" fs) e)) in
    frame_parts _ _ _ _ _ _ _ (some-is_some _ (read_type (get "type" fs) type_ok)) rest_ok

-- A value that `isPayloadFrame` lets through is an object that reads as a frame, property by
-- property, with a finite `ts`.
pub is_payload_frame-read :
    (j : Json)
    → is_payload_frame j ≡ true
    → (fs : Fields) × (as_object j ≡ some fs)
      × (f : PayloadFrame) × (read_frame fs ≡ some f)
      × (is_finite f.ts ≡ true)
unfolding is_payload_frame frame_fields
is_payload_frame-read j h = elim (Option-cases (as_object j)) [
  | inl e ↦ absurd (ground arith)
  | inr (fs, e) ↦ let (f, reads, finite) = fields_read fs (rw e at h) in (fs, e, f, reads, finite)
]
