-- ===== src/Relay/Link.antt =====
-- `isOpenableLink` of src/relay/open-link.ts, over code points.
use vidyut.Prelude.{
  ℕ, ◌+◌, String, Bool, false, not, ◌&&◌, ◌||◌, List, [], ◌∷◌, Option, none, some, leb, ◌==◌, all,
  any, if◌then◌else◌,
}
use vidyut.Wire.Patterns.{
  codes, is_digit, is_lower, is_upper, is_control, is_space, trim, utf16_length,
}

-- A letter of the pattern, in either case.
abbrev pub lower : ℕ → ℕ
lower c = if is_upper c then c + 32 else c

abbrev pub strip : List ℕ → List ℕ → Option (List ℕ)
strip [] cs = some cs
strip (p ∷ ps) [] = none
strip (p ∷ ps) (c ∷ cs) = if lower c == p then strip ps cs else none

abbrev strip_optional_s : List ℕ → List ℕ
strip_optional_s [] = []
strip_optional_s (c ∷ cs) = if lower c == b's' then cs else c ∷ cs

-- What `/^https?:\/\//i` leaves behind it.
unfoldable pub strip_scheme : List ℕ → Option (List ℕ)
strip_scheme cs = elim (strip (b'h' ∷ b't' ∷ b't' ∷ b'p' ∷ []) cs) [
  | none ↦ none
  | some rest ↦ strip (b':' ∷ b'/' ∷ b'/' ∷ []) (strip_optional_s rest)
]

abbrev ends_authority : ℕ → Bool
ends_authority c = c == b'/' || c == b'?' || c == b'#'

-- `split(/[/?#]/)[0]`
abbrev pub authority : List ℕ → List ℕ
authority [] = []
authority (c ∷ cs) = if ends_authority c then [] else c ∷ authority cs

-- `[A-Za-z0-9._~%!$&'()*+,;=:@[\]-]`
abbrev pub is_authority_code : ℕ → Bool
is_authority_code c =
    is_upper c
    || is_lower c
    || is_digit c
    || c == b'.'
    || c == b'_'
    || c == b'~'
    || c == b'%'
    || c == b'!'
    || c == b'$'
    || c == b'&'
    || c == 39
    || c == b'('
    || c == b')'
    || c == b'*'
    || c == b'+'
    || c == b','
    || c == b';'
    || c == b'='
    || c == b':'
    || c == b'@'
    || c == b'['
    || c == b']'
    || c == b'-'

abbrev has_authority : List ℕ → Bool
has_authority [] = false
has_authority (c ∷ cs) = all is_authority_code (c ∷ cs)

abbrev behind_scheme : Option (List ℕ) → Bool
behind_scheme none = false
behind_scheme (some rest) = has_authority (authority rest)

abbrev pub is_blank : ℕ → Bool
is_blank c = is_space c || is_control c

unfoldable pub is_openable : List ℕ → Bool
is_openable text =
    leb (utf16_length text) 2048 && (not (any is_blank text) && behind_scheme (strip_scheme text))

unfoldable pub is_openable_link : String → Bool
is_openable_link raw = is_openable (trim (codes raw))
