-- ===== src/Wire/Patterns.antt =====
-- The tests on texts of src/shared/wire.ts, over code points.
use Prim.Native.Char.{code}
use Prim.Native.String.{len}
use vidyut.Prelude.{
  ℕ, ◌+◌, String, Bool, true, false, not, ◌&&◌, ◌||◌, List, [], ◌∷◌, leb, ltb, ◌==◌, all, any,
  length, str_eq, if◌then◌else◌,
}

abbrev pub codes : String → List ℕ
codes String.[] = []
codes (String.◌∷◌ c s) = code c ∷ codes s

abbrev pub is_digit : ℕ → Bool
is_digit c = leb b'0' c && leb c b'9'

abbrev pub is_lower : ℕ → Bool
is_lower c = leb b'a' c && leb c b'z'

abbrev pub is_upper : ℕ → Bool
is_upper c = leb b'A' c && leb c b'Z'

-- `/^[a-f0-9]{64}$/`
unfoldable pub is_sha256_hex : String → Bool
is_sha256_hex s =
    length (codes s) == 64 && all (λ c. (leb b'a' c && leb c b'f') || is_digit c) (codes s)

-- `/^[A-Za-z0-9_-]{16,128}$/`
unfoldable pub is_id : String → Bool
is_id s =
    leb 16 (length (codes s))
    && leb (length (codes s)) 128
    && all (λ c. is_upper c || is_lower c || is_digit c || c == b'_' || c == b'-') (codes s)

-- `/[\u0000-\u001f\u007f]/`
abbrev pub is_control : ℕ → Bool
is_control c = leb c 31 || c == 127

abbrev pub is_slash : ℕ → Bool
is_slash c = c == b'/'

abbrev pub is_backslash : ℕ → Bool
is_backslash c = c == 92

-- `s.length`: a code point above 0xffff is two UTF-16 units.
abbrev pub utf16_length : List ℕ → ℕ
utf16_length [] = 0
utf16_length (c ∷ cs) = (if ltb 0xffff c then 2 else 1) + utf16_length cs

-- The file name tests of `isTransferFileOffer`. `len` counts the bytes of UTF-8.
unfoldable pub is_filename : String → Bool
is_filename s =
    not (str_eq s "")
    && (leb (len s) 255
        && (not (any is_control (codes s))
            && (not (any is_slash (codes s))
                && (not (any is_backslash (codes s))
                    && (not (str_eq s ".") && not (str_eq s ".."))))))

abbrev push_code : ℕ → List (List ℕ) → List (List ℕ)
push_code c [] = (c ∷ []) ∷ []
push_code c (seg ∷ segs) = (c ∷ seg) ∷ segs

-- `value.split("/")`
abbrev pub split_slash : List ℕ → List (List ℕ)
split_slash [] = [] ∷ []
split_slash (c ∷ cs) = if is_slash c then [] ∷ split_slash cs else push_code c (split_slash cs)

-- `segment.length > 0 && segment !== "." && segment !== ".."`
abbrev pub is_plain : List ℕ → Bool
is_plain [] = false
is_plain (c ∷ []) = not (c == b'.')
is_plain (c ∷ d ∷ []) = not (c == b'.' && d == b'.')
is_plain (c ∷ d ∷ e ∷ cs) = true

-- `isRelativeFolder` on a text
unfoldable pub is_relative_folder : String → Bool
is_relative_folder s =
    not (str_eq s "")
    && (leb (len s) 1024
        && (not (any (λ c. is_control c || is_backslash c) (codes s))
            && all is_plain (split_slash (codes s))))

-- White space for `trim`: ECMAScript's WhiteSpace and LineTerminator.
abbrev pub is_space : ℕ → Bool
is_space c =
    (leb 9 c && leb c 13)
    || c == 32
    || c == 160
    || c == 0x1680
    || (leb 0x2000 c && leb c 0x200a)
    || c == 0x2028
    || c == 0x2029
    || c == 0x202f
    || c == 0x205f
    || c == 0x3000
    || c == 0xfeff

abbrev pub trim_start : List ℕ → List ℕ
trim_start [] = []
trim_start (c ∷ cs) = if is_space c then trim_start cs else c ∷ cs

abbrev cons_trimmed : ℕ → List ℕ → List ℕ
cons_trimmed c [] = if is_space c then [] else c ∷ []
cons_trimmed c (d ∷ ds) = c ∷ d ∷ ds

abbrev pub trim_end : List ℕ → List ℕ
trim_end [] = []
trim_end (c ∷ cs) = cons_trimmed c (trim_end cs)

abbrev pub trim : List ℕ → List ℕ
trim cs = trim_end (trim_start cs)
