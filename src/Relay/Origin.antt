-- ===== src/Relay/Origin.antt =====
-- src/relay/local-origin.ts, over code points. `new URL` is a parameter. `toLowerCase` is that of
-- ASCII: no other letter has one of the tested characters as its lower case.
pub mod Hosts
use vidyut.Prelude.{
  ℕ, zero, suc, ◌+◌, ◌/◌, ◌%◌, ◌≡◌, refl, sym, ap, ◌∙◌, ◌⊎◌, inl, inr, String, Bool, true, false,
  not, ◌&&◌, ◌||◌, List, [], ◌∷◌, ◌++◌, map, Option, none, some, ltb, ◌==◌, list_eq, str_eq, arith,
  Option-cases, Bool-cases, if◌then◌else◌,
}
use mathlib.Core.List.{append_assoc}
use vidyut.Wire.Patterns.{codes, is_upper}

-- The digits of a number in front of `rest`: one more step than the number itself is enough.
abbrev pub digits : ℕ → ℕ → List ℕ → List ℕ
digits zero n rest = rest
digits (suc fuel) n rest =
    if ltb n 10 then (48 + n) ∷ rest else digits fuel (n / 10) ((48 + n % 10) ∷ rest)

-- `String(port)`
abbrev pub decimal : ℕ → List ℕ
decimal n = digits (suc n) n []

abbrev pub to_lower_case : List ℕ → List ℕ
to_lower_case = map (λ c. if is_upper c then c + 32 else c)

abbrev pub is_loopback_name : List ℕ → Bool
is_loopback_name name =
    list_eq ◌==◌ name (codes "127.0.0.1")
    || list_eq ◌==◌ name (codes "localhost")
    || list_eq ◌==◌ name (codes "[::1]")

abbrev pub grow : ℕ → Option (List ℕ × List ℕ) → Option (List ℕ × List ℕ)
grow c none = none
grow c (some (before, after)) = some (c ∷ before, after)

-- What stands before and behind the first `x`.
abbrev pub split_first : ℕ → List ℕ → Option (List ℕ × List ℕ)
split_first x [] = none
split_first x (c ∷ cs) = if c == x then some ([], cs) else grow c (split_first x cs)

abbrev pub or_here : ℕ → ℕ → List ℕ → Option (List ℕ × List ℕ) → Option (List ℕ × List ℕ)
or_here x c cs none = if c == x then some ([], cs) else none
or_here x c cs (some found) = grow c (some found)

-- What stands before and behind the last `x`.
abbrev pub split_last : ℕ → List ℕ → Option (List ℕ × List ℕ)
split_last x [] = none
split_last x (c ∷ cs) = or_here x c cs (split_last x cs)

abbrev pub port_behind : List ℕ → Option (List ℕ)
port_behind [] = none
port_behind (c ∷ cs) = if c == b':' then some cs else none

abbrev pub bracketed : List ℕ → Option (List ℕ × List ℕ) → List ℕ × Option (List ℕ)
bracketed host none = (host, none)
bracketed host (some (before, after)) = (before ++ (b']' ∷ []), port_behind after)

abbrev pub unbracketed : List ℕ → Option (List ℕ × List ℕ) → List ℕ × Option (List ℕ)
unbracketed host none = (host, none)
unbracketed host (some (before, after)) = (before, some after)

abbrev pub starts_bracket : List ℕ → Bool
starts_bracket [] = false
starts_bracket (c ∷ cs) = c == b'['

unfoldable pub split_host : List ℕ → List ℕ × Option (List ℕ)
split_host host =
    if starts_bracket host
    then bracketed host (split_first b']' host)
    else unbracketed host (split_last b':' host)

abbrev pub port_is : ℕ → Option (List ℕ) → Bool
port_is port none = true
port_is port (some text) = list_eq ◌==◌ text (decimal port)

abbrev loopback_parts : ℕ → List ℕ × Option (List ℕ) → Bool
loopback_parts port (name, text) = is_loopback_name name && port_is port text

-- `isLoopbackHost`; a header that is missing or empty is none.
unfoldable pub is_loopback_host : Option (List ℕ) → ℕ → Bool
unfolding split_host
is_loopback_host none port = false
is_loopback_host (some []) port = false
is_loopback_host (some (c ∷ cs)) port = loopback_parts port (split_host (to_lower_case (c ∷ cs)))

pub record Url : Type 0 where
  pub protocol : List ℕ
  pub hostname : List ℕ
  pub port : List ℕ

pub record Request : Type 0 where
  pub method : String
  pub host : Option (List ℕ)
  pub origin : Option (List ℕ)
  pub sec_fetch_site : Option String

abbrev pub changes_state : String → Bool
changes_state method = not (str_eq method "GET") && not (str_eq method "HEAD")

abbrev pub is_cross_site : Option String → Bool
is_cross_site none = false
is_cross_site (some site) = not (str_eq site "same-origin") && not (str_eq site "none")

module _ (parse_url : List ℕ → Option Url) where
  unfoldable pub is_loopback_origin : List ℕ → ℕ → Bool
  is_loopback_origin origin port = elim (parse_url origin) [
    | none ↦ false
    | some url ↦
        list_eq ◌==◌ url.protocol (codes "http:")
        && (is_loopback_name url.hostname && list_eq ◌==◌ url.port (decimal port))
  ]

  unfoldable pub is_trusted_web_socket_origin : Option (List ℕ) → ℕ → Bool
  unfolding is_loopback_origin
  is_trusted_web_socket_origin none port = true
  is_trusted_web_socket_origin (some origin) port = is_loopback_origin origin port

  -- The code of the 403 response, where there is one.
  unfoldable pub reject_untrusted_control_request : Request → ℕ → Option String
  unfolding is_trusted_web_socket_origin is_loopback_host
  reject_untrusted_control_request r port =
      if not (is_loopback_host r.host port)
      then some "untrusted_host"
      else if not (is_trusted_web_socket_origin r.origin port)
      then some "untrusted_origin"
      else if changes_state r.method && is_cross_site r.sec_fetch_site
      then some "cross_site_request"
      else none
