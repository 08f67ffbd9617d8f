-- ===== src/Relay/Origin/Hosts.antt =====
-- Which Host headers src/relay/local-origin.ts lets through.
use vidyut.Prelude.{
  ℕ, Bool, ◌≡◌, refl, sym, ap, ◌∙◌, inl, inr, true, false, ◌&&◌, List, [], ◌∷◌, ◌++◌, Option, none, some,
  ◌==◌, list_eq, arith, and_split, Option-cases, Bool-cases,
}
use mathlib.Core.List.{append_assoc}
use vidyut.Relay.Origin.{
  split_first, split_last, grow, bracketed, unbracketed, starts_bracket, split_host, port_is, port_behind,
  decimal, to_lower_case, is_loopback_name, is_loopback_host, Url, Request,
  reject_untrusted_control_request, is_trusted_web_socket_origin, changes_state, is_cross_site,
}

list_eq-eq : (xs ys : List ℕ) → list_eq ◌==◌ xs ys ≡ true → xs ≡ ys
list_eq-eq [] [] h = refl
list_eq-eq (x ∷ xs) (y ∷ ys) h =
    let same : x ≡ y = ground arith in
    let rest : xs ≡ ys = list_eq-eq xs ys (ground arith) in rw (same, rest)
list_eq-eq [] (y ∷ ys) h = absurd (cc h)
list_eq-eq (x ∷ xs) [] h = absurd (cc h)

grow_parts :
    (c : ℕ) (o : Option (List ℕ × List ℕ)) (before after : List ℕ)
    → grow c o ≡ some (before, after)
    → (front : List ℕ) × (o ≡ some (front, after)) × (before ≡ c ∷ front)
grow_parts c none before after h = absurd (cc h)
grow_parts c (some (front, back)) before after h =
    let same : back ≡ after = cc h in (front, rw same, cc h)

split_here :
    (x c : ℕ) (cs before after : List ℕ)
    → (c == x) ≡ true
    → ◌≡◌ {A = Option (List ℕ × List ℕ)} (some ([], cs)) (some (before, after))
    → c ∷ cs ≡ before ++ (x ∷ after)
split_here x c cs before after e h =
    let front : [] ≡ before = cc h in
    let back : cs ≡ after = cc h in let same : c ≡ x = ground arith in rw (← front, ← back, same)

split_first-parts :
    (x : ℕ) (cs before after : List ℕ)
    → split_first x cs ≡ some (before, after)
    → cs ≡ before ++ (x ∷ after)
split_first-parts x [] before after h = absurd (cc h)
split_first-parts x (c ∷ cs) before after h = elim (Bool-cases (c == x)) [
  | inl e ↦ split_here x c cs before after e (rw e at h)
  | inr e ↦
      let (front, found, shape) = grow_parts c (split_first x cs) before after (rw e at h) in
      rw (shape, split_first-parts x cs front after found)
]

split_last-parts :
    (x : ℕ) (cs before after : List ℕ)
    → split_last x cs ≡ some (before, after)
    → cs ≡ before ++ (x ∷ after)
split_last-parts x [] before after h = absurd (cc h)
split_last-parts x (c ∷ cs) before after h = elim (Option-cases (split_last x cs)) [
  | inr ((front, back), e) ↦
      let shape : c ∷ front ≡ before = cc (rw e at h) in
      let same : back ≡ after = cc (rw e at h) in
      rw (← shape, split_last-parts x cs front back e, same)
  | inl e ↦ elim (Bool-cases (c == x)) [
    | inl here ↦ split_here x c cs before after here (rw (e, here) at h)
    | inr other ↦ absurd (cc (rw (e, other) at h))
  ]
]

abbrev begins_with_colon : List ℕ → Bool
begins_with_colon [] = false
begins_with_colon (c ∷ cs) = c == b':'

-- How a Host header may read that counts as the machine itself: a loopback name, alone, with the
-- port of the control plane, or in brackets with a rest that does not begin with a colon.
pub data LoopbackHost (port : ℕ) (host : List ℕ) : Type 0 where
  alone : is_loopback_name host ≡ true → LoopbackHost port host
  with_port :
      (name : List ℕ)
      → is_loopback_name name ≡ true
      → host ≡ name ++ (b':' ∷ decimal port)
      → LoopbackHost port host
  with_rest :
      (name rest : List ℕ)
      → is_loopback_name name ≡ true
      → starts_bracket host ≡ true
      → begins_with_colon rest ≡ false
      → host ≡ name ++ rest
      → LoopbackHost port host

behind_bracket :
    (port : ℕ) (host name after : List ℕ)
    → starts_bracket host ≡ true
    → host ≡ name ++ after
    → (is_loopback_name name && port_is port (port_behind after)) ≡ true
    → LoopbackHost port host
behind_bracket port host name [] b shape h = with_rest name [] (ground arith) b refl shape
behind_bracket port host name (c ∷ cs) b shape h = elim (Bool-cases (c == b':')) [
  | inl e ↦
      let (named, same) = and_split (is_loopback_name name) _ (rw e at h) in
      let text : cs ≡ decimal port = list_eq-eq cs (decimal port) same in
      let colon : c ≡ b':' = ground arith in
      with_port name named (shape ∙ (rw (colon, text) refl))
  | inr e ↦
      with_rest name (c ∷ cs) (and_split (is_loopback_name name) _ h).0 b e shape
]

bracketed_host :
    (port : ℕ) (host : List ℕ) (o : Option (List ℕ × List ℕ))
    → starts_bracket host ≡ true
    → ((before after : List ℕ) → o ≡ some (before, after) → host ≡ before ++ (b']' ∷ after))
    → (is_loopback_name (bracketed host o).0 && port_is port (bracketed host o).1) ≡ true
    → LoopbackHost port host
bracketed_host port host none b shape h = alone (ground arith)
bracketed_host port host (some (before, after)) b shape h =
    behind_bracket port host (before ++ (b']' ∷ [])) after b
      (shape before after refl ∙ sym (append_assoc before (b']' ∷ []) after)) h

unbracketed_host :
    (port : ℕ) (host : List ℕ) (o : Option (List ℕ × List ℕ))
    → ((before after : List ℕ) → o ≡ some (before, after) → host ≡ before ++ (b':' ∷ after))
    → (is_loopback_name (unbracketed host o).0 && port_is port (unbracketed host o).1) ≡ true
    → LoopbackHost port host
unbracketed_host port host none shape h = alone (ground arith)
unbracketed_host port host (some (before, after)) shape h =
    let text : after ≡ decimal port = list_eq-eq after (decimal port) (ground arith) in
    with_port before (ground arith) (shape before after refl ∙ ap (λ p. before ++ (b':' ∷ p)) text)

split_host-LoopbackHost :
    (port : ℕ) (host : List ℕ)
    → (is_loopback_name (split_host host).0 && port_is port (split_host host).1) ≡ true
    → LoopbackHost port host
unfolding split_host
split_host-LoopbackHost port host h = elim (Bool-cases (starts_bracket host)) [
  | inl b ↦
      bracketed_host port host (split_first b']' host) b (split_first-parts b']' host) (rw b at h)
  | inr b ↦
      unbracketed_host port host (split_last b':' host) (split_last-parts b':' host) (rw b at h)
]

host_given :
    (o : Option (List ℕ)) (port : ℕ)
    → is_loopback_host o port ≡ true
    → (host : List ℕ) × (o ≡ some host) × LoopbackHost port (to_lower_case host)
unfolding is_loopback_host
host_given none port h = absurd (cc h)
host_given (some []) port h = absurd (cc h)
host_given (some (c ∷ cs)) port h =
    (c ∷ cs, refl, split_host-LoopbackHost port (to_lower_case (c ∷ cs)) h)

-- A control request that is not rejected named the machine itself in its Host header; its Origin, if
-- it has one, is a loopback origin of the control plane's port; and if its method is not GET or HEAD,
-- no browser says that another site sent it.
pub accepted-LoopbackHost :
    (parse_url : List ℕ → Option Url) (r : Request) (port : ℕ)
    → reject_untrusted_control_request parse_url r port ≡ none
    → (host : List ℕ) × (r.host ≡ some host)
      × LoopbackHost port (to_lower_case host)
      × (is_trusted_web_socket_origin parse_url r.origin port ≡ true)
      × ((changes_state r.method && is_cross_site r.sec_fetch_site) ≡ false)
unfolding reject_untrusted_control_request
accepted-LoopbackHost parse_url r port h = elim (Bool-cases (is_loopback_host r.host port)) [
  | inr foreign ↦ absurd (ground arith)
  | inl local ↦ elim (Bool-cases (is_trusted_web_socket_origin parse_url r.origin port)) [
    | inr foreign ↦ absurd (ground arith)
    | inl trusted ↦
        let (host, given, named) = host_given r.host port local in
        (host, given, named, trusted, ground arith)
  ]
]
