-- ===== src/Queue/Timing.antt =====
-- The timing summary of a file: `newTiming`, `markTiming`, `isTiming` of
-- src/transfer/transfer-queue.ts. Clock readings are whole milliseconds.
use Prim.Native.String.{◌++◌}
use vidyut.Prelude.{
  ℕ, ◌≤◌, ◌≡◌, refl, String, Bool, true, false, ◌&&◌, List, [], ◌∷◌, Option, none, some, leb,
  if◌then◌else◌, str_eq, take_last, length, all, max, arith, all-drop, and_split, and_join,
  length-take_last, leb_iff, opt_all,
}
use vidyut.Wire.Types.{Span, Attempt, TransferTimingSummary, max_safe_integer}

-- What one call of the queue reads from its clocks and its source of identifiers. `id prefix n`
-- is the n-th identifier that the call makes.
pub record Env : Type 0 where
  pub now : ℕ
  pub monotonic_now : ℕ
  pub id : String → ℕ → String

abbrev pub lookup {ℓ} : {V : Type ℓ} → String → List (String × V) → Option V
lookup k [] = none
lookup k ((j, v) ∷ m) = if str_eq j k then some v else lookup k m

-- An assignment to a property: in place, or behind the others.
abbrev pub assign {ℓ} : {V : Type ℓ} → String → V → List (String × V) → List (String × V)
assign k v [] = (k, v) ∷ []
assign k v ((j, w) ∷ m) = if str_eq j k then (j, v) ∷ m else (j, w) ∷ assign k v m

unfoldable pub new_timing : ℕ → TransferTimingSummary
new_timing now = record {
  wall_anchor_ms = now;
  offer_wall_ms = none;
  accept_wall_ms = none;
  attempts = [];
}

-- The span that is stored: the start is kept, `end` sets the end, else the old end is kept.
unfoldable pub mark_span : Option Span → ℕ → Bool → Span
mark_span none elapsed true = record { start_ms = elapsed; end_ms = some (max elapsed elapsed) }
mark_span none elapsed false = record { start_ms = elapsed; end_ms = none }
mark_span (some s) elapsed true = record s { end_ms = some (max s.start_ms elapsed) }
mark_span (some s) elapsed false = s

unfoldable pub mark_stage_of : String → ℕ → Bool → Attempt → Attempt
mark_stage_of stage elapsed end a = record a {
  stages = assign stage (mark_span (lookup stage a.stages) elapsed end) a.stages;
}

-- `attempts.at(-1)`, or a first attempt that is pushed, with the change made to it.
unfoldable pub mark_last : (Attempt → Attempt) → List Attempt → List Attempt
mark_last f [] = f (record { attempt = 0; stages = [] }) ∷ []
mark_last f (a ∷ []) = f a ∷ []
mark_last f (a ∷ b ∷ rest) = a ∷ mark_last f (b ∷ rest)

abbrev pub or_new : ℕ → Option TransferTimingSummary → TransferTimingSummary
or_new now none = new_timing now
or_new now (some t) = t

abbrev pub anchor_or : ℕ → Option ℕ → ℕ
anchor_or now none = now
anchor_or now (some a) = a

abbrev pub anchor_key : String → String → String
anchor_key transfer_id file_id = transfer_id ++ ":" ++ file_id

-- `markTiming` on the summary, `elapsed` behind the anchor.
unfoldable pub marked : ℕ → String → ℕ → Bool → Option TransferTimingSummary → TransferTimingSummary
marked now stage elapsed end timing =
    let t = or_new now timing in
    record t { attempts = take_last 4 (mark_last (mark_stage_of stage elapsed end) t.attempts) }

abbrev end_ok : ℕ → Option ℕ → Bool
end_ok s none = true
end_ok s (some e) = leb s e

unfoldable pub span_ok : Span → Bool
span_ok s = end_ok s.start_ms s.end_ms

unfoldable pub attempt_ok : Attempt → Bool
attempt_ok a = leb a.attempt max_safe_integer && all (λ kv. span_ok kv.1) a.stages

unfoldable pub is_timing : TransferTimingSummary → Bool
is_timing t =
    leb t.wall_anchor_ms max_safe_integer
    && (leb (length t.attempts) 4 && all attempt_ok t.attempts)

mark_span_ok :
    (o : Option Span) (elapsed : ℕ) (end : Bool)
    → opt_all span_ok o ≡ true
    → span_ok (mark_span o elapsed end) ≡ true
unfolding mark_span span_ok
mark_span_ok none elapsed true h = ground arith
mark_span_ok none elapsed false h = refl
mark_span_ok (some s) elapsed true h = ground arith
mark_span_ok (some s) elapsed false h = h

lookup_ok :
    (stage : String) (m : List (String × Span))
    → all (λ kv. span_ok kv.1) m ≡ true
    → opt_all span_ok (lookup stage m) ≡ true
lookup_ok stage [] h = refl
lookup_ok stage ((k, s) ∷ m) h = ground (arith, lookup_ok stage m)

assign_ok :
    (stage : String) (s : Span) (m : List (String × Span))
    → span_ok s ≡ true
    → all (λ kv. span_ok kv.1) m ≡ true
    → all (λ kv. span_ok kv.1) (assign stage s m) ≡ true
assign_ok stage s [] h k = ground arith
assign_ok stage s ((j, t) ∷ m) h k = ground (arith, assign_ok stage s m h)

mark_stage_of_ok :
    (stage : String) (elapsed : ℕ) (end : Bool) (a : Attempt)
    → attempt_ok a ≡ true
    → attempt_ok (mark_stage_of stage elapsed end a) ≡ true
unfolding mark_stage_of attempt_ok
mark_stage_of_ok stage elapsed end a h =
    let (n, spans) = and_split (leb a.attempt max_safe_integer) _ h in
    and_join _ _ n (
      assign_ok stage _ a.stages
        (mark_span_ok (lookup stage a.stages) elapsed end (lookup_ok stage a.stages spans)) spans)

empty_attempt_ok :
    (n : ℕ) → n ≤ max_safe_integer → attempt_ok (record { attempt = n; stages = [] }) ≡ true
unfolding attempt_ok
empty_attempt_ok n h = ground arith

mark_last_ok :
    (f : Attempt → Attempt) (l : List Attempt)
    → ((a : Attempt) → attempt_ok a ≡ true → attempt_ok (f a) ≡ true)
    → all attempt_ok l ≡ true
    → all attempt_ok (mark_last f l) ≡ true
unfolding mark_last
mark_last_ok f [] keep h = and_join _ _ (keep _ first_ok) refl
  where
    first_ok : attempt_ok (record { attempt = 0; stages = [] }) ≡ true
    first_ok = empty_attempt_ok 0 (omega arith)
mark_last_ok f (a ∷ []) keep h = and_join _ _ (keep a (and_split (attempt_ok a) true h).0) refl
mark_last_ok f (a ∷ b ∷ rest) keep h =
    let (x, y) = and_split (attempt_ok a) _ h in and_join _ _ x (mark_last_ok f (b ∷ rest) keep y)

pub new_timing_ok : (now : ℕ) → now ≤ max_safe_integer → is_timing (new_timing now) ≡ true
unfolding new_timing is_timing
new_timing_ok now h = ground arith

or_new_ok :
    (now : ℕ) (t : Option TransferTimingSummary)
    → now ≤ max_safe_integer
    → opt_all is_timing t ≡ true
    → is_timing (or_new now t) ≡ true
or_new_ok now none h k = new_timing_ok now h
or_new_ok now (some t) h k = k

-- A summary that is stored after a mark passes the check that a reload makes.
pub marked_ok :
    (now : ℕ) (stage : String) (elapsed : ℕ) (end : Bool) (t : Option TransferTimingSummary)
    → now ≤ max_safe_integer
    → opt_all is_timing t ≡ true
    → is_timing (marked now stage elapsed end t) ≡ true
unfolding marked is_timing
marked_ok now stage elapsed end t h k =
    let (wall, rest) = and_split _ _ (or_new_ok now t h k) in
    let (_, spans) = and_split _ _ rest in
    let after = mark_last (mark_stage_of stage elapsed end) (or_new now t).attempts in
    and_join _ _ wall (
      and_join _ _ ((leb_iff _ 4).1 (length-take_last 4 after))
        (all-drop attempt_ok _ after (mark_last_ok _ _ (mark_stage_of_ok stage elapsed end) spans)))
