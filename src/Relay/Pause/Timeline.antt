-- ===== src/Relay/Pause/Timeline.antt =====
-- The pause of src/relay/clipboard-pause.ts over time: which events it can be told apart by.
use vidyut.Prelude.{
  ℕ, ◌≤◌, ◌≡◌, refl, sym, ap, ◌∙◌, subst, Bool, true, false, not, ◌&&◌, List, [], ◌∷◌, Option, none,
  some, arith, ◌⊎◌, inl, inr, Bool-cases, if◌then◌else◌,
}
use vidyut.Relay.Pause.{
  Pause, ClipboardPauseState, new_pause, lift, settle, is_paused_at, state, pause, resume, stop,
  fire, deadline, notify, is_over,
}

-- A call with its clock reading: `pause`, `resume`, `stop`, a reading of `paused` or `state`, and
-- the timer, which may be late but is never early.
pub data Event : Type 0 where
  pauses : Option ℕ → Event
  resumes stops reads fires : Event

abbrev pub perform : ℕ → Event → Pause → Pause
perform now (pauses d) p = pause now d p
perform now resumes p = resume p
perform now stops p = stop p
perform now reads p = settle now p
perform now fires p = if is_over now p.timer then fire p else p

abbrev pub run : List (ℕ × Event) → Pause → Pause
run [] p = p
run ((now, e) ∷ es) p = run es (perform now e p)

-- What the switch is for: the last `pause` or `resume` decides, a timed pause up to its deadline.
pub data Switch : Type 0 where
  off : Switch
  on : Option ℕ → Switch

abbrev pub switched : ℕ → Event → Switch → Switch
switched now (pauses d) s = on (deadline now d)
switched now resumes s = off
switched now _ s = s

abbrev pub switch_after : List (ℕ × Event) → Switch → Switch
switch_after [] s = s
switch_after ((now, e) ∷ es) s = switch_after es (switched now e s)

abbrev pub is_on : ℕ → Switch → Bool
is_on now off = false
is_on now (on d) = not (is_over now d)

-- The clock does not go back.
abbrev pub InOrder : ℕ → List (ℕ × Event) → ℕ → Type 0
InOrder start [] end = start ≤ end
InOrder start ((now, e) ∷ es) end = (start ≤ now) × InOrder now es end

-- From `now` on the pause answers as the switch does, and its timer is not earlier than its end.
pub data Agrees (now : ℕ) (p : Pause) : Switch → Type 0 where
  both_on :
      (d : Option ℕ)
      → p.paused ≡ true
      → p.until ≡ d
      → (p.timer ≡ d) ⊎ (p.timer ≡ none)
      → Agrees now p (on d)
  both_off : p.paused ≡ false → p.timer ≡ none → Agrees now p off
  lifted : (t : ℕ) → t ≤ now → p.paused ≡ false → p.timer ≡ none → Agrees now p (on (some t))

later : (now now' : ℕ) (p : Pause) (s : Switch) → now ≤ now' → Agrees now p s → Agrees now' p s
later now now' p s h (both_on d e u t) = both_on d e u t
later now now' p s h (both_off e t) = both_off e t
later now now' p s h (lifted t le e i) = lifted t (omega arith) e i

settle_live : (now : ℕ) (p : Pause) → (p.paused && is_over now p.until) ≡ false → settle now p ≡ p
unfolding settle
settle_live now p h = ground arith

settle_over :
    (now : ℕ) (p : Pause) → (p.paused && is_over now p.until) ≡ true → settle now p ≡ lift p
unfolding settle
settle_over now p h = ground arith

lifted-Agrees :
    (now : ℕ) (p : Pause) (d : Option ℕ) → is_over now d ≡ true → Agrees now (lift p) (on d)
unfolding lift
lifted-Agrees now p none h = absurd (cc h)
lifted-Agrees now p (some t) h = lifted t (ground arith) refl refl

over_of :
    (now : ℕ) (p : Pause) (d : Option ℕ)
    → p.paused ≡ true
    → p.until ≡ d
    → (p.paused && is_over now p.until) ≡ is_over now d
over_of now p d e u = ap (λ b. b && is_over now p.until) e ∙ ap (is_over now) u

settle-Agrees : (now : ℕ) (p : Pause) (s : Switch) → Agrees now p s → Agrees now (settle now p) s
settle-Agrees now p s (both_on d e u t) = elim (Bool-cases (is_over now d)) [
  | inl over ↦
      subst (λ r. Agrees now r (on d)) (sym (settle_over now p (over_of now p d e u ∙ over)))
        (lifted-Agrees now p d over)
  | inr live ↦
      subst (λ r. Agrees now r (on d)) (sym (settle_live now p (over_of now p d e u ∙ live)))
        (both_on d e u t)
]
settle-Agrees now p s (both_off e t) =
    subst (λ r. Agrees now r off) (sym (settle_live now p (ap (λ b. b && is_over now p.until) e)))
      (both_off e t)
settle-Agrees now p s (lifted t le e i) =
    subst (λ r. Agrees now r (on (some t)))
      (sym (settle_live now p (ap (λ b. b && is_over now p.until) e))) (lifted t le e i)

-- Behind the getter the flag itself is the answer.
settled_flag :
    (now : ℕ) (p : Pause) (s : Switch) → Agrees now p s → is_paused_at now p ≡ is_on now s
unfolding is_paused_at lift
settled_flag now p s (both_on d e u t) = elim (Bool-cases (is_over now d)) [
  | inl over ↦ ap (λ r. r.paused) (settle_over now p (over_of now p d e u ∙ over)) ∙ ground arith
  | inr live ↦
      ap (λ r. r.paused) (settle_live now p (over_of now p d e u ∙ live)) ∙ (e ∙ ground arith)
]
settled_flag now p s (both_off e t) =
    ap (λ r. r.paused) (settle_live now p (ap (λ b. b && is_over now p.until) e)) ∙ e
settled_flag now p s (lifted t le e i) =
    ap (λ r. r.paused) (settle_live now p (ap (λ b. b && is_over now p.until) e))
    ∙ (e ∙ ground arith)

notify-Agrees :
    (now : ℕ) (p : Pause) (c : ClipboardPauseState) (s : Switch)
    → Agrees now p s
    → Agrees now (notify (p, c)) s
notify-Agrees now p c s (both_on d e u t) = both_on d e u t
notify-Agrees now p c s (both_off e t) = both_off e t
notify-Agrees now p c s (lifted t le e i) = lifted t le e i

unset : (now : ℕ) (p : Pause) (s : Switch) → Agrees now p s → p.paused ≡ false → p.timer ≡ none
unset now p s (both_on d e u t) h = absurd (cc (e, h))
unset now p s (both_off e t) h = t
unset now p s (lifted t le e i) h = i

lift-Agrees : (now : ℕ) (p : Pause) → Agrees now (lift p) off
unfolding lift
lift-Agrees now p = both_off refl refl

resumed : (p : Pause) → p.paused ≡ true → resume p ≡ lift p
unfolding resume
resumed p h = ground arith

not_resumed : (p : Pause) → p.paused ≡ false → resume p ≡ p
unfolding resume
not_resumed p h = ground arith

resume-Agrees : (now : ℕ) (p : Pause) (s : Switch) → Agrees now p s → Agrees now (resume p) off
resume-Agrees now p s a = elim (Bool-cases p.paused) [
  | inl e ↦ subst (λ r. Agrees now r off) (sym (resumed p e)) (lift-Agrees now p)
  | inr e ↦ subst (λ r. Agrees now r off) (sym (not_resumed p e)) (both_off e (unset now p s a e))
]

-- The timer that is over lifts the pause that it was set for.
fire-Agrees :
    (now : ℕ) (p : Pause) (s : Switch)
    → Agrees now p s
    → is_over now p.timer ≡ true
    → Agrees now (lift p) s
fire-Agrees now p s (both_on d e u (inl t)) h = lifted-Agrees now p d (ap (is_over now) (sym t) ∙ h)
fire-Agrees now p s (both_on d e u (inr t)) h = absurd (cc (ap (is_over now) t, h))
fire-Agrees now p s (both_off e t) h = absurd (cc (ap (is_over now) t, h))
fire-Agrees now p s (lifted t le e i) h = absurd (cc (ap (is_over now) i, h))

fired : (now : ℕ) (p : Pause) → is_over now p.timer ≡ true → perform now fires p ≡ lift p
unfolding fire
fired now p h = ground arith

not_fired : (now : ℕ) (p : Pause) → is_over now p.timer ≡ false → perform now fires p ≡ p
not_fired now p h = ground arith

step-Agrees :
    (now : ℕ) (e : Event) (p : Pause) (s : Switch)
    → Agrees now p s
    → Agrees now (perform now e p) (switched now e s)
unfolding pause state stop
step-Agrees now (pauses d) p s a =
    notify-Agrees now _ _ _ (settle-Agrees now _ _ (both_on (deadline now d) refl refl (inl refl)))
step-Agrees now resumes p s a = resume-Agrees now p s a
step-Agrees now stops p s (both_on d e u t) = both_on d e u (inr refl)
step-Agrees now stops p s (both_off e t) = both_off e refl
step-Agrees now stops p s (lifted t le e i) = lifted t le e refl
step-Agrees now reads p s a = settle-Agrees now p s a
step-Agrees now fires p s a = elim (Bool-cases (is_over now p.timer)) [
  | inl h ↦ subst (λ r. Agrees now r s) (sym (fired now p h)) (fire-Agrees now p s a h)
  | inr h ↦ subst (λ r. Agrees now r s) (sym (not_fired now p h)) a
]

run-Agrees :
    (start end : ℕ) (es : List (ℕ × Event)) (p : Pause) (s : Switch)
    → InOrder start es end
    → Agrees start p s
    → Agrees end (run es p) (switch_after es s)
run-Agrees start end [] p s h a = later start end p s h a
run-Agrees start end ((now, e) ∷ es) p s h a =
    run-Agrees now end es _ _ h.1 (step-Agrees now e p s (later start now p s h.0 a))

-- Behind any events in the clock's order, the pause holds where the last `pause` or `resume` says
-- so, a timed one up to its deadline and no longer: whether its timer ran on time, late or not at
-- all makes no difference, and neither do readings in between.
pub run-is_paused_at :
    (end : ℕ) (es : List (ℕ × Event))
    → InOrder 0 es end
    → is_paused_at end (run es new_pause) ≡ is_on end (switch_after es off)
run-is_paused_at end es h =
    settled_flag end _ _ (run-Agrees 0 end es new_pause off h (both_off refl refl))
