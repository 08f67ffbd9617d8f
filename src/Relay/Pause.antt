-- ===== src/Relay/Pause.antt =====
-- `ClipboardPause` of src/relay/clipboard-pause.ts. Clock readings and durations are natural
-- numbers. `timer` is the deadline of the timer that runs; `notified` is what `onChange` was told,
-- the newest first. A method reads the clock once, as `now`.
pub mod Timeline
use vidyut.Prelude.{
  ℕ, ◌+◌, ◌≤◌, Bool, true, false, not, ◌&&◌, List, [], ◌∷◌, Option, none, some, leb, if◌then◌else◌,
}
use vidyut.Wire.Messages.{ClipboardHealth}

-- `minutes`
abbrev pub max_pause_minutes : ℕ
max_pause_minutes = 1440

pub record ClipboardPauseState : Type 0 where
  pub paused : Bool
  pub until : Option ℕ

pub record Pause : Type 0 where
  pub paused : Bool
  pub until : Option ℕ
  pub timer : Option ℕ
  pub notified : List ClipboardPauseState

abbrev pub not_paused : ClipboardPauseState
not_paused = record { paused = false; until = none }

abbrev pub new_pause : Pause
new_pause = record { paused = false; until = none; timer = none; notified = [] }

unfoldable pub lift : Pause → Pause
lift p = record { paused = false; until = none; timer = none; notified = not_paused ∷ p.notified }

abbrev pub is_over : ℕ → Option ℕ → Bool
is_over now none = false
is_over now (some until) = leb until now

-- The getter `paused`: what it leaves behind, and its answer.
unfoldable pub settle : ℕ → Pause → Pause
unfolding lift
settle now p = if p.paused && is_over now p.until then lift p else p

unfoldable pub is_paused_at : ℕ → Pause → Bool
unfolding settle
is_paused_at now p = (settle now p).paused

-- The object that `state()` builds behind the getter.
abbrev pub state_of : Pause → ClipboardPauseState
state_of p = if p.paused then record { paused = true; until = p.until } else not_paused

unfoldable pub state : ℕ → Pause → Pause × ClipboardPauseState
unfolding settle
state now p = (settle now p, state_of (settle now p))

abbrev pub deadline : ℕ → Option ℕ → Option ℕ
deadline now none = none
deadline now (some duration_ms) = some (now + duration_ms)

abbrev pub notify : Pause × ClipboardPauseState → Pause
notify (p, s) = record p { notified = s ∷ p.notified }

unfoldable pub pause : ℕ → Option ℕ → Pause → Pause
unfolding state
pause now duration_ms p = notify (
    state now (record p {
      paused = true;
      until = deadline now duration_ms;
      timer = deadline now duration_ms;
    }))

unfoldable pub resume : Pause → Pause
unfolding lift
resume p = if p.paused then lift p else p

unfoldable pub stop : Pause → Pause
stop p = record p { timer = none }

-- The timer's callback, which runs where the timer is set.
unfoldable pub fire : Pause → Pause
unfolding lift
fire p = elim p.timer [ none ↦ p | some t ↦ lift p ]

-- `withPause`
unfoldable pub with_pause : ℕ → ClipboardHealth → Pause → Pause × ClipboardHealth
unfolding state
with_pause now health p =
    let s = state now p in
    (
      s.0,
      if (s.1).paused
          then record health {
            paused = some true;
            paused_until = elim (s.1).until [ none ↦ health.paused_until | some t ↦ some t ];
          }
          else health,
    )
