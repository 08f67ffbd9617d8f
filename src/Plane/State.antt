-- ===== src/Plane/State.antt =====
-- The state of the data plane of src/transfer/laptop-data-plane.ts and the calls on it: a handler
-- goes on, answers early, or throws. What was done stays done in all three cases.
use vidyut.Prelude.{
  ℕ, ◌+◌, String, Bool, true, false, List, [], ◌∷◌, Option, none, some, Result, ok, err,
  if◌then◌else◌,
}
use vidyut.Wire.Types.{TransferControlMessage}
use vidyut.Queue.Timing.{Env}
use vidyut.Queue.Batch.{QueueError}
use vidyut.Queue.Store.{Queue, M}
use vidyut.Plane.Sessions.{Session}

-- A response by its status, its `code` and what else the body holds; `unrouted` is `undefined`.
pub data Response : Type 0 where
  -- status, code
  refused : ℕ → String → Response
  -- status, code, confirmedOffset
  refused_at : ℕ → String → ℕ → Response
  -- confirmedOffset, complete
  accepted : ℕ → Bool → Response
  -- nonce, ciphertext, offset, plaintext bytes, total bytes, eof
  served : String → List ℕ → ℕ → ℕ → ℕ → Bool → Response
  -- the offer's transfer
  offered : String → Response
  enqueue_failed : String → Response
  unrouted : Response

pub data Thrown : Type 0 where
  of_queue : QueueError → Thrown
  of_disk of_cipher no_destination no_free_candidate body_lost : Thrown
  invalid_phone_offer unknown_laptop_transfer outside_progress no_selection not_regular too_large :
      Thrown

pub data Flow (A : Type 0) : Type 0 where
  next : A → Flow A
  reply : Response → Flow A
  throw : Thrown → Flow A

-- `terminals` counts the calls of `onFileTerminal`, `tick` the readings of the queue's clocks.
pub record Plane (Disk : Type 0) : Type 0 where
  pub queue : Queue
  pub disk : Disk
  pub sessions : List (String × Session)
  pub published : List TransferControlMessage
  pub terminals : ℕ
  pub tick : ℕ

abbrev pub Act : Type 0 → Type 0 → Type 0
Act Disk A = Plane Disk → Flow A × Plane Disk

abbrev pub continued :
    {Disk A B : Type 0} → Flow A × Plane Disk → (A → Act Disk B) → Flow B × Plane Disk
continued (next a, p) then_run = then_run a p
continued (reply r, p) then_run = (reply r, p)
continued (throw e, p) then_run = (throw e, p)

infixl 5 ◌>>=◌ ◌>>◌
unfoldable pub ◌>>=◌ : {Disk A B : Type 0} → Act Disk A → (A → Act Disk B) → Act Disk B
◌>>=◌ act then_run p = continued (act p) then_run

unfoldable pub ◌>>◌ : {Disk B : Type 0} → Act Disk (Unit {0}) → Act Disk B → Act Disk B
unfolding ◌>>=◌
act >> then_run = act >>= λ done. then_run

module _ {Disk : Type 0} {A : Type 0} where
  abbrev pub replies : Response → Act Disk A
  replies r p = (reply r, p)

  abbrev pub throws : Thrown → Act Disk A
  throws e p = (throw e, p)

  abbrev pub gets : (Plane Disk → A) → Act Disk A
  gets f p = (next (f p), p)

  abbrev pub or_reply : Option A → Response → Act Disk A
  or_reply none r p = (reply r, p)
  or_reply (some a) r p = (next a, p)

  abbrev pub or_raise : Option A → Thrown → Act Disk A
  or_raise none e p = (throw e, p)
  or_raise (some a) e p = (next a, p)

  abbrev pub handled : Flow A × Plane Disk → Act Disk A → Flow A × Plane Disk
  handled (next a, p) handler = (next a, p)
  handled (reply r, p) handler = (reply r, p)
  handled (throw e, p) handler = handler p

  -- `try { act } catch { handler }`: an early answer is no exception.
  unfoldable pub catching : Act Disk A → Act Disk A → Act Disk A
  catching act handler p = handled (act p) handler

module _ {Disk : Type 0} where
  abbrev pub modify : (Plane Disk → Plane Disk) → Act Disk (Unit {0})
  modify f p = (next tt, f p)

  -- `if (!holds) return r`
  abbrev pub refuse_unless : Bool → Response → Act Disk (Unit {0})
  refuse_unless true r p = (next tt, p)
  refuse_unless false r p = (reply r, p)

  unfoldable pub when : Bool → Act Disk (Unit {0}) → Act Disk (Unit {0})
  when true act p = act p
  when false act p = (next tt, p)

  abbrev pub settled : Plane Disk → M Queue → Flow (Unit {0}) × Plane Disk
  settled p (err e) = (throw (Thrown.of_queue e), record p { tick = p.tick + 1 })
  settled p (ok q) = (next tt, record p { queue = q; tick = p.tick + 1 })

  -- A method of the queue at the next reading of its clocks.
  unfoldable pub on_queue : (ℕ → Env) → (Env → Queue → M Queue) → Act Disk (Unit {0})
  on_queue clock method p = settled p (method (clock p.tick) p.queue)

  abbrev pub settled_with :
      {A : Type 0} → Plane Disk → Result QueueError (A × Queue) → Flow A × Plane Disk
  settled_with p (err e) = (throw (Thrown.of_queue e), record p { tick = p.tick + 1 })
  settled_with p (ok (a, q)) = (next a, record p { queue = q; tick = p.tick + 1 })

  -- A method that also returns a value.
  unfoldable pub ask_queue :
      {A : Type 0} → (ℕ → Env) → (Env → Queue → Result QueueError (A × Queue)) → Act Disk A
  ask_queue clock method p = settled_with p (method (clock p.tick) p.queue)

  unfoldable pub publish : TransferControlMessage → Act Disk (Unit {0})
  publish message p = (next tt, record p { published = message ∷ p.published })

  -- `if (!holds) throw e`
  abbrev pub raise_unless : Bool → Thrown → Act Disk (Unit {0})
  raise_unless holds e = or_raise (if holds then some tt else none) e

  -- `for (const x of xs) await run(x)`
  unfoldable pub each : {A : Type 0} → (A → Act Disk (Unit {0})) → List A → Act Disk (Unit {0})
  unfolding ◌>>◌
  each run [] p = (next tt, p)
  each run (x ∷ xs) p = (run x >> each run xs) p

  -- `onFileTerminal()`: a callback of the coordinator.
  unfoldable pub file_terminal : Act Disk (Unit {0})
  file_terminal p = (next tt, record p { terminals = p.terminals + 1 })
