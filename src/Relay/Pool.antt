-- ===== src/Relay/Pool.antt =====
-- `PayloadPool` of src/relay/payload-pool.ts. A listener is a name; `delivered` records which
-- listener was called with which frame and source, the newest first. The order stamps are natural
-- numbers; one that is absent is the frame's own time, which the caller fills in.
pub mod Latest
use vidyut.Prelude.{
  ℕ, String, Bool, true, false, not, ◌&&◌, ◌||◌, List, [], ◌∷◌, ◌++◌, map, Option, none, some, ltb,
  any, str_eq, if◌then◌else◌,
}
use vidyut.Wire.Frames.{PayloadFrame}

pub record Delivery : Type 0 where
  pub listener : String
  pub frame : PayloadFrame
  pub source : Option String

pub record Pool : Type 0 where
  pub current : Option PayloadFrame
  pub current_order_ts : ℕ
  pub listeners : List String
  pub delivered : List Delivery

abbrev pub empty_pool : Pool
empty_pool = record { current = none; current_order_ts = 0; listeners = []; delivered = [] }

-- `this.#current?.nonce === frame.nonce`
abbrev pub holds : Option PayloadFrame → PayloadFrame → Bool
holds none f = false
holds (some c) f = str_eq c.nonce f.nonce

abbrev pub is_older : ℕ → Pool → Bool
is_older order_ts p = elim p.current [ none ↦ false | some c ↦ ltb order_ts p.current_order_ts ]

-- The calls of the listeners, in the order in which they subscribed.
abbrev pub deliveries : PayloadFrame → Option String → List String → List Delivery → List Delivery
deliveries f source [] log = log
deliveries f source (l ∷ ls) log =
    deliveries f source ls (record { listener = l; frame = f; source = source } ∷ log)

unfoldable pub publish : PayloadFrame → Option String → ℕ → Pool → Bool × Pool
publish f source order_ts p =
    if holds p.current f then (true, p) else if is_older order_ts p then (false, p) else (
      true,
      record p {
        current = some f;
        current_order_ts = order_ts;
        delivered = deliveries f source p.listeners p.delivered;
      },
    )

-- A listener that is there already is not added again.
unfoldable pub subscribe : String → Pool → Pool
subscribe l p =
    if any (str_eq l) p.listeners then p else record p { listeners = p.listeners ++ (l ∷ []) }

abbrev pub without : String → List String → List String
without l [] = []
without l (k ∷ ks) = if str_eq l k then without l ks else k ∷ without l ks

-- The function that `subscribe` returns.
unfoldable pub unsubscribe : String → Pool → Pool
unsubscribe l p = record p { listeners = without l p.listeners }
