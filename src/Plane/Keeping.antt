-- ===== src/Plane/Keeping.antt =====
-- What holds behind a handler of src/transfer/laptop-data-plane.ts if it held before, however the
-- handler ends.
use vidyut.Prelude.{Bool, true, false}
use vidyut.Plane.State.{
  Flow, next, reply, throw, Plane, Act, ◌>>=◌, ◌>>◌, continued, catching, handled, when,
}

module _ {ℓ} {Disk : Type 0} (I : Plane Disk → Type ℓ) where
  -- The predicate holds behind the call where it held before it.
  pub record Keeps {A : Type 0} (act : Act Disk A) : Type ℓ where
    pub keep : (p : Plane Disk) → I p → I (act p).1

  after :
      {A B : Type 0} (f : A → Act Disk B)
      → ((a : A) → Keeps (f a))
      → (r : Flow A × Plane Disk) → I r.1
      → I (continued r f).1
  after f h (next a, p) i = (h a).keep p i
  after f h (reply s, p) i = i
  after f h (throw e, p) i = i

  pub Keeps-bind :
      {A B : Type 0} {act : Act Disk A} {f : A → Act Disk B}
      → Keeps act
      → ((a : A) → Keeps (f a))
      → Keeps (act >>= f)
  unfolding ◌>>=◌ ◌>>◌ catching when
  Keeps-bind {act = act} {f = f} k h = record { keep = λ p i. after f h (act p) (k.keep p i) }

  pub Keeps-then :
      {B : Type 0} {act : Act Disk (Unit {0})} {f : Act Disk B}
      → Keeps act
      → Keeps f
      → Keeps (act >> f)
  unfolding ◌>>=◌ ◌>>◌ catching when
  Keeps-then k h = Keeps-bind k (λ _. h)

  handled-keeps :
      {A : Type 0} (handler : Act Disk A)
      → Keeps handler
      → (r : Flow A × Plane Disk) → I r.1
      → I (handled r handler).1
  handled-keeps handler h (next a, p) i = i
  handled-keeps handler h (reply s, p) i = i
  handled-keeps handler h (throw e, p) i = h.keep p i

  pub Keeps-catching :
      {A : Type 0} {act handler : Act Disk A}
      → Keeps act
      → Keeps handler
      → Keeps (catching act handler)
  unfolding ◌>>=◌ ◌>>◌ catching when
  Keeps-catching {act = act} {handler = handler} k h = record {
    keep = λ p i. handled-keeps handler h (act p) (k.keep p i);
  }

  pub Keeps-when : {act : Act Disk (Unit {0})} (test : Bool) → Keeps act → Keeps (when test act)
  unfolding ◌>>=◌ ◌>>◌ catching when
  Keeps-when true k = record { keep = λ p i. k.keep p i }
  Keeps-when false k = record { keep = λ p i. i }
