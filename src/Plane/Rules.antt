-- ===== src/Plane/Rules.antt =====
-- Rules for the calls of src/transfer/laptop-data-plane.ts on its state: what holds behind a handler,
-- by how it ends.
use vidyut.Prelude.{
  ℕ, ◌+◌, ◌≡◌, refl, sym, subst, Bool, true, false, Option, none, some, Result, ok, err, Ensures,
  if◌then◌else◌,
}
use vidyut.Queue.Timing.{Env}
use vidyut.Queue.Batch.{QueueError}
use vidyut.Queue.Store.{Queue, M}
use vidyut.Plane.State.{
  Response, Thrown, Flow, next, reply, throw, Plane, Act, ◌>>=◌, ◌>>◌, continued, catching, handled,
  when, settled, settled_with, on_queue, ask_queue, refuse_unless, or_reply, or_raise, raise_unless,
}

-- `Q` holds of what the call goes on with, `Y` of its answer, `E` of the state at an exception.
pub record Ends {ℓ} {Disk A : Type 0} (Q : A → Plane Disk → Type ℓ)
    (Y : Response → Plane Disk → Type ℓ) (E : Plane Disk → Type ℓ) (r : Flow A × Plane Disk)
    : Type ℓ where
  pub on_next : (a : A) → r.0 ≡ next a → Q a r.1
  pub on_reply : (s : Response) → r.0 ≡ reply s → Y s r.1
  pub on_throw : (e : Thrown) → r.0 ≡ throw e → E r.1

module _ {ℓ} {Disk : Type 0} {Y : Response → Plane Disk → Type ℓ} {E : Plane Disk → Type ℓ} where
  pub Ends-next :
      {A : Type 0} (Q : A → Plane Disk → Type ℓ) (a : A) (p : Plane Disk)
      → Q a p
      → Ends Q Y E (next a, p)
  Ends-next Q a p q = record {
    on_next = λ b e. let same : a ≡ b = cc e in subst (λ x. Q x p) same q;
    on_reply = λ s e. absurd (cc e);
    on_throw = λ s e. absurd (cc e);
  }

  pub Ends-reply :
      {A : Type 0} (Q : A → Plane Disk → Type ℓ) (s : Response) (p : Plane Disk)
      → Y s p
      → Ends Q Y E (reply s, p)
  Ends-reply Q s p y = record {
    on_next = λ b e. absurd (cc e);
    on_reply = λ t e. let same : s ≡ t = cc e in subst (λ x. Y x p) same y;
    on_throw = λ t e. absurd (cc e);
  }

  pub Ends-throw :
      {A : Type 0} (Q : A → Plane Disk → Type ℓ) (e : Thrown) (p : Plane Disk)
      → E p
      → Ends Q Y E (throw e, p)
  Ends-throw Q e p y = record {
    on_next = λ b h. absurd (cc h);
    on_reply = λ t h. absurd (cc h);
    on_throw = λ t h. y;
  }

  Ends-after :
      {A B : Type 0} {Q : A → Plane Disk → Type ℓ} {S : B → Plane Disk → Type ℓ}
      (f : A → Act Disk B) (r : Flow A × Plane Disk)
      → Ends Q Y E r
      → ((a : A) (p : Plane Disk) → Q a p → Ends S Y E (f a p))
      → Ends S Y E (continued r f)
  Ends-after f (next a, p) h k = k a p (h.on_next a refl)
  Ends-after {S = S} f (reply s, p) h k = Ends-reply S s p (h.on_reply s refl)
  Ends-after {S = S} f (throw e, p) h k = Ends-throw S e p (h.on_throw e refl)

  pub Ends-bind :
      {A B : Type 0} {Q : A → Plane Disk → Type ℓ} {S : B → Plane Disk → Type ℓ} (act : Act Disk A)
      (f : A → Act Disk B) (p : Plane Disk)
      → Ends Q Y E (act p)
      → ((a : A) (p' : Plane Disk) → Q a p' → Ends S Y E (f a p'))
      → Ends S Y E ((act >>= f) p)
  unfolding ◌>>=◌ ◌>>◌ catching when
  Ends-bind act f p h k = Ends-after f (act p) h k

  pub Ends-then :
      {B : Type 0} {Q : Plane Disk → Type ℓ} {S : B → Plane Disk → Type ℓ}
      (act : Act Disk (Unit {0})) (f : Act Disk B) (p : Plane Disk)
      → Ends (λ _. Q) Y E (act p)
      → ((p' : Plane Disk) → Q p' → Ends S Y E (f p'))
      → Ends S Y E ((act >> f) p)
  unfolding ◌>>=◌ ◌>>◌
  Ends-then act f p h k = Ends-after (λ _. f) (act p) h (λ _. k)

  pub Ends-when :
      {Q : Plane Disk → Type ℓ} (test : Bool) (act : Act Disk (Unit {0})) (p : Plane Disk)
      → (test ≡ true → Ends (λ _. Q) Y E (act p))
      → (test ≡ false → Q p)
      → Ends (λ _. Q) Y E (when test act p)
  unfolding when
  Ends-when true act p h k = h refl
  Ends-when {Q = Q} false act p h k = Ends-next (λ _. Q) tt p (k refl)

  Ends-settled :
      {Q : Plane Disk → Type ℓ} (p : Plane Disk) (m : M Queue)
      → Ensures (λ q. Q (record p { queue = q; tick = p.tick + 1 })) m
      → E (record p { tick = p.tick + 1 })
      → Ends (λ _. Q) Y E (settled p m)
  Ends-settled {Q = Q} p (ok q) h e = Ends-next (λ _. Q) tt _ (h.apply q refl)
  Ends-settled {Q = Q} p (err x) h e = Ends-throw (λ _. Q) _ _ e

  -- A method of the queue that throws changes nothing but the reading of the clock.
  pub Ends-on_queue :
      {Q : Plane Disk → Type ℓ} (clock : ℕ → Env) (method : Env → Queue → M Queue) (p : Plane Disk)
      → Ensures (λ q. Q (record p { queue = q; tick = p.tick + 1 })) (method (clock p.tick) p.queue)
      → E (record p { tick = p.tick + 1 })
      → Ends (λ _. Q) Y E (on_queue clock method p)
  unfolding on_queue
  Ends-on_queue clock method p h e = Ends-settled p _ h e

  pub Ends-on_queue_ok :
      {Q : Plane Disk → Type ℓ} (clock : ℕ → Env) (method : Env → Queue → M Queue) (p : Plane Disk)
      {q : Queue}
      → method (clock p.tick) p.queue ≡ ok q
      → Q (record p { queue = q; tick = p.tick + 1 })
      → Ends (λ _. Q) Y E (on_queue clock method p)
  unfolding on_queue
  Ends-on_queue_ok {Q = Q} clock method p h i = rw h (Ends-next (λ _. Q) tt _ i)

  Ends-settled_with :
      {A : Type 0} {Q : A → Plane Disk → Type ℓ} (p : Plane Disk)
      (m : Result QueueError (A × Queue))
      → Ensures (λ (a : A × Queue). Q a.0 (record p { queue = a.1; tick = p.tick + 1 })) m
      → E (record p { tick = p.tick + 1 })
      → Ends Q Y E (settled_with p m)
  Ends-settled_with {Q = Q} p (ok (a, q)) h e = Ends-next Q a _ (h.apply (a, q) refl)
  Ends-settled_with {Q = Q} p (err x) h e = Ends-throw Q _ _ e

  pub Ends-ask_queue :
      {A : Type 0} {Q : A → Plane Disk → Type ℓ} (clock : ℕ → Env)
      (method : Env → Queue → Result QueueError (A × Queue)) (p : Plane Disk)
      → Ensures
          (λ (a : A × Queue). Q a.0 (record p { queue = a.1; tick = p.tick + 1 }))
          (method (clock p.tick) p.queue)
      → E (record p { tick = p.tick + 1 })
      → Ends Q Y E (ask_queue clock method p)
  unfolding ask_queue
  Ends-ask_queue clock method p h e = Ends-settled_with p _ h e

  pub Ends-refuse_unless :
      {Q : Plane Disk → Type ℓ} (test : Bool) (s : Response) (p : Plane Disk)
      → (test ≡ true → Q p)
      → (test ≡ false → Y s p)
      → Ends (λ _. Q) Y E (refuse_unless test s p)
  Ends-refuse_unless {Q = Q} true s p h k = Ends-next (λ _. Q) tt p (h refl)
  Ends-refuse_unless {Q = Q} false s p h k = Ends-reply (λ _. Q) s p (k refl)

  pub Ends-or_reply :
      {A : Type 0} {Q : A → Plane Disk → Type ℓ} (o : Option A) (s : Response) (p : Plane Disk)
      → ((a : A) → o ≡ some a → Q a p)
      → (o ≡ none → Y s p)
      → Ends Q Y E (or_reply o s p)
  Ends-or_reply {Q = Q} (some a) s p h k = Ends-next Q a p (h a refl)
  Ends-or_reply {Q = Q} none s p h k = Ends-reply Q s p (k refl)

  pub Ends-or_raise :
      {A : Type 0} {Q : A → Plane Disk → Type ℓ} (o : Option A) (t : Thrown) (p : Plane Disk)
      → ((a : A) → o ≡ some a → Q a p)
      → (o ≡ none → E p)
      → Ends Q Y E (or_raise o t p)
  Ends-or_raise {Q = Q} (some a) t p h k = Ends-next Q a p (h a refl)
  Ends-or_raise {Q = Q} none t p h k = Ends-throw Q t p (k refl)

  pub Ends-raise_unless :
      {Q : Plane Disk → Type ℓ} (test : Bool) (t : Thrown) (p : Plane Disk)
      → (test ≡ true → Q p)
      → E p
      → Ends (λ _. Q) Y E (raise_unless test t p)
  Ends-raise_unless {Q = Q} true t p h k = Ends-next (λ _. Q) tt p (h refl)
  Ends-raise_unless {Q = Q} false t p h k = Ends-throw (λ _. Q) t p k

  Ends-handled :
      {A : Type 0} {Q : A → Plane Disk → Type ℓ} {F : Plane Disk → Type ℓ} (handler : Act Disk A)
      (r : Flow A × Plane Disk)
      → Ends Q Y F r
      → ((p : Plane Disk) → F p → Ends Q Y E (handler p))
      → Ends Q Y E (handled r handler)
  Ends-handled {Q = Q} handler (next a, p) h k = Ends-next Q a p (h.on_next a refl)
  Ends-handled {Q = Q} handler (reply s, p) h k = Ends-reply Q s p (h.on_reply s refl)
  Ends-handled handler (throw e, p) h k = k p (h.on_throw e refl)

  pub Ends-catching :
      {A : Type 0} {Q : A → Plane Disk → Type ℓ} {F : Plane Disk → Type ℓ}
      (act handler : Act Disk A) (p : Plane Disk)
      → Ends Q Y F (act p)
      → ((p' : Plane Disk) → F p' → Ends Q Y E (handler p'))
      → Ends Q Y E (catching act handler p)
  unfolding catching
  Ends-catching act handler p h k = Ends-handled handler (act p) h k

  pub Ends-if :
      {A : Type 0} {Q : A → Plane Disk → Type ℓ} (test : Bool) (first second : Act Disk A)
      (p : Plane Disk)
      → (test ≡ true → Ends Q Y E (first p))
      → (test ≡ false → Ends Q Y E (second p))
      → Ends Q Y E ((if test then first else second) p)
  Ends-if true first second p h k = h refl
  Ends-if false first second p h k = k refl

pub Ends-weaken {ℓ} :
    {Disk A : Type 0} {Q : A → Plane Disk → Type ℓ} {Y Z : Response → Plane Disk → Type ℓ}
    {E F : Plane Disk → Type ℓ} (r : Flow A × Plane Disk)
    → ((s : Response) (p : Plane Disk) → Y s p → Z s p)
    → ((p : Plane Disk) → E p → F p)
    → Ends Q Y E r
    → Ends Q Z F r
Ends-weaken r f g h = record {
  on_next = h.on_next;
  on_reply = λ s e. f s r.1 (h.on_reply s e);
  on_throw = λ s e. g r.1 (h.on_throw s e);
}

-- A call that goes on goes on as it was shown to, and ends in no other way.
pub Ends-only {ℓ} :
    {Disk A : Type 0} {Q : A → Plane Disk → Type ℓ} {Y Z : Response → Plane Disk → Type ℓ}
    {E F : Plane Disk → Type ℓ} (r : Flow A × Plane Disk) (a : A)
    → r.0 ≡ next a
    → Ends Q Y E r
    → Ends Q Z F r
Ends-only r a goes h = record {
  on_next = h.on_next;
  on_reply = λ s e. absurd (cc (e, goes));
  on_throw = λ s e. absurd (cc (e, goes));
}

module _ {ℓ} {Disk : Type 0} {Y : Response → Plane Disk → Type ℓ} {E : Plane Disk → Type ℓ} where
  -- A check that passes leaves the rest.
  pub Ends-exactly :
      {A B : Type 0} {S : B → Plane Disk → Type ℓ} (act : Act Disk A) (f : A → Act Disk B)
      (p : Plane Disk) (a : A)
      → act p ≡ (next a, p)
      → Ends S Y E (f a p)
      → Ends S Y E ((act >>= f) p)
  unfolding ◌>>=◌
  Ends-exactly {S = S} act f p a e h = subst (λ r. Ends S Y E (continued r f)) (sym e) h

  pub Ends-pass :
      {B : Type 0} {S : B → Plane Disk → Type ℓ} (act : Act Disk (Unit {0})) (f : Act Disk B)
      (p : Plane Disk)
      → act p ≡ (next tt, p)
      → Ends S Y E (f p)
      → Ends S Y E ((act >> f) p)
  unfolding ◌>>◌
  Ends-pass act f p e h = Ends-exactly act (λ _. f) p tt e h
