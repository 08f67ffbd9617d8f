-- ===== src/Relay/Pool/Latest.antt =====
-- Which frame the pool of src/relay/payload-pool.ts holds behind a series of publications.
use vidyut.Prelude.{
  ℕ, ◌≤◌, ◌<◌, ◌≡◌, refl, ap, String, true, false, List, [], ◌∷◌, ◌++◌, map, Option, none, some,
  arith, All, ltb, str_eq, Bool-cases, inl, inr, all_distinct,
}
use vidyut.Wire.Frames.{PayloadFrame}
use vidyut.Relay.Pool.{Pool, publish, deliveries}

pub record Publication : Type 0 where
  pub frame : PayloadFrame
  pub source : Option String
  pub order_ts : ℕ

abbrev pub publish_all : List Publication → Pool → Pool
publish_all [] p = p
publish_all (c ∷ cs) p = publish_all cs (publish c.frame c.source c.order_ts p).1

abbrev pub nonces : List Publication → List String
nonces = map (λ c. c.frame.nonce)

-- `w` is the publication with the highest stamp, the last one among equals.
pub record IsLatest (w : Publication) (cs : List Publication) : Type 0 where
  pub before : List Publication
  pub after : List Publication
  pub at : cs ≡ before ++ (w ∷ after)
  pub not_behind : All (λ c. c.order_ts ≤ w.order_ts) before
  pub ahead : All (λ c. c.order_ts < w.order_ts) after

pub record Holds (p : Pool) (w : Publication) : Type 0 where
  pub frame : p.current ≡ some w.frame
  pub order_ts : p.current_order_ts ≡ w.order_ts

IsLatest-behind :
    (c w : Publication) (cs : List Publication)
    → c.order_ts ≤ w.order_ts
    → IsLatest w cs
    → IsLatest w (c ∷ cs)
IsLatest-behind c w cs h l = record {
  before = c ∷ l.before;
  after = l.after;
  at = ap (◌∷◌ c) l.at;
  not_behind = (h, l.not_behind);
  ahead = l.ahead;
}

-- From a pool that holds `v`, fresh nonces: `v` stays, or a publication at least as late wins.
pub data Winner (v : Publication) (cs : List Publication) (p : Pool) : Type 0 where
  stays : All (λ c. c.order_ts < v.order_ts) cs → Holds p v → Winner v cs p
  wins : (w : Publication) → v.order_ts ≤ w.order_ts → IsLatest w cs → Holds p w → Winner v cs p

Winner-behind :
    (v c : Publication) (cs : List Publication) (p : Pool)
    → c.order_ts < v.order_ts
    → Winner v cs p
    → Winner v (c ∷ cs) p
Winner-behind v c cs p h (stays a k) = stays (h, a) k
Winner-behind v c cs p h (wins w le l k) = wins w le (IsLatest-behind c w cs (omega arith) l) k

Winner-at :
    (v c : Publication) (cs : List Publication) (p : Pool)
    → v.order_ts ≤ c.order_ts
    → Winner c cs p
    → Winner v (c ∷ cs) p
Winner-at v c cs p h (stays a k) =
    wins c h (record { before = []; after = cs; at = refl; not_behind = tt; ahead = a }) k
Winner-at v c cs p h (wins w le l k) = wins w (omega arith) (IsLatest-behind c w cs le l) k

publish_older :
    (c v : Publication) (p : Pool)
    → Holds p v
    → str_eq v.frame.nonce c.frame.nonce ≡ false
    → c.order_ts < v.order_ts
    → publish c.frame c.source c.order_ts p ≡ (false, p)
unfolding publish
publish_older c v p h fresh older = rw (h.frame, fresh, h.order_ts) (ground arith)

published : Publication → Pool → Pool
published c p = record p {
  current = some c.frame;
  current_order_ts = c.order_ts;
  delivered = deliveries c.frame c.source p.listeners p.delivered;
}

publish_newer :
    (c v : Publication) (p : Pool)
    → Holds p v
    → str_eq v.frame.nonce c.frame.nonce ≡ false
    → v.order_ts ≤ c.order_ts
    → publish c.frame c.source c.order_ts p ≡ (true, published c p)
unfolding publish published
publish_newer c v p h fresh newer = rw (h.frame, fresh, h.order_ts) (ground arith)

published-Holds : (c : Publication) (p : Pool) → Holds (published c p) c
unfolding published
published-Holds c p = record { frame = refl; order_ts = refl }

publish_all-Winner :
    (cs : List Publication) (v : Publication) (p : Pool)
    → Holds p v
    → all_distinct (v.frame.nonce ∷ nonces cs) ≡ true
    → Winner v cs (publish_all cs p)
publish_all-Winner [] v p h d = stays tt h
publish_all-Winner (c ∷ cs) v p h d =
    let fresh : str_eq v.frame.nonce c.frame.nonce ≡ false = ground arith in
    elim (Bool-cases (ltb c.order_ts v.order_ts)) [
      | inl older ↦
          rw (publish_older c v p h fresh (ground arith))
            (Winner-behind v c cs _ (ground arith) (publish_all-Winner cs v p h (ground arith)))
      | inr newer ↦ rw (publish_newer c v p h fresh (ground arith)) (
          Winner-at v c cs _ (ground arith)
            (publish_all-Winner cs c (published c p) (published-Holds c p) (ground arith)))
    ]

first_publication :
    (c : Publication) (p : Pool)
    → p.current ≡ none
    → publish c.frame c.source c.order_ts p ≡ (true, published c p)
unfolding publish published
first_publication c p e = rw e refl

-- Frames of distinct nonces that an empty pool takes in: it holds the one with the highest order
-- stamp, and the last one of those where several have it, under that stamp.
pub publish_all-IsLatest :
    (c : Publication) (cs : List Publication) (p : Pool)
    → p.current ≡ none
    → all_distinct (nonces (c ∷ cs)) ≡ true
    → (w : Publication) × IsLatest w (c ∷ cs) × Holds (publish_all (c ∷ cs) p) w
publish_all-IsLatest c cs p e d =
    rw (first_publication c p e)
      (elim (publish_all-Winner cs c (published c p) (published-Holds c p) d) [
        | stays a h ↦
            (c, record { before = []; after = cs; at = refl; not_behind = tt; ahead = a }, h)
        | wins w le l h ↦ (w, IsLatest-behind c w cs le l, h)
      ])
