-- ===== src/Queue/Claim/Order.antt =====
-- Which file `claimNext` of src/transfer/transfer-queue.ts takes.
use vidyut.Prelude.{
  ℕ, ◌≡◌, refl, ap, subst, true, false, List, [], ◌∷◌, ◌++◌, Option, some, none, arith, All, any,
  find?, Option-cases, Bool-cases, inl, inr,
}
use vidyut.Queue.Types.{TransferFileRecord, TransferBatchRecord}
use vidyut.Queue.Timing.{Env}
use vidyut.Queue.Store.{Queue, persist}
use vidyut.Queue.Claim.{
  TransferClaim, claim_from, claim, claimed_batch, next_queued, activated, with_batches,
  has_in_flight, take_or, takes,
}

-- `bs` becomes `cs` by a claim on the batch that stands behind `before`, none of which offers a file.
pub record Claims (now : ℕ) (bs cs : List TransferBatchRecord) (c : TransferClaim) : Type 0 where
  pub before : List TransferBatchRecord
  pub taken : TransferBatchRecord
  pub after : List TransferBatchRecord
  pub file : TransferFileRecord
  pub was : bs ≡ before ++ (taken ∷ after)
  pub becomes : cs ≡ before ++ (claimed_batch now file taken ∷ after)
  pub offered : next_queued taken ≡ some file
  pub passed_over : All (λ b. next_queued b ≡ none) before
  pub claims_batch : c.batch ≡ claimed_batch now file taken
  pub claims_file : c.file ≡ activated file

Claims-behind :
    (now : ℕ) (b : TransferBatchRecord) (bs cs : List TransferBatchRecord) (c : TransferClaim)
    → next_queued b ≡ none
    → Claims now bs cs c
    → Claims now (b ∷ bs) (b ∷ cs) c
Claims-behind now b bs cs c e k = record {
  before = b ∷ k.before;
  taken = k.taken;
  after = k.after;
  file = k.file;
  was = ap (◌∷◌ b) k.was;
  becomes = ap (◌∷◌ b) k.becomes;
  offered = k.offered;
  passed_over = (e, k.passed_over);
  claims_batch = k.claims_batch;
  claims_file = k.claims_file;
}

Claims-step :
    (now : ℕ) (b : TransferBatchRecord) (bs cs : List TransferBatchRecord) (c : TransferClaim)
    (o : Option TransferFileRecord) (r : Option (List TransferBatchRecord × TransferClaim))
    → next_queued b ≡ o
    → ((rest : List TransferBatchRecord) → r ≡ some (rest, c) → Claims now bs rest c)
    → take_or now b bs o r ≡ some (cs, c)
    → Claims now (b ∷ bs) cs c
Claims-step now b bs cs c none none e ih h = absurd (cc h)
Claims-step now b bs cs c none (some (rest, d)) e ih h =
    let same : d ≡ c = cc h in
    let shape : b ∷ rest ≡ cs = cc h in
    subst (λ l. Claims now (b ∷ bs) l c) shape (Claims-behind now b bs rest c e (ih rest (rw same)))
Claims-step now b bs cs c (some f) r e ih h = record {
  before = [];
  taken = b;
  after = bs;
  file = f;
  was = refl;
  becomes = cc h;
  offered = e;
  passed_over = tt;
  claims_batch = cc h;
  claims_file = cc h;
}

pub claim_from-Claims :
    (now : ℕ) (bs cs : List TransferBatchRecord) (c : TransferClaim)
    → claim_from now bs ≡ some (cs, c)
    → Claims now bs cs c
unfolding claim_from
claim_from-Claims now [] cs c h = absurd (cc h)
claim_from-Claims now (b ∷ bs) cs c h =
    Claims-step now b bs cs c (next_queued b) (claim_from now bs) refl
      (λ rest e. claim_from-Claims now bs rest c e) h

none_step :
    (now : ℕ) (b : TransferBatchRecord) (bs : List TransferBatchRecord)
    (o : Option TransferFileRecord) (r : Option (List TransferBatchRecord × TransferClaim))
    → take_or now b bs o r ≡ none
    → (o ≡ none) × (r ≡ none)
none_step now b bs none none h = (refl, refl)
none_step now b bs none (some (rest, d)) h = absurd (cc h)
none_step now b bs (some f) r h = absurd (cc h)

-- The loop finds nothing only where no batch offers a file.
pub claim_from-none :
    (now : ℕ) (bs : List TransferBatchRecord)
    → claim_from now bs ≡ none
    → All (λ b. next_queued b ≡ none) bs
unfolding claim_from
claim_from-none now [] h = tt
claim_from-none now (b ∷ bs) h =
    let (x, y) = none_step now b bs (next_queued b) (claim_from now bs) h in
    (x, claim_from-none now bs y)

-- What `claim` returns: nothing, with the queue as it was, where a file is in flight or no batch
-- offers one; else the claim of the first file on offer, which is saved.
pub data ClaimOutcome (env : Env) (q : Queue) : Queue × Option TransferClaim → Type 0 where
  busy :
      {r : Queue × Option TransferClaim}
      → any has_in_flight q.batches ≡ true
      → r ≡ (q, none)
      → ClaimOutcome env q r
  idle :
      {r : Queue × Option TransferClaim}
      → any has_in_flight q.batches ≡ false
      → All (λ b. next_queued b ≡ none) q.batches
      → r ≡ (q, none)
      → ClaimOutcome env q r
  claimed :
      {r : Queue × Option TransferClaim}
      → any has_in_flight q.batches ≡ false
      → (bs : List TransferBatchRecord) (c : TransferClaim) → Claims env.now q.batches bs c
      → r ≡ (persist (with_batches bs q), some c)
      → ClaimOutcome env q r

pub claim-ClaimOutcome : (env : Env) (q : Queue) → ClaimOutcome env q (claim env q)
unfolding claim
claim-ClaimOutcome env q = elim (Bool-cases (any has_in_flight q.batches)) [
  | inl e ↦ busy e (ground arith)
  | inr e ↦ elim (Option-cases (claim_from env.now q.batches)) [
    | inl stop ↦ idle e (claim_from-none env.now q.batches stop) (ground arith)
    | inr (r, found) ↦
        claimed e r.0 r.1 (claim_from-Claims env.now q.batches r.0 r.1 found) (ground arith)
  ]
]

pub next_queued-find? :
    (b : TransferBatchRecord) (f : TransferFileRecord)
    → next_queued b ≡ some f
    → find? takes b.files ≡ some f
unfolding next_queued
next_queued-find? b f h = ground arith
