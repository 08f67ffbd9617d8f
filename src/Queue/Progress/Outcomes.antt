-- ===== src/Queue/Progress/Outcomes.antt =====
-- The file before and behind `complete` of src/transfer/transfer-queue.ts.
use vidyut.Prelude.{
  ◌≡◌, refl, sym, ap, ◌∙◌, ◌⊎◌, inl, inr, String, Bool, true, false, not, ◌||◌, some, ok, arith,
  find?-replaced, find?-holds, str_eq, str_eq_iff, Bool-cases, ◌==◌, Ensures, Ensures-bind,
  Ensures-ok, Ensures-guard,
}
use vidyut.Wire.Types.{unknown_transfer_sha256}
use vidyut.Wire.Patterns.{is_sha256_hex}
use vidyut.Queue.Types.{TransferFileRecord, TransferBatchRecord, in_flight, is_completed}
use vidyut.Queue.Timing.{Env}
use vidyut.Queue.Batch.{touch, derive_batch_status}
use vidyut.Queue.Store.{
  Queue, has_transfer_id, has_file_id, find_batch, find_in_batch, put_batch, put_file, persist,
  set_anchor, mark_timing,
}
use vidyut.Queue.Progress.{complete, final_sha256, completed_file, keep_derived}
use vidyut.Queue.Moves.Batches.{find_batch-eq-ok, find_in_batch-eq-ok}
use vidyut.Queue.Tracks.{find_record, record_of_parts}

-- `x` was in flight with all its bytes, and `y` is completed under the digest that was verified.
pub record Completed (verified : String) (x y : TransferFileRecord) : Type 0 where
  pub flew : in_flight x.status ≡ true
  pub whole : x.confirmed_offset ≡ x.size
  pub offered : (x.sha256 ≡ verified) ⊎ (x.sha256 ≡ unknown_transfer_sha256)
  pub known : str_eq verified unknown_transfer_sha256 ≡ false
  pub completed : is_completed y.status ≡ true
  pub digest : y.sha256 ≡ verified
  pub untouched : y.confirmed_offset ≡ x.size

or_false : (a b : Bool) → (a || b) ≡ false → a ≡ false
or_false false b h = refl
or_false true b h = absurd (cc h)

pub digest_parts :
    (offered verified sha : String)
    → final_sha256 offered verified ≡ ok sha
    → (sha ≡ verified)
      × ((offered ≡ verified) ⊎ (offered ≡ unknown_transfer_sha256))
      × (str_eq verified unknown_transfer_sha256 ≡ false)
unfolding final_sha256
digest_parts offered verified sha h = elim (Bool-cases (str_eq offered unknown_transfer_sha256)) [
  | inl deferred ↦
      elim (Bool-cases (str_eq verified unknown_transfer_sha256 || not (is_sha256_hex verified))) [
        | inl bad ↦ absurd (cc (rw (deferred, bad) at h))
        | inr good ↦ (
          cc (rw (deferred, good) at h),
          inr ((str_eq_iff offered unknown_transfer_sha256).0 deferred),
          or_false _ _ good,
        )
      ]
  | inr given ↦ elim (Bool-cases (str_eq verified offered)) [
    | inr other ↦ absurd (cc (rw (given, other) at h))
    | inl same ↦
        let equal = (str_eq_iff verified offered).0 same in
        let sha_is : offered ≡ sha = cc (rw (given, same) at h) in
        (
          sym (equal ∙ sha_is),
          inl (sym equal),
          ap (λ s. str_eq s unknown_transfer_sha256) equal ∙ given,
        )
  ]
]

-- The file that was put back is the one that a search finds.
kept_found :
    (env : Env) (q : Queue) (t f : String) (b : TransferBatchRecord) (x y : TransferFileRecord)
    → find_batch q t ≡ ok b
    → find_in_batch b f ≡ ok x
    → has_file_id f y ≡ true
    → find_record (keep_derived env t f b y q).batches t f ≡ some y
unfolding keep_derived persist put_batch put_file derive_batch_status touch
kept_found env q t f b x y hb hx named =
    let found = find_batch-eq-ok q t b hb in
    record_of_parts (keep_derived env t f b y q).batches t f
      (derive_batch_status env.now (put_file f y b)) y
      (find?-replaced (has_transfer_id t) q.batches b _ found
        (find?-holds (has_transfer_id t) q.batches b found))
      (find?-replaced (has_file_id f) b.files x y (find_in_batch-eq-ok b f x hx) named)

abbrev Outcome : Queue → String → String → String → Queue → Type 0
Outcome q t f verified r =
    (x : TransferFileRecord) × (y : TransferFileRecord) × (find_record q.batches t f ≡ some x)
    × (find_record r.batches t f ≡ some y)
    × Completed verified x y

complete-Outcome :
    (env : Env) (q : Queue) (t f verified : String)
    → Ensures (Outcome q t f verified) (complete env q t f verified)
unfolding complete set_anchor find_batch mark_timing completed_file
complete-Outcome env q t f verified = Ensures-bind (find_batch q t) _ λ b hb.
    Ensures-bind (find_in_batch b f) _ λ x hx. Ensures-guard (in_flight x.status) _ _ λ flew.
      Ensures-guard (x.confirmed_offset == x.size) _ _ λ all_bytes.
        Ensures-bind (final_sha256 x.sha256 verified) _ λ sha hs.
          let mark = mark_timing env t f q in
          let y =
            mark "durable_completion" true
              (mark "publish_finalization" true (completed_file sha x)) in
          let (sha_is, offered, known) = digest_parts x.sha256 verified sha hs in
          let whole : x.confirmed_offset ≡ x.size = ground arith in
          let found = find_in_batch-eq-ok b f x hx in
          Ensures-ok _ (
            x,
            y,
            record_of_parts q.batches t f b x (find_batch-eq-ok q t b hb) found,
            kept_found env (set_anchor env t f q) t f b x y hb hx
                (find?-holds (has_file_id f) b.files x found),
            record {
              flew = flew;
              whole = whole;
              offered = offered;
              known = known;
              completed = refl;
              digest = sha_is;
              untouched = whole;
            },
          )

-- A file that `complete` takes was in flight with all its bytes confirmed, and had either the digest
-- that was verified or the placeholder; behind the call it is completed under the verified digest,
-- which is never the placeholder.
pub complete-Completed :
    (env : Env) (q r : Queue) (t f verified : String)
    → complete env q t f verified ≡ ok r
    → (x : TransferFileRecord) × (y : TransferFileRecord) × (find_record q.batches t f ≡ some x)
      × (find_record r.batches t f ≡ some y)
      × Completed verified x y
complete-Completed env q r t f verified h = (complete-Outcome env q t f verified).apply r h
