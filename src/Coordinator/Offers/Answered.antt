-- ===== src/Coordinator/Offers/Answered.antt =====
-- How src/transfer/transfer-coordinator.ts answers an offer that it does not know.
use vidyut.Prelude.{
  ℕ, ◌≤◌, ◌<◌, ◌≡◌, ◌⊎◌, refl, inl, inr, String, Bool, true, false, not, List, [], ◌∷◌, ◌++◌,
  Option, none, some, arith, ltb, find?, any, str_eq_refl, Bool-cases, Ensures, Ensures-bind,
  Ensures-ok, Ensures-guard, if◌then◌else◌,
}
use vidyut.Wire.Types.{
  TransferControlMessage, TransferFileOffer, TransferOffer, TransferDirection, transfer_file_failed,
}
use vidyut.Wire.Guards.{is_transfer_offer}
use vidyut.Wire.Encode.{offer_json}
use vidyut.Queue.Types.{TransferBatchRecord}
use vidyut.Queue.Timing.{Env}
use vidyut.Queue.Batch.{assert_batch}
use vidyut.Queue.Store.{Queue, M, has_transfer_id, persist}
use vidyut.Queue.Claim.{push_batch}
use vidyut.Queue.Offers.{received_batch, accept_new, accept_offer, destination_for, is_missing}
use vidyut.Plane.State.{
  Flow, next, Plane, Act, ◌>>=◌, ◌>>◌, gets, each, publish, raise_unless, or_raise, of_disk,
  invalid_phone_offer,
}
use vidyut.Plane.Rules.{
  Ends, Ends-next, Ends-bind, Ends-then, Ends-or_raise, Ends-raise_unless, Ends-ask_queue,
}
use vidyut.Plane.Upload.{same_direction}
use vidyut.Coordinator.{CoordinatorOptions, find_batch_of, make_destination}
use vidyut.Coordinator.Offers.{
  OfferResult, fresh, existing, rejected, insufficient_storage, offered_bytes, required_bytes,
  too_large_file, destination_paths, accept_in_queue, refuse_offered, with_room, within_storage,
  accept_small_offer, accept_new_offer, answer_offer, accept_phone_offer,
}

find?-appended {ℓ} :
    {A : Type ℓ} (p : A → Bool) (xs : List A) (y : A)
    → find? p xs ≡ none
    → p y ≡ true
    → find? p (xs ++ (y ∷ [])) ≡ some y
find?-appended p [] y h k = rw k
find?-appended p (x ∷ xs) y h k = elim (Bool-cases (p x)) [
  | inl e ↦ absurd (cc (rw e at h))
  | inr e ↦ rw e (find?-appended p xs y (rw e at h) k)
]

-- The messages that refuse every file, the newest first.
abbrev pub refusals :
    String → List TransferFileOffer → List TransferControlMessage → List TransferControlMessage
refusals transfer_id [] published = published
refusals transfer_id (f ∷ fs) published =
    refusals transfer_id fs
      (transfer_file_failed transfer_id f.file_id insufficient_storage ∷ published)

module _ {Disk : Type 0} (c : CoordinatorOptions Disk) (o : TransferOffer) (device : String)
    (p : Plane Disk) where
  abbrev pub Unchanged : Plane Disk → Type 0
  Unchanged q = (q.queue ≡ p.queue) × (q.published ≡ p.published)

  -- Every file is within the limit, there is room for all, and the batch is queued for the device.
  pub record Taken (q : Plane Disk) : Type 0 where
    pub all_small : too_large_file c o ≡ none
    pub room : (n : ℕ) × (c.available_bytes p.disk ≡ some n) × (offered_bytes o.files ≤ n)
    pub queued :
        (now : ℕ) × (find_batch_of q.queue o.transfer_id
          ≡ some (received_batch now (destination_paths c o) (some device) o))
    pub silent : q.published ≡ p.published

  -- The queue is as it was: a file is too large and is refused, or there is too little room and
  -- every file is.
  abbrev pub Refused : Plane Disk → Type 0
  Refused q =
      (q.queue ≡ p.queue)
      × (((f : TransferFileOffer) × (too_large_file c o ≡ some f)
            × (q.published
                ≡ transfer_file_failed o.transfer_id f.file_id "file_too_large" ∷ p.published))
          ⊎ ((n : ℕ) × (too_large_file c o ≡ none)
              × (c.available_bytes p.disk ≡ some n)
              × (n < offered_bytes o.files)
              × (q.published ≡ refusals o.transfer_id o.files p.published)))

  abbrev pub Answered : OfferResult → Plane Disk → Type 0
  Answered fresh q = Taken q
  Answered existing q = ⊥
  Answered rejected q = Refused q

  abbrev Answers : Flow OfferResult × Plane Disk → Type 0
  Answers = Ends Answered (λ _ _. ⊥) Unchanged

  all_refused :
      (fs : List TransferFileOffer) (q : Plane Disk)
      → each (refuse_offered c o.transfer_id) fs q
        ≡ (next tt, record q { published = refusals o.transfer_id fs q.published })
  unfolding each refuse_offered publish ◌>>◌ ◌>>=◌
  all_refused [] q = refl
  all_refused (f ∷ fs) q = all_refused fs _

  abbrev Told : Plane Disk → Type 0
  Told q = (q.queue ≡ p.queue) × (q.published ≡ refusals o.transfer_id o.files p.published)

  all_refused-Told :
      Ends (λ _. Told) (λ _ _. ⊥) Unchanged (each (refuse_offered c o.transfer_id) o.files p)
  all_refused-Told = rw (all_refused o.files p) (Ends-next (λ _. Told) tt _ (refl, refl))

  module _ (is_new : find_batch_of p.queue o.transfer_id ≡ none) where
    abbrev Queued : TransferBatchRecord × Queue → Type 0
    Queued a =
        (now : ℕ) × (find_batch_of a.1 o.transfer_id
          ≡ some (received_batch now (destination_paths c o) (some device) o))

    abbrev accepting : Env → Queue → M (TransferBatchRecord × Queue)
    accepting env q = accept_offer c.comes_first env q o (destination_paths c o) (some device)

    accepting-Queued :
        (env : Env) (q : Queue)
        → find_batch_of q o.transfer_id ≡ none
        → Ensures Queued (accepting env q)
    unfolding accept_offer accept_new push_batch persist received_batch
    accepting-Queued env q h = Ensures-guard (is_transfer_offer (offer_json o)) _ _ λ _.
        Ensures-guard
          (not (any (λ f. is_missing (destination_for (destination_paths c o) f)) o.files)) _ _
          λ _.
            rw (h, accept_offer)
              (Ensures-bind
                (assert_batch (received_batch env.now (destination_paths c o) (some device) o)) _
                λ _ _. Ensures-ok _ (
                  env.now,
                  find?-appended (has_transfer_id o.transfer_id) q.batches _ h
                      (str_eq_refl o.transfer_id),
                ))

    taken :
        (n : ℕ) (q : Plane Disk)
        → too_large_file c o ≡ none
        → c.available_bytes p.disk ≡ some n
        → offered_bytes o.files ≤ n
        → Unchanged q
        → Ends Answered
            (λ _ _. ⊥)
            Unchanged
            ((accept_in_queue c o device >>= λ accepted. gets λ p. fresh) q)
    unfolding accept_in_queue
    taken n q small a fits (eq, ep) =
        Ends-bind {Q = λ a q'. Queued (a, q'.queue) × (q'.published ≡ p.published)} _ _ q
          (Ends-ask_queue c.plane.clock accepting q
            (record {
              apply = λ a e.
                  ((accepting-Queued (c.plane.clock q.tick) q.queue (rw eq is_new)).apply a e, ep);
            })
            (eq, ep))
          λ b q' (queued, silent).
            Ends-next Answered fresh q'
              (record { all_small = small; room = (n, a, fits); queued = queued; silent = silent })

    abbrev go : Act Disk OfferResult
    go = accept_in_queue c o device >>= λ accepted. gets λ p'. fresh

    make_destination-Unchanged : Ends (λ _. Unchanged) (λ _ _. ⊥) Unchanged (make_destination c p)
    unfolding make_destination
    make_destination-Unchanged =
        let (made, d) = c.plane.fs.make_directory p.disk c.destination_directory in
        Ends-bind {Q = λ (made : Bool). Unchanged} _ _ p
          (Ends-next (λ _. Unchanged) made (record p { disk = d }) (refl, refl))
          λ made q u. Ends-or_raise (if made then some tt else none) of_disk q (λ _ _. u) (λ _. u)

    with_room-Answered :
        (n : ℕ) (enough : Bool)
        → not (ltb n (offered_bytes o.files)) ≡ enough
        → too_large_file c o ≡ none
        → c.available_bytes p.disk ≡ some n
        → Answers (with_room c enough none o go p)
    unfolding with_room
    with_room-Answered n true h small a =
        Ends-then {Q = Unchanged} (make_destination c) go p make_destination-Unchanged
          λ q u. taken n q small a (ground arith) u
    with_room-Answered n false h small a =
        Ends-then {Q = Told} (each (refuse_offered c o.transfer_id) o.files) (gets λ p'. rejected) p
          all_refused-Told
          λ q (eq, ep). Ends-next Answered rejected q (eq, inr (n, small, a, ground arith, ep))

    accept_small_offer-Answered :
        too_large_file c o ≡ none → Answers (accept_small_offer c o device p)
    unfolding accept_small_offer within_storage
    accept_small_offer-Answered small =
        Ends-bind {Q = λ n q. (c.available_bytes p.disk ≡ some n) × (q ≡ p)}
          (λ x. or_raise (c.available_bytes x.disk) of_disk x)
          (λ n. with_room c (not (ltb n (required_bytes none o))) none o go) p
          (Ends-or_raise (c.available_bytes p.disk) of_disk p (λ n e. (e, refl))
            (λ _. (refl, refl)))
          λ n q (e, eq). rw eq (with_room-Answered n _ refl small e)

    accept_new_offer-Answered :
        (large : Option TransferFileOffer)
        → too_large_file c o ≡ large
        → Answers (accept_new_offer c o device large p)
    unfolding accept_new_offer publish
    accept_new_offer-Answered none h = accept_small_offer-Answered h
    accept_new_offer-Answered (some f) h =
        let message = transfer_file_failed o.transfer_id f.file_id "file_too_large" in
        Ends-then {Q = λ q. (q.queue ≡ p.queue) × (q.published ≡ message ∷ p.published)}
          (publish message) _ p
          (Ends-next (λ _ q. (q.queue ≡ p.queue) × (q.published ≡ message ∷ p.published)) tt
            (record p { published = message ∷ p.published }) (refl, refl))
          λ q (eq, ep). Ends-next Answered rejected q (eq, inl (f, h, ep))

    -- An offer of a transfer that the queue does not have is taken or rejected, or an exception
    -- leaves the queue and the messages as they were. Where it is taken, every file is within the
    -- limit, there is room for all of them, and the queue has the batch for the device. Where it is
    -- rejected, the queue is as it was, and the phone is told of the file that is too large, or,
    -- where there is none but too little room, of every file.
    pub accept_phone_offer-Answered :
        Ends Answered (λ _ _. ⊥) Unchanged (accept_phone_offer c o device p)
    unfolding accept_phone_offer
    accept_phone_offer-Answered =
        let valid = is_transfer_offer (offer_json o) in
        let directed = same_direction o.direction TransferDirection.phone_to_laptop in
        Ends-then {Q = λ q. q ≡ p} (raise_unless valid invalid_phone_offer) _ p
          (Ends-raise_unless valid invalid_phone_offer p (λ _. refl) (refl, refl))
          λ q1 e1.
            Ends-then {Q = λ q. q ≡ p} (raise_unless directed invalid_phone_offer) _ q1
              (Ends-raise_unless directed invalid_phone_offer q1 (λ _. e1) (rw e1 (refl, refl)))
              λ q2 e2.
                Ends-bind {Q = λ known q. (known ≡ none) × (q ≡ p)}
                  (gets λ p'. find_batch_of p'.queue o.transfer_id) (answer_offer c o device) q2
                  (Ends-next {A = Option TransferBatchRecord} (λ known q. (known ≡ none) × (q ≡ p))
                    (find_batch_of q2.queue o.transfer_id) q2 (rw e2 is_new, e2))
                  λ known q3 (none_known, e3).
                    rw (none_known, e3) (accept_new_offer-Answered _ refl)
