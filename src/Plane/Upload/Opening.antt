-- ===== src/Plane/Upload/Opening.antt =====
-- The beginning of an upload of src/transfer/laptop-data-plane.ts: the session and the partial file.
use vidyut.Prelude.{
  ℕ, ◌≡◌, ◌≢◌, ◌⊎◌, refl, sym, ap, ◌∙◌, subst, inl, inr, String, List, [], ◌∷◌, some, arith, length,
  ◌==◌, Bool-cases,
}
use vidyut.Wire.Types.{TransferDirection, TransferFileOffer}
use vidyut.Queue.Types.{TransferFileRecord}
use vidyut.Queue.Timing.{lookup}
use vidyut.Queue.Progress.{fail}
use vidyut.Plane.Disk.{IsLawful, OpenAnswer, opened, missing, not_opened}
use vidyut.Plane.Sessions.{Session, progress_key, session_for}
use vidyut.Plane.State.{Plane, ◌>>=◌, of_disk, publish, file_terminal}
use vidyut.Plane.Rules.{
  Ends, Ends-next, Ends-reply, Ends-throw, Ends-bind, Ends-then, Ends-or_raise, Ends-on_queue_ok,
}
use vidyut.Plane.Upload.{
  Config, open_session, set_session, remove, open_partial, open_answer, after_open, make_parent,
  active_destination, give_up, end_session,
}
use vidyut.Plane.Upload.Records.Calls.{fail-Now, fail_returns}
use vidyut.Plane.Upload.Receiving.{
  IsOpen, Synced, session_for-IsOpen, lookup-assign, found, partial, OnDisk, Receiving, Idle,
  Otherwise, Held, found-file_id,
}
use vidyut.Plane.Upload.Steps.{Idle-with}

module _ {Disk : Type 0} (c : Config Disk) (w : IsLawful c.fs)
    (transfer_id file_id requested : String) (offer : TransferFileOffer) (xs : List ℕ) where
  abbrev Else : Plane Disk → Type 0
  Else = Otherwise c w transfer_id file_id requested offer xs

  abbrev partial_path : String
  partial_path = partial c w transfer_id file_id requested offer

  abbrev IsIdle : Plane Disk → Type 0
  IsIdle = Idle c w transfer_id file_id requested offer

  nil_of : (ys : List ℕ) → length ys ≡ 0 → ys ≡ []
  nil_of [] h = refl
  nil_of (y ∷ ys) h = absurd (omega (arith, h))

  give_up-found :
      (r : TransferFileRecord) (code : String) (p : Plane Disk)
      → found c w transfer_id file_id requested offer p ≡ some r
      → Ends (λ _. IsIdle) (λ _. Else) Else (give_up c transfer_id file_id code p)
  unfolding give_up publish end_session file_terminal
  give_up-found r code p here =
      let phone = TransferDirection.phone_to_laptop in
      let (q, done) = fail_returns transfer_id file_id phone (c.clock p.tick) p.queue r here code in
      let (y, there, inactive) =
        (fail-Now transfer_id file_id phone (c.clock p.tick) p.queue r here code).apply q done in
      Ends-then _ _ p
        (Ends-on_queue_ok {Q = IsIdle} c.clock (λ env q. fail env q transfer_id file_id code) p done
          (record { file = y; is_found = there; inactive = inactive }))
        λ p1 i. Ends-then _ _ p1 (Ends-next (λ _. IsIdle) tt _ (idle_with p1 _ i refl)) λ p2 j.
          Ends-then _ _ p2 (Ends-next (λ _. IsIdle) tt _ (idle_with p2 _ j refl))
            λ p3 k. Ends-next (λ _. IsIdle) tt _ (idle_with p3 _ k refl)
    where
      idle_with : (p p' : Plane Disk) → IsIdle p → p'.queue ≡ p.queue → IsIdle p'
      idle_with = Idle-with c w transfer_id file_id requested offer xs

  -- The record as it was looked up, its session, and the bytes, before the partial file is open.
  pub record Known (r : TransferFileRecord) (s : Session) (p : Plane Disk) : Type 0 where
    pub is_found : found c w transfer_id file_id requested offer p ≡ some r
    pub kept : lookup (progress_key transfer_id file_id) p.sessions ≡ some s
    pub on_disk : (length xs ≡ 0) ⊎ OnDisk c w transfer_id file_id requested offer xs p.disk

  pub open_session-Known :
      (r : TransferFileRecord) (p : Plane Disk)
      → (h : Receiving c w transfer_id file_id requested offer xs p) → h.file ≡ r
      → Ends
          (λ s p'. IsOpen r (length xs) s × Known r s p')
          (λ _. Else)
          Else
          (open_session c transfer_id file_id r p)
  unfolding open_session set_session
  open_session-Known r p h same =
      let here : found c w transfer_id file_id requested offer p ≡ some r =
        h.is_found ∙ ap some same in
      let named = found-file_id c w transfer_id file_id requested offer p r here in
      let now = (c.clock p.tick).monotonic_now in
      let s = session_for c.policy now transfer_id r p.sessions in
      let o : IsOpen r (length xs) s =
        session_for-IsOpen c.policy now (length xs) transfer_id r p.sessions (
          subst (λ f. Synced r (length xs) (lookup (progress_key transfer_id f) p.sessions))
            (sym named)
            (subst
              (λ x. Synced x (length xs) (lookup (progress_key transfer_id file_id) p.sessions))
              same h.synced)) in
      Ends-bind _ _ p (Ends-next (λ t q. (t ≡ s) × (q ≡ p)) s p (refl, refl)) λ t q (et, eq).
        rw (et, eq)
          (Ends-then {Q = Known r s} _ _ p
            (Ends-next (λ _. Known r s) tt _
              (record {
                is_found = here;
                kept = lookup-assign (progress_key transfer_id file_id) s p.sessions;
                on_disk = h.on_disk;
              }))
            λ p' k. Ends-next (λ s' p''. IsOpen r (length xs) s' × Known r s' p'') s p' (o, k))

  -- From the record and its session to the state in which the chunk is written.
  module _ (r : TransferFileRecord) (s : Session) (target : active_destination r ≡ some requested)
      (same : r.offered ≡ offer) (o : IsOpen r (length xs) s) where
    pub Known-Else :
        (p p' : Plane Disk)
        → Known r s p
        → p'.queue ≡ p.queue
        → p'.sessions ≡ p.sessions
        → ((length xs ≡ 0) ⊎ OnDisk c w transfer_id file_id requested offer xs p'.disk)
        → Else p'
    Known-Else p p' k q e d = inl (record {
      file = r;
      is_found = rw q k.is_found;
      target = target;
      same_offer = same;
      synced = rw (e, k.kept) o;
      on_disk = d;
    })

    Known-Held :
        (p p' : Plane Disk)
        → Known r s p
        → p'.queue ≡ p.queue
        → p'.sessions ≡ p.sessions
        → OnDisk c w transfer_id file_id requested offer xs p'.disk
        → Held c w transfer_id file_id requested offer r s xs p'
    Known-Held p p' k q e d = record {
      file = r;
      is_found = rw q k.is_found;
      same = record { stands = refl; confirms = refl; offers = refl; goes_to = refl };
      kept = rw e k.kept;
      stored = d;
    }

    abbrev Ready : Plane Disk → Type 0
    Ready = Held c w transfer_id file_id requested offer r s xs

    removed :
        (p : Plane Disk)
        → Ends
            (λ _ p1. p1.queue ≡ p.queue)
            (λ _. Else)
            Else
            (remove c transfer_id file_id partial_path p)
    unfolding remove
    removed p = Ends-next (λ _ p1. p1.queue ≡ p.queue) tt _ refl

    -- Behind the attempt to open: the file starts with the bytes where it was opened.
    after_open-Held :
        (answer : OpenAnswer) (p p' : Plane Disk)
        → Known r s p
        → p'.queue ≡ p.queue
        → p'.sessions ≡ p.sessions
        → (answer ≡ opened → OnDisk c w transfer_id file_id requested offer xs p'.disk)
        → (answer ≢ opened
            → (length xs ≡ 0) ⊎ OnDisk c w transfer_id file_id requested offer xs p'.disk)
        → Ends
            (λ _. Ready)
            (λ _. Else)
            Else
            (after_open c transfer_id file_id partial_path answer p')
    after_open-Held opened p p' k q e d f =
        Ends-next (λ _. Ready) tt p' (Known-Held p p' k q e (d refl))
    after_open-Held not_opened p p' k q e d f =
        Ends-throw (λ _. Ready) of_disk p' (Known-Else p p' k q e (f (λ h. cc h)))
    after_open-Held missing p p' k q e d f =
        Ends-then {Q = λ p1. p1.queue ≡ p'.queue} _ _ p' (removed p') λ p1 e1.
          Ends-then _ _ p1 (give_up-found r "partial_state_missing" p1 (rw (e1, q) k.is_found))
            λ p2 i. Ends-reply (λ _. Ready) _ p2 (inr i)

    empty-OnDisk :
        (d : Disk)
        → length xs ≡ 0
        → w.content d partial_path ≡ some []
        → OnDisk c w transfer_id file_id requested offer xs d
    empty-OnDisk d none_yet there = (
      [],
      there,
      rw (nil_of xs none_yet)
          (record { bounded = omega arith; covered = omega arith; front = refl }),
    )

    opened_at :
        (offset : ℕ) (p : Plane Disk)
        → Known r s p
        → offset ≡ length xs
        → Ends
            (λ _. Ready)
            (λ _. Else)
            Else
            ((open_answer c transfer_id file_id partial_path offset >>= λ answer.
                after_open c transfer_id file_id partial_path answer)
              p)
    opened_at offset p k at = elim (Bool-cases (offset == 0)) [
      | inl first ↦
          let none_yet : length xs ≡ 0 = ground arith in
          let p1 : Plane Disk = record p { disk = (c.fs.open_truncated p.disk partial_path).1 } in
          Ends-bind
            {Q = λ answer q. (q ≡ p1) × (answer ≡ (c.fs.open_truncated p.disk partial_path).0)} _ _
            p
            (rw first (
              Ends-next
                (λ answer q. (q ≡ p1) × (answer ≡ (c.fs.open_truncated p.disk partial_path).0)) _ p1
                (refl, refl)))
            λ answer q (eq, ea). rw eq (
              after_open-Held answer p p1 k refl refl
                (λ done.
                  empty-OnDisk p1.disk none_yet
                    (w.open_truncated-content p.disk partial_path (sym ea ∙ done)))
                (λ failed. inl none_yet))
      | inr later ↦
          let on : OnDisk c w transfer_id file_id requested offer xs p.disk = elim k.on_disk [
            | inl nothing ↦ absurd (ground arith)
            | inr there ↦ there
          ] in
          Ends-bind {Q = λ answer q. q ≡ p} _ _ p
            (rw later (Ends-next (λ answer q. q ≡ p) _ p refl))
            λ answer q eq. rw eq (after_open-Held answer p p k refl refl (λ _. on) (λ _. inr on))
    ]

    pub open_partial-Held :
        (offset : ℕ) (p : Plane Disk)
        → Known r s p
        → offset ≡ length xs
        → Ends
            (λ _. Ready)
            (λ _. Else)
            Else
            (open_partial c transfer_id file_id partial_path offset p)
    unfolding open_partial
    open_partial-Held offset p k at =
        let made = make_parent c transfer_id file_id partial_path p in
        let kept_bytes =
          λ (d : (length xs ≡ 0) ⊎ OnDisk c w transfer_id file_id requested offer xs p.disk).
            elim d
              as (λ _.
                (length xs ≡ 0) ⊎ OnDisk c w transfer_id file_id requested offer xs made.1.disk) [
                  | inl nothing ↦ inl nothing
                  | inr (old, there, starts) ↦ inr (
                    old,
                    w.make_directory-content p.disk (c.paths.dirname partial_path) partial_path
                        ∙ there,
                    starts,
                  )
                ] in
        let k1 : Known r s made.1 = record {
          is_found = k.is_found;
          kept = k.kept;
          on_disk = kept_bytes k.on_disk;
        } in
        Ends-bind _ _ p (Ends-next (λ _ q. q ≡ made.1) _ made.1 refl) λ b q eq. rw eq (
          Ends-then {Q = λ q. q ≡ made.1} _ _ made.1
            (Ends-or_raise {Q = λ _ q. q ≡ made.1} _ of_disk made.1 (λ _ _. refl)
              (λ _. Known-Else made.1 made.1 k1 refl refl k1.on_disk))
            λ q2 eq2. rw eq2 (opened_at offset made.1 k1 at))
