-- ===== src/Plane/Upload/Candidates.antt =====
-- The loop of `finalizeWithoutOverwrite` of src/transfer/laptop-data-plane.ts against the file
-- system: which path it picks and what it leaves alone.
use vidyut.Prelude.{
  ℕ, zero, suc, ◌+◌, ◌<◌, ◌≡◌, ◌≢◌, refl, sym, ap, ◌∙◌, subst, String, none, arith,
}
use vidyut.Queue.Progress.{begin_finalization}
use vidyut.Plane.Disk.{IsLawful, LinkAnswer, linked, taken, not_linked}
use vidyut.Plane.State.{Plane, Act, of_disk, no_free_candidate, on_queue, Flow}
use vidyut.Plane.Rules.{Ends, Ends-next, Ends-throw, Ends-bind, Ends-then, Ends-on_queue}
use vidyut.Plane.Upload.{Config}
use vidyut.Plane.Upload.Finish.{
  after_link, finalize_from, finalize_without_overwrite, candidate_rounds,
}

module _ {Disk : Type 0} (c : Config Disk) (w : IsLawful c.fs)
    (transfer_id file_id partial requested : String) where
  -- Every path names what it named.
  abbrev pub Untouched : Plane Disk → Plane Disk → Type 0
  Untouched p q = (path : String) → w.content q.disk path ≡ w.content p.disk path

  -- The path is the first candidate from `suffix` on, of `rounds`, that was free; it names the file,
  -- and no other path has changed.
  pub record Picked (rounds suffix : ℕ) (p : Plane Disk) (path : String) (q : Plane Disk)
      : Type 0 where
    pub tries : ℕ
    pub in_time : tries < rounds
    pub is_candidate : path ≡ c.candidate requested (suffix + tries)
    pub taken_before :
        (m : ℕ) → m < tries → w.content p.disk (c.candidate requested (suffix + m)) ≢ none
    pub was_free : w.content p.disk path ≡ none
    pub now_there : w.content q.disk path ≡ w.content p.disk partial
    pub others : (other : String) → other ≢ path → w.content q.disk other ≡ w.content p.disk other

  abbrev Picks : ℕ → ℕ → Plane Disk → Flow String × Plane Disk → Type 0
  Picks rounds suffix p = Ends (Picked rounds suffix p) (λ _ _. ⊥) (Untouched p)

  later-Picked :
      (rounds suffix : ℕ) (p p1 : Plane Disk) (path : String) (q : Plane Disk)
      → Untouched p p1
      → w.content p.disk (c.candidate requested suffix) ≢ none
      → Picked rounds (suffix + 1) p1 path q
      → Picked (suc rounds) suffix p path q
  later-Picked rounds suffix p p1 path q u first k =
      let shift : suffix + 1 + k.tries ≡ suffix + suc k.tries = omega arith in
      record {
        tries = suc k.tries;
        in_time = omega (arith, k.in_time);
        is_candidate = k.is_candidate ∙ ap (c.candidate requested) shift;
        taken_before = before;
        was_free = sym (u path) ∙ k.was_free;
        now_there = k.now_there ∙ u partial;
        others = λ other ne. k.others other ne ∙ u other;
      }
    where
      before :
          (m : ℕ) → m < suc k.tries → w.content p.disk (c.candidate requested (suffix + m)) ≢ none
      before zero h = let same : suffix + 0 ≡ suffix = omega arith in rw same first
      before (suc m) h =
          let same : suffix + 1 + m ≡ suffix + suc m = omega arith in
          λ e. k.taken_before m (omega (arith, h)) (
            u (c.candidate requested (suffix + 1 + m))
            ∙ ap (λ n. w.content p.disk (c.candidate requested n)) same
            ∙ e)

  began :
      (path : String) (p : Plane Disk)
      → Ends
          (λ _. Untouched p)
          (λ _ _. ⊥)
          (Untouched p)
          (on_queue c.clock (λ env q. begin_finalization env q transfer_id file_id path) p)
  began path p =
      Ends-on_queue c.clock (λ env q. begin_finalization env q transfer_id file_id path) p
        (record { apply = λ q e other. refl }) (λ other. refl)

  after_link-Picks :
      (rounds suffix : ℕ) (rest : Act Disk String) (answer : LinkAnswer) (p p1 p2 : Plane Disk)
      → Untouched p p1
      → answer ≡ (c.fs.link p1.disk partial (c.candidate requested suffix)).0
      → p2.disk ≡ (c.fs.link p1.disk partial (c.candidate requested suffix)).1
      → (answer ≡ taken → Untouched p p2 → Picks rounds (suffix + 1) p2 (rest p2))
      → Picks
          (suc rounds)
          suffix
          p
          (after_link c transfer_id file_id (c.candidate requested suffix) rest answer p2)
  after_link-Picks rounds suffix rest linked p p1 p2 u ea ed k =
      let path = c.candidate requested suffix in
      let same : suffix + 0 ≡ suffix = omega arith in
      Ends-next (Picked (suc rounds) suffix p) path p2 (record {
        tries = 0;
        in_time = omega arith;
        is_candidate = ap (c.candidate requested) (sym same);
        taken_before = λ m h. absurd (omega (arith, h));
        was_free = sym (u path) ∙ w.link-free p1.disk partial path (sym ea);
        now_there = rw ed (w.link-content p1.disk partial path (sym ea) ∙ u partial);
        others = λ other ne. rw ed (w.link-others p1.disk partial path other ne ∙ u other);
      })
  after_link-Picks rounds suffix rest taken p p1 p2 u ea ed k =
      let path = c.candidate requested suffix in
      let still : Untouched p p2 =
        λ other. rw ed (w.link-failed p1.disk partial path other (λ h. cc (h, ea)) ∙ u other) in
      let full : w.content p.disk path ≢ none =
        λ e. w.link-taken p1.disk partial path (sym ea) (u path ∙ e) in
      let h = k refl still in
      record {
        on_next = λ a e. later-Picked rounds suffix p p2 a _ still full (h.on_next a e);
        on_reply = h.on_reply;
        on_throw = λ t e other. h.on_throw t e other ∙ still other;
      }
  after_link-Picks rounds suffix rest not_linked p p1 p2 u ea ed k =
      let path = c.candidate requested suffix in
      Ends-throw (Picked (suc rounds) suffix p) of_disk p2
        (λ other. rw ed (w.link-failed p1.disk partial path other (λ h. cc (h, ea)) ∙ u other))

  finalize_from-Picks :
      (rounds suffix : ℕ) (p : Plane Disk)
      → Picks rounds suffix p
          (finalize_from c transfer_id file_id rounds suffix partial requested p)
  unfolding finalize_from
  finalize_from-Picks zero suffix p =
      Ends-throw (Picked zero suffix p) no_free_candidate p (λ other. refl)
  finalize_from-Picks (suc rounds) suffix p =
      let path = c.candidate requested suffix in
      Ends-then _ _ p (began path p) λ p1 u.
        let p2 : Plane Disk = record p1 { disk = (c.fs.link p1.disk partial path).1 } in
        Ends-bind {Q = λ answer q. (q ≡ p2) × (answer ≡ (c.fs.link p1.disk partial path).0)} _ _ p1
          (Ends-next (λ answer q. (q ≡ p2) × (answer ≡ (c.fs.link p1.disk partial path).0)) _ p2
            (refl, refl))
          λ answer q (eq, ea).
            subst
              (λ x. Picks (suc rounds) suffix p (
                after_link c transfer_id file_id path
                  (finalize_from c transfer_id file_id rounds (suffix + 1) partial requested) answer
                  x))
              (sym eq)
              (after_link-Picks rounds suffix _ answer p p1 p2 u ea refl
                (λ _ _. finalize_from-Picks rounds (suffix + 1) p2))

  -- On a file system that keeps to the laws: the path that the finished file is given is the first of
  -- the ten thousand candidates that was free, it names the partial file's bytes, and no other path has
  -- changed; where none is given, because a call fails or no candidate is free, nothing has changed on
  -- disk. No file is overwritten.
  pub finalize_without_overwrite-Picked :
      (p : Plane Disk)
      → Ends
          (Picked candidate_rounds 0 p)
          (λ _ _. ⊥)
          (Untouched p)
          (finalize_without_overwrite c transfer_id file_id partial requested p)
  unfolding finalize_without_overwrite
  finalize_without_overwrite-Picked p = finalize_from-Picks candidate_rounds 0 p
