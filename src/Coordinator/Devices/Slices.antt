-- ===== src/Coordinator/Devices/Slices.antt =====
-- The slices in which src/transfer/transfer-coordinator.ts queues the files of the laptop.
use vidyut.Prelude.{
  ℕ, zero, suc, ◌≤◌, ◌<◌, ◌≡◌, refl, ap, ◌∙◌, List, [], ◌∷◌, ◌++◌, All, arith, length, take, drop,
  length-drop,
}
use vidyut.Coordinator.Devices.{max_offer_files, slices_from, slices}

abbrev pub joined {ℓ} : {A : Type ℓ} → List (List A) → List A
joined [] = []
joined (s ∷ ss) = s ++ joined ss

module _ {A : Type 0} where
  -- What an offer may hold.
  abbrev pub IsOfferable : List A → Type 0
  IsOfferable s = (0 < length s) × (length s ≤ max_offer_files)

  take-drop : (n : ℕ) (xs : List A) → take n xs ++ drop n xs ≡ xs
  take-drop zero xs = refl
  take-drop (suc n) [] = refl
  take-drop (suc n) (x ∷ xs) = ap (λ l. x ∷ l) (take-drop n xs)

  length-take_le : (n : ℕ) (xs : List A) → length (take n xs) ≤ n
  length-take_le zero xs = omega arith
  length-take_le (suc n) [] = omega arith
  length-take_le (suc n) (x ∷ xs) = omega (arith, length-take_le n xs)

  slices_from-joined :
      (fuel : ℕ) (xs : List A) → length xs ≤ fuel → joined (slices_from fuel xs) ≡ xs
  unfolding slices_from
  slices_from-joined zero [] h = refl
  slices_from-joined zero (x ∷ xs) h = absurd (omega arith)
  slices_from-joined (suc fuel) [] h = refl
  slices_from-joined (suc fuel) (x ∷ xs) h =
      ap (λ l. take max_offer_files (x ∷ xs) ++ l)
        (slices_from-joined fuel (drop max_offer_files (x ∷ xs)) (omega (arith, length-drop 99 xs)))
      ∙ take-drop max_offer_files (x ∷ xs)

  slices_from-IsOfferable : (fuel : ℕ) (xs : List A) → All IsOfferable (slices_from fuel xs)
  unfolding slices_from
  slices_from-IsOfferable zero xs = tt
  slices_from-IsOfferable (suc fuel) [] = tt
  slices_from-IsOfferable (suc fuel) (x ∷ xs) = (
    (omega arith, omega (arith, length-take_le 99 xs)),
    slices_from-IsOfferable fuel (drop 99 xs),
  )

  -- The batches that a selection of files is queued in hold all the files, each once and in their
  -- order, and every batch has at least one file and at most a hundred.
  pub slices-IsOfferable : (xs : List A) → (joined (slices xs) ≡ xs) × All IsOfferable (slices xs)
  unfolding slices
  slices-IsOfferable xs =
      (slices_from-joined (length xs) xs (omega arith), slices_from-IsOfferable (length xs) xs)
