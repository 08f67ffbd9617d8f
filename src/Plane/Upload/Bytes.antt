-- ===== src/Plane/Upload/Bytes.antt =====
-- The bytes of a partial file that src/transfer/laptop-data-plane.ts writes.
use mathlib.Core.List.{append_assoc}
use vidyut.Prelude.{
  ℕ, zero, suc, ◌+◌, ◌≤◌, ◌≡◌, refl, sym, ap, ◌∙◌, String, List, [], ◌∷◌, ◌++◌, some, arith, length,
  take, drop, length-append, length-drop,
}
use vidyut.Plane.Disk.{FileSystem, IsLawful, splice, bytes_written}

pub take-append : (xs ys : List ℕ) → take (length xs) (xs ++ ys) ≡ xs
take-append [] ys = refl
take-append (x ∷ xs) ys = ap (λ l. x ∷ l) (take-append xs ys)

pub take-length : (xs : List ℕ) → take (length xs) xs ≡ xs
take-length [] = refl
take-length (x ∷ xs) = ap (λ l. x ∷ l) (take-length xs)

length-take : (n : ℕ) (xs : List ℕ) → n ≤ length xs → length (take n xs) ≡ n
length-take zero xs h = refl
length-take (suc n) [] h = absurd (omega arith)
length-take (suc n) (x ∷ xs) h = omega (arith, length-take n xs)

-- A file of at most `size` bytes that starts with `xs`.
pub record Starts (size : ℕ) (xs old : List ℕ) : Type 0 where
  pub bounded : length old ≤ size
  pub covered : length xs ≤ length old
  pub front : take (length xs) old ≡ xs

pub Starts-less : (size : ℕ) (xs ys old : List ℕ) → Starts size (xs ++ ys) old → Starts size xs old
Starts-less size xs ys old s = record {
  bounded = s.bounded;
  covered = omega (arith, s.covered, length-append xs ys);
  front = shorter xs ys old s.front;
}
  where
    shorter :
        (xs ys old : List ℕ) → take (length (xs ++ ys)) old ≡ xs ++ ys → take (length xs) old ≡ xs
    shorter [] ys old e = refl
    shorter (x ∷ xs) ys [] e = absurd (cc e)
    shorter (x ∷ xs) ys (o ∷ old) e =
        let rest : take (length (xs ++ ys)) old ≡ xs ++ ys = cc e in
        let same : o ≡ x = cc e in rw same (ap (λ l. x ∷ l) (shorter xs ys old rest))

-- A file that starts with as many bytes as it may have is those bytes.
pub Starts-whole : (size : ℕ) (xs old : List ℕ) → Starts size xs old → length xs ≡ size → old ≡ xs
Starts-whole size xs old s h =
    let full : length xs ≡ length old = omega (arith, s.bounded, s.covered) in
    sym (take-length old) ∙ ap (λ n. take n old) (sym full) ∙ s.front

pub splice-Starts :
    (size : ℕ) (xs bytes old : List ℕ)
    → Starts size xs old
    → length xs + length bytes ≤ size
    → Starts size (xs ++ bytes) (splice old (length xs) bytes)
splice-Starts size xs bytes old s h =
    let rest = drop (length xs + length bytes) old in
    let whole : splice old (length xs) bytes ≡ (xs ++ bytes) ++ rest =
      ap (λ l. l ++ (bytes ++ rest)) s.front ∙ sym (append_assoc xs bytes rest) in
    let size_of = length-append (xs ++ bytes) rest in
    let front_size = length-append xs bytes in
    let rest_size = length-drop (length xs + length bytes) old in
    rw whole (record {
      bounded = omega (arith, s.bounded, s.covered, size_of, front_size, rest_size);
      covered = omega (arith, size_of);
      front = take-append (xs ++ bytes) rest;
    })

module _ {Disk : Type 0} (fs : FileSystem Disk) (w : IsLawful fs) (path : String) (size : ℕ) where
  -- The file is there and starts with the bytes.
  abbrev pub Stored : List ℕ → Disk → Type 0
  Stored xs d = (old : List ℕ) × (w.content d path ≡ some old) × Starts size xs old

  pub Stored-less : (xs ys : List ℕ) (d : Disk) → Stored (xs ++ ys) d → Stored xs d
  Stored-less xs ys d (old, there, s) = (old, there, Starts-less size xs ys old s)

  -- Whatever the write says, the bytes in front of the offset stay; where it says that it wrote all of
  -- the chunk, they are followed by the chunk.
  pub write_at-Stored :
      (xs bytes : List ℕ) (d : Disk)
      → Stored xs d
      → length xs + length bytes ≤ size
      → Stored xs (fs.write_at d path (length xs) bytes).1
        × ((fs.write_at d path (length xs) bytes).0 ≡ bytes_written (length bytes)
            → Stored (xs ++ bytes) (fs.write_at d path (length xs) bytes).1)
  write_at-Stored xs bytes d (old, there, s) h =
      let (n, n_le, after, said) =
        w.write_at-content d path (length xs) bytes old there s.covered in
      let short = length-take n bytes n_le in
      (
        Stored-less xs (take n bytes) _ (
          splice old (length xs) (take n bytes),
          after,
          splice-Starts size xs (take n bytes) old s (omega (arith, short)),
        ),
        λ all.
            let full : n ≡ length bytes = sym (said (length bytes) all) in
            let same : take n bytes ≡ bytes = ap (λ k. take k bytes) full ∙ take-length bytes in
            (splice old (length xs) bytes, rw (same) at after, splice-Starts size xs bytes old s h),
      )
