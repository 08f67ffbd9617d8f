-- ===== src/Plane/Disk.antt =====
-- The file system as src/transfer/laptop-data-plane.ts uses it: its calls, and what the code relies
-- on. `Disk` is its state.
pub mod Memory
use vidyut.Prelude.{
  true, ℕ, ◌+◌, ◌≤◌, ◌≡◌, ◌≢◌, String, Bool, List, ◌++◌, Option, none, some, length, take, drop,
}

pub data OpenAnswer : Type 0 where
  opened missing not_opened : OpenAnswer

-- `EEXIST` is one of the ways not to link.
pub data LinkAnswer : Type 0 where
  linked taken not_linked : LinkAnswer

-- What `write` says of its bytes, or that it throws.
pub data WriteAnswer : Type 0 where
  bytes_written : ℕ → WriteAnswer
  not_written : WriteAnswer

-- `stat`, with the time of the last change in milliseconds, and how it fails.
pub data StatAnswer : Type 0 where
  -- isFile, size, mtimeMs
  found : Bool → ℕ → ℕ → StatAnswer
  no_entry no_access stat_failed : StatAnswer

-- How a file opens for reading.
pub data SourceAnswer : Type 0 where
  source_opened source_missing source_denied source_failed : SourceAnswer

pub record FileSystem (Disk : Type 0) : Type 0 where
  pub make_directory : Disk → String → Bool × Disk
  -- Flags "w+" and "r+".
  pub open_truncated : Disk → String → OpenAnswer × Disk
  pub open_existing : Disk → String → OpenAnswer
  pub write_at : Disk → String → ℕ → List ℕ → WriteAnswer × Disk
  pub sync : Disk → String → Bool
  pub read : Disk → String → Option (List ℕ)
  pub link : Disk → String → String → LinkAnswer × Disk
  -- Failures of `unlink` are caught by the code.
  pub unlink : Disk → String → Disk
  pub same_inode : Disk → String → String → Bool
  pub stat : Disk → String → StatAnswer
  pub open_source : Disk → String → SourceAnswer
  -- The path, the offset, the count.
  pub read_at : Disk → String → ℕ → ℕ → List ℕ

-- Bytes written at an offset within the file.
abbrev pub splice : List ℕ → ℕ → List ℕ → List ℕ
splice old offset bytes = take offset old ++ (bytes ++ drop (offset + length bytes) old)

-- `content` is what a path names. A failed call may still have written some of the bytes.
pub record IsLawful {Disk : Type 0} (fs : FileSystem Disk) : Type 0 where
  pub content : Disk → String → Option (List ℕ)
  pub make_directory-content :
      (d : Disk) (dir q : String) → content (fs.make_directory d dir).1 q ≡ content d q
  pub open_truncated-content :
      (d : Disk) (p : String)
      → (fs.open_truncated d p).0 ≡ OpenAnswer.opened
      → content (fs.open_truncated d p).1 p ≡ some List.[]
  pub open_truncated-failed :
      (d : Disk) (p q : String)
      → (fs.open_truncated d p).0 ≢ OpenAnswer.opened
      → content (fs.open_truncated d p).1 q ≡ content d q
  pub open_existing-content :
      (d : Disk) (p : String) → fs.open_existing d p ≡ OpenAnswer.opened → content d p ≢ none
  pub write_at-content :
      (d : Disk) (p : String) (offset : ℕ) (bytes old : List ℕ)
      → content d p ≡ some old
      → offset ≤ length old
      → (n : ℕ) × (n ≤ length bytes)
        × (content (fs.write_at d p offset bytes).1 p ≡ some (splice old offset (take n bytes)))
        × ((m : ℕ) → (fs.write_at d p offset bytes).0 ≡ WriteAnswer.bytes_written m → m ≡ n)
  pub read-content :
      (d : Disk) (p : String) (bytes : List ℕ) → fs.read d p ≡ some bytes → content d p ≡ some bytes
  pub read_at-content :
      (d : Disk) (p : String) (offset count : ℕ) (bytes : List ℕ)
      → content d p ≡ some bytes
      → fs.read_at d p offset count ≡ take count (drop offset bytes)
  pub link-free :
      (d : Disk) (p q : String) → (fs.link d p q).0 ≡ LinkAnswer.linked → content d q ≡ none
  pub link-content :
      (d : Disk) (p q : String)
      → (fs.link d p q).0 ≡ LinkAnswer.linked
      → content (fs.link d p q).1 q ≡ content d p
  pub link-others : (d : Disk) (p q r : String) → r ≢ q → content (fs.link d p q).1 r ≡ content d r
  pub link-failed :
      (d : Disk) (p q r : String)
      → (fs.link d p q).0 ≢ LinkAnswer.linked
      → content (fs.link d p q).1 r ≡ content d r
  pub link-taken :
      (d : Disk) (p q : String) → (fs.link d p q).0 ≡ LinkAnswer.taken → content d q ≢ none
  pub unlink-others : (d : Disk) (p q : String) → q ≢ p → content (fs.unlink d p) q ≡ content d q

-- A file system on which every call of an upload succeeds.
pub record Works {Disk : Type 0} (fs : FileSystem Disk) (w : IsLawful fs) : Type 0 where
  pub makes : (d : Disk) (dir : String) → (fs.make_directory d dir).0 ≡ true
  pub opens_new : (d : Disk) (p : String) → (fs.open_truncated d p).0 ≡ opened
  pub opens : (d : Disk) (p : String) → w.content d p ≢ none → fs.open_existing d p ≡ opened
  pub writes :
      (d : Disk) (p : String) (offset : ℕ) (bytes : List ℕ)
      → w.content d p ≢ none
      → (fs.write_at d p offset bytes).0 ≡ bytes_written (length bytes)
  pub syncs : (d : Disk) (p : String) → fs.sync d p ≡ true
