-- ===== src/Plane/Disk/Memory.antt =====
-- A file system in memory that keeps to what the data plane of src/transfer/laptop-data-plane.ts
-- relies on: a path names its bytes, and a link is a copy.
use vidyut.Prelude.{
  ℕ, ◌≡◌, ◌≢◌, refl, sym, ap, ◌∙◌, String, true, false, List, [], ◌∷◌, Option, none, some, arith,
  str_eq, str_eq_iff, str_eq_refl, length, take, drop, if◌then◌else◌, inl, inr, Bool-cases,
}
use vidyut.Plane.Disk.{
  Works, FileSystem, IsLawful, OpenAnswer, opened, missing, LinkAnswer, linked, taken, not_linked,
  bytes_written, StatAnswer, found, no_entry, SourceAnswer, source_opened, source_missing, splice,
}

abbrev pub Files : Type 0
Files = String → Option (List ℕ)

abbrev pub set : Files → String → Option (List ℕ) → Files
set files path bytes q = if str_eq path q then bytes else files q

abbrev or_empty : Option (List ℕ) → List ℕ
or_empty none = []
or_empty (some bytes) = bytes

abbrev existing : Option (List ℕ) → OpenAnswer
existing none = missing
existing (some bytes) = opened

abbrev linking : Files → String → Option (List ℕ) → Option (List ℕ) → LinkAnswer × Files
linking files to none old = (not_linked, files)
linking files to (some bytes) (some old) = (taken, files)
linking files to (some bytes) none = (linked, set files to (some bytes))

abbrev stat_of : Option (List ℕ) → StatAnswer
stat_of none = no_entry
stat_of (some bytes) = found true (length bytes) 0

abbrev source_of : Option (List ℕ) → SourceAnswer
source_of none = source_missing
source_of (some bytes) = source_opened

-- Every file was last changed at the time zero.
abbrev pub memory : FileSystem Files
memory = record {
  make_directory = λ files dir. (true, files);
  open_truncated = λ files path. (opened, set files path (some []));
  open_existing = λ files path. existing (files path);
  write_at = λ files path offset bytes. (
    bytes_written (length bytes),
    set files path (some (splice (or_empty (files path)) offset bytes)),
  );
  sync = λ files path. true;
  read = λ files path. files path;
  link = λ files path to. linking files to (files path) (files to);
  unlink = λ files path. set files path none;
  same_inode = λ files path other. false;
  stat = λ files path. stat_of (files path);
  open_source = λ files path. source_of (files path);
  read_at = λ files path offset count. take count (drop offset (or_empty (files path)));
}

set-same :
    (files : Files) (path : String) (bytes : Option (List ℕ)) → set files path bytes path ≡ bytes
set-same files path bytes = rw (str_eq_refl path)

set-others :
    (files : Files) (path q : String) (bytes : Option (List ℕ))
    → q ≢ path
    → set files path bytes q ≡ files q
set-others files path q bytes ne = elim (Bool-cases (str_eq path q)) [
  | inl e ↦ absurd (ne (sym ((str_eq_iff path q).0 e)))
  | inr e ↦ rw e
]

existing-opened : (o : Option (List ℕ)) → existing o ≡ opened → o ≢ none
existing-opened none h = absurd (cc h)
existing-opened (some bytes) h = λ e. cc e

take-whole : (xs : List ℕ) → take (length xs) xs ≡ xs
take-whole [] = refl
take-whole (x ∷ xs) = ap (λ l. x ∷ l) (take-whole xs)

-- What a link does, by what the two paths name.
abbrev IsLink : Files → String → Option (List ℕ) → Option (List ℕ) → Type 0
IsLink files to from old =
    ((linking files to from old).0 ≡ linked
      → (old ≡ none) × ((linking files to from old).1 to ≡ from))
    × ((r : String) → r ≢ to → (linking files to from old).1 r ≡ files r)
    × ((linking files to from old).0 ≢ linked
        → (r : String) → (linking files to from old).1 r ≡ files r)
    × ((linking files to from old).0 ≡ taken → old ≢ none)

linking-IsLink :
    (files : Files) (to : String) (from old : Option (List ℕ)) → IsLink files to from old
linking-IsLink files to none old =
    (λ h. absurd (cc h), λ r ne. refl, λ h r. refl, λ h. absurd (cc h))
linking-IsLink files to (some bytes) (some old) =
    (λ h. absurd (cc h), λ r ne. refl, λ h r. refl, λ h e. cc e)
linking-IsLink files to (some bytes) none = (
  λ h. (refl, set-same files to (some bytes)),
  λ r ne. set-others files to r (some bytes) ne,
  λ h r. absurd (h refl),
  λ h. absurd (cc h),
)

pub memory-IsLawful : IsLawful memory
memory-IsLawful = record {
  content = λ files path. files path;
  make_directory-content = λ files dir q. refl;
  open_truncated-content = λ files path h. set-same files path (some []);
  open_truncated-failed = λ files path q h. absurd (h refl);
  open_existing-content = λ files path h. existing-opened (files path) h;
  write_at-content = λ files path offset bytes old there low.
      let full : splice (or_empty (files path)) offset bytes
          ≡ splice old offset (take (length bytes) bytes) =
        rw (there, take-whole bytes) in
      (length bytes, omega arith, set-same files path _ ∙ ap some full, λ m e. cc e);
  read-content = λ files path bytes h. h;
  read_at-content =
      λ files path offset count bytes h. ap (λ o. take count (drop offset (or_empty o))) h;
  link-free = λ files path to h. ((linking-IsLink files to (files path) (files to)).0 h).0;
  link-content = λ files path to h. ((linking-IsLink files to (files path) (files to)).0 h).1;
  link-others = λ files path to r ne. (linking-IsLink files to (files path) (files to)).1 r ne;
  link-failed = λ files path to r h. (linking-IsLink files to (files path) (files to)).2 h r;
  link-taken = λ files path to h. (linking-IsLink files to (files path) (files to)).3 h;
  unlink-others = λ files path q ne. set-others files path q none ne;
}

opens_existing : (old : Option (List ℕ)) → old ≢ none → existing old ≡ opened
opens_existing none h = absurd (h refl)
opens_existing (some bytes) h = refl

pub memory-Works : Works memory memory-IsLawful
unfolding memory-IsLawful
memory-Works = record {
  makes = λ d dir. refl;
  opens_new = λ d path. refl;
  opens = λ d path there. opens_existing (d path) there;
  writes = λ d path offset bytes there. refl;
  syncs = λ d path. refl;
}
