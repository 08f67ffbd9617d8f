-- ===== src/Plane/Upload/Receiving.antt =====
-- The state between the uploads of one file that src/transfer/laptop-data-plane.ts receives: its
-- record, its session and the bytes on disk.
use vidyut.Prelude.{
  ℕ, ◌≤◌, ◌≡◌, ◌⊎◌, refl, sym, ap, ◌∙◌, inl, inr, String, false, List, [], ◌∷◌, ◌++◌, Option, none,
  some, arith, length, ltb, str_eq, str_eq_iff, str_eq_refl, Bool-cases, find?-holds,
}
use vidyut.Paths.{partial_path_for}
use vidyut.Wire.Types.{TransferDirection, TransferFileOffer}
use vidyut.Queue.Types.{TransferFileRecord, is_active}
use vidyut.Queue.Timing.{lookup, assign}
use vidyut.Queue.Store.{has_file_id}
use vidyut.Plane.Disk.{IsLawful}
use vidyut.Plane.Sessions.{
  ReceiverProgressPolicy, Session, progress_key, session_for, new_session, raised, or_else,
}
use vidyut.Plane.State.{Plane}
use vidyut.Plane.Upload.{Config, active_destination}
use vidyut.Plane.Upload.Records.{IsSameFile, found_in, found_in-Located}
use vidyut.Plane.Upload.Bytes.{Stored, Stored-less}

pub lookup-assign {ℓ} :
    {V : Type ℓ} (k : String) (v : V) (m : List (String × V)) → lookup k (assign k v m) ≡ some v
lookup-assign k v [] = rw (str_eq_refl k)
lookup-assign k v ((j, x) ∷ m) = elim (Bool-cases (str_eq j k)) [
  | inl e ↦ rw (e, e)
  | inr e ↦ rw (e, e) (lookup-assign k v m)
]

-- The session has accepted `n` bytes, and what it takes for durable is what the record confirms.
pub record IsOpen (r : TransferFileRecord) (n : ℕ) (s : Session) : Type 0 where
  pub accepts : s.accepted_offset ≡ n
  pub durable : s.durable_offset ≡ r.confirmed_offset
  pub ahead : r.confirmed_offset ≤ n

-- With no session the bytes accepted are those confirmed.
abbrev pub Synced : TransferFileRecord → ℕ → Option Session → Type 0
Synced r n none = r.confirmed_offset ≡ n
Synced r n (some s) = IsOpen r n s

raised-IsOpen : (r : TransferFileRecord) (n : ℕ) (s : Session) → IsOpen r n s → raised r s ≡ s
unfolding raised
raised-IsOpen r n s o =
    let low : ltb s.accepted_offset r.confirmed_offset ≡ false = ground arith in rw low

found_or_new :
    (policy : ReceiverProgressPolicy) (now : ℕ) (r : TransferFileRecord) (n : ℕ)
    (o : Option Session)
    → Synced r n o
    → IsOpen r n (raised r (or_else o (new_session policy now r)))
unfolding new_session
found_or_new policy now r n none h =
    let fresh : IsOpen r n (new_session policy now r) = record {
      accepts = h;
      durable = refl;
      ahead = omega (arith, h);
    } in
    rw (raised-IsOpen r n (new_session policy now r) fresh) fresh
found_or_new policy now r n (some s) h = rw (raised-IsOpen r n s h) h

pub session_for-IsOpen :
    (policy : ReceiverProgressPolicy) (now n : ℕ) (transfer_id : String) (r : TransferFileRecord)
    (sessions : List (String × Session))
    → Synced r n (lookup (progress_key transfer_id r.file_id) sessions)
    → IsOpen r n (session_for policy now transfer_id r sessions)
unfolding session_for
session_for-IsOpen policy now n transfer_id r sessions h = found_or_new policy now r n _ h

-- A session that is there is the one that is used.
pub session_for-kept :
    (policy : ReceiverProgressPolicy) (now n : ℕ) (transfer_id : String) (r : TransferFileRecord)
    (sessions : List (String × Session)) (s : Session)
    → lookup (progress_key transfer_id r.file_id) sessions ≡ some s
    → IsOpen r n s
    → session_for policy now transfer_id r sessions ≡ s
unfolding session_for
session_for-kept policy now n transfer_id r sessions s h o =
    ap (λ x. raised r (or_else x (new_session policy now r))) h ∙ raised-IsOpen r n s o

module _ {Disk : Type 0} (c : Config Disk) (w : IsLawful c.fs)
    (transfer_id file_id requested : String) (offer : TransferFileOffer) where
  abbrev pub found : Plane Disk → Option TransferFileRecord
  found p = found_in transfer_id file_id TransferDirection.phone_to_laptop p.queue

  abbrev pub partial : String
  partial = partial_path_for c.paths requested file_id

  abbrev pub OnDisk : List ℕ → Disk → Type 0
  OnDisk xs d = Stored c.fs w partial offer.size xs d

  -- The file is active, its session has accepted the bytes `xs`, and they are on disk, if there are
  -- any.
  pub record Receiving (xs : List ℕ) (p : Plane Disk) : Type 0 where
    pub file : TransferFileRecord
    pub is_found : found p ≡ some file
    pub target : active_destination file ≡ some requested
    pub same_offer : file.offered ≡ offer
    pub synced : Synced file (length xs) (lookup (progress_key transfer_id file_id) p.sessions)
    pub on_disk : (length xs ≡ 0) ⊎ OnDisk xs p.disk

  -- The file is not active: it is verified, finished, failed or given up.
  pub record Idle (p : Plane Disk) : Type 0 where
    pub file : TransferFileRecord
    pub is_found : found p ≡ some file
    pub inactive : is_active file.status ≡ false

  -- Behind an answer that takes no chunk, or an exception.
  abbrev pub Otherwise : List ℕ → Plane Disk → Type 0
  Otherwise xs p = Receiving xs p ⊎ Idle p

  -- The file that `r` was, with the session `s` open at `xs` bytes, and `zs` on disk.
  pub record Held (r : TransferFileRecord) (s : Session) (zs : List ℕ) (p : Plane Disk)
      : Type 0 where
    pub file : TransferFileRecord
    pub is_found : found p ≡ some file
    pub same : IsSameFile r.status r.confirmed_offset r file
    pub kept : lookup (progress_key transfer_id file_id) p.sessions ≡ some s
    pub stored : OnDisk zs p.disk

  pub found-file_id :
      (p : Plane Disk) (r : TransferFileRecord) → found p ≡ some r → r.file_id ≡ file_id
  found-file_id p r h =
      let l = found_in-Located transfer_id file_id _ p.queue r h in
      (str_eq_iff r.file_id file_id).0
        (find?-holds (has_file_id file_id) l.holder.files r l.file_found)

  same_target :
      (r y : TransferFileRecord)
      → y.status ≡ r.status
      → y.destination_path ≡ r.destination_path
      → active_destination y ≡ active_destination r
  unfolding active_destination
  same_target r y h k = rw (h, k)

  pub Held-Receiving :
      (r : TransferFileRecord) (s : Session) (xs zs : List ℕ) (p : Plane Disk)
      → active_destination r ≡ some requested
      → r.offered ≡ offer
      → IsOpen r (length xs) s
      → Held r s (xs ++ zs) p
      → Receiving xs p
  Held-Receiving r s xs zs p target same o h =
      let opened : IsOpen h.file (length xs) s = record {
        accepts = o.accepts;
        durable = o.durable ∙ sym h.same.confirms;
        ahead = omega (arith, o.ahead, h.same.confirms);
      } in
      record {
        file = h.file;
        is_found = h.is_found;
        target = same_target r h.file h.same.stands h.same.goes_to ∙ target;
        same_offer = h.same.offers ∙ same;
        synced = rw h.kept opened;
        on_disk = inr (Stored-less c.fs w partial offer.size xs zs p.disk h.stored);
      }
