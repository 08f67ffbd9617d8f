-- ===== src/Coordinator.antt =====
-- src/transfer/transfer-coordinator.ts: control messages of the phone, as calls on the queue and on
-- the sessions of the data plane, with the messages that it publishes. The sessions are there, as in
-- src/relay/relay.ts.
pub mod Offers
pub mod Control
pub mod Devices
mod Tests
use vidyut.Prelude.{
  ℕ, ◌+◌, ◌-◌, String, Bool, true, false, not, ◌&&◌, ◌||◌, List, [], ◌∷◌, Option, none, some, ok,
  err, leb, ltb, ◌==◌, if◌then◌else◌, find?,
}
use vidyut.Wire.Types.{
  TransferOffer, TransferFileOffer, TransferDirection, transfer_offer, transfer_accept,
  transfer_file_complete, transfer_file_failed,
}
use vidyut.Queue.Types.{TransferFileRecord, TransferBatchRecord, is_active, is_completed, is_failed}
use vidyut.Queue.Store.{Queue, has_transfer_id}
use vidyut.Queue.Claim.{TransferClaim, expire, claim}
use vidyut.Queue.Offers.{offer_of}
use vidyut.Plane.Sessions.{live_accepted_offset}
use vidyut.Plane.State.{
  Flow, next, Plane, Act, ◌>>=◌, ◌>>◌, gets, publish, raise_unless, or_raise, of_disk,
}
use vidyut.Plane.Upload.{Config, same_direction}

pub record CoordinatorOptions (Disk : Type 0) : Type 0 where
  pub plane : Config Disk
  pub destination_directory : String
  pub max_file_bytes : ℕ
  pub max_chunk_bytes : Option ℕ
  -- The space that is left at the destination, if it can be read.
  pub available_bytes : Disk → Option ℕ
  pub comes_first : String → String → Bool

abbrev pub find_batch_of : Queue → String → Option TransferBatchRecord
find_batch_of q transfer_id = find? (has_transfer_id transfer_id) q.batches

-- `errorCode ?? "transfer_failed"`
abbrev pub or_failed : Option String → String
or_failed none = "transfer_failed"
or_failed (some code) = code

abbrev pub to_phone : TransferBatchRecord → Bool
to_phone b = same_direction b.direction TransferDirection.laptop_to_phone

module _ {Disk : Type 0} (c : CoordinatorOptions Disk) where
  unfoldable pub publish_phone_accept : String → String → ℕ → Act Disk (Unit {0})
  unfolding publish
  publish_phone_accept transfer_id file_id confirmed =
      publish (transfer_accept transfer_id file_id confirmed c.max_chunk_bytes)

  unfoldable pub publish_phone_complete : String → TransferFileRecord → Act Disk (Unit {0})
  unfolding publish
  publish_phone_complete transfer_id f =
      publish (transfer_file_complete transfer_id f.file_id f.sha256)

  unfoldable pub publish_phone_failure : String → TransferFileRecord → Act Disk (Unit {0})
  unfolding publish
  publish_phone_failure transfer_id f =
      publish (transfer_file_failed transfer_id f.file_id (or_failed f.error_code))

  -- `queue.claimNext()`: what is due expires, then a file is claimed.
  unfoldable pub claim_next_file : Act Disk (Option TransferClaim)
  unfolding expire claim
  claim_next_file p =
      let q = expire (c.plane.clock p.tick) p.queue in
      let (q', claimed) = claim (c.plane.clock (p.tick + 1)) q in
      (next claimed, record p { queue = q'; tick = p.tick + 2 })

  -- The batch that was claimed is in the queue, so that `queue.offer` finds it.
  abbrev pub publish_claim : Option TransferClaim → Act Disk (Unit {0})
  publish_claim none = gets λ p. tt
  publish_claim (some k) =
      if to_phone k.batch
      then publish (transfer_offer (offer_of k.batch))
      else publish_phone_accept k.batch.transfer_id k.file.file_id k.file.confirmed_offset

  unfoldable pub activate_next : Act Disk (Option TransferClaim)
  unfolding claim_next_file publish publish_phone_accept
  activate_next = do claimed ← claim_next_file; publish_claim claimed; gets λ p. claimed

  -- `mkdir(destinationDirectory, { recursive: true })`
  unfoldable pub make_destination : Act Disk (Unit {0})
  make_destination = do
    made ← (λ p.
        let (made, d) = c.plane.fs.make_directory p.disk c.destination_directory in
        (next made, record p { disk = d }))
    raise_unless made of_disk

  unfoldable pub start : Act Disk (Option TransferClaim)
  unfolding activate_next make_destination
  start = do make_destination; activate_next
