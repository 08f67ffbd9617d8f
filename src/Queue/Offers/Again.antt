-- ===== src/Queue/Offers/Again.antt =====
-- An offer that `acceptOffer` of src/transfer/transfer-queue.ts is given twice.
use vidyut.Prelude.{◌≡◌, String, Bool, true, false, List, Option, any}
use vidyut.Wire.Types.{TransferOffer}
use vidyut.Wire.Guards.{is_transfer_offer}
use vidyut.Wire.Encode.{offer_json}
use vidyut.Queue.Store.{Queue}
use vidyut.Queue.Offers.{destination_for, is_missing}

module _ (comes_first : String → String → Bool) where
  module _ (o : TransferOffer) (paths : List (String × String)) (device : Option String) where
    abbrev missing : Bool
    missing = any (λ f. is_missing (destination_for paths f)) o.files

    -- What both calls check first.
    record Checked : Type 0 where
      valid : is_transfer_offer (offer_json o) ≡ true
      placed : missing ≡ false
