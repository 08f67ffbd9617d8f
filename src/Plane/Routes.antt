-- ===== src/Plane/Routes.antt =====
-- `handle` of src/transfer/http-data-plane.ts and the dispatch of `handleAuthenticated` of
-- src/transfer/laptop-data-plane.ts.
use Prim.Native.Char.{code}
use Prim.Native.String.{◌++◌}
use vidyut.Prelude.{
  ℕ, String, Bool, ◌&&◌, ◌||◌, List, Option, none, some, Result, if◌then◌else◌, ◌==◌, str_eq,
}
use vidyut.Wire.Patterns.{is_id}
use vidyut.Auth.{Crypto, SignedRequest, verify_transfer_http_auth, strip_prefix}
use vidyut.Plane.Decimal.{parse_offset}
use vidyut.Plane.State.{Response, refused, unrouted, Act, ◌>>=◌, ◌>>◌, or_reply, refuse_unless}
use vidyut.Plane.Upload.{Config, UploadRequest}
use vidyut.Plane.Upload.Finish.{handle_upload}
use vidyut.Plane.Download.{EnqueueRequest, handle_download, handle_local_enqueue}

-- A request as the handlers read it: `pathname`, the parameter `offset`, the rest by what reads it.
pub record PlaneRequest : Type 0 where
  pub method : String
  pub pathname : String
  pub offset : Option String
  pub upload : UploadRequest
  pub enqueue : EnqueueRequest

abbrev pub at_slash : String → String → Option (String × String)
at_slash front String.[] = none
at_slash front (String.◌∷◌ x rest) =
    if code x == b'/' then some (front, rest) else at_slash (front ++ (String.◌∷◌ x String.[])) rest

abbrev pub both_ids : Option (String × String) → Option (String × String)
both_ids none = none
both_ids (some (transfer_id, file_id)) =
    if is_id transfer_id && is_id file_id then some (transfer_id, file_id) else none

-- `/^\/transfer\/v1\/([A-Za-z0-9_-]{16,128})\/([A-Za-z0-9_-]{16,128})$/`
unfoldable pub transfer_path : String → Option (String × String)
unfolding is_id
transfer_path pathname = elim (strip_prefix "/transfer/v1/" pathname) [
  | none ↦ none
  | some rest ↦ both_ids (at_slash String.[] rest)
]

module _ {Disk : Type 0} (c : Config Disk) (enqueue : Option (List String → Result String String))
    (nonce : List ℕ) where
  abbrev pub is_enqueue : PlaneRequest → Bool
  is_enqueue req = str_eq req.method "POST" && str_eq req.pathname "/transfer/v1/local/enqueue"

  abbrev pub enqueue_locally : Bool → PlaneRequest → Act Disk Response
  enqueue_locally is_loopback req = do
    refuse_unless is_loopback (refused 403 "local_only")
    handle_local_enqueue c enqueue req.enqueue

  abbrev pub move_chunk : PlaneRequest → Act Disk Response
  move_chunk req = do
    refuse_unless (str_eq req.method "GET" || str_eq req.method "PUT")
        (refused 405 "method_not_allowed")
    (transfer_id, file_id) ← or_reply (transfer_path req.pathname) unrouted
    offset ← or_reply (parse_offset req.offset) (refused 400 "invalid_offset")
    if str_eq req.method "PUT"
        then handle_upload c transfer_id file_id offset req.upload
        else handle_download c transfer_id file_id nonce offset

  unfoldable pub handle_authenticated : Bool → PlaneRequest → Act Disk Response
  unfolding handle_local_enqueue transfer_path parse_offset handle_upload handle_download
  handle_authenticated is_loopback req =
      if is_enqueue req then enqueue_locally is_loopback req else move_chunk req

  -- `handle`, at the time `now`
  unfoldable pub handle :
      (crypto : Crypto) → ℕ → SignedRequest crypto → Bool → PlaneRequest → Act Disk Response
  unfolding verify_transfer_http_auth handle_authenticated
  handle crypto now signed is_loopback req = do
    refuse_unless (verify_transfer_http_auth crypto c.secret now signed)
        (refused 401 "transfer_auth_failed")
    handle_authenticated is_loopback req
