-- ===== src/Relay/Tests.antt =====
-- Concrete runs of the parts of src/relay.
use vidyut.Prelude.{
  ℕ, ◌≡◌, refl, String, true, false, ◌&&◌, List, [], ◌∷◌, Option, none, some, arith,
}
use vidyut.Wire.Number.{natural}
use vidyut.Wire.Patterns.{codes}
use vidyut.Wire.Frames.{PayloadFrame, PayloadType}
use vidyut.Relay.Pool.{empty_pool}
use vidyut.Relay.Pool.Latest.{Publication, IsLatest, Holds, publish_all, publish_all-IsLatest}
use vidyut.Relay.Pause.{is_paused_at, new_pause}
use vidyut.Relay.Pause.Timeline.{
  Event, pauses, reads, fires, run, switch_after, off, is_on, run-is_paused_at,
}
use vidyut.Relay.Origin.{
  Url, Request, reject_untrusted_control_request, is_trusted_web_socket_origin, is_loopback_origin,
  is_loopback_host, split_host, to_lower_case, changes_state, is_cross_site,
}
use vidyut.Relay.Origin.Hosts.{LoopbackHost, accepted-LoopbackHost}
use vidyut.Relay.Clipboard.{Sync, Content, written, on_change, on_payload, on_written, published}
use vidyut.Relay.Clipboard.Echoes.{incoming-silent}

abbrev frame : String → String → PayloadFrame
frame origin nonce = record {
  type = PayloadType.text;
  mime = "text/plain";
  origin = origin;
  ts = natural 5;
  nonce = nonce;
  payload = "aGk=";
  alt = none;
}

abbrev publication : String → ℕ → Publication
publication nonce order_ts = record {
  frame = frame "phone" nonce;
  source = some "phone";
  order_ts = order_ts;
}

abbrev rest : List Publication
rest = publication "b" 9 ∷ publication "c" 7 ∷ []

publish_all-IsLatest_example :
    (w : Publication) × IsLatest w (publication "a" 5 ∷ rest)
    × Holds (publish_all (publication "a" 5 ∷ rest) empty_pool) w
publish_all-IsLatest_example = publish_all-IsLatest (publication "a" 5) rest empty_pool refl refl

abbrev events : List (ℕ × Event)
events = (3, pauses (some 10)) ∷ (5, reads) ∷ (20, fires) ∷ (30, pauses none) ∷ []

run-is_paused_at_example :
    is_paused_at 40 (run events new_pause) ≡ is_on 40 (switch_after events off)
run-is_paused_at_example =
    run-is_paused_at 40 events
      (omega arith, (omega arith, (omega arith, (omega arith, omega arith))))

abbrev digest : String → String
digest s = s

abbrev encrypt : Content → ℕ → Option PayloadFrame
encrypt c now = some (frame "laptop" "fresh")

abbrev decrypt : PayloadFrame → Option String
decrypt f = some "hi"

abbrev sync : Sync
sync = record { last_incoming = none; next_id = 0; pool = empty_pool; opened = [] }

abbrev copied : Content
copied = record { type = PayloadType.text; mime = "text/plain"; bytes = "hi" }

abbrev text : List ℕ → String
text cs = ""

abbrev settled : Sync
settled =
    on_written "laptop" digest encrypt decrypt text 0 (frame "phone" "n") "hi" (written none)
      (on_payload "laptop" digest encrypt decrypt false 100 (frame "phone" "n") (some "phone")
        sync).0

incoming-silent_example :
    (on_change "laptop" digest encrypt decrypt false 200 (some copied) settled
      ≡ record settled { last_incoming = none })
    × ((later : ℕ) (c' : Content)
        → on_change "laptop" digest encrypt decrypt false later
            (some c')
            (record settled { last_incoming = none })
          ≡ published "laptop" digest encrypt decrypt c' later
              (record settled { last_incoming = none }))
incoming-silent_example =
    incoming-silent "laptop" digest encrypt decrypt text 100 200 (frame "phone" "n") (some "phone")
      sync settled "hi" none copied refl refl (omega arith) refl refl

abbrev parse_url : List ℕ → Option Url
parse_url text = none

abbrev control_request : Request
control_request = record {
  method = "POST";
  host = some (codes "127.0.0.1:8080");
  origin = none;
  sec_fetch_site = some "same-origin";
}

request_passes : reject_untrusted_control_request parse_url control_request 8080 ≡ none
unfolding reject_untrusted_control_request is_trusted_web_socket_origin is_loopback_origin
    is_loopback_host split_host
request_passes = refl

accepted-LoopbackHost_example :
    (host : List ℕ) × (control_request.host ≡ some host)
    × LoopbackHost 8080 (to_lower_case host)
    × (is_trusted_web_socket_origin parse_url control_request.origin 8080 ≡ true)
    × ((changes_state control_request.method && is_cross_site control_request.sec_fetch_site)
        ≡ false)
accepted-LoopbackHost_example = accepted-LoopbackHost parse_url control_request 8080 request_passes
