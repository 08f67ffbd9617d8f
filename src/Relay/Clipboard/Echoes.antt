-- ===== src/Relay/Clipboard/Echoes.antt =====
-- The echo test of src/relay/clipboard-sync.ts, behind a write that came in.
use vidyut.Prelude.{
  ℕ, ◌+◌, ◌≤◌, ◌≡◌, refl, sym, ap, ◌∙◌, ◌⊎◌, String, true, false, List, [], ◌∷◌, Option, none, some,
  arith, str_eq_refl, nat_eq_refl, inl, inr, if◌then◌else◌,
}
use vidyut.Wire.Frames.{PayloadFrame}
use vidyut.Relay.Clipboard.{
  Echo, Sync, Content, on_change, on_payload, on_written, is_own, published, echo_window_ms,
  is_echo, echoes, written, on_same, with_digest, open_link,
}

module _ (origin : String) (digest : String → String) (encrypt : Content → ℕ → Option PayloadFrame)
    (decrypt : PayloadFrame → Option String) where
  change_echoes :
      (c : Content) (now : ℕ) (e : Echo) (s : Sync)
      → s.last_incoming ≡ some e
      → is_echo origin digest encrypt decrypt c now e ≡ true
      → on_change origin digest encrypt decrypt false now (some c) s
        ≡ record s { last_incoming = none }
  unfolding on_change
  change_echoes c now e s h k =
      let echo : echoes origin digest encrypt decrypt c now s.last_incoming ≡ true =
        ap (echoes origin digest encrypt decrypt c now) h ∙ k in
      ap
        (λ b.
          if b
          then record s { last_incoming = none }
          else published origin digest encrypt decrypt c now s)
        echo

  abbrev echo_of : ℕ → ℕ → String → Echo
  echo_of id t bytes = record { id = id; digests = digest bytes ∷ []; at = t }

  payload_writes :
      (t : ℕ) (frame : PayloadFrame) (source : Option String) (s : Sync) (bytes : String)
      → is_own origin digest encrypt decrypt frame source ≡ false
      → decrypt frame ≡ some bytes
      → (on_payload origin digest encrypt decrypt false t frame source s).0
        ≡ record s { last_incoming = some (echo_of s.next_id t bytes); next_id = s.next_id + 1 }
  unfolding on_payload
  payload_writes t frame source s bytes other reads = rw (other, reads) refl

  -- The digest of what a write put on the clipboard: what came in, or what it was converted to.
  abbrev pub IsWrittenDigest : Content → String → Option String → Type 0
  IsWrittenDigest c bytes none = digest c.bytes ≡ digest bytes
  IsWrittenDigest c bytes (some w) = (digest c.bytes ≡ digest bytes) ⊎ (digest c.bytes ≡ digest w)

  written_echo :
      (c : Content) (t now id : ℕ) (bytes : String) (w : Option String)
      → now ≤ t + echo_window_ms
      → IsWrittenDigest c bytes w
      → (e : Echo) × (on_same origin digest encrypt decrypt id
            (with_digest origin digest encrypt decrypt w)
            (some (echo_of id t bytes))
          ≡ some e)
        × (is_echo origin digest encrypt decrypt c now e ≡ true)
  written_echo c t now id bytes none h d = (
    echo_of id t bytes,
    rw (nat_eq_refl id),
    rw d (rw (str_eq_refl (digest bytes)) (ground arith)),
  )
  written_echo c t now id bytes (some w) h (inl d) = (
    record (echo_of id t bytes) { digests = digest w ∷ digest bytes ∷ [] },
    rw (nat_eq_refl id),
    rw d (rw (str_eq_refl (digest bytes)) (ground arith)),
  )
  written_echo c t now id bytes (some w) h (inr d) = (
    record (echo_of id t bytes) { digests = digest w ∷ digest bytes ∷ [] },
    rw (nat_eq_refl id),
    rw d (rw (str_eq_refl (digest w)) (ground arith)),
  )

  opened_last :
      (text : List ℕ → String) (frame : PayloadFrame) (bytes : String) (s : Sync)
      → (open_link origin digest encrypt decrypt text frame bytes s).last_incoming ≡ s.last_incoming
  opened_last text frame bytes s = ground arith

  settled_last :
      (text : List ℕ → String) (id : ℕ) (frame : PayloadFrame) (bytes : String) (w : Option String)
      (s : Sync)
      → (on_written origin digest encrypt decrypt text id frame bytes (written w) s).last_incoming
        ≡ on_same origin digest encrypt decrypt id
            (with_digest origin digest encrypt decrypt w)
            s.last_incoming
  unfolding on_written
  settled_last text id frame bytes w s = opened_last text frame bytes _

  -- A payload of another device is written to the clipboard. The change that the watcher reports
  -- within five seconds, with the content that came in or the content that the write converted it
  -- to, is not published and leaves the pool as it is; the next change is published, whatever it is.
  pub incoming-silent :
      (text : List ℕ → String) (t now : ℕ) (frame : PayloadFrame) (source : Option String)
      (s r : Sync) (bytes : String) (w : Option String) (c : Content)
      → is_own origin digest encrypt decrypt frame source ≡ false
      → decrypt frame ≡ some bytes
      → now ≤ t + echo_window_ms
      → IsWrittenDigest c bytes w
      → on_written origin digest encrypt decrypt text s.next_id frame bytes
          (written w)
          (on_payload origin digest encrypt decrypt false t frame source s).0
        ≡ r
      → (on_change origin digest encrypt decrypt false now (some c) r
          ≡ record r { last_incoming = none })
        × ((later : ℕ) (c' : Content)
            → on_change origin digest encrypt decrypt false later
                (some c')
                (record r { last_incoming = none })
              ≡ published origin digest encrypt decrypt c' later
                  (record r { last_incoming = none }))
  incoming-silent text t now frame source s r bytes w c other reads h d settled =
      let (e, same, echo) = written_echo c t now s.next_id bytes w h d in
      let last : r.last_incoming ≡ some e =
        ap (λ q. q.last_incoming) (sym settled)
        ∙ (ap
              (λ q.
                (on_written origin digest encrypt decrypt text s.next_id frame bytes (written w)
                  q).last_incoming)
              (payload_writes t frame source s bytes other reads)
            ∙ (settled_last text s.next_id frame bytes w _ ∙ same)) in
      (change_echoes c now e r last echo, λ later c'. unfold on_change in refl)
