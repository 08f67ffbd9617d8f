-- ===== src/Chunks.antt =====
-- src/transfer/transfer-chunk-policy.ts
mod Tests
use vidyut.Prelude.{
  ℕ, min, ◌≤◌, ◌<◌, ◌≡◌, Bool, true, false, Option, none, some, arith, ltb, Option-cases,
  Bool-cases, inl, inr, if◌then◌else◌,
}
use vidyut.Wire.Number.{Number, natural?, natural}

-- `256 * 1024`
abbrev pub legacy_transfer_chunk_bytes : ℕ
legacy_transfer_chunk_bytes = 262_144

-- `1024 * 1024`
abbrev pub preferred_transfer_chunk_bytes : ℕ
preferred_transfer_chunk_bytes = 1_048_576

-- The positive safe integer that was advertised.
abbrev pub usable : Option Number → Option ℕ
usable none = none
usable (some x) = elim (natural? x) [ none ↦ none | some n ↦ if ltb 0 n then some n else none ]

unfoldable pub negotiate_transfer_chunk_bytes : Option Number → ℕ → ℕ
negotiate_transfer_chunk_bytes advertised local_maximum = elim (usable advertised) [
  | none ↦ min local_maximum legacy_transfer_chunk_bytes
  | some n ↦ min local_maximum n
]

-- The most that the peer takes at once: what it advertised, or the legacy size.
abbrev pub peer_limit : Option Number → ℕ
peer_limit advertised = elim (usable advertised) [ none ↦ legacy_transfer_chunk_bytes | some n ↦ n ]

-- With a local maximum that is not zero, the negotiated size is not zero either, and it is within
-- the local maximum and within what the peer takes: the size it advertised, if that is a positive
-- safe integer, else the legacy size.
pub negotiate_transfer_chunk_bytes-bounds :
    (advertised : Option Number) (local_maximum : ℕ)
    → 0 < local_maximum
    → (negotiate_transfer_chunk_bytes advertised local_maximum ≤ local_maximum)
      × (negotiate_transfer_chunk_bytes advertised local_maximum ≤ peer_limit advertised)
      × (0 < negotiate_transfer_chunk_bytes advertised local_maximum)
unfolding negotiate_transfer_chunk_bytes
negotiate_transfer_chunk_bytes-bounds none m h = (omega arith, omega arith, omega arith)
negotiate_transfer_chunk_bytes-bounds (some x) m h = elim (Option-cases (usable (some x))) [
  | inl e ↦
      rw (e, negotiate_transfer_chunk_bytes, peer_limit) (omega arith, omega arith, omega arith)
  | inr (a, e) ↦
      let positive : 0 < a = ground arith in
      rw (e, negotiate_transfer_chunk_bytes, peer_limit) (omega arith, omega arith, omega arith)
]
