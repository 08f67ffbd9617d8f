-- ===== src/Chunks/Tests.antt =====
-- A concrete run of src/transfer/transfer-chunk-policy.ts.
use vidyut.Prelude.{◌≤◌, ◌<◌, some, arith}
use vidyut.Wire.Number.{natural}
use vidyut.Chunks.{
  negotiate_transfer_chunk_bytes, negotiate_transfer_chunk_bytes-bounds, peer_limit,
  legacy_transfer_chunk_bytes,
}

negotiate_transfer_chunk_bytes-bounds_example :
    (negotiate_transfer_chunk_bytes (some (natural 4096)) legacy_transfer_chunk_bytes
      ≤ legacy_transfer_chunk_bytes)
    × (negotiate_transfer_chunk_bytes (some (natural 4096)) legacy_transfer_chunk_bytes
        ≤ peer_limit (some (natural 4096)))
    × (0 < negotiate_transfer_chunk_bytes (some (natural 4096)) legacy_transfer_chunk_bytes)
negotiate_transfer_chunk_bytes-bounds_example =
    negotiate_transfer_chunk_bytes-bounds (some (natural 4096)) legacy_transfer_chunk_bytes
      (omega arith)
