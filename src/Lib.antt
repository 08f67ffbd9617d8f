-- ===== src/Lib.antt =====
-- A verification library for Vidyut, which shares the clipboard and files between a laptop (the
-- relay, TypeScript under src/) and a phone.
--
-- The parts and how they meet. A phone and the relay exchange the messages of src/shared/wire.ts over
-- one socket; most travel sealed under a session key (src/shared/session-seal.ts). Clipboard frames
-- meet in the payload pool (src/relay/payload-pool.ts), from which src/relay/clipboard-sync.ts
-- writes the clipboard, unless the pause (src/relay/clipboard-pause.ts) is on, and opens links that
-- pass the gate of src/relay/open-link.ts. Files travel as batches of the durable queue
-- (src/transfer/transfer-queue.ts), one file at a time, in chunks whose size
-- src/transfer/transfer-chunk-policy.ts negotiates. The coordinator
-- (src/transfer/transfer-coordinator.ts) turns the phone's control messages into calls on the queue;
-- the data plane (src/transfer/laptop-data-plane.ts) moves the encrypted chunks over HTTP, keeps the
-- partial file and the progress session of a file that is received, and verifies and publishes it.
--
-- Where each part is.
--   Prelude      shared names, tests, lists, texts, results
--   Wire         src/shared/wire.ts: Types, Frames, Browse and Messages are the message types; Number
--                and Json the values that JSON.parse gives; Patterns and Guards the guards
--                (isTransferOffer and so on); Encode writes an offer as such a value; Read and
--                Requests say what a guard promises
--   Paths        src/transfer/transfer-paths.ts
--   Chunks       src/transfer/transfer-chunk-policy.ts
--   Queue        src/transfer/transfer-queue.ts: Types its records; Store the state (the snapshot,
--                the clock anchors, what was saved and unlinked); Timing, Batch, Progress, Control,
--                Claim, Offers and Recover the methods, under their names in snake case. Moves is the
--                table of steps a file may make, and each method keeps to it; Invariant, Tracks,
--                Claim.Order, Offers.Again are about one call, and Calls about histories
--   Relay        src/relay: Pool, Pause, Link, Clipboard, Origin (local-origin.ts)
--   Auth         src/shared/auth.ts, src/shared/transfer-http-auth.ts, the proofs of session-seal.ts
--   Seal         src/shared/session-seal.ts
--   Plane        src/transfer/laptop-data-plane.ts, with http-data-plane.ts and
--                src/shared/transfer-crypto.ts. State is the state (queue, disk, sessions, messages
--                that were published) and the monad of a handler, which goes on, answers early or
--                throws; Rules what holds behind a call by how it ends. Disk is the file system,
--                Sessions, Checkpoint, Decimal and Cipher the parts named so; Upload, Download and
--                Routes the handlers, with Upload.History, Upload.Steady and Upload.Candidates about
--                them
--   Coordinator  src/transfer/transfer-coordinator.ts: Offers (acceptPhoneOffer), Control
--                (handleControl and what it calls) and Devices (connections, laptop files)
--
-- How code is modelled. A method takes the state and gives the next one, or an error with the state
-- as it was (class fields are records, exceptions a Result). Clock readings, sizes and offsets are
-- natural numbers; a number that the code has not checked yet is a Number, a signed dyadic fraction
-- or a value that is not finite. A method reads each clock once. claimNext is the call of expire and
-- the claim behind it, between which other calls may come. An attempt's number grows with every
-- retry and is compared with 2^53 - 1, which is why histories ask that no file is at its last
-- attempt. Loops run over lists, so that no fuel is needed, but for two: the search of a free path
-- counts down the ten thousand rounds that the code has, and the slices of a selection the number of
-- its files, one slice taking at least one. The counter of a sealed session stops at 2^64, where the
-- code throws.
--
-- An HTTP request, or a control message, runs to its end before the next begins: runExclusive makes
-- those on one file so, and what another file's request does to the queue in between is left out.
-- A directory that cannot be made, a file that does not open, a short write and a failed sync are
-- answers of the file system; unlink leaves the other paths alone, and may do nothing.
--
-- Parameters are node:path, the file system (a record of calls, with laws where a theorem says so),
-- localeCompare, base64, AES-GCM, PBKDF2, HMAC, JSON text, URLs, SHA-256, the names that a finished
-- file may take, the clipboard's digest and encryption. A storage is taken
-- to write what it is given: a save that fails is not modelled. Snapshots are typed values, not JSON
-- text. A text is a list of code points: a lone surrogate has no model.
--
-- Not modelled: the folder browser, the relay's sockets, the control plane's routes, the locks of
-- runExclusive, utimes on a finished file, process and file input and output, the desktop shell.
pub mod Prelude
pub mod Wire
pub mod Paths
pub mod Chunks
pub mod Queue
pub mod Relay
pub mod Seal
pub mod Auth
pub mod Plane
pub mod Coordinator
