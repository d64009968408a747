-- ===== src/Lib.antt =====
-- Verification of polyvisor: the protocols by which devices and people come to trust each other,
-- and the formats that carry what they exchange. The models translate the Rust sources by hand.
--
-- The parts, from the outside in:
-- * Pairing (runtime/crates/kernel/src/pairing.rs) enrols a device in the user's group. Pairing.antt
--   has the state `Pairing` with the operations of `impl Kernel` (`pairing_offer`, `pairing_claim`,
--   `pairing_confirm`, `pairing_cancel`, `pairing_status`, the verdict of `run_joiner`,
--   `bind_session`, `finish`, and `claim_task`, the task that `pairing_claim` spawns);
--   Pairing/Ceremony.antt has `run_adder` and `run_claimed`.
-- * Meeting (runtime/crates/kernel/src/meeting.rs) exchanges contact cards. Meeting.antt has the
--   state `Meeting` with its generations and the operations on it, `meeting_offer` to
--   `meeting_finish`, and the fragment of a link; Meeting/Exchange.antt has the two sides of an
--   exchange, `run_guest` and `run_claimed`, and their common end.
-- * RootTransfer (runtime/crates/kernel/src/root_transfer.rs) hands the root seed to another member:
--   frames in RootTransfer.antt, `root_transfer` in RootTransfer/Sending.antt,
--   `receive_root_transfer` and `root_transfer_accept` in RootTransfer/Receiving.antt, and the durable
--   write of the device, `persist` (lib.rs), in RootTransfer/Persist.antt.
-- * RootBackup (runtime/crates/kernel/src/root_backup.rs) is the backup of the root seed under a
--   passphrase.
-- * Route (runtime/crates/kernel/src/route.rs) is the sealed fragment of a page.
-- * Z32 (runtime/component/src/z32.rs) is the text of an endpoint id.
-- * Opaque (runtime/crates/engine/src/opaque.rs) is the register of the opaque trees, which
--   Policy (runtime/crates/engine/src/policy.rs) asks when it judges a storage operation.
-- * Seal (runtime/crates/kernel/src/seal.rs) is the device's data key: `Dek::seal`, `Dek::open`
--   (`unseal`) and `WrappedDek`.
-- * Checkpoint (runtime/crates/kernel/src/checkpoint.rs) keeps a device's state in generations with
--   one pointer. Checkpoint.antt has `load`, `write`, `write_engine`, `commit_pointer` and `destroy`
--   over the disk of Checkpoint/Files.antt; it seals with Seal.
-- * Store (runtime/crates/kernel/src/store.rs, device.rs) is the index of devices: `rows`, `destroy`
--   and `sweep`, which calls the `destroy` of Checkpoint.
-- * Events (runtime/crates/kernel/src/events.rs) is the queue of events, and Clock
--   (runtime/crates/engine/src/clock.rs) the clock that never steps back.
-- * Introduction (runtime/crates/contacts-model/src/lib.rs) is what contacts tell of each other.
--   Introduction/Signed.antt has the root's binding and profiles, Introduction/Verify.antt
--   `sign_introduction` and `verify_introduction`, Introduction/Selection.antt `validate_authority`
--   and `select`.
-- * Adoption (runtime/crates/kernel/src/lib.rs) has the gates `open` and `identity_open` of the kernel
--   and `begin_identity_adoption` with its end, which a pairing calls around what it adopts.
-- * Errors (runtime/crates/kernel/src/lib.rs) has the error values; Common and Primitives are the
--   shared lists, results and bytes, and the interfaces of foreign crates.
--
-- How code becomes a definition. Bytes are numbers, and a theorem that needs them below 256 says so.
-- A `Result` is `Result`, `?` is `>>=`. Rust's exclusive borrow makes the code between two awaits
-- atomic, so an operation that awaits takes what other tasks do meanwhile as a function on the
-- state, and the theorems on interleavings are inductions over a relation `Step` whose constructors
-- are the atomic stretches. The two ceremonies and the transfers are programs over a script, the
-- answers that their awaits get in order: peers, clocks, disks and users are arbitrary. A ceremony
-- (on the runs of Runs.antt for a meeting) gives the actions that it takes in order, and an outcome
-- that may be pending.
--
-- A hash map is the list of its entries. A connection is a number. A session that was torn down is
-- kept aside with its `cancelled` mark.
-- `checked_add` and `saturating_add` have their limits of 32 and 64 bits written out.
--
-- A checkpoint is the list of the calls that it makes on files and rows, in order, and its result.
-- `Crash` relates the disks before and after a list of calls that stops anywhere: between two calls,
-- or inside a write, which leaves anything in the file. A text of an error is kept without what the
-- code interpolates. Generations and heads count below 2 ^ 64.
--
-- Parameters: AES-GCM, Argon2, SHA-256, serde_json, bincode, prost, the engine's journal state,
-- HMAC, BLAKE3, Ed25519, `data_encoding` and UTF-8 are records of functions (Primitives.antt,
-- Checkpoint.antt, Introduction.antt), with records of the laws that their documentation gives;
-- Primitives/Toy.antt and Introduction/Toy.antt have small functions that meet the laws.
--
-- Fuel: the only loop on fuel is `flush` of Z32, which takes five bits a turn and is given as many
-- turns as there are bits. All else is recursion on a list or
-- on a count that the code counts to.
--
-- Not modelled: a failing `identity_status` on the sending side of a root transfer; the packing of
-- shared documents under the frame budget and `adopt_pairing_payload` of the pairing; the task
-- that moves the frames of a meeting; `slot_hash` and `item_id`, which only feed a hash; the
-- documents of contacts, visor and todo, which are automerge; the rest of engine and kernel, the
-- user interface, and the host outside Rust.
pub mod Common
pub mod Primitives
pub mod Z32
pub mod Errors
pub mod Runs
pub mod Route
pub mod RootTransfer
pub mod RootBackup
pub mod Pairing
pub mod Meeting
pub mod Opaque
pub mod Policy
pub mod Seal
pub mod Checkpoint
pub mod Store
pub mod Adoption
pub mod Events
pub mod Clock
pub mod Introduction
