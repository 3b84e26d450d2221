-- ===== src/Lib.antt =====
-- Onestein, a messaging protocol in layers: BDF objects (crates/bdf), record framing (crates/record),
-- transport (crates/transport), handshake, identity, contact, sync, relay and the facade over them
-- (crates/handshake, crates/identity, crates/contact, crates/sync, crates/relay, crates/onestein). The
-- layers do no input or output and keep no clock: the caller passes the time, the bytes and the stored
-- state in, and takes bytes and the new state back.
--
-- Which file models which part:
--   Base           lists and bytes over the native numbers, ranges, results, words of 32 and 64 bits, bits,
--                  the bytes of a literal.
--   Bdf            crates/bdf/src. Bdf holds the values and the canonical form of lib.rs, Bdf/Write the
--                  writer of write.rs, Bdf/Read the reader of read.rs, with `from_bytes` and
--                  `from_bytes_canonical` as `read_one` in its two modes.
--   Record         crates/record/src/lib.rs: `encode`, `Reader::new` as `reader`, `Reader::next` as
--                  `next`. Record/Stream has the loop `for framed in Reader::new(..)` of
--                  crates/sync/src/records.rs and crates/handshake/src/records.rs, as `drain`, and
--                  Record/Codec what both layers share: each value is written as one record.
--   Transport      crates/transport/src: `Window::mark_seen` and `is_seen` of window.rs in
--                  Transport/Window, `expected` in Transport/Window/Expected,
--                  `StreamCounter::take` as `take_next` in Transport/Counter, the keys of
--                  a period, `rotate_to` and `tag` of lib.rs in Transport/Keys, and the stream headers and
--                  frames of wire.rs in Transport/Wire.
--   Sync           crates/sync/src: `PeerMessageState` of peer.rs in Sync/Peer, `plan` of session.rs in
--                  Sync/Session, `deliverability` of records.rs in Sync/Delivery, the identifier lists in
--                  Sync/Identifiers, `encode_record` and `decode_records` in Sync/Records, and the names of
--                  groups and messages of lib.rs with the payload of message.rs in Sync/Messages, and the
--                  policies of retention.rs in Sync/Retention.
--   Relay          crates/relay/src: rights and `Registration::check` of lib.rs in Relay, the queues of
--                  store.rs in Relay/Store, the names, keys and proofs of lib.rs in Relay/Keys,
--                  `handle` and `spend` of api.rs in Relay/Handle, and the
--                  codec of requests and responses in Relay/Codec.
--   Identity       crates/identity/src: `IdentityId::derive` of lib.rs in Identity, the fields off canonical
--                  BDF in Identity/Fields, `sign_certificate`, `open_container` and `verify_certificate` of
--                  certificate.rs in Identity/Certificate, revocation.rs in Identity/Revocation and
--                  recovery.rs in Identity/Recovery.
--   Handshake      crates/handshake/src: the key pair, `root_key` and `confirmation` of lib.rs in Handshake,
--                  the records of records.rs in Handshake/Records.
--   Contact        crates/contact/src: bundles, commitments and links of lib.rs in Contact, base32.rs in
--                  Contact/Base32, its loops as `emit`, `encode_from` and `decode_from`.
--   Crypto         crates/crypto/src: `hash` of lib.rs, `prf` and `kdf` of mac.rs. Crypto/Framing and
--                  Crypto/Collisions have what a hash over several parts binds.
--   Tests          the code and the theorems at concrete inputs.
--
-- How the code is written down. A byte string is a list of numbers, with `All IsByte` where a proof needs
-- bytes. A number of 64 bits is a natural number below 2 ^ 64, and `usize` has 64 bits: an `i64` and an
-- `f64` stand as their bit patterns, and wrapping, saturating and checked operations are written out
-- (Base/Words). A `String` is its UTF-8 bytes, and `String::from_utf8` is the test Bdf/Utf8. The readers
-- keep `input` and `pos`, and look only at `input[pos..]`: that suffix is their state here. `&mut self` is
-- the new state in the result, and an early return is an `err`.
--
-- Fuel. Reading a BDF object calls itself at most twice for each byte, so `read_one` gives twice the
-- length and one; the error `out_of_fuel` has no counterpart in the code and is proved not to occur. The
-- loops of `mark_seen` clear one of 32 bits in each round and have 32 rounds. Draining a reader takes a
-- header off its input in each round; `none` stands for a loop that has not ended.
--
-- Bounds. The theorems on the window ask for a base that leaves room for 64 slides and for stream numbers
-- 128 below 2 ^ 64: at the very top the base saturates and the code behaves otherwise.
--
-- Parameters. BLAKE2b is a function on bytes, and with a key a function on two byte strings. Ed25519 and
-- ML-DSA-65 are the record Identity.Schemes, X25519 and ML-KEM-768 the record Handshake.Agreement, the
-- authenticated cipher the record Transport.Wire.Cipher. What a theorem asks of them, that a signature
-- verifies, that a shared secret does not depend on the side, that decryption undoes encryption, and their
-- sizes, is a record of laws among its hypotheses. No theorem asks that a hash has no collisions: where that
-- matters, the collision is part of the conclusion. What the caller's closures say of a message is a function.
--
-- Not modelled: the texts of the errors, the algorithms of the crates that the program only calls, the
-- sockets and threads of crates/relayd, and the names that crates/onestein passes on.
pub mod Base
pub mod Bdf
pub mod Contact
pub mod Crypto
pub mod Handshake
pub mod Identity
pub mod Record
pub mod Relay
pub mod Sync
pub mod Tests
pub mod Transport
