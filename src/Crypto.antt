-- ===== src/Crypto.antt =====
-- crates/crypto: the hash over several arguments, and the keyed functions. BLAKE2b, plain and keyed,
-- is a parameter.
pub mod Framing
pub mod Collisions
use onestein.Base.{ℕ, zero, suc, List, [], ◌∷◌, ◌++◌, length}
use onestein.Base.Bytes.{Bytes, to_be}

abbrev pub hash_len : ℕ
hash_len = 32

-- Each part behind its length. A part of 2 ^ 32 bytes or more makes the code panic instead.
unfoldable pub frame : List Bytes → Bytes
frame [] = []
frame (part ∷ parts) = to_be 4 (length part) ++ (part ++ frame parts)

unfoldable pub hash : (Bytes → Bytes) → List Bytes → Bytes
hash blake2b parts = blake2b (frame parts)

-- The key, then the message.
unfoldable pub prf : (Bytes → Bytes → Bytes) → Bytes → Bytes → Bytes
prf keyed key message = keyed key message

unfoldable pub kdf : (Bytes → Bytes → Bytes) → Bytes → List Bytes → Bytes
kdf keyed key parts = keyed key (frame parts)
