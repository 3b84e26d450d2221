-- ===== src/Contact.antt =====
-- crates/contact/src/lib.rs: contact bundles, links and the keys of a first meeting. X25519 and BLAKE2b, plain
-- and keyed, are parameters.
pub mod Base32
pub mod Links
pub mod Bundles
use onestein.Base.{
  ℕ, zero, suc, ◌+◌, ◌&&◌, Option, none, some, [], ◌∷◌, ◌++◌, leb, ◌==◌, if◌then◌else◌, length,
  take, drop, is_empty, bytes_eq, Result, ok, err, ◌>>=◌, ◌>>◌, guard, ok_or, map_err,
}
use onestein.Base.Bytes.{Bytes, to_be}
use onestein.Base.Text.{ascii}
use onestein.Bdf.{Value, Entries, int, raw, dict, no_entries, entry}
use onestein.Bdf.Read.{Error as BdfError, from_bytes_canonical}
use onestein.Bdf.Write.{to_bytes}
use onestein.Crypto.{hash_len, hash, kdf}
use onestein.Handshake.{Agreement}
use onestein.Identity.Fields.{find_field}
use onestein.Contact.Base32.{Error as Base32Error, encode, decode, is_whitespace}

abbrev pub contact_version : ℕ
contact_version = 1

abbrev pub identity_version : ℕ
identity_version = 1

abbrev pub root_ed25519_len : ℕ
root_ed25519_len = 32

abbrev pub root_mldsa_len : ℕ
root_mldsa_len = 1952

abbrev pub contact_key_len : ℕ
contact_key_len = 32

abbrev pub link_prefix : Bytes
link_prefix = ascii "onestein:1:"

abbrev pub bundle_label : Bytes
bundle_label = ascii "org.onestein.contact/BUNDLE"

abbrev pub rendezvous_label : Bytes
rendezvous_label = ascii "org.onestein.contact/RENDEZVOUS"

abbrev pub address_a_label : Bytes
address_a_label = ascii "org.onestein.contact/ADDRESS_A"

abbrev pub address_b_label : Bytes
address_b_label = ascii "org.onestein.contact/ADDRESS_B"

pub data Error : Type 0 where
  malformed : Error
  -- Expected, then given.
  wrong_key_length : ℕ → ℕ → Error
  not_a_link : Error
  not_base32 : Base32Error → Error
  commitment_mismatch : Error
  degenerate_shared_secret : Error

pub record ContactBundle : Type 0 where
  pub root_ed25519 : Bytes
  pub root_mldsa : Bytes
  pub contact_key : Bytes

abbrev pub bundle_fields : ContactBundle → Entries
bundle_fields bundle = entry (ascii "ed") (raw bundle.root_ed25519) (
    entry (ascii "pq") (raw bundle.root_mldsa) (
      entry (ascii "v") (int identity_version)
        (entry (ascii "x") (raw bundle.contact_key) no_entries)))

unfoldable pub encode_bundle : ContactBundle → Result Error Bytes
encode_bundle bundle = do
  guard (length bundle.root_mldsa == root_mldsa_len)
      (wrong_key_length root_mldsa_len (length bundle.root_mldsa))
  ok (to_bytes (dict (bundle_fields bundle)))

abbrev pub sized : ℕ → Bytes → Result Error Bytes
sized n bytes = do guard (length bytes == n) (wrong_key_length n (length bytes)); ok bytes

abbrev pub bundle_entries : Result BdfError Value → Result Error Entries
bundle_entries (ok (dict fields)) = ok fields
bundle_entries _ = err malformed

abbrev pub raw_value : Entries → Bytes → Result Error Bytes
raw_value fields key = elim (find_field key fields) [
  | some (raw value) ↦ ok value
  | _ ↦ err malformed
]

abbrev pub check_version : Entries → Result Error (Unit {0})
check_version fields = elim (find_field (ascii "v") fields) [
  | some (int version) ↦ guard (version == identity_version) malformed
  | _ ↦ err malformed
]

abbrev pub bundle_of : Entries → Result Error ContactBundle
bundle_of fields = do
  check_version fields
  root_mldsa ← raw_value fields (ascii "pq")
  guard (length root_mldsa == root_mldsa_len) (wrong_key_length root_mldsa_len (length root_mldsa))
  ed ← raw_value fields (ascii "ed")
  root_ed25519 ← sized root_ed25519_len ed
  x ← raw_value fields (ascii "x")
  contact_key ← sized contact_key_len x
  ok (record { root_ed25519 = root_ed25519; root_mldsa = root_mldsa; contact_key = contact_key })

unfoldable pub decode_bundle : Bytes → Result Error ContactBundle
decode_bundle bytes = do fields ← bundle_entries (from_bytes_canonical bytes); bundle_of fields

module _ (blake2b : Bytes → Bytes) where
  unfoldable pub commitment : ContactBundle → Result Error Bytes
  commitment bundle = do
    encoded ← encode_bundle bundle
    ok (hash blake2b (bundle_label ∷ (contact_version ∷ []) ∷ encoded ∷ []))

  unfoldable pub check : ContactBundle → Bytes → Result Error (Unit {0})
  check bundle expected = do
    own ← commitment bundle
    guard (bytes_eq own expected) commitment_mismatch

pub record ContactLink : Type 0 where
  pub contact_key : Bytes
  pub commitment : Bytes

-- A text is the code points of its characters.
unfoldable pub to_text : ContactLink → Bytes
to_text link = link_prefix ++ encode (link.contact_key ++ link.commitment)

-- `str::trim`.
abbrev pub trim_start : Bytes → Bytes
trim_start [] = []
trim_start (c ∷ cs) = if is_whitespace c then trim_start cs else c ∷ cs

abbrev pub trim_end : Bytes → Bytes
trim_end [] = []
trim_end (c ∷ cs) =
    let rest = trim_end cs in if is_whitespace c && is_empty rest then [] else c ∷ rest

abbrev pub strip_prefix : Bytes → Bytes → Option Bytes
strip_prefix [] text = some text
strip_prefix (p ∷ ps) [] = none
strip_prefix (p ∷ ps) (c ∷ cs) = if p == c then strip_prefix ps cs else none

-- What stands behind the prefix.
unfoldable pub link_payload : Bytes → Option Bytes
link_payload text = strip_prefix link_prefix (trim_end (trim_start text))

unfoldable pub parse : Bytes → Result Error ContactLink
parse text = do
  payload ← ok_or (link_payload text) not_a_link
  bytes ← map_err not_base32 (decode payload)
  guard (length bytes == contact_key_len + hash_len) malformed
  contact_key ← sized contact_key_len (take contact_key_len bytes)
  commitment ← sized hash_len (drop contact_key_len bytes)
  ok (record { contact_key = contact_key; commitment = commitment })

unfoldable pub rendezvous_key :
    (Bytes → Bytes) → Agreement → Bytes → Bytes → Bytes → Bytes → Result Error Bytes
rendezvous_key blake2b schemes own_contact_secret peer_contact_key commitment_a commitment_b =
    let shared = schemes.diffie_hellman own_contact_secret peer_contact_key in
    guard (schemes.was_contributory shared) degenerate_shared_secret >>= λ _. ok (
      hash blake2b
        (rendezvous_label ∷ (contact_version ∷ []) ∷ shared ∷ commitment_a ∷ commitment_b ∷ []))

pub data Side : Type 0 where
  side_a side_b : Side

abbrev pub address_label : Side → Bytes
address_label side_a = address_a_label
address_label side_b = address_b_label

unfoldable pub address_seed : (Bytes → Bytes → Bytes) → Bytes → Side → Bytes → ℕ → Bytes
address_seed keyed rendezvous_key side transport_id period =
    kdf keyed rendezvous_key (address_label side ∷ transport_id ∷ to_be 8 period ∷ [])

-- `chunks(4)` joined by spaces: a chunk takes a character at least.
abbrev pub grouped : ℕ → Bytes → Bytes
grouped zero characters = []
grouped (suc rounds) characters =
    let rest = grouped rounds (drop 4 characters) in
    if leb (length characters) 4 then characters else take 4 characters ++ 0x20 ∷ rest

unfoldable pub fingerprint : Bytes → Bytes
fingerprint identity_id =
    let characters = encode identity_id in grouped (suc (length characters)) characters
