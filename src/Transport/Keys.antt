-- ===== src/Transport/Keys.antt =====
-- crates/transport/src/lib.rs: the keys of a time period, and their rotation to a later one. The keyed
-- BLAKE2b is a parameter.
pub mod Rotation
pub mod Roles
use onestein.Base.{
  ℕ, zero, suc, ◌+◌, ◌-◌, ◌*◌, ◌/◌, [], ◌∷◌, ◌++◌, ltb, if◌then◌else◌, Result, ok, err, ◌>>=◌, ◌>>◌,
  ok_or,
}
use onestein.Base.Bytes.{fill, Bytes, to_be}
use onestein.Base.Text.{ascii}
use onestein.Base.Words.{saturating_add, checked_sub}
use onestein.Crypto.{prf, kdf}

abbrev pub a_tag_key : Bytes
a_tag_key = ascii "org.onestein.transport/A_TAG_KEY"

abbrev pub a_header_key : Bytes
a_header_key = ascii "org.onestein.transport/A_HEADER_KEY"

abbrev pub b_tag_key : Bytes
b_tag_key = ascii "org.onestein.transport/B_TAG_KEY"

abbrev pub b_header_key : Bytes
b_header_key = ascii "org.onestein.transport/B_HEADER_KEY"

abbrev pub rotate_label : Bytes
rotate_label = ascii "org.onestein.transport/ROTATE"

abbrev pub transport_version : ℕ
transport_version = 1

abbrev pub tag_len : ℕ
tag_len = 16

abbrev pub max_rotations : ℕ
max_rotations = 1024

pub record Transport : Type 0 where
  pub id : Bytes
  pub period_seconds : ℕ

abbrev pub tor : Transport
tor = record { id = ascii "org.onestein.transport.tor"; period_seconds = 25 * 3600 }

abbrev pub lan : Transport
lan = record { id = ascii "org.onestein.transport.lan"; period_seconds = 25 * 3600 }

abbrev pub bluetooth : Transport
bluetooth = record { id = ascii "org.onestein.transport.bluetooth"; period_seconds = 25 * 3600 }

abbrev pub media : Transport
media = record { id = ascii "org.onestein.transport.media"; period_seconds = 31 * 24 * 3600 }

abbrev pub relay : Transport
relay = record { id = ascii "org.onestein.transport.relay"; period_seconds = 31 * 24 * 3600 }

pub data Role : Type 0 where
  role_a role_b : Role

pub data Error : Type 0 where
  timestamp_too_early : Error
  -- The current period, and the one asked for.
  period_in_the_past : ℕ → ℕ → Error
  too_far_ahead : ℕ → Error

pub record DirectionKeys : Type 0 where
  pub tag_key : Bytes
  pub header_key : Bytes

pub record PeriodKeys : Type 0 where
  pub period : ℕ
  pub outgoing : DirectionKeys
  pub incoming : DirectionKeys

abbrev pub period_at : Transport → ℕ → ℕ
period_at transport timestamp_ms = timestamp_ms / 1000 / transport.period_seconds

-- The labels of the keys for what a role sends, and for what it receives.
abbrev pub mine : Role → Bytes × Bytes
mine role_a = (a_tag_key, a_header_key)
mine role_b = (b_tag_key, b_header_key)

abbrev pub theirs : Role → Bytes × Bytes
theirs role_a = (b_tag_key, b_header_key)
theirs role_b = (a_tag_key, a_header_key)

module _ (keyed : Bytes → Bytes → Bytes) where
  abbrev pub direction : Bytes → Bytes → Bytes × Bytes → DirectionKeys
  direction root_key id (tag_label, header_label) = record {
    tag_key = kdf keyed root_key (tag_label ∷ id ∷ []);
    header_key = kdf keyed root_key (header_label ∷ id ∷ []);
  }

  unfoldable pub initial : Bytes → Transport → Role → ℕ → Result Error PeriodKeys
  initial root_key transport role timestamp_ms = do
    period ← ok_or (checked_sub (period_at transport timestamp_ms) 1) timestamp_too_early
    ok (record {
      period = period;
      outgoing = direction root_key transport.id (mine role);
      incoming = direction root_key transport.id (theirs role);
    })

  -- One round of the loop, for the period `next`.
  abbrev pub rotate_key : ℕ → Bytes → Bytes
  rotate_key next key = kdf keyed key (rotate_label ∷ to_be 8 next ∷ [])

  abbrev pub rotate_direction : ℕ → DirectionKeys → DirectionKeys
  rotate_direction next keys = record {
    tag_key = rotate_key next keys.tag_key;
    header_key = rotate_key next keys.header_key;
  }

  abbrev pub rotate_once : ℕ → PeriodKeys → PeriodKeys
  rotate_once next keys = record keys {
    outgoing = rotate_direction next keys.outgoing;
    incoming = rotate_direction next keys.incoming;
  }

  -- `for next in first..=last`, by the number of its rounds.
  unfoldable pub rotate_rounds : ℕ → ℕ → PeriodKeys → PeriodKeys
  rotate_rounds zero next keys = keys
  rotate_rounds (suc rounds) next keys = rotate_rounds rounds (next + 1) (rotate_once next keys)

  unfoldable pub rotate_to : PeriodKeys → ℕ → Result Error PeriodKeys
  rotate_to keys period =
      if ltb period keys.period
      then err (period_in_the_past keys.period period)
      else if ltb max_rotations (period - keys.period)
      then err (too_far_ahead (period - keys.period))
      else (let first = saturating_add keys.period 1 in
          ok (record (rotate_rounds (period + 1 - first) first keys) { period = period }))

  unfoldable pub tag : Bytes → ℕ → Bytes
  tag tag_key stream_number =
      fill tag_len
        (prf keyed tag_key (fill 10 (to_be 2 transport_version ++ to_be 8 stream_number)))
