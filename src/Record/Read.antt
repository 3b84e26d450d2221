-- ===== src/Record/Read.antt =====
-- crates/record/src/lib.rs: one record written and read.
use onestein.Base.{
  ℕ, ◌+◌, ◌-◌, ◌≤◌, ◌<◌, ◌≡◌, refl, sym, ap, ◌∙◌, ◌≢◌, ◌↔◌, ◌⊎◌, inl, inr, Bool, false, none, some,
  [], ◌∷◌, ◌++◌, arith, ==_refl, length, take, drop, All, length-append, length-take,
  take-append-drop, take-append, drop-append, drop_add, All-append_right, ok, err, ok_or, >>=-eq-ok,
}
use onestein.Base.Bytes.{Bytes, IsByte, to_be, from_be, from_be-to_be_lt, to_be-from_be_at}
use onestein.Record.{
  payload_length, Record, Error, payload_too_long, max_payload_len, header_len, encode, Reader,
  reader, next,
}

-- A payload that fits is written behind its header; a longer one is refused with its length.
pub encode_cases :
    (version record_type : ℕ) (payload : Bytes)
    → ((length payload ≤ max_payload_len)
        × (encode version record_type payload
            ≡ ok (version ∷ record_type ∷ (to_be 2 (length payload) ++ payload))))
      ⊎ ((max_payload_len < length payload)
          × (encode version record_type payload ≡ err (payload_too_long (length payload))))
unfolding encode
encode_cases version record_type payload = ground arith

-- A whole frame at the front of the input: its payload has the length that its header names.
module _ (version record_type hi lo : ℕ) (payload rest : Bytes)
    (named : from_be (hi ∷ lo ∷ []) ≡ length payload)
    (fits : length payload ≤ max_payload_len) where
  next_frame : next (reader (version ∷ record_type ∷ hi ∷ lo ∷ (payload ++ rest)) version) ≡ (
    some (ok (record { version = version; record_type = record_type; payload = payload })),
    reader rest version,
  )
  unfolding next
  next_frame =
      let n = length payload in
      ground (
        arith,
        length-append payload rest,
        ==_refl version,
        ap (λ (k : ℕ). take k (payload ++ rest)) (step n),
        take-append payload rest n refl,
        drop_add 4 n (version ∷ record_type ∷ hi ∷ lo ∷ (payload ++ rest)),
        drop-append payload rest n refl,
      )
    where
      step : (n : ℕ) → 4 + n - 4 ≡ n
      step n = omega arith

-- Whatever `encode` wrote, the reader of the same version takes back off the front of a stream, and
-- goes on behind it.
pub next-encode :
    (version record_type : ℕ) (payload rest bs : Bytes)
    → encode version record_type payload ≡ ok bs
    → next (reader (bs ++ rest) version) ≡ (
      some (ok (record { version = version; record_type = record_type; payload = payload })),
      reader rest version,
    )
next-encode version record_type payload rest bs h =
    elim (encode_cases version record_type payload) [
      | inl (fits, e) ↦
          let wire : version ∷ record_type ∷ (to_be 2 (length payload) ++ payload) ≡ bs =
            cc (e, h) in
          rw (← wire) (next_frame version record_type _ _ payload rest (named fits) fits)
      | inr (_, e) ↦ cc (e, h)
    ]
  where
    named : length payload ≤ max_payload_len → from_be (to_be 2 (length payload)) ≡ length payload
    named fits = from_be-to_be_lt 2 (length payload) (omega arith)

-- What a record is read from: a header of the reader's version, and a payload that is there in full.
module _ (version given record_type hi lo : ℕ) (body : Bytes) {rec : Record} {r : Reader} where
  pub next_inv :
      next (reader (given ∷ record_type ∷ hi ∷ lo ∷ body) version) ≡ (some (ok rec), r)
      → let n = from_be (hi ∷ lo ∷ []) in
        (given ≡ version)
        × (rec ≡ record { version = given; record_type = record_type; payload = take n body })
        × (r ≡ reader (drop n body) version)
        × (n ≤ length body)
        × (n ≤ max_payload_len)
  unfolding next
  next_inv h =
      let n = from_be (hi ∷ lo ∷ []) in
      ground (
        arith,
        drop_add 4 n (given ∷ record_type ∷ hi ∷ lo ∷ body),
        step n,
        ap (λ (k : ℕ). take k body) (step n),
      )
    where
      step : (n : ℕ) → 4 + n - 4 ≡ n
      step n = omega arith

-- Fewer bytes than a header are no record.
next_short :
    (rest : Bytes) (version : ℕ) (stopped : Bool) (rec : Record) (r : Reader)
    → length rest < header_len
    → (next (record { rest = rest; version = version; stopped = stopped })).0 ≢ some (ok rec)
unfolding next
next_short rest version stopped rec r h e = ground arith

next_running :
    (r : Reader) {q : Reader} {rec : Record} → next r ≡ (some (ok rec), q) → r.stopped ≡ false
unfolding next
next_running r h = ground arith

-- The frame that a record was read from is the one `encode` writes for it.
frame-encode :
    (version record_type hi lo : ℕ) (body : Bytes)
    → IsByte hi
    → IsByte lo
    → let n = from_be (hi ∷ lo ∷ []) in
      n ≤ length body
      → n ≤ max_payload_len
      → encode version record_type (take n body)
        ≡ ok (version ∷ record_type ∷ hi ∷ lo ∷ take n body)
unfolding encode
frame-encode version record_type hi lo body bh bl fits small =
    let n = from_be (hi ∷ lo ∷ []) in
    let size : length (take n body) ≡ n = omega (arith, length-take n body) in
    let wire : to_be 2 n ≡ hi ∷ lo ∷ [] =
      to_be-from_be_at 2 (hi ∷ lo ∷ []) (refl, (bh, (bl, tt))) in
    ground (arith, size, wire, ap (λ k. to_be 2 k ++ take n body) size)

abbrev Sound : Bytes → ℕ → Record → Reader → Type 0
Sound rest version rec q =
    (bs : Bytes) × (encode rec.version rec.record_type rec.payload ≡ ok bs)
    × (rest ≡ bs ++ q.rest)
    × (rec.version ≡ version)
    × (q ≡ reader q.rest version)

frame-Sound :
    (rest : Bytes) (version : ℕ) (rec : Record) (q : Reader)
    → All IsByte rest
    → next (reader rest version) ≡ (some (ok rec), q)
    → Sound rest version rec q
frame-Sound [] v rec q b h = absurd (next_short [] v false rec q (omega arith) (ap (λ p. p.0) h))
frame-Sound (x ∷ []) v rec q b h =
    absurd (next_short _ v false rec q (omega arith) (ap (λ p. p.0) h))
frame-Sound (x ∷ y ∷ []) v rec q b h =
    absurd (next_short _ v false rec q (omega arith) (ap (λ p. p.0) h))
frame-Sound (x ∷ y ∷ z ∷ []) v rec q b h =
    absurd (next_short _ v false rec q (omega arith) (ap (λ p. p.0) h))
frame-Sound (g ∷ t ∷ hi ∷ lo ∷ body) v rec q b h =
    let n = from_be (hi ∷ lo ∷ []) in
    let (same, isrec, isq, fits, small) = next_inv v g t hi lo body h in
    let rest : q.rest ≡ drop n body = ap (λ r. r.rest) isq in
    (
      g ∷ t ∷ hi ∷ lo ∷ take n body,
      rw isrec (frame-encode g t hi lo body b.1.1.0 b.1.1.1.0 fits small),
      rw (rest, take-append-drop n body),
      rw isrec same,
      rw (rest, isq),
    )

-- A record is read only off the bytes that `encode` writes for it, by a reader of its version, and
-- the reader goes on right behind them.
pub next_sound :
    (r q : Reader) (rec : Record)
    → All IsByte r.rest
    → next r ≡ (some (ok rec), q)
    → (bs : Bytes) × (encode rec.version rec.record_type rec.payload ≡ ok bs)
      × (r.rest ≡ bs ++ q.rest)
      × (rec.version ≡ r.version)
      × (q ≡ reader q.rest r.version)
next_sound r q rec bytes h = frame-Sound r.rest r.version rec q bytes (
    ap (λ s. next (record { rest = r.rest; version = r.version; stopped = s }))
      (sym (next_running r h))
    ∙ h)

-- A record takes its header and its payload off the input.
pub next_takes :
    (r q : Reader) (rec : Record)
    → All IsByte r.rest
    → next r ≡ (some (ok rec), q)
    → All IsByte q.rest × (length r.rest ≡ header_len + length rec.payload + length q.rest)
next_takes r q rec bytes h =
    let (bs, wrote, split, _, _) = next_sound r q rec bytes h in
    let fields : All IsByte (bs ++ q.rest) = rw split at bytes in
    elim (encode_cases rec.version rec.record_type rec.payload) [
      | inl (_, e) ↦
          let frame : rec.version ∷ rec.record_type ∷ (to_be 2 (length rec.payload) ++ rec.payload)
              ≡ bs =
            cc (e, wrote) in
          (
            All-append_right IsByte bs q.rest fields,
            omega (arith, ap length split, ap length frame, length-append bs q.rest),
          )
      | inr (_, e) ↦ cc (e, wrote)
    ]

-- After a refusal the reader is stopped where it was, and yields nothing more.
pub next_refused :
    (r q : Reader) (e : Error)
    → next r ≡ (some (err e), q)
    → (q.rest ≡ r.rest) × (next q ≡ (none, q))
unfolding next
next_refused r q e h = ground arith

-- A reader that is not stopped ends exactly at the end of its input: with bytes left it yields a
-- record or an error.
pub next-none : (rest : Bytes) (version : ℕ) → ((next (reader rest version)).0 ≡ none) ↔ (rest ≡ [])
unfolding next
next-none [] version = (λ _. refl, λ _. refl)
next-none (x ∷ rest) version = (λ e. ground arith, λ e. cc)

-- What is written has a header at least.
pub encode-pos :
    (version record_type : ℕ) (payload bs : Bytes)
    → encode version record_type payload ≡ ok bs
    → 1 ≤ length bs
unfolding encode
encode-pos version record_type payload bs h =
    let (n, fits, e) =
      >>=-eq-ok (ok_or (payload_length (length payload)) (payload_too_long (length payload))) _ h in
    let whole : version ∷ record_type ∷ (to_be 2 n ++ payload) ≡ bs = cc in
    rw (← whole) (omega arith)
