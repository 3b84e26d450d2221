-- ===== src/Transport/Window/Replay.antt =====
-- crates/transport/src/window.rs: which stream numbers `mark_seen` accepts, and that it accepts none
-- of them twice.
use onestein.Base.{
  ℕ, ◌+◌, ◌-◌, ◌/◌, ◌%◌, ◌^◌, ◌≤◌, ◌<◌, min, ◌≡◌, ap, ◌∙◌, ◌≢◌, ◌↔◌, ◌⊎◌, inl, inr, false, not,
  ◌||◌, List, [], ◌∷◌, arith, ◌==◌, All, ok, err, Result-cases,
}
use onestein.Base.Bits.{bit_or-pow, add_bit_self, add_bit_other, div_pow_add, no_bit, add_bit-lt}
use native.Mathlib.Decide.{dec_lt, ℕ_discrete}
use onestein.Base.Words.{u64_max}
use onestein.Transport.Window.{
  Window, already_passed, outside_window, already_seen, window_len, is_seen, settle, mark_seen,
}
use onestein.Transport.Window.Slide.{moved, is_set-bit, settle_lem}

-- The seen bits are a u32, and the base leaves room for the window to slide without saturating.
pub record IsValid (w : Window) : Type 0 where
  pub word : w.seen < 2 ^ 32
  pub room : w.base + 64 ≤ u64_max

abbrev pub bit_at : Window → ℕ → ℕ
bit_at w n = w.seen / 2 ^ (n - w.base) % 2

-- Passed, or inside the window and marked.
abbrev pub IsSpent : Window → ℕ → Type 0
IsSpent w n = (n < w.base) ⊎ ((w.base ≤ n) × (bit_at w n ≡ 1))

module _ (w : Window) (n : ℕ) where
  abbrev pub marked : Window
  marked = record w { seen = w.seen + 2 ^ (n - w.base) }

  -- Every branch of `mark_seen`, with what is returned there.
  pub mark_seen_cases :
      ((n < w.base) × (mark_seen w n ≡ (w, err (already_passed n w.base))))
      ⊎ ((w.base + window_len ≤ n)
          × (mark_seen w n ≡ (w, err (outside_window n (min (w.base + window_len) u64_max)))))
      ⊎ ((w.base ≤ n)
          × (n < w.base + window_len)
          × (bit_at w n ≡ 1)
          × (mark_seen w n ≡ (w, err (already_seen n))))
      ⊎ ((w.base ≤ n)
          × (n < w.base + window_len)
          × (bit_at w n ≡ 0)
          × (mark_seen w n ≡ (settle marked, ok tt)))
  unfolding mark_seen
  mark_seen_cases = let o = n - w.base in ground (arith, is_set-bit w.seen o, bit_or-pow o w.seen)

-- What a window refuses it goes on refusing when it has moved up, and what it still covers keeps its
-- bit.
bit_at-moved : (k : ℕ) (w : Window) (n : ℕ) → w.base + k ≤ n → bit_at (moved k w) n ≡ bit_at w n
bit_at-moved k w n h =
    let there : k + (n - (w.base + k)) ≡ n - w.base = omega arith in
    rw (div_pow_add w.seen k (n - (w.base + k)), there)

moved-IsSpent : (k : ℕ) (w : Window) (n : ℕ) → IsSpent w n → IsSpent (moved k w) n
moved-IsSpent k w n (inl h) = inl (omega arith)
moved-IsSpent k w n (inr (h, e)) = elim (dec_lt n (w.base + k)) [
  | yes p ↦ inl p
  | no p ↦ inr (omega arith, bit_at-moved k w n (omega arith) ∙ e)
]

bit_at-marked :
    (w : Window) (n m : ℕ)
    → w.base ≤ n
    → bit_at w n ≡ 0
    → w.base ≤ m
    → m ≢ n
    → bit_at (marked w n) m ≡ bit_at w m
bit_at-marked w n m h e hm ne =
    add_bit_other (n - w.base) (m - w.base) w.seen e (λ p. ne (omega arith))

marked-IsSpent :
    (w : Window) (n m : ℕ) → w.base ≤ n → bit_at w n ≡ 0 → IsSpent w m → IsSpent (marked w n) m
marked-IsSpent w n m h e (inl p) = inl p
marked-IsSpent w n m h e (inr (p, b)) =
    inr (p, bit_at-marked w n m h e p (λ q. ground (arith, ap (bit_at w) q)) ∙ b)

marked-lt :
    (w : Window) (n : ℕ)
    → IsValid w
    → w.base ≤ n
    → n < w.base + window_len
    → bit_at w n ≡ 0
    → (marked w n).seen < 2 ^ 32
marked-lt w n v h lt e = add_bit-lt 32 (n - w.base) w.seen v.word (omega arith) e

-- A number is clear of the top of the range if the window can slide past it without saturating.
abbrev pub IsClear : ℕ → Type 0
IsClear n = n + 128 ≤ u64_max

-- What `mark_seen` leaves behind when it accepts a number.
module _ (w : Window) (n : ℕ) (v : IsValid w) (clear : IsClear n) where
  accepted :
      (mark_seen w n).1 ≡ ok tt
      → (w.base ≤ n)
        × (n < w.base + window_len)
        × (bit_at w n ≡ 0)
        × ((k : ℕ) × (k ≤ 64) × ((mark_seen w n).0 ≡ moved k (marked w n)))
        × ((mark_seen w n).0.seen < 2 ^ 16)
        × ((mark_seen w n).0.seen % 2 ≡ 0)
  accepted h = elim (mark_seen_cases w n) [
    | inl (_, e) ↦ cc (ap (λ p. p.1) e, h)
    | inr (inl (_, e)) ↦ cc (ap (λ p. p.1) e, h)
    | inr (inr (inl (_, _, _, e))) ↦ cc (ap (λ p. p.1) e, h)
    | inr (inr (inr (ge, lt, unset, e))) ↦
        let (k, le, to, top, low) =
          settle_lem (marked w n) (marked-lt w n v ge lt unset) (omega (arith, v.room)) in
        (ge, lt, unset, (k, le, ap (λ p. p.0) e ∙ to), rw e top, rw e low)
  ]

  refused : (mark_seen w n).1 ≢ ok tt → (mark_seen w n).0 ≡ w
  refused h = elim (mark_seen_cases w n) [
    | inl (_, e) ↦ ap (λ p. p.0) e
    | inr (inl (_, e)) ↦ ap (λ p. p.0) e
    | inr (inr (inl (_, _, _, e))) ↦ ap (λ p. p.0) e
    | inr (inr (inr (_, _, _, e))) ↦ absurd (h (ap (λ p. p.1) e))
  ]

-- A number is accepted exactly when the window covers it and has not marked it.
pub mark_seen_iff :
    (w : Window) (n : ℕ)
    → ((mark_seen w n).1 ≡ ok tt)
      ↔ ((w.base ≤ n) × (n < w.base + window_len) × (is_seen w n ≡ false))
unfolding is_seen mark_seen
mark_seen_iff w n = (λ h. ground arith, λ h. ground arith)

mark_seen-IsValid : (w : Window) (n : ℕ) → IsValid w → IsClear n → IsValid (mark_seen w n).0
mark_seen-IsValid w n v clear = elim (Result-cases (mark_seen w n).1) [
  | inl h ↦
      let (ge, lt, _, (k, le, to), top, _) = accepted w n v clear h in
      record { word = omega arith; room = rw to (omega arith) }
  | inr h ↦ rw (refused w n v clear h) v
]

-- After an accepted number the top half of the window and its lowest place are unseen, and the window
-- has not moved back.
pub mark_seen_settles :
    (w : Window) (n : ℕ)
    → IsValid w
    → IsClear n
    → (mark_seen w n).1 ≡ ok tt
    → ((mark_seen w n).0.seen < 2 ^ 16)
      × ((mark_seen w n).0.seen % 2 ≡ 0)
      × (w.base ≤ (mark_seen w n).0.base)
mark_seen_settles w n v clear h =
    let (_, _, _, (k, _, to), top, low) = accepted w n v clear h in (top, low, rw to (omega arith))

accepted-IsSpent :
    (w : Window) (n : ℕ)
    → IsValid w
    → IsClear n
    → (mark_seen w n).1 ≡ ok tt
    → IsSpent (mark_seen w n).0 n
accepted-IsSpent w n v clear h =
    let (ge, _, unset, (k, _, to), _, _) = accepted w n v clear h in
    rw to (moved-IsSpent k (marked w n) n (inr (ge, add_bit_self (n - w.base) w.seen unset)))

mark_seen-IsSpent :
    (w : Window) (n m : ℕ) → IsValid w → IsClear n → IsSpent w m → IsSpent (mark_seen w n).0 m
mark_seen-IsSpent w n m v clear spent = elim (Result-cases (mark_seen w n).1) [
  | inl h ↦
      let (ge, _, unset, (k, _, to), _, _) = accepted w n v clear h in
      rw to (moved-IsSpent k (marked w n) m (marked-IsSpent w n m ge unset spent))
  | inr h ↦ rw (refused w n v clear h) spent
]

spent_refused : (w : Window) (n : ℕ) → IsSpent w n → (mark_seen w n).1 ≢ ok tt
spent_refused w n (inl h) p = absurd (omega (arith, ((mark_seen_iff w n).0 p).0))
spent_refused w n (inr (h, e)) p = elim (mark_seen_cases w n) [
  | inl (_, q) ↦ cc (ap (λ r. r.1) q, p)
  | inr (inl (_, q)) ↦ cc (ap (λ r. r.1) q, p)
  | inr (inr (inl (_, _, _, q))) ↦ cc (ap (λ r. r.1) q, p)
  | inr (inr (inr (_, _, unset, _))) ↦ absurd (omega arith)
]

-- A history of offered stream numbers.
abbrev pub offer : Window → List ℕ → Window
offer w [] = w
offer w (n ∷ ns) = offer (mark_seen w n).0 ns

offer-IsSpent :
    (w : Window) (m : ℕ) (ns : List ℕ)
    → IsValid w
    → All IsClear ns
    → IsSpent w m
    → IsSpent (offer w ns) m
offer-IsSpent w m [] v clear spent = spent
offer-IsSpent w m (n ∷ ns) v clear spent =
    offer-IsSpent (mark_seen w n).0 m ns (mark_seen-IsValid w n v clear.0) clear.1
      (mark_seen-IsSpent w n m v clear.0 spent)

-- A stream number that was accepted once is refused after any further history.
pub offer_no_replay :
    (w : Window) (n : ℕ) (ns : List ℕ)
    → IsValid w
    → All IsClear (n ∷ ns)
    → (mark_seen w n).1 ≡ ok tt
    → (mark_seen (offer w (n ∷ ns)) n).1 ≢ ok tt
offer_no_replay w n ns v clear h = spent_refused (offer w (n ∷ ns)) n (
    offer-IsSpent (mark_seen w n).0 n ns (mark_seen-IsValid w n v clear.0) clear.1
      (accepted-IsSpent w n v clear.0 h))

is_seen_lem :
    (w : Window) (m : ℕ) → w.seen < 2 ^ 32 → w.base ≤ m → is_seen w m ≡ not (bit_at w m == 0)
unfolding is_seen
is_seen_lem w m word ge = elim (dec_lt m (w.base + 32)) [
  | yes p ↦ ground (arith, is_set-bit w.seen (m - w.base))
  | no p ↦ ground (arith, no_bit 32 (m - w.base) w.seen word (omega arith))
]

-- Accepting a number marks it and nothing else: every number that the window has not passed reads
-- as it did before.
pub is_seen-mark_seen :
    (w : Window) (n m : ℕ)
    → IsValid w
    → IsClear n
    → (mark_seen w n).1 ≡ ok tt
    → (mark_seen w n).0.base ≤ m
    → is_seen (mark_seen w n).0 m ≡ (is_seen w m || m == n)
is_seen-mark_seen w n m v clear h above =
    let (ge, lt, unset, (k, le, to), top, _) = accepted w n v clear h in
    let base : (mark_seen w n).0.base ≡ w.base + k = ap (λ u. u.base) to in
    let up : w.base + k ≤ m = omega arith in
    let bits : bit_at (mark_seen w n).0 m ≡ bit_at (marked w n) m =
      ap (λ u. bit_at u m) to ∙ bit_at-moved k (marked w n) m up in
    rw
      (
        is_seen_lem (mark_seen w n).0 m (omega arith) above,
        is_seen_lem w m v.word (omega arith),
        bits,
      )
      (elim (ℕ_discrete m n) [
        | yes same ↦
            ground (arith, add_bit_self (n - w.base) w.seen unset, ap (bit_at (marked w n)) same)
        | no other ↦ ground (arith, bit_at-marked w n m ge unset (omega arith) other)
      ])
