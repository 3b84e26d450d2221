-- ===== src/Relay/Keys/Names.antt =====
-- crates/relay/src/lib.rs: a queue's name stands for one direction, relay and period.
use onestein.Base.{ℕ, ◌^◌, ◌<◌, ◌≡◌, refl, sym, ap, ◌∙◌, ◌≢◌, ◌⊎◌, inl, inr, [], arith, get_or}
use onestein.Base.Bytes.{Bytes, to_be, from_be, from_be-to_be_lt}
use onestein.Crypto.{hash, kdf}
use onestein.Crypto.Framing.{IsShort}
use onestein.Crypto.Collisions.{Collision, hash_binds}
use onestein.Relay.Keys.{
  Direction, a_to_b, b_to_a, queue_label, key_parts, derive_key, queue_id, queue_a_label,
  queue_b_label,
}

queue_label-IsShort : (direction : Direction) → IsShort (queue_label direction)
queue_label-IsShort a_to_b = omega arith
queue_label-IsShort b_to_a = omega arith

labels_differ : queue_a_label ≢ queue_b_label
labels_differ p =
    let last : get_or queue_a_label 25 0 ≡ get_or queue_b_label 25 0 = ap (λ l. get_or l 25 0) p in
    omega (arith, last)

queue_label_inj : (x y : Direction) → queue_label x ≡ queue_label y → x ≡ y
queue_label_inj a_to_b a_to_b h = refl
queue_label_inj a_to_b b_to_a h = absurd (labels_differ h)
queue_label_inj b_to_a a_to_b h = absurd (labels_differ (sym h))
queue_label_inj b_to_a b_to_a h = refl

-- Under one root key, queues of one name have one direction, relay and period, or two inputs of the keyed
-- hash with one result are at hand.
pub queue_id_binds :
    (keyed : Bytes → Bytes → Bytes) (root_key : Bytes) (x y : Direction) (relay relay' : Bytes)
    (period period' : ℕ)
    → IsShort relay
    → IsShort relay'
    → period < 2 ^ 64
    → period' < 2 ^ 64
    → queue_id keyed root_key x relay period ≡ queue_id keyed root_key y relay' period'
    → ((x ≡ y) × (relay ≡ relay') × (period ≡ period')) ⊎ Collision (keyed root_key)
unfolding queue_id derive_key kdf hash
queue_id_binds keyed root_key x y relay relay' period period' hr hr' hp hp' e =
    elim (hash_binds (keyed root_key) (key_parts (queue_label x) relay period)
      (key_parts (queue_label y) relay' period') (queue_label-IsShort x, (hr, (omega arith, tt)))
      (queue_label-IsShort y, (hr', (omega arith, tt))) e) [
        | inl same ↦
            let labels : queue_label x ≡ queue_label y = ap (λ l. get_or l 0 []) same in
            let relays : relay ≡ relay' = ap (λ l. get_or l 1 []) same in
            let digits : to_be 8 period ≡ to_be 8 period' = ap (λ l. get_or l 2 []) same in
            let periods : period ≡ period' =
              sym (from_be-to_be_lt 8 period hp)
              ∙ ap from_be digits
              ∙ from_be-to_be_lt 8 period' hp' in
            inl (queue_label_inj x y labels, relays, periods)
        | inr c ↦ inr c
      ]
