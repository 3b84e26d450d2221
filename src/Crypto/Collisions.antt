-- ===== src/Crypto/Collisions.antt =====
-- crates/crypto: what a hash over several parts binds. Two inputs of the hash function with one hash are
-- a collision.
use onestein.Base.{
  ◌≡◌, subst, ◌≢◌, ◌⊎◌, inl, inr, true, List, Bool-cases, All, bytes_eq, bytes_eq_refl, bytes_eq→eq,
}
use onestein.Base.Bytes.{Bytes}
use onestein.Crypto.{frame, hash}
use onestein.Crypto.Framing.{IsShort, frame_inj}

abbrev pub Collision : (Bytes → Bytes) → Type 0
Collision blake2b = (x : Bytes) × (y : Bytes) × (x ≢ y) × (blake2b x ≡ blake2b y)

-- Equal hashes come from equal parts, or a collision is at hand.
pub hash_binds :
    (blake2b : Bytes → Bytes) (xs ys : List Bytes)
    → All IsShort xs
    → All IsShort ys
    → hash blake2b xs ≡ hash blake2b ys
    → (xs ≡ ys) ⊎ Collision blake2b
unfolding hash
hash_binds blake2b xs ys hx hy e = elim (Bool-cases (bytes_eq (frame xs) (frame ys))) [
  | inl same ↦ inl (frame_inj xs ys hx hy (bytes_eq→eq (frame xs) (frame ys) same))
  | inr other ↦
      let differ : frame xs ≢ frame ys = λ p.
        let alike : bytes_eq (frame xs) (frame ys) ≡ true =
          subst (λ t. bytes_eq (frame xs) t ≡ true) p (bytes_eq_refl (frame xs)) in
        cc in
      inr (frame xs, frame ys, differ, e)
]
