-- ===== src/Transport/Window/Expected.antt =====
-- crates/transport/src/window.rs: the tags that a window would recognise.
use onestein.Base.{
  ℕ, zero, suc, ◌+◌, ◌-◌, ◌≤◌, ◌<◌, ◌≡◌, ap, ◌∙◌, some, List, [], ◌∷◌, arith, get_elem?, ok,
}
use onestein.Base.Bytes.{Bytes}
use onestein.Base.Words.{saturating_add, u64_max}
use onestein.Transport.Keys.{tag}
use onestein.Transport.Window.{Window, window_len, mark_seen}
use onestein.Transport.Window.Replay.{mark_seen_iff}

module _ (keyed : Bytes → Bytes → Bytes) (tag_key : Bytes) where
  -- `(first..first + count).map(..)`.
  abbrev pub tagged : ℕ → ℕ → List (ℕ × Bytes)
  tagged zero first = []
  tagged (suc count) first = (first, tag keyed tag_key first) ∷ tagged count (first + 1)

  unfoldable pub expected : Window → List (ℕ × Bytes)
  expected w = tagged (saturating_add w.base window_len - w.base) w.base

  get_elem?-tagged :
      (count first k : ℕ)
      → k < count
      → get_elem? (tagged count first) k ≡ some (first + k, tag keyed tag_key (first + k))
  get_elem?-tagged zero first k lt = absurd (omega arith)
  get_elem?-tagged (suc count) first zero lt =
      let same : first ≡ first + 0 = omega arith in ap (λ n. some (n, tag keyed tag_key n)) same
  get_elem?-tagged (suc count) first (suc k) lt =
      let same : first + 1 + k ≡ first + suc k = omega arith in
      get_elem?-tagged count (first + 1) k (omega (arith, lt))
      ∙ ap (λ n. some (n, tag keyed tag_key n)) same

  -- Below the top of the range, every number that the window accepts is one that it told the caller to
  -- expect, with its tag.
  pub expected-mark_seen :
      (w : Window) (n : ℕ)
      → w.base + window_len ≤ u64_max
      → (mark_seen w n).1 ≡ ok tt
      → get_elem? (expected w) (n - w.base) ≡ some (n, tag keyed tag_key n)
  unfolding expected
  expected-mark_seen w n room h =
      let (ge, lt, _) = (mark_seen_iff w n).0 h in
      let whole : saturating_add w.base window_len - w.base ≡ 32 = omega (arith, room) in
      let back : w.base + (n - w.base) ≡ n = omega (arith, ge) in
      rw whole (
        get_elem?-tagged 32 w.base (n - w.base) (omega (arith, ge, lt))
        ∙ ap (λ k. some (k, tag keyed tag_key k)) back)
