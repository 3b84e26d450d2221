-- ===== src/Tests/CryptoRuns.antt =====
-- crates/crypto at concrete parts.
use onestein.Base.{◌≡◌, refl, [], ◌∷◌}
use onestein.Crypto.{frame}

run_frame : frame ((7 ∷ 8 ∷ []) ∷ [] ∷ []) ≡ 0 ∷ 0 ∷ 0 ∷ 2 ∷ 7 ∷ 8 ∷ 0 ∷ 0 ∷ 0 ∷ 0 ∷ []
unfolding frame
run_frame = refl
