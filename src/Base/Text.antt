-- ===== src/Base/Text.antt =====
-- Byte string literals of the source, `b"..."`, which are ASCII throughout, and which lists are bytes.
use Prim.Native.Char.{code}
use Prim.Native.String.{String}
use mathlib.Core.List.{[], ◌∷◌}
use onestein.Base.Bytes.{Bytes, IsByte}
use onestein.Base.Lists.{All}
use onestein.Base.Tests.{ltb, ltb→lt}
use mathlib.Core.Path.{◌≡◌}
use mathlib.Core.Bool.{Bool, true, ◌&&◌}
use native.Mathlib.Omega.{arith}

abbrev pub ascii : String → Bytes
ascii String.[] = []
ascii (String.◌∷◌ letter letters) = code letter ∷ ascii letters

abbrev pub are_bytes : Bytes → Bool
are_bytes [] = true
are_bytes (b ∷ bs) = ltb b 256 && are_bytes bs

pub are_bytes→IsByte : (bs : Bytes) → are_bytes bs ≡ true → All IsByte bs
are_bytes→IsByte [] h = tt
are_bytes→IsByte (b ∷ bs) h =
    let (here, later) : (ltb b 256 ≡ true) × (are_bytes bs ≡ true) = ground arith in
    (ltb→lt b 256 here, are_bytes→IsByte bs later)
