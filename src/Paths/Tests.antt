-- ===== src/Paths/Tests.antt =====
-- The theorems on library/filesystem/src/path/mod.rs at concrete inputs, and runs of the model.
use cos_rs.Base.{ℕ, ◌≡◌, refl, Bool, true, List, [], ◌∷◌, arith}
use cos_rs.Paths.{PathBuf, parsed, from_bytes, split, collect}
use cos_rs.Paths.Parse.{print, from_bytes-print}

abbrev all_utf8 : List ℕ → Bool
all_utf8 bytes = true

abbrev path : List (List ℕ) → PathBuf
path segments = record { segments = segments }

-- `a//b` has two segments.
from_bytes-double :
    from_bytes all_utf8 (0x61 ∷ 0x2f ∷ 0x2f ∷ 0x62 ∷ [])
    ≡ parsed (path ((0x61 ∷ []) ∷ (0x62 ∷ []) ∷ []))
unfolding from_bytes split collect
from_bytes-double = refl

from_bytes-a : from_bytes all_utf8 (0x61 ∷ []) ≡ parsed (path ((0x61 ∷ []) ∷ []))
unfolding from_bytes split collect
from_bytes-a = refl

from_bytes-print_example :
    from_bytes all_utf8 (print ((0x61 ∷ []) ∷ (0x62 ∷ 0x63 ∷ []) ∷ []))
    ≡ parsed (path ((0x61 ∷ []) ∷ (0x62 ∷ 0x63 ∷ []) ∷ []))
from_bytes-print_example =
    from_bytes-print all_utf8 ((0x61 ∷ []) ∷ (0x62 ∷ 0x63 ∷ []) ∷ [])
      ((refl, refl, omega arith), ((refl, refl, omega arith), tt))
