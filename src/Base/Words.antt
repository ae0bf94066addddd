-- ===== src/Base/Words.antt =====
-- Numbers from their bytes.
use Prim.Native.Nat.{ℕ, ◌+◌, ◌*◌}
use mathlib.Core.List.{List, [], ◌∷◌}

-- `from_le_bytes`: the least significant byte comes first.
unfoldable pub from_le : List ℕ → ℕ
from_le [] = 0
from_le (b ∷ bs) = b + 256 * from_le bs
