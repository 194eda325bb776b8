-- ===== src/Base/Text.antt =====
-- Texts of ASCII characters as bytes.
use Prim.Native.Char.{code}
use Prim.Native.Nat.{ℕ}
use Prim.Native.String.{String, [] as []ˢ, ◌∷◌ as ◌∷ˢ◌}
use mathlib.Core.List.{List, [], ◌∷◌}

unfoldable pub ascii : String → List ℕ
ascii []ˢ = []
ascii (c ∷ˢ text) = code c ∷ ascii text
