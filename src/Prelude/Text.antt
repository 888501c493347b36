-- ===== src/Prelude/Text.antt =====
-- Texts of the source as arrays of their character codes.
use Prim.Native.Nat.{ℕ}
use Prim.Native.Char.{code}
pub use Prim.Native.String.{String}
use mathlib.Core.List.{List, [], ◌∷◌}

-- A string literal without its terminator; every literal of the source is ASCII.
abbrev pub codes : String → List ℕ
codes String.[] = []
codes (String.◌∷◌ c s) = code c ∷ codes s
