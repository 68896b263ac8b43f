-- ===== src/Prelude/Text.antt =====
-- Text that the program only compares: equality, Python's order of `str`, and dictionary lookups.
use Prim.Native.Nat.{Ordering}
use Prim.Native.String.{String, compare}
use mathlib.Core.Bool.{Bool, true, false, ◌||◌}
use mathlib.Core.List.{List, [], ◌∷◌}
use mathlib.Core.Option.{Option, none, some}
use growth_operator.Prelude.Tests.{if◌then◌else◌}
pub use text.Mathlib.Text.{◌==◌ as str_eq}
pub use text.Mathlib.TextEquality.{eq_iff as str_eq_iff}
pub use text.Mathlib.TextPositions.{eq_refl as str_eq_refl}

-- `s in xs`
abbrev pub contains : String → List String → Bool
contains s [] = false
contains s (t ∷ ts) = str_eq s t || contains s ts

-- `d.get(k)`
abbrev pub lookup {ℓ} : {V : Type ℓ} → String → List (String × V) → Option V
lookup k [] = none
lookup k ((j, v) ∷ d) = if str_eq k j then some v else lookup k d

-- `s <= t`: lexicographic by code points
abbrev pub str_le : String → String → Bool
str_le s t = elim (compare s t) [ Ordering.gt ↦ false | _ ↦ true ]
