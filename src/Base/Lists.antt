-- ===== src/Base/Lists.antt =====
-- Lists of numbers, with their lengths on the native numbers.
use Prim.Native.Nat.{ℕ, zero, suc, ◌+◌}
use mathlib.Core.Bool.{Bool, false, ◌||◌}
use libfat.Base.Tests.{◌==◌}
pub use mathlib.Core.List.{List, [], ◌∷◌}

abbrev pub length : List ℕ → ℕ
length [] = 0
length (x ∷ xs) = 1 + length xs

abbrev pub elem : ℕ → List ℕ → Bool
elem d [] = false
elem d (x ∷ xs) = (d == x) || elem d xs

abbrev pub take : ℕ → List ℕ → List ℕ
take zero xs = []
take (suc n) [] = []
take (suc n) (x ∷ xs) = x ∷ take n xs

abbrev pub drop : ℕ → List ℕ → List ℕ
drop zero xs = xs
drop (suc n) [] = []
drop (suc n) (x ∷ xs) = drop n xs

-- The last of `x ∷ xs`.
abbrev pub last_of : ℕ → List ℕ → ℕ
last_of x [] = x
last_of x (y ∷ ys) = last_of y ys
