-- ===== src/Prelude/Assoc.antt =====
-- A Go `map[uint64]uint32` as the list of its pairs. A missing key reads as 0.
use clustered_big_cache.Prelude.Tests.{◌==◌, if◌then◌else◌}
use Prim.Native.Nat.{ℕ}
use mathlib.Core.Path.{◌≡◌, refl}
use mathlib.Core.List.{List, [], ◌∷◌}
use native.Mathlib.Omega.{arith}

-- `m[k]`
abbrev pub lookup : List (ℕ × ℕ) → ℕ → ℕ
lookup [] k = 0
lookup ((j, v) ∷ m) k = if j == k then v else lookup m k

-- `m[k] = v`
abbrev pub insert : List (ℕ × ℕ) → ℕ → ℕ → List (ℕ × ℕ)
insert [] k v = (k, v) ∷ []
insert ((j, w) ∷ m) k v = if j == k then (k, v) ∷ m else (j, w) ∷ insert m k v

-- `delete(m, k)`
abbrev pub erase : List (ℕ × ℕ) → ℕ → List (ℕ × ℕ)
erase [] k = []
erase ((j, w) ∷ m) k = if j == k then erase m k else (j, w) ∷ erase m k

pub lookup-insert :
    (m : List (ℕ × ℕ)) (k v j : ℕ) → lookup (insert m k v) j ≡ (if k == j then v else lookup m j)
lookup-insert [] k v j = refl
lookup-insert ((i, w) ∷ m) k v j = ground (arith, lookup-insert m k v j)

pub lookup-erase :
    (m : List (ℕ × ℕ)) (k j : ℕ) → lookup (erase m k) j ≡ (if k == j then 0 else lookup m j)
lookup-erase [] k j = ground arith
lookup-erase ((i, w) ∷ m) k j = ground (arith, lookup-erase m k j)
