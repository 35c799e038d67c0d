-- ===== src/Prelude/Keys.antt =====
-- Cache keys: Go strings, as the lists of their bytes.
use clustered_big_cache.Prelude.Tests.{◌==◌, ==→eq, Bool-cases}
use Prim.Native.Nat.{ℕ}
use mathlib.Core.Path.{◌≡◌, refl, ap₂, subst}
use mathlib.Core.Logic.{◌↔◌, inl, inr}
use mathlib.Core.Bool.{Bool, true, false, ◌&&◌}
use mathlib.Core.List.{List, [], ◌∷◌}
use native.Mathlib.Omega.{arith}

-- `a == b` on strings
abbrev pub key_eq : List ℕ → List ℕ → Bool
key_eq [] [] = true
key_eq [] (y ∷ ys) = false
key_eq (x ∷ xs) [] = false
key_eq (x ∷ xs) (y ∷ ys) = (x == y) && key_eq xs ys

pub key_eq→eq : (a b : List ℕ) → key_eq a b ≡ true → a ≡ b
key_eq→eq [] [] h = refl
key_eq→eq [] (y ∷ ys) h = cc
key_eq→eq (x ∷ xs) [] h = cc
key_eq→eq (x ∷ xs) (y ∷ ys) h = ap₂ ◌∷◌ (==→eq x y (ground arith)) (key_eq→eq xs ys (ground arith))

pub key_eq_self : (a : List ℕ) → key_eq a a ≡ true
key_eq_self [] = refl
key_eq_self (x ∷ xs) = ground (arith, key_eq_self xs)

abbrev pub has_key : List (List ℕ) → List ℕ → Bool
has_key [] k = false
has_key (x ∷ xs) k = elim (key_eq x k) [ true ↦ true | false ↦ has_key xs k ]

pub key_eq_iff : (a b : List ℕ) → (key_eq a b ≡ true) ↔ (a ≡ b)
key_eq_iff a b = (key_eq→eq a b, λ e. subst (λ c. key_eq a c ≡ true) e (key_eq_self a))

-- Equal keys compare alike.
pub key_eq_same : (a b c : List ℕ) → key_eq a b ≡ true → key_eq a c ≡ key_eq b c
key_eq_same a b c h = subst (λ x. key_eq a c ≡ key_eq x c) (key_eq→eq a b h) refl

pub key_eq_same_right : (a b c : List ℕ) → key_eq b c ≡ true → key_eq a b ≡ key_eq a c
key_eq_same_right a b c h = subst (λ x. key_eq a b ≡ key_eq a x) (key_eq→eq b c h) refl

pub ne→key_eq : (a b : List ℕ) → ¬ (a ≡ b) → key_eq a b ≡ false
ne→key_eq a b h = elim (Bool-cases (key_eq a b)) [
  | inl e ↦ absurd (h (key_eq→eq a b e))
  | inr e ↦ e
]

pub key_eq_apart : (a b : List ℕ) → key_eq a b ≡ false → key_eq b a ≡ false
key_eq_apart a b h = elim (Bool-cases (key_eq b a)) [
  | inl e ↦ ground (arith, key_eq_same b a b e, key_eq_self b)
  | inr e ↦ e
]
