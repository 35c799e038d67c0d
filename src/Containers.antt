-- ===== src/Containers.antt =====
-- What the code asks of the third-party containers of github.com/emirpasic/gods.
pub mod Dense
pub mod Listed
use clustered_big_cache.Prelude.Keys.{key_eq, has_key}
use clustered_big_cache.Prelude.{
  ℕ, ◌+◌, ◌≤◌, ◌≡◌, Option, none, some, ◌==◌, if◌then◌else◌, Bool, true, false, List, [], ◌∷◌,
}

-- trees/avltree under an order of numbers (`utils.IntComparator` or `utils.UInt64Comparator`): `Get`,
-- `Put`, `Remove`, `Size`, and what `Iterator` shows after its first `Next`. `NewWith` and `Clear`
-- give `empty`. The laws are the documented behaviour of an ordered map.
pub record OrderedMap (V : Type 0) : Type 1 where
  pub Tree : Type 0
  pub empty : Tree
  pub get : Tree → ℕ → Option V
  pub put : Tree → ℕ → V → Tree
  pub remove : Tree → ℕ → Tree
  pub size : Tree → ℕ
  pub first : Tree → Option (ℕ × V)
  pub get-empty : (k : ℕ) → get empty k ≡ none
  pub get-put :
      (t : Tree) (k j : ℕ) (v : V) → get (put t k v) j ≡ (if k == j then some v else get t j)
  pub get-remove : (t : Tree) (k j : ℕ) → get (remove t k) j ≡ (if k == j then none else get t j)
  pub size-empty : size empty ≡ 0
  pub size-put_new : (t : Tree) (k : ℕ) (v : V) → get t k ≡ none → size (put t k v) ≡ size t + 1
  pub size-remove : (t : Tree) (k : ℕ) {v : V} → get t k ≡ some v → size (remove t k) + 1 ≡ size t
  pub first_none : (t : Tree) (k : ℕ) → first t ≡ none → get t k ≡ none
  pub first_get : (t : Tree) {k : ℕ} {v : V} → first t ≡ some (k, v) → get t k ≡ some v
  pub first_least :
      (t : Tree) {k j : ℕ} {v w : V} → first t ≡ some (k, v) → get t j ≡ some w → k ≤ j

-- sets/hashset of strings: `New`, `Add`, `Remove`, `Empty`, `Contains` and `Values`, whose order is not
-- specified.
pub record HashSet : Type 1 where
  pub Set : Type 0
  pub empty : Set
  pub add : Set → List ℕ → Set
  pub remove : Set → List ℕ → Set
  pub is_empty : Set → Bool
  pub contains : Set → List ℕ → Bool
  pub values : Set → List (List ℕ)
  pub contains-empty : (k : List ℕ) → contains empty k ≡ false
  pub contains-add :
      (s : Set) (k j : List ℕ) → contains (add s k) j ≡ (if key_eq k j then true else contains s j)
  pub contains-remove :
      (s : Set) (k j : List ℕ)
      → contains (remove s k) j ≡ (if key_eq k j then false else contains s j)
  pub contains_is_empty : (s : Set) (k : List ℕ) → is_empty s ≡ true → contains s k ≡ false
  pub contains-values : (s : Set) (k : List ℕ) → has_key (values s) k ≡ contains s k
