-- ===== src/Containers/Dense.antt =====
-- An ordered map as the list of its slots, to run the model and to show that the laws can hold.
use clustered_big_cache.Prelude.{
  ℕ, zero, suc, ◌+◌, ◌≤◌, ◌≡◌, refl, List, [], ◌∷◌, Option, none, some, ◌==◌, if◌then◌else◌, arith,
}
use clustered_big_cache.Containers.{OrderedMap}

module _ {V : Type 0} where
  abbrev pub get : List (Option V) → ℕ → Option V
  get [] k = none
  get (x ∷ xs) zero = x
  get (x ∷ xs) (suc k) = get xs k

  abbrev pub put : List (Option V) → ℕ → V → List (Option V)
  put [] zero v = some v ∷ []
  put [] (suc k) v = none ∷ put [] k v
  put (x ∷ xs) zero v = some v ∷ xs
  put (x ∷ xs) (suc k) v = x ∷ put xs k v

  abbrev pub remove : List (Option V) → ℕ → List (Option V)
  remove [] k = []
  remove (x ∷ xs) zero = none ∷ xs
  remove (x ∷ xs) (suc k) = x ∷ remove xs k

  abbrev pub size : List (Option V) → ℕ
  size [] = 0
  size (none ∷ xs) = size xs
  size (some v ∷ xs) = suc (size xs)

  abbrev pub first_from : ℕ → List (Option V) → Option (ℕ × V)
  first_from i [] = none
  first_from i (none ∷ xs) = first_from (i + 1) xs
  first_from i (some v ∷ xs) = some (i, v)

  abbrev pub first : List (Option V) → Option (ℕ × V)
  first = first_from 0

  pub get-put :
      (t : List (Option V)) (k j : ℕ) (v : V)
      → get (put t k v) j ≡ (if k == j then some v else get t j)
  get-put [] zero zero v = refl
  get-put [] zero (suc j) v = ground arith
  get-put [] (suc k) zero v = ground arith
  get-put [] (suc k) (suc j) v = ground (arith, get-put [] k j v)
  get-put (x ∷ xs) zero zero v = refl
  get-put (x ∷ xs) zero (suc j) v = ground arith
  get-put (x ∷ xs) (suc k) zero v = ground arith
  get-put (x ∷ xs) (suc k) (suc j) v = ground (arith, get-put xs k j v)

  pub get-remove :
      (t : List (Option V)) (k j : ℕ) → get (remove t k) j ≡ (if k == j then none else get t j)
  get-remove [] k j = ground arith
  get-remove (x ∷ xs) zero zero = refl
  get-remove (x ∷ xs) zero (suc j) = ground arith
  get-remove (x ∷ xs) (suc k) zero = ground arith
  get-remove (x ∷ xs) (suc k) (suc j) = ground (arith, get-remove xs k j)

  pub size-put_new :
      (t : List (Option V)) (k : ℕ) (v : V) → get t k ≡ none → size (put t k v) ≡ size t + 1
  size-put_new [] zero v h = omega arith
  size-put_new [] (suc k) v h = omega (arith, size-put_new [] k v h)
  size-put_new (none ∷ xs) zero v h = omega arith
  size-put_new (some x ∷ xs) zero v h = cc
  size-put_new (none ∷ xs) (suc k) v h = omega (arith, size-put_new xs k v h)
  size-put_new (some x ∷ xs) (suc k) v h = omega (arith, size-put_new xs k v h)

  pub size-remove :
      (t : List (Option V)) (k : ℕ) {v : V} → get t k ≡ some v → size (remove t k) + 1 ≡ size t
  size-remove [] k h = cc
  size-remove (none ∷ xs) zero h = cc
  size-remove (some x ∷ xs) zero h = omega arith
  size-remove (none ∷ xs) (suc k) h = omega (arith, size-remove xs k h)
  size-remove (some x ∷ xs) (suc k) h = omega (arith, size-remove xs k h)

  pub first_none : (i : ℕ) (t : List (Option V)) (k : ℕ) → first_from i t ≡ none → get t k ≡ none
  first_none i [] k h = refl
  first_none i (none ∷ xs) zero h = refl
  first_none i (none ∷ xs) (suc k) h = first_none (i + 1) xs k h
  first_none i (some x ∷ xs) k h = cc

  -- The first slot in use, counted from `i`.
  First : ℕ → List (Option V) → ℕ → V → Type 0
  First i t k v =
      (n : ℕ) × (k ≡ i + n) × (get t n ≡ some v) × ((j : ℕ) (w : V) → get t j ≡ some w → n ≤ j)

  first_from-First :
      (i : ℕ) (t : List (Option V)) {k : ℕ} {v : V} → first_from i t ≡ some (k, v) → First i t k v
  unfolding First
  first_from-First i [] h = cc
  first_from-First i (some x ∷ xs) h = (0, ground arith, ground arith, λ j w e. omega arith)
  first_from-First i (none ∷ xs) {k} {v} h =
      let (n, e, g, least) = first_from-First (i + 1) xs h in
      (suc n, omega arith, g, λ j w. later n least j w)
    where
      later :
          (n : ℕ)
          → ((j : ℕ) (w : V) → get xs j ≡ some w → n ≤ j)
          → (j : ℕ) (w : V) → get (none ∷ xs) j ≡ some w
          → suc n ≤ j
      later n least zero w p = cc
      later n least (suc j) w p = omega (arith, least j w p)

  pub first_get : (t : List (Option V)) {k : ℕ} {v : V} → first t ≡ some (k, v) → get t k ≡ some v
  unfolding First
  first_get t {k} {v} h = let (n, e, g, least) = first_from-First 0 t h in ground (arith, e, g)

  pub first_least :
      (t : List (Option V)) {k j : ℕ} {v w : V} → first t ≡ some (k, v) → get t j ≡ some w → k ≤ j
  unfolding First
  first_least t {k} {j} {v} {w} h p =
      let (n, e, g, least) = first_from-First 0 t h in omega (arith, least j w p)

abbrev pub dense : (V : Type 0) → OrderedMap V
dense V = record {
  Tree = List (Option V);
  empty = [];
  get = get;
  put = put;
  remove = remove;
  size = size;
  first = first;
  get-empty = λ k. refl;
  get-put = get-put;
  get-remove = get-remove;
  size-empty = refl;
  size-put_new = size-put_new;
  size-remove = λ t k h. size-remove t k h;
  first_none = λ t k h. first_none 0 t k h;
  first_get = λ t h. first_get t h;
  first_least = λ t h p. first_least t h p;
}
