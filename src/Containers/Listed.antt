-- ===== src/Containers/Listed.antt =====
-- A set of strings as a list, to run the model and to show that the laws can hold.
use clustered_big_cache.Prelude.{
  ℕ, ◌≡◌, refl, List, [], ◌∷◌, Bool, true, false, if◌then◌else◌, arith,
}
use clustered_big_cache.Prelude.Keys.{key_eq, has_key, key_eq_iff}
use clustered_big_cache.Containers.{HashSet}

abbrev pub remove : List (List ℕ) → List ℕ → List (List ℕ)
remove [] k = []
remove (x ∷ xs) k = if key_eq x k then remove xs k else x ∷ remove xs k

abbrev pub is_empty : List (List ℕ) → Bool
is_empty [] = true
is_empty (x ∷ xs) = false

abbrev pub add : List (List ℕ) → List ℕ → List (List ℕ)
add s k = if has_key s k then s else k ∷ s

pub contains-add :
    (s : List (List ℕ)) (k j : List ℕ)
    → has_key (add s k) j ≡ (if key_eq k j then true else has_key s j)
contains-add s k j = ground (arith, key_eq_iff k j)

pub contains-remove :
    (s : List (List ℕ)) (k j : List ℕ)
    → has_key (remove s k) j ≡ (if key_eq k j then false else has_key s j)
contains-remove [] k j = ground arith
contains-remove (x ∷ xs) k j =
    ground (arith, key_eq_iff x k, key_eq_iff x j, key_eq_iff k j, contains-remove xs k j)

pub contains_is_empty : (s : List (List ℕ)) (k : List ℕ) → is_empty s ≡ true → has_key s k ≡ false
contains_is_empty [] k h = refl
contains_is_empty (x ∷ xs) k h = cc

abbrev pub listed : HashSet
listed = record {
  Set = List (List ℕ);
  empty = [];
  add = add;
  remove = remove;
  is_empty = is_empty;
  contains = has_key;
  values = λ s. s;
  contains-empty = λ k. refl;
  contains-add = contains-add;
  contains-remove = contains-remove;
  contains_is_empty = contains_is_empty;
  contains-values = λ s k. refl;
}
