-- ===== src/SliceList.antt =====
-- utils/sliceList.go: a map with a counter of its own. A `sync.Map` is the list of its pairs, in the order in
-- which `Range` visits them; its keys are strings here. A nil interface is `none`, and is never stored. The
-- counter is an `int32`, and is taken to stay in range.
pub mod Counting
pub mod Unique
use clustered_big_cache.Prelude.{
  ℕ, ◌+◌, ◌-◌, Bool, true, false, Option, none, some, List, [], ◌∷◌, if◌then◌else◌,
}
use clustered_big_cache.Prelude.Int.{ℤ, pos, negsuc, ◌-ℤ◌}
use clustered_big_cache.Prelude.Keys.{key_eq}

module _ {A : Type 0} where
  -- `Load`, `Store` and `Delete` of a `sync.Map`
  abbrev pub load : List (List ℕ × A) → List ℕ → Option A
  load [] key = none
  load ((k, v) ∷ items) key = if key_eq k key then some v else load items key

  abbrev pub store : List (List ℕ × A) → List ℕ → A → List (List ℕ × A)
  store [] key value = (key, value) ∷ []
  store ((k, v) ∷ items) key value =
      if key_eq k key then (k, value) ∷ items else (k, v) ∷ store items key value

  abbrev pub delete : List (List ℕ × A) → List ℕ → List (List ℕ × A)
  delete [] key = []
  delete ((k, v) ∷ items) key = if key_eq k key then items else (k, v) ∷ delete items key

module _ (A : Type 0) where
  pub record SliceList : Type 0 where
    pub items : List (List ℕ × A)
    pub size : ℤ

module _ {A : Type 0} where
  -- `NewSliceList`
  unfoldable pub new_slice_list : SliceList A
  new_slice_list = record { items = []; size = pos 0 }

  -- `Add`
  unfoldable pub add : SliceList A → (key : List ℕ) (value : Option A) → SliceList A
  add list key none = list
  add list key (some value) = record {
    items = store list.items key value;
    size = list.size -ℤ negsuc 0;
  }

  -- `Contains`
  unfoldable pub contains : SliceList A → List ℕ → Bool
  contains list key = elim (load list.items key) [ some v ↦ true | none ↦ false ]

  -- `Remove`
  unfoldable pub remove : SliceList A → List ℕ → SliceList A
  remove list key = elim (load list.items key) [
    | some v ↦ record { items = delete list.items key; size = list.size -ℤ pos 1 }
    | none ↦ list
  ]

  -- `Get`
  unfoldable pub get : SliceList A → List ℕ → Option A
  get list key = load list.items key

  unfoldable pub values_of : List (List ℕ × A) → List A
  values_of [] = []
  values_of ((k, v) ∷ items) = v ∷ values_of items

  -- `Values`
  unfoldable pub values : SliceList A → List A
  values list = values_of list.items
