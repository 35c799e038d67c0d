-- ===== src/Examples/Lists.antt =====
-- bigcache/queue/freeList.go on small free lists.
use clustered_big_cache.Prelude.{
  ℕ, ◌+◌, ◌-◌, ◌<◌, ◌≡◌, ◌≢◌, ◌⊎◌, ◌∙◌, inl, inr, sym, none≢some, refl, Option, some, none, arith,
  length,
}
use clustered_big_cache.Containers.Dense.{dense}
use clustered_big_cache.FreeList.{
  FreeList, deref, find, find_from, find_start, find_in_size_list, scan, add, store,
  put_into_size_list, bucket, merge_right, merge_left, get_left, new_free_list, take_block,
}
use clustered_big_cache.FreeList.Buckets.{HasClasses, new_free_list-HasClasses, add-HasClasses}
use clustered_big_cache.FreeList.Owned.{IsOwned, IsFree, new_free_list-IsOwned}
use clustered_big_cache.FreeList.Merging.{IsNew}
use clustered_big_cache.FreeList.Adding.{add-IsOwned}
use clustered_big_cache.FreeList.Taking.{IsTaken, find-IsTaken}
use clustered_big_cache.FreeList.Search.{HasRoom, find_exhaustive}
use clustered_big_cache.FreeList.Merge.{IsRecorded, add_both}

abbrev empty : FreeList (dense ℕ)
empty = new_free_list (dense ℕ)

nothing-IsFree : (x : ℕ) → ¬ IsFree (dense ℕ) empty x
unfolding new_free_list
nothing-IsFree x (k, p, e, _) = none≢some (sym ((dense ℕ).get-empty k) ∙ e)

abbrev one : FreeList (dense ℕ)
one = add (dense ℕ) empty 100 40

one-HasClasses : HasClasses (dense ℕ) one
one-HasClasses = add-HasClasses (dense ℕ) empty 100 40 (new_free_list-HasClasses (dense ℕ))

add-IsOwned_empty :
    IsOwned (dense ℕ) one
    × ((x : ℕ) → IsNew 100 40 x → IsFree (dense ℕ) one x)
    × ((x : ℕ) → IsFree (dense ℕ) one x → IsFree (dense ℕ) empty x ⊎ IsNew 100 40 x)
add-IsOwned_empty =
    add-IsOwned (dense ℕ) empty 100 40 (new_free_list-IsOwned (dense ℕ)) (omega arith)
      (λ x _ f. nothing-IsFree x f)

only_one : (x : ℕ) → IsFree (dense ℕ) one x → IsNew 100 40 x
only_one x f = elim (add-IsOwned_empty.2 x f) [ inl g ↦ absurd (nothing-IsFree x g) | inr n ↦ n ]

below_one : (x : ℕ) → IsNew 60 40 x → ¬ IsFree (dense ℕ) one x
below_one x (a, b) f = let (c, d) = only_one x f in omega arith

-- The two blocks are merged.
add-IsOwned_example :
    IsOwned (dense ℕ) (add (dense ℕ) one 60 40)
    × ((x : ℕ) → IsNew 60 40 x → IsFree (dense ℕ) (add (dense ℕ) one 60 40) x)
    × ((x : ℕ)
        → IsFree (dense ℕ) (add (dense ℕ) one 60 40) x
        → IsFree (dense ℕ) one x ⊎ IsNew 60 40 x)
add-IsOwned_example = add-IsOwned (dense ℕ) one 60 40 add-IsOwned_empty.0 (omega arith) below_one

abbrev rest_of : Option (ℕ × FreeList (dense ℕ)) → FreeList (dense ℕ)
rest_of none = new_free_list (dense ℕ)
rest_of (some (i, fl)) = fl

one_found : find (dense ℕ) one 7 ≡ some (100, rest_of (find (dense ℕ) one 7))
unfolding find find_from find_start find_in_size_list scan add store put_into_size_list bucket
    merge_right merge_left get_left new_free_list take_block
one_found = refl

find-IsTaken_example : IsTaken (dense ℕ) one 7 (100, rest_of (find (dense ℕ) one 7))
find-IsTaken_example =
    find-IsTaken (dense ℕ) one (rest_of (find (dense ℕ) one 7)) 7 100 add-IsOwned_empty.0
      (omega arith) one_found

find_exhaustive_example :
    ((fl' : FreeList (dense ℕ)) (index : ℕ)
      → find (dense ℕ) one 7 ≡ some (index, fl')
      → HasRoom (dense ℕ) one 7 index)
    × ((index : ℕ) → HasRoom (dense ℕ) one 7 index → find (dense ℕ) one 7 ≢ none)
find_exhaustive_example = find_exhaustive (dense ℕ) one 7 one-HasClasses

abbrev two : FreeList (dense ℕ)
two = add (dense ℕ) one 160 30

before_none : get_left (dense ℕ) one.index_tree 80 ≡ none
unfolding add store put_into_size_list bucket merge_right merge_left get_left new_free_list
before_none = refl

behind_one : (dense ℕ).get one.index_tree 100 ≡ some 0
unfolding add store put_into_size_list bucket merge_right merge_left get_left new_free_list
behind_one = refl

left_one : get_left (dense ℕ) two.index_tree 140 ≡ some 0
unfolding add store put_into_size_list bucket merge_right merge_left get_left new_free_list
left_one = refl

left_starts : (deref two.heap 0).parent_index < 140
unfolding add store put_into_size_list bucket merge_right merge_left get_left new_free_list
left_starts = omega arith

right_one : (dense ℕ).get two.index_tree 160 ≡ some 1
unfolding add store put_into_size_list bucket merge_right merge_left get_left new_free_list
right_one = refl

add_both_example :
    IsRecorded
      (dense ℕ)
      (add (dense ℕ) two 140 20)
      (length two.heap)
      (record { actual_size = 20 + (deref two.heap 1).actual_size; parent_index = 140 })
    × ((dense ℕ).get (add (dense ℕ) two 140 20).index_tree (deref two.heap 0).parent_index ≡ none)
    × ((dense ℕ).get (add (dense ℕ) two 140 20).index_tree (140 - 1) ≡ none)
add_both_example = add_both (dense ℕ) two 140 20 0 1 left_one left_starts (omega arith) right_one
