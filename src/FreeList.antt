-- ===== src/FreeList.antt =====
-- bigcache/queue/freeList.go: the free blocks of a queue's array, in eight lists by size and in a tree
-- that holds the first and the last index of each.
-- An `*itemPos` is a number, its place in `heap`, so that the code's comparison of pointers and its
-- writes through them are those of the source. An `[8]posArray` is a function from the index.
pub mod Classes
pub mod Found
pub mod Buckets
pub mod Search
pub mod Merge
pub mod Tiling
pub mod Counts
pub mod Owned
pub mod Merging
pub mod Adding
pub mod Taking
use clustered_big_cache.Prelude.{
  ℕ, zero, suc, ◌+◌, ◌-◌, ◌*◌, Bool, true, false, List, [], ◌∷◌, ◌++◌, Option, none, some, ltb, leb,
  ◌==◌, if◌then◌else◌, length, get_or, set,
}
use clustered_big_cache.Containers.{OrderedMap}

pub record ItemPos : Type 0 where
  pub actual_size : ℕ
  pub parent_index : ℕ

abbrev pub nil_item : ItemPos
nil_item = record { actual_size = 0; parent_index = 0 }

-- `*p`, for a pointer that the code has made.
abbrev pub deref : List ItemPos → ℕ → ItemPos
deref heap p = get_or heap p nil_item

-- The array with one list replaced.
abbrev pub update : (ℕ → List ℕ) → ℕ → List ℕ → ℕ → List ℕ
update lists i l j = if i == j then l else lists j

-- The `switch` on a block's size that `putIntoSizeList` and `removeFromSizeList` share: the list
-- that it belongs to. No case holds for 4096.
unfoldable pub bucket : ℕ → Option ℕ
bucket n =
    if ltb n 64
    then some 0
    else if ltb n 128
    then some 1
    else if ltb n 256
    then some 2
    else if ltb n 512
    then some 3
    else if ltb n 1024
    then some 4
    else if ltb n 2048
    then some 5
    else if ltb n 4096
    then some 6
    else if ltb 4096 n
    then some 7
    else none

-- `listPos`: where a pointer stands, `none` for -1.
unfoldable pub list_pos : ℕ → List ℕ → Option ℕ
list_pos v [] = none
list_pos v (p ∷ arr) =
    let rest = list_pos v arr in
    if v == p then some 0 else elim rest [ none ↦ none | some x ↦ some (x + 1) ]

-- `copy(l[pos:], l[pos+1:]); l = l[:len(l)-1]`
abbrev pub remove_nth : List ℕ → ℕ → List ℕ
remove_nth [] pos = []
remove_nth (p ∷ l) zero = l
remove_nth (p ∷ l) (suc pos) = p ∷ remove_nth l pos

-- The `switch` of `find`: the list to begin with, and `buckSize`.
unfoldable pub find_start : ℕ → ℕ × ℕ
find_start n =
    if ltb n 64
    then (0, 64)
    else if ltb n 128
    then (1, 128)
    else if ltb n 256
    then (2, 256)
    else if ltb n 512
    then (3, 512)
    else if ltb n 1024
    then (4, 1024)
    else if ltb n 2048
    then (5, 2048)
    else if ltb n 4096
    then (6, 4096)
    else if ltb 4096 n
    then (7, 4097)
    else (0, 0)

-- The loop of `findInSizeList`: the first place `x` from `from` on whose block is large enough, and the
-- block there.
unfoldable pub scan : List ItemPos → ℕ → List ℕ → ℕ → Option (ℕ × ℕ)
scan heap size [] from = none
scan heap size (p ∷ arr) from =
    let rest = scan heap size arr (from + 1) in
    if leb size (deref heap p).actual_size then some (from, p) else rest

module _ (M : OrderedMap ℕ) where
  open M use {Tree, empty, get, put, remove}

  pub record FreeList : Type 0 where
    pub heap : List ItemPos
    pub size_list : ℕ → List ℕ
    pub index_tree : Tree

  -- `newFreeList`
  unfoldable pub new_free_list : FreeList
  new_free_list = record { heap = []; size_list = λ _. []; index_tree = empty }

  -- `removeFromSizeList`
  unfoldable pub remove_from_size_list : FreeList → ℕ → FreeList
  remove_from_size_list fl v = elim (bucket (deref fl.heap v).actual_size) [
    | none ↦ fl
    | some i ↦ elim (list_pos v (fl.size_list i)) [
      | none ↦ fl
      | some pos ↦ record fl { size_list = update fl.size_list i (remove_nth (fl.size_list i) pos) }
    ]
  ]

  -- `putIntoSizeList`
  unfoldable pub put_into_size_list : FreeList → ℕ → FreeList
  put_into_size_list fl p = elim (bucket (deref fl.heap p).actual_size) [
    | none ↦ fl
    | some i ↦ record fl { size_list = update fl.size_list i (fl.size_list i ++ (p ∷ [])) }
  ]

  -- `list.indexTree.Get(index - 1)`: no key is below zero.
  unfoldable pub get_left : Tree → ℕ → Option ℕ
  get_left t index = if index == 0 then none else get t (index - 1)

  -- The first `if` of `add`: the item so far, and the list without the block to its left.
  unfoldable pub merge_left : FreeList → ℕ → ℕ → ItemPos × FreeList
  merge_left fl index size = elim (get_left fl.index_tree index) [
    | none ↦ (record { actual_size = size; parent_index = index }, fl)
    | some p ↦
        let v = deref fl.heap p in
        (
          record { actual_size = v.actual_size + size; parent_index = v.parent_index },
          remove_from_size_list
              (record fl { index_tree = remove (remove fl.index_tree (index - 1)) v.parent_index })
              p,
        )
  ]

  -- The second `if` of `add`.
  unfoldable pub merge_right : FreeList → ItemPos → ℕ → ℕ → ItemPos × FreeList
  merge_right fl item index size = elim (get fl.index_tree (index + size)) [
    | none ↦ (item, fl)
    | some p ↦
        let v = deref fl.heap p in
        (
          record { actual_size = size + v.actual_size; parent_index = index },
          remove_from_size_list
              (record fl {
                index_tree =
                    remove (remove fl.index_tree (index + size))
                      (v.parent_index + v.actual_size - 1);
              })
              p,
        )
  ]

  -- The end of `add`: the item goes into the tree at both ends, and into its list.
  unfoldable pub store : FreeList → ItemPos → FreeList
  store fl item =
      let p = length fl.heap in
      put_into_size_list
        (record fl {
          heap = fl.heap ++ (item ∷ []);
          index_tree =
              put (put fl.index_tree item.parent_index p) (item.parent_index + item.actual_size - 1)
                p;
        })
        p

  -- `add`
  unfoldable pub add : FreeList → ℕ → ℕ → FreeList
  add fl index size =
      let (item, fl₁) = merge_left fl index size in
      let (item₂, fl₂) = merge_right fl₁ item index size in store fl₂ item₂

  -- What `findInSizeList` does with the block `tmp` that it has found at place `x` of list `idx`.
  unfoldable pub take_block : FreeList → (idx size buck_size x tmp : ℕ) → ℕ × FreeList
  take_block fl idx size buck_size x tmp =
      let v = deref fl.heap tmp in
      let tree = remove fl.index_tree v.parent_index in
      let shorter = update fl.size_list idx (remove_nth (fl.size_list idx) x) in
      if size == v.actual_size
      then (
        v.parent_index,
        record fl {
          size_list = shorter;
          index_tree = remove tree (v.actual_size + v.parent_index - 1);
        },
      )
      else if leb buck_size (v.actual_size - size)
      then (
        v.parent_index,
        record fl {
          heap =
              set fl.heap tmp (record {
                actual_size = v.actual_size - size;
                parent_index = v.parent_index + size;
              });
          index_tree = put tree (v.parent_index + size) tmp;
        },
      )
      else (
        v.parent_index,
        add
            (record fl {
              size_list = shorter;
              index_tree = remove tree (v.parent_index + v.actual_size - 1);
            })
            (v.parent_index + size) (v.actual_size - size),
      )

  -- `findInSizeList`
  unfoldable pub find_in_size_list : FreeList → (idx size buck_size : ℕ) → Option (ℕ × FreeList)
  find_in_size_list fl idx size buck_size = elim (scan fl.heap size (fl.size_list idx) 0) [
    | none ↦ none
    | some (x, tmp) ↦ some (take_block fl idx size buck_size x tmp)
  ]

  -- The loop of `find`, with `rounds` for `8 - idx`.
  unfoldable pub find_from :
      (rounds : ℕ) → FreeList → (idx size buck_size : ℕ) → Option (ℕ × FreeList)
  find_from zero fl idx size buck_size = none
  find_from (suc rounds) fl idx size buck_size =
      let rest = find_from rounds fl (idx + 1) size (if ltb idx 6 then buck_size * 2 else 4097) in
      elim (find_in_size_list fl idx size buck_size) [ none ↦ rest | some found ↦ some found ]

  -- `find`: the index of a block that is cut off the list, `none` for -1.
  unfoldable pub find : FreeList → ℕ → Option (ℕ × FreeList)
  find fl size =
      let (index, buck_size) = find_start size in find_from (8 - index) fl index size buck_size
