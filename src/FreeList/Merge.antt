-- ===== src/FreeList/Merge.antt =====
-- Which block `add` records, with no free neighbour, with one, and with two.
use clustered_big_cache.Prelude.{
  ℕ, ◌+◌, ◌-◌, ◌<◌, ◌≡◌, ◌≢◌, refl, ap, ◌∙◌, ◌⊎◌, inl, inr, subst, subst₂, some, none, arith, ne→==,
  if_same, ==_self, length, get_or-append_end,
}
use clustered_big_cache.Containers.{OrderedMap}
use clustered_big_cache.FreeList.{
  ItemPos, deref, nil_item, FreeList, get_left, remove_from_size_list, put_into_size_list,
  merge_left, merge_right, store, add,
}
use clustered_big_cache.FreeList.Buckets.{remove_from_size_list_cases, put_into_size_list_cases}

module _ (M : OrderedMap ℕ) where
  -- `p` is the block `item`, and the tree has it at both ends.
  abbrev pub IsRecorded : FreeList M → ℕ → ItemPos → Type 0
  IsRecorded fl p item =
      (deref fl.heap p ≡ item)
      × (M.get fl.index_tree item.parent_index ≡ some p)
      × (M.get fl.index_tree (item.parent_index + item.actual_size - 1) ≡ some p)

  heap-remove : (fl : FreeList M) (v : ℕ) → (remove_from_size_list M fl v).heap ≡ fl.heap
  heap-remove fl v = remove_from_size_list_cases M (λ f. f.heap ≡ fl.heap) fl v refl (λ i pos. refl)

  tree-remove :
      (fl : FreeList M) (v : ℕ) → (remove_from_size_list M fl v).index_tree ≡ fl.index_tree
  tree-remove fl v =
      remove_from_size_list_cases M (λ f. f.index_tree ≡ fl.index_tree) fl v refl (λ i pos. refl)

  heap-put : (fl : FreeList M) (v : ℕ) → (put_into_size_list M fl v).heap ≡ fl.heap
  heap-put fl v = put_into_size_list_cases M (λ f. f.heap ≡ fl.heap) fl v (λ e. refl) (λ i e. refl)

  tree-put : (fl : FreeList M) (v : ℕ) → (put_into_size_list M fl v).index_tree ≡ fl.index_tree
  tree-put fl v =
      put_into_size_list_cases M (λ f. f.index_tree ≡ fl.index_tree) fl v (λ e. refl) (λ i e. refl)

  store-IsRecorded :
      (fl : FreeList M) (item : ItemPos) → IsRecorded (store M fl item) (length fl.heap) item
  unfolding store
  store-IsRecorded fl item = (
    rw heap-put (get_or-append_end fl.heap item nil_item),
    rw (tree-put, M.get-put, M.get-put, ==_self) (if_same _ (some (length fl.heap))),
    rw (tree-put, M.get-put, ==_self),
  )

  get-store :
      (fl : FreeList M) (item : ItemPos) (k : ℕ)
      → item.parent_index ≢ k
      → item.parent_index + item.actual_size - 1 ≢ k
      → M.get (store M fl item).index_tree k ≡ M.get fl.index_tree k
  unfolding store
  get-store fl item k a b = rw (tree-put, M.get-put, M.get-put, ne→== _ _ a, ne→== _ _ b)

  left_none :
      (fl : FreeList M) (index size : ℕ)
      → get_left M fl.index_tree index ≡ none
      → merge_left M fl index size ≡ (record { actual_size = size; parent_index = index }, fl)
  unfolding merge_left
  left_none fl index size e = rw (e, merge_left)

  left_some :
      (fl : FreeList M) (index size : ℕ) {p : ℕ}
      → get_left M fl.index_tree index ≡ some p
      → merge_left M fl index size ≡ (
        record {
          actual_size = (deref fl.heap p).actual_size + size;
          parent_index = (deref fl.heap p).parent_index;
        },
        remove_from_size_list M
            (record fl {
              index_tree =
                  M.remove (M.remove fl.index_tree (index - 1)) (deref fl.heap p).parent_index;
            })
            p,
      )
  unfolding merge_left
  left_some fl index size e = rw (e, merge_left)

  right_none :
      (fl : FreeList M) (item : ItemPos) (index size : ℕ)
      → M.get fl.index_tree (index + size) ≡ none
      → merge_right M fl item index size ≡ (item, fl)
  unfolding merge_right
  right_none fl item index size e = rw (e, merge_right)

  right_some :
      (fl : FreeList M) (item : ItemPos) (index size : ℕ) {p : ℕ}
      → M.get fl.index_tree (index + size) ≡ some p
      → merge_right M fl item index size ≡ (
        record { actual_size = size + (deref fl.heap p).actual_size; parent_index = index },
        remove_from_size_list M
            (record fl {
              index_tree =
                  M.remove
                    (M.remove fl.index_tree (index + size))
                    ((deref fl.heap p).parent_index + (deref fl.heap p).actual_size - 1);
            })
            p,
      )
  unfolding merge_right
  right_some fl item index size e = rw (e, merge_right)

  -- What is recorded after a list has lost a block.
  store_without-IsRecorded :
      (fl : FreeList M) (v : ℕ) (item : ItemPos)
      → IsRecorded (store M (remove_from_size_list M fl v) item) (length fl.heap) item
  store_without-IsRecorded fl v item =
      subst (λ h. IsRecorded (store M (remove_from_size_list M fl v) item) (length h) item)
        (heap-remove fl v) (store-IsRecorded (remove_from_size_list M fl v) item)

  module _ (fl : FreeList M) (index size : ℕ) where
    -- With no free neighbour on either side, `add` records the block as it is given.
    pub add_alone :
        get_left M fl.index_tree index ≡ none
        → M.get fl.index_tree (index + size) ≡ none
        → IsRecorded
            (add M fl index size)
            (length fl.heap)
            (record { actual_size = size; parent_index = index })
    unfolding add
    add_alone l r =
        rw (left_none fl index size l, right_none fl _ index size r) (store-IsRecorded fl _)

    -- With a free neighbour on the right and none on the left, `add` records one block that covers both.
    pub add_right :
        (p : ℕ)
        → get_left M fl.index_tree index ≡ none
        → M.get fl.index_tree (index + size) ≡ some p
        → IsRecorded
            (add M fl index size)
            (length fl.heap)
            (record { actual_size = size + (deref fl.heap p).actual_size; parent_index = index })
    unfolding add
    add_right p l r =
        rw (left_none fl index size l, right_some fl _ index size r)
          (store_without-IsRecorded _ p _)

  module _ (fl : FreeList M) (index size p : ℕ) where
    -- The block to the left, and the list once `add` has taken it out.
    abbrev left : ItemPos
    left = deref fl.heap p

    abbrev cut : FreeList M
    cut = record fl { index_tree = M.remove (M.remove fl.index_tree (index - 1)) left.parent_index }

    abbrev without : FreeList M
    without = remove_from_size_list M cut p

    get-without :
        left.parent_index < index
        → M.get without.index_tree (index + size) ≡ M.get fl.index_tree (index + size)
    get-without below = rw (
      tree-remove cut p,
      M.get-remove,
      M.get-remove,
      ne→== left.parent_index (index + size) (λ e. omega arith),
      ne→== (index - 1) (index + size) (λ e. omega arith),
    )

    left_gone :
        (k : ℕ) → (index - 1 ≡ k) ⊎ (left.parent_index ≡ k) → M.get without.index_tree k ≡ none
    left_gone k (inl e) =
        rw (tree-remove cut p, M.get-remove, M.get-remove, e, ==_self) (if_same _ none)
    left_gone k (inr e) = rw (tree-remove cut p, M.get-remove, e, ==_self)

    -- With a free neighbour on the left only, `add` records one block that covers both.
    pub add_left :
        get_left M fl.index_tree index ≡ some p
        → left.parent_index < index
        → M.get fl.index_tree (index + size) ≡ none
        → IsRecorded
            (add M fl index size)
            (length fl.heap)
            (record { actual_size = left.actual_size + size; parent_index = left.parent_index })
    unfolding add
    add_left l below r =
        rw (left_some fl index size l, right_none without _ index size (get-without below ∙ r))
          (store_without-IsRecorded cut p _)

    module _ (q : ℕ) where
      abbrev right : ItemPos
      right = deref without.heap q

      abbrev cut_right : FreeList M
      cut_right = record without {
        index_tree =
            M.remove (M.remove without.index_tree (index + size))
              (right.parent_index + right.actual_size - 1);
      }

      abbrev joined : ItemPos
      joined = record { actual_size = size + right.actual_size; parent_index = index }

      add_both-eq :
          get_left M fl.index_tree index ≡ some p
          → left.parent_index < index
          → M.get fl.index_tree (index + size) ≡ some q
          → add M fl index size ≡ store M (remove_from_size_list M cut_right q) joined
      unfolding add
      add_both-eq l below r =
          rw (left_some fl index size l, right_some without _ index size (get-without below ∙ r))

      -- Keys to the left of the new block: what the list without the left block has.
      get-joined :
          (k : ℕ)
          → k < index
          → 0 < size
          → M.get without.index_tree k ≡ none
          → M.get (store M (remove_from_size_list M cut_right q) joined).index_tree k ≡ none
      get-joined k lt pos gone =
          get-store (remove_from_size_list M cut_right q) joined k (λ e. omega arith)
            (λ e. omega arith)
          ∙ rw (tree-remove cut_right q, M.get-remove, M.get-remove, gone)
              (rw if_same (if_same _ none))

      right-same : right ≡ deref fl.heap q
      right-same = ap (λ h. deref h q) (heap-remove cut p)

    -- With a free neighbour on both sides, the left one starting before the new block, `add` of a block
    -- that is not empty records one block that starts at the new one and covers it and the right one.
    -- Neither end of the left one is in the tree any more.
    pub add_both :
        (q : ℕ)
        → get_left M fl.index_tree index ≡ some p
        → left.parent_index < index
        → 0 < size
        → M.get fl.index_tree (index + size) ≡ some q
        → IsRecorded
            (add M fl index size)
            (length fl.heap)
            (record { actual_size = size + (deref fl.heap q).actual_size; parent_index = index })
          × (M.get (add M fl index size).index_tree left.parent_index ≡ none)
          × (M.get (add M fl index size).index_tree (index - 1) ≡ none)
    add_both q l below pos r = rw (add_both-eq q l below r) (
      subst₂
          (λ (n : ℕ) (v : ItemPos).
            IsRecorded (store M (remove_from_size_list M (cut_right q) q) (joined q)) n
              (record { actual_size = size + v.actual_size; parent_index = index }))
          (ap length (heap-remove cut p)) (right-same q)
          (store_without-IsRecorded (cut_right q) q (joined q)),
      get-joined q left.parent_index below pos (left_gone left.parent_index (inr refl)),
      get-joined q (index - 1) (omega arith) pos (left_gone (index - 1) (inl refl)),
    )
