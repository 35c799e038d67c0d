-- ===== src/FreeList/Buckets.antt =====
-- Each of the eight lists holds blocks of its own sizes, whatever is added and found.
use clustered_big_cache.Prelude.{
  ℕ, zero, suc, ◌+◌, ◌-◌, ◌≤◌, ◌<◌, ◌≡◌, refl, sym, subst, ◌∙◌, ap, inl, inr, List, [], ◌∷◌, ◌++◌,
  some, none, arith, leb, ◌==◌, ==→eq, length, set, All, All-append, All-imp, length-append,
  length-set, get_or-append, get_or-set_self, get_or-set_ne, Bool-cases, Option-cases, leb→le,
}
use native.Mathlib.Decide.{ℕ_discrete}
use clustered_big_cache.Containers.{OrderedMap}
use clustered_big_cache.FreeList.{
  ItemPos, deref, nil_item, update, bucket, list_pos, remove_nth, FreeList, new_free_list,
  remove_from_size_list, put_into_size_list, merge_left, merge_right, get_left, store, add,
  take_block, find,
}
use clustered_big_cache.FreeList.Found.{scan_sound, find-Found}
use clustered_big_cache.FreeList.Classes.{IsReady, cut_in_place}

-- A pointer that belongs in list `i`.
abbrev pub InClass : List ItemPos → ℕ → ℕ → Type 0
InClass heap i p = (p < length heap) × (bucket (deref heap p).actual_size ≡ some i)

All-remove_nth {ℓ} : (P : ℕ → Type ℓ) (l : List ℕ) (pos : ℕ) → All P l → All P (remove_nth l pos)
All-remove_nth P [] pos h = h
All-remove_nth P (p ∷ l) zero h = h.1
All-remove_nth P (p ∷ l) (suc pos) h = (h.0, All-remove_nth P l pos h.1)

All-update {ℓ} :
    (P : ℕ → ℕ → Type ℓ) (lists : ℕ → List ℕ) (i : ℕ) (l : List ℕ)
    → ((j : ℕ) → All (P j) (lists j))
    → All (P i) l
    → (j : ℕ) → All (P j) (update lists i l j)
All-update P lists i l h k j = elim (Bool-cases (i == j)) [
  | inl e ↦ rw (e, ← ==→eq i j e) k
  | inr e ↦ rw e (h j)
]

module _ (M : OrderedMap ℕ) where
  abbrev pub HasClasses : FreeList M → Type 0
  HasClasses fl = (i : ℕ) → All (InClass fl.heap i) (fl.size_list i)

  pub new_free_list-HasClasses : HasClasses (new_free_list M)
  unfolding new_free_list
  new_free_list-HasClasses i = tt

  -- The outcomes of the two operations on one list.
  pub remove_from_size_list_cases {ℓ} :
      (P : FreeList M → Type ℓ) (fl : FreeList M) (v : ℕ)
      → P fl
      → ((i pos : ℕ)
          → P (record fl { size_list = update fl.size_list i (remove_nth (fl.size_list i) pos) }))
      → P (remove_from_size_list M fl v)
  unfolding remove_from_size_list
  remove_from_size_list_cases P fl v same cut =
      elim (Option-cases (bucket (deref fl.heap v).actual_size)) [
        | inl e ↦ rw (e, remove_from_size_list) same
        | inr (i, e) ↦ elim (Option-cases (list_pos v (fl.size_list i))) [
          | inl f ↦ rw (e, f, remove_from_size_list) same
          | inr (pos, f) ↦ rw (e, f, remove_from_size_list) (cut i pos)
        ]
      ]

  pub put_into_size_list_cases {ℓ} :
      (P : FreeList M → Type ℓ) (fl : FreeList M) (p : ℕ)
      → (bucket (deref fl.heap p).actual_size ≡ none → P fl)
      → ((i : ℕ)
          → bucket (deref fl.heap p).actual_size ≡ some i
          → P (record fl { size_list = update fl.size_list i (fl.size_list i ++ (p ∷ [])) }))
      → P (put_into_size_list M fl p)
  unfolding put_into_size_list
  put_into_size_list_cases P fl p same more =
      elim (Option-cases (bucket (deref fl.heap p).actual_size)) [
        | inl e ↦ rw (e, put_into_size_list) (same e)
        | inr (i, e) ↦ rw (e, put_into_size_list) (more i e)
      ]

  cut-HasClasses :
      (fl : FreeList M) (t : M.Tree) (i pos : ℕ)
      → HasClasses fl
      → HasClasses (record fl {
        size_list = update fl.size_list i (remove_nth (fl.size_list i) pos);
        index_tree = t;
      })
  cut-HasClasses fl t i pos h =
      All-update (InClass fl.heap) fl.size_list i (remove_nth (fl.size_list i) pos) h
        (All-remove_nth (InClass fl.heap i) (fl.size_list i) pos (h i))

  remove_from_size_list-HasClasses :
      (fl : FreeList M) (v : ℕ) → HasClasses fl → HasClasses (remove_from_size_list M fl v)
  remove_from_size_list-HasClasses fl v h =
      remove_from_size_list_cases HasClasses fl v h
        (λ i pos. cut-HasClasses fl fl.index_tree i pos h)

  -- What the two merges make of the list: nothing, or a tree without the neighbour, which leaves its
  -- list.
  merge_left_cases {ℓ} :
      (P : FreeList M → Type ℓ) (fl : FreeList M) (index size : ℕ)
      → P fl
      → ((t : M.Tree) (p : ℕ) → P (remove_from_size_list M (record fl { index_tree = t }) p))
      → P (merge_left M fl index size).1
  unfolding merge_left
  merge_left_cases P fl index size same cut = elim (Option-cases (get_left M fl.index_tree index)) [
    | inl e ↦ rw (e, merge_left) same
    | inr (p, e) ↦ rw (e, merge_left) (cut _ p)
  ]

  merge_right_cases {ℓ} :
      (P : FreeList M → Type ℓ) (fl : FreeList M) (item : ItemPos) (index size : ℕ)
      → P fl
      → ((t : M.Tree) (p : ℕ) → P (remove_from_size_list M (record fl { index_tree = t }) p))
      → P (merge_right M fl item index size).1
  unfolding merge_right
  merge_right_cases P fl item index size same cut =
      elim (Option-cases (M.get fl.index_tree (index + size))) [
        | inl e ↦ rw (e, merge_right) same
        | inr (p, e) ↦ rw (e, merge_right) (cut _ p)
      ]

  merge_left-HasClasses :
      (fl : FreeList M) (index size : ℕ) → HasClasses fl → HasClasses (merge_left M fl index size).1
  merge_left-HasClasses fl index size h =
      merge_left_cases HasClasses fl index size h
        (λ t p. remove_from_size_list-HasClasses (record fl { index_tree = t }) p h)

  merge_right-HasClasses :
      (fl : FreeList M) (item : ItemPos) (index size : ℕ)
      → HasClasses fl
      → HasClasses (merge_right M fl item index size).1
  merge_right-HasClasses fl item index size h =
      merge_right_cases HasClasses fl item index size h
        (λ t p. remove_from_size_list-HasClasses (record fl { index_tree = t }) p h)

  -- A new block at the end of the heap leaves the others as they are.
  append-HasClasses :
      (fl : FreeList M) (item : ItemPos) (t : M.Tree)
      → HasClasses fl
      → HasClasses (record fl { heap = fl.heap ++ (item ∷ []); index_tree = t })
  append-HasClasses fl item t h i =
      All-imp (InClass fl.heap i) (InClass (fl.heap ++ (item ∷ [])) i) (fl.size_list i) kept (h i)
    where
      kept : (p : ℕ) → InClass fl.heap i p → InClass (fl.heap ++ (item ∷ [])) i p
      kept p (below, e) = (
        omega (arith, length-append fl.heap (item ∷ [])),
        rw (get_or-append fl.heap (item ∷ []) p nil_item below) e,
      )

  store-HasClasses :
      (fl : FreeList M) (item : ItemPos) → HasClasses fl → HasClasses (store M fl item)
  unfolding store
  store-HasClasses fl item h =
      put_into_size_list_cases HasClasses grown (length fl.heap) (λ e. grown-HasClasses)
        (λ i e.
          All-update (InClass grown.heap) fl.size_list i (fl.size_list i ++ (length fl.heap ∷ []))
            grown-HasClasses
            (All-append (InClass grown.heap i) (fl.size_list i) (length fl.heap ∷ [])
              (grown-HasClasses i) ((omega (arith, length-append fl.heap (item ∷ [])), e), tt)))
    where
      grown : FreeList M
      grown = record fl {
        heap = fl.heap ++ (item ∷ []);
        index_tree =
            M.put (M.put fl.index_tree item.parent_index (length fl.heap))
              (item.parent_index + item.actual_size - 1) (length fl.heap);
      }

      grown-HasClasses : HasClasses grown
      grown-HasClasses = append-HasClasses fl item grown.index_tree h

  -- Where every block stands in the list of its size, so it does after `add`.
  pub add-HasClasses :
      (fl : FreeList M) (index size : ℕ) → HasClasses fl → HasClasses (add M fl index size)
  unfolding add
  add-HasClasses fl index size h =
      store-HasClasses _ _
        (merge_right-HasClasses _ _ index size (merge_left-HasClasses fl index size h))

  -- A block of list `idx` that is cut in place stays in its class, so every list keeps its blocks.
  cut_in_place-HasClasses :
      (fl : FreeList M) (t : M.Tree) (idx size buck_size tmp : ℕ) (item : ItemPos)
      → HasClasses fl
      → IsReady idx size buck_size
      → InClass fl.heap idx tmp
      → size ≤ (deref fl.heap tmp).actual_size
      → buck_size ≤ (deref fl.heap tmp).actual_size - size
      → item.actual_size ≡ (deref fl.heap tmp).actual_size - size
      → HasClasses (record fl { heap = set fl.heap tmp item; index_tree = t })
  cut_in_place-HasClasses fl t idx size buck_size tmp item h ready (below, class) fits room e i =
      All-imp (InClass fl.heap i) (InClass (set fl.heap tmp item) i) (fl.size_list i) kept (h i)
    where
      stays : bucket item.actual_size ≡ some idx
      stays =
          rw e
            (cut_in_place idx size buck_size (deref fl.heap tmp).actual_size ready class fits room)

      kept : (p : ℕ) → InClass fl.heap i p → InClass (set fl.heap tmp item) i p
      kept p (inside, c) = (
        rw (length-set fl.heap tmp item) inside,
        elim (ℕ_discrete tmp p) [
          | yes same ↦
              rw (← same, get_or-set_self fl.heap tmp item nil_item below)
                (stays ∙ (sym class ∙ (rw (← same) at c)))
          | no other ↦ rw (get_or-set_ne fl.heap tmp p item nil_item other) c
        ],
      )

  -- The three ways in which `findInSizeList` cuts a block.
  take_block_cases {ℓ} :
      (P : FreeList M → Type ℓ) (fl : FreeList M) (idx size buck_size x tmp : ℕ)
      → ((t : M.Tree)
          → P (record fl {
            size_list = update fl.size_list idx (remove_nth (fl.size_list idx) x);
            index_tree = t;
          }))
      → ((t : M.Tree) (item : ItemPos)
          → buck_size ≤ (deref fl.heap tmp).actual_size - size
          → item.actual_size ≡ (deref fl.heap tmp).actual_size - size
          → P (record fl { heap = set fl.heap tmp item; index_tree = t }))
      → ((t : M.Tree) (index left : ℕ)
          → P (
              add M
                (record fl {
                  size_list = update fl.size_list idx (remove_nth (fl.size_list idx) x);
                  index_tree = t;
                })
                index
                left))
      → P (take_block M fl idx size buck_size x tmp).1
  unfolding take_block
  take_block_cases P fl idx size buck_size x tmp whole cut added =
      elim (Bool-cases (size == (deref fl.heap tmp).actual_size)) [
        | inl e ↦ rw (e, take_block) (whole _)
        | inr e ↦ elim (Bool-cases (leb buck_size ((deref fl.heap tmp).actual_size - size))) [
          | inl room ↦
              rw (e, room, take_block)
                (cut _ _ (leb→le buck_size ((deref fl.heap tmp).actual_size - size) room) refl)
          | inr tight ↦ rw (e, tight, take_block) (added _ _ _)
        ]
      ]

  take_block-HasClasses :
      (fl : FreeList M) (idx size buck_size x tmp : ℕ)
      → HasClasses fl
      → IsReady idx size buck_size
      → InClass fl.heap idx tmp
      → size ≤ (deref fl.heap tmp).actual_size
      → HasClasses (take_block M fl idx size buck_size x tmp).1
  take_block-HasClasses fl idx size buck_size x tmp h ready class fits =
      take_block_cases HasClasses fl idx size buck_size x tmp (λ t. cut-HasClasses fl t idx x h)
        (λ t item room e.
          cut_in_place-HasClasses fl t idx size buck_size tmp item h ready class fits room e)
        (λ t index left. add-HasClasses _ index left (cut-HasClasses fl t idx x h))

  -- Where every block stands in the list of its size, so it does after a `find` that has found a block.
  pub find-HasClasses :
      (fl fl' : FreeList M) (size index : ℕ)
      → HasClasses fl
      → find M fl size ≡ some (index, fl')
      → HasClasses fl'
  find-HasClasses fl fl' size index h e =
      let (idx, buck_size, x, tmp, ready, found, taken) = find-Found M fl fl' size index e in
      let (class, fits) =
        scan_sound (InClass fl.heap idx) fl.heap size (fl.size_list idx) 0 x tmp (h idx) found in
      subst HasClasses (ap (λ r. r.1) taken)
        (take_block-HasClasses fl idx size buck_size x tmp h ready class fits)
