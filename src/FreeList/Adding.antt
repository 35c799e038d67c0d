-- ===== src/FreeList/Adding.antt =====
-- `add` of bigcache/queue/freeList.go: the new item goes into the tree and the lists.
use clustered_big_cache.Prelude.{
  ℕ, ◌+◌, ◌-◌, ◌≤◌, ◌<◌, ◌≡◌, ◌≢◌, ◌⊎◌, sym, ap, ◌∙◌, subst, List, [], ◌∷◌, ◌++◌, some, arith,
  Bool-cases, inl, inr, ◌==◌, if◌then◌else◌, ltb, ltb→lt, ltb→le, ==→eq, ==→ne, ne→==, length,
  length-append, get_or-append, get_or-append_end,
}
use clustered_big_cache.Containers.{OrderedMap}
use clustered_big_cache.FreeList.{
  ItemPos, nil_item, deref, bucket, update, FreeList, store, add, merge_left, merge_right,
}
use clustered_big_cache.FreeList.Tiling.{
  IsTiling, IsInside, IsWith, IsRoom, with-IsTiling, with-Covers, with-kept,
}
use clustered_big_cache.FreeList.Counts.{count, count-append, AreLists}
use clustered_big_cache.FreeList.Buckets.{put_into_size_list_cases}
use clustered_big_cache.FreeList.Owned.{block, tree, IsFree, IsOwned}
use clustered_big_cache.FreeList.Merging.{IsNew, merge_left-IsMerged, merge_right-IsMerged}

module _ (M : OrderedMap ℕ) where
  -- The tree after the two writes of `store`.
  put-IsWith :
      (t : M.Tree) (p first last : ℕ)
      → IsWith (M.get t) (M.get (M.put (M.put t first p) last p)) p first last
  put-IsWith t p first last = record {
    is_new_or_old =
        λ k q e. ground (arith, M.get-put (M.put t first p) last k p, M.get-put t first k p);
    has_first =
        M.get-put (M.put t first p) last first p ∙ ground (arith, M.get-put t first first p);
    has_last = M.get-put (M.put t first p) last last p ∙ ground arith;
    kept = λ k q e f l. ground (arith, M.get-put (M.put t first p) last k p, M.get-put t first k p);
  }

  module _ (fl : FreeList M) (item : ItemPos) (o : IsOwned M fl) (full : 0 < item.actual_size)
      (unfree : (x : ℕ) → IsInside item x → ¬ IsFree M fl x) where
    abbrev place : ℕ
    place = length fl.heap

    abbrev last : ℕ
    last = item.parent_index + item.actual_size - 1

    abbrev heap' : List ItemPos
    heap' = fl.heap ++ (item ∷ [])

    abbrev tree' : M.Tree
    tree' = M.put (M.put fl.index_tree item.parent_index place) last place

    new_block : deref heap' place ≡ item
    new_block = get_or-append_end fl.heap item nil_item

    old_block : (q : ℕ) → q < place → deref heap' q ≡ deref fl.heap q
    old_block q h = get_or-append fl.heap (item ∷ []) q nil_item h

    room : IsRoom (deref fl.heap) (deref heap') (tree M fl) place item.parent_index last
    room = record {
      absent = λ k e. omega (arith, o.made k place e);
      same_block = λ k q e. old_block q (o.made k q e);
      starts = ap (λ b. b.parent_index) new_block;
      ends = ap (λ b. b.parent_index + b.actual_size) new_block ∙ omega (arith, full);
      ordered = omega (arith, full);
      uncovered = λ x i. unfree x (subst (λ b. IsInside b x) new_block i);
    }

    -- The pointer is in no list yet.
    unlisted_new : (i : ℕ) → count place (fl.size_list i) ≡ 0
    unlisted_new i = elim (Bool-cases (ltb 0 (count place (fl.size_list i)))) [
      | inl there ↦ absurd (
          omega (
            arith,
            o.made (block M fl place).parent_index place (o.listed i place (ltb→lt 0 _ there)),
          ))
      | inr none_there ↦ omega (arith, ltb→le 0 (count place (fl.size_list i)) none_there)
    ]

    old_place : (i q : ℕ) → 0 < count q (fl.size_list i) → q < place
    old_place i q h = o.made (block M fl q).parent_index q (o.listed i q h)

    stored-IsTiling : IsTiling (deref heap') (M.get tree')
    stored-IsTiling =
        with-IsTiling (deref fl.heap) (deref heap') (tree M fl) (M.get tree') place
          item.parent_index last o.tiling room
          (put-IsWith fl.index_tree place item.parent_index last)

    -- The lists stay in order where only the heap has grown.
    grown_lists : AreLists heap' fl.size_list
    grown_lists = record {
      classed = λ i q h. rw (old_block q (old_place i q h)) (o.lists.classed i q h);
      once = o.lists.once;
    }

    -- And where the pointer goes into the list of its class.
    module _ (i : ℕ) (class : bucket item.actual_size ≡ some i) where
      abbrev lists' : ℕ → List ℕ
      lists' = update fl.size_list i (fl.size_list i ++ (place ∷ []))

      count-new : (j : ℕ) → count place (lists' j) ≡ (if i == j then 1 else 0)
      count-new j = elim (Bool-cases (i == j)) [
        | inl same ↦
            rw same
              (count-append place (fl.size_list i) (place ∷ []) ∙ ground (arith, unlisted_new i))
        | inr other ↦ rw other (unlisted_new j)
      ]

      count-old : (j q : ℕ) → q ≢ place → count q (lists' j) ≡ count q (fl.size_list j)
      count-old j q other = elim (Bool-cases (i == j)) [
        | inl same ↦
            let none_more : count q (place ∷ []) ≡ 0 = rw (ne→== place q (λ s. other (sym s))) in
            rw same (
              count-append q (fl.size_list i) (place ∷ [])
              ∙ (omega (arith, none_more) ∙ ap (λ k. count q (fl.size_list k)) (==→eq i j same)))
        | inr apart ↦ rw apart
      ]

      new_class :
          (j : ℕ) → 0 < count place (lists' j) → bucket (deref heap' place).actual_size ≡ some j
      new_class j h = elim (Bool-cases (i == j)) [
        | inl same ↦ rw new_block (class ∙ ap some (==→eq i j same))
        | inr other ↦
            let gone =
              subst (λ b. count place (lists' j) ≡ (if b then 1 else 0)) other (count-new j) in
            absurd (omega (arith, h, gone))
      ]

      new_once : (j : ℕ) → count place (lists' j) ≤ 1
      new_once j = ground (arith, count-new j)

      class_of : (j q : ℕ) → 0 < count q (lists' j) → bucket (deref heap' q).actual_size ≡ some j
      class_of j q h = elim (Bool-cases (q == place)) [
        | inl same ↦
            subst (λ z. 0 < count z (lists' j) → bucket (deref heap' z).actual_size ≡ some j)
              (sym (==→eq q place same)) (new_class j) h
        | inr other ↦
            grown_lists.classed j q (omega (arith, h, count-old j q (==→ne q place other)))
      ]

      extended_lists : AreLists heap' lists'
      extended_lists = record {
        classed = class_of;
        once = λ j q. elim (Bool-cases (q == place)) [
          | inl same ↦ subst (λ z. count z (lists' j) ≤ 1) (sym (==→eq q place same)) (new_once j)
          | inr other ↦ omega (arith, o.lists.once j q, count-old j q (==→ne q place other))
        ];
      }

    -- A pointer that the lists had, or the new one, is at its first index.
    listed_old :
        (j q : ℕ) → 0 < count q (fl.size_list j) → M.get tree' (deref heap' q).parent_index ≡ some q
    listed_old j q h = rw (old_block q (old_place j q h)) (
        with-kept (deref fl.heap) (deref heap') (tree M fl) (M.get tree') place item.parent_index
          last o.tiling room (put-IsWith fl.index_tree place item.parent_index last)
          (block M fl q).parent_index q (o.listed j q h))

    listed_new : M.get tree' (deref heap' place).parent_index ≡ some place
    listed_new = rw new_block (put-IsWith fl.index_tree place item.parent_index last).has_first

    made_on : (k q : ℕ) → M.get tree' k ≡ some q → q < length heap'
    made_on k q e =
        elim ((put-IsWith fl.index_tree place item.parent_index last).is_new_or_old k q e) [
          | inl (same, key) ↦ omega (arith, same, length-append fl.heap (item ∷ []))
          | inr there ↦ omega (arith, o.made k q there, length-append fl.heap (item ∷ []))
        ]

    abbrev stored : FreeList M
    stored = record fl { heap = heap'; index_tree = tree' }

    unlisted-IsOwned : IsOwned M stored
    unlisted-IsOwned = record {
      tiling = stored-IsTiling;
      made = made_on;
      lists = grown_lists;
      listed = listed_old;
    }

    listed-IsOwned :
        (i : ℕ) (class : bucket item.actual_size ≡ some i)
        → IsOwned M (record stored { size_list = lists' i class })
    listed-IsOwned i class = record {
      tiling = stored-IsTiling;
      made = made_on;
      lists = extended_lists i class;
      listed = λ j q h. elim (Bool-cases (q == place)) [
        | inl same ↦
            subst (λ z. M.get tree' (deref heap' z).parent_index ≡ some z)
              (sym (==→eq q place same)) listed_new
        | inr other ↦ listed_old j q (omega (arith, h, count-old i class j q (==→ne q place other)))
      ];
    }

    pub store-IsOwned : IsOwned M (store M fl item)
    unfolding store
    store-IsOwned =
        put_into_size_list_cases M (IsOwned M) stored place (λ e. unlisted-IsOwned)
          (λ i e. listed-IsOwned i (subst (λ b. bucket b.actual_size ≡ some i) new_block e))

    -- What is free then was free, or is in the item.
    pub store-IsFree : (x : ℕ) → IsFree M (store M fl item) x → IsInside item x ⊎ IsFree M fl x
    unfolding store
    store-IsFree x =
        put_into_size_list_cases M (λ g. IsFree M g x → IsInside item x ⊎ IsFree M fl x) stored
          place (λ e f. covered f) (λ i e f. covered f)
      where
        covered : IsFree M stored x → IsInside item x ⊎ IsFree M fl x
        covered f =
            elim (with-Covers (deref fl.heap) (deref heap') (tree M fl) (M.get tree') place
              item.parent_index last o.tiling room
              (put-IsWith fl.index_tree place item.parent_index last) x f) [
                | inl i ↦ inl (subst (λ b. IsInside b x) new_block i)
                | inr c ↦ inr c
              ]

    -- And all of the item is free.
    pub store-frees : (x : ℕ) → IsInside item x → IsFree M (store M fl item) x
    unfolding store
    store-frees x i =
        put_into_size_list_cases M (λ g. IsFree M g x) stored place (λ e. there) (λ j e. there)
      where
        there : IsFree M stored x
        there = (
          item.parent_index,
          place,
          (put-IsWith fl.index_tree place item.parent_index last).has_first,
          subst (λ b. IsInside b x) (sym new_block) i,
        )

  -- `add` of a block that is not empty and of which nothing is free keeps the free list in order: its blocks
  -- lie apart, each is found by its first and its last index, and each list holds blocks of the tree of its
  -- class, each once. The block is free then, and nothing else is that was not free before.
  pub add-IsOwned :
      (fl : FreeList M) (index size : ℕ)
      → IsOwned M fl
      → 0 < size
      → ((x : ℕ) → IsNew index size x → ¬ IsFree M fl x)
      → IsOwned M (add M fl index size)
        × ((x : ℕ) → IsNew index size x → IsFree M (add M fl index size) x)
        × ((x : ℕ) → IsFree M (add M fl index size) x → IsFree M fl x ⊎ IsNew index size x)
  unfolding add
  add-IsOwned fl index size o full unfree =
      let left = merge_left M fl index size in
      let m =
        merge_left-IsMerged M fl index size
          (record { owned = o; nonempty = full; unfree = unfree }) in
      let right = merge_right M left.1 left.0 index size in
      let n = merge_right-IsMerged M fl index size left.0 left.1 full m in
      (
        store-IsOwned right.1 right.0 n.owned n.nonempty n.unfree,
        λ x i. store-frees right.1 right.0 n.owned n.nonempty n.unfree x (n.holds x i),
        λ x f. elim (store-IsFree right.1 right.0 n.owned n.nonempty n.unfree x f) [
          | inl i ↦ n.parts x i
          | inr g ↦ inl (n.fewer x g)
        ],
      )
