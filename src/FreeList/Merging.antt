-- ===== src/FreeList/Merging.antt =====
-- `add` of bigcache/queue/freeList.go up to its end: the item that it makes of the new block and its
-- neighbours, and the free list without these.
use clustered_big_cache.Prelude.{
  ℕ, ◌+◌, ◌-◌, ◌≤◌, ◌<◌, ◌≡◌, ◌⊎◌, sym, ◌∙◌, subst, some, none, arith, Bool-cases, Option-cases,
  inl, inr, ◌==◌, ltb, ltb→lt, ltb→le, ==→ne, none≢some,
}
use clustered_big_cache.Containers.{OrderedMap}
use clustered_big_cache.FreeList.{
  ItemPos, FreeList, get_left, merge_left, merge_right, remove_from_size_list,
}
use clustered_big_cache.FreeList.Tiling.{IsInside, key-IsInside}
use clustered_big_cache.FreeList.Owned.{
  block, tree, IsFree, IsOwned, IsDropped, dropped-IsOwned, dropped-IsFree, drop-IsDropped,
}

-- An index of the block that is added.
abbrev pub IsNew : (index size x : ℕ) → Type 0
IsNew index size x = (index ≤ x) × (x < index + size)

module _ (M : OrderedMap ℕ) where
  -- The item and the list that are left: nothing of the item is free in the list, all of it was free or is new,
  -- and all that is new is in it.
  pub record IsMerged (fl : FreeList M) (index size : ℕ) (r : ItemPos × FreeList M) : Type 0 where
    pub owned : IsOwned M r.1
    pub fewer : (x : ℕ) → IsFree M r.1 x → IsFree M fl x
    pub nonempty : 0 < r.0.actual_size
    pub unfree : (x : ℕ) → IsInside r.0 x → ¬ IsFree M r.1 x
    pub parts : (x : ℕ) → IsInside r.0 x → IsFree M fl x ⊎ IsNew index size x
    pub holds : (x : ℕ) → IsNew index size x → IsInside r.0 x

  -- The block is not empty, and nothing of it is free.
  pub record IsUsed (fl : FreeList M) (index size : ℕ) : Type 0 where
    pub owned : IsOwned M fl
    pub nonempty : 0 < size
    pub unfree : (x : ℕ) → IsNew index size x → ¬ IsFree M fl x

  left_key :
      (t : M.Tree) (index p : ℕ)
      → get_left M t index ≡ some p
      → (0 < index) × (M.get t (index - 1) ≡ some p)
  unfolding get_left
  left_key t index p e = elim (Bool-cases (index == 0)) [
    | inl z ↦ absurd (none≢some (rw (z, get_left) at e))
    | inr n ↦ (omega (arith, ==→ne index 0 n), rw (n, get_left) at e)
  ]

  left_alone :
      (fl : FreeList M) (index size : ℕ)
      → get_left M fl.index_tree index ≡ none
      → merge_left M fl index size ≡ (record { actual_size = size; parent_index = index }, fl)
  unfolding merge_left
  left_alone fl index size e = rw (e, merge_left)

  alone-IsMerged :
      (fl : FreeList M) (index size : ℕ)
      → IsUsed fl index size
      → IsMerged fl index size (record { actual_size = size; parent_index = index }, fl)
  alone-IsMerged fl index size u = record {
    owned = u.owned;
    fewer = λ x f. f;
    nonempty = u.nonempty;
    unfree = u.unfree;
    parts = λ x i. inr i;
    holds = λ x i. i;
  }

  -- The left neighbour ends where the new block begins.
  left_end :
      (fl : FreeList M) (index size p : ℕ)
      → IsUsed fl index size
      → 0 < index
      → tree M fl (index - 1) ≡ some p
      → (block M fl p).parent_index + (block M fl p).actual_size ≡ index
  left_end fl index size p u positive e =
      let i = key-IsInside (block M fl) (tree M fl) (index - 1) p u.owned.tiling e in
      elim (Bool-cases (ltb index ((block M fl p).parent_index + (block M fl p).actual_size))) [
        | inl over ↦ absurd (
            u.unfree index (omega arith, omega (arith, u.nonempty))
              (index - 1, p, e, (omega (arith, i.0), ltb→lt index _ over)))
        | inr fits ↦ omega (arith, i.1, ltb→le index _ fits)
      ]

  abbrev left_result : FreeList M → (index size p : ℕ) → ItemPos × FreeList M
  left_result fl index size p = (
    record {
      actual_size = (block M fl p).actual_size + size;
      parent_index = (block M fl p).parent_index;
    },
    remove_from_size_list M
        (record fl {
          index_tree = M.remove (M.remove fl.index_tree (index - 1)) (block M fl p).parent_index;
        })
        p,
  )

  left_merged :
      (fl : FreeList M) (index size p : ℕ)
      → get_left M fl.index_tree index ≡ some p
      → merge_left M fl index size ≡ left_result fl index size p
  unfolding merge_left
  left_merged fl index size p e = rw (e, merge_left)

  module _ (fl : FreeList M) (index size p : ℕ) (u : IsUsed fl index size) (positive : 0 < index)
      (e : tree M fl (index - 1) ≡ some p) where
    left-IsDropped : IsDropped M fl (left_result fl index size p).1 p
    left-IsDropped =
        let last = left_end fl index size p u positive e in
        drop-IsDropped M fl p (index - 1) (block M fl p).parent_index u.owned e
          (u.owned.tiling.at_first (index - 1) p e)
          (λ k f. elim (u.owned.tiling.at_end k p f) [
            | inl a ↦ inr a
            | inr b ↦ inl (omega (arith, last))
          ])

    left-IsMerged : IsMerged fl index size (left_result fl index size p)
    left-IsMerged =
        let last = left_end fl index size p u positive e in
        let less =
          dropped-IsFree M fl (left_result fl index size p).1 p u.owned left-IsDropped
            (index - 1) in
        record {
          owned = dropped-IsOwned M fl (left_result fl index size p).1 p u.owned left-IsDropped;
          fewer = λ x f. (less x e f).0;
          nonempty = omega (arith, u.nonempty);
          unfree = λ x i f. elim (Bool-cases (ltb x index)) [
            | inl before ↦ (less x e f).1 (i.0, omega (arith, last, ltb→lt x index before))
            | inr behind ↦
                u.unfree x (ltb→le x index behind, omega (arith, i.1, last)) (less x e f).0
          ];
          parts = λ x i. elim (Bool-cases (ltb x index)) [
            | inl before ↦ inl (index - 1, p, e, (i.0, omega (arith, last, ltb→lt x index before)))
            | inr behind ↦ inr (ltb→le x index behind, omega (arith, i.1, last))
          ];
          holds = λ x i. (omega (arith, i.0, last), omega (arith, i.1, last));
        }

  pub merge_left-IsMerged :
      (fl : FreeList M) (index size : ℕ)
      → IsUsed fl index size
      → IsMerged fl index size (merge_left M fl index size)
  merge_left-IsMerged fl index size u = elim (Option-cases (get_left M fl.index_tree index)) [
    | inl e ↦
        subst (IsMerged fl index size) (sym (left_alone fl index size e))
          (alone-IsMerged fl index size u)
    | inr (p, e) ↦
        let (positive, key) = left_key fl.index_tree index p e in
        subst (IsMerged fl index size) (sym (left_merged fl index size p e))
          (left-IsMerged fl index size p u positive key)
  ]

  -- What the second `if` does with a right neighbour.
  abbrev right_result : FreeList M → (index size p : ℕ) → ItemPos × FreeList M
  right_result fl index size p =
      let v = block M fl p in
      (
        record { actual_size = size + v.actual_size; parent_index = index },
        remove_from_size_list M
            (record fl {
              index_tree =
                  M.remove (M.remove fl.index_tree (index + size))
                    (v.parent_index + v.actual_size - 1);
            })
            p,
      )

  right_alone :
      (fl : FreeList M) (item : ItemPos) (index size : ℕ)
      → tree M fl (index + size) ≡ none
      → merge_right M fl item index size ≡ (item, fl)
  unfolding merge_right
  right_alone fl item index size e = rw (e, merge_right)

  right_merged :
      (fl : FreeList M) (item : ItemPos) (index size p : ℕ)
      → tree M fl (index + size) ≡ some p
      → merge_right M fl item index size ≡ right_result fl index size p
  unfolding merge_right
  right_merged fl item index size p e = rw (e, merge_right)

  module _ (fl : FreeList M) (index size : ℕ) (item : ItemPos) (fl₁ : FreeList M) (full : 0 < size)
      (m : IsMerged fl index size (item, fl₁)) (p : ℕ)
      (e : tree M fl₁ (index + size) ≡ some p) where
    -- The right neighbour begins where the new block ends.
    right_first : (block M fl₁ p).parent_index ≡ index + size
    right_first =
        let i = key-IsInside (block M fl₁) (tree M fl₁) (index + size) p m.owned.tiling e in
        elim (Bool-cases (ltb (block M fl₁ p).parent_index (index + size))) [
          | inl over ↦
              let less = ltb→lt (block M fl₁ p).parent_index (index + size) over in
              absurd (
                m.unfree (index + size - 1) (m.holds (index + size - 1) (omega arith, omega arith))
                  (index + size, p, e, (omega arith, omega (arith, i.1))))
          | inr fits ↦ omega (arith, i.0, ltb→le (block M fl₁ p).parent_index (index + size) fits)
        ]

    right-IsDropped : IsDropped M fl₁ (right_result fl₁ index size p).1 p
    right-IsDropped =
        let v = block M fl₁ p in
        let some_size = m.owned.tiling.nonempty (index + size) p e in
        drop-IsDropped M fl₁ p (index + size) (v.parent_index + v.actual_size - 1) m.owned e
          (m.owned.tiling.at_last (index + size) p (v.parent_index + v.actual_size - 1) e
            (omega (arith, some_size)))
          (λ k f. elim (m.owned.tiling.at_end k p f) [
            | inl a ↦ inl (a ∙ right_first)
            | inr b ↦ inr (omega arith)
          ])

    right-IsMerged : IsMerged fl index size (right_result fl₁ index size p)
    right-IsMerged =
        let less =
          dropped-IsFree M fl₁ (right_result fl₁ index size p).1 p m.owned right-IsDropped
            (index + size) in
        record {
          owned = dropped-IsOwned M fl₁ (right_result fl₁ index size p).1 p m.owned right-IsDropped;
          fewer = λ x f. m.fewer x (less x e f).0;
          nonempty = omega (arith, full);
          unfree = λ x i f. elim (Bool-cases (ltb x (index + size))) [
            | inl before ↦ m.unfree x (m.holds x (i.0, ltb→lt x _ before)) (less x e f).0
            | inr behind ↦
                (less x e f).1
                  (omega (arith, right_first, ltb→le x _ behind), omega (arith, i.1, right_first))
          ];
          parts = λ x i. elim (Bool-cases (ltb x (index + size))) [
            | inl before ↦ inr (i.0, ltb→lt x _ before)
            | inr behind ↦ inl (
                m.fewer x (
                  index + size,
                  p,
                  e,
                  (omega (arith, right_first, ltb→le x _ behind), omega (arith, i.1, right_first)),
                ))
          ];
          holds = λ x i. (i.0, omega (arith, i.1));
        }

  pub merge_right-IsMerged :
      (fl : FreeList M) (index size : ℕ) (item : ItemPos) (fl₁ : FreeList M)
      → 0 < size
      → IsMerged fl index size (item, fl₁)
      → IsMerged fl index size (merge_right M fl₁ item index size)
  merge_right-IsMerged fl index size item fl₁ full m =
      elim (Option-cases (tree M fl₁ (index + size))) [
        | inl e ↦ subst (IsMerged fl index size) (sym (right_alone fl₁ item index size e)) m
        | inr (p, e) ↦
            subst (IsMerged fl index size) (sym (right_merged fl₁ item index size p e))
              (right-IsMerged fl index size item fl₁ full m p e)
      ]
