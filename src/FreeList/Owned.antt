-- ===== src/FreeList/Owned.antt =====
-- The free list as a whole: its blocks lie apart, and its lists hold blocks of its tree.
use clustered_big_cache.Prelude.{
  ℕ, ◌<◌, ◌≡◌, ◌≢◌, ◌⊎◌, refl, sym, ap, ◌∙◌, subst, Option, some, none, arith, Bool-cases,
  Option-cases, inl, inr, ◌==◌, ==→eq, ==→ne, ne→==, some_injective, none≢some, length, false,
}
use clustered_big_cache.Containers.{OrderedMap}
use clustered_big_cache.FreeList.{
  ItemPos, deref, bucket, list_pos, remove_nth, update, FreeList, new_free_list,
  remove_from_size_list,
}
use clustered_big_cache.FreeList.Tiling.{
  IsTiling, IsInside, Covers, IsWithout, without-IsTiling, without-Covers,
}
use clustered_big_cache.FreeList.Counts.{
  count, AreLists, AreWithout, update-AreWithout, unlisted, without-AreLists, list_pos-at,
  list_pos-none,
}

module _ (M : OrderedMap ℕ) where
  abbrev pub block : FreeList M → ℕ → ItemPos
  block fl p = deref fl.heap p

  abbrev pub tree : FreeList M → ℕ → Option ℕ
  tree fl k = M.get fl.index_tree k

  -- An index that the free list may hand out.
  abbrev pub IsFree : FreeList M → ℕ → Type 0
  IsFree fl x = Covers (block fl) (tree fl) x

  pub record IsOwned (fl : FreeList M) : Type 0 where
    pub tiling : IsTiling (block fl) (tree fl)
    pub made : (k p : ℕ) → tree fl k ≡ some p → p < length fl.heap
    pub lists : AreLists fl.heap fl.size_list
    pub listed :
        (i p : ℕ) → 0 < count p (fl.size_list i) → tree fl (block fl p).parent_index ≡ some p

  pub new_free_list-IsOwned : IsOwned (new_free_list M)
  unfolding new_free_list
  new_free_list-IsOwned = record {
    tiling = record {
      nonempty = λ k p e. absurd (no_keys k p e);
      at_end = λ k p e. absurd (no_keys k p e);
      at_first = λ k p e. absurd (no_keys k p e);
      at_last = λ k p j e. absurd (no_keys k p e);
      apart = λ k p j q e. absurd (no_keys k p e);
    };
    made = λ k p e. absurd (no_keys k p e);
    lists = record { classed = λ i p h. absurd (omega arith); once = λ i p. omega arith };
    listed = λ i p h. absurd (omega arith);
  }
    where
      no_keys : (k p : ℕ) → M.get M.empty k ≢ some p
      no_keys k p e = none≢some (sym (M.get-empty k) ∙ e)

  -- The free list without one block: the heap is the same.
  pub record IsDropped (fl fl' : FreeList M) (p : ℕ) : Type 0 where
    pub same_heap : fl'.heap ≡ fl.heap
    pub tree_without : IsWithout (tree fl) (tree fl') p
    pub lists_without : AreWithout fl.size_list fl'.size_list p

  module _ (fl fl' : FreeList M) (p : ℕ) (o : IsOwned fl) (d : IsDropped fl fl' p) where
    listed_on :
        (i q : ℕ) → 0 < count q (fl'.size_list i) → tree fl' (block fl q).parent_index ≡ some q
    listed_on i q here = elim (Bool-cases (q == p)) [
      | inl same ↦ absurd (
          omega (
            arith,
            here,
            ap (λ z. count z (fl'.size_list i)) (==→eq q p same),
            d.lists_without.gone i,
          ))
      | inr other ↦
          d.tree_without.kept (block fl q).parent_index q
            (o.listed i q (omega (arith, here, d.lists_without.others i q (==→ne q p other))))
            (==→ne q p other)
    ]

    pub dropped-IsOwned : IsOwned fl'
    dropped-IsOwned = record {
      tiling =
          subst (λ h. IsTiling (deref h) (tree fl')) (sym d.same_heap)
            (without-IsTiling (block fl) (tree fl) (tree fl') p o.tiling d.tree_without);
      made = λ k q e. omega (
        arith,
        o.made k q (d.tree_without.was_there k q e),
        ap (length {A = ItemPos}) d.same_heap,
      );
      lists =
          subst (λ h. AreLists h fl'.size_list) (sym d.same_heap)
            (without-AreLists fl.heap fl.size_list o.lists fl'.size_list p d.lists_without);
      listed =
          subst
            (λ h.
              (i q : ℕ)
              → 0 < count q (fl'.size_list i)
              → tree fl' (deref h q).parent_index ≡ some q)
            (sym d.same_heap) listed_on;
    }

    -- What is free after it was free before, and is not in the block.
    pub dropped-IsFree :
        (k x : ℕ) → tree fl k ≡ some p → IsFree fl' x → IsFree fl x × ¬ IsInside (block fl p) x
    dropped-IsFree k x there f =
        without-Covers (block fl) (tree fl) (tree fl') p x k o.tiling d.tree_without there
          (subst (λ h. Covers (deref h) (tree fl') x) d.same_heap f)

  -- The tree after the two removals of a block's keys.
  pub removed-IsWithout :
      (fl : FreeList M) (p a b : ℕ)
      → IsOwned fl
      → tree fl a ≡ some p
      → tree fl b ≡ some p
      → ((k : ℕ) → tree fl k ≡ some p → (k ≡ a) ⊎ (k ≡ b))
      → IsWithout (tree fl) (M.get (M.remove (M.remove fl.index_tree a) b)) p
  removed-IsWithout fl p a b o at_a at_b ends = record {
    was_there = λ k q e. (found k q e).0;
    is_other = λ k q e same. elim (ends k ((found k q e).0 ∙ ap some same)) [
      | inl x ↦ (found k q e).1 x
      | inr y ↦ (found k q e).2 y
    ];
    kept = λ k q e other.
        let not_a : (a == k) ≡ false =
          ne→== a k (λ s. other (some_injective (sym e ∙ (ap (tree fl) (sym s) ∙ at_a)))) in
        let not_b : (b == k) ≡ false =
          ne→== b k (λ s. other (some_injective (sym e ∙ (ap (tree fl) (sym s) ∙ at_b)))) in
        M.get-remove (M.remove fl.index_tree a) b k
        ∙ rw not_b (M.get-remove fl.index_tree a k ∙ rw not_a e);
  }
    where
      found :
          (k q : ℕ)
          → M.get (M.remove (M.remove fl.index_tree a) b) k ≡ some q
          → (tree fl k ≡ some q) × (k ≢ a) × (k ≢ b)
      found k q e =
          ground
            (arith, M.get-remove (M.remove fl.index_tree a) b k, M.get-remove fl.index_tree a k)

  -- What `removeFromSizeList` of a pointer leaves, on lists in order.
  pub record IsUnlisted (fl fl' : FreeList M) (p : ℕ) : Type 0 where
    pub lists_without : AreWithout fl.size_list fl'.size_list p
    pub same_heap : fl'.heap ≡ fl.heap
    pub same_tree : fl'.index_tree ≡ fl.index_tree

  unlist_none :
      (fl : FreeList M) (p : ℕ)
      → bucket (block fl p).actual_size ≡ none
      → remove_from_size_list M fl p ≡ fl
  unfolding remove_from_size_list
  unlist_none fl p e = rw (e, remove_from_size_list)

  unlist_missing :
      (fl : FreeList M) (p : ℕ) {i : ℕ}
      → bucket (block fl p).actual_size ≡ some i
      → list_pos p (fl.size_list i) ≡ none
      → remove_from_size_list M fl p ≡ fl
  unfolding remove_from_size_list
  unlist_missing fl p e f = rw (e, f, remove_from_size_list)

  unlist_at :
      (fl : FreeList M) (p : ℕ) {i x : ℕ}
      → bucket (block fl p).actual_size ≡ some i
      → list_pos p (fl.size_list i) ≡ some x
      → remove_from_size_list M fl p
        ≡ record fl { size_list = update fl.size_list i (remove_nth (fl.size_list i) x) }
  unfolding remove_from_size_list
  unlist_at fl p e f = rw (e, f, remove_from_size_list)

  same-IsUnlisted :
      (fl : FreeList M) (p : ℕ)
      → AreLists fl.heap fl.size_list
      → ((i : ℕ) → bucket (block fl p).actual_size ≡ some i → count p (fl.size_list i) ≡ 0)
      → IsUnlisted fl fl p
  same-IsUnlisted fl p a h = record {
    lists_without = unlisted fl.heap fl.size_list a p h;
    same_heap = refl;
    same_tree = refl;
  }

  pub remove_from_size_list-IsUnlisted :
      (fl : FreeList M) (p : ℕ)
      → AreLists fl.heap fl.size_list
      → IsUnlisted fl (remove_from_size_list M fl p) p
  remove_from_size_list-IsUnlisted fl p a = elim (Option-cases (bucket (block fl p).actual_size)) [
    | inl e ↦
        subst (λ g. IsUnlisted fl g p) (sym (unlist_none fl p e))
          (same-IsUnlisted fl p a (λ i f. absurd (none≢some (sym e ∙ f))))
    | inr (i, e) ↦ elim (Option-cases (list_pos p (fl.size_list i))) [
      | inl f ↦
          subst (λ g. IsUnlisted fl g p) (sym (unlist_missing fl p e f))
            (same-IsUnlisted fl p a (λ j h.
              subst (λ k. count p (fl.size_list k) ≡ 0) (some_injective (sym e ∙ h))
                (list_pos-none p (fl.size_list i) f)))
      | inr (x, f) ↦
          subst (λ g. IsUnlisted fl g p) (sym (unlist_at fl p e f))
            (record {
              lists_without =
                  update-AreWithout fl.heap fl.size_list a i x p
                    (list_pos-at p (fl.size_list i) x f);
              same_heap = refl;
              same_tree = refl;
            })
    ]
  ]

  -- Both keys of a block and its place in the lists go, as in `add`.
  pub drop-IsDropped :
      (fl : FreeList M) (p a b : ℕ)
      → IsOwned fl
      → tree fl a ≡ some p
      → tree fl b ≡ some p
      → ((k : ℕ) → tree fl k ≡ some p → (k ≡ a) ⊎ (k ≡ b))
      → IsDropped fl
          (remove_from_size_list M
            (record fl { index_tree = M.remove (M.remove fl.index_tree a) b })
            p)
          p
  drop-IsDropped fl p a b o at_a at_b ends =
      let fl₁ : FreeList M = record fl { index_tree = M.remove (M.remove fl.index_tree a) b } in
      let u = remove_from_size_list-IsUnlisted fl₁ p o.lists in
      record {
        same_heap = u.same_heap;
        tree_without =
            subst (λ t. IsWithout (tree fl) (M.get t) p) (sym u.same_tree)
              (removed-IsWithout fl p a b o at_a at_b ends);
        lists_without = u.lists_without;
      }
