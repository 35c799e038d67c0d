-- ===== src/FreeList/Taking.antt =====
-- `find` of bigcache/queue/freeList.go: the block that it answers leaves the free list.
use clustered_big_cache.Prelude.{
  ℕ, ◌+◌, ◌-◌, ◌≤◌, ◌<◌, ◌≡◌, ◌≢◌, ◌⊎◌, refl, sym, ap, ◌∙◌, subst, List, Option, some, arith,
  Bool-cases, inl, inr, ◌==◌, leb, leb→le, ==→eq, ==→ne, ==_self, length, get_elem?, set,
  length-set, get_or-set_self, get_or-set_ne,
}
use clustered_big_cache.Containers.{OrderedMap}
use clustered_big_cache.FreeList.{
  ItemPos, nil_item, deref, bucket, remove_nth, update, FreeList, add, take_block, find,
}
use clustered_big_cache.FreeList.Classes.{IsReady, cut_in_place}
use clustered_big_cache.FreeList.Found.{find-Found}
use clustered_big_cache.FreeList.Tiling.{
  IsTiling, IsInside, IsWithout, IsWith, IsRoom, with-IsTiling, with-Covers, with-kept,
  without-IsTiling,
}
use clustered_big_cache.FreeList.Counts.{
  count, count-at, scan-at, scan-fits, AreLists, update-AreWithout,
}
use clustered_big_cache.FreeList.Owned.{
  block, tree, IsFree, IsOwned, IsDropped, dropped-IsOwned, dropped-IsFree, removed-IsWithout,
}
use clustered_big_cache.FreeList.Merging.{IsNew}
use clustered_big_cache.FreeList.Adding.{add-IsOwned}

module _ (M : OrderedMap ℕ) where
  -- The block that is answered was free, is not free any more, and nothing else has become free.
  pub record IsTaken (fl : FreeList M) (size : ℕ) (r : ℕ × FreeList M) : Type 0 where
    pub owned : IsOwned M r.1
    pub was_free : (x : ℕ) → IsNew r.0 size x → IsFree M fl x
    pub fewer : (x : ℕ) → IsFree M r.1 x → IsFree M fl x
    pub taken : (x : ℕ) → IsFree M r.1 x → ¬ IsNew r.0 size x

  module _ (fl : FreeList M) (o : IsOwned M fl) (idx x tmp size : ℕ) (positive : 0 < size)
      (stands : get_elem? (fl.size_list idx) x ≡ some tmp)
      (fits : size ≤ (block M fl tmp).actual_size) where
    abbrev first : ℕ
    first = (block M fl tmp).parent_index

    abbrev whole : ℕ
    whole = (block M fl tmp).actual_size

    class : bucket whole ≡ some idx
    class = o.lists.classed idx tmp (count-at (fl.size_list idx) x tmp stands)

    at_first : tree M fl first ≡ some tmp
    at_first = o.listed idx tmp (count-at (fl.size_list idx) x tmp stands)

    inside : (y : ℕ) → IsInside (block M fl tmp) y → IsFree M fl y
    inside y i = (first, tmp, at_first, i)

    -- Both keys go, and the place in the list.
    abbrev taken_out : (last : ℕ) → FreeList M
    taken_out last = record fl {
      size_list = update fl.size_list idx (remove_nth (fl.size_list idx) x);
      index_tree = M.remove (M.remove fl.index_tree first) last;
    }

    IsWithout-keys :
        (last : ℕ)
        → last + 1 ≡ first + whole
        → IsWithout (tree M fl) (M.get (M.remove (M.remove fl.index_tree first) last)) tmp
    IsWithout-keys last e =
        removed-IsWithout M fl tmp first last o at_first
          (o.tiling.at_last first tmp last at_first e)
          (λ k f. elim (o.tiling.at_end k tmp f) [ inl a ↦ inl a | inr b ↦ inr (omega (arith, e)) ])

    out-IsDropped : (last : ℕ) → last + 1 ≡ first + whole → IsDropped M fl (taken_out last) tmp
    out-IsDropped last e = record {
      same_heap = refl;
      tree_without = IsWithout-keys last e;
      lists_without = update-AreWithout fl.heap fl.size_list o.lists idx x tmp stands;
    }

    out-IsFree :
        (last : ℕ)
        → last + 1 ≡ first + whole
        → (y : ℕ) → IsFree M (taken_out last) y
        → IsFree M fl y × ¬ IsInside (block M fl tmp) y
    out-IsFree last e y f =
        dropped-IsFree M fl (taken_out last) tmp o (out-IsDropped last e) first y at_first f

    -- The whole block is answered.
    whole-IsTaken :
        (last : ℕ)
        → last + 1 ≡ first + whole
        → size ≡ whole
        → IsTaken fl size (first, taken_out last)
    whole-IsTaken last e same =
        let d = out-IsDropped last e in
        record {
          owned = dropped-IsOwned M fl (taken_out last) tmp o d;
          was_free = λ y i. inside y (i.0, omega (arith, i.1, same));
          fewer = λ y f. (out-IsFree last e y f).0;
          taken = λ y f i. (out-IsFree last e y f).1 (i.0, omega (arith, i.1, same));
        }

    -- The front is answered, and the rest is added anew.
    rest-IsTaken :
        (last : ℕ)
        → last + 1 ≡ first + whole
        → size < whole
        → IsTaken fl size (first, add M (taken_out last) (first + size) (whole - size))
    rest-IsTaken last e less =
        let d = out-IsDropped last e in
        let (owned, free, only) =
          add-IsOwned M (taken_out last) (first + size) (whole - size)
            (dropped-IsOwned M fl (taken_out last) tmp o d) (omega (arith, less))
            (λ y i f. (out-IsFree last e y f).1 (omega (arith, i.0), omega (arith, i.1, less))) in
        record {
          owned = owned;
          was_free = λ y i. inside y (i.0, omega (arith, i.1, less));
          fewer = λ y f. elim (only y f) [
            | inl g ↦ (out-IsFree last e y g).0
            | inr i ↦ inside y (omega (arith, i.0), omega (arith, i.1, less))
          ];
          taken = λ y f i. elim (only y f) [
            | inl g ↦ (out-IsFree last e y g).1 (i.0, omega (arith, i.1, less))
            | inr n ↦ omega (arith, n.0, i.1)
          ];
        }

    -- The front is answered, and the block is cut where it is.
    module _ (last : ℕ) (e : last + 1 ≡ first + whole) (less : size < whole) where
      abbrev cut_item : ItemPos
      cut_item = record { actual_size = whole - size; parent_index = first + size }

      abbrev cut_heap : List ItemPos
      cut_heap = set fl.heap tmp cut_item

      abbrev cut_tree : M.Tree
      cut_tree = M.put (M.remove fl.index_tree first) (first + size) tmp

      abbrev cut : FreeList M
      cut = record fl { heap = cut_heap; index_tree = cut_tree }

      abbrev outside : ℕ → Option ℕ
      outside = tree M (taken_out last)

      cut_block : deref cut_heap tmp ≡ cut_item
      cut_block = get_or-set_self fl.heap tmp cut_item nil_item (o.made first tmp at_first)

      other_block : (q : ℕ) → q ≢ tmp → deref cut_heap q ≡ deref fl.heap q
      other_block q other = get_or-set_ne fl.heap tmp q cut_item nil_item (λ s. other (sym s))

      at_last : tree M fl last ≡ some tmp
      at_last = o.tiling.at_last first tmp last at_first e

      cut_new_or_old :
          (k q : ℕ)
          → M.get cut_tree k ≡ some q
          → ((q ≡ tmp) × ((k ≡ first + size) ⊎ (k ≡ last))) ⊎ (outside k ≡ some q)
      cut_new_or_old k q f =
          let written = M.get-put (M.remove fl.index_tree first) (first + size) k tmp in
          let once = M.get-remove fl.index_tree first k in
          let twice = M.get-remove (M.remove fl.index_tree first) last k in
          elim (Bool-cases (last == k)) [
            | inl here ↦
                let key : k ≡ last = sym (==→eq last k here) in
                let owner = subst (λ z. tree M fl z ≡ some tmp) (sym key) at_last in
                ground (arith, written, once, owner)
            | inr other ↦ ground (arith, written, once, twice)
          ]

      cut-IsWith : IsWith outside (M.get cut_tree) tmp (first + size) last
      cut-IsWith = record {
        is_new_or_old = cut_new_or_old;
        has_first =
            M.get-put (M.remove fl.index_tree first) (first + size) (first + size) tmp
            ∙ rw (==_self (first + size));
        has_last = ground (
          arith,
          M.get-put (M.remove fl.index_tree first) (first + size) last tmp,
          M.get-remove fl.index_tree first last,
          at_last,
          e,
          less,
        );
        kept = λ k q f a l. ground (
          arith,
          M.get-put (M.remove fl.index_tree first) (first + size) k tmp,
          M.get-remove (M.remove fl.index_tree first) last k,
        );
      }

      cut-IsRoom : IsRoom (deref fl.heap) (deref cut_heap) outside tmp (first + size) last
      cut-IsRoom = record {
        absent = λ k f. (IsWithout-keys last e).is_other k tmp f refl;
        same_block = λ k q f. other_block q ((IsWithout-keys last e).is_other k q f);
        starts = ap (λ b. b.parent_index) cut_block;
        ends = ap (λ b. b.parent_index + b.actual_size) cut_block ∙ omega (arith, e, less);
        ordered = omega (arith, e, less);
        uncovered = λ y i f. (out-IsFree last e y f).1 (
            subst (λ b. IsInside b y → IsInside (block M fl tmp) y) (sym cut_block)
              (λ j. (omega (arith, j.0), omega (arith, j.1, less))) i);
      }

      rest-IsTiling : IsTiling (deref fl.heap) outside
      rest-IsTiling =
          without-IsTiling (deref fl.heap) (tree M fl) outside tmp o.tiling (IsWithout-keys last e)

      cut_listed :
          (i q : ℕ)
          → 0 < count q (fl.size_list i)
          → M.get cut_tree (deref cut_heap q).parent_index ≡ some q
      cut_listed i q h = elim (Bool-cases (q == tmp)) [
        | inl same ↦
            subst (λ z. M.get cut_tree (deref cut_heap z).parent_index ≡ some z)
              (sym (==→eq q tmp same)) (rw cut_block cut-IsWith.has_first)
        | inr other ↦
            let apart = ==→ne q tmp other in
            rw (other_block q apart) (
              with-kept (deref fl.heap) (deref cut_heap) outside (M.get cut_tree) tmp (first + size)
                last rest-IsTiling cut-IsRoom cut-IsWith (block M fl q).parent_index q
                ((IsWithout-keys last e).kept (block M fl q).parent_index q (o.listed i q h) apart))
      ]

      cut_made : (k q : ℕ) → M.get cut_tree k ≡ some q → q < length cut_heap
      cut_made k q f = elim (cut_new_or_old k q f) [
        | inl (same, key) ↦
            omega (arith, same, o.made first tmp at_first, length-set fl.heap tmp cut_item)
        | inr there ↦ omega (
          arith,
          o.made k q ((IsWithout-keys last e).was_there k q there),
          length-set fl.heap tmp cut_item,
        )
      ]

      -- The rest stays in its class.
      cut_lists : bucket (whole - size) ≡ some idx → AreLists cut_heap fl.size_list
      cut_lists stays = record {
        classed = λ i q h. elim (Bool-cases (q == tmp)) [
          | inl same ↦
              let q_is = ==→eq q tmp same in
              let here : bucket whole ≡ some i =
                subst (λ z. bucket (block M fl z).actual_size ≡ some i) q_is
                  (o.lists.classed i q h) in
              subst (λ z. bucket (deref cut_heap z).actual_size ≡ some i) (sym q_is)
                (rw cut_block (stays ∙ (sym class ∙ here)))
          | inr other ↦ rw (other_block q (==→ne q tmp other)) (o.lists.classed i q h)
        ];
        once = o.lists.once;
      }

      cut-IsTaken : bucket (whole - size) ≡ some idx → IsTaken fl size (first, cut)
      cut-IsTaken stays = record {
        owned = record {
          tiling =
              with-IsTiling (deref fl.heap) (deref cut_heap) outside (M.get cut_tree) tmp
                (first + size) last rest-IsTiling cut-IsRoom cut-IsWith;
          made = cut_made;
          lists = cut_lists stays;
          listed = cut_listed;
        };
        was_free = λ y i. inside y (i.0, omega (arith, i.1, less));
        fewer = λ y f. elim (cut_free y f) [
          | inl i ↦ inside y (omega (arith, i.0), omega (arith, i.1, less))
          | inr g ↦ (out-IsFree last e y g).0
        ];
        taken = λ y f n. elim (cut_free y f) [
          | inl i ↦ omega (arith, i.0, n.1)
          | inr g ↦ (out-IsFree last e y g).1 (n.0, omega (arith, n.1, less))
        ];
      }
        where
          cut_free : (y : ℕ) → IsFree M cut y → IsInside cut_item y ⊎ IsFree M (taken_out last) y
          cut_free y f =
              elim (with-Covers (deref fl.heap) (deref cut_heap) outside (M.get cut_tree) tmp
                (first + size) last rest-IsTiling cut-IsRoom cut-IsWith y f) [
                  | inl i ↦ inl (subst (λ b. IsInside b y) cut_block i)
                  | inr g ↦ inr g
                ]

    -- Which of the three `findInSizeList` does.
    pub take_block-IsTaken :
        (buck_size : ℕ)
        → IsReady idx size buck_size
        → IsTaken fl size (take_block M fl idx size buck_size x tmp)
    unfolding take_block
    take_block-IsTaken buck_size ready =
        let last = first + whole - 1 in
        let full = o.tiling.nonempty first tmp at_first in
        let e : last + 1 ≡ first + whole = omega (arith, full) in
        elim (Bool-cases (size == whole)) [
          | inl same ↦
              let swapped : whole + first - 1 ≡ last = omega arith in
              rw (same, swapped) (whole-IsTaken last e (==→eq size whole same))
          | inr other ↦
              let less : size < whole = omega (arith, fits, ==→ne size whole other) in
              elim (Bool-cases (leb buck_size (whole - size))) [
                | inl large ↦
                    rw (other, large)
                      (cut-IsTaken last e less (
                        cut_in_place idx size buck_size whole ready class fits
                          (leb→le buck_size (whole - size) large)))
                | inr small ↦ rw (other, small) (rest-IsTaken last e less)
              ]
        ]

  -- `find` of a size that is not zero, in a free list in order, keeps it in order. The block of that size at the
  -- index that it answers was free, nothing of it is free any more, and nothing else has become free.
  pub find-IsTaken :
      (fl fl' : FreeList M) (size index : ℕ)
      → IsOwned M fl
      → 0 < size
      → find M fl size ≡ some (index, fl')
      → IsTaken fl size (index, fl')
  find-IsTaken fl fl' size index o positive e =
      let (idx, buck_size, x, tmp, ready, scanned, taken) = find-Found M fl fl' size index e in
      let (i, place, stands) = scan-at fl.heap size (fl.size_list idx) 0 x tmp scanned in
      let here : get_elem? (fl.size_list idx) x ≡ some tmp =
        subst (λ z. get_elem? (fl.size_list idx) z ≡ some tmp) (omega (arith, place)) stands in
      let fits = scan-fits fl.heap size (fl.size_list idx) 0 x tmp scanned in
      subst (IsTaken fl size) taken
        (take_block-IsTaken fl o idx x tmp size positive here fits buck_size ready)
