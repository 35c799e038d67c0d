-- ===== src/FreeList/Found.antt =====
-- What a call of `find` has done when it answers an index.
use clustered_big_cache.Prelude.{
  ℕ, zero, suc, ◌+◌, ◌-◌, ◌*◌, ◌≤◌, ◌≡◌, List, [], ◌∷◌, Option, some, none, arith, ltb, leb, leb→le,
  if◌then◌else◌, All, Bool-cases, Option-cases, inl, inr, ◌∙◌, some-injective,
}
use clustered_big_cache.Containers.{OrderedMap}
use clustered_big_cache.FreeList.{
  ItemPos, deref, scan, FreeList, take_block, find_in_size_list, find_from, find, find_start,
}
use clustered_big_cache.FreeList.Classes.{IsReady, find_start-IsReady, next-IsReady}

-- What `scan` answers is a pointer of the list, whose block is large enough.
pub scan_sound {ℓ} :
    (P : ℕ → Type ℓ) (heap : List ItemPos) (size : ℕ) (arr : List ℕ) (from x p : ℕ)
    → All P arr
    → scan heap size arr from ≡ some (x, p)
    → P p × (size ≤ (deref heap p).actual_size)
unfolding scan
scan_sound P heap size [] from x p h e = cc
scan_sound P heap size (q ∷ arr) from x p h e =
    elim (Bool-cases (leb size (deref heap q).actual_size)) [
      | inl big ↦
          let same : q ≡ p = ground arith in
          rw (← same) (h.0, leb→le size (deref heap q).actual_size big)
      | inr small ↦ scan_sound P heap size arr (from + 1) x p h.1 (rw small at e)
    ]

module _ (M : OrderedMap ℕ) where
  -- `find` has cut its answer from the block `tmp`, the first of list `idx` that is large enough.
  abbrev pub Found : FreeList M → ℕ → ℕ × FreeList M → Type 0
  Found fl size r =
      (idx buck_size x tmp : ℕ) × IsReady idx size buck_size
      × (scan fl.heap size (fl.size_list idx) 0 ≡ some (x, tmp))
      × (take_block M fl idx size buck_size x tmp ≡ r)

  find_in_size_list-Found :
      (fl : FreeList M) (idx size buck_size : ℕ) (r : ℕ × FreeList M)
      → IsReady idx size buck_size
      → find_in_size_list M fl idx size buck_size ≡ some r
      → Found fl size r
  unfolding find_in_size_list
  find_in_size_list-Found fl idx size buck_size r ready e =
      elim (Option-cases (scan fl.heap size (fl.size_list idx) 0)) [
        | inl n ↦ absurd (none_some (rw (n, find_in_size_list) at e))
        | inr ((x, tmp), s) ↦
            (idx, buck_size, x, tmp, ready, s, some-injective _ _ (rw (s, find_in_size_list) at e))
      ]
    where
      none_some : ◌≡◌ {A = Option (ℕ × FreeList M)} none (some r) → ⊥
      none_some h = cc

  find_from-Found :
      (rounds : ℕ) (fl : FreeList M) (idx size buck_size : ℕ) (r : ℕ × FreeList M)
      → IsReady idx size buck_size
      → find_from M rounds fl idx size buck_size ≡ some r
      → Found fl size r
  unfolding find_from
  find_from-Found zero fl idx size buck_size r ready e = cc
  find_from-Found (suc rounds) fl idx size buck_size r ready e =
      elim (Option-cases (find_in_size_list M fl idx size buck_size)) [
        | inl n ↦
            find_from-Found rounds fl (idx + 1) size (if ltb idx 6 then buck_size * 2 else 4097) r
              (next-IsReady idx size buck_size ready) (rw (n, find_from) at e)
        | inr (r', s) ↦
            find_in_size_list-Found fl idx size buck_size r ready (s ∙ (rw (s, find_from) at e))
      ]

  pub find-Found :
      (fl fl' : FreeList M) (size index : ℕ)
      → find M fl size ≡ some (index, fl')
      → Found fl size (index, fl')
  unfolding find
  find-Found fl fl' size index e =
      find_from-Found (8 - (find_start size).0) fl (find_start size).0 size (find_start size).1
        (index, fl') (find_start-IsReady size) e
