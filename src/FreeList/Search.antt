-- ===== src/FreeList/Search.antt =====
-- `find` against a search of all eight lists.
use clustered_big_cache.Prelude.{
  ℕ, zero, suc, ◌+◌, ◌-◌, ◌*◌, ◌≤◌, ◌<◌, ◌≡◌, ◌≢◌, List, [], ◌∷◌, some, none, arith, ltb, leb,
  leb→le, if◌then◌else◌, All-get, get_elem?, Bool-cases, Option-cases, inl, inr, ◌∙◌, sym, ap,
  leb→lt, none≢some, some-injective,
}
use native.Mathlib.Decide.{ℕ_discrete}
use clustered_big_cache.Containers.{OrderedMap}
use clustered_big_cache.FreeList.{
  ItemPos, deref, scan, FreeList, take_block, find_in_size_list, find_from, find, find_start,
}
use clustered_big_cache.FreeList.Classes.{find_start-le-bucket, bucket_bounds}
use clustered_big_cache.FreeList.Buckets.{InClass, HasClasses}
use clustered_big_cache.FreeList.Found.{find-Found}

scan_place :
    (heap : List ItemPos) (size : ℕ) (arr : List ℕ) (from x p : ℕ)
    → scan heap size arr from ≡ some (x, p)
    → (n : ℕ) × (x ≡ from + n) × (get_elem? arr n ≡ some p) × (size ≤ (deref heap p).actual_size)
unfolding scan
scan_place heap size [] from x p e = cc
scan_place heap size (q ∷ arr) from x p e =
    elim (Bool-cases (leb size (deref heap q).actual_size)) [
      | inl big ↦
          let same : q ≡ p = ground arith in
          (0, ground arith, ap some same, rw (← same) (leb→le size (deref heap q).actual_size big))
      | inr small ↦
          let (n, at, found, fits) = scan_place heap size arr (from + 1) x p (rw small at e) in
          (suc n, omega arith, found, fits)
    ]

scan-none :
    (heap : List ItemPos) (size : ℕ) (arr : List ℕ) (n from : ℕ) {p : ℕ}
    → scan heap size arr from ≡ none
    → get_elem? arr n ≡ some p
    → (deref heap p).actual_size < size
unfolding scan
scan-none heap size [] n from e g = cc
scan-none heap size (q ∷ arr) zero from {p} e g =
    elim (Bool-cases (leb size (deref heap q).actual_size)) [
      | inl big ↦ absurd (none≢some (sym (rw big at e)))
      | inr small ↦
          let same : q ≡ p = some-injective q p g in
          rw (← same) (leb→lt size (deref heap q).actual_size small)
    ]
scan-none heap size (q ∷ arr) (suc n) from e g =
    elim (Bool-cases (leb size (deref heap q).actual_size)) [
      | inl big ↦ absurd (none≢some (sym (rw big at e)))
      | inr small ↦ scan-none heap size arr n (from + 1) (rw small at e) g
    ]

module _ (M : OrderedMap ℕ) (fl : FreeList M) where
  -- A block that stands in one of the lists and is large enough.
  abbrev pub HasRoom : ℕ → ℕ → Type 0
  HasRoom size index =
      (i n p : ℕ) × (get_elem? (fl.size_list i) n ≡ some p)
      × (size ≤ (deref fl.heap p).actual_size)
      × ((deref fl.heap p).parent_index ≡ index)

  index-take_block :
      (idx size buck_size x tmp : ℕ)
      → (take_block M fl idx size buck_size x tmp).0 ≡ (deref fl.heap tmp).parent_index
  unfolding take_block
  index-take_block idx size buck_size x tmp = ground arith

  find-HasRoom :
      (fl' : FreeList M) (size index : ℕ) → find M fl size ≡ some (index, fl') → HasRoom size index
  find-HasRoom fl' size index e =
      let (idx, buck_size, x, tmp, ready, found, taken) = find-Found M fl fl' size index e in
      let (n, at, here, fits) = scan_place fl.heap size (fl.size_list idx) 0 x tmp found in
      (
        idx,
        n,
        tmp,
        here,
        fits,
        sym (index-take_block idx size buck_size x tmp) ∙ ap (λ r. r.0) taken,
      )

  find_from-none :
      (rounds idx size buck_size i : ℕ)
      → find_from M rounds fl idx size buck_size ≡ none
      → idx ≤ i
      → i < idx + rounds
      → scan fl.heap size (fl.size_list i) 0 ≡ none
  unfolding find_from find_in_size_list
  find_from-none zero idx size buck_size i e lo hi = absurd (omega arith)
  find_from-none (suc rounds) idx size buck_size i e lo hi =
      elim (Option-cases (scan fl.heap size (fl.size_list idx) 0)) [
        | inr ((x, tmp), s) ↦ absurd (none≢some (sym (rw (s, find_from, find_in_size_list) at e)))
        | inl s ↦ elim (ℕ_discrete idx i) [
          | yes same ↦ rw (← same) s
          | no other ↦
              find_from-none rounds (idx + 1) size (if ltb idx 6 then buck_size * 2 else 4097) i
                (rw (s, find_from, find_in_size_list) at e) (lt_of_ne idx i lo other) (omega arith)
        ]
      ]
    where
      lt_of_ne : (a b : ℕ) → a ≤ b → a ≢ b → a + 1 ≤ b
      lt_of_ne a b h ne = omega arith

  find_complete : (size index : ℕ) → HasClasses M fl → HasRoom size index → find M fl size ≢ none
  unfolding find
  find_complete size index h (i, n, p, at, fits, here) e =
      let (below, class) = All-get (InClass fl.heap i) (fl.size_list i) n (h i) at in
      let empty =
        find_from-none (8 - (find_start size).0) (find_start size).0 size (find_start size).1 i e
          (find_start-le-bucket size (deref fl.heap p).actual_size i class fits)
          (omega (arith, bucket_bounds (deref fl.heap p).actual_size i class)) in
      absurd (omega (arith, scan-none fl.heap size (fl.size_list i) n 0 empty at))

  -- Searching only from the class of the requested size on misses nothing: where every block stands in
  -- the list of its size, `find` answers -1 exactly when no block of any list is large enough, and an
  -- answer is the index of a block that is large enough.
  pub find_exhaustive :
      (size : ℕ)
      → HasClasses M fl
      → ((fl' : FreeList M) (index : ℕ) → find M fl size ≡ some (index, fl') → HasRoom size index)
        × ((index : ℕ) → HasRoom size index → find M fl size ≢ none)
  find_exhaustive size h =
      (λ fl' index e. find-HasRoom fl' size index e, λ index room. find_complete size index h room)
