-- ===== src/FreeList/Counts.antt =====
-- The lists of the free list by how often a pointer stands in them.
use clustered_big_cache.Prelude.{
  ℕ, zero, suc, ◌+◌, ◌≤◌, ◌<◌, ◌≡◌, ◌≢◌, refl, sym, ap, ◌∙◌, subst, List, [], ◌∷◌, ◌++◌, some, none,
  arith, Bool-cases, Option-cases, none≢some, inl, inr, ◌==◌, if◌then◌else◌, ==→eq, ==→ne, ne→==,
  ==_self, some_injective, get_elem?, false, leb, leb→le, ltb, ltb→lt, ltb→le,
}
use clustered_big_cache.FreeList.{ItemPos, deref, list_pos, remove_nth, update, scan, bucket}

abbrev pub count : ℕ → List ℕ → ℕ
count p [] = 0
count p (q ∷ l) = let rest = count p l in if q == p then suc rest else rest

pub count-append : (p : ℕ) (l k : List ℕ) → count p (l ++ k) ≡ count p l + count p k
count-append p [] k = omega arith
count-append p (q ∷ l) k = ground (arith, count-append p l k)

pub count-at : (l : List ℕ) (x p : ℕ) → get_elem? l x ≡ some p → 0 < count p l
count-at [] x p e = cc
count-at (q ∷ l) zero p e = ground arith
count-at (q ∷ l) (suc x) p e = ground (arith, count-at l x p e)

-- Taking out one place takes one from the count of what stood there.
pub count-remove_nth :
    (l : List ℕ) (x p q : ℕ)
    → get_elem? l x ≡ some p
    → count q (remove_nth l x) + (if p == q then 1 else 0) ≡ count q l
count-remove_nth [] x p q e = cc
count-remove_nth (r ∷ l) zero p q e = ground arith
count-remove_nth (r ∷ l) (suc x) p q e = ground (arith, count-remove_nth l x p q e)

pub count-cut_self :
    (l : List ℕ) (x p : ℕ) → get_elem? l x ≡ some p → count p (remove_nth l x) + 1 ≡ count p l
count-cut_self l x p e = rw (==_self p) at (count-remove_nth l x p p e)

pub count-cut_other :
    (l : List ℕ) (x p q : ℕ) → get_elem? l x ≡ some p → q ≢ p → count q (remove_nth l x) ≡ count q l
count-cut_other l x p q e other =
    let differs : (p == q) ≡ false = ne→== p q (λ s. other (sym s)) in
    omega (arith, rw differs at (count-remove_nth l x p q e))

pub list_pos-at : (v : ℕ) (l : List ℕ) (x : ℕ) → list_pos v l ≡ some x → get_elem? l x ≡ some v
unfolding list_pos
list_pos-at v [] x e = cc
list_pos-at v (q ∷ l) x e = elim (Bool-cases (v == q)) [
  | inl same ↦ let here : x ≡ 0 = ground arith in rw here (ap some (sym (==→eq v q same)))
  | inr other ↦ elim (Option-cases (list_pos v l)) [
    | inl missing ↦ absurd (none≢some (rw (other, missing, list_pos) at e))
    | inr (i, there) ↦
        let next : x ≡ suc i =
          some_injective (sym (rw (other, there, list_pos) at e)) ∙ omega arith in
        rw next (list_pos-at v l i there)
  ]
]

pub list_pos-none : (v : ℕ) (l : List ℕ) → list_pos v l ≡ none → count v l ≡ 0
unfolding list_pos
list_pos-none v [] e = refl
list_pos-none v (q ∷ l) e = ground (arith, list_pos-none v l)

-- Where `scan` has found a pointer.
pub scan-at :
    (heap : List ItemPos) (size : ℕ) (l : List ℕ) (from x p : ℕ)
    → scan heap size l from ≡ some (x, p)
    → (i : ℕ) × (x ≡ from + i) × (get_elem? l i ≡ some p)
unfolding scan
scan-at heap size [] from x p e = cc
scan-at heap size (q ∷ l) from x p e = elim (Bool-cases (leb size (deref heap q).actual_size)) [
  | inl big ↦
      let here : (from, q) ≡ (x, p) = some_injective (rw (big, scan) at e) in
      (0, sym (ap (λ r. r.0) here) ∙ omega arith, ap (λ r. some r.1) here)
  | inr small ↦
      let (i, place, there) = scan-at heap size l (from + 1) x p (rw (small, scan) at e) in
      (suc i, omega (arith, place), there)
]

-- And that its block is large enough.
pub scan-fits :
    (heap : List ItemPos) (size : ℕ) (l : List ℕ) (from x p : ℕ)
    → scan heap size l from ≡ some (x, p)
    → size ≤ (deref heap p).actual_size
unfolding scan
scan-fits heap size [] from x p e = cc
scan-fits heap size (q ∷ l) from x p e = elim (Bool-cases (leb size (deref heap q).actual_size)) [
  | inl big ↦
      let here : (from, q) ≡ (x, p) = some_injective (rw (big, scan) at e) in
      subst (λ z. size ≤ (deref heap z).actual_size) (ap (λ r. r.1) here) (leb→le size _ big)
  | inr small ↦ scan-fits heap size l (from + 1) x p (rw (small, scan) at e)
]

-- One list of the array replaced.
pub count-update :
    (lists : ℕ → List ℕ) (i j : ℕ) (l : List ℕ) (p : ℕ)
    → count p (update lists i l j) ≡ (if i == j then count p l else count p (lists j))
count-update lists i j l p = ground arith

-- The lists hold each pointer once, in the class of its block.
pub record AreLists (heap : List ItemPos) (lists : ℕ → List ℕ) : Type 0 where
  pub classed : (i p : ℕ) → 0 < count p (lists i) → bucket (deref heap p).actual_size ≡ some i
  pub once : (i p : ℕ) → count p (lists i) ≤ 1

-- The lists without a pointer.
pub record AreWithout (lists lists' : ℕ → List ℕ) (p : ℕ) : Type 0 where
  pub gone : (i : ℕ) → count p (lists' i) ≡ 0
  pub others : (i q : ℕ) → q ≢ p → count q (lists' i) ≡ count q (lists i)

module _ (heap : List ItemPos) (lists : ℕ → List ℕ) (a : AreLists heap lists) where
  -- A pointer of list `i` is in no other list.
  only_list : (i j p : ℕ) → 0 < count p (lists i) → i ≢ j → count p (lists j) ≡ 0
  only_list i j p here other = elim (Bool-cases (ltb 0 (count p (lists j)))) [
    | inl there ↦
        absurd
          (other (some_injective (sym (a.classed i p here) ∙ a.classed j p (ltb→lt 0 _ there))))
    | inr there ↦ omega (arith, ltb→le 0 (count p (lists j)) there)
  ]

  pub update-AreWithout :
      (i x p : ℕ)
      → get_elem? (lists i) x ≡ some p
      → AreWithout lists (update lists i (remove_nth (lists i) x)) p
  update-AreWithout i x p e = record {
    gone = λ j. elim (Bool-cases (i == j)) [
      | inl same ↦ rw same (omega (arith, count-cut_self (lists i) x p e, a.once i p))
      | inr other ↦ rw other (only_list i j p (count-at (lists i) x p e) (==→ne i j other))
    ];
    others = λ j q other. elim (Bool-cases (i == j)) [
      | inl same ↦
          rw same
            (count-cut_other (lists i) x p q e other ∙ ap (λ k. count q (lists k)) (==→eq i j same))
      | inr apart ↦ rw apart
    ];
  }

  -- A pointer whose block has no class, or that is not in the list of its class, is in no list.
  pub unlisted :
      (p : ℕ)
      → ((i : ℕ) → bucket (deref heap p).actual_size ≡ some i → count p (lists i) ≡ 0)
      → AreWithout lists lists p
  unlisted p h = record {
    gone = λ i. elim (Bool-cases (ltb 0 (count p (lists i)))) [
      | inl there ↦ h i (a.classed i p (ltb→lt 0 (count p (lists i)) there))
      | inr there ↦ omega (arith, ltb→le 0 (count p (lists i)) there)
    ];
    others = λ i q other. refl;
  }

  pub without-AreLists :
      (lists' : ℕ → List ℕ) (p : ℕ) → AreWithout lists lists' p → AreLists heap lists'
  without-AreLists lists' p w = record {
    classed = λ i q here. elim (Bool-cases (q == p)) [
      | inl same ↦
          absurd (omega (arith, here, ap (λ z. count z (lists' i)) (==→eq q p same), w.gone i))
      | inr other ↦ a.classed i q (omega (arith, here, w.others i q (==→ne q p other)))
    ];
    once = λ i q. elim (Bool-cases (q == p)) [
      | inl same ↦ omega (arith, ap (λ z. count z (lists' i)) (==→eq q p same), w.gone i)
      | inr other ↦ omega (arith, a.once i q, w.others i q (==→ne q p other))
    ];
  }
