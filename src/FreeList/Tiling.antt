-- ===== src/FreeList/Tiling.antt =====
-- The tree of the free list as blocks that lie apart: each is found by its first and by its last index.
-- `B` is the block at a pointer, and `T` what the tree answers for an index.
use clustered_big_cache.Prelude.{
  ℕ, ◌+◌, ◌≤◌, ◌<◌, ◌≡◌, ◌≢◌, ◌⊎◌, inl, inr, sym, ◌∙◌, subst, Option, some, arith, Bool-cases, leb,
  leb→le, leb→lt,
}
use clustered_big_cache.FreeList.{ItemPos}

-- An index inside a block.
abbrev pub IsInside : ItemPos → ℕ → Type 0
IsInside b x = (b.parent_index ≤ x) × (x < b.parent_index + b.actual_size)

pub record IsTiling (B : ℕ → ItemPos) (T : ℕ → Option ℕ) : Type 0 where
  pub nonempty : (k p : ℕ) → T k ≡ some p → 0 < (B p).actual_size
  pub at_end :
      (k p : ℕ)
      → T k ≡ some p
      → (k ≡ (B p).parent_index) ⊎ (k + 1 ≡ (B p).parent_index + (B p).actual_size)
  pub at_first : (k p : ℕ) → T k ≡ some p → T (B p).parent_index ≡ some p
  pub at_last :
      (k p j : ℕ) → T k ≡ some p → j + 1 ≡ (B p).parent_index + (B p).actual_size → T j ≡ some p
  pub apart :
      (k p j q : ℕ)
      → T k ≡ some p
      → T j ≡ some q
      → p ≢ q
      → ((B p).parent_index + (B p).actual_size ≤ (B q).parent_index)
        ⊎ ((B q).parent_index + (B q).actual_size ≤ (B p).parent_index)

-- An index that some block of the tree has.
abbrev pub Covers : (ℕ → ItemPos) → (ℕ → Option ℕ) → ℕ → Type 0
Covers B T x = (k : ℕ) × (p : ℕ) × (T k ≡ some p) × IsInside (B p) x

-- The keys of a block are its own indices.
pub key-IsInside :
    (B : ℕ → ItemPos) (T : ℕ → Option ℕ) (k p : ℕ) → IsTiling B T → T k ≡ some p → IsInside (B p) k
key-IsInside B T k p t e = elim (t.at_end k p e) [
  | inl a ↦ (omega arith, omega (arith, t.nonempty k p e))
  | inr b ↦ (omega (arith, t.nonempty k p e), omega arith)
]

swap {ℓ κ} : {A : Type ℓ} {B : Type κ} → A ⊎ B → B ⊎ A
swap (inl a) = inr a
swap (inr b) = inl b

-- The tree without one block.
pub record IsWithout (T T' : ℕ → Option ℕ) (p : ℕ) : Type 0 where
  pub was_there : (k q : ℕ) → T' k ≡ some q → T k ≡ some q
  pub is_other : (k q : ℕ) → T' k ≡ some q → q ≢ p
  pub kept : (k q : ℕ) → T k ≡ some q → q ≢ p → T' k ≡ some q

module _ (B : ℕ → ItemPos) (T T' : ℕ → Option ℕ) (p : ℕ) where
  pub without-IsTiling : IsTiling B T → IsWithout T T' p → IsTiling B T'
  without-IsTiling t w = record {
    nonempty = λ k q e. t.nonempty k q (w.was_there k q e);
    at_end = λ k q e. t.at_end k q (w.was_there k q e);
    at_first = λ k q e.
        w.kept (B q).parent_index q (t.at_first k q (w.was_there k q e)) (w.is_other k q e);
    at_last = λ k q j e h. w.kept j q (t.at_last k q j (w.was_there k q e) h) (w.is_other k q e);
    apart = λ k q j r e f other. t.apart k q j r (w.was_there k q e) (w.was_there j r f) other;
  }

  -- It covers nothing of the block any more, and nothing new.
  pub without-Covers :
      (x k : ℕ)
      → IsTiling B T
      → IsWithout T T' p
      → T k ≡ some p
      → Covers B T' x
      → Covers B T x × ¬ IsInside (B p) x
  without-Covers x k t w there (j, q, e, inside) = (
    (j, q, w.was_there j q e, inside),
    λ i. elim (t.apart k p j q there (w.was_there j q e) (λ s. w.is_other j q e (sym s))) [
      | inl before ↦ omega (arith, i.0, i.1, inside.0, inside.1)
      | inr behind ↦ omega (arith, i.0, i.1, inside.0, inside.1)
    ],
  )

-- The tree with one more block, at `first` and `last`.
pub record IsWith (T T' : ℕ → Option ℕ) (p first last : ℕ) : Type 0 where
  pub is_new_or_old :
      (k q : ℕ) → T' k ≡ some q → ((q ≡ p) × ((k ≡ first) ⊎ (k ≡ last))) ⊎ (T k ≡ some q)
  pub has_first : T' first ≡ some p
  pub has_last : T' last ≡ some p
  pub kept : (k q : ℕ) → T k ≡ some q → k ≢ first → k ≢ last → T' k ≡ some q

-- A new block may be put where nothing is covered, under a pointer that the tree does not have. The other
-- blocks may have been moved on the heap.
pub record IsRoom (B B' : ℕ → ItemPos) (T : ℕ → Option ℕ) (p first last : ℕ) : Type 0 where
  pub absent : (k : ℕ) → T k ≢ some p
  pub same_block : (k q : ℕ) → T k ≡ some q → B' q ≡ B q
  pub starts : (B' p).parent_index ≡ first
  pub ends : (B' p).parent_index + (B' p).actual_size ≡ last + 1
  pub ordered : first ≤ last
  pub uncovered : (x : ℕ) → IsInside (B' p) x → ¬ Covers B T x

module _ (B B' : ℕ → ItemPos) (T T' : ℕ → Option ℕ) (p first last : ℕ) where
  -- A key of an old block is none of the new block's.
  old_key :
      (k q : ℕ) → IsTiling B T → IsRoom B B' T p first last → T k ≡ some q → ¬ IsInside (B' p) k
  old_key k q t r e i = r.uncovered k i (k, q, e, key-IsInside B T k q t e)

  old_stays :
      (k q : ℕ)
      → IsTiling B T
      → IsRoom B B' T p first last
      → IsWith T T' p first last
      → T k ≡ some q
      → T' k ≡ some q
  old_stays k q t r w e =
      w.kept k q e
        (λ s. old_key k q t r e (omega (arith, r.starts), omega (arith, r.ends, r.ordered)))
        (λ s. old_key k q t r e (omega (arith, r.starts, r.ordered), omega (arith, r.ends)))

  new_apart :
      (k q : ℕ)
      → IsTiling B T
      → IsRoom B B' T p first last
      → T k ≡ some q
      → ((B' p).parent_index + (B' p).actual_size ≤ (B q).parent_index)
        ⊎ ((B q).parent_index + (B q).actual_size ≤ (B' p).parent_index)
  new_apart k q t r e =
      let full = t.nonempty k q e in
      elim (Bool-cases (leb (B' p).parent_index (B q).parent_index)) [
        | inl before ↦
            elim (Bool-cases (leb ((B' p).parent_index + (B' p).actual_size) (B q).parent_index)) [
              | inl fits ↦ inl (leb→le _ _ fits)
              | inr over ↦ absurd (
                  r.uncovered (B q).parent_index (leb→le _ _ before, leb→lt _ _ over)
                    (k, q, e, (omega arith, omega (arith, full))))
            ]
        | inr behind ↦
            elim (Bool-cases (leb ((B q).parent_index + (B q).actual_size) (B' p).parent_index)) [
              | inl fits ↦ inr (leb→le _ _ fits)
              | inr over ↦
                  let less = leb→lt (B' p).parent_index (B q).parent_index behind in
                  absurd (
                    r.uncovered (B' p).parent_index
                      (omega arith, omega (arith, r.starts, r.ends, r.ordered))
                      (k, q, e, (omega (arith, less), leb→lt _ _ over)))
            ]
      ]

  module _ (t : IsTiling B T) (r : IsRoom B B' T p first last) (w : IsWith T T' p first last) where
    -- What holds of the new block and of the old ones holds of all.
    all_blocks {ℓ} :
        (P : ℕ → ℕ → Type ℓ)
        → ((k : ℕ) → (k ≡ first) ⊎ (k ≡ last) → P k p)
        → ((k q : ℕ) → T k ≡ some q → P k q)
        → (k q : ℕ) → T' k ≡ some q
        → P k q
    all_blocks P new old k q e = elim (w.is_new_or_old k q e) [
      | inl (same, key) ↦ subst (P k) (sym same) (new k key)
      | inr there ↦ old k q there
    ]

    apart_with :
        (k q j u : ℕ)
        → T' k ≡ some q
        → T' j ≡ some u
        → q ≢ u
        → ((B' q).parent_index + (B' q).actual_size ≤ (B' u).parent_index)
          ⊎ ((B' u).parent_index + (B' u).actual_size ≤ (B' q).parent_index)
    apart_with k q j u e f other = elim (w.is_new_or_old k q e) [
      | inl (same, key) ↦ elim (w.is_new_or_old j u f) [
        | inl (same', key') ↦ absurd (other (same ∙ sym same'))
        | inr there ↦ rw (same, r.same_block j u there) (new_apart j u t r there)
      ]
      | inr there ↦ elim (w.is_new_or_old j u f) [
        | inl (same, key) ↦ rw (same, r.same_block k q there) (swap (new_apart k q t r there))
        | inr there' ↦
            rw (r.same_block k q there, r.same_block j u there')
              (t.apart k q j u there there' other)
      ]
    ]

    pub with-IsTiling : IsTiling B' T'
    with-IsTiling = record {
      nonempty =
          all_blocks (λ k q. 0 < (B' q).actual_size)
            (λ k key. omega (arith, r.starts, r.ends, r.ordered))
            (λ k q e. rw (r.same_block k q e) (t.nonempty k q e));
      at_end =
          all_blocks
            (λ k q. (k ≡ (B' q).parent_index) ⊎ (k + 1 ≡ (B' q).parent_index + (B' q).actual_size))
            (λ k key. elim key [
              | inl a ↦ inl (a ∙ sym r.starts)
              | inr b ↦ inr (omega (arith, r.ends))
            ])
            (λ k q e. rw (r.same_block k q e) (t.at_end k q e));
      at_first =
          all_blocks (λ k q. T' (B' q).parent_index ≡ some q) (λ k key. rw r.starts w.has_first)
            (λ k q e.
              rw (r.same_block k q e) (old_stays (B q).parent_index q t r w (t.at_first k q e)));
      at_last = λ k q j e.
          all_blocks (λ k q. j + 1 ≡ (B' q).parent_index + (B' q).actual_size → T' j ≡ some q)
            (λ k key h. let same : j ≡ last = omega (arith, r.ends) in rw same w.has_last)
            (λ k q e. rw (r.same_block k q e) (λ h. old_stays j q t r w (t.at_last k q j e h))) k q
            e;
      apart = apart_with;
    }

    -- What is covered now was covered, or is in the new block.
    pub with-Covers : (x : ℕ) → Covers B' T' x → IsInside (B' p) x ⊎ Covers B T x
    with-Covers x (k, q, e, i) = elim (w.is_new_or_old k q e) [
      | inl (same, key) ↦ inl (subst (λ z. IsInside (B' z) x) same i)
      | inr there ↦ inr (k, q, there, subst (λ b. IsInside b x) (r.same_block k q there) i)
    ]

    pub with-kept : (k q : ℕ) → T k ≡ some q → T' k ≡ some q
    with-kept k q e = old_stays k q t r w e
