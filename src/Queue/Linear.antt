-- ===== src/Queue/Linear.antt =====
-- A queue from which nothing has been popped, as the shards use it: one run of entries.
use clustered_big_cache.Prelude.{
  ℕ, zero, suc, ◌+◌, ◌≤◌, ◌≡◌, refl, List, [], ◌∷◌, ◌++◌, arith, length, take, drop,
  length-replicate, lt→ltb, ap, ◌∙◌, sym,
}
use clustered_big_cache.Prelude.Outcome.{ok}
use clustered_big_cache.Containers.{OrderedMap}
use clustered_big_cache.Queue.{BytesQueue, new_bytes_queue, push_at_tail, push_finish}
use clustered_big_cache.Queue.Entries.{written, copy_entry_fits, length-written}

-- A read within a prefix that was kept.
pub read_prefix :
    (a rest : List ℕ) (t lo n : ℕ)
    → lo + n ≤ t
    → t ≤ length a
    → take n (drop lo (take t a ++ rest)) ≡ take n (drop lo a)
read_prefix a rest zero zero zero h k = refl
read_prefix a rest zero zero (suc n) h k = absurd (omega arith)
read_prefix a rest zero (suc lo) n h k = absurd (omega arith)
read_prefix [] rest (suc t) lo n h k = absurd (omega arith)
read_prefix (x ∷ a) rest (suc t) zero zero h k = refl
read_prefix (x ∷ a) rest (suc t) zero (suc n) h k =
    ap (λ l. x ∷ l) (read_prefix a rest t zero n (omega arith) (omega arith))
read_prefix (x ∷ a) rest (suc t) (suc lo) n h k =
    read_prefix a rest t lo n (omega arith) (omega arith)

module _ (M : OrderedMap ℕ) where
  -- A queue with no gap before its head, whose tail is the end of what was pushed.
  pub record IsLinear (q : BytesQueue M) : Type 0 where
    pub head_left : q.head ≡ 1
    pub tail_pos : 1 ≤ q.tail
    pub margin : q.right_margin ≡ q.tail
    pub allocated : q.capacity ≡ length q.array
    pub tail_in : q.tail ≤ q.capacity

  pub new_bytes_queue-IsLinear :
      (initial max : ℕ) → 1 ≤ initial → IsLinear (new_bytes_queue M initial max)
  unfolding new_bytes_queue
  new_bytes_queue-IsLinear initial max h = record {
    head_left = refl;
    tail_pos = omega arith;
    margin = refl;
    allocated = sym (length-replicate initial 0);
    tail_in = h;
  }

  -- The queue with one more entry at its tail.
  abbrev pub appended : BytesQueue M → List ℕ → BytesQueue M
  appended q src = record q {
    array = written q.array q.tail src;
    tail = q.tail + 4 + length src;
    right_margin = q.tail + 4 + length src;
    count = q.count + 1;
  }

  pub push_finish_fits :
      (q : BytesQueue M) (src : List ℕ)
      → IsLinear q
      → q.tail + 4 + length src ≤ q.capacity
      → push_finish M q src ≡ ok (q.tail, appended q src)
  unfolding push_finish push_at_tail
  push_finish_fits q src v fits = rw (
    copy_entry_fits M q src (omega (arith, v.allocated)),
    lt→ltb q.head (q.tail + 4 + length src) (omega (arith, v.head_left, v.tail_pos)),
  )

  pub appended-IsLinear :
      (q : BytesQueue M) (src : List ℕ)
      → IsLinear q
      → q.tail + 4 + length src ≤ q.capacity
      → IsLinear (appended q src)
  appended-IsLinear q src v fits = record {
    head_left = v.head_left;
    tail_pos = omega arith;
    margin = refl;
    allocated = v.allocated ∙ sym (length-written q.array q.tail src);
    tail_in = fits;
  }
