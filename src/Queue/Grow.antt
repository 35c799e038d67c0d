-- ===== src/Queue/Grow.antt =====
-- `allocateAdditionalMemory`: a larger array that keeps what was pushed, and is large enough.
use clustered_big_cache.Prelude.{
  ℕ, ◌+◌, ◌≤◌, ◌≡◌, refl, inl, inr, List, arith, length, take, drop, ltb, leb, ◌==◌, ◌&&◌, false,
  Bool-cases, replicate, length-replicate, length-take, le→ltb, ◌∙◌, sym, ==→eq,
}
use clustered_big_cache.Prelude.Outcome.{ok}
use clustered_big_cache.Bytes.{copy_into}
use clustered_big_cache.Bytes.Laws.{copy_into-fits, length-copy_into, slice_prefix}
use clustered_big_cache.Containers.{OrderedMap}
use clustered_big_cache.Queue.{BytesQueue, grown_capacity, allocate_additional_memory}
use clustered_big_cache.Queue.Entries.{IsEntry}
use clustered_big_cache.Queue.Linear.{IsLinear, read_prefix}

module _ (M : OrderedMap ℕ) where
  -- A larger array with the bytes up to the tail.
  pub record IsGrown (q : BytesQueue M) (q' : BytesQueue M) : Type 0 where
    pub linear : IsLinear M q'
    pub same_tail : q'.tail ≡ q.tail
    pub same_count : q'.count ≡ q.count
    pub same_list : q'.freelist ≡ q.freelist
    pub same_limit : q'.max_capacity ≡ q.max_capacity
    pub keeps :
        (i : ℕ) (other : List ℕ)
        → i + 4 + length other ≤ q.tail
        → IsEntry M q i other
        → IsEntry M q' i other

  -- Where the limit leaves room, the new capacity is enough.
  pub grown_enough :
      (q : BytesQueue M) (need : ℕ)
      → q.tail ≤ q.capacity
      → (leb q.max_capacity (q.capacity + need) && ltb 0 q.max_capacity) ≡ false
      → q.tail + need ≤ grown_capacity M q need
  grown_enough q need h full = ground arith

  IsGrown-blank :
      (q : BytesQueue M) (need : ℕ)
      → IsLinear M q
      → q.tail + need ≤ grown_capacity M q need
      → q.right_margin ≡ 1
      → IsGrown q (record q {
        array = replicate (grown_capacity M q need) 0;
        capacity = grown_capacity M q need;
      })
  IsGrown-blank q need v enough e = record {
    linear = record {
      head_left = v.head_left;
      tail_pos = v.tail_pos;
      margin = v.margin;
      allocated = sym (length-replicate (grown_capacity M q need) 0);
      tail_in = omega arith;
    };
    same_tail = refl;
    same_count = refl;
    same_list = refl;
    same_limit = refl;
    keeps = λ i other h o. absurd (omega (arith, v.margin, o.positive));
  }

  IsGrown-copy :
      (q : BytesQueue M) (need : ℕ)
      → IsLinear M q
      → q.tail + need ≤ grown_capacity M q need
      → IsGrown q (record q {
        array = copy_into (replicate (grown_capacity M q need) 0) (take q.right_margin q.array);
        capacity = grown_capacity M q need;
      })
  IsGrown-copy q need v enough = record {
    linear = record {
      head_left = v.head_left;
      tail_pos = v.tail_pos;
      margin = v.margin;
      allocated = sym (
          length-copy_into (replicate (grown_capacity M q need) 0) (take q.right_margin q.array)
          ∙ length-replicate (grown_capacity M q need) 0);
      tail_in = omega arith;
    };
    same_tail = refl;
    same_count = refl;
    same_list = refl;
    same_limit = refl;
    keeps = λ i other h o. record {
      positive = o.positive;
      nonempty = o.nonempty;
      word = o.word;
      inside = omega (
        arith,
        length-copy_into (replicate (grown_capacity M q need) 0) (take q.right_margin q.array),
        length-replicate {A = ℕ} (grown_capacity M q need) 0,
      );
      header = same i 4 (omega arith) ∙ o.header;
      body = same (i + 4) (length other) (omega arith) ∙ o.body;
    };
  }
    where
      same :
          (lo n : ℕ)
          → lo + n ≤ q.tail
          → take n (
              drop lo
                (copy_into (replicate (grown_capacity M q need) 0) (take q.right_margin q.array)))
            ≡ take n (drop lo q.array)
      same lo n h =
          rw
            (copy_into-fits (replicate (grown_capacity M q need) 0) (take q.right_margin q.array) (
              omega (
                arith,
                v.margin,
                length-take q.right_margin q.array,
                length-replicate {A = ℕ} (grown_capacity M q need) 0,
              )))
            (read_prefix q.array _ q.right_margin lo n (omega (arith, v.margin))
              (omega (arith, v.margin, v.allocated, v.tail_in)))

  -- `allocateAdditionalMemory` keeps what has been pushed.
  pub allocate-IsGrown :
      (q : BytesQueue M) (need : ℕ)
      → IsLinear M q
      → q.tail + need ≤ grown_capacity M q need
      → (q' : BytesQueue M) × (allocate_additional_memory M q need ≡ ok q')
        × IsGrown q q'
        × (q'.capacity ≡ grown_capacity M q need)
  unfolding allocate_additional_memory
  allocate-IsGrown q need v enough = elim (Bool-cases (q.right_margin == 1)) [
    | inl e ↦ (_, rw e, IsGrown-blank q need v enough (==→eq q.right_margin 1 e), refl)
    | inr e ↦ (
      _,
      rw (
        e,
        slice_prefix q.array q.right_margin (omega (arith, v.margin, v.allocated, v.tail_in)),
        le→ltb q.tail q.head (omega (arith, v.head_left, v.tail_pos)),
      ),
      IsGrown-copy q need v enough,
      refl,
    )
  ]

  pub same-IsGrown : (q : BytesQueue M) → IsLinear M q → IsGrown q q
  same-IsGrown q v = record {
    linear = v;
    same_tail = refl;
    same_count = refl;
    same_list = refl;
    same_limit = refl;
    keeps = λ i other h o. o;
  }
