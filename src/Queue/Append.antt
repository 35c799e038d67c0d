-- ===== src/Queue/Append.antt =====
-- `Push` where the free list has no block, on a queue from which nothing has been popped, as the
-- shards use it.
use clustered_big_cache.Prelude.{
  ℕ, ◌+◌, ◌-◌, ◌^◌, ◌≤◌, ◌<◌, ◌≡◌, ◌⊎◌, inl, inr, List, none, arith, length, ltb, leb, ◌&&◌, true,
  false, Bool-cases, ltb→lt, ltb→le, lt→ltb, le→leb, refl,
}
use clustered_big_cache.Prelude.Int.{pos, ltb_ℤ, leb_ℤ}
use clustered_big_cache.Prelude.Outcome.{Outcome, ok, err, full_queue}
use clustered_big_cache.Containers.{OrderedMap}
use clustered_big_cache.FreeList
use clustered_big_cache.Queue.{
  BytesQueue, available_space_after_tail, available_space_before_head, push_finish, push_append,
  push,
}
use clustered_big_cache.Queue.Entries.{IsEntry, written-IsEntryOf, written-keeps}
use clustered_big_cache.Queue.Linear.{IsLinear, appended, push_finish_fits, appended-IsLinear}
use clustered_big_cache.Queue.Grow.{IsGrown, grown_enough, allocate-IsGrown, same-IsGrown}

module _ (M : OrderedMap ℕ) where
  -- The two tests for room, on a linear queue.
  after_tail :
      (q : BytesQueue M) (need : ℕ)
      → IsLinear M q
      → ltb_ℤ (available_space_after_tail M q) (pos need) ≡ ltb (q.capacity - q.tail) need
  unfolding available_space_after_tail
  after_tail q need v = ground arith

  before_head :
      (q : BytesQueue M) (need : ℕ)
      → IsLinear M q
      → leb_ℤ (pos need) (available_space_before_head M q) ≡ false
  unfolding available_space_before_head
  before_head q need v = ground arith

  -- What a push that appends has done: the new entry stands at the old tail, the tail has passed it, and
  -- the entries before the old tail are as they were.
  pub record IsAppended (q : BytesQueue M) (src : List ℕ) (q' : BytesQueue M) : Type 0 where
    pub linear : IsLinear M q'
    pub entry : IsEntry M q' q.tail src
    pub tail_past : q'.tail ≡ q.tail + 4 + length src
    pub counted : q'.count ≡ q.count + 1
    pub same_list : q'.freelist ≡ q.freelist
    pub same_limit : q'.max_capacity ≡ q.max_capacity
    pub keeps :
        (i : ℕ) (other : List ℕ)
        → i + 4 + length other ≤ q.tail
        → IsEntry M q i other
        → IsEntry M q' i other

  written-IsAppended :
      (q q₁ : BytesQueue M) (src : List ℕ)
      → IsGrown M q q₁
      → 0 < length src
      → length src < 2 ^ 32
      → q.tail + 4 + length src ≤ q₁.capacity
      → (q' : BytesQueue M) × (push_finish M q₁ src ≡ ok (q.tail, q')) × IsAppended q src q'
  written-IsAppended q q₁ src g long word fits = (
    appended M q₁ src,
    rw (← g.same_tail) (push_finish_fits M q₁ src g.linear (omega (arith, g.same_tail))),
    record {
      linear = appended-IsLinear M q₁ src g.linear (omega (arith, g.same_tail));
      entry = rw (← g.same_tail) (
          written-IsEntryOf q₁.array q₁.tail src (omega (arith, g.linear.tail_pos)) long word
            (omega (arith, g.same_tail, g.linear.allocated)));
      tail_past = omega (arith, g.same_tail);
      counted = omega (arith, g.same_count);
      same_list = g.same_list;
      same_limit = g.same_limit;
      keeps = λ i other h o.
          written-keeps q₁.array q₁.tail src i other (omega (arith, g.same_tail))
            (g.keeps i other h o);
    },
  )

  -- A queue with a limit, where an entry of `size` bytes does not fit, and the array may not grow for it.
  abbrev pub IsFull : BytesQueue M → (size : ℕ) → Type 0
  IsFull q size =
      (q.capacity < q.tail + 4 + size)
      × (0 < q.max_capacity)
      × (q.max_capacity ≤ q.capacity + 4 + size)

  -- The two outcomes of a push that finds no free block. It is refused only where a limit is set and the
  -- array, even at the limit, has no room.
  abbrev pub Appends : BytesQueue M → List ℕ → Outcome (ℕ × BytesQueue M) → Type 0
  Appends q src r =
      ((r ≡ err full_queue) × IsFull q (length src))
      ⊎ ((q' : BytesQueue M) × (r ≡ ok (q.tail, q')) × IsAppended q src q')

  append_roomy :
      (q : BytesQueue M) (src : List ℕ)
      → IsLinear M q
      → 0 < length src
      → length src < 2 ^ 32
      → ltb (q.capacity - q.tail) (length src + 4) ≡ false
      → Appends q src (push_append M q src)
  unfolding push_append
  append_roomy q src v long word roomy = inr (
      rw (after_tail q (length src + 4) v, roomy)
        (written-IsAppended q q src (same-IsGrown M q v) long word
          (omega (arith, ltb→le (q.capacity - q.tail) (length src + 4) roomy, v.tail_in))))

  append_full :
      (q : BytesQueue M) (src : List ℕ)
      → IsLinear M q
      → ltb (q.capacity - q.tail) (length src + 4) ≡ true
      → (leb q.max_capacity (q.capacity + 4 + length src) && ltb 0 q.max_capacity) ≡ true
      → Appends q src (push_append M q src)
  unfolding push_append
  append_full q src v tight full = inl (
    rw (after_tail q (length src + 4) v, tight, before_head q (length src + 4) v, full),
    (
      omega (arith, ltb→lt (q.capacity - q.tail) (length src + 4) tight),
      ground arith,
      ground arith,
    ),
  )

  append_grown :
      (q : BytesQueue M) (src : List ℕ)
      → IsLinear M q
      → 0 < length src
      → length src < 2 ^ 32
      → ltb (q.capacity - q.tail) (length src + 4) ≡ true
      → (leb q.max_capacity (q.capacity + 4 + length src) && ltb 0 q.max_capacity) ≡ false
      → Appends q src (push_append M q src)
  unfolding push_append
  append_grown q src v long word tight room =
      let enough = grown_enough M q (length src + 4) v.tail_in (regroup room) in
      let (q₁, grown, g, size) = allocate-IsGrown M q (length src + 4) v enough in
      let (q', finished, a) = written-IsAppended q q₁ src g long word (omega (arith, size)) in
      inr (
        q',
        rw (
          after_tail q (length src + 4) v,
          tight,
          before_head q (length src + 4) v,
          room,
          grown,
          finished,
        ),
        a,
      )
    where
      regroup :
          (leb q.max_capacity (q.capacity + 4 + length src) && ltb 0 q.max_capacity) ≡ false
          → (leb q.max_capacity (q.capacity + (length src + 4)) && ltb 0 q.max_capacity) ≡ false
      regroup h = ground arith

  -- On a queue from which nothing was popped, and where the free list has no block that is large enough,
  -- `Push` of 1 to 2 ^ 32 - 1 bytes stores an entry that `Get` reads back at the index it answers, and
  -- keeps every entry that was pushed before, also when the array grows. It refuses only where a limit
  -- is set and the entry does not fit below it.
  pub push-Appends :
      (q : BytesQueue M) (src : List ℕ)
      → IsLinear M q
      → 0 < length src
      → length src < 2 ^ 32
      → FreeList.find M q.freelist (length src + 4) ≡ none
      → Appends q src (push M q src)
  unfolding push
  push-Appends q src v long word none_free =
      rw (none_free, push)
        (elim (Bool-cases (ltb (q.capacity - q.tail) (length src + 4))) [
          | inr roomy ↦ append_roomy q src v long word roomy
          | inl tight ↦
              elim (Bool-cases
                (leb q.max_capacity (q.capacity + 4 + length src) && ltb 0 q.max_capacity)) [
                  | inl full ↦ append_full q src v tight full
                  | inr room ↦ append_grown q src v long word tight room
                ]
        ])

  -- The push of such an entry is refused.
  pub push_full :
      (q : BytesQueue M) (src : List ℕ)
      → IsLinear M q
      → FreeList.find M q.freelist (length src + 4) ≡ none
      → IsFull q (length src)
      → push M q src ≡ err full_queue
  unfolding push push_append
  push_full q src v none_free (small, limited, bound) =
      rw
        (
          none_free,
          push,
          after_tail q (length src + 4) v,
          lt→ltb (q.capacity - q.tail) (length src + 4) (omega arith),
          before_head q (length src + 4) v,
          le→leb q.max_capacity (q.capacity + 4 + length src) bound,
          lt→ltb 0 q.max_capacity limited,
        )
        refl
