-- ===== src/Queue/Reuse.antt =====
-- `Push` into a free block, `Delete`, and what `Reset` leaves behind.
use clustered_big_cache.Prelude.{
  ℕ, ◌+◌, ◌-◌, ◌^◌, ◌≤◌, ◌<◌, ◌≡◌, refl, sym, ◌∙◌, ◌⊎◌, List, some, length,
}
use clustered_big_cache.Prelude.Outcome.{ok}
use clustered_big_cache.Containers.{OrderedMap}
use clustered_big_cache.FreeList
use clustered_big_cache.FreeList.{FreeList}
use clustered_big_cache.Queue.{BytesQueue, push, reset, delete}
use clustered_big_cache.Queue.Entries.{
  IsEntry, written, copy_entry_fits, written-IsEntryOf, written-keeps, length-written, peek-IsEntry,
}
use clustered_big_cache.Queue.Linear.{IsLinear}

module _ (M : OrderedMap ℕ) where
  -- What a push into the free block at `idx` has done: the entry stands there, the tail has not moved,
  -- and entries outside the block are as they were.
  pub record IsReused (q : BytesQueue M) (src : List ℕ) (idx : ℕ) (q' : BytesQueue M) : Type 0 where
    pub entry : IsEntry M q' idx src
    pub same_tail : q'.tail ≡ q.tail
    pub same_margin : q'.right_margin ≡ q.right_margin
    pub same_length : length q'.array ≡ length q.array
    pub counted : q'.count ≡ q.count + 1
    pub same_limit : q'.max_capacity ≡ q.max_capacity
    pub linear : IsLinear M q → IsLinear M q'
    pub keeps :
        (i : ℕ) (other : List ℕ)
        → (idx + 4 + length src ≤ i) ⊎ (i + 4 + length other ≤ idx)
        → IsEntry M q i other
        → IsEntry M q' i other

  -- `Push` where `find` answers a block inside the array: the entry is stored in that block, with the
  -- tail and the length of the array unchanged, `Get` reads it back there, and every entry that does not
  -- overlap the block is kept.
  pub push_reuses :
      (q : BytesQueue M) (src : List ℕ) (idx : ℕ) (freelist' : FreeList M)
      → 0 < length src
      → length src < 2 ^ 32
      → FreeList.find M q.freelist (length src + 4) ≡ some (idx, freelist')
      → 0 < idx
      → idx + 4 + length src ≤ length q.array
      → (q' : BytesQueue M) × (push M q src ≡ ok (idx, q'))
        × (q'.freelist ≡ freelist')
        × IsReused q src idx q'
  unfolding push
  push_reuses q src idx freelist' nonempty word found positive inside = (
    q',
    rw (found, push, copy_entry_fits M (record q { tail = idx; freelist = freelist' }) src inside),
    refl,
    record {
      entry = written-IsEntryOf q.array idx src positive nonempty word inside;
      same_tail = refl;
      same_margin = refl;
      same_length = length-written q.array idx src;
      counted = refl;
      same_limit = refl;
      linear = λ v. record {
        head_left = v.head_left;
        tail_pos = v.tail_pos;
        margin = v.margin;
        allocated = v.allocated ∙ sym (length-written q.array idx src);
        tail_in = v.tail_in;
      };
      keeps = λ i other apart e. written-keeps q.array idx src i other apart e;
    },
  )
    where
      q' : BytesQueue M
      q' = record q { array = written q.array idx src; freelist = freelist'; count = q.count + 1 }

  -- `Delete` at an entry hands its header and bytes to the free list as one block, and leaves the array,
  -- and with it every other entry, as it is.
  pub delete_lem :
      (q : BytesQueue M) (index : ℕ) (src : List ℕ)
      → 0 < q.count
      → IsEntry M q index src
      → delete M q index
        ≡ ok (record q {
          freelist = FreeList.add M q.freelist index (length src + 4);
          count = q.count - 1;
        })
  unfolding delete
  delete_lem q index src some_left e = rw (peek-IsEntry M q index src some_left e)

  -- Where the free list has a block that is large enough and lies inside the array, the first `Push` after
  -- a `Reset` stores its entry in that block, and leaves the tail at the left margin, index 1.
  pub push-reset_stale :
      (q : BytesQueue M) (src : List ℕ) (idx : ℕ) (freelist' : FreeList M)
      → 0 < length src
      → length src < 2 ^ 32
      → FreeList.find M q.freelist (length src + 4) ≡ some (idx, freelist')
      → 0 < idx
      → idx + 4 + length src ≤ length q.array
      → (q' : BytesQueue M) × (push M (reset M q) src ≡ ok (idx, q'))
        × IsEntry M q' idx src
        × (q'.tail ≡ 1)
  unfolding reset
  push-reset_stale q src idx freelist' nonempty word found positive inside =
      let (q', pushed, rest, r) =
        push_reuses (reset M q) src idx freelist' nonempty word found positive inside in
      (q', pushed, r.entry, r.same_tail)
