-- ===== src/Queue.antt =====
-- bigcache/queue/bytes_queue.go: entries in one byte array, each behind four bytes for its length. A
-- deleted entry goes to the free list, and a push takes a free block where one is large enough.
-- Go's `int`s are numbers, and ℤ where the code subtracts; no sum of them wraps, as an array has fewer
-- than 2 ^ 63 bytes. `headerBuffer` is overwritten before each use, so its bytes stand where it is
-- used. The log line under `verbose` is left out.
pub mod Entries
pub mod Linear
pub mod Grow
pub mod Append
pub mod Reuse
pub mod Store
pub mod Keeping
pub mod Refining
use clustered_big_cache.Prelude.{
  ℕ, ◌+◌, ◌-◌, ◌*◌, ◌%◌, ◌^◌, List, none, some, not, ltb, leb, ◌==◌, ◌&&◌, if◌then◌else◌, length,
  take, drop, replicate, min,
}
use clustered_big_cache.Prelude.Int.{ℤ, pos, ◌-ℤ◌, ltb_ℤ, leb_ℤ}
use clustered_big_cache.Prelude.Outcome.{
  Outcome, ok, err, check, require, ◌>>=◌, ◌>>◌, empty_queue, index_not_positive,
  index_out_of_range, full_queue,
}
use clustered_big_cache.Bytes.{le_bytes, copy_into, write_at, read_le, slice}
use clustered_big_cache.Containers.{OrderedMap}
use clustered_big_cache.FreeList
use clustered_big_cache.FreeList.{FreeList}

abbrev pub header_entry_size : ℕ
header_entry_size = 4

abbrev pub left_margin_index : ℕ
left_margin_index = 1

abbrev pub minimum_empty_blob_size : ℕ
minimum_empty_blob_size = 32 + header_entry_size

-- A slice `q.array[off : off+len]`, which shares its bytes with the array.
pub record View : Type 0 where
  pub off : ℕ
  pub len : ℕ

module _ (M : OrderedMap ℕ) where
  pub record BytesQueue : Type 0 where
    pub array : List ℕ
    pub capacity : ℕ
    pub max_capacity : ℕ
    pub head : ℕ
    pub tail : ℕ
    pub count : ℕ
    pub right_margin : ℕ
    pub initial_capacity : ℕ
    pub freelist : FreeList M

  -- The bytes that a view shows.
  abbrev pub bytes_at : BytesQueue → View → List ℕ
  bytes_at q v = take v.len (drop v.off q.array)

  -- `NewBytesQueue`
  unfoldable pub new_bytes_queue : ℕ → ℕ → BytesQueue
  new_bytes_queue initial_capacity max_capacity = record {
    array = replicate initial_capacity 0;
    capacity = initial_capacity;
    max_capacity = max_capacity;
    head = left_margin_index;
    tail = left_margin_index;
    count = 0;
    right_margin = left_margin_index;
    initial_capacity = initial_capacity;
    freelist = FreeList.new_free_list M;
  }

  -- `Reset`
  unfoldable pub reset : BytesQueue → BytesQueue
  reset q = record q {
    tail = left_margin_index;
    head = left_margin_index;
    right_margin = left_margin_index;
    count = 0;
  }

  -- `copy`, the method: `q.tail += copy(q.array[q.tail:], data[:len])`
  unfoldable pub copy : BytesQueue → List ℕ → Outcome BytesQueue
  copy q src =
      check (leb q.tail (length q.array))
      >> ok (record q {
        array = write_at q.array q.tail src;
        tail = q.tail + min (length q.array - q.tail) (length src);
      })

  -- The header and the bytes of an entry, from `q.tail` on.
  unfoldable pub copy_entry : BytesQueue → List ℕ → Outcome BytesQueue
  copy_entry q src = do q₁ ← copy q (le_bytes header_entry_size (length src % 2 ^ 32)); copy q₁ src

  -- `push`
  unfoldable pub push_at_tail : BytesQueue → List ℕ → Outcome BytesQueue
  push_at_tail q src = do
    q₁ ← copy_entry q src
    ok (record q₁ {
      right_margin = if ltb q₁.head q₁.tail then q₁.tail else q₁.right_margin;
      count = q₁.count + 1;
    })

  -- `availableSpaceAfterTail`
  unfoldable pub available_space_after_tail : BytesQueue → ℤ
  available_space_after_tail q =
      if leb q.head q.tail
      then pos q.capacity -ℤ pos q.tail
      else pos q.head -ℤ pos q.tail -ℤ pos minimum_empty_blob_size

  -- `availableSpaceBeforeHead`
  unfoldable pub available_space_before_head : BytesQueue → ℤ
  available_space_before_head q =
      if leb q.head q.tail
      then pos q.head -ℤ pos left_margin_index -ℤ pos minimum_empty_blob_size
      else pos q.head -ℤ pos q.tail -ℤ pos minimum_empty_blob_size

  -- The new `capacity` that `allocateAdditionalMemory` computes.
  abbrev pub grown_capacity : BytesQueue → ℕ → ℕ
  grown_capacity q minimum =
      let raised = if ltb q.capacity minimum then q.capacity + minimum else q.capacity in
      if ltb q.max_capacity (raised * 2) && ltb 0 q.max_capacity then q.max_capacity else raised * 2

  -- `allocateAdditionalMemory`. `make` panics at a negative length.
  unfoldable pub allocate_additional_memory : BytesQueue → ℕ → Outcome BytesQueue
  allocate_additional_memory q minimum =
      let capacity' = grown_capacity q minimum in
      if right_margin == left_margin_index
      then ok (record q { array = replicate capacity' 0; capacity = capacity' })
      else (do
        old ← slice q.array 0 right_margin
        let q₁ = record q { array = copy_into (replicate capacity' 0) old; capacity = capacity' }
        if ltb tail head
            then (do
              check (leb (tail + header_entry_size) head)
              q₂ ← push_at_tail q₁ (replicate (head - tail - header_entry_size) 0)
              ok (record q₂ { head = left_margin_index; tail = q₂.right_margin }))
            else ok q₁)
    where
      open q use {right_margin, tail, head}

  -- The last lines of `Push`.
  unfoldable pub push_finish : BytesQueue → List ℕ → Outcome (ℕ × BytesQueue)
  push_finish q src = do q' ← push_at_tail q src; ok (q.tail, q')

  -- `Push` where the free list has no block: the room after the tail, before the head, or in a larger
  -- array.
  unfoldable pub push_append : BytesQueue → List ℕ → Outcome (ℕ × BytesQueue)
  push_append q src =
      let need = length src + header_entry_size in
      if ltb_ℤ (available_space_after_tail q) (pos need)
      then if leb_ℤ (pos need) (available_space_before_head q)
        then push_finish (record q { tail = left_margin_index }) src
        else if leb q.max_capacity (q.capacity + header_entry_size + length src)
            && ltb 0 q.max_capacity
        then err full_queue
        else (do q' ← allocate_additional_memory q need; push_finish q' src)
      else push_finish q src

  -- `Push`: an error leaves the queue as it was.
  unfoldable pub push : BytesQueue → List ℕ → Outcome (ℕ × BytesQueue)
  push q src = elim (FreeList.find M q.freelist (length src + header_entry_size)) [
    | none ↦ push_append q src
    | some (idx, freelist') ↦ do
      q' ← copy_entry (record q { tail = idx; freelist = freelist' }) src
      ok (idx, record q' { count = q'.count + 1; tail = q.tail })
  ]

  -- `peek`
  unfoldable pub peek : BytesQueue → ℕ → Outcome (View × ℕ)
  peek q index = do
    require (not (q.count == 0)) empty_queue
    require (not (index == 0)) index_not_positive
    require (ltb (index + header_entry_size) (length q.array)) index_out_of_range
    block_size ← read_le 4 q.array index
    check (leb (index + header_entry_size + block_size) (length q.array))
    ok (record { off = index + header_entry_size; len = block_size }, block_size)

  -- `Pop`
  unfoldable pub pop : BytesQueue → Outcome (View × BytesQueue)
  pop q = do
    (view, size) ← peek q q.head
    let q₁ = record q { head = q.head + (header_entry_size + size); count = q.count - 1 }
    if q₁.head == q₁.right_margin
        then (let tail' = if q₁.tail == q₁.right_margin then left_margin_index else q₁.tail in
            ok (view, record q₁ { head = left_margin_index; tail = tail'; right_margin = tail' }))
        else ok (view, q₁)

  -- `Peek`
  unfoldable pub peek_oldest : BytesQueue → Outcome View
  peek_oldest q = do (view, size) ← peek q q.head; ok view

  -- `Get`
  unfoldable pub get : BytesQueue → ℕ → Outcome View
  get q index = do (view, size) ← peek q index; ok view

  -- `Len`
  abbrev pub len : BytesQueue → ℕ
  len q = q.count

  -- `Delete`. Past `peek` the count is not zero.
  unfoldable pub delete : BytesQueue → ℕ → Outcome BytesQueue
  delete q index = do
    (view, size) ← peek q index
    ok (record q {
      freelist = FreeList.add M q.freelist index (size + header_entry_size);
      count = q.count - 1;
    })
