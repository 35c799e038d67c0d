-- ===== src/Shard/Dropping.antt =====
-- How the shards take an entry out of their queue: they zero its hash, and free its block.
use clustered_big_cache.Prelude.{
  ℕ, ◌+◌, ◌-◌, ◌≤◌, ◌≡◌, sym, ap, ◌∙◌, List, some, arith, length, take, drop, length-take,
  length-drop, le→leb,
}
use clustered_big_cache.Prelude.Outcome.{ok}
use clustered_big_cache.Bytes.{le_bytes, write_at}
use clustered_big_cache.Bytes.Laws.{length-write_at, take-drop-write_before}
use clustered_big_cache.FreeList
use clustered_big_cache.Queue
use clustered_big_cache.Queue.{BytesQueue, View, bytes_at}
use clustered_big_cache.Queue.Entries.{IsEntryOf, peek-IsEntry}
use clustered_big_cache.Queue.Reuse.{delete_lem}
use clustered_big_cache.Queue.Store.{Store, find_at, drop_at, some_stored}
use clustered_big_cache.Queue.Keeping.{IsHeld, without, overwritten-IsHeld}
use clustered_big_cache.Shard.{Deps, reset_key_at, delete_index}

-- A write into the bytes of an entry leaves an entry of that length.
pub overwritten-IsEntryOf :
    (array : List ℕ) (off : ℕ) (w : List ℕ) (i : ℕ) (bytes : List ℕ)
    → IsEntryOf array i bytes
    → i + 4 ≤ off
    → (bytes' : List ℕ) × (length bytes' ≡ length bytes) × IsEntryOf (write_at array off w) i bytes'
overwritten-IsEntryOf array off w i bytes e after = (
  bytes',
  same,
  record {
    positive = e.positive;
    nonempty = omega (arith, same, e.nonempty);
    word = omega (arith, same, e.word);
    inside = omega (arith, same, e.inside, length-write_at array off w);
    header = take-drop-write_before array off w i 4 after ∙ e.header ∙ ap (le_bytes 4) (sym same);
    body = ap (λ n. take n (drop (i + 4) (write_at array off w))) same;
  },
)
  where
    bytes' : List ℕ
    bytes' = take (length bytes) (drop (i + 4) (write_at array off w))

    same : length bytes' ≡ length bytes
    same = omega (
      arith,
      length-take (length bytes) (drop (i + 4) (write_at array off w)),
      length-drop (i + 4) (write_at array off w),
      length-write_at array off w,
      e.inside,
    )

module _ (D : Deps) where
  open D use {blocks}

  -- The view of the entry at `i`.
  abbrev pub view_of : ℕ → List ℕ → View
  view_of i bytes = record { off = i + 4; len = length bytes }

  delete_index_ok :
      (q : BytesQueue blocks) (i : ℕ) {q' : BytesQueue blocks}
      → Queue.delete blocks q i ≡ ok q'
      → delete_index D q i ≡ ok q'
  unfolding delete_index
  delete_index_ok q i e = rw (e, delete_index)

  module _ (st : Store) (q : BytesQueue blocks) (i : ℕ) (bytes : List ℕ) (h : IsHeld blocks st q)
      (e : find_at st i ≡ some bytes) where
    pub get_view : Queue.get blocks q i ≡ ok (view_of i bytes)
    unfolding Queue.get
    get_view = rw (
        peek-IsEntry blocks q i bytes (omega (arith, h.counted, some_stored st i bytes e))
          (h.entries i bytes e))

    pub shows : bytes_at blocks q (view_of i bytes) ≡ bytes
    shows = (h.entries i bytes e).body

    abbrev pub reset_queue : BytesQueue blocks
    reset_queue = record q { array = write_at q.array (i + 4 + 8) (le_bytes 8 0) }

    abbrev pub dropped_queue : BytesQueue blocks
    dropped_queue = record (without blocks st q h i bytes) {
      array = write_at q.array (i + 4 + 8) (le_bytes 8 0);
    }

    pub resets : 16 ≤ length bytes → reset_key_at D q (view_of i bytes) ≡ ok reset_queue
    unfolding reset_key_at
    resets long = rw (le→leb 16 (length bytes) long)

    pub deletes : delete_index D reset_queue i ≡ ok dropped_queue
    deletes =
        let (bytes', same, entry) =
          overwritten-IsEntryOf q.array (i + 4 + 8) (le_bytes 8 0) i bytes (h.entries i bytes e)
            (omega arith) in
        let gone =
          delete_lem blocks reset_queue i bytes'
            (omega (arith, h.counted, some_stored st i bytes e)) entry in
        delete_index_ok reset_queue i gone
        ∙ ap
            (λ n. ok (record reset_queue {
              freelist = FreeList.add blocks q.freelist i (n + 4);
              count = q.count - 1;
            }))
            same

    pub dropped_queue-IsHeld : 16 ≤ length bytes → IsHeld blocks (drop_at st i) dropped_queue
    dropped_queue-IsHeld long =
        overwritten-IsHeld blocks st q h i bytes (i + 4 + 8) (le_bytes 8 0) e (omega arith)
          (omega arith)
