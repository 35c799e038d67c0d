-- ===== src/Queue/Entries.antt =====
-- Entries in the array of a queue: how they are read, and which writes leave them as they are.
use clustered_big_cache.Prelude.{
  ℕ, ◌+◌, ◌-◌, ◌≤◌, ◌<◌, ◌%◌, ◌^◌, ◌≡◌, ◌⊎◌, inl, inr, List, arith, length, take, drop, ne→==,
  lt→ltb, le→leb, min, ap, ◌∙◌,
}
use clustered_big_cache.Prelude.Outcome.{ok}
use clustered_big_cache.Bytes.{le_bytes, write_at, read_le}
use clustered_big_cache.Bytes.Words.{le_value-le_bytes}
use clustered_big_cache.Bytes.Laws.{
  length-write_at, take-drop-write_at, take-drop-write_before, drop-write_behind,
}
use clustered_big_cache.Containers.{OrderedMap}
use clustered_big_cache.Queue.{BytesQueue, View, bytes_at, peek, get, copy, copy_entry}

-- An entry with the bytes `src` stands at `index`: its length, then its bytes, inside the array.
pub record IsEntryOf (array : List ℕ) (index : ℕ) (src : List ℕ) : Type 0 where
  pub positive : 0 < index
  pub nonempty : 0 < length src
  pub word : length src < 2 ^ 32
  pub inside : index + 4 + length src ≤ length array
  pub header : take 4 (drop index array) ≡ le_bytes 4 (length src)
  pub body : take (length src) (drop (index + 4) array) ≡ src

-- A read of `n` bytes at `lo` does not change by a write that ends before it or starts behind it.
read_apart :
    (array : List ℕ) (off : ℕ) (src : List ℕ) (lo n : ℕ)
    → (off + length src ≤ lo) ⊎ (lo + n ≤ off)
    → take n (drop lo (write_at array off src)) ≡ take n (drop lo array)
read_apart array off src lo n (inl behind) = ap (take n) (drop-write_behind array off src lo behind)
read_apart array off src lo n (inr before) = take-drop-write_before array off src lo n before

-- So a write outside an entry keeps it.
pub write_at-IsEntryOf :
    (array : List ℕ) (off : ℕ) (w : List ℕ) (index : ℕ) (src : List ℕ)
    → (off + length w ≤ index) ⊎ (index + 4 + length src ≤ off)
    → IsEntryOf array index src
    → IsEntryOf (write_at array off w) index src
write_at-IsEntryOf array off w index src apart e = record {
  positive = e.positive;
  nonempty = e.nonempty;
  word = e.word;
  inside = omega (arith, length-write_at array off w, e.inside);
  header = read_apart array off w index 4 (omega arith) ∙ e.header;
  body = read_apart array off w (index + 4) (length src) (omega arith) ∙ e.body;
}

-- What `copy_entry` does to the array: the header and the bytes, where they fit behind the tail.
abbrev pub written : List ℕ → ℕ → List ℕ → List ℕ
written array index src =
    write_at (write_at array index (le_bytes 4 (length src % 2 ^ 32))) (index + 4) src

pub written-IsEntryOf :
    (array : List ℕ) (index : ℕ) (src : List ℕ)
    → 0 < index
    → 0 < length src
    → length src < 2 ^ 32
    → index + 4 + length src ≤ length array
    → IsEntryOf (written array index src) index src
written-IsEntryOf array index src pos nonempty word fits = record {
  positive = pos;
  nonempty = nonempty;
  word = word;
  inside = omega (
    arith,
    length-write_at (write_at array index header) (index + 4) src,
    length-write_at array index header,
  );
  header =
      take-drop-write_before (write_at array index header) (index + 4) src index 4 (omega arith)
      ∙ (take-drop-write_at array index header (omega arith) ∙ ap (le_bytes 4) (omega arith));
  body =
      take-drop-write_at (write_at array index header) (index + 4) src
        (omega (arith, length-write_at array index header));
}
  where
    header : List ℕ
    header = le_bytes 4 (length src % 2 ^ 32)

-- Entries apart from the written stretch stay.
pub written-keeps :
    (array : List ℕ) (index : ℕ) (src : List ℕ) (i : ℕ) (other : List ℕ)
    → (index + 4 + length src ≤ i) ⊎ (i + 4 + length other ≤ index)
    → IsEntryOf array i other
    → IsEntryOf (written array index src) i other
written-keeps array index src i other apart e =
    write_at-IsEntryOf (write_at array index (le_bytes 4 (length src % 2 ^ 32))) (index + 4) src i
      other (omega arith)
      (write_at-IsEntryOf array index (le_bytes 4 (length src % 2 ^ 32)) i other (omega arith) e)

pub length-written :
    (array : List ℕ) (index : ℕ) (src : List ℕ) → length (written array index src) ≡ length array
length-written array index src =
    length-write_at (write_at array index (le_bytes 4 (length src % 2 ^ 32))) (index + 4) src
    ∙ length-write_at array index (le_bytes 4 (length src % 2 ^ 32))

module _ (M : OrderedMap ℕ) where
  abbrev pub IsEntry : BytesQueue M → ℕ → List ℕ → Type 0
  IsEntry q = IsEntryOf q.array

  -- An entry is what `peek`, and so `Get`, shows at its index.
  pub peek-IsEntry :
      (q : BytesQueue M) (index : ℕ) (src : List ℕ)
      → 0 < q.count
      → IsEntry q index src
      → peek M q index ≡ ok (record { off = index + 4; len = length src }, length src)
  unfolding peek read_le
  peek-IsEntry q index src some_left e = rw (
    ne→== q.count 0 (λ z. omega arith),
    ne→== index 0 (λ z. omega (arith, e.positive)),
    lt→ltb (index + 4) (length q.array) (omega (arith, e.inside, e.nonempty)),
    le→leb (index + 4) (length q.array) (omega (arith, e.inside)),
    e.header,
    le_value-le_bytes 4 (length src) e.word,
    le→leb (index + 4 + length src) (length q.array) e.inside,
  )

  pub get-IsEntry :
      (q : BytesQueue M) (index : ℕ) (src : List ℕ)
      → 0 < q.count
      → IsEntry q index src
      → (view : View) × (get M q index ≡ ok view) × (bytes_at M q view ≡ src)
  unfolding get
  get-IsEntry q index src some_left e = (
    record { off = index + 4; len = length src },
    rw (peek-IsEntry q index src some_left e),
    e.body,
  )

  copy_fits :
      (q : BytesQueue M) (src : List ℕ)
      → q.tail + length src ≤ length q.array
      → copy M q src
        ≡ ok (record q { array = write_at q.array q.tail src; tail = q.tail + length src })
  unfolding copy
  copy_fits q src fits =
      let all : min (length q.array - q.tail) (length src) ≡ length src = omega arith in
      rw (le→leb q.tail (length q.array) (omega arith), all)

  pub copy_entry_fits :
      (q : BytesQueue M) (src : List ℕ)
      → q.tail + 4 + length src ≤ length q.array
      → copy_entry M q src
        ≡ ok (record q { array = written q.array q.tail src; tail = q.tail + 4 + length src })
  unfolding copy_entry
  copy_entry_fits q src fits = rw (copy_fits q header (omega arith)) (
      copy_fits (record q { array = write_at q.array q.tail header; tail = q.tail + 4 }) src
        (omega (arith, length-write_at q.array q.tail header)))
    where
      header : List ℕ
      header = le_bytes 4 (length src % 2 ^ 32)
