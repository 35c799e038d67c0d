-- ===== src/Encoding/Layout.antt =====
-- The bytes that `wrapEntry` lays out, whatever the shared buffer held before.
use clustered_big_cache.Prelude.{
  ℕ, ◌+◌, ◌-◌, ◌%◌, ◌^◌, ◌≤◌, ◌≡◌, refl, List, [], ◌++◌, arith, ltb, length, replicate, drop,
  length-append, length-replicate, length-drop, Bool-cases, inl, inr, append_assoc, ltb→le,
}
use clustered_big_cache.Prelude.Outcome.{ok}
use clustered_big_cache.Bytes.{le_bytes}
use clustered_big_cache.Bytes.Laws.{put_le_next, copy_at_next, slice_front}
use clustered_big_cache.Encoding.{fill_entry, wrap_entry}

-- The bytes of an entry in the order of the format.
abbrev pub layout : (timestamp hash : ℕ) (key entry : List ℕ) → List ℕ
layout timestamp hash key entry =
    le_bytes 8 timestamp
    ++ (le_bytes 8 hash ++ (le_bytes 2 (length key % 2 ^ 16) ++ (key ++ entry)))

fill_entry-layout :
    (timestamp hash : ℕ) (key entry blob : List ℕ)
    → length entry + 18 + length key ≤ length blob
    → fill_entry timestamp hash key entry blob
      ≡ ok (
        layout timestamp hash key entry,
        layout timestamp hash key entry
            ++ drop (length entry) (drop (length key) (drop 2 (drop 8 (drop 8 blob)))),
      )
unfolding fill_entry
fill_entry-layout timestamp hash key entry blob h = rw (
  put_le_next 8 0 [] blob timestamp refl (omega arith),
  put_le_next 8 8 (le_bytes 8 timestamp) (drop 8 blob) hash refl
      (omega (arith, length-drop 8 blob)),
  put_le_next 2 16 (le_bytes 8 timestamp ++ le_bytes 8 hash) (drop 8 (drop 8 blob))
      (length key % 2 ^ 16) refl (omega (arith, length-drop 8 blob, length-drop 8 (drop 8 blob))),
  copy_at_next 18 header r3 key refl (omega (arith, r3_length)),
  copy_at_next (18 + length key) (header ++ key) (drop (length key) r3) entry
      (omega (arith, length-append header key))
      (omega (arith, length-drop (length key) r3, r3_length)),
  slice_front ((header ++ key) ++ entry) (drop (length entry) (drop (length key) r3))
      (length entry + 18 + length key)
      (omega (arith, length-append header key, length-append (header ++ key) entry)),
  append_assoc header key entry,
)
  where
    header : List ℕ
    header = (le_bytes 8 timestamp ++ le_bytes 8 hash) ++ le_bytes 2 (length key % 2 ^ 16)

    r3 : List ℕ
    r3 = drop 2 (drop 8 (drop 8 blob))

    r3_length : length r3 ≡ length blob - 18
    r3_length = omega (
      arith,
      length-drop 8 blob,
      length-drop 8 (drop 8 blob),
      length-drop 2 (drop 8 (drop 8 blob)),
    )

-- `wrapEntry` returns exactly the bytes of the entry, from the front of the shared buffer.
pub wrap_entry-layout :
    (timestamp hash : ℕ) (key entry buffer : List ℕ)
    → (rest : List ℕ) × (wrap_entry timestamp hash key entry buffer
        ≡ ok (layout timestamp hash key entry, layout timestamp hash key entry ++ rest))
unfolding wrap_entry
wrap_entry-layout timestamp hash key entry buffer = elim (Bool-cases (ltb (length buffer) size)) [
  | inl short ↦ (
    leftover (replicate size 0),
    rw short (
        fill_entry-layout timestamp hash key entry (replicate size 0)
          (omega (arith, length-replicate {A = ℕ} size 0))),
  )
  | inr long ↦ (
    leftover buffer,
    rw long (fill_entry-layout timestamp hash key entry buffer (ltb→le (length buffer) size long)),
  )
]
  where
    size : ℕ
    size = length entry + 18 + length key

    leftover : List ℕ → List ℕ
    leftover b = drop (length entry) (drop (length key) (drop 2 (drop 8 (drop 8 b))))
