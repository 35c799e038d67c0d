-- ===== src/Encoding/RoundTrip.antt =====
-- What the readers of bigcache/encoding.go make of a blob that `wrapEntry` built.
use clustered_big_cache.Prelude.{
  ℕ, ◌+◌, ◌-◌, ◌%◌, ◌^◌, ◌<◌, ◌≤◌, ◌≡◌, refl, List, ◌++◌, arith, length, replicate, length-append,
  length-replicate, drop, le→leb, ◌∙◌, ap, sym, append_assoc,
}
use clustered_big_cache.Prelude.Outcome.{ok, panic}
use clustered_big_cache.Bytes.{le_bytes, read_le, slice}
use clustered_big_cache.Bytes.Laws.{slice_middle, slice_reversed, drop-append, copy_into-full}
use clustered_big_cache.Bytes.Words.{le_value-le_bytes}
use clustered_big_cache.Encoding.{
  wrap_entry, key_end, read_timestamp_from_entry, read_hash_from_entry, read_key_from_entry,
  read_entry, reset_key_from_entry,
}
use clustered_big_cache.Encoding.Layout.{layout, wrap_entry-layout}

module _ (timestamp hash : ℕ) (key entry : List ℕ) where
  -- the three header fields
  pub timestamp-layout :
      timestamp < 2 ^ 64
      → read_timestamp_from_entry (layout timestamp hash key entry) ≡ ok timestamp
  unfolding read_timestamp_from_entry
  timestamp-layout h =
      rw (le→leb 8 (length (layout timestamp hash key entry)) (omega arith))
        (ap ok (le_value-le_bytes 8 timestamp h))

  pub hash-layout : hash < 2 ^ 64 → read_hash_from_entry (layout timestamp hash key entry) ≡ ok hash
  unfolding read_hash_from_entry
  hash-layout h =
      rw (le→leb 16 (length (layout timestamp hash key entry)) (omega arith))
        (ap ok (le_value-le_bytes 8 hash h))

  key_length-layout :
      length key < 2 ^ 16 → read_le 2 (layout timestamp hash key entry) 16 ≡ ok (length key)
  unfolding read_le
  key_length-layout h =
      rw (le→leb 18 (length (layout timestamp hash key entry)) (omega arith))
        (ap ok (le_value-le_bytes 2 (length key % 2 ^ 16) (omega arith) ∙ omega arith))

  abbrev header : List ℕ
  header = le_bytes 8 timestamp ++ (le_bytes 8 hash ++ le_bytes 2 (length key % 2 ^ 16))

  key_slice :
      length key < 65518
      → slice (layout timestamp hash key entry) 18 (key_end (length key)) ≡ ok key
  key_slice h = slice_middle header key entry 18 (key_end (length key)) refl (omega arith)

  entry_drop :
      length key < 65518 → drop (key_end (length key)) (layout timestamp hash key entry) ≡ entry
  entry_drop h =
      let regroup : layout timestamp hash key entry ≡ (header ++ key) ++ entry =
        sym (append_assoc header key entry) in
      rw regroup (
        drop-append (header ++ key) entry (key_end (length key))
          (omega (arith, length-append header key)))

  length-layout : length (layout timestamp hash key entry) ≡ 18 + length key + length entry
  length-layout = omega (arith, length-append key entry)

  pub key-layout :
      length key < 65518 → read_key_from_entry (layout timestamp hash key entry) ≡ ok key
  unfolding read_key_from_entry
  key-layout h =
      rw (key_length-layout (omega arith), key_slice h)
        (ap ok (copy_into-full (replicate (length key) 0) key (length-replicate (length key) 0)))

  pub entry-layout : length key < 65518 → read_entry (layout timestamp hash key entry) ≡ ok entry
  unfolding read_entry
  entry-layout h =
      rw
        (
          key_length-layout (omega arith),
          le→leb (key_end (length key)) (length (layout timestamp hash key entry))
              (omega (arith, length-layout)),
          entry_drop h,
        )
        (ap ok (
          copy_into-full _ entry (
            length-replicate (length (layout timestamp hash key entry) - key_end (length key)) 0
            ∙ omega (arith, length-layout))))

  -- `headersSizeInBytes + length` wraps at 2 ^ 16, so the end of the slice lies before its start.
  pub long_key-layout :
      65518 ≤ length key
      → length key < 2 ^ 16
      → read_key_from_entry (layout timestamp hash key entry) ≡ panic
  unfolding read_key_from_entry
  long_key-layout h k = rw (
    key_length-layout k,
    slice_reversed (layout timestamp hash key entry) 18 (key_end (length key)) (omega arith),
  )

  -- `resetKeyFromEntry` sets the hash to zero and changes nothing else.
  pub reset_key_from_entry-layout :
      reset_key_from_entry (layout timestamp hash key entry) ≡ ok (layout timestamp 0 key entry)
  unfolding reset_key_from_entry
  reset_key_from_entry-layout =
      rw (le→leb 16 (length (layout timestamp hash key entry)) (omega arith))

-- An entry that `wrapEntry` has built is read back in all its four parts, whatever the shared buffer
-- held, if the key has fewer than 65518 bytes and the timestamp and hash are 64-bit words.
pub wrap_entry-round_trip :
    (timestamp hash : ℕ) (key entry buffer : List ℕ)
    → timestamp < 2 ^ 64
    → hash < 2 ^ 64
    → length key < 65518
    → (blob buffer' : List ℕ) × (wrap_entry timestamp hash key entry buffer ≡ ok (blob, buffer'))
      × (read_timestamp_from_entry blob ≡ ok timestamp)
      × (read_hash_from_entry blob ≡ ok hash)
      × (read_key_from_entry blob ≡ ok key)
      × (read_entry blob ≡ ok entry)
wrap_entry-round_trip timestamp hash key entry buffer ht hh hk =
    let (rest, wrapped) = wrap_entry-layout timestamp hash key entry buffer in
    (
      layout timestamp hash key entry,
      layout timestamp hash key entry ++ rest,
      wrapped,
      timestamp-layout timestamp hash key entry ht,
      hash-layout timestamp hash key entry hh,
      key-layout timestamp hash key entry hk,
      entry-layout timestamp hash key entry hk,
    )

-- An entry whose key has from 65518 to 65535 bytes is built, and reading its key back panics.
pub wrap_entry_long_key :
    (timestamp hash : ℕ) (key entry buffer : List ℕ)
    → 65518 ≤ length key
    → length key < 2 ^ 16
    → (blob buffer' : List ℕ) × (wrap_entry timestamp hash key entry buffer ≡ ok (blob, buffer'))
      × (read_key_from_entry blob ≡ panic)
wrap_entry_long_key timestamp hash key entry buffer lo hi =
    let (rest, wrapped) = wrap_entry-layout timestamp hash key entry buffer in
    (
      layout timestamp hash key entry,
      layout timestamp hash key entry ++ rest,
      wrapped,
      long_key-layout timestamp hash key entry lo hi,
    )

-- `resetKeyFromEntry` on an entry that `wrapEntry` has built zeroes its hash, and leaves the timestamp,
-- the key and the value as they were.
pub reset_key_from_entry_lem :
    (timestamp hash : ℕ) (key entry buffer : List ℕ)
    → timestamp < 2 ^ 64
    → length key < 65518
    → (blob buffer' blob' : List ℕ) × (wrap_entry timestamp hash key entry buffer
        ≡ ok (blob, buffer'))
      × (reset_key_from_entry blob ≡ ok blob')
      × (read_timestamp_from_entry blob' ≡ ok timestamp)
      × (read_hash_from_entry blob' ≡ ok 0)
      × (read_key_from_entry blob' ≡ ok key)
      × (read_entry blob' ≡ ok entry)
reset_key_from_entry_lem timestamp hash key entry buffer ht hk =
    let (rest, wrapped) = wrap_entry-layout timestamp hash key entry buffer in
    (
      layout timestamp hash key entry,
      layout timestamp hash key entry ++ rest,
      layout timestamp 0 key entry,
      wrapped,
      reset_key_from_entry-layout timestamp hash key entry,
      timestamp-layout timestamp 0 key entry ht,
      hash-layout timestamp 0 key entry (omega arith),
      key-layout timestamp 0 key entry hk,
      entry-layout timestamp 0 key entry hk,
    )
