-- ===== src/Encoding.antt =====
-- bigcache/encoding.go: an entry as the bytes that a shard keeps, 8 for the timestamp, 8 for the
-- hash, 2 for the length of the key, then the key and the value.
pub mod Layout
pub mod RoundTrip
use clustered_big_cache.Prelude.{
  ℕ, ◌+◌, ◌-◌, ◌%◌, ◌^◌, List, ltb, leb, if◌then◌else◌, length, replicate,
}
use clustered_big_cache.Prelude.Outcome.{Outcome, ok, check, ◌>>=◌, ◌>>◌}
use clustered_big_cache.Bytes.{copy_into, copy_at, put_le, read_le, slice, slice_from}

abbrev pub timestamp_size_in_bytes : ℕ
timestamp_size_in_bytes = 8

abbrev pub hash_size_in_bytes : ℕ
hash_size_in_bytes = 8

abbrev pub key_size_in_bytes : ℕ
key_size_in_bytes = 2

abbrev pub headers_size_in_bytes : ℕ
headers_size_in_bytes = timestamp_size_in_bytes + hash_size_in_bytes + key_size_in_bytes

-- The writes of `wrapEntry` into the buffer that it has chosen.
unfoldable pub fill_entry :
    (timestamp hash : ℕ) (key entry blob : List ℕ) → Outcome (List ℕ × List ℕ)
fill_entry timestamp hash key entry blob = do
  let key_length = length key
  let blob_length = length entry + headers_size_in_bytes + key_length
  blob₁ ← put_le 8 blob 0 timestamp
  blob₂ ← put_le 8 blob₁ timestamp_size_in_bytes hash
  blob₃ ← put_le 2 blob₂ (timestamp_size_in_bytes + hash_size_in_bytes) (key_length % 2 ^ 16)
  blob₄ ← copy_at blob₃ headers_size_in_bytes key
  blob₅ ← copy_at blob₄ (headers_size_in_bytes + key_length) entry
  cut ← slice blob₅ 0 blob_length
  ok (cut, blob₅)

-- `wrapEntry`: the blob, and the shared buffer that it is cut from. A buffer that is too short is
-- replaced by a fresh one.
unfoldable pub wrap_entry :
    (timestamp hash : ℕ) (key entry buffer : List ℕ) → Outcome (List ℕ × List ℕ)
wrap_entry timestamp hash key entry buffer =
    let blob_length = length entry + headers_size_in_bytes + length key in
    fill_entry timestamp hash key entry
      (if ltb (length buffer) blob_length then replicate blob_length 0 else buffer)

-- The sum `headersSizeInBytes + length` is of type `uint16`, and wraps.
abbrev pub key_end : ℕ → ℕ
key_end key_length = (headers_size_in_bytes + key_length) % 2 ^ 16

-- `readEntry`
unfoldable pub read_entry : List ℕ → Outcome (List ℕ)
unfolding read_le slice_from
read_entry blob = do
  key_length ← read_le 2 blob (timestamp_size_in_bytes + hash_size_in_bytes)
  check (leb (key_end key_length) (length blob))
  src ← slice_from blob (key_end key_length)
  ok (copy_into (replicate (length blob - key_end key_length) 0) src)

-- `readTimestampFromEntry`
unfoldable pub read_timestamp_from_entry : List ℕ → Outcome ℕ
unfolding read_le
read_timestamp_from_entry blob = read_le 8 blob 0

-- `readKeyFromEntry`. `bytesToString` only changes the type of the bytes.
unfoldable pub read_key_from_entry : List ℕ → Outcome (List ℕ)
unfolding read_le slice
read_key_from_entry blob = do
  key_length ← read_le 2 blob (timestamp_size_in_bytes + hash_size_in_bytes)
  src ← slice blob headers_size_in_bytes (key_end key_length)
  ok (copy_into (replicate key_length 0) src)

-- `readHashFromEntry`
unfoldable pub read_hash_from_entry : List ℕ → Outcome ℕ
unfolding read_le
read_hash_from_entry blob = read_le 8 blob timestamp_size_in_bytes

-- `resetKeyFromEntry` overwrites the hash, and leaves the key.
unfoldable pub reset_key_from_entry : List ℕ → Outcome (List ℕ)
unfolding put_le
reset_key_from_entry blob = put_le 8 blob timestamp_size_in_bytes 0
