-- ===== src/Bytes.antt =====
-- Go byte slices and the calls of `encoding/binary` (little endian) and of the built-in `copy` that
-- bigcache/encoding.go, bigcache/queue/bytes_queue.go, message/*.go and Cluster/remoteNode.go make.
-- A slice is the list of its bytes; an access out of range is a panic.
pub mod Laws
pub mod Words
use clustered_big_cache.Prelude.{
  ℕ, zero, suc, ◌+◌, ◌-◌, ◌*◌, ◌/◌, ◌%◌, List, [], ◌∷◌, leb, length, take, drop, ◌&&◌,
}
use clustered_big_cache.Prelude.Outcome.{Outcome, ok, check, ◌>>◌}

-- The `n` low bytes of a value, lowest first.
abbrev pub le_bytes : ℕ → ℕ → List ℕ
le_bytes zero v = []
le_bytes (suc n) v = (v % 256) ∷ le_bytes n (v / 256)

abbrev pub le_value : List ℕ → ℕ
le_value [] = 0
le_value (b ∷ bs) = b + le_value bs * 256

-- `copy(dst, src)`: as many bytes as both have.
abbrev pub copy_into : List ℕ → List ℕ → List ℕ
copy_into [] src = []
copy_into (d ∷ dst) [] = d ∷ dst
copy_into (d ∷ dst) (s ∷ src) = s ∷ copy_into dst src

-- The buffer after `copy(buf[off:], src)`, where `off` is in range.
abbrev pub write_at : List ℕ → ℕ → List ℕ → List ℕ
write_at buf zero src = copy_into buf src
write_at [] (suc off) src = []
write_at (b ∷ buf) (suc off) src = b ∷ write_at buf off src

-- `copy(buf[off:], src)`
unfoldable pub copy_at : List ℕ → ℕ → List ℕ → Outcome (List ℕ)
copy_at buf off src = check (leb off (length buf)) >> ok (write_at buf off src)

-- `binary.LittleEndian.PutUint16/32/64(buf[off:], v)` with 2, 4 or 8 for `n`.
unfoldable pub put_le : ℕ → List ℕ → ℕ → ℕ → Outcome (List ℕ)
put_le n buf off v = check (leb (off + n) (length buf)) >> ok (write_at buf off (le_bytes n v))

-- `binary.LittleEndian.Uint16/32/64(buf[off:])`
unfoldable pub read_le : ℕ → List ℕ → ℕ → Outcome ℕ
read_le n buf off = check (leb (off + n) (length buf)) >> ok (le_value (take n (drop off buf)))

-- `buf[lo:hi]`
unfoldable pub slice : List ℕ → ℕ → ℕ → Outcome (List ℕ)
slice buf lo hi = check (leb lo hi && leb hi (length buf)) >> ok (take (hi - lo) (drop lo buf))

-- `buf[lo:]`
unfoldable pub slice_from : List ℕ → ℕ → Outcome (List ℕ)
slice_from buf lo = check (leb lo (length buf)) >> ok (drop lo buf)
