-- ===== src/Fnv.antt =====
-- bigcache/fnv.go: the default hash of the keys, 64-bit FNV-1a.
use clustered_big_cache.Prelude.{ℕ, ◌*◌, ◌%◌, ◌^◌, ◌<◌, List, [], ◌∷◌, arith}
use Prim.Native.Nat.{bit_xor}

abbrev pub offset64 : ℕ
offset64 = 14695981039346656037

abbrev pub prime64 : ℕ
prime64 = 1099511628211

-- The loop of `Sum64`, over the bytes that are left.
unfoldable pub sum64_from : ℕ → List ℕ → ℕ
sum64_from hash [] = hash
sum64_from hash (b ∷ bs) = sum64_from (bit_xor hash b * prime64 % 2 ^ 64) bs

-- `Sum64`
unfoldable pub sum64 : List ℕ → ℕ
sum64 key = sum64_from offset64 key

sum64_from-lt : (hash : ℕ) (key : List ℕ) → hash < 2 ^ 64 → sum64_from hash key < 2 ^ 64
unfolding sum64_from
sum64_from-lt hash [] h = h
sum64_from-lt hash (b ∷ bs) h = sum64_from-lt (bit_xor hash b * prime64 % 2 ^ 64) bs (omega arith)

-- `Sum64` answers a 64-bit word for every key.
pub sum64-lt : (key : List ℕ) → sum64 key < 2 ^ 64
unfolding sum64
sum64-lt key = sum64_from-lt offset64 key (omega arith)
