-- ===== src/FreeList/Classes.antt =====
-- The size classes: which sizes each of the eight lists holds, and where `find` begins.
use clustered_big_cache.Prelude.{
  ℕ, zero, suc, ◌+◌, ◌-◌, ◌*◌, ◌≤◌, ◌<◌, ◌≡◌, ◌⊎◌, some, none, arith, ltb, if◌then◌else◌,
}
use native.Mathlib.Numerals.{add-one}
use clustered_big_cache.FreeList.{bucket, find_start}

-- The sizes of list `i`, for `i` below 7, stay below this.
abbrev pub limit : ℕ → ℕ
limit zero = 64
limit (suc i) = limit i * 2

pub bucket_bounds :
    (n i : ℕ) → bucket n ≡ some i → ((i < 7) × (n < limit i) × (n < 4096)) ⊎ ((i ≡ 7) × (4096 < n))
unfolding bucket
bucket_bounds n i h = ground arith

pub bucket_large : (n : ℕ) → 4096 < n → bucket n ≡ some 7
unfolding bucket
bucket_large n h = ground arith

-- Exactly the size 4096 has no list.
pub bucket-none : (n : ℕ) → bucket n ≡ none → n ≡ 4096
unfolding bucket
bucket-none n h = ground arith

-- A block that is large enough stands in no list before the one where `find` begins.
pub find_start-le-bucket : (size n i : ℕ) → bucket n ≡ some i → size ≤ n → (find_start size).0 ≤ i
unfolding bucket find_start
find_start-le-bucket size n i h k = ground arith

-- What the loop of `find` keeps true of `idx` and `buckSize`.
abbrev pub IsReady : (idx size buck_size : ℕ) → Type 0
IsReady idx size buck_size =
    ((idx < 7) × ((limit idx ≤ buck_size) ⊎ (4096 ≤ size)))
    ⊎ ((idx ≡ 7) × (buck_size ≡ 4097))
    ⊎ (7 < idx)

pub find_start-IsReady : (size : ℕ) → IsReady (find_start size).0 size (find_start size).1
unfolding find_start
find_start-IsReady size = ground arith

limit_next : (i : ℕ) → limit (i + 1) ≡ limit i * 2
limit_next i = rw add-one

pub next-IsReady :
    (idx size buck_size : ℕ)
    → IsReady idx size buck_size
    → IsReady (idx + 1) size (if ltb idx 6 then buck_size * 2 else 4097)
next-IsReady idx size buck_size h = ground (arith, limit_next idx)

-- A block that is cut in place stays in its class.
pub cut_in_place :
    (idx size buck_size n : ℕ)
    → IsReady idx size buck_size
    → bucket n ≡ some idx
    → size ≤ n
    → buck_size ≤ n - size
    → bucket (n - size) ≡ some idx
cut_in_place idx size buck_size n h e p q =
    ground (arith, bucket_bounds n idx e, bucket_large (n - size))
