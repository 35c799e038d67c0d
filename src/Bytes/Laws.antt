-- ===== src/Bytes/Laws.antt =====
-- Reads and writes of a buffer at an offset.
use clustered_big_cache.Prelude.{
  ℕ, zero, suc, ◌+◌, ◌≤◌, ◌≡◌, refl, ap, List, [], ◌∷◌, ◌++◌, arith, length, take, drop,
  append_assoc, ◌∙◌, sym, length-append, le→leb, lt→leb, ◌-◌, ◌<◌,
}
use clustered_big_cache.Prelude.Outcome.{ok, panic}
use clustered_big_cache.Bytes.{le_bytes, copy_into, write_at, put_le, copy_at, slice, slice_from}
use clustered_big_cache.Bytes.Words.{length-le_bytes}

pub length-copy_into : (dst src : List ℕ) → length (copy_into dst src) ≡ length dst
length-copy_into [] src = refl
length-copy_into (d ∷ dst) [] = refl
length-copy_into (d ∷ dst) (s ∷ src) = ap suc (length-copy_into dst src)

pub length-write_at :
    (buf : List ℕ) (off : ℕ) (src : List ℕ) → length (write_at buf off src) ≡ length buf
length-write_at buf zero src = length-copy_into buf src
length-write_at [] (suc off) src = refl
length-write_at (b ∷ buf) (suc off) src = ap suc (length-write_at buf off src)

-- A copy that fits is the source, then what the destination held behind it.
pub copy_into-fits :
    (dst src : List ℕ) → length src ≤ length dst → copy_into dst src ≡ src ++ drop (length src) dst
copy_into-fits [] [] h = refl
copy_into-fits [] (s ∷ src) h = absurd (omega arith)
copy_into-fits (d ∷ dst) [] h = refl
copy_into-fits (d ∷ dst) (s ∷ src) h = ap (λ l. s ∷ l) (copy_into-fits dst src (omega arith))

take-copy_into :
    (dst src : List ℕ) → length src ≤ length dst → take (length src) (copy_into dst src) ≡ src
take-copy_into [] [] h = refl
take-copy_into [] (s ∷ src) h = absurd (omega arith)
take-copy_into (d ∷ dst) [] h = refl
take-copy_into (d ∷ dst) (s ∷ src) h = ap (λ l. s ∷ l) (take-copy_into dst src (omega arith))

-- A write right behind a prefix.
pub write_at-append :
    (p rest src : List ℕ) → write_at (p ++ rest) (length p) src ≡ p ++ copy_into rest src
write_at-append [] rest src = refl
write_at-append (b ∷ p) rest src = ap (λ l. b ∷ l) (write_at-append p rest src)

-- The same, where the source fits: it joins the prefix.
pub write_at_next :
    (p rest src : List ℕ) (off : ℕ)
    → off ≡ length p
    → length src ≤ length rest
    → write_at (p ++ rest) off src ≡ (p ++ src) ++ drop (length src) rest
write_at_next p rest src off e h = rw e (
    write_at-append p rest src
    ∙ ap (λ l. p ++ l) (copy_into-fits rest src h)
    ∙ sym (append_assoc p src (drop (length src) rest)))

-- A read of what was written.
pub take-drop-write_at :
    (buf : List ℕ) (off : ℕ) (src : List ℕ)
    → off + length src ≤ length buf
    → take (length src) (drop off (write_at buf off src)) ≡ src
take-drop-write_at buf zero src h = take-copy_into buf src (omega arith)
take-drop-write_at [] (suc off) src h = absurd (omega arith)
take-drop-write_at (b ∷ buf) (suc off) src h = take-drop-write_at buf off src (omega arith)

-- A read that ends at or before the write.
pub take-drop-write_before :
    (buf : List ℕ) (off : ℕ) (src : List ℕ) (lo n : ℕ)
    → lo + n ≤ off
    → take n (drop lo (write_at buf off src)) ≡ take n (drop lo buf)
take-drop-write_before buf zero src zero zero h = refl
take-drop-write_before buf zero src zero (suc n) h = absurd (omega arith)
take-drop-write_before buf zero src (suc lo) n h = absurd (omega arith)
take-drop-write_before [] (suc off) src lo n h = refl
take-drop-write_before (b ∷ buf) (suc off) src zero zero h = refl
take-drop-write_before (b ∷ buf) (suc off) src zero (suc n) h =
    ap (λ l. b ∷ l) (take-drop-write_before buf off src zero n (omega arith))
take-drop-write_before (b ∷ buf) (suc off) src (suc lo) n h =
    take-drop-write_before buf off src lo n (omega arith)

drop-copy_behind :
    (dst src : List ℕ) (lo : ℕ) → length src ≤ lo → drop lo (copy_into dst src) ≡ drop lo dst
drop-copy_behind [] src lo h = refl
drop-copy_behind (d ∷ dst) [] lo h = refl
drop-copy_behind (d ∷ dst) (s ∷ src) zero h = absurd (omega arith)
drop-copy_behind (d ∷ dst) (s ∷ src) (suc lo) h = drop-copy_behind dst src lo (omega arith)

-- A read that starts at or behind the end of the write.
pub drop-write_behind :
    (buf : List ℕ) (off : ℕ) (src : List ℕ) (lo : ℕ)
    → off + length src ≤ lo
    → drop lo (write_at buf off src) ≡ drop lo buf
drop-write_behind buf zero src lo h = drop-copy_behind buf src lo (omega arith)
drop-write_behind [] (suc off) src lo h = refl
drop-write_behind (b ∷ buf) (suc off) src zero h = absurd (omega arith)
drop-write_behind (b ∷ buf) (suc off) src (suc lo) h =
    drop-write_behind buf off src lo (omega arith)

-- Reads of an appended list.
pub take-append : (xs ys : List ℕ) (n : ℕ) → n ≡ length xs → take n (xs ++ ys) ≡ xs
take-append [] ys zero h = refl
take-append [] ys (suc n) h = absurd (omega arith)
take-append (x ∷ xs) ys zero h = absurd (omega arith)
take-append (x ∷ xs) ys (suc n) h = ap (λ l. x ∷ l) (take-append xs ys n (omega arith))

pub drop-append : (xs ys : List ℕ) (n : ℕ) → n ≡ length xs → drop n (xs ++ ys) ≡ ys
drop-append [] ys zero h = refl
drop-append [] ys (suc n) h = absurd (omega arith)
drop-append (x ∷ xs) ys zero h = absurd (omega arith)
drop-append (x ∷ xs) ys (suc n) h = drop-append xs ys n (omega arith)

pub take-all : (xs : List ℕ) (n : ℕ) → n ≡ length xs → take n xs ≡ xs
take-all [] zero h = refl
take-all [] (suc n) h = refl
take-all (x ∷ xs) zero h = absurd (omega arith)
take-all (x ∷ xs) (suc n) h = ap (λ l. x ∷ l) (take-all xs n (omega arith))

-- The checked writes, right behind a prefix.
pub put_le_next :
    (n off : ℕ) (p rest : List ℕ) (v : ℕ)
    → off ≡ length p
    → n ≤ length rest
    → put_le n (p ++ rest) off v ≡ ok ((p ++ le_bytes n v) ++ drop n rest)
unfolding put_le
put_le_next n off p rest v e h = rw (
  le→leb (off + n) (length (p ++ rest)) (omega (arith, length-append p rest)),
  write_at_next p rest (le_bytes n v) off e (omega (arith, length-le_bytes n v)),
  length-le_bytes n v,
)

pub copy_at_next :
    (off : ℕ) (p rest src : List ℕ)
    → off ≡ length p
    → length src ≤ length rest
    → copy_at (p ++ rest) off src ≡ ok ((p ++ src) ++ drop (length src) rest)
unfolding copy_at
copy_at_next off p rest src e h = rw (
  le→leb off (length (p ++ rest)) (omega (arith, length-append p rest)),
  write_at_next p rest src off e h,
)

pub slice_front : (p rest : List ℕ) (n : ℕ) → n ≡ length p → slice (p ++ rest) 0 n ≡ ok p
unfolding slice
slice_front p rest n e = ground (arith, length-append p rest, take-append p rest n e)

-- A copy over the whole of a destination.
pub copy_into-full : (dst src : List ℕ) → length dst ≡ length src → copy_into dst src ≡ src
copy_into-full [] [] h = refl
copy_into-full [] (s ∷ src) h = absurd (omega arith)
copy_into-full (d ∷ dst) [] h = absurd (omega arith)
copy_into-full (d ∷ dst) (s ∷ src) h = ap (λ l. s ∷ l) (copy_into-full dst src (omega arith))

-- The checked reads, behind a prefix.
pub slice_middle :
    (p w rest : List ℕ) (lo hi : ℕ)
    → lo ≡ length p
    → hi ≡ length p + length w
    → slice (p ++ (w ++ rest)) lo hi ≡ ok w
unfolding slice
slice_middle p w rest lo hi e f = rw (
  le→leb lo hi (omega arith),
  le→leb hi (length (p ++ (w ++ rest)))
      (omega (arith, length-append p (w ++ rest), length-append w rest)),
  drop-append p (w ++ rest) lo e,
  take-append w rest (hi - lo) (omega arith),
)

pub slice_reversed : (buf : List ℕ) (lo hi : ℕ) → hi < lo → slice buf lo hi ≡ panic
unfolding slice
slice_reversed buf lo hi h = rw (lt→leb lo hi h)

pub slice_from_behind :
    (p rest : List ℕ) (lo : ℕ) → lo ≡ length p → slice_from (p ++ rest) lo ≡ ok rest
unfolding slice_from
slice_from_behind p rest lo e =
    rw (
      le→leb lo (length (p ++ rest)) (omega (arith, length-append p rest)),
      drop-append p rest lo e,
    )

pub slice_prefix : (buf : List ℕ) (n : ℕ) → n ≤ length buf → slice buf 0 n ≡ ok (take n buf)
unfolding slice
slice_prefix buf n h =
    let all : n - 0 ≡ n = omega arith in rw (le→leb 0 n (omega arith), le→leb n (length buf) h, all)
