-- ===== src/Queue/Store.antt =====
-- What bigcache/queue/bytes_queue.go promises, without the array: entries by index, a push that answers an
-- index that no entry has, and no limit that is not asked for.
use clustered_big_cache.Prelude.{
  ℕ, ◌+◌, ◌^◌, ◌<◌, ◌≡◌, sym, inl, inr, List, [], ◌∷◌, Option, some, none, arith, length,
  Bool-cases, ◌==◌, if◌then◌else◌, ==→ne, ne→==, none≢some, if_same, ◌∙◌, subst,
}
use clustered_big_cache.Prelude.Outcome.{Outcome, ok, err, full_queue}

-- The entries that a queue holds, by index.
abbrev pub Store : Type 0
Store = List (ℕ × List ℕ)

abbrev pub find_at : Store → ℕ → Option (List ℕ)
find_at [] i = none
find_at ((j, bytes) ∷ s) i = if j == i then some bytes else find_at s i

abbrev pub drop_at : Store → ℕ → Store
drop_at [] i = []
drop_at ((j, bytes) ∷ s) i = if j == i then s else (j, bytes) ∷ drop_at s i

abbrev pub IsDistinct : Store → Type 0
IsDistinct [] = Unit
IsDistinct ((j, bytes) ∷ s) = (find_at s j ≡ none) × IsDistinct s

pub find_at-drop_at :
    (s : Store) (i j : ℕ)
    → IsDistinct s
    → find_at (drop_at s i) j ≡ (if i == j then none else find_at s j)
find_at-drop_at [] i j u = sym (if_same (i == j) none)
find_at-drop_at ((k, bytes) ∷ s) i j u =
    let gone : k ≡ i → i ≡ j → find_at s j ≡ none =
      λ e f. subst (λ x. find_at s x ≡ none) (e ∙ f) u.0 in
    ground (arith, find_at-drop_at s i j u.1, gone)

pub drop_at-IsDistinct : (s : Store) (i : ℕ) → IsDistinct s → IsDistinct (drop_at s i)
drop_at-IsDistinct [] i u = tt
drop_at-IsDistinct ((k, bytes) ∷ s) i u = elim (Bool-cases (k == i)) [
  | inl same ↦ rw same u.1
  | inr other ↦ rw other (
    find_at-drop_at s i k u.1 ∙ rw (ne→== i k (λ e. ==→ne k i other (sym e))) u.0,
    drop_at-IsDistinct s i u.1,
  )
]

pub length-drop_at :
    (s : Store) (i : ℕ) (bytes : List ℕ)
    → find_at s i ≡ some bytes
    → length (drop_at s i) + 1 ≡ length s
length-drop_at [] i bytes e = absurd (none≢some e)
length-drop_at ((k, b) ∷ s) i bytes e = ground (arith, length-drop_at s i bytes)

pub some_stored : (s : Store) (i : ℕ) (bytes : List ℕ) → find_at s i ≡ some bytes → 0 < length s
some_stored [] i bytes e = absurd (none≢some e)
some_stored (b ∷ s) i bytes e = omega arith

-- A call of the queue, and what it answers.
pub data Call : Type 0 where
  push_of : List ℕ → Call
  get_of delete_of : ℕ → Call

pub data Answer : Type 0 where
  pushed : Outcome ℕ → Answer
  got : Outcome (List ℕ) → Answer
  deleted : Outcome (Unit {0}) → Answer

-- The calls that a client may make: of entries with bytes and a length of 32 bits, at the index of an entry.
abbrev pub IsProper : Store → Call → Type 0
IsProper s (push_of bytes) = (0 < length bytes) × (length bytes < 2 ^ 32)
IsProper s (get_of i) = (bytes : List ℕ) × (find_at s i ≡ some bytes)
IsProper s (delete_of i) = (bytes : List ℕ) × (find_at s i ≡ some bytes)

-- The answers that the queue may give: `limit` is the limit of its capacity, 0 for none.
pub data IsAccepted (limit : ℕ) (s : Store) : Call → Answer → Type 0 where
  stores :
      {bytes : List ℕ} {i : ℕ}
      → 0 < i
      → find_at s i ≡ none
      → IsAccepted limit s (push_of bytes) (pushed (ok i))
  refuses :
      {bytes : List ℕ} → 0 < limit → IsAccepted limit s (push_of bytes) (pushed (err full_queue))
  reads :
      {bytes : List ℕ} {i : ℕ}
      → find_at s i ≡ some bytes
      → IsAccepted limit s (get_of i) (got (ok bytes))
  drops :
      {bytes : List ℕ} {i : ℕ}
      → find_at s i ≡ some bytes
      → IsAccepted limit s (delete_of i) (deleted (ok tt))

-- The store after a call that was answered.
abbrev pub after : Store → Call → Answer → Store
after s (push_of bytes) (pushed (ok i)) = (i, bytes) ∷ s
after s (delete_of i) (deleted (ok _)) = drop_at s i
after s call answer = s

-- A run of calls with their answers, each made as a client may, and each answered as the queue may.
abbrev pub AllProper : Store → List (Call × Answer) → Type 0
AllProper s [] = Unit
AllProper s ((call, answer) ∷ events) = IsProper s call × AllProper (after s call answer) events

abbrev pub AllAccepted : (limit : ℕ) → Store → List (Call × Answer) → Type 0
AllAccepted limit s [] = Unit
AllAccepted limit s ((call, answer) ∷ events) =
    IsAccepted limit s call answer × AllAccepted limit (after s call answer) events
