-- ===== src/Queue/Refining.antt =====
-- The queue of bigcache/queue/bytes_queue.go against what it promises: each call that a client may make is
-- answered as the store allows.
use clustered_big_cache.Prelude.{
  ℕ, ◌+◌, ◌^◌, ◌≤◌, ◌<◌, ◌≡◌, ◌⊎◌, inl, inr, refl, List, [], ◌∷◌, arith, length, Option-cases,
  subst,
}
use clustered_big_cache.Prelude.Outcome.{Outcome, ok, err, panic, blocked, full_queue, ◌>>=◌}
use clustered_big_cache.Containers.{OrderedMap}
use clustered_big_cache.FreeList
use clustered_big_cache.FreeList.{FreeList}
use clustered_big_cache.FreeList.Taking.{find-IsTaken}
use clustered_big_cache.Queue.{BytesQueue, new_bytes_queue, push, get, delete, bytes_at}
use clustered_big_cache.Queue.Entries.{get-IsEntry}
use clustered_big_cache.Queue.Append.{IsFull, push-Appends}
use clustered_big_cache.Queue.Reuse.{push_reuses, delete_lem}
use clustered_big_cache.Queue.Store.{
  Store, some_stored, Call, push_of, get_of, delete_of, Answer, pushed, got, deleted, IsProper,
  IsAccepted, stores, refuses, reads, drops, after, AllProper, AllAccepted,
}
use clustered_big_cache.Queue.Keeping.{
  IsHeld, new_bytes_queue-IsHeld, IsPlaced, placed-new, placed-IsHeld, reused-IsPlaced,
  appended-IsPlaced, dropped-IsHeld,
}

module _ (M : OrderedMap ℕ) where
  abbrev pub after_push : BytesQueue M → Outcome (ℕ × BytesQueue M) → Answer × BytesQueue M
  after_push q (ok (i, q')) = (pushed (ok i), q')
  after_push q (err e) = (pushed (err e), q)
  after_push q panic = (pushed panic, q)
  after_push q blocked = (pushed blocked, q)

  abbrev pub after_delete : BytesQueue M → Outcome (BytesQueue M) → Answer × BytesQueue M
  after_delete q (ok q') = (deleted (ok tt), q')
  after_delete q (err e) = (deleted (err e), q)
  after_delete q panic = (deleted panic, q)
  after_delete q blocked = (deleted blocked, q)

  -- One call of the queue: its answer, the bytes that a view shows in place of the view, and the queue after.
  abbrev pub serve : BytesQueue M → Call → Answer × BytesQueue M
  serve q (push_of bytes) = after_push q (push M q bytes)
  serve q (get_of i) = (got (do view ← get M q i; ok (bytes_at M q view)), q)
  serve q (delete_of i) = after_delete q (delete M q i)

  -- A run of calls with the answers of the queue.
  abbrev pub events : BytesQueue M → List Call → List (Call × Answer)
  events q [] = []
  events q (call ∷ calls) = let (answer, q') = serve q call in (call, answer) ∷ events q' calls

  -- One call is answered as the store allows, and the queue then holds the store that this leads to.
  abbrev pub IsServed : ℕ → Store → Call → Answer × BytesQueue M → Type 0
  IsServed limit s call (answer, q') =
      IsAccepted limit s call answer × IsHeld M (after s call answer) q' × (q'.max_capacity ≡ limit)

  -- How a push into a queue that holds a store ends: with the entry in a place that was free, or refused at a limit.
  abbrev pub Places : Store → BytesQueue M → List ℕ → Outcome (ℕ × BytesQueue M) → Type 0
  Places s q bytes r =
      ((r ≡ err full_queue) × IsFull M q (length bytes))
      ⊎ ((i : ℕ) × (q' : BytesQueue M) × (r ≡ ok (i, q'))
          × (0 < i)
          × (i ≤ q.tail)
          × (q'.max_capacity ≡ q.max_capacity)
          × IsPlaced M s q bytes i q')

  pub push-Places :
      (s : Store) (q : BytesQueue M) (bytes : List ℕ)
      → IsHeld M s q
      → 0 < length bytes
      → length bytes < 2 ^ 32
      → Places s q bytes (push M q bytes)
  push-Places s q bytes h long word =
      elim (Option-cases (FreeList.find M q.freelist (length bytes + 4))) [
        | inl unfound ↦ elim (push-Appends M q bytes h.linear long word unfound) [
          | inl (full, bounds) ↦ inl (full, bounds)
          | inr (q', done, a) ↦ inr (
            q.tail,
            q',
            done,
            h.linear.tail_pos,
            omega arith,
            a.same_limit,
            appended-IsPlaced M s q h bytes q' a,
          )
        ]
        | inr ((i, fl), found) ↦
            let t = find-IsTaken M q.freelist fl (length bytes + 4) i h.owned (omega arith) found in
            let (a, low) = h.free_in i (t.was_free i (omega arith, omega arith)) in
            let (_, b) =
              h.free_in (i + length bytes + 3)
                (t.was_free (i + length bytes + 3) (omega arith, omega arith)) in
            let (q', done, same, r) =
              push_reuses M q bytes i fl long word found a
                (omega (arith, h.linear.tail_in, h.linear.allocated)) in
            inr (
              i,
              q',
              done,
              a,
              omega arith,
              r.same_limit,
              reused-IsPlaced M s q h bytes i fl q' long t same r,
            )
      ]

  push-IsServed :
      (s : Store) (q : BytesQueue M) (bytes : List ℕ)
      → IsHeld M s q
      → IsProper s (push_of bytes)
      → IsServed q.max_capacity s (push_of bytes) (serve q (push_of bytes))
  push-IsServed s q bytes h (long, word) = elim (push-Places s q bytes h long word) [
    | inl (full, (_, limited, _)) ↦ rw full (refuses limited, h, refl)
    | inr (i, q', done, positive, _, same, p) ↦ rw done (
      stores positive (placed-new M s q h bytes i q' p),
      placed-IsHeld M s q h bytes i q' p,
      same,
    )
  ]

  serve-IsServed :
      (s : Store) (q : BytesQueue M) (call : Call)
      → IsHeld M s q
      → IsProper s call
      → IsServed q.max_capacity s call (serve q call)
  serve-IsServed s q (push_of bytes) h p = push-IsServed s q bytes h p
  serve-IsServed s q (get_of i) h (bytes, stored) =
      let some_left : 0 < q.count = omega (arith, h.counted, some_stored s i bytes stored) in
      let (view, read, shown) = get-IsEntry M q i bytes some_left (h.entries i bytes stored) in
      rw (read, shown) (reads stored, h, refl)
  serve-IsServed s q (delete_of i) h (bytes, stored) =
      let some_left : 0 < q.count = omega (arith, h.counted, some_stored s i bytes stored) in
      rw (delete_lem M q i bytes some_left (h.entries i bytes stored))
        (drops stored, dropped-IsHeld M s q h i bytes stored, refl)

  pub events-AllAccepted :
      (s : Store) (q : BytesQueue M) (calls : List Call)
      → IsHeld M s q
      → AllProper s (events q calls)
      → AllAccepted q.max_capacity s (events q calls)
  events-AllAccepted s q [] h p = tt
  events-AllAccepted s q (call ∷ calls) h (proper, rest) =
      let (accepted, h', same) = serve-IsServed s q call h proper in
      (
        accepted,
        subst
            (λ limit.
              AllAccepted limit (after s call (serve q call).0) (events (serve q call).1 calls))
            same
            (events-AllAccepted (after s call (serve q call).0) (serve q call).1 calls h' rest),
      )

  -- Take a new queue with room for at least a byte, and any run of pushes, reads and deletions, where what is pushed
  -- has from 1 to 2 ^ 32 - 1 bytes, and what is read or deleted is the index of an entry that was pushed and not
  -- deleted. Each push is then answered by an index that no entry has, or, where the queue has a limit, by the error
  -- for a full queue; each read by the bytes that were pushed at that index; and each deletion succeeds.
  pub events-refine :
      (initial limit : ℕ) (calls : List Call)
      → 1 ≤ initial
      → AllProper [] (events (new_bytes_queue M initial limit) calls)
      → AllAccepted limit [] (events (new_bytes_queue M initial limit) calls)
  unfolding new_bytes_queue
  events-refine initial limit calls h p =
      events-AllAccepted [] (new_bytes_queue M initial limit) calls
        (new_bytes_queue-IsHeld M initial limit h) p
