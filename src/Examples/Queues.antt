-- ===== src/Examples/Queues.antt =====
-- bigcache/queue/bytes_queue.go on small queues.
use clustered_big_cache.Prelude.{
  ℕ, ◌+◌, ◌≡◌, refl, sym, subst, ◌≤◌, Option, some, none, List, [], ◌∷◌, arith, length,
}
use clustered_big_cache.Prelude.Outcome.{ok}
use clustered_big_cache.Containers.Dense.{dense}
use clustered_big_cache.FreeList
use clustered_big_cache.FreeList.{FreeList, new_free_list}
use clustered_big_cache.Bytes.{read_le}
use clustered_big_cache.Queue.{
  BytesQueue, new_bytes_queue, push, reset, push_finish, push_append, push_at_tail, copy_entry,
  copy, get, delete, peek, available_space_after_tail, available_space_before_head,
}
use clustered_big_cache.Queue.Store.{
  Call, push_of, get_of, delete_of, Answer, pushed, got, deleted, AllProper, AllAccepted,
}
use clustered_big_cache.Queue.Refining.{events, events-refine}
use clustered_big_cache.Queue.Entries.{IsEntry}
use clustered_big_cache.Queue.Reuse.{push-reset_stale}

abbrev three : List ℕ
three = 1 ∷ 2 ∷ 3 ∷ []

abbrev fresh : BytesQueue (dense ℕ)
fresh = new_bytes_queue (dense ℕ) 64 0

fresh_none : FreeList.find (dense ℕ) fresh.freelist 7 ≡ none
unfolding new_bytes_queue FreeList.find FreeList.find_from FreeList.find_in_size_list new_free_list
    FreeList.find_start FreeList.scan
fresh_none = refl

-- What `find` leaves of a free list.
abbrev rest_of : Option (ℕ × FreeList (dense ℕ)) → FreeList (dense ℕ)
rest_of none = new_free_list (dense ℕ)
rest_of (some (i, fl)) = fl

-- A queue with one free block of 40 bytes at 1.
abbrev freed : BytesQueue (dense ℕ)
freed = record fresh {
  freelist = FreeList.add (dense ℕ) (new_free_list (dense ℕ)) 1 40;
  tail = 41;
  right_margin = 41;
}

in_freed : 1 + 4 + 3 ≤ length freed.array
unfolding new_bytes_queue
in_freed = omega arith

freed_found :
    FreeList.find (dense ℕ) freed.freelist 7
    ≡ some (1, rest_of (FreeList.find (dense ℕ) freed.freelist 7))
unfolding new_bytes_queue FreeList.find FreeList.find_from FreeList.find_start
    FreeList.find_in_size_list FreeList.scan FreeList.add FreeList.store FreeList.put_into_size_list
    FreeList.bucket FreeList.merge_right FreeList.merge_left FreeList.get_left new_free_list
    FreeList.take_block
freed_found = refl

push-reset_stale_example :
    (q' : BytesQueue (dense ℕ)) × (push (dense ℕ) (reset (dense ℕ) freed) three ≡ ok (1, q'))
    × IsEntry (dense ℕ) q' 1 three
    × (q'.tail ≡ 1)
push-reset_stale_example =
    push-reset_stale (dense ℕ) freed three 1 (rest_of (FreeList.find (dense ℕ) freed.freelist 7))
      (omega arith) (omega arith) freed_found (omega arith) in_freed

-- The second entry goes behind the first; the third, of its size, into the first's place.
abbrev session : List Call
session =
    push_of three
    ∷ push_of (9 ∷ [])
    ∷ delete_of 1
    ∷ push_of (4 ∷ 5 ∷ 6 ∷ [])
    ∷ get_of 1
    ∷ get_of 8
    ∷ []

abbrev session_events : List (Call × Answer)
session_events = events (dense ℕ) (new_bytes_queue (dense ℕ) 64 100) session

session_answers :
    session_events
    ≡ (push_of three, pushed (ok 1))
      ∷ (push_of (9 ∷ []), pushed (ok 8))
      ∷ (delete_of 1, deleted (ok tt))
      ∷ (push_of (4 ∷ 5 ∷ 6 ∷ []), pushed (ok 1))
      ∷ (get_of 1, got (ok (4 ∷ 5 ∷ 6 ∷ [])))
      ∷ (get_of 8, got (ok (9 ∷ [])))
      ∷ []
unfolding new_bytes_queue push push_finish push_append push_at_tail copy_entry copy get delete peek
    read_le available_space_after_tail available_space_before_head FreeList.find FreeList.find_from
    FreeList.find_start FreeList.find_in_size_list FreeList.scan FreeList.add FreeList.store
    FreeList.put_into_size_list FreeList.bucket FreeList.merge_right FreeList.merge_left
    FreeList.get_left new_free_list FreeList.take_block
session_answers = refl

session-AllProper : AllProper [] session_events
session-AllProper = subst (AllProper []) (sym session_answers) (
  (omega arith, omega arith),
  (
    (omega arith, omega arith),
    ((three, refl), ((omega arith, omega arith), ((4 ∷ 5 ∷ 6 ∷ [], refl), ((9 ∷ [], refl), tt)))),
  ),
)

events-refine_example : AllAccepted 100 [] session_events
events-refine_example = events-refine (dense ℕ) 64 100 session (omega arith) session-AllProper
