-- ===== src/Examples/Shards.antt =====
-- bigcache/shard.go and bigcache/encoding.go on a small shard.
use clustered_big_cache.Prelude.{
  ℕ, ◌/◌, ◌^◌, ◌<◌, ◌≡◌, ◌≢◌, refl, none≢some, none, ◌++◌, true, false, some, List, [], ◌∷◌, arith,
  length,
}
use clustered_big_cache.Prelude.Int.{ℤ, pos}
use clustered_big_cache.Prelude.Outcome.{Outcome, ok, err, panic, blocked, value}
use clustered_big_cache.Prelude.Assoc.{lookup}
use clustered_big_cache.Containers.Dense.{dense}
use clustered_big_cache.Containers.Listed.{listed}
use clustered_big_cache.Encoding.{
  wrap_entry, fill_entry, read_timestamp_from_entry, read_hash_from_entry, read_key_from_entry,
  read_entry,
}
use clustered_big_cache.Bytes.{le_bytes, read_le, put_le, copy_at, slice}
use clustered_big_cache.Encoding.Layout.{layout}
use clustered_big_cache.Encoding.RoundTrip.{wrap_entry-round_trip}
use clustered_big_cache.FreeList
use clustered_big_cache.FreeList.{FreeList}
use clustered_big_cache.Queue
use clustered_big_cache.FreeList.Buckets.{new_free_list-HasClasses}
use clustered_big_cache.FreeList.Search.{HasRoom, find_exhaustive}
use clustered_big_cache.Queue.Linear.{new_bytes_queue-IsLinear}
use clustered_big_cache.Shard.{
  Deps, CacheShard, remove_entry, reset_key_at, delete_index, evict_keys, evict_key, init_new_shard,
  set, set_push, del, drop_previous, evict_del,
}
use clustered_big_cache.Queue.Append.{IsFull}
use clustered_big_cache.Shard.Lookup.{IsStored}
use clustered_big_cache.Shard.Storing.{IsUsable}
use clustered_big_cache.Shard.Full.{IsHung, set_full-IsHung}
use clustered_big_cache.Shard.Removal.{del_any_key}
use clustered_big_cache.Shard.Sound.{Cells, no_cells, with_cell, without_cell}
use clustered_big_cache.Shard.Holding.{Gets, Dels}
use clustered_big_cache.Shard.Calls.{new_cell, SetsCell, sweep}
use clustered_big_cache.Shard.Refining.{
  IsReached, started, stored, deleted_to, reached-Gets, reached_calls,
}
use clustered_big_cache.Shard.Counters.{IsSwept, evict_del-IsSwept}

abbrev a_key : List ℕ
a_key = 97 ∷ []

abbrev b_key : List ℕ
b_key = 98 ∷ []

abbrev blob : List ℕ
blob = 7 ∷ 8 ∷ []

wrap_entry-round_trip_example :
    (wrapped buffer' : List ℕ) × (wrap_entry 5 11 a_key blob (1 ∷ []) ≡ ok (wrapped, buffer'))
    × (read_timestamp_from_entry wrapped ≡ ok 5)
    × (read_hash_from_entry wrapped ≡ ok 11)
    × (read_key_from_entry wrapped ≡ ok a_key)
    × (read_entry wrapped ≡ ok blob)
wrap_entry-round_trip_example =
    wrap_entry-round_trip 5 11 a_key blob (1 ∷ []) (omega arith) (omega arith) (omega arith)

-- One second is a 1000 millionth of the durations; the hash is the length, so that two keys can collide.
abbrev pub deps : Deps
deps = record {
  blocks = dense ℕ;
  keys = listed;
  times = dense listed.Set;
  seconds = λ d. elim d [ pos n ↦ n / 1000000000 | ℤ.negsuc n ↦ 0 ];
  sum64 = λ key. length key;
}

-- A shard with 100 bytes, without a limit and with one.
abbrev pub shard : CacheShard deps
shard = init_new_shard deps 10 10 0 100 1 5

abbrev tight : CacheShard deps
tight = init_new_shard deps 1 10 10 100 1 5

pub locked_drops :
    (s : CacheShard deps) (key : List ℕ) (hash : ℕ)
    → lookup s.hashmap hash ≡ 0
    → drop_previous deps (record s { locked = true }) key hash 5 ≡ ok (record s { locked = true })
unfolding drop_previous
locked_drops s key hash e = rw e

shard_map : lookup shard.hashmap 1 ≡ 0
unfolding init_new_shard
shard_map = refl

tight_map : lookup tight.hashmap 1 ≡ 0
unfolding init_new_shard
tight_map = refl

pub shard_free : shard.locked ≡ false
unfolding init_new_shard
shard_free = refl

tight_free : tight.locked ≡ false
unfolding init_new_shard
tight_free = refl

-- The free list of a new queue answers nothing.
no_room : {size idx : ℕ} → HasRoom (dense ℕ) (FreeList.new_free_list (dense ℕ)) size idx → ⊥
unfolding FreeList.new_free_list
no_room (i, n, p, at, rest, here) = none≢some at

no_block :
    (size idx : ℕ) (fl : FreeList (dense ℕ))
    → FreeList.find (dense ℕ) (FreeList.new_free_list (dense ℕ)) size ≢ some (idx, fl)
no_block size idx fl e =
    let answers =
      (find_exhaustive (dense ℕ) (FreeList.new_free_list (dense ℕ)) size
        (new_free_list-HasClasses (dense ℕ))).0 in
    no_room (answers fl idx e)

pub shard-IsUsable : IsUsable deps shard.entries
unfolding init_new_shard Queue.new_bytes_queue
shard-IsUsable = record {
  linear = new_bytes_queue-IsLinear (dense ℕ) 100 0 (omega arith);
  blocks_inside = λ size idx fl e. absurd (no_block size idx fl e);
  places_fit = omega arith;
}

tight_none : FreeList.find (dense ℕ) tight.entries.freelist 25 ≡ none
unfolding init_new_shard FreeList.find FreeList.find_from FreeList.find_start
    FreeList.find_in_size_list FreeList.scan Queue.new_bytes_queue FreeList.new_free_list
tight_none = refl

tight-IsFull : IsFull (dense ℕ) tight.entries 21
unfolding init_new_shard Queue.new_bytes_queue
tight-IsFull = (omega arith, omega arith, omega arith)

set_full-IsHung_example :
    (s' : CacheShard deps) × (set deps tight a_key 1 blob (pos 0) 5 ≡ ok (value 0, s'))
    × IsHung deps s'
set_full-IsHung_example =
    set_full-IsHung deps no_cells tight a_key 1 blob (pos 0) 5
      (started 1 10 10 100 1 5 (omega arith)) refl tight_none tight-IsFull

-- A shard that holds one entry, for the key `a` and the hash 1.
abbrev pub holding : CacheShard deps
holding = record shard {
  hashmap = (1, 1) ∷ [];
  entries = record shard.entries {
    array = 0 ∷ (le_bytes 4 21 ++ layout 0 1 a_key blob);
    tail = 26;
    right_margin = 26;
    count = 1;
    capacity = 26;
  };
}

holding-IsStored : IsStored deps holding 1 0 a_key blob
unfolding init_new_shard
holding-IsStored = record {
  free = refl;
  counted = omega arith;
  short = omega arith;
  placed = record {
    positive = omega arith;
    nonempty = omega arith;
    word = omega arith;
    inside = omega arith;
    header = refl;
    body = refl;
  };
}

-- The shard of an outcome.
abbrev shard_of : {A : Type 0} → Outcome (A × CacheShard deps) → CacheShard deps
shard_of (ok (a, s)) = s
shard_of (err e) = shard
shard_of panic = shard
shard_of blocked = shard

abbrev deleted : CacheShard deps
deleted = shard_of (del deps holding a_key 1 5)

holding-del : del deps holding a_key 1 5 ≡ ok (value tt, deleted)
unfolding del init_new_shard Queue.get Queue.peek read_le remove_entry reset_key_at delete_index
    Queue.delete read_timestamp_from_entry
holding-del = refl

del_any_key_example :
    (s'' : CacheShard deps) × (del deps holding b_key 1 5 ≡ ok (value tt, s''))
    × (s''.hashmap ≡ deleted.hashmap)
    × (s''.entries ≡ deleted.entries)
del_any_key_example = del_any_key deps holding deleted a_key b_key 1 5 holding-del

abbrev swept_keys : listed.Set
swept_keys = listed.add listed.empty a_key

-- The outcome's shard.
abbrev state_of : Outcome (CacheShard deps) → CacheShard deps
state_of (ok s) = s
state_of (err e) = shard
state_of panic = shard
state_of blocked = shard

abbrev swept : CacheShard deps
swept = state_of (evict_del deps holding 0 swept_keys)

holding_evict : evict_del deps holding 0 swept_keys ≡ ok swept
unfolding evict_del init_new_shard Queue.get Queue.peek read_le remove_entry reset_key_at
    delete_index Queue.delete read_timestamp_from_entry evict_keys evict_key
holding_evict = refl

evict_del-IsSwept_example :
    IsSwept deps (record holding { locked = false }) swept (listed.values swept_keys)
evict_del-IsSwept_example = evict_del-IsSwept deps holding swept 0 swept_keys holding_evict

-- A shard after `set`, then `del`, then `set` into the block that has become free.
abbrev first_set : CacheShard deps
first_set = shard_of (set deps shard a_key 1 blob (pos 0) 5)

first_set_done : set deps shard a_key 1 blob (pos 0) 5 ≡ ok (value 0, first_set)
unfolding set init_new_shard drop_previous wrap_entry set_push Queue.push FreeList.find
    FreeList.find_from FreeList.find_start FreeList.find_in_size_list FreeList.scan
    Queue.new_bytes_queue FreeList.new_free_list Queue.push_append Queue.available_space_after_tail
    Queue.available_space_before_head fill_entry put_le copy_at slice Queue.push_finish
    Queue.push_at_tail Queue.copy_entry Queue.copy
first_set_done = refl

abbrev then_deleted : CacheShard deps
then_deleted = shard_of (del deps first_set a_key 1 6)

then_deleted_done : del deps first_set a_key 1 6 ≡ ok (value tt, then_deleted)
unfolding set init_new_shard drop_previous wrap_entry set_push Queue.push FreeList.find
    FreeList.find_from FreeList.find_start FreeList.find_in_size_list FreeList.scan
    Queue.new_bytes_queue FreeList.new_free_list Queue.push_append Queue.available_space_after_tail
    Queue.available_space_before_head fill_entry put_le copy_at slice Queue.push_finish
    Queue.push_at_tail Queue.copy_entry Queue.copy del Queue.get Queue.peek read_le remove_entry
    reset_key_at delete_index Queue.delete read_timestamp_from_entry
then_deleted_done = refl

abbrev pub reused : CacheShard deps
reused = shard_of (set deps then_deleted b_key 2 blob (pos 0) 7)

reused_done : set deps then_deleted b_key 2 blob (pos 0) 7 ≡ ok (value 0, reused)
unfolding set init_new_shard drop_previous wrap_entry set_push Queue.push FreeList.find
    FreeList.find_from FreeList.find_start FreeList.find_in_size_list FreeList.scan
    Queue.new_bytes_queue FreeList.new_free_list Queue.push_append Queue.available_space_after_tail
    Queue.available_space_before_head fill_entry put_le copy_at slice Queue.push_finish
    Queue.push_at_tail Queue.copy_entry Queue.copy del Queue.get Queue.peek read_le remove_entry
    reset_key_at delete_index Queue.delete read_timestamp_from_entry FreeList.add FreeList.store
    FreeList.put_into_size_list FreeList.bucket FreeList.merge_right FreeList.merge_left
    FreeList.get_left FreeList.take_block
reused_done = refl

first_set_free : first_set.locked ≡ false
unfolding set init_new_shard drop_previous wrap_entry set_push Queue.push FreeList.find
    FreeList.find_from FreeList.find_start FreeList.find_in_size_list FreeList.scan
    Queue.new_bytes_queue FreeList.new_free_list Queue.push_append Queue.available_space_after_tail
    Queue.available_space_before_head fill_entry put_le copy_at slice Queue.push_finish
    Queue.push_at_tail Queue.copy_entry Queue.copy
first_set_free = refl

reused_free : reused.locked ≡ false
unfolding set init_new_shard drop_previous wrap_entry set_push Queue.push FreeList.find
    FreeList.find_from FreeList.find_start FreeList.find_in_size_list FreeList.scan
    Queue.new_bytes_queue FreeList.new_free_list Queue.push_append Queue.available_space_after_tail
    Queue.available_space_before_head fill_entry put_le copy_at slice Queue.push_finish
    Queue.push_at_tail Queue.copy_entry Queue.copy del Queue.get Queue.peek read_le remove_entry
    reset_key_at delete_index Queue.delete read_timestamp_from_entry FreeList.add FreeList.store
    FreeList.put_into_size_list FreeList.bucket FreeList.merge_right FreeList.merge_left
    FreeList.get_left FreeList.take_block
reused_free = refl

shard_tail : shard.entries.tail < 2 ^ 32
unfolding init_new_shard Queue.new_bytes_queue
shard_tail = omega arith

deleted_tail : then_deleted.entries.tail < 2 ^ 32
unfolding set init_new_shard drop_previous wrap_entry set_push Queue.push FreeList.find
    FreeList.find_from FreeList.find_start FreeList.find_in_size_list FreeList.scan
    Queue.new_bytes_queue FreeList.new_free_list Queue.push_append Queue.available_space_after_tail
    Queue.available_space_before_head fill_entry put_le copy_at slice Queue.push_finish
    Queue.push_at_tail Queue.copy_entry Queue.copy del Queue.get Queue.peek read_le remove_entry
    reset_key_at delete_index Queue.delete read_timestamp_from_entry
deleted_tail = omega arith

pub reused_tail : reused.entries.tail < 2 ^ 32
unfolding set init_new_shard drop_previous wrap_entry set_push Queue.push FreeList.find
    FreeList.find_from FreeList.find_start FreeList.find_in_size_list FreeList.scan
    Queue.new_bytes_queue FreeList.new_free_list Queue.push_append Queue.available_space_after_tail
    Queue.available_space_before_head fill_entry put_le copy_at slice Queue.push_finish
    Queue.push_at_tail Queue.copy_entry Queue.copy del Queue.get Queue.peek read_le remove_entry
    reset_key_at delete_index Queue.delete read_timestamp_from_entry FreeList.add FreeList.store
    FreeList.put_into_size_list FreeList.bucket FreeList.merge_right FreeList.merge_left
    FreeList.get_left FreeList.take_block
reused_tail = omega arith

abbrev pub reused_cells : Cells
reused_cells =
    with_cell (without_cell (with_cell no_cells 1 (new_cell deps a_key 1 blob (pos 0) 5)) 1) 2
      (new_cell deps b_key 2 blob (pos 0) 7)

pub reused-IsReached : IsReached deps reused_cells reused
reused-IsReached =
    stored b_key blob 2 7 (pos 0) (value 0)
      (deleted_to a_key 1 6
        (stored a_key blob 1 5 (pos 0) (value 0) (started 10 10 0 100 1 5 (omega arith)) shard_tail
          (omega arith) (omega arith) first_set_done first_set_free)
        then_deleted_done)
      deleted_tail (omega arith) (omega arith) reused_done reused_free

reached-Gets_example : Gets deps reused_cells reused b_key 2
reached-Gets_example = reached-Gets deps reused_cells reused b_key 2 reused-IsReached

reached_calls_example :
    SetsCell deps a_key 2 blob (pos 3) 8 reused_cells reused
    × Dels deps reused_cells reused a_key 2 8
    × ((s' : CacheShard deps) × (evict_del deps reused 0 swept_keys ≡ ok s')
        × IsReached deps (sweep deps reused_cells 0 (listed.values swept_keys)) s')
reached_calls_example =
    reached_calls deps reused_cells reused a_key 2 blob (pos 3) 8 0 swept_keys reused-IsReached
      reused_tail (omega arith) (omega arith)
