-- ===== src/Examples/Caches.antt =====
-- bigcache/bigcache.go, bigcache/config.go, bigcache/iterator.go and utils/sliceList.go on small inputs.
use clustered_big_cache.Prelude.{
  ℕ, zero, suc, ◌+◌, ◌≡◌, ◌≢◌, ◌⊎◌, refl, subst, true, none, some, List, [], ◌∷◌, arith, length,
  get_elem?, some_injective, none≢some, ◌==◌, if◌then◌else◌,
}
use clustered_big_cache.Prelude.Int.{pos}
use clustered_big_cache.Prelude.Outcome.{
  Outcome, ok, err, panic, blocked, Reply, value, failure, not_found,
}
use clustered_big_cache.Config.{Config, default_config}
use clustered_big_cache.Config.Sizes.{AreSized, sizes_lem}
use clustered_big_cache.Shard.{Deps, CacheShard, expiry_timestamp, hit}
use clustered_big_cache.Shard
use clustered_big_cache.BigCache.{
  BigCache, new_big_cache, get_shard, put_shard, get, set_key, delete, reset, reset_shards, len,
}
use clustered_big_cache.BigCache.Routing.{IsRouted}
use clustered_big_cache.BigCache.Kept.{
  Contents, with_shard, IsKept, IsAnswer, get-IsAnswer, set_key-IsKept, delete-IsKept,
  new_big_cache-IsKept,
}
use clustered_big_cache.Shard.Sound.{no_cells, with_cell, without_cell}
use clustered_big_cache.Shard.Calls.{new_cell}
use clustered_big_cache.Shard.Refining.{IsReached, started}
use clustered_big_cache.BigCache.Keeping.{IsOpen}
use clustered_big_cache.BigCache.Totals.{reset-empties}
use clustered_big_cache.Iterator.{EntryInfoIterator, new_iterator, walk}
use clustered_big_cache.Iterator.Walk.{places, walk-places}
use clustered_big_cache.SliceList
use clustered_big_cache.Fnv.{sum64, sum64_from}
use clustered_big_cache.Queue
use clustered_big_cache.Queue.Append.{IsFull}
use clustered_big_cache.Containers.Dense.{dense}
use clustered_big_cache.Bytes.{read_le}
use clustered_big_cache.Encoding.{read_key_from_entry, read_entry}
use clustered_big_cache.Prelude.Assoc.{lookup}
use clustered_big_cache.SliceList.{SliceList, add, remove}
use clustered_big_cache.SliceList.Counting.{IsCounting}
use clustered_big_cache.Examples.Shards.{
  deps, shard, holding, shard_free, shard-IsUsable, locked_drops, reused, reused_cells,
  reused-IsReached, reused_tail,
}

abbrev a_key : List ℕ
a_key = 97 ∷ []

abbrev none_config : Config
none_config = record default_config { shards = 0 }

-- Three shards and a limit of 1 MB, which three does not divide.
abbrev limited_config : Config
limited_config = record default_config { shards = 3; hard_max_cache_size = 1 }

sizes_lem_example : AreSized limited_config
sizes_lem_example = sizes_lem limited_config (omega arith)

-- A cache of two shards, the second of which holds an entry, for the key `a`.
abbrev pub cache : BigCache deps
cache = record {
  shards = shard ∷ holding ∷ [];
  life_window = 100;
  config = record default_config { shards = 2 };
  shard_mask = 1;
  max_shard_size = 0;
}

pub cache-IsRouted : IsRouted deps cache
cache-IsRouted = record { bits = 1; count = refl; mask = refl; configured = refl }

abbrev cache_of : Outcome (BigCache deps) → BigCache deps
cache_of (ok c) = c
cache_of (err e) = cache
cache_of panic = cache
cache_of blocked = cache

cache-reset : reset deps cache ≡ ok (cache_of (reset deps cache))
unfolding reset reset_shards Shard.reset Shard.init_new_shard
cache-reset = refl

reset-empties_example :
    (len deps (cache_of (reset deps cache)) ≡ ok 0)
    × ((c'' : BigCache deps) × (get deps (cache_of (reset deps cache)) a_key
          ≡ ok (failure (not_found a_key), c'')))
reset-empties_example =
    reset-empties deps cache (cache_of (reset deps cache)) a_key cache-IsRouted cache-reset

walk-places_example :
    (it : EntryInfoIterator) × (new_iterator deps cache ≡ ok it)
    × (walk deps cache it (length (places deps 0 cache.shards) + 1)
        ≡ ok (places deps 0 cache.shards))
walk-places_example = walk-places deps cache cache-IsRouted (shard_free, (shard_free, tt))

abbrev pub ab_key : List ℕ
ab_key = 97 ∷ 98 ∷ []

shard_map : lookup shard.hashmap 2 ≡ 0
unfolding Shard.init_new_shard
shard_map = refl

pub cache-IsOpen : IsOpen deps cache ab_key (7 ∷ []) 5
cache-IsOpen = record {
  routed = cache-IsRouted;
  shard = shard;
  cleared = record shard { locked = true };
  there = refl;
  free = shard_free;
  dropped = locked_drops shard ab_key 2 shard_map;
  usable = shard-IsUsable;
  short = omega arith;
  word = omega arith;
}

abbrev pub after_delete : BigCache deps
after_delete = put_shard deps cache 0 (Shard.delmiss deps shard)

pub cache_delete : delete deps cache ab_key 5 ≡ ok (failure (not_found ab_key), after_delete)
unfolding delete get_shard Shard.del Shard.init_new_shard
cache_delete = refl

pub holding_get : Shard.get deps holding a_key 1 ≡ ok (value (7 ∷ 8 ∷ []), hit deps holding)
unfolding Shard.get Shard.init_new_shard Queue.get Queue.peek read_le Shard.get_entry_value
    read_key_from_entry read_entry
holding_get = refl

-- A cache of two shards, the first of which holds a cell under the hash 2.
abbrev pub filled : BigCache deps
filled = record cache { shards = reused ∷ shard ∷ [] }

abbrev pub filled_contents : Contents
filled_contents i = if i == 0 then reused_cells else no_cells

filled_each :
    (i : ℕ) (s : CacheShard deps)
    → get_elem? filled.shards i ≡ some s
    → IsReached deps (filled_contents i) s
filled_each zero s e = subst (IsReached deps reused_cells) (some_injective e) reused-IsReached
filled_each (suc zero) s e =
    subst (IsReached deps no_cells) (some_injective e) (started 10 10 0 100 1 5 (omega arith))
filled_each (suc (suc i)) s e = absurd (none≢some e)

pub filled-IsKept : IsKept deps filled_contents filled
filled-IsKept = record {
  routed = record { bits = 1; count = refl; mask = refl; configured = refl };
  each = filled_each;
}

get-IsAnswer_example :
    (reply : Reply (List ℕ)) × (c' : BigCache deps) × (get deps filled ab_key ≡ ok (reply, c'))
    × IsKept deps filled_contents c'
    × IsAnswer deps (reused_cells 2) ab_key reply
get-IsAnswer_example = get-IsAnswer deps filled_contents filled ab_key filled-IsKept

set_key-IsKept_example :
    (c' : BigCache deps) × (((set_key deps filled ab_key (7 ∷ []) (pos 0) 5 ≡ ok (value 0, c'))
        × IsKept deps
            (with_shard filled_contents 0
              (with_cell reused_cells 2 (new_cell deps ab_key 2 (7 ∷ []) (pos 0) 5)))
            c')
      ⊎ ((set_key deps filled ab_key (7 ∷ []) (pos 0) 5 ≡ ok (value 0, c'))
          × (get deps c' ab_key ≡ blocked)
          × IsFull (dense ℕ) reused.entries 21))
set_key-IsKept_example =
    set_key-IsKept deps filled_contents filled ab_key (7 ∷ []) (pos 0) 5 reused filled-IsKept refl
      reused_tail (omega arith) (omega arith)

delete-IsKept_example :
    (c' : BigCache deps) × (((reused_cells 2 ≡ none)
        × (delete deps filled ab_key 5 ≡ ok (failure (not_found ab_key), c'))
        × IsKept deps filled_contents c')
      ⊎ ((reused_cells 2 ≢ none)
          × (delete deps filled ab_key 5 ≡ ok (value tt, c'))
          × IsKept deps (with_shard filled_contents 0 (without_cell reused_cells 2)) c'))
delete-IsKept_example = delete-IsKept deps filled_contents filled ab_key 5 filled-IsKept

new_big_cache-IsKept_example :
    (c : BigCache deps) × (new_big_cache deps default_config 5 ≡ ok c)
    × IsKept deps (λ _. no_cells) c
new_big_cache-IsKept_example =
    new_big_cache-IsKept deps default_config 5 4 refl (omega arith) (omega arith)

abbrev pairs : SliceList ℕ
pairs = record { items = (a_key, 3) ∷ []; size = pos 1 }

pairs-IsCounting : IsCounting pairs
pairs-IsCounting = refl

pairs_get : SliceList.get pairs a_key ≡ some 3
unfolding SliceList.get
pairs_get = refl

-- The published FNV-1a value for the string "a".
sum64_a : sum64 a_key ≡ 12638187200555641996
unfolding sum64 sum64_from
sum64_a = refl

abbrev sixteen : ℕ
sixteen = 16
