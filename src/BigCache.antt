-- ===== src/BigCache.antt =====
-- bigcache/bigcache.go: the shards of a cache, the choice of the shard, and the operations on a key.
-- The hasher of the configuration is `sum64` of the shard's parameters; it answers a 64-bit word. `now` is
-- what the clock and `time.Now().Unix()` answer during the call.
pub mod Routing
pub mod Keeping
pub mod Totals
pub mod Kept
use clustered_big_cache.Prelude.{
  ℕ, zero, suc, ◌+◌, ◌-◌, ◌*◌, ◌%◌, ◌^◌, ◌<◌, Bool, true, false, List, [], ◌∷◌, Option, none, some,
  if◌then◌else◌, length, get_elem?, set, not, ◌==◌,
}
use clustered_big_cache.Prelude.Int.{ℤ, pos, negsuc}
use clustered_big_cache.Prelude.Outcome.{
  Outcome, ok, err, panic, blocked, Reply, not_power_of_two, require, ◌>>=◌, ◌>>◌,
}
use clustered_big_cache.Config.{Config, is_power_of_two, initial_shard_size, maximum_shard_size}
use clustered_big_cache.Shard
use clustered_big_cache.Shard.{Deps, CacheShard, Stats, init_new_shard}
use Prim.Native.Nat.{bit_and}

module _ (D : Deps) where
  pub record BigCache : Type 0 where
    pub shards : List (CacheShard D)
    pub life_window : ℕ
    pub config : Config
    pub shard_mask : ℕ
    pub max_shard_size : ℕ

  -- The loop of `newBigCache`: `count` shards, numbered from `num`.
  unfoldable pub new_shards : Config → (num count now : ℕ) → Outcome (List (CacheShard D))
  new_shards config num zero now = ok []
  new_shards config num (suc count) now = do
    initial ← initial_shard_size config
    maximum ← maximum_shard_size config
    more ← new_shards config (num + 1) count now
    ok (
        init_new_shard D initial config.max_entry_size maximum (D.seconds config.life_window) num
          now
        ∷ more)

  -- `newBigCache`. `uint64(config.Shards - 1)` wraps where there are no shards.
  unfoldable pub new_big_cache : Config → (now : ℕ) → Outcome BigCache
  new_big_cache config now = do
    require (is_power_of_two config.shards) not_power_of_two
    maximum ← maximum_shard_size config
    shards ← new_shards config 1 config.shards now
    ok (record {
      shards = shards;
      life_window = D.seconds config.life_window;
      config = config;
      shard_mask = (config.shards + 2 ^ 64 - 1) % 2 ^ 64;
      max_shard_size = maximum % 2 ^ 32;
    })

  -- `getShard`: the index, and the shard there. An index out of range panics.
  unfoldable pub get_shard : BigCache → (hashed_key : ℕ) → Outcome (ℕ × CacheShard D)
  get_shard c hashed_key =
      let index = bit_and hashed_key c.shard_mask in
      elim (get_elem? c.shards index) [ some shard ↦ ok (index, shard) | none ↦ panic ]

  -- The cache once the shard at the index has changed.
  abbrev pub put_shard : BigCache → ℕ → CacheShard D → BigCache
  put_shard c index shard = record c { shards = set c.shards index shard }

  -- `Get`
  unfoldable pub get : BigCache → (key : List ℕ) → Outcome (Reply (List ℕ) × BigCache)
  get c key = do
    let hashed_key = D.sum64 key
    (index, shard) ← get_shard c hashed_key
    (reply, shard') ← Shard.get D shard key hashed_key
    ok (reply, put_shard c index shard')

  -- `Set`
  unfoldable pub set_key :
      BigCache → (key entry : List ℕ) (duration : ℤ) (now : ℕ) → Outcome (Reply ℕ × BigCache)
  set_key c key entry duration now = do
    let hashed_key = D.sum64 key
    (index, shard) ← get_shard c hashed_key
    (reply, shard') ← Shard.set D shard key hashed_key entry duration now
    ok (reply, put_shard c index shard')

  -- `Delete`
  unfoldable pub delete :
      BigCache → (key : List ℕ) (now : ℕ) → Outcome (Reply (Unit {0}) × BigCache)
  delete c key now = do
    let hashed_key = D.sum64 key
    (index, shard) ← get_shard c hashed_key
    (reply, shard') ← Shard.del D shard key hashed_key now
    ok (reply, put_shard c index shard')

  unfoldable pub reset_shards :
      List (CacheShard D) → (max_entry_size : ℕ) → Outcome (List (CacheShard D))
  reset_shards [] max_entry_size = ok []
  reset_shards (shard ∷ more) max_entry_size = do
    shard' ← Shard.reset D shard max_entry_size
    more' ← reset_shards more max_entry_size
    ok (shard' ∷ more')

  -- `Reset`
  unfoldable pub reset : BigCache → Outcome BigCache
  reset c = do
    shards ← reset_shards c.shards c.config.max_entry_size
    ok (record c { shards = shards })

  unfoldable pub len_shards : List (CacheShard D) → Outcome ℕ
  len_shards [] = ok 0
  len_shards (shard ∷ more) = do n ← Shard.len D shard; m ← len_shards more; ok (n + m)

  -- `Len`
  unfoldable pub len : BigCache → Outcome ℕ
  len c = len_shards c.shards

  abbrev pub no_stats : Stats
  no_stats = record {
    hits = 0;
    misses = 0;
    del_hits = 0;
    del_misses = 0;
    collisions = 0;
    evict_count = 0;
  }

  unfoldable pub stats_from : Stats → List (CacheShard D) → Stats
  stats_from s [] = s
  stats_from s (shard ∷ more) =
      let tmp = shard.stats in
      stats_from
        (record {
          hits = s.hits + tmp.hits;
          misses = s.misses + tmp.misses;
          del_hits = s.del_hits + tmp.del_hits;
          del_misses = s.del_misses + tmp.del_misses;
          collisions = s.collisions + tmp.collisions;
          evict_count = s.evict_count + tmp.evict_count;
        })
        more

  -- `Stats`, over the shards in order. `getStats` reads each shard's counters.
  unfoldable pub stats : BigCache → Stats
  stats c = stats_from no_stats c.shards
