-- ===== src/Config.antt =====
-- bigcache/config.go and bigcache/utils.go: the sizes that a cache is built from.
-- The `int` fields of the configuration are taken to be not negative, and the products to stay below
-- 2 ^ 63. What the model does not use is left out: `CleanWindow`, `Verbose`, the logger and `OnRemove`.
pub mod Sizes
use clustered_big_cache.Prelude.{ℕ, ◌*◌, ◌/◌, ◌-◌, Bool, ltb, leb, not, ◌==◌, if◌then◌else◌}
use clustered_big_cache.Prelude.Int.{ℤ, pos}
use clustered_big_cache.Prelude.Outcome.{Outcome, ok, check, ◌>>◌}
use Prim.Native.Nat.{bit_and}

pub record Config : Type 0 where
  pub shards : ℕ
  pub life_window : ℤ
  pub max_entries_in_window : ℕ
  pub max_entry_size : ℕ
  pub hard_max_cache_size : ℕ

-- `DefaultConfig`. The life window is 72 hours, in nanoseconds.
abbrev pub default_config : Config
default_config = record {
  shards = 16;
  life_window = pos (3600 * 1000000000 * 72);
  max_entries_in_window = 1000 * 10 * 60;
  max_entry_size = 500;
  hard_max_cache_size = 0;
}

abbrev pub minimum_entries_in_shard : ℕ
minimum_entries_in_shard = 10

-- `max`
unfoldable pub max : ℕ → ℕ → ℕ
max a b = if ltb b a then a else b

-- `convertMBToBytes`
unfoldable pub convert_mb_to_bytes : ℕ → ℕ
convert_mb_to_bytes value = value * 1024 * 1024

-- `isPowerOfTwo`. At 0 the right operand is -1, and the result is 0 too.
unfoldable pub is_power_of_two : ℕ → Bool
is_power_of_two number = bit_and number (number - 1) == 0

-- `initialShardSize`, where a division by zero panics.
unfoldable pub initial_shard_size : Config → Outcome ℕ
initial_shard_size c =
    check (not (c.shards == 0))
    >> ok (max (c.max_entries_in_window / c.shards) minimum_entries_in_shard)

-- `maximumShardSize`
unfoldable pub maximum_shard_size : Config → Outcome ℕ
maximum_shard_size c =
    if ltb 0 c.hard_max_cache_size
    then check (not (c.shards == 0)) >> ok (convert_mb_to_bytes c.hard_max_cache_size / c.shards)
    else ok 0

-- `SetShard`
abbrev pub set_shard : Config → ℕ → Config
set_shard c num = record c { shards = num }
