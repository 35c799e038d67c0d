-- ===== src/BigCache/Routing.antt =====
-- `newBigCache` and `getShard` of bigcache/bigcache.go: every hash has its shard.
use clustered_big_cache.Prelude.{
  ℕ, zero, suc, ◌+◌, ◌-◌, ◌%◌, ◌^◌, ◌<◌, ◌≡◌, inl, inr, refl, ap, sym, ◌∙◌, List, [], ◌∷◌, some,
  arith, length, get_elem?, get_elem?-lt,
}
use clustered_big_cache.Prelude.Bits.{bit_and_mask, pow_pos}
use clustered_big_cache.Prelude.Outcome.{ok, panic}
use clustered_big_cache.Config.{Config, maximum_shard_size}
use clustered_big_cache.Config.Sizes.{is_power_of_two_iff, sizes_lem}
use clustered_big_cache.Shard.{Deps, CacheShard, init_new_shard}
use clustered_big_cache.Prelude.Int.{ℤ}
use native.Mathlib.Nat.{mod-lt}
use Prim.Native.Nat.{bit_and}
use clustered_big_cache.BigCache.{
  BigCache, new_big_cache, new_shards, get_shard, get, set_key, delete,
}

module _ (D : Deps) where
  -- As many shards as a power of two, at most 2 ^ 63, and the mask of that power.
  pub record IsRouted (c : BigCache D) : Type 0 where
    pub bits : ℕ
    pub count : length c.shards ≡ 2 ^ bits
    pub mask : c.shard_mask ≡ 2 ^ bits - 1
    pub configured : c.config.shards ≡ length c.shards

  new_shards_ok :
      (config : Config) (num count now : ℕ)
      → 0 < config.shards
      → (shards : List (CacheShard D)) × (new_shards D config num count now ≡ ok shards)
        × (length shards ≡ count)
  unfolding new_shards
  new_shards_ok config num zero now h = ([], refl, refl)
  new_shards_ok config num (suc count) now h =
      let sized = sizes_lem config h in
      let (more, e, n) = new_shards_ok config (num + 1) count now h in
      let shard =
        init_new_shard D sized.initial config.max_entry_size sized.maximum
          (D.seconds config.life_window) num now in
      (shard ∷ more, rw (sized.initial_is, sized.maximum_is, e), ap suc n)

  -- A configuration whose number of shards is a power of two below 2 ^ 63 gives a cache with that many
  -- shards, and its mask is that of the power.
  pub new_big_cache-IsRouted :
      (config : Config) (now k : ℕ)
      → config.shards ≡ 2 ^ k
      → config.shards < 2 ^ 63
      → (c : BigCache D) × (new_big_cache D config now ≡ ok c) × IsRouted c
  unfolding new_big_cache
  new_big_cache-IsRouted config now k e h =
      let pos_k = pow_pos k in
      let some_shards : 0 < config.shards = omega (arith, pos_k) in
      let (shards, made, n) = new_shards_ok config 1 config.shards now some_shards in
      let sized = sizes_lem config some_shards in
      let power = (is_power_of_two_iff config.shards).1 (inr (k, e)) in
      let c : BigCache D = record {
        shards = shards;
        life_window = D.seconds config.life_window;
        config = config;
        shard_mask = (config.shards + 2 ^ 64 - 1) % 2 ^ 64;
        max_shard_size = sized.maximum % 2 ^ 32;
      } in
      (
        c,
        rw (power, sized.maximum_is, made),
        record { bits = k; count = n ∙ e; mask = omega (arith, pos_k); configured = sym n },
      )

  -- A configuration with no shards, and without a limit of its memory, gives a cache, and every `Get`,
  -- `Set` and `Delete` of it panics.
  pub no_shards_panics :
      (config : Config) (now : ℕ) (key entry : List ℕ) (duration : ℤ)
      → config.shards ≡ 0
      → config.hard_max_cache_size ≡ 0
      → (c : BigCache D) × (new_big_cache D config now ≡ ok c)
        × (get D c key ≡ panic)
        × (set_key D c key entry duration now ≡ panic)
        × (delete D c key now ≡ panic)
  unfolding new_big_cache new_shards get set_key delete get_shard maximum_shard_size
  no_shards_panics config now key entry duration e h =
      let c : BigCache D = record {
        shards = [];
        life_window = D.seconds config.life_window;
        config = config;
        shard_mask = 2 ^ 64 - 1;
        max_shard_size = 0;
      } in
      let power = (is_power_of_two_iff config.shards).1 (inl e) in
      (c, rw (power, e, h), refl, refl, refl)

  -- `getShard`, on a cache with a power of two of shards and the mask of that power, never panics: for
  -- every hash it answers the shard at the remainder of the hash by the number of shards.
  pub get_shard-IsRouted :
      (c : BigCache D) (hashed_key : ℕ)
      → IsRouted c
      → (shard : CacheShard D) × (get_shard D c hashed_key
          ≡ ok (hashed_key % length c.shards, shard))
        × (get_elem? c.shards (hashed_key % length c.shards) ≡ some shard)
  unfolding get_shard
  get_shard-IsRouted c hashed_key r =
      let index : bit_and hashed_key c.shard_mask ≡ hashed_key % length c.shards =
        ap (bit_and hashed_key) r.mask
        ∙ (bit_and_mask r.bits hashed_key ∙ ap (λ n. hashed_key % n) (sym r.count)) in
      let inside : hashed_key % length c.shards < length c.shards =
        mod-lt hashed_key (omega (arith, r.count, pow_pos r.bits)) in
      let (shard, there) = get_elem?-lt c.shards (hashed_key % length c.shards) inside in
      (shard, rw (get_shard, index, there) (ap (λ i. ok (i, shard)) index), there)
