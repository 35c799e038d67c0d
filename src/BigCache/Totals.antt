-- ===== src/BigCache/Totals.antt =====
-- `Stats`, `Len` and `Reset` of bigcache/bigcache.go over all shards.
use clustered_big_cache.Prelude.{
  ℕ, suc, ◌+◌, ◌≡◌, refl, ap, sym, ◌∙◌, false, List, [], ◌∷◌, arith, length, All, All-get, subst,
}
use clustered_big_cache.Prelude.Outcome.{ok, failure, not_found, ◌>>=◌, bind-ok, ok-injective}
use clustered_big_cache.Prelude.Assoc.{lookup}
use clustered_big_cache.Shard
use clustered_big_cache.Shard.{Deps, CacheShard, Stats, miss, lock}
use clustered_big_cache.Shard.Lookup.{get_absent}
use clustered_big_cache.BigCache.{
  BigCache, get, reset, reset_shards, len, len_shards, stats, stats_from, no_stats,
}
use clustered_big_cache.BigCache.Routing.{IsRouted, get_shard-IsRouted}
use clustered_big_cache.BigCache.Keeping.{home, get_reads}

module _ (D : Deps) where
  -- The sum of a number over the shards.
  abbrev pub total : (CacheShard D → ℕ) → List (CacheShard D) → ℕ
  total f [] = 0
  total f (shard ∷ more) = f shard + total f more

  -- Each counter against the sum of that counter over the shards.
  pub record IsTotal (base s : Stats) (shards : List (CacheShard D)) : Type 0 where
    pub hits : s.hits ≡ base.hits + total (λ c. c.stats.hits) shards
    pub misses : s.misses ≡ base.misses + total (λ c. c.stats.misses) shards
    pub del_hits : s.del_hits ≡ base.del_hits + total (λ c. c.stats.del_hits) shards
    pub del_misses : s.del_misses ≡ base.del_misses + total (λ c. c.stats.del_misses) shards
    pub collisions : s.collisions ≡ base.collisions + total (λ c. c.stats.collisions) shards
    pub evict_count : s.evict_count ≡ base.evict_count + total (λ c. c.stats.evict_count) shards

  stats_from-IsTotal :
      (base : Stats) (shards : List (CacheShard D)) → IsTotal base (stats_from D base shards) shards
  unfolding stats_from
  stats_from-IsTotal base [] = record {
    hits = omega arith;
    misses = omega arith;
    del_hits = omega arith;
    del_misses = omega arith;
    collisions = omega arith;
    evict_count = omega arith;
  }
  stats_from-IsTotal base (shard ∷ more) =
      let tmp = shard.stats in
      let ih =
        stats_from-IsTotal
          (record {
            hits = base.hits + tmp.hits;
            misses = base.misses + tmp.misses;
            del_hits = base.del_hits + tmp.del_hits;
            del_misses = base.del_misses + tmp.del_misses;
            collisions = base.collisions + tmp.collisions;
            evict_count = base.evict_count + tmp.evict_count;
          })
          more in
      record {
        hits = omega (arith, ih.hits);
        misses = omega (arith, ih.misses);
        del_hits = omega (arith, ih.del_hits);
        del_misses = omega (arith, ih.del_misses);
        collisions = omega (arith, ih.collisions);
        evict_count = omega (arith, ih.evict_count);
      }

  -- `Stats` answers, counter by counter, the sum over the shards.
  pub stats-IsTotal : (c : BigCache D) → IsTotal (no_stats D) (stats D c) c.shards
  unfolding stats
  stats-IsTotal c = stats_from-IsTotal (no_stats D) c.shards

  -- A shard that is free and has nothing in its map.
  pub IsCleared : CacheShard D → Type 0
  IsCleared s = (s.locked ≡ false) × (s.hashmap ≡ [])

  reset-IsCleared :
      (s s' : CacheShard D) (max_entry_size : ℕ)
      → Shard.reset D s max_entry_size ≡ ok s'
      → IsCleared s'
  unfolding Shard.reset IsCleared
  reset-IsCleared s s' max_entry_size e = ground arith

  reset_shards-IsCleared :
      (shards shards' : List (CacheShard D)) (max_entry_size : ℕ)
      → reset_shards D shards max_entry_size ≡ ok shards'
      → All IsCleared shards' × (length shards' ≡ length shards)
  unfolding reset_shards
  reset_shards-IsCleared [] shards' max_entry_size e =
      let same = ok-injective e in (subst (All IsCleared) same tt, ap length (sym same))
  reset_shards-IsCleared (shard ∷ more) shards' max_entry_size e =
      let (shard', first, rest) =
        bind-ok (Shard.reset D shard max_entry_size)
          (λ t. reset_shards D more max_entry_size >>= λ ts. ok (t ∷ ts)) e in
      let (more', others, last) =
        bind-ok (reset_shards D more max_entry_size) (λ ts. ok (shard' ∷ ts)) rest in
      let ih = reset_shards-IsCleared more more' max_entry_size others in
      let same = ok-injective last in
      (
        subst (All IsCleared) same (reset-IsCleared shard shard' max_entry_size first, ih.0),
        ap length (sym same) ∙ ap suc ih.1,
      )

  len_shards-IsCleared :
      (shards : List (CacheShard D)) → All IsCleared shards → len_shards D shards ≡ ok 0
  unfolding len_shards Shard.len IsCleared
  len_shards-IsCleared [] h = refl
  len_shards-IsCleared (shard ∷ more) h =
      let ih = len_shards-IsCleared more h.1 in rw (h.0.0, h.0.1, ih)

  -- After a `Reset` of a cache with its routing in order that has gone through, `Len` is 0, and `Get` of
  -- any key answers that it is not there.
  pub reset-empties :
      (c c' : BigCache D) (key : List ℕ)
      → IsRouted D c
      → reset D c ≡ ok c'
      → (len D c' ≡ ok 0)
        × ((c'' : BigCache D) × (get D c' key ≡ ok (failure (not_found key), c'')))
  unfolding reset len IsCleared
  reset-empties c c' key r e =
      let (shards, done, last) =
        bind-ok (reset_shards D c.shards c.config.max_entry_size)
          (λ ss. ok (record c { shards = ss })) e in
      let (cleared, n) = reset_shards-IsCleared c.shards shards c.config.max_entry_size done in
      let d : BigCache D = record c { shards = shards } in
      let same : d ≡ c' = ok-injective last in
      let routed : IsRouted D d = record {
        bits = r.bits;
        count = n ∙ r.count;
        mask = r.mask;
        configured = r.configured ∙ sym n;
      } in
      let (shard, found, there) = get_shard-IsRouted D d (D.sum64 key) routed in
      let (free, empty) = All-get IsCleared shards (home D d key) cleared there in
      let answer =
        get_absent D shard key (D.sum64 key) free (ap (λ m. lookup m (D.sum64 key)) empty) in
      (
        subst (λ b. len_shards D b.shards ≡ ok 0) same (len_shards-IsCleared shards cleared),
        subst (λ b. (c'' : BigCache D) × (get D b key ≡ ok (failure (not_found key), c''))) same
            (
              _,
              get_reads D d key shard (miss D shard) (failure (not_found key)) routed there answer,
            ),
      )
