-- ===== src/Shard/Counters.antt =====
-- The counters of bigcache/stats.go as `get` moves them, and the rounds of `evictDel`.
use clustered_big_cache.Prelude.{
  ℕ, ◌+◌, ◌≡◌, ◌≢◌, ◌⊎◌, inl, inr, sym, true, false, ap, ◌∙◌, List, [], ◌∷◌, arith, length, ne→==,
  All,
}
use clustered_big_cache.Prelude.Assoc.{lookup, erase, lookup-erase}
use clustered_big_cache.Prelude.Outcome.{ok, value, failure, Reply, ◌>>=◌, bind-ok, ok-injective}
use clustered_big_cache.Encoding.{read_timestamp_from_entry}
use clustered_big_cache.Queue
use clustered_big_cache.Queue.{View, bytes_at}
use clustered_big_cache.Shard.{
  Deps, CacheShard, get, get_entry_value, lock, unlock, evict_del, evict_key, evict_keys,
  count_evict, remove_entry, hit, miss, collision,
}

module _ (D : Deps) where
  -- What `get` may leave: one counter has moved, the one for its answer.
  pub IsCounted : CacheShard D → Reply (List ℕ) → CacheShard D → Type 0
  IsCounted s (value entry) s' = s' ≡ hit D s
  IsCounted s (failure f) s' = (s' ≡ miss D s) ⊎ (s' ≡ collision D s)

  -- Where `get` ends without a panic and the shard is free, it changes nothing but one counter: the hits
  -- where it answers a value, else the misses or the collisions.
  pub get-IsCounted :
      (s s' : CacheShard D) (key : List ℕ) (hashed_key : ℕ) (reply : Reply (List ℕ))
      → get D s key hashed_key ≡ ok (reply, s')
      → IsCounted s reply s'
  unfolding get IsCounted get_entry_value
  get-IsCounted s s' key hashed_key (value entry) e = ground arith
  get-IsCounted s s' key hashed_key (failure f) e = ground arith

  evict_count-evict_key :
      (s s' : CacheShard D) (timestamp : ℕ) (key : List ℕ)
      → evict_key D s timestamp key ≡ ok s'
      → s'.stats.evict_count ≡ s.stats.evict_count + 1
  unfolding evict_key remove_entry
  evict_count-evict_key s s' timestamp key e = ground arith

  -- One round takes at most the hash of its key out of the map, and leaves the lock alone.
  hashmap-evict_key :
      (s s' : CacheShard D) (timestamp : ℕ) (key : List ℕ)
      → evict_key D s timestamp key ≡ ok s'
      → (s'.locked ≡ s.locked)
        × ((s'.hashmap ≡ s.hashmap) ⊎ (s'.hashmap ≡ erase s.hashmap (D.sum64 key)))
  unfolding evict_key remove_entry
  hashmap-evict_key s s' timestamp key e = ground arith

  lookup-evict_key :
      (s s' : CacheShard D) (timestamp : ℕ) (key : List ℕ) (hash : ℕ)
      → evict_key D s timestamp key ≡ ok s'
      → D.sum64 key ≢ hash
      → lookup s'.hashmap hash ≡ lookup s.hashmap hash
  lookup-evict_key s s' timestamp key hash e other =
      elim (hashmap-evict_key s s' timestamp key e).1 [
        | inl same ↦ ap (λ m. lookup m hash) same
        | inr less ↦
            ap (λ m. lookup m hash) less
            ∙ (lookup-erase s.hashmap (D.sum64 key) hash ∙ rw (ne→== (D.sum64 key) hash other))
      ]

  -- A round for a key whose stored entry has another timestamp, as the entry has been written anew since,
  -- only counts itself.
  pub evict_key_renewed :
      (s : CacheShard D) (timestamp stored : ℕ) (key : List ℕ) (view : View)
      → lookup s.hashmap (D.sum64 key) ≢ 0
      → Queue.get D.blocks s.entries (lookup s.hashmap (D.sum64 key)) ≡ ok view
      → read_timestamp_from_entry (bytes_at D.blocks s.entries view) ≡ ok stored
      → stored ≢ timestamp
      → evict_key D s timestamp key ≡ ok (count_evict D s)
  unfolding evict_key
  evict_key_renewed s timestamp stored key view placed found read other =
      rw
        (ne→== (lookup s.hashmap (D.sum64 key)) 0 placed, found, read, ne→== stored timestamp other)

  -- What a run over a list of keys has done.
  pub record IsSwept (s s' : CacheShard D) (keys : List (List ℕ)) : Type 0 where
    pub same_lock : s'.locked ≡ s.locked
    pub counted : s'.stats.evict_count ≡ s.stats.evict_count + length keys
    pub others_kept :
        (hash : ℕ)
        → All (λ key. D.sum64 key ≢ hash) keys
        → lookup s'.hashmap hash ≡ lookup s.hashmap hash

  evict_keys-IsSwept :
      (s s' : CacheShard D) (timestamp : ℕ) (keys : List (List ℕ))
      → evict_keys D s timestamp keys ≡ ok s'
      → IsSwept s s' keys
  unfolding evict_keys
  evict_keys-IsSwept s s' timestamp [] e =
      let same = ok-injective e in
      record {
        same_lock = ap (λ t. t.locked) (sym same);
        counted = rw (sym same) (omega arith);
        others_kept = λ hash _. ap (λ t. lookup t.hashmap hash) (sym same);
      }
  evict_keys-IsSwept s s' timestamp (key ∷ more) e =
      let (s₁, first, rest) =
        bind-ok (evict_key D s timestamp key) (λ t. evict_keys D t timestamp more) e in
      let ih = evict_keys-IsSwept s₁ s' timestamp more rest in
      let one = evict_count-evict_key s s₁ timestamp key first in
      record {
        same_lock = ih.same_lock ∙ (hashmap-evict_key s s₁ timestamp key first).0;
        counted = omega (arith, ih.counted, one);
        others_kept = λ hash others.
            ih.others_kept hash others.1 ∙ lookup-evict_key s s₁ timestamp key hash first others.0;
      }

  -- Where `evictDel` ends without an error or a panic, the shard is free, the evictions have grown by the
  -- number of keys in the set, and under every hash that is none of theirs the map has what it had.
  pub evict_del-IsSwept :
      (s s' : CacheShard D) (timestamp : ℕ) (set : D.keys.Set)
      → evict_del D s timestamp set ≡ ok s'
      → IsSwept (record s { locked = false }) s' (D.keys.values set)
  unfolding evict_del
  evict_del-IsSwept s s' timestamp set e =
      let (s₁, taken, rest) =
        bind-ok (lock D s)
          (λ t. evict_keys D t timestamp (D.keys.values set) >>= λ t'. ok (unlock D t')) e in
      let (s₂, swept, last) =
        bind-ok (evict_keys D s₁ timestamp (D.keys.values set)) (λ t'. ok (unlock D t')) rest in
      let run = evict_keys-IsSwept s₁ s₂ timestamp (D.keys.values set) swept in
      let same = ok-injective last in
      let start : record s { locked = true } ≡ s₁ = ground arith in
      record {
        same_lock = ap (λ t. t.locked) (sym same);
        counted =
            ap (λ t. t.stats.evict_count) (sym same)
            ∙ (run.counted
                ∙ ap (λ t. t.stats.evict_count + length (D.keys.values set)) (sym start));
        others_kept = λ hash others.
            ap (λ t. lookup t.hashmap hash) (sym same)
            ∙ (run.others_kept hash others ∙ ap (λ t. lookup t.hashmap hash) (sym start));
      }
