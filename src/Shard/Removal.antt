-- ===== src/Shard/Removal.antt =====
-- `del` and `evictDel` of bigcache/shard.go, and a shard whose lock a full queue has left held.
use clustered_big_cache.Prelude.{ℕ, ◌≡◌, ◌≢◌, ap, ◌∙◌, inl, inr, List, false, arith, ==_self}
use clustered_big_cache.Prelude.Assoc.{lookup, erase, lookup-erase}
use clustered_big_cache.Prelude.Outcome.{
  ok, err, panic, blocked, value, failure, not_found, Fault, Outcome-cases,
}
use clustered_big_cache.Queue.{View}
use clustered_big_cache.Shard.{Deps, CacheShard, get, del, remove_entry, miss}
use clustered_big_cache.Shard.Lookup.{get_absent}

module _ (D : Deps) where
  -- What `del` takes out of the map does not depend on the key that it is given, only on the hash.
  hashmap-remove_entry :
      (s s' : CacheShard D) (hashed_key item_index : ℕ) (view : View)
      → remove_entry D s hashed_key item_index view ≡ ok s'
      → (s'.hashmap ≡ erase s.hashmap hashed_key) × (s'.stats ≡ s.stats)
  unfolding remove_entry
  hashmap-remove_entry s s' hashed_key item_index view e = ground arith

  del-hashmap :
      (s s' : CacheShard D) (key : List ℕ) (hashed_key now : ℕ)
      → del D s key hashed_key now ≡ ok (value tt, s')
      → (s'.locked ≡ false) × (s'.hashmap ≡ erase s.hashmap hashed_key)
  unfolding del remove_entry
  del-hashmap s s' key hashed_key now e = ground arith

  -- Once `del` has answered without an error, `get` finds nothing under the hash, whatever the key, and counts
  -- a miss.
  pub get-del :
      (s s' : CacheShard D) (key asked : List ℕ) (hashed_key now : ℕ)
      → del D s key hashed_key now ≡ ok (value tt, s')
      → get D s' asked hashed_key ≡ ok (failure (not_found asked), miss D s')
  get-del s s' key asked hashed_key now e =
      let (free, gone) = del-hashmap s s' key hashed_key now e in
      get_absent D s' asked hashed_key free (
        ap (λ m. lookup m hashed_key) gone
        ∙ (lookup-erase s.hashmap hashed_key hashed_key ∙ rw ==_self))

  module _ (s s' : CacheShard D) (key other : List ℕ) (hashed_key now : ℕ)
      (e : del D s key hashed_key now ≡ ok (value tt, s')) where
    hashmap-same :
        (s'' : CacheShard D)
        → del D s other hashed_key now ≡ ok (value tt, s'')
        → s''.hashmap ≡ s'.hashmap
    unfolding del remove_entry
    hashmap-same s'' found = ground arith

    entries-same :
        (s'' : CacheShard D)
        → del D s other hashed_key now ≡ ok (value tt, s'')
        → s''.entries ≡ s'.entries
    unfolding del remove_entry
    entries-same s'' found = ground arith

    no_failure :
        (f : Fault) (s'' : CacheShard D) → del D s other hashed_key now ≢ ok (failure f, s'')
    unfolding del
    no_failure f s'' found = ground arith

    no_err : (f : Fault) → del D s other hashed_key now ≢ err f
    unfolding del
    no_err f found = ground arith

    no_panic : del D s other hashed_key now ≢ panic
    unfolding del
    no_panic found = ground arith

    no_wait : del D s other hashed_key now ≢ blocked
    unfolding del
    no_wait found = ground arith

  -- Where `del` of one key has answered without an error, `del` of any other key with the same hash would
  -- have, and would have left the same map and the same queue.
  pub del_any_key :
      (s s' : CacheShard D) (key other : List ℕ) (hashed_key now : ℕ)
      → del D s key hashed_key now ≡ ok (value tt, s')
      → (s'' : CacheShard D) × (del D s other hashed_key now ≡ ok (value tt, s''))
        × (s''.hashmap ≡ s'.hashmap)
        × (s''.entries ≡ s'.entries)
  unfolding del
  del_any_key s s' key other hashed_key now e =
      elim (Outcome-cases (del D s other hashed_key now)) [
        | inl ((value tt, s''), found) ↦ (
          s'',
          found,
          hashmap-same s s' key other hashed_key now e s'' found,
          entries-same s s' key other hashed_key now e s'' found,
        )
        | inl ((failure f, s''), found) ↦
            absurd (no_failure s s' key other hashed_key now e f s'' found)
        | inr (inl (f, found)) ↦ absurd (no_err s s' key other hashed_key now e f found)
        | inr (inr (inl found)) ↦ absurd (no_panic s s' key other hashed_key now e found)
        | inr (inr (inr found)) ↦ absurd (no_wait s s' key other hashed_key now e found)
      ]
