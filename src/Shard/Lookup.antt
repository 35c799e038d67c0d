-- ===== src/Shard/Lookup.antt =====
-- `get` of bigcache/shard.go on an entry that the queue holds, under its own key and under another.
use clustered_big_cache.Prelude.{
  ℕ, ◌<◌, ◌≡◌, ◌≢◌, inl, inr, List, false, arith, length, ne→==, Bool-cases,
}
use clustered_big_cache.Prelude.Keys.{key_eq, key_eq_self, key_eq→eq}
use clustered_big_cache.Prelude.Assoc.{lookup}
use clustered_big_cache.Prelude.Outcome.{ok, value, failure, not_found}
use clustered_big_cache.Encoding.Layout.{layout}
use clustered_big_cache.Encoding.RoundTrip.{key-layout, entry-layout}
use clustered_big_cache.Queue.Entries.{IsEntry, get-IsEntry}
use clustered_big_cache.Shard.{Deps, CacheShard, get, get_entry_value, hit, miss, collision}

module _ (D : Deps) where
  -- The shard is free, and the map leads from the hash to an entry with the given parts.
  pub record IsStored (s : CacheShard D) (hashed_key timestamp : ℕ) (key entry : List ℕ)
      : Type 0 where
    pub free : s.locked ≡ false
    pub counted : 0 < s.entries.count
    pub short : length key < 65518
    pub placed :
        IsEntry D.blocks s.entries
          (lookup s.hashmap hashed_key)
          (layout timestamp hashed_key key entry)

  -- What `get` does from the reading of the key on.
  get_reads :
      (s : CacheShard D) (hashed_key timestamp : ℕ) (key entry asked : List ℕ)
      → IsStored s hashed_key timestamp key entry
      → get D s asked hashed_key ≡ get_entry_value D s asked (layout timestamp hashed_key key entry)
  unfolding get
  get_reads s hashed_key timestamp key entry asked h =
      let (view, found, shows) =
        get-IsEntry D.blocks s.entries (lookup s.hashmap hashed_key)
          (layout timestamp hashed_key key entry) h.counted h.placed in
      rw (
        h.free,
        ne→== (lookup s.hashmap hashed_key) 0 (λ z. omega (arith, h.placed.positive)),
        found,
        shows,
      )

  -- `get` under the key of a stored entry answers its value, and counts a hit.
  pub get-IsStored :
      (s : CacheShard D) (hashed_key timestamp : ℕ) (key entry : List ℕ)
      → IsStored s hashed_key timestamp key entry
      → get D s key hashed_key ≡ ok (value entry, hit D s)
  unfolding get_entry_value
  get-IsStored s hashed_key timestamp key entry h = rw (
    get_reads s hashed_key timestamp key entry key h,
    key-layout timestamp hashed_key key entry h.short,
    key_eq_self key,
    entry-layout timestamp hashed_key key entry h.short,
  )

  -- `get` under another key with the same hash answers that it is not found, and counts a collision.
  pub get_other_key :
      (s : CacheShard D) (hashed_key timestamp : ℕ) (key entry asked : List ℕ)
      → IsStored s hashed_key timestamp key entry
      → asked ≢ key
      → get D s asked hashed_key ≡ ok (failure (not_found asked), collision D s)
  unfolding get_entry_value
  get_other_key s hashed_key timestamp key entry asked h other = rw (
    get_reads s hashed_key timestamp key entry asked h,
    key-layout timestamp hashed_key key entry h.short,
    differs,
  )
    where
      differs : key_eq asked key ≡ false
      differs = elim (Bool-cases (key_eq asked key)) [
        | inl e ↦ absurd (other (key_eq→eq asked key e))
        | inr e ↦ e
      ]

  -- Where the map has nothing for the hash, `get` answers that, and counts a miss.
  pub get_absent :
      (s : CacheShard D) (asked : List ℕ) (hashed_key : ℕ)
      → s.locked ≡ false
      → lookup s.hashmap hashed_key ≡ 0
      → get D s asked hashed_key ≡ ok (failure (not_found asked), miss D s)
  unfolding get
  get_absent s asked hashed_key free e = rw (free, e)

  -- For a hash under which an entry is stored: `get` under the key of the entry answers the value and
  -- counts a hit, and under any other key it answers that there is none and counts a collision.
  pub get_by_key :
      (s : CacheShard D) (hashed_key timestamp : ℕ) (key entry asked : List ℕ)
      → IsStored s hashed_key timestamp key entry
      → (asked ≡ key → get D s asked hashed_key ≡ ok (value entry, hit D s))
        × (asked ≢ key → get D s asked hashed_key ≡ ok (failure (not_found asked), collision D s))
  get_by_key s hashed_key timestamp key entry asked h = (
    λ same. rw same (get-IsStored s hashed_key timestamp key entry h),
    λ other. get_other_key s hashed_key timestamp key entry asked h other,
  )
