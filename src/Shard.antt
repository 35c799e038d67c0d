-- ===== src/Shard.antt =====
-- bigcache/shard.go: a map from hashes to places in a queue of entries, with counters, a table of
-- expiries and one lock.
-- `now` is what the clock and `time.Now().Unix()` answer during the call. A lock that is held when a
-- call wants it makes the call wait for ever, `blocked`, as each call is taken alone. The map of the
-- source reads a missing key as 0. A slice of the queue's array is a `View`, so that writes through it
-- reach the array. The log line of a collision is left out.
pub mod Lookup
pub mod Storing
pub mod Removal
pub mod Counters
pub mod Full
pub mod Dropping
pub mod Sound
pub mod Holding
pub mod Calls
pub mod Refining
use clustered_big_cache.Prelude.{
  ℕ, ◌+◌, ◌-◌, ◌*◌, ◌%◌, ◌^◌, Bool, true, false, List, [], ◌∷◌, ◌++◌, map, not, ltb, leb, ◌==◌,
  if◌then◌else◌, length, replicate,
}
use clustered_big_cache.Prelude.Int.{ℤ, pos, negsuc}
use clustered_big_cache.Prelude.Keys.{key_eq}
use clustered_big_cache.Prelude.Assoc.{lookup, insert, erase}
use clustered_big_cache.Prelude.Outcome.{
  Outcome, ok, err, panic, blocked, check, Reply, value, failure, not_found, ◌>>=◌, ◌>>◌,
}
use clustered_big_cache.Bytes.{le_bytes, write_at}
use clustered_big_cache.Containers.{OrderedMap, HashSet}
use clustered_big_cache.Encoding.{
  headers_size_in_bytes, wrap_entry, read_entry, read_timestamp_from_entry, read_key_from_entry,
  read_hash_from_entry,
}
use clustered_big_cache.Queue
use clustered_big_cache.Queue.{BytesQueue, View, bytes_at}
use clustered_big_cache.Ttl
use clustered_big_cache.Ttl.{TtlManager}

-- What the shard does not implement: the containers, `uint64(d.Seconds())` of a duration in
-- nanoseconds (a conversion from a float), and the `Hasher` of the configuration.
pub record Deps : Type 1 where
  pub blocks : OrderedMap ℕ
  pub keys : HashSet
  pub times : OrderedMap keys.Set
  pub seconds : ℤ → ℕ
  pub sum64 : List ℕ → ℕ

abbrev pub no_expiry : ℕ
no_expiry = 0

-- `duration != time.Duration(NO_EXPIRY)`
abbrev pub expires_at_all : ℤ → Bool
expires_at_all (pos n) = not (n == no_expiry)
expires_at_all (negsuc n) = true

-- bigcache/stats.go. The counters are `int64`s, and are taken not to reach 2 ^ 63.
pub record Stats : Type 0 where
  pub hits : ℕ
  pub misses : ℕ
  pub del_hits : ℕ
  pub del_misses : ℕ
  pub collisions : ℕ
  pub evict_count : ℕ

module _ (D : Deps) where
  open D use {blocks, keys, times, seconds, sum64}

  -- `removed` lists the entries that `onRemove` was called with, the latest first.
  pub record CacheShard : Type 0 where
    pub shared_num : ℕ
    pub hashmap : List (ℕ × ℕ)
    pub entries : BytesQueue blocks
    pub locked : Bool
    pub entry_buffer : List ℕ
    pub removed : List (List ℕ)
    pub life_window : ℕ
    pub stats : Stats
    pub ttl_table : TtlManager keys times

  -- `s.lock.Lock()`, `s.lock.Unlock()` and `s.lock.RLock()`
  abbrev pub lock : CacheShard → Outcome CacheShard
  lock s = if s.locked then blocked else ok (record s { locked = true })

  abbrev pub unlock : CacheShard → CacheShard
  unlock s = record s { locked = false }

  abbrev pub read_lock : CacheShard → Outcome CacheShard
  read_lock s = if s.locked then blocked else ok s

  -- `hit`, `miss`, `delhit`, `delmiss`, `collision`, and `s.stats.EvictCount++`
  abbrev pub hit : CacheShard → CacheShard
  hit s = let c = s.stats in record s { stats = record c { hits = c.hits + 1 } }

  abbrev pub miss : CacheShard → CacheShard
  miss s = let c = s.stats in record s { stats = record c { misses = c.misses + 1 } }

  abbrev pub delhit : CacheShard → CacheShard
  delhit s = let c = s.stats in record s { stats = record c { del_hits = c.del_hits + 1 } }

  abbrev pub delmiss : CacheShard → CacheShard
  delmiss s = let c = s.stats in record s { stats = record c { del_misses = c.del_misses + 1 } }

  abbrev pub collision : CacheShard → CacheShard
  collision s = let c = s.stats in record s { stats = record c { collisions = c.collisions + 1 } }

  abbrev pub count_evict : CacheShard → CacheShard
  count_evict s =
      let c = s.stats in record s { stats = record c { evict_count = c.evict_count + 1 } }

  -- `resetKeyFromEntry` on a slice of the queue's array.
  unfoldable pub reset_key_at : BytesQueue blocks → View → Outcome (BytesQueue blocks)
  reset_key_at q view =
      check (leb (8 + 8) view.len)
      >> ok (record q { array = write_at q.array (view.off + 8) (le_bytes 8 0) })

  -- `delete`, the method: an error of the queue's `Delete` is dropped.
  unfoldable pub delete_index : BytesQueue blocks → ℕ → Outcome (BytesQueue blocks)
  delete_index q index = elim (Queue.delete blocks q index) [
    | ok q' ↦ ok q'
    | err e ↦ ok q
    | panic ↦ panic
    | blocked ↦ blocked
  ]

  -- `get`, once the entry is read.
  unfoldable pub get_entry_value :
      CacheShard → (key blob : List ℕ) → Outcome (Reply (List ℕ) × CacheShard)
  get_entry_value s key blob = do
    entry_key ← read_key_from_entry blob
    if key_eq key entry_key
        then (do entry ← read_entry blob; ok (value entry, hit s))
        else ok (failure (not_found key), collision s)

  -- `get`
  unfoldable pub get :
      CacheShard → (key : List ℕ) (hashed_key : ℕ) → Outcome (Reply (List ℕ) × CacheShard)
  get s key hashed_key = do
    s ← read_lock s
    let item_index = lookup s.hashmap hashed_key
    if item_index == 0
        then ok (failure (not_found key), miss s)
        else elim (Queue.get blocks s.entries item_index) [
          | err e ↦ ok (failure e, miss s)
          | ok view ↦ get_entry_value s key (bytes_at blocks s.entries view)
          | panic ↦ panic
          | blocked ↦ blocked
        ]

  -- `set`: the entry that the hash has so far goes, with its expiry. The map keeps its place.
  unfoldable pub drop_previous :
      CacheShard → (key : List ℕ) (hashed_key now : ℕ) → Outcome CacheShard
  drop_previous s key hashed_key now =
      let previous_index = lookup s.hashmap hashed_key in
      if previous_index == 0 then ok s else elim (Queue.get blocks s.entries previous_index) [
        | err e ↦ ok s
        | ok view ↦ do
          timestamp ← read_timestamp_from_entry (bytes_at blocks s.entries view)
          let ttl = Ttl.remove keys times s.ttl_table timestamp key now
          q₁ ← reset_key_at s.entries view
          q₂ ← delete_index q₁ previous_index
          ok (record s { ttl_table = ttl; entries = q₂ })
        | panic ↦ panic
        | blocked ↦ blocked
      ]

  -- The timestamp of `set`.
  abbrev pub expiry_timestamp : ℤ → ℕ → ℕ
  expiry_timestamp duration now =
      if expires_at_all duration then (now + seconds duration) % 2 ^ 64 else no_expiry

  -- `set`, once the entry is wrapped. The `err` that is returned in the end is not the one of `Push`, which
  -- the `if` declares anew, but the outer one, which is nil. There is no `Unlock` on that path.
  unfoldable pub set_push :
      CacheShard
      → (key : List ℕ) (hashed_key : ℕ) (blob : List ℕ) (duration : ℤ) (now : ℕ)
      → Outcome (Reply ℕ × CacheShard)
  set_push s key hashed_key blob duration now = elim (Queue.push blocks s.entries blob) [
    | ok (index, entries') ↦ ok (
      value (expiry_timestamp duration now),
      record (unlock s) {
        entries = entries';
        hashmap = insert s.hashmap hashed_key (index % 2 ^ 32);
        ttl_table =
            if expires_at_all duration
            then Ttl.put keys times s.ttl_table (expiry_timestamp duration now) key now
            else s.ttl_table;
      },
    )
    | err e ↦ ok (value 0, s)
    | panic ↦ panic
    | blocked ↦ blocked
  ]

  -- `set`
  unfoldable pub set :
      CacheShard
      → (key : List ℕ) (hashed_key : ℕ) (entry : List ℕ) (duration : ℤ) (now : ℕ)
      → Outcome (Reply ℕ × CacheShard)
  set s key hashed_key entry duration now = do
    s₁ ← lock s
    s₂ ← drop_previous s₁ key hashed_key now
    (blob, buffer) ← wrap_entry (expiry_timestamp duration now) hashed_key key entry s₂.entry_buffer
    set_push (record s₂ { entry_buffer = buffer }) key hashed_key blob duration now

  -- The lines that `del` and `evictDel` share: the entry at `view` leaves the map and the queue, and
  -- `onRemove` sees its bytes.
  unfoldable pub remove_entry : CacheShard → (hashed_key item_index : ℕ) → View → Outcome CacheShard
  remove_entry s hashed_key item_index view = do
    let blob = bytes_at blocks s.entries view
    q₁ ← reset_key_at s.entries view
    q₂ ← delete_index q₁ item_index
    ok (record s { hashmap = erase s.hashmap hashed_key; removed = blob ∷ s.removed; entries = q₂ })

  -- `del`
  unfoldable pub del :
      CacheShard → (key : List ℕ) (hashed_key now : ℕ) → Outcome (Reply (Unit {0}) × CacheShard)
  del s key hashed_key now = do
    s₁ ← lock s
    let item_index = lookup s₁.hashmap hashed_key
    if item_index == 0
        then ok (failure (not_found key), delmiss (unlock s₁))
        else elim (Queue.get blocks s₁.entries item_index) [
          | err e ↦ ok (failure e, delmiss (unlock s₁))
          | ok view ↦ do
            s₂ ← remove_entry s₁ hashed_key item_index view
            timestamp ← read_timestamp_from_entry (bytes_at blocks s₂.entries view)
            let ttl = Ttl.remove keys times s₂.ttl_table timestamp key now
            ok (value tt, delhit (record (unlock s₂) { ttl_table = ttl }))
          | panic ↦ panic
          | blocked ↦ blocked
        ]

  -- One round of `evictDel`.
  unfoldable pub evict_key : CacheShard → (timestamp : ℕ) (key : List ℕ) → Outcome CacheShard
  evict_key s timestamp key =
      let s₁ = count_evict s in
      let key_hash = sum64 key in
      let item_index = lookup s₁.hashmap key_hash in
      if item_index == 0 then ok (delmiss s₁) else elim (Queue.get blocks s₁.entries item_index) [
        | err e ↦ ok (delmiss s₁)
        | ok view ↦ do
          stored_timestamp ← read_timestamp_from_entry (bytes_at blocks s₁.entries view)
          if stored_timestamp == timestamp
              then (do s₂ ← remove_entry s₁ key_hash item_index view; ok (delhit s₂))
              else ok s₁
        | panic ↦ panic
        | blocked ↦ blocked
      ]

  unfoldable pub evict_keys : CacheShard → (timestamp : ℕ) → List (List ℕ) → Outcome CacheShard
  evict_keys s timestamp [] = ok s
  evict_keys s timestamp (key ∷ more) =
      evict_key s timestamp key >>= λ s'. evict_keys s' timestamp more

  -- `evictDel`, over the values of the set in the order that the set gives them.
  unfoldable pub evict_del : CacheShard → (timestamp : ℕ) → keys.Set → Outcome CacheShard
  evict_del s timestamp set = do
    s₁ ← lock s
    s₂ ← evict_keys s₁ timestamp (keys.values set)
    ok (unlock s₂)

  -- `removeOldestEntry`
  unfoldable pub remove_oldest_entry : CacheShard → Outcome CacheShard
  remove_oldest_entry s = do
    (view, q) ← Queue.pop blocks s.entries
    let oldest = bytes_at blocks q view
    hash ← read_hash_from_entry oldest
    ok (record s { entries = q; hashmap = erase s.hashmap hash; removed = oldest ∷ s.removed })

  -- `onEvict` with `removeOldestEntry` for its callback. The difference is of type `uint64`, and wraps.
  unfoldable pub on_evict :
      CacheShard → (oldest_entry : List ℕ) (current : ℕ) → Outcome (Bool × CacheShard)
  on_evict s oldest_entry current = do
    oldest ← read_timestamp_from_entry oldest_entry
    if ltb s.life_window ((current + 2 ^ 64 - oldest) % 2 ^ 64)
        then elim (remove_oldest_entry s) [
          | ok s' ↦ ok (true, s')
          | err e ↦ ok (true, s)
          | panic ↦ panic
          | blocked ↦ blocked
        ]
        else ok (false, s)

  -- `getOldestEntry` and `getEntry`
  abbrev pub get_oldest_entry : CacheShard → Outcome View
  get_oldest_entry s = Queue.peek_oldest blocks s.entries

  abbrev pub get_entry : CacheShard → ℕ → Outcome View
  get_entry s index = Queue.get blocks s.entries index

  -- `copyKeys`: the places of all entries, in the order of the map.
  unfoldable pub copy_keys : CacheShard → Outcome (List ℕ × ℕ)
  copy_keys s = do s ← read_lock s; ok (map (λ p. p.1) s.hashmap, length s.hashmap)

  -- `reset`, for a configuration with the given `MaxEntrySize`.
  unfoldable pub reset : CacheShard → ℕ → Outcome CacheShard
  reset s max_entry_size = do
    s₁ ← lock s
    ok (
        unlock (record s₁ {
          hashmap = [];
          entry_buffer = replicate (max_entry_size + headers_size_in_bytes) 0;
          entries = Queue.reset blocks s₁.entries;
          ttl_table = Ttl.reset keys times s₁.ttl_table;
        }))

  -- `len`
  unfoldable pub len : CacheShard → Outcome ℕ
  len s = do s ← read_lock s; ok (length s.hashmap)

  -- `initNewShard`, with what it takes from the configuration, and no callback yet called.
  unfoldable pub init_new_shard :
      (initial_size max_entry_size max_size life_window num now : ℕ) → CacheShard
  init_new_shard initial_size max_entry_size max_size life_window num now = record {
    shared_num = num;
    hashmap = [];
    entries = Queue.new_bytes_queue blocks (initial_size * max_entry_size) max_size;
    locked = false;
    entry_buffer = replicate (max_entry_size + headers_size_in_bytes) 0;
    removed = [];
    life_window = life_window;
    stats = record {
      hits = 0;
      misses = 0;
      del_hits = 0;
      del_misses = 0;
      collisions = 0;
      evict_count = 0;
    };
    ttl_table = Ttl.new_ttl_manager keys times now;
  }
