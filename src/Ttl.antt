-- ===== src/Ttl.antt =====
-- bigcache/ttl.go: which keys expire when, as sets of keys in a tree by timestamp, and one timer for
-- the earliest.
-- The operations run under `treeLock`, one at a time. `now` is what `time.Now().Unix()` answers. The
-- timer is the second in which it was set and the wait in seconds, `none` once it has fired or is
-- stopped; that it fires is a call of `on_fire`. `time.Second * time.Duration(interval)` is left as the
-- number of seconds.
pub mod Table
pub mod Timer
pub mod Eviction
use clustered_big_cache.Prelude.{
  ℕ, zero, suc, true, false, ◌+◌, ◌-◌, ◌*◌, ◌%◌, ◌^◌, List, [], ◌∷◌, Option, none, some, ltb, ◌==◌,
  if◌then◌else◌,
}
use clustered_big_cache.Containers.{OrderedMap, HashSet}

-- `timeStamp - uint64(time.Now().Unix())`, which wraps.
abbrev pub interval : ℕ → ℕ → ℕ
interval timestamp now = (timestamp + 2 ^ 64 - now % 2 ^ 64) % 2 ^ 64

module _ (H : HashSet) (T : OrderedMap H.Set) where
  pub record TtlManager : Type 0 where
    pub time_tree : T.Tree
    pub timer : Option (ℕ × ℕ)

  -- `newTtlManager`: the first wait is ten hours.
  unfoldable pub new_ttl_manager : ℕ → TtlManager
  new_ttl_manager now = record { time_tree = T.empty; timer = some (now, 10 * 60 * 60) }

  -- `resetTimer`
  unfoldable pub reset_timer : TtlManager → ℕ → ℕ → TtlManager
  reset_timer ttl timestamp now = record ttl { timer = some (now, interval timestamp now) }

  -- `put`
  unfoldable pub put : TtlManager → (timestamp : ℕ) (cache_key : List ℕ) (now : ℕ) → TtlManager
  put ttl timestamp cache_key now = elim (T.get ttl.time_tree timestamp) [
    | some keys ↦ record ttl { time_tree = T.put ttl.time_tree timestamp (H.add keys cache_key) }
    | none ↦
        let ttl' = record ttl {
          time_tree = T.put ttl.time_tree timestamp (H.add H.empty cache_key);
        } in
        if T.size ttl'.time_tree == 1
        then reset_timer ttl' timestamp now
        else elim (T.first ttl'.time_tree) [
          | none ↦ ttl'
          | some (key, keys) ↦ if key == timestamp then reset_timer ttl' timestamp now else ttl'
        ]
  ]

  -- The timer for what is first in the tree, where there is something.
  unfoldable pub reset_to_first : TtlManager → ℕ → TtlManager
  reset_to_first ttl now = elim (T.first ttl.time_tree) [
    | none ↦ ttl
    | some (key, keys) ↦ reset_timer ttl key now
  ]

  -- `remove`. The hash set is shared, so the key leaves it also where the set stays in the tree.
  unfoldable pub remove : TtlManager → (timestamp : ℕ) (key : List ℕ) (now : ℕ) → TtlManager
  remove ttl timestamp key now = elim (T.get ttl.time_tree timestamp) [
    | none ↦ ttl
    | some keys ↦
        let keys' = H.remove keys key in
        let without = record ttl { time_tree = T.remove ttl.time_tree timestamp } in
        if H.is_empty keys'
        then elim (T.first ttl.time_tree) [
          | none ↦ without
          | some (first, _) ↦ if first == timestamp then reset_to_first without now else without
        ]
        else record ttl { time_tree = T.put ttl.time_tree timestamp keys' }
  ]

  -- `reset`
  unfoldable pub reset : TtlManager → TtlManager
  reset ttl = record { time_tree = T.empty; timer = none }

  -- What `eviction` hands to `evict`, in order.
  abbrev pub Evicted : Type 0
  Evicted = List (ℕ × H.Set)

  -- The inner loop of `eviction`: all that expires in this second. Each round takes one timestamp out of
  -- the tree, so its size is fuel enough.
  unfoldable pub evict_due : ℕ → TtlManager → ℕ → Evicted × TtlManager
  evict_due zero ttl now = ([], ttl)
  evict_due (suc fuel) ttl now = elim (T.first ttl.time_tree) [
    | none ↦ ([], ttl)
    | some (key, keys) ↦ elim (interval key now == 0) [
      | true ↦
          let (more, ttl') =
            evict_due fuel (record ttl { time_tree = T.remove ttl.time_tree key }) now in
          ((key, keys) ∷ more, ttl')
      | false ↦ ([], reset_timer ttl key now)
    ]
  ]

  -- One round of `eviction`, as the timer fires: the first timestamp goes, and then those that are due.
  unfoldable pub on_fire : TtlManager → ℕ → Evicted × TtlManager
  on_fire ttl now = elim (T.first ttl.time_tree) [
    | none ↦ ([], record ttl { timer = none })
    | some (key, keys) ↦
        let rest = record ttl { time_tree = T.remove ttl.time_tree key; timer = none } in
        let (more, ttl') = evict_due (T.size rest.time_tree) rest now in ((key, keys) ∷ more, ttl')
  ]
