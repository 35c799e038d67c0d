-- ===== src/Iterator.antt =====
-- bigcache/iterator.go: a walk over the places of all entries, shard by shard.
-- A shard's places are a copy, taken when the walk reaches the shard. The cache is the argument of each
-- call, as it may change between the calls. The lock of the iterator is released on every path, and the
-- model leaves it out.
pub mod Walk
use clustered_big_cache.Prelude.{
  ℕ, zero, suc, ◌+◌, ◌-◌, Bool, true, false, List, [], ◌∷◌, Option, none, some, ltb, if◌then◌else◌,
  length, get_elem?,
}
use clustered_big_cache.Prelude.Int.{ℤ, pos, negsuc}
use clustered_big_cache.Prelude.Outcome.{
  Outcome, ok, err, panic, blocked, Reply, value, failure, invalid_iterator_state,
  cannot_retrieve_entry, ◌>>=◌,
}
use clustered_big_cache.Encoding.{
  read_entry, read_timestamp_from_entry, read_key_from_entry, read_hash_from_entry,
}
use clustered_big_cache.Queue.{bytes_at}
use clustered_big_cache.Shard.{Deps, CacheShard, copy_keys, get_entry}
use clustered_big_cache.BigCache.{BigCache}

pub record EntryInfo : Type 0 where
  pub timestamp : ℕ
  pub hash : ℕ
  pub key : List ℕ
  pub entry : List ℕ

-- `currentIndex` starts at -1: `next_index` is the index after the current one.
pub record EntryInfoIterator : Type 0 where
  pub current_shard : ℕ
  pub next_index : ℕ
  pub elements : List ℕ
  pub elements_count : ℕ
  pub valid : Bool

module _ (D : Deps) where
  -- `it.cache.shards[i]`
  unfoldable pub shard_at : BigCache D → ℕ → Outcome (CacheShard D)
  shard_at c i = elim (get_elem? c.shards i) [ some shard ↦ ok shard | none ↦ panic ]

  -- `newIterator`
  unfoldable pub new_iterator : BigCache D → Outcome EntryInfoIterator
  new_iterator c = do
    shard ← shard_at c 0
    (elements, count) ← copy_keys D shard
    ok (record {
      current_shard = 0;
      next_index = 0;
      elements = elements;
      elements_count = count;
      valid = false;
    })

  -- The loop of `SetNext` over the shards from `i` on, `left` of them.
  unfoldable pub next_shard :
      BigCache D → EntryInfoIterator → (i left : ℕ) → Outcome (Bool × EntryInfoIterator)
  next_shard c it i zero = ok (false, it)
  next_shard c it i (suc left) = do
    shard ← shard_at c i
    (elements, count) ← copy_keys D shard
    let it' = record it { elements = elements; elements_count = count }
    elim (ltb 0 count) [
      | true ↦ ok (true, record it' { next_index = 1; current_shard = i; valid = true })
      | false ↦ next_shard c it' (i + 1) left
    ]

  -- `SetNext`
  unfoldable pub set_next : BigCache D → EntryInfoIterator → Outcome (Bool × EntryInfoIterator)
  set_next c it =
      let it₁ = record it { valid = false; next_index = it.next_index + 1 } in
      if ltb it.next_index it₁.elements_count
      then ok (true, record it₁ { valid = true })
      else next_shard c it₁ (it₁.current_shard + 1) (c.config.shards - (it₁.current_shard + 1))

  -- `Value`, where an iterator before its first element is not valid.
  unfoldable pub value_at : BigCache D → EntryInfoIterator → Outcome (Reply EntryInfo)
  value_at c it = elim it.valid [
    | false ↦ ok (failure invalid_iterator_state)
    | true ↦ do
      shard ← shard_at c it.current_shard
      elim (get_elem? it.elements (it.next_index - 1)) [
        | none ↦ panic
        | some index ↦ elim (get_entry D shard index) [
          | err e ↦ ok (failure cannot_retrieve_entry)
          | ok view ↦ do
            let blob = bytes_at D.blocks shard.entries view
            timestamp ← read_timestamp_from_entry blob
            hash ← read_hash_from_entry blob
            key ← read_key_from_entry blob
            entry ← read_entry blob
            ok (value (record { timestamp = timestamp; hash = hash; key = key; entry = entry }))
          | panic ↦ panic
          | blocked ↦ blocked
        ]
      ]
  ]

  -- The shard and the place in it that an iterator stands at.
  unfoldable pub place : EntryInfoIterator → Outcome (ℕ × ℕ)
  place it = elim (get_elem? it.elements (it.next_index - 1)) [
    | some index ↦ ok (it.current_shard, index)
    | none ↦ panic
  ]

  -- The loop `for it.SetNext() { … }` over a cache that does not change, with the places that it stands at.
  -- The fuel bounds the calls of `SetNext`; without it the loop counts as not ended.
  unfoldable pub walk : BigCache D → EntryInfoIterator → (fuel : ℕ) → Outcome (List (ℕ × ℕ))
  walk c it zero = blocked
  walk c it (suc fuel) = do
    (found, it') ← set_next c it
    elim found [
      | false ↦ ok []
      | true ↦ do here ← place it'; more ← walk c it' fuel; ok (here ∷ more)
    ]
