-- ===== src/Shard/Full.antt =====
-- `set` of bigcache/shard.go when the queue refuses the entry, and every later call on the shard.
use clustered_big_cache.Prelude.{
  ℕ, ◌+◌, ◌≡◌, refl, subst, ◌∙◌, ◌++◌, List, true, none, arith, length, length-append,
}
use clustered_big_cache.Prelude.Assoc.{lookup}
use clustered_big_cache.Prelude.Int.{ℤ}
use clustered_big_cache.Prelude.Outcome.{ok, err, blocked, value, full_queue}
use clustered_big_cache.Encoding.Layout.{layout}
use clustered_big_cache.FreeList
use clustered_big_cache.Queue
use clustered_big_cache.Queue.Append.{IsFull, push_full}
use clustered_big_cache.Shard.{
  Deps, CacheShard, get, set, del, evict_del, copy_keys, reset, len, drop_previous,
  expiry_timestamp,
}
use clustered_big_cache.Shard.Storing.{set_steps, set_push_err}
use clustered_big_cache.Shard.Sound.{Cells}
use clustered_big_cache.Shard.Refining.{IsReached, reached-Keeps}

module _ (D : Deps) where
  -- Every call that takes the lock of the shard waits for it. `getStats`, `getEntry`, `getOldestEntry` and
  -- `removeOldestEntry` take no lock.
  pub record IsHung (s : CacheShard D) : Type 0 where
    pub get_waits : (key : List ℕ) (hashed_key : ℕ) → get D s key hashed_key ≡ blocked
    pub set_waits :
        (key : List ℕ) (hashed_key : ℕ) (entry : List ℕ) (duration : ℤ) (now : ℕ)
        → set D s key hashed_key entry duration now ≡ blocked
    pub del_waits : (key : List ℕ) (hashed_key now : ℕ) → del D s key hashed_key now ≡ blocked
    pub evict_del_waits :
        (timestamp : ℕ) (keys : D.keys.Set) → evict_del D s timestamp keys ≡ blocked
    pub copy_keys_waits : copy_keys D s ≡ blocked
    pub reset_waits : (max_entry_size : ℕ) → reset D s max_entry_size ≡ blocked
    pub len_waits : len D s ≡ blocked

  pub locked-IsHung : (s : CacheShard D) → s.locked ≡ true → IsHung s
  unfolding get set del evict_del copy_keys reset len
  locked-IsHung s held = record {
    get_waits = λ key hashed_key. rw held;
    set_waits = λ key hashed_key entry duration now. rw held;
    del_waits = λ key hashed_key now. rw held;
    evict_del_waits = λ timestamp keys. rw held;
    copy_keys_waits = rw held;
    reset_waits = λ max_entry_size. rw held;
    len_waits = rw held;
  }

  drop_nothing :
      (s : CacheShard D) (key : List ℕ) (hashed_key now : ℕ)
      → lookup s.hashmap hashed_key ≡ 0
      → drop_previous D s key hashed_key now ≡ ok s
  unfolding drop_previous
  drop_nothing s key hashed_key now e = rw e refl

  -- Take a shard that a run of `get`, `set`, `del` and `evictDel` has led to, without a cell under the hash, whose
  -- free list has no block that is large enough for the new entry, and whose queue has a limit: the entry does not fit
  -- behind its tail, and the limit does not let the array grow for it. `set` then answers the expiry 0 with no error,
  -- and each later `get`, `set`, `del`, `evictDel`, `copyKeys`, `reset` and `len`, which take the lock, waits for ever.
  pub set_full-IsHung :
      (cells : Cells) (s : CacheShard D) (key : List ℕ) (hashed_key : ℕ) (entry : List ℕ)
      (duration : ℤ) (now : ℕ)
      → IsReached D cells s
      → cells hashed_key ≡ none
      → FreeList.find D.blocks s.entries.freelist (18 + length key + length entry + 4) ≡ none
      → IsFull D.blocks s.entries (18 + length key + length entry)
      → (s' : CacheShard D) × (set D s key hashed_key entry duration now ≡ ok (value 0, s'))
        × IsHung s'
  set_full-IsHung cells s key hashed_key entry duration now r absent none_free full =
      let (free, h) = reached-Keeps D cells s r in
      let s₁ : CacheShard D = record s { locked = true } in
      let (rest, steps) =
        set_steps D key hashed_key duration now s s₁ entry free
          (drop_nothing s₁ key hashed_key now (h.mapped.absent hashed_key absent)) in
      let blob = layout (expiry_timestamp D duration now) hashed_key key entry in
      let size : 18 + length key + length entry ≡ length blob =
        omega (arith, length-append key entry) in
      let refused : Queue.push D.blocks s.entries blob ≡ err full_queue =
        push_full D.blocks s.entries blob h.held.linear
          (subst (λ n. FreeList.find D.blocks s.entries.freelist (n + 4) ≡ none) size none_free)
          (subst (IsFull D.blocks s.entries) size full) in
      let s₃ : CacheShard D = record s₁ { entry_buffer = blob ++ rest } in
      (
        s₃,
        steps ∙ set_push_err D key hashed_key duration now s₃ blob refused,
        locked-IsHung s₃ refl,
      )
