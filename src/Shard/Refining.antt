-- ===== src/Shard/Refining.antt =====
-- Runs of calls on a shard of bigcache/shard.go against the cells that it promises to keep.
use clustered_big_cache.Prelude.{
  ℕ, ◌+◌, ◌*◌, ◌^◌, ◌<◌, ◌≡◌, ◌≢◌, refl, sym, ap, ◌∙◌, subst, inl, inr, List, [], arith, length,
  true, false, subst₂,
}
use clustered_big_cache.Prelude.Int.{ℤ}
use clustered_big_cache.Prelude.Outcome.{Outcome, ok, Reply, value, failure, Fault, ok-injective}
use clustered_big_cache.Queue.Keeping.{new_bytes_queue-IsHeld}
use clustered_big_cache.Shard.{
  Deps, CacheShard, get, get_entry_value, set, del, evict_del, init_new_shard,
}
use clustered_big_cache.Shard.Sound.{Cells, no_cells, with_cell, without_cell, nothing-IsMapped}
use clustered_big_cache.Shard.Holding.{Holds, Dels, Gets, get-Gets}
use clustered_big_cache.Shard.Calls.{
  new_cell, SetsCell, set-SetsCell, del-Dels, sweep, evict_del-Holds,
}

shut_free : (D : Deps) (s s' : CacheShard D) → s.locked ≡ true → s ≡ s' → s'.locked ≢ false
shut_free D s s' shut same free = ground (arith, ap (λ t. t.locked) same)

value_failure :
    {B : Type 0} {t u : B} {f : Fault}
    → ◌≢◌ {A = Outcome (Reply (Unit {0}) × B)} (ok (value tt, t)) (ok (failure f, u))
value_failure h = ground arith

module _ (D : Deps) where
  open D use {blocks}

  -- The shards that calls lead to from a new one, with the cells that they should hold. `set` may fail to store
  -- only by leaving the lock held, after which no call ends; `reset` is left out, as it keeps old free blocks.
  pub data IsReached : Cells → CacheShard D → Type 0 where
    started :
        (initial_size max_entry_size max_size life_window num now : ℕ)
        → 0 < initial_size * max_entry_size
        → IsReached no_cells
            (init_new_shard D initial_size max_entry_size max_size life_window num now)
    got :
        {cells : Cells} {s s' : CacheShard D} (key : List ℕ) (hash : ℕ) (r : Reply (List ℕ))
        → IsReached cells s
        → get D s key hash ≡ ok (r, s')
        → IsReached cells s'
    stored :
        {cells : Cells} {s s' : CacheShard D} (key entry : List ℕ) (hash now : ℕ) (duration : ℤ)
        (r : Reply ℕ)
        → IsReached cells s
        → s.entries.tail < 2 ^ 32
        → length key < 65518
        → 18 + length key + length entry < 2 ^ 32
        → set D s key hash entry duration now ≡ ok (r, s')
        → s'.locked ≡ false
        → IsReached (with_cell cells hash (new_cell D key hash entry duration now)) s'
    deleted_to :
        {cells : Cells} {s s' : CacheShard D} (key : List ℕ) (hash now : ℕ)
        → IsReached cells s
        → del D s key hash now ≡ ok (value tt, s')
        → IsReached (without_cell cells hash) s'
    missed :
        {cells : Cells} {s s' : CacheShard D} (key : List ℕ) (hash now : ℕ) (f : Fault)
        → IsReached cells s
        → del D s key hash now ≡ ok (failure f, s')
        → IsReached cells s'
    evicted :
        {cells : Cells} {s s' : CacheShard D} (timestamp : ℕ) (gone : D.keys.Set)
        → IsReached cells s
        → evict_del D s timestamp gone ≡ ok s'
        → IsReached (sweep D cells timestamp (D.keys.values gone)) s'

  -- A reached shard is free, and holds its cells.
  abbrev pub Keeps : Cells → CacheShard D → Type 0
  Keeps cells s = (s.locked ≡ false) × Holds D cells s.entries s.hashmap

  started-Keeps :
      (initial_size max_entry_size max_size life_window num now : ℕ)
      → 0 < initial_size * max_entry_size
      → Keeps no_cells (init_new_shard D initial_size max_entry_size max_size life_window num now)
  unfolding init_new_shard
  started-Keeps initial_size max_entry_size max_size life_window num now room = (
    refl,
    record {
      store = [];
      held = new_bytes_queue-IsHeld blocks (initial_size * max_entry_size) max_size room;
      mapped = nothing-IsMapped;
    },
  )

  same-get :
      (s s' : CacheShard D) (key : List ℕ) (hash : ℕ) (r : Reply (List ℕ))
      → get D s key hash ≡ ok (r, s')
      → (s'.locked ≡ s.locked) × (s'.entries ≡ s.entries) × (s'.hashmap ≡ s.hashmap)
  unfolding get get_entry_value
  same-get s s' key hash r e = ground arith

  got-Keeps :
      (cells : Cells) (s s' : CacheShard D) (key : List ℕ) (hash : ℕ) (r : Reply (List ℕ))
      → Keeps cells s
      → get D s key hash ≡ ok (r, s')
      → Keeps cells s'
  got-Keeps cells s s' key hash r (free, h) e =
      let (lock', queue', map') = same-get s s' key hash r e in
      (lock' ∙ free, subst₂ (Holds D cells) (sym queue') (sym map') h)

  stored-Keeps :
      (cells : Cells) (s s' : CacheShard D) (key : List ℕ) (hash : ℕ) (entry : List ℕ)
      (duration : ℤ) (now : ℕ) (r : Reply ℕ)
      → Keeps cells s
      → s.entries.tail < 2 ^ 32
      → length key < 65518
      → 18 + length key + length entry < 2 ^ 32
      → set D s key hash entry duration now ≡ ok (r, s')
      → s'.locked ≡ false
      → Keeps (with_cell cells hash (new_cell D key hash entry duration now)) s'
  stored-Keeps cells s s' key hash entry duration now r (free, h) fit short word e unlocked =
      let (s₁, ends) = set-SetsCell D key hash entry duration now cells s free h fit short word in
      elim ends [
        | inl (done, open', h₁) ↦
            subst (λ t. Keeps (with_cell cells hash (new_cell D key hash entry duration now)) t)
              (ap (λ p. p.1) (ok-injective (sym done ∙ e))) (open', h₁)
        | inr (done, shut, _) ↦
            absurd (shut_free D s₁ s' shut (ap (λ p. p.1) (ok-injective (sym done ∙ e))) unlocked)
      ]

  deleted-Keeps :
      (cells : Cells) (s s' : CacheShard D) (key : List ℕ) (hash now : ℕ)
      → Keeps cells s
      → del D s key hash now ≡ ok (value tt, s')
      → Keeps (without_cell cells hash) s'
  deleted-Keeps cells s s' key hash now (free, h) e =
      let (s₁, open', ends) = del-Dels D cells s key hash now free h in
      elim ends [
        | inl (_, done, _) ↦ absurd (value_failure (sym e ∙ done))
        | inr (_, done, h₁) ↦
            subst (Keeps (without_cell cells hash)) (ap (λ p. p.1) (ok-injective (sym done ∙ e)))
              (open', h₁)
      ]

  missed-Keeps :
      (cells : Cells) (s s' : CacheShard D) (key : List ℕ) (hash now : ℕ) (f : Fault)
      → Keeps cells s
      → del D s key hash now ≡ ok (failure f, s')
      → Keeps cells s'
  missed-Keeps cells s s' key hash now f (free, h) e =
      let (s₁, open', ends) = del-Dels D cells s key hash now free h in
      elim ends [
        | inl (_, done, h₁) ↦
            subst (Keeps cells) (ap (λ p. p.1) (ok-injective (sym done ∙ e))) (open', h₁)
        | inr (_, done, _) ↦ absurd (value_failure (sym done ∙ e))
      ]

  evicted-Keeps :
      (cells : Cells) (s s' : CacheShard D) (timestamp : ℕ) (gone : D.keys.Set)
      → Keeps cells s
      → evict_del D s timestamp gone ≡ ok s'
      → Keeps (sweep D cells timestamp (D.keys.values gone)) s'
  evicted-Keeps cells s s' timestamp gone (free, h) e =
      let (s₁, done, open', h₁) = evict_del-Holds D cells s timestamp gone free h in
      subst (Keeps (sweep D cells timestamp (D.keys.values gone))) (ok-injective (sym done ∙ e))
        (open', h₁)

  pub reached-Keeps : (cells : Cells) (s : CacheShard D) → IsReached cells s → Keeps cells s
  reached-Keeps cells s (started initial_size max_entry_size max_size life_window num now room) =
      started-Keeps initial_size max_entry_size max_size life_window num now room
  reached-Keeps cells s' (got {s = s} key hash r before e) =
      got-Keeps cells s s' key hash r (reached-Keeps cells s before) e
  reached-Keeps _ s'
        (stored {cells = cells} {s = s} key entry hash now duration r before fit short word e
          unlocked) =
      stored-Keeps cells s s' key hash entry duration now r (reached-Keeps cells s before) fit short
        word e unlocked
  reached-Keeps _ s' (deleted_to {cells = cells} {s = s} key hash now before e) =
      deleted-Keeps cells s s' key hash now (reached-Keeps cells s before) e
  reached-Keeps cells s' (missed {s = s} key hash now f before e) =
      missed-Keeps cells s s' key hash now f (reached-Keeps cells s before) e
  reached-Keeps _ s' (evicted {cells = cells} {s = s} timestamp gone before e) =
      evicted-Keeps cells s s' timestamp gone (reached-Keeps cells s before) e

  -- Take a shard that any run of `get`, `set`, `del` and `evictDel` has led to from a new one, where no `set` was
  -- refused, keys have fewer than 65518 bytes, entries fewer than 2 ^ 32, and the tail of the queue was below 2 ^ 32.
  -- `get` then answers by what the run has set: under a hash that was never set, or whose cell was deleted or evicted
  -- since, it answers that there is none, and counts a miss; under any other hash it answers, for the key of the
  -- latest `set`, its entry, and counts a hit, and for another key that there is none, and counts a collision.
  pub reached-Gets :
      (cells : Cells) (s : CacheShard D) (asked : List ℕ) (hash : ℕ)
      → IsReached cells s
      → Gets D cells s asked hash
  reached-Gets cells s asked hash r =
      let (free, h) = reached-Keeps cells s r in get-Gets D cells s asked hash free h

  -- Take a shard that any run of `get`, `set`, `del` and `evictDel` has led to from a new one, where no `set` was
  -- refused, keys have fewer than 65518 bytes, entries fewer than 2 ^ 32, and the tail of the queue was below 2 ^ 32,
  -- as it is now. Every further call ends, with what the cells ask for: `del` takes the cell of its hash away, or
  -- answers that there is none; `evictDel` takes away, of the keys in its set, the cells that have its timestamp;
  -- `set` stores its cell, or, only where the queue has a limit, the entry does not fit behind its tail, and the limit
  -- does not let the array grow for it, answers 0 and leaves the lock held.
  pub reached_calls :
      (cells : Cells) (s : CacheShard D) (key : List ℕ) (hash : ℕ) (entry : List ℕ) (duration : ℤ)
      (now timestamp : ℕ) (gone : D.keys.Set)
      → IsReached cells s
      → s.entries.tail < 2 ^ 32
      → length key < 65518
      → 18 + length key + length entry < 2 ^ 32
      → SetsCell D key hash entry duration now cells s
        × Dels D cells s key hash now
        × ((s' : CacheShard D) × (evict_del D s timestamp gone ≡ ok s')
            × IsReached (sweep D cells timestamp (D.keys.values gone)) s')
  reached_calls cells s key hash entry duration now timestamp gone r fit short word =
      let (free, h) = reached-Keeps cells s r in
      let (s', done, _, _) = evict_del-Holds D cells s timestamp gone free h in
      (
        set-SetsCell D key hash entry duration now cells s free h fit short word,
        del-Dels D cells s key hash now free h,
        (s', done, evicted timestamp gone r done),
      )
