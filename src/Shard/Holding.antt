-- ===== src/Shard/Holding.antt =====
-- `get`, `set`, `del` and `evictDel` of bigcache/shard.go on a shard that holds cells.
use clustered_big_cache.Prelude.{
  ℕ, ◌≤◌, ◌≡◌, ◌≢◌, ◌⊎◌, refl, ap, ◌∙◌, inl, inr, List, ◌∷◌, some, none, arith, length,
  length-append, ne→==, Option-cases, false,
}
use clustered_big_cache.Prelude.Assoc.{lookup, erase}
use clustered_big_cache.Prelude.Outcome.{ok, value, failure, not_found}
use clustered_big_cache.Encoding.{read_timestamp_from_entry}
use clustered_big_cache.Encoding.RoundTrip.{timestamp-layout}
use clustered_big_cache.Queue
use clustered_big_cache.Queue.{BytesQueue, View, bytes_at}
use clustered_big_cache.Queue.Store.{Store, drop_at, some_stored}
use clustered_big_cache.Queue.Keeping.{IsHeld}
use clustered_big_cache.Shard.{
  Deps, CacheShard, get, del, drop_previous, remove_entry, hit, miss, collision,
}
use clustered_big_cache.Ttl
use clustered_big_cache.Shard.Lookup.{IsStored, get_by_key, get_absent}
use clustered_big_cache.Shard.Dropping.{
  view_of, get_view, shows, dropped_queue, resets, deletes, dropped_queue-IsHeld,
}
use clustered_big_cache.Shard.Sound.{
  Cell, Cells, without_cell, bytes_of, IsCellAt, IsMapped, unmapped-IsMapped, erased-IsMapped,
}

module _ (D : Deps) where
  open D use {blocks}

  -- A queue and a map that hold the cells.
  pub record Holds (cells : Cells) (q : BytesQueue blocks) (m : List (ℕ × ℕ)) : Type 0 where
    pub store : Store
    pub held : IsHeld blocks store q
    pub mapped : IsMapped cells store m

  pub cell-IsStored :
      (cells : Cells) (s : CacheShard D) (hash : ℕ) (cell : Cell)
      → s.locked ≡ false
      → Holds cells s.entries s.hashmap
      → cells hash ≡ some cell
      → IsStored D s hash cell.timestamp cell.key cell.entry
  cell-IsStored cells s hash cell free h e =
      let c = h.mapped.present hash cell e in
      record {
        free = free;
        counted = omega (
          arith,
          h.held.counted,
          some_stored h.store (lookup s.hashmap hash) (bytes_of hash cell) c.stored,
        );
        short = c.short;
        placed = h.held.entries (lookup s.hashmap hash) (bytes_of hash cell) c.stored;
      }

  -- What `get` answers, and what it counts, by the cell under the hash.
  abbrev pub Gets : Cells → CacheShard D → (asked : List ℕ) (hash : ℕ) → Type 0
  Gets cells s asked hash =
      (cells hash ≡ none → get D s asked hash ≡ ok (failure (not_found asked), miss D s))
      × ((cell : Cell)
          → cells hash ≡ some cell
          → (asked ≡ cell.key → get D s asked hash ≡ ok (value cell.entry, hit D s))
            × (asked ≢ cell.key
                → get D s asked hash ≡ ok (failure (not_found asked), collision D s)))

  pub get-Gets :
      (cells : Cells) (s : CacheShard D) (asked : List ℕ) (hash : ℕ)
      → s.locked ≡ false
      → Holds cells s.entries s.hashmap
      → Gets cells s asked hash
  get-Gets cells s asked hash free h = (
    λ e. get_absent D s asked hash free (h.mapped.absent hash e),
    λ cell e.
        get_by_key D s hash cell.timestamp cell.key cell.entry asked
          (cell-IsStored cells s hash cell free h e),
  )

  long_enough : (hash : ℕ) (cell : Cell) → 16 ≤ length (bytes_of hash cell)
  long_enough hash cell = omega (arith, length-append cell.key cell.entry)

  module _ (cells : Cells) (s : CacheShard D) (hash : ℕ) (cell : Cell)
      (h : Holds cells s.entries s.hashmap) (e : cells hash ≡ some cell) where
    abbrev place : ℕ
    place = lookup s.hashmap hash

    pub at_place : IsCellAt h.store (lookup s.hashmap hash) hash cell
    at_place = h.mapped.present hash cell e

    pub place_positive : lookup s.hashmap hash ≢ 0
    place_positive z = omega (
      arith,
      (h.held.entries (lookup s.hashmap hash) (bytes_of hash cell) at_place.stored).positive,
    )

    abbrev pub seen : View
    seen = view_of D (lookup s.hashmap hash) (bytes_of hash cell)

    pub get_seen : Queue.get blocks s.entries (lookup s.hashmap hash) ≡ ok seen
    get_seen =
        get_view D h.store s.entries (lookup s.hashmap hash) (bytes_of hash cell) h.held
          at_place.stored

    pub read_seen : read_timestamp_from_entry (bytes_at blocks s.entries seen) ≡ ok cell.timestamp
    read_seen =
        ap read_timestamp_from_entry (
          shows D h.store s.entries (lookup s.hashmap hash) (bytes_of hash cell) h.held
            at_place.stored)
        ∙ timestamp-layout cell.timestamp hash cell.key cell.entry at_place.dated

    abbrev pub queue_without : BytesQueue blocks
    queue_without =
        dropped_queue D h.store s.entries (lookup s.hashmap hash) (bytes_of hash cell) h.held
          at_place.stored

    pub removed-Holds : Holds (without_cell cells hash) queue_without (erase s.hashmap hash)
    removed-Holds = record {
      store = drop_at h.store (lookup s.hashmap hash);
      held =
          dropped_queue-IsHeld D h.store s.entries (lookup s.hashmap hash) (bytes_of hash cell)
            h.held at_place.stored (long_enough hash cell);
      mapped = erased-IsMapped cells h.store s.hashmap hash h.mapped cell h.held.distinct e;
    }

    abbrev pub shard_without : CacheShard D
    shard_without = record s {
      hashmap = erase s.hashmap hash;
      removed = bytes_at blocks s.entries seen ∷ s.removed;
      entries = queue_without;
    }

    pub remove_seen : remove_entry D s hash (lookup s.hashmap hash) seen ≡ ok shard_without
    unfolding remove_entry
    remove_seen =
        rw
          (
            resets D h.store s.entries (lookup s.hashmap hash) (bytes_of hash cell) h.held
                at_place.stored (long_enough hash cell),
            deletes D h.store s.entries (lookup s.hashmap hash) (bytes_of hash cell) h.held
                at_place.stored,
          )
          refl

  -- `drop_previous` leaves the other cells, whether or not there was one under the hash.
  pub record IsCleared (cells : Cells) (s : CacheShard D) (hash : ℕ) (s' : CacheShard D)
      : Type 0 where
    pub rest : Holds (without_cell cells hash) s'.entries (erase s.hashmap hash)
    pub same_map : s'.hashmap ≡ s.hashmap
    pub same_lock : s'.locked ≡ s.locked
    pub same_tail : s'.entries.tail ≡ s.entries.tail
    pub same_limit : s'.entries.max_capacity ≡ s.entries.max_capacity
    pub same_capacity : s'.entries.capacity ≡ s.entries.capacity

  pub drop_previous-IsCleared :
      (cells : Cells) (s : CacheShard D) (key : List ℕ) (hash now : ℕ)
      → Holds cells s.entries s.hashmap
      → (s' : CacheShard D) × (drop_previous D s key hash now ≡ ok s') × IsCleared cells s hash s'
  unfolding drop_previous
  drop_previous-IsCleared cells s key hash now h = elim (Option-cases (cells hash)) [
    | inl nothing ↦ (
      s,
      rw (h.mapped.absent hash nothing) refl,
      record {
        rest = record {
          store = h.store;
          held = h.held;
          mapped = unmapped-IsMapped cells h.store s.hashmap hash h.mapped nothing;
        };
        same_map = refl;
        same_lock = refl;
        same_tail = refl;
        same_limit = refl;
        same_capacity = refl;
      },
    )
    | inr (cell, e) ↦ (
      record s {
        ttl_table = Ttl.remove D.keys D.times s.ttl_table cell.timestamp key now;
        entries = queue_without cells s hash cell h e;
      },
      rw
          (
            ne→== (lookup s.hashmap hash) 0 (place_positive cells s hash cell h e),
            get_seen cells s hash cell h e,
            read_seen cells s hash cell h e,
            resets D h.store s.entries (lookup s.hashmap hash) (bytes_of hash cell) h.held
                (at_place cells s hash cell h e).stored (long_enough hash cell),
            deletes D h.store s.entries (lookup s.hashmap hash) (bytes_of hash cell) h.held
                (at_place cells s hash cell h e).stored,
          )
          refl,
      record {
        rest = removed-Holds cells s hash cell h e;
        same_map = refl;
        same_lock = refl;
        same_tail = refl;
        same_limit = refl;
        same_capacity = refl;
      },
    )
  ]

  -- How `del` ends on a free shard: with the cell gone, or, where there is none, with an error.
  abbrev pub Dels : Cells → CacheShard D → (key : List ℕ) (hash now : ℕ) → Type 0
  Dels cells s key hash now =
      (s' : CacheShard D) × (s'.locked ≡ false)
      × (((cells hash ≡ none)
            × (del D s key hash now ≡ ok (failure (not_found key), s'))
            × Holds cells s'.entries s'.hashmap)
          ⊎ ((cells hash ≢ none)
              × (del D s key hash now ≡ ok (value tt, s'))
              × Holds (without_cell cells hash) s'.entries s'.hashmap))
