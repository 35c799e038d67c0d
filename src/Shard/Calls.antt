-- ===== src/Shard/Calls.antt =====
-- `del`, `set` and `evictDel` of bigcache/shard.go on a shard that holds cells: how they end, and what is held then.
use clustered_big_cache.Prelude.{
  ℕ, ◌+◌, ◌%◌, ◌^◌, ◌≤◌, ◌<◌, ◌≡◌, ◌⊎◌, refl, sym, ◌∙◌, inl, inr, List, [], ◌∷◌, ◌++◌, some, none,
  arith, length, length-append, length-take, length-drop, ◌==◌, if◌then◌else◌, ne→==, Option-cases,
  Bool-cases, true, false, le→leb, none≢some, take, drop, subst₂,
}
use clustered_big_cache.Prelude.Int.{ℤ}
use clustered_big_cache.Prelude.Assoc.{lookup, insert}
use clustered_big_cache.Prelude.Outcome.{ok, value, failure, not_found}
use clustered_big_cache.Bytes.{write_at, le_bytes, le_value}
use clustered_big_cache.Bytes.Laws.{length-write_at}
use clustered_big_cache.Encoding.{read_timestamp_from_entry}
use clustered_big_cache.Ttl
use clustered_big_cache.Queue.{bytes_at}
use clustered_big_cache.Queue.Keeping.{placed-IsHeld, placed-new}
use clustered_big_cache.Queue.Append.{IsFull}
use clustered_big_cache.Queue.Refining.{push-Places}
use clustered_big_cache.Shard.{
  Deps, CacheShard, set, del, evict_key, evict_keys, evict_del, count_evict, expiry_timestamp,
  delhit, delmiss, unlock,
}
use clustered_big_cache.Shard.Storing.{pushed, set_steps, set_push_ok, set_push_err}
use clustered_big_cache.Shard.Sound.{
  Cell, Cells, with_cell, without_cell, bytes_of, IsMapped, inserted-IsMapped,
}
use clustered_big_cache.Shard.Holding.{
  Holds, drop_previous-IsCleared, Dels, place_positive, get_seen, read_seen, seen, remove_seen,
  shard_without, removed-Holds, at_place,
}

read_timestamp_long :
    (blob : List ℕ) → 8 ≤ length blob → (t : ℕ) × (read_timestamp_from_entry blob ≡ ok t)
unfolding read_timestamp_from_entry
read_timestamp_long blob h = (le_value (take 8 (drop 0 blob)), rw (le→leb 8 (length blob) h) refl)

module _ (D : Deps) where
  open D use {blocks}

  -- What the array shows in place of the entry that was taken out.
  long_after :
      (cells : Cells) (s : CacheShard D) (hash : ℕ) (cell : Cell)
      (h : Holds D cells s.entries s.hashmap) (e : cells hash ≡ some cell)
      → 8
        ≤ length (
            bytes_at blocks
              (shard_without D cells s hash cell h e).entries
              (seen D cells s hash cell h e))
  long_after cells s hash cell h e = omega (
    arith,
    length-take (length (bytes_of hash cell)) (
        drop (lookup s.hashmap hash + 4)
          (write_at s.entries.array (lookup s.hashmap hash + 4 + 8) (le_bytes 8 0))),
    length-drop (lookup s.hashmap hash + 4)
        (write_at s.entries.array (lookup s.hashmap hash + 4 + 8) (le_bytes 8 0)),
    length-write_at s.entries.array (lookup s.hashmap hash + 4 + 8) (le_bytes 8 0),
    (h.held.entries (lookup s.hashmap hash) (bytes_of hash cell)
        (at_place D cells s hash cell h e).stored).inside,
    length-append cell.key cell.entry,
  )

  del-absent :
      (cells : Cells) (s : CacheShard D) (key : List ℕ) (hash now : ℕ)
      → s.locked ≡ false
      → lookup s.hashmap hash ≡ 0
      → del D s key hash now ≡ ok (failure (not_found key), delmiss D (record s { locked = false }))
  unfolding del
  del-absent cells s key hash now free gone = rw (free, gone) refl

  pub del-Dels :
      (cells : Cells) (s : CacheShard D) (key : List ℕ) (hash now : ℕ)
      → s.locked ≡ false
      → Holds D cells s.entries s.hashmap
      → Dels D cells s key hash now
  unfolding del
  del-Dels cells s key hash now free h = elim (Option-cases (cells hash)) [
    | inl nothing ↦ (
      delmiss D (record s { locked = false }),
      refl,
      inl (nothing, rw (free, h.mapped.absent hash nothing) refl, h),
    )
    | inr (cell, e) ↦
        let s₁ : CacheShard D = record s { locked = true } in
        let (t, read) = read_timestamp_long _ (long_after cells s₁ hash cell h e) in
        (
          delhit D (record (unlock D (shard_without D cells s₁ hash cell h e)) {
            ttl_table = Ttl.remove D.keys D.times s.ttl_table t key now;
          }),
          refl,
          inr (
            λ z. none≢some (sym z ∙ e),
            rw
                (
                  free,
                  ne→== (lookup s.hashmap hash) 0 (place_positive D cells s₁ hash cell h e),
                  get_seen D cells s₁ hash cell h e,
                  remove_seen D cells s₁ hash cell h e,
                  read,
                )
                refl,
            removed-Holds D cells s₁ hash cell h e,
          ),
        )
  ]

  module _ (key : List ℕ) (hash : ℕ) (entry : List ℕ) (duration : ℤ) (now : ℕ) where
    -- The cell that `set` stores.
    abbrev pub new_cell : Cell
    new_cell = record { timestamp = expiry_timestamp D duration now; key = key; entry = entry }

    -- How `set` ends on a free shard: with the cell stored, or, where the queue is full, with
    -- the lock held.
    abbrev pub SetsCell : Cells → CacheShard D → Type 0
    SetsCell cells s =
        (s' : CacheShard D) × (((set D s key hash entry duration now
              ≡ ok (value (expiry_timestamp D duration now), s'))
            × (s'.locked ≡ false)
            × Holds D (with_cell cells hash new_cell) s'.entries s'.hashmap)
          ⊎ ((set D s key hash entry duration now ≡ ok (value 0, s'))
              × (s'.locked ≡ true)
              × IsFull blocks s.entries (18 + length key + length entry)))

    expiry_word : expiry_timestamp D duration now < 2 ^ 64
    expiry_word = ground arith

    pub set-SetsCell :
        (cells : Cells) (s : CacheShard D)
        → s.locked ≡ false
        → Holds D cells s.entries s.hashmap
        → s.entries.tail < 2 ^ 32
        → length key < 65518
        → 18 + length key + length entry < 2 ^ 32
        → SetsCell cells s
    set-SetsCell cells s free h places_fit short word =
        let s₁ : CacheShard D = record s { locked = true } in
        let (s₂, dropped, c) = drop_previous-IsCleared D cells s₁ key hash now h in
        let (rest, steps) = set_steps D key hash duration now s s₂ entry free dropped in
        let blob = bytes_of hash new_cell in
        let s₃ : CacheShard D = record s₂ { entry_buffer = blob ++ rest } in
        let size : length blob ≡ 18 + length key + length entry =
          omega (arith, length-append key entry) in
        elim (push-Places blocks c.rest.store s₂.entries blob c.rest.held (omega arith)
          (omega arith)) [
            | inl (full, (small, limited, bound)) ↦ (
              s₃,
              inr (
                steps ∙ set_push_err D key hash duration now s₃ blob full,
                c.same_lock,
                (
                  omega (arith, c.same_tail, c.same_capacity, size),
                  omega (arith, c.same_limit),
                  omega (arith, c.same_limit, c.same_capacity, size),
                ),
              ),
            )
            | inr (index, q', done, positive, low, same, p) ↦
                let fits : index % 2 ^ 32 ≡ index = omega (arith, c.same_tail) in
                (
                  pushed D key hash duration now s₃ index q',
                  inl (
                    steps ∙ set_push_ok D key hash duration now s₃ blob done,
                    refl,
                    record {
                      store = (index, blob) ∷ c.rest.store;
                      held =
                          placed-IsHeld blocks c.rest.store s₂.entries c.rest.held blob index q' p;
                      mapped =
                          subst₂
                            (λ i m.
                              IsMapped (with_cell cells hash new_cell)
                                ((index, blob) ∷ c.rest.store) (insert m hash i))
                            (sym fits) (sym c.same_map)
                            (inserted-IsMapped cells c.rest.store s.hashmap hash index new_cell
                              c.rest.mapped
                              (placed-new blocks c.rest.store s₂.entries c.rest.held blob index q'
                                p)
                              short expiry_word);
                    },
                  ),
                )
          ]

  -- The cells after an eviction of the keys of a timestamp: those of another timestamp stay.
  abbrev pub sweep_key : Cells → (timestamp : ℕ) (key : List ℕ) → Cells
  sweep_key cells timestamp key = elim (cells (D.sum64 key)) [
    | none ↦ cells
    | some cell ↦ if cell.timestamp == timestamp then without_cell cells (D.sum64 key) else cells
  ]

  abbrev pub sweep : Cells → (timestamp : ℕ) → List (List ℕ) → Cells
  sweep cells timestamp [] = cells
  sweep cells timestamp (key ∷ more) = sweep (sweep_key cells timestamp key) timestamp more

  pub evict_key-Holds :
      (cells : Cells) (s : CacheShard D) (timestamp : ℕ) (key : List ℕ)
      → Holds D cells s.entries s.hashmap
      → (s' : CacheShard D) × (evict_key D s timestamp key ≡ ok s')
        × Holds D (sweep_key cells timestamp key) s'.entries s'.hashmap
  unfolding evict_key
  evict_key-Holds cells s timestamp key h = elim (Option-cases (cells (D.sum64 key))) [
    | inl nothing ↦
        rw (sweep_key, nothing)
          (delmiss D (count_evict D s), rw (h.mapped.absent (D.sum64 key) nothing) refl, h)
    | inr (cell, e) ↦
        let s₁ : CacheShard D = count_evict D s in
        elim (Bool-cases (cell.timestamp == timestamp)) [
          | inl same ↦
              rw (sweep_key, e, same)
                (
                  delhit D (shard_without D cells s₁ (D.sum64 key) cell h e),
                  rw
                      (
                        ne→== (lookup s.hashmap (D.sum64 key)) 0
                            (place_positive D cells s₁ (D.sum64 key) cell h e),
                        get_seen D cells s₁ (D.sum64 key) cell h e,
                        read_seen D cells s₁ (D.sum64 key) cell h e,
                        same,
                        remove_seen D cells s₁ (D.sum64 key) cell h e,
                      )
                      refl,
                  removed-Holds D cells s₁ (D.sum64 key) cell h e,
                )
          | inr other ↦
              rw (sweep_key, e, other)
                (
                  s₁,
                  rw
                      (
                        ne→== (lookup s.hashmap (D.sum64 key)) 0
                            (place_positive D cells s₁ (D.sum64 key) cell h e),
                        get_seen D cells s₁ (D.sum64 key) cell h e,
                        read_seen D cells s₁ (D.sum64 key) cell h e,
                        other,
                      )
                      refl,
                  h,
                )
        ]
  ]

  evict_keys-Holds :
      (cells : Cells) (s : CacheShard D) (timestamp : ℕ) (gone : List (List ℕ))
      → Holds D cells s.entries s.hashmap
      → (s' : CacheShard D) × (evict_keys D s timestamp gone ≡ ok s')
        × Holds D (sweep cells timestamp gone) s'.entries s'.hashmap
  unfolding evict_keys
  evict_keys-Holds cells s timestamp [] h = (s, refl, h)
  evict_keys-Holds cells s timestamp (key ∷ more) h =
      let (s₁, first, h₁) = evict_key-Holds cells s timestamp key h in
      let (s₂, run, h₂) = evict_keys-Holds (sweep_key cells timestamp key) s₁ timestamp more h₁ in
      (s₂, rw (first, run) refl, h₂)

  pub evict_del-Holds :
      (cells : Cells) (s : CacheShard D) (timestamp : ℕ) (gone : D.keys.Set)
      → s.locked ≡ false
      → Holds D cells s.entries s.hashmap
      → (s' : CacheShard D) × (evict_del D s timestamp gone ≡ ok s')
        × (s'.locked ≡ false)
        × Holds D (sweep cells timestamp (D.keys.values gone)) s'.entries s'.hashmap
  unfolding evict_del
  evict_del-Holds cells s timestamp gone free h =
      let (s₁, run, h₁) =
        evict_keys-Holds cells (record s { locked = true }) timestamp (D.keys.values gone) h in
      (unlock D s₁, rw (free, run) refl, refl, h₁)
