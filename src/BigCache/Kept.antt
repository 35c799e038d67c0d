-- ===== src/BigCache/Kept.antt =====
-- `newBigCache`, `Get`, `Set` and `Delete` of bigcache/bigcache.go over shards that calls have led to, and what the
-- shards keep.
use clustered_big_cache.Prelude.{
  ℕ, zero, suc, ◌+◌, ◌%◌, ◌^◌, ◌<◌, ◌≡◌, ◌≢◌, ◌⊎◌, inl, inr, refl, sym, ap, ◌∙◌, subst, List, [],
  ◌∷◌, Option, some, none, arith, length, get_elem?, get_elem?-set_ne, get_elem?-set_self, ◌==◌,
  if◌then◌else◌, ==→ne, ==→eq, Bool-cases, Option-cases, some_injective, none≢some, ==_self, true,
  false,
}
use clustered_big_cache.Prelude.Int.{ℤ}
use clustered_big_cache.Prelude.Bits.{pow_pos}
use native.Mathlib.Nat.{mod-lt, mul-pos}
use clustered_big_cache.Prelude.Outcome.{
  ok, blocked, Reply, value, failure, not_found, ok-injective,
}
use clustered_big_cache.Prelude.Keys.{key_eq, key_eq→eq, key_eq_self}
use clustered_big_cache.Config.{Config}
use clustered_big_cache.Config.Sizes.{sizes_lem}
use clustered_big_cache.Shard
use clustered_big_cache.Shard.{
  Deps, CacheShard, init_new_shard, expiry_timestamp, hit, miss, collision,
}
use clustered_big_cache.Shard.Sound.{Cell, Cells, no_cells, with_cell, without_cell}
use clustered_big_cache.Shard.Calls.{new_cell, set-SetsCell, del-Dels}
use clustered_big_cache.Shard.Refining.{
  IsReached, started, stored, got, deleted_to, missed, reached-Keeps, reached-Gets,
}
use clustered_big_cache.Queue.Append.{IsFull}
use clustered_big_cache.BigCache.{
  BigCache, new_big_cache, new_shards, put_shard, get_shard, get, set_key, delete,
}
use clustered_big_cache.BigCache.Routing.{IsRouted, get_shard-IsRouted, new_big_cache-IsRouted}
use clustered_big_cache.BigCache.Keeping.{home, put_shard-IsLocal, get_reads, get_waits}

-- The cells of each shard.
abbrev pub Contents : Type 0
Contents = ℕ → Cells

abbrev pub with_shard : Contents → ℕ → Cells → Contents
with_shard contents index cells i = if index == i then cells else contents i

key_ne : (a b : List ℕ) → key_eq a b ≡ false → a ≢ b
key_ne a b h same = true_not_false (key_eq_self a) (ap (key_eq a) same ∙ h)
  where
    true_not_false : key_eq a a ≡ true → ¬ (key_eq a a ≡ false)
    true_not_false e f = ground arith

module _ (D : Deps) where
  -- A cache with its routing in order, each shard of which calls have led to, with its cells.
  pub record IsKept (contents : Contents) (c : BigCache D) : Type 0 where
    pub routed : IsRouted D c
    pub each :
        (i : ℕ) (s : CacheShard D) → get_elem? c.shards i ≡ some s → IsReached D (contents i) s

  module _ (contents : Contents) (c : BigCache D) (key : List ℕ) (k : IsKept contents c) where
    pub home_inside : home D c key < length c.shards
    home_inside = mod-lt (D.sum64 key) (omega (arith, k.routed.count, pow_pos k.routed.bits))

    pub put_shard-IsKept :
        (cells : Cells) (s' : CacheShard D)
        → IsReached D cells s'
        → IsKept (with_shard contents (home D c key) cells) (put_shard D c (home D c key) s')
    put_shard-IsKept cells s' r = record {
      routed = (put_shard-IsLocal D c key s' k.routed).routed;
      each = λ i s e. elim (Bool-cases (home D c key == i)) [
        | inl same ↦
            let at : some s' ≡ some s =
              sym (get_elem?-set_self c.shards (home D c key) s' home_inside)
              ∙ (ap (get_elem? (put_shard D c (home D c key) s').shards)
                    (==→eq (home D c key) i same)
                  ∙ e) in
            rw (with_shard, same) (subst (IsReached D cells) (some_injective at) r)
        | inr other ↦
            rw (with_shard, other)
              (k.each i s (sym (get_elem?-set_ne c.shards s' (==→ne (home D c key) i other)) ∙ e))
      ];
    }

    -- The shard of the key, and how it came about.
    pub home_shard :
        (s : CacheShard D) × (get_shard D c (D.sum64 key) ≡ ok (home D c key, s))
        × (get_elem? c.shards (home D c key) ≡ some s)
        × IsReached D (contents (home D c key)) s
    home_shard =
        let (s, found, there) = get_shard-IsRouted D c (D.sum64 key) k.routed in
        (s, found, there, k.each (home D c key) s there)

  same-IsKept :
      (contents : Contents) (c : BigCache D) (index : ℕ)
      → IsKept (with_shard contents index (contents index)) c
      → IsKept contents c
  same-IsKept contents c index k = record {
    routed = k.routed;
    each = λ i s e. elim (Bool-cases (index == i)) [
      | inl same ↦
          let r : IsReached D (with_shard contents index (contents index) i) s = k.each i s e in
          subst (λ z. IsReached D (contents z) s) (==→eq index i same) (rw (with_shard, same) at r)
      | inr other ↦
          let r : IsReached D (with_shard contents index (contents index) i) s = k.each i s e in
          rw (with_shard, other) at r
    ];
  }

  -- The answer that the cells of the key's shard ask for.
  abbrev pub IsAnswer : Option Cell → List ℕ → Reply (List ℕ) → Type 0
  IsAnswer found key reply =
      (found ≡ none → reply ≡ failure (not_found key))
      × ((cell : Cell)
          → found ≡ some cell
          → (key ≡ cell.key → reply ≡ value cell.entry)
            × (key ≢ cell.key → reply ≡ failure (not_found key)))

  shard-IsAnswer :
      (cells : Cells) (s : CacheShard D) (key : List ℕ) (hash : ℕ)
      → IsReached D cells s
      → (reply : Reply (List ℕ)) × (s' : CacheShard D) × (Shard.get D s key hash ≡ ok (reply, s'))
        × IsAnswer (cells hash) key reply
  shard-IsAnswer cells s key hash r =
      let (absent, present) = reached-Gets D cells s key hash r in
      elim (Option-cases (cells hash)) [
        | inl nothing ↦ (
          failure (not_found key),
          miss D s,
          absent nothing,
          (λ _. refl, λ cell e. absurd (none≢some (sym nothing ∙ e))),
        )
        | inr (cell, e) ↦ elim (Bool-cases (key_eq key cell.key)) [
          | inl same ↦ (
            value cell.entry,
            hit D s,
            (present cell e).0 (key_eq→eq key cell.key same),
            (
              λ z. absurd (none≢some (sym z ∙ e)),
              λ cell' e'.
                  let one : cell ≡ cell' = some_injective (sym e ∙ e') in
                  (
                    λ _. ap (λ (z : Cell). value z.entry) one,
                    λ other.
                        absurd (other (key_eq→eq key cell.key same ∙ ap (λ (z : Cell). z.key) one)),
                  ),
            ),
          )
          | inr other ↦ (
            failure (not_found key),
            collision D s,
            (present cell e).1 (key_ne key cell.key other),
            (
              λ z. absurd (none≢some (sym z ∙ e)),
              λ cell' e'.
                  let one : cell ≡ cell' = some_injective (sym e ∙ e') in
                  (
                    λ same.
                        absurd
                          (key_ne key cell.key other (same ∙ ap (λ (z : Cell). z.key) (sym one))),
                    λ _. refl,
                  ),
            ),
          )
        ]
      ]

  -- Take a cache with its routing in order, each shard of which calls have led to. `Get` of a key ends, leaves the
  -- cells as they are, and answers by the cell under the hash of the key in the key's shard: the entry of the cell,
  -- if the cell has that key, and otherwise that there is none.
  pub get-IsAnswer :
      (contents : Contents) (c : BigCache D) (key : List ℕ)
      → IsKept contents c
      → (reply : Reply (List ℕ)) × (c' : BigCache D) × (get D c key ≡ ok (reply, c'))
        × IsKept contents c'
        × IsAnswer (contents (home D c key) (D.sum64 key)) key reply
  get-IsAnswer contents c key k =
      let (s, found, there, r) = home_shard contents c key k in
      let (reply, s', done, answer) =
        shard-IsAnswer (contents (home D c key)) s key (D.sum64 key) r in
      (
        reply,
        put_shard D c (home D c key) s',
        get_reads D c key s s' reply k.routed there done,
        same-IsKept contents (put_shard D c (home D c key) s') (home D c key) (
            put_shard-IsKept contents c key k (contents (home D c key)) s'
              (got key (D.sum64 key) reply r done)),
        answer,
      )

  -- Take a cache with its routing in order, each shard of which calls have led to, a key of fewer than 65518 bytes
  -- and an entry below 2 ^ 32 bytes, where the tail of the queue of the key's shard is below 2 ^ 32. `Set` either
  -- answers the expiry, and then the key's shard has the new cell under the hash of the key, and all other cells are
  -- as they were; or, only where the queue has a limit, the entry does not fit behind its tail, and the limit does
  -- not let the array grow for it, `Set` answers 0 with no error, and `Get` of the key then waits for ever.
  pub set_key-IsKept :
      (contents : Contents) (c : BigCache D) (key entry : List ℕ) (duration : ℤ) (now : ℕ)
      (s : CacheShard D)
      → IsKept contents c
      → get_elem? c.shards (home D c key) ≡ some s
      → s.entries.tail < 2 ^ 32
      → length key < 65518
      → 18 + length key + length entry < 2 ^ 32
      → (c' : BigCache D) × (((set_key D c key entry duration now
              ≡ ok (value (expiry_timestamp D duration now), c'))
            × IsKept
                (with_shard contents (home D c key) (
                  with_cell
                    (contents (home D c key))
                    (D.sum64 key)
                    (new_cell D key (D.sum64 key) entry duration now)))
                c')
          ⊎ ((set_key D c key entry duration now ≡ ok (value 0, c'))
              × (get D c' key ≡ blocked)
              × IsFull D.blocks s.entries (18 + length key + length entry)))
  unfolding set_key
  set_key-IsKept contents c key entry duration now s k there fit short word =
      let (s₀, found, there₀, _) = home_shard contents c key k in
      let same : s₀ ≡ s = some_injective (sym there₀ ∙ there) in
      let r = k.each (home D c key) s there in
      let at_home : get_shard D c (D.sum64 key) ≡ ok (home D c key, s) =
        found ∙ ap (λ z. ok (home D c key, z)) same in
      let (free, h) = reached-Keeps D (contents (home D c key)) s r in
      let (s', ends) =
        set-SetsCell D key (D.sum64 key) entry duration now (contents (home D c key)) s free h fit
          short word in
      (
        put_shard D c (home D c key) s',
        elim ends [
          | inl (done, open', _) ↦ inl (
            rw (at_home, done) refl,
            put_shard-IsKept contents c key k _ s' (
                stored key entry (D.sum64 key) now duration
                  (value (expiry_timestamp D duration now)) r fit short word done open'),
          )
          | inr (done, shut, limited) ↦
              let l = put_shard-IsLocal D c key s' k.routed in
              let at : get_elem? (put_shard D c (home D c key) s').shards
                    (home D (put_shard D c (home D c key) s') key)
                  ≡ some s' =
                ap (λ n. get_elem? (put_shard D c (home D c key) s').shards (D.sum64 key % n))
                  l.same_count
                ∙ get_elem?-set_self c.shards (home D c key) s' (home_inside contents c key k) in
              inr (
                rw (at_home, done) refl,
                get_waits D (put_shard D c (home D c key) s') key s' l.routed at shut,
                limited,
              )
        ],
      )

  -- Take a cache with its routing in order, each shard of which calls have led to. `Delete` of a key ends: it takes
  -- the cell under the hash of the key, whatever key that cell has, out of the key's shard, or answers that there is
  -- none; all other cells are as they were.
  pub delete-IsKept :
      (contents : Contents) (c : BigCache D) (key : List ℕ) (now : ℕ)
      → IsKept contents c
      → (c' : BigCache D) × (((contents (home D c key) (D.sum64 key) ≡ none)
            × (delete D c key now ≡ ok (failure (not_found key), c'))
            × IsKept contents c')
          ⊎ ((contents (home D c key) (D.sum64 key) ≢ none)
              × (delete D c key now ≡ ok (value tt, c'))
              × IsKept
                  (with_shard contents
                    (home D c key)
                    (without_cell (contents (home D c key)) (D.sum64 key)))
                  c'))
  unfolding delete
  delete-IsKept contents c key now k =
      let (s, found, there, r) = home_shard contents c key k in
      let (free, h) = reached-Keeps D (contents (home D c key)) s r in
      let (s', _, ends) = del-Dels D (contents (home D c key)) s key (D.sum64 key) now free h in
      (
        put_shard D c (home D c key) s',
        elim ends [
          | inl (nothing, done, _) ↦ inl (
            nothing,
            rw (found, done) refl,
            same-IsKept contents (put_shard D c (home D c key) s') (home D c key) (
                put_shard-IsKept contents c key k (contents (home D c key)) s'
                  (missed key (D.sum64 key) now (not_found key) r done)),
          )
          | inr (there_is, done, _) ↦ inr (
            there_is,
            rw (found, done) refl,
            put_shard-IsKept contents c key k _ s' (deleted_to key (D.sum64 key) now r done),
          )
        ],
      )

  first_or_more :
      (first : CacheShard D) (more : List (CacheShard D))
      → IsReached D no_cells first
      → ((i : ℕ) (s : CacheShard D) → get_elem? more i ≡ some s → IsReached D no_cells s)
      → (i : ℕ) (s : CacheShard D) → get_elem? (first ∷ more) i ≡ some s
      → IsReached D no_cells s
  first_or_more first more r each zero s e = subst (IsReached D no_cells) (some_injective e) r
  first_or_more first more r each (suc i) s e = each i s e

  new_shards-IsReached :
      (config : Config) (num count now : ℕ)
      → 0 < config.shards
      → 0 < config.max_entry_size
      → (shards : List (CacheShard D)) × (new_shards D config num count now ≡ ok shards)
        × ((i : ℕ) (s : CacheShard D) → get_elem? shards i ≡ some s → IsReached D no_cells s)
  unfolding new_shards
  new_shards-IsReached config num zero now h long = ([], refl, λ i s e. absurd (none≢some e))
  new_shards-IsReached config num (suc count) now h long =
      let sized = sizes_lem config h in
      let (more, made, each) = new_shards-IsReached config (num + 1) count now h long in
      let first : CacheShard D =
        init_new_shard D sized.initial config.max_entry_size sized.maximum
          (D.seconds config.life_window) num now in
      let first_reached : IsReached D no_cells first =
        started sized.initial config.max_entry_size sized.maximum (D.seconds config.life_window) num
          now
          (mul-pos {m = sized.initial} {n = config.max_entry_size}
            (omega (arith, sized.at_least_ten)) long) in
      (
        first ∷ more,
        rw (sized.initial_is, sized.maximum_is, made) refl,
        first_or_more first more first_reached each,
      )

  made_shards :
      (config : Config) (now : ℕ) (c : BigCache D)
      → new_big_cache D config now ≡ ok c
      → new_shards D config 1 config.shards now ≡ ok c.shards
  unfolding new_big_cache
  made_shards config now c e = ground arith

  -- A configuration whose number of shards is a power of two below 2 ^ 63, with entries of at least a byte, gives a
  -- cache whose shards have no cells.
  pub new_big_cache-IsKept :
      (config : Config) (now k : ℕ)
      → config.shards ≡ 2 ^ k
      → config.shards < 2 ^ 63
      → 0 < config.max_entry_size
      → (c : BigCache D) × (new_big_cache D config now ≡ ok c) × IsKept (λ _. no_cells) c
  new_big_cache-IsKept config now k e h long =
      let (c, made, routed) = new_big_cache-IsRouted D config now k e h in
      let (shards, shards_made, each) =
        new_shards-IsReached config 1 config.shards now (omega (arith, pow_pos k)) long in
      let same : shards ≡ c.shards =
        ok-injective (sym shards_made ∙ made_shards config now c made) in
      (
        c,
        made,
        record { routed = routed; each = λ i s f. each i s (ap (λ l. get_elem? l i) same ∙ f) },
      )

  -- The entry of a cell in the key's shard is what `Get` of its key answers.
  pub get_cell :
      (contents : Contents) (c c' : BigCache D) (cell : Cell)
      → IsKept
          (with_shard contents
            (home D c cell.key)
            (with_cell (contents (home D c cell.key)) (D.sum64 cell.key) cell))
          c'
      → length c'.shards ≡ length c.shards
      → (c'' : BigCache D) × (get D c' cell.key ≡ ok (value cell.entry, c''))
  get_cell contents c c' cell k same =
      let at = home D c cell.key in
      let held = with_cell (contents at) (D.sum64 cell.key) cell in
      let (reply, c'', done, _, (_, answers)) =
        get-IsAnswer (with_shard contents at held) c' cell.key k in
      let there : with_shard contents at held at (D.sum64 cell.key) ≡ some cell =
        rw ==_self (rw ==_self refl) in
      let moved : with_shard contents at held (home D c' cell.key) (D.sum64 cell.key) ≡ some cell =
        ap (λ n. with_shard contents at held (D.sum64 cell.key % n) (D.sum64 cell.key)) same
        ∙ there in
      (c'', done ∙ ap (λ r. ok (r, c'')) ((answers cell moved).0 refl))
