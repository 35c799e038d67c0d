-- ===== src/Iterator/Walk.antt =====
-- A walk by bigcache/iterator.go over a cache that does not change.
use clustered_big_cache.Prelude.{
  ℕ, zero, suc, ◌+◌, ◌-◌, ◌<◌, ◌≡◌, ◌⊎◌, inl, inr, refl, ap, sym, ◌∙◌, true, false, List, [], ◌∷◌,
  ◌++◌, map, some, arith, ltb, length, get_elem?, drop, All, length-map, length-drop, subst,
  List-cases, get_elem?-drop, drop_next, lt→ltb, le→ltb,
}
use clustered_big_cache.Prelude.Outcome.{ok}
use clustered_big_cache.Shard.{Deps, CacheShard, copy_keys}
use clustered_big_cache.BigCache.{BigCache}
use clustered_big_cache.BigCache.Routing.{IsRouted}
use clustered_big_cache.Prelude.Bits.{pow_pos}
use clustered_big_cache.Iterator.{
  EntryInfoIterator, shard_at, new_iterator, next_shard, set_next, place, walk,
}

module _ (D : Deps) where
  -- The places that the map of a shard leads to.
  abbrev pub indices : CacheShard D → List ℕ
  indices shard = map (λ p. p.1) shard.hashmap

  -- The places of all entries of the shards, each with its shard's number, the numbers from `i` on.
  abbrev pub places : ℕ → List (CacheShard D) → List (ℕ × ℕ)
  places i [] = []
  places i (shard ∷ more) = map (λ v. (i, v)) (indices shard) ++ places (i + 1) more

  -- The shard's lock is free.
  abbrev IsFree : CacheShard D → Type 0
  IsFree s = s.locked ≡ false

  module _ (c : BigCache D) where
    -- The iterator stands in shard `i` on the element before `rest`, and `more` are the shards behind.
    record IsAt (it : EntryInfoIterator) (rest : List ℕ) (more : List (CacheShard D)) : Type 0 where
      shard_in : it.current_shard + 1 + length more ≡ length c.shards
      more_is : drop (it.current_shard + 1) c.shards ≡ more
      counted : it.elements_count ≡ length it.elements
      rest_is : drop it.next_index it.elements ≡ rest

    -- The search for the next shard that has an entry has found one.
    record IsFound (it : EntryInfoIterator) (i : ℕ) (more : List (CacheShard D)) : Type 0 where
      it' : EntryInfoIterator
      v : ℕ
      rest : List ℕ
      behind : List (CacheShard D)
      found : next_shard D c it i (length more) ≡ ok (true, it')
      here : place D it' ≡ ok (it'.current_shard, v)
      standing : IsAt it' rest behind
      shows :
          places i more
          ≡ (it'.current_shard, v)
            ∷ (map (λ w. (it'.current_shard, w)) rest ++ places (it'.current_shard + 1) behind)
      others : All IsFree behind

    shard_there :
        (i : ℕ) (shard : CacheShard D)
        → get_elem? c.shards i ≡ some shard
        → shard_at D c i ≡ ok shard
    unfolding shard_at
    shard_there i shard there = rw (shard_at, there)

    next_shard_empty :
        (it : EntryInfoIterator) (i left : ℕ) (shard : CacheShard D)
        → get_elem? c.shards i ≡ some shard
        → IsFree shard
        → shard.hashmap ≡ []
        → next_shard D c it i (suc left)
          ≡ next_shard D c (record it { elements = []; elements_count = 0 }) (i + 1) left
    unfolding next_shard copy_keys
    next_shard_empty it i left shard there free empty =
        let at = shard_there i shard there in rw (at, free, empty)

    next_shard_found :
        (it : EntryInfoIterator) (i left : ℕ) (shard : CacheShard D) (elements : List ℕ) (count : ℕ)
        → shard_at D c i ≡ ok shard
        → copy_keys D shard ≡ ok (elements, count)
        → ltb 0 count ≡ true
        → next_shard D c it i (suc left)
          ≡ ok (
            true,
            record it {
              elements = elements;
              elements_count = count;
              next_index = 1;
              current_shard = i;
              valid = true;
            },
          )
    unfolding next_shard
    next_shard_found it i left shard elements count at keys positive =
        ground (arith, at, keys, positive)

    next_shard_full :
        (it : EntryInfoIterator) (i left : ℕ) (shard : CacheShard D) (k v : ℕ) (ps : List (ℕ × ℕ))
        → get_elem? c.shards i ≡ some shard
        → IsFree shard
        → shard.hashmap ≡ (k, v) ∷ ps
        → next_shard D c it i (suc left)
          ≡ ok (
            true,
            record it {
              elements = v ∷ map (λ p. p.1) ps;
              elements_count = suc (length ps);
              next_index = 1;
              current_shard = i;
              valid = true;
            },
          )
    unfolding copy_keys
    next_shard_full it i left shard k v ps there free full =
        next_shard_found it i left shard _ _ (shard_there i shard there) (rw (free, full))
          (lt→ltb 0 (suc (length ps)) (omega arith))

    next_shard-cases :
        (it : EntryInfoIterator) (i : ℕ) (more : List (CacheShard D))
        → drop i c.shards ≡ more
        → i + length more ≡ length c.shards
        → All IsFree more
        → ((places i more ≡ [])
            × ((it' : EntryInfoIterator) × (next_shard D c it i (length more) ≡ ok (false, it'))))
          ⊎ IsFound it i more
    unfolding next_shard place
    next_shard-cases it i [] e n free = inl (refl, (it, refl))
    next_shard-cases it i (shard ∷ more) e n free =
        let there : get_elem? c.shards i ≡ some shard = get_elem?-drop c.shards i e in
        let behind : drop (i + 1) c.shards ≡ more = drop_next c.shards i e in
        elim (List-cases shard.hashmap) [
          | inl none_here ↦
              elim (next_shard-cases (record it { elements = []; elements_count = 0 }) (i + 1) more
                behind (omega arith) free.1) [
                  | inl (nothing, (it', found)) ↦ inl (
                    rw (none_here, nothing),
                    (it', next_shard_empty it i (length more) shard there free.0 none_here ∙ found),
                  )
                  | inr f ↦ inr (record {
                    it' = f.it';
                    v = f.v;
                    rest = f.rest;
                    behind = f.behind;
                    found =
                        next_shard_empty it i (length more) shard there free.0 none_here ∙ f.found;
                    here = f.here;
                    standing = f.standing;
                    shows = rw none_here f.shows;
                    others = f.others;
                  })
                ]
          | inr ((k, v), ps, some_here) ↦ inr (record {
            it' = record it {
              elements = v ∷ map (λ p. p.1) ps;
              elements_count = suc (length ps);
              next_index = 1;
              current_shard = i;
              valid = true;
            };
            v = v;
            rest = map (λ p. p.1) ps;
            behind = more;
            found = next_shard_full it i (length more) shard k v ps there free.0 some_here;
            here = refl;
            standing = record {
              shard_in = omega arith;
              more_is = behind;
              counted = ap suc (sym (length-map ps (λ p. p.1)));
              rest_is = refl;
            };
            shows = rw some_here;
            others = free.1;
          })
        ]

    -- What a walk has left to show.
    abbrev left_places : EntryInfoIterator → List ℕ → List (CacheShard D) → List (ℕ × ℕ)
    left_places it rest more =
        map (λ w. (it.current_shard, w)) rest ++ places (it.current_shard + 1) more

    module _ (it : EntryInfoIterator) (rest : List ℕ) (more : List (CacheShard D))
        (n : c.config.shards ≡ length c.shards) where
      -- `SetNext` on an iterator that has elements left in its shard.
      set_next_same :
          (v : ℕ)
          → IsAt it (v ∷ rest) more
          → (set_next D c it
              ≡ ok (true, record it { valid = true; next_index = it.next_index + 1 }))
            × (place D (record it { valid = true; next_index = it.next_index + 1 })
                ≡ ok (it.current_shard, v))
      unfolding set_next place
      set_next_same v at =
          let size = length-drop it.next_index it.elements in
          let tail = ap length at.rest_is in
          let inside =
            lt→ltb it.next_index it.elements_count (omega (arith, size, tail, at.counted)) in
          let here : it.next_index + 1 - 1 ≡ it.next_index = omega arith in
          (rw inside, rw (place, here, get_elem?-drop it.elements it.next_index at.rest_is))

      -- `SetNext` on an iterator that is through with its shard.
      set_next_search :
          IsAt it [] more
          → set_next D c it
            ≡ next_shard D c
                (record it { valid = false; next_index = it.next_index + 1 })
                (it.current_shard + 1)
                (length more)
      unfolding set_next
      set_next_search at =
          let size = length-drop it.next_index it.elements in
          let tail = ap length at.rest_is in
          let spent =
            le→ltb it.next_index it.elements_count (omega (arith, size, tail, at.counted)) in
          let left : c.config.shards - (it.current_shard + 1) ≡ length more =
            omega (arith, n, at.shard_in) in
          rw (spent, left)

    walk_from :
        (fuel : ℕ) (it : EntryInfoIterator) (rest : List ℕ) (more : List (CacheShard D))
        → c.config.shards ≡ length c.shards
        → IsAt it rest more
        → All IsFree more
        → length (left_places it rest more) < fuel
        → walk D c it fuel ≡ ok (left_places it rest more)
    unfolding walk
    walk_from zero it rest more n at free enough = absurd (omega arith)
    walk_from (suc fuel) it [] more n at free enough =
        let search = set_next_search it [] more n at in
        elim (next_shard-cases (record it { valid = false; next_index = it.next_index + 1 })
          (it.current_shard + 1) more at.more_is at.shard_in free) [
            | inl (nothing, (it', found)) ↦ rw (search ∙ found, nothing)
            | inr f ↦
                let size = ap length f.shows in
                let ih =
                  walk_from fuel f.it' f.rest f.behind n f.standing f.others
                    (omega (arith, size)) in
                rw (search ∙ f.found, f.here, ih, f.shows)
          ]
    walk_from (suc fuel) it (v ∷ rest) more n at free enough =
        let (next, here) = set_next_same it rest more n v at in
        let it' : EntryInfoIterator = record it { valid = true; next_index = it.next_index + 1 } in
        let at' : IsAt it' rest more = record {
          shard_in = at.shard_in;
          more_is = at.more_is;
          counted = at.counted;
          rest_is = drop_next it.elements it.next_index at.rest_is;
        } in
        let ih = walk_from fuel it' rest more n at' free (omega arith) in rw (next, here, ih)

    -- Over a cache with its routing in order whose shards are all free and do not change meanwhile, a walk
    -- from a new iterator ends, after one call of `SetNext` for each entry and one more, and shows the
    -- place of every entry of every shard, in order and once each.
    pub walk-places :
        IsRouted D c
        → All IsFree c.shards
        → (it : EntryInfoIterator) × (new_iterator D c ≡ ok it)
          × (walk D c it (length (places 0 c.shards) + 1) ≡ ok (places 0 c.shards))
    unfolding new_iterator copy_keys
    walk-places r free = elim (List-cases c.shards) [
      | inl e ↦ absurd (omega (arith, ap length e, r.count, pow_pos r.bits))
      | inr (shard, more, e) ↦
          let it : EntryInfoIterator = record {
            current_shard = 0;
            next_index = 0;
            elements = indices shard;
            elements_count = length shard.hashmap;
            valid = false;
          } in
          let free' : All IsFree (shard ∷ more) = subst (All IsFree) e free in
          let at : IsAt it (indices shard) more = record {
            shard_in = omega (arith, ap length e);
            more_is = ap (drop 1) e;
            counted = sym (length-map shard.hashmap (λ p. p.1));
            rest_is = refl;
          } in
          let walked : walk D c it (length (places 0 (shard ∷ more)) + 1)
              ≡ ok (places 0 (shard ∷ more)) =
            walk_from (length (places 0 (shard ∷ more)) + 1) it (indices shard) more r.configured at
              free'.1 (omega arith) in
          (
            it,
            rw (shard_there 0 shard (ap (λ ss. get_elem? ss 0) e), free'.0),
            subst (λ ss. walk D c it (length (places 0 ss) + 1) ≡ ok (places 0 ss)) (sym e) walked,
          )
    ]
