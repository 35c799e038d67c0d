-- ===== src/Queue/Keeping.antt =====
-- A queue that holds a store: its entries stand apart in the array, and its free blocks lie between them.
use clustered_big_cache.Prelude.{
  ℕ, ◌+◌, ◌-◌, ◌≤◌, ◌<◌, ◌≡◌, ◌≢◌, ◌⊎◌, inl, inr, refl, sym, ap, ◌∙◌, subst, List, [], ◌∷◌, some,
  none, arith, length, Bool-cases, Option-cases, ◌==◌, ==→ne, none≢some, leb, leb→le, leb→lt,
  subst₂,
}
use clustered_big_cache.Containers.{OrderedMap}
use clustered_big_cache.FreeList
use clustered_big_cache.FreeList.{FreeList, new_free_list}
use clustered_big_cache.FreeList.Merging.{IsNew}
use clustered_big_cache.FreeList.Owned.{IsOwned, IsFree, new_free_list-IsOwned}
use clustered_big_cache.FreeList.Adding.{add-IsOwned}
use clustered_big_cache.FreeList.Taking.{IsTaken}
use clustered_big_cache.Queue.{BytesQueue, new_bytes_queue}
use clustered_big_cache.Bytes.{write_at}
use clustered_big_cache.Bytes.Laws.{length-write_at}
use clustered_big_cache.Queue.Entries.{IsEntry, write_at-IsEntryOf}
use clustered_big_cache.Queue.Linear.{IsLinear, new_bytes_queue-IsLinear}
use clustered_big_cache.Queue.Append.{IsAppended}
use clustered_big_cache.Queue.Reuse.{IsReused}
use clustered_big_cache.Queue.Store.{
  Store, find_at, drop_at, IsDistinct, find_at-drop_at, drop_at-IsDistinct, length-drop_at,
}

-- Two blocks that do not overlap.
abbrev pub AreApart : (i n j m : ℕ) → Type 0
AreApart i n j m = (i + n ≤ j) ⊎ (j + m ≤ i)

-- Blocks are apart where an index of one is never one of the other.
pub never_both :
    (P : ℕ → Type 0) (i n j m : ℕ)
    → 0 < n
    → 0 < m
    → ((x : ℕ) → IsNew i n x → P x)
    → ((x : ℕ) → IsNew j m x → ¬ P x)
    → AreApart i n j m
never_both P i n j m full other all none_of = elim (Bool-cases (leb i j)) [
  | inl below ↦ elim (Bool-cases (leb (i + n) j)) [
    | inl apart ↦ inl (leb→le (i + n) j apart)
    | inr meets ↦
        let h = leb→le i j below in
        let k = leb→lt (i + n) j meets in
        absurd (none_of j (omega arith, omega arith) (all j (omega arith, omega arith)))
  ]
  | inr above ↦ elim (Bool-cases (leb (j + m) i)) [
    | inl apart ↦ inr (leb→le (j + m) i apart)
    | inr meets ↦
        let h = leb→lt i j above in
        let k = leb→lt (j + m) i meets in
        absurd (none_of i (omega arith, omega arith) (all i (omega arith, omega arith)))
  ]
]

module _ (M : OrderedMap ℕ) where
  pub record IsHeld (s : Store) (q : BytesQueue M) : Type 0 where
    pub linear : IsLinear M q
    pub owned : IsOwned M q.freelist
    pub distinct : IsDistinct s
    pub counted : q.count ≡ length s
    pub free_in : (x : ℕ) → IsFree M q.freelist x → (1 ≤ x) × (x < q.tail)
    pub entries : (i : ℕ) (bytes : List ℕ) → find_at s i ≡ some bytes → IsEntry M q i bytes
    pub ends : (i : ℕ) (bytes : List ℕ) → find_at s i ≡ some bytes → i + 4 + length bytes ≤ q.tail
    pub apart :
        (i j : ℕ) (a b : List ℕ)
        → find_at s i ≡ some a
        → find_at s j ≡ some b
        → i ≢ j
        → AreApart i (length a + 4) j (length b + 4)
    pub unfree :
        (i : ℕ) (bytes : List ℕ) (x : ℕ)
        → find_at s i ≡ some bytes
        → IsNew i (length bytes + 4) x
        → ¬ IsFree M q.freelist x

  pub new_bytes_queue-IsHeld :
      (initial max : ℕ) → 1 ≤ initial → IsHeld [] (new_bytes_queue M initial max)
  unfolding new_bytes_queue new_free_list
  new_bytes_queue-IsHeld initial max h = record {
    linear = new_bytes_queue-IsLinear M initial max h;
    owned = new_free_list-IsOwned M;
    distinct = tt;
    counted = refl;
    free_in = λ x (k, p, e, _). absurd (none≢some (sym (M.get-empty k) ∙ e));
    entries = λ i bytes e. absurd (none≢some e);
    ends = λ i bytes e. absurd (none≢some e);
    apart = λ i j a b e f other. absurd (none≢some e);
    unfree = λ i bytes x e n f. none≢some e;
  }

  -- What a push has done to a queue that holds a store, wherever it has put the entry.
  pub record IsPlaced (s : Store) (q : BytesQueue M) (bytes : List ℕ) (i : ℕ) (q' : BytesQueue M)
      : Type 0 where
    pub linear : IsLinear M q'
    pub owned : IsOwned M q'.freelist
    pub counted : q'.count ≡ q.count + 1
    pub entry : IsEntry M q' i bytes
    pub fits : i + 4 + length bytes ≤ q'.tail
    pub tail_grows : q.tail ≤ q'.tail
    pub fewer : (x : ℕ) → IsFree M q'.freelist x → IsFree M q.freelist x
    pub taken : (x : ℕ) → IsFree M q'.freelist x → ¬ IsNew i (length bytes + 4) x
    pub aside :
        (j : ℕ) (other : List ℕ)
        → find_at s j ≡ some other
        → AreApart i (length bytes + 4) j (length other + 4)
    pub keeps : (j : ℕ) (other : List ℕ) → find_at s j ≡ some other → IsEntry M q' j other

  module _ (s : Store) (q : BytesQueue M) (h : IsHeld s q) where
    pub placed-new :
        (bytes : List ℕ) (i : ℕ) (q' : BytesQueue M) → IsPlaced s q bytes i q' → find_at s i ≡ none
    placed-new bytes i q' p = elim (Option-cases (find_at s i)) [
      | inl empty ↦ empty
      | inr (other, e) ↦
          absurd (elim (p.aside i other e) [ inl a ↦ omega arith | inr b ↦ omega arith ])
    ]

    pub placed-IsHeld :
        (bytes : List ℕ) (i : ℕ) (q' : BytesQueue M)
        → IsPlaced s q bytes i q'
        → IsHeld ((i, bytes) ∷ s) q'
    placed-IsHeld bytes i q' p = record {
      linear = p.linear;
      owned = p.owned;
      distinct = (placed-new bytes i q' p, h.distinct);
      counted = omega (arith, p.counted, h.counted);
      free_in = λ x f. let (a, b) = h.free_in x (p.fewer x f) in (a, omega (arith, p.tail_grows));
      entries = λ j b e. elim (found j b e) [
        | inl (at, same) ↦ subst₂ (IsEntry M q') at same p.entry
        | inr f ↦ p.keeps j b f
      ];
      ends = λ j b e. elim (found j b e) [
        | inl (at, same) ↦ omega (arith, p.fits, ap (length {A = ℕ}) same)
        | inr f ↦ omega (arith, h.ends j b f, p.tail_grows)
      ];
      apart = λ j k a b e f other. elim (found j a e) [
        | inl (at, same) ↦ elim (found k b f) [
          | inl (at', _) ↦ absurd (other (sym at ∙ at'))
          | inr f' ↦
              subst₂ (λ z w. AreApart z (length w + 4) k (length b + 4)) at same (p.aside k b f')
        ]
        | inr e' ↦ elim (found k b f) [
          | inl (at, same) ↦ elim (p.aside j a e') [
            | inl l ↦ inr (omega (arith, ap (length {A = ℕ}) same))
            | inr r ↦ inl (omega (arith, ap (length {A = ℕ}) same))
          ]
          | inr f' ↦ h.apart j k a b e' f' other
        ]
      ];
      unfree = λ j b x e n f. elim (found j b e) [
        | inl (at, same) ↦
            p.taken x f (subst₂ (λ z w. IsNew z (length w + 4) x) (sym at) (sym same) n)
        | inr e' ↦ h.unfree j b x e' n (p.fewer x f)
      ];
    }
      where
        found :
            (j : ℕ) (b : List ℕ)
            → find_at ((i, bytes) ∷ s) j ≡ some b
            → ((i ≡ j) × (bytes ≡ b)) ⊎ (find_at s j ≡ some b)
        found j b e = ground (arith)

    pub reused-IsPlaced :
        (bytes : List ℕ) (i : ℕ) (fl : FreeList M) (q' : BytesQueue M)
        → 0 < length bytes
        → IsTaken M q.freelist (length bytes + 4) (i, fl)
        → q'.freelist ≡ fl
        → IsReused M q bytes i q'
        → IsPlaced s q bytes i q'
    reused-IsPlaced bytes i fl q' long t same r =
        let (a, b) =
          h.free_in (i + length bytes + 3)
            (t.was_free (i + length bytes + 3) (omega arith, omega arith)) in
        let aside : (j : ℕ) (other : List ℕ)
            → find_at s j ≡ some other
            → AreApart i (length bytes + 4) j (length other + 4) =
          λ j other e.
            never_both (IsFree M q.freelist) i (length bytes + 4) j (length other + 4) (omega arith)
              (omega arith) t.was_free (λ x n. h.unfree j other x e n) in
        record {
          linear = r.linear h.linear;
          owned = subst (IsOwned M) (sym same) t.owned;
          counted = r.counted;
          entry = r.entry;
          fits = omega (arith, r.same_tail);
          tail_grows = omega (arith, r.same_tail);
          fewer = λ x f. t.fewer x (subst (λ l. IsFree M l x) same f);
          taken = λ x f. t.taken x (subst (λ l. IsFree M l x) same f);
          aside = aside;
          keeps = λ j other e.
              r.keeps j other
                (elim (aside j other e) [ inl l ↦ inl (omega arith) | inr l ↦ inr (omega arith) ])
                (h.entries j other e);
        }

    pub appended-IsPlaced :
        (bytes : List ℕ) (q' : BytesQueue M)
        → IsAppended M q bytes q'
        → IsPlaced s q bytes q.tail q'
    appended-IsPlaced bytes q' a = record {
      linear = a.linear;
      owned = subst (IsOwned M) (sym a.same_list) h.owned;
      counted = a.counted;
      entry = a.entry;
      fits = omega (arith, a.tail_past);
      tail_grows = omega (arith, a.tail_past);
      fewer = λ x f. subst (λ l. IsFree M l x) a.same_list f;
      taken = λ x f (b, c).
          let (d, e) = h.free_in x (subst (λ l. IsFree M l x) a.same_list f) in omega arith;
      aside = λ j other e. inr (omega (arith, h.ends j other e));
      keeps = λ j other e. a.keeps j other (h.ends j other e) (h.entries j other e);
    }

    -- The queue without the entry at `i`, whose block has become free.
    abbrev pub without : ℕ → List ℕ → BytesQueue M
    without i bytes = record q {
      freelist = FreeList.add M q.freelist i (length bytes + 4);
      count = q.count - 1;
    }

    stays :
        (i : ℕ) (bytes : List ℕ)
        → find_at s i ≡ some bytes
        → (j : ℕ) (b : List ℕ) → find_at (drop_at s i) j ≡ some b
        → (i ≢ j) × (find_at s j ≡ some b)
    stays i bytes e j b f =
        let both = sym (find_at-drop_at s i j h.distinct) ∙ f in
        elim (Bool-cases (i == j)) [
          | inl same ↦ absurd (none≢some (rw same at both))
          | inr other ↦ (==→ne i j other, rw other at both)
        ]

    pub dropped-IsHeld :
        (i : ℕ) (bytes : List ℕ) → find_at s i ≡ some bytes → IsHeld (drop_at s i) (without i bytes)
    dropped-IsHeld i bytes e =
        let (owned, frees, more) =
          add-IsOwned M q.freelist i (length bytes + 4) h.owned (omega arith)
            (λ x n. h.unfree i bytes x e n) in
        record {
          linear = record {
            head_left = h.linear.head_left;
            tail_pos = h.linear.tail_pos;
            margin = h.linear.margin;
            allocated = h.linear.allocated;
            tail_in = h.linear.tail_in;
          };
          owned = owned;
          distinct = drop_at-IsDistinct s i h.distinct;
          counted = omega (arith, h.counted, length-drop_at s i bytes e);
          free_in = λ x f. elim (more x f) [
            | inl g ↦ h.free_in x g
            | inr (a, b) ↦
                (omega (arith, (h.entries i bytes e).positive), omega (arith, h.ends i bytes e))
          ];
          entries = λ j b f. h.entries j b (stays i bytes e j b f).1;
          ends = λ j b f. h.ends j b (stays i bytes e j b f).1;
          apart = λ j k a b f g other.
              h.apart j k a b (stays i bytes e j a f).1 (stays i bytes e k b g).1 other;
          unfree = λ j b x f n free. elim (more x free) [
            | inl g ↦ h.unfree j b x (stays i bytes e j b f).1 n g
            | inr (c, d) ↦
                let (other, f') = stays i bytes e j b f in
                let (lo, hi) = n in
                elim (h.apart i j bytes b e f' other) [
                  | inl l ↦ absurd (omega arith)
                  | inr l ↦ absurd (omega arith)
                ]
          ];
        }

    -- A write into the bytes of the entry at `i` leaves the others, so that the queue without that entry holds the
    -- rest of the store.
    pub overwritten-IsHeld :
        (i : ℕ) (bytes : List ℕ) (off : ℕ) (w : List ℕ)
        → find_at s i ≡ some bytes
        → i + 4 ≤ off
        → off + length w ≤ i + 4 + length bytes
        → IsHeld (drop_at s i) (record (without i bytes) { array = write_at q.array off w })
    overwritten-IsHeld i bytes off w e lo hi = record {
      linear = record {
        head_left = h.linear.head_left;
        tail_pos = h.linear.tail_pos;
        margin = h.linear.margin;
        allocated = h.linear.allocated ∙ sym (length-write_at q.array off w);
        tail_in = h.linear.tail_in;
      };
      owned = d.owned;
      distinct = d.distinct;
      counted = d.counted;
      free_in = d.free_in;
      entries = λ j b f.
          let (other, f') = stays i bytes e j b f in
          write_at-IsEntryOf q.array off w j b
            (elim (h.apart i j bytes b e f' other) [
              | inl l ↦ inl (omega arith)
              | inr l ↦ inr (omega arith)
            ])
            (h.entries j b f');
      ends = d.ends;
      apart = d.apart;
      unfree = d.unfree;
    }
      where
        d : IsHeld (drop_at s i) (without i bytes)
        d = dropped-IsHeld i bytes e
