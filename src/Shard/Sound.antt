-- ===== src/Shard/Sound.antt =====
-- A shard that holds cells: its map leads from each hash to the entry of its cell in the queue.
use clustered_big_cache.Prelude.{
  ℕ, ◌^◌, ◌<◌, ◌≡◌, ◌≢◌, refl, sym, ◌∙◌, subst, inl, inr, List, [], ◌∷◌, Option, some, none, length,
  ◌==◌, if◌then◌else◌, ==_self, ==→eq, ==→ne, ne→==, Bool-cases, none≢some, some_injective, false,
  subst₂, ◌⊎◌,
}
use clustered_big_cache.Prelude.Assoc.{lookup, insert, erase, lookup-insert, lookup-erase}
use clustered_big_cache.Encoding.Layout.{layout}
use clustered_big_cache.Queue.Store.{Store, find_at, drop_at, IsDistinct, find_at-drop_at}

-- What a shard keeps under a hash.
pub record Cell : Type 0 where
  pub timestamp : ℕ
  pub key : List ℕ
  pub entry : List ℕ

abbrev pub Cells : Type 0
Cells = ℕ → Option Cell

abbrev pub no_cells : Cells
no_cells hash = none

abbrev pub with_cell : Cells → ℕ → Cell → Cells
with_cell cells hash cell g = if hash == g then some cell else cells g

abbrev pub without_cell : Cells → ℕ → Cells
without_cell cells hash g = if hash == g then none else cells g

-- The bytes of a cell under its hash.
abbrev pub bytes_of : ℕ → Cell → List ℕ
bytes_of hash cell = layout cell.timestamp hash cell.key cell.entry

pub record IsCellAt (st : Store) (place hash : ℕ) (cell : Cell) : Type 0 where
  pub stored : find_at st place ≡ some (bytes_of hash cell)
  pub short : length cell.key < 65518
  pub dated : cell.timestamp < 2 ^ 64

pub record IsMapped (cells : Cells) (st : Store) (m : List (ℕ × ℕ)) : Type 0 where
  pub absent : (hash : ℕ) → cells hash ≡ none → lookup m hash ≡ 0
  pub present :
      (hash : ℕ) (cell : Cell) → cells hash ≡ some cell → IsCellAt st (lookup m hash) hash cell
  pub separate :
      (hash other : ℕ) (cell cell' : Cell)
      → cells hash ≡ some cell
      → cells other ≡ some cell'
      → hash ≢ other
      → lookup m hash ≢ lookup m other

pub nothing-IsMapped : IsMapped no_cells [] []
nothing-IsMapped = record {
  absent = λ hash e. refl;
  present = λ hash cell e. absurd (none≢some e);
  separate = λ hash other cell cell' e. absurd (none≢some e);
}

module _ (cells : Cells) (st : Store) (m : List (ℕ × ℕ)) (hash : ℕ) (h : IsMapped cells st m) where
  -- Of the cells but that of `hash`.
  kept :
      (g : ℕ) (cell : Cell)
      → without_cell cells hash g ≡ some cell
      → (hash ≢ g) × (cells g ≡ some cell) × (lookup (erase m hash) g ≡ lookup m g)
  kept g cell e = elim (Bool-cases (hash == g)) [
    | inl same ↦ absurd (none≢some (rw same at e))
    | inr other ↦ (==→ne hash g other, rw other at e, lookup-erase m hash g ∙ rw other refl)
  ]

  erased-absent : (g : ℕ) → without_cell cells hash g ≡ none → lookup (erase m hash) g ≡ 0
  erased-absent g e = elim (Bool-cases (hash == g)) [
    | inl same ↦ lookup-erase m hash g ∙ rw same refl
    | inr other ↦ lookup-erase m hash g ∙ rw other (h.absent g (rw other at e))
  ]

  erased-separate :
      (g k : ℕ) (cell cell' : Cell)
      → without_cell cells hash g ≡ some cell
      → without_cell cells hash k ≡ some cell'
      → g ≢ k
      → lookup (erase m hash) g ≢ lookup (erase m hash) k
  erased-separate g k cell cell' e f other same =
      let (_, e', at_g) = kept g cell e in
      let (_, f', at_k) = kept k cell' f in
      h.separate g k cell cell' e' f' other (sym at_g ∙ same ∙ at_k)

  -- Where there is no cell under the hash, nothing has to go.
  pub unmapped-IsMapped : cells hash ≡ none → IsMapped (without_cell cells hash) st (erase m hash)
  unmapped-IsMapped nothing = record {
    absent = erased-absent;
    present = λ g cell e.
        let (_, e', at_g) = kept g cell e in
        subst (λ p. IsCellAt st p g cell) (sym at_g) (h.present g cell e');
    separate = erased-separate;
  }

  pub erased-IsMapped :
      (cell : Cell)
      → IsDistinct st
      → cells hash ≡ some cell
      → IsMapped (without_cell cells hash) (drop_at st (lookup m hash)) (erase m hash)
  erased-IsMapped gone u there = record {
    absent = erased-absent;
    present = λ g cell e.
        let (other, e', at_g) = kept g cell e in
        let c = h.present g cell e' in
        subst (λ p. IsCellAt (drop_at st (lookup m hash)) p g cell) (sym at_g)
          (record {
            stored =
                find_at-drop_at st (lookup m hash) (lookup m g) u
                ∙ rw
                    (ne→== (lookup m hash) (lookup m g)
                      (h.separate hash g gone cell there e' other))
                    c.stored;
            short = c.short;
            dated = c.dated;
          });
    separate = erased-separate;
  }

insert_beside :
    (m : List (ℕ × ℕ)) (hash place g : ℕ)
    → (hash == g) ≡ false
    → lookup (insert m hash place) g ≡ lookup (erase m hash) g
insert_beside m hash place g other = rw (lookup-insert m hash place g, lookup-erase m hash g, other)

module _ (cells : Cells) (st : Store) (m : List (ℕ × ℕ)) (hash place : ℕ) (cell : Cell)
    (h : IsMapped (without_cell cells hash) st (erase m hash)) (new : find_at st place ≡ none)
    (short : length cell.key < 65518) (dated : cell.timestamp < 2 ^ 64) where
  abbrev larger : Store
  larger = (place, bytes_of hash cell) ∷ st

  -- The cell under a hash after the insertion, and where it stands.
  found :
      (g : ℕ) (c : Cell)
      → with_cell cells hash cell g ≡ some c
      → ((hash ≡ g) × (cell ≡ c) × (lookup (insert m hash place) g ≡ place))
        ⊎ ((hash ≢ g)
            × (without_cell cells hash g ≡ some c)
            × (lookup (insert m hash place) g ≡ lookup (erase m hash) g))
  found g c e = elim (Bool-cases (hash == g)) [
    | inl same ↦ inl (
      ==→eq hash g same,
      some_injective (rw same at e),
      lookup-insert m hash place g ∙ rw same refl,
    )
    | inr other ↦
        inr (==→ne hash g other, rw other (rw other at e), insert_beside m hash place g other)
  ]

  -- No other cell stands at the new place.
  elsewhere :
      (g : ℕ) (c : Cell) → without_cell cells hash g ≡ some c → lookup (erase m hash) g ≢ place
  elsewhere g c e at =
      none≢some
        (sym new ∙ subst (λ p. find_at st p ≡ some (bytes_of g c)) at (h.present g c e).stored)

  pub inserted-IsMapped : IsMapped (with_cell cells hash cell) larger (insert m hash place)
  inserted-IsMapped = record {
    absent = λ g e. elim (Bool-cases (hash == g)) [
      | inl same ↦ absurd (none≢some (sym (rw same at e)))
      | inr other ↦
          lookup-insert m hash place g
          ∙ rw other
              (sym (lookup-erase m hash g ∙ rw other refl) ∙ h.absent g (rw other (rw other at e)))
    ];
    present = λ g c e. elim (found g c e) [
      | inl (at, same, there) ↦
          subst (λ p. IsCellAt larger p g c) (sym there)
            (subst₂ (λ z w. IsCellAt larger place z w) at same
              (record { stored = rw ==_self refl; short = short; dated = dated }))
      | inr (_, e', there) ↦
          let c' = h.present g c e' in
          subst (λ p. IsCellAt larger p g c) (sym there)
            (record {
              stored =
                  rw (ne→== place (lookup (erase m hash) g) (λ z. elsewhere g c e' (sym z)))
                    c'.stored;
              short = c'.short;
              dated = c'.dated;
            })
    ];
    separate = λ g k a b e f other same. elim (found g a e) [
      | inl (at, _, there) ↦ elim (found k b f) [
        | inl (at', _, _) ↦ other (sym at ∙ at')
        | inr (_, f', there') ↦ elsewhere k b f' (sym there' ∙ sym same ∙ there)
      ]
      | inr (_, e', there) ↦ elim (found k b f) [
        | inl (_, _, there') ↦ elsewhere g a e' (sym there ∙ same ∙ there')
        | inr (_, f', there') ↦ h.separate g k a b e' f' other (sym there ∙ same ∙ there')
      ]
    ];
  }
