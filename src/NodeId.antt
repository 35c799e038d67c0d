-- ===== src/NodeId.antt =====
-- utils/utils.go: `GenerateNodeId`, over the numbers that the random source gives, each of 63 bits.
use clustered_big_cache.Prelude.{
  ℕ, zero, suc, ◌+◌, ◌-◌, ◌*◌, ◌/◌, ◌%◌, ◌<◌, ◌≡◌, subst, subst₂, inl, inr, refl, Bool, true, List,
  [], ◌∷◌, ltb, ltb→lt, leb, if◌then◌else◌, length, arith, All, Bool-cases, ◌&&◌, ◌||◌,
}
use clustered_big_cache.Prelude.Outcome.{Outcome, ok, blocked, ok-injective}

-- `letterIdxBits`, `letterIdxMask` + 1 and `letterIdxMax`
abbrev letter_idx_size : ℕ
letter_idx_size = 64

abbrev letter_idx_max : ℕ
letter_idx_max = 10

-- `letterBytes[idx]`: the small letters, then the large ones.
abbrev letter : ℕ → ℕ
letter idx = if ltb idx 26 then 97 + idx else 65 + (idx - 26)

-- The loop: `left` bytes are still to be written, from the end on. The fuel bounds the rounds; where the
-- source gives no more numbers, the loop has not ended.
unfoldable pub generate_loop :
    (fuel : ℕ) → (left cache remain : ℕ) → (source written : List ℕ) → Outcome (List ℕ)
generate_loop fuel zero cache remain source written = ok written
generate_loop zero (suc left) cache remain source written = blocked
generate_loop (suc fuel) (suc left) cache (suc remain) source written =
    let idx = cache % letter_idx_size in
    if ltb idx 52
    then generate_loop fuel left (cache / letter_idx_size) remain source (letter idx ∷ written)
    else generate_loop fuel (suc left) (cache / letter_idx_size) remain source written
generate_loop (suc fuel) (suc left) cache zero [] written = blocked
generate_loop (suc fuel) (suc left) cache zero (number ∷ source) written =
    let idx = number % letter_idx_size in
    if ltb idx 52
    then generate_loop fuel left (number / letter_idx_size) (letter_idx_max - 1) source
        (letter idx ∷ written)
    else generate_loop fuel (suc left) (number / letter_idx_size) (letter_idx_max - 1) source
        written

-- `GenerateNodeId`. A number is drawn first. Ten rounds for each number are all that there can be.
unfoldable pub generate_node_id : (n : ℕ) → (source : List ℕ) → Outcome (List ℕ)
generate_node_id n [] = blocked
generate_node_id n (number ∷ source) =
    generate_loop (letter_idx_max * length (number ∷ source)) n number letter_idx_max source []

abbrev pub is_letter : ℕ → Bool
is_letter b = (leb 97 b && leb b 122) || (leb 65 b && leb b 90)

letter-is_letter : (idx : ℕ) → idx < 52 → is_letter (letter idx) ≡ true
letter-is_letter idx h = ground arith

-- An id of the given length, of letters only.
pub record IsNodeId (n : ℕ) (id : List ℕ) : Type 0 where
  pub size : length id ≡ n
  pub letters : All (λ b. is_letter b ≡ true) id

-- One more letter.
longer-IsNodeId :
    (left : ℕ) (b : ℕ) (written id : List ℕ)
    → IsNodeId (left + length (b ∷ written)) id
    → IsNodeId (suc left + length written) id
longer-IsNodeId left b written id h =
    let same : left + suc (length written) ≡ suc left + length written = omega arith in
    subst (λ n. IsNodeId n id) same h

generate_loop-IsNodeId :
    (fuel left cache remain : ℕ) (source written id : List ℕ)
    → All (λ b. is_letter b ≡ true) written
    → generate_loop fuel left cache remain source written ≡ ok id
    → IsNodeId (left + length written) id
unfolding generate_loop
generate_loop-IsNodeId fuel zero cache remain source written id a e =
    let same : length written ≡ 0 + length written = omega arith in
    subst₂ IsNodeId same (ok-injective e) (record { size = refl; letters = a })
generate_loop-IsNodeId zero (suc left) cache remain source written id a e = absurd (ground arith)
generate_loop-IsNodeId (suc fuel) (suc left) cache (suc remain) source written id a e =
    let idx = cache % letter_idx_size in
    elim (Bool-cases (ltb idx 52)) [
      | inl h ↦ longer-IsNodeId left (letter idx) written id (
          generate_loop-IsNodeId fuel left (cache / letter_idx_size) remain source
            (letter idx ∷ written) id (letter-is_letter idx (ltb→lt idx 52 h), a) (ground arith))
      | inr h ↦
          generate_loop-IsNodeId fuel (suc left) (cache / letter_idx_size) remain source written id
            a (ground arith)
    ]
generate_loop-IsNodeId (suc fuel) (suc left) cache zero [] written id a e = absurd (ground arith)
generate_loop-IsNodeId (suc fuel) (suc left) cache zero (number ∷ source) written id a e =
    let idx = number % letter_idx_size in
    elim (Bool-cases (ltb idx 52)) [
      | inl h ↦ longer-IsNodeId left (letter idx) written id (
          generate_loop-IsNodeId fuel left (number / letter_idx_size) (letter_idx_max - 1) source
            (letter idx ∷ written) id (letter-is_letter idx (ltb→lt idx 52 h), a) (ground arith))
      | inr h ↦
          generate_loop-IsNodeId fuel (suc left) (number / letter_idx_size) (letter_idx_max - 1)
            source written id a (ground arith)
    ]

-- What `GenerateNodeId` answers has the length that was asked for, and letters only.
pub generate_node_id-IsNodeId :
    (n : ℕ) (source id : List ℕ) → generate_node_id n source ≡ ok id → IsNodeId n id
unfolding generate_node_id
generate_node_id-IsNodeId n [] id e = absurd (ground arith)
generate_node_id-IsNodeId n (number ∷ source) id e =
    let same : n + 0 ≡ n = omega arith in
    subst (λ k. IsNodeId k id) same
      (generate_loop-IsNodeId (letter_idx_max * length (number ∷ source)) n number letter_idx_max
        source [] id tt e)
