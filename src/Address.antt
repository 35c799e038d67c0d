-- ===== src/Address.antt =====
-- net.SplitHostPort, net.JoinHostPort and strconv.Itoa, as Cluster/remoteNode.go uses them. A string is the
-- list of its bytes: 58 is a colon, 91 and 93 are the brackets, and 48 is the digit 0.
use clustered_big_cache.Prelude.{
  ℕ, zero, suc, ◌+◌, ◌/◌, ◌%◌, Bool, true, false, List, [], ◌∷◌, ◌++◌, Option, none, some, ◌==◌,
  ltb, if◌then◌else◌, take, drop,
}

-- `strings.IndexByte` and `strings.LastIndexByte`, from a place on.
abbrev pub index_byte : List ℕ → (b from : ℕ) → Option ℕ
index_byte [] b from = none
index_byte (x ∷ xs) b from =
    let rest = index_byte xs b (from + 1) in if x == b then some from else rest

abbrev pub last_index_byte : List ℕ → (b from : ℕ) → Option ℕ
last_index_byte [] b from = none
last_index_byte (x ∷ xs) b from = elim (last_index_byte xs b (from + 1)) [
  | some i ↦ some i
  | none ↦ if x == b then some from else none
]

abbrev pub has_byte : List ℕ → ℕ → Bool
has_byte xs b = elim (index_byte xs b 0) [ some i ↦ true | none ↦ false ]

-- The host of an address whose last colon is at `i`, and the rest in which no bracket may be.
abbrev pub bracketed_host : List ℕ → (i : ℕ) → List ℕ
bracketed_host address i = elim (index_byte address 93 0) [
  | none ↦ []
  | some last ↦
      if last + 1 == i
      then (if has_byte (drop 1 address) 91
          then []
          else if has_byte (drop (last + 1) address) 93
          then []
          else drop 1 (take last address))
      else []
]

abbrev pub plain_host : List ℕ → (i : ℕ) → List ℕ
plain_host address i =
    if has_byte (take i address) 58
    then []
    else if has_byte address 91
    then []
    else if has_byte address 93
    then []
    else take i address

-- The host of `SplitHostPort`; it is empty where the call fails.
unfoldable pub split_host : List ℕ → List ℕ
split_host [] = []
split_host (b ∷ address) = elim (last_index_byte (b ∷ address) 58 0) [
  | none ↦ []
  | some i ↦ if b == 91 then bracketed_host (b ∷ address) i else plain_host (b ∷ address) i
]

-- `JoinHostPort`
unfoldable pub join_host_port : (host port : List ℕ) → List ℕ
join_host_port host port =
    if has_byte host 58
    then (91 ∷ []) ++ (host ++ ((93 ∷ 58 ∷ []) ++ port))
    else host ++ ((58 ∷ []) ++ port)

-- The decimal digits of a number in front of those that are there. The fuel bounds their count.
abbrev pub digits : (fuel n : ℕ) → List ℕ → List ℕ
digits zero n rest = rest
digits (suc fuel) n rest =
    let more = digits fuel (n / 10) ((48 + n % 10) ∷ rest) in
    if ltb n 10 then (48 + n) ∷ rest else more

-- `strconv.Itoa` of a number that is not negative; its 20 digits hold 2 ^ 64.
unfoldable pub itoa : ℕ → List ℕ
itoa n = digits 20 n []
