-- ===== src/Cluster/Peers/Joining.antt =====
-- The loops of `join` in Cluster/remoteNode.go and of `listen` in Cluster/clusteredBigCache.go.
use clustered_big_cache.Prelude.{
  ℕ, zero, suc, ◌+◌, ◌≡◌, refl, Bool, true, false, ◌&&◌, not, if◌then◌else◌, List, ◌∷◌, ◌++◌, arith,
  replicate,
}
use clustered_big_cache.Prelude.Int.{ℤ, pos, negsuc, ltb_ℤ, leb_ℤ}
use clustered_big_cache.Prelude.Outcome.{ok}
use clustered_big_cache.Cluster.Peers.{join_loop}

-- Whether `failures` failed tries use up the retries.
abbrev pub is_used_up : (connect_retries : ℤ) (failures : ℕ) → Bool
is_used_up connect_retries failures =
    ltb_ℤ (pos 0) connect_retries && leb_ℤ connect_retries (pos failures)

join_step :
    (attempts : List Bool) (c : ℤ) (tries : ℕ)
    → join_loop (false ∷ attempts) c tries ≡ (
        if ltb_ℤ (pos 0) c
        then (if leb_ℤ c (pos (tries + 1)) then ok false else join_loop attempts c (tries + 1))
        else join_loop attempts c tries)
unfolding join_loop
join_step attempts c tries = refl

-- The loop of `join` where the first `failures` tries fail and the next one succeeds: it ends with no
-- connection exactly where there is a limit of the retries and the failures reach it, and connected
-- otherwise.
pub join_loop_lem :
    (failures tries : ℕ) (attempts : List Bool) (connect_retries : ℤ)
    → is_used_up connect_retries tries ≡ false
    → join_loop (replicate failures false ++ (true ∷ attempts)) connect_retries tries
      ≡ ok (not (is_used_up connect_retries (tries + failures)))
unfolding join_loop
join_loop_lem zero tries attempts c h = ground arith
join_loop_lem (suc failures) tries attempts (negsuc k) h =
    ground (arith, join_loop_lem failures tries attempts (negsuc k))
join_loop_lem (suc failures) tries attempts (pos k) h = ground (
  arith,
  join_loop_lem failures (tries + 1) attempts (pos k),
  join_loop_lem failures tries attempts (pos k),
)
