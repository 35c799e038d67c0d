-- ===== src/Config/Sizes.antt =====
-- The sizes of bigcache/config.go against what they are for.
use clustered_big_cache.Prelude.{
  ℕ, ◌*◌, ◌/◌, ◌^◌, ◌≤◌, ◌<◌, ◌≡◌, ◌↔◌, ◌⊎◌, inl, inr, refl, ◌+◌, true, false, arith, ltb, lt→ltb,
  ltb→le, subst, if◌then◌else◌, ==→eq, ne→==, ◌-◌, Bool-cases,
}
use clustered_big_cache.Prelude.Outcome.{ok}
use clustered_big_cache.Prelude.Bits.{bit_and_pred, bit_and-power}
use clustered_big_cache.Config.{
  Config, max, is_power_of_two, initial_shard_size, maximum_shard_size, convert_mb_to_bytes,
}
use Prim.Native.Nat.{bit_and}
use native.Mathlib.Omega.{div_any}
use native.Mathlib.Nat.{lt-mul-div-succ, div-eq_of_lt, mul-le-mul_left}

-- `isPowerOfTwo` accepts the powers of two, and 0, and nothing else.
pub is_power_of_two_iff :
    (number : ℕ) → (is_power_of_two number ≡ true) ↔ ((number ≡ 0) ⊎ ((k : ℕ) × (number ≡ 2 ^ k)))
unfolding is_power_of_two
is_power_of_two_iff number = (
  λ h. bit_and_pred number (==→eq (bit_and number (number - 1)) 0 h),
  λ h. elim h [ inl e ↦ rw e | inr (k, e) ↦ rw (e, bit_and-power k) ],
)

-- The two sizes of a configuration, with their bounds. A `maximum` of 0 is no limit.
pub record AreSized (c : Config) : Type 0 where
  pub initial : ℕ
  pub maximum : ℕ
  pub initial_is : initial_shard_size c ≡ ok initial
  pub maximum_is : maximum_shard_size c ≡ ok maximum
  pub at_least_ten : 10 ≤ initial
  pub at_least_share : c.max_entries_in_window < c.shards * (initial + 1)
  pub at_most_share : (initial ≡ 10) ⊎ (c.shards * initial ≤ c.max_entries_in_window)
  pub no_limit : c.hard_max_cache_size ≡ 0 → maximum ≡ 0
  pub within_limit : c.shards * maximum ≤ c.hard_max_cache_size * 1048576
  pub whole_limit :
      0 < c.hard_max_cache_size → c.hard_max_cache_size * 1048576 < c.shards * (maximum + 1)
  pub limit_lost : c.hard_max_cache_size * 1048576 < c.shards → maximum ≡ 0

ten_shares :
    (c : Config)
    → c.max_entries_in_window < c.shards * (c.max_entries_in_window / c.shards + 1)
    → ltb 10 (c.max_entries_in_window / c.shards) ≡ false
    → c.max_entries_in_window < c.shards * 11
ten_shares c less small =
    let few : c.max_entries_in_window / c.shards + 1 ≤ 11 =
      omega (arith, ltb→le 10 (c.max_entries_in_window / c.shards) small) in
    let more : c.shards * (c.max_entries_in_window / c.shards + 1) ≤ c.shards * 11 =
      mul-le-mul_left c.shards few in
    omega arith

-- With at least one shard both sizes are found. The initial size is 10 where a shard's share of the entries in the
-- window is less than that, and otherwise this share, cut to a whole number. Without a limit of the cache the maximum
-- is 0, which means none. With a limit of some MB the maximum is the shard's share of its bytes, cut to a whole
-- number: the maxima together are within the limit, and one byte more for each shard would not be. Where the limit
-- has fewer bytes than there are shards, the maximum is 0, and so the limit is lost.
pub sizes_lem : (c : Config) → 0 < c.shards → AreSized c
unfolding initial_shard_size maximum_shard_size convert_mb_to_bytes max
sizes_lem c h =
    let share = div_any c.max_entries_in_window c.shards in
    let bytes = div_any (c.hard_max_cache_size * 1024 * 1024) c.shards in
    record {
      initial = max (c.max_entries_in_window / c.shards) 10;
      maximum =
          if ltb 0 c.hard_max_cache_size then c.hard_max_cache_size * 1024 * 1024 / c.shards else 0;
      initial_is = rw (ne→== c.shards 0 (λ e. omega arith)) refl;
      maximum_is = elim (Bool-cases (ltb 0 c.hard_max_cache_size)) [
        | inl e ↦ rw (e, ne→== c.shards 0 (λ z. omega arith)) refl
        | inr e ↦ rw e refl
      ];
      at_least_ten = ground arith;
      at_least_share = elim (Bool-cases (ltb 10 (c.max_entries_in_window / c.shards))) [
        | inl large ↦ rw large (lt-mul-div-succ c.max_entries_in_window h)
        | inr small ↦ rw small (ten_shares c (lt-mul-div-succ c.max_entries_in_window h) small)
      ];
      at_most_share = elim (Bool-cases (ltb 10 (c.max_entries_in_window / c.shards))) [
        | inl large ↦ rw large (inr (omega arith))
        | inr small ↦ rw small (inl refl)
      ];
      no_limit = λ e. ground arith;
      within_limit = ground (arith, div_any (c.hard_max_cache_size * 1024 * 1024) c.shards);
      whole_limit = λ e. rw (lt→ltb 0 c.hard_max_cache_size e) (
          subst (λ n. n < c.shards * (c.hard_max_cache_size * 1024 * 1024 / c.shards + 1))
            (omega arith) (lt-mul-div-succ (c.hard_max_cache_size * 1024 * 1024) h));
      limit_lost = λ e. elim (Bool-cases (ltb 0 c.hard_max_cache_size)) [
        | inl some_limit ↦ rw some_limit (div-eq_of_lt (subst (λ n. n < c.shards) (omega arith) e))
        | inr none_set ↦ rw none_set refl
      ];
    }
