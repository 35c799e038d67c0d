-- ===== src/Cluster/Handlers/Expiry.antt =====
-- The expiry of a replica: `handlePut` of Cluster/remoteNode.go, and `Set` behind it.
-- The law of `uint64(d.Seconds())` that is used: a duration from 0 to 104 days, for which the conversions
-- through a float are exact enough, gives its whole seconds.
use clustered_big_cache.Prelude.{
  ℕ, ◌+◌, ◌-◌, ◌*◌, ◌/◌, ◌%◌, ◌^◌, ◌<◌, ◌≤◌, ◌≡◌, ◌≢◌, ◌==◌, if◌then◌else◌, arith, lt→leb, ne→==,
  le→leb,
}
use clustered_big_cache.Prelude.Int.{pos}
use clustered_big_cache.Shard.{Deps, expiry_timestamp}
use clustered_big_cache.Cluster.Handlers.{time_until, put_duration}

whole_seconds :
    (e n : ℕ)
    → n ≤ e * 1000000000
    → n / 1000000000 + (e * 1000000000 - n) / 1000000000
      ≡ (if n % 1000000000 == 0 then e else e - 1)
whole_seconds e n h = ground arith

module _ (D : Deps) where
  abbrev pub CountsSeconds : Type 0
  CountsSeconds = (d : ℕ) → d < 2 ^ 53 → D.seconds (pos d) ≡ d / 1000000000

  -- The difference, where it fits.
  time_until_later :
      (expiry now_ns : ℕ)
      → now_ns ≤ expiry * 1000000000
      → expiry * 1000000000 < now_ns + 2 ^ 63
      → time_until expiry now_ns ≡ pos (expiry * 1000000000 - now_ns)
  unfolding time_until
  time_until_later expiry now_ns h k = rw (
    lt→leb (now_ns + 2 ^ 63) (expiry * 1000000000) k,
    lt→leb (expiry * 1000000000 + 2 ^ 63) now_ns (omega arith),
    le→leb now_ns (expiry * 1000000000) h,
  )

  -- A replica keeps the expiry of a put exactly where it handles the message at a whole second before the
  -- expiry; between two seconds its entry expires one second earlier, and at the very second of the
  -- expiry its entry never expires. The expiry is below 2 ^ 64 seconds and less than 104 days, 2 ^ 53 nanoseconds, away.
  pub replica_timestamp :
      CountsSeconds
      → (expiry now_ns : ℕ) → expiry ≢ 0
      → expiry < 2 ^ 64
      → now_ns ≤ expiry * 1000000000
      → expiry * 1000000000 < now_ns + 2 ^ 53
      → expiry_timestamp D (put_duration expiry now_ns) (now_ns / 1000000000) ≡ (
          if expiry * 1000000000 == now_ns
          then 0
          else if now_ns % 1000000000 == 0
          then expiry
          else expiry - 1)
  replica_timestamp count expiry now_ns e w h k =
      let later = time_until_later expiry now_ns h (omega arith) in
      rw (ne→== expiry 0 e, later)
        (ground (
          arith,
          count (expiry * 1000000000 - now_ns) (omega arith),
          whole_seconds expiry now_ns h,
        ))
