-- ===== src/Cluster/Handlers/Storing.antt =====
-- A put and a get that come from another node: `handlePut`, `handleGetRequest` and `handleGetResponse` of
-- Cluster/remoteNode.go.
use clustered_big_cache.Prelude.{ℕ, ◌/◌}
use clustered_big_cache.Prelude.Outcome.{Outcome}
use clustered_big_cache.Shard.{Deps}
use clustered_big_cache.BigCache
use clustered_big_cache.BigCache.{BigCache}
use clustered_big_cache.Shard.Sound.{Cell}
use clustered_big_cache.Shard.Calls.{new_cell}
use clustered_big_cache.Message.{PutMessage}
use clustered_big_cache.Cluster.Handlers.{put_duration}

module _ (D : Deps) where
  -- The cell that a put message asks for.
  abbrev pub put_cell : PutMessage → (now_ns : ℕ) → Cell
  put_cell pm now_ns =
      new_cell D pm.key (D.sum64 pm.key) pm.bytes (put_duration pm.expiry now_ns)
        (now_ns / 1000000000)
