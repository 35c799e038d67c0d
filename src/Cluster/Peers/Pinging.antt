-- ===== src/Cluster/Peers/Pinging.antt =====
-- The ping and pong timers of Cluster/remoteNode.go over the seconds that pass, where no pong comes.
use clustered_big_cache.Prelude.{
  ℕ, zero, suc, ◌+◌, ◌-◌, ◌*◌, ◌≡◌, ◌≤◌, Bool, true, false, [], ◌∷◌, ◌++◌, length, if◌then◌else◌,
  ◌==◌,
}
use clustered_big_cache.Prelude.Int.{pos, pos_part, leb_ℤ}
use clustered_big_cache.Prelude.Outcome.{Outcome, ok, ◌>>=◌}
use clustered_big_cache.Message.{ping}
use clustered_big_cache.Cluster.{RemoteNode, chan_size}
use clustered_big_cache.Cluster.Peers.{is_disconnected, on_tick, on_ping_timeout}

-- The seconds until the ticker fires, and until the pong timer does, 0 where it is stopped.
pub record Clock : Type 0 where
  pub to_tick : ℕ
  pub to_timeout : ℕ

abbrev pub interval : RemoteNode → ℕ
interval v = pos_part v.config.ping_interval

abbrev pub timeout : RemoteNode → ℕ
timeout v = pos_part v.config.ping_timeout

-- The clock of a remote node as `start` sets the two timers, and as each tick does.
abbrev pub wound : RemoteNode → Clock
wound v = record { to_tick = interval v; to_timeout = timeout v }

-- One second of the two goroutines. A tick sets the pong timer anew; the pong timer fires once. The flag says that
-- the goroutine of the pong timer has ended, with a fault.
unfoldable pub second : Clock → RemoteNode → Outcome (Bool × Clock × RemoteNode)
second k v =
    if k.to_tick == 1
    then (on_tick v >>= λ v'. ok (false, wound v', v'))
    else if k.to_timeout == 1
    then (let (fault, v') = on_ping_timeout v in
        ok (fault, record { to_tick = k.to_tick - 1; to_timeout = 0 }, v'))
    else ok (false, record { to_tick = k.to_tick - 1; to_timeout = k.to_timeout - 1 }, v)

unfoldable pub seconds : ℕ → Clock → RemoteNode → Outcome (Bool × Clock × RemoteNode)
seconds zero k v = ok (false, k, v)
seconds (suc count) k v =
    second k v >>= λ p. if p.0 then ok (true, p.1, p.2) else seconds count p.1 p.2

-- A remote node that is up and takes as many messages more.
pub record TakesPings (v : RemoteNode) (count : ℕ) : Type 0 where
  pub is_up : is_disconnected v.receiver.state ≡ false
  pub is_open : v.closed ≡ false
  pub room : length v.outbound + count ≤ chan_size

abbrev ticked : RemoteNode → RemoteNode
ticked v =
    let m = v.metrics in
    record v {
      metrics = record m { ping_sent = m.ping_sent + 1 };
      ping_timeout = true;
      outbound = v.outbound ++ (ping ∷ []);
    }

abbrev fired : RemoteNode → RemoteNode
fired v = record v { ping_timeout = false; ping_failure = v.ping_failure + 1 }

abbrev at_threshold : RemoteNode → Bool
at_threshold v = leb_ℤ v.config.ping_failure_thresh_hold (pos (v.ping_failure + 1))

-- The remote node after as many rounds, each a failure and then a tick.
rounds_of : ℕ → RemoteNode → RemoteNode
rounds_of zero v = v
rounds_of (suc count) v = rounds_of count (ticked (fired v))

-- The second in which the fault comes, with `pings` ticks before it.
abbrev pub fault_at : ℕ → RemoteNode → ℕ
fault_at pings v = pings * interval v + timeout v
