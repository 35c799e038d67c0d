-- ===== src/Examples/Times.antt =====
-- bigcache/ttl.go on small tables.
use clustered_big_cache.Prelude.{ℕ, List, [], ◌∷◌}
use clustered_big_cache.Containers.Dense.{dense}
use clustered_big_cache.Containers.Listed.{listed}
use clustered_big_cache.Ttl.{TtlManager, new_ttl_manager, put}
use clustered_big_cache.Ttl.Timer.{IsArmed}
use clustered_big_cache.Ttl.Eviction.{Call, run, timer_earliest}

abbrev a_key : List ℕ
a_key = 97 ∷ []

abbrev b_key : List ℕ
b_key = 98 ∷ []

abbrev started : TtlManager listed (dense listed.Set)
started = new_ttl_manager listed (dense listed.Set) 5

abbrev waiting : TtlManager listed (dense listed.Set)
waiting = put listed (dense listed.Set) started 9 a_key 5

abbrev calls : List (Call listed (dense listed.Set))
calls = Call.puts 12 b_key 5 ∷ Call.puts 9 a_key 6 ∷ Call.removes 12 b_key 7 ∷ Call.fires 9 ∷ []

timer_earliest_example :
    IsArmed listed
      (dense listed.Set)
      (run listed (dense listed.Set) (new_ttl_manager listed (dense listed.Set) 5) calls)
timer_earliest_example = timer_earliest listed (dense listed.Set) 5 calls
