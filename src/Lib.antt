-- ===== src/Lib.antt =====
-- Verification library of clusteredBigCache, a cache of byte strings that several nodes share.
--
-- The program's parts. A cache (bigcache/bigcache.go) routes a key by its hash (bigcache/fnv.go) to one of
-- its shards (bigcache/shard.go). A shard maps hashes to places in a queue of entries
-- (bigcache/queue/bytes_queue.go), which writes an entry, in the format of bigcache/encoding.go, behind the
-- last one or into a block of its free list (bigcache/queue/freeList.go). A table of expiries
-- (bigcache/ttl.go) calls back into the shard when a timer fires. An iterator (bigcache/iterator.go) walks
-- over the shards. A node (Cluster/clusteredBigCache.go) holds a cache and a remote node
-- (Cluster/remoteNode.go) for each connection to another node, kept by id in a counting map
-- (utils/sliceList.go). The nodes exchange messages (message/*.go) as frames over connections
-- (comms/connection.go): they introduce themselves, ping one another, replicate what is put or deleted, and
-- ask one another for data.
--
-- The files.
--   Prelude     shared names, tests on numbers, list lemmas, `Outcome` for what a call ends in
--   Bytes       encoding/binary and copy on slices
--   Containers  the containers of github.com/emirpasic/gods as records of operations and laws, with an
--               instance of each
--   Encoding    wrapEntry and the readers
--   FreeList    newFreeList, add, find and the parts of these; Classes, Found, Buckets, Search, Merge, and
--               for the blocks as a whole Tiling, Counts, Owned, Merging, Adding, Taking
--   Queue       NewBytesQueue, Push, Pop, Peek, Get, Delete, Reset; Entries, Linear, Grow, Append, Reuse;
--               Store is its promise, with Keeping and Refining
--   Ttl         put, remove, reset, the timer and eviction; Table, Timer, Eviction
--   Shard       get, set, del, evictDel, onEvict, reset, len, copyKeys, initNewShard; Lookup, Storing,
--               Removal, Counters, Full, Dropping;
--               Sound is what it promises, with Holding, Calls and Refining
--   Config      Config, the sizes, isPowerOfTwo
--   Fnv         Sum64
--   BigCache    newBigCache, getShard, Get, Set (`set_key`), Delete, Reset, Len, Stats; Routing, Keeping,
--               Totals, Kept
--   Iterator    newIterator, SetNext, Value (`value_at`); Walk
--   Message     the messages, Serialize and DeSerialize; RoundTrip; Text, the strings that are UTF-8
--   Comms       SendData, ReadData; Sending
--   Wire        the frames of networkSender and networkConsumer, queueInboundMessage; Stream, Ending
--   SliceList   NewSliceList, Add, Contains, Remove, Get, Values; Counting, Unique
--   Address     net.SplitHostPort, net.JoinHostPort and strconv.Itoa
--   NodeId      GenerateNodeId
--   Cluster     the state of a node, its configuration, New, NewPassiveClient
--     Peers       a remote node from its connection to its end, listen, join, connectToExistingNodes, the
--                 events, the timers; Pinging, Joining, Pending
--     Handlers    the handlers of the messages, handleMessage; Verifying, Leaving, Expiry, Storing
--     Service     Start, ShutDown, Put, Get, Delete, Statistics, replication, requestSenderForGET;
--                 Replicating, Delivering, Reaching, Gathering, Lookup
--   Examples    every result at a concrete input
--
-- State. Each struct is a record with the source's fields, and an operation takes the record and answers the
-- new one. A call ends in an `Outcome`: a value, an error, a panic, or `blocked`, a wait for a lock that is
-- held. A Go pair of a value and an error that comes with changes to the state is a `Reply`. A slice of the
-- queue's array is a `View`, as the shard writes through it. The blocks of the free list lie on a heap, as
-- its tree and its lists share them. So do the remote nodes and the requests of a node, as its map, its queues
-- and the handlers share them. A step of a goroutine is one call, and a channel the list of what it holds.
--
-- Numbers are natural numbers. A sum of type uint16, uint32 or uint64 that can wrap has its `% 2 ^ w`; an int
-- that can be negative is an integer; other sums of type int are taken to stay below 2 ^ 63.
--
-- Parameters. The AVL tree and the hash set (laws in Containers), the hasher, the conversion of a duration to
-- seconds, and encoding/json, which gives back strings that are UTF-8 and replaces the other bytes. The clock
-- is an argument of a call, and so are the results of the socket, of `Accept` and of the tries to connect,
-- the memory that `make` can get, and the numbers of the random source. A connection carries that memory as a
-- field.
--
-- Fuel. `network_consumer` takes one round for each frame, and `walk` one for each place; without fuel they
-- count as not ended. The number of bytes that arrive, or of places, and one more are enough, the full inbound
-- queue, on which the consumer waits, aside. `seconds` takes one step for each second of the ping timers.
-- `generate_loop` takes at most ten rounds for each number of the source, and `digits` at most 20.
--
-- Not modelled. Dialling and the timeouts of a connection, logging, wait groups and the channels that only
-- stop a goroutine. Calls on a shard are taken one after the other, and so are the steps of the goroutines of
-- a node, in any order; two goroutines never run inside one step.
pub mod Prelude
pub mod Bytes
pub mod Encoding
pub mod Containers
pub mod FreeList
pub mod Queue
pub mod Ttl
pub mod Shard
pub mod Config
pub mod Fnv
pub mod BigCache
pub mod Iterator
pub mod Message
pub mod Address
pub mod Cluster
pub mod Comms
pub mod Wire
pub mod SliceList
pub mod NodeId
pub mod Examples
