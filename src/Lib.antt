-- ===== src/Lib.antt =====
-- libNetCo-RPC is a coroutine runtime (src/*.cc, include/*.h), a TCP layer, and an RPC framework
-- with load balancing and a ZooKeeper name service on top (src/rpc_proto, include/rpc_proto).
-- Paths below are those of the repository.
--
-- `BoundedQueue.antt` is include/container/bounded_queue.h: one function per method, overloads
-- told apart by suffixes (`push_default`, `pop_item`, `top_at`). The memory behind `_items` is a
-- function from slot numbers to the objects that live there, so a constructor call fills a slot
-- and a destructor call empties it. `uint32_t` sums wrap at 2 ^ 32 (`u32`); `_mod` runs on fuel
-- `off`, enough because each round subtracts a positive capacity. `BoundedQueue/Represents` says
-- when a queue holds a list, `BoundedQueue/Deque` is the abstract deque, `BoundedQueue/Refine`
-- relates the two.
--
-- `DoublyBuffered.antt` is `Modify` of include/container/doubly_buffered_data.h and its wrappers
-- as one call. `DoublyBuffered/Protocol` is the interleaving: a step relation of the readers (one
-- for each thread) and the writer on their mutexes, with the loads and stores of `_index` as
-- steps; the reads and writes of one step are those that the code makes under one lock.
--
-- `LoadBalancer/Weight`, `LoadBalancer/Tree` and `LoadBalancer/LocalityAware` are
-- include/rpc_proto/locality_aware_load_balancer.h and
-- src/rpc_proto/locality_aware_load_balancer.cc; `LoadBalancer/WeightedRandom` is the
-- weighted-random one. The atomics and the weights that the two copies of the tree share are
-- numbered cells of a `Store`. A call is one step: calls of several threads do not interleave
-- here. `int64_t` is ℤ: its overflow is undefined, and the wrap of the atomics at 2 ^ 64 is left
-- out; unsigned results wrap at 2 ^ 64. `getRand` is an argument, the values that it returns
-- round by round; so is the clock. `UpdateParentWeight` has the index as its fuel, as each round
-- divides it; the walk down the tree and the rounds of `select_server` have one more than the
-- number of nodes.
--
-- `Rpc.antt` is the calls of src/rpc_proto/rpc_client_stub.cc and
-- src/rpc_proto/rpc_server_stub.cc: the bytes of requests and responses, and
-- `RpcServer::on_connection` of src/rpc_proto/rpc_server.cc, which reads them: each of its reads
-- finds the bytes given, and takes at most 4096. The protobuf classes are parameters, one `Codec`
-- for each header; that they parse what they serialize, for the headers of the call, is a
-- hypothesis of the theorems. Sizes are copied as the machine holds them, low byte first (the
-- server drops the result of `ntohl`). The channel delivers the response at once.
--
-- `NameService.antt` and its children are include/rpc_proto/name_service.h,
-- include/rpc_proto/zk_naming_service.h and src/rpc_proto/zk_naming_service.cc: the order of the
-- servers, `ResetFn` over the two copies of the server list, the calls of the load balancer that
-- follow a change, the actions by service and method, and the callback of the watch. `sort` and
-- `set_difference` are the standard algorithms, by insertion and by one pass over both lists; the
-- pass has one step for each item at most. The children that ZooKeeper lists for a path are a
-- parameter, and the load balancer is an interface with laws. What the C client does on an error
-- is not modelled: the code then reads a list that was never filled in.
--
-- `Register.antt` is how the methods of a server come into ZooKeeper: `ZkClient::create` of
-- src/zk_client.cc, include/rpc_proto/zk_name_service_register.h, the map of methods in
-- include/rpc_proto/rpc_service.h and `RegisterService` of src/rpc_proto/rpc_server_stub.cc. The
-- C client is a parameter, and what it documents is a hypothesis of the theorem in
-- `Register/Discovery.antt`, which composes the register with the name service of a client.
--
-- `Log.antt` is `LoggerFormatter::init` of src/log.cc: the scan of a pattern, byte by byte, with
-- `fmt_status` and `substr_start` as in the code. `Log/Logger.antt` is the events, `EventParse`,
-- `format`, the appenders, `Logger` and `LoggerManager::getLogger` of include/log.h and
-- src/log.cc. A string is the list of its bytes; how the C library writes a local time and how a
-- stream writes a number are parameters. Each call runs under its lock, and nothing comes between
-- the two locked parts of `getLogger`. The level of an appender, which the code never sets, is a
-- field like any other.
--
-- `Locks.antt` is the atomic steps of include/spinlock.h and include/comutex.h, and what both
-- promise of their atomic; `Locks/Protocol.antt` is any number of threads that take such a lock
-- and release it, one atomic operation at a time, in any order.
--
-- `Socket.antt` is the calls of src/socket.cc that switch coroutines, and the default connection
-- of src/tcp/tcp_server.cc. What the operating system answers to each call is a parameter, and so
-- the wait in `waitEvent` is only counted. The loops run on fuel, a round for each call of the
-- system (two for `accept`), and a call that succeeds ends them.
--
-- `Epoller.antt` is include/epoller.h and src/epoller.cc, with the calls of epoll as parameters;
-- `Epoller/Batches` is rounds of `getActEvServ` and of the coroutines that it woke, which remove
-- their descriptors as soon as they go on (`Processor::waitEvent`).
--
-- `MemPool.antt` is include/mempool.h, and `ObjPool` of include/objpool.h at its end. A block is
-- named by its allocation and its place in it, so that the pointer arithmetic of the threading
-- loop counts blocks. `malloc` succeeds; the threading loop has the count of blocks as its fuel,
-- and the destructor the number of allocations. `MemPool/Refill` has the invariant,
-- `MemPool/Refine` what the operations do to it.
--
-- `Clock.antt` is src/mstime.cc and include/mstime.h. The clock is an argument; `toLocalTime`
-- works on natural numbers, as it sets negative seconds to 0, and the year loop has 3 rounds, the
-- month loop 12.
--
-- `Runtime/Selector` is src/processor_selector.cc, `Runtime/Timer` src/timer.cc and
-- `Runtime/Processor` src/processor.cc with src/coroutine.cc, as the processor's own thread runs
-- them: the context switches are the parameter `run`, what a coroutine does until control is back
-- in the loop. The loop that runs the new coroutines has the length of their queue as its fuel,
-- since goCo adds to the other queue. The heap of the timer, a `std::priority_queue`, is a list
-- in the order in which it gives its entries.
--
-- Not modelled: context switching (src/context.cc), generated protobuf code, the JSON header, and
-- the calls into the operating system and ZooKeeper. Not shown: calls of several threads that
-- interleave on the balancers' tree.
pub mod Prelude
pub mod BoundedQueue
pub mod DoublyBuffered
pub mod LoadBalancer
pub mod Rpc
pub mod NameService
pub mod Register
pub mod Log
pub mod Locks
pub mod Socket
pub mod Epoller
pub mod MemPool
pub mod Clock
pub mod Runtime
