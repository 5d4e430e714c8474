-- ===== src/Lib.antt =====
-- A verification library for pplx-garden, the RDMA transfer engine in fabric-lib.
--
-- The engine cuts each transfer of a GPU over the NICs of its domain group, hands the parts to the
-- NICs, and counts the completions; the receiving side counts immediates and wakes up who waits for
-- them. Each file names the code that it is about:
--
-- Common (Tests, Lists, Dict, Sets): Boolean tests, lists by index, an association list for HashMap
-- and a list for HashSet.
-- Memory: the atomics. A cell is a 64-bit pattern, a flag is a word that the GPU polls; a step is
-- one call of the code that is modelled, in any order with the others.
-- Imm (fabric-lib/src/imm_count.rs): `ImmCountMap` with its counters, and the two waits on them
-- (`ImmCounter::wait` and `GdrCounter::wait` of fabric-lib/src/api.rs). Counting and Delivery count
-- the answers of arrivals, Waiting is about the waits, Table about the operations on the table.
-- Pool (fabric-lib/src/utils/obj_pool.rs): `ObjectPool`; a slot is its chunk and its index.
-- Shard (the free functions of fabric-lib/src/domain_group.rs): `divide_evenly`, `round_up`,
-- `shard_single_transfer`. Pages and Bytes say what their ranges cover, Slices what the
-- byte shards of a scatter cover.
-- Api (fabric-lib/src/api.rs, error.rs, rdma_op.rs): the requests, descriptors, errors and write
-- operations. Api/Error has the results: `panicked` stands for a failed assertion, an index out of
-- bounds or a division by zero.
-- Provider (fabric-lib/src/provider.rs): the trait `RdmaDomain` as a record of operations, which
-- every function of Group takes; Testbed fills it with a NIC that records its calls.
-- Group (fabric-lib/src/domain_group.rs): `DomainGroup`. Imm, Single, Paged, Scatter: one kind of
-- request each. Dispatch: `submit_transfer_request`. Completion: `get_completion` and the contexts
-- of the transfers. Peers: the peer groups. Posting and Run: what calls on the domains do.
-- Efa (fabric-lib/src/efa/efa_rdma_op.rs): the messages of a write over libfabric, an iterator for
-- each kind of write. Drain drives an iterator as the domain does; the constants of libfabric and
-- the fabric addresses are parameters.
-- Verbs (fabric-lib/src/verbs/verbs_rdma_op.rs): the work requests of a write over libibverbs.
-- Chain is about the ring of four requests of a paged write, Driven about what a queue pair does
-- with it, Targets about the requests of a scatter. Queue pairs are numbers, and the constants of
-- libibverbs parameters.
-- Verbs.Address (fabric-lib/src/verbs/verbs_address.rs): the datagram address of a domain and its
-- 26 bytes.
-- Verbs.Domain (fabric-lib/src/verbs/verbs_domain.rs): one NIC driven through libibverbs. Host has
-- what the domain asks of libibverbs, postcard and the allocator, over a state of the NIC that is a
-- parameter; State the fields of VerbsDomain; Heap the objects that live at an address, since a work
-- request carries that address through the NIC and back. Submit has the queues, Writes the loop that
-- posts a write, Peers and its children the handshake and the groups, Completions what poll_cq makes
-- of a completion, Interface the methods of RdmaDomain. The loop that posts a write has total_ops + 1
-- rounds, the walk along a chain five; poll_cq has as many as it is given and says whether it ended.
-- Worker (fabric-lib/src/worker.rs): the steps of the two threads of a GPU. Uvm has the watchers of
-- memory that the GPU writes, Steps the turn of the thread that owns the domain group: a call of
-- another thread, a command, the poll, and the completions it sends on. A turn takes what try_recv
-- found in each channel; its loop over completions has as many rounds as it is given and says
-- whether it ended.
-- Host (fabric-lib/src/host_buffer.rs): buffers of registered memory that are kept for the next
-- call. Search is about the free buffers that fit, Held has the invariant, Power the size that is
-- asked for (64 doublings reach every usize), Served the calls of allocate.
-- Engine (fabric-lib/src/fabric_engine.rs): the workers of all GPUs and the device that each region
-- was registered for. Uses has the ways to use it, Kept and
-- Logged its invariants, Routes the worker that a transfer goes to. A call of a
-- worker that has stopped gives no answer.
-- Sizes and loops. Numbers are natural numbers; an addition or a conversion that the code lets wrap
-- is written with its modulus, and lengths and offsets are not bounded where the code would have to
-- hold more than 2^64 bytes. Loops recurse on the list they consume, but `chunks`, on fuel: the
-- length of the list is enough, since each chunk that is not empty takes an element. The loops over
-- the domains of a transfer recurse on the number of rounds.
--
-- What is not modelled: the start and the end of the threads and of the objects of libibverbs, the
-- EFA domain, the callbacks of the transfer engine, the topology, and the all-to-all kernels and
-- their host side. A HashMap is an association list that is searched in order, where the order of
-- the code is arbitrary. Two calls that touch one counter do not interleave inside a call.
pub mod Common
pub mod Memory
pub mod Imm
pub mod Pool
pub mod Shard
pub mod Api
pub mod Provider
pub mod Group
pub mod Host
pub mod Efa
pub mod Verbs
pub mod Worker
pub mod Engine
pub mod Testbed
