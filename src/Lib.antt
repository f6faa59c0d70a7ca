-- ===== src/Lib.antt =====
-- A verification library for Ynwad, a C++ server framework (coroutines, sockets, HTTP, and the data
-- structures beside them) whose code stands under sylar/.
--
-- Base: the names, list lemmas and bit laws that the other modules share.
-- ByteArray: the chunked byte buffer of sylar/bytearray.cc. A buffer is a record of the object's
--   fields; the chain of blocks is a list, and the current block is an index in it, the length of the
--   list for the null pointer. An operation returns the object with its result, throws
--   std::out_of_range with the object as it was left, or has a fault (undefined behaviour). Children:
--   Blocks (the copying loops), Valid (the invariant and addCapacity), Write, Read, Seek, Iovec and
--   Views.
-- Codec: the integers and strings of the same file. Fixed, Varint, Zigzag and Text have one kind each.
-- Cache: the LRU caches of sylar/ds/lru_cache.h over the counters of sylar/ds/cache_status.h. In Lru an
--   iterator is the handle of a list node; the map of the source has handles. Its children are Nodes
--   and Located (the list by iterator), Order (the cache as one list of entries), Valid and Agree (the
--   map and the list agree), and the operations: Reads, Prune, Set and Laws. Timed has TimedCache of
--   sylar/ds/timed_cache.h, with children for its order, invariant and operations; an iterator is the number
--   of an element, which no later one gets again. HashLru has a cache for
--   each remainder of the keys' hash, and the hash function is a parameter. The loop of `prune` has the
--   map's size as fuel, since each round takes one entry out.
-- Bitmap: the bitmaps of sylar/ds/bitmap.cc, as built with 16-bit words. Its children are Ops (the
--   operators), Packed (compress and uncompress), Scan (any, resize, cross, getCount) and Walk (foreach,
--   listPosAsc) with the code, and for the proofs Valid, Words and Plain (bits and plain words), Emit,
--   Count and Branch (what compress writes), Loop, Transparent and Runs (a loop over the compressed
--   words sees the plain ones), RoundTrip, Visit, Steps and Foreach, and Cross. Cursor, Seek and Next have
--   the forward iterator, Wire has writeTo and readFrom. The loop over compressed words has
--   their number as fuel, and the loop that writes a count has five rounds, enough for a uint64_t.
--
-- HashUtil: base64 and hexadecimal digits of sylar/util/hash_util.cc. The loops over groups have the number of
--   bytes, or of characters, as fuel.
--
-- Scheduler: the queue of tasks and the loop `run` of sylar/scheduler.cc, with the states of fibers of
--   sylar/fiber.cc. Workers has the threads: a step takes a thread from one switch or critical section to
--   the next, and a system is reached by interleaving them. The decrement of the count and
--   the scheduling of a fiber that is back are two steps. Pick, Waiting, Balance and Active have the
--   proofs. What a fiber does while it runs is not modelled, only the state in which it comes back.
--
-- Stream: the loops of sylar/stream.cc that transfer a fixed size. The virtual read and write are
--   parameters; the size is the fuel, since each call that goes on moves at least one byte.
--
-- Timer: the timers of sylar/timer.cc. The timers are in a heap by address, since the users and the set
--   share them; the set is the list of addresses in the comparator's order. Its children are Order (the
--   comparator and the set), Valid (the set has the timers with a callback), Users (addTimer, cancel,
--   refresh), Reset, Due (which timers are due, and the wait for them), Fire and Expired (listExpiredCb). The
--   clock's values and the addresses of new objects are arguments.
--
-- Websocket: the frames of sylar/http/ws_session.cc over a stream whose virtual functions are parameters.
--   Wire has a frame's bytes, Pipe what a working stream promises, Sends and Receives one frame each way,
--   RoundTrip whole messages, Inverse and Limits what holds for any peer. The loop of the receiver has the
--   number of frames as fuel.
--
-- Sizes, counters and block counts are numbers without a bound: a buffer is far smaller than 2 ^ 64
-- bytes. The value of a word is reduced where the source's type does it. The host is little-endian.
-- `resize` and `new` are taken to succeed.
--
-- Not modelled: the vendored CRoaring, the parsers that Ragel generates, the wrappers of databases,
-- protobuf, ZooKeeper and the operating system's sockets, files and threads, the logging and the
-- configuration; and, of the program's own logic, the caches with both a time and an order of use, the hashes, the load balancing, the
-- WebSocket handshake, the HTTP messages, the table of descriptors and the event loop.
pub mod Base
pub mod Bitmap
pub mod ByteArray
pub mod Cache
pub mod Codec
pub mod HashUtil
pub mod Scheduler
pub mod Stream
pub mod Timer
pub mod Websocket
