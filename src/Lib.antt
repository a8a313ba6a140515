-- ===== src/Lib.antt =====
-- Pelikan's cuckoo storage with the memcache requests that the slimcache server applies to it, and its
-- compact data structures: arrays, maps, lists and bitsets that live in one region of memory, as the
-- cache servers for Redis-like commands store them as values; and the protocol that those servers
-- speak, with the loop in which one of them answers.
--
-- The parts and the files:
-- - Common: names of the libraries, Boolean tests, lists over native numbers, `int64_t` values as
--   integers (Common/Int), `uint32_t` arithmetic (Common/Words) and memory as a list of bytes, with
--   the copies of the C library as cuts and joins (Common/Memory).
-- - Search: the linear and the binary search and the choice between them, which
--   legacy/src/data_structure/sarray/sarray.c and legacy/src/data_structure/smap/smap.c both contain
--   (`_should_scan`, `_linear_search`, `_binary_search`, `_locate`), over the function that reads an
--   entry; sorted lists and the layout of entries, which both structures share.
-- - Sarray: legacy/src/data_structure/sarray/sarray.c, sorted unsigned integers of one width. `init`,
--   `value`, `index`, `insert`, `remove`, `truncate` are the functions with the prefix `sarray_`.
-- - Smap: legacy/src/data_structure/smap/smap.c, values of one size under sorted integer keys. `init`,
--   `keyval`, `index`, `insert`, `remove`, `truncate` are the functions with the prefix `smap_`.
-- - Blob: legacy/src/data_structure/shared.h, the integer or text that a ziplist stores.
-- - Bitset: legacy/src/data_structure/bitmap/bitset.c and bitset.h, columns of one bit in words of 32
--   bits. `init`, `get`, `set` are the functions with the prefix `bitset_`, the other names those of the
--   macros; Common/Bits has the digits of `&` and `|` and the shifts.
-- - Ziplist: legacy/src/data_structure/ziplist/ziplist.c, a list of blobs of variable size. The entry
--   functions and the walks stand in Ziplist, the search and the updates in Ziplist/Edit,
--   `ziplist_remove_val` in Ziplist/Values; the names are those of the source without `ziplist_` and the
--   leading underscore.
-- - Resp: legacy/src/protocol/data/resp/token.c and token.h, the elements of RESP. Resp has the parser,
--   Resp/Compose the composer; Resp/Buffer is the interface to the buffer library, whose laws the
--   theorems about the composer assume. Function names are those of the source. Resp/Commands is
--   request.c and the tables cmd_*.h beside it, Resp/Message, Resp/Request and Resp/Response are
--   parse.c, compose.c, attribute.c, request.h and response.h: `parse_array` is the part of `parse_req`
--   behind the attributes, `rsp_body` that of `parse_rsp`.
-- - Rds: legacy/src/server/rds/data/process.c, `process_request` and `rds_process_read`, whose loop is
--   `round` and `process_loop`.
-- - Time: legacy/src/time/time.h, the conversions of timestamps to seconds since the start of the
--   process; the names are those of the source without `time_`.
-- - Cuckoo: legacy/src/storage/cuckoo, a table of chunks of one size. Cuckoo/Chunk is item.h, the item
--   over its bytes; Cuckoo/Candidates has the slots of a key, `_select_candidate` and
--   `_sort_candidate`; Cuckoo has the functions with the prefix `cuckoo_`. The loop of
--   `cuckoo_displace` is `find_path`, which finds where items move, and `move_path`, which moves them.
-- - Slimcache: legacy/src/server/slimcache/data/process.c, the requests get, gets, delete, set, add,
--   replace, cas, incr, decr and flush on that table; the names are those of the source without the
--   leading underscore, and a function with the ending `_at` is what a request does with the answer
--   of its lookup.
--
-- How they interact: Slimcache looks a key up and then updates, inserts, deletes or counts, by the
-- operations of Cuckoo, with times from Time. The table is specified by `Placed`, which says where
-- items stand, and by `lookup`, which forgets it: the theorems about an operation say that it keeps
-- the one and what it does to the other. Sarray and Smap read entries through their own functions and hand those to
-- Search, whose result they use as the place for an update. Ziplist encodes and decodes Blob values.
-- Rds reads a request with `parse_req`, hands it to the function of its command, a parameter, and
-- writes the response with `compose_rsp`, until the bytes that arrived are used up.
-- The structures only share Memory. Each is specified by a predicate that says which list a
-- region of memory holds: `Holds` (sorted array), `Maps` (sorted map), `Lists` (ziplist), each with the
-- bytes behind the structure, and the theorems say which list the region holds afterwards.
--
-- Conventions: a region is a list of bytes and a pointer an offset into it; a pointer that may be NULL
-- is an option; the result is the status with what was written through the out parameters. Integers
-- are stored little-endian, as on the machines that the code is built for, and `char` is signed there.
-- Room for what is added is a hypothesis, as in the source, which leaves it to the caller.
--
-- Bounds: sizes of an array or a map stay below 2^31 bytes, the size of a ziplist below 2^32, so that
-- no product or sum of the code wraps. 8-byte entries that are searched by halving are below 2^32,
-- since the code keeps the middle value in 32 bits. The loop of the binary search has as fuel the
-- number of entries: the interval shrinks in every round. The loop that doubles a buffer has as fuel the bytes that are asked for, since every
-- round adds room. Integers of RESP elements are `int64_t`, their
-- wrap-around included; so are the sums and negations of the indices and counts that a client sends to
-- a ziplist, whose theorems keep them from overflowing. The size that `compose_element` asks for is a
-- `uint32_t` and the number that it returns an `int`, and texts that are written are shorter than
-- 2^31 - 128 bytes. Values of an array whose entries have 1 byte are below 128: larger ones are
-- accepted and read back negative.
--
-- The state of the cuckoo storage is a function from slots to chunks, of which only the slots below the
-- number of items are ever named, and the counter for cas. What is not part of the program is a
-- parameter: murmur3, the values that `random()` draws, and the reader of decimal numbers. The clock
-- is read once per call. Times are `int32_t`, their wrap-around in the conversions included. The
-- path of a displacement has at most `CUCKOO_DISPLACE` = 2 steps, which is the fuel of its search.
-- Tables are after the first second of the process, since in that second the time 0 that marks an
-- empty chunk is not yet past.
--
-- Comparable values (keys) of an array (a map): below 2^32 where they have 8 bytes and are searched by
-- halving; any others are.
--
-- The loop of `rds_process_read` has as fuel the rounds it may take: one for each request and one that
-- finds nothing left. The comparison of strings and what is read as a string from an element that
-- holds none are parameters of the parser of requests. A token array grows as needed.
--
-- A request that crashes the process, where `_process_gets` runs out of responses, answers `none`.
-- `_read_int` on a buffer without a byte left reads the byte behind it, which is taken not to be a minus
-- sign.
--
-- Not modelled: assertions, log messages and metrics; set-up and tear-down, which map memory and read
-- options; the conversions of times finer than seconds; the pools of requests and responses; the functions of
-- the commands of RESP; the text of the memcache protocol; the slab and the segment storage; the
-- buffers and sockets of servers and clients; deps/ccommon, which is another library.
pub mod Common
pub mod Search
pub mod Sarray
pub mod Smap
pub mod Blob
pub mod Bitset
pub mod Ziplist
pub mod Resp
pub mod Time
pub mod Cuckoo
pub mod Slimcache
pub mod Rds
