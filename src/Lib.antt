-- ===== src/Lib.antt =====
-- The integer store of include/smart2raw.h, a C header: pools of integers kept in the least native
-- class (8, 16, 32 or 64 bits, unsigned or signed) that holds them, their growth and change of class,
-- scans and fast predicates over them, and arithmetic that raises the class before it can overflow.
--
-- The files and the code:
--   Base, Base/Tests, Base/Lists, Base/Int, Base/Words: shared names; Boolean tests, lists, integers
--     and machine words over the native numbers. A uint64_t is a number with `wrap`, `wrap_add` and so
--     on where the code wraps; an int64_t is an integer; casts are `to_u64` and `sx`.
--   Class: S2RSize, the limits and the classifiers. Class/Least: the least class.
--   Pool: S2RPool, memory and typed access. Pool/Valid: the representation invariant. Pool/Memory: the
--     allocating operations. Pool/Access: writing and reading an element. Pool/Shrink: giving memory
--     back.
--   Push: s2r_push and its variants. Push/Append: the elements of a pool after a push.
--   Scan: aggregations and filters, the scalar loops. Scan/Exact: the counts.
--   Known: what the flags SORTED and SUMMARY promise, `IsKnown`. Known/Bounds: bounds for a
--     reader. Known/Keep: the flags after a push.
--   Fast: the `_fast` predicates. Fast/Window: the frame of reference as a window of residues.
--     Fast/Bisect: the binary search. Fast/Unsigned, Fast/Counts, Fast/Sums, Fast/Signed,
--     Fast/SignedCounts: the predicates against the scans.
--   Order: s2r_summarize, s2r_mark_sorted and Analytics V2. Order/Facts, Order/Extent: the order
--     and the summary.
--   Index: S2RIndex. Index/Table: the prefix sums. Index/Exact: what an index answers.
--   Arith: element-wise operations and conversion. Arith/Convert: arrays to pools and back.
--   Resize: promotion, demotion and the other changes of class. Resize/Promote: promotion.
--   Lazy: the deferred sessions. Adaptive: the operations that promote first. Adaptive/Push: the
--     adaptive push. Adaptive/Exact: the safe operations. Adaptive/Session, Adaptive/Commit: what a
--     deferred session keeps, and its commit.
--   Gcd: s2r_gcd64. Affine: S2RAffine, columns as base + stride * index. Affine/Indices: the loop that
--     writes the indices. Affine/Steps: the stride. Affine/Build: what the structure holds.
--     Affine/Held: the values by their keys. Affine/Arrays: the two builds. Affine/RoundTrip: reading
--     back. Affine/Quotients, Affine/Spread, Affine/Counts, Affine/Ranges: the counts. Affine/Folds,
--     Affine/Totals: the sums. Affine/Answers: both on a column that was built. Affine/Progress: when
--     a build succeeds.
--   Format: byte order, CRC32 and the reads and writes of words. Format/File: s2r_save_portable and
--     s2r_load_portable. Format/Bytes: words and their bytes. Format/Hosts: the byte order of the host.
--     Format/Saved: the bytes of a file. Format/Loaded: loading them. Format/Headers, Format/Accepted:
--     the files that are accepted.
--   Blocked: S2RBlocked and its build. Blocked/Query: its queries. Blocked/Filled: the structure that
--     a build leaves. Blocked/Pieces: the blocks of an array. Blocked/Extent: what is kept of a block.
--     Blocked/Words: the bookkeeping arrays. Blocked/Payload: the deltas in the payload.
--     Blocked/Ends: where the blocks end. Blocked/Lattice: words and their indices. Blocked/Counts,
--     Blocked/Above, Blocked/Answers: the count above a threshold, by its parts, in a block and in all.
--     Blocked/Sums: the sum of a column from those of its blocks. Blocked/RoundTrip: reading back.
--     Blocked/File: s2r_blocked_save and s2r_blocked_load. Blocked/File/Safety: what is accepted.
--     Blocked/File/Arrays, Blocked/File/Stored, Blocked/File/Header, Blocked/File/Body,
--     Blocked/File/Loaded: the arrays, the file and back. Blocked/File/Classes, Blocked/File/Limits,
--     Blocked/File/Built: a column that was built passes the checks of the loader. Blocked/File/Room:
--     when a save succeeds. Blocked/File/RoundTrip: build, save and load.
--   Plan: the price of a block size, the choice and the advice. Plan/Choice: what is chosen is the
--     least. Plan/Auto: the columns of the automatic builds.
--   Tracked: the pool with an embedded range.
--   Tests: runs on small pools. Tests/Columns: on small columns. Tests/Files: on small
--     files. Tests/Blocks: on small block-wise columns. Tests/Plans: of the planner.
--     Tests/Stores: of the files of such columns.
--
-- How the code is modelled:
--   - A pool is a record with the fields of S2RPool; `cells` is the buffer as words of the class, of
--     which the first `count` are the elements, `live`. An operation takes the pool and returns it with
--     the result. An operation that the code refuses returns the pool that it leaves.
--   - The allocator is a parameter `alloc`, which grants or refuses a number of bytes. A fresh buffer
--     that the code leaves uninitialised is written as zeros. qsort is a parameter.
--   - A loop over the elements recurs on the list of them; the four cases of a switch on the width are
--     one, at the width. The binary search recurs on fuel, `count + 1`, one more than the length of the
--     interval it starts from, which shrinks at each step. Euclid's loop recurs on fuel 128: two
--     rounds halve the second of two 64-bit words.
--   - A file is the list of its bytes. A write succeeds where the disk has room for its bytes, a read
--     where the file has as many. The byte order of the host is a parameter of the format.
--   - NULL arguments and the ownership of a buffer are left out: the model has no null pool, and
--     releasing a buffer changes nothing that it keeps.
--   - The bounds 2^60 on a capacity or a number of bytes keep the sizes that the code computes below
--     SIZE_MAX; past them the rounding of sizes wraps.
--
-- Not modelled: SIMD kernels, of which only the scalar fall-backs are here; statistics in floating
-- point; the legacy file functions, streams and memory maps; the byte swaps of block-wise columns on
-- a big-endian host; tools, web pages, bindings, ports, benchmarks, examples and tests.
pub mod Base
pub mod Class
pub mod Pool
pub mod Push
pub mod Known
pub mod Scan
pub mod Fast
pub mod Arith
pub mod Resize
pub mod Lazy
pub mod Adaptive
pub mod Order
pub mod Index
pub mod Gcd
pub mod Affine
pub mod Format
pub mod Blocked
pub mod Tracked
pub mod Tests
pub mod Plan
