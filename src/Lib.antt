-- ===== src/Lib.antt =====
-- A verification of the C++ practice programs of this repository: the join algorithms of a query
-- engine, a hash aggregation operator, a thread pool over a bounded queue, and two indexes over a
-- table in a file.
--
-- The parts, and the files that model them:
--
-- - `Join`: join-practice/*.cpp. `Join/Row` has `Row` and `JoinedRow`, which the files declare
--   alike, and `theta_join`, the relational meaning of a join. `Join/Nested` is `nestedLoopJoin`,
--   `Join/Block` `blockNestedLoopJoin`, `Join/Hash` `hashJoin` and `indexNestedLoopJoin`,
--   `Join/Grace` `partitionRows` and `graceHashJoin`, `Join/MergeSort` `merge` and both overloads
--   of `mergeSort`, and `Join/SortMerge` `sortMergeJoin`. `Join/Multimap` is the interface of
--   `std::unordered_multimap`, which fixes the rows of a range but not their order.
--   `Join/Agreement` has the joins by equal keys as one operation on bags of rows, the quotient of
--   lists by permutation, and `Join/Demo` the demo in `main`.
-- - `Aggregate`: hash-aggregation-operator.cpp. The subclasses of `Aggregate` are the constructors
--   of a data type and their methods functions by clauses. `double` (`Aggregate/Number`) and
--   `std::unordered_map` (`Aggregate/Table`) are interfaces.
-- - `Pool`: thread_pool_on_fixed_size_bounded_queue.cpp. `Pool` has the state under `poolMutex` and
--   what a caller of `pushTask`, a worker and a shutdown do with it while they hold the lock.
--   `Pool/System` has the threads as steps, each step one turn under the lock, a wake-up, or a part
--   of a shutdown, in any order; its lists of accepted, started and dropped tasks and of settled
--   promises, with whether the task's work threw, are a record of what happened, which the program
--   does not keep. `Pool/Futures` is what a future shows of the outcome.
-- - `Table/Posix`: iterator_plus_index.cpp. `Reader` is `readRecordAt`, `FileData` the file and the
--   append of `Insert`, `Index` `indexImpl` with `Insert` and `Query`, and the iterators; `System`
--   has the calls of many threads as steps, each step the part of a call under one lock, calls of
--   `Close` with their wait on `cv` included; its list of acknowledged ids is a record of what
--   `Insert` has returned, which the program does not keep.
--   `Store` is what the index promises to a client that makes one call after the other, a table of
--   texts by id, and that it keeps this promise; `Linear` puts the calls of many threads into one
--   sequence of calls of that table. `Client` is the demo in `main`: the loop over an iterator, and
--   the rows of its threads.
-- - `Table/Stream`: index_and_iterator.cpp. The output stream is its file, its position and whether it
--   has failed; the iterator keeps whether its input stream has. `Stream/System` has the parts of
--   `insert` and `query` under each lock as steps, whatever lands of a record; `Stream/Linear` puts
--   them into one sequence of inserts and queries of a table. The constructors throw where the
--   file does not open, so that the file that `hasNext` asks for is open.
-- - `Table/Bytes` has the decimal conversions of the standard library, and `Table/OrderedMap` its
--   `std::map`.
-- - `Base`: integers, lists, loops and tests that the parts share.
--
-- Numbers: `uint64_t` and `size_t` are natural numbers below 2^64 with the wrap-around written
-- out, `int` keys and limits are integers, whose bounds play no part as they are only compared. The
-- page counter of `blockNestedLoopJoin` and the `inFlight` and `count` of the index are unbounded:
-- they count pages, calls and entries that are there at once.
--
-- Fuel: a loop whose end is not structural takes fuel, and `none` (in the reader `does_not_end`) is
-- the run that has not ended. The theorems give the fuel that is enough: one more than the rows of
-- the range for `mergeSort`, one more than the rows of both sides for the merge of `sortMergeJoin`,
-- one more than the pages of the outer table for `blockNestedLoopJoin`, one more than the bytes of
-- the file for `readRecordAt`, and one more than the records for the loop over an iterator.
--
-- The operating system: how a `pwrite` ends is an argument of the append (an error, or a number of
-- bytes; each is an error where `open` has failed), how many bytes of a record an output stream
-- lands is an argument too, a stream that is opened to append starts at the end of its file, and
-- `pread` is a parameter of which `Readable` states what POSIX documents.
--
-- Condition variables: `notify_one` wakes any one thread that sleeps, and a sleeping thread may also
-- wake on its own. A promise is a number, and one that is dropped with its task breaks its future.
--
-- Not modelled: LRU_with_ttl.cpp, which has no code; the connection pool that a comment at the end
-- of thread_pool_on_fixed_size_bounded_queue.cpp sketches, which no program has; messages on
-- `std::cerr`; the failure of allocation, and of a predicate that throws; the Go programs and the
-- notes.
pub mod Base
pub mod Join
pub mod Aggregate
pub mod Table
pub mod Pool
