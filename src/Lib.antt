-- ===== src/Lib.antt =====
-- BabyDB, a small relational database with pull-based operators over tables in memory.
--
-- The program has a storage layer (src/storage, src/include/storage), operators that pull chunks of
-- rows from each other (src/execution, src/include/execution), and transactions (src/concurrency).
--
-- Types        src/include/common: tuples, schemas and the lookup of columns.
-- Storage      Table: rows and the name of the index of a table (Table). Table/Guards: the latch of a
--              table and the guards that hold it (ReadTableGuard, WriteTableGuard).
--              StlmapIndex: the index over one column (StlmapIndex). `std::map` is the list of its
--              entries in order, an iterator is a position in it.
--              Index: the interface of the indexes, which StlmapIndex fills (Index, RangeIndex).
--              Catalog: tables and indexes by name (Catalog).
-- Execution    Operator: the virtual methods Next, Init and Check as a record of functions over the
--              operator's state, which they take and return; Operator/Contract says what a series of
--              calls of Next returns. Value, SeqScan, Filter, Projection, HashJoin and Aggregate: one
--              module for each operator class. Plan: trees of operators, what they are to return, and Check.
--              Expression: filters and projections. RowOps: execution_common.cpp.
--              RangeIndexScan: the scan of an index. Delete, Insert
--              and Update write to the catalog through Effects, which keeps what is written before an
--              exception; Kept says what holds of the table and its index after each of them.
--              UnorderedMultimap: the interface of `std::unordered_multimap` that the join takes, with
--              the order of the values of a key left open, and Aggregate/Table the one that the
--              aggregation takes.
-- Concurrency  Transactions: the states of a transaction, the lock of the database, and the calls as a
--              step relation.
-- Database     babydb.cpp: the calls of a client.
-- Tests        the theorems and the code at concrete inputs.
--
-- Each function of a module stands for the method of the same name, written in snake case. A call
-- returns a value, a thrown `std::logic_error`, or a fault, which is what the C++ standard leaves
-- undefined (Common/Results). Names, values and ids are texts, integers and naturals; the bounds of the
-- machine types are stated where the code depends on them, as for `INVALID_ID`.
--
-- Fuel: the loops of Next that pull from a child take fuel, one unit for each round. `Yields` and
-- `Produces` say that a call returns with any fuel from some bound on, and each theorem that uses them
-- gives that bound: for a scan the number of rows left, for a join the bounds of its children and the
-- number of their rows.
--
-- The operators run in one thread and hold a guard of a table around each access to its rows, so their
-- models read and write the rows directly. Threads that share a table are modelled in Storage/Table: one
-- step is one call on a guard, and a thread that waits for the latch makes no step.
--
-- Not modelled: the unit tests and the benchmark, and the destructors, which only free memory.
pub mod Common
pub mod Types
pub mod Storage
pub mod Execution
pub mod Concurrency
pub mod Database
pub mod Tests
