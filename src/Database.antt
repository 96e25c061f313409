-- ===== src/Database.antt =====
-- src/babydb.cpp: the calls of a client that hold the lock of the database while they change the catalog.
pub mod Calls
use p2_hash_join_optimizatio.Common.{String, List, [], ◌∷◌, Result, ok, err, ◌>>=◌}
use p2_hash_join_optimizatio.Types.{Schema, ConfigGroup}
use p2_hash_join_optimizatio.Storage.Table.{new_table}
use p2_hash_join_optimizatio.Storage.StlmapIndex.{new_stlmap_index}
use p2_hash_join_optimizatio.Storage.Catalog
use p2_hash_join_optimizatio.Storage.Catalog.{Catalog, empty_catalog, fetch_table}
use p2_hash_join_optimizatio.Execution.Operator.{ExecutionContext}
use p2_hash_join_optimizatio.Execution.Plan.{Plan}
use p2_hash_join_optimizatio.Concurrency.Transactions
use p2_hash_join_optimizatio.Concurrency.Transactions.{
  TransactionManager, new_transaction_manager, Transaction, Reply,
}

pub record BabyDb : Type 0 where
  pub catalog : Catalog
  pub txn_mgr : TransactionManager
  pub config : ConfigGroup

unfoldable pub new_baby_db : ConfigGroup → BabyDb
new_baby_db config = record {
  catalog = empty_catalog;
  txn_mgr = new_transaction_manager;
  config = config;
}

unfoldable pub create_table : String → Schema → BabyDb → Result BabyDb
create_table table_name schema db = do
  c ← Catalog.create_table (new_table table_name schema) db.catalog
  ok (record db { catalog = c })

unfoldable pub drop_table : String → BabyDb → Result BabyDb
drop_table table_name db = do
  c ← Catalog.drop_table table_name db.catalog
  ok (record db { catalog = c })

-- `Stlmap` is the one type of index.
unfoldable pub create_index : String → String → String → BabyDb → Result BabyDb
create_index index_name table_name key_column db = do
  table ← fetch_table db.catalog table_name
  index ← new_stlmap_index index_name table key_column
  c ← Catalog.create_index index db.catalog
  ok (record db { catalog = c })

unfoldable pub drop_index : String → BabyDb → Result BabyDb
drop_index index_name db = do
  c ← Catalog.drop_index index_name db.catalog
  ok (record db { catalog = c })

unfoldable pub create_txn : BabyDb → Transaction × BabyDb
create_txn db = let r = Transactions.create_txn db.txn_mgr in (r.0, record db { txn_mgr = r.1 })

unfoldable pub commit : Transaction → BabyDb → Reply × Transaction × BabyDb
commit txn db =
    let r = Transactions.commit txn db.txn_mgr in (r.0, r.1, record db { txn_mgr = r.2 })

unfoldable pub abort : Transaction → BabyDb → Reply × Transaction × BabyDb
abort txn db = let r = Transactions.abort txn db.txn_mgr in (r.0, r.1, record db { txn_mgr = r.2 })

unfoldable pub get_execution_context : BabyDb → ExecutionContext
get_execution_context db = record { catalog = db.catalog; config = db.config }

-- `OptimizeJoinPlan`, which is yet to be written: it leaves the tree of operators as it is.
unfoldable pub optimize_join_plan : Plan → Plan
optimize_join_plan join_plan = join_plan

-- A client's call that may change the catalog.
pub data Call : Type 0 where
  creates_table : String → Schema → Call
  drops_table : String → Call
  creates_index : String → String → String → Call
  drops_index : String → Call

unfoldable pub apply : Call → BabyDb → Result BabyDb
unfolding create_table drop_table create_index drop_index
apply (creates_table table_name schema) db = create_table table_name schema db
apply (drops_table table_name) db = drop_table table_name db
apply (creates_index index_name table_name key_column) db =
    create_index index_name table_name key_column db
apply (drops_index index_name) db = drop_index index_name db

-- The database after a call that returns, or that throws and has changed nothing.
abbrev pub kept : Result BabyDb → BabyDb → BabyDb
kept (ok db') db = db'
kept (err e) db = db

unfoldable pub run : List Call → BabyDb → BabyDb
unfolding apply
run [] db = db
run (call ∷ calls) db = run calls (kept (apply call db) db)
