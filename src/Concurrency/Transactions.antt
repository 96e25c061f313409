-- ===== src/Concurrency/Transactions.antt =====
-- src/concurrency/transaction_manager.cpp and transaction.cpp, and the calls of src/babydb.cpp on them:
-- the states of a transaction, and the lock of the database that it holds.
pub mod Exclusive
use p2_hash_join_optimizatio.Common.{
  ℕ, ◌+◌, ◌^◌, ◌≡◌, Bool, true, false, List, [], ◌∷◌, ◌++◌, some, LogicError, commit_not_running,
  abort_not_implemented, get_elem?, set, length, if◌then◌else◌, ◌==◌,
}
use p2_hash_join_optimizatio.Types.{invalid_id}

pub data TransactionState : Type 0 where
  running : TransactionState
  tainted : TransactionState
  committed : TransactionState
  aborted : TransactionState

-- `owns_lock` is that of the transaction's `std::unique_lock` on the database.
pub record Transaction : Type 0 where
  pub txn_id : ℕ
  pub read_ts : ℕ
  pub state : TransactionState
  pub owns_lock : Bool
  pub commit_ts : ℕ

-- The map from ids to the shared transactions is the list of its ids.
pub record TransactionManager : Type 0 where
  pub next_txn_id : ℕ
  pub last_commit_ts : ℕ
  pub txn_map : List ℕ

abbrev pub txn_start_id : ℕ
txn_start_id = 2 ^ 62

abbrev pub new_transaction_manager : TransactionManager
new_transaction_manager = record { next_txn_id = txn_start_id; last_commit_ts = 0; txn_map = [] }

-- How a call ends. An exception leaves what was written before it.
pub data Reply : Type 0 where
  returned : Bool → Reply
  threw : LogicError → Reply
  system_error : Reply

-- `Transaction::Transaction`, with a lock that is held
unfoldable pub new_transaction : ℕ → ℕ → Transaction
new_transaction txn_id read_ts = record {
  txn_id = txn_id;
  read_ts = read_ts;
  state = running;
  owns_lock = true;
  commit_ts = invalid_id;
}

unfoldable pub create_txn : TransactionManager → Transaction × TransactionManager
unfolding new_transaction
create_txn m = (
  new_transaction m.next_txn_id m.last_commit_ts,
  record m { next_txn_id = m.next_txn_id + 1; txn_map = m.next_txn_id ∷ m.txn_map },
)

unfoldable pub set_tainted : Transaction → Transaction
set_tainted txn = record txn { state = tainted }

unfoldable pub erase_id : ℕ → List ℕ → List ℕ
erase_id txn_id [] = []
erase_id txn_id (n ∷ ids) = let rest = erase_id txn_id ids in if n == txn_id then rest else n ∷ rest

-- `Done`, then `txn_map_.erase`, then what follows. `unlock` on a lock that is not held throws.
unfoldable pub done_then :
    Reply → Transaction → TransactionManager → Reply × Transaction × TransactionManager
unfolding erase_id
done_then reply txn m = elim txn.owns_lock [
  | true ↦ (
    reply,
    record txn { owns_lock = false },
    record m { txn_map = erase_id txn.txn_id m.txn_map },
  )
  | false ↦ (system_error, txn, m)
]

unfoldable pub verify_txn : Transaction → Bool
verify_txn txn = true

unfoldable pub abort : Transaction → TransactionManager → Reply × Transaction × TransactionManager
unfolding done_then
abort txn m = done_then (threw abort_not_implemented) (record txn { state = aborted }) m

-- `Abort` never returns, so the `return false` after it is never reached.
unfoldable pub commit : Transaction → TransactionManager → Reply × Transaction × TransactionManager
unfolding verify_txn abort done_then
commit txn m = elim txn.state [
  | running ↦ elim (verify_txn txn) [
    | true ↦ done_then (returned true) (record txn { state = committed }) m
    | false ↦ abort txn m
  ]
  | tainted ↦ (threw commit_not_running, txn, m)
  | committed ↦ (threw commit_not_running, txn, m)
  | aborted ↦ (threw commit_not_running, txn, m)
]

-- The database: its transactions in the order of their creation, and its lock.
pub record System : Type 0 where
  pub manager : TransactionManager
  pub txns : List Transaction
  pub db_locked : Bool

abbrev pub new_system : System
new_system = record { manager = new_transaction_manager; txns = []; db_locked = false }

-- The system after a call on its transaction `i`, which held `owned`: the lock is free if the call let
-- go of it.
unfoldable pub after_call : ℕ → Bool → Reply × Transaction × TransactionManager → System → System
after_call i owned r s = record {
  manager = r.2;
  txns = set s.txns i r.1;
  db_locked = if owned then r.1.owns_lock else s.db_locked;
}

-- One call. `CreateTxn` waits for the lock.
pub data Step : System → System → Type 0 where
  creates :
      {s : System}
      → s.db_locked ≡ false
      → Step s (record {
        manager = (create_txn s.manager).1;
        txns = s.txns ++ (create_txn s.manager).0 ∷ [];
        db_locked = true;
      })
  commits :
      {s : System} (i : ℕ) (txn : Transaction)
      → get_elem? s.txns i ≡ some txn
      → Step s (after_call i txn.owns_lock (commit txn s.manager) s)
  aborts :
      {s : System} (i : ℕ) (txn : Transaction)
      → get_elem? s.txns i ≡ some txn
      → Step s (after_call i txn.owns_lock (abort txn s.manager) s)
  taints :
      {s : System} (i : ℕ) (txn : Transaction)
      → get_elem? s.txns i ≡ some txn
      → Step s (record s { txns = set s.txns i (set_tainted txn) })

pub data Reachable : System → Type 0 where
  start : Reachable new_system
  next : {s s' : System} → Reachable s → Step s s' → Reachable s'
