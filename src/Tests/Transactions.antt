-- ===== src/Tests/Transactions.antt =====
-- One transaction that commits, and the next.
use p2_hash_join_optimizatio.Common.{zero, ◌≡◌, refl, [], ◌∷◌, true, false}
use p2_hash_join_optimizatio.Concurrency.Transactions.{
  Transaction, System, Reachable, committed, aborted, start, next, creates, create_txn,
  new_transaction, commit, abort, after_call, done_then, verify_txn, erase_id, new_system, returned,
  system_error,
}
use p2_hash_join_optimizatio.Concurrency.Transactions.Exclusive.{
  Reachable-one_running, commit-releases, abort_after_commit,
}

program : Unit {0}
unfolding create_txn new_transaction commit after_call done_then verify_txn erase_id abort
program = tt

abbrev one_txn : System
one_txn = record {
  manager = (create_txn new_system.manager).1;
  txns = (create_txn new_system.manager).0 ∷ [];
  db_locked = true;
}

one_txn-Reachable : Reachable one_txn
one_txn-Reachable = next start (creates refl)

abbrev first : Transaction
first = (create_txn new_system.manager).0

Reachable-one_running_example : zero ≡ zero
unfolding program
Reachable-one_running_example =
    Reachable-one_running one_txn 0 0 first first one_txn-Reachable refl refl refl refl

commit-releases_example :
    ((commit first one_txn.manager).0 ≡ returned true)
    × ((commit first one_txn.manager).1.state ≡ committed)
    × ((after_call 0 first.owns_lock (commit first one_txn.manager) one_txn).db_locked ≡ false)
unfolding create_txn new_transaction
commit-releases_example = commit-releases one_txn 0 first one_txn-Reachable refl refl

abort_after_commit_example :
    abort (commit first one_txn.manager).1 (commit first one_txn.manager).2 ≡ (
      system_error,
      record (commit first one_txn.manager).1 { state = aborted },
      (commit first one_txn.manager).2,
    )
unfolding create_txn new_transaction
abort_after_commit_example = abort_after_commit first one_txn.manager refl refl
