-- ===== src/Concurrency/Transactions/Exclusive.antt =====
-- The lock of the database belongs to one transaction at most.
use p2_hash_join_optimizatio.Common.{
  ℕ, zero, suc, ◌+◌, ◌≤◌, ◌≡◌, refl, sym, ap, ◌∙◌, Bool, true, false, List, [], ◌∷◌, ◌++◌, some,
  arith, get_elem?, set, length, Bool-cases, inl, inr, some_injective, get_elem?-lt, get_elem?-set,
  get_elem?-push, ◌==◌, ==_iff, abort_not_implemented,
}
use p2_hash_join_optimizatio.Concurrency.Transactions.{
  Transaction, TransactionManager, TransactionState, running, tainted, committed, aborted, System,
  Step, Reachable, creates, commits, aborts, taints, start, next, create_txn, commit, abort,
  set_tainted, after_call, Reply, returned, threw, system_error, new_transaction, done_then,
  verify_txn, erase_id,
}

abbrev own : Bool → ℕ
own true = 1
own false = 0

unfoldable pub owners : List Transaction → ℕ
owners [] = 0
owners (t ∷ ts) = own t.owns_lock + owners ts

owners-set :
    (ts : List Transaction) (i : ℕ) (old new : Transaction)
    → get_elem? ts i ≡ some old
    → owners (set ts i new) + own old.owns_lock ≡ owners ts + own new.owns_lock
unfolding owners
owners-set [] i old new h = absurd (cc)
owners-set (t ∷ ts) zero old new h =
    omega (arith, ap (λ (x : Transaction). own x.owns_lock) (some_injective h))
owners-set (t ∷ ts) (suc i) old new h = omega (arith, owners-set ts i old new h)

owners-push :
    (ts : List Transaction) (t : Transaction) → owners (ts ++ t ∷ []) ≡ owners ts + own t.owns_lock
unfolding owners
owners-push [] t = omega arith
owners-push (u ∷ ts) t = omega (arith, owners-push ts t)

-- The lock is held exactly when one transaction has it, and one that runs has it.
pub record IsExclusive (s : System) : Type 0 where
  pub one_owner : owners s.txns ≡ own s.db_locked
  pub running_owns :
      (i : ℕ) (t : Transaction)
      → get_elem? s.txns i ≡ some t
      → t.state ≡ running
      → t.owns_lock ≡ true

own_le : (b : Bool) → own b ≤ 1
own_le true = omega arith
own_le false = omega arith

owners-lower :
    (ts : List Transaction) (i : ℕ) (t : Transaction)
    → get_elem? ts i ≡ some t
    → own t.owns_lock ≤ owners ts
unfolding owners
owners-lower [] i t h = absurd (cc)
owners-lower (u ∷ ts) zero t h =
    omega (arith, ap (λ (x : Transaction). own x.owns_lock) (some_injective h))
owners-lower (u ∷ ts) (suc i) t h = omega (arith, owners-lower ts i t h)

module _ (s : System) (ex : IsExclusive s) (i : ℕ) (old : Transaction)
    (there : get_elem? s.txns i ≡ some old) where
  replaced_running_owns :
      (new : Transaction)
      → (new.state ≡ running → new.owns_lock ≡ true)
      → (j : ℕ) (t : Transaction) → get_elem? (set s.txns i new) j ≡ some t
      → t.state ≡ running
      → t.owns_lock ≡ true
  replaced_running_owns new ready j t h runs = elim (Bool-cases (i == j)) [
    | inl same ↦
        let e : new ≡ t =
          some_injective
            (ground (arith, get_elem?-set s.txns i j new (get_elem?-lt s.txns i old there))) in
        sym (ap (λ (x : Transaction). x.owns_lock) e)
        ∙ ready (ap (λ (x : Transaction). x.state) e ∙ runs)
    | inr ne ↦
        ex.running_owns j t
          (ground (arith, get_elem?-set s.txns i j new (get_elem?-lt s.txns i old there))) runs
  ]

  after_call-IsExclusive :
      (r : Reply × Transaction × TransactionManager)
      → (old.owns_lock ≡ false → r.1.owns_lock ≡ false)
      → (r.1.state ≡ running → r.1.owns_lock ≡ true)
      → IsExclusive (after_call i old.owns_lock r s)
  unfolding after_call
  after_call-IsExclusive r lets_go ready = record {
    one_owner = elim (Bool-cases old.owns_lock) [
      | inl held ↦ rw held (
          omega (
            arith,
            owners-set s.txns i old r.1 there,
            ap own held,
            owners-lower s.txns i old there,
            ex.one_owner,
            own_le s.db_locked,
          ))
      | inr free ↦ rw free (
          omega (
            arith,
            owners-set s.txns i old r.1 there,
            ap own free,
            ap own (lets_go free),
            ex.one_owner,
          ))
    ];
    running_owns = replaced_running_owns r.1 ready;
  }

done_then-lets_go :
    (reply : Reply) (t : Transaction) (m : TransactionManager)
    → (done_then reply t m).1.owns_lock ≡ false × ((done_then reply t m).1.state ≡ t.state)
unfolding done_then
done_then-lets_go reply t m = elim (Bool-cases t.owns_lock) [
  | inl held ↦ rw (held, done_then) (refl, refl)
  | inr free ↦ rw (free, done_then) (free, refl)
]

-- After `Commit`, a transaction does not run, and one without the lock has not got it.
commit-lets_go :
    (t : Transaction) (m : TransactionManager) (state : TransactionState)
    → t.state ≡ state
    → (t.owns_lock ≡ false → (commit t m).1.owns_lock ≡ false)
      × ((commit t m).1.state ≡ running → (commit t m).1.owns_lock ≡ true)
unfolding commit verify_txn
commit-lets_go t m running is =
    let (free, ended) = done_then-lets_go (returned true) (record t { state = committed }) m in
    rw (is, commit) ((λ _. free), (λ runs. absurd (cc)))
commit-lets_go t m tainted is = rw (is, commit) ((λ free. free), (λ runs. absurd (cc)))
commit-lets_go t m committed is = rw (is, commit) ((λ free. free), (λ runs. absurd (cc)))
commit-lets_go t m aborted is = rw (is, commit) ((λ free. free), (λ runs. absurd (cc)))

abort-lets_go :
    (t : Transaction) (m : TransactionManager)
    → (t.owns_lock ≡ false → (abort t m).1.owns_lock ≡ false)
      × ((abort t m).1.state ≡ running → (abort t m).1.owns_lock ≡ true)
unfolding abort
abort-lets_go t m =
    let (free, ended) =
      done_then-lets_go (threw abort_not_implemented) (record t { state = aborted }) m in
    ((λ _. free), (λ runs. absurd (cc)))

Step-IsExclusive : (s s' : System) → IsExclusive s → Step s s' → IsExclusive s'
unfolding create_txn new_transaction set_tainted
Step-IsExclusive s s' ex (creates free) = record {
  one_owner = omega (arith, owners-push s.txns (create_txn s.manager).0, ex.one_owner, ap own free);
  running_owns = λ j t h runs. elim (Bool-cases (length s.txns == j)) [
    | inl same ↦ sym (
        ap (λ (x : Transaction). x.owns_lock)
          (some_injective {x = (create_txn s.manager).0} {y = t}
            (ground (arith, get_elem?-push s.txns j (create_txn s.manager).0))))
    | inr ne ↦
        ex.running_owns j t (ground (arith, get_elem?-push s.txns j (create_txn s.manager).0)) runs
  ];
}
Step-IsExclusive s s' ex (commits i t there) =
    let (lets_go, ready) = commit-lets_go t s.manager t.state refl in
    after_call-IsExclusive s ex i t there (commit t s.manager) lets_go ready
Step-IsExclusive s s' ex (aborts i t there) =
    let (lets_go, ready) = abort-lets_go t s.manager in
    after_call-IsExclusive s ex i t there (abort t s.manager) lets_go ready
Step-IsExclusive s s' ex (taints i t there) = record {
  one_owner = omega (arith, owners-set s.txns i t (set_tainted t) there, ex.one_owner);
  running_owns = replaced_running_owns s ex i t there (set_tainted t) (λ runs. absurd (cc));
}

Reachable-IsExclusive : (s : System) → Reachable s → IsExclusive s
unfolding owners
Reachable-IsExclusive s start = record { one_owner = refl; running_owns = λ i t h. absurd (cc) }
Reachable-IsExclusive s' (next {s} before step) =
    Step-IsExclusive s s' (Reachable-IsExclusive s before) step

-- Whatever calls have been made, no two transactions run at once.
pub Reachable-one_running :
    (s : System) (i j : ℕ) (t u : Transaction)
    → Reachable s
    → get_elem? s.txns i ≡ some t
    → get_elem? s.txns j ≡ some u
    → t.state ≡ running
    → u.state ≡ running
    → i ≡ j
Reachable-one_running s i j t u reached at_i at_j runs_t runs_u = elim (Bool-cases (i == j)) [
  | inl same ↦ (==_iff i j).0 same
  | inr ne ↦
      let ex = Reachable-IsExclusive s reached in
      let without : Transaction = record t { owns_lock = false } in
      let still : get_elem? (set s.txns i without) j ≡ some u =
        ground (arith, get_elem?-set s.txns i j without (get_elem?-lt s.txns i t at_i)) in
      absurd (
        omega (
          arith,
          owners-set s.txns i t without at_i,
          owners-lower (set s.txns i without) j u still,
          ap own (ex.running_owns i t at_i runs_t),
          ap own (ex.running_owns j u at_j runs_u),
          ex.one_owner,
          own_le s.db_locked,
        ))
]

-- Whatever calls have been made, committing a transaction that runs returns true and leaves it
-- committed and the lock of the database free.
pub commit-releases :
    (s : System) (i : ℕ) (t : Transaction)
    → Reachable s
    → get_elem? s.txns i ≡ some t
    → t.state ≡ running
    → ((commit t s.manager).0 ≡ returned true)
      × ((commit t s.manager).1.state ≡ committed)
      × ((after_call i t.owns_lock (commit t s.manager) s).db_locked ≡ false)
unfolding commit verify_txn done_then after_call
commit-releases s i t reached there runs =
    let held = (Reachable-IsExclusive s reached).running_owns i t there runs in
    rw (held, runs, commit, done_then, held) (refl, refl, refl)

commit-running :
    (t : Transaction) (m : TransactionManager)
    → t.state ≡ running
    → t.owns_lock ≡ true
    → commit t m ≡ (
      returned true,
      record t { state = committed; owns_lock = false },
      record m { txn_map = erase_id t.txn_id m.txn_map },
    )
unfolding commit verify_txn done_then
commit-running t m runs held = rw (runs, commit, done_then, held)

-- After the commit of a transaction that runs and holds the lock, Abort of it is not refused: the
-- call throws a std::system_error, since the lock is gone, and only after it has set the state to
-- ABORTED.
pub abort_after_commit :
    (t : Transaction) (m : TransactionManager)
    → t.state ≡ running
    → t.owns_lock ≡ true
    → abort (commit t m).1 (commit t m).2
      ≡ (system_error, record (commit t m).1 { state = aborted }, (commit t m).2)
unfolding done_then abort
abort_after_commit t m runs held = rw (commit-running t m runs held)
