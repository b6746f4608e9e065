-- ===== src/Storage/Transaction/Atomic.antt =====
-- How `RunInTransaction` (src/storage/sqlite_store.cpp) ends.
use agent_memory_cpp.Prelude.{
  ℕ, suc, ◌≡◌, refl, subst, ◌⊎◌, Bool, true, false, none, some, Action, arith, inl, inr, Bool-cases,
}
use agent_memory_cpp.Text.{codes}
use agent_memory_cpp.Types.{MemoryOperationResult, failed_with}
use agent_memory_cpp.Storage.Engine.{MemorySqliteStore, sqlite_error, unavailable}
use agent_memory_cpp.Storage.Post.{SameFrame}
use agent_memory_cpp.Storage.Transaction.{begin_transaction, finish_transaction, run_in_transaction}

abbrev pub Work : Type 0
Work = Action MemorySqliteStore MemoryOperationResult

-- Work that, where it is run, leaves the open transaction to `RunInTransaction`.
abbrev pub KeepsFrame : Work → MemorySqliteStore → Type 0
KeepsFrame work t = SameFrame t (work t).1

-- How a transaction that began in `s` has ended, when the work stopped in `u`.
pub record Ended (s u : MemorySqliteStore) (worked : Bool)
    (r : MemoryOperationResult × MemorySqliteStore) : Type 0 where
  pub closed : r.1.saved ≡ none
  pub kept : r.1.engine ≡ s.engine
  pub outcome :
      ((r.0.succeeded ≡ true) × (worked ≡ true) × (r.1.tables ≡ u.tables))
      ⊎ ((r.0.succeeded ≡ false) × (r.1.tables ≡ s.tables))

finish-Ended :
    (s u : MemorySqliteStore) (result : MemoryOperationResult)
    → ((n : ℕ) → u.engine.rolls_back n ≡ true)
    → u.saved ≡ some s.tables
    → u.engine ≡ s.engine
    → Ended s u result.succeeded (finish_transaction result u)
unfolding finish_transaction
finish-Ended s u result rolls saved same = ground (arith, rolls u.calls, rolls (suc u.calls))

abbrev begun : MemorySqliteStore → MemorySqliteStore
begun s = record s { saved = some s.tables; calls = suc s.calls }

abbrev refused : MemorySqliteStore → MemorySqliteStore
refused s = record s { calls = suc s.calls }

begin_transaction_cases :
    (s : MemorySqliteStore)
    → s.saved ≡ none
    → (begin_transaction s ≡ (true, begun s)) ⊎ (begin_transaction s ≡ (false, refused s))
unfolding begin_transaction
begin_transaction_cases s idle = elim (Bool-cases (s.engine.executes s.calls)) [
  | inl e ↦ inl (rw (e, idle))
  | inr e ↦ inr (rw e)
]

module _ (work : Work) (s : MemorySqliteStore) (idle : s.saved ≡ none) where
  begun-Ended :
      ((n : ℕ) → s.engine.rolls_back n ≡ true)
      → KeepsFrame work (begun s)
      → let (result, u) = work (begun s) in Ended s u result.succeeded (finish_transaction result u)
  begun-Ended rolls f =
      let (result, u) = work (begun s) in
      finish-Ended s u result (λ n. rw f.engine (rolls n)) f.saved f.engine

  run-shut : s.opened ≡ false → run_in_transaction work s ≡ (failed_with unavailable, s)
  unfolding run_in_transaction
  run-shut shut = ground arith

  run-refused :
      s.opened ≡ true
      → begin_transaction s ≡ (false, refused s)
      → run_in_transaction work s
        ≡ (failed_with (sqlite_error (codes "RunInTransaction::begin") (refused s)), refused s)
  unfolding run_in_transaction
  run-refused opened e = ground arith

  run-begun :
      s.opened ≡ true
      → begin_transaction s ≡ (true, begun s)
      → run_in_transaction work s
        ≡ (let (result, u) = work (begun s) in finish_transaction result u)
  unfolding run_in_transaction
  run-begun opened e = ground arith

-- If no transaction is open, every ROLLBACK succeeds, and the work neither ends the transaction nor
-- replaces the connection, then after `RunInTransaction` no transaction is open; where it reports a
-- failure the tables are those of before, and where it reports success the work has reported success
-- and the tables are those that the work has left.
pub run_in_transaction-IsAtomic :
    (work : Work) (s : MemorySqliteStore)
    → s.saved ≡ none
    → ((n : ℕ) → s.engine.rolls_back n ≡ true)
    → KeepsFrame work (begin_transaction s).1
    → let worked = work (begin_transaction s).1 in
      Ended s worked.1 worked.0.succeeded (run_in_transaction work s)
run_in_transaction-IsAtomic work s idle rolls keeps = elim (Bool-cases s.opened) [
  | inr shut ↦
      rw (run-shut work s idle shut)
        (record { closed = idle; kept = refl; outcome = inr (refl, refl) })
  | inl opened ↦ elim (begin_transaction_cases s idle) [
    | inl e ↦
        rw (run-begun work s idle opened e, e)
          (begun-Ended work s idle rolls (subst (λ p. KeepsFrame work p.1) e keeps))
    | inr e ↦
        rw (run-refused work s idle opened e)
          (record { closed = idle; kept = refl; outcome = inr (refl, refl) })
  ]
]
