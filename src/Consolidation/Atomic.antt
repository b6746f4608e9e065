-- ===== src/Consolidation/Atomic.antt =====
-- The transaction of `Consolidate` (src/consolidation/consolidation_service.cpp): what its end leaves of
-- the tables.
use agent_memory_cpp.Prelude.{
  ℕ, ◌≡◌, ap, ◌∙◌, arith, ◌⊎◌, refl, sym, subst, Bool, true, false, none, Action, arith, inl, inr,
  Bool-cases, is_empty, Option, List,
}
use agent_memory_cpp.Types.{MemoryEvent, MemoryOperationResult, MemoryConsolidationRequest}
use agent_memory_cpp.Storage.Engine.{MemorySqliteStore}
use agent_memory_cpp.Storage.Transaction.{begin_transaction, run_in_transaction}
use agent_memory_cpp.Storage.Transaction.Atomic.{run_in_transaction-IsAtomic}
use agent_memory_cpp.Storage.Post.{SameFrame-refl}
use agent_memory_cpp.Storage.Invariant.{IsConsistent}
use agent_memory_cpp.Storage.Invariant.Writes.{Sound}
use agent_memory_cpp.Storage.Tables.{Tables}
use agent_memory_cpp.Consolidation.Log.{KeepsLog, write_cursor-KeepsLog, persist_work-KeepsLog}
use agent_memory_cpp.Consolidation.Batch.{build, ConsolidationBatchBuildResult}
use agent_memory_cpp.Consolidation.Service.{
  Processor, consolidate, consolidate_nothing, consolidate_batch, persist_work, write_cursor,
  choose_update,
}
use agent_memory_cpp.Consolidation.Sound.{Keeps, persist_work-Keeps, write_cursor-Keeps}

-- What a store is like after a method that has started with the store `s`.
pub record Transacted (s : MemorySqliteStore) (succeeded : Bool) (t : MemorySqliteStore)
    : Type 0 where
  pub closed : t.saved ≡ none
  pub kept : t.engine ≡ s.engine
  pub consistent : IsConsistent t.tables
  pub outcome : (succeeded ≡ true) ⊎ ((succeeded ≡ false) × (t.tables ≡ s.tables))

module _ (s : MemorySqliteStore) (ok : IsConsistent s.tables) (idle : s.saved ≡ none)
    (rolls : (n : ℕ) → s.engine.rolls_back n ≡ true) where
  begin_transaction-tables : (begin_transaction s).1.tables ≡ s.tables
  unfolding begin_transaction
  begin_transaction-tables = ground arith

  pub begun-Sound : Sound (begin_transaction s).1 (begin_transaction s).1
  begun-Sound = record {
    tables = subst IsConsistent (sym begin_transaction-tables) ok;
    frame = SameFrame-refl (begin_transaction s).1;
  }

  pub run-Transacted :
      (work : Action MemorySqliteStore MemoryOperationResult)
      → Keeps work
      → let (result, t) = run_in_transaction work s in Transacted s result.succeeded t
  run-Transacted work keeps =
      let b = (begin_transaction s).1 in
      let after = keeps.at b b begun-Sound in
      let ended = run_in_transaction-IsAtomic work s idle rolls after.frame in
      record {
        closed = ended.closed;
        kept = ended.kept;
        consistent = elim ended.outcome [
          | inl good ↦ subst IsConsistent (sym good.2) after.tables
          | inr bad ↦ subst IsConsistent (sym bad.1) ok
        ];
        outcome = elim ended.outcome [ inl good ↦ inl good.0 | inr bad ↦ inr bad ];
      }

  consolidate_nothing-Transacted :
      (request : MemoryConsolidationRequest) (built : ConsolidationBatchBuildResult)
      → let (result, t) = consolidate_nothing request built s in Transacted s result.succeeded t
  consolidate_nothing-Transacted request built =
      let moved =
        run-Transacted (write_cursor request built.next_cursor)
          (write_cursor-Keeps request built.next_cursor) in
      unfold consolidate_nothing in
      elim (Bool-cases (is_empty built.next_cursor)) [
        | inl none_found ↦
            rw none_found
              (record { closed = idle; kept = refl; consistent = ok; outcome = inl refl })
        | inr found ↦ rw found moved
      ]

  consolidate_batch-Transacted :
      (fallback model : Option Processor) (request : MemoryConsolidationRequest)
      (built : ConsolidationBatchBuildResult)
      → let (result, t) = consolidate_batch fallback model request built s in
        Transacted s result.succeeded t
  unfolding consolidate_batch
  consolidate_batch-Transacted fallback model request built =
      let update = choose_update fallback model built.batch in
      run-Transacted (persist_work request built update) (persist_work-Keeps request built update)

  -- On a consistent store with no open transaction, and if every ROLLBACK succeeds: whatever the
  -- request, the events, the processors and the failures of the engine, after `Consolidate` no
  -- transaction is open and the tables are consistent, and where it reports a failure they are those
  -- of before.
  pub consolidate-Transacted :
      (fallback model : Option Processor) (request : MemoryConsolidationRequest)
      (events : List MemoryEvent)
      → let (result, t) = consolidate fallback model request events s in
        Transacted s result.succeeded t
  unfolding consolidate
  consolidate-Transacted fallback model request events =
      let b = build request events in
      elim (Bool-cases (is_empty b.batch.events)) [
        | inl nothing ↦ rw nothing (consolidate_nothing-Transacted request b)
        | inr some_events ↦ rw some_events (consolidate_batch-Transacted fallback model request b)
      ]

  run-KeepsLog :
      (work : Action MemorySqliteStore MemoryOperationResult)
      → Keeps work
      → KeepsLog work
      → (run_in_transaction work s).1.tables.events ≡ s.tables.events
  run-KeepsLog work keeps log =
      let b = (begin_transaction s).1 in
      let after = keeps.at b b begun-Sound in
      elim (run_in_transaction-IsAtomic work s idle rolls after.frame).outcome [
        | inl done ↦
            ap (λ (t : Tables). t.events) done.2
            ∙ log.at b
            ∙ ap (λ (t : Tables). t.events) begin_transaction-tables
        | inr undone ↦ ap (λ (t : Tables). t.events) undone.1
      ]

  -- Consolidation never changes the log of events.
  pub consolidate-KeepsLog :
      (fallback model : Option Processor) (request : MemoryConsolidationRequest)
      (events : List MemoryEvent)
      → (consolidate fallback model request events s).1.tables.events ≡ s.tables.events
  consolidate-KeepsLog fallback model request events =
      let b = build request events in
      let update = choose_update fallback model b.batch in
      let nothing =
        run-KeepsLog (write_cursor request b.next_cursor) (write_cursor-Keeps request b.next_cursor)
          (write_cursor-KeepsLog request b.next_cursor) in
      let batch =
        run-KeepsLog (persist_work request b update) (persist_work-Keeps request b update)
          (persist_work-KeepsLog request b update) in
      unfold consolidate consolidate_nothing consolidate_batch in ground (arith, nothing, batch)
