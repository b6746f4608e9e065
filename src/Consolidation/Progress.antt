-- ===== src/Consolidation/Progress.antt =====
-- The cursor that `Consolidate` (src/consolidation/consolidation_service.cpp) stores.
use agent_memory_cpp.Prelude.{
  ℕ, ◌+◌, ◌≡◌, ◌≢◌, ◌∙◌, sym, subst, true, false, none, some, Action, arith, inl, inr, is_empty,
  Option, List,
}
use agent_memory_cpp.Text.{Text}
use agent_memory_cpp.Text.Decimal.{cursor_to_int}
use agent_memory_cpp.Types.{MemoryEvent, MemoryOperationResult, MemoryConsolidationRequest}
use agent_memory_cpp.Storage.Tables.{Tables}
use agent_memory_cpp.Storage.Engine.{MemorySqliteStore}
use agent_memory_cpp.Storage.Cursors.{save_consolidation_cursor_unlocked}
use agent_memory_cpp.Storage.Cursors.RoundTrip.{cursor_value, cursor_value-upsert}
use agent_memory_cpp.Storage.Transaction.{
  begin_transaction, run_in_transaction, save_consolidation_cursor,
}
use agent_memory_cpp.Storage.Transaction.Atomic.{run_in_transaction-IsAtomic}
use agent_memory_cpp.Storage.Invariant.{IsConsistent}
use agent_memory_cpp.Consolidation.Batch.{
  build, LongTermMemoryUpdate, ConsolidationBatchBuildResult,
}
use agent_memory_cpp.Consolidation.Service.{
  Processor, consolidate, consolidate_nothing, consolidate_batch, persist, persist_cursor,
  persist_work, persist_update, write_cursor, choose_update,
}
use agent_memory_cpp.Consolidation.Writer.{save_session_summary}
use agent_memory_cpp.Consolidation.Atomic.{begun-Sound}
use agent_memory_cpp.Consolidation.Sound.{Keeps, persist_work-Keeps, write_cursor-Keeps}

module _ (request : MemoryConsolidationRequest) (cursor : Text) where
  -- The tables hold the cursor.
  abbrev Holds : Tables → Type 0
  Holds t = cursor_value request.agent_id request.session_id t.cursors ≡ some (cursor_to_int cursor)

  save_cursor-Holds :
      (s : MemorySqliteStore)
      → (save_consolidation_cursor_unlocked request.agent_id request.session_id cursor s).0 ≡ true
      → Holds
          (save_consolidation_cursor_unlocked request.agent_id request.session_id cursor s).1.tables
  unfolding save_consolidation_cursor_unlocked
  save_cursor-Holds s h = ground (
    arith,
    cursor_value-upsert request.agent_id request.session_id cursor (s.engine.now (s.calls + 1))
        s.tables,
  )

  write_cursor-Holds :
      (s : MemorySqliteStore)
      → (write_cursor request cursor s).0.succeeded ≡ true
      → Holds (write_cursor request cursor s).1.tables
  unfolding write_cursor save_consolidation_cursor
  write_cursor-Holds s h = ground (arith, save_cursor-Holds s)

  persist_cursor-Holds :
      (s : MemorySqliteStore)
      → is_empty cursor ≡ false
      → (persist_cursor request cursor s).0.succeeded ≡ true
      → Holds (persist_cursor request cursor s).1.tables
  unfolding persist_cursor
  persist_cursor-Holds s some_cursor h = ground (arith, write_cursor-Holds s)

module _ (request : MemoryConsolidationRequest) (built : ConsolidationBatchBuildResult)
    (update : LongTermMemoryUpdate) where
  persist-Holds :
      (s : MemorySqliteStore)
      → is_empty built.next_cursor ≡ false
      → (persist request built update s).0.operation.succeeded ≡ true
      → Holds request built.next_cursor (persist request built update s).1.tables
  persist-Holds s some_cursor h =
      let (a, t) =
        save_session_summary request.agent_id built.session_id built.session_summary
          built.session_source_refs s in
      let (b, u) = persist_update request built update t in
      let last = persist_cursor-Holds request built.next_cursor u some_cursor in
      unfold persist in ground (arith, last)

true_not_false : true ≢ false
true_not_false e = cc

module _ (s : MemorySqliteStore) (ok : IsConsistent s.tables) (idle : s.saved ≡ none)
    (rolls : (n : ℕ) → s.engine.rolls_back n ≡ true) where
  -- What work establishes where it succeeds holds after a transaction that succeeds.
  run-establishes :
      (P : Tables → Type 0) (work : Action MemorySqliteStore MemoryOperationResult)
      → Keeps work
      → ((t : MemorySqliteStore) → (work t).0.succeeded ≡ true → P (work t).1.tables)
      → (run_in_transaction work s).0.succeeded ≡ true
      → P (run_in_transaction work s).1.tables
  run-establishes P work keeps gives h =
      let b = (begin_transaction s).1 in
      let after = keeps.at b b (begun-Sound s ok idle rolls) in
      elim (run_in_transaction-IsAtomic work s idle rolls after.frame).outcome [
        | inl done ↦ subst P (sym done.2) (gives b done.1)
        | inr undone ↦ absurd (true_not_false (sym h ∙ undone.0))
      ]

  consolidate_nothing-Holds :
      (request : MemoryConsolidationRequest) (built : ConsolidationBatchBuildResult)
      → is_empty built.next_cursor ≡ false
      → (consolidate_nothing request built s).0.succeeded ≡ true
      → Holds request built.next_cursor (consolidate_nothing request built s).1.tables
  consolidate_nothing-Holds request built found h =
      let moved =
        run-establishes (Holds request built.next_cursor) (write_cursor request built.next_cursor)
          (write_cursor-Keeps request built.next_cursor)
          (write_cursor-Holds request built.next_cursor) in
      unfold consolidate_nothing in ground (arith, moved, found, h)

  consolidate_batch-Holds :
      (fallback model : Option Processor) (request : MemoryConsolidationRequest)
      (built : ConsolidationBatchBuildResult)
      → is_empty built.next_cursor ≡ false
      → (consolidate_batch fallback model request built s).0.succeeded ≡ true
      → Holds request built.next_cursor (consolidate_batch fallback model request built s).1.tables
  unfolding consolidate_batch
  consolidate_batch-Holds fallback model request built found =
      let update = choose_update fallback model built.batch in
      run-establishes (Holds request built.next_cursor) (persist_work request built update)
        (persist_work-Keeps request built update)
        (λ t h. persist-Holds request built update t found h)

  -- On a consistent store with no open transaction, and if every ROLLBACK succeeds: where
  -- `Consolidate` succeeds and the batch has a next cursor, the cursor that is stored for the request's
  -- agent and session is the number of that next cursor, also where the batch holds no event.
  pub consolidate-Holds :
      (fallback model : Option Processor) (request : MemoryConsolidationRequest)
      (events : List MemoryEvent)
      → is_empty (build request events).next_cursor ≡ false
      → (consolidate fallback model request events s).0.succeeded ≡ true
      → cursor_value request.agent_id request.session_id
          (consolidate fallback model request events s).1.tables.cursors
        ≡ some (cursor_to_int (build request events).next_cursor)
  consolidate-Holds fallback model request events found h =
      let b = build request events in
      let nothing = consolidate_nothing-Holds request b found in
      let batch = consolidate_batch-Holds fallback model request b found in
      unfold consolidate in ground (arith, nothing, batch, h)
