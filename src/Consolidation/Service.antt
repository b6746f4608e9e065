-- ===== src/Consolidation/Service.antt =====
-- src/consolidation/consolidation_service.cpp. A processor of long-term memory, be it the model or
-- the rules, is a function from batches to updates.
use agent_memory_cpp.Prelude.{
  ◌+◌, Bool, true, false, not, ◌&&◌, ◌||◌, Option, none, some, List, is_empty, length, Action,
  if◌then◌else◌,
}
use agent_memory_cpp.Prelude.Int.{to_int32}
use agent_memory_cpp.Text.{Text, codes}
use agent_memory_cpp.Types.{
  MemoryEvent, MemoryError, MemoryOperationResult, memory_success, failed_with, plain_error,
  no_error, has_error, MemoryConsolidationRequest, MemoryConsolidationResult, no_consolidation,
}
use agent_memory_cpp.Storage.Engine.{MemorySqliteStore}
use agent_memory_cpp.Storage.Transaction.{
  begin_transaction, run_in_transaction, save_consolidation_cursor,
}
use agent_memory_cpp.Consolidation.Batch.{
  LongTermMemoryBatch, LongTermMemoryUpdate, empty_update, ConsolidationBatchBuildResult, build,
}
use agent_memory_cpp.Consolidation.Writer.{
  MemoryUpdateWriteResult, nothing_written, save_session_summary, save_update,
}

abbrev pub Processor : Type 0
Processor = LongTermMemoryBatch → LongTermMemoryUpdate

-- A writing step that has failed without an error gets one.
abbrev or_error : Text → Text → MemoryError → MemoryError
or_error code message e = if has_error e then e else plain_error code message

abbrev cursor_save_failed : MemoryError → MemoryError
cursor_save_failed =
    or_error (codes "cursor_save_failed") (codes "failed to persist consolidation cursor")

unfoldable pub write_cursor :
    MemoryConsolidationRequest → Text → Action MemorySqliteStore MemoryOperationResult
unfolding save_consolidation_cursor
write_cursor request cursor s =
    let (written, t) = save_consolidation_cursor request.agent_id request.session_id cursor s in
    (
      if written.succeeded then memory_success else failed_with (cursor_save_failed written.error),
      t,
    )

-- What the body of the transaction returns, with the variables that it captures by reference.
pub record Persisted : Type 0 where
  pub operation : MemoryOperationResult
  pub session_write : MemoryUpdateWriteResult
  pub update_write : MemoryUpdateWriteResult

abbrev not_persisted : Text → MemoryError → MemoryOperationResult
not_persisted message e = failed_with (record {
  code = codes "consolidation_failed";
  message = message;
  details = e.details;
  retryable = e.retryable;
})

abbrev pub has_update : LongTermMemoryUpdate → Bool
has_update update =
    not (is_empty update.topic_summaries)
    || not (is_empty update.profile_summaries)
    || not (is_empty update.entities)
    || not (is_empty update.relations)

-- The last step of the body: the cursor, if there is one.
unfoldable pub persist_cursor :
    MemoryConsolidationRequest → Text → Action MemorySqliteStore MemoryOperationResult
unfolding write_cursor
persist_cursor request cursor s =
    if is_empty cursor then (memory_success, s) else write_cursor request cursor s

unfoldable pub persist_update :
    MemoryConsolidationRequest
    → ConsolidationBatchBuildResult
    → LongTermMemoryUpdate
    → Action MemorySqliteStore MemoryUpdateWriteResult
unfolding save_update
persist_update request built update s =
    if has_update update
    then save_update request.agent_id built.session_id update built.batch.source_refs s
    else (nothing_written, s)

-- The body of the transaction.
unfoldable pub persist :
    MemoryConsolidationRequest
    → ConsolidationBatchBuildResult
    → LongTermMemoryUpdate
    → Action MemorySqliteStore Persisted
unfolding save_session_summary persist_update persist_cursor
persist request built update s =
    let (session_write, t) =
      save_session_summary request.agent_id built.session_id built.session_summary
        built.session_source_refs s in
    let (update_write, u) = persist_update request built update t in
    let (operation, v) = persist_cursor request built.next_cursor u in
    if session_write.succeeded
    then (if update_write.succeeded
        then (
          record {
            operation = operation;
            session_write = session_write;
            update_write = update_write;
          },
          v,
        )
        else (
          record {
            operation = not_persisted (codes "failed to persist memory update") update_write.error;
            session_write = session_write;
            update_write = update_write;
          },
          u,
        ))
    else (
      record {
        operation = not_persisted (codes "failed to persist session summary") session_write.error;
        session_write = session_write;
        update_write = nothing_written;
      },
      t,
    )

abbrev pub persist_work :
    MemoryConsolidationRequest
    → ConsolidationBatchBuildResult
    → LongTermMemoryUpdate
    → Action MemorySqliteStore MemoryOperationResult
persist_work request built update s =
    let (persisted, t) = persist request built update s in (persisted.operation, t)

abbrev run_processor : Option Processor → LongTermMemoryBatch → LongTermMemoryUpdate
run_processor none batch = empty_update
run_processor (some process) batch = process batch

abbrev is_some : Option Processor → Bool
is_some none = false
is_some (some p) = true

abbrev pub needs_fallback : Option Processor → Option Processor → LongTermMemoryBatch → Bool
needs_fallback fallback model batch =
    not (has_update (run_processor model batch)) && is_some fallback

-- The model's update, or that of the rules if the model is absent or has found nothing.
unfoldable pub choose_update :
    Option Processor → Option Processor → LongTermMemoryBatch → LongTermMemoryUpdate
choose_update fallback model batch =
    if needs_fallback fallback model batch
    then run_processor fallback batch
    else run_processor model batch

abbrev started : ConsolidationBatchBuildResult → MemoryConsolidationResult
started built = record no_consolidation {
  session_id = built.session_id;
  next_cursor = built.next_cursor;
  processed_events = to_int32 (length built.batch.events);
}

-- No event is in the batch: only the cursor moves, if there is one.
unfoldable pub consolidate_nothing :
    MemoryConsolidationRequest
    → ConsolidationBatchBuildResult
    → Action MemorySqliteStore MemoryConsolidationResult
unfolding write_cursor run_in_transaction to_int32
consolidate_nothing request built s =
    let (operation, t) = run_in_transaction (write_cursor request built.next_cursor) s in
    if is_empty built.next_cursor then (record (started built) { succeeded = true }, s) else (
      record (started built) {
        succeeded = operation.succeeded;
        error = if operation.succeeded then no_error else cursor_save_failed operation.error;
      },
      t,
    )

unfoldable pub consolidate_batch :
    Option Processor
    → Option Processor
    → MemoryConsolidationRequest
    → ConsolidationBatchBuildResult
    → Action MemorySqliteStore MemoryConsolidationResult
unfolding choose_update persist run_in_transaction begin_transaction to_int32
consolidate_batch fallback model request built s =
    let update = choose_update fallback model built.batch in
    let (persisted, _) = persist request built update (begin_transaction s).1 in
    let (operation, t) = run_in_transaction (persist_work request built update) s in
    (
      record (started built) {
        succeeded = operation.succeeded;
        fallback_used = needs_fallback fallback model built.batch;
        saved_summaries =
            if operation.succeeded
            then persisted.session_write.saved_summaries + persisted.update_write.saved_summaries
            else 0;
        saved_entities = if operation.succeeded then persisted.update_write.saved_entities else 0;
        saved_relations = if operation.succeeded then persisted.update_write.saved_relations else 0;
        error =
            if operation.succeeded
            then no_error
            else or_error (codes "consolidation_failed")
                (codes "failed to persist consolidation update") operation.error;
      },
      t,
    )

-- `Consolidate`
unfoldable pub consolidate :
    Option Processor
    → Option Processor
    → MemoryConsolidationRequest
    → List MemoryEvent
    → Action MemorySqliteStore MemoryConsolidationResult
unfolding build consolidate_nothing consolidate_batch
consolidate fallback model request events s =
    let built = build request events in
    if is_empty built.batch.events
    then consolidate_nothing request built s
    else consolidate_batch fallback model request built s
