-- ===== src/Runtime.antt =====
-- src/core/builtin_memory_runtime.cpp and the structure of src/core/runtime_services.h: the services
-- of a runtime, the consolidation and the appending of events. The other calls are in Runtime.Calls.
pub mod Atomic
pub mod Progress
pub mod Calls
pub mod Creation
pub mod Served
pub mod Settled
pub mod Lasting
use agent_memory_cpp.Prelude.{
  Bool, true, false, Option, none, some, List, [], is_empty, if◌then◌else◌,
}
use agent_memory_cpp.Prelude.Int.{ℤ}
use agent_memory_cpp.Text.{Text, codes}
use agent_memory_cpp.Types.{
  MemoryEvent, MemoryError, MemoryOperationResult, memory_success, memory_failure, has_error,
  plain_error, MemoryConsolidationRequest, MemoryConsolidationResult, no_consolidation,
  ConsolidationCursorResult, MemoryEventsResult, no_error,
}
use agent_memory_cpp.Storage.Engine.{MemorySqliteStore}
use agent_memory_cpp.Storage.Events.{save_event, load_events_after_cursor}
use agent_memory_cpp.Storage.Cursors.{load_consolidation_cursor, cursor_loaded}
use agent_memory_cpp.Consolidation.Rules.{process}
use agent_memory_cpp.Consolidation.Service.{Processor, consolidate}
use agent_memory_cpp.Payload.Names.{PayloadService}

-- Of the context builder, what it keeps of the configuration: the default token budget.
pub record ContextBuilder : Type 0 where
  pub token_budget : ℤ

pub record RuntimeServices : Type 0 where
  pub store : Option MemorySqliteStore
  pub store_error : Text
  -- The store that a payload service points to is the one above.
  pub payload_service : Option PayloadService
  pub context_builder : Option ContextBuilder
  -- The consolidation service, if there is one, falls back to the rules.
  pub has_consolidation_service : Bool
  pub model_client : Option Processor
  pub model_client_error : Text

-- `StoreUnavailableMessage`
abbrev pub store_unavailable_message : RuntimeServices → Text
store_unavailable_message services =
    if is_empty services.store_error then codes "memory store unavailable" else services.store_error

abbrev pub failed_consolidation : MemoryError → MemoryConsolidationResult
failed_consolidation e = record no_consolidation { error = e }

abbrev error_or : Text → Text → MemoryError → MemoryError
error_or code message e = if has_error e then e else plain_error code message

-- The cursor to start from: none where everything is processed again.
unfoldable pub start_cursor :
    MemoryConsolidationRequest → MemorySqliteStore → ConsolidationCursorResult × MemorySqliteStore
unfolding load_consolidation_cursor
start_cursor request s =
    if request.force_reprocess
    then (cursor_loaded [], s)
    else load_consolidation_cursor request.agent_id request.session_id s

-- The part of `ConsolidateWithModel` behind the tests for a store and a service.
unfoldable pub consolidate_store :
    Option Processor
    → MemoryConsolidationRequest
    → MemorySqliteStore
    → MemoryConsolidationResult × MemorySqliteStore
unfolding start_cursor load_events_after_cursor consolidate process
consolidate_store model request s =
    let (start, t) = start_cursor request s in
    let (events, u) =
      load_events_after_cursor request.agent_id request.session_id start.cursor
        request.excluded_session_ids t in
    let consolidated = consolidate (some process) model request events.events u in
    if start.succeeded
    then (if events.succeeded then consolidated else (
      failed_consolidation (
          error_or (codes "events_load_failed") (codes "failed to load events for consolidation")
            events.error),
      u,
    ))
    else (
      failed_consolidation (
          error_or (codes "cursor_load_failed") (codes "failed to load consolidation cursor")
            start.error),
      t,
    )

abbrev pub with_store : RuntimeServices → MemorySqliteStore → RuntimeServices
with_store services s = record services { store = some s }

-- `ConsolidateWithModel`
unfoldable pub consolidate_with_model :
    Option Processor
    → MemoryConsolidationRequest
    → RuntimeServices
    → MemoryConsolidationResult × RuntimeServices
unfolding consolidate_store
consolidate_with_model model request services = elim services.store [
  | none ↦ (
    failed_consolidation
        (plain_error (codes "store_unavailable") (store_unavailable_message services)),
    services,
  )
  | some s ↦
      (let (result, t) = consolidate_store model request s in
        if services.has_consolidation_service then (result, with_store services t) else (
          failed_consolidation (
              plain_error (codes "consolidation_unavailable")
                (codes "consolidation service unavailable")),
          services,
        ))
]

-- `AppendEvent`
unfoldable pub append_event :
    MemoryEvent → RuntimeServices → MemoryOperationResult × RuntimeServices
unfolding save_event
append_event event services = elim services.store [
  | none ↦
      (memory_failure (codes "store_unavailable") (store_unavailable_message services), services)
  | some s ↦
      (let (result, t) = save_event event s in
        (
          if result.succeeded
              then memory_success
              else if has_error result.error
              then result
              else memory_failure (codes "event_persist_failed")
                  (codes "failed to persist memory event"),
          with_store services t,
        ))
]
