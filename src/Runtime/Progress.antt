-- ===== src/Runtime/Progress.antt =====
-- One consolidation of the runtime after another: where the next one goes on.
use agent_memory_cpp.Prelude.{
  ◌+◌, ◌≤◌, keep_if, false, ◌≡◌, ◌⊎◌, true, Option, some, List, [], ◌++◌, map, length, is_empty,
}
use agent_memory_cpp.Prelude.Int.{pos, is_positive, to_ℕ}
use agent_memory_cpp.Text.{Text}
use agent_memory_cpp.Types.{
  MemoryEvent, MemoryConsolidationRequest, MemoryConsolidationResult, MemoryEventsResult,
}
use agent_memory_cpp.Storage.Tables.{Tables, EventRow}
use agent_memory_cpp.Storage.Engine.{Engine, MemorySqliteStore}
use agent_memory_cpp.Storage.Events.{load_events_after_cursor, events_after, read_event_row}
use agent_memory_cpp.Storage.Cursors.RoundTrip.{cursor_value, cursor_text}
use agent_memory_cpp.Consolidation.Service.{Processor, choose_update}
use agent_memory_cpp.Consolidation.Batch.{is_eligible, LongTermMemoryBatch, LongTermMemoryUpdate}
use agent_memory_cpp.Consolidation.Rules.{process}
use agent_memory_cpp.History.{IsSettled}
use agent_memory_cpp.Runtime.{start_cursor}

-- The stored cursor of the request's agent and session, as `LoadConsolidationCursor` reads it.
abbrev pub stored_cursor : MemoryConsolidationRequest → Tables → Text
stored_cursor request t = cursor_text (cursor_value request.agent_id request.session_id t.cursors)

-- The rows of the request's agent and session behind a cursor.
abbrev pub rows_behind : MemoryConsolidationRequest → Text → Tables → List EventRow
rows_behind request cursor t =
    events_after request.agent_id request.session_id cursor request.excluded_session_ids t

-- A result reports the parts of an update, and one summary more for the session.
abbrev pub Reports : LongTermMemoryUpdate → MemoryConsolidationResult → Type 0
Reports update result =
    (result.saved_summaries ≡ 1 + (length update.topic_summaries + length update.profile_summaries))
    × (result.saved_entities ≡ length update.entities)
    × (result.saved_relations ≡ length update.relations)

-- The rows behind the cursor in `s` are those that were seen and then exactly those behind the cursor
-- that is stored in `t`; where there is a row behind the cursor, the first one at least was seen. What
-- was seen was processed: the eligible events among it are the batch, whose update was saved.
pub record Advances (model : Option Processor) (request : MemoryConsolidationRequest)
    (cursor : Text) (engine : Engine) (s : Tables) (result : MemoryConsolidationResult) (t : Tables)
    : Type 0 where
  pub seen : List EventRow
  pub ahead : List EventRow
  pub split : rows_behind request cursor s ≡ seen ++ ahead
  pub batch : LongTermMemoryBatch
  pub taken : batch.events ≡ keep_if (is_eligible request) (map (read_event_row engine) seen)
  pub processed : result.processed_events ≡ pos (length batch.events)
  pub saved : (batch.events ≡ []) ⊎ Reports (choose_update (some process) model batch) result
  pub bounded :
      (is_positive request.max_events ≡ false) ⊎ (length batch.events ≤ to_ℕ request.max_events)
  pub ended :
      (ahead ≡ [])
      ⊎ ((is_positive request.max_events ≡ true) × (length batch.events ≡ to_ℕ request.max_events))
  pub next :
      ((rows_behind request cursor s ≡ []) × (t ≡ s))
      ⊎ ((is_empty seen ≡ false) × (rows_behind request (stored_cursor request t) t ≡ ahead))

module _ (model : Option Processor) (request : MemoryConsolidationRequest) (u : MemorySqliteStore)
    (h : IsSettled u) (cursor : Text) where
  abbrev read : List MemoryEvent
  read = map (read_event_row u.engine) (rows_behind request cursor u.tables)

module _ (model : Option Processor) (request : MemoryConsolidationRequest)
    (s : MemorySqliteStore) where
  abbrev start : Text
  start = (start_cursor request s).0.cursor

  abbrev loaded : MemoryEventsResult × MemorySqliteStore
  loaded =
      load_events_after_cursor request.agent_id request.session_id start
        request.excluded_session_ids (start_cursor request s).1
