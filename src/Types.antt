-- ===== src/Types.antt =====
-- The data of include/agent_memory/*.h and src/storage/store.h.
-- A point in time is a number of seconds: the code only stores it and lets SQLite order by it. The
-- metadata of a consolidation request, which the code never reads, is left out.
use agent_memory_cpp.Prelude.{ℕ, Bool, true, false, not, List, []}
use agent_memory_cpp.Prelude.{is_empty}
use agent_memory_cpp.Prelude.Int.{ℤ, pos}
use agent_memory_cpp.Text.{Text}
use agent_memory_cpp.Json.{Json, Float}

abbrev pub Timestamp : Type 0
Timestamp = ℕ

pub record MemoryError : Type 0 where
  pub code : Text
  pub message : Text
  pub details : Text
  pub retryable : Bool

-- The default-constructed error: its code is empty.
abbrev pub no_error : MemoryError
no_error = record { code = []; message = []; details = []; retryable = false }

-- A `MemoryError{code, message, "", false}`.
abbrev pub plain_error : Text → Text → MemoryError
plain_error code message = record {
  code = code;
  message = message;
  details = [];
  retryable = false;
}

abbrev pub has_error : MemoryError → Bool
has_error e = not (is_empty e.code)

pub record MemoryOperationResult : Type 0 where
  pub succeeded : Bool
  pub error : MemoryError

abbrev pub memory_success : MemoryOperationResult
memory_success = record { succeeded = true; error = no_error }

abbrev pub failed_with : MemoryError → MemoryOperationResult
failed_with e = record { succeeded = false; error = e }

abbrev pub memory_failure : Text → Text → MemoryOperationResult
memory_failure code message = failed_with (plain_error code message)

pub data MemoryEventType : Type 0 where
  session_started session_ended message_appended tool_call_started : MemoryEventType
  tool_call_finished payload_offloaded : MemoryEventType
  consolidation_requested consolidation_completed : MemoryEventType

pub record MemoryEvent : Type 0 where
  pub kind : MemoryEventType
  pub agent_id : Text
  pub session_id : Text
  pub role : Text
  pub content : Text
  pub tool_call_id : Text
  pub tool_name : Text
  pub payload_ref : Text
  pub store_cursor : Text
  pub metadata : Json
  pub timestamp : Timestamp

pub record MemoryPayloadRef : Type 0 where
  pub agent_id : Text
  pub session_id : Text
  pub uri : Text
  pub content_type : Text
  pub summary : Text
  pub tool_name : Text
  pub original_chars : ℤ
  pub metadata : Json
  pub created_at : Timestamp

pub record MemoryEntity : Type 0 where
  pub id : Text
  pub agent_id : Text
  pub entity_type : Text
  pub name : Text
  pub summary : Text
  pub confidence : Float
  pub is_active : Bool
  pub superseded_by_entity_id : Text
  pub superseded_entity_id : Text
  pub source_refs : List Text
  pub metadata : Json
  pub created_at : Timestamp
  pub updated_at : Timestamp

pub record MemoryRelation : Type 0 where
  pub id : Text
  pub agent_id : Text
  pub from_entity_id : Text
  pub relation_type : Text
  pub to_entity_id : Text
  pub confidence : Float
  pub source_refs : List Text
  pub metadata : Json
  pub created_at : Timestamp
  pub updated_at : Timestamp

pub record LongTermSummaryRecord : Type 0 where
  pub level : Text
  pub topic : Text
  pub summary : Text
  pub confidence : Float
  pub source_refs : List Text
  pub created_at : Timestamp
  pub updated_at : Timestamp

pub record LongTermMemorySnapshot : Type 0 where
  pub summaries : List LongTermSummaryRecord
  pub entities : List MemoryEntity
  pub relations : List MemoryRelation

abbrev pub empty_snapshot : LongTermMemorySnapshot
empty_snapshot = record { summaries = []; entities = []; relations = [] }

pub record MemoryEventsResult : Type 0 where
  pub succeeded : Bool
  pub events : List MemoryEvent
  pub error : MemoryError

pub record MemoryPayloadRefsResult : Type 0 where
  pub succeeded : Bool
  pub payloads : List MemoryPayloadRef
  pub error : MemoryError

pub record LongTermMemorySnapshotResult : Type 0 where
  pub succeeded : Bool
  pub snapshot : LongTermMemorySnapshot
  pub error : MemoryError

pub record ConsolidationCursorResult : Type 0 where
  pub succeeded : Bool
  pub cursor : Text
  pub error : MemoryError

pub record MemoryStats : Type 0 where
  pub events : ℤ
  pub payloads : ℤ
  pub summaries : ℤ
  pub entities : ℤ
  pub relations : ℤ

pub record MemoryStatsResult : Type 0 where
  pub succeeded : Bool
  pub stats : MemoryStats
  pub error : MemoryError

pub record MemoryConsolidationRequest : Type 0 where
  pub agent_id : Text
  pub session_id : Text
  pub max_events : ℤ
  pub force_reprocess : Bool
  pub excluded_session_ids : List Text

pub record MemoryConsolidationResult : Type 0 where
  pub succeeded : Bool
  pub fallback_used : Bool
  pub processed_events : ℤ
  pub saved_summaries : ℕ
  pub saved_entities : ℕ
  pub saved_relations : ℕ
  pub next_cursor : Text
  pub session_id : Text
  pub error : MemoryError

abbrev pub no_consolidation : MemoryConsolidationResult
no_consolidation = record {
  succeeded = false;
  fallback_used = false;
  processed_events = pos 0;
  saved_summaries = 0;
  saved_entities = 0;
  saved_relations = 0;
  next_cursor = [];
  session_id = [];
  error = no_error;
}

pub record MemorySearchHit : Type 0 where
  pub id : Text
  pub kind : Text
  pub content : Text
  pub score : Float
  pub source_refs : List Text
  pub metadata : Json

-- Without the section filter and the metadata, which the code never reads.
pub record MemorySearchRequest : Type 0 where
  pub agent_id : Text
  pub session_id : Text
  pub query : Text
  pub limit : ℤ

pub record MemorySearchStoreResult : Type 0 where
  pub succeeded : Bool
  pub results : List MemorySearchHit
  pub error : MemoryError
