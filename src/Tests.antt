-- ===== src/Tests.antt =====
-- A store with two messages, on an engine on which every call succeeds: inputs at which the theorems'
-- hypotheses hold.
mod Reports
mod Stores
mod Batches
mod Searches
mod Payloads
mod Contexts
mod Runtimes
mod Models
mod Servers
use agent_memory_cpp.Prelude.{
  ◌≡◌, refl, true, false, none, some, List, [], ◌∷◌, map, length, ◌<◌, ◌^◌, is_empty, arith, ◌+◌,
  if◌then◌else◌,
}
use agent_memory_cpp.Prelude.Int.{pos}
use agent_memory_cpp.Text.{Text, codes, text_eq}
use agent_memory_cpp.Text.Decimal.{to_string, cursor_to_int, cursor_to_int-to_string}
use agent_memory_cpp.Json.{empty_object}
use agent_memory_cpp.Types.{
  MemoryEvent, message_appended, MemoryConsolidationRequest, MemoryOperationResult,
}
use agent_memory_cpp.Storage.Tables.{Tables, EventRow, empty_tables, c_str}
use agent_memory_cpp.Storage.Engine.{Engine, MemorySqliteStore}
use agent_memory_cpp.Storage.Events.{
  events_after, read_event_row, load_recent_events, effective_limit,
}
use agent_memory_cpp.Storage.Events.Resume.{events_after-resume, last_id}
use agent_memory_cpp.Storage.Events.Recent.{load_recent_events-IsEnd, IsEnd, history}
use agent_memory_cpp.Storage.Cursors.{
  save_consolidation_cursor, save_consolidation_cursor_unlocked, load_consolidation_cursor,
  cursor_loaded,
}
use agent_memory_cpp.Storage.Cursors.RoundTrip.{load-save, load-save_ne, cursor_value, is_same_key}
use agent_memory_cpp.Storage.Transaction.{begin_transaction, run_in_transaction}
use agent_memory_cpp.Storage.Transaction.Atomic.{run_in_transaction-IsAtomic, Ended}
use agent_memory_cpp.Storage.Summaries.{save_summary_unlocked}
use agent_memory_cpp.Storage.Post.{SameFrame}
use agent_memory_cpp.Storage.Invariant.{IsConsistent}
use agent_memory_cpp.Consolidation.Batch.{build, LongTermMemoryUpdate, empty_update}
use agent_memory_cpp.Consolidation.Batch.Selection.{build-Selects, Selects}
use agent_memory_cpp.Consolidation.Resume.{build-Continues, Continues}
use agent_memory_cpp.Consolidation.Service.{Processor, consolidate, choose_update, needs_fallback}
use agent_memory_cpp.Consolidation.Writer.{save_update}
use agent_memory_cpp.Consolidation.Atomic.{consolidate-Transacted, Transacted}
use agent_memory_cpp.Consolidation.Progress.{consolidate-Holds}
use agent_memory_cpp.Consolidation.Counts.{save_update-Counts, consolidate-Counts, Counts}
use agent_memory_cpp.History.{
  store_event, run_consolidation, query_recent_events, run, IsSettled, run-IsSettled,
}

abbrev sure_engine : Engine
sure_engine = record {
  prepares = λ n. true;
  steps = λ n. true;
  breaks_after = λ n. none;
  executes = λ n. true;
  rolls_back = λ n. true;
  errmsg = λ n. [];
  now = λ n. n;
  dump = λ json. codes "{}";
  parse = λ text. some empty_object;
}

abbrev new_store : MemorySqliteStore
new_store = record {
  engine = sure_engine;
  opened = true;
  tables = empty_tables;
  saved = none;
  calls = 0;
}

abbrev message : Text → MemoryEvent
message content = record {
  kind = message_appended;
  agent_id = codes "a";
  session_id = codes "s";
  role = codes "user";
  content = content;
  tool_call_id = [];
  tool_name = [];
  payload_ref = [];
  store_cursor = [];
  metadata = empty_object;
  timestamp = 0;
}

abbrev pub first_message : MemoryEvent
first_message = message (codes "hi")

abbrev second_message : MemoryEvent
second_message = message (codes "ho")

pub new_store-IsSettled : IsSettled new_store
new_store-IsSettled = record {
  consistent = record {
    events_ascend = omega arith;
    refs_distinct = tt;
    ids_distinct = tt;
    entities_distinct = tt;
    relations_distinct = tt;
    cursors_distinct = tt;
  };
  idle = refl;
  rolls = λ n. refl;
}

abbrev request : MemoryConsolidationRequest
request = record {
  agent_id = codes "a";
  session_id = codes "s";
  max_events = pos 1;
  force_reprocess = false;
  excluded_session_ids = [];
}

abbrev topic_processor : Processor
topic_processor batch = record empty_update { topic_summaries = codes "topic" ∷ [] }

run-IsSettled_example : IsSettled (
    run
      (store_event first_message
        ∷ query_recent_events (codes "a") (codes "s") (pos 5)
        ∷ run_consolidation (some topic_processor) none request (first_message ∷ [])
        ∷ [])
      new_store)
run-IsSettled_example =
    run-IsSettled
      (store_event first_message
        ∷ query_recent_events (codes "a") (codes "s") (pos 5)
        ∷ run_consolidation (some topic_processor) none request (first_message ∷ [])
        ∷ [])
      new_store new_store-IsSettled

abbrev first_row : EventRow
first_row = record {
  id = 1;
  agent_id = codes "a";
  session_id = codes "s";
  event_type = message_appended;
  role = codes "user";
  content = codes "hi";
  payload_ref = [];
  tool_call_id = [];
  tool_name = [];
  metadata_json = codes "{}";
  created_at = 1;
}

abbrev second_row : EventRow
second_row = record {
  id = 2;
  agent_id = codes "a";
  session_id = codes "s";
  event_type = message_appended;
  role = codes "user";
  content = codes "ho";
  payload_ref = [];
  tool_call_id = [];
  tool_name = [];
  metadata_json = codes "{}";
  created_at = 3;
}

abbrev two_tables : Tables
two_tables = record empty_tables {
  events = first_row ∷ second_row ∷ [];
  sequence = record empty_tables.sequence { events = 2 };
}

-- The store after two messages, with its connection counting from 0 again.
abbrev two_store : MemorySqliteStore
two_store = record new_store { tables = two_tables }

two_tables_lem :
    (run (store_event first_message ∷ store_event second_message ∷ []) new_store).tables
    ≡ two_tables
unfolding run
two_tables_lem = refl

two_tables-IsConsistent : IsConsistent two_tables
two_tables-IsConsistent = record {
  events_ascend = (omega arith, (omega arith, omega arith));
  refs_distinct = tt;
  ids_distinct = tt;
  entities_distinct = tt;
  relations_distinct = tt;
  cursors_distinct = tt;
}

abbrev two_events : List MemoryEvent
two_events =
    record first_message { store_cursor = codes "1" }
    ∷ record second_message { store_cursor = codes "2" }
    ∷ []
