-- ===== src/Storage/Events.antt =====
-- The event table: `SaveEvent`, `LoadEventsAfterCursor`, `LoadRecentEvents` and `ReadEventRow` of
-- src/storage/sqlite_store.cpp. The code neither stores nor reads the time stamp of an event that
-- its caller gives.
pub mod Resume
pub mod Recent
use agent_memory_cpp.Prelude.{
  ℕ, suc, Bool, true, false, not, ◌&&◌, ◌||◌, List, [], ◌∷◌, ◌++◌, map, reverse, take, is_empty,
  keep_if, Action, if◌then◌else◌,
}
use agent_memory_cpp.Prelude.Int.{ℤ, lt_ℕ, is_positive, to_ℕ}
use agent_memory_cpp.Text.{Text, codes, text_eq, mem_text}
use agent_memory_cpp.Text.Decimal.{to_string, cursor_to_int}
use agent_memory_cpp.Json.{json_object}
use agent_memory_cpp.Types.{
  MemoryEvent, MemoryEventsResult, MemoryOperationResult, MemoryError, no_error, Timestamp,
}
use agent_memory_cpp.Storage.Tables.{Tables, EventRow, c_str}
use agent_memory_cpp.Storage.Engine.{
  Engine, MemorySqliteStore, run_statement, Fetched, not_prepared, broken, complete, fetch,
  sqlite_error, unavailable, guarded, parse_json_column,
}

unfoldable pub event_row : Engine → MemoryEvent → ℕ → Timestamp → EventRow
unfolding c_str json_object
event_row engine event id now = record {
  id = id;
  agent_id = c_str event.agent_id;
  session_id = c_str event.session_id;
  event_type = event.kind;
  role = c_str event.role;
  content = c_str event.content;
  payload_ref = c_str event.payload_ref;
  tool_call_id = c_str event.tool_call_id;
  tool_name = c_str event.tool_name;
  metadata_json = c_str (engine.dump (json_object event.metadata));
  created_at = now;
}

-- INSERT INTO memory_events
unfoldable pub insert_event : Engine → MemoryEvent → Timestamp → Tables → Tables
unfolding event_row
insert_event engine event now t = record t {
  events = t.events ++ event_row engine event (suc t.sequence.events) now ∷ [];
  sequence = record t.sequence { events = suc t.sequence.events };
}

unfoldable pub save_event_unlocked : MemoryEvent → Action MemorySqliteStore Bool
unfolding insert_event run_statement
save_event_unlocked event s = run_statement (insert_event s.engine event) s

unfoldable pub save_event : MemoryEvent → Action MemorySqliteStore MemoryOperationResult
unfolding save_event_unlocked guarded
save_event event = guarded (codes "SaveEvent") (save_event_unlocked event)

unfoldable pub read_event_row : Engine → EventRow → MemoryEvent
unfolding parse_json_column
read_event_row engine row = record {
  kind = row.event_type;
  agent_id = row.agent_id;
  session_id = row.session_id;
  role = row.role;
  content = row.content;
  tool_call_id = row.tool_call_id;
  tool_name = row.tool_name;
  payload_ref = row.payload_ref;
  store_cursor = to_string row.id;
  metadata = parse_json_column engine row.metadata_json;
  timestamp = 0;
}

-- WHERE id > ? AND agent_id = ? AND session_id = ?, and the form without a session, which leaves
-- out the excluded sessions.
unfoldable pub is_after_cursor : ℤ → Text → Text → List Text → EventRow → Bool
unfolding text_eq mem_text c_str
is_after_cursor cursor agent session excluded row =
    lt_ℕ cursor row.id
    && text_eq row.agent_id (c_str agent)
    && (if is_empty session
        then not (mem_text row.session_id (map c_str excluded))
        else text_eq row.session_id (c_str session))

-- The rows of the query, ORDER BY id ASC.
unfoldable pub events_after : Text → Text → Text → List Text → Tables → List EventRow
unfolding is_after_cursor keep_if
events_after agent session cursor excluded tables =
    keep_if (is_after_cursor (cursor_to_int cursor) agent session excluded) tables.events

abbrev load_failed : MemoryError → List MemoryEvent → MemoryEventsResult
load_failed e events = record { succeeded = false; events = events; error = e }

abbrev pub loaded : List MemoryEvent → MemoryEventsResult
loaded events = record { succeeded = true; events = events; error = no_error }

-- What the two loading methods make of their rows, `finish` being the last step on success.
abbrev events_result :
    Text
    → (List MemoryEvent → List MemoryEvent)
    → MemorySqliteStore
    → Fetched EventRow
    → MemoryEventsResult
events_result context finish s not_prepared =
    load_failed (sqlite_error (context ++ codes "::prepare") s) []
events_result context finish s (broken rows) =
    load_failed (sqlite_error (context ++ codes "::step") s) (map (read_event_row s.engine) rows)
events_result context finish s (complete rows) =
    loaded (finish (map (read_event_row s.engine) rows))

unfoldable pub load_events_after_cursor :
    Text → Text → Text → List Text → Action MemorySqliteStore MemoryEventsResult
unfolding events_after fetch
load_events_after_cursor agent session cursor excluded s =
    let (rows, t) = fetch (events_after agent session cursor excluded) s in
    if s.opened
    then (events_result (codes "LoadEventsAfterCursor") (λ es. es) t rows, t)
    else (load_failed unavailable [], s)

-- WHERE agent_id = ? AND (? = '' OR session_id = ?)
unfoldable pub is_in_session : Text → Text → Text → Text → Bool
unfolding text_eq c_str
is_in_session agent session row_agent row_session =
    text_eq row_agent (c_str agent)
    && (is_empty (c_str session) || text_eq row_session (c_str session))

-- limit > 0 ? limit : fallback
abbrev pub effective_limit : ℤ → ℕ → ℕ
effective_limit limit fallback = if is_positive limit then to_ℕ limit else fallback

-- The rows of the query, ORDER BY id DESC.
unfoldable pub recent_events : Text → Text → ℤ → Tables → List EventRow
unfolding is_in_session keep_if take
recent_events agent session limit tables =
    let chosen = λ (row : EventRow). is_in_session agent session row.agent_id row.session_id in
    take (effective_limit limit 20) (reverse (keep_if chosen tables.events))

unfoldable pub load_recent_events : Text → Text → ℤ → Action MemorySqliteStore MemoryEventsResult
unfolding recent_events fetch
load_recent_events agent session limit s =
    let (rows, t) = fetch (recent_events agent session limit) s in
    if s.opened
    then (events_result (codes "LoadRecentEvents") reverse t rows, t)
    else (load_failed unavailable [], s)
