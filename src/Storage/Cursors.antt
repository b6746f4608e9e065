-- ===== src/Storage/Cursors.antt =====
-- The table of consolidation cursors: `SaveConsolidationCursor` and `LoadConsolidationCursor` of
-- src/storage/sqlite_store.cpp.
pub mod RoundTrip
use agent_memory_cpp.Prelude.{
  suc, Bool, true, false, ◌&&◌, [], ◌∷◌, ◌++◌, map, any, keep_if, Action, if◌then◌else◌,
}
use agent_memory_cpp.Prelude.Int.{ℤ, pos, negsuc}
use agent_memory_cpp.Text.{Text, codes, text_eq}
use agent_memory_cpp.Text.Decimal.{to_string, cursor_to_int}
use agent_memory_cpp.Types.{
  ConsolidationCursorResult, MemoryOperationResult, MemoryError, no_error, Timestamp,
}
use agent_memory_cpp.Storage.Tables.{Tables, CursorRow, c_str}
use agent_memory_cpp.Storage.Engine.{
  MemorySqliteStore, run_statement, Fetched, not_prepared, broken, complete, fetch, sqlite_error,
  unavailable, guarded,
}

unfoldable pub is_cursor_of : Text → Text → CursorRow → Bool
unfolding text_eq c_str
is_cursor_of agent session row =
    text_eq row.agent_id (c_str agent) && text_eq row.session_id (c_str session)

unfoldable pub cursor_row : Text → Text → Text → Timestamp → CursorRow
unfolding c_str cursor_to_int
cursor_row agent session cursor now = record {
  agent_id = c_str agent;
  session_id = c_str session;
  cursor = cursor_to_int cursor;
  updated_at = now;
}

unfoldable pub replace_cursor : Text → Text → CursorRow → CursorRow → CursorRow
unfolding is_cursor_of
replace_cursor agent session new row = if is_cursor_of agent session row then new else row

-- INSERT … ON CONFLICT(agent_id, session_id) DO UPDATE SET cursor, updated_at
unfoldable pub upsert_cursor : Text → Text → Text → Timestamp → Tables → Tables
unfolding cursor_row replace_cursor is_cursor_of any
upsert_cursor agent session cursor now t =
    let new = cursor_row agent session cursor now in
    record t {
      cursors =
          if any (is_cursor_of agent session) t.cursors
          then map (replace_cursor agent session new) t.cursors
          else t.cursors ++ new ∷ [];
    }

unfoldable pub save_consolidation_cursor_unlocked :
    Text → Text → Text → Action MemorySqliteStore Bool
unfolding upsert_cursor run_statement
save_consolidation_cursor_unlocked agent session cursor =
    run_statement (upsert_cursor agent session cursor)

unfoldable pub save_consolidation_cursor :
    Text → Text → Text → Action MemorySqliteStore MemoryOperationResult
unfolding save_consolidation_cursor_unlocked guarded
save_consolidation_cursor agent session cursor =
    guarded (codes "SaveConsolidationCursor")
      (save_consolidation_cursor_unlocked agent session cursor)

-- std::to_string of an `int64_t`
abbrev pub int_to_string : ℤ → Text
int_to_string (pos n) = to_string n
int_to_string (negsuc n) = b'-' ∷ to_string (suc n)

abbrev cursor_failed : MemoryError → ConsolidationCursorResult
cursor_failed e = record { succeeded = false; cursor = []; error = e }

abbrev pub cursor_loaded : Text → ConsolidationCursorResult
cursor_loaded cursor = record { succeeded = true; cursor = cursor; error = no_error }

-- One step only is made, so a query that breaks after its first row has still given it.
abbrev cursor_result : MemorySqliteStore → Fetched CursorRow → ConsolidationCursorResult
cursor_result s not_prepared =
    cursor_failed (sqlite_error (codes "LoadConsolidationCursor::prepare") s)
cursor_result s (broken []) = cursor_failed (sqlite_error (codes "LoadConsolidationCursor::step") s)
cursor_result s (broken (row ∷ rows)) = cursor_loaded (int_to_string row.cursor)
cursor_result s (complete []) = cursor_loaded []
cursor_result s (complete (row ∷ rows)) = cursor_loaded (int_to_string row.cursor)

unfoldable pub load_consolidation_cursor :
    Text → Text → Action MemorySqliteStore ConsolidationCursorResult
unfolding is_cursor_of keep_if fetch
load_consolidation_cursor agent session s =
    let (rows, t) = fetch (λ tables. keep_if (is_cursor_of agent session) tables.cursors) s in
    if s.opened then (cursor_result t rows, t) else (cursor_failed unavailable, s)
