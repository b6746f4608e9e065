-- ===== src/Storage/Payloads.antt =====
-- The payload table: `SavePayload` and `LoadRecentPayloads` of src/storage/sqlite_store.cpp.
use agent_memory_cpp.Prelude.{
  ℕ, suc, Bool, true, false, List, [], ◌∷◌, ◌++◌, map, reverse, take, any, keep_if, Action,
  if◌then◌else◌,
}
use agent_memory_cpp.Prelude.Int.{ℤ}
use agent_memory_cpp.Text.{Text, codes, text_eq}
use agent_memory_cpp.Json.{empty_object}
use agent_memory_cpp.Types.{
  MemoryPayloadRef, MemoryPayloadRefsResult, MemoryOperationResult, MemoryError, no_error,
  Timestamp,
}
use agent_memory_cpp.Storage.Tables.{Tables, PayloadRow, c_str, order_by_desc}
use agent_memory_cpp.Storage.Engine.{
  MemorySqliteStore, run_statement, Fetched, not_prepared, broken, complete, fetch, sqlite_error,
  unavailable, guarded,
}
use agent_memory_cpp.Storage.Events.{is_in_session, effective_limit}

unfoldable pub payload_row : MemoryPayloadRef → ℕ → Timestamp → PayloadRow
unfolding c_str
payload_row payload id now = record {
  id = id;
  agent_id = c_str payload.agent_id;
  session_id = c_str payload.session_id;
  ref = c_str payload.uri;
  content_type = c_str payload.content_type;
  tool_name = c_str payload.tool_name;
  summary = c_str payload.summary;
  original_chars = payload.original_chars;
  created_at = now;
}

-- ON CONFLICT(ref) DO UPDATE SET …: the id and the creation time stay.
unfoldable pub update_payload : PayloadRow → PayloadRow → PayloadRow
update_payload new row = record new { id = row.id; created_at = row.created_at }

abbrev pub has_ref : Text → PayloadRow → Bool
has_ref ref row = text_eq row.ref ref

unfoldable pub replace_payload : PayloadRow → PayloadRow → PayloadRow
unfolding update_payload text_eq
replace_payload new row = if has_ref new.ref row then update_payload new row else row

unfoldable pub upsert_payload : MemoryPayloadRef → Timestamp → Tables → Tables
unfolding payload_row replace_payload any
upsert_payload payload now t =
    let new = payload_row payload (suc t.sequence.payloads) now in
    let known = any (has_ref new.ref) t.payloads in
    record t {
      payloads = if known then map (replace_payload new) t.payloads else t.payloads ++ new ∷ [];
      sequence = record t.sequence {
        payloads = if known then t.sequence.payloads else suc t.sequence.payloads;
      };
    }

unfoldable pub save_payload_unlocked : MemoryPayloadRef → Action MemorySqliteStore Bool
unfolding upsert_payload run_statement
save_payload_unlocked payload = run_statement (upsert_payload payload)

unfoldable pub save_payload : MemoryPayloadRef → Action MemorySqliteStore MemoryOperationResult
unfolding save_payload_unlocked guarded
save_payload payload = guarded (codes "SavePayload") (save_payload_unlocked payload)

unfoldable pub read_payload_row : PayloadRow → MemoryPayloadRef
read_payload_row row = record {
  agent_id = row.agent_id;
  session_id = row.session_id;
  uri = row.ref;
  content_type = row.content_type;
  summary = row.summary;
  tool_name = row.tool_name;
  original_chars = row.original_chars;
  metadata = empty_object;
  created_at = row.created_at;
}

abbrev payloads_failed : MemoryError → List MemoryPayloadRef → MemoryPayloadRefsResult
payloads_failed e payloads = record { succeeded = false; payloads = payloads; error = e }

abbrev payloads_result : MemorySqliteStore → Fetched PayloadRow → MemoryPayloadRefsResult
payloads_result s not_prepared =
    payloads_failed (sqlite_error (codes "LoadRecentPayloads::prepare") s) []
payloads_result s (broken rows) =
    payloads_failed (sqlite_error (codes "LoadRecentPayloads::step") s) (map read_payload_row rows)
payloads_result s (complete rows) = record {
  succeeded = true;
  payloads = map read_payload_row rows;
  error = no_error;
}

-- The rows of the query, the newest first.
unfoldable pub recent_payloads : Text → Text → ℤ → Tables → List PayloadRow
unfolding is_in_session keep_if take order_by_desc
recent_payloads agent session limit tables =
    let chosen = λ (row : PayloadRow). is_in_session agent session row.agent_id row.session_id in
    take (effective_limit limit 20)
      (order_by_desc (λ row. row.created_at) (reverse (keep_if chosen tables.payloads)))

unfoldable pub load_recent_payloads :
    Text → Text → ℤ → Action MemorySqliteStore MemoryPayloadRefsResult
unfolding recent_payloads fetch read_payload_row
load_recent_payloads agent session limit s =
    let (rows, t) = fetch (recent_payloads agent session limit) s in
    if s.opened then (payloads_result t rows, t) else (payloads_failed unavailable [], s)
