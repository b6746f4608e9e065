-- ===== src/Storage/Engine.antt =====
-- The connection of src/storage/sqlite_store.cpp to SQLite, which is not modelled: whether a call of
-- it succeeds is up to a parameter that is asked by the number of the call. A statement that fails
-- changes no row, and ROLLBACK brings back what BEGIN found.
use agent_memory_cpp.Prelude.{
  ℕ, ◌+◌, Bool, true, false, Option, none, some, List, [], ◌++◌, take, is_empty, Action,
  if◌then◌else◌,
}
use agent_memory_cpp.Text.{Text, codes}
use agent_memory_cpp.Json.{
  Json, empty_object, is_object, array, string_vector, items_of, get_member,
}
use agent_memory_cpp.Types.{
  MemoryError, MemoryOperationResult, plain_error, failed_with, memory_success, Timestamp,
}
use agent_memory_cpp.Storage.Tables.{Tables}

pub record Engine : Type 0 where
  -- sqlite3_prepare_v2 returns SQLITE_OK.
  pub prepares : ℕ → Bool
  -- sqlite3_step of a statement that writes returns SQLITE_DONE.
  pub steps : ℕ → Bool
  -- sqlite3_step of a query fails after so many rows.
  pub breaks_after : ℕ → Option ℕ
  -- sqlite3_exec of BEGIN or COMMIT returns SQLITE_OK.
  pub executes : ℕ → Bool
  -- sqlite3_exec of ROLLBACK returns SQLITE_OK.
  pub rolls_back : ℕ → Bool
  pub errmsg : ℕ → Text
  -- CURRENT_TIMESTAMP
  pub now : ℕ → Timestamp
  -- The text of a JSON value, and the value of a text that is valid JSON.
  pub dump : Json → Text
  pub parse : Text → Option Json

-- `saved` holds the tables as the open transaction found them.
pub record MemorySqliteStore : Type 0 where
  pub engine : Engine
  pub opened : Bool
  pub tables : Tables
  pub saved : Option Tables
  pub calls : ℕ

-- `SQLiteStatement stmt(db_, sql); if (!stmt) return false;`, the bindings, and one `sqlite3_step`
-- that must return SQLITE_DONE.
unfoldable pub run_statement : (Timestamp → Tables → Tables) → Action MemorySqliteStore Bool
run_statement update s =
    let stepped = record s {
      tables = update (s.engine.now (s.calls + 1)) s.tables;
      calls = s.calls + 2;
    } in
    if s.engine.prepares s.calls
    then (if s.engine.steps (s.calls + 1)
        then (true, stepped)
        else (false, record s { calls = s.calls + 2 }))
    else (false, record s { calls = s.calls + 1 })

pub data Fetched {ℓ} (A : Type ℓ) : Type ℓ where
  not_prepared : Fetched A
  -- The rows that came before the step that failed.
  broken : List A → Fetched A
  complete : List A → Fetched A

abbrev pub fetched_rows {ℓ} : {A : Type ℓ} → Option ℕ → List A → Fetched A
fetched_rows none rows = complete rows
fetched_rows (some k) rows = broken (take k rows)

-- A query: its statement, and the loop `while ((rc = sqlite3_step(stmt.get())) == SQLITE_ROW)`.
unfoldable pub fetch : {A : Type 0} → (Tables → List A) → Action MemorySqliteStore (Fetched A)
unfolding take
fetch rows s =
    if s.engine.prepares s.calls
    then (
      fetched_rows (s.engine.breaks_after (s.calls + 1)) (rows s.tables),
      record s { calls = s.calls + 2 },
    )
    else (not_prepared, record s { calls = s.calls + 1 })

abbrev pub sqlite_error_message : Text → Text
sqlite_error_message message = if is_empty message then codes "sqlite operation failed" else message

-- `SqliteFailure(db_, context)`
abbrev pub sqlite_error : Text → MemorySqliteStore → MemoryError
sqlite_error context s = record {
  code = codes "sqlite_error";
  message = codes "sqlite operation failed";
  details = context ++ codes ": " ++ sqlite_error_message (s.engine.errmsg s.calls);
  retryable = true;
}

abbrev pub unavailable : MemoryError
unavailable = plain_error (codes "store_unavailable") (codes "sqlite store is not initialized")

-- `ok ? MemorySuccess() : SqliteFailure(db_, context)`
unfoldable pub success_or_failure : Text → Bool → MemorySqliteStore → MemoryOperationResult
success_or_failure context done s =
    if done then memory_success else failed_with (sqlite_error context s)

-- A public method that writes: the test of `db_`, the unlocked method, and its result.
unfoldable pub guarded :
    Text → Action MemorySqliteStore Bool → Action MemorySqliteStore MemoryOperationResult
unfolding success_or_failure
guarded context unlocked s =
    let (done, t) = unlocked s in
    if s.opened then (success_or_failure context done t, t) else (failed_with unavailable, s)

-- `ParseJsonColumn`: what is no JSON object reads as an empty one.
unfoldable pub parse_json_column : Engine → Text → Json
parse_json_column engine text = elim (engine.parse text) [
  | none ↦ empty_object
  | some j ↦ if is_object j then j else empty_object
]

-- `SerializeSourceRefs`
unfoldable pub serialize_source_refs : Engine → List Text → Text
unfolding items_of
serialize_source_refs engine refs = engine.dump (array (items_of refs))

abbrev source_of : Json → Option Json → Json
source_of json none = json
source_of json (some refs) = refs

-- `ExtractSourceRefsFromJson`
unfoldable pub extract_source_refs : Json → List Text
unfolding string_vector
extract_source_refs json = string_vector (source_of json (get_member (codes "sourceRefs") json))

abbrev refs_of : Option Json → List Text
refs_of none = []
refs_of (some json) = extract_source_refs json

-- `ParseSourceRefsColumn`
unfoldable pub parse_source_refs_column : Engine → Text → List Text
unfolding extract_source_refs
parse_source_refs_column engine text = if is_empty text then [] else refs_of (engine.parse text)
