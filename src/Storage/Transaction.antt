-- ===== src/Storage/Transaction.antt =====
-- `RunInTransaction` and the class `SqliteStoreTransaction` of src/storage/sqlite_store.cpp.
pub mod Atomic
use agent_memory_cpp.Prelude.{
  suc, Bool, true, false, not, ◌&&◌, Option, none, some, Action, if◌then◌else◌,
}
use agent_memory_cpp.Text.{Text, codes}
use agent_memory_cpp.Types.{
  MemoryEntity, MemoryRelation, MemoryOperationResult, memory_success, memory_failure, failed_with,
  has_error,
}
use agent_memory_cpp.Storage.Tables.{Tables}
use agent_memory_cpp.Storage.Engine.{
  MemorySqliteStore, success_or_failure, sqlite_error, unavailable,
}
use agent_memory_cpp.Storage.Summaries.{SummaryInput, save_summary_unlocked}
use agent_memory_cpp.Storage.Entities.{save_entity_unlocked, mark_entity_obsolete_unlocked}
use agent_memory_cpp.Storage.Relations.{save_relation_unlocked}
use agent_memory_cpp.Storage.Cursors.{save_consolidation_cursor_unlocked}

-- A method of the transaction object: the unlocked method of the store and its result.
unfoldable pub in_transaction :
    Text → Action MemorySqliteStore Bool → Action MemorySqliteStore MemoryOperationResult
unfolding success_or_failure
in_transaction context unlocked s =
    let (done, t) = unlocked s in (success_or_failure context done t, t)

unfoldable pub save_summary : SummaryInput → Action MemorySqliteStore MemoryOperationResult
unfolding in_transaction
save_summary input = in_transaction (codes "Transaction::SaveSummary") (save_summary_unlocked input)

unfoldable pub save_entity : MemoryEntity → Action MemorySqliteStore MemoryOperationResult
unfolding in_transaction
save_entity entity = in_transaction (codes "Transaction::SaveEntity") (save_entity_unlocked entity)

unfoldable pub save_relation : MemoryRelation → Action MemorySqliteStore MemoryOperationResult
unfolding in_transaction
save_relation relation =
    in_transaction (codes "Transaction::SaveRelation") (save_relation_unlocked relation)

unfoldable pub mark_entity_obsolete : Text → Text → Action MemorySqliteStore MemoryOperationResult
unfolding in_transaction
mark_entity_obsolete entity_id by =
    in_transaction (codes "Transaction::MarkEntityObsolete")
      (mark_entity_obsolete_unlocked entity_id by)

unfoldable pub save_consolidation_cursor :
    Text → Text → Text → Action MemorySqliteStore MemoryOperationResult
unfolding in_transaction
save_consolidation_cursor agent session cursor =
    in_transaction (codes "Transaction::SaveConsolidationCursor")
      (save_consolidation_cursor_unlocked agent session cursor)

abbrev is_open : Option Tables → Bool
is_open none = false
is_open (some t) = true

-- ExecuteUnlocked("BEGIN IMMEDIATE TRANSACTION;"): SQLite refuses it inside a transaction.
unfoldable pub begin_transaction : Action MemorySqliteStore Bool
begin_transaction s =
    if s.engine.executes s.calls && not (is_open s.saved)
    then (true, record s { saved = some s.tables; calls = suc s.calls })
    else (false, record s { calls = suc s.calls })

-- ExecuteUnlocked("COMMIT;")
unfoldable pub commit : Action MemorySqliteStore Bool
commit s =
    if s.engine.executes s.calls && is_open s.saved
    then (true, record s { saved = none; calls = suc s.calls })
    else (false, record s { calls = suc s.calls })

abbrev restored : Option Tables → MemorySqliteStore → MemorySqliteStore
restored none s = s
restored (some t) s = record s { tables = t; saved = none }

-- ExecuteUnlocked("ROLLBACK;"), whose result the code ignores.
unfoldable pub rollback : MemorySqliteStore → MemorySqliteStore
rollback s =
    let called = record s { calls = suc s.calls } in
    if s.engine.rolls_back s.calls then restored s.saved called else called

-- What the work has returned, after its changes have been taken back.
unfoldable pub abandon : MemoryOperationResult → Action MemorySqliteStore MemoryOperationResult
unfolding rollback
abandon result t = (
  if has_error result.error
      then result
      else memory_failure (codes "transaction_failed") (codes "transaction work failed"),
  rollback t,
)

unfoldable pub finish_transaction :
    MemoryOperationResult → Action MemorySqliteStore MemoryOperationResult
unfolding commit rollback abandon
finish_transaction result t =
    let (committed, u) = commit t in
    if result.succeeded
    then (if committed
        then (memory_success, u)
        else (failed_with (sqlite_error (codes "RunInTransaction::commit") u), rollback u))
    else abandon result t

unfoldable pub run_in_transaction :
    Action MemorySqliteStore MemoryOperationResult → Action MemorySqliteStore MemoryOperationResult
unfolding begin_transaction finish_transaction
run_in_transaction work s =
    let (begun, t) = begin_transaction s in
    let (result, u) = work t in
    if s.opened
    then (if begun
        then finish_transaction result u
        else (failed_with (sqlite_error (codes "RunInTransaction::begin") t), t))
    else (failed_with unavailable, s)
