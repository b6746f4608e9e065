-- ===== src/Tests/Stores.antt =====
-- Inputs for the theorems on the store.
use agent_memory_cpp.Prelude.{◌≡◌, refl, true, false, none, List, [], ◌∷◌, map, arith, ◌+◌}
use agent_memory_cpp.Prelude.Int.{pos}
use agent_memory_cpp.Text.{codes, text_eq}
use agent_memory_cpp.Text.Decimal.{to_string, cursor_to_int, cursor_to_int-to_string}
use agent_memory_cpp.Types.{MemoryOperationResult}
use agent_memory_cpp.Storage.Tables.{EventRow, c_str}
use agent_memory_cpp.Storage.Engine.{MemorySqliteStore}
use agent_memory_cpp.Storage.Events.{
  events_after, read_event_row, load_recent_events, effective_limit,
}
use agent_memory_cpp.Storage.Events.Resume.{events_after-resume, last_id}
use agent_memory_cpp.Storage.Events.Recent.{load_recent_events-IsEnd, IsEnd, history}
use agent_memory_cpp.Storage.Cursors.{
  save_consolidation_cursor, load_consolidation_cursor, cursor_loaded,
}
use agent_memory_cpp.Storage.Cursors.RoundTrip.{load-save, load-save_ne, cursor_value, is_same_key}
use agent_memory_cpp.Storage.Transaction.{begin_transaction, run_in_transaction}
use agent_memory_cpp.Storage.Transaction.Atomic.{run_in_transaction-IsAtomic, Ended}
use agent_memory_cpp.Storage.Post.{SameFrame}
use agent_memory_cpp.Tests.{
  sure_engine, two_store, two_tables, two_tables-IsConsistent, first_row, second_row,
}

abbrev save_one_cursor : MemorySqliteStore → MemoryOperationResult × MemorySqliteStore
save_one_cursor = save_consolidation_cursor (codes "a") (codes "s") (to_string 7)

cursor_frame :
    SameFrame (begin_transaction two_store).1 (save_one_cursor (begin_transaction two_store).1).1
unfolding begin_transaction save_consolidation_cursor
cursor_frame = record { engine = refl; opened = refl; saved = refl }

run_in_transaction-IsAtomic_example :
    let worked = save_one_cursor (begin_transaction two_store).1 in
    Ended two_store worked.1 worked.0.succeeded (run_in_transaction save_one_cursor two_store)
run_in_transaction-IsAtomic_example =
    run_in_transaction-IsAtomic save_one_cursor two_store refl (λ n. refl) cursor_frame

two_after_start :
    events_after (codes "a") (codes "s") [] [] two_tables ≡ first_row ∷ second_row ∷ []
unfolding events_after cursor_to_int
two_after_start = refl

events_after-resume_example :
    events_after (codes "a") (codes "s") (to_string (last_id first_row [])) [] two_tables
    ≡ second_row ∷ []
events_after-resume_example =
    events_after-resume (codes "a") (codes "s") [] [] two_tables first_row [] (second_row ∷ [])
      two_tables-IsConsistent (omega arith) two_after_start

cursor_saved : (save_one_cursor two_store).0.succeeded ≡ true
unfolding save_consolidation_cursor
cursor_saved = refl

cursor_store_opened : (save_one_cursor two_store).1.opened ≡ true
unfolding save_consolidation_cursor
cursor_store_opened = refl

cursor_store_prepares :
    (save_one_cursor two_store).1.engine.prepares (save_one_cursor two_store).1.calls ≡ true
unfolding save_consolidation_cursor
cursor_store_prepares = refl

cursor_store_complete :
    (save_one_cursor two_store).1.engine.breaks_after ((save_one_cursor two_store).1.calls + 1)
    ≡ none
unfolding save_consolidation_cursor
cursor_store_complete = refl

load-save_example :
    (load_consolidation_cursor (codes "a") (codes "s") (save_one_cursor two_store).1).0
    ≡ cursor_loaded (to_string 7)
load-save_example =
    load-save (codes "a") (codes "s") 7 two_store (omega arith) cursor_saved
      (cursor_store_opened, cursor_store_prepares, cursor_store_complete)

other_agent : is_same_key (codes "a") (codes "s") (codes "b") (codes "s") ≡ false
unfolding text_eq c_str
other_agent = refl

load-save_ne_example :
    cursor_value (codes "b") (codes "s") (save_one_cursor two_store).1.tables.cursors
    ≡ cursor_value (codes "b") (codes "s") two_tables.cursors
load-save_ne_example =
    load-save_ne (codes "a") (codes "s") (to_string 7) (codes "b") (codes "s") two_store other_agent
      cursor_saved

load_recent_events-IsEnd_example :
    let r = (load_recent_events (codes "a") (codes "s") (pos 1) two_store).0 in
    (r.succeeded ≡ true)
    × (rows : List EventRow) × (r.events ≡ map (read_event_row sure_engine) rows)
    × IsEnd (effective_limit (pos 1) 20) rows (history (codes "a") (codes "s") two_tables)
load_recent_events-IsEnd_example =
    load_recent_events-IsEnd (codes "a") (codes "s") (pos 1) two_store (refl, refl, refl)

cursor_to_int-to_string_example : cursor_to_int (to_string 42) ≡ pos 42
cursor_to_int-to_string_example = cursor_to_int-to_string 42 (omega arith)
