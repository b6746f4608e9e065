-- ===== src/Tests/Batches.antt =====
-- Inputs for the theorems on consolidation.
use agent_memory_cpp.Prelude.{
  ◌≡◌, refl, true, false, none, some, [], ◌∷◌, map, length, ◌<◌, ◌^◌, is_empty, arith, ◌+◌,
  if◌then◌else◌,
}
use agent_memory_cpp.Text.{codes}
use agent_memory_cpp.Text.Decimal.{cursor_to_int}
use agent_memory_cpp.Storage.Events.{events_after, read_event_row}
use agent_memory_cpp.Storage.Cursors.{save_consolidation_cursor_unlocked}
use agent_memory_cpp.Storage.Cursors.RoundTrip.{cursor_value}
use agent_memory_cpp.Storage.Summaries.{save_summary_unlocked}
use agent_memory_cpp.Consolidation.Batch.{build, LongTermMemoryUpdate, empty_update}
use agent_memory_cpp.Consolidation.Batch.Selection.{build-Selects, Selects}
use agent_memory_cpp.Consolidation.Resume.{build-Continues, Continues}
use agent_memory_cpp.Consolidation.Service.{consolidate, choose_update, needs_fallback}
use agent_memory_cpp.Consolidation.Writer.{save_update}
use agent_memory_cpp.Consolidation.Atomic.{consolidate-Transacted, Transacted}
use agent_memory_cpp.Consolidation.Progress.{consolidate-Holds}
use agent_memory_cpp.Consolidation.Counts.{save_update-Counts, consolidate-Counts, Counts}
use agent_memory_cpp.Tests.{
  sure_engine, request, topic_processor, two_store, two_tables, two_tables-IsConsistent, two_events,
}

consolidate-Transacted_example :
    let (result, t) = consolidate (some topic_processor) none request two_events two_store in
    Transacted two_store result.succeeded t
consolidate-Transacted_example =
    consolidate-Transacted two_store two_tables-IsConsistent refl (λ n. refl) (some topic_processor)
      none request two_events

found_cursor : is_empty (build request two_events).next_cursor ≡ false
unfolding build
found_cursor = refl

found_events : is_empty (build request two_events).batch.events ≡ false
unfolding build
found_events = refl

consolidated :
    (consolidate (some topic_processor) none request two_events two_store).0.succeeded ≡ true
unfolding consolidate save_summary_unlocked save_consolidation_cursor_unlocked
consolidated = refl

consolidate-Holds_example :
    cursor_value
      (codes "a")
      (codes "s")
      (consolidate (some topic_processor) none request two_events two_store).1.tables.cursors
    ≡ some (cursor_to_int (build request two_events).next_cursor)
consolidate-Holds_example =
    consolidate-Holds two_store two_tables-IsConsistent refl (λ n. refl) (some topic_processor) none
      request two_events found_cursor consolidated

few_rows :
    length
      (map (read_event_row sure_engine) (events_after (codes "a") (codes "s") [] [] two_tables))
    < 2 ^ 31
unfolding events_after cursor_to_int
few_rows = omega arith

build-Continues_example : Continues request sure_engine two_tables []
build-Continues_example =
    build-Continues request sure_engine two_tables [] two_tables-IsConsistent (omega arith) few_rows
      refl

consolidate-Counts_example :
    let r = (consolidate (some topic_processor) none request two_events two_store).0 in
    let update = choose_update (some topic_processor) none (build request two_events).batch in
    (r.saved_summaries ≡ (
      if r.succeeded
      then 1 + (length update.topic_summaries + length update.profile_summaries)
      else 0))
    × (r.saved_entities ≡ (if r.succeeded then length update.entities else 0))
    × (r.saved_relations ≡ (if r.succeeded then length update.relations else 0))
    × (r.fallback_used
        ≡ needs_fallback (some topic_processor) none (build request two_events).batch)
consolidate-Counts_example =
    consolidate-Counts (some topic_processor) none request two_events two_store
      two_tables-IsConsistent refl (λ n. refl) found_events

build-Selects_example : Selects request two_events (build request two_events)
build-Selects_example = build-Selects request two_events (omega arith) refl

abbrev one_topic : LongTermMemoryUpdate
one_topic = record empty_update { topic_summaries = codes "topic" ∷ [] }

topic_saved : (save_update (codes "a") (codes "s") one_topic [] two_store).0.succeeded ≡ true
unfolding save_update save_summary_unlocked
topic_saved = refl

save_update-Counts_example :
    let r = (save_update (codes "a") (codes "s") one_topic [] two_store).0 in
    Counts one_topic r.saved_summaries r.saved_entities r.saved_relations
save_update-Counts_example =
    save_update-Counts (codes "a") (codes "s") one_topic [] two_store topic_saved
