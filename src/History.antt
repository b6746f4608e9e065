-- ===== src/History.antt =====
-- Any sequence of calls of the store's interface (src/storage/sqlite_store.h) and of consolidation.
use agent_memory_cpp.Prelude.{
  ℕ, ◌≡◌, List, [], ◌∷◌, Bool, true, false, keep_if, inl, inr, Bool-cases, Action, none, Option,
  if◌then◌else◌,
}
use agent_memory_cpp.Prelude.Int.{ℤ}
use agent_memory_cpp.Text.{Text, codes}
use agent_memory_cpp.Types.{
  MemoryEvent, MemoryPayloadRef, MemoryEntity, MemoryRelation, MemoryConsolidationRequest,
  failed_with,
}
use agent_memory_cpp.Storage.Tables.{Tables}
use agent_memory_cpp.Storage.Engine.{MemorySqliteStore, guarded, fetch, unavailable}
use agent_memory_cpp.Storage.Post.{Post-either, SameFrame-refl}
use agent_memory_cpp.Storage.Events.{
  save_event, save_event_unlocked, load_events_after_cursor, load_recent_events, events_after,
  recent_events,
}
use agent_memory_cpp.Storage.Payloads.{
  save_payload, save_payload_unlocked, load_recent_payloads, recent_payloads,
}
use agent_memory_cpp.Storage.Summaries.{SummaryInput, save_summary, save_summary_unlocked}
use agent_memory_cpp.Storage.Entities.{
  save_entity, save_entity_unlocked, mark_entity_obsolete, mark_entity_obsolete_unlocked,
}
use agent_memory_cpp.Storage.Relations.{save_relation, save_relation_unlocked}
use agent_memory_cpp.Storage.Cursors.{
  save_consolidation_cursor, save_consolidation_cursor_unlocked, load_consolidation_cursor,
  is_cursor_of,
}
use agent_memory_cpp.Storage.Invariant.{IsConsistent}
use agent_memory_cpp.Storage.Invariant.Writes.{
  Sound, KeepsSound, save_event-KeepsSound, save_payload-KeepsSound, save_summary-KeepsSound,
  save_entity-KeepsSound, save_relation-KeepsSound, mark_obsolete-KeepsSound,
  save_cursor-KeepsSound,
}
use agent_memory_cpp.Consolidation.Service.{Processor, consolidate}
use agent_memory_cpp.Consolidation.Atomic.{consolidate-Transacted}

pub data Operation : Type 0 where
  store_event : MemoryEvent → Operation
  store_payload : MemoryPayloadRef → Operation
  store_summary : SummaryInput → Operation
  store_entity : MemoryEntity → Operation
  store_relation : MemoryRelation → Operation
  obsolete : Text → Text → Operation
  store_cursor : Text → Text → Text → Operation
  query_events_after : Text → Text → Text → List Text → Operation
  query_recent_events : Text → Text → ℤ → Operation
  query_recent_payloads : Text → Text → ℤ → Operation
  query_cursor : Text → Text → Operation
  run_consolidation :
      Option Processor
      → Option Processor
      → MemoryConsolidationRequest
      → List MemoryEvent
      → Operation

-- The store that a call leaves.
unfoldable pub perform : Operation → MemorySqliteStore → MemorySqliteStore
unfolding save_event save_payload save_summary save_entity save_relation mark_entity_obsolete
    save_consolidation_cursor load_events_after_cursor load_recent_events load_recent_payloads
    load_consolidation_cursor consolidate
perform (store_event event) s = (save_event event s).1
perform (store_payload payload) s = (save_payload payload s).1
perform (store_summary input) s = (save_summary input s).1
perform (store_entity entity) s = (save_entity entity s).1
perform (store_relation relation) s = (save_relation relation s).1
perform (obsolete entity_id by) s = (mark_entity_obsolete entity_id by s).1
perform (store_cursor agent session cursor) s = (save_consolidation_cursor agent session cursor s).1
perform (query_events_after agent session cursor excluded) s =
    (load_events_after_cursor agent session cursor excluded s).1
perform (query_recent_events agent session limit) s = (load_recent_events agent session limit s).1
perform (query_recent_payloads agent session limit) s =
    (load_recent_payloads agent session limit s).1
perform (query_cursor agent session) s = (load_consolidation_cursor agent session s).1
perform (run_consolidation fallback model request events) s =
    (consolidate fallback model request events s).1

unfoldable pub run : List Operation → MemorySqliteStore → MemorySqliteStore
unfolding perform
run [] s = s
run (operation ∷ operations) s = run operations (perform operation s)

-- The state between calls: consistent tables and no open transaction, on an engine whose ROLLBACK
-- always succeeds.
pub record IsSettled (s : MemorySqliteStore) : Type 0 where
  pub consistent : IsConsistent s.tables
  pub idle : s.saved ≡ none
  pub rolls : (n : ℕ) → s.engine.rolls_back n ≡ true

Sound-IsSettled : (s t : MemorySqliteStore) → IsSettled s → Sound s t → IsSettled t
Sound-IsSettled s t h sound = record {
  consistent = sound.tables;
  idle = cc;
  rolls = λ n. rw sound.frame.engine (h.rolls n);
}

-- Both results of a test leave a settled store.
either_way :
    {A : Type 0} (b : Bool) (x y : A × MemorySqliteStore)
    → IsSettled x.1
    → IsSettled y.1
    → IsSettled (if b then x else y).1
either_way true x y hx hy = hx
either_way false x y hx hy = hy

guarded-IsSettled :
    (context : Text) (m : Action MemorySqliteStore Bool) (s : MemorySqliteStore)
    → KeepsSound m
    → IsSettled s
    → IsSettled (guarded context m s).1
unfolding guarded
guarded-IsSettled context m s keeps h =
    let start : Sound s s = record { tables = h.consistent; frame = SameFrame-refl s } in
    let after =
      Sound-IsSettled s (m s).1 h
        (Post-either (Sound s) (Sound s) (m s) (λ t k. k) (λ t k. k) (keeps s s start)) in
    either_way s.opened _ (failed_with unavailable, s) after h

fetch-IsSettled :
    {A : Type 0} (rows : Tables → List A) (s : MemorySqliteStore)
    → IsSettled s
    → IsSettled (fetch rows s).1
unfolding fetch
fetch-IsSettled rows s h = elim (Bool-cases (s.engine.prepares s.calls)) [
  | inl p ↦ rw p (record { consistent = h.consistent; idle = h.idle; rolls = h.rolls })
  | inr p ↦ rw p (record { consistent = h.consistent; idle = h.idle; rolls = h.rolls })
]

pub perform-IsSettled :
    (operation : Operation) (s : MemorySqliteStore) → IsSettled s → IsSettled (perform operation s)
unfolding perform save_event save_payload save_summary save_entity save_relation
    mark_entity_obsolete save_consolidation_cursor
perform-IsSettled (store_event event) s h =
    guarded-IsSettled (codes "SaveEvent") (save_event_unlocked event) s
      (save_event-KeepsSound event) h
perform-IsSettled (store_payload payload) s h =
    guarded-IsSettled (codes "SavePayload") (save_payload_unlocked payload) s
      (save_payload-KeepsSound payload) h
perform-IsSettled (store_summary input) s h =
    guarded-IsSettled (codes "SaveSummary") (save_summary_unlocked input) s
      (save_summary-KeepsSound input) h
perform-IsSettled (store_entity entity) s h =
    guarded-IsSettled (codes "SaveEntity") (save_entity_unlocked entity) s
      (save_entity-KeepsSound entity) h
perform-IsSettled (store_relation relation) s h =
    guarded-IsSettled (codes "SaveRelation") (save_relation_unlocked relation) s
      (save_relation-KeepsSound relation) h
perform-IsSettled (obsolete entity_id by) s h =
    guarded-IsSettled (codes "MarkEntityObsolete") (mark_entity_obsolete_unlocked entity_id by) s
      (mark_obsolete-KeepsSound entity_id by) h
perform-IsSettled (store_cursor agent session cursor) s h =
    guarded-IsSettled (codes "SaveConsolidationCursor")
      (save_consolidation_cursor_unlocked agent session cursor) s
      (save_cursor-KeepsSound agent session cursor) h
perform-IsSettled (query_events_after agent session cursor excluded) s h =
    either_way s.opened _ _ (fetch-IsSettled (events_after agent session cursor excluded) s h) h
perform-IsSettled (query_recent_events agent session limit) s h =
    either_way s.opened _ _ (fetch-IsSettled (recent_events agent session limit) s h) h
perform-IsSettled (query_recent_payloads agent session limit) s h =
    either_way s.opened _ _ (fetch-IsSettled (recent_payloads agent session limit) s h) h
perform-IsSettled (query_cursor agent session) s h =
    either_way s.opened _ _
      (fetch-IsSettled (λ (t : Tables). keep_if (is_cursor_of agent session) t.cursors) s h) h
perform-IsSettled (run_consolidation fallback model request events) s h =
    let after =
      consolidate-Transacted s h.consistent h.idle h.rolls fallback model request events in
    record {
      consistent = after.consistent;
      idle = after.closed;
      rolls = λ n. rw after.kept (h.rolls n);
    }

-- On an engine whose ROLLBACK always succeeds, every sequence of calls, whichever statements and
-- queries fail in it, leads from a store with consistent tables and no open transaction to another.
pub run-IsSettled :
    (operations : List Operation) (s : MemorySqliteStore)
    → IsSettled s
    → IsSettled (run operations s)
unfolding run
run-IsSettled [] s h = h
run-IsSettled (operation ∷ operations) s h =
    run-IsSettled operations (perform operation s) (perform-IsSettled operation s h)
