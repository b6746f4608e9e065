-- ===== src/Runtime/Atomic.antt =====
-- A consolidation of the runtime, from the loading of the cursor to the commit.
use agent_memory_cpp.Prelude.{
  refl, subst, sym, ◌∙◌, Bool, false, Option, some, List, inl, inr, Bool-cases, keep_if,
}
use agent_memory_cpp.Text.{Text}
use agent_memory_cpp.Types.{MemoryConsolidationRequest}
use agent_memory_cpp.Storage.Engine.{MemorySqliteStore}
use agent_memory_cpp.Storage.Reads.{
  OnlyReads, OnlyReads-trans, fetch-OnlyReads, either_read, reads_nothing,
}
use agent_memory_cpp.Storage.Tables.{Tables}
use agent_memory_cpp.Storage.Events.{load_events_after_cursor, events_after}
use agent_memory_cpp.Storage.Cursors.{is_cursor_of}
use agent_memory_cpp.Storage.Invariant.{IsConsistent}
use agent_memory_cpp.Consolidation.Service.{Processor}
use agent_memory_cpp.Consolidation.Rules.{process}
use agent_memory_cpp.Consolidation.Atomic.{Transacted, consolidate-Transacted}
use agent_memory_cpp.History.{IsSettled}
use agent_memory_cpp.Runtime.{start_cursor, consolidate_store}

pub load_events-OnlyReads :
    (agent session cursor : Text) (excluded : List Text) (s : MemorySqliteStore)
    → OnlyReads s (load_events_after_cursor agent session cursor excluded s).1
unfolding load_events_after_cursor
load_events-OnlyReads agent session cursor excluded s =
    either_read s.opened s _ _ (fetch-OnlyReads (events_after agent session cursor excluded) s)
      (reads_nothing s)

pub start_cursor-OnlyReads :
    (request : MemoryConsolidationRequest) (s : MemorySqliteStore)
    → OnlyReads s (start_cursor request s).1
unfolding start_cursor
start_cursor-OnlyReads request s = either_read request.force_reprocess s _ _ (reads_nothing s) (
    either_read s.opened s _ _
      (fetch-OnlyReads
        (λ (t : Tables). keep_if (is_cursor_of request.agent_id request.session_id) t.cursors) s)
      (reads_nothing s))

pub OnlyReads-IsSettled : (s t : MemorySqliteStore) → OnlyReads s t → IsSettled s → IsSettled t
OnlyReads-IsSettled s t r h = record {
  consistent = subst IsConsistent (sym r.tables) h.consistent;
  idle = r.saved ∙ h.idle;
  rolls = λ n. rw r.engine (h.rolls n);
}

-- Reading first makes no difference to what a transaction did.
after_reading :
    (s t u : MemorySqliteStore) (succeeded : Bool)
    → OnlyReads s t
    → Transacted t succeeded u
    → Transacted s succeeded u
after_reading s t u succeeded r h = record {
  closed = h.closed;
  kept = h.kept ∙ r.engine;
  consistent = h.consistent;
  outcome = elim h.outcome [ inl good ↦ inl good | inr bad ↦ inr (bad.0, bad.1 ∙ r.tables) ];
}

-- A failure before the transaction has only read.
only_read : (s t : MemorySqliteStore) → OnlyReads s t → IsSettled s → Transacted s false t
only_read s t r h = record {
  closed = r.saved ∙ h.idle;
  kept = r.engine;
  consistent = subst IsConsistent (sym r.tables) h.consistent;
  outcome = inr (refl, r.tables);
}

-- From a store with consistent tables and no open transaction, on an engine whose ROLLBACK always
-- succeeds, the runtime's consolidation (loading the cursor and the events, then consolidating with
-- the rules as fallback) leaves consistent tables and no open transaction, and where it reports a
-- failure, at any of its steps, the tables are those of before.
pub consolidate_store-Transacted :
    (model : Option Processor) (request : MemoryConsolidationRequest) (s : MemorySqliteStore)
    → IsSettled s
    → let (result, t) = consolidate_store model request s in Transacted s result.succeeded t
consolidate_store-Transacted model request s h =
    let (start, t) = start_cursor request s in
    let (events, u) =
      load_events_after_cursor request.agent_id request.session_id start.cursor
        request.excluded_session_ids t in
    let started = start_cursor-OnlyReads request s in
    let loaded = OnlyReads-trans started (
      load_events-OnlyReads request.agent_id request.session_id start.cursor
        request.excluded_session_ids t) in
    let settled = OnlyReads-IsSettled s u loaded h in
    let done = after_reading s u _ _ loaded (
      consolidate-Transacted u settled.consistent settled.idle settled.rolls (some process) model
        request events.events) in
    unfold consolidate_store in
    elim (Bool-cases start.succeeded) [
      | inr bad ↦ rw bad (only_read s t started h)
      | inl good ↦ rw good (elim (Bool-cases events.succeeded) [
        | inr bad ↦ rw bad (only_read s u loaded h)
        | inl fine ↦ rw fine done
      ])
    ]
