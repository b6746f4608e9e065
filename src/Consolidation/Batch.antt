-- ===== src/Consolidation/Batch.antt =====
-- src/consolidation/consolidation_batch_builder.cpp, and the data of its header and of
-- src/consolidation/long_term_memory_processor.h.
pub mod Selection
use agent_memory_cpp.Prelude.{
  ℕ, suc, ◌+◌, ◌≡◌, Bool, true, false, not, ◌&&◌, ◌||◌, List, [], ◌∷◌, ◌++◌, is_empty, length, leb,
  if◌then◌else◌,
}
use agent_memory_cpp.Prelude.Int.{ℤ, is_positive, to_ℕ, to_int32}
use agent_memory_cpp.Text.{Text, codes, text_eq, mem_text}
use agent_memory_cpp.Text.Decimal.{to_string}
use agent_memory_cpp.Types.{
  MemoryEvent, MemoryEventType, message_appended, MemoryEntity, MemoryRelation,
  MemoryConsolidationRequest,
}

pub record LongTermMemoryBatch : Type 0 where
  pub events : List MemoryEvent
  pub source_refs : List Text

pub record LongTermMemoryUpdate : Type 0 where
  pub entities : List MemoryEntity
  pub relations : List MemoryRelation
  pub profile_summaries : List Text
  pub topic_summaries : List Text

abbrev pub empty_update : LongTermMemoryUpdate
empty_update = record {
  entities = [];
  relations = [];
  profile_summaries = [];
  topic_summaries = [];
}

pub record ConsolidationBatchBuildResult : Type 0 where
  pub batch : LongTermMemoryBatch
  pub session_id : Text
  pub session_summary : Text
  pub session_source_refs : List Text
  pub next_cursor : Text

abbrev pub is_message : MemoryEventType → Bool
is_message message_appended = true
is_message _ = false

-- The three `continue` conditions of the loop, negated.
unfoldable pub is_eligible : MemoryConsolidationRequest → MemoryEvent → Bool
unfolding text_eq mem_text
is_eligible request event =
    not (not (is_empty request.session_id) && not (text_eq event.session_id request.session_id))
    && not (
        not (is_empty request.excluded_session_ids)
        && mem_text event.session_id request.excluded_session_ids)
    && is_message event.kind

unfoldable pub event_cursor : ℕ → MemoryEvent → Text
unfolding to_string
event_cursor i event =
    if not (is_empty event.store_cursor) then event.store_cursor else to_string (i + 1)

-- The variables of the loop.
pub record Scan : Type 0 where
  pub next_cursor : Text
  pub summary : Text
  pub events : List MemoryEvent
  pub source_refs : List Text
  pub count : ℕ

abbrev pub empty_scan : Scan
empty_scan = record { next_cursor = []; summary = []; events = []; source_refs = []; count = 0 }

abbrev pub session_uri : Text → Text
session_uri session = codes "session://" ++ session

unfoldable pub add_event : Text → Text → MemoryEvent → Scan → Scan
add_event session cursor event st = record st {
  summary = st.summary ++ (event.role ++ (codes ": " ++ (event.content ++ codes "\n")));
  events = st.events ++ event ∷ [];
  source_refs = st.source_refs ++ (session_uri session ++ (codes "#event:" ++ cursor)) ∷ [];
  count = st.count + 1;
}

-- limit > 0 && count >= limit
abbrev pub is_full : ℤ → ℕ → Bool
is_full limit count = is_positive limit && leb (to_ℕ limit) count

-- The loop from the event of index i on.
unfoldable pub scan_events : MemoryConsolidationRequest → ℤ → ℕ → Scan → List MemoryEvent → Scan
unfolding is_eligible event_cursor add_event
scan_events request limit i st [] = st
scan_events request limit i st (event ∷ events) =
    let cursor = event_cursor i event in
    let moved = record st { next_cursor = cursor } in
    let added = add_event request.session_id cursor event moved in
    let stays = is_eligible request event && is_full limit added.count in
    let rest =
      scan_events request limit (suc i) (if is_eligible request event then added else moved)
        events in
    if stays then added else rest

abbrev pub batch_limit : MemoryConsolidationRequest → List MemoryEvent → ℤ
batch_limit request events =
    if request.force_reprocess && not (is_positive request.max_events)
    then to_int32 (length events)
    else request.max_events

abbrev pub built : MemoryConsolidationRequest → Scan → List Text → ConsolidationBatchBuildResult
built request st session_refs = record {
  batch = record { events = st.events; source_refs = st.source_refs };
  session_id = request.session_id;
  session_summary = st.summary;
  session_source_refs = session_refs;
  next_cursor = st.next_cursor;
}

-- `Build`
unfoldable pub build : MemoryConsolidationRequest → List MemoryEvent → ConsolidationBatchBuildResult
unfolding scan_events to_int32
build request events =
    if not request.force_reprocess && not (is_positive request.max_events)
    then built request empty_scan []
    else built request (scan_events request (batch_limit request events) 0 empty_scan events)
        (session_uri request.session_id ∷ [])
