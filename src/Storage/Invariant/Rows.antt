-- ===== src/Storage/Invariant/Rows.antt =====
-- What each change of a row keeps of the tables' invariant.
use agent_memory_cpp.Prelude.{
  ℕ, suc, ◌<◌, ◌≡◌, List, [], ◌∷◌, ◌++◌, arith, any, inl, inr, Bool-cases,
}
use agent_memory_cpp.Prelude.Distinct.{Distinct, Distinct-append, Distinct-map, any-false}
use agent_memory_cpp.Text.{Text, text_eq, text_eq_iff}
use agent_memory_cpp.Types.{MemoryEvent, MemoryPayloadRef, Timestamp}
use agent_memory_cpp.Storage.Tables.{Tables, EventRow, PayloadRow, CursorRow, c_str}
use agent_memory_cpp.Storage.Engine.{Engine}
use agent_memory_cpp.Storage.Events.{insert_event, event_row}
use agent_memory_cpp.Storage.Payloads.{payload_row, replace_payload, upsert_payload}
use agent_memory_cpp.Storage.Cursors.{is_cursor_of, cursor_row, replace_cursor, upsert_cursor}
use agent_memory_cpp.Storage.Summaries.{SummaryInput, insert_summary}
use agent_memory_cpp.Storage.Invariant.{Ascends, same_ref, same_cursor, IsConsistent}

pub Ascends-append :
    (low high : ℕ) (rows : List EventRow) (new : EventRow)
    → Ascends low high rows
    → high < new.id
    → Ascends low new.id (rows ++ new ∷ [])
Ascends-append low high [] new h k = (omega arith, omega arith)
Ascends-append low high (row ∷ rows) new h k = (h.0, Ascends-append row.id high rows new h.1 k)

pub insert_event-IsConsistent :
    (engine : Engine) (event : MemoryEvent) (now : Timestamp) (t : Tables)
    → IsConsistent t
    → IsConsistent (insert_event engine event now t)
unfolding insert_event
insert_event-IsConsistent engine event now t v = record {
  events_ascend =
      Ascends-append 0 t.sequence.events t.events
        (event_row engine event (suc t.sequence.events) now) v.events_ascend (omega arith);
  refs_distinct = v.refs_distinct;
  ids_distinct = v.ids_distinct;
  entities_distinct = v.entities_distinct;
  relations_distinct = v.relations_distinct;
  cursors_distinct = v.cursors_distinct;
}

pub insert_summary-IsConsistent :
    (engine : Engine) (input : SummaryInput) (now : Timestamp) (t : Tables)
    → IsConsistent t
    → IsConsistent (insert_summary engine input now t)
unfolding insert_summary
insert_summary-IsConsistent engine input now t v = record {
  events_ascend = v.events_ascend;
  refs_distinct = v.refs_distinct;
  ids_distinct = v.ids_distinct;
  entities_distinct = v.entities_distinct;
  relations_distinct = v.relations_distinct;
  cursors_distinct = v.cursors_distinct;
}

ref-replace_payload : (new row : PayloadRow) → (replace_payload new row).ref ≡ row.ref
unfolding replace_payload
ref-replace_payload new row = ground (arith, text_eq_iff row.ref new.ref)

upsert_payload-Distinct :
    (payload : MemoryPayloadRef) (now : Timestamp) (t : Tables)
    → Distinct same_ref t.payloads
    → Distinct same_ref (upsert_payload payload now t).payloads
unfolding upsert_payload
upsert_payload-Distinct payload now t d =
    let new = payload_row payload (suc t.sequence.payloads) now in
    elim (Bool-cases (any (λ row. text_eq row.ref new.ref) t.payloads)) [
      | inl known ↦ rw known (
          Distinct-map same_ref (replace_payload new) t.payloads
            (λ x y e. rw (ref-replace_payload new x, ref-replace_payload new y) e) d)
      | inr fresh ↦
          rw fresh (Distinct-append same_ref t.payloads new d (any-false _ t.payloads fresh))
    ]

key-replace_cursor :
    (agent session cursor : Text) (now : Timestamp) (row : CursorRow)
    → let row' = replace_cursor agent session (cursor_row agent session cursor now) row in
      (row'.agent_id ≡ row.agent_id) × (row'.session_id ≡ row.session_id)
unfolding replace_cursor cursor_row
key-replace_cursor agent session cursor now row =
    ground
      (arith, text_eq_iff row.agent_id (c_str agent), text_eq_iff row.session_id (c_str session))

upsert_cursor-Distinct :
    (agent session cursor : Text) (now : Timestamp) (t : Tables)
    → Distinct same_cursor t.cursors
    → Distinct same_cursor (upsert_cursor agent session cursor now t).cursors
unfolding upsert_cursor
upsert_cursor-Distinct agent session cursor now t d =
    let new = cursor_row agent session cursor now in
    elim (Bool-cases (any (is_cursor_of agent session) t.cursors)) [
      | inl known ↦ rw known (
          Distinct-map same_cursor (replace_cursor agent session new) t.cursors
            (λ x y e. ground (
              arith,
              key-replace_cursor agent session cursor now x,
              key-replace_cursor agent session cursor now y,
            ))
            d)
      | inr fresh ↦
          rw fresh (Distinct-append same_cursor t.cursors new d (any-false _ t.cursors fresh))
    ]

pub upsert_payload-IsConsistent :
    (payload : MemoryPayloadRef) (now : Timestamp) (t : Tables)
    → IsConsistent t
    → IsConsistent (upsert_payload payload now t)
upsert_payload-IsConsistent payload now t v =
    let refs = upsert_payload-Distinct payload now t v.refs_distinct in
    unfold upsert_payload in
    record {
      events_ascend = v.events_ascend;
      refs_distinct = refs;
      ids_distinct = v.ids_distinct;
      entities_distinct = v.entities_distinct;
      relations_distinct = v.relations_distinct;
      cursors_distinct = v.cursors_distinct;
    }

pub upsert_cursor-IsConsistent :
    (agent session cursor : Text) (now : Timestamp) (t : Tables)
    → IsConsistent t
    → IsConsistent (upsert_cursor agent session cursor now t)
upsert_cursor-IsConsistent agent session cursor now t v =
    let cursors = upsert_cursor-Distinct agent session cursor now t v.cursors_distinct in
    unfold upsert_cursor in
    record {
      events_ascend = v.events_ascend;
      refs_distinct = v.refs_distinct;
      ids_distinct = v.ids_distinct;
      entities_distinct = v.entities_distinct;
      relations_distinct = v.relations_distinct;
      cursors_distinct = cursors;
    }
