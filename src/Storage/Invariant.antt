-- ===== src/Storage/Invariant.antt =====
-- What the tables of src/storage/sqlite_store.cpp keep: row ids rise, keys are unique, and no two
-- active rows stand for one entity or one relation.
pub mod Rows
pub mod Relations
pub mod Entities
pub mod Writes
use agent_memory_cpp.Prelude.{ℕ, ◌≤◌, ◌<◌, Bool, not, ◌&&◌, List, [], ◌∷◌, is_empty, All}
use agent_memory_cpp.Prelude.Distinct.{Distinct}
use agent_memory_cpp.Text.{Text, text_eq}
use agent_memory_cpp.Storage.Tables.{
  Tables, EventRow, PayloadRow, EntityRow, RelationRow, CursorRow,
}

-- The ids rise from above `low`, and none is above `high`.
abbrev pub Ascends : ℕ → ℕ → List EventRow → Type 0
Ascends low high [] = low ≤ high
Ascends low high (row ∷ rows) = (low < row.id) × Ascends row.id high rows

abbrev pub same_ref : PayloadRow → PayloadRow → Bool
same_ref a b = text_eq a.ref b.ref

abbrev pub same_id : EntityRow → EntityRow → Bool
same_id a b = text_eq a.id b.id

abbrev pub is_named : EntityRow → Bool
is_named row =
    not (is_empty row.id)
    && not (is_empty row.agent_id)
    && not (is_empty row.kind)
    && not (is_empty row.name)

-- Two active rows of one agent, type and name.
abbrev pub same_entity : EntityRow → EntityRow → Bool
same_entity a b =
    a.active
    && b.active
    && is_named a
    && is_named b
    && text_eq a.agent_id b.agent_id
    && text_eq a.kind b.kind
    && text_eq a.name b.name

-- Two active rows of one agent that say the same.
abbrev pub same_relation : RelationRow → RelationRow → Bool
same_relation a b =
    a.active
    && b.active
    && text_eq a.agent_id b.agent_id
    && text_eq a.from_entity b.from_entity
    && text_eq a.relation b.relation
    && text_eq a.to_entity b.to_entity

abbrev pub same_cursor : CursorRow → CursorRow → Bool
same_cursor a b = text_eq a.agent_id b.agent_id && text_eq a.session_id b.session_id

pub record IsConsistent (t : Tables) : Type 0 where
  pub events_ascend : Ascends 0 t.sequence.events t.events
  pub refs_distinct : Distinct same_ref t.payloads
  pub ids_distinct : Distinct same_id t.entities
  pub entities_distinct : Distinct same_entity t.entities
  pub relations_distinct : Distinct same_relation t.relations
  pub cursors_distinct : Distinct same_cursor t.cursors
