-- ===== src/Storage/Relations.antt =====
-- The relation table: `SaveRelation` of src/storage/sqlite_store.cpp.
use agent_memory_cpp.Prelude.{
  ℕ, suc, Bool, true, false, ◌&&◌, [], ◌∷◌, ◌++◌, map, Action, if◌then◌else◌,
}
use agent_memory_cpp.Text.{codes, text_eq}
use agent_memory_cpp.Json.{Json, boolean, string, json_object, with_member}
use agent_memory_cpp.Types.{MemoryRelation, MemoryOperationResult, Timestamp}
use agent_memory_cpp.Storage.Tables.{Tables, RelationRow, c_str}
use agent_memory_cpp.Storage.Engine.{
  Engine, MemorySqliteStore, run_statement, guarded, serialize_source_refs,
}
use agent_memory_cpp.Storage.Entities.{mark_entity_obsolete_unlocked, ◌and_then◌}

-- The metadata that is stored: a contradiction names the entity that it is in conflict with.
unfoldable pub relation_metadata : MemoryRelation → Json
unfolding json_object text_eq
relation_metadata relation =
    let metadata = json_object relation.metadata in
    if text_eq relation.relation_type (codes "contradicts")
    then with_member (codes "conflictsWithEntityId") (string relation.to_entity_id)
        (with_member (codes "conflict") (boolean true) metadata)
    else metadata

-- WHERE from_entity = ? AND relation = ? AND to_entity = ? AND active = 1 AND agent_id = ?
unfoldable pub is_same_relation : MemoryRelation → RelationRow → Bool
unfolding text_eq c_str
is_same_relation relation row =
    text_eq row.from_entity (c_str relation.from_entity_id)
    && text_eq row.relation (c_str relation.relation_type)
    && text_eq row.to_entity (c_str relation.to_entity_id)
    && row.active
    && text_eq row.agent_id (c_str relation.agent_id)

unfoldable pub obsolete_relation : MemoryRelation → Timestamp → RelationRow → RelationRow
unfolding is_same_relation
obsolete_relation relation now row =
    if is_same_relation relation row then record row { active = false; updated_at = now } else row

unfoldable pub obsolete_relations : MemoryRelation → Timestamp → Tables → Tables
unfolding obsolete_relation
obsolete_relations relation now t = record t {
  relations = map (obsolete_relation relation now) t.relations;
}

unfoldable pub relation_row : Engine → MemoryRelation → ℕ → Timestamp → RelationRow
unfolding c_str relation_metadata serialize_source_refs
relation_row engine relation id now = record {
  id = id;
  agent_id = c_str relation.agent_id;
  from_entity = c_str relation.from_entity_id;
  relation = c_str relation.relation_type;
  to_entity = c_str relation.to_entity_id;
  confidence = relation.confidence;
  source_refs_json = c_str (serialize_source_refs engine relation.source_refs);
  metadata_json = c_str (engine.dump (relation_metadata relation));
  active = true;
  created_at = now;
  updated_at = now;
}

unfoldable pub insert_relation : Engine → MemoryRelation → Timestamp → Tables → Tables
unfolding relation_row
insert_relation engine relation now t = record t {
  relations = t.relations ++ relation_row engine relation (suc t.sequence.relations) now ∷ [];
  sequence = record t.sequence { relations = suc t.sequence.relations };
}

-- A relation `supersedes` makes its target obsolete.
unfoldable pub apply_supersedes : MemoryRelation → Action MemorySqliteStore Bool
unfolding mark_entity_obsolete_unlocked text_eq
apply_supersedes relation s =
    if text_eq relation.relation_type (codes "supersedes")
    then mark_entity_obsolete_unlocked relation.to_entity_id relation.from_entity_id s
    else (true, s)

unfoldable pub save_relation_unlocked : MemoryRelation → Action MemorySqliteStore Bool
unfolding obsolete_relations insert_relation apply_supersedes run_statement
save_relation_unlocked relation s =
    (run_statement (obsolete_relations relation)
        and_then run_statement (insert_relation s.engine relation)
        and_then apply_supersedes relation)
      s

unfoldable pub save_relation : MemoryRelation → Action MemorySqliteStore MemoryOperationResult
unfolding save_relation_unlocked guarded
save_relation relation = guarded (codes "SaveRelation") (save_relation_unlocked relation)
