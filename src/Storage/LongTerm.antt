-- ===== src/Storage/LongTerm.antt =====
-- `LoadLongTermMemory` of src/storage/sqlite_store.cpp.
use agent_memory_cpp.Prelude.{
  ℕ, Bool, true, false, ◌&&◌, List, [], ◌++◌, map, reverse, take, keep_if, Action, if◌then◌else◌,
}
use agent_memory_cpp.Prelude.Int.{ℤ, to_int32}
use agent_memory_cpp.Text.{Text, codes, text_eq}
use agent_memory_cpp.Types.{
  MemoryEntity, MemoryRelation, LongTermSummaryRecord, LongTermMemorySnapshot,
  LongTermMemorySnapshotResult, empty_snapshot, no_error,
}
use agent_memory_cpp.Storage.Tables.{
  Tables, SummaryRow, EntityRow, RelationRow, c_str, order_by_desc,
}
use agent_memory_cpp.Storage.Engine.{
  Engine, MemorySqliteStore, Fetched, not_prepared, broken, complete, fetch, sqlite_error,
  unavailable, parse_json_column, parse_source_refs_column,
}
use agent_memory_cpp.Storage.Events.{is_in_session, effective_limit}
use agent_memory_cpp.Storage.Cursors.{int_to_string}

unfoldable pub read_summary_row : Engine → SummaryRow → LongTermSummaryRecord
unfolding parse_source_refs_column
read_summary_row engine row = record {
  level = row.level;
  topic = row.topic;
  summary = row.summary;
  confidence = row.confidence;
  source_refs = parse_source_refs_column engine row.source_refs_json;
  created_at = 0;
  updated_at = 0;
}

unfoldable pub read_entity_row : Engine → EntityRow → MemoryEntity
unfolding parse_source_refs_column parse_json_column
read_entity_row engine row = record {
  id = row.id;
  agent_id = row.agent_id;
  entity_type = row.kind;
  name = row.name;
  summary = row.summary;
  confidence = row.confidence;
  is_active = true;
  superseded_by_entity_id = [];
  superseded_entity_id = [];
  source_refs = parse_source_refs_column engine row.source_refs_json;
  metadata = parse_json_column engine row.metadata_json;
  created_at = 0;
  updated_at = 0;
}

-- The id is read as an `int`.
unfoldable pub read_relation_row : Engine → RelationRow → MemoryRelation
unfolding parse_source_refs_column parse_json_column to_int32
read_relation_row engine row = record {
  id = int_to_string (to_int32 row.id);
  agent_id = row.agent_id;
  from_entity_id = row.from_entity;
  relation_type = row.relation;
  to_entity_id = row.to_entity;
  confidence = row.confidence;
  source_refs = parse_source_refs_column engine row.source_refs_json;
  metadata = parse_json_column engine row.metadata_json;
  created_at = 0;
  updated_at = 0;
}

unfoldable pub recent_summaries : Text → Text → ℕ → Tables → List SummaryRow
unfolding is_in_session keep_if take order_by_desc
recent_summaries agent session limit t = take limit (
    order_by_desc (λ row. row.updated_at)
      (reverse
        (keep_if (λ row. is_in_session agent session row.agent_id row.session_id) t.summaries)))

-- WHERE active = 1 AND agent_id = ?
unfoldable pub is_active_entity : Text → EntityRow → Bool
unfolding text_eq c_str
is_active_entity agent row = row.active && text_eq row.agent_id (c_str agent)

-- The query leaves the order of rows with one time stamp to SQLite; the model takes the later first.
unfoldable pub recent_entities : Text → ℕ → Tables → List EntityRow
unfolding is_active_entity keep_if take order_by_desc
recent_entities agent limit t =
    take limit (
      order_by_desc (λ row. row.updated_at) (reverse (keep_if (is_active_entity agent) t.entities)))

unfoldable pub is_active_relation : Text → RelationRow → Bool
unfolding text_eq c_str
is_active_relation agent row = row.active && text_eq row.agent_id (c_str agent)

unfoldable pub recent_relations : Text → ℕ → Tables → List RelationRow
unfolding is_active_relation keep_if take order_by_desc
recent_relations agent limit t = take limit (
    order_by_desc (λ row. row.updated_at)
      (reverse (keep_if (is_active_relation agent) t.relations)))

abbrev snapshot_result : LongTermMemorySnapshot → LongTermMemorySnapshotResult
snapshot_result snapshot = record { succeeded = true; snapshot = snapshot; error = no_error }

abbrev snapshot_failed :
    Text → LongTermMemorySnapshot → MemorySqliteStore → LongTermMemorySnapshotResult
snapshot_failed context snapshot s = record {
  succeeded = false;
  snapshot = snapshot;
  error = sqlite_error (codes "LoadLongTermMemory::" ++ context) s;
}

-- Each of the three queries fills its part of the snapshot, and ends the method if it fails.
unfoldable pub add_relations :
    LongTermMemorySnapshot → MemorySqliteStore → Fetched RelationRow → LongTermMemorySnapshotResult
unfolding read_relation_row
add_relations snapshot s not_prepared = snapshot_failed (codes "relations_prepare") snapshot s
add_relations snapshot s (broken rows) =
    snapshot_failed (codes "relations_step")
      (record snapshot { relations = map (read_relation_row s.engine) rows }) s
add_relations snapshot s (complete rows) =
    snapshot_result (record snapshot { relations = map (read_relation_row s.engine) rows })

unfoldable pub add_entities :
    Text
    → ℕ
    → LongTermMemorySnapshot
    → MemorySqliteStore
    → Fetched EntityRow
    → LongTermMemorySnapshotResult × MemorySqliteStore
unfolding read_entity_row recent_relations add_relations fetch
add_entities agent limit snapshot s not_prepared =
    (snapshot_failed (codes "entities_prepare") snapshot s, s)
add_entities agent limit snapshot s (broken rows) = (
  snapshot_failed (codes "entities_step")
      (record snapshot { entities = map (read_entity_row s.engine) rows }) s,
  s,
)
add_entities agent limit snapshot s (complete rows) =
    let (found, t) = fetch (recent_relations agent limit) s in
    (add_relations (record snapshot { entities = map (read_entity_row s.engine) rows }) t found, t)

unfoldable pub add_summaries :
    Text
    → ℕ
    → MemorySqliteStore
    → Fetched SummaryRow
    → LongTermMemorySnapshotResult × MemorySqliteStore
unfolding read_summary_row recent_entities add_entities fetch
add_summaries agent limit s not_prepared =
    (snapshot_failed (codes "summaries_prepare") empty_snapshot s, s)
add_summaries agent limit s (broken rows) = (
  snapshot_failed (codes "summaries_step")
      (record empty_snapshot { summaries = map (read_summary_row s.engine) rows }) s,
  s,
)
add_summaries agent limit s (complete rows) =
    let (found, t) = fetch (recent_entities agent limit) s in
    add_entities agent limit
      (record empty_snapshot { summaries = map (read_summary_row s.engine) rows }) t found

unfoldable pub load_long_term_memory :
    Text → ℤ → Text → Action MemorySqliteStore LongTermMemorySnapshotResult
unfolding recent_summaries add_summaries fetch
load_long_term_memory agent limit session s =
    let effective = effective_limit limit 100 in
    let (found, t) = fetch (recent_summaries agent session effective) s in
    if s.opened
    then add_summaries agent effective t found
    else (record { succeeded = false; snapshot = empty_snapshot; error = unavailable }, s)
