-- ===== src/Storage/Entities.antt =====
-- The entity table: `SaveEntity`, `MarkDuplicateEntitiesObsolete` and `MarkEntityObsolete` of
-- src/storage/sqlite_store.cpp.
use agent_memory_cpp.Prelude.{
  Bool, true, false, not, ◌&&◌, ◌||◌, Option, none, some, List, [], ◌∷◌, ◌++◌, map, any, is_empty,
  Action, if◌then◌else◌,
}
use agent_memory_cpp.Text.{Text, codes, text_eq}
use agent_memory_cpp.Json.{json_object}
use agent_memory_cpp.Types.{MemoryEntity, MemoryOperationResult, Timestamp}
use agent_memory_cpp.Storage.Tables.{Tables, EntityRow, c_str}
use agent_memory_cpp.Storage.Engine.{
  Engine, MemorySqliteStore, run_statement, guarded, serialize_source_refs,
}

abbrev pub on_entities : (EntityRow → EntityRow) → Tables → Tables
on_entities f t = record t { entities = map f t.entities }

abbrev obsolete_row : Text → Timestamp → EntityRow → EntityRow
obsolete_row by now row = record row { active = false; superseded_by = some by; updated_at = now }

-- WHERE agent_id = ? AND type = ? AND name = ? AND id <> ? AND active = 1
unfoldable pub is_duplicate : MemoryEntity → EntityRow → Bool
unfolding text_eq c_str
is_duplicate entity row =
    text_eq row.agent_id (c_str entity.agent_id)
    && text_eq row.kind (c_str entity.entity_type)
    && text_eq row.name (c_str entity.name)
    && not (text_eq row.id (c_str entity.id))
    && row.active

unfoldable pub obsolete_duplicate : MemoryEntity → Timestamp → EntityRow → EntityRow
unfolding is_duplicate c_str
obsolete_duplicate entity now row =
    if is_duplicate entity row then obsolete_row (c_str entity.id) now row else row

abbrev pub is_unnamed : MemoryEntity → Bool
is_unnamed entity =
    is_empty entity.id
    || is_empty entity.agent_id
    || is_empty entity.entity_type
    || is_empty entity.name

unfoldable pub mark_duplicate_entities_obsolete_unlocked :
    MemoryEntity → Action MemorySqliteStore Bool
unfolding obsolete_duplicate run_statement
mark_duplicate_entities_obsolete_unlocked entity s =
    if is_unnamed entity
    then (true, s)
    else run_statement (λ now. on_entities (obsolete_duplicate entity now)) s

unfoldable pub obsolete_entity : Text → Text → Timestamp → EntityRow → EntityRow
unfolding text_eq c_str
obsolete_entity entity_id by now row =
    if text_eq row.id (c_str entity_id) then obsolete_row (c_str by) now row else row

unfoldable pub mark_entity_obsolete_unlocked : Text → Text → Action MemorySqliteStore Bool
unfolding obsolete_entity run_statement
mark_entity_obsolete_unlocked entity_id by =
    run_statement (λ now. on_entities (obsolete_entity entity_id by now))

unfoldable pub mark_entity_obsolete : Text → Text → Action MemorySqliteStore MemoryOperationResult
unfolding mark_entity_obsolete_unlocked guarded
mark_entity_obsolete entity_id by =
    guarded (codes "MarkEntityObsolete") (mark_entity_obsolete_unlocked entity_id by)

abbrev null_if_empty : Text → Option Text
null_if_empty [] = none
null_if_empty (c ∷ cs) = some (c_str (c ∷ cs))

unfoldable pub entity_row : Engine → MemoryEntity → Timestamp → EntityRow
unfolding c_str json_object serialize_source_refs
entity_row engine entity now = record {
  id = c_str entity.id;
  agent_id = c_str entity.agent_id;
  kind = c_str entity.entity_type;
  name = c_str entity.name;
  summary = c_str entity.summary;
  confidence = entity.confidence;
  source_refs_json = c_str (serialize_source_refs engine entity.source_refs);
  metadata_json = c_str (engine.dump (json_object entity.metadata));
  active = entity.is_active;
  superseded_by = null_if_empty entity.superseded_by_entity_id;
  created_at = now;
  updated_at = now;
}

abbrev pub has_entity_id : Text → EntityRow → Bool
has_entity_id id row = text_eq row.id id

-- ON CONFLICT(id) DO UPDATE SET …: only the creation time stays.
unfoldable pub replace_entity : EntityRow → EntityRow → EntityRow
unfolding text_eq
replace_entity new row =
    if has_entity_id new.id row then record new { created_at = row.created_at } else row

unfoldable pub upsert_entity : EntityRow → List EntityRow → List EntityRow
unfolding replace_entity any
upsert_entity new rows =
    if any (has_entity_id new.id) rows then map (replace_entity new) rows else rows ++ new ∷ []

unfoldable pub write_entity : Engine → MemoryEntity → Timestamp → Tables → Tables
unfolding entity_row upsert_entity
write_entity engine entity now t = record t {
  entities = upsert_entity (entity_row engine entity now) t.entities;
}

-- The last step of `SaveEntityUnlocked`: the entity that this one takes the place of.
unfoldable pub mark_superseded : MemoryEntity → Action MemorySqliteStore Bool
unfolding mark_entity_obsolete_unlocked
mark_superseded entity s =
    if is_empty entity.superseded_entity_id
    then (true, s)
    else mark_entity_obsolete_unlocked entity.superseded_entity_id entity.id s

-- `m` and then `n`, unless `m` has failed.
infixl 20 ◌and_then◌
abbrev pub ◌and_then◌ :
    Action MemorySqliteStore Bool → Action MemorySqliteStore Bool → Action MemorySqliteStore Bool
◌and_then◌ m n s = let (done, t) = m s in if done then n t else (false, t)

unfoldable pub save_entity_unlocked : MemoryEntity → Action MemorySqliteStore Bool
unfolding mark_duplicate_entities_obsolete_unlocked write_entity mark_superseded run_statement
save_entity_unlocked entity s =
    (mark_duplicate_entities_obsolete_unlocked entity
        and_then run_statement (write_entity s.engine entity)
        and_then mark_superseded entity)
      s

unfoldable pub save_entity : MemoryEntity → Action MemorySqliteStore MemoryOperationResult
unfolding save_entity_unlocked guarded
save_entity entity = guarded (codes "SaveEntity") (save_entity_unlocked entity)
