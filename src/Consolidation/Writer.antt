-- ===== src/Consolidation/Writer.antt =====
-- src/consolidation/memory_update_writer.cpp
use agent_memory_cpp.Prelude.{
  ℕ, ◌+◌, Bool, true, false, List, [], ◌∷◌, is_empty, map, Action, if◌then◌else◌,
}
use agent_memory_cpp.Text.{Text, codes}
use agent_memory_cpp.Types.{
  MemoryEntity, MemoryRelation, MemoryOperationResult, MemoryError, memory_success, no_error,
}
use agent_memory_cpp.Storage.Engine.{MemorySqliteStore}
use agent_memory_cpp.Storage.Summaries.{SummaryInput}
use agent_memory_cpp.Storage.Transaction.{
  save_summary, save_entity, save_relation, mark_entity_obsolete,
}
use agent_memory_cpp.Consolidation.Batch.{LongTermMemoryUpdate}

pub record MemoryUpdateWriteResult : Type 0 where
  pub succeeded : Bool
  pub saved_summaries : ℕ
  pub saved_entities : ℕ
  pub saved_relations : ℕ
  pub error : MemoryError

-- A default-constructed result: a success with nothing saved.
abbrev pub nothing_written : MemoryUpdateWriteResult
nothing_written = record {
  succeeded = true;
  saved_summaries = 0;
  saved_entities = 0;
  saved_relations = 0;
  error = no_error;
}

abbrev pub failed_write : MemoryError → MemoryUpdateWriteResult
failed_write e = record nothing_written { succeeded = false; error = e }

-- A loop of `SaveUpdate` and the counter that it raises.
pub record Written : Type 0 where
  pub operation : MemoryOperationResult
  pub saved : ℕ

-- `for (const auto& x : xs) { … if (!operation) return FailedWrite(operation); ++saved; }`
module _ {A : Type 0} (write : A → Action MemorySqliteStore MemoryOperationResult) where
  unfoldable pub write_each : ℕ → List A → Action MemorySqliteStore Written
  write_each saved [] s = (record { operation = memory_success; saved = saved }, s)
  write_each saved (x ∷ xs) s =
      let (operation, t) = write x s in
      let rest = write_each (saved + 1) xs t in
      if operation.succeeded then rest else (record { operation = operation; saved = saved }, t)

-- `first` and then `second`, unless `first` has failed.
infixl 20 ◌then_write◌
abbrev pub ◌then_write◌ :
    Action MemorySqliteStore MemoryOperationResult
    → Action MemorySqliteStore MemoryOperationResult
    → Action MemorySqliteStore MemoryOperationResult
◌then_write◌ first second s =
    let (operation, t) = first s in
    let rest = second t in if operation.succeeded then rest else (operation, t)

-- 0.5 and 0.6 are written in thousandths.
abbrev pub session_input : Text → Text → Text → List Text → SummaryInput
session_input agent session summary refs = record {
  agent_id = agent;
  session_id = session;
  level = codes "session";
  topic = codes "conversation";
  summary = summary;
  confidence = 500;
  source_refs = refs;
}

unfoldable pub save_session_summary :
    Text → Text → Text → List Text → Action MemorySqliteStore MemoryUpdateWriteResult
unfolding save_summary
save_session_summary agent session summary refs s =
    let (operation, t) = save_summary (session_input agent session summary refs) s in
    (
      if operation.succeeded
          then record nothing_written { saved_summaries = 1 }
          else failed_write operation.error,
      t,
    )

unfoldable pub topic_input : Text → Text → List Text → Text → SummaryInput
topic_input agent session refs summary = record {
  agent_id = agent;
  session_id = session;
  level = codes "topic";
  topic = codes "auto";
  summary = summary;
  confidence = 500;
  source_refs = refs;
}

unfoldable pub profile_input : Text → Text → List Text → Text → SummaryInput
profile_input agent session refs summary = record {
  agent_id = agent;
  session_id = session;
  level = codes "profile";
  topic = codes "user";
  summary = summary;
  confidence = 600;
  source_refs = refs;
}

abbrev pub or_agent : Text → Text → Text
or_agent agent own = if is_empty own then agent else own

unfoldable pub mark_replaced : MemoryEntity → Action MemorySqliteStore MemoryOperationResult
unfolding mark_entity_obsolete
mark_replaced e s =
    if is_empty e.superseded_entity_id
    then (memory_success, s)
    else mark_entity_obsolete e.superseded_entity_id e.id s

unfoldable pub write_entity : Text → MemoryEntity → Action MemorySqliteStore MemoryOperationResult
unfolding save_entity mark_replaced
write_entity agent entity =
    let e = record entity { agent_id = or_agent agent entity.agent_id } in
    save_entity e then_write mark_replaced e

unfoldable pub write_relation :
    Text → MemoryRelation → Action MemorySqliteStore MemoryOperationResult
unfolding save_relation
write_relation agent relation =
    save_relation (record relation { agent_id = or_agent agent relation.agent_id })

unfoldable pub write_summaries : ℕ → List SummaryInput → Action MemorySqliteStore Written
unfolding write_each save_summary
write_summaries = write_each save_summary

-- The loop over the entities counts an entity before it marks the one that it replaces; the count of
-- a loop that fails is dropped.
unfoldable pub write_entities : Text → List MemoryEntity → Action MemorySqliteStore Written
unfolding write_each write_entity
write_entities agent = write_each (write_entity agent) 0

unfoldable pub write_relations : Text → List MemoryRelation → Action MemorySqliteStore Written
unfolding write_each write_relation
write_relations agent = write_each (write_relation agent) 0

abbrev all_written : Written → Written → Written → MemoryUpdateWriteResult
all_written summaries entities relations = record {
  succeeded = true;
  saved_summaries = summaries.saved;
  saved_entities = entities.saved;
  saved_relations = relations.saved;
  error = no_error;
}

-- The four loops of `SaveUpdate`, each of which ends the method at its first failure.
unfoldable pub save_update :
    Text
    → Text
    → LongTermMemoryUpdate
    → List Text
    → Action MemorySqliteStore MemoryUpdateWriteResult
unfolding write_summaries topic_input profile_input write_entities write_relations
save_update agent session update refs s =
    let (topics, t) =
      write_summaries 0 (map (topic_input agent session refs) update.topic_summaries) s in
    let (profiles, u) =
      write_summaries topics.saved (map (profile_input agent session refs) update.profile_summaries)
        t in
    let (entities, v) = write_entities agent update.entities u in
    let (relations, w) = write_relations agent update.relations v in
    if topics.operation.succeeded
    then (if profiles.operation.succeeded
        then (if entities.operation.succeeded
            then (if relations.operation.succeeded
                then (all_written profiles entities relations, w)
                else (failed_write relations.operation.error, w))
            else (failed_write entities.operation.error, v))
        else (failed_write profiles.operation.error, u))
    else (failed_write topics.operation.error, t)
