-- ===== src/Consolidation/Log.antt =====
-- Consolidation (src/consolidation) and the table of events.
use agent_memory_cpp.Prelude.{ℕ, ◌+◌, ◌≡◌, refl, Bool, List, [], ◌∷◌, Action, arith, map}
use agent_memory_cpp.Text.{Text, codes}
use agent_memory_cpp.Types.{
  MemoryEntity, MemoryRelation, MemoryOperationResult, MemoryConsolidationRequest, Timestamp,
}
use agent_memory_cpp.Storage.Tables.{Tables}
use agent_memory_cpp.Storage.Engine.{Engine, MemorySqliteStore, run_statement}
use agent_memory_cpp.Storage.Entities
use agent_memory_cpp.Storage.Summaries.{SummaryInput, save_summary_unlocked, insert_summary}
use agent_memory_cpp.Storage.Entities.{
  save_entity_unlocked, mark_entity_obsolete_unlocked, mark_duplicate_entities_obsolete_unlocked,
  mark_superseded, on_entities, obsolete_duplicate, obsolete_entity, is_unnamed, ◌and_then◌,
}
use agent_memory_cpp.Storage.Relations.{
  save_relation_unlocked, obsolete_relations, insert_relation, apply_supersedes,
}
use agent_memory_cpp.Storage.Cursors.{save_consolidation_cursor_unlocked, upsert_cursor}
use agent_memory_cpp.Storage.Transaction.{
  in_transaction, save_summary, save_entity, save_relation, mark_entity_obsolete,
  save_consolidation_cursor,
}
use agent_memory_cpp.Consolidation.Batch.{LongTermMemoryUpdate, ConsolidationBatchBuildResult}
use agent_memory_cpp.Consolidation.Writer.{
  write_each, write_summaries, write_entities, write_relations, write_entity, write_relation,
  mark_replaced, or_agent, save_update, topic_input, profile_input, session_input,
  save_session_summary,
}
use agent_memory_cpp.Consolidation.Service.{
  write_cursor, persist_cursor, persist_update, persist, persist_work,
}

-- An action that leaves the events as they are.
pub record KeepsLog {A : Type 0} (m : Action MemorySqliteStore A) : Type 0 where
  pub at : (s : MemorySqliteStore) → (m s).1.tables.events ≡ s.tables.events

run_statement-KeepsLog :
    (update : Timestamp → Tables → Tables)
    → ((now : Timestamp) (t : Tables) → (update now t).events ≡ t.events)
    → KeepsLog (run_statement update)
unfolding run_statement
run_statement-KeepsLog update keeps = record {
  at = λ s. ground (arith, keeps (s.engine.now (s.calls + 1)) s.tables);
}

and_then-KeepsLog :
    (m n : Action MemorySqliteStore Bool) → KeepsLog m → KeepsLog n → KeepsLog (m and_then n)
and_then-KeepsLog m n hm hn = record { at = λ s. ground (arith, hm.at s, hn.at (m s).1) }

in_transaction-KeepsLog :
    (context : Text) (m : Action MemorySqliteStore Bool)
    → KeepsLog m
    → KeepsLog (in_transaction context m)
unfolding in_transaction
in_transaction-KeepsLog context m h = record { at = λ s. h.at s }

summary-KeepsLog : (input : SummaryInput) → KeepsLog (save_summary_unlocked input)
unfolding save_summary_unlocked insert_summary
summary-KeepsLog input = record {
  at = λ s. (run_statement-KeepsLog (insert_summary s.engine input) (λ now t. refl)).at s;
}

cursor-KeepsLog :
    (agent session cursor : Text)
    → KeepsLog (save_consolidation_cursor_unlocked agent session cursor)
unfolding save_consolidation_cursor_unlocked upsert_cursor
cursor-KeepsLog agent session cursor =
    run_statement-KeepsLog (upsert_cursor agent session cursor) (λ now t. ground arith)

obsolete-KeepsLog : (entity_id by : Text) → KeepsLog (mark_entity_obsolete_unlocked entity_id by)
unfolding mark_entity_obsolete_unlocked
obsolete-KeepsLog entity_id by =
    run_statement-KeepsLog (λ now. on_entities (obsolete_entity entity_id by now)) (λ now t. refl)

duplicates-KeepsLog :
    (entity : MemoryEntity) → KeepsLog (mark_duplicate_entities_obsolete_unlocked entity)
unfolding mark_duplicate_entities_obsolete_unlocked
duplicates-KeepsLog entity = record {
  at = λ s. ground (
    arith,
    (run_statement-KeepsLog (λ now. on_entities (obsolete_duplicate entity now)) (λ now t. refl)).at
        s,
  );
}

superseded-KeepsLog : (entity : MemoryEntity) → KeepsLog (mark_superseded entity)
unfolding mark_superseded
superseded-KeepsLog entity = record {
  at = λ s. ground (arith, (obsolete-KeepsLog entity.superseded_entity_id entity.id).at s);
}

write_row-KeepsLog :
    (engine : Engine) (entity : MemoryEntity)
    → KeepsLog (run_statement (Entities.write_entity engine entity))
unfolding Entities.write_entity
write_row-KeepsLog engine entity =
    run_statement-KeepsLog (Entities.write_entity engine entity) (λ now t. refl)

entity-KeepsLog : (entity : MemoryEntity) → KeepsLog (save_entity_unlocked entity)
unfolding save_entity_unlocked
entity-KeepsLog entity = record {
  at = λ s.
      (and_then-KeepsLog
          (mark_duplicate_entities_obsolete_unlocked entity
            and_then run_statement (Entities.write_entity s.engine entity))
          (mark_superseded entity)
          (and_then-KeepsLog (mark_duplicate_entities_obsolete_unlocked entity)
            (run_statement (Entities.write_entity s.engine entity)) (duplicates-KeepsLog entity)
            (write_row-KeepsLog s.engine entity))
          (superseded-KeepsLog entity)).at
        s;
}

insert_relation-KeepsLog :
    (engine : Engine) (relation : MemoryRelation)
    → KeepsLog (run_statement (insert_relation engine relation))
unfolding insert_relation
insert_relation-KeepsLog engine relation =
    run_statement-KeepsLog (insert_relation engine relation) (λ now t. refl)

obsolete_relations-KeepsLog :
    (relation : MemoryRelation) → KeepsLog (run_statement (obsolete_relations relation))
unfolding obsolete_relations
obsolete_relations-KeepsLog relation =
    run_statement-KeepsLog (obsolete_relations relation) (λ now t. refl)

supersedes-KeepsLog : (relation : MemoryRelation) → KeepsLog (apply_supersedes relation)
unfolding apply_supersedes
supersedes-KeepsLog relation = record {
  at = λ s. ground (arith, (obsolete-KeepsLog relation.to_entity_id relation.from_entity_id).at s);
}

relation-KeepsLog : (relation : MemoryRelation) → KeepsLog (save_relation_unlocked relation)
unfolding save_relation_unlocked
relation-KeepsLog relation = record {
  at = λ s.
      (and_then-KeepsLog
          (run_statement (obsolete_relations relation)
            and_then run_statement (insert_relation s.engine relation))
          (apply_supersedes relation)
          (and_then-KeepsLog (run_statement (obsolete_relations relation))
            (run_statement (insert_relation s.engine relation))
            (obsolete_relations-KeepsLog relation) (insert_relation-KeepsLog s.engine relation))
          (supersedes-KeepsLog relation)).at
        s;
}

-- The writer's and the service's steps.
module _ {A : Type 0} (write : A → Action MemorySqliteStore MemoryOperationResult)
    (keeps : (x : A) → KeepsLog (write x)) where
  write_each-KeepsLog : (saved : ℕ) (xs : List A) → KeepsLog (write_each write saved xs)
  unfolding write_each
  write_each-KeepsLog saved [] = record { at = λ s. refl }
  write_each-KeepsLog saved (x ∷ xs) = record {
    at = λ s. ground (arith, (keeps x).at s, (write_each-KeepsLog (saved + 1) xs).at (write x s).1);
  }

save_summary-KeepsLog : (input : SummaryInput) → KeepsLog (save_summary input)
unfolding save_summary
save_summary-KeepsLog input =
    in_transaction-KeepsLog (codes "Transaction::SaveSummary") (save_summary_unlocked input)
      (summary-KeepsLog input)

write_entity-KeepsLog :
    (agent : Text) (entity : MemoryEntity) → KeepsLog (write_entity agent entity)
unfolding write_entity mark_replaced save_entity mark_entity_obsolete
write_entity-KeepsLog agent entity = record {
  at = λ s.
      let e = record entity { agent_id = or_agent agent entity.agent_id } in
      let saved =
        in_transaction-KeepsLog (codes "Transaction::SaveEntity") (save_entity_unlocked e)
          (entity-KeepsLog e) in
      let marked =
        in_transaction-KeepsLog (codes "Transaction::MarkEntityObsolete")
          (mark_entity_obsolete_unlocked e.superseded_entity_id e.id)
          (obsolete-KeepsLog e.superseded_entity_id e.id) in
      ground (arith, saved.at s, marked.at (save_entity e s).1);
}

write_relation-KeepsLog :
    (agent : Text) (relation : MemoryRelation) → KeepsLog (write_relation agent relation)
unfolding write_relation save_relation
write_relation-KeepsLog agent relation =
    let r = record relation { agent_id = or_agent agent relation.agent_id } in
    in_transaction-KeepsLog (codes "Transaction::SaveRelation") (save_relation_unlocked r)
      (relation-KeepsLog r)

pub write_cursor-KeepsLog :
    (request : MemoryConsolidationRequest) (cursor : Text) → KeepsLog (write_cursor request cursor)
unfolding write_cursor save_consolidation_cursor
write_cursor-KeepsLog request cursor = record {
  at = λ s.
      (in_transaction-KeepsLog (codes "Transaction::SaveConsolidationCursor")
          (save_consolidation_cursor_unlocked request.agent_id request.session_id cursor)
          (cursor-KeepsLog request.agent_id request.session_id cursor)).at
        s;
}

save_update-KeepsLog :
    (agent session : Text) (update : LongTermMemoryUpdate) (refs : List Text)
    → KeepsLog (save_update agent session update refs)
unfolding save_update write_summaries write_entities write_relations
save_update-KeepsLog agent session update refs = record {
  at = λ s.
      let topics = map (topic_input agent session refs) update.topic_summaries in
      let profiles = map (profile_input agent session refs) update.profile_summaries in
      let (a, t) = write_summaries 0 topics s in
      let (b, u) = write_summaries a.saved profiles t in
      let (c, v) = write_entities agent update.entities u in
      let ht = (write_each-KeepsLog save_summary save_summary-KeepsLog 0 topics).at s in
      let hu = (write_each-KeepsLog save_summary save_summary-KeepsLog a.saved profiles).at t in
      let hv =
        (write_each-KeepsLog (write_entity agent) (write_entity-KeepsLog agent) 0
            update.entities).at
          u in
      let hw =
        (write_each-KeepsLog (write_relation agent) (write_relation-KeepsLog agent) 0
            update.relations).at
          v in
      ground (arith, ht, hu, hv, hw);
}

module _ (request : MemoryConsolidationRequest) (built : ConsolidationBatchBuildResult)
    (update : LongTermMemoryUpdate) where
  pub persist_work-KeepsLog : KeepsLog (persist_work request built update)
  unfolding persist save_session_summary persist_update persist_cursor
  persist_work-KeepsLog = record {
    at = λ s.
        let input =
          session_input request.agent_id built.session_id built.session_summary
            built.session_source_refs in
        let t = (save_summary input s).1 in
        let (b, u) = persist_update request built update t in
        let ht = (save_summary-KeepsLog input).at s in
        let hu =
          (save_update-KeepsLog request.agent_id built.session_id update built.batch.source_refs).at
            t in
        let hv = (write_cursor-KeepsLog request built.next_cursor).at u in
        ground (arith, ht, hu, hv);
  }
