-- ===== src/Consolidation/Sound.antt =====
-- Consolidation (src/consolidation), the invariant of the tables and the open transaction.
use agent_memory_cpp.Prelude.{
  ℕ, ◌+◌, Bool, List, [], ◌∷◌, Action, arith, inl, inr, Bool-cases, is_empty, map,
}
use agent_memory_cpp.Text.{Text, codes}
use agent_memory_cpp.Types.{
  MemoryEntity, MemoryRelation, MemoryOperationResult, MemoryConsolidationRequest,
}
use agent_memory_cpp.Storage.Engine.{MemorySqliteStore}
use agent_memory_cpp.Storage.Summaries.{SummaryInput, save_summary_unlocked}
use agent_memory_cpp.Storage.Entities.{save_entity_unlocked, mark_entity_obsolete_unlocked}
use agent_memory_cpp.Storage.Relations.{save_relation_unlocked}
use agent_memory_cpp.Storage.Cursors.{save_consolidation_cursor_unlocked}
use agent_memory_cpp.Storage.Transaction.{
  in_transaction, save_summary, save_entity, save_relation, mark_entity_obsolete,
  save_consolidation_cursor,
}
use agent_memory_cpp.Storage.Post.{Post-either}
use agent_memory_cpp.Storage.Invariant.Writes.{
  Sound, KeepsSound, save_summary-KeepsSound, save_entity-KeepsSound, save_relation-KeepsSound,
  mark_obsolete-KeepsSound, save_cursor-KeepsSound,
}
use agent_memory_cpp.Consolidation.Batch.{LongTermMemoryUpdate, ConsolidationBatchBuildResult}
use agent_memory_cpp.Consolidation.Writer.{
  write_each, write_summaries, write_entities, write_relations, write_entity, write_relation,
  mark_replaced, ◌then_write◌, or_agent, save_update, topic_input, profile_input, session_input,
  save_session_summary,
}
use agent_memory_cpp.Consolidation.Service.{
  write_cursor, persist_cursor, persist_update, persist, persist_work,
}

-- An action that keeps the store sound whatever it returns.
pub record Keeps {A : Type 0} (m : Action MemorySqliteStore A) : Type 0 where
  pub at : (s t : MemorySqliteStore) → Sound s t → Sound s (m t).1

in_transaction-Keeps :
    (context : Text) (m : Action MemorySqliteStore Bool)
    → KeepsSound m
    → Keeps (in_transaction context m)
unfolding in_transaction
in_transaction-Keeps context m k = record {
  at = λ s t h. Post-either (Sound s) (Sound s) (m t) (λ u g. g) (λ u g. g) (k s t h);
}

save_summary-Keeps : (input : SummaryInput) → Keeps (save_summary input)
unfolding save_summary
save_summary-Keeps input =
    in_transaction-Keeps (codes "Transaction::SaveSummary") (save_summary_unlocked input)
      (save_summary-KeepsSound input)

save_entity-Keeps : (entity : MemoryEntity) → Keeps (save_entity entity)
unfolding save_entity
save_entity-Keeps entity =
    in_transaction-Keeps (codes "Transaction::SaveEntity") (save_entity_unlocked entity)
      (save_entity-KeepsSound entity)

save_relation-Keeps : (relation : MemoryRelation) → Keeps (save_relation relation)
unfolding save_relation
save_relation-Keeps relation =
    in_transaction-Keeps (codes "Transaction::SaveRelation") (save_relation_unlocked relation)
      (save_relation-KeepsSound relation)

mark_obsolete-Keeps : (entity_id by : Text) → Keeps (mark_entity_obsolete entity_id by)
unfolding mark_entity_obsolete
mark_obsolete-Keeps entity_id by =
    in_transaction-Keeps (codes "Transaction::MarkEntityObsolete")
      (mark_entity_obsolete_unlocked entity_id by) (mark_obsolete-KeepsSound entity_id by)

save_cursor-Keeps :
    (agent session cursor : Text) → Keeps (save_consolidation_cursor agent session cursor)
unfolding save_consolidation_cursor
save_cursor-Keeps agent session cursor =
    in_transaction-Keeps (codes "Transaction::SaveConsolidationCursor")
      (save_consolidation_cursor_unlocked agent session cursor)
      (save_cursor-KeepsSound agent session cursor)

module _ {A : Type 0} (write : A → Action MemorySqliteStore MemoryOperationResult)
    (keeps : (x : A) → Keeps (write x)) where
  write_each-Keeps : (saved : ℕ) (xs : List A) → Keeps (write_each write saved xs)
  unfolding write_each
  write_each-Keeps saved [] = record { at = λ s t h. h }
  write_each-Keeps saved (x ∷ xs) = record {
    at = λ s t h. elim (Bool-cases (write x t).0.succeeded) [
      | inl done ↦ rw done ((write_each-Keeps (saved + 1) xs).at s _ ((keeps x).at s t h))
      | inr failed ↦ rw failed ((keeps x).at s t h)
    ];
  }

mark_replaced-Keeps : (entity : MemoryEntity) → Keeps (mark_replaced entity)
mark_replaced-Keeps entity = record {
  at = λ s t h.
      unfold mark_replaced in
      elim (Bool-cases (is_empty entity.superseded_entity_id)) [
        | inl nothing ↦ rw nothing h
        | inr replaced ↦
            rw replaced ((mark_obsolete-Keeps entity.superseded_entity_id entity.id).at s t h)
      ];
}

-- The second action runs only if the first has succeeded.
then_write-Keeps :
    (m n : Action MemorySqliteStore MemoryOperationResult)
    → Keeps m
    → Keeps n
    → Keeps (m then_write n)
then_write-Keeps m n km kn = record {
  at = λ s t h. elim (Bool-cases (m t).0.succeeded) [
    | inl done ↦ rw done (kn.at s _ (km.at s t h))
    | inr failed ↦ rw failed (km.at s t h)
  ];
}

write_entity-Keeps : (agent : Text) (entity : MemoryEntity) → Keeps (write_entity agent entity)
unfolding write_entity
write_entity-Keeps agent entity =
    let e = record entity { agent_id = or_agent agent entity.agent_id } in
    then_write-Keeps (save_entity e) (mark_replaced e) (save_entity-Keeps e) (mark_replaced-Keeps e)

write_relation-Keeps :
    (agent : Text) (relation : MemoryRelation) → Keeps (write_relation agent relation)
unfolding write_relation
write_relation-Keeps agent relation =
    save_relation-Keeps (record relation { agent_id = or_agent agent relation.agent_id })

write_summaries-Keeps :
    (saved : ℕ) (inputs : List SummaryInput) → Keeps (write_summaries saved inputs)
unfolding write_summaries
write_summaries-Keeps saved inputs = write_each-Keeps save_summary save_summary-Keeps saved inputs

write_entities-Keeps :
    (agent : Text) (entities : List MemoryEntity) → Keeps (write_entities agent entities)
unfolding write_entities
write_entities-Keeps agent entities =
    write_each-Keeps (write_entity agent) (write_entity-Keeps agent) 0 entities

write_relations-Keeps :
    (agent : Text) (relations : List MemoryRelation) → Keeps (write_relations agent relations)
unfolding write_relations
write_relations-Keeps agent relations =
    write_each-Keeps (write_relation agent) (write_relation-Keeps agent) 0 relations

pub save_update-Keeps :
    (agent session : Text) (update : LongTermMemoryUpdate) (refs : List Text)
    → Keeps (save_update agent session update refs)
save_update-Keeps agent session update refs = record {
  at = λ s t h.
      let topics = map (topic_input agent session refs) update.topic_summaries in
      let profiles = map (profile_input agent session refs) update.profile_summaries in
      let (a, u) = write_summaries 0 topics t in
      let (b, v) = write_summaries a.saved profiles u in
      let (c, w) = write_entities agent update.entities v in
      let (d, x) = write_relations agent update.relations w in
      let hu = (write_summaries-Keeps 0 topics).at s t h in
      let hv = (write_summaries-Keeps a.saved profiles).at s u hu in
      let hw = (write_entities-Keeps agent update.entities).at s v hv in
      let hx = (write_relations-Keeps agent update.relations).at s w hw in
      unfold save_update in ground (arith, hu, hv, hw, hx);
}

save_session_summary-Keeps :
    (agent session summary : Text) (refs : List Text)
    → Keeps (save_session_summary agent session summary refs)
unfolding save_session_summary
save_session_summary-Keeps agent session summary refs = record {
  at = λ s t h. (save_summary-Keeps (session_input agent session summary refs)).at s t h;
}

pub write_cursor-Keeps :
    (request : MemoryConsolidationRequest) (cursor : Text) → Keeps (write_cursor request cursor)
unfolding write_cursor
write_cursor-Keeps request cursor = record {
  at = λ s t h. (save_cursor-Keeps request.agent_id request.session_id cursor).at s t h;
}

persist_cursor-Keeps :
    (request : MemoryConsolidationRequest) (cursor : Text) → Keeps (persist_cursor request cursor)
unfolding persist_cursor
persist_cursor-Keeps request cursor = record {
  at = λ s t h. ground (arith, (write_cursor-Keeps request cursor).at s t h, h);
}

module _ (request : MemoryConsolidationRequest) (built : ConsolidationBatchBuildResult)
    (update : LongTermMemoryUpdate) where
  persist_update-Keeps : Keeps (persist_update request built update)
  unfolding persist_update
  persist_update-Keeps = record {
    at = λ s t h. ground (
      arith,
      (save_update-Keeps request.agent_id built.session_id update built.batch.source_refs).at s t h,
      h,
    );
  }

  pub persist-Keeps : Keeps (persist request built update)
  persist-Keeps = record {
    at = λ s t h.
        let (a, u) =
          save_session_summary request.agent_id built.session_id built.session_summary
            built.session_source_refs t in
        let (b, v) = persist_update request built update u in
        let hu =
          (save_session_summary-Keeps request.agent_id built.session_id built.session_summary
              built.session_source_refs).at
            s t h in
        let hv = persist_update-Keeps.at s u hu in
        let hw = (persist_cursor-Keeps request built.next_cursor).at s v hv in
        unfold persist in ground (arith, hu, hv, hw);
  }

  pub persist_work-Keeps : Keeps (persist_work request built update)
  persist_work-Keeps = record { at = λ s t h. persist-Keeps.at s t h }
