-- ===== src/Storage/Invariant/Writes.antt =====
-- The unlocked methods of src/storage/sqlite_store.cpp that write, the invariant of the tables and the
-- open transaction.
use agent_memory_cpp.Prelude.{ℕ, Bool, Action, inl, inr, Bool-cases, is_empty}
use agent_memory_cpp.Text.{Text, codes, text_eq}
use agent_memory_cpp.Types.{MemoryEvent, MemoryPayloadRef, MemoryEntity, MemoryRelation, Timestamp}
use agent_memory_cpp.Storage.Tables.{Tables}
use agent_memory_cpp.Storage.Engine.{MemorySqliteStore, run_statement}
use agent_memory_cpp.Storage.Post.{Post, run_statement-Post, and_then-Post, SameFrame}
use agent_memory_cpp.Storage.Events.{save_event_unlocked, insert_event}
use agent_memory_cpp.Storage.Payloads.{save_payload_unlocked, upsert_payload}
use agent_memory_cpp.Storage.Summaries.{SummaryInput, save_summary_unlocked, insert_summary}
use agent_memory_cpp.Storage.Cursors.{save_consolidation_cursor_unlocked, upsert_cursor}
use agent_memory_cpp.Storage.Entities.{
  mark_duplicate_entities_obsolete_unlocked, mark_entity_obsolete_unlocked, mark_superseded,
  save_entity_unlocked, is_unnamed, on_entities, obsolete_duplicate, obsolete_entity, write_entity,
  ◌and_then◌,
}
use agent_memory_cpp.Storage.Relations.{
  save_relation_unlocked, obsolete_relations, insert_relation, apply_supersedes,
}
use agent_memory_cpp.Storage.Invariant.{IsConsistent}
use agent_memory_cpp.Storage.Invariant.Rows.{
  insert_event-IsConsistent, insert_summary-IsConsistent, upsert_payload-IsConsistent,
  upsert_cursor-IsConsistent,
}
use agent_memory_cpp.Storage.Invariant.Relations.{
  IsFree, obsolete_relations-IsConsistent, obsolete_relations-IsFree, insert_relation-IsConsistent,
}
use agent_memory_cpp.Storage.Invariant.Entities.{
  obsolete_duplicate-Retires, obsolete_entity-Retires, on_entities-IsConsistent, AllYield,
  obsolete_duplicates-AllYield, unnamed-AllYield, write_entity-IsConsistent,
}

-- Consistent tables, in the frame of `s`.
pub record Sound (s t : MemorySqliteStore) : Type 0 where
  pub tables : IsConsistent t.tables
  pub frame : SameFrame s t

abbrev pub KeepsSound : Action MemorySqliteStore Bool → Type 0
KeepsSound m = (s t : MemorySqliteStore) → Sound s t → Post (Sound s) (Sound s) (m t)

-- Only the tables and the number of calls have changed.
Sound-step :
    (s t : MemorySqliteStore) (tables : Tables) (calls : ℕ)
    → Sound s t
    → IsConsistent tables
    → Sound s (record t { tables = tables; calls = calls })
Sound-step s t tables calls h v = record {
  tables = v;
  frame = record { engine = h.frame.engine; opened = h.frame.opened; saved = h.frame.saved };
}

-- A statement that keeps consistent tables consistent.
pub run_statement-KeepsSound :
    (s t : MemorySqliteStore) (update : Timestamp → Tables → Tables)
    → ((now : Timestamp) → IsConsistent (update now t.tables))
    → Sound s t
    → Post (Sound s) (Sound s) (run_statement update t)
run_statement-KeepsSound s t update keeps h =
    run_statement-Post (Sound s) (Sound s) update t
      (λ now calls. Sound-step s t _ calls h (keeps now))
      (λ calls. Sound-step s t t.tables calls h h.tables)

pub save_event-KeepsSound : (event : MemoryEvent) → KeepsSound (save_event_unlocked event)
save_event-KeepsSound event s t h =
    unfold save_event_unlocked in
    run_statement-KeepsSound s t (insert_event t.engine event)
      (λ now. insert_event-IsConsistent t.engine event now t.tables h.tables) h

pub save_payload-KeepsSound :
    (payload : MemoryPayloadRef) → KeepsSound (save_payload_unlocked payload)
unfolding save_payload_unlocked
save_payload-KeepsSound payload s t h =
    run_statement-KeepsSound s t (upsert_payload payload)
      (λ now. upsert_payload-IsConsistent payload now t.tables h.tables) h

pub save_summary-KeepsSound : (input : SummaryInput) → KeepsSound (save_summary_unlocked input)
save_summary-KeepsSound input s t h =
    unfold save_summary_unlocked in
    run_statement-KeepsSound s t (insert_summary t.engine input)
      (λ now. insert_summary-IsConsistent t.engine input now t.tables h.tables) h

pub save_cursor-KeepsSound :
    (agent session cursor : Text)
    → KeepsSound (save_consolidation_cursor_unlocked agent session cursor)
save_cursor-KeepsSound agent session cursor s t h =
    unfold save_consolidation_cursor_unlocked in
    run_statement-KeepsSound s t (upsert_cursor agent session cursor)
      (λ now. upsert_cursor-IsConsistent agent session cursor now t.tables h.tables) h

pub mark_obsolete-KeepsSound :
    (entity_id by : Text) → KeepsSound (mark_entity_obsolete_unlocked entity_id by)
mark_obsolete-KeepsSound entity_id by s t h =
    unfold mark_entity_obsolete_unlocked in
    run_statement-KeepsSound s t (λ now. on_entities (obsolete_entity entity_id by now))
      (λ now. on_entities-IsConsistent (obsolete_entity-Retires entity_id by now) t.tables h.tables)
      h

module _ (entity : MemoryEntity) (s t : MemorySqliteStore) where
  -- Between the first two statements of `SaveEntityUnlocked`.
  record Ready (u : MemorySqliteStore) : Type 0 where
    sound : Sound s u
    yields : AllYield t.engine entity u.tables

  mark_duplicates-Post :
      Sound s t → Post Ready (Sound s) (mark_duplicate_entities_obsolete_unlocked entity t)
  mark_duplicates-Post h = elim (Bool-cases (is_unnamed entity)) [
    | inl unnamed ↦
        unfold mark_duplicate_entities_obsolete_unlocked in
        rw unnamed
          (record { sound = h; yields = unnamed-AllYield t.engine entity t.tables unnamed })
    | inr named ↦
        unfold mark_duplicate_entities_obsolete_unlocked in
        rw named (
          run_statement-Post Ready (Sound s) (λ now. on_entities (obsolete_duplicate entity now)) t
            (λ now calls. record {
              sound = Sound-step s t _ calls h (
                  on_entities-IsConsistent (obsolete_duplicate-Retires entity now) t.tables
                    h.tables);
              yields = obsolete_duplicates-AllYield t.engine entity now t.tables;
            })
            (λ calls. Sound-step s t t.tables calls h h.tables))
  ]

  mark_superseded-Post :
      (u : MemorySqliteStore) → Sound s u → Post (Sound s) (Sound s) (mark_superseded entity u)
  mark_superseded-Post u h = elim (Bool-cases (is_empty entity.superseded_entity_id)) [
    | inl nothing ↦ unfold mark_superseded in rw nothing h
    | inr some_id ↦
        unfold mark_superseded in
        rw some_id (mark_obsolete-KeepsSound entity.superseded_entity_id entity.id s u h)
  ]

  save_entity-Post : Sound s t → Post (Sound s) (Sound s) (save_entity_unlocked entity t)
  unfolding save_entity_unlocked
  save_entity-Post h =
      and_then-Post (Sound s) (Sound s) (Sound s)
        (mark_duplicate_entities_obsolete_unlocked entity
          and_then run_statement (write_entity t.engine entity))
        (mark_superseded entity) t
        (and_then-Post Ready (Sound s) (Sound s) (mark_duplicate_entities_obsolete_unlocked entity)
          (run_statement (write_entity t.engine entity)) t (mark_duplicates-Post h)
          (λ u m.
            run_statement-KeepsSound s u (write_entity t.engine entity)
              (λ now.
                write_entity-IsConsistent t.engine entity now u.tables m.sound.tables m.yields)
              m.sound))
        mark_superseded-Post

pub save_entity-KeepsSound : (entity : MemoryEntity) → KeepsSound (save_entity_unlocked entity)
save_entity-KeepsSound = save_entity-Post

module _ (relation : MemoryRelation) (s t : MemorySqliteStore) where
  -- Between the two statements of `SaveRelationUnlocked` that write relations.
  record Cleared (u : MemorySqliteStore) : Type 0 where
    sound : Sound s u
    free : IsFree relation t.engine u.tables

  obsolete_relations-Post :
      Sound s t → Post Cleared (Sound s) (run_statement (obsolete_relations relation) t)
  obsolete_relations-Post h =
      run_statement-Post Cleared (Sound s) (obsolete_relations relation) t
        (λ now calls. record {
          sound =
              Sound-step s t _ calls h
                (obsolete_relations-IsConsistent relation now t.tables h.tables);
          free = obsolete_relations-IsFree relation t.engine now t.tables;
        })
        (λ calls. Sound-step s t t.tables calls h h.tables)

  apply_supersedes-Post :
      (u : MemorySqliteStore) → Sound s u → Post (Sound s) (Sound s) (apply_supersedes relation u)
  apply_supersedes-Post u h =
      elim (Bool-cases (text_eq relation.relation_type (codes "supersedes"))) [
        | inl yes_it_does ↦
            unfold apply_supersedes in
            rw yes_it_does
              (mark_obsolete-KeepsSound relation.to_entity_id relation.from_entity_id s u h)
        | inr other ↦ unfold apply_supersedes in rw other h
      ]

  save_relation-Post : Sound s t → Post (Sound s) (Sound s) (save_relation_unlocked relation t)
  unfolding save_relation_unlocked
  save_relation-Post h =
      and_then-Post (Sound s) (Sound s) (Sound s)
        (run_statement (obsolete_relations relation)
          and_then run_statement (insert_relation t.engine relation))
        (apply_supersedes relation) t
        (and_then-Post Cleared (Sound s) (Sound s) (run_statement (obsolete_relations relation))
          (run_statement (insert_relation t.engine relation)) t (obsolete_relations-Post h)
          (λ u m.
            run_statement-KeepsSound s u (insert_relation t.engine relation)
              (λ now.
                insert_relation-IsConsistent relation t.engine now u.tables m.sound.tables m.free)
              m.sound))
        apply_supersedes-Post

pub save_relation-KeepsSound :
    (relation : MemoryRelation) → KeepsSound (save_relation_unlocked relation)
save_relation-KeepsSound = save_relation-Post
