-- ===== src/Consolidation/Counts.antt =====
-- The numbers that consolidation (src/consolidation) reports.
use agent_memory_cpp.Prelude.{
  ℕ, ◌+◌, ◌≡◌, refl, true, false, Bool, none, Action, arith, is_empty, length, map, if◌then◌else◌,
  Option, List, [], ◌∷◌,
}
use agent_memory_cpp.Text.{Text}
use agent_memory_cpp.Types.{MemoryEvent, MemoryOperationResult, MemoryConsolidationRequest}
use agent_memory_cpp.Storage.Engine.{MemorySqliteStore}
use agent_memory_cpp.Storage.Transaction.{save_summary, begin_transaction, run_in_transaction}
use agent_memory_cpp.Storage.Transaction.Atomic.{run_in_transaction-IsAtomic}
use agent_memory_cpp.Storage.Invariant.{IsConsistent}
use agent_memory_cpp.Consolidation.Batch.{
  build, ConsolidationBatchBuildResult, LongTermMemoryUpdate,
}
use agent_memory_cpp.Consolidation.Service.{
  Processor, consolidate, consolidate_batch, persist, persist_work, persist_update, persist_cursor,
  choose_update, has_update, needs_fallback,
}
use agent_memory_cpp.Consolidation.Writer.{
  write_each, write_summaries, write_entities, write_relations, save_update, topic_input,
  profile_input, save_session_summary, write_entity, write_relation,
}
use agent_memory_cpp.Consolidation.Atomic.{begun-Sound}
use agent_memory_cpp.Consolidation.Sound.{persist_work-Keeps}

-- A loop that reaches its end has counted every element.
write_each-counts :
    {A : Type 0} (write : A → Action MemorySqliteStore MemoryOperationResult) (saved : ℕ)
    (xs : List A) (s : MemorySqliteStore)
    → (write_each write saved xs s).0.operation.succeeded ≡ true
    → (write_each write saved xs s).0.saved ≡ saved + length xs
unfolding write_each
write_each-counts write saved [] s h = omega arith
write_each-counts write saved (x ∷ xs) s h =
    ground (arith, write_each-counts write (saved + 1) xs (write x s).1)

pub length-map : {A B : Type 0} (f : A → B) (xs : List A) → length (map f xs) ≡ length xs
length-map f [] = refl
length-map f (x ∷ xs) = omega (arith, length-map f xs)

-- The numbers are those of the parts of an update.
abbrev pub Counts : LongTermMemoryUpdate → ℕ → ℕ → ℕ → Type 0
Counts update summaries entities relations =
    (summaries ≡ length update.topic_summaries + length update.profile_summaries)
    × (entities ≡ length update.entities)
    × (relations ≡ length update.relations)

module _ (agent session : Text) (update : LongTermMemoryUpdate) (refs : List Text) where
  -- A successful `SaveUpdate` reports the numbers of summaries, entities and relations of its update.
  pub save_update-Counts :
      (s : MemorySqliteStore)
      → (save_update agent session update refs s).0.succeeded ≡ true
      → let r = (save_update agent session update refs s).0 in
        Counts update r.saved_summaries r.saved_entities r.saved_relations
  unfolding save_update write_summaries write_entities write_relations
  save_update-Counts s h =
      let topics = map (topic_input agent session refs) update.topic_summaries in
      let profiles = map (profile_input agent session refs) update.profile_summaries in
      let (a, t) = write_summaries 0 topics s in
      let (b, u) = write_summaries a.saved profiles t in
      let (c, v) = write_entities agent update.entities u in
      let topics_counted = write_each-counts save_summary 0 topics s in
      let profiles_counted = write_each-counts save_summary a.saved profiles t in
      let entities_counted = write_each-counts (write_entity agent) 0 update.entities u in
      let relations_counted = write_each-counts (write_relation agent) 0 update.relations v in
      let topics_length = length-map (topic_input agent session refs) update.topic_summaries in
      let profiles_length =
        length-map (profile_input agent session refs) update.profile_summaries in
      ground (
        arith, topics_counted, profiles_counted, entities_counted, relations_counted, topics_length,
        profiles_length, h,
      )

length-is_empty : {A : Type 0} (xs : List A) → is_empty xs ≡ true → length xs ≡ 0
length-is_empty [] h = refl
length-is_empty (x ∷ xs) h = cc

nothing-Counts : (update : LongTermMemoryUpdate) → has_update update ≡ false → Counts update 0 0 0
nothing-Counts update h = ground (
  arith,
  length-is_empty update.topic_summaries,
  length-is_empty update.profile_summaries,
  length-is_empty update.entities,
  length-is_empty update.relations,
)

module _ (request : MemoryConsolidationRequest) (built : ConsolidationBatchBuildResult)
    (update : LongTermMemoryUpdate) where
  persist_update-Counts :
      (s : MemorySqliteStore)
      → (persist_update request built update s).0.succeeded ≡ true
      → let r = (persist_update request built update s).0 in
        Counts update r.saved_summaries r.saved_entities r.saved_relations
  persist_update-Counts s h =
      let some_written =
        save_update-Counts request.agent_id built.session_id update built.batch.source_refs s in
      unfold persist_update in ground (arith, some_written, nothing-Counts update, h)

  persist-Counts :
      (s : MemorySqliteStore)
      → (persist request built update s).0.operation.succeeded ≡ true
      → let r = (persist request built update s).0 in
        (r.session_write.saved_summaries ≡ 1)
        × Counts update r.update_write.saved_summaries r.update_write.saved_entities
            r.update_write.saved_relations
  persist-Counts s h =
      let (a, t) =
        save_session_summary request.agent_id built.session_id built.session_summary
          built.session_source_refs s in
      let (b, u) = persist_update request built update t in
      let (c, v) = persist_cursor request built.next_cursor u in
      let written = persist_update-Counts t in
      unfold persist save_session_summary in ground (arith, written, h)

if_equal : (b : Bool) (m n : ℕ) → (b ≡ true → m ≡ n) → (if b then m else 0) ≡ (if b then n else 0)
if_equal true m n h = h refl
if_equal false m n h = refl

-- The transaction has committed what the work has written.
committed-worked :
    (s : MemorySqliteStore)
    → IsConsistent s.tables
    → s.saved ≡ none
    → ((n : ℕ) → s.engine.rolls_back n ≡ true)
    → (request : MemoryConsolidationRequest) (built : ConsolidationBatchBuildResult)
      (update : LongTermMemoryUpdate)
    → (run_in_transaction (persist_work request built update) s).0.succeeded ≡ true
    → (persist request built update (begin_transaction s).1).0.operation.succeeded ≡ true
committed-worked s ok idle rolls request built update h =
    let b = (begin_transaction s).1 in
    let after = (persist_work-Keeps request built update).at b b (begun-Sound s ok idle rolls) in
    let ended =
      run_in_transaction-IsAtomic (persist_work request built update) s idle rolls after.frame in
    ground (arith, ended.outcome, h)

-- On a consistent store with no open transaction, and if every ROLLBACK succeeds: where `Consolidate`
-- succeeds and the batch holds an event, it reports as many summaries, entities and relations as the
-- chosen update has, and one summary more for the session; where it fails it reports none; and it
-- reports the fallback exactly where the model's update was empty and there are rules.
pub consolidate-Counts :
    (fallback model : Option Processor) (request : MemoryConsolidationRequest)
    (events : List MemoryEvent) (s : MemorySqliteStore)
    → IsConsistent s.tables
    → s.saved ≡ none
    → ((n : ℕ) → s.engine.rolls_back n ≡ true)
    → is_empty (build request events).batch.events ≡ false
    → let r = (consolidate fallback model request events s).0 in
      let update = choose_update fallback model (build request events).batch in
      (r.saved_summaries ≡ (
        if r.succeeded
        then 1 + (length update.topic_summaries + length update.profile_summaries)
        else 0))
      × (r.saved_entities ≡ (if r.succeeded then length update.entities else 0))
      × (r.saved_relations ≡ (if r.succeeded then length update.relations else 0))
      × (r.fallback_used ≡ needs_fallback fallback model (build request events).batch)
consolidate-Counts fallback model request events s ok idle rolls some_events =
    let b = build request events in
    let update = choose_update fallback model b.batch in
    let worked = committed-worked s ok idle rolls request b update in
    let counted = persist-Counts request b update (begin_transaction s).1 in
    let good = (run_in_transaction (persist_work request b update) s).0.succeeded in
    let p = (persist request b update (begin_transaction s).1).0 in
    unfold consolidate consolidate_batch in
    rw some_events (
      if_equal good (p.session_write.saved_summaries + p.update_write.saved_summaries)
          (1 + (length update.topic_summaries + length update.profile_summaries))
          (λ h. omega (arith, counted (worked h))),
      if_equal good p.update_write.saved_entities (length update.entities)
          (λ h. (counted (worked h)).1.1),
      if_equal good p.update_write.saved_relations (length update.relations)
          (λ h. (counted (worked h)).1.2),
      refl,
    )
