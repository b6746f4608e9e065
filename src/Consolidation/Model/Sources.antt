-- ===== src/Consolidation/Model/Sources.antt =====
-- Whose the memory is that a model has found, and where it is from
-- (src/consolidation/llm_processor.cpp).
use agent_memory_cpp.Prelude.{
  ℕ, suc, ◌≡◌, refl, false, Option, none, some, List, All, is_empty, if_either,
}
use agent_memory_cpp.Text.{Text, codes}
use agent_memory_cpp.Json.{
  Json, Items, no_items, item, object, array, null, boolean, integer, unsigned, number, string,
  get_member,
}
use agent_memory_cpp.Types.{MemoryEntity, MemoryRelation}
use agent_memory_cpp.Consolidation.Batch.{LongTermMemoryBatch, LongTermMemoryUpdate, empty_update}
use agent_memory_cpp.Consolidation.Model.{
  Reading, MemoryModelClient, string_array, refs_or, read_entity, read_relation, read_entities,
  read_relations, read_update, update_of, items_in, is_answer, parse_response, batch_agent,
  build_prompt, ask_model,
}

-- Memory of an agent that says where it is from.
pub record IsSourced (agent : Text) (update : LongTermMemoryUpdate) : Type 0 where
  pub entities :
      All
        (λ (e : MemoryEntity). (e.agent_id ≡ agent) × (is_empty e.source_refs ≡ false))
        update.entities
  pub relations :
      All
        (λ (r : MemoryRelation). (r.agent_id ≡ agent) × (is_empty r.source_refs ≡ false))
        update.relations

nothing-IsSourced : (agent : Text) → IsSourced agent empty_update
nothing-IsSourced agent = record { entities = tt; relations = tt }

module _ (reading : Reading) (refs : List Text) (agent : Text) (given : is_empty refs ≡ false) where
  refs_or_given : (json : Json) → is_empty (refs_or refs json) ≡ false
  unfolding refs_or
  refs_or_given json =
      if_either (λ (xs : List Text). is_empty xs ≡ false)
        (is_empty (string_array (codes "sourceRefs") json)) _ _ (λ none_there. given)
        (λ some_there. some_there)

  read_entities-All :
      (count : ℕ) (items : Items)
      → All
          (λ (e : MemoryEntity). (e.agent_id ≡ agent) × (is_empty e.source_refs ≡ false))
          (read_entities reading refs agent count items)
  unfolding read_entities read_entity
  read_entities-All count no_items = tt
  read_entities-All count (item (object ms) rest) =
      ((refl, refs_or_given (object ms)), read_entities-All (suc count) rest)
  read_entities-All count (item null rest) = read_entities-All count rest
  read_entities-All count (item (boolean b) rest) = read_entities-All count rest
  read_entities-All count (item (integer i) rest) = read_entities-All count rest
  read_entities-All count (item (unsigned n) rest) = read_entities-All count rest
  read_entities-All count (item (number x) rest) = read_entities-All count rest
  read_entities-All count (item (string s) rest) = read_entities-All count rest
  read_entities-All count (item (array xs) rest) = read_entities-All count rest

  read_relations-All :
      (items : Items)
      → All
          (λ (r : MemoryRelation). (r.agent_id ≡ agent) × (is_empty r.source_refs ≡ false))
          (read_relations reading refs agent items)
  unfolding read_relations read_relation
  read_relations-All no_items = tt
  read_relations-All (item (object ms) rest) =
      ((refl, refs_or_given (object ms)), read_relations-All rest)
  read_relations-All (item null rest) = read_relations-All rest
  read_relations-All (item (boolean b) rest) = read_relations-All rest
  read_relations-All (item (integer i) rest) = read_relations-All rest
  read_relations-All (item (unsigned n) rest) = read_relations-All rest
  read_relations-All (item (number x) rest) = read_relations-All rest
  read_relations-All (item (string s) rest) = read_relations-All rest
  read_relations-All (item (array xs) rest) = read_relations-All rest

  update_of-IsSourced : (o : Option Json) → IsSourced agent (update_of reading refs agent o)
  unfolding read_update
  update_of-IsSourced none = nothing-IsSourced agent
  update_of-IsSourced (some (object ms)) = record {
    entities = read_entities-All 0 (items_in (get_member (codes "entities") (object ms)));
    relations = read_relations-All (items_in (get_member (codes "relations") (object ms)));
  }
  update_of-IsSourced (some null) = nothing-IsSourced agent
  update_of-IsSourced (some (boolean b)) = nothing-IsSourced agent
  update_of-IsSourced (some (integer i)) = nothing-IsSourced agent
  update_of-IsSourced (some (unsigned n)) = nothing-IsSourced agent
  update_of-IsSourced (some (number x)) = nothing-IsSourced agent
  update_of-IsSourced (some (string s)) = nothing-IsSourced agent
  update_of-IsSourced (some (array xs)) = nothing-IsSourced agent

-- Whatever a model answers, and also where it fails: every entity and every relation of the update
-- belongs to the agent of the batch and has at least one source reference, for a batch that has
-- source references.
pub ask_model-IsSourced :
    (reading : Reading) (client : Option MemoryModelClient) (batch : LongTermMemoryBatch)
    → is_empty batch.source_refs ≡ false
    → IsSourced (batch_agent batch.events) (ask_model reading client batch)
unfolding ask_model parse_response
ask_model-IsSourced reading none batch given = nothing-IsSourced (batch_agent batch.events)
ask_model-IsSourced reading (some model) batch given =
    if_either (IsSourced (batch_agent batch.events)) (is_answer (model (build_prompt batch))) _ _
      (λ answered. update_of-IsSourced reading batch.source_refs (batch_agent batch.events) given _)
      (λ failed. nothing-IsSourced (batch_agent batch.events))
