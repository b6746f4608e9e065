-- ===== src/Tests/Models.antt =====
-- Inputs for the theorems on the processor that asks a model.
use agent_memory_cpp.Prelude.{◌≡◌, refl, some, [], ◌∷◌, ◌++◌}
use agent_memory_cpp.Text.{codes}
use agent_memory_cpp.Json.{
  Json, no_members, member, no_items, item, object, array, string, unsigned,
}
use agent_memory_cpp.Consolidation.Batch.{LongTermMemoryBatch}
use agent_memory_cpp.Consolidation.Model.{
  Reading, MemoryModelClient, batch_agent, clean_answer, ask_model,
}
use agent_memory_cpp.Consolidation.Model.Answer.{clean_answer_lem}
use agent_memory_cpp.Consolidation.Model.Sources.{IsSourced, ask_model-IsSourced}
use agent_memory_cpp.Tests.{first_message}

clean_answer_lem_example :
    clean_answer (codes "A " ++ (b'{' ∷ (codes "\"a\": {}" ++ b'}' ∷ codes ".")))
    ≡ b'{' ∷ (codes "\"a\": {}" ++ b'}' ∷ [])
clean_answer_lem_example =
    clean_answer_lem (codes "A ") (codes "\"a\": {}") (codes ".") (refl, (refl, tt)) (refl, tt)

-- An answer with an entity, and a number where another should be.
abbrev answered : Json
answered = object (
    member (codes "entities")
      (array (
        item (unsigned 7)
          (item (object (member (codes "name") (string (codes "tea")) no_members)) no_items)))
      no_members)

abbrev reading : Reading
reading = record { parse = λ text. some answered; to_float = λ json. 0 }

abbrev client : MemoryModelClient
client prompt = record { text = codes "{}"; error_message = [] }

abbrev batch : LongTermMemoryBatch
batch = record { events = first_message ∷ []; source_refs = codes "session://s#event:1" ∷ [] }

ask_model-IsSourced_example :
    IsSourced (batch_agent batch.events) (ask_model reading (some client) batch)
ask_model-IsSourced_example = ask_model-IsSourced reading (some client) batch refl
