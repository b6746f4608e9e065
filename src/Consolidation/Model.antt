-- ===== src/Consolidation/Model.antt =====
-- src/consolidation/llm_processor.cpp: the processor that asks a model. The model, the reading of JSON
-- text and the conversion of a JSON number to a `float` are parameters.
pub mod Answer
pub mod Sources
use agent_memory_cpp.Prelude.{
  ℕ, suc, ◌+◌, ◌-◌, Bool, true, false, not, ◌&&◌, Option, none, some, List, [], ◌∷◌, ◌++◌, map,
  is_empty, length, ltb, ◌==◌, take, if◌then◌else◌,
}
use agent_memory_cpp.Prelude.Everywhere.{drop}
use agent_memory_cpp.Text.{Text, codes}
use agent_memory_cpp.Text.Decimal.{to_string}
use agent_memory_cpp.Json.{
  Json, Items, no_items, item, Members, object, array, Float, integer, unsigned, number, get_member,
  find_member, json_string, string_vector, empty_object,
}
use agent_memory_cpp.Types.{MemoryEvent, MemoryEntity, MemoryRelation}
use agent_memory_cpp.Consolidation.Batch.{LongTermMemoryBatch, LongTermMemoryUpdate, empty_update}
use agent_memory_cpp.Consolidation.Rules.{default_entity}

-- What `Process` reads of the result of a model.
pub record ModelInvokeResult : Type 0 where
  pub text : Text
  pub error_message : Text

abbrev pub is_answer : ModelInvokeResult → Bool
is_answer r = is_empty r.error_message && not (is_empty r.text)

abbrev pub MemoryModelClient : Type 0
MemoryModelClient = Text → ModelInvokeResult

-- The text of a JSON value, and a JSON number as a `float`.
pub record Reading : Type 0 where
  pub parse : Text → Option Json
  pub to_float : Json → Float

abbrev instructions : Text
instructions =
    codes "Extract structured long-term memory from the conversation events below.\n"
    ++ codes "Return ONLY valid JSON with this exact schema (no markdown fences, no explanation):\n"
    ++ codes "\n{\n"
    ++ codes "  \"topicSummaries\": [\"brief topic summary 1\", \"brief topic summary 2\"],\n"
    ++ codes "  \"profileSummaries\": [\"user profile insight 1\"],\n"
    ++ codes "  \"entities\": [\n    {\n"
    ++ codes "      \"id\": \"entity:unique.id.here\",\n"
    ++ codes "      \"entityType\": \"preference|topic|project|task|file|user|style\",\n"
    ++ codes "      \"name\": \"short name\",\n"
    ++ codes "      \"summary\": \"one-line summary\",\n"
    ++ codes "      \"confidence\": 0.0-1.0,\n"
    ++ codes "      \"sourceRefs\": [\"session://session-id#event:1\"]\n"
    ++ codes "    }\n  ],\n  \"relations\": [\n    {\n"
    ++ codes "      \"fromEntityId\": \"entity:user\",\n"
    ++ codes
        "      \"relationType\": \"prefers|works_on|mentions|related_to|supersedes|contradicts\",\n"
    ++ codes "      \"toEntityId\": \"entity:...\",\n"
    ++ codes "      \"confidence\": 0.0-1.0,\n"
    ++ codes "      \"sourceRefs\": [\"session://session-id#event:1\"]\n"
    ++ codes "    }\n  ]\n}\n\n"
    ++ codes "Use \"supersedes\" when new information replaces an older entity.\n"
    ++ codes "Use \"contradicts\" when information conflicts with a previous entity.\n"
    ++ codes "Use \"prefers\" for user preferences.\n"
    ++ codes "\nConversation events:\n"

abbrev prompt_line : Text → MemoryEvent → Text
prompt_line ref event =
    ref ++ codes " [" ++ event.role ++ codes "]: " ++ event.content ++ codes "\n"

-- The loop over the events, with the source references that are left; i is the event's place.
unfoldable pub prompt_lines : ℕ → List MemoryEvent → List Text → Text
unfolding to_string
prompt_lines i [] refs = []
prompt_lines i (event ∷ events) [] =
    prompt_line (codes "event://" ++ to_string (i + 1)) event ++ prompt_lines (suc i) events []
prompt_lines i (event ∷ events) (ref ∷ refs) =
    prompt_line ref event ++ prompt_lines (suc i) events refs

-- `BuildPrompt`
unfoldable pub build_prompt : LongTermMemoryBatch → Text
unfolding prompt_lines
build_prompt batch = instructions ++ prompt_lines 0 batch.events batch.source_refs

-- s.find(c)
unfoldable pub find_byte : ℕ → Text → Option ℕ
find_byte c [] = none
find_byte c (x ∷ xs) =
    if x == c then some 0 else elim (find_byte c xs) [ none ↦ none | some i ↦ some (suc i) ]

-- s.rfind(c)
unfoldable pub rfind_byte : ℕ → Text → Option ℕ
rfind_byte c [] = none
rfind_byte c (x ∷ xs) = elim (rfind_byte c xs) [
  | some i ↦ some (suc i)
  | none ↦ if x == c then some 0 else none
]

-- The part of an answer from its first opening brace to its last closing one.
abbrev pub between : Text → Option ℕ → Option ℕ → Text
unfolding take
between text (some start) (some end) =
    if ltb start end then take (end - start + 1) (drop start text) else text
between text _ _ = text

unfoldable pub clean_answer : Text → Text
unfolding find_byte rfind_byte take
clean_answer text = between text (find_byte b'{' text) (rfind_byte b'}' text)

-- The strings of a member that is an array.
unfoldable pub string_array : Text → Json → List Text
unfolding find_member string_vector
string_array key json = elim (get_member key json) [ none ↦ [] | some v ↦ string_vector v ]

abbrev number_or : Reading → Float → Json → Float
number_or reading fallback (integer i) = reading.to_float (integer i)
number_or reading fallback (unsigned n) = reading.to_float (unsigned n)
number_or reading fallback (number x) = reading.to_float (number x)
number_or reading fallback _ = fallback

-- 0.5 is written in thousandths.
unfoldable pub confidence_of : Reading → Json → Float
unfolding find_member
confidence_of reading json = elim (get_member (codes "confidence") json) [
  | none ↦ 500
  | some v ↦ number_or reading 500 v
]

-- The references that the model gives, or those of the batch.
unfoldable pub refs_or : List Text → Json → List Text
unfolding string_array
refs_or refs json =
    let given = string_array (codes "sourceRefs") json in if is_empty given then refs else given

-- One entity; count is the number of those before it.
unfoldable pub read_entity : Reading → List Text → Text → ℕ → Json → MemoryEntity
unfolding json_string confidence_of refs_or to_string
read_entity reading refs agent count json = record default_entity {
  id = json_string json (codes "id") (codes "entity:llm." ++ to_string count);
  agent_id = agent;
  entity_type = json_string json (codes "entityType") (codes "unknown");
  name = json_string json (codes "name") [];
  summary = json_string json (codes "summary") [];
  confidence = confidence_of reading json;
  source_refs = refs_or refs json;
}

unfoldable pub read_relation : Reading → List Text → Text → Json → MemoryRelation
unfolding json_string confidence_of refs_or
read_relation reading refs agent json = record {
  id = [];
  agent_id = agent;
  from_entity_id = json_string json (codes "fromEntityId") [];
  relation_type = json_string json (codes "relationType") (codes "related_to");
  to_entity_id = json_string json (codes "toEntityId") [];
  confidence = confidence_of reading json;
  source_refs = refs_or refs json;
  metadata = empty_object;
  created_at = 0;
  updated_at = 0;
}

-- The two loops; what is no object is passed over.
unfoldable pub read_entities : Reading → List Text → Text → ℕ → Items → List MemoryEntity
unfolding read_entity
read_entities reading refs agent count no_items = []
read_entities reading refs agent count (item (object ms) rest) =
    read_entity reading refs agent count (object ms)
    ∷ read_entities reading refs agent (suc count) rest
read_entities reading refs agent count (item _ rest) = read_entities reading refs agent count rest

unfoldable pub read_relations : Reading → List Text → Text → Items → List MemoryRelation
unfolding read_relation
read_relations reading refs agent no_items = []
read_relations reading refs agent (item (object ms) rest) =
    read_relation reading refs agent (object ms) ∷ read_relations reading refs agent rest
read_relations reading refs agent (item _ rest) = read_relations reading refs agent rest

abbrev pub items_in : Option Json → Items
items_in (some (array xs)) = xs
items_in _ = no_items

-- The update of a value that is an object.
unfoldable pub read_update : Reading → List Text → Text → Members → LongTermMemoryUpdate
unfolding find_member string_array read_entities read_relations
read_update reading refs agent ms =
    let json = object ms in
    record {
      topic_summaries = string_array (codes "topicSummaries") json;
      profile_summaries = string_array (codes "profileSummaries") json;
      entities = read_entities reading refs agent 0 (items_in (get_member (codes "entities") json));
      relations =
          read_relations reading refs agent (items_in (get_member (codes "relations") json));
    }

abbrev pub update_of : Reading → List Text → Text → Option Json → LongTermMemoryUpdate
unfolding read_update
update_of reading refs agent (some (object ms)) = read_update reading refs agent ms
update_of reading refs agent _ = empty_update

-- `ParseResponse`
unfoldable pub parse_response : Reading → Text → List Text → Text → LongTermMemoryUpdate
unfolding read_update
parse_response reading text refs agent = update_of reading refs agent (reading.parse text)

-- The agent of a batch is that of its first event.
abbrev pub batch_agent : List MemoryEvent → Text
batch_agent [] = []
batch_agent (event ∷ events) = event.agent_id

-- `Process`
unfoldable pub ask_model :
    Reading → Option MemoryModelClient → LongTermMemoryBatch → LongTermMemoryUpdate
unfolding build_prompt clean_answer parse_response
ask_model reading none batch = empty_update
ask_model reading (some model) batch =
    let answer = model (build_prompt batch) in
    if is_answer answer
    then parse_response reading (clean_answer answer.text) batch.source_refs
        (batch_agent batch.events)
    else empty_update
