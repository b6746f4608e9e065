-- ===== src/Consolidation/Rules.antt =====
-- src/consolidation/rule_based_processor.cpp
pub mod Report
use agent_memory_cpp.Prelude.{
  ℕ, Bool, true, false, not, ◌&&◌, List, [], ◌∷◌, ◌++◌, is_empty, any, if◌then◌else◌,
}
use agent_memory_cpp.Text.{Text, codes, text_eq, mem_text, to_lower, contains}
use agent_memory_cpp.Json.{empty_object, Float}
use agent_memory_cpp.Types.{MemoryEvent, MemoryEntity, MemoryRelation}
use agent_memory_cpp.Consolidation.Batch.{
  LongTermMemoryBatch, LongTermMemoryUpdate, empty_update, is_message,
}

-- Whether a text holds any of some words.
unfoldable pub contains_any : List Text → Text → Bool
unfolding any contains
contains_any words text = any (contains text) words

abbrev preference_signals : List Text
preference_signals =
    codes "i like"
    ∷ codes "i prefer"
    ∷ codes "i want"
    ∷ codes "please"
    ∷ codes "always"
    ∷ codes "never"
    ∷ []

unfoldable pub contains_preference_signal : Text → Bool
unfolding contains_any to_lower
contains_preference_signal text = contains_any preference_signals (to_lower text)

pub record Pattern : Type 0 where
  pub word : Text
  pub topic : Text

abbrev pattern : Text → Text → Pattern
pattern word topic = record { word = word; topic = topic }

abbrev patterns : List Pattern
patterns =
    pattern (codes "project") (codes "project")
    ∷ pattern (codes "repository") (codes "project")
    ∷ pattern (codes "code") (codes "coding")
    ∷ pattern (codes "api") (codes "api")
    ∷ pattern (codes "test") (codes "testing")
    ∷ pattern (codes "deploy") (codes "deployment")
    ∷ pattern (codes "database") (codes "database")
    ∷ pattern (codes "config") (codes "configuration")
    ∷ pattern (codes "security") (codes "security")
    ∷ pattern (codes "ui") (codes "ui")
    ∷ pattern (codes "frontend") (codes "ui")
    ∷ pattern (codes "backend") (codes "backend")
    ∷ pattern (codes "memory") (codes "memory_system")
    ∷ []

-- The topic of the first pattern whose word is found.
unfoldable pub first_topic : List Pattern → Text → Text
unfolding contains
first_topic [] lower = []
first_topic (p ∷ ps) lower =
    let rest = first_topic ps lower in if contains lower p.word then p.topic else rest

unfoldable pub detect_topic : Text → Text
unfolding first_topic to_lower
detect_topic text = first_topic patterns (to_lower text)

-- The variables of `Process`.
pub record Findings : Type 0 where
  pub seen_topics : List Text
  pub has_preference : Bool
  pub update : LongTermMemoryUpdate

abbrev pub no_findings : Findings
no_findings = record { seen_topics = []; has_preference = false; update = empty_update }

abbrev pub default_entity : MemoryEntity
default_entity = record {
  id = [];
  agent_id = [];
  entity_type = [];
  name = [];
  summary = [];
  confidence = 0;
  is_active = true;
  superseded_by_entity_id = [];
  superseded_entity_id = [];
  source_refs = [];
  metadata = empty_object;
  created_at = 0;
  updated_at = 0;
}

abbrev pub topic_summary : Text → Text
topic_summary topic = codes "Discussed topic: " ++ topic

-- 0.5 and 0.6 are written in thousandths.
unfoldable pub topic_entity : List Text → Text → Text → MemoryEntity
topic_entity refs agent topic = record default_entity {
  id = codes "entity:topic." ++ topic;
  agent_id = agent;
  entity_type = codes "topic";
  name = topic ++ codes " topic";
  summary = topic_summary topic;
  confidence = 500;
  source_refs = refs;
}

unfoldable pub preference_entity : List Text → Text → MemoryEntity
preference_entity refs agent = record default_entity {
  id = codes "entity:preference.user";
  agent_id = agent;
  entity_type = codes "preference";
  name = codes "User preference";
  summary = codes "User expressed preferences in session";
  confidence = 600;
  source_refs = refs;
}

unfoldable pub preference_relation : List Text → Text → MemoryRelation
preference_relation refs agent = record {
  id = [];
  agent_id = agent;
  from_entity_id = codes "entity:user";
  relation_type = codes "has_preference";
  to_entity_id = codes "entity:preference.user";
  confidence = 500;
  source_refs = refs;
  metadata = empty_object;
  created_at = 0;
  updated_at = 0;
}

-- !topic.empty() && seenTopics.find(topic) == seenTopics.end()
unfoldable pub is_new_topic : Text → Findings → Bool
unfolding mem_text
is_new_topic topic f = not (is_empty topic) && not (mem_text topic f.seen_topics)

unfoldable pub add_topic : List Text → Text → Text → Findings → Findings
unfolding topic_entity text_eq
add_topic refs agent topic f = record f {
  seen_topics = topic ∷ f.seen_topics;
  update = record f.update {
    topic_summaries = f.update.topic_summaries ++ topic_summary topic ∷ [];
    entities =
        if text_eq topic (codes "memory_system")
        then f.update.entities
        else f.update.entities ++ topic_entity refs agent topic ∷ [];
  };
}

unfoldable pub note_topic : List Text → MemoryEvent → Findings → Findings
unfolding detect_topic is_new_topic add_topic
note_topic refs event f =
    let topic = detect_topic event.content in
    if is_new_topic topic f then add_topic refs event.agent_id topic f else f

-- The message of a user that says a preference.
unfoldable pub is_preference : MemoryEvent → Bool
unfolding contains_preference_signal text_eq
is_preference event = text_eq event.role (codes "user") && contains_preference_signal event.content

unfoldable pub note_preference : List Text → MemoryEvent → Findings → Findings
unfolding is_preference preference_entity preference_relation
note_preference refs event f =
    if not f.has_preference && is_preference event
    then record f {
      has_preference = true;
      update = record f.update {
        entities = f.update.entities ++ preference_entity refs event.agent_id ∷ [];
        relations = f.update.relations ++ preference_relation refs event.agent_id ∷ [];
      };
    }
    else f

unfoldable pub process_event : List Text → MemoryEvent → Findings → Findings
unfolding note_topic note_preference
process_event refs event f =
    if is_message event.kind then note_preference refs event (note_topic refs event f) else f

unfoldable pub process_events : List Text → List MemoryEvent → Findings → Findings
unfolding process_event
process_events refs [] f = f
process_events refs (event ∷ events) f = process_events refs events (process_event refs event f)

-- `Process`
unfoldable pub process : LongTermMemoryBatch → LongTermMemoryUpdate
unfolding process_events
process batch = (process_events batch.source_refs batch.events no_findings).update
