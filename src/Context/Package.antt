-- ===== src/Context/Package.antt =====
-- The context package of include/agent_memory/context.h and the texts that
-- src/core/context_builder.cpp renders. How a stream prints a `float` is a parameter.
use agent_memory_cpp.Prelude.{Bool, true, false, List, [], ◌∷◌, ◌++◌, is_empty, if◌then◌else◌}
use agent_memory_cpp.Text.{Text, codes}
use agent_memory_cpp.Json.{Json, Float, empty_object}
use agent_memory_cpp.Types.{
  MemoryError, no_error, MemoryEvent, MemoryPayloadRef, MemoryEntity, MemoryRelation,
  LongTermSummaryRecord, LongTermMemorySnapshot, MemorySearchHit,
}
use agent_memory_cpp.Storage.Cursors.{int_to_string}

pub record MemoryMessage : Type 0 where
  pub role : Text
  pub content : Text
  pub tool_call_id : Text
  pub tool_name : Text
  pub payload_ref : Text

pub record MemoryContextPackage : Type 0 where
  pub messages : List MemoryMessage
  pub memory_text : Text
  pub entities : List MemoryEntity
  pub relations : List MemoryRelation
  pub payload_refs : List MemoryPayloadRef
  pub citations : List Text
  pub metadata : Json

abbrev pub empty_package : MemoryContextPackage
empty_package = record {
  messages = [];
  memory_text = [];
  entities = [];
  relations = [];
  payload_refs = [];
  citations = [];
  metadata = empty_object;
}

pub record MemoryContextResult : Type 0 where
  pub succeeded : Bool
  pub context : MemoryContextPackage
  pub error : MemoryError

-- `{false, {}, error}`
abbrev pub context_failed : MemoryError → MemoryContextResult
context_failed e = record { succeeded = false; context = empty_package; error = e }

abbrev pub context_built : MemoryContextPackage → MemoryContextResult
context_built context = record { succeeded = true; context = context; error = no_error }

unfoldable pub message_of_event : MemoryEvent → MemoryMessage
message_of_event event = record {
  role = event.role;
  content = event.content;
  tool_call_id = event.tool_call_id;
  tool_name = event.tool_name;
  payload_ref = event.payload_ref;
}

-- A loop that writes to a stream.
unfoldable pub concat_map : {A : Type 0} → (A → Text) → List A → Text
concat_map line [] = []
concat_map line (x ∷ xs) = line x ++ concat_map line xs

module _ (print_float : Float → Text) where
  abbrev confidence_end : Float → Text
  confidence_end confidence =
      codes " (confidence=" ++ print_float confidence ++ codes ")" ++ codes "\n"

  unfoldable pub summary_line : LongTermSummaryRecord → Text
  summary_line summary =
      codes "- ["
      ++ summary.level
      ++ codes "] "
      ++ summary.topic
      ++ codes ": "
      ++ summary.summary
      ++ confidence_end summary.confidence

  unfoldable pub entity_line : MemoryEntity → Text
  entity_line entity =
      codes "- "
      ++ entity.id
      ++ codes " ("
      ++ entity.entity_type
      ++ codes ", "
      ++ entity.name
      ++ codes "): "
      ++ entity.summary
      ++ confidence_end entity.confidence

  unfoldable pub relation_line : MemoryRelation → Text
  relation_line relation =
      codes "- "
      ++ relation.from_entity_id
      ++ codes " "
      ++ relation.relation_type
      ++ codes " "
      ++ relation.to_entity_id
      ++ confidence_end relation.confidence

  -- A section of `FormatLongTermSnapshot` behind what is written already.
  unfoldable pub add_section : {A : Type 0} → Text → (A → Text) → List A → Text → Text
  unfolding concat_map
  add_section heading line xs text =
      if is_empty xs
      then text
      else text
        ++ (if is_empty text then [] else codes "\n")
        ++ heading
        ++ codes "\n"
        ++ concat_map line xs

  -- `FormatLongTermSnapshot`
  unfoldable pub format_long_term_snapshot : LongTermMemorySnapshot → Text
  unfolding add_section summary_line entity_line relation_line
  format_long_term_snapshot snapshot =
      add_section (codes "## Memory Relations") relation_line snapshot.relations (
        add_section (codes "## Memory Entities") entity_line snapshot.entities
          (add_section (codes "## Long-term Summaries") summary_line snapshot.summaries []))

unfoldable pub hit_line : MemorySearchHit → Text
hit_line hit = codes "- [" ++ hit.kind ++ codes "] " ++ hit.content ++ codes "\n"

-- `FormatSearchResults`
unfoldable pub format_search_results : List MemorySearchHit → Text
unfolding concat_map hit_line
format_search_results hits =
    if is_empty hits
    then []
    else codes "## Relevant Long-Term Memory" ++ codes "\n" ++ concat_map hit_line hits

unfoldable pub payload_line : MemoryPayloadRef → Text
payload_line payload =
    codes "- uri: "
    ++ payload.uri
    ++ codes ", tool: "
    ++ payload.tool_name
    ++ codes ", chars: "
    ++ int_to_string payload.original_chars
    ++ codes ", summary: "
    ++ payload.summary
    ++ codes "\n"

-- `payloadOverview`, behind the text of long-term memory.
unfoldable pub payload_overview : Text → List MemoryPayloadRef → Text
unfolding concat_map payload_line
payload_overview memory_text payloads =
    (if is_empty memory_text then [] else codes "\n")
    ++ codes "## Offloaded Payloads"
    ++ codes "\n\n"
    ++ concat_map payload_line payloads
