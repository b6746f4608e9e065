-- ===== src/Context.antt =====
-- src/core/context_builder.cpp, src/core/payload_query.cpp and src/core/context_sections.h: which
-- sections, messages and payloads a context has, and the limit of long-term memory. The modules below
-- have the rest.
pub mod Selection
pub mod Citations
pub mod Package
pub mod LongTerm
pub mod Build
pub mod Reads
pub mod Metadata
pub mod Counts
pub mod Assembly
use agent_memory_cpp.Prelude.{
  ℕ, zero, suc, ◌+◌, ◌/◌, Bool, true, false, not, ◌&&◌, ◌||◌, List, [], ◌∷◌, ◌++◌, is_empty,
  keep_if, any, leb, if◌then◌else◌, ◌==◌, length,
}
use agent_memory_cpp.Prelude.Int.{ℤ, pos, negsuc, is_positive, is_nonneg, to_ℕ}
use agent_memory_cpp.Text.{Text, codes, text_eq, mem_text, to_lower, contains}
use agent_memory_cpp.Text.Decimal.{is_space}
use agent_memory_cpp.Json.{Json, metadata_int}
use agent_memory_cpp.Types.{
  MemoryEvent, MemoryEventsResult, MemoryPayloadRef, MemoryPayloadRefsResult, MemoryRelation,
  LongTermMemorySnapshot, MemoryEntity, LongTermSummaryRecord, no_error,
}
use agent_memory_cpp.Storage.Engine.{MemorySqliteStore}
use agent_memory_cpp.Storage.Events.{load_recent_events}
use agent_memory_cpp.Storage.Payloads.{load_recent_payloads}
use agent_memory_cpp.Consolidation.Batch.{is_message}

pub record MemoryContextRequest : Type 0 where
  pub agent_id : Text
  pub session_id : Text
  pub query : Text
  pub token_budget : ℤ
  pub include_sections : List Text
  pub metadata : Json

-- `ShouldInclude` of one entry of the request.
unfoldable pub names_section : Text → Text → Bool
unfolding text_eq
names_section section item =
    text_eq item section
    || (text_eq section (codes "payloads") && text_eq item (codes "payload"))
    || (text_eq section (codes "long_term") && text_eq item (codes "long_term_memory"))

unfoldable pub should_include : MemoryContextRequest → Text → Bool
unfolding names_section any
should_include request section =
    if is_empty request.include_sections
    then true
    else any (names_section section) request.include_sections

abbrev at_least : ℕ → ℕ → ℕ
at_least low n = if leb low n then n else low

abbrev at_most : ℕ → ℕ → ℕ
at_most high n = if leb n high then n else high

abbrev budget_limit : ℤ → ℤ
budget_limit budget =
    if is_positive budget then pos (at_least 1 (at_most 50 (to_ℕ budget / 200))) else pos 20

-- `LongTermMemoryLimit`, `default_budget` being the configuration's.
unfoldable pub long_term_memory_limit : ℤ → MemoryContextRequest → ℤ
unfolding metadata_int
long_term_memory_limit default_budget request =
    let configured = metadata_int request.metadata (codes "long_term_limit") (negsuc 0) in
    if is_nonneg configured
    then configured
    else budget_limit
        (if is_positive request.token_budget then request.token_budget else default_budget)

-- std::max(0, MetadataInt(request.metadata, key, 20))
unfoldable pub section_limit : Json → Text → ℕ
unfolding metadata_int
section_limit metadata key = to_ℕ (metadata_int metadata key (pos 20))

abbrev pub no_messages : MemoryEventsResult
no_messages = record { succeeded = true; events = []; error = no_error }

-- `LoadMessagesForContext`, with a store.
unfoldable pub load_messages_for_context :
    MemoryContextRequest → MemorySqliteStore → MemoryEventsResult × MemorySqliteStore
unfolding section_limit load_recent_events keep_if
load_messages_for_context request s =
    let limit = section_limit request.metadata (codes "message_limit") in
    let (loaded, t) = load_recent_events request.agent_id request.session_id (pos limit) s in
    if limit == 0
    then (no_messages, s)
    else if loaded.succeeded
    then (record no_messages { events = keep_if (λ event. is_message event.kind) loaded.events }, t)
    else (loaded, t)

-- `while (stream >> term)`: `word` is the part of a term that was read.
unfoldable pub words_from : Text → Text → List Text
words_from word [] = if is_empty word then [] else word ∷ []
words_from word (c ∷ cs) = elim (is_space c) [
  | true ↦ if is_empty word then words_from [] cs else word ∷ words_from [] cs
  | false ↦ words_from (word ++ c ∷ []) cs
]

abbrev pub lower_all : List Text → List Text
lower_all [] = []
lower_all (t ∷ ts) = to_lower t ∷ lower_all ts

-- `ParsePayloadQuery`
unfoldable pub parse_payload_query : Text → List Text
unfolding words_from to_lower
parse_payload_query query = lower_all (words_from [] query)

unfoldable pub contains_term : MemoryPayloadRef → Text → Bool
unfolding contains to_lower
contains_term payload term =
    contains
      (to_lower (
        payload.uri
        ++ codes "\n"
        ++ payload.tool_name
        ++ codes "\n"
        ++ payload.summary
        ++ codes "\n"
        ++ payload.content_type))
      term

-- `MatchesPayloadQuery`
unfoldable pub matches_payload_query : List Text → MemoryPayloadRef → Bool
unfolding contains_term
matches_payload_query [] payload = true
matches_payload_query (term ∷ terms) payload =
    contains_term payload term && matches_payload_query terms payload

-- The loop of `LoadPayloadsForContext`, from a set of URIs seen and a number of payloads taken on.
unfoldable pub select_payloads :
    List Text → ℕ → List Text → ℕ → List MemoryPayloadRef → List MemoryPayloadRef
unfolding mem_text matches_payload_query
select_payloads query limit seen count [] = []
select_payloads query limit seen count (payload ∷ payloads) =
    let chosen = not (mem_text payload.uri seen) && matches_payload_query query payload in
    let taken = if chosen then suc count else count in
    let rest = select_payloads query limit (payload.uri ∷ seen) taken payloads in
    if chosen then (if leb limit taken then payload ∷ [] else payload ∷ rest) else rest

-- `LoadPayloadsForContext`, with a store.
unfoldable pub load_payloads_for_context :
    MemoryContextRequest → MemorySqliteStore → MemoryPayloadRefsResult × MemorySqliteStore
unfolding section_limit load_recent_payloads parse_payload_query select_payloads
load_payloads_for_context request s =
    let limit = section_limit request.metadata (codes "payload_limit") in
    let (loaded, t) = load_recent_payloads request.agent_id request.session_id (pos limit) s in
    let chosen = select_payloads (parse_payload_query request.query) limit [] 0 loaded.payloads in
    if limit == 0
    then (record { succeeded = true; payloads = []; error = no_error }, s)
    else if loaded.succeeded
    then (record { succeeded = true; payloads = chosen; error = no_error }, t)
    else (loaded, t)

-- `RelationIdMatches`
unfoldable pub relation_id_matches : MemoryRelation → Text → Bool
unfolding text_eq
relation_id_matches relation result_id =
    text_eq relation.id result_id || text_eq (codes "relation:" ++ relation.id) result_id

-- `AddUniqueCitation`
unfoldable pub add_unique_citation : List Text → Text → List Text
unfolding mem_text
add_unique_citation citations citation =
    if not (is_empty citation) && not (mem_text citation citations)
    then citations ++ citation ∷ []
    else citations

-- `AddUniqueCitations`
unfoldable pub add_unique_citations : List Text → List Text → List Text
unfolding add_unique_citation
add_unique_citations citations [] = citations
add_unique_citations citations (ref ∷ refs) =
    add_unique_citations (add_unique_citation citations ref) refs

-- One of the three loops of `CollectSnapshotCitations`.
unfoldable pub collect_citations : {A : Type 0} → (A → List Text) → List Text → List A → List Text
unfolding add_unique_citations
collect_citations refs citations [] = citations
collect_citations refs citations (x ∷ xs) =
    collect_citations refs (add_unique_citations citations (refs x)) xs

-- `CollectSnapshotCitations`
unfoldable pub collect_snapshot_citations : List Text → LongTermMemorySnapshot → List Text
unfolding collect_citations
collect_snapshot_citations citations snapshot =
    let a =
      collect_citations (λ (x : LongTermSummaryRecord). x.source_refs) citations
        snapshot.summaries in
    let b = collect_citations (λ (x : MemoryEntity). x.source_refs) a snapshot.entities in
    collect_citations (λ (x : MemoryRelation). x.source_refs) b snapshot.relations
