-- ===== src/Context/Build.antt =====
-- `ContextBuilder::BuildContext` of src/core/context_builder.cpp, for a builder that has a store.
use agent_memory_cpp.Prelude.{not, ◌&&◌, List, [], ◌∷◌, ◌++◌, is_empty, length, map, if◌then◌else◌}
use agent_memory_cpp.Prelude.Int.{ℤ, pos, is_positive}
use agent_memory_cpp.Text.{Text, codes}
use agent_memory_cpp.Json.{Json, Float, integer, unsigned, string, boolean, with_member, set_member}
use agent_memory_cpp.Types.{MemoryPayloadRef, MemoryEventsResult}
use agent_memory_cpp.Storage.Engine.{MemorySqliteStore}
use agent_memory_cpp.Storage.Search.Hits.{FullText}
use agent_memory_cpp.Context.{
  MemoryContextRequest, should_include, long_term_memory_limit, load_messages_for_context,
  load_payloads_for_context, no_messages,
}
use agent_memory_cpp.Context.Package.{
  MemoryContextPackage, MemoryContextResult, empty_package, context_failed, context_built,
  message_of_event, payload_overview,
}
use agent_memory_cpp.Context.LongTerm.{
  SelectedLongTermMemory, nothing_selected, select_long_term_memory, render_long_term_memory,
}

-- metadata[key] = value
unfoldable pub set_metadata : Text → Json → MemoryContextPackage → MemoryContextPackage
unfolding set_member
set_metadata key value context = record context {
  metadata = with_member key value context.metadata;
}

-- Several of these, one after the other.
unfoldable pub set_all : List (Text × Json) → MemoryContextPackage → MemoryContextPackage
unfolding set_metadata
set_all [] context = context
set_all ((key, value) ∷ members) context = set_all members (set_metadata key value context)

-- The first block: the messages, and their number.
unfoldable pub load_messages :
    MemoryContextRequest → MemorySqliteStore → MemoryEventsResult × MemorySqliteStore
unfolding should_include load_messages_for_context
load_messages request s =
    if should_include request (codes "messages")
    then load_messages_for_context request s
    else (no_messages, s)

unfoldable pub with_messages : MemoryEventsResult → MemoryContextPackage
unfolding set_metadata message_of_event
with_messages loaded =
    let messages = map message_of_event loaded.events in
    set_metadata (codes "message_count") (unsigned (length messages))
      (record empty_package { messages = messages })

-- The second block: long-term memory.
unfoldable pub load_long_term :
    FullText
    → MemoryContextRequest
    → ℤ
    → MemorySqliteStore
    → SelectedLongTermMemory × MemorySqliteStore
unfolding should_include select_long_term_memory
load_long_term fts request limit s =
    if should_include request (codes "long_term") && is_positive limit
    then select_long_term_memory fts request limit s
    else (nothing_selected, s)

abbrev joined : Text → Text → Text
joined text more =
    if is_empty more then text else (if is_empty text then more else text ++ codes "\n\n" ++ more)

unfoldable pub with_long_term :
    (Float → Text) → SelectedLongTermMemory → MemoryContextPackage → MemoryContextPackage
unfolding render_long_term_memory
with_long_term print_float selected context =
    let (text, cited) = render_long_term_memory print_float selected [] in
    record context {
      entities = selected.snapshot.entities;
      relations = selected.snapshot.relations;
      memory_text = joined context.memory_text text;
      citations = cited;
    }

-- What the metadata says of the request.
abbrev pub request_members : ℤ → MemoryContextRequest → ℤ → List (Text × Json)
request_members default_budget request limit =
    (codes "agentId", string request.agent_id)
    ∷ (codes "sessionId", string request.session_id)
    ∷ (
      codes "tokenBudget",
      integer (if is_positive request.token_budget then request.token_budget else default_budget),
    )
    ∷ (codes "long_term_limit", integer limit)
    ∷ (codes "include_count", unsigned (length request.include_sections))
    ∷ (codes "query_applied", boolean (not (is_empty request.query)))
    ∷ []

-- The members of the request, and the numbers of what was found.
unfoldable pub with_statistics :
    ℤ → MemoryContextRequest → ℤ → MemoryContextPackage → MemoryContextPackage
unfolding set_metadata set_all
with_statistics default_budget request limit context =
    let described = set_all (request_members default_budget request limit) context in
    let cited =
      if is_empty context.citations
      then described
      else set_metadata (codes "citation_count") (unsigned (length context.citations)) described in
    set_all
      ((codes "entity_count", unsigned (length context.entities))
        ∷ (codes "relation_count", unsigned (length context.relations))
        ∷ [])
      cited

-- The last block: the payloads.
unfoldable pub with_payloads : List MemoryPayloadRef → MemoryContextPackage → MemoryContextPackage
unfolding set_metadata payload_overview
with_payloads payloads context =
    if is_empty payloads
    then set_metadata (codes "payload_count") (integer (pos 0)) context
    else set_metadata (codes "payload_count") (unsigned (length payloads)) (record context {
      memory_text = context.memory_text ++ payload_overview context.memory_text payloads;
      payload_refs = payloads;
    })

unfoldable pub add_payloads :
    MemoryContextRequest
    → MemoryContextPackage
    → MemorySqliteStore
    → MemoryContextResult × MemorySqliteStore
unfolding should_include load_payloads_for_context with_payloads
add_payloads request context s =
    let (loaded, t) = load_payloads_for_context request s in
    if should_include request (codes "payloads")
    then (
      if loaded.succeeded
          then context_built (with_payloads loaded.payloads context)
          else context_failed loaded.error,
      t,
    )
    else (context_built context, s)

unfoldable pub build_context :
    FullText
    → (Float → Text)
    → ℤ
    → MemoryContextRequest
    → MemorySqliteStore
    → MemoryContextResult × MemorySqliteStore
unfolding load_messages with_messages long_term_memory_limit load_long_term with_long_term
    with_statistics add_payloads
build_context fts print_float default_budget request s =
    let (messages, t) = load_messages request s in
    let limit = long_term_memory_limit default_budget request in
    let (selected, u) = load_long_term fts request limit t in
    let context =
      with_statistics default_budget request limit
        (with_long_term print_float selected (with_messages messages)) in
    let built = add_payloads request context u in
    if messages.succeeded
    then (if selected.succeeded then built else (context_failed selected.error, u))
    else (context_failed messages.error, t)
