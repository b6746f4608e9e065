-- ===== src/Runtime/Calls.antt =====
-- The calls of src/core/builtin_memory_runtime.cpp that are passed on to the payload service, the
-- context builder, the search and the statistics, and `GetModelStatus`.
use agent_memory_cpp.Prelude.{Bool, false, none, some, List, [], if◌then◌else◌}
use agent_memory_cpp.Prelude.Int.{ℤ}
use agent_memory_cpp.Text.{Text, codes}
use agent_memory_cpp.Json.{Float}
use agent_memory_cpp.Types.{
  MemoryError, plain_error, MemorySearchHit, MemorySearchRequest, MemorySearchStoreResult,
  MemoryConsolidationRequest, MemoryConsolidationResult, MemoryStatsResult,
}
use agent_memory_cpp.Storage.Stats.{get_store_stats, no_stats}
use agent_memory_cpp.Storage.Search.Hits.{FullText}
use agent_memory_cpp.Storage.Search.Run.{search_long_term_memory}
use agent_memory_cpp.Context.{
  MemoryContextRequest, should_include, long_term_memory_limit, no_messages,
}
use agent_memory_cpp.Context.Package.{MemoryContextResult, context_failed, context_built}
use agent_memory_cpp.Context.Build.{with_messages, with_statistics, with_payloads, build_context}
use agent_memory_cpp.Payload.Names.{
  MemoryPayloadWriteRequest, MemoryPayloadWriteResult, MemoryPayloadReadResult, PayloadService,
}
use agent_memory_cpp.Payload.Write.{kept_inline, write_payload}
use agent_memory_cpp.Payload.Read.{read_failed, read_payload}
use agent_memory_cpp.Runtime.{
  RuntimeServices, store_unavailable_message, with_store, consolidate_with_model,
}

-- `ContextBuilder::BuildContext` of a builder without a store: no messages, no long-term memory and
-- no payloads.
unfoldable pub build_context_without_store : ℤ → MemoryContextRequest → MemoryContextResult
unfolding should_include long_term_memory_limit with_messages with_statistics with_payloads
build_context_without_store default_budget request =
    let limit = long_term_memory_limit default_budget request in
    let context = with_statistics default_budget request limit (with_messages no_messages) in
    context_built
      (if should_include request (codes "payloads") then with_payloads [] context else context)

-- A builder with the store of the runtime, if there is one.
unfoldable pub build_for :
    FullText
    → (Float → Text)
    → ℤ
    → MemoryContextRequest
    → RuntimeServices
    → MemoryContextResult × RuntimeServices
unfolding build_context build_context_without_store
build_for fts print_float budget request services = elim services.store [
  | none ↦ (build_context_without_store budget request, services)
  | some s ↦
      (let (result, t) = build_context fts print_float budget request s in
        (result, with_store services t))
]

-- `BuildContext`
unfoldable pub runtime_build_context :
    FullText
    → (Float → Text)
    → MemoryContextRequest
    → RuntimeServices
    → MemoryContextResult × RuntimeServices
unfolding build_for
runtime_build_context fts print_float request services = elim services.context_builder [
  | none ↦ (
    context_failed
        (plain_error (codes "context_build_failed") (codes "context builder unavailable")),
    services,
  )
  | some builder ↦ build_for fts print_float builder.token_budget request services
]

-- The services behind a call of the payload service, which may have changed the store.
abbrev pub with_payload_service : RuntimeServices → PayloadService → RuntimeServices
with_payload_service services service = record services {
  store = service.store;
  payload_service = some service;
}

-- `WritePayload`
unfoldable pub runtime_write_payload :
    MemoryPayloadWriteRequest → RuntimeServices → MemoryPayloadWriteResult × RuntimeServices
unfolding write_payload
runtime_write_payload request services = elim services.payload_service [
  | none ↦ (
    kept_inline false request.content
        (plain_error (codes "payload_write_failed") (codes "payload service unavailable")),
    services,
  )
  | some service ↦
      (let (result, after) = write_payload request (record service { store = services.store }) in
        (result, with_payload_service services after))
]

-- `ReadPayload`
unfoldable pub runtime_read_payload : Text → RuntimeServices → MemoryPayloadReadResult
unfolding read_payload
runtime_read_payload uri services = elim services.payload_service [
  | none ↦ read_failed (codes "payload service unavailable")
  | some service ↦ read_payload uri service
]

-- `Consolidate` with the configured model.
unfoldable pub runtime_consolidate :
    MemoryConsolidationRequest → RuntimeServices → MemoryConsolidationResult × RuntimeServices
unfolding consolidate_with_model
runtime_consolidate request services = consolidate_with_model services.model_client request services

pub record MemorySearchResult : Type 0 where
  pub succeeded : Bool
  pub hits : List MemorySearchHit
  pub error : MemoryError

abbrev search_answer : MemorySearchStoreResult → MemorySearchResult
search_answer r = record { succeeded = r.succeeded; hits = r.results; error = r.error }

-- `SearchMemory`
unfoldable pub search_memory :
    FullText → MemorySearchRequest → RuntimeServices → MemorySearchResult × RuntimeServices
unfolding search_long_term_memory
search_memory fts request services = elim services.store [
  | none ↦ (
    record {
      succeeded = false;
      hits = [];
      error = plain_error (codes "search_unavailable") (store_unavailable_message services);
    },
    services,
  )
  | some s ↦
      (let (result, t) = search_long_term_memory fts request s in
        (search_answer result, with_store services t))
]

-- `GetStats`
unfoldable pub get_stats : RuntimeServices → MemoryStatsResult × RuntimeServices
unfolding get_store_stats
get_stats services = elim services.store [
  | none ↦ (
    record {
      succeeded = false;
      stats = no_stats;
      error = plain_error (codes "stats_unavailable") (store_unavailable_message services);
    },
    services,
  )
  | some s ↦ (let (result, t) = get_store_stats s in (result, with_store services t))
]
