-- ===== src/Runtime/Served.antt =====
-- Sequences of calls of a runtime (src/core/builtin_memory_runtime.cpp).
use agent_memory_cpp.Prelude.{List, [], ◌∷◌, Option}
use agent_memory_cpp.Text.{Text}
use agent_memory_cpp.Json.{Float}
use agent_memory_cpp.Types.{MemoryEvent, MemorySearchRequest, MemoryConsolidationRequest}
use agent_memory_cpp.Storage.Search.Hits.{FullText}
use agent_memory_cpp.Context.{MemoryContextRequest}
use agent_memory_cpp.Consolidation.Service.{Processor}
use agent_memory_cpp.Payload.Names.{MemoryPayloadWriteRequest}
use agent_memory_cpp.Runtime.{RuntimeServices, append_event, consolidate_with_model}
use agent_memory_cpp.Runtime.Calls.{
  runtime_build_context, runtime_write_payload, runtime_consolidate, search_memory, get_stats,
}

pub data RuntimeCall : Type 0 where
  event_appended : MemoryEvent → RuntimeCall
  context_built_with : FullText → (Float → Text) → MemoryContextRequest → RuntimeCall
  payload_written : MemoryPayloadWriteRequest → RuntimeCall
  payload_read : Text → RuntimeCall
  consolidated : MemoryConsolidationRequest → RuntimeCall
  consolidated_with : Option Processor → MemoryConsolidationRequest → RuntimeCall
  searched : FullText → MemorySearchRequest → RuntimeCall
  stats_read : RuntimeCall

-- The services behind a call; `ReadPayload` changes nothing.
unfoldable pub serve : RuntimeCall → RuntimeServices → RuntimeServices
unfolding append_event runtime_build_context runtime_write_payload runtime_consolidate
    consolidate_with_model search_memory get_stats
serve (event_appended event) services = (append_event event services).1
serve (context_built_with fts print_float request) services =
    (runtime_build_context fts print_float request services).1
serve (payload_written request) services = (runtime_write_payload request services).1
serve (payload_read uri) services = services
serve (consolidated request) services = (runtime_consolidate request services).1
serve (consolidated_with model request) services = (consolidate_with_model model request services).1
serve (searched fts request) services = (search_memory fts request services).1
serve stats_read services = (get_stats services).1

unfoldable pub serve_all : List RuntimeCall → RuntimeServices → RuntimeServices
unfolding serve
serve_all [] services = services
serve_all (call ∷ calls) services = serve_all calls (serve call services)
