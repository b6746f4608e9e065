-- ===== src/Runtime/Settled.antt =====
-- The store through sequences of calls of a runtime (src/core/builtin_memory_runtime.cpp).
use agent_memory_cpp.Prelude.{Option, none, some, List, [], ◌∷◌, if_either, option_either}
use agent_memory_cpp.Text.{Text}
use agent_memory_cpp.Json.{Float}
use agent_memory_cpp.Types.{MemoryStats, MemoryStatsResult, MemoryConsolidationRequest, MemoryError}
use agent_memory_cpp.Storage.Tables.{Tables}
use agent_memory_cpp.Storage.Engine.{MemorySqliteStore}
use agent_memory_cpp.Storage.Reads.{
  OnlyReads, OnlyReads-trans, fetch-OnlyReads, either_read, reads_nothing,
}
use agent_memory_cpp.Storage.Stats.{Count, counts, count_rows, get_store_stats}
use agent_memory_cpp.Storage.Search.Hits.{FullText}
use agent_memory_cpp.Storage.Search.Visible.{search-IsVisible}
use agent_memory_cpp.Storage.Payloads.{save_payload}
use agent_memory_cpp.Context.{MemoryContextRequest}
use agent_memory_cpp.Context.Reads.{build_context-OnlyReads}
use agent_memory_cpp.Consolidation.Service.{Processor}
use agent_memory_cpp.History.{IsSettled, store_event, store_payload, perform, perform-IsSettled}
use agent_memory_cpp.Payload.Names.{
  MemoryPayloadWriteRequest, MemoryPayloadWriteResult, PayloadService,
}
use agent_memory_cpp.Payload.Write.{
  save_metadata, payload_of, after_file, offload, offload_to, write_payload, stays_inline,
}
use agent_memory_cpp.Runtime.{RuntimeServices, append_event, consolidate_with_model}
use agent_memory_cpp.Runtime.Atomic.{OnlyReads-IsSettled, consolidate_store-Transacted}
use agent_memory_cpp.Runtime.Calls.{
  build_for, runtime_build_context, runtime_write_payload, runtime_consolidate, search_memory,
  get_stats,
}
use agent_memory_cpp.Runtime.Served.{
  RuntimeCall, event_appended, context_built_with, payload_written, payload_read, consolidated,
  consolidated_with, searched, stats_read, serve, serve_all,
}

count_rows-OnlyReads :
    (cs : List Count) (stats : MemoryStats) (s : MemorySqliteStore)
    → OnlyReads s (count_rows cs stats s).1
unfolding count_rows
count_rows-OnlyReads [] stats s = reads_nothing s
count_rows-OnlyReads (c ∷ cs) stats s =
    let first = fetch-OnlyReads (λ (tables : Tables). c.query tables ∷ []) s in
    either_end _ _ _ (OnlyReads-trans first (count_rows-OnlyReads cs _ _)) (λ step. first)
  where
    either_end :
        (steps : List Text) (rest : MemoryStatsResult × MemorySqliteStore)
        (stop : Text → MemoryStatsResult × MemorySqliteStore)
        → OnlyReads s rest.1
        → ((step : Text) → OnlyReads s (stop step).1)
        → (let ended : MemoryStatsResult × MemorySqliteStore = elim steps [
          | [] ↦ rest
          | step ∷ _ ↦ stop step
        ] in
            OnlyReads s ended.1)
    either_end [] rest stop r t = r
    either_end (step ∷ steps) rest stop r t = t step

get_store_stats-OnlyReads : (s : MemorySqliteStore) → OnlyReads s (get_store_stats s).1
unfolding get_store_stats
get_store_stats-OnlyReads s =
    either_read s.opened s _ _ (count_rows-OnlyReads counts _ s) (reads_nothing s)

-- The store of a runtime, if it has one, is settled.
abbrev pub StoreIsSettled : Option MemorySqliteStore → Type 0
StoreIsSettled none = Unit
StoreIsSettled (some s) = IsSettled s

abbrev Settles : MemoryPayloadWriteResult × PayloadService → Type 0
Settles r = StoreIsSettled r.1.store

save_metadata-Settles :
    (request : MemoryPayloadWriteRequest) (path : Text) (store : MemorySqliteStore)
    (service : PayloadService)
    → IsSettled store
    → Settles (save_metadata request path store service)
unfolding save_metadata perform
save_metadata-Settles request path store service h =
    let saved : IsSettled (save_payload (payload_of request path) store).1 =
      perform-IsSettled (store_payload (payload_of request path)) store h in
    if_either Settles (save_payload (payload_of request path) store).0.succeeded _ _ (λ done. saved)
      (λ lost. saved)

after_file-Settles :
    (request : MemoryPayloadWriteRequest) (path : Text) (store : MemorySqliteStore)
    (service : PayloadService) (failure : Option MemoryError)
    → IsSettled store
    → StoreIsSettled service.store
    → Settles (after_file request path store service failure)
unfolding after_file
after_file-Settles request path store service none h held =
    save_metadata-Settles request path store service h
after_file-Settles request path store service (some e) h held = held

offload_to-Settles :
    (request : MemoryPayloadWriteRequest) (service : PayloadService)
    (store : Option MemorySqliteStore)
    → StoreIsSettled store
    → StoreIsSettled service.store
    → Settles (offload_to request service store)
unfolding offload_to offload
offload_to-Settles request service none h held = held
offload_to-Settles request service (some store) h held =
    after_file-Settles request _ store _ _ h held

write_payload-Settles :
    (request : MemoryPayloadWriteRequest) (service : PayloadService)
    → StoreIsSettled service.store
    → Settles (write_payload request service)
unfolding write_payload
write_payload-Settles request service h =
    if_either Settles (stays_inline request service) _ _ (λ short. h)
      (λ long. offload_to-Settles request service service.store h h)

abbrev ServesSettled : {A : Type 0} → A × RuntimeServices → Type 0
ServesSettled r = StoreIsSettled r.1.store

module _ (services : RuntimeServices) (h : StoreIsSettled services.store) where
  consolidated-Settled :
      (model : Option Processor) (request : MemoryConsolidationRequest)
      → ServesSettled (consolidate_with_model model request services)
  unfolding consolidate_with_model
  consolidated-Settled model request =
      option_either StoreIsSettled ServesSettled _ _ services.store h (λ q. h)
        (λ s q.
          let done = consolidate_store-Transacted model request s q in
          if_either ServesSettled services.has_consolidation_service _ _
            (λ on. record {
              consistent = done.consistent;
              idle = done.closed;
              rolls = λ n. rw done.kept (q.rolls n);
            })
            (λ off. h))

  built-Settled :
      (fts : FullText) (print_float : Float → Text) (request : MemoryContextRequest)
      → ServesSettled (runtime_build_context fts print_float request services)
  unfolding runtime_build_context build_for
  built-Settled fts print_float request =
      option_either (λ o. Unit) ServesSettled _ _ services.context_builder tt (λ q. h)
        (λ builder q.
          option_either StoreIsSettled ServesSettled _ _ services.store h (λ none_there. h)
            (λ s there.
              OnlyReads-IsSettled s _
                (build_context-OnlyReads fts print_float builder.token_budget request s) there))

  written-Settled :
      (request : MemoryPayloadWriteRequest) → ServesSettled (runtime_write_payload request services)
  unfolding runtime_write_payload
  written-Settled request =
      option_either (λ o. Unit) ServesSettled _ _ services.payload_service tt (λ q. h)
        (λ service q. write_payload-Settles request (record service { store = services.store }) h)

  serve-Settled : (call : RuntimeCall) → StoreIsSettled (serve call services).store
  unfolding serve append_event runtime_consolidate search_memory get_stats perform
  serve-Settled (event_appended event) =
      option_either StoreIsSettled ServesSettled _ _ services.store h (λ q. h)
        (λ s q. perform-IsSettled (store_event event) s q)
  serve-Settled (context_built_with fts print_float request) = built-Settled fts print_float request
  serve-Settled (payload_written request) = written-Settled request
  serve-Settled (payload_read uri) = h
  serve-Settled (consolidated request) = consolidated-Settled services.model_client request
  serve-Settled (consolidated_with model request) = consolidated-Settled model request
  serve-Settled (searched fts request) =
      option_either StoreIsSettled ServesSettled _ _ services.store h (λ q. h)
        (λ s q. OnlyReads-IsSettled s _ (search-IsVisible fts request s).0 q)
  serve-Settled stats_read =
      option_either StoreIsSettled ServesSettled _ _ services.store h (λ q. h)
        (λ s q. OnlyReads-IsSettled s _ (get_store_stats-OnlyReads s) q)

-- The store of a runtime stays settled: if it has consistent tables, no open transaction and an
-- engine whose ROLLBACK always succeeds, it has them after any sequence of calls of the runtime
-- (events, contexts, payloads, consolidations with any model, searches and statistics), whichever of
-- them fail.
pub serve_all-IsSettled :
    (calls : List RuntimeCall) (services : RuntimeServices)
    → StoreIsSettled services.store
    → StoreIsSettled (serve_all calls services).store
unfolding serve_all
serve_all-IsSettled [] services h = h
serve_all-IsSettled (call ∷ calls) services h =
    serve_all-IsSettled calls (serve call services) (serve-Settled services h call)
