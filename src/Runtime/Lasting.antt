-- ===== src/Runtime/Lasting.antt =====
-- Payload files through sequences of calls of a runtime (src/core/builtin_memory_runtime.cpp).
use agent_memory_cpp.Prelude.{
  ℕ, ◌≡◌, refl, sym, ap, subst, ◌∙◌, true, false, Option, none, some, List, [], ◌∷◌, if_either,
  option_either,
}
use agent_memory_cpp.Text.{Text, codes}
use agent_memory_cpp.Json.{Float}
use agent_memory_cpp.Types.{MemoryConsolidationRequest}
use agent_memory_cpp.Storage.Search.Hits.{FullText}
use agent_memory_cpp.Context.{MemoryContextRequest}
use agent_memory_cpp.Consolidation.Service.{Processor}
use agent_memory_cpp.Payload.Disk.{FileSystem, find_file, located}
use agent_memory_cpp.Payload.Cleanup.{entry_name, is_temp_name}
use agent_memory_cpp.Payload.Names.{
  MemoryPayloadWriteRequest, MemoryPayloadWriteResult, MemoryPayloadReadResult, PayloadService,
  payload_directory,
}
use agent_memory_cpp.Payload.Write.{write_payload}
use agent_memory_cpp.Payload.Read.{read_failed, read_payload, drop_scheme}
use agent_memory_cpp.Payload.Durable.{Stays, write_payload-Stays}
use agent_memory_cpp.Payload.RoundTrip.{
  IsReadable, Offloaded, read_back, write_payload-IfOffloaded, read_payload_found, offloaded_full,
}
use agent_memory_cpp.Runtime.{RuntimeServices, append_event, consolidate_with_model}
use agent_memory_cpp.Runtime.Calls.{
  build_for, runtime_build_context, runtime_write_payload, runtime_read_payload,
  runtime_consolidate, search_memory, get_stats,
}
use agent_memory_cpp.Runtime.Served.{
  RuntimeCall, event_appended, context_built_with, payload_written, payload_read, consolidated,
  consolidated_with, searched, stats_read, serve, serve_all,
}

module _ (system : FileSystem) (root name content : Text) (stats : (n : ℕ) → system.stats n ≡ true)
    (lasting : is_temp_name (entry_name (located system root) name) ≡ false) where
  -- The payload service, if there is one, has the file.
  abbrev FileStays : Option PayloadService → Type 0
  FileStays none = Unit
  FileStays (some service) = Stays system root name content service

  abbrev Serves : {A : Type 0} → A × RuntimeServices → Type 0
  Serves r = FileStays r.1.payload_service

  written-FileStays :
      (request : MemoryPayloadWriteRequest) (services : RuntimeServices)
      → FileStays services.payload_service
      → Serves (runtime_write_payload request services)
  unfolding runtime_write_payload payload_directory
  written-FileStays request services stays =
      option_either FileStays Serves _ _ services.payload_service stays (λ q. stays)
        (λ service q.
          write_payload-Stays system root name content stats lasting request
            (record service { store = services.store })
            (record { rooted = q.rooted; kept = q.kept }))

  -- The calls that work on the store leave the payload service as it is.
  module _ (services : RuntimeServices) (stays : FileStays services.payload_service) where
    consolidated-FileStays :
        (model : Option Processor) (request : MemoryConsolidationRequest)
        → Serves (consolidate_with_model model request services)
    unfolding consolidate_with_model
    consolidated-FileStays model request =
        option_either (λ o. Unit) Serves _ _ services.store tt (λ q. stays)
          (λ s q.
            if_either Serves services.has_consolidation_service _ _ (λ on. stays) (λ off. stays))

    built-FileStays :
        (fts : FullText) (print_float : Float → Text) (request : MemoryContextRequest)
        → Serves (runtime_build_context fts print_float request services)
    unfolding runtime_build_context build_for
    built-FileStays fts print_float request =
        option_either (λ o. Unit) Serves _ _ services.context_builder tt (λ q. stays)
          (λ builder q.
            option_either (λ o. Unit) Serves _ _ services.store tt (λ none_there. stays)
              (λ s there. stays))

    serve-FileStays : (call : RuntimeCall) → FileStays (serve call services).payload_service
    unfolding serve append_event runtime_consolidate search_memory get_stats
    serve-FileStays (event_appended event) =
        option_either (λ o. Unit) Serves _ _ services.store tt (λ q. stays) (λ s q. stays)
    serve-FileStays (context_built_with fts print_float request) =
        built-FileStays fts print_float request
    serve-FileStays (payload_written request) = written-FileStays request services stays
    serve-FileStays (payload_read uri) = stays
    serve-FileStays (consolidated request) = consolidated-FileStays services.model_client request
    serve-FileStays (consolidated_with model request) = consolidated-FileStays model request
    serve-FileStays (searched fts request) =
        option_either (λ o. Unit) Serves _ _ services.store tt (λ q. stays) (λ s q. stays)
    serve-FileStays stats_read =
        option_either (λ o. Unit) Serves _ _ services.store tt (λ q. stays) (λ s q. stays)

  serve_all-FileStays :
      (calls : List RuntimeCall) (services : RuntimeServices)
      → FileStays services.payload_service
      → FileStays (serve_all calls services).payload_service
  unfolding serve_all
  serve_all-FileStays [] services stays = stays
  serve_all-FileStays (call ∷ calls) services stays =
      serve_all-FileStays calls (serve call services) (serve-FileStays services stays call)

-- What the service behind a write holds of a file, and after it any service with the same files.
Offloaded-Stays :
    (request : MemoryPayloadWriteRequest) (written : MemoryPayloadWriteResult × PayloadService)
    → Offloaded request written
    → Stays written.1.disk.system
        (payload_directory written.1)
        (located written.1.disk.system (drop_scheme written.0.payload.uri))
        request.content
        written.1
Offloaded-Stays request written found = record {
  rooted = refl;
  kept = record {
    same = refl;
    held =
        ap (λ p. find_file (located written.1.disk.system (drop_scheme p)) written.1.disk.files)
          found.uri
        ∙ found.held;
  };
}

Stays-found :
    (system : FileSystem) (root path content : Text) (service : PayloadService)
    → Stays system root (located system path) content service
    → find_file (located service.disk.system path) service.disk.files ≡ some content
Stays-found system root path content service stays =
    ap (λ (fs : FileSystem). find_file (located fs path) service.disk.files) stays.kept.same
    ∙ stays.kept.held

-- A payload lasts: if WritePayload has offloaded a content and a runtime goes on with the service
-- behind this write, then after any sequence of calls of the runtime, of which any may fail,
-- ReadPayload of the reference gives exactly the content. The conditions: queries of a file's status
-- do not fail; the name of the file is not that of a temporary file; and at the end the reference
-- resolves to a name below the payload directory, and opening, sizing and reading work.
pub read-serve_all :
    (request : MemoryPayloadWriteRequest) (service after : PayloadService)
    (services : RuntimeServices) (calls : List RuntimeCall)
    → (write_payload request service).0.offloaded ≡ true
    → services.payload_service ≡ some (write_payload request service).1
    → ((n : ℕ) → (write_payload request service).1.disk.system.stats n ≡ true)
    → is_temp_name (
        entry_name
          (located
            (write_payload request service).1.disk.system
            (payload_directory (write_payload request service).1))
          (located
            (write_payload request service).1.disk.system
            (drop_scheme (write_payload request service).0.payload.uri)))
      ≡ false
    → (serve_all calls services).payload_service ≡ some after
    → IsReadable after (write_payload request service).0.payload.uri
    → runtime_read_payload (write_payload request service).0.payload.uri (serve_all calls services)
      ≡ read_back request.content
unfolding runtime_read_payload
read-serve_all request service after services calls offloaded held stats lasting ends readable =
    let written = (write_payload request service).1 in
    let uri = (write_payload request service).0.payload.uri in
    let found = (write_payload-IfOffloaded request service).found offloaded in
    let system = written.disk.system in
    let root = payload_directory written in
    let name = located system (drop_scheme uri) in
    let stays = subst (FileStays system root name request.content stats lasting) ends (
      serve_all-FileStays system root name request.content stats lasting calls services (
        subst (FileStays system root name request.content stats lasting) (sym held)
          (Offloaded-Stays request (write_payload request service) found))) in
    let kept =
      subst
        (λ u.
          find_file (located after.disk.system (drop_scheme u)) after.disk.files
          ≡ some request.content)
        found.uri (Stays-found system root (drop_scheme uri) request.content after stays) in
    ap (λ o. answer uri o) ends
    ∙ ap (λ u. read_payload u after) found.uri
    ∙ read_payload_found after found.path request.content
        (subst (IsReadable after) found.uri readable) kept
        (offloaded_full request service offloaded)
  where
    answer : Text → Option PayloadService → MemoryPayloadReadResult
    answer uri none = read_failed (codes "payload service unavailable")
    answer uri (some s) = read_payload uri s
