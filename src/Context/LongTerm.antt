-- ===== src/Context/LongTerm.antt =====
-- `SelectLongTermMemory` and `RenderLongTermMemory` of src/core/context_builder.cpp.
use agent_memory_cpp.Prelude.{
  Bool, true, false, List, [], ◌∷◌, is_empty, any, keep_if, if◌then◌else◌,
}
use agent_memory_cpp.Prelude.Int.{ℤ, is_positive}
use agent_memory_cpp.Text.{Text, codes, text_eq, mem_text}
use agent_memory_cpp.Json.{Float}
use agent_memory_cpp.Types.{
  MemoryError, no_error, MemoryEntity, MemoryRelation, LongTermMemorySnapshot, empty_snapshot,
  MemorySearchHit, MemorySearchRequest,
}
use agent_memory_cpp.Storage.Engine.{MemorySqliteStore}
use agent_memory_cpp.Storage.LongTerm.{load_long_term_memory}
use agent_memory_cpp.Storage.Search.Hits.{FullText}
use agent_memory_cpp.Storage.Search.Run.{search_long_term_memory}
use agent_memory_cpp.Context.{
  MemoryContextRequest, relation_id_matches, collect_citations, collect_snapshot_citations,
}
use agent_memory_cpp.Context.Package.{format_long_term_snapshot, format_search_results}

pub record SelectedLongTermMemory : Type 0 where
  pub succeeded : Bool
  pub snapshot : LongTermMemorySnapshot
  pub search_results : List MemorySearchHit
  pub used_search : Bool
  pub error : MemoryError

abbrev pub nothing_selected : SelectedLongTermMemory
nothing_selected = record {
  succeeded = true;
  snapshot = empty_snapshot;
  search_results = [];
  used_search = false;
  error = no_error;
}

-- The ids of the results of one type.
unfoldable pub ids_of_kind : Text → List MemorySearchHit → List Text
unfolding text_eq
ids_of_kind kind [] = []
ids_of_kind kind (hit ∷ hits) =
    let rest = ids_of_kind kind hits in if text_eq hit.kind kind then hit.id ∷ rest else rest

-- The entities and relations of the snapshot that the search has found.
unfoldable pub narrow_snapshot :
    List MemorySearchHit → LongTermMemorySnapshot → LongTermMemorySnapshot
unfolding ids_of_kind keep_if mem_text any relation_id_matches
narrow_snapshot hits snapshot =
    let entity_ids = ids_of_kind (codes "entity") hits in
    let relation_ids = ids_of_kind (codes "relation") hits in
    record {
      summaries = [];
      entities =
          keep_if (λ (entity : MemoryEntity). mem_text entity.id entity_ids) snapshot.entities;
      relations =
          keep_if (λ (relation : MemoryRelation). any (relation_id_matches relation) relation_ids)
            snapshot.relations;
    }

unfoldable pub search_request : MemoryContextRequest → ℤ → MemorySearchRequest
search_request request limit = record {
  agent_id = request.agent_id;
  session_id = request.session_id;
  query = request.query;
  limit = limit;
}

-- Without a query: the snapshot.
unfoldable pub select_snapshot :
    MemoryContextRequest → ℤ → MemorySqliteStore → SelectedLongTermMemory × MemorySqliteStore
unfolding load_long_term_memory
select_snapshot request limit s =
    let (loaded, t) = load_long_term_memory request.agent_id limit request.session_id s in
    (
      if loaded.succeeded
          then record nothing_selected { snapshot = loaded.snapshot }
          else record nothing_selected { succeeded = false; error = loaded.error },
      t,
    )

-- With one: the results of the search, and what they name of the snapshot.
unfoldable pub select_found :
    FullText
    → MemoryContextRequest
    → ℤ
    → MemorySqliteStore
    → SelectedLongTermMemory × MemorySqliteStore
unfolding load_long_term_memory search_long_term_memory search_request narrow_snapshot
select_found fts request limit s =
    let (found, t) = search_long_term_memory fts (search_request request limit) s in
    let (loaded, u) = load_long_term_memory request.agent_id limit request.session_id t in
    let searched = record nothing_selected { search_results = found.results; used_search = true } in
    if found.succeeded
    then (
      if loaded.succeeded
          then record searched { snapshot = narrow_snapshot found.results loaded.snapshot }
          else record searched { succeeded = false; error = loaded.error },
      u,
    )
    else (record nothing_selected { succeeded = false; error = found.error }, t)

-- `SelectLongTermMemory`, with a store.
unfoldable pub select_long_term_memory :
    FullText
    → MemoryContextRequest
    → ℤ
    → MemorySqliteStore
    → SelectedLongTermMemory × MemorySqliteStore
unfolding select_snapshot select_found
select_long_term_memory fts request limit s =
    if is_positive limit
    then (if is_empty request.query
        then select_snapshot request limit s
        else select_found fts request limit s)
    else (nothing_selected, s)

-- `CollectSearchCitations`
unfoldable pub collect_search_citations : List Text → List MemorySearchHit → List Text
unfolding collect_citations
collect_search_citations = collect_citations (λ (hit : MemorySearchHit). hit.source_refs)

-- `RenderLongTermMemory`: the text, and the citations that it adds.
unfoldable pub render_long_term_memory :
    (Float → Text) → SelectedLongTermMemory → List Text → Text × List Text
unfolding collect_snapshot_citations collect_search_citations format_search_results
    format_long_term_snapshot
render_long_term_memory print_float selected citations =
    let cited = collect_snapshot_citations citations selected.snapshot in
    if selected.used_search
    then (
      format_search_results selected.search_results,
      collect_search_citations cited selected.search_results,
    )
    else (format_long_term_snapshot print_float selected.snapshot, cited)
