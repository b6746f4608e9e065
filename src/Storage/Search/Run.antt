-- ===== src/Storage/Search/Run.antt =====
-- `SearchLongTermMemory` of src/storage/sqlite_store.cpp: the full-text queries, the LIKE queries
-- that stand in for them, and the result.
use agent_memory_cpp.Prelude.{
  ℕ, true, false, List, [], ◌∷◌, ◌++◌, map, is_empty, Action, if◌then◌else◌,
}
use agent_memory_cpp.Text.{Text, codes}
use agent_memory_cpp.Types.{
  MemoryError, no_error, MemorySearchHit, MemorySearchRequest, MemorySearchStoreResult,
}
use agent_memory_cpp.Storage.Tables.{Tables}
use agent_memory_cpp.Storage.Engine.{
  Engine, MemorySqliteStore, Fetched, not_prepared, broken, complete, fetch, sqlite_error,
  unavailable,
}
use agent_memory_cpp.Storage.Events.{effective_limit}
use agent_memory_cpp.Storage.Search.Query.{fts5_escape_query}
use agent_memory_cpp.Storage.Search.Hits.{
  FullText, apply_fts_score, apply_fallback_score, summary_hit, entity_hit, relation_hit,
  sort_and_limit_search_results,
}
use agent_memory_cpp.Storage.Search.Rows.{
  Ranked, fts_summaries, fts_entities, fts_relations, like_summaries, like_entities, like_relations,
}

-- How far a search has come: the hits so far; a full-text query that has failed, which drops the
-- hits; or the end by an error.
pub data Progress : Type 0 where
  searching : List MemorySearchHit → Progress
  fts_failed : Progress
  stopped : List MemorySearchHit → MemoryError → Progress

abbrev search_error : Text → MemorySqliteStore → MemoryError
search_error context s = sqlite_error (codes "SearchLongTermMemory::" ++ context) s

module _ {A : Type 0} where
  abbrev pub fts_found :
      Text → (A → MemorySearchHit) → List MemorySearchHit → MemorySqliteStore → Fetched A → Progress
  fts_found context hit hits s not_prepared =
      stopped hits (search_error (context ++ codes "_prepare") s)
  fts_found context hit hits s (broken rows) = fts_failed
  fts_found context hit hits s (complete rows) = searching (hits ++ map hit rows)

  unfoldable pub fts_step :
      Text
      → (Tables → List A)
      → (Engine → A → MemorySearchHit)
      → Progress
      → MemorySqliteStore
      → Progress × MemorySqliteStore
  unfolding fetch
  fts_step context rows hit (searching hits) s =
      let (found, t) = fetch rows s in (fts_found context (hit t.engine) hits t found, t)
  fts_step context rows hit fts_failed s = (fts_failed, s)
  fts_step context rows hit (stopped hits e) s = (stopped hits e, s)

  abbrev pub like_found :
      Text → (A → MemorySearchHit) → List MemorySearchHit → MemorySqliteStore → Fetched A → Progress
  like_found context hit hits s not_prepared =
      stopped hits (search_error (context ++ codes "_prepare") s)
  like_found context hit hits s (broken rows) =
      stopped (hits ++ map hit rows) (search_error (context ++ codes "_step") s)
  like_found context hit hits s (complete rows) = searching (hits ++ map hit rows)

  unfoldable pub like_step :
      Text
      → (Tables → List A)
      → (Engine → A → MemorySearchHit)
      → Progress
      → MemorySqliteStore
      → Progress × MemorySqliteStore
  unfolding fetch
  like_step context rows hit (searching hits) s =
      let (found, t) = fetch rows s in (like_found context (hit t.engine) hits t found, t)
  like_step context rows hit fts_failed s = (fts_failed, s)
  like_step context rows hit (stopped hits e) s = (stopped hits e, s)

-- The hit of a row of a full-text query, and of a LIKE query.
unfoldable pub fts_hit :
    {A : Type 0} → FullText → (Engine → A → MemorySearchHit) → Engine → Ranked A → MemorySearchHit
unfolding apply_fts_score
fts_hit fts hit engine ranked = apply_fts_score fts ranked.rank (hit engine ranked.row)

unfoldable pub like_hit :
    {A : Type 0} → (Engine → A → MemorySearchHit) → Engine → A → MemorySearchHit
unfolding apply_fallback_score
like_hit hit engine row = apply_fallback_score (hit engine row)

-- The blocks under `!ftsQuery.empty()` and `!ftsFailed`.
unfoldable pub fts_search :
    FullText → MemorySearchRequest → Text → ℕ → MemorySqliteStore → Progress × MemorySqliteStore
unfolding fts_step fts_hit fts_summaries fts_entities fts_relations summary_hit entity_hit
    relation_hit
fts_search fts request query limit s =
    let (a, t) =
      fts_step (codes "fts_summaries") (fts_summaries fts request query limit)
        (fts_hit fts summary_hit) (searching []) s in
    let (b, u) =
      fts_step (codes "fts_entities") (fts_entities fts request query limit)
        (fts_hit fts entity_hit) a t in
    let searched =
      fts_step (codes "fts_relations") (fts_relations fts request query limit)
        (fts_hit fts relation_hit) b u in
    if is_empty query then (fts_failed, s) else searched

-- The block under `results.empty()`.
unfoldable pub like_search :
    MemorySearchRequest → ℕ → MemorySqliteStore → Progress × MemorySqliteStore
unfolding like_step like_hit like_summaries like_entities like_relations summary_hit entity_hit
    relation_hit
like_search request limit s =
    let (a, t) =
      like_step (codes "like_summaries") (like_summaries request limit) (like_hit summary_hit)
        (searching []) s in
    let (b, u) =
      like_step (codes "like_entities") (like_entities request limit) (like_hit entity_hit) a t in
    like_step (codes "like_relations") (like_relations request limit) (like_hit relation_hit) b u

-- The LIKE queries run where there are no hits and no error.
unfoldable pub fall_back :
    MemorySearchRequest → ℕ → Progress → MemorySqliteStore → Progress × MemorySqliteStore
unfolding like_search
fall_back request limit fts_failed s = like_search request limit s
fall_back request limit (stopped hits e) s = (stopped hits e, s)
fall_back request limit (searching []) s = like_search request limit s
fall_back request limit (searching (hit ∷ hits)) s = (searching (hit ∷ hits), s)

abbrev pub search_stopped : List MemorySearchHit → MemoryError → MemorySearchStoreResult
search_stopped hits e = record { succeeded = false; results = hits; error = e }

abbrev pub search_found : List MemorySearchHit → MemorySearchStoreResult
search_found hits = record { succeeded = true; results = hits; error = no_error }

-- `SortAndLimitSearchResults(results, limit)` and the result; no search ends as `fts_failed`.
unfoldable pub search_result : ℕ → Progress → MemorySearchStoreResult
unfolding sort_and_limit_search_results
search_result limit (searching hits) = search_found (sort_and_limit_search_results limit hits)
search_result limit fts_failed = search_found []
search_result limit (stopped hits e) = search_stopped hits e

unfoldable pub search_long_term_memory :
    FullText → MemorySearchRequest → Action MemorySqliteStore MemorySearchStoreResult
unfolding fts5_escape_query fts_search fall_back search_result
search_long_term_memory fts request s =
    let limit = effective_limit request.limit 10 in
    let (first, t) = fts_search fts request (fts5_escape_query request.query) limit s in
    let (last, u) = fall_back request limit first t in
    if s.opened
    then (if is_empty request.query then (search_found [], s) else (search_result limit last, u))
    else (search_stopped [] unavailable, s)
