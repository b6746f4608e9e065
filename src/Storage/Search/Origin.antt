-- ===== src/Storage/Search/Origin.antt =====
-- Where the hits of a search come from (src/storage/sqlite_store.cpp).
use agent_memory_cpp.Prelude.{ℕ, Bool, ◌&&◌, List, [], any, is_empty}
use agent_memory_cpp.Text.{Text, codes}
use agent_memory_cpp.Types.{MemorySearchHit, MemorySearchRequest}
use agent_memory_cpp.Storage.Tables.{Tables, SummaryRow, EntityRow, RelationRow}
use agent_memory_cpp.Storage.Engine.{MemorySqliteStore}
use agent_memory_cpp.Storage.Reads.{reads_nothing}
use agent_memory_cpp.Storage.LongTerm.{is_active_entity, is_active_relation}
use agent_memory_cpp.Storage.Search.Like.{like, search_pattern}
use agent_memory_cpp.Storage.Search.Hits.{FullText, summary_hit, entity_hit, relation_hit}
use agent_memory_cpp.Storage.Search.Rows.{
  summary_columns, entity_columns, is_summary_of, summary_texts, entity_texts, relation_columns,
  fts_summaries, fts_entities, fts_relations, like_summaries, like_entities, like_relations,
}
use agent_memory_cpp.Storage.Search.Run.{
  searching, fts_failed, fts_hit, like_hit, fts_search, like_search,
}
use agent_memory_cpp.Storage.Search.Shows.{
  HitRow, summary_row, entity_row, relation_row, is_visible, Shows, fts_rows-All, like_rows-All,
  scored-Shows, fallback-Shows,
}
use agent_memory_cpp.Storage.Search.Steps.{
  StepKeeps, fts_step-after, like_step-after, nothing_yet, either_step,
}

module _ (fts : FullText) (request : MemorySearchRequest) (s : MemorySqliteStore) where
  -- The hits of the full-text queries stand for visible rows.
  abbrev pub IsVisibleHit : MemorySearchHit → Type 0
  IsVisibleHit = Shows s.engine s.tables (is_visible request)

  pub fts_search-StepKeeps :
      (query : Text) (limit : ℕ) → StepKeeps IsVisibleHit s (fts_search fts request query limit s)
  unfolding fts_search fts_summaries fts_entities fts_relations fts_hit
  fts_search-StepKeeps query limit =
      let P = IsVisibleHit in
      let first =
        fts_step-after P (codes "fts_summaries") (fts_summaries fts request query limit)
          (fts_hit fts summary_hit) s
          (fts_rows-All (λ r. P (fts_hit fts summary_hit s.engine r)) fts query limit
            (λ (t : Tables). t.summaries) (is_summary_of request) summary_columns
            (λ (row : SummaryRow). row.updated_at) s.tables
            (λ row rank.
              scored-Shows s.engine s.tables (is_visible request) fts rank (summary_row row)))
          (searching []) s (nothing_yet P s) in
      let second =
        fts_step-after P (codes "fts_entities") (fts_entities fts request query limit)
          (fts_hit fts entity_hit) s
          (fts_rows-All (λ r. P (fts_hit fts entity_hit s.engine r)) fts query limit
            (λ (t : Tables). t.entities) (is_active_entity request.agent_id) entity_columns
            (λ (row : EntityRow). row.updated_at) s.tables
            (λ row rank.
              scored-Shows s.engine s.tables (is_visible request) fts rank (entity_row row)))
          _ _ first in
      let third =
        fts_step-after P (codes "fts_relations") (fts_relations fts request query limit)
          (fts_hit fts relation_hit) s
          (fts_rows-All (λ r. P (fts_hit fts relation_hit s.engine r)) fts query limit
            (λ (t : Tables). t.relations) (is_active_relation request.agent_id) relation_columns
            (λ (row : RelationRow). row.updated_at) s.tables
            (λ row rank.
              scored-Shows s.engine s.tables (is_visible request) fts rank (relation_row row)))
          _ _ second in
      either_step P s (is_empty query) (fts_failed, s) _
        (record { reads = reads_nothing s; all = tt }) third

-- What a row is found by: the texts that the LIKE queries look at.
abbrev pub searched_texts : HitRow → List Text
searched_texts (summary_row row) = summary_texts row
searched_texts (entity_row row) = entity_texts row
searched_texts (relation_row row) = relation_columns row

abbrev pub like_query : MemorySearchRequest → HitRow → Bool
like_query request row =
    is_visible request row && any (like (search_pattern request.query)) (searched_texts row)

module _ (request : MemorySearchRequest) (s : MemorySqliteStore) where
  abbrev pub IsLikeHit : MemorySearchHit → Type 0
  IsLikeHit = Shows s.engine s.tables (like_query request)

  pub like_search-StepKeeps : (limit : ℕ) → StepKeeps IsLikeHit s (like_search request limit s)
  unfolding like_search like_summaries like_entities like_relations like_hit
  like_search-StepKeeps limit =
      let P = IsLikeHit in
      let first =
        like_step-after P (codes "like_summaries") (like_summaries request limit)
          (like_hit summary_hit) s
          (like_rows-All (λ r. P (like_hit summary_hit s.engine r)) (search_pattern request.query)
            limit (λ (t : Tables). t.summaries) (is_summary_of request) summary_texts
            (λ (row : SummaryRow). row.updated_at) s.tables
            (λ row. fallback-Shows s.engine s.tables (like_query request) (summary_row row)))
          (searching []) s (nothing_yet P s) in
      let second =
        like_step-after P (codes "like_entities") (like_entities request limit)
          (like_hit entity_hit) s
          (like_rows-All (λ r. P (like_hit entity_hit s.engine r)) (search_pattern request.query)
            limit (λ (t : Tables). t.entities) (is_active_entity request.agent_id) entity_texts
            (λ (row : EntityRow). row.updated_at) s.tables
            (λ row. fallback-Shows s.engine s.tables (like_query request) (entity_row row)))
          _ _ first in
      like_step-after P (codes "like_relations") (like_relations request limit)
        (like_hit relation_hit) s
        (like_rows-All (λ r. P (like_hit relation_hit s.engine r)) (search_pattern request.query)
          limit (λ (t : Tables). t.relations) (is_active_relation request.agent_id) relation_columns
          (λ (row : RelationRow). row.updated_at) s.tables
          (λ row. fallback-Shows s.engine s.tables (like_query request) (relation_row row)))
        _ _ second
