-- ===== src/Storage/Search/Rows.antt =====
-- The six queries of `SearchLongTermMemory` (src/storage/sqlite_store.cpp).
use agent_memory_cpp.Prelude.{
  ℕ, Bool, not, ◌&&◌, ◌||◌, List, [], ◌∷◌, map, reverse, take, keep_if, any, ltb,
}
use agent_memory_cpp.Prelude.Int.{lt_int, ℤ}
use agent_memory_cpp.Prelude.Sort.{sort_by}
use agent_memory_cpp.Text.{Text}
use agent_memory_cpp.Types.{MemorySearchRequest}
use agent_memory_cpp.Storage.Tables.{Tables, SummaryRow, EntityRow, RelationRow}
use agent_memory_cpp.Storage.Events.{is_in_session}
use agent_memory_cpp.Storage.LongTerm.{is_active_entity, is_active_relation}
use agent_memory_cpp.Storage.Search.Like.{like, search_pattern}
use agent_memory_cpp.Storage.Search.Hits.{FullText}

-- A row and its rank.
pub record Ranked (A : Type 0) : Type 0 where
  pub row : A
  pub rank : ℤ

-- The columns of the three full-text tables.
abbrev pub summary_columns : SummaryRow → List Text
summary_columns row = row.level ∷ row.topic ∷ row.summary ∷ []

abbrev pub entity_columns : EntityRow → List Text
entity_columns row = row.kind ∷ row.name ∷ row.summary ∷ []

abbrev pub relation_columns : RelationRow → List Text
relation_columns row = row.from_entity ∷ row.relation ∷ row.to_entity ∷ []

-- What the LIKE queries look at.
abbrev pub summary_texts : SummaryRow → List Text
summary_texts row = row.topic ∷ row.summary ∷ []

abbrev pub entity_texts : EntityRow → List Text
entity_texts row = row.id ∷ row.kind ∷ row.name ∷ row.summary ∷ []

-- ORDER BY rank ASC, updated_at DESC; rows that agree keep their order.
unfoldable pub rank_before : {A : Type 0} → (A → ℕ) → Ranked A → Ranked A → Bool
rank_before time a b =
    lt_int a.rank b.rank || (not (lt_int b.rank a.rank) && ltb (time b.row) (time a.row))

-- The rows of a full-text query: those that are visible and MATCH, by rank, time stamp and row id.
unfoldable pub fts_rows :
    {A : Type 0}
    → FullText
    → Text
    → ℕ
    → (Tables → List A)
    → (A → Bool)
    → (A → List Text)
    → (A → ℕ)
    → Tables
    → List (Ranked A)
unfolding keep_if rank_before sort_by take
fts_rows fts query limit rows visible columns time t =
    let chosen = keep_if (λ row. visible row && fts.matches query (columns row)) (rows t) in
    let ranked =
      map (λ row. record { row = row; rank = fts.bm25 t query (columns row) }) (reverse chosen) in
    take limit (sort_by (rank_before time) ranked)

abbrev newer : {A : Type 0} → (A → ℕ) → A → A → Bool
newer time a b = ltb (time b) (time a)

-- The rows of a LIKE query: those that are visible and have a text like the pattern.
unfoldable pub like_rows :
    {A : Type 0}
    → Text
    → ℕ
    → (Tables → List A)
    → (A → Bool)
    → (A → List Text)
    → (A → ℕ)
    → Tables
    → List A
unfolding keep_if any like sort_by take
like_rows pattern limit rows visible texts time t =
    let chosen = keep_if (λ row. visible row && any (like pattern) (texts row)) (rows t) in
    take limit (sort_by (newer time) (reverse chosen))

-- s.agent_id = ? AND (? = '' OR s.session_id = ?)
abbrev pub is_summary_of : MemorySearchRequest → SummaryRow → Bool
is_summary_of request row =
    is_in_session request.agent_id request.session_id row.agent_id row.session_id

-- The three full-text queries.
unfoldable pub fts_summaries :
    FullText → MemorySearchRequest → Text → ℕ → Tables → List (Ranked SummaryRow)
unfolding fts_rows is_in_session
fts_summaries fts request query limit =
    fts_rows fts query limit (λ (t : Tables). t.summaries) (is_summary_of request) summary_columns
      (λ (row : SummaryRow). row.updated_at)

unfoldable pub fts_entities :
    FullText → MemorySearchRequest → Text → ℕ → Tables → List (Ranked EntityRow)
unfolding fts_rows is_active_entity
fts_entities fts request query limit =
    fts_rows fts query limit (λ (t : Tables). t.entities) (is_active_entity request.agent_id)
      entity_columns (λ (row : EntityRow). row.updated_at)

unfoldable pub fts_relations :
    FullText → MemorySearchRequest → Text → ℕ → Tables → List (Ranked RelationRow)
unfolding fts_rows is_active_relation
fts_relations fts request query limit =
    fts_rows fts query limit (λ (t : Tables). t.relations) (is_active_relation request.agent_id)
      relation_columns (λ (row : RelationRow). row.updated_at)

-- The three LIKE queries.
unfoldable pub like_summaries : MemorySearchRequest → ℕ → Tables → List SummaryRow
unfolding like_rows is_in_session search_pattern
like_summaries request limit =
    like_rows (search_pattern request.query) limit (λ (t : Tables). t.summaries)
      (is_summary_of request) summary_texts (λ (row : SummaryRow). row.updated_at)

unfoldable pub like_entities : MemorySearchRequest → ℕ → Tables → List EntityRow
unfolding like_rows is_active_entity search_pattern
like_entities request limit =
    like_rows (search_pattern request.query) limit (λ (t : Tables). t.entities)
      (is_active_entity request.agent_id) entity_texts (λ (row : EntityRow). row.updated_at)

unfoldable pub like_relations : MemorySearchRequest → ℕ → Tables → List RelationRow
unfolding like_rows is_active_relation search_pattern
like_relations request limit =
    like_rows (search_pattern request.query) limit (λ (t : Tables). t.relations)
      (is_active_relation request.agent_id) relation_columns (λ (row : RelationRow). row.updated_at)
