-- ===== src/Storage/Search/Shows.antt =====
-- The rows that the hits of a search stand for (src/storage/sqlite_store.cpp).
use mathlib.Core.List.{Mem}
use agent_memory_cpp.Prelude.{
  ℕ, ◌≡◌, refl, Bool, true, ◌&&◌, List, reverse, keep_if, any, All, arith,
}
use agent_memory_cpp.Prelude.Int.{ℤ}
use agent_memory_cpp.Prelude.Distinct.{All-mono}
use agent_memory_cpp.Prelude.Everywhere.{All-take, All-keep_if, All-reverse, All-Mem, All-map_to}
use agent_memory_cpp.Prelude.Sort.{All-sort_by}
use agent_memory_cpp.Text.{Text}
use agent_memory_cpp.Types.{MemorySearchHit, MemorySearchRequest}
use agent_memory_cpp.Storage.Tables.{Tables, SummaryRow, EntityRow, RelationRow}
use agent_memory_cpp.Storage.Engine.{Engine}
use agent_memory_cpp.Storage.LongTerm.{is_active_entity, is_active_relation}
use agent_memory_cpp.Storage.Search.Like.{like}
use agent_memory_cpp.Storage.Search.Hits.{
  FullText, summary_hit, entity_hit, relation_hit, apply_fts_score, apply_fallback_score,
}
use agent_memory_cpp.Storage.Search.Rows.{Ranked, fts_rows, like_rows, rank_before, is_summary_of}

pub data HitRow : Type 0 where
  summary_row : SummaryRow → HitRow
  entity_row : EntityRow → HitRow
  relation_row : RelationRow → HitRow

abbrev pub IsStored : Tables → HitRow → Type 0
IsStored t (summary_row row) = Mem row t.summaries
IsStored t (entity_row row) = Mem row t.entities
IsStored t (relation_row row) = Mem row t.relations

-- A summary of the request's agent and session, an active entity or relation of its agent.
abbrev pub is_visible : MemorySearchRequest → HitRow → Bool
is_visible request (summary_row row) = is_summary_of request row
is_visible request (entity_row row) = is_active_entity request.agent_id row
is_visible request (relation_row row) = is_active_relation request.agent_id row

abbrev pub row_hit : Engine → HitRow → MemorySearchHit
row_hit engine (summary_row row) = summary_hit engine row
row_hit engine (entity_row row) = entity_hit engine row
row_hit engine (relation_row row) = relation_hit engine row

-- A hit that stands for a row of the tables which passes a test.
pub record Shows (engine : Engine) (t : Tables) (passes : HitRow → Bool) (hit : MemorySearchHit)
    : Type 0 where
  pub row : HitRow
  pub stored : IsStored t row
  pub passed : passes row ≡ true
  pub same_id : hit.id ≡ (row_hit engine row).id
  pub same_kind : hit.kind ≡ (row_hit engine row).kind
  pub same_content : hit.content ≡ (row_hit engine row).content
  pub same_refs : hit.source_refs ≡ (row_hit engine row).source_refs

-- What a query gives is stored and visible.
module _ {A : Type 0} where
  pub fts_rows-All :
      (P : Ranked A → Type 0) (fts : FullText) (query : Text) (limit : ℕ) (rows : Tables → List A)
      (visible : A → Bool) (columns : A → List Text) (time : A → ℕ) (t : Tables)
      → ((row : A) (rank : ℤ)
          → Mem row (rows t)
          → visible row ≡ true
          → P (record { row = row; rank = rank }))
      → All P (fts_rows fts query limit rows visible columns time t)
  unfolding fts_rows
  fts_rows-All P fts query limit rows visible columns time t h =
      let chosen = keep_if (λ row. visible row && fts.matches query (columns row)) (rows t) in
      let ranked = λ (row : A). P (record { row = row; rank = fts.bm25 t query (columns row) }) in
      let good : All ranked chosen =
        All-mono
          (λ row. Mem row (rows t) × ((visible row && fts.matches query (columns row)) ≡ true))
          ranked chosen (λ row k. h row _ k.0 (ground arith))
          (All-keep_if (λ row. Mem row (rows t)) _ (rows t) (All-Mem (rows t))) in
      All-take P limit _ (
        All-sort_by (rank_before time) P _
          (All-map_to P _ (reverse chosen) (All-reverse ranked chosen good)))

  pub like_rows-All :
      (P : A → Type 0) (pattern : Text) (limit : ℕ) (rows : Tables → List A) (visible : A → Bool)
      (texts : A → List Text) (time : A → ℕ) (t : Tables)
      → ((row : A)
          → Mem row (rows t)
          → (visible row && any (like pattern) (texts row)) ≡ true
          → P row)
      → All P (like_rows pattern limit rows visible texts time t)
  unfolding like_rows
  like_rows-All P pattern limit rows visible texts time t h =
      let chosen = keep_if (λ row. visible row && any (like pattern) (texts row)) (rows t) in
      let good : All P chosen =
        All-mono
          (λ row. Mem row (rows t) × ((visible row && any (like pattern) (texts row)) ≡ true)) P
          chosen (λ row k. h row k.0 k.1)
          (All-keep_if (λ row. Mem row (rows t)) _ (rows t) (All-Mem (rows t))) in
      All-take P limit _ (All-sort_by _ P _ (All-reverse P chosen good))

-- What a hit keeps of its row, whatever score it gets.
keeps_row :
    (engine : Engine) (t : Tables) (passes : HitRow → Bool) (row : HitRow) (hit : MemorySearchHit)
    → IsStored t row
    → passes row ≡ true
    → hit.id ≡ (row_hit engine row).id
    → hit.kind ≡ (row_hit engine row).kind
    → hit.content ≡ (row_hit engine row).content
    → hit.source_refs ≡ (row_hit engine row).source_refs
    → Shows engine t passes hit
keeps_row engine t passes row hit stored passed a b c d = record {
  row = row;
  stored = stored;
  passed = passed;
  same_id = a;
  same_kind = b;
  same_content = c;
  same_refs = d;
}

pub scored-Shows :
    (engine : Engine) (t : Tables) (passes : HitRow → Bool) (fts : FullText) (rank : ℤ)
    (row : HitRow)
    → IsStored t row
    → passes row ≡ true
    → Shows engine t passes (apply_fts_score fts rank (row_hit engine row))
unfolding apply_fts_score
scored-Shows engine t passes fts rank row stored passed =
    keeps_row engine t passes row _ stored passed refl refl refl refl

pub fallback-Shows :
    (engine : Engine) (t : Tables) (passes : HitRow → Bool) (row : HitRow)
    → IsStored t row
    → passes row ≡ true
    → Shows engine t passes (apply_fallback_score (row_hit engine row))
unfolding apply_fallback_score
fallback-Shows engine t passes row stored passed =
    keeps_row engine t passes row _ stored passed refl refl refl refl
