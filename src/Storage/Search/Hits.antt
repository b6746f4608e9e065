-- ===== src/Storage/Search/Hits.antt =====
-- The hits of `SearchLongTermMemory` (src/storage/sqlite_store.cpp): their scores, their order and
-- what they hold of a row. The full-text index of SQLite and the floating-point arithmetic of the
-- scores are parameters.
use agent_memory_cpp.Prelude.{
  ℕ, Bool, true, false, ◌&&◌, List, [], ◌∷◌, ◌++◌, take, length, ltb, ◌==◌, ◌+◌, if◌then◌else◌,
}
use agent_memory_cpp.Prelude.Int.{ℤ, pos, negsuc, to_int32}
use agent_memory_cpp.Prelude.Sort.{sort_by}
use agent_memory_cpp.Text.{Text, codes, text_eq}
use agent_memory_cpp.Json.{Float, number, string, empty_object, with_member, set_member}
use agent_memory_cpp.Types.{MemorySearchHit}
use agent_memory_cpp.Storage.Tables.{Tables, SummaryRow, EntityRow, RelationRow}
use agent_memory_cpp.Storage.Engine.{Engine, parse_json_column, parse_source_refs_column}
use agent_memory_cpp.Storage.Cursors.{int_to_string}

pub record FullText : Type 0 where
  -- The indexed columns of a row MATCH a query.
  pub matches : Text → List Text → Bool
  -- bm25() of a row, by its columns, among the rows of the tables.
  pub bm25 : Tables → Text → List Text → ℤ
  -- What `double` arithmetic gives, and its rounding to `float` in a product.
  pub add : Float → Float → Float
  pub divide : Float → Float → Float
  pub multiply : Float → Float → Float

unfoldable pub type_weight : Text → Float
unfolding text_eq
type_weight kind =
    if text_eq kind (codes "summary")
    then 1000
    else if text_eq kind (codes "entity")
    then 950
    else 900

unfoldable pub fallback_score : Text → Float
unfolding text_eq
fallback_score kind =
    if text_eq kind (codes "summary")
    then 300
    else if text_eq kind (codes "entity")
    then 250
    else 200

-- std::max(0.0, -rank)
abbrev raw_rank : ℤ → Float
raw_rank (pos n) = 0
raw_rank (negsuc n) = n + 1

unfoldable pub apply_fts_score : FullText → ℤ → MemorySearchHit → MemorySearchHit
unfolding type_weight set_member
apply_fts_score fts rank hit =
    let raw = raw_rank rank in
    let normalized = if ltb 0 raw then fts.divide raw (fts.add raw 1000) else 0 in
    let weight = type_weight hit.kind in
    record hit {
      score = fts.multiply normalized weight;
      metadata = with_member (codes "typeWeight") (number weight) (
          with_member (codes "rawRank") (number raw)
            (with_member (codes "scoreSource") (string (codes "fts_bm25")) hit.metadata));
    }

unfoldable pub apply_fallback_score : MemorySearchHit → MemorySearchHit
unfolding fallback_score set_member
apply_fallback_score hit = record hit {
  score = fallback_score hit.kind;
  metadata = with_member (codes "scoreSource") (string (codes "like_fallback")) hit.metadata;
}

-- `std::string::operator<`, by unsigned bytes.
unfoldable pub text_lt : Text → Text → Bool
text_lt s [] = false
text_lt [] (d ∷ ds) = true
text_lt (c ∷ cs) (d ∷ ds) = if c == d then text_lt cs ds else ltb c d

-- The comparison of `SortAndLimitSearchResults`.
unfoldable pub ranks_before : MemorySearchHit → MemorySearchHit → Bool
unfolding text_lt
ranks_before lhs rhs =
    if lhs.score == rhs.score then text_lt lhs.id rhs.id else ltb rhs.score lhs.score

-- limit < value
abbrev exceeds : ℤ → ℕ → Bool
exceeds (pos n) limit = ltb limit n
exceeds (negsuc n) limit = false

-- Hits that agree on score and id keep their order, which std::sort leaves open.
unfoldable pub sort_and_limit_search_results : ℕ → List MemorySearchHit → List MemorySearchHit
unfolding sort_by ranks_before take to_int32
sort_and_limit_search_results limit hits =
    let sorted = sort_by ranks_before hits in
    if ltb 0 limit && exceeds (to_int32 (length hits)) limit then take limit sorted else sorted

unfoldable pub summary_hit : Engine → SummaryRow → MemorySearchHit
unfolding parse_source_refs_column to_int32
summary_hit engine row = record {
  id = codes "summary:" ++ int_to_string (to_int32 row.id);
  kind = codes "summary";
  content = row.level ++ codes ": " ++ row.topic ++ codes ": " ++ row.summary;
  score = 0;
  source_refs = parse_source_refs_column engine row.source_refs_json;
  metadata = empty_object;
}

unfoldable pub entity_hit : Engine → EntityRow → MemorySearchHit
unfolding parse_source_refs_column parse_json_column
entity_hit engine row = record {
  id = row.id;
  kind = codes "entity";
  content = row.kind ++ codes ": " ++ row.name ++ codes ": " ++ row.summary;
  score = 0;
  source_refs = parse_source_refs_column engine row.source_refs_json;
  metadata = parse_json_column engine row.metadata_json;
}

unfoldable pub relation_hit : Engine → RelationRow → MemorySearchHit
unfolding parse_source_refs_column to_int32
relation_hit engine row = record {
  id = codes "relation:" ++ int_to_string (to_int32 row.id);
  kind = codes "relation";
  content = row.from_entity ++ codes " " ++ row.relation ++ codes " " ++ row.to_entity;
  score = 0;
  source_refs = parse_source_refs_column engine row.source_refs_json;
  metadata = empty_object;
}
