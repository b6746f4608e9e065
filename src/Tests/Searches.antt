-- ===== src/Tests/Searches.antt =====
-- Inputs for the theorems on search.
use agent_memory_cpp.Prelude.{
  ◌≡◌, refl, true, false, none, List, [], ◌∷◌, map, arith, length, ◌&&◌, any, All, ℕ, ◌+◌, ◌*◌, ◌/◌,
  if◌then◌else◌, ◌==◌, some, is_empty,
}
use agent_memory_cpp.Prelude.Distinct.{any-false}
use agent_memory_cpp.Prelude.Int.{pos, negsuc}
use agent_memory_cpp.Text.{Text, codes, mem_text, contains, to_lower}
use agent_memory_cpp.Text.Decimal.{to_string}
use agent_memory_cpp.Json.{empty_object}
use agent_memory_cpp.Types.{MemorySearchRequest, MemorySearchHit}
use agent_memory_cpp.Storage.Tables.{SummaryRow, EntityRow, empty_tables}
use agent_memory_cpp.Storage.Engine.{MemorySqliteStore}
use agent_memory_cpp.Storage.Events.{effective_limit}
use agent_memory_cpp.Storage.Reads.{OnlyReads}
use agent_memory_cpp.Storage.Search.Like.{like, search_pattern, like-search_pattern}
use agent_memory_cpp.Storage.Search.Query.{fts5_escape_query, IsPlain, fts5_escape_query-IsPlain}
use agent_memory_cpp.Storage.Search.Hits.{FullText, sort_and_limit_search_results}
use agent_memory_cpp.Storage.Search.Order.{IsTop, sort_and_limit_search_results-IsTop}
use agent_memory_cpp.Storage.Search.Shows.{Shows, is_visible}
use agent_memory_cpp.Storage.Search.Steps.{ProgressAll}
use agent_memory_cpp.Storage.Search.Visible.{search-IsVisible, contains_query, like_search-contains}
use agent_memory_cpp.Storage.Search.Fallback.{Completes, found_hits, search_finds}
use agent_memory_cpp.Storage.Search.Run.{
  fts_search, like_search, search_found, search_long_term_memory,
}
use agent_memory_cpp.Tests.{new_store}

-- An index that matches whole columns.
abbrev pub column_index : FullText
column_index = record {
  matches = λ query columns. mem_text query columns;
  bm25 = λ t query columns. negsuc (length columns);
  add = λ x y. x + y;
  divide = λ x y. x * 1000 / y;
  multiply = λ x y. x * y / 1000;
}

abbrev tea_summary : SummaryRow
tea_summary = record {
  id = 4;
  agent_id = codes "a";
  session_id = codes "s";
  level = codes "L1";
  topic = codes "tea";
  summary = codes "likes 100% Tea_bags";
  source_refs_json = [];
  confidence = 800;
  created_at = 3;
  updated_at = 3;
}

abbrev cup_entity : EntityRow
cup_entity = record {
  id = codes "cup";
  agent_id = codes "a";
  kind = codes "thing";
  name = codes "cup";
  summary = codes "for tea";
  confidence = 500;
  source_refs_json = [];
  metadata_json = [];
  active = true;
  superseded_by = none;
  created_at = 1;
  updated_at = 1;
}

abbrev pub tea_store : MemorySqliteStore
tea_store = record new_store {
  tables = record empty_tables { summaries = tea_summary ∷ []; entities = cup_entity ∷ [] };
}

abbrev tea_request : MemorySearchRequest
tea_request = record {
  agent_id = codes "a";
  session_id = [];
  query = codes "100% tea_b";
  limit = pos 5;
}

-- The full-text query of the request matches nothing here, and a LIKE query finds the summary.
tea_found :
    map
      (λ (hit : MemorySearchHit). hit.id)
      (search_long_term_memory column_index tea_request tea_store).0.results
    ≡ codes "summary:4" ∷ []
unfolding search_long_term_memory mem_text to_string
tea_found = refl

percent_plain : All (λ c. (c == 0) ≡ false) (codes "100%")
unfolding any
percent_plain = any-false (λ c. c == 0) (codes "100%") refl

tea_plain : All (λ c. (c == 0) ≡ false) tea_request.query
unfolding any
tea_plain = any-false (λ c. c == 0) tea_request.query refl

like-search_pattern_example :
    like (search_pattern (codes "100%")) (codes "1000 EUR")
    ≡ contains (to_lower (codes "1000 EUR")) (to_lower (codes "100%"))
like-search_pattern_example = like-search_pattern (codes "100%") (codes "1000 EUR") percent_plain

fts5_escape_query-IsPlain_example : IsPlain 0 (fts5_escape_query (codes "*te* \"x"))
fts5_escape_query-IsPlain_example = fts5_escape_query-IsPlain (codes "*te* \"x")

abbrev hit_of : Text → ℕ → MemorySearchHit
hit_of id score = record {
  id = id;
  kind = codes "entity";
  content = [];
  score = score;
  source_refs = [];
  metadata = empty_object;
}

abbrev three_hits : List MemorySearchHit
three_hits = hit_of (codes "c") 300 ∷ hit_of (codes "b") 950 ∷ hit_of (codes "a") 300 ∷ []

two_best :
    map (λ (hit : MemorySearchHit). hit.id) (sort_and_limit_search_results 2 three_hits)
    ≡ codes "b" ∷ codes "a" ∷ []
unfolding sort_and_limit_search_results
two_best = refl

sort_and_limit_search_results-IsTop_example :
    IsTop 2 three_hits (sort_and_limit_search_results 2 three_hits)
sort_and_limit_search_results-IsTop_example =
    sort_and_limit_search_results-IsTop 2 three_hits (omega arith) (omega arith)

search-IsVisible_example :
    let (result, t) = search_long_term_memory column_index tea_request tea_store in
    OnlyReads tea_store t
    × All (Shows tea_store.engine tea_store.tables (is_visible tea_request)) result.results
search-IsVisible_example = search-IsVisible column_index tea_request tea_store

like_search-contains_example :
    ProgressAll
      (Shows tea_store.engine tea_store.tables
        (λ row. is_visible tea_request row && contains_query tea_request row))
      (like_search tea_request 5 tea_store).0
like_search-contains_example = like_search-contains tea_request tea_store 5 tea_plain

-- The first full-text query breaks off.
abbrev broken_store : MemorySqliteStore
broken_store = record tea_store {
  engine = record tea_store.engine { breaks_after = λ n. if n == 1 then some 0 else none };
}

broken_store-Completes :
    Completes
      (fts_search column_index tea_request
        (fts5_escape_query tea_request.query)
        (effective_limit tea_request.limit 10)
        broken_store).1
unfolding fts_search fts5_escape_query
broken_store-Completes = record { prepares = λ n. refl; unbroken = λ n h. ground arith }

-- The LIKE queries find the summary all the same.
found_all_the_same :
    length (search_long_term_memory column_index tea_request broken_store).0.results ≡ 1
unfolding search_long_term_memory fts_search fts5_escape_query to_lower
found_all_the_same = refl

search_finds_example : (search_long_term_memory column_index tea_request broken_store).0 ≡ (
    let limit = effective_limit tea_request.limit 10 in
    let query = fts5_escape_query tea_request.query in
    let found = found_hits column_index tea_request query limit broken_store in
    search_found
      (if is_empty tea_request.query then [] else sort_and_limit_search_results limit found))
search_finds_example =
    search_finds column_index tea_request broken_store refl (record { prepares = λ n. refl })
      broken_store-Completes
