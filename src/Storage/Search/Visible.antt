-- ===== src/Storage/Search/Visible.antt =====
-- What a caller of `SearchLongTermMemory` (src/storage/sqlite_store.cpp) gets to see.
use agent_memory_cpp.Prelude.{
  ℕ, ◌≡◌, subst, refl, Bool, true, false, ◌&&◌, List, [], ◌∷◌, any, is_empty, All, arith,
  if◌then◌else◌, ◌==◌,
}
use agent_memory_cpp.Prelude.Distinct.{All-mono}
use agent_memory_cpp.Prelude.Everywhere.{All-take}
use agent_memory_cpp.Prelude.Sort.{sort_by, All-sort_by}
use agent_memory_cpp.Text.{Text, contains, to_lower}
use agent_memory_cpp.Types.{MemorySearchHit, MemorySearchRequest, MemorySearchStoreResult}
use agent_memory_cpp.Storage.Tables.{Tables}
use agent_memory_cpp.Storage.Engine.{Engine, MemorySqliteStore}
use agent_memory_cpp.Storage.Events.{effective_limit}
use agent_memory_cpp.Storage.Reads.{OnlyReads, OnlyReads-trans, reads_nothing}
use agent_memory_cpp.Storage.Search.Like.{like, search_pattern, like-search_pattern}
use agent_memory_cpp.Storage.Search.Query.{fts5_escape_query}
use agent_memory_cpp.Storage.Search.Hits.{FullText, ranks_before, sort_and_limit_search_results}
use agent_memory_cpp.Storage.Search.Shows.{HitRow, is_visible, Shows}
use agent_memory_cpp.Storage.Search.Steps.{ProgressAll, StepKeeps}
use agent_memory_cpp.Storage.Search.Origin.{
  searched_texts, like_query, fts_search-StepKeeps, like_search-StepKeeps,
}
use agent_memory_cpp.Storage.Search.Run.{
  Progress, searching, fts_failed, stopped, like_search, fall_back, search_result,
  search_long_term_memory,
}

Shows-weaken :
    {engine : Engine} {t : Tables} (p q : HitRow → Bool)
    → ((row : HitRow) → p row ≡ true → q row ≡ true)
    → (hit : MemorySearchHit) → Shows engine t p hit
    → Shows engine t q hit
Shows-weaken p q w hit h = record {
  row = h.row;
  stored = h.stored;
  passed = w h.row h.passed;
  same_id = h.same_id;
  same_kind = h.same_kind;
  same_content = h.same_content;
  same_refs = h.same_refs;
}

ProgressAll-mono :
    (P Q : MemorySearchHit → Type 0)
    → ((hit : MemorySearchHit) → P hit → Q hit)
    → (progress : Progress) → ProgressAll P progress
    → ProgressAll Q progress
ProgressAll-mono P Q w (searching hits) h = All-mono P Q hits w h
ProgressAll-mono P Q w fts_failed h = tt
ProgressAll-mono P Q w (stopped hits e) h = All-mono P Q hits w h

both-fst : (a b : Bool) → (a && b) ≡ true → a ≡ true
both-fst a b h = ground arith

like_search-IsVisible :
    (request : MemorySearchRequest) (s : MemorySqliteStore) (limit : ℕ)
    → StepKeeps (Shows s.engine s.tables (is_visible request)) s (like_search request limit s)
like_search-IsVisible request s limit =
    let found = like_search-StepKeeps request s limit in
    record {
      reads = found.reads;
      all =
          ProgressAll-mono _ _
            (Shows-weaken (like_query request) (is_visible request)
              (λ row h. both-fst (is_visible request row) _ h))
            (like_search request limit s).0 found.all;
    }

Shows-moved :
    {e e' : Engine} {t t' : Tables} (passes : HitRow → Bool)
    → e ≡ e'
    → t ≡ t'
    → (hit : MemorySearchHit) → Shows e t passes hit
    → Shows e' t' passes hit
Shows-moved {e} {e'} {t} {t'} passes p q hit h =
    subst (λ x. Shows x t' passes hit) p (subst (λ x. Shows e x passes hit) q h)

like_behind :
    (request : MemorySearchRequest) (limit : ℕ) (s t : MemorySqliteStore)
    → OnlyReads s t
    → StepKeeps (Shows s.engine s.tables (is_visible request)) s (like_search request limit t)
like_behind request limit s t r =
    let found = like_search-IsVisible request t limit in
    record {
      reads = OnlyReads-trans r found.reads;
      all =
          ProgressAll-mono _ _ (Shows-moved (is_visible request) r.engine r.tables)
            (like_search request limit t).0 found.all;
    }

-- The LIKE queries behind the full-text queries, told of the state before both.
fall_back-StepKeeps :
    (request : MemorySearchRequest) (limit : ℕ) (s t : MemorySqliteStore) (progress : Progress)
    → StepKeeps (Shows s.engine s.tables (is_visible request)) s (progress, t)
    → StepKeeps
        (Shows s.engine s.tables (is_visible request))
        s
        (fall_back request limit progress t)
unfolding fall_back
fall_back-StepKeeps request limit s t fts_failed h = like_behind request limit s t h.reads
fall_back-StepKeeps request limit s t (stopped hits e) h = h
fall_back-StepKeeps request limit s t (searching []) h = like_behind request limit s t h.reads
fall_back-StepKeeps request limit s t (searching (hit ∷ hits)) h = h

sort_and_limit-All :
    (P : MemorySearchHit → Type 0) (limit : ℕ) (hits : List MemorySearchHit)
    → All P hits
    → All P (sort_and_limit_search_results limit hits)
unfolding sort_and_limit_search_results
sort_and_limit-All P limit hits h =
    let sorted = All-sort_by ranks_before P hits h in
    either_list _ _ _ (All-take P limit (sort_by ranks_before hits) sorted) sorted
  where
    either_list :
        (b : Bool) (xs ys : List MemorySearchHit)
        → All P xs
        → All P ys
        → All P (if b then xs else ys)
    either_list true xs ys hx hy = hx
    either_list false xs ys hx hy = hy

search_result-All :
    (P : MemorySearchHit → Type 0) (limit : ℕ) (progress : Progress)
    → ProgressAll P progress
    → All P (search_result limit progress).results
unfolding search_result
search_result-All P limit (searching hits) h = sort_and_limit-All P limit hits h
search_result-All P limit fts_failed h = tt
search_result-All P limit (stopped hits e) h = h

-- What holds of the results of both branches.
either_result :
    (s : MemorySqliteStore) (P : MemorySearchHit → Type 0) (b : Bool)
    (x y : MemorySearchStoreResult × MemorySqliteStore)
    → OnlyReads s x.1 × All P x.0.results
    → OnlyReads s y.1 × All P y.0.results
    → let (result, t) = (if b then x else y) in OnlyReads s t × All P result.results
either_result s P true x y hx hy = hx
either_result s P false x y hx hy = hy

-- A search, whichever of its queries fail, changes no row, and each of its results, also where it
-- reports an error, stands for a row of the store that the request may see: a summary of its agent
-- (and of its session, if it names one), or an entity or a relation of its agent that is active.
pub search-IsVisible :
    (fts : FullText) (request : MemorySearchRequest) (s : MemorySqliteStore)
    → let (result, t) = search_long_term_memory fts request s in
      OnlyReads s t × All (Shows s.engine s.tables (is_visible request)) result.results
unfolding search_long_term_memory
search-IsVisible fts request s =
    let P = Shows s.engine s.tables (is_visible request) in
    let limit = effective_limit request.limit 10 in
    let first = fts_search-StepKeeps fts request s (fts5_escape_query request.query) limit in
    let last = fall_back-StepKeeps request limit s _ _ first in
    either_result s P s.opened _ _
      (either_result s P (is_empty request.query) _ _ (reads_nothing s, tt)
        (last.reads, search_result-All P limit _ last.all))
      (reads_nothing s, tt)

-- A row has a text that contains the query, up to the case of ASCII letters.
abbrev pub contains_query : MemorySearchRequest → HitRow → Bool
contains_query request row =
    any (λ text. contains (to_lower text) (to_lower request.query)) (searched_texts row)

any-like :
    (query : Text) (texts : List Text)
    → All (λ c. (c == 0) ≡ false) query
    → any (like (search_pattern query)) texts
      ≡ any (λ text. contains (to_lower text) (to_lower query)) texts
unfolding any
any-like query [] h = refl
any-like query (text ∷ texts) h =
    ground (arith, like-search_pattern query text h, any-like query texts h)

-- The LIKE queries, which run where the full-text queries have failed or found nothing, find only
-- rows that the request may see and that contain its query literally in one of the columns searched,
-- up to the case of ASCII letters (for a query without NUL bytes).
pub like_search-contains :
    (request : MemorySearchRequest) (s : MemorySqliteStore) (limit : ℕ)
    → All (λ c. (c == 0) ≡ false) request.query
    → ProgressAll
        (Shows s.engine s.tables (λ row. is_visible request row && contains_query request row))
        (like_search request limit s).0
like_search-contains request s limit h =
    ProgressAll-mono _ _
      (Shows-weaken (like_query request)
        (λ row. is_visible request row && contains_query request row)
        (λ row k. rw (← any-like request.query (searched_texts row) h) k))
      (like_search request limit s).0 (like_search-StepKeeps request s limit).all
