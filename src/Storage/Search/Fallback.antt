-- ===== src/Storage/Search/Fallback.antt =====
-- What `SearchLongTermMemory` finds, and what it does about full-text queries that fail (src/storage/sqlite_store.cpp).
use agent_memory_cpp.Prelude.{
  ℕ, ◌+◌, ◌≤◌, ◌≡◌, refl, Bool, true, false, List, [], ◌∷◌, is_empty, none, some, arith,
  if◌then◌else◌, Option, ◌||◌, ◌++◌, map, ap, ◌∙◌,
}
use agent_memory_cpp.Text.{Text, codes}
use agent_memory_cpp.Types.{MemorySearchHit, MemorySearchRequest, MemorySearchStoreResult}
use agent_memory_cpp.Storage.Tables.{Tables}
use agent_memory_cpp.Storage.Engine.{Engine, MemorySqliteStore, fetched_rows}
use agent_memory_cpp.Storage.Events.{effective_limit}
use agent_memory_cpp.Storage.Reads.{
  fetch_prepared, OnlyReads, OnlyReads-trans, reads_nothing, fetch-OnlyReads,
}
use agent_memory_cpp.Storage.Search.Query.{fts5_escape_query}
use agent_memory_cpp.Storage.Search.Hits.{
  FullText, summary_hit, entity_hit, relation_hit, sort_and_limit_search_results,
}
use agent_memory_cpp.Storage.Search.Rows.{
  fts_summaries, fts_entities, fts_relations, like_summaries, like_entities, like_relations,
}
use agent_memory_cpp.Storage.Search.Run.{
  Progress, searching, fts_failed, fts_step, like_step, fts_found, fts_hit, like_hit, fts_search,
  like_search, fall_back, search_result, search_found, search_long_term_memory,
}

-- A store in which every query is prepared; and one in which, besides, no query breaks from now on.
pub record Prepares (s : MemorySqliteStore) : Type 0 where
  pub prepares : (n : ℕ) → s.engine.prepares n ≡ true

pub record Completes (s : MemorySqliteStore) : Type 0 where
  pub prepares : (n : ℕ) → s.engine.prepares n ≡ true
  pub unbroken : (n : ℕ) → s.calls ≤ n → s.engine.breaks_after n ≡ none

abbrev pub breaks : Option ℕ → Bool
breaks none = false
breaks (some rows) = true

-- The query whose statement is prepared by call n of SQLite breaks off.
abbrev pub query_breaks : MemorySqliteStore → ℕ → Bool
query_breaks s n = breaks (s.engine.breaks_after (n + 1))

-- Whether there is no full-text phase: nothing to search for, or one of its three queries breaks
-- off. A query makes two calls.
abbrev pub no_full_text : Text → MemorySqliteStore → Bool
no_full_text query s =
    is_empty query
    || ((query_breaks s s.calls || query_breaks s (s.calls + 2))
        || query_breaks s (s.calls + 2 + 2))

-- The hits of all three full-text queries, and of all three LIKE queries, in their order.
abbrev pub full_text_hits :
    FullText → MemorySearchRequest → Text → ℕ → MemorySqliteStore → List MemorySearchHit
full_text_hits fts request query limit s =
    (map (fts_hit fts summary_hit s.engine) (fts_summaries fts request query limit s.tables)
      ++ map (fts_hit fts entity_hit s.engine) (fts_entities fts request query limit s.tables))
    ++ map (fts_hit fts relation_hit s.engine) (fts_relations fts request query limit s.tables)

abbrev pub like_hits : MemorySearchRequest → ℕ → MemorySqliteStore → List MemorySearchHit
like_hits request limit s =
    (map (like_hit summary_hit s.engine) (like_summaries request limit s.tables)
      ++ map (like_hit entity_hit s.engine) (like_entities request limit s.tables))
    ++ map (like_hit relation_hit s.engine) (like_relations request limit s.tables)

-- The LIKE queries stand in where the full-text ones gave nothing.
abbrev pub or_like : List MemorySearchHit → List MemorySearchHit → List MemorySearchHit
or_like full like = if is_empty full then like else full

abbrev pub found_hits :
    FullText → MemorySearchRequest → Text → ℕ → MemorySqliteStore → List MemorySearchHit
found_hits fts request query limit s =
    or_like (if no_full_text query s then [] else full_text_hits fts request query limit s)
      (like_hits request limit s)

-- The end of some full-text queries that began on s: dropped, or with hits and at a call.
record Phase (s : MemorySqliteStore) (failed : Bool) (hits : List MemorySearchHit) (n : ℕ)
    (progress : Progress) (t : MemorySqliteStore) : Type 0 where
  ended : progress ≡ (if failed then fts_failed else searching hits)
  counted : failed ≡ false → t.calls ≡ n
  reads : OnlyReads s t

-- The end of some LIKE queries that began on s, none of which breaks.
record Searched (s : MemorySqliteStore) (hits : List MemorySearchHit) (progress : Progress)
    (t : MemorySqliteStore) : Type 0 where
  ended : progress ≡ searching hits
  completes : Completes t
  reads : OnlyReads s t

module _ {A : Type 0} (context : Text) (rows : Tables → List A)
    (hit : Engine → A → MemorySearchHit) where
  fts_found_lem :
      (o : Option ℕ) (xs : List A) (f : A → MemorySearchHit) (hits : List MemorySearchHit)
      (t : MemorySqliteStore)
      → fts_found context f hits t (fetched_rows o xs)
        ≡ (if breaks o then fts_failed else searching (hits ++ map f xs))
  fts_found_lem none xs f hits t = refl
  fts_found_lem (some k) xs f hits t = refl

  fts_step_lem :
      (hits : List MemorySearchHit) (t : MemorySqliteStore)
      → t.engine.prepares t.calls ≡ true
      → ((fts_step context rows hit (searching hits) t).0 ≡ (
          if query_breaks t t.calls
          then fts_failed
          else searching (hits ++ map (hit t.engine) (rows t.tables))))
        × ((fts_step context rows hit (searching hits) t).1.calls ≡ t.calls + 2)
  unfolding fts_step
  fts_step_lem hits t h = rw (fetch_prepared rows t h) (
    fts_found_lem (t.engine.breaks_after (t.calls + 1)) (rows t.tables) (hit t.engine) hits
        (record t { calls = t.calls + 2 }),
    refl,
  )

  fts_step-Phase :
      (s : MemorySqliteStore) (failed : Bool) (hits : List MemorySearchHit) (n : ℕ)
      (progress : Progress) (t : MemorySqliteStore)
      → Prepares s
      → Phase s failed hits n progress t
      → Phase s
          (failed || query_breaks s n)
          (hits ++ map (hit s.engine) (rows s.tables))
          (n + 2)
          (fts_step context rows hit progress t).0
          (fts_step context rows hit progress t).1
  unfolding fts_step
  fts_step-Phase s true hits n progress t p phase =
      rw phase.ended
        (record { ended = refl; counted = λ h. absurd (ground arith); reads = phase.reads })
  fts_step-Phase s false hits n progress t p phase =
      let step = fts_step_lem hits t (rw phase.reads.engine (p.prepares t.calls)) in
      rw phase.ended (record {
        ended = step.0 ∙ rw (phase.reads.engine, phase.reads.tables, phase.counted refl) refl;
        counted = λ h. step.1 ∙ ap (λ k. k + 2) (phase.counted refl);
        reads = OnlyReads-trans phase.reads (fetch-OnlyReads rows t);
      })

  like_step-Searched :
      (s : MemorySqliteStore) (hits : List MemorySearchHit) (progress : Progress)
      (t : MemorySqliteStore)
      → Searched s hits progress t
      → Searched s
          (hits ++ map (hit s.engine) (rows s.tables))
          (like_step context rows hit progress t).0
          (like_step context rows hit progress t).1
  unfolding like_step
  like_step-Searched s hits progress t before =
      let c = before.completes in
      let r = before.reads in
      rw before.ended (
        rw (fetch_prepared rows t (c.prepares t.calls), c.unbroken (t.calls + 1) (omega arith))
          (record {
            ended = rw (r.engine, r.tables) refl;
            completes = record {
              prepares = c.prepares;
              unbroken = λ n l. c.unbroken n (omega arith);
            };
            reads = record { tables = r.tables; saved = r.saved; engine = r.engine };
          }))

module _ (fts : FullText) (request : MemorySearchRequest) (query : Text) (limit : ℕ)
    (s : MemorySqliteStore) where
  either_ends :
      (b failed : Bool) (hits : List MemorySearchHit) (n : ℕ) (r : Progress × MemorySqliteStore)
      → Phase s failed hits n r.0 r.1
      → let chosen : Progress × MemorySqliteStore = if b then (fts_failed, s) else r in
        (chosen.0 ≡ (if b || failed then fts_failed else searching hits)) × OnlyReads s chosen.1
  either_ends true failed hits n r phase = (refl, reads_nothing s)
  either_ends false failed hits n r phase = (phase.ended, phase.reads)

  fts_search_lem :
      Prepares s
      → ((fts_search fts request query limit s).0 ≡ (
          if no_full_text query s
          then fts_failed
          else searching (full_text_hits fts request query limit s)))
        × OnlyReads s (fts_search fts request query limit s).1
  unfolding fts_search
  fts_search_lem p =
      let first =
        fts_step-Phase (codes "fts_summaries") (fts_summaries fts request query limit)
          (fts_hit fts summary_hit) s false [] s.calls (searching []) s p
          (record { ended = refl; counted = λ h. refl; reads = reads_nothing s }) in
      let second =
        fts_step-Phase (codes "fts_entities") (fts_entities fts request query limit)
          (fts_hit fts entity_hit) s _ _ _ _ _ p first in
      let third =
        fts_step-Phase (codes "fts_relations") (fts_relations fts request query limit)
          (fts_hit fts relation_hit) s _ _ _ _ _ p second in
      either_ends (is_empty query) _ _ _ (_, _) third

  like_search_lem :
      (t : MemorySqliteStore)
      → OnlyReads s t
      → Completes t
      → (like_search request limit t).0 ≡ searching (like_hits request limit s)
  unfolding like_search
  like_search_lem t r c =
      let first =
        like_step-Searched (codes "like_summaries") (like_summaries request limit)
          (like_hit summary_hit) s [] (searching []) t
          (record { ended = refl; completes = c; reads = r }) in
      let second =
        like_step-Searched (codes "like_entities") (like_entities request limit)
          (like_hit entity_hit) s _ _ _ first in
      (like_step-Searched (codes "like_relations") (like_relations request limit)
        (like_hit relation_hit) s _ _ _ second).ended

  fall_back_lem :
      (failed : Bool) (hits : List MemorySearchHit) (progress : Progress) (t : MemorySqliteStore)
      → progress ≡ (if failed then fts_failed else searching hits)
      → OnlyReads s t
      → Completes t
      → (fall_back request limit progress t).0
        ≡ searching (or_like (if failed then [] else hits) (like_hits request limit s))
  unfolding fall_back
  fall_back_lem true hits progress t e r c = rw e (like_search_lem t r c)
  fall_back_lem false [] progress t e r c = rw e (like_search_lem t r c)
  fall_back_lem false (hit ∷ hits) progress t e r c = rw e refl

search_result_lem :
    (limit : ℕ) (progress : Progress) (hits : List MemorySearchHit)
    → progress ≡ searching hits
    → search_result limit progress ≡ search_found (sort_and_limit_search_results limit hits)
unfolding search_result
search_result_lem limit progress hits e = rw e refl

-- On an open store whose queries can all be prepared, and none of whose queries behind the full-text
-- ones breaks off, a search succeeds. An empty query finds nothing. Otherwise its results are, in
-- order and up to the limit, the hits of the three full-text queries; or those of the three LIKE
-- queries, where the query has no words for the index, one of the full-text queries breaks off, or
-- they have no hit. A broken full-text query is never reported.
pub search_finds :
    (fts : FullText) (request : MemorySearchRequest) (s : MemorySqliteStore)
    → s.opened ≡ true
    → Prepares s
    → Completes
        (fts_search fts request
          (fts5_escape_query request.query)
          (effective_limit request.limit 10)
          s).1
    → (search_long_term_memory fts request s).0 ≡ (
        let limit = effective_limit request.limit 10 in
        let found = found_hits fts request (fts5_escape_query request.query) limit s in
        search_found
          (if is_empty request.query then [] else sort_and_limit_search_results limit found))
unfolding search_long_term_memory
search_finds fts request s opened p c =
    let limit = effective_limit request.limit 10 in
    let query = fts5_escape_query request.query in
    let first = fts_search_lem fts request query limit s p in
    let last = fall_back_lem fts request query limit s _ _ _ _ first.0 first.1 c in
    let result = search_result_lem limit _ _ last in
    answered s.opened (is_empty request.query) (_, s) (_, _) (_, s) _ opened refl result
  where
    answered :
        (opened empty : Bool) (x y z : MemorySearchStoreResult × MemorySqliteStore)
        (hits : List MemorySearchHit)
        → opened ≡ true
        → x.0 ≡ search_found []
        → y.0 ≡ search_found hits
        → (if opened then (if empty then x else y) else z).0
          ≡ search_found (if empty then [] else hits)
    answered true true x y z hits o hx hy = hx
    answered true false x y z hits o hx hy = hy
    answered false empty x y z hits o hx hy = absurd (ground arith)
