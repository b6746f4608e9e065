-- ===== src/Context/Reads.antt =====
-- The building of a context (src/core/context_builder.cpp) and the store.
use agent_memory_cpp.Prelude.{ℕ, ◌==◌, ◌&&◌, is_empty, inl, inr, Bool-cases}
use agent_memory_cpp.Prelude.Int.{ℤ, pos, is_positive}
use agent_memory_cpp.Text.{Text, codes}
use agent_memory_cpp.Json.{Float}
use agent_memory_cpp.Types.{LongTermMemorySnapshot}
use agent_memory_cpp.Storage.Tables.{SummaryRow, EntityRow}
use agent_memory_cpp.Storage.Engine.{MemorySqliteStore, Fetched, not_prepared, broken, complete}
use agent_memory_cpp.Storage.Events.{load_recent_events, recent_events, effective_limit}
use agent_memory_cpp.Storage.Payloads.{load_recent_payloads, recent_payloads}
use agent_memory_cpp.Storage.LongTerm.{
  load_long_term_memory, recent_summaries, recent_entities, recent_relations, add_summaries,
  add_entities,
}
use agent_memory_cpp.Storage.Reads.{
  OnlyReads, OnlyReads-trans, fetch-OnlyReads, either_read, reads_nothing,
}
use agent_memory_cpp.Storage.Search.Hits.{FullText}
use agent_memory_cpp.Storage.Search.Visible.{search-IsVisible}
use agent_memory_cpp.Context.{
  MemoryContextRequest, should_include, long_term_memory_limit, load_messages_for_context,
  load_payloads_for_context, section_limit,
}
use agent_memory_cpp.Context.LongTerm.{
  select_long_term_memory, select_snapshot, select_found, search_request,
}
use agent_memory_cpp.Context.Package.{MemoryContextPackage}
use agent_memory_cpp.Context.Build.{build_context, load_messages, load_long_term, add_payloads}

add_entities-OnlyReads :
    (agent : Text) (limit : ℕ) (snapshot : LongTermMemorySnapshot) (s : MemorySqliteStore)
    (found : Fetched EntityRow)
    → OnlyReads s (add_entities agent limit snapshot s found).1
unfolding add_entities
add_entities-OnlyReads agent limit snapshot s not_prepared = reads_nothing s
add_entities-OnlyReads agent limit snapshot s (broken rows) = reads_nothing s
add_entities-OnlyReads agent limit snapshot s (complete rows) =
    fetch-OnlyReads (recent_relations agent limit) s

add_summaries-OnlyReads :
    (agent : Text) (limit : ℕ) (s : MemorySqliteStore) (found : Fetched SummaryRow)
    → OnlyReads s (add_summaries agent limit s found).1
unfolding add_summaries
add_summaries-OnlyReads agent limit s not_prepared = reads_nothing s
add_summaries-OnlyReads agent limit s (broken rows) = reads_nothing s
add_summaries-OnlyReads agent limit s (complete rows) =
    OnlyReads-trans (fetch-OnlyReads (recent_entities agent limit) s)
      (add_entities-OnlyReads agent limit _ _ _)

pub load_long_term_memory-OnlyReads :
    (agent : Text) (limit : ℤ) (session : Text) (s : MemorySqliteStore)
    → OnlyReads s (load_long_term_memory agent limit session s).1
unfolding load_long_term_memory
load_long_term_memory-OnlyReads agent limit session s =
    let effective = effective_limit limit 100 in
    either_read s.opened s _ _
      (OnlyReads-trans (fetch-OnlyReads (recent_summaries agent session effective) s)
        (add_summaries-OnlyReads agent effective _ _))
      (reads_nothing s)

load_recent_events-OnlyReads :
    (agent session : Text) (limit : ℤ) (s : MemorySqliteStore)
    → OnlyReads s (load_recent_events agent session limit s).1
unfolding load_recent_events
load_recent_events-OnlyReads agent session limit s =
    either_read s.opened s _ _ (fetch-OnlyReads (recent_events agent session limit) s)
      (reads_nothing s)

load_recent_payloads-OnlyReads :
    (agent session : Text) (limit : ℤ) (s : MemorySqliteStore)
    → OnlyReads s (load_recent_payloads agent session limit s).1
unfolding load_recent_payloads
load_recent_payloads-OnlyReads agent session limit s =
    either_read s.opened s _ _ (fetch-OnlyReads (recent_payloads agent session limit) s)
      (reads_nothing s)

load_messages-OnlyReads :
    (request : MemoryContextRequest) (s : MemorySqliteStore)
    → OnlyReads s (load_messages request s).1
unfolding load_messages load_messages_for_context
load_messages-OnlyReads request s =
    let limit = section_limit request.metadata (codes "message_limit") in
    let loaded = load_recent_events-OnlyReads request.agent_id request.session_id (pos limit) s in
    either_read (should_include request (codes "messages")) s _ _
      (either_read (limit == 0) s _ _ (reads_nothing s) (either_read _ s _ _ loaded loaded))
      (reads_nothing s)

load_payloads-OnlyReads :
    (request : MemoryContextRequest) (s : MemorySqliteStore)
    → OnlyReads s (load_payloads_for_context request s).1
unfolding load_payloads_for_context
load_payloads-OnlyReads request s =
    let limit = section_limit request.metadata (codes "payload_limit") in
    let loaded = load_recent_payloads-OnlyReads request.agent_id request.session_id (pos limit) s in
    either_read (limit == 0) s _ _ (reads_nothing s) (either_read _ s _ _ loaded loaded)

select_long_term_memory-OnlyReads :
    (fts : FullText) (request : MemoryContextRequest) (limit : ℤ) (s : MemorySqliteStore)
    → OnlyReads s (select_long_term_memory fts request limit s).1
unfolding select_long_term_memory select_snapshot select_found
select_long_term_memory-OnlyReads fts request limit s =
    let load = load_long_term_memory-OnlyReads request.agent_id limit request.session_id in
    let searched = (search-IsVisible fts (search_request request limit) s).0 in
    either_read (is_positive limit) s _ _
      (either_read (is_empty request.query) s _ _ (load s)
        (either_read _ s _ _ (OnlyReads-trans searched (load _)) searched))
      (reads_nothing s)

load_long_term-OnlyReads :
    (fts : FullText) (request : MemoryContextRequest) (limit : ℤ) (s : MemorySqliteStore)
    → OnlyReads s (load_long_term fts request limit s).1
unfolding load_long_term
load_long_term-OnlyReads fts request limit s =
    either_read (should_include request (codes "long_term") && is_positive limit) s _ _
      (select_long_term_memory-OnlyReads fts request limit s) (reads_nothing s)

add_payloads-OnlyReads :
    (request : MemoryContextRequest) (context : MemoryContextPackage) (s : MemorySqliteStore)
    → OnlyReads s (add_payloads request context s).1
unfolding add_payloads
add_payloads-OnlyReads request context s =
    elim (Bool-cases (should_include request (codes "payloads"))) [
      | inl on ↦ rw on (load_payloads-OnlyReads request s)
      | inr off ↦ rw off (reads_nothing s)
    ]

-- Building a context changes no row of the store and opens no transaction, whichever of its queries
-- fail.
pub build_context-OnlyReads :
    (fts : FullText) (print_float : Float → Text) (default_budget : ℤ)
    (request : MemoryContextRequest) (s : MemorySqliteStore)
    → OnlyReads s (build_context fts print_float default_budget request s).1
unfolding build_context
build_context-OnlyReads fts print_float default_budget request s =
    let limit = long_term_memory_limit default_budget request in
    let t = (load_messages request s).1 in
    let (selected, u) = load_long_term fts request limit t in
    let first = load_messages-OnlyReads request s in
    let second = OnlyReads-trans first (load_long_term-OnlyReads fts request limit t) in
    elim (Bool-cases (load_messages request s).0.succeeded) [
      | inr bad ↦ rw bad first
      | inl good ↦ rw good (elim (Bool-cases selected.succeeded) [
        | inr bad ↦ rw bad second
        | inl fine ↦ rw fine (OnlyReads-trans second (add_payloads-OnlyReads request _ u))
      ])
    ]
