-- ===== src/Tests/Reports.antt =====
-- Inputs for the theorems on the rules, the runtime, the context and texts.
use agent_memory_cpp.Prelude.{
  ◌≡◌, refl, true, false, some, List, [], ◌∷◌, any, ◌||◌, ◌≤◌, length, if◌then◌else◌, take, keep_if,
  arith,
}
use agent_memory_cpp.Prelude.Distinct.{Distinct}
use agent_memory_cpp.Prelude.Int.{pos, negsuc, is_nonneg, to_ℕ}
use agent_memory_cpp.Text.{Text, codes, text_eq, mem_text}
use agent_memory_cpp.Json.{empty_object, metadata_int}
use agent_memory_cpp.Types.{
  MemoryPayloadRef, LongTermMemorySnapshot, LongTermSummaryRecord, MemoryEntity, MemoryRelation,
  empty_snapshot,
}
use agent_memory_cpp.Consolidation.Batch.{LongTermMemoryBatch}
use agent_memory_cpp.Consolidation.Atomic.{Transacted}
use agent_memory_cpp.Consolidation.Rules.{process, topic_summary}
use agent_memory_cpp.Consolidation.Rules.Report.{
  process-Topics, process-Preferences, is_on, says_preference,
}
use agent_memory_cpp.Runtime.{consolidate_store}
use agent_memory_cpp.Runtime.Atomic.{consolidate_store-Transacted}
use agent_memory_cpp.Context.{
  MemoryContextRequest, long_term_memory_limit, select_payloads, matches_payload_query,
  collect_snapshot_citations,
}
use agent_memory_cpp.Context.Selection.{
  same_uri, select_payloads-Take, Selected, select_payloads-Selected, long_term_memory_limit-Bounds,
}
use agent_memory_cpp.Context.Citations.{collect_snapshot_citations-Cites, names}
use agent_memory_cpp.Tests.{first_message, new_store, new_store-IsSettled, request, topic_processor}

abbrev batch : LongTermMemoryBatch
batch = record {
  events = record first_message { content = codes "please test" } ∷ first_message ∷ [];
  source_refs = codes "ref" ∷ [];
}

process-Topics_example :
    Distinct text_eq (process batch).topic_summaries
    × (mem_text (topic_summary (codes "testing")) (process batch).topic_summaries
        ≡ any (is_on (codes "testing")) batch.events)
process-Topics_example = process-Topics batch (codes "testing") refl

process-Preferences_example :
    length (process batch).relations ≡ (if any says_preference batch.events then 1 else 0)
process-Preferences_example = process-Preferences batch

consolidate_store-Transacted_example :
    let (result, t) = consolidate_store (some topic_processor) request new_store in
    Transacted new_store result.succeeded t
consolidate_store-Transacted_example =
    consolidate_store-Transacted (some topic_processor) request new_store new_store-IsSettled

abbrev context_request : MemoryContextRequest
context_request = record {
  agent_id = codes "a";
  session_id = codes "s";
  query = codes "log";
  token_budget = pos 4096;
  include_sections = [];
  metadata = empty_object;
}

limit_unset :
    is_nonneg (metadata_int context_request.metadata (codes "long_term_limit") (negsuc 0)) ≡ false
unfolding metadata_int
limit_unset = refl

long_term_memory_limit-Bounds_example :
    let limit = long_term_memory_limit (pos 4096) context_request in
    (is_nonneg limit ≡ true) × (1 ≤ to_ℕ limit) × (to_ℕ limit ≤ 50)
long_term_memory_limit-Bounds_example =
    long_term_memory_limit-Bounds (pos 4096) context_request limit_unset

abbrev payload : Text → MemoryPayloadRef
payload uri = record {
  agent_id = codes "a";
  session_id = codes "s";
  uri = uri;
  content_type = codes "text";
  summary = codes "log";
  tool_name = [];
  original_chars = pos 3;
  metadata = empty_object;
  created_at = 0;
}

abbrev two_payloads : List MemoryPayloadRef
two_payloads = payload (codes "p1") ∷ payload (codes "p2") ∷ []

abbrev log_query : List Text
log_query = codes "log" ∷ []

two_apart : Distinct same_uri two_payloads
unfolding text_eq
two_apart = ((refl, tt), (tt, tt))

select_payloads-Take_example :
    select_payloads log_query 1 [] 0 two_payloads
    ≡ take 1 (keep_if (matches_payload_query log_query) two_payloads)
select_payloads-Take_example = select_payloads-Take log_query 0 two_payloads two_apart

select_payloads-Selected_example :
    Selected log_query 1 [] 0 (select_payloads log_query 1 [] 0 two_payloads)
select_payloads-Selected_example =
    select_payloads-Selected log_query 1 [] 0 two_payloads (omega arith)

abbrev cited_snapshot : LongTermMemorySnapshot
cited_snapshot = record empty_snapshot {
  summaries =
      record {
        level = codes "topic";
        topic = codes "auto";
        summary = codes "summary";
        confidence = 500;
        source_refs = codes "r" ∷ codes "r" ∷ [];
        created_at = 0;
        updated_at = 0;
      }
      ∷ [];
}

collect_snapshot_citations-Cites_example :
    Distinct text_eq (collect_snapshot_citations [] cited_snapshot)
    × (mem_text (codes "r") (collect_snapshot_citations [] cited_snapshot) ≡ (
        any
          (names (λ (x : LongTermSummaryRecord). x.source_refs) (codes "r"))
          cited_snapshot.summaries
        || any (names (λ (x : MemoryEntity). x.source_refs) (codes "r")) cited_snapshot.entities
        || any
            (names (λ (x : MemoryRelation). x.source_refs) (codes "r"))
            cited_snapshot.relations))
collect_snapshot_citations-Cites_example =
    collect_snapshot_citations-Cites cited_snapshot (codes "r")
