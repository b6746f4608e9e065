-- ===== src/Storage/Summaries.antt =====
-- The summary table: `SaveSummary` of src/storage/sqlite_store.cpp.
use agent_memory_cpp.Prelude.{suc, Bool, List, [], ◌∷◌, ◌++◌, ℕ, Action}
use agent_memory_cpp.Text.{Text, codes}
use agent_memory_cpp.Json.{Float}
use agent_memory_cpp.Types.{MemoryOperationResult, Timestamp}
use agent_memory_cpp.Storage.Tables.{Tables, SummaryRow, c_str}
use agent_memory_cpp.Storage.Engine.{
  Engine, MemorySqliteStore, run_statement, guarded, serialize_source_refs,
}

-- The arguments of `SaveSummary`.
pub record SummaryInput : Type 0 where
  pub agent_id : Text
  pub session_id : Text
  pub level : Text
  pub topic : Text
  pub summary : Text
  pub confidence : Float
  pub source_refs : List Text

unfoldable pub summary_row : Engine → SummaryInput → ℕ → Timestamp → SummaryRow
unfolding c_str serialize_source_refs
summary_row engine input id now = record {
  id = id;
  agent_id = c_str input.agent_id;
  session_id = c_str input.session_id;
  level = c_str input.level;
  topic = c_str input.topic;
  summary = c_str input.summary;
  source_refs_json = c_str (serialize_source_refs engine input.source_refs);
  confidence = input.confidence;
  created_at = now;
  updated_at = now;
}

unfoldable pub insert_summary : Engine → SummaryInput → Timestamp → Tables → Tables
unfolding summary_row
insert_summary engine input now t = record t {
  summaries = t.summaries ++ summary_row engine input (suc t.sequence.summaries) now ∷ [];
  sequence = record t.sequence { summaries = suc t.sequence.summaries };
}

unfoldable pub save_summary_unlocked : SummaryInput → Action MemorySqliteStore Bool
unfolding insert_summary run_statement
save_summary_unlocked input s = run_statement (insert_summary s.engine input) s

unfoldable pub save_summary : SummaryInput → Action MemorySqliteStore MemoryOperationResult
unfolding save_summary_unlocked guarded
save_summary input = guarded (codes "SaveSummary") (save_summary_unlocked input)
