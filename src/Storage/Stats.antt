-- ===== src/Storage/Stats.antt =====
-- `GetStoreStats` of src/storage/sqlite_store.cpp.
use agent_memory_cpp.Prelude.{ℕ, true, false, List, [], ◌∷◌, ◌++◌, length, Action, if◌then◌else◌}
use agent_memory_cpp.Prelude.Int.{ℤ, pos, to_int32}
use agent_memory_cpp.Text.{Text, codes}
use agent_memory_cpp.Types.{MemoryStats, MemoryStatsResult, no_error}
use agent_memory_cpp.Storage.Tables.{Tables}
use agent_memory_cpp.Storage.Engine.{
  MemorySqliteStore, Fetched, not_prepared, broken, complete, fetch, sqlite_error, unavailable,
}

abbrev pub no_stats : MemoryStats
no_stats = record {
  events = pos 0;
  payloads = pos 0;
  summaries = pos 0;
  entities = pos 0;
  relations = pos 0;
}

-- One round of the loop: the query of a COUNT(*), and the field that takes its value.
pub record Count : Type 0 where
  pub query : Tables → ℕ
  pub field : ℤ → MemoryStats → MemoryStats

unfoldable pub counts : List Count
counts =
    record { query = λ t. length t.events; field = λ n stats. record stats { events = n } }
    ∷ record { query = λ t. length t.payloads; field = λ n stats. record stats { payloads = n } }
    ∷ record { query = λ t. length t.summaries; field = λ n stats. record stats { summaries = n } }
    ∷ record { query = λ t. length t.entities; field = λ n stats. record stats { entities = n } }
    ∷ record { query = λ t. length t.relations; field = λ n stats. record stats { relations = n } }
    ∷ []

abbrev stats_failed : Text → MemoryStats → MemorySqliteStore → MemoryStatsResult
stats_failed step stats s = record {
  succeeded = false;
  stats = stats;
  error = sqlite_error (codes "GetStoreStats::" ++ step) s;
}

-- The value that one round takes from its row, which is read as an `int`; `none` ends the loop.
abbrev counted : Count → MemoryStats → Fetched ℕ → MemoryStats
counted c stats (complete (n ∷ rows)) = c.field (to_int32 n) stats
counted c stats (broken (n ∷ rows)) = c.field (to_int32 n) stats
counted c stats _ = stats

abbrev failed_step : Fetched ℕ → List Text
failed_step not_prepared = codes "prepare" ∷ []
failed_step (broken []) = codes "step" ∷ []
failed_step _ = []

unfoldable pub count_rows : List Count → MemoryStats → Action MemorySqliteStore MemoryStatsResult
unfolding to_int32 fetch
count_rows [] stats s = (record { succeeded = true; stats = stats; error = no_error }, s)
count_rows (c ∷ cs) stats s =
    let (found, t) = fetch (λ tables. c.query tables ∷ []) s in
    let rest = count_rows cs (counted c stats found) t in
    elim (failed_step found) [ [] ↦ rest | step ∷ _ ↦ (stats_failed step stats t, t) ]

unfoldable pub get_store_stats : Action MemorySqliteStore MemoryStatsResult
unfolding counts count_rows
get_store_stats s =
    if s.opened
    then count_rows counts no_stats s
    else (record { succeeded = false; stats = no_stats; error = unavailable }, s)
