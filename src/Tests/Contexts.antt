-- ===== src/Tests/Contexts.antt =====
-- Inputs for the theorems on the building of a context.
use agent_memory_cpp.Prelude.{[]}
use agent_memory_cpp.Prelude.Int.{pos}
use agent_memory_cpp.Text.{Text, codes}
use agent_memory_cpp.Json.{Float, empty_object}
use agent_memory_cpp.Storage.Reads.{OnlyReads}
use agent_memory_cpp.Context.{MemoryContextRequest}
use agent_memory_cpp.Context.Build.{build_context}
use agent_memory_cpp.Context.Reads.{build_context-OnlyReads}
use agent_memory_cpp.Context.Assembly.{IsOutcome, build_context-IsOutcome}
use agent_memory_cpp.Tests.Searches.{column_index, tea_store}

abbrev context_request : MemoryContextRequest
context_request = record {
  agent_id = codes "a";
  session_id = codes "s";
  query = codes "tea";
  token_budget = pos 1000;
  include_sections = [];
  metadata = empty_object;
}

abbrev print_float : Float → Text
print_float f = codes "0.5"

build_context-OnlyReads_example :
    OnlyReads tea_store
      (build_context column_index print_float (pos 4096) context_request tea_store).1
build_context-OnlyReads_example =
    build_context-OnlyReads column_index print_float (pos 4096) context_request tea_store

build_context-IsOutcome_example :
    IsOutcome context_request
      (build_context column_index print_float (pos 4096) context_request tea_store).0
build_context-IsOutcome_example =
    build_context-IsOutcome column_index print_float (pos 4096) context_request tea_store
