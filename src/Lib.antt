-- ===== src/Lib.antt =====
-- Verification of the agent memory runtime: a library that keeps an agent's events, payloads and
-- long-term memory in SQLite, and distils long-term memory from events.
--
-- Parts of the program and the modules that model them:
-- - Types: the data of include/agent_memory/*.h and src/storage/store.h.
-- - Text, Text.Decimal, Json: strings as lists of character codes, src/utils/string_util.cpp, decimal
--   numbers as std::to_string and std::stoll have them, JSON values and the helpers of
--   src/serialization/json_helpers.h.
-- - Storage: MemorySqliteStore of src/storage/sqlite_store.cpp. Storage.Tables has the rows and tables
--   of its schema, Storage.Engine the connection, Storage.Events, Payloads, Summaries, Entities,
--   Relations and Cursors the methods that save and load them (save_event is SaveEvent,
--   save_event_unlocked is SaveEventUnlocked, and so on), Storage.Transaction is RunInTransaction and
--   the transaction object (in_transaction, save_summary and so on), Storage.LongTerm is
--   LoadLongTermMemory, Storage.Stats is GetStoreStats.
-- - Storage.Search: SearchLongTermMemory. Query has the escaping of queries (fts5_escape_query,
--   escape_like_pattern), Like the LIKE operator of SQLite, Rows the six queries, Hits the results, their
--   scores and SortAndLimitSearchResults, Run the method with its two ways of searching.
-- - Consolidation: src/consolidation. Consolidation.Batch is ConsolidationBatchBuilder::Build (build),
--   Consolidation.Writer is MemoryUpdateWriter (save_session_summary, save_update),
--   Consolidation.Service is ConsolidationService::Consolidate (consolidate),
--   Consolidation.Rules is RuleBasedLongTermMemoryProcessor (process), Consolidation.Model is
--   LlmLongTermMemoryProcessor (ask_model is its Process).
-- - Runtime: src/core/builtin_memory_runtime.cpp. Runtime itself is ConsolidateWithModel and AppendEvent,
--   Runtime.Calls the other calls (runtime_write_payload is WritePayload, and so on), Runtime.Creation
--   is CreateRuntimeServices with src/core/runtime_paths.cpp and
--   src/core/runtime_store_initializer.cpp, Runtime.Served has sequences of calls.
-- - Context: src/core/context_builder.cpp and src/core/payload_query.cpp. Context.Selection and
--   Context.LongTerm choose what a context has, Context.Package has the data and the rendering of texts,
--   Context.Citations the citations, Context.Build is BuildContext.
-- - Payload: src/core/payload_service.cpp, src/utils/path_util.cpp and src/utils/file_util.cpp.
--   Payload.Disk has the files, Payload.Paths is IsPathInsideDirectory, Payload.Names has the names of
--   files, Payload.Cleanup is ScheduleTempFileCleanup, Payload.Write is WritePayload with
--   WritePayloadFileAtomically, Payload.Read is ReadPayload with LoadTextFile.
-- - Server: Server.Options is src/server/server_options.cpp, with exceptions as results
--   (Prelude.Result), Server.Cli is src/server/server_cli.cpp.
-- - History: sequences of calls of the store and of consolidation.
-- The other modules below these hold proofs and are named for what they prove; Tests has concrete
-- inputs.
--
-- How the parts interact: consolidation gets events that LoadEventsAfterCursor has read, builds a
-- batch, has a processor make an update of it, and writes the update and the next cursor through the
-- transaction object inside RunInTransaction. The context builder reads the store's events, payloads and
-- long-term memory, or searches it where the request has a query. The payload service writes a file and
-- then saves its metadata in the store.
--
-- How it is modelled: a method is a function from the store to its result and the store after it. The
-- store has the tables, the tables that an open transaction will restore, and the number of calls of
-- SQLite so far. SQLite itself is not modelled. Whether each of its calls succeeds is asked of the
-- parameter Engine by the call's number, so the theorems hold for every pattern of failures; that
-- ROLLBACK succeeds is a named hypothesis where it is needed. A statement that fails changes no row.
-- Text is bound up to its first NUL. The model of a JSON library's dump and parse is a parameter too.
-- A mutex guards each method in the program; the model has methods run one after the other. Numbers
-- are unbounded but for the bounds that the code states: int is cut to 32 bits where the code casts to
-- it, and cursors are read as 64-bit numbers, with 0 where that fails. Confidences are numbers of
-- thousandths. Every loop is structural recursion; to_string and to_hex have
-- fuel for one more digit than they need. A std::size_t has 64 bits.
--
-- Of the full-text index, the record FullText has which texts MATCH a query, the rank that bm25 gives a
-- row, and the arithmetic of doubles; print_float prints a double. LIKE compares bytes, which SQLite
-- does for characters: they agree on ASCII texts and on valid UTF-8, since no pattern has a `_` that is
-- not escaped. std::sort leaves the order of equal hits open, and the model keeps the one before. The
-- file system is the record FileSystem: whether each of its calls succeeds, the random numbers, and how
-- a path resolves, which does not change in time. Files are changed by the modelled calls only. The cleanup of temporary files runs in a thread
-- of its own in the program, and before the write of the payload in the model.
--
-- Not modelled: opening and migrating the database, which runs SQL scripts; the JSON codec, the
-- servers and protocols, the model clients, and the vendored libraries.
mod Prelude
pub mod Text
pub mod Json
pub mod Types
pub mod Storage
pub mod Consolidation
pub mod History
mod Tests
pub mod Runtime
pub mod Server
pub mod Context
pub mod Payload
