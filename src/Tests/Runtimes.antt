-- ===== src/Tests/Runtimes.antt =====
-- Inputs for the theorems on sequences of calls of a runtime.
use agent_memory_cpp.Prelude.{ℕ, ◌≡◌, refl, true, false, none, some, List, [], ◌∷◌}
use agent_memory_cpp.Text.{codes}
use agent_memory_cpp.Storage.Engine.{run_statement, guarded}
use agent_memory_cpp.Storage.Payloads.{save_payload, save_payload_unlocked}
use agent_memory_cpp.Payload.Cleanup.{
  clean_temp_files, clean_entries, clean_entry, entry_name, is_temp_name,
}
use agent_memory_cpp.Payload.Disk.{
  located, create_directories, exists, draw, open_truncated, write_file, rename_file,
}
use agent_memory_cpp.Payload.Paths.{components}
use agent_memory_cpp.Payload.Names.{PayloadService, payload_directory, build_payload_ref}
use agent_memory_cpp.Payload.Write.{
  write_payload, write_payload_file_atomically, stays_inline, offload_to, offload, after_file,
  save_metadata, write_new_file, write_temp_file, write_through, write_opened, finalize, give_up,
  random_hex_suffix, payload_of,
}
use agent_memory_cpp.Payload.Read.{drop_scheme}
use agent_memory_cpp.Payload.RoundTrip.{IsReadable, read_back}
use agent_memory_cpp.Runtime.{RuntimeServices}
use agent_memory_cpp.Runtime.Calls.{runtime_read_payload, runtime_write_payload, get_stats}
use agent_memory_cpp.Runtime.Served.{
  RuntimeCall, event_appended, payload_written, stats_read, serve, serve_all,
}
use agent_memory_cpp.Runtime.Settled.{StoreIsSettled, serve_all-IsSettled}
use agent_memory_cpp.Runtime.Lasting.{read-serve_all}
use agent_memory_cpp.Tests.{new_store, new_store-IsSettled, first_message}
use agent_memory_cpp.Tests.Payloads.{service, request, offloaded}

abbrev services : RuntimeServices
services = record {
  store = some new_store;
  store_error = [];
  payload_service = some service;
  context_builder = none;
  has_consolidation_service = true;
  model_client = none;
  model_client_error = [];
}

abbrev calls : List RuntimeCall
calls = event_appended first_message ∷ payload_written request ∷ stats_read ∷ []

serve_all-IsSettled_example : StoreIsSettled (serve_all calls services).store
serve_all-IsSettled_example = serve_all-IsSettled calls services new_store-IsSettled

-- The runtime behind a first write, and the service behind a second.
abbrev started : RuntimeServices
started = record services {
  store = (write_payload request service).1.store;
  payload_service = some (write_payload request service).1;
}

abbrev more_calls : List RuntimeCall
more_calls = payload_written request ∷ stats_read ∷ []

abbrev after : PayloadService
after = (write_payload request (write_payload request service).1).1

started_served : (serve_all more_calls started).payload_service ≡ some after
unfolding serve_all serve runtime_write_payload get_stats write_payload stays_inline offload_to
    offload after_file save_metadata write_payload_file_atomically write_new_file write_temp_file
    write_through write_opened finalize give_up random_hex_suffix create_directories exists draw
    open_truncated write_file rename_file clean_temp_files clean_entries clean_entry entry_name
    payload_directory build_payload_ref payload_of save_payload save_payload_unlocked run_statement
    guarded
started_served = refl

after-IsReadable : IsReadable after (write_payload request service).0.payload.uri
unfolding write_payload stays_inline offload_to offload after_file save_metadata
    write_payload_file_atomically write_new_file write_temp_file write_through write_opened finalize
    give_up random_hex_suffix create_directories exists draw open_truncated write_file rename_file
    clean_temp_files clean_entries clean_entry entry_name payload_directory build_payload_ref
    payload_of save_payload save_payload_unlocked run_statement guarded components
after-IsReadable = record {
  resolved = codes "/d/memory_runtime/payloads/___s_t_1_23.txt";
  root = codes "/d/memory_runtime/payloads";
  kept = refl;
  named = refl;
  stable = refl;
  rooted = refl;
  below = record { name = codes "___s_t_1_23.txt"; others = []; shape = refl };
  opens = refl;
  sized = refl;
  reads = refl;
}

no_temp_name :
    is_temp_name (
      entry_name
        (located
          (write_payload request service).1.disk.system
          (payload_directory (write_payload request service).1))
        (located
          (write_payload request service).1.disk.system
          (drop_scheme (write_payload request service).0.payload.uri)))
    ≡ false
unfolding write_payload stays_inline offload_to offload after_file save_metadata
    write_payload_file_atomically write_new_file write_temp_file write_through write_opened finalize
    give_up random_hex_suffix create_directories exists draw open_truncated write_file rename_file
    clean_temp_files clean_entries clean_entry entry_name payload_directory build_payload_ref
    payload_of save_payload save_payload_unlocked run_statement guarded
no_temp_name = refl

stats_work : (n : ℕ) → (write_payload request service).1.disk.system.stats n ≡ true
unfolding write_payload stays_inline offload_to offload after_file save_metadata
    write_payload_file_atomically write_new_file write_temp_file write_through write_opened finalize
    give_up random_hex_suffix create_directories exists draw open_truncated write_file rename_file
    clean_temp_files clean_entries clean_entry entry_name payload_directory build_payload_ref
    payload_of save_payload save_payload_unlocked run_statement guarded
stats_work n = refl

read-serve_all_example :
    runtime_read_payload
      (write_payload request service).0.payload.uri
      (serve_all more_calls started)
    ≡ read_back (codes "long text")
read-serve_all_example =
    read-serve_all request service after started more_calls offloaded refl stats_work no_temp_name
      started_served after-IsReadable
