-- ===== src/Tests/Payloads.antt =====
-- Inputs for the theorems on the payload service.
use agent_memory_cpp.Prelude.{◌≡◌, refl, true, false, some, [], ◌∷◌, ◌↔◌, suc}
use agent_memory_cpp.Prelude.Int.{pos}
use agent_memory_cpp.Text.{Text, codes}
use agent_memory_cpp.Storage.Engine.{run_statement, guarded}
use agent_memory_cpp.Storage.Payloads.{save_payload, save_payload_unlocked}
use agent_memory_cpp.Payload.Cleanup.{clean_temp_files}
use agent_memory_cpp.Payload.Disk.{
  Disk, located, create_directories, exists, draw, open_truncated, write_file, rename_file,
}
use agent_memory_cpp.Payload.Paths.{
  components, is_path_inside_directory, IsBelow, is_path_inside_directory_iff,
}
use agent_memory_cpp.Payload.Names.{
  MemoryPayloadWriteRequest, PayloadService, payload_directory, build_payload_ref,
}
use agent_memory_cpp.Payload.Write.{
  write_payload, write_payload_file_atomically, stays_inline, offload_to, offload, after_file,
  save_metadata, write_new_file, write_temp_file, write_through, write_opened, finalize, give_up,
  random_hex_suffix, payload_of,
}
use agent_memory_cpp.Payload.Read.{read_payload}
use agent_memory_cpp.Payload.Atomic.{Written, write_payload_file_atomically-Written}
use agent_memory_cpp.Payload.Outcome.{IsKept, write_payload-IsKept}
use agent_memory_cpp.Payload.Confined.{IsConfined, read_payload-IsConfined}
use agent_memory_cpp.Payload.RoundTrip.{IsReadable, read_back, read-write}
use agent_memory_cpp.Tests.{new_store}

-- A disk on which everything works, and every name is its own resolved name.
abbrev sure_disk : Disk
sure_disk = record {
  system = record {
    creates = λ n. true;
    stats = λ n. true;
    renames = λ n. true;
    removes = λ n. true;
    opens = λ n. true;
    writes = λ n. true;
    written = λ n. 0;
    reads = λ n. true;
    expired = λ n. false;
    error_message = λ n. [];
    random = λ n. suc n;
    weakly_canonical = λ path. some path;
  };
  files = [];
  calls = 0;
}

abbrev pub service : PayloadService
service = record {
  enable_payload_offload = true;
  offload_threshold_chars = pos 4;
  data_path = codes "/d";
  canonical_payload_directory = codes "/d/memory_runtime/payloads";
  store = some new_store;
  disk = sure_disk;
}

abbrev pub request : MemoryPayloadWriteRequest
request = record {
  agent_id = codes "a";
  session_id = codes "../s";
  content = codes "long text";
  content_type = codes "text/plain";
  tool_call_id = codes "t/1";
  tool_name = [];
}

payload_offloaded :
    (write_payload request service).0.payload.uri
    ≡ codes "file:///d/memory_runtime/payloads/___s_t_1_23.txt"
unfolding write_payload stays_inline offload_to offload after_file save_metadata
    write_payload_file_atomically write_new_file write_temp_file write_through write_opened finalize
    give_up random_hex_suffix create_directories exists draw open_truncated write_file rename_file
    clean_temp_files payload_directory build_payload_ref payload_of save_payload
    save_payload_unlocked run_statement guarded
payload_offloaded = refl

pub offloaded : (write_payload request service).0.offloaded ≡ true
unfolding write_payload stays_inline offload_to offload after_file save_metadata
    write_payload_file_atomically write_new_file write_temp_file write_through write_opened finalize
    give_up random_hex_suffix create_directories exists draw open_truncated write_file rename_file
    clean_temp_files payload_directory build_payload_ref payload_of save_payload
    save_payload_unlocked run_statement guarded
offloaded = refl

write_payload_file_atomically-Written_example :
    Written sure_disk.files
      (located sure_disk.system (codes "/d/x.txt"))
      (codes "long text")
      (write_payload_file_atomically (codes "/d/x.txt") (codes "long text") sure_disk)
write_payload_file_atomically-Written_example =
    write_payload_file_atomically-Written (codes "/d/x.txt") (codes "long text") sure_disk
      (λ n. refl) (λ n. refl)

write_payload-IsKept_example : IsKept request service (write_payload request service)
write_payload-IsKept_example = write_payload-IsKept request service

is_path_inside_directory_iff_example :
    (is_path_inside_directory sure_disk.system (codes "/d/x/y") (codes "/d/x") ≡ true)
    ↔ IsBelow (components (codes "/d/x")) (components (codes "/d/x/y"))
is_path_inside_directory_iff_example =
    is_path_inside_directory_iff sure_disk.system (codes "/d/x/y") (codes "/d/x") (codes "/d/x")
      (codes "/d/x/y") refl refl

written-IsReadable :
    IsReadable (write_payload request service).1 (write_payload request service).0.payload.uri
unfolding write_payload stays_inline offload_to offload after_file save_metadata
    write_payload_file_atomically write_new_file write_temp_file write_through write_opened finalize
    give_up random_hex_suffix create_directories exists draw open_truncated write_file rename_file
    clean_temp_files payload_directory build_payload_ref payload_of save_payload
    save_payload_unlocked run_statement guarded components
written-IsReadable = record {
  resolved = codes "/d/memory_runtime/payloads/___s_t_1_23.txt";
  root = codes "/d/memory_runtime/payloads";
  kept = refl;
  named = refl;
  stable = refl;
  rooted = refl;
  below = record { name = codes "___s_t_1_23.txt"; others = []; shape = refl };
  opens = refl;
  sized = refl;
  reads = refl;
}

read-write_example :
    read_payload (write_payload request service).0.payload.uri (write_payload request service).1
    ≡ read_back (codes "long text")
read-write_example = read-write request service offloaded written-IsReadable

-- A service whose directory has a file.
abbrev filled : PayloadService
filled = record service {
  disk = record sure_disk {
    files = record { name = codes "/d/memory_runtime/payloads/x"; content = codes "text" } ∷ [];
  };
}

abbrev x_ref : Text
x_ref = codes "file:///d/memory_runtime/payloads/x"

x_read : (read_payload x_ref filled).succeeded ≡ true
unfolding read_payload
x_read = refl

read_payload-IsConfined_example : IsConfined filled x_ref (read_payload x_ref filled).content
read_payload-IsConfined_example = read_payload-IsConfined x_ref filled x_read
