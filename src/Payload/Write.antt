-- ===== src/Payload/Write.antt =====
-- `PayloadService::WritePayload` of src/core/payload_service.cpp and the methods that it calls.
use agent_memory_cpp.Prelude.{
  Bool, true, false, not, ◌||◌, Option, none, some, [], ◌++◌, is_empty, length, Action,
  if◌then◌else◌,
}
use agent_memory_cpp.Prelude.Int.{to_int32, lt_int}
use agent_memory_cpp.Text.{Text, codes}
use agent_memory_cpp.Types.{MemoryError, no_error, plain_error, has_error, MemoryPayloadRef}
use agent_memory_cpp.Storage.Engine.{MemorySqliteStore}
use agent_memory_cpp.Storage.Payloads.{save_payload}
use agent_memory_cpp.Payload.Disk.{
  Disk, create_directories, exists, draw, open_truncated, write_file, rename_file, remove_file,
  last_message,
}
use agent_memory_cpp.Payload.Cleanup.{clean_temp_files}
use agent_memory_cpp.Payload.Paths.{join_path}
use agent_memory_cpp.Payload.Names.{
  MemoryPayloadWriteRequest, MemoryPayloadWriteResult, PayloadService, empty_payload,
  payload_directory, to_hex, build_payload_ref, build_payload_summary,
}

abbrev pub write_error : Text → Text → MemoryError
write_error message details = record {
  code = codes "payload_write_failed";
  message = message;
  details = details;
  retryable = false;
}

-- The file was not written: the temporary file is removed, whether that works or not.
unfoldable pub give_up : Text → Text → Text → Disk → Option MemoryError × Disk
give_up temp_path message details d =
    (some (write_error message details), (remove_file temp_path d).1)

-- The move of the temporary file to its place.
unfoldable pub finalize : Text → Text → Disk → Option MemoryError × Disk
finalize temp_path payload_path d =
    let (moved, e) = rename_file temp_path payload_path d in
    if moved
    then (none, e)
    else give_up temp_path (codes "failed to finalize payload file") (last_message e) e

-- Writing and closing of the open temporary file, and the move.
unfoldable pub write_opened : Text → Text → Text → Disk → Option MemoryError × Disk
write_opened temp_path payload_path content d =
    let (written, e) = write_file temp_path content d in
    if written
    then finalize temp_path payload_path e
    else give_up temp_path (codes "failed to write payload temp file") [] e

unfoldable pub write_through : Text → Text → Text → Disk → Option MemoryError × Disk
write_through temp_path payload_path content d =
    let (opened, e) = open_truncated temp_path d in
    if opened
    then write_opened temp_path payload_path content e
    else (some (write_error (codes "failed to open payload temp file for write") []), e)

-- `RandomHexSuffix` draws two numbers.
unfoldable pub random_hex_suffix : Action Disk Text
random_hex_suffix d =
    let (first, e) = draw d in let (second, f) = draw e in (to_hex first ++ to_hex second, f)

-- The temporary file, which has a name of its own.
unfoldable pub write_temp_file : Text → Text → Disk → Option MemoryError × Disk
write_temp_file payload_path content d =
    let (suffix, e) = random_hex_suffix d in
    let temp_path = payload_path ++ codes ".tmp." ++ suffix in
    let (taken, f) = exists temp_path e in
    if taken
    then (some (write_error (codes "payload temp file already exists") []), f)
    else write_through temp_path payload_path content f

-- Behind the creation of the directory.
unfoldable pub write_new_file : Text → Text → Disk → Option MemoryError × Disk
write_new_file payload_path content d =
    let (taken, e) = exists payload_path d in
    if taken
    then (some (write_error (codes "payload file already exists") []), e)
    else write_temp_file payload_path content e

-- `WritePayloadFileAtomically`: no error, or the one that it reports.
unfoldable pub write_payload_file_atomically : Text → Text → Disk → Option MemoryError × Disk
write_payload_file_atomically payload_path content d =
    let (created, e) = create_directories d in
    if created
    then write_new_file payload_path content e
    else (some (write_error (codes "failed to create payload directory") (last_message e)), e)

-- The content is passed on as it is.
abbrev pub kept_inline : Bool → Text → MemoryError → MemoryPayloadWriteResult
kept_inline succeeded content e = record {
  succeeded = succeeded;
  offloaded = false;
  payload = empty_payload;
  replacement_content = content;
  error = e;
}

unfoldable pub payload_of : MemoryPayloadWriteRequest → Text → MemoryPayloadRef
unfolding build_payload_summary to_int32
payload_of request payload_path = record empty_payload {
  agent_id = request.agent_id;
  session_id = request.session_id;
  uri = codes "file://" ++ payload_path;
  content_type = request.content_type;
  summary = build_payload_summary request;
  tool_name = request.tool_name;
  original_chars = to_int32 (length request.content);
}

abbrev orphan_details : Text → Text → Text → Text
orphan_details details payload_path message =
    (if is_empty details then details else details ++ codes "; ")
    ++ codes "orphan payload file remaining: "
    ++ payload_path
    ++ codes ", remove error: "
    ++ message

-- The error where the metadata was not saved.
unfoldable pub save_error : MemoryError → Bool → Text → Text → MemoryError
save_error e removed payload_path message =
    let base =
      if has_error e then e else write_error (codes "failed to persist payload metadata") [] in
    if removed
    then base
    else record base { details = orphan_details base.details payload_path message }

-- The metadata of a payload whose file was written; if they are not saved, the file is removed.
unfoldable pub save_metadata :
    MemoryPayloadWriteRequest
    → Text
    → MemorySqliteStore
    → PayloadService
    → MemoryPayloadWriteResult × PayloadService
save_metadata request payload_path store service =
    let payload = payload_of request payload_path in
    let (saved, t) = save_payload payload store in
    let (removed, e) = remove_file payload_path service.disk in
    if saved.succeeded
    then (
      record {
        succeeded = true;
        offloaded = true;
        payload = payload;
        replacement_content =
            codes "[memory-ref: " ++ payload.uri ++ codes "]\n" ++ payload.summary;
        error = no_error;
      },
      record service { store = some t },
    )
    else (
      record {
        succeeded = false;
        offloaded = false;
        payload = payload;
        replacement_content = request.content;
        error = save_error saved.error removed payload_path (last_message e);
      },
      record service { store = some t; disk = e },
    )

-- Behind the writing of the file.
unfoldable pub after_file :
    MemoryPayloadWriteRequest
    → Text
    → MemorySqliteStore
    → PayloadService
    → Option MemoryError
    → MemoryPayloadWriteResult × PayloadService
after_file request payload_path store service (some error) =
    (kept_inline false request.content error, service)
after_file request payload_path store service none =
    save_metadata request payload_path store service

-- The file and then the metadata.
unfoldable pub offload :
    MemoryPayloadWriteRequest
    → MemorySqliteStore
    → PayloadService
    → MemoryPayloadWriteResult × PayloadService
offload request store service =
    let (first, d) = draw service.disk in
    let (second, e) = draw d in
    let ref = build_payload_ref request first second in
    let payload_path = join_path (payload_directory service) (ref ++ codes ".txt") in
    let (failure, f) = write_payload_file_atomically payload_path request.content e in
    after_file request payload_path store (record service { disk = f }) failure

-- The tests that keep the content inline.
unfoldable pub stays_inline : MemoryPayloadWriteRequest → PayloadService → Bool
unfolding to_int32
stays_inline request service =
    not service.enable_payload_offload
    || is_empty request.content
    || lt_int (to_int32 (length request.content)) service.offload_threshold_chars

-- Offloading needs a store.
unfoldable pub offload_to :
    MemoryPayloadWriteRequest
    → PayloadService
    → Option MemorySqliteStore
    → MemoryPayloadWriteResult × PayloadService
offload_to request service none = (
  kept_inline false request.content (
      plain_error (codes "payload_store_unavailable")
        (codes "payload offload requires a persistent store for metadata")),
  service,
)
offload_to request service (some store) =
    let disk = clean_temp_files (payload_directory service) service.disk in
    offload request store (record service { disk = disk })

-- `WritePayload`
unfoldable pub write_payload :
    MemoryPayloadWriteRequest → PayloadService → MemoryPayloadWriteResult × PayloadService
write_payload request service =
    if stays_inline request service
    then (kept_inline true request.content no_error, service)
    else offload_to request service service.store
