-- ===== src/Payload/Read.antt =====
-- `PayloadService::ReadPayload` of src/core/payload_service.cpp and `LoadTextFile` of
-- src/utils/file_util.cpp.
use agent_memory_cpp.Prelude.{
  ◌+◌, Bool, true, false, not, ◌&&◌, Option, none, some, [], ◌∷◌, is_empty, if◌then◌else◌,
}
use agent_memory_cpp.Text.{Text, codes, starts_with}
use agent_memory_cpp.Types.{no_error, plain_error}
use agent_memory_cpp.Payload.Disk.{Disk, find_file, located}
use agent_memory_cpp.Payload.Paths.{is_path_inside_directory, canonical_path}
use agent_memory_cpp.Payload.Names.{MemoryPayloadReadResult, PayloadService}

abbrev pub readable : Bool → Option Text → Option Text
readable true content = content
readable false content = none

-- `LoadTextFile`: opening, asking for the size, and reading.
unfoldable pub load_text_file : Text → Disk → Option Text
unfolding find_file
load_text_file path d =
    readable
      (d.system.opens d.calls && d.system.stats (d.calls + 1) && d.system.reads (d.calls + 2))
      (find_file (located d.system path) d.files)

-- ref.substr(7)
abbrev pub drop_scheme : Text → Text
drop_scheme (a ∷ b ∷ c ∷ d ∷ e ∷ f ∷ g ∷ rest) = rest
drop_scheme _ = []

abbrev pub read_failed : Text → MemoryPayloadReadResult
read_failed message = record {
  succeeded = false;
  content = [];
  error = plain_error (codes "payload_read_failed") message;
}

abbrev pub content_read : Option Text → MemoryPayloadReadResult
content_read none = read_failed (codes "payload file is unreadable or does not exist")
content_read (some content) =
    if is_empty content
    then read_failed (codes "payload file is empty")
    else record { succeeded = true; content = content; error = no_error }

-- `ReadPayload`
unfoldable pub read_payload : Text → PayloadService → MemoryPayloadReadResult
unfolding starts_with is_path_inside_directory canonical_path load_text_file
read_payload ref service =
    let system = service.disk.system in
    let path = drop_scheme ref in
    if not (starts_with ref (codes "file://"))
    then read_failed (codes "unsupported payload ref scheme")
    else if is_empty service.canonical_payload_directory
    then read_failed (codes "payload directory path is not resolved")
    else if not (is_path_inside_directory system path service.canonical_payload_directory)
    then read_failed (codes "payload path outside configured payload directory")
    else content_read (load_text_file (canonical_path system path) service.disk)
