-- ===== src/Payload/Cleanup.antt =====
-- `ScheduleTempFileCleanup` and `IsExpired` of src/core/payload_service.cpp. The thread that the code
-- starts is taken to run at once: it removes only temporary files that are older than a day.
use agent_memory_cpp.Prelude.{Bool, false, Option, none, some, List, [], ◌∷◌, ◌==◌, if◌then◌else◌}
use agent_memory_cpp.Text.{Text, codes, contains}
use agent_memory_cpp.Payload.Disk.{Disk, File, remove_named, located, next}
use agent_memory_cpp.Payload.Paths.{join_path}

unfoldable pub strip_prefix : Text → Text → Option Text
strip_prefix [] text = some text
strip_prefix (p ∷ prefix) [] = none
strip_prefix (p ∷ prefix) (c ∷ cs) = if p == c then strip_prefix prefix cs else none

-- A name without a separator.
abbrev direct : Option Text → Option Text
unfolding contains
direct none = none
direct (some name) = if contains name (codes "/") then none else some name

-- The name of a file in a directory, if it lies there directly.
unfoldable pub entry_name : Text → Text → Option Text
unfolding strip_prefix contains join_path
entry_name directory name = direct (strip_prefix (join_path directory []) name)

abbrev pub is_temp_name : Option Text → Bool
unfolding contains
is_temp_name none = false
is_temp_name (some name) = contains name (codes ".txt.tmp.")

-- One round of the loop over a directory.
unfoldable pub clean_entry : Text → File → Disk → Disk
unfolding entry_name contains remove_named
clean_entry directory file d =
    if is_temp_name (entry_name directory file.name)
    then (if d.system.expired d.calls then (remove_named file.name (next d)).1 else next d)
    else d

unfoldable pub clean_entries : Text → List File → Disk → Disk
unfolding clean_entry
clean_entries directory [] d = d
clean_entries directory (file ∷ files) d =
    clean_entries directory files (clean_entry directory file d)

unfoldable pub clean_temp_files : Text → Disk → Disk
unfolding clean_entries
clean_temp_files directory d =
    if d.system.stats d.calls
    then clean_entries (located d.system directory) d.files (next d)
    else next d
