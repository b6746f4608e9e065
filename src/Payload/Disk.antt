-- ===== src/Payload/Disk.antt =====
-- The files that src/core/payload_service.cpp works on. The operating system is not modelled:
-- whether an operation succeeds, what a file name resolves to and which numbers are drawn is up to a
-- parameter, which is asked by the number of the operation. An operation that fails changes nothing,
-- but for a failed write, which may leave any part of the text. Other processes do not touch the
-- files, and what a name resolves to does not change.
use agent_memory_cpp.Prelude.{
  ℕ, suc, Bool, true, false, ◌&&◌, Option, none, some, List, [], ◌∷◌, take, Action, if◌then◌else◌,
}
use agent_memory_cpp.Text.{Text, text_eq}

pub record FileSystem : Type 0 where
  -- std::filesystem::create_directories, exists, rename and remove without an error.
  pub creates : ℕ → Bool
  pub stats : ℕ → Bool
  pub renames : ℕ → Bool
  pub removes : ℕ → Bool
  -- std::ofstream and std::ifstream: opened, written, read.
  pub opens : ℕ → Bool
  pub writes : ℕ → Bool
  pub written : ℕ → ℕ
  pub reads : ℕ → Bool
  -- The last write of a regular file is longer ago than the limit.
  pub expired : ℕ → Bool
  pub error_message : ℕ → Text
  -- A number that the generator draws.
  pub random : ℕ → ℕ
  -- std::filesystem::weakly_canonical
  pub weakly_canonical : Text → Option Text

-- A file by its resolved name.
pub record File : Type 0 where
  pub name : Text
  pub content : Text

pub record Disk : Type 0 where
  pub system : FileSystem
  pub files : List File
  pub calls : ℕ

-- The file that a path names.
abbrev pub located : FileSystem → Text → Text
located system path = elim (system.weakly_canonical path) [ none ↦ path | some name ↦ name ]

abbrev pub is_named : Text → File → Bool
unfolding text_eq
is_named name file = text_eq file.name name

unfoldable pub find_file : Text → List File → Option Text
unfolding text_eq
find_file name [] = none
find_file name (file ∷ files) =
    if is_named name file then some file.content else find_file name files

unfoldable pub without_file : Text → List File → List File
unfolding text_eq
without_file name [] = []
without_file name (file ∷ files) =
    let rest = without_file name files in if is_named name file then rest else file ∷ rest

-- The files with the content of one of them, which is new or not.
unfoldable pub put_file : Text → Text → List File → List File
unfolding without_file
put_file name content files = record { name = name; content = content } ∷ without_file name files

abbrev pub next : Disk → Disk
next d = record d { calls = suc d.calls }

-- A directory is no file here: creating one changes no file.
unfoldable pub create_directories : Action Disk Bool
create_directories d = (d.system.creates d.calls, next d)

abbrev pub is_some {ℓ} : {A : Type ℓ} → Option A → Bool
is_some none = false
is_some (some a) = true

unfoldable pub exists : Text → Action Disk Bool
unfolding find_file
exists path d =
    (d.system.stats d.calls && is_some (find_file (located d.system path) d.files), next d)

unfoldable pub draw : Action Disk ℕ
draw d = (d.system.random d.calls, next d)

-- Opening for writing with `trunc` leaves an empty file.
unfoldable pub open_truncated : Text → Action Disk Bool
unfolding put_file
open_truncated path d =
    if d.system.opens d.calls
    then (
      true,
      record d { files = put_file (located d.system path) [] d.files; calls = suc d.calls },
    )
    else (false, next d)

-- Writing to the open file and closing it.
unfoldable pub write_file : Text → Text → Action Disk Bool
unfolding put_file take
write_file path content d =
    let kept =
      if d.system.writes d.calls then content else take (d.system.written d.calls) content in
    (
      d.system.writes d.calls,
      record d { files = put_file (located d.system path) kept d.files; calls = suc d.calls },
    )

unfoldable pub move_file : Text → Text → List File → List File
unfolding find_file put_file without_file
move_file from to files = elim (find_file from files) [
  | none ↦ files
  | some content ↦ put_file to content (without_file from files)
]

unfoldable pub rename_file : Text → Text → Action Disk Bool
unfolding move_file
rename_file from to d =
    if d.system.renames d.calls
    then (
      true,
      record d {
        files = move_file (located d.system from) (located d.system to) d.files;
        calls = suc d.calls;
      },
    )
    else (false, next d)

-- Removing what does not exist is no error.
unfoldable pub remove_named : Text → Action Disk Bool
unfolding without_file
remove_named name d =
    if d.system.removes d.calls
    then (true, record d { files = without_file name d.files; calls = suc d.calls })
    else (false, next d)

unfoldable pub remove_file : Text → Action Disk Bool
unfolding remove_named
remove_file path d = remove_named (located d.system path) d

-- The message of the operation that has failed last.
abbrev pub last_message : Disk → Text
last_message d = d.system.error_message d.calls
