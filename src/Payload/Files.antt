-- ===== src/Payload/Files.antt =====
-- Looking for a file behind the operations on files (src/core/payload_service.cpp).
use agent_memory_cpp.Prelude.{
  ◌≡◌, refl, ap, subst, ◌∙◌, true, false, none, some, List, [], ◌∷◌, arith, inl, inr, Bool-cases,
  if◌then◌else◌,
}
use agent_memory_cpp.Text.{Text, text_eq, text_eq_sound}
use agent_memory_cpp.Payload.Disk.{File, find_file, without_file, put_file, move_file}

pub find-without :
    (name gone : Text) (files : List File)
    → find_file name (without_file gone files)
      ≡ (if text_eq gone name then none else find_file name files)
unfolding find_file without_file
find-without name gone [] = ground arith
find-without name gone (file ∷ files) = elim (Bool-cases (text_eq file.name gone)) [
  | inl e ↦ rw e (
      ground (
        arith,
        find-without name gone files,
        ap (λ n. text_eq n name) (text_eq_sound file.name gone e),
      ))
  | inr e ↦ rw e (ground (arith, find-without name gone files, other e))
]
  where
    other :
        text_eq file.name gone ≡ false → text_eq gone name ≡ true → text_eq file.name name ≡ false
    other e same = subst (λ n. text_eq file.name n ≡ false) (text_eq_sound gone name same) e

pub find-put :
    (name new content : Text) (files : List File)
    → find_file name (put_file new content files)
      ≡ (if text_eq new name then some content else find_file name files)
unfolding find_file put_file
find-put name new content files = ground (arith, find-without name new files)

move_file_found :
    (from to content : Text) (files : List File)
    → find_file from files ≡ some content
    → move_file from to files ≡ put_file to content (without_file from files)
unfolding move_file
move_file_found from to content files h = rw (move_file, h) refl

pub find-move :
    (name from to content : Text) (files : List File)
    → find_file from files ≡ some content
    → find_file name (move_file from to files) ≡ (
        if text_eq to name
        then some content
        else if text_eq from name
        then none
        else find_file name files)
find-move name from to content files h = rw (move_file_found from to content files h) (
    find-put name to content (without_file from files)
    ∙ ground (arith, find-without name from files))

-- What was not there before is not there behind its removal.
pub find-without_none :
    (name gone : Text) (files : List File)
    → find_file gone files ≡ none
    → find_file name (without_file gone files) ≡ find_file name files
find-without_none name gone files h = elim (Bool-cases (text_eq gone name)) [
  | inl e ↦
      find-without name gone files
      ∙ ground (arith, e, subst (λ n. find_file n files ≡ none) (text_eq_sound gone name e) h)
  | inr e ↦ find-without name gone files ∙ ground (arith, e)
]
