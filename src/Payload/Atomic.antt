-- ===== src/Payload/Atomic.antt =====
-- What `WritePayloadFileAtomically` of src/core/payload_service.cpp does to the files.
use agent_memory_cpp.Prelude.{
  ℕ, suc, ◌≡◌, refl, sym, ap, subst, ◌∙◌, true, false, Option, none, some, List, [], ◌++◌, ◌⊎◌, inl,
  inr, Bool-cases, if_either, arith, if◌then◌else◌, take,
}
use agent_memory_cpp.Text.{Text, codes, text_eq, text_eq_refl, text_eq_sound}
use agent_memory_cpp.Types.{MemoryError}
use agent_memory_cpp.Payload.Disk.{
  Disk, File, find_file, without_file, put_file, move_file, located, exists, draw,
  create_directories, next,
}
use agent_memory_cpp.Payload.Files.{find-without, find-put, find-move}
use agent_memory_cpp.Payload.Steps.{
  give_up_error, exists_absent, give_up_removed, finalize_moved, finalize_stuck, write_opened_done,
  write_opened_failed, write_through_opened, write_through_shut,
}
use agent_memory_cpp.Payload.Write.{
  write_error, give_up, finalize, write_opened, write_through, write_temp_file, write_new_file,
  random_hex_suffix, write_payload_file_atomically,
}

-- The files behind a write: those of before and the new one, or exactly those of before.
abbrev pub Written : List File → Text → Text → Option MemoryError × Disk → Type 0
Written before name content result =
    ((result.0 ≡ none)
      × ((other : Text)
          → find_file other result.1.files
            ≡ (if text_eq name other then some content else find_file other before)))
    ⊎ ((error : MemoryError) × (result.0 ≡ some error)
        × ((other : Text) → find_file other result.1.files ≡ find_file other before))

-- The files differ at most in one name.
abbrev Apart : List File → Text → List File → Type 0
Apart before temp files =
    (other : Text) → text_eq temp other ≡ false → find_file other files ≡ find_file other before

gone :
    (before : List File) (temp : Text) (files : List File)
    → find_file temp before ≡ none
    → Apart before temp files
    → (other : Text) → find_file other (without_file temp files) ≡ find_file other before
gone before temp files h apart other = elim (Bool-cases (text_eq temp other)) [
  | inl e ↦
      find-without other temp files
      ∙ ground (arith, e, subst (λ n. find_file n before ≡ none) (text_eq_sound temp other e) h)
  | inr e ↦ find-without other temp files ∙ ground (arith, e, apart other e)
]

put-Apart :
    (before : List File) (temp content : Text) (files : List File)
    → Apart before temp files
    → Apart before temp (put_file temp content files)
put-Apart before temp content files apart other e =
    find-put other temp content files ∙ ground (arith, e, apart other e)

put_found :
    (name content : Text) (files : List File)
    → find_file name (put_file name content files) ≡ some content
put_found name content files = find-put name name content files ∙ ground (arith, text_eq_refl name)

moved :
    (before : List File) (temp payload content : Text) (files : List File)
    → find_file temp before ≡ none
    → Apart before temp files
    → find_file temp files ≡ some content
    → (other : Text)
    → find_file other (move_file temp payload files)
      ≡ (if text_eq payload other then some content else find_file other before)
moved before temp payload content files h apart there other =
    find-move other temp payload content files there
    ∙ ap (λ o. if text_eq payload other then some content else o)
        (sym (find-without other temp files) ∙ gone before temp files h apart other)

module _ (before : List File) (temp_path payload_path content : Text) where
  give_up-Written :
      (message details : Text) (d : Disk)
      → d.system.removes d.calls ≡ true
      → find_file (located d.system temp_path) before ≡ none
      → Apart before (located d.system temp_path) d.files
      → Written before (located d.system payload_path) content (give_up temp_path message details d)
  give_up-Written message details d r h apart = inr (
    write_error message details,
    give_up_error temp_path payload_path content message details d,
    (λ other.
        ap (λ (e : Disk). find_file other e.files)
          (give_up_removed temp_path payload_path content message details d r)
        ∙ gone before (located d.system temp_path) d.files h apart other),
  )

  finalize-Written :
      (d : Disk)
      → ((n : ℕ) → d.system.removes n ≡ true)
      → find_file (located d.system temp_path) before ≡ none
      → Apart before (located d.system temp_path) d.files
      → find_file (located d.system temp_path) d.files ≡ some content
      → Written before (located d.system payload_path) content (finalize temp_path payload_path d)
  finalize-Written d r h apart there = elim (Bool-cases (d.system.renames d.calls)) [
    | inl e ↦ rw (finalize_moved temp_path payload_path content [] [] d e) (
        inl (
          refl,
          moved before (located d.system temp_path) (located d.system payload_path) content d.files
              h apart there,
        ))
    | inr e ↦
        rw (finalize_stuck temp_path payload_path content [] [] d e)
          (give_up-Written _ _ (next d) (r (suc d.calls)) h apart)
  ]

  write_opened-Written :
      (d : Disk)
      → ((n : ℕ) → d.system.removes n ≡ true)
      → find_file (located d.system temp_path) before ≡ none
      → Apart before (located d.system temp_path) d.files
      → Written before
          (located d.system payload_path)
          content
          (write_opened temp_path payload_path content d)
  write_opened-Written d r h apart =
      let temp = located d.system temp_path in
      elim (Bool-cases (d.system.writes d.calls)) [
        | inl e ↦ rw (write_opened_done temp_path payload_path content [] [] d e) (
            finalize-Written
              (record d { files = put_file temp content d.files; calls = suc d.calls }) r h
              (put-Apart before temp content d.files apart) (put_found temp content d.files))
        | inr e ↦ rw (write_opened_failed temp_path payload_path content [] [] d e) (
            give_up-Written _ _
              (record d {
                files = put_file temp (take (d.system.written d.calls) content) d.files;
                calls = suc d.calls;
              })
              (r (suc d.calls)) h (put-Apart before temp _ d.files apart))
      ]

  write_through-Written :
      (d : Disk)
      → ((n : ℕ) → d.system.removes n ≡ true)
      → find_file (located d.system temp_path) before ≡ none
      → d.files ≡ before
      → Written before
          (located d.system payload_path)
          content
          (write_through temp_path payload_path content d)
  write_through-Written d r h same =
      let temp = located d.system temp_path in
      elim (Bool-cases (d.system.opens d.calls)) [
        | inl e ↦ rw (write_through_opened temp_path payload_path content [] [] d e) (
            write_opened-Written
              (record d { files = put_file temp [] d.files; calls = suc d.calls }) r h
              (put-Apart before temp [] d.files (λ other e. ap (find_file other) same)))
        | inr e ↦
            rw (write_through_shut temp_path payload_path content [] [] d e)
              (inr (_, refl, λ other. ap (find_file other) same))
      ]

-- An error before anything was written.
untouched :
    (before : List File) (name content : Text) (error : MemoryError) (d : Disk)
    → d.files ≡ before
    → Written before name content (some error, d)
untouched before name content error d same = inr (error, refl, λ other. ap (find_file other) same)

module _ (payload_path content : Text) (d : Disk) (stats : (n : ℕ) → d.system.stats n ≡ true)
    (removes : (n : ℕ) → d.system.removes n ≡ true) where
  write_temp_file-Written :
      Written d.files
        (located d.system payload_path)
        content
        (write_temp_file payload_path content d)
  unfolding write_temp_file random_hex_suffix draw exists
  write_temp_file-Written =
      let (suffix, e) = random_hex_suffix d in
      let temp_path = payload_path ++ codes ".tmp." ++ suffix in
      if_either (Written d.files (located d.system payload_path) content) (exists temp_path e).0 _ _
        (λ taken. untouched d.files (located d.system payload_path) content _ (next e) refl)
        (λ free.
          write_through-Written d.files temp_path payload_path content (next e) removes
            (exists_absent temp_path content e (stats e.calls) free) refl)

module _ (payload_path content : Text) (d : Disk) (stats : (n : ℕ) → d.system.stats n ≡ true)
    (removes : (n : ℕ) → d.system.removes n ≡ true) where
  write_new_file-Written :
      Written d.files
        (located d.system payload_path)
        content
        (write_new_file payload_path content d)
  unfolding write_new_file exists
  write_new_file-Written =
      if_either (Written d.files (located d.system payload_path) content) (exists payload_path d).0
        _ _ (λ taken. untouched d.files (located d.system payload_path) content _ (next d) refl)
        (λ free. write_temp_file-Written payload_path content (next d) stats removes)

-- WritePayloadFileAtomically is all or nothing. On a disk on which no query of a file's status and no
-- removal fails: if it reports no error, the payload file has the whole content and every other file
-- is as before; if it reports an error, wherever it was met, every file is as before, and no
-- temporary file is left.
pub write_payload_file_atomically-Written :
    (payload_path content : Text) (d : Disk)
    → ((n : ℕ) → d.system.stats n ≡ true)
    → ((n : ℕ) → d.system.removes n ≡ true)
    → Written d.files
        (located d.system payload_path)
        content
        (write_payload_file_atomically payload_path content d)
unfolding write_payload_file_atomically create_directories
write_payload_file_atomically-Written payload_path content d stats removes =
    if_either (Written d.files (located d.system payload_path) content) (d.system.creates d.calls) _
      _ (λ made. write_new_file-Written payload_path content (next d) stats removes)
      (λ failed. untouched d.files (located d.system payload_path) content _ (next d) refl)
