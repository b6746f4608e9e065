-- ===== src/Payload/Keeps.antt =====
-- `WritePayloadFileAtomically` (src/core/payload_service.cpp) and a file that is already there.
use agent_memory_cpp.Prelude.{
  ℕ, suc, ◌≡◌, refl, sym, ap, subst, ◌∙◌, Bool, true, false, Option, none, some, List, [], ◌++◌,
  inl, inr, Bool-cases, if_either, arith, if◌then◌else◌,
}
use agent_memory_cpp.Text.{Text, codes, text_eq, text_eq_sound}
use agent_memory_cpp.Types.{MemoryError}
use agent_memory_cpp.Payload.Disk.{
  FileSystem, Disk, File, find_file, put_file, move_file, located, next, exists, draw,
  create_directories, open_truncated, write_file, rename_file, remove_named, remove_file,
}
use agent_memory_cpp.Payload.Files.{find-without, find-put, find-move}
use agent_memory_cpp.Payload.Steps.{exists_absent}
use agent_memory_cpp.Payload.Write.{
  write_error, give_up, finalize, write_opened, write_through, random_hex_suffix, write_temp_file,
  write_new_file, write_payload_file_atomically,
}

-- A file that does not exist has another name than one that does.
absent-other :
    (target name content : Text) (files : List File)
    → find_file target files ≡ none
    → find_file name files ≡ some content
    → text_eq target name ≡ false
absent-other target name content files gone held = elim (Bool-cases (text_eq target name)) [
  | inr e ↦ e
  | inl e ↦ absurd (
      none_some
        (sym (subst (λ n. find_file n files ≡ none) (text_eq_sound target name e) gone) ∙ held))
]
  where
    none_some : none ≡ some content → ⊥
    none_some e = ground (arith, e)

move-other :
    (from to name : Text) (files : List File)
    → text_eq from name ≡ false
    → text_eq to name ≡ false
    → find_file name (move_file from to files) ≡ find_file name files
unfolding move_file
move-other from to name files a b = by_content (find_file from files) refl
  where
    by_content :
        (o : Option Text)
        → find_file from files ≡ o
        → find_file name (move_file from to files) ≡ find_file name files
    by_content none e = ap (find_file name) (rw (move_file, e) refl)
    by_content (some content) e = find-move name from to content files e ∙ ground (arith, a, b)

-- The disk of a file system that has a file with this name and content.
pub record Keeps (system : FileSystem) (name content : Text) (d : Disk) : Type 0 where
  pub same : d.system ≡ system
  pub held : find_file name d.files ≡ some content

module _ (system : FileSystem) (name content : Text) where
  pub next-Keeps : (d : Disk) → Keeps system name content d → Keeps system name content (next d)
  next-Keeps d k = record { same = k.same; held = k.held }

  put-Keeps :
      (target text : Text) (d : Disk)
      → text_eq target name ≡ false
      → Keeps system name content d
      → Keeps system name content
          (record d { files = put_file target text d.files; calls = suc d.calls })
  put-Keeps target text d other k = record {
    same = k.same;
    held = find-put name target text d.files ∙ ground (arith, other, k.held);
  }

  pub remove_named-Keeps :
      (target : Text) (d : Disk)
      → text_eq target name ≡ false
      → Keeps system name content d
      → Keeps system name content (remove_named target d).1
  unfolding remove_named
  remove_named-Keeps target d other k =
      if_either (λ (r : Bool × Disk). Keeps system name content r.1) (d.system.removes d.calls) _ _
        (λ removed. record {
          same = k.same;
          held = find-without name target d.files ∙ ground (arith, other, k.held);
        })
        (λ stuck. next-Keeps d k)

  -- The name that a path has on the disk.
  pub here :
      (path : Text) (d : Disk)
      → text_eq (located system path) name ≡ false
      → Keeps system name content d
      → text_eq (located d.system path) name ≡ false
  here path d other k =
      subst (λ (fs : FileSystem). text_eq (located fs path) name ≡ false) (sym k.same) other

  give_up-Keeps :
      (temp_path message details : Text) (d : Disk)
      → text_eq (located system temp_path) name ≡ false
      → Keeps system name content d
      → Keeps system name content (give_up temp_path message details d).1
  unfolding give_up remove_file
  give_up-Keeps temp_path message details d other k =
      remove_named-Keeps (located d.system temp_path) d (here temp_path d other k) k

  -- The steps that write, for two paths that name other files.
  module _ (temp_path payload_path text : Text)
      (temp : text_eq (located system temp_path) name ≡ false)
      (payload : text_eq (located system payload_path) name ≡ false) where
    finalize-Keeps :
        (d : Disk)
        → Keeps system name content d
        → Keeps system name content (finalize temp_path payload_path d).1
    unfolding finalize rename_file
    finalize-Keeps d k =
        if_either
          (λ (r : Bool × Disk).
            Keeps system name content
              (if r.0
                then (none, r.1)
                else give_up temp_path (codes "failed to finalize payload file")
                    (r.1.system.error_message r.1.calls) r.1).1)
          (d.system.renames d.calls) _ _
          (λ moved. record {
            same = k.same;
            held =
                move-other (located d.system temp_path) (located d.system payload_path) name d.files
                  (here temp_path d temp k) (here payload_path d payload k)
                ∙ k.held;
          })
          (λ stuck. give_up-Keeps temp_path _ _ (next d) temp (next-Keeps d k))

    write_opened-Keeps :
        (d : Disk)
        → Keeps system name content d
        → Keeps system name content (write_opened temp_path payload_path text d).1
    unfolding write_opened write_file
    write_opened-Keeps d k =
        let written = put-Keeps (located d.system temp_path) _ d (here temp_path d temp k) k in
        if_either (λ (r : Option MemoryError × Disk). Keeps system name content r.1)
          (d.system.writes d.calls) _ _ (λ done. finalize-Keeps _ written)
          (λ broken. give_up-Keeps temp_path _ _ _ temp written)

    write_through-Keeps :
        (d : Disk)
        → Keeps system name content d
        → Keeps system name content (write_through temp_path payload_path text d).1
    unfolding write_through open_truncated
    write_through-Keeps d k =
        if_either
          (λ (r : Bool × Disk).
            Keeps system name content
              (if r.0 then write_opened temp_path payload_path text r.1 else (
                some (write_error (codes "failed to open payload temp file for write") []),
                r.1,
              )).1)
          (d.system.opens d.calls) _ _
          (λ opened.
            write_opened-Keeps _
              (put-Keeps (located d.system temp_path) [] d (here temp_path d temp k) k))
          (λ shut. next-Keeps d k)

  -- A path whose file does not exist names another file.
  absent_here :
      (path : Text) (d : Disk)
      → ((n : ℕ) → system.stats n ≡ true)
      → Keeps system name content d
      → (exists path d).0 ≡ false
      → text_eq (located system path) name ≡ false
  absent_here path d stats k free =
      subst (λ (fs : FileSystem). text_eq (located fs path) name ≡ false) k.same
        (absent-other (located d.system path) name content d.files
          (exists_absent path content d
            (subst (λ (fs : FileSystem). fs.stats d.calls ≡ true) (sym k.same) (stats d.calls))
            free)
          k.held)

  module _ (payload_path text : Text) (stats : (n : ℕ) → system.stats n ≡ true) where
    write_temp_file-Keeps :
        (d : Disk)
        → text_eq (located system payload_path) name ≡ false
        → Keeps system name content d
        → Keeps system name content (write_temp_file payload_path text d).1
    unfolding write_temp_file random_hex_suffix draw exists
    write_temp_file-Keeps d payload k =
        let (suffix, e) = random_hex_suffix d in
        let temp_path = payload_path ++ codes ".tmp." ++ suffix in
        let k' : Keeps system name content e = record { same = k.same; held = k.held } in
        if_either (λ (r : Option MemoryError × Disk). Keeps system name content r.1)
          (exists temp_path e).0 _ _ (λ taken. next-Keeps e k')
          (λ free.
            write_through-Keeps temp_path payload_path text (absent_here temp_path e stats k' free)
              payload (next e) (next-Keeps e k'))

    -- A write that reports no error has made a new file.
    pub record Kept (r : Option MemoryError × Disk) : Type 0 where
      pub keeps : Keeps system name content r.1
      pub fresh : r.0 ≡ none → text_eq (located system payload_path) name ≡ false

    failed-Kept : (e : MemoryError) (d : Disk) → Keeps system name content d → Kept (some e, d)
    failed-Kept e d k = record { keeps = k; fresh = λ h. absurd (ground arith) }

    write_new_file-Kept :
        (d : Disk) → Keeps system name content d → Kept (write_new_file payload_path text d)
    unfolding write_new_file exists
    write_new_file-Kept d k =
        if_either Kept (exists payload_path d).0 _ _
          (λ taken. failed-Kept _ (next d) (next-Keeps d k))
          (λ free.
            let other = absent_here payload_path d stats k free in
            record {
              keeps = write_temp_file-Keeps (next d) other (next-Keeps d k);
              fresh = λ h. other;
            })

    pub write_payload_file_atomically-Kept :
        (d : Disk)
        → Keeps system name content d
        → Kept (write_payload_file_atomically payload_path text d)
    unfolding write_payload_file_atomically create_directories
    write_payload_file_atomically-Kept d k =
        if_either Kept (d.system.creates d.calls) _ _
          (λ made. write_new_file-Kept (next d) (next-Keeps d k))
          (λ failed. failed-Kept _ (next d) (next-Keeps d k))
