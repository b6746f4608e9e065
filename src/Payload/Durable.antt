-- ===== src/Payload/Durable.antt =====
-- What a call of `WritePayload` (src/core/payload_service.cpp) does to the files that are there.
use agent_memory_cpp.Prelude.{
  ℕ, ◌≡◌, refl, sym, ap, subst, ◌∙◌, true, false, Option, none, some, List, [], ◌∷◌, inl, inr,
  Bool-cases, if_either, arith,
}
use agent_memory_cpp.Text.{Text, text_eq, text_eq_sound}
use agent_memory_cpp.Types.{MemoryError}
use agent_memory_cpp.Storage.Engine.{MemorySqliteStore}
use agent_memory_cpp.Storage.Payloads.{save_payload}
use agent_memory_cpp.Payload.Disk.{FileSystem, Disk, File, located, next, draw, remove_file}
use agent_memory_cpp.Payload.Cleanup.{
  entry_name, is_temp_name, clean_entry, clean_entries, clean_temp_files,
}
use agent_memory_cpp.Payload.Names.{
  MemoryPayloadWriteRequest, MemoryPayloadWriteResult, PayloadService, payload_directory,
}
use agent_memory_cpp.Payload.Write.{
  save_metadata, payload_of, after_file, offload, offload_to, write_payload, stays_inline,
}
use agent_memory_cpp.Payload.Keeps.{
  Keeps, Kept, next-Keeps, remove_named-Keeps, here, write_payload_file_atomically-Kept,
}

-- The cleanup of a directory, in which the name is no temporary file's.
module _ (system : FileSystem) (name content : Text) (directory : Text)
    (lasting : is_temp_name (entry_name directory name) ≡ false) where
  clean_entry-Keeps :
      (file : File) (d : Disk)
      → Keeps system name content d
      → Keeps system name content (clean_entry directory file d)
  unfolding clean_entry
  clean_entry-Keeps file d k =
      if_either (Keeps system name content) (is_temp_name (entry_name directory file.name)) _ _
        (λ temp.
          if_either (Keeps system name content) (d.system.expired d.calls) _ _
            (λ old.
              remove_named-Keeps system name content file.name (next d) (distinct temp)
                (next-Keeps system name content d k))
            (λ young. next-Keeps system name content d k))
        (λ other. k)
    where
      distinct :
          is_temp_name (entry_name directory file.name) ≡ true → text_eq file.name name ≡ false
      distinct temp = elim (Bool-cases (text_eq file.name name)) [
        | inr e ↦ e
        | inl e ↦ absurd (
            true_false (
              sym temp
              ∙ ap (λ n. is_temp_name (entry_name directory n)) (text_eq_sound file.name name e)
              ∙ lasting))
      ]
        where
          true_false : true ≡ false → ⊥
          true_false e = ground (arith, e)

  clean_entries-Keeps :
      (files : List File) (d : Disk)
      → Keeps system name content d
      → Keeps system name content (clean_entries directory files d)
  unfolding clean_entries
  clean_entries-Keeps [] d k = k
  clean_entries-Keeps (file ∷ files) d k =
      clean_entries-Keeps files (clean_entry directory file d) (clean_entry-Keeps file d k)

  clean_temp_files-Keeps :
      (root : Text) (d : Disk)
      → located system root ≡ directory
      → Keeps system name content d
      → Keeps system name content (clean_temp_files root d)
  unfolding clean_temp_files
  clean_temp_files-Keeps root d e k =
      let same : located d.system root ≡ directory =
        ap (λ (fs : FileSystem). located fs root) k.same ∙ e in
      if_either (Keeps system name content) (d.system.stats d.calls) _ _
        (λ there.
          subst (λ p. Keeps system name content (clean_entries p d.files (next d))) (sym same)
            (clean_entries-Keeps d.files (next d) (next-Keeps system name content d k)))
        (λ absent. next-Keeps system name content d k)

-- A file of the directory of a payload service.
pub record Stays (system : FileSystem) (root name content : Text) (service : PayloadService)
    : Type 0 where
  pub rooted : payload_directory service ≡ root
  pub kept : Keeps system name content service.disk

module _ (system : FileSystem) (root name content : Text) (stats : (n : ℕ) → system.stats n ≡ true)
    (lasting : is_temp_name (entry_name (located system root) name) ≡ false) where
  abbrev StaysIn : MemoryPayloadWriteResult × PayloadService → Type 0
  StaysIn r = Stays system root name content r.1

  save_metadata-Stays :
      (request : MemoryPayloadWriteRequest) (path : Text) (store : MemorySqliteStore)
      (service : PayloadService)
      → text_eq (located system path) name ≡ false
      → Stays system root name content service
      → StaysIn (save_metadata request path store service)
  unfolding save_metadata payload_directory remove_file
  save_metadata-Stays request path store service other s =
      if_either StaysIn (save_payload (payload_of request path) store).0.succeeded _ _
        (λ saved. record { rooted = s.rooted; kept = s.kept })
        (λ lost. record {
          rooted = s.rooted;
          kept =
              remove_named-Keeps system name content (located service.disk.system path) service.disk
                (here system name content path service.disk other s.kept) s.kept;
        })

  after_file-Stays :
      (request : MemoryPayloadWriteRequest) (path : Text) (store : MemorySqliteStore)
      (service : PayloadService) (failure : Option MemoryError)
      → payload_directory service ≡ root
      → Kept system name content path request.content stats (failure, service.disk)
      → StaysIn (after_file request path store service failure)
  unfolding after_file
  after_file-Stays request path store service none e k =
      save_metadata-Stays request path store service (k.fresh refl)
        (record { rooted = e; kept = k.keeps })
  after_file-Stays request path store service (some error) e k = record {
    rooted = e;
    kept = k.keeps;
  }

  offload_to-Stays :
      (request : MemoryPayloadWriteRequest) (service : PayloadService)
      (store : Option MemorySqliteStore)
      → Stays system root name content service
      → StaysIn (offload_to request service store)
  unfolding offload_to offload payload_directory draw
  offload_to-Stays request service none s = s
  offload_to-Stays request service (some store) s =
      let cleaned =
        clean_temp_files-Keeps system name content (located system root) lasting
          (payload_directory service) service.disk (ap (located system) s.rooted) s.kept in
      let drawn = next-Keeps system name content _ (next-Keeps system name content _ cleaned) in
      after_file-Stays request _ store _ _ s.rooted
        (write_payload_file_atomically-Kept system name content _ request.content stats _ drawn)

  pub write_payload-Stays :
      (request : MemoryPayloadWriteRequest) (service : PayloadService)
      → Stays system root name content service
      → StaysIn (write_payload request service)
  unfolding write_payload
  write_payload-Stays request service s =
      if_either StaysIn (stays_inline request service) _ _ (λ short. s)
        (λ long. offload_to-Stays request service service.store s)
