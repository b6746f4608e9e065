-- ===== src/Payload/RoundTrip.antt =====
-- Writing a payload and reading it back (src/core/payload_service.cpp).
use agent_memory_cpp.Prelude.{
  ◌≡◌, refl, sym, ap, subst, ◌∙◌, ◌+◌, Bool, true, false, ◌&&◌, ◌||◌, Option, none, some, [], ◌∷◌,
  ◌++◌, suc, Bool-cases, if_either, inl, inr, is_empty, arith,
}
use agent_memory_cpp.Text.{Text, codes, text_eq_refl, starts_with}
use agent_memory_cpp.Types.{MemoryError, no_error}
use agent_memory_cpp.Storage.Engine.{MemorySqliteStore}
use agent_memory_cpp.Storage.Payloads.{save_payload}
use agent_memory_cpp.Payload.Disk.{
  FileSystem, Disk, find_file, located, put_file, exists, create_directories, next,
}
use agent_memory_cpp.Payload.Files.{find-move, find-put}
use agent_memory_cpp.Payload.Paths.{
  components, canonical_path, IsBelow, is_path_inside_directory_iff,
}
use agent_memory_cpp.Payload.Names.{
  MemoryPayloadWriteRequest, MemoryPayloadWriteResult, MemoryPayloadReadResult, PayloadService,
}
use agent_memory_cpp.Payload.Write.{
  give_up, finalize, write_opened, write_through, random_hex_suffix, write_temp_file,
  write_new_file, write_payload_file_atomically, save_metadata, payload_of, after_file, offload,
  offload_to, write_payload, stays_inline,
}
use agent_memory_cpp.Payload.Steps.{
  finalize_moved, finalize_stuck, write_opened_done, write_opened_failed, write_through_opened,
  write_through_shut,
}
use agent_memory_cpp.Payload.Read.{
  read_payload, load_text_file, drop_scheme, content_read, readable,
}
use agent_memory_cpp.Payload.Confined.{canonical_path_resolved}

-- If no error is reported, the file has the content.
record Lands (path content : Text) (r : Option MemoryError × Disk) : Type 0 where
  lands : r.0 ≡ none → find_file (located r.1.system path) r.1.files ≡ some content

error-Lands : (path content : Text) (e : MemoryError) (d : Disk) → Lands path content (some e, d)
error-Lands path content e d = record { lands = λ h. absurd (ground arith) }

module _ (temp_path payload_path content : Text) where
  give_up-Lands :
      (message details : Text) (d : Disk)
      → Lands payload_path content (give_up temp_path message details d)
  unfolding give_up
  give_up-Lands message details d = error-Lands payload_path content _ _

  finalize-Lands :
      (d : Disk)
      → find_file (located d.system temp_path) d.files ≡ some content
      → Lands payload_path content (finalize temp_path payload_path d)
  finalize-Lands d there = elim (Bool-cases (d.system.renames d.calls)) [
    | inl e ↦ rw (finalize_moved temp_path payload_path content [] [] d e) (record {
      lands = λ h.
          let name = located d.system payload_path in
          find-move name (located d.system temp_path) name content d.files there
          ∙ ground (arith, text_eq_refl name);
    })
    | inr e ↦
        rw (finalize_stuck temp_path payload_path content [] [] d e) (give_up-Lands _ _ (next d))
  ]

  write_opened-Lands :
      (d : Disk) → Lands payload_path content (write_opened temp_path payload_path content d)
  write_opened-Lands d = elim (Bool-cases (d.system.writes d.calls)) [
    | inl e ↦ rw (write_opened_done temp_path payload_path content [] [] d e) (
        let name = located d.system temp_path in
        finalize-Lands (record d { files = put_file name content d.files; calls = suc d.calls })
          (find-put name name content d.files ∙ ground (arith, text_eq_refl name)))
    | inr e ↦
        rw (write_opened_failed temp_path payload_path content [] [] d e) (give_up-Lands _ _ _)
  ]

  write_through-Lands :
      (d : Disk) → Lands payload_path content (write_through temp_path payload_path content d)
  write_through-Lands d = elim (Bool-cases (d.system.opens d.calls)) [
    | inl e ↦
        rw (write_through_opened temp_path payload_path content [] [] d e) (write_opened-Lands _)
    | inr e ↦
        rw (write_through_shut temp_path payload_path content [] [] d e)
          (error-Lands payload_path content _ _)
  ]

module _ (payload_path content : Text) where
  write_temp_file-Lands :
      (d : Disk) → Lands payload_path content (write_temp_file payload_path content d)
  unfolding write_temp_file
  write_temp_file-Lands d =
      let (suffix, e) = random_hex_suffix d in
      let temp_path = payload_path ++ codes ".tmp." ++ suffix in
      if_either (Lands payload_path content) (exists temp_path e).0 _ _
        (λ taken. error-Lands payload_path content _ _)
        (λ free. write_through-Lands temp_path payload_path content _)

  write_new_file-Lands :
      (d : Disk) → Lands payload_path content (write_new_file payload_path content d)
  unfolding write_new_file
  write_new_file-Lands d =
      if_either (Lands payload_path content) (exists payload_path d).0 _ _
        (λ taken. error-Lands payload_path content _ _) (λ free. write_temp_file-Lands _)

  write_payload_file_atomically-Lands :
      (d : Disk) → Lands payload_path content (write_payload_file_atomically payload_path content d)
  unfolding write_payload_file_atomically
  write_payload_file_atomically-Lands d =
      if_either (Lands payload_path content) (create_directories d).0 _ _
        (λ made. write_new_file-Lands _) (λ failed. error-Lands payload_path content _ _)

-- A payload that was offloaded: its reference names a file that holds the content.
pub record Offloaded (request : MemoryPayloadWriteRequest)
    (written : MemoryPayloadWriteResult × PayloadService) : Type 0 where
  pub path : Text
  pub uri : written.0.payload.uri ≡ codes "file://" ++ path
  pub held :
      find_file (located written.1.disk.system path) written.1.disk.files ≡ some request.content

pub record IfOffloaded (request : MemoryPayloadWriteRequest)
    (written : MemoryPayloadWriteResult × PayloadService) : Type 0 where
  pub found : written.0.offloaded ≡ true → Offloaded request written

not_offloaded :
    (request : MemoryPayloadWriteRequest) (result : MemoryPayloadWriteResult)
    (service : PayloadService)
    → result.offloaded ≡ false
    → IfOffloaded request (result, service)
not_offloaded request result service e = record { found = λ h. absurd (ground arith) }

save_metadata-IfOffloaded :
    (request : MemoryPayloadWriteRequest) (path : Text) (store : MemorySqliteStore)
    (service : PayloadService)
    → find_file (located service.disk.system path) service.disk.files ≡ some request.content
    → IfOffloaded request (save_metadata request path store service)
unfolding save_metadata payload_of
save_metadata-IfOffloaded request path store service held =
    if_either (IfOffloaded request) (save_payload (payload_of request path) store).0.succeeded _ _
      (λ saved. record { found = λ h. record { path = path; uri = refl; held = held } })
      (λ lost. not_offloaded request _ _ refl)

after_file-IfOffloaded :
    (request : MemoryPayloadWriteRequest) (path : Text) (store : MemorySqliteStore)
    (service : PayloadService) (failure : Option MemoryError)
    → Lands path request.content (failure, service.disk)
    → IfOffloaded request (after_file request path store service failure)
unfolding after_file
after_file-IfOffloaded request path store service none landed =
    save_metadata-IfOffloaded request path store service (landed.lands refl)
after_file-IfOffloaded request path store service (some e) landed = not_offloaded request _ _ refl

offload_to-IfOffloaded :
    (request : MemoryPayloadWriteRequest) (service : PayloadService)
    (store : Option MemorySqliteStore)
    → IfOffloaded request (offload_to request service store)
unfolding offload_to offload
offload_to-IfOffloaded request service none = not_offloaded request _ _ refl
offload_to-IfOffloaded request service (some store) =
    after_file-IfOffloaded request _ store _ _
      (write_payload_file_atomically-Lands _ request.content _)

pub write_payload-IfOffloaded :
    (request : MemoryPayloadWriteRequest) (service : PayloadService)
    → IfOffloaded request (write_payload request service)
unfolding write_payload
write_payload-IfOffloaded request service =
    if_either (IfOffloaded request) (stays_inline request service) _ _
      (λ short. not_offloaded request _ _ refl)
      (λ long. offload_to-IfOffloaded request service service.store)

-- A service on which the reference of a payload resolves to a name below its directory, and on which
-- reading works.
pub record IsReadable (service : PayloadService) (uri : Text) : Type 0 where
  pub resolved : Text
  pub root : Text
  pub kept : is_empty service.canonical_payload_directory ≡ false
  pub named : service.disk.system.weakly_canonical (drop_scheme uri) ≡ some resolved
  pub stable : service.disk.system.weakly_canonical resolved ≡ some resolved
  pub rooted : service.disk.system.weakly_canonical service.canonical_payload_directory ≡ some root
  pub below : IsBelow (components root) (components resolved)
  pub opens : service.disk.system.opens service.disk.calls ≡ true
  pub sized : service.disk.system.stats (service.disk.calls + 1) ≡ true
  pub reads : service.disk.system.reads (service.disk.calls + 2) ≡ true

abbrev pub read_back : Text → MemoryPayloadReadResult
read_back content = record { succeeded = true; content = content; error = no_error }

located_resolved :
    (system : FileSystem) (path name : Text)
    → system.weakly_canonical path ≡ some name
    → located system path ≡ name
located_resolved system path name e = ap (λ o. elim o [ none ↦ path | some n ↦ n ]) e

all_three : (a b c : Bool) → a ≡ true → b ≡ true → c ≡ true → (a && b && c) ≡ true
all_three a b c h k l = ground arith

load_text_file_found :
    (service : PayloadService) (uri content : Text) (r : IsReadable service uri)
    → find_file (located service.disk.system (drop_scheme uri)) service.disk.files ≡ some content
    → load_text_file (canonical_path service.disk.system (drop_scheme uri)) service.disk
      ≡ some content
unfolding load_text_file
load_text_file_found service uri content r held =
    let system = service.disk.system in
    let same : located system r.resolved ≡ located system (drop_scheme uri) =
      located_resolved system r.resolved r.resolved r.stable
      ∙ sym (located_resolved system (drop_scheme uri) r.resolved r.named) in
    rw (canonical_path_resolved system (drop_scheme uri) r.resolved r.named) (
      ap (λ b. readable b (find_file (located system r.resolved) service.disk.files))
        (all_three _ _ _ r.opens r.sized r.reads)
      ∙ ap (λ n. find_file n service.disk.files) same
      ∙ held)

pub read_payload_found :
    (service : PayloadService) (path content : Text)
    → IsReadable service (codes "file://" ++ path)
    → find_file (located service.disk.system path) service.disk.files ≡ some content
    → is_empty content ≡ false
    → read_payload (codes "file://" ++ path) service ≡ read_back content
unfolding read_payload starts_with
read_payload_found service path content r held full =
    let inside =
      (is_path_inside_directory_iff service.disk.system path service.canonical_payload_directory
          r.root r.resolved r.named r.rooted).1
        r.below in
    rw r.kept (
      rw inside (
        ap content_read (load_text_file_found service (codes "file://" ++ path) content r held)
        ∙ full_read content full))
  where
    full_read : (c : Text) → is_empty c ≡ false → content_read (some c) ≡ read_back c
    full_read [] h = absurd (ground arith)
    full_read (b ∷ bs) h = refl

-- A content that stays inline or is empty is not offloaded.
pub offloaded_full :
    (request : MemoryPayloadWriteRequest) (service : PayloadService)
    → (write_payload request service).0.offloaded ≡ true
    → is_empty request.content ≡ false
unfolding write_payload stays_inline
offloaded_full request service =
    if_either
      (λ (r : MemoryPayloadWriteResult × PayloadService).
        r.0.offloaded ≡ true → is_empty request.content ≡ false)
      (stays_inline request service) _ _ (λ short h. absurd (false-ne_true h))
      (λ long h. second_false _ (is_empty request.content) _ long)
  where
    false-ne_true : false ≡ true → ⊥
    false-ne_true h = ground arith

    second_false : (a b c : Bool) → (a || b || c) ≡ false → b ≡ false
    second_false a b c h = ground arith

-- What was offloaded is read back: if WritePayload has offloaded a content, ReadPayload of the
-- reference in its result, on the service behind it, gives exactly this content, provided that the
-- reference resolves to a name below the resolved payload directory and that opening, sizing and
-- reading work.
pub read-write :
    (request : MemoryPayloadWriteRequest) (service : PayloadService)
    → (write_payload request service).0.offloaded ≡ true
    → IsReadable (write_payload request service).1 (write_payload request service).0.payload.uri
    → read_payload (write_payload request service).0.payload.uri (write_payload request service).1
      ≡ read_back request.content
read-write request service h r =
    let (result, after) = write_payload request service in
    let found = (write_payload-IfOffloaded request service).found h in
    ap (λ uri. read_payload uri after) found.uri
    ∙ read_payload_found after found.path request.content (subst (IsReadable after) found.uri r)
        found.held (offloaded_full request service h)
