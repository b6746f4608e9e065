-- ===== src/Payload/Confined.antt =====
-- What `ReadPayload` (src/core/payload_service.cpp) reads.
use agent_memory_cpp.Prelude.{
  ◌≡◌, refl, sym, ap, ◌∙◌, Bool, true, false, not, Option, none, some, List, [], ◌∷◌, if_either,
  arith, is_empty,
}
use agent_memory_cpp.Text.{Text, codes, starts_with}
use agent_memory_cpp.Payload.Disk.{FileSystem, Disk, find_file, located}
use agent_memory_cpp.Payload.Paths.{
  components, canonical_path, is_path_inside_directory, IsBelow, is_inside_sound, inside,
  inside_directory,
}
use agent_memory_cpp.Payload.Names.{MemoryPayloadReadResult, PayloadService}
use agent_memory_cpp.Payload.Read.{
  read_payload, load_text_file, drop_scheme, content_read, readable,
}

-- A file below the service's directory, as the reference and the directory resolve.
pub record IsConfined (service : PayloadService) (ref content : Text) : Type 0 where
  pub resolved : Text
  pub directory : Text
  pub named : service.disk.system.weakly_canonical (drop_scheme ref) ≡ some resolved
  pub rooted :
      service.disk.system.weakly_canonical service.canonical_payload_directory ≡ some directory
  pub below : IsBelow (components directory) (components resolved)
  pub held : find_file (located service.disk.system resolved) service.disk.files ≡ some content

-- Where the two paths resolve, and that one is below the other.
pub record Inside (system : FileSystem) (path directory : Text) : Type 0 where
  pub resolved : Text
  pub root : Text
  pub named : system.weakly_canonical path ≡ some resolved
  pub rooted : system.weakly_canonical directory ≡ some root
  pub below : IsBelow (components root) (components resolved)

inside_directory_root :
    (path : List Text) (o : Option Text)
    → inside_directory path o ≡ true
    → (root : Text) × (o ≡ some root) × IsBelow (components root) path
inside_directory_root path none h = absurd (ground arith)
inside_directory_root path (some root) h = (root, refl, is_inside_sound path (components root) h)

inside-Inside :
    (system : FileSystem) (path directory : Text) (o : Option Text)
    → system.weakly_canonical path ≡ o
    → inside system directory o ≡ true
    → Inside system path directory
inside-Inside system path directory none e h = absurd (ground arith)
inside-Inside system path directory (some resolved) e h =
    let (root, rooted, below) =
      inside_directory_root (components resolved) (system.weakly_canonical directory) h in
    record { resolved = resolved; root = root; named = e; rooted = rooted; below = below }

pub is_path_inside_directory-Inside :
    (system : FileSystem) (path directory : Text)
    → is_path_inside_directory system path directory ≡ true
    → Inside system path directory
unfolding is_path_inside_directory
is_path_inside_directory-Inside system path directory h =
    inside-Inside system path directory (system.weakly_canonical path) refl h

content_read_found :
    (o : Option Text) → (content_read o).succeeded ≡ true → o ≡ some (content_read o).content
content_read_found none h = absurd (ground arith)
content_read_found (some []) h = absurd (ground arith)
content_read_found (some (c ∷ cs)) h = refl

readable-some :
    (b : Bool) (o : Option Text) (content : Text) → readable b o ≡ some content → o ≡ some content
readable-some true o content h = h
readable-some false o content h = absurd (ground arith)

load_text_file-some :
    (path content : Text) (d : Disk)
    → load_text_file path d ≡ some content
    → find_file (located d.system path) d.files ≡ some content
unfolding load_text_file
load_text_file-some path content d h = readable-some _ _ content h

pub canonical_path_resolved :
    (system : FileSystem) (path resolved : Text)
    → system.weakly_canonical path ≡ some resolved
    → canonical_path system path ≡ resolved
unfolding canonical_path
canonical_path_resolved system path resolved h = rw (canonical_path, h) refl

-- A successful answer holds what a confined file holds.
abbrev AnswersConfined : PayloadService → Text → MemoryPayloadReadResult → Type 0
AnswersConfined service ref result = result.succeeded ≡ true → IsConfined service ref result.content

loaded-AnswersConfined :
    (service : PayloadService) (ref : Text)
    → Inside service.disk.system (drop_scheme ref) service.canonical_payload_directory
    → AnswersConfined service ref (
        content_read
          (load_text_file (canonical_path service.disk.system (drop_scheme ref)) service.disk))
loaded-AnswersConfined service ref i h = record {
  resolved = i.resolved;
  directory = i.root;
  named = i.named;
  rooted = i.rooted;
  below = i.below;
  held = load_text_file-some i.resolved _ service.disk (
      ap (λ p. load_text_file p service.disk)
        (sym (canonical_path_resolved service.disk.system (drop_scheme ref) i.resolved i.named))
      ∙ content_read_found _ h);
}

-- ReadPayload never leaves the payload directory: if it succeeds, the reference and the service's
-- directory resolve, the resolved name lies below the resolved directory, element by element, and the
-- content is that of the file with this name.
pub read_payload-IsConfined :
    (ref : Text) (service : PayloadService)
    → (read_payload ref service).succeeded ≡ true
    → IsConfined service ref (read_payload ref service).content
unfolding read_payload
read_payload-IsConfined ref service =
    let P = AnswersConfined service ref in
    let inside =
      is_path_inside_directory service.disk.system (drop_scheme ref)
        service.canonical_payload_directory in
    if_either P (not (starts_with ref (codes "file://"))) _ _ (λ e h. absurd (ground arith))
      (λ e.
        if_either P (is_empty service.canonical_payload_directory) _ _
          (λ f h. absurd (ground arith))
          (λ f.
            if_either P (not inside) _ _ (λ g h. absurd (ground arith))
              (λ g.
                loaded-AnswersConfined service ref
                  (is_path_inside_directory-Inside _ _ _ (ground arith)))))
