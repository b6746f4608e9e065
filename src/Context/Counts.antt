-- ===== src/Context/Counts.antt =====
-- The numbers and the citations of a context (src/core/context_builder.cpp).
use agent_memory_cpp.Prelude.{
  if◌then◌else◌, is_empty-eq, sym, Option, none, some, ℕ, ◌≡◌, refl, ap, ◌∙◌, false, List, [], ◌∷◌,
  is_empty, length, inl, inr, Bool-cases, any,
}
use agent_memory_cpp.Prelude.Distinct.{Distinct}
use agent_memory_cpp.Prelude.Int.{ℤ, pos}
use agent_memory_cpp.Text.{Text, codes, text_eq}
use agent_memory_cpp.Json.{Json, Float, integer, unsigned, find_member, get_member, is_object}
use agent_memory_cpp.Types.{MemorySearchHit, MemoryEventsResult, MemoryPayloadRef}
use agent_memory_cpp.Context.{MemoryContextRequest}
use agent_memory_cpp.Context.Citations.{collect_citations-Cites, collect_snapshot_citations-Cites}
use agent_memory_cpp.Context.Package.{MemoryContextPackage}
use agent_memory_cpp.Context.LongTerm.{
  SelectedLongTermMemory, render_long_term_memory, collect_search_citations,
}
use agent_memory_cpp.Context.Build.{
  with_messages, with_statistics, with_payloads, set_metadata, set_all, request_members,
}
use agent_memory_cpp.Context.Metadata.{Says, Says-now, Says-still, Says-after_all}

-- What the metadata says of the citations, and of the payloads where they are included.
abbrev pub citation_number : List Text → Option Json
citation_number citations = if is_empty citations then none else some (unsigned (length citations))

abbrev pub payload_number : List MemoryPayloadRef → Json
payload_number payloads = if is_empty payloads then integer (pos 0) else unsigned (length payloads)

-- The metadata behind the messages: their number, and nothing of citations and payloads.
pub record Starts (messages : ℕ) (context : MemoryContextPackage) : Type 0 where
  pub of_messages : Says (codes "message_count") (some (unsigned messages)) context
  pub no_citations : Says (codes "citation_count") none context
  pub no_payloads : Says (codes "payload_count") none context

pub with_messages-Starts :
    (loaded : MemoryEventsResult)
    → Starts (length (with_messages loaded).messages) (with_messages loaded)
unfolding with_messages set_metadata find_member text_eq
with_messages-Starts loaded = record {
  of_messages = record { shape = refl; says = refl };
  no_citations = record { shape = refl; says = refl };
  no_payloads = record { shape = refl; says = refl };
}

pub record Counts (messages entities relations : ℕ) (citations payloads : Option Json)
    (context : MemoryContextPackage) : Type 0 where
  pub of_messages : Says (codes "message_count") (some (unsigned messages)) context
  pub of_entities : Says (codes "entity_count") (some (unsigned entities)) context
  pub of_relations : Says (codes "relation_count") (some (unsigned relations)) context
  pub of_citations : Says (codes "citation_count") citations context
  pub of_payloads : Says (codes "payload_count") payloads context

-- The last two members of the statistics.
ended-Counts :
    (messages entities relations : ℕ) (citations : Option Json) (context : MemoryContextPackage)
    → Says (codes "message_count") (some (unsigned messages)) context
    → Says (codes "citation_count") citations context
    → Says (codes "payload_count") none context
    → Counts messages entities relations citations none (
        set_all
          ((codes "entity_count", unsigned entities)
            ∷ (codes "relation_count", unsigned relations)
            ∷ [])
          context)
unfolding set_all any text_eq
ended-Counts messages entities relations citations context said cited unpaid =
    let first = Says-now (codes "entity_count") (unsigned entities) context said.shape in
    let members : List (Text × Json) =
      (codes "entity_count", unsigned entities)
      ∷ (codes "relation_count", unsigned relations)
      ∷ [] in
    record {
      of_messages = Says-after_all (codes "message_count") _ members context refl said;
      of_entities =
          Says-still (codes "entity_count") _ (codes "relation_count") (unsigned relations) _ refl
            first;
      of_relations =
          Says-now (codes "relation_count") (unsigned relations)
            (set_metadata (codes "entity_count") (unsigned entities) context) first.shape;
      of_citations = Says-after_all (codes "citation_count") citations members context refl cited;
      of_payloads = Says-after_all (codes "payload_count") none members context refl unpaid;
    }

pub with_statistics-Counts :
    (default_budget : ℤ) (request : MemoryContextRequest) (limit : ℤ)
    (context : MemoryContextPackage) (messages : ℕ)
    → Starts messages context
    → Counts messages
        (length context.entities)
        (length context.relations)
        (citation_number context.citations)
        none
        (with_statistics default_budget request limit context)
unfolding with_statistics any text_eq
with_statistics-Counts default_budget request limit context messages start =
    let members = request_members default_budget request limit in
    let said = Says-after_all (codes "message_count") _ members context refl start.of_messages in
    let uncited =
      Says-after_all (codes "citation_count") none members context refl start.no_citations in
    let unpaid =
      Says-after_all (codes "payload_count") none members context refl start.no_payloads in
    elim (Bool-cases (is_empty context.citations)) [
      | inl none_there ↦ rw none_there (
          ended-Counts messages (length context.entities) (length context.relations) none _ said
            uncited unpaid)
      | inr cites ↦ rw cites (
          let number = unsigned (length context.citations) in
          ended-Counts messages (length context.entities) (length context.relations) (some number) _
            (Says-still (codes "message_count") _ (codes "citation_count") number _ refl said)
            (Says-now (codes "citation_count") number _ said.shape)
            (Says-still (codes "payload_count") none (codes "citation_count") number _ refl unpaid))
    ]

-- The number of payloads is set last; the others are of the metadata only.
still-Counts :
    (value : Json) (context shown : MemoryContextPackage) (messages entities relations : ℕ)
    (citations : Option Json)
    → shown.metadata ≡ context.metadata
    → Counts messages entities relations citations none context
    → Counts messages entities relations citations
        (some value)
        (set_metadata (codes "payload_count") value shown)
unfolding text_eq
still-Counts value context shown messages entities relations citations e c =
    let keep =
      λ (key : Text) (v : Option Json) (other : text_eq (codes "payload_count") key ≡ false)
          (said : Says key v context).
        Says-still key v (codes "payload_count") value shown other (record {
          shape = ap is_object e ∙ said.shape;
          says = ap (get_member key) e ∙ said.says;
        }) in
    record {
      of_messages = keep _ _ refl c.of_messages;
      of_entities = keep _ _ refl c.of_entities;
      of_relations = keep _ _ refl c.of_relations;
      of_citations = keep _ _ refl c.of_citations;
      of_payloads =
          Says-now (codes "payload_count") value shown (ap is_object e ∙ c.of_messages.shape);
    }

pub with_payloads-Counts :
    (payloads : List MemoryPayloadRef) (context : MemoryContextPackage)
    (messages entities relations : ℕ) (citations : Option Json)
    → Counts messages entities relations citations none context
    → Counts messages entities relations citations
        (some (payload_number payloads))
        (with_payloads payloads context)
unfolding with_payloads
with_payloads-Counts payloads context messages entities relations citations c =
    elim (Bool-cases (is_empty payloads)) [
      | inl none_there ↦
          rw none_there
            (still-Counts _ context context messages entities relations citations refl c)
      | inr given ↦ rw given (still-Counts _ context _ messages entities relations citations refl c)
    ]

-- The payloads are passed on; before them there are none.
pub payload_refs-with_payloads :
    (payloads : List MemoryPayloadRef) (context : MemoryContextPackage)
    → context.payload_refs ≡ []
    → (with_payloads payloads context).payload_refs ≡ payloads
unfolding with_payloads
payload_refs-with_payloads payloads context e = elim (Bool-cases (is_empty payloads)) [
  | inl none_there ↦ rw none_there (e ∙ sym (is_empty-eq payloads none_there))
  | inr given ↦ rw given refl
]

-- What `with_statistics` and `with_payloads` leave of a context.
pub record SameLists (context later : MemoryContextPackage) : Type 0 where
  pub messages : later.messages ≡ context.messages
  pub entities : later.entities ≡ context.entities
  pub relations : later.relations ≡ context.relations
  pub citations : later.citations ≡ context.citations

pub with_statistics-SameLists :
    (default_budget : ℤ) (request : MemoryContextRequest) (limit : ℤ)
    (context : MemoryContextPackage)
    → SameLists context (with_statistics default_budget request limit context)
unfolding with_statistics
with_statistics-SameLists default_budget request limit context =
    elim (Bool-cases (is_empty context.citations)) [
      | inl none_there ↦
          rw none_there
            (record { messages = refl; entities = refl; relations = refl; citations = refl })
      | inr cites ↦
          rw cites (record { messages = refl; entities = refl; relations = refl; citations = refl })
    ]

pub payload_refs-with_statistics :
    (default_budget : ℤ) (request : MemoryContextRequest) (limit : ℤ)
    (context : MemoryContextPackage)
    → (with_statistics default_budget request limit context).payload_refs ≡ context.payload_refs
unfolding with_statistics
payload_refs-with_statistics default_budget request limit context =
    elim (Bool-cases (is_empty context.citations)) [
      | inl none_there ↦ rw none_there refl
      | inr cites ↦ rw cites refl
    ]

pub with_payloads-SameLists :
    (payloads : List MemoryPayloadRef) (context : MemoryContextPackage)
    → SameLists context (with_payloads payloads context)
unfolding with_payloads
with_payloads-SameLists payloads context = elim (Bool-cases (is_empty payloads)) [
  | inl none_there ↦
      rw none_there
        (record { messages = refl; entities = refl; relations = refl; citations = refl })
  | inr given ↦
      rw given (record { messages = refl; entities = refl; relations = refl; citations = refl })
]

pub render-Distinct :
    (print_float : Float → Text) (selected : SelectedLongTermMemory)
    → Distinct text_eq (render_long_term_memory print_float selected []).1
unfolding render_long_term_memory collect_search_citations
render-Distinct print_float selected =
    let first = (collect_snapshot_citations-Cites selected.snapshot []).0 in
    let second =
      (collect_citations-Cites (λ (hit : MemorySearchHit). hit.source_refs) _
        selected.search_results first).once in
    elim (Bool-cases selected.used_search) [
      | inl used ↦ rw used second
      | inr direct ↦ rw direct first
    ]
