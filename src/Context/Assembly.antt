-- ===== src/Context/Assembly.antt =====
-- What a context that was built holds (src/core/context_builder.cpp).
use agent_memory_cpp.Prelude.{
  ◌≡◌, refl, sym, subst, ap, ◌∙◌, true, false, List, [], length, none, some, Option, if◌then◌else◌,
  ◌⊎◌, inl, inr, Bool-cases,
}
use agent_memory_cpp.Prelude.Distinct.{Distinct}
use agent_memory_cpp.Prelude.Int.{ℤ}
use agent_memory_cpp.Text.{Text, codes, text_eq}
use agent_memory_cpp.Json.{Json, Float, unsigned, get_member}
use agent_memory_cpp.Types.{MemoryEventsResult, MemoryPayloadRef}
use agent_memory_cpp.Storage.Engine.{MemorySqliteStore}
use agent_memory_cpp.Storage.Search.Hits.{FullText}
use agent_memory_cpp.Context.{
  MemoryContextRequest, long_term_memory_limit, should_include, load_payloads_for_context,
}
use agent_memory_cpp.Context.Package.{MemoryContextPackage, MemoryContextResult, empty_package}
use agent_memory_cpp.Context.LongTerm.{SelectedLongTermMemory}
use agent_memory_cpp.Context.Build.{
  build_context, load_messages, load_long_term, add_payloads, with_messages, with_long_term,
  with_statistics, with_payloads, set_metadata,
}
use agent_memory_cpp.Context.Counts.{
  Counts, SameLists, Starts, citation_number, payload_number, payload_refs-with_payloads,
  payload_refs-with_statistics, with_messages-Starts, with_statistics-Counts, with_payloads-Counts,
  with_statistics-SameLists, with_payloads-SameLists, render-Distinct,
}

-- The numbers in the metadata are those of the lists, and no reference is cited twice. Citations are
-- counted where there are any, and payloads where the request includes them.
pub record IsAssembled (request : MemoryContextRequest) (context : MemoryContextPackage)
    : Type 0 where
  pub messages_counted :
      get_member (codes "message_count") context.metadata
      ≡ some (unsigned (length context.messages))
  pub entities_counted :
      get_member (codes "entity_count") context.metadata ≡ some (unsigned (length context.entities))
  pub relations_counted :
      get_member (codes "relation_count") context.metadata
      ≡ some (unsigned (length context.relations))
  pub citations_counted :
      get_member (codes "citation_count") context.metadata ≡ citation_number context.citations
  pub payloads_counted : get_member (codes "payload_count") context.metadata ≡ (
      if should_include request (codes "payloads")
      then some (payload_number context.payload_refs)
      else none)
  pub cited_once : Distinct text_eq context.citations

-- The result of a builder: a context with true numbers, or an error and no context at all.
abbrev pub IsOutcome : MemoryContextRequest → MemoryContextResult → Type 0
IsOutcome request result =
    ((result.succeeded ≡ true) × IsAssembled request result.context)
    ⊎ ((result.succeeded ≡ false) × (result.context ≡ empty_package))

assembled :
    (request : MemoryContextRequest) (shown base : MemoryContextPackage) (payloads : Option Json)
    → SameLists base shown
    → Counts
        (length base.messages)
        (length base.entities)
        (length base.relations)
        (citation_number base.citations)
        payloads
        shown
    → payloads ≡ (
        if should_include request (codes "payloads")
        then some (payload_number shown.payload_refs)
        else none)
    → Distinct text_eq base.citations
    → IsAssembled request shown
assembled request shown base payloads same c paid apart = record {
  messages_counted =
      c.of_messages.says ∙ ap (λ xs. some (unsigned (length xs))) (sym same.messages);
  entities_counted =
      c.of_entities.says ∙ ap (λ xs. some (unsigned (length xs))) (sym same.entities);
  relations_counted =
      c.of_relations.says ∙ ap (λ xs. some (unsigned (length xs))) (sym same.relations);
  citations_counted = c.of_citations.says ∙ ap citation_number (sym same.citations);
  payloads_counted = c.of_payloads.says ∙ paid;
  cited_once = subst (Distinct text_eq) (sym same.citations) apart;
}

-- A context behind its statistics, with the payloads or without.
module _ (print_float : Float → Text) (default_budget : ℤ) (request : MemoryContextRequest)
    (limit : ℤ) (selected : SelectedLongTermMemory) (loaded : MemoryEventsResult) where
  base : MemoryContextPackage
  base = with_long_term print_float selected (with_messages loaded)

  base-Starts : Starts (length base.messages) base
  unfolding base with_long_term
  base-Starts =
      let start = with_messages-Starts loaded in
      record {
        of_messages = record { shape = start.of_messages.shape; says = start.of_messages.says };
        no_citations = record { shape = start.no_citations.shape; says = start.no_citations.says };
        no_payloads = record { shape = start.no_payloads.shape; says = start.no_payloads.says };
      }

  base-Distinct : Distinct text_eq base.citations
  unfolding base with_long_term
  base-Distinct = render-Distinct print_float selected

  described : MemoryContextPackage
  described = with_statistics default_budget request limit base

  described-Counts :
      Counts
        (length base.messages)
        (length base.entities)
        (length base.relations)
        (citation_number base.citations)
        none
        described
  unfolding described
  described-Counts =
      with_statistics-Counts default_budget request limit base (length base.messages) base-Starts

  base_refs : base.payload_refs ≡ []
  unfolding base with_long_term with_messages set_metadata
  base_refs = refl

  described_refs : described.payload_refs ≡ []
  unfolding described
  described_refs = payload_refs-with_statistics default_budget request limit base ∙ base_refs

  described-IsAssembled :
      should_include request (codes "payloads") ≡ false → IsAssembled request described
  unfolding described
  described-IsAssembled off =
      assembled request described base none
        (with_statistics-SameLists default_budget request limit base) described-Counts (rw off refl)
        base-Distinct

  with_payloads-IsAssembled :
      (payloads : List MemoryPayloadRef)
      → should_include request (codes "payloads") ≡ true
      → IsAssembled request (with_payloads payloads described)
  unfolding described
  with_payloads-IsAssembled payloads on =
      let first = with_statistics-SameLists default_budget request limit base in
      let second = with_payloads-SameLists payloads described in
      assembled request (with_payloads payloads described) base (some (payload_number payloads))
        (record {
          messages = second.messages ∙ first.messages;
          entities = second.entities ∙ first.entities;
          relations = second.relations ∙ first.relations;
          citations = second.citations ∙ first.citations;
        })
        (with_payloads-Counts payloads described _ _ _ _ described-Counts)
        (rw on (
          ap (λ refs. some (payload_number refs))
            (sym (payload_refs-with_payloads payloads described described_refs))))
        base-Distinct

  add_payloads-IsOutcome :
      (s : MemorySqliteStore) → IsOutcome request (add_payloads request described s).0
  unfolding add_payloads
  add_payloads-IsOutcome s = elim (Bool-cases (should_include request (codes "payloads"))) [
    | inr off ↦ let built = described-IsAssembled off in rw off (inl (refl, built))
    | inl on ↦
        let built = with_payloads-IsAssembled (load_payloads_for_context request s).0.payloads on in
        rw on (elim (Bool-cases (load_payloads_for_context request s).0.succeeded) [
          | inr bad ↦ rw bad (inr (refl, refl))
          | inl good ↦ rw good (inl (refl, built))
        ])
  ]

-- Whatever its queries give, BuildContext either succeeds with a context whose metadata counts its
-- messages, entities and relations as they are, its citations where there are any (and says nothing
-- of them where there are none), and its payloads where the request includes them (and says nothing
-- of them otherwise), and in which no reference is cited twice; or it fails with an empty context.
pub build_context-IsOutcome :
    (fts : FullText) (print_float : Float → Text) (default_budget : ℤ)
    (request : MemoryContextRequest) (s : MemorySqliteStore)
    → IsOutcome request (build_context fts print_float default_budget request s).0
unfolding build_context
build_context-IsOutcome fts print_float default_budget request s =
    let limit = long_term_memory_limit default_budget request in
    let (messages, t) = load_messages request s in
    let (selected, u) = load_long_term fts request limit t in
    elim (Bool-cases messages.succeeded) [
      | inr bad ↦ rw bad (inr (refl, refl))
      | inl good ↦ rw good (elim (Bool-cases selected.succeeded) [
        | inr bad ↦ rw bad (inr (refl, refl))
        | inl fine ↦ rw fine (
            unfold described base in
            add_payloads-IsOutcome print_float default_budget request limit selected messages u)
      ])
    ]
