-- ===== src/Context/Citations.antt =====
-- The citations of a context (src/core/context_builder.cpp).
use agent_memory_cpp.Prelude.{
  ◌≡◌, ap, ◌∙◌, Bool, false, not, ◌&&◌, ◌||◌, List, [], ◌∷◌, is_empty, arith, inl, inr, Bool-cases,
  any,
}
use agent_memory_cpp.Prelude.Distinct.{Distinct, Distinct-append}
use agent_memory_cpp.Text.{Text, text_eq, text_eq_sound, mem_text}
use agent_memory_cpp.Text.Members.{mem_text-append, mem_text-false}
use agent_memory_cpp.Types.{
  LongTermMemorySnapshot, LongTermSummaryRecord, MemoryEntity, MemoryRelation,
}
use agent_memory_cpp.Context.{
  add_unique_citation, add_unique_citations, collect_citations, collect_snapshot_citations,
}

-- The references that are not empty.
abbrev counts_as : Text → Text → Bool
counts_as t ref = not (is_empty ref) && text_eq ref t

-- The citations are different, and have what was cited before and the references since.
pub record Cites (before citations : List Text) (named : Text → Bool) : Type 0 where
  pub once : Distinct text_eq citations
  pub complete : (t : Text) → mem_text t citations ≡ (mem_text t before || named t)

add_unique_citation-Cites :
    (citations : List Text) (ref : Text)
    → Distinct text_eq citations
    → Cites citations (add_unique_citation citations ref) (λ t. counts_as t ref)
unfolding add_unique_citation
add_unique_citation-Cites citations ref apart =
    elim (Bool-cases (not (is_empty ref) && not (mem_text ref citations))) [
      | inl new ↦ rw new (record {
        once =
            Distinct-append text_eq citations ref apart
              (mem_text-false ref citations (ground (arith, new)));
        complete = λ t. mem_text-append t citations ref ∙ ground (arith, new);
      })
      | inr old ↦ rw old (record { once = apart; complete = λ t. known t old })
    ]
  where
    known :
        (t : Text)
        → (not (is_empty ref) && not (mem_text ref citations)) ≡ false
        → mem_text t citations ≡ (mem_text t citations || counts_as t ref)
    known t old = elim (Bool-cases (text_eq ref t)) [
      | inr other ↦ ground (arith, other)
      | inl same ↦
          ground (arith, old, ap (λ u. mem_text u citations) (text_eq_sound ref t same), same)
    ]

add_unique_citations-Cites :
    (citations refs : List Text)
    → Distinct text_eq citations
    → Cites citations (add_unique_citations citations refs) (λ t. any (counts_as t) refs)
unfolding add_unique_citations any
add_unique_citations-Cites citations [] apart = record {
  once = apart;
  complete = λ t. ground arith;
}
add_unique_citations-Cites citations (ref ∷ refs) apart =
    let first = add_unique_citation-Cites citations ref apart in
    let rest = add_unique_citations-Cites (add_unique_citation citations ref) refs first.once in
    record { once = rest.once; complete = λ t. rest.complete t ∙ ground (arith, first.complete t) }

-- A source that names a text among its references.
abbrev pub names {ℓ} : {A : Type ℓ} → (A → List Text) → Text → A → Bool
names refs t x = any (counts_as t) (refs x)

module _ {A : Type 0} (refs : A → List Text) where
  pub collect_citations-Cites :
      (citations : List Text) (xs : List A)
      → Distinct text_eq citations
      → Cites citations (collect_citations refs citations xs) (λ t. any (names refs t) xs)
  unfolding collect_citations any
  collect_citations-Cites citations [] apart = record { once = apart; complete = λ t. ground arith }
  collect_citations-Cites citations (x ∷ xs) apart =
      let first = add_unique_citations-Cites citations (refs x) apart in
      let rest = collect_citations-Cites (add_unique_citations citations (refs x)) xs first.once in
      record {
        once = rest.once;
        complete = λ t. rest.complete t ∙ ground (arith, first.complete t);
      }

-- The citations that are collected of a snapshot are different from each other, and a text is among
-- them where and only where it is a non-empty source reference of a summary, an entity or a relation.
pub collect_snapshot_citations-Cites :
    (snapshot : LongTermMemorySnapshot) (t : Text)
    → Distinct text_eq (collect_snapshot_citations [] snapshot)
      × (mem_text t (collect_snapshot_citations [] snapshot) ≡ (
          any (names (λ (x : LongTermSummaryRecord). x.source_refs) t) snapshot.summaries
          || any (names (λ (x : MemoryEntity). x.source_refs) t) snapshot.entities
          || any (names (λ (x : MemoryRelation). x.source_refs) t) snapshot.relations))
unfolding collect_snapshot_citations mem_text
collect_snapshot_citations-Cites snapshot t =
    let a =
      collect_citations-Cites (λ (x : LongTermSummaryRecord). x.source_refs) [] snapshot.summaries
        tt in
    let b =
      collect_citations-Cites (λ (x : MemoryEntity). x.source_refs) _ snapshot.entities a.once in
    let c =
      collect_citations-Cites (λ (x : MemoryRelation). x.source_refs) _ snapshot.relations b.once in
    (c.once, c.complete t ∙ ground (arith, a.complete t, b.complete t))
