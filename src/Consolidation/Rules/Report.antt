-- ===== src/Consolidation/Rules/Report.antt =====
-- What the rules report of a batch, described without their loop.
use agent_memory_cpp.Prelude.{
  or_assoc, ◌≡◌, refl, subst, sym, ◌∙◌, Bool, true, false, not, ◌&&◌, ◌||◌, List, [], ◌∷◌, ◌++◌,
  is_empty, length, length-append, any, inl, inr, Bool-cases, arith, if◌then◌else◌,
}
use agent_memory_cpp.Prelude.Distinct.{Distinct, Distinct-append}
use agent_memory_cpp.Text.{Text, codes, text_eq, text_eq_sound, mem_text}
use agent_memory_cpp.Text.Members.{mem_text-append, mem_text-false}
use agent_memory_cpp.Types.{MemoryEvent}
use agent_memory_cpp.Consolidation.Batch.{LongTermMemoryBatch, is_message}
use agent_memory_cpp.Consolidation.Rules.{
  Findings, no_findings, topic_summary, detect_topic, is_new_topic, add_topic, note_topic,
  is_preference, note_preference, preference_relation, process_event, process_events, process,
}

-- A message of a user that says a preference.
abbrev pub says_preference : MemoryEvent → Bool
says_preference event = is_message event.kind && is_preference event

-- A message on a topic.
abbrev pub is_on : Text → MemoryEvent → Bool
is_on topic event = is_message event.kind && text_eq (detect_topic event.content) topic

text_eq-append : (s a b : Text) → text_eq (s ++ a) (s ++ b) ≡ text_eq a b
unfolding text_eq
text_eq-append [] a b = refl
text_eq-append (c ∷ s) a b = ground (arith, text_eq-append s a b)

module _ (refs : List Text) where
  -- One preference at most, and one where any message says one.
  abbrev Preferences : Bool → Findings → Type 0
  Preferences said f =
      (f.has_preference ≡ said) × (length f.update.relations ≡ (if said then 1 else 0))

  note_topic-Preferences :
      (said : Bool) (event : MemoryEvent) (f : Findings)
      → Preferences said f
      → Preferences said (note_topic refs event f)
  unfolding note_topic add_topic
  note_topic-Preferences said event f h = ground (arith, h)

  note_preference-Preferences :
      (said : Bool) (event : MemoryEvent) (f : Findings)
      → Preferences said f
      → Preferences (said || is_preference event) (note_preference refs event f)
  unfolding note_preference
  note_preference-Preferences said event f h =
      ground
        (arith, h, length-append f.update.relations (preference_relation refs event.agent_id ∷ []))

  process_event-Preferences :
      (said : Bool) (event : MemoryEvent) (f : Findings)
      → Preferences said f
      → Preferences (said || says_preference event) (process_event refs event f)
  unfolding process_event
  process_event-Preferences said event f h =
      let noted =
        note_preference-Preferences said event (note_topic refs event f)
          (note_topic-Preferences said event f h) in
      ground (arith, noted, h)

  process_events-Preferences :
      (said : Bool) (events : List MemoryEvent) (f : Findings)
      → Preferences said f
      → Preferences (said || any says_preference events) (process_events refs events f)
  unfolding process_events any
  process_events-Preferences said [] f h = ground (arith, h)
  process_events-Preferences said (event ∷ events) f h =
      subst (λ b. Preferences b (process_events refs events (process_event refs event f)))
        (or_assoc said (says_preference event) (any says_preference events))
        (process_events-Preferences (said || says_preference event) events
          (process_event refs event f) (process_event-Preferences said event f h))

  -- The summaries are those of the topics seen, each once, and the topics are those that are said.
  record Topics (said : Text → Bool) (f : Findings) : Type 0 where
    summarised :
        (topic : Text)
        → mem_text (topic_summary topic) f.update.topic_summaries ≡ mem_text topic f.seen_topics
    once : Distinct text_eq f.update.topic_summaries
    complete : (topic : Text) → is_empty topic ≡ false → mem_text topic f.seen_topics ≡ said topic

  add_topic-Topics :
      (said : Text → Bool) (agent topic : Text) (f : Findings)
      → is_new_topic topic f ≡ true
      → Topics said f
      → Topics (λ t. said t || text_eq topic t) (add_topic refs agent topic f)
  unfolding is_new_topic add_topic
  add_topic-Topics said agent topic f new h = record {
    summarised = λ t.
        mem_text-append (topic_summary t) f.update.topic_summaries (topic_summary topic)
        ∙ ground (arith, h.summarised t, text_eq-append (codes "Discussed topic: ") topic t);
    once = Distinct-append text_eq f.update.topic_summaries (topic_summary topic) h.once (
        mem_text-false (topic_summary topic) f.update.topic_summaries
          (h.summarised topic ∙ ground (arith, new)));
    complete = λ t e. ground (arith, h.complete t e);
  }

  known-Topics :
      (said : Text → Bool) (topic : Text) (f : Findings)
      → is_new_topic topic f ≡ false
      → Topics said f
      → Topics (λ t. said t || text_eq topic t) f
  unfolding is_new_topic
  known-Topics said topic f known h = record {
    summarised = h.summarised;
    once = h.once;
    complete = λ t e. h.complete t e ∙ elim (Bool-cases (text_eq topic t)) [
      | inr other ↦ ground (arith, other)
      | inl same ↦
          (let seen : mem_text t f.seen_topics ≡ true =
              subst (λ u. mem_text u f.seen_topics ≡ true) (text_eq_sound topic t same)
                (ground (
                  arith,
                  known,
                  subst (λ u. is_empty u ≡ false) (sym (text_eq_sound topic t same)) e,
                )) in
            ground (arith, h.complete t e, seen, same))
    ];
  }

  note_topic-Topics :
      (said : Text → Bool) (event : MemoryEvent) (f : Findings)
      → Topics said f
      → Topics (λ t. said t || text_eq (detect_topic event.content) t) (note_topic refs event f)
  unfolding note_topic
  note_topic-Topics said event f h =
      let topic = detect_topic event.content in
      elim (Bool-cases (is_new_topic topic f)) [
        | inl new ↦ rw new (add_topic-Topics said event.agent_id topic f new h)
        | inr known ↦ rw known (known-Topics said topic f known h)
      ]

  note_preference-Topics :
      (said : Text → Bool) (event : MemoryEvent) (f : Findings)
      → Topics said f
      → Topics said (note_preference refs event f)
  unfolding note_preference
  note_preference-Topics said event f h =
      elim (Bool-cases (not f.has_preference && is_preference event)) [
        | inl new ↦
            rw new (record { summarised = h.summarised; once = h.once; complete = h.complete })
        | inr old ↦ rw old h
      ]

  Topics-same :
      (said told : Text → Bool) (f : Findings)
      → ((t : Text) → said t ≡ told t)
      → Topics said f
      → Topics told f
  Topics-same said told f same h = record {
    summarised = h.summarised;
    once = h.once;
    complete = λ t e. h.complete t e ∙ same t;
  }

  process_event-Topics :
      (said : Text → Bool) (event : MemoryEvent) (f : Findings)
      → Topics said f
      → Topics (λ t. said t || is_on t event) (process_event refs event f)
  unfolding process_event
  process_event-Topics said event f h = elim (Bool-cases (is_message event.kind)) [
    | inl yes_it_is ↦ rw yes_it_is (
        note_preference-Topics _ event (note_topic refs event f) (note_topic-Topics said event f h))
    | inr other ↦ rw other (Topics-same said (λ t. said t || false) f (λ t. ground arith) h)
  ]

  process_events-Topics :
      (said : Text → Bool) (events : List MemoryEvent) (f : Findings)
      → Topics said f
      → Topics (λ t. said t || any (is_on t) events) (process_events refs events f)
  unfolding process_events any
  process_events-Topics said [] f h =
      Topics-same said (λ t. said t || false) f (λ t. ground arith) h
  process_events-Topics said (event ∷ events) f h =
      Topics-same (λ t. (said t || is_on t event) || any (is_on t) events)
        (λ t. said t || (is_on t event || any (is_on t) events)) _
        (λ t. or_assoc (said t) (is_on t event) (any (is_on t) events))
        (process_events-Topics (λ t. said t || is_on t event) events (process_event refs event f)
          (process_event-Topics said event f h))

-- The summaries of the rules' update are all different, and a non-empty topic has one where and only
-- where a message of the batch is on that topic.
pub process-Topics :
    (batch : LongTermMemoryBatch) (topic : Text)
    → is_empty topic ≡ false
    → Distinct text_eq (process batch).topic_summaries
      × (mem_text (topic_summary topic) (process batch).topic_summaries
          ≡ any (is_on topic) batch.events)
unfolding process
process-Topics batch topic some_topic =
    let start : Topics batch.source_refs (λ t. false) no_findings = record {
      summarised = λ t. refl;
      once = tt;
      complete = λ t e. refl;
    } in
    let h = process_events-Topics batch.source_refs (λ t. false) batch.events no_findings start in
    (h.once, h.summarised topic ∙ h.complete topic some_topic)

-- The rules report one relation if a message of a user in the batch says a preference, and none
-- otherwise.
pub process-Preferences :
    (batch : LongTermMemoryBatch)
    → length (process batch).relations ≡ (if any says_preference batch.events then 1 else 0)
unfolding process
process-Preferences batch =
    (process_events-Preferences batch.source_refs false batch.events no_findings (refl, refl)).1
