-- ===== src/Consolidation/Batch/Selection.antt =====
-- What the loop of the batch builder (src/consolidation/consolidation_batch_builder.cpp) selects.
use agent_memory_cpp.Prelude.{
  ℕ, suc, ◌+◌, ◌≤◌, ◌<◌, ◌≡◌, refl, sym, ap, ◌∙◌, ◌⊎◌, inl, inr, true, false, ◌||◌, ◌^◌,
  length-keep_if-le, List, [], ◌∷◌, ◌++◌, arith, keep_if, length, length-append, Bool-cases,
}
use mathlib.Core.List.{append_assoc, append-nil}
use agent_memory_cpp.Prelude.Int.{ℤ, pos, is_positive, to_ℕ, to_int32_small}
use agent_memory_cpp.Text.{Text}
use agent_memory_cpp.Types.{MemoryEvent, MemoryConsolidationRequest}
use agent_memory_cpp.Consolidation.Batch.{
  Scan, empty_scan, add_event, event_cursor, is_eligible, is_full, scan_events, build,
  ConsolidationBatchBuildResult, built, session_uri,
}

-- The cursor of the last of the events, the first of which has index i.
abbrev pub last_cursor : ℕ → Text → List MemoryEvent → Text
last_cursor i cursor [] = cursor
last_cursor i cursor (event ∷ events) = last_cursor (suc i) (event_cursor i event) events

-- The scan has read `taken`, kept what is eligible, and stopped at the end or at the limit.
pub record Scans (request : MemoryConsolidationRequest) (limit : ℤ) (i : ℕ) (st : Scan)
    (events : List MemoryEvent) (result : Scan) : Type 0 where
  pub taken : List MemoryEvent
  pub rest : List MemoryEvent
  pub split : events ≡ taken ++ rest
  pub kept : result.events ≡ st.events ++ keep_if (is_eligible request) taken
  pub counted : result.count ≡ st.count + length (keep_if (is_eligible request) taken)
  pub cursor : result.next_cursor ≡ last_cursor i st.next_cursor taken
  pub bounded : (is_positive limit ≡ false) ⊎ (result.count ≤ to_ℕ limit)
  pub ended : (rest ≡ []) ⊎ ((is_positive limit ≡ true) × (result.count ≡ to_ℕ limit))

module _ (request : MemoryConsolidationRequest) (limit : ℤ) where
  skip-Scans :
      (i : ℕ) (st : Scan) (event : MemoryEvent) (events : List MemoryEvent) (result : Scan)
      → is_eligible request event ≡ false
      → Scans request limit (suc i) (record st { next_cursor = event_cursor i event }) events result
      → Scans request limit i st (event ∷ events) result
  unfolding keep_if
  skip-Scans i st event events result out h = record {
    taken = event ∷ h.taken;
    rest = h.rest;
    split = ap (◌∷◌ event) h.split;
    kept = rw out h.kept;
    counted = rw out h.counted;
    cursor = h.cursor;
    bounded = h.bounded;
    ended = h.ended;
  }

  stop-Scans :
      (i : ℕ) (st : Scan) (event : MemoryEvent) (events : List MemoryEvent)
      → is_eligible request event ≡ true
      → is_full limit (st.count + 1) ≡ true
      → (is_positive limit ≡ true → st.count < to_ℕ limit)
      → let moved = record st { next_cursor = event_cursor i event } in
        Scans request limit i st
          (event ∷ events)
          (add_event request.session_id (event_cursor i event) event moved)
  unfolding keep_if add_event
  stop-Scans i st event events fits full room = record {
    taken = event ∷ [];
    rest = events;
    split = refl;
    kept = rw fits;
    counted = rw fits;
    cursor = refl;
    bounded = ground (arith, room);
    ended = inr (ground arith, ground arith);
  }

  add-Scans :
      (i : ℕ) (st : Scan) (event : MemoryEvent) (events : List MemoryEvent) (result : Scan)
      → is_eligible request event ≡ true
      → let moved = record st { next_cursor = event_cursor i event } in
        Scans request limit
          (suc i)
          (add_event request.session_id (event_cursor i event) event moved)
          events
          result
        → Scans request limit i st (event ∷ events) result
  unfolding keep_if add_event
  add-Scans i st event events result fits h = record {
    taken = event ∷ h.taken;
    rest = h.rest;
    split = ap (◌∷◌ event) h.split;
    kept =
        rw fits
          (h.kept ∙ append_assoc st.events (event ∷ []) (keep_if (is_eligible request) h.taken));
    counted = rw fits (omega (arith, h.counted));
    cursor = h.cursor;
    bounded = h.bounded;
    ended = h.ended;
  }

  scan_events-Scans :
      (i : ℕ) (st : Scan) (events : List MemoryEvent)
      → (is_positive limit ≡ true → st.count < to_ℕ limit)
      → Scans request limit i st events (scan_events request limit i st events)
  unfolding scan_events keep_if
  scan_events-Scans i st [] room = record {
    taken = [];
    rest = [];
    split = refl;
    kept = sym (append-nil st.events);
    counted = omega arith;
    cursor = refl;
    bounded = ground (arith, room);
    ended = inl refl;
  }
  scan_events-Scans i st (event ∷ events) room =
      let moved = record st { next_cursor = event_cursor i event } in
      let added = add_event request.session_id (event_cursor i event) event moved in
      elim (Bool-cases (is_eligible request event)) [
        | inr out ↦
            rw out
              (skip-Scans i st event events _ out (scan_events-Scans (suc i) moved events room))
        | inl fits ↦ rw fits (elim (Bool-cases (is_full limit (st.count + 1))) [
          | inl full ↦ rw full (stop-Scans i st event events fits full room)
          | inr more ↦ rw more (
              add-Scans i st event events _ fits
                (scan_events-Scans (suc i) added events (λ p. ground arith)))
        ])
      ]

-- The events of the batch are the eligible ones among the events up to the last one scanned, whose
-- cursor is the next cursor; only a full batch leaves events unscanned.
pub record Selects (request : MemoryConsolidationRequest) (events : List MemoryEvent)
    (result : ConsolidationBatchBuildResult) : Type 0 where
  pub taken : List MemoryEvent
  pub rest : List MemoryEvent
  pub split : events ≡ taken ++ rest
  pub kept : result.batch.events ≡ keep_if (is_eligible request) taken
  pub cursor : result.next_cursor ≡ last_cursor 0 [] taken
  pub bounded :
      (is_positive request.max_events ≡ false)
      ⊎ (length result.batch.events ≤ to_ℕ request.max_events)
  pub ended :
      (rest ≡ [])
      ⊎ ((is_positive request.max_events ≡ true)
          × (length result.batch.events ≡ to_ℕ request.max_events))

is_positive-to_ℕ : (n : ℤ) → is_positive n ≡ true → 0 < to_ℕ n
is_positive-to_ℕ n h = ground arith

empty_of_length : (xs : List MemoryEvent) → length xs ≡ 0 → xs ≡ []
empty_of_length [] h = refl
empty_of_length (x ∷ xs) h = absurd (omega arith)

scan-Selects :
    (request : MemoryConsolidationRequest) (events : List MemoryEvent) (refs : List Text)
    → is_positive request.max_events ≡ true
    → Selects request events
        (built request (scan_events request request.max_events 0 empty_scan events) refs)
scan-Selects request events refs h =
    let limit = request.max_events in
    let s = scan_events-Scans request limit 0 empty_scan events (is_positive-to_ℕ limit) in
    record {
      taken = s.taken;
      rest = s.rest;
      split = s.split;
      kept = s.kept;
      cursor = s.cursor;
      bounded = rw s.kept (ground (arith, s.counted, s.bounded));
      ended = rw s.kept (ground (arith, s.counted, s.ended));
    }

-- A limit that is the number of events leaves none unscanned.
scan_all-Selects :
    (request : MemoryConsolidationRequest) (events : List MemoryEvent) (refs : List Text)
    → is_positive request.max_events ≡ false
    → Selects request events
        (built request (scan_events request (pos (length events)) 0 empty_scan events) refs)
scan_all-Selects request events refs h =
    let limit = pos (length events) in
    let s = scan_events-Scans request limit 0 empty_scan events (is_positive-to_ℕ limit) in
    record {
      taken = s.taken;
      rest = s.rest;
      split = s.split;
      kept = s.kept;
      cursor = s.cursor;
      bounded = inl h;
      ended = inl (
          empty_of_length s.rest (elim s.ended [
            | inl none_left ↦ ap length none_left
            | inr (p, full) ↦ omega (
              arith,
              s.counted,
              length-keep_if-le (is_eligible request) s.taken,
              length-append s.taken s.rest,
              ap length s.split,
            )
          ]));
    }

-- For fewer than 2^31 events, and unless the request neither forces reprocessing nor has a positive
-- limit, the batch holds exactly the eligible events (of the requested session, of no excluded
-- session, and messages) of the scanned prefix, in order; the next cursor is that of the last
-- scanned event; a positive limit is never exceeded; and events are left unscanned only where the
-- limit is positive and reached.
pub build-Selects :
    (request : MemoryConsolidationRequest) (events : List MemoryEvent)
    → length events < 2 ^ 31
    → (request.force_reprocess || is_positive request.max_events) ≡ true
    → Selects request events (build request events)
unfolding build
build-Selects request events small active = elim (Bool-cases (is_positive request.max_events)) [
  | inl p ↦ ground (arith, scan-Selects request events (session_uri request.session_id ∷ []) p)
  | inr p ↦ ground (
    arith,
    to_int32_small (length events) small,
    scan_all-Selects request events (session_uri request.session_id ∷ []) p,
  )
]

-- Where nothing was scanned there was nothing to scan.
pub nothing_scanned :
    (request : MemoryConsolidationRequest) (events : List MemoryEvent)
    (result : ConsolidationBatchBuildResult) (s : Selects request events result)
    → s.taken ≡ []
    → s.rest ≡ []
nothing_scanned request events result s e = elim s.ended [
  | inl none_left ↦ none_left
  | inr (positive, full) ↦ absurd (
      omega (
        arith,
        is_positive-to_ℕ request.max_events positive,
        full,
        ap length s.kept,
        length-keep_if-le (is_eligible request) s.taken,
        ap length e,
      ))
]
