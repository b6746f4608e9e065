-- ===== src/Storage/Events/Resume.antt =====
-- Reading on from a cursor: `LoadEventsAfterCursor` (src/storage/sqlite_store.cpp) from the cursor of an
-- event that was read.
use agent_memory_cpp.Prelude.{
  ℕ, ◌≤◌, ◌<◌, ◌^◌, ◌≡◌, ◌≢◌, refl, sym, ap, ◌∙◌, Bool, true, false, ◌&&◌, not, List, [], ◌∷◌, ◌++◌,
  map, keep_if, arith, All, subst, inl, inr, Bool-cases, is_empty, if◌then◌else◌,
}
use agent_memory_cpp.Prelude.Distinct.{All-mono}
use agent_memory_cpp.Prelude.Int.{ℤ, pos, lt_ℕ}
use agent_memory_cpp.Text.{Text, text_eq, mem_text}
use agent_memory_cpp.Text.Decimal.{to_string, cursor_to_int, cursor_to_int-to_string}
use agent_memory_cpp.Storage.Tables.{Tables, EventRow, c_str}
use agent_memory_cpp.Storage.Events.{is_after_cursor, events_after}
use agent_memory_cpp.Storage.Invariant.{Ascends, IsConsistent}

-- The id of the last of some rows.
abbrev pub last_id : EventRow → List EventRow → ℕ
last_id x [] = x.id
last_id x (y ∷ ys) = last_id y ys

Ascends-All :
    (low high : ℕ) (rows : List EventRow) → Ascends low high rows → All (λ row. low < row.id) rows
Ascends-All low high [] h = tt
Ascends-All low high (row ∷ rows) h = (
  h.0,
  All-mono (λ r. row.id < r.id) (λ r. low < r.id) rows (λ r k. omega arith)
      (Ascends-All row.id high rows h.1),
)

All-keep_if :
    (P : EventRow → Type 0) (p : EventRow → Bool) (rows : List EventRow)
    → All P rows
    → All P (keep_if p rows)
unfolding keep_if
All-keep_if P p [] h = tt
All-keep_if P p (row ∷ rows) h = ground (arith, All-keep_if P p rows h.1)

All-last_id :
    (low : ℕ) (x : EventRow) (xs rest : List EventRow)
    → All (λ row. low < row.id) (x ∷ xs ++ rest)
    → low < last_id x xs
All-last_id low x [] rest h = h.0
All-last_id low x (y ∷ ys) rest h = All-last_id low y ys rest h.1

nil_not : (x : EventRow) (xs : List EventRow) → [] ≢ x ∷ xs
nil_not x xs e = cc

Ascends-le : (low high : ℕ) (rows : List EventRow) → Ascends low high rows → low ≤ high
Ascends-le low high [] h = h
Ascends-le low high (row ∷ rows) h = omega (arith, h.0, Ascends-le row.id high rows h.1)

-- No id is above the bound.
Ascends-high :
    (low high : ℕ) (rows : List EventRow) → Ascends low high rows → All (λ row. row.id ≤ high) rows
Ascends-high low high [] h = tt
Ascends-high low high (row ∷ rows) h =
    (Ascends-le row.id high rows h.1, Ascends-high row.id high rows h.1)

module _ (sel : EventRow → Bool) where
  abbrev after : ℤ → EventRow → Bool
  after c row = lt_ℕ c row.id && sel row

  -- Above both cursors they make no difference.
  keep_if-after :
      (c d : ℤ) (rows : List EventRow)
      → All (λ row. (lt_ℕ c row.id ≡ true) × (lt_ℕ d row.id ≡ true)) rows
      → keep_if (after c) rows ≡ keep_if (after d) rows
  unfolding keep_if
  keep_if-after c d [] h = refl
  keep_if-after c d (row ∷ rows) h = ground (arith, keep_if-after c d rows h.1)

  above :
      (c : ℤ) (n high : ℕ) (rows : List EventRow)
      → lt_ℕ c n ≡ true
      → Ascends n high rows
      → All (λ row. (lt_ℕ (pos n) row.id ≡ true) × (lt_ℕ c row.id ≡ true)) rows
  above c n high rows h asc =
      All-mono (λ row. n < row.id) _ rows (λ row k. ground arith) (Ascends-All n high rows asc)

  skipped :
      (c d : ℤ) (row : EventRow) (rows : List EventRow)
      → after c row ≡ false
      → keep_if (after c) (row ∷ rows) ≡ keep_if (after c) rows
  unfolding keep_if
  skipped c d row rows out = ground arith

  selected :
      (c : ℤ) (row : EventRow) (rows : List EventRow)
      → after c row ≡ true
      → keep_if (after c) (row ∷ rows) ≡ row ∷ keep_if (after c) rows
  unfolding keep_if
  selected c row rows chosen = ground arith

  -- The ids of what the query returns are above a bound of the ids.
  low-last_id :
      (c : ℤ) (low high : ℕ) (rows : List EventRow) (x : EventRow) (taken rest : List EventRow)
      → Ascends low high rows
      → keep_if (after c) rows ≡ x ∷ taken ++ rest
      → low < last_id x taken
  low-last_id c low high rows x taken rest asc e = All-last_id low x taken rest (
      subst (λ l. All (λ r. low < r.id) l) e
        (All-keep_if (λ r. low < r.id) (after c) rows (Ascends-All low high rows asc)))

  -- Behind the id of a row that was passed over, the query asks the later rows only.
  passed :
      (d : ℤ) (n : ℕ) (row : EventRow) (rows : List EventRow)
      → d ≡ pos n
      → row.id ≤ n
      → keep_if (after d) (row ∷ rows) ≡ keep_if (after d) rows
  passed d n row rows e le = skipped d d row rows (ground arith)

  cons_parts : (x y : EventRow) (xs ys : List EventRow) → x ∷ xs ≡ y ∷ ys → (x ≡ y) × (xs ≡ ys)
  cons_parts x y xs ys e = (cc, cc)

  -- The induction's hypothesis for the rows behind `low`.
  abbrev Resumes : ℤ → List EventRow → Type 0
  Resumes c rows =
      (x : EventRow) (taken rest : List EventRow)
      → keep_if (after c) rows ≡ x ∷ taken ++ rest
      → keep_if (after (pos (last_id x taken))) rows ≡ rest

  resume_chosen :
      (c : ℤ) (high : ℕ) (row : EventRow) (rows taken rest : List EventRow)
      → Ascends row.id high rows
      → Resumes c rows
      → after c row ≡ true
      → keep_if (after c) rows ≡ taken ++ rest
      → keep_if (after (pos (last_id row taken))) (row ∷ rows) ≡ rest
  resume_chosen c high row rows [] rest asc ih chosen e =
      passed (pos row.id) row.id row rows refl (omega arith)
      ∙ keep_if-after (pos row.id) c rows (above c row.id high rows (ground arith) asc)
      ∙ e
  resume_chosen c high row rows (y ∷ ys) rest asc ih chosen e =
      passed (pos (last_id y ys)) (last_id y ys) row rows refl
        (omega (arith, low-last_id c row.id high rows y ys rest asc e))
      ∙ ih y ys rest e

  pub keep_if-resume :
      (c : ℤ) (low high : ℕ) (rows : List EventRow) → Ascends low high rows → Resumes c rows
  keep_if-resume c low high [] asc x taken rest e =
      absurd (unfold keep_if in nil_not x (taken ++ rest) e)
  keep_if-resume c low high (row ∷ rows) asc x taken rest e =
      let ih = keep_if-resume c row.id high rows asc.1 in
      elim (Bool-cases (after c row)) [
        | inr out ↦
            let e1 = sym (skipped c c row rows out) ∙ e in
            passed (pos (last_id x taken)) (last_id x taken) row rows refl
              (omega (arith, low-last_id c row.id high rows x taken rest asc.1 e1))
            ∙ ih x taken rest e1
        | inl chosen ↦
            let (same, e1) =
              cons_parts row x (keep_if (after c) rows) (taken ++ rest)
                (sym (selected c row rows chosen) ∙ e) in
            subst (λ r. keep_if (after (pos (last_id r taken))) (row ∷ rows) ≡ rest) same
              (resume_chosen c high row rows taken rest asc.1 ih chosen e1)
      ]

All-last_id-high :
    (high : ℕ) (x : EventRow) (xs rest : List EventRow)
    → All (λ row. row.id ≤ high) (x ∷ xs ++ rest)
    → last_id x xs ≤ high
All-last_id-high high x [] rest h = h.0
All-last_id-high high x (y ∷ ys) rest h = All-last_id-high high y ys rest h.1

module _ (agent session : Text) (excluded : List Text) where
  -- The conditions of the query besides the cursor.
  abbrev is_wanted : EventRow → Bool
  is_wanted row =
      text_eq row.agent_id (c_str agent)
      && (if is_empty session
          then not (mem_text row.session_id (map c_str excluded))
          else text_eq row.session_id (c_str session))

  is_after_cursor-after :
      (c : ℤ) (row : EventRow)
      → is_after_cursor c agent session excluded row ≡ after is_wanted c row
  unfolding is_after_cursor
  is_after_cursor-after c row = ground arith

  keep_if-is_after_cursor :
      (c : ℤ) (rows : List EventRow)
      → keep_if (is_after_cursor c agent session excluded) rows ≡ keep_if (after is_wanted c) rows
  unfolding keep_if
  keep_if-is_after_cursor c [] = refl
  keep_if-is_after_cursor c (row ∷ rows) =
      rw (is_after_cursor-after c row, keep_if-is_after_cursor c rows)

  events_after-keep_if :
      (cursor : Text) (t : Tables)
      → events_after agent session cursor excluded t
        ≡ keep_if (after is_wanted (cursor_to_int cursor)) t.events
  unfolding events_after
  events_after-keep_if cursor t = keep_if-is_after_cursor (cursor_to_int cursor) t.events

  pub last_id-le :
      (cursor : Text) (t : Tables) (x : EventRow) (taken rest : List EventRow)
      → IsConsistent t
      → events_after agent session cursor excluded t ≡ x ∷ taken ++ rest
      → last_id x taken ≤ t.sequence.events
  last_id-le cursor t x taken rest ok e =
      let high = t.sequence.events in
      All-last_id-high high x taken rest (
        subst (λ l. All (λ r. r.id ≤ high) l) (sym (events_after-keep_if cursor t) ∙ e)
          (All-keep_if (λ r. r.id ≤ high) (after is_wanted (cursor_to_int cursor)) t.events
            (Ascends-high 0 high t.events ok.events_ascend)))

  -- The query reads nothing but the events.
  pub events_after-log :
      (cursor : Text) (t u : Tables)
      → t.events ≡ u.events
      → events_after agent session cursor excluded t ≡ events_after agent session cursor excluded u
  unfolding events_after
  events_after-log cursor t u e =
      ap (λ l. keep_if (is_after_cursor (cursor_to_int cursor) agent session excluded) l) e

  -- If the tables are consistent and fewer than 2^63 events were ever saved, then the query from the
  -- cursor of an event that a query returned gives exactly the events behind that event in the first
  -- query's answer: none is lost and none is given twice.
  pub events_after-resume :
      (cursor : Text) (t : Tables) (x : EventRow) (taken rest : List EventRow)
      → IsConsistent t
      → t.sequence.events < 2 ^ 63
      → events_after agent session cursor excluded t ≡ x ∷ taken ++ rest
      → events_after agent session (to_string (last_id x taken)) excluded t ≡ rest
  events_after-resume cursor t x taken rest ok small e =
      let c = cursor_to_int cursor in
      let high = t.sequence.events in
      let e1 = sym (events_after-keep_if cursor t) ∙ e in
      let le = last_id-le cursor t x taken rest ok e in
      let same = cursor_to_int-to_string (last_id x taken) (omega (arith, le, small)) in
      events_after-keep_if (to_string (last_id x taken)) t
      ∙ ap (λ d. keep_if (after is_wanted d) t.events) same
      ∙ keep_if-resume is_wanted c 0 high t.events ok.events_ascend x taken rest e1
