-- ===== src/Storage/Cursors/RoundTrip.antt =====
-- Saving and then loading a cursor (src/storage/sqlite_store.cpp).
use agent_memory_cpp.Prelude.{
  ℕ, ◌+◌, ◌<◌, ◌^◌, ◌≡◌, refl, ap, ◌∙◌, Bool, true, false, ◌&&◌, Option, none, some, List, [], ◌∷◌,
  ◌++◌, map, any, keep_if, arith, inl, inr, Bool-cases, if◌then◌else◌,
}
use agent_memory_cpp.Prelude.Int.{ℤ}
use agent_memory_cpp.Text.{Text, text_eq, text_eq_iff, text_eq_refl}
use agent_memory_cpp.Text.Decimal.{to_string, cursor_to_int, cursor_to_int-to_string}
use agent_memory_cpp.Types.{Timestamp}
use agent_memory_cpp.Storage.Tables.{Tables, CursorRow, c_str}
use agent_memory_cpp.Storage.Engine.{MemorySqliteStore}
use agent_memory_cpp.Storage.Cursors.{
  is_cursor_of, cursor_row, replace_cursor, upsert_cursor, load_consolidation_cursor, int_to_string,
  cursor_loaded, save_consolidation_cursor,
}

-- The value of the first row of an agent and a session.
unfoldable pub cursor_value : Text → Text → List CursorRow → Option ℤ
cursor_value agent session [] = none
cursor_value agent session (row ∷ rows) =
    if is_cursor_of agent session row then some row.cursor else cursor_value agent session rows

module _ (agent session cursor : Text) (now : Timestamp) where
  new_row-is_cursor_of : is_cursor_of agent session (cursor_row agent session cursor now) ≡ true
  unfolding is_cursor_of cursor_row
  new_row-is_cursor_of = rw (text_eq_refl (c_str agent), text_eq_refl (c_str session))

  cursor-new_row : (cursor_row agent session cursor now).cursor ≡ cursor_to_int cursor
  unfolding cursor_row
  cursor-new_row = refl

  cursor_value-replaced :
      (rows : List CursorRow)
      → any (is_cursor_of agent session) rows ≡ true
      → cursor_value agent session
          (map (replace_cursor agent session (cursor_row agent session cursor now)) rows)
        ≡ some (cursor_to_int cursor)
  unfolding cursor_value any replace_cursor
  cursor_value-replaced [] h = cc
  cursor_value-replaced (row ∷ rows) h =
      ground (arith, new_row-is_cursor_of, cursor-new_row, cursor_value-replaced rows)

  cursor_value-appended :
      (rows : List CursorRow)
      → any (is_cursor_of agent session) rows ≡ false
      → cursor_value agent session (rows ++ cursor_row agent session cursor now ∷ [])
        ≡ some (cursor_to_int cursor)
  unfolding cursor_value any
  cursor_value-appended [] h = ground (arith, new_row-is_cursor_of, cursor-new_row)
  cursor_value-appended (row ∷ rows) h = ground (arith, cursor_value-appended rows)

  pub cursor_value-upsert :
      (t : Tables)
      → cursor_value agent session (upsert_cursor agent session cursor now t).cursors
        ≡ some (cursor_to_int cursor)
  unfolding upsert_cursor
  cursor_value-upsert t = elim (Bool-cases (any (is_cursor_of agent session) t.cursors)) [
    | inl known ↦ rw known (cursor_value-replaced t.cursors known)
    | inr fresh ↦ rw fresh (cursor_value-appended t.cursors fresh)
  ]

  -- The cursors of other agents and sessions stay.
  cursor_value-replaced_ne :
      (other_agent other_session : Text) (rows : List CursorRow)
      → is_cursor_of other_agent other_session (cursor_row agent session cursor now) ≡ false
      → ((row : CursorRow)
          → is_cursor_of agent session row ≡ true
          → is_cursor_of other_agent other_session row ≡ false)
      → cursor_value other_agent other_session
          (map (replace_cursor agent session (cursor_row agent session cursor now)) rows)
        ≡ cursor_value other_agent other_session rows
  unfolding cursor_value replace_cursor
  cursor_value-replaced_ne a b [] new apart = refl
  cursor_value-replaced_ne a b (row ∷ rows) new apart =
      ground (arith, apart row, cursor_value-replaced_ne a b rows new apart)

  cursor_value-appended_ne :
      (other_agent other_session : Text) (rows : List CursorRow)
      → is_cursor_of other_agent other_session (cursor_row agent session cursor now) ≡ false
      → cursor_value other_agent other_session (rows ++ cursor_row agent session cursor now ∷ [])
        ≡ cursor_value other_agent other_session rows
  unfolding cursor_value
  cursor_value-appended_ne a b [] new = ground arith
  cursor_value-appended_ne a b (row ∷ rows) new =
      ground (arith, cursor_value-appended_ne a b rows new)

-- Two keys as SQLite sees them.
abbrev pub is_same_key : Text → Text → Text → Text → Bool
is_same_key agent session other_agent other_session =
    text_eq (c_str agent) (c_str other_agent) && text_eq (c_str session) (c_str other_session)

module _ (agent session other_agent other_session : Text)
    (differ : is_same_key agent session other_agent other_session ≡ false) where
  new_row-ne :
      (cursor : Text) (now : Timestamp)
      → is_cursor_of other_agent other_session (cursor_row agent session cursor now) ≡ false
  unfolding is_cursor_of cursor_row
  new_row-ne cursor now = differ

  rows-ne :
      (row : CursorRow)
      → is_cursor_of agent session row ≡ true
      → is_cursor_of other_agent other_session row ≡ false
  unfolding is_cursor_of
  rows-ne row h =
      ground
        (arith, text_eq_iff row.agent_id (c_str agent), text_eq_iff row.session_id (c_str session))

  cursor_value-upsert_ne :
      (cursor : Text) (now : Timestamp) (t : Tables)
      → cursor_value other_agent other_session (upsert_cursor agent session cursor now t).cursors
        ≡ cursor_value other_agent other_session t.cursors
  unfolding upsert_cursor
  cursor_value-upsert_ne cursor now t =
      let new = new_row-ne cursor now in
      elim (Bool-cases (any (is_cursor_of agent session) t.cursors)) [
        | inl known ↦ rw known (
            cursor_value-replaced_ne agent session cursor now other_agent other_session t.cursors
              new rows-ne)
        | inr fresh ↦ rw fresh (
            cursor_value-appended_ne agent session cursor now other_agent other_session t.cursors
              new)
      ]

-- The text that `LoadConsolidationCursor` gives for a value.
abbrev pub cursor_text : Option ℤ → Text
cursor_text none = []
cursor_text (some v) = int_to_string v

-- The query of `LoadConsolidationCursor` runs to its end.
abbrev pub CanRead : MemorySqliteStore → Type 0
CanRead s =
    (s.opened ≡ true)
    × (s.engine.prepares s.calls ≡ true)
    × (s.engine.breaks_after (s.calls + 1) ≡ none)

rows_text : List CursorRow → Text
rows_text [] = []
rows_text (row ∷ rows) = int_to_string row.cursor

rows_text-keep_if :
    (agent session : Text) (rows : List CursorRow)
    → rows_text (keep_if (is_cursor_of agent session) rows)
      ≡ cursor_text (cursor_value agent session rows)
unfolding rows_text keep_if cursor_value
rows_text-keep_if agent session [] = refl
rows_text-keep_if agent session (row ∷ rows) = ground (arith, rows_text-keep_if agent session rows)

load_complete :
    (agent session : Text) (s : MemorySqliteStore) (rows : List CursorRow)
    → CanRead s
    → keep_if (is_cursor_of agent session) s.tables.cursors ≡ rows
    → (load_consolidation_cursor agent session s).0 ≡ cursor_loaded (rows_text rows)
unfolding load_consolidation_cursor rows_text
load_complete agent session s [] can e = ground arith
load_complete agent session s (row ∷ rows) can e = ground arith

-- A query that runs to its end gives the cursor of its agent and session, or the empty text.
pub load_consolidation_cursor_lem :
    (agent session : Text) (s : MemorySqliteStore)
    → CanRead s
    → (load_consolidation_cursor agent session s).0
      ≡ cursor_loaded (cursor_text (cursor_value agent session s.tables.cursors))
load_consolidation_cursor_lem agent session s can =
    rw (← rows_text-keep_if agent session s.tables.cursors)
      (load_complete agent session s _ can refl)

saved_tables :
    (agent session cursor : Text) (s : MemorySqliteStore)
    → (save_consolidation_cursor agent session cursor s).0.succeeded ≡ true
    → (now : Timestamp) × ((save_consolidation_cursor agent session cursor s).1.tables
        ≡ upsert_cursor agent session cursor now s.tables)
unfolding save_consolidation_cursor
saved_tables agent session cursor s h = (s.engine.now (s.calls + 1), ground arith)

-- After a successful `SaveConsolidationCursor` of a printed row id below 2^63, a
-- `LoadConsolidationCursor` of the same agent and session whose query runs to its end succeeds with
-- that cursor.
pub load-save :
    (agent session : Text) (n : ℕ) (s : MemorySqliteStore)
    → n < 2 ^ 63
    → (save_consolidation_cursor agent session (to_string n) s).0.succeeded ≡ true
    → CanRead (save_consolidation_cursor agent session (to_string n) s).1
    → (load_consolidation_cursor agent session
        (save_consolidation_cursor agent session (to_string n) s).1).0
      ≡ cursor_loaded (to_string n)
load-save agent session n s small saved can =
    let t = (save_consolidation_cursor agent session (to_string n) s).1 in
    let (now, tables) = saved_tables agent session (to_string n) s saved in
    load_consolidation_cursor_lem agent session t can
    ∙ ap (λ (rows : List CursorRow). cursor_loaded (cursor_text (cursor_value agent session rows)))
        (ap (λ (u : Tables). u.cursors) tables)
    ∙ ap (λ o. cursor_loaded (cursor_text o))
        (cursor_value-upsert agent session (to_string n) now s.tables)
    ∙ ap (λ v. cursor_loaded (int_to_string v)) (cursor_to_int-to_string n small)

-- A successful `SaveConsolidationCursor` changes no cursor of another agent or session, names being
-- compared up to their first NUL.
pub load-save_ne :
    (agent session cursor other_agent other_session : Text) (s : MemorySqliteStore)
    → is_same_key agent session other_agent other_session ≡ false
    → (save_consolidation_cursor agent session cursor s).0.succeeded ≡ true
    → cursor_value other_agent other_session
        (save_consolidation_cursor agent session cursor s).1.tables.cursors
      ≡ cursor_value other_agent other_session s.tables.cursors
load-save_ne agent session cursor a b s differ saved =
    let (now, tables) = saved_tables agent session cursor s saved in
    ap (λ (u : Tables). cursor_value a b u.cursors) tables
    ∙ cursor_value-upsert_ne agent session a b differ cursor now s.tables
