-- ===== src/Consolidation/Resume.antt =====
-- Batch after batch: the batch builder (src/consolidation/consolidation_batch_builder.cpp) on the events
-- that the store loads behind a cursor.
use agent_memory_cpp.Prelude.{
  ℕ, suc, ◌<◌, ◌^◌, arith, ◌≡◌, ◌≢◌, ◌⊎◌, inl, inr, refl, sym, ap, ◌∙◌, ◌||◌, true, List, [], ◌∷◌,
  ◌++◌, map, keep_if, length, is_empty, false, ◌≤◌,
}
use agent_memory_cpp.Prelude.Int.{is_positive, to_ℕ}
use agent_memory_cpp.Text.{Text}
use agent_memory_cpp.Text.Decimal.{to_string, to_string-IsNonempty}
use agent_memory_cpp.Types.{MemoryEvent, MemoryConsolidationRequest}
use agent_memory_cpp.Storage.Tables.{Tables, EventRow}
use agent_memory_cpp.Storage.Engine.{Engine}
use agent_memory_cpp.Storage.Events.{events_after, read_event_row}
use agent_memory_cpp.Storage.Events.Resume.{last_id, last_id-le, events_after-resume}
use agent_memory_cpp.Storage.Invariant.{IsConsistent}
use agent_memory_cpp.Consolidation.Batch.{build, event_cursor, is_eligible}
use agent_memory_cpp.Consolidation.Batch.Selection.{last_cursor, build-Selects, nothing_scanned}

-- A split of the image of a list comes from a split of the list.
record MapSplit {A B : Type 0} (f : A → B) (xs : List A) (ys zs : List B) : Type 0 where
  before : List A
  behind : List A
  split : xs ≡ before ++ behind
  image_before : map f before ≡ ys
  image_behind : map f behind ≡ zs

module _ {A B : Type 0} (f : A → B) where
  cons_parts : (x y : B) (xs ys : List B) → x ∷ xs ≡ y ∷ ys → (x ≡ y) × (xs ≡ ys)
  cons_parts x y xs ys e = (cc, cc)

  nil_not : (x : B) (xs : List B) → [] ≢ x ∷ xs
  nil_not x xs e = cc

  map_split : (xs : List A) (ys zs : List B) → map f xs ≡ ys ++ zs → MapSplit f xs ys zs
  map_split xs [] zs e = record {
    before = [];
    behind = xs;
    split = refl;
    image_before = refl;
    image_behind = e;
  }
  map_split [] (y ∷ ys) zs e = absurd (nil_not y (ys ++ zs) e)
  map_split (x ∷ xs) (y ∷ ys) zs e =
      let (head, tail) = cons_parts (f x) y (map f xs) (ys ++ zs) e in
      let m = map_split xs ys zs tail in
      record {
        before = x ∷ m.before;
        behind = m.behind;
        split = ap (◌∷◌ x) m.split;
        image_before = rw (head, m.image_before);
        image_behind = m.image_behind;
      }

map_nothing : {A B : Type 0} (f : A → B) (xs : List A) → map f xs ≡ [] → xs ≡ []
map_nothing f [] e = refl
map_nothing f (x ∷ xs) e = cc

event_cursor-read_event_row :
    (engine : Engine) (i : ℕ) (row : EventRow)
    → event_cursor i (read_event_row engine row) ≡ to_string row.id
unfolding event_cursor read_event_row
event_cursor-read_event_row engine i row = rw (to_string-IsNonempty row.id)

last_cursor-map :
    (engine : Engine) (i : ℕ) (c : Text) (x : EventRow) (rows : List EventRow)
    → last_cursor i c (map (read_event_row engine) (x ∷ rows)) ≡ to_string (last_id x rows)
last_cursor-map engine i c x [] = event_cursor-read_event_row engine i x
last_cursor-map engine i c x (y ∷ rows) =
    last_cursor-map engine (suc i) (event_cursor i (read_event_row engine x)) y rows

-- The cursor is the number of a row.
abbrev pub IsNumber : Text → Type 0
IsNumber cursor = (id : ℕ) × (cursor ≡ to_string id) × (id < 2 ^ 63)

-- The rows behind the cursor are split into those that the batch has seen and those that the next
-- query returns. Rows are left for that query only by a full batch.
pub record Continues (request : MemoryConsolidationRequest) (engine : Engine) (t : Tables)
    (cursor : Text) : Type 0 where
  pub seen : List EventRow
  pub ahead : List EventRow
  pub split :
      events_after request.agent_id request.session_id cursor request.excluded_session_ids t
      ≡ seen ++ ahead
  pub batch :
      (build request (
        map (read_event_row engine) (
          events_after request.agent_id request.session_id cursor request.excluded_session_ids
            t))).batch.events
      ≡ keep_if (is_eligible request) (map (read_event_row engine) seen)
  pub bounded :
      (is_positive request.max_events ≡ false)
      ⊎ (length (keep_if (is_eligible request) (map (read_event_row engine) seen))
          ≤ to_ℕ request.max_events)
  pub ended :
      (ahead ≡ [])
      ⊎ ((is_positive request.max_events ≡ true)
          × (length (keep_if (is_eligible request) (map (read_event_row engine) seen))
              ≡ to_ℕ request.max_events))
  pub next :
      ((seen ≡ []) × (ahead ≡ []))
      ⊎ ((is_empty seen ≡ false)
          × IsNumber
              (build request (
                map (read_event_row engine) (
                  events_after request.agent_id request.session_id cursor
                    request.excluded_session_ids t))).next_cursor
          × (events_after request.agent_id request.session_id
                (build request (
                  map (read_event_row engine) (
                    events_after request.agent_id request.session_id cursor
                      request.excluded_session_ids t))).next_cursor
                request.excluded_session_ids
                t
              ≡ ahead))

module _ (request : MemoryConsolidationRequest) (engine : Engine) (t : Tables) (cursor : Text) where
  abbrev rows : List EventRow
  rows = events_after request.agent_id request.session_id cursor request.excluded_session_ids t

  abbrev events : List MemoryEvent
  events = map (read_event_row engine) rows

  module _ (ok : IsConsistent t) (ids : t.sequence.events < 2 ^ 63) where
    behind :
        (taken : List MemoryEvent) (seen ahead : List EventRow)
        → map (read_event_row engine) seen ≡ taken
        → rows ≡ seen ++ ahead
        → (build request events).next_cursor ≡ last_cursor 0 [] taken
        → (taken ≡ [] → ahead ≡ [])
        → ((seen ≡ []) × (ahead ≡ []))
          ⊎ ((is_empty seen ≡ false)
              × IsNumber (build request events).next_cursor
              × (events_after request.agent_id request.session_id
                    (build request events).next_cursor
                    request.excluded_session_ids
                    t
                  ≡ ahead))
    behind taken [] ahead image split last ended = inl (refl, ended (sym image))
    behind taken (x ∷ xs) ahead image split last ended =
        let number = last ∙ ap (last_cursor 0 []) (sym image) ∙ last_cursor-map engine 0 [] x xs in
        let le =
          last_id-le request.agent_id request.session_id request.excluded_session_ids cursor t x xs
            ahead ok split in
        inr (
          refl,
          (last_id x xs, number, omega (arith, le, ids)),
          ap
                (λ c.
                  events_after request.agent_id request.session_id c request.excluded_session_ids t)
                number
              ∙ events_after-resume request.agent_id request.session_id request.excluded_session_ids
                  cursor t x xs ahead ok ids split,
        )

  -- If the tables are consistent, fewer than 2^63 events were ever saved, fewer than 2^31 are read, and
  -- the request forces reprocessing or has a positive limit, then the events behind a cursor split into
  -- those that the batch was selected from, which are the eligible ones among them, at most as many as
  -- a positive limit allows, and those that the query from the batch's next cursor returns, of which
  -- there are none unless the limit was reached; or there are no events behind the cursor at all.
  -- Repeated consolidation loses and repeats none.
  pub build-Continues :
      IsConsistent t
      → t.sequence.events < 2 ^ 63
      → length events < 2 ^ 31
      → (request.force_reprocess || is_positive request.max_events) ≡ true
      → Continues request engine t cursor
  build-Continues ok ids small active =
      let s = build-Selects request events small active in
      let m = map_split (read_event_row engine) rows s.taken s.rest s.split in
      let batch = s.kept ∙ ap (keep_if (is_eligible request)) (sym m.image_before) in
      let counted = ap length batch in
      record {
        seen = m.before;
        ahead = m.behind;
        split = m.split;
        batch = batch;
        bounded = elim s.bounded [ inl no_limit ↦ inl no_limit | inr few ↦ inr (rw⁻¹ counted few) ];
        ended = elim s.ended [
          | inl none_left ↦
              inl (map_nothing (read_event_row engine) m.behind (m.image_behind ∙ none_left))
          | inr (positive, full) ↦ inr (positive, sym counted ∙ full)
        ];
        next = behind ok ids s.taken m.before m.behind m.image_before m.split s.cursor (λ e.
            map_nothing (read_event_row engine) m.behind
              (m.image_behind ∙ nothing_scanned request events (build request events) s e));
      }
