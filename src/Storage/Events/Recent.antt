-- ===== src/Storage/Events/Recent.antt =====
-- What `LoadRecentEvents` (src/storage/sqlite_store.cpp) gives of the history.
use agent_memory_cpp.Prelude.{
  ℕ, zero, suc, ◌≤◌, ◌≡◌, ◌⊎◌, inl, inr, refl, sym, ap, ◌∙◌, List, [], ◌∷◌, ◌++◌, map, reverse,
  take, keep_if, length, length-append, length-take-le, arith, true,
}
use mathlib.Core.List.{reverse-append, reverse-reverse, reverse-cons, reverse_aux}
use agent_memory_cpp.Prelude.Int.{ℤ}
use agent_memory_cpp.Text.{Text}
use agent_memory_cpp.Storage.Tables.{Tables, EventRow}
use agent_memory_cpp.Storage.Engine.{MemorySqliteStore}
use agent_memory_cpp.Storage.Cursors.RoundTrip.{CanRead}
use agent_memory_cpp.Storage.Events.{
  is_in_session, effective_limit, recent_events, load_recent_events, read_event_row, loaded,
}

abbrev drop {ℓ} : {A : Type ℓ} → ℕ → List A → List A
drop zero xs = xs
drop (suc n) [] = []
drop (suc n) (x ∷ xs) = drop n xs

module _ {A : Type 0} where
  take-drop : (n : ℕ) (xs : List A) → take n xs ++ drop n xs ≡ xs
  unfolding take
  take-drop zero xs = refl
  take-drop (suc n) [] = refl
  take-drop (suc n) (x ∷ xs) = ap (◌∷◌ x) (take-drop n xs)

  -- Only a full prefix leaves anything out.
  drop-cases : (n : ℕ) (xs : List A) → (drop n xs ≡ []) ⊎ (length (take n xs) ≡ n)
  unfolding take
  drop-cases zero xs = inr refl
  drop-cases (suc n) [] = inl refl
  drop-cases (suc n) (x ∷ xs) = ground (arith, drop-cases n xs)

  length-reverse : (xs : List A) → length (reverse xs) ≡ length xs
  length-reverse [] = refl
  length-reverse (x ∷ xs) =
      ap length (reverse-cons x xs)
      ∙ omega (arith, length-append (reverse xs) (x ∷ []), length-reverse xs)

  reverse-is_empty : (xs : List A) → xs ≡ [] → reverse xs ≡ []
  reverse-is_empty xs e = ap reverse e

-- The end of a list: not more than n elements, and all of them unless there are n.
pub record IsEnd {A : Type 0} (n : ℕ) (end all : List A) : Type 0 where
  pub before : List A
  pub split : all ≡ before ++ end
  pub bounded : length end ≤ n
  pub whole : (before ≡ []) ⊎ (length end ≡ n)

IsEnd-of : {A : Type 0} (n : ℕ) (xs : List A) → IsEnd n (reverse (take n (reverse xs))) xs
IsEnd-of n xs = record {
  before = reverse (drop n (reverse xs));
  split =
      sym (reverse-reverse xs)
      ∙ ap reverse (sym (take-drop n (reverse xs)))
      ∙ reverse-append (take n (reverse xs)) (drop n (reverse xs));
  bounded = omega (arith, length-reverse (take n (reverse xs)), length-take-le n (reverse xs));
  whole = elim (drop-cases n (reverse xs)) [
    | inl e ↦ inl (reverse-is_empty (drop n (reverse xs)) e)
    | inr e ↦ inr (length-reverse (take n (reverse xs)) ∙ e)
  ];
}

map-reverse_aux :
    {A B : Type 0} (f : A → B) (xs ys : List A)
    → map f (reverse_aux xs ys) ≡ reverse_aux (map f xs) (map f ys)
map-reverse_aux f [] ys = refl
map-reverse_aux f (x ∷ xs) ys = map-reverse_aux f xs (x ∷ ys)

-- The events of an agent, and of a session unless that is empty, in the order in which they came.
abbrev pub history : Text → Text → Tables → List EventRow
history agent session t =
    keep_if (λ row. is_in_session agent session row.agent_id row.session_id) t.events

loads :
    (agent session : Text) (limit : ℤ) (s : MemorySqliteStore)
    → CanRead s
    → (load_recent_events agent session limit s).0
      ≡ loaded (
          reverse (
            map
              (read_event_row s.engine)
              (take (effective_limit limit 20) (reverse (history agent session s.tables)))))
unfolding load_recent_events recent_events
loads agent session limit s can = ground arith

-- On an open store, where its query runs to its end, `LoadRecentEvents` succeeds with the end of the
-- history of the agent, and of the session unless that is empty, in its order: as many events as the
-- limit, or 20 where the limit is not positive, or else the whole history.
pub load_recent_events-IsEnd :
    (agent session : Text) (limit : ℤ) (s : MemorySqliteStore)
    → CanRead s
    → let r = (load_recent_events agent session limit s).0 in
      (r.succeeded ≡ true)
      × (rows : List EventRow) × (r.events ≡ map (read_event_row s.engine) rows)
      × IsEnd (effective_limit limit 20) rows (history agent session s.tables)
load_recent_events-IsEnd agent session limit s can =
    let n = effective_limit limit 20 in
    let rows = reverse (take n (reverse (history agent session s.tables))) in
    rw (loads agent session limit s can) (
      refl,
      rows,
      sym (
          map-reverse_aux (read_event_row s.engine)
            (take n (reverse (history agent session s.tables))) []),
      IsEnd-of n (history agent session s.tables),
    )
