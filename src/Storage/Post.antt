-- ===== src/Storage/Post.antt =====
-- What holds after an unlocked method of src/storage/sqlite_store.cpp: one predicate where it returns
-- true and one where it returns false.
use agent_memory_cpp.Prelude.{
  ℕ, ◌+◌, ◌≡◌, refl, ◌∙◌, Bool, true, false, Action, inl, inr, Bool-cases, if◌then◌else◌,
}
use agent_memory_cpp.Types.{Timestamp}
use agent_memory_cpp.Storage.Tables.{Tables}
use agent_memory_cpp.Storage.Engine.{MemorySqliteStore, run_statement}
use agent_memory_cpp.Storage.Entities.{◌and_then◌}

abbrev pub Post :
    (MemorySqliteStore → Type 0) → (MemorySqliteStore → Type 0) → Bool × MemorySqliteStore → Type 0
Post Q F (true, t) = Q t
Post Q F (false, t) = F t

module _ (Q F : MemorySqliteStore → Type 0) where
  -- A statement is carried out once, or changes nothing but the number of calls.
  pub run_statement-Post :
      (update : Timestamp → Tables → Tables) (s : MemorySqliteStore)
      → ((now : Timestamp) (calls : ℕ)
          → Q (record s { tables = update now s.tables; calls = calls }))
      → ((calls : ℕ) → F (record s { calls = calls }))
      → Post Q F (run_statement update s)
  unfolding run_statement
  run_statement-Post update s done failed = elim (Bool-cases (s.engine.prepares s.calls)) [
    | inl p ↦ rw p (elim (Bool-cases (s.engine.steps (s.calls + 1))) [
      | inl q ↦ rw q (done (s.engine.now (s.calls + 1)) (s.calls + 2))
      | inr q ↦ rw q (failed (s.calls + 2))
    ])
    | inr p ↦ rw p (failed (s.calls + 1))
  ]

  pub Post-either :
      (r : Bool × MemorySqliteStore) {P : MemorySqliteStore → Type 0}
      → ((t : MemorySqliteStore) → Q t → P t)
      → ((t : MemorySqliteStore) → F t → P t)
      → Post Q F r
      → P r.1
  Post-either (true, t) f g h = f t h
  Post-either (false, t) f g h = g t h

pub and_then-Post :
    (Q R F : MemorySqliteStore → Type 0) (m n : Action MemorySqliteStore Bool)
    (s : MemorySqliteStore)
    → Post Q F (m s)
    → ((t : MemorySqliteStore) → Q t → Post R F (n t))
    → Post R F ((m and_then n) s)
and_then-Post Q R F m n s hm hn = continue (m s) hm
  where
    continue :
        (r : Bool × MemorySqliteStore) → Post Q F r → Post R F (if r.0 then n r.1 else (false, r.1))
    continue (true, t) h = hn t h
    continue (false, t) h = h

-- The parts of the store that no statement touches.
pub record SameFrame (s t : MemorySqliteStore) : Type 0 where
  pub engine : t.engine ≡ s.engine
  pub opened : t.opened ≡ s.opened
  pub saved : t.saved ≡ s.saved

pub SameFrame-refl : (s : MemorySqliteStore) → SameFrame s s
SameFrame-refl s = record { engine = refl; opened = refl; saved = refl }

pub SameFrame-trans : {s t u : MemorySqliteStore} → SameFrame s t → SameFrame t u → SameFrame s u
SameFrame-trans f g = record {
  engine = g.engine ∙ f.engine;
  opened = g.opened ∙ f.opened;
  saved = g.saved ∙ f.saved;
}
