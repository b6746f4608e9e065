-- ===== src/Storage/Reads.antt =====
-- The queries of src/storage/sqlite_store.cpp and what they leave of the store.
use agent_memory_cpp.Prelude.{
  ℕ, ◌+◌, ◌≡◌, refl, ◌∙◌, Bool, true, false, Option, none, some, List, All, inl, inr, Bool-cases,
  if◌then◌else◌,
}
use agent_memory_cpp.Prelude.Everywhere.{All-take}
use agent_memory_cpp.Storage.Tables.{Tables}
use agent_memory_cpp.Storage.Engine.{
  MemorySqliteStore, fetch, Fetched, not_prepared, broken, complete, fetched_rows,
}

-- A step that only reads.
pub record OnlyReads (s t : MemorySqliteStore) : Type 0 where
  pub tables : t.tables ≡ s.tables
  pub saved : t.saved ≡ s.saved
  pub engine : t.engine ≡ s.engine

pub fetch-OnlyReads :
    {A : Type 0} (rows : Tables → List A) (s : MemorySqliteStore) → OnlyReads s (fetch rows s).1
unfolding fetch
fetch-OnlyReads rows s = elim (Bool-cases (s.engine.prepares s.calls)) [
  | inl p ↦ rw p (record { tables = refl; saved = refl; engine = refl })
  | inr p ↦ rw p (record { tables = refl; saved = refl; engine = refl })
]

pub either_read :
    {A : Type 0} (b : Bool) (s : MemorySqliteStore) (x y : A × MemorySqliteStore)
    → OnlyReads s x.1
    → OnlyReads s y.1
    → OnlyReads s (if b then x else y).1
either_read true s x y hx hy = hx
either_read false s x y hx hy = hy

pub reads_nothing : (s : MemorySqliteStore) → OnlyReads s s
reads_nothing s = record { tables = refl; saved = refl; engine = refl }

pub OnlyReads-trans : {s t u : MemorySqliteStore} → OnlyReads s t → OnlyReads t u → OnlyReads s u
OnlyReads-trans a b = record {
  tables = b.tables ∙ a.tables;
  saved = b.saved ∙ a.saved;
  engine = b.engine ∙ a.engine;
}

-- The rows that a query has given, completely or not.
abbrev pub FetchedAll {κ} : {A : Type 0} → (A → Type κ) → Fetched A → Type κ
FetchedAll P not_prepared = Unit
FetchedAll P (broken rows) = All P rows
FetchedAll P (complete rows) = All P rows

pub fetch-FetchedAll {κ} :
    {A : Type 0} (P : A → Type κ) (rows : Tables → List A) (s : MemorySqliteStore)
    → All P (rows s.tables)
    → FetchedAll P (fetch rows s).0
unfolding fetch
fetch-FetchedAll P rows s h = elim (Bool-cases (s.engine.prepares s.calls)) [
  | inr p ↦ rw p tt
  | inl p ↦ rw p (given (s.engine.breaks_after (s.calls + 1)))
]
  where
    given : (o : Option ℕ) → FetchedAll P (fetched_rows o (rows s.tables))
    given none = h
    given (some k) = All-take P k (rows s.tables) h

pub fetch_prepared :
    {A : Type 0} (rows : Tables → List A) (s : MemorySqliteStore)
    → s.engine.prepares s.calls ≡ true
    → fetch rows s ≡ (
      fetched_rows (s.engine.breaks_after (s.calls + 1)) (rows s.tables),
      record s { calls = s.calls + 2 },
    )
unfolding fetch
fetch_prepared rows s h = rw h
