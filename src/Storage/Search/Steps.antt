-- ===== src/Storage/Search/Steps.antt =====
-- The steps of a search (src/storage/sqlite_store.cpp): what they read and add.
use agent_memory_cpp.Prelude.{Bool, true, false, List, [], map, All, if◌then◌else◌}
use agent_memory_cpp.Prelude.Distinct.{All-append}
use agent_memory_cpp.Prelude.Everywhere.{All-map_to}
use agent_memory_cpp.Text.{Text}
use agent_memory_cpp.Types.{MemorySearchHit}
use agent_memory_cpp.Storage.Tables.{Tables}
use agent_memory_cpp.Storage.Engine.{
  Engine, MemorySqliteStore, Fetched, not_prepared, broken, complete, fetch,
}
use agent_memory_cpp.Storage.Reads.{
  OnlyReads, OnlyReads-trans, fetch-OnlyReads, reads_nothing, FetchedAll, fetch-FetchedAll,
}
use agent_memory_cpp.Storage.Search.Run.{
  Progress, searching, fts_failed, stopped, fts_step, like_step, fts_found, like_found,
}

abbrev pub ProgressAll : (MemorySearchHit → Type 0) → Progress → Type 0
ProgressAll P (searching hits) = All P hits
ProgressAll P fts_failed = Unit
ProgressAll P (stopped hits e) = All P hits

-- A step of a search: it only reads, and adds only hits of which P holds.
pub record StepKeeps (P : MemorySearchHit → Type 0) (s : MemorySqliteStore)
    (r : Progress × MemorySqliteStore) : Type 0 where
  pub reads : OnlyReads s r.1
  pub all : ProgressAll P r.0

module _ {A : Type 0} (P : MemorySearchHit → Type 0) (context : Text) (hit : A → MemorySearchHit)
    (hits : List MemorySearchHit) (t : MemorySqliteStore) where
  fts_found-ProgressAll :
      (found : Fetched A)
      → All P hits
      → FetchedAll (λ row. P (hit row)) found
      → ProgressAll P (fts_found context hit hits t found)
  fts_found-ProgressAll not_prepared h k = h
  fts_found-ProgressAll (broken rows) h k = tt
  fts_found-ProgressAll (complete rows) h k =
      All-append P hits (map hit rows) h (All-map_to P hit rows k)

  like_found-ProgressAll :
      (found : Fetched A)
      → All P hits
      → FetchedAll (λ row. P (hit row)) found
      → ProgressAll P (like_found context hit hits t found)
  like_found-ProgressAll not_prepared h k = h
  like_found-ProgressAll (broken rows) h k =
      All-append P hits (map hit rows) h (All-map_to P hit rows k)
  like_found-ProgressAll (complete rows) h k =
      All-append P hits (map hit rows) h (All-map_to P hit rows k)

module _ {A : Type 0} (P : MemorySearchHit → Type 0) (context : Text) (rows : Tables → List A)
    (hit : Engine → A → MemorySearchHit) (s : MemorySqliteStore)
    (good : All (λ row. P (hit s.engine row)) (rows s.tables)) where
  found_rows : FetchedAll (λ row. P (hit (fetch rows s).1.engine row)) (fetch rows s).0
  found_rows =
      rw (fetch-OnlyReads rows s).engine
        (fetch-FetchedAll (λ row. P (hit s.engine row)) rows s good)

  fts_step-StepKeeps :
      (progress : Progress)
      → ProgressAll P progress
      → StepKeeps P s (fts_step context rows hit progress s)
  unfolding fts_step
  fts_step-StepKeeps (searching hits) h = record {
    reads = fetch-OnlyReads rows s;
    all =
        fts_found-ProgressAll P context (hit (fetch rows s).1.engine) hits (fetch rows s).1
          (fetch rows s).0 h found_rows;
  }
  fts_step-StepKeeps fts_failed h = record { reads = reads_nothing s; all = h }
  fts_step-StepKeeps (stopped hits e) h = record { reads = reads_nothing s; all = h }

  like_step-StepKeeps :
      (progress : Progress)
      → ProgressAll P progress
      → StepKeeps P s (like_step context rows hit progress s)
  unfolding like_step
  like_step-StepKeeps (searching hits) h = record {
    reads = fetch-OnlyReads rows s;
    all =
        like_found-ProgressAll P context (hit (fetch rows s).1.engine) hits (fetch rows s).1
          (fetch rows s).0 h found_rows;
  }
  like_step-StepKeeps fts_failed h = record { reads = reads_nothing s; all = h }
  like_step-StepKeeps (stopped hits e) h = record { reads = reads_nothing s; all = h }

-- A step behind another, told of the state before both.
module _ {A : Type 0} (P : MemorySearchHit → Type 0) (context : Text) (rows : Tables → List A)
    (hit : Engine → A → MemorySearchHit) (s : MemorySqliteStore)
    (good : All (λ row. P (hit s.engine row)) (rows s.tables)) where
  still_good :
      (t : MemorySqliteStore) → OnlyReads s t → All (λ row. P (hit t.engine row)) (rows t.tables)
  still_good t r = rw (r.engine, r.tables) good

  pub fts_step-after :
      (progress : Progress) (t : MemorySqliteStore)
      → StepKeeps P s (progress, t)
      → StepKeeps P s (fts_step context rows hit progress t)
  fts_step-after progress t before =
      let here =
        fts_step-StepKeeps P context rows hit t (still_good t before.reads) progress before.all in
      record { reads = OnlyReads-trans before.reads here.reads; all = here.all }

  pub like_step-after :
      (progress : Progress) (t : MemorySqliteStore)
      → StepKeeps P s (progress, t)
      → StepKeeps P s (like_step context rows hit progress t)
  like_step-after progress t before =
      let here =
        like_step-StepKeeps P context rows hit t (still_good t before.reads) progress before.all in
      record { reads = OnlyReads-trans before.reads here.reads; all = here.all }

pub nothing_yet :
    (P : MemorySearchHit → Type 0) (s : MemorySqliteStore) → StepKeeps P s (searching [], s)
nothing_yet P s = record { reads = reads_nothing s; all = tt }

pub either_step :
    (P : MemorySearchHit → Type 0) (s : MemorySqliteStore) (b : Bool)
    (x y : Progress × MemorySqliteStore)
    → StepKeeps P s x
    → StepKeeps P s y
    → StepKeeps P s (if b then x else y)
either_step P s true x y hx hy = hx
either_step P s false x y hx hy = hy
