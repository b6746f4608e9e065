-- ===== src/Payload/Outcome.antt =====
-- The results of `WritePayload` (src/core/payload_service.cpp).
use agent_memory_cpp.Prelude.{
  ◌≡◌, refl, sym, ap, ◌∙◌, Bool, true, false, Option, none, some, ◌⊎◌, inl, inr, if_either, arith,
  Action, ◌+◌, suc, List, [], ◌∷◌, ◌++◌, map, any, Bool-cases, if◌then◌else◌,
}
use agent_memory_cpp.Text.{Text, codes, text_eq, text_eq_refl}
use agent_memory_cpp.Types.{
  MemoryPayloadRef, MemoryOperationResult, MemoryError, Timestamp, memory_success, failed_with,
}
use agent_memory_cpp.Storage.Tables.{Tables, PayloadRow, c_str}
use agent_memory_cpp.Storage.Engine.{MemorySqliteStore, run_statement, guarded, success_or_failure}
use agent_memory_cpp.Storage.Payloads.{
  save_payload, save_payload_unlocked, upsert_payload, has_ref, replace_payload, update_payload,
  payload_row,
}
use agent_memory_cpp.Payload.Names.{
  MemoryPayloadWriteRequest, MemoryPayloadWriteResult, PayloadService,
}
use agent_memory_cpp.Payload.RoundTrip.{Offloaded, write_payload-IfOffloaded}
use agent_memory_cpp.Payload.Write.{
  write_payload, offload, save_metadata, stays_inline, payload_of, after_file, offload_to,
}

-- A result of a write to the store that has changed no row if it is a failure.
abbrev KeepsRows : {A : Type 0} → (A → Bool) → MemorySqliteStore → A × MemorySqliteStore → Type 0
KeepsRows done before r = done r.0 ≡ false → r.1.tables ≡ before.tables

run_statement-KeepsRows :
    (update : Timestamp → Tables → Tables) (s : MemorySqliteStore)
    → KeepsRows (λ b. b) s (run_statement update s)
unfolding run_statement
run_statement-KeepsRows update s =
    if_either (KeepsRows (λ b. b) s) (s.engine.prepares s.calls) _ _
      (λ prepared.
        if_either (KeepsRows (λ b. b) s) (s.engine.steps (s.calls + 1)) _ _
          (λ stepped h. absurd (ground arith)) (λ broken h. refl))
      (λ refused h. refl)

guarded-KeepsRows :
    (context : Text) (unlocked : Action MemorySqliteStore Bool) (s : MemorySqliteStore)
    → KeepsRows (λ b. b) s (unlocked s)
    → KeepsRows (λ (r : MemoryOperationResult). r.succeeded) s (guarded context unlocked s)
unfolding guarded success_or_failure
guarded-KeepsRows context unlocked s kept =
    if_either (KeepsRows (λ (r : MemoryOperationResult). r.succeeded) s) s.opened _ _
      (λ opened h. kept (undone (unlocked s).0 _ h)) (λ shut h. refl)
  where
    undone :
        (done : Bool) (e : MemoryError)
        → (let r : MemoryOperationResult = if done then memory_success else failed_with e in
            r.succeeded)
          ≡ false
        → done ≡ false
    undone true e h = h
    undone false e h = refl

save_payload_failed :
    (payload : MemoryPayloadRef) (s : MemorySqliteStore)
    → (save_payload payload s).0.succeeded ≡ false
    → (save_payload payload s).1.tables ≡ s.tables
unfolding save_payload save_payload_unlocked
save_payload_failed payload s =
    guarded-KeepsRows (codes "SavePayload") (save_payload_unlocked payload) s
      (run_statement-KeepsRows (upsert_payload payload) s)

-- A saved payload stands in the table, under its reference.
replaced-has_ref :
    (new row : PayloadRow)
    → has_ref new.ref row ≡ true
    → has_ref new.ref (replace_payload new row) ≡ true
unfolding replace_payload update_payload
replaced-has_ref new row h = rw h (text_eq_refl new.ref)

any-replaced :
    (new : PayloadRow) (rows : List PayloadRow)
    → any (has_ref new.ref) rows ≡ true
    → any (has_ref new.ref) (map (replace_payload new) rows) ≡ true
unfolding any
any-replaced new [] h = h
any-replaced new (row ∷ rows) h = elim (Bool-cases (has_ref new.ref row)) [
  | inl e ↦ ground (arith, replaced-has_ref new row e)
  | inr e ↦ ground (arith, h, e, any-replaced new rows)
]

any-appended :
    (new : PayloadRow) (rows : List PayloadRow) → any (has_ref new.ref) (rows ++ new ∷ []) ≡ true
unfolding any
any-appended new [] = ground (arith, text_eq_refl new.ref)
any-appended new (row ∷ rows) = ground (arith, any-appended new rows)

upsert_payload_found :
    (payload : MemoryPayloadRef) (now : Timestamp) (t : Tables)
    → any (has_ref (c_str payload.uri)) (upsert_payload payload now t).payloads ≡ true
unfolding upsert_payload payload_row
upsert_payload_found payload now t =
    let new = payload_row payload (suc t.sequence.payloads) now in
    elim (Bool-cases (any (has_ref (c_str payload.uri)) t.payloads)) [
      | inl e ↦ rw e (any-replaced new t.payloads e)
      | inr e ↦ rw e (any-appended new t.payloads)
    ]

save_payload_found :
    (payload : MemoryPayloadRef) (s : MemorySqliteStore)
    → (save_payload payload s).0.succeeded ≡ true
    → any (has_ref (c_str payload.uri)) (save_payload payload s).1.tables.payloads ≡ true
unfolding save_payload save_payload_unlocked guarded success_or_failure run_statement
save_payload_found payload s h =
    ground (arith, h, upsert_payload_found payload (s.engine.now (s.calls + 1)) s.tables)

abbrev tables_in : Option MemorySqliteStore → Option Tables
tables_in none = none
tables_in (some s) = some s.tables

abbrev pub store_tables : PayloadService → Option Tables
store_tables service = tables_in service.store

-- The tables have a payload with this reference.
abbrev pub lists : Text → Option Tables → Bool
unfolding any c_str text_eq
lists uri none = false
lists uri (some t) = any (has_ref (c_str uri)) t.payloads

-- A result that says that the content was offloaded, with the payload in the store's table; or one
-- that gives the content back, leaves the store's tables as they were, and is a success only where
-- nothing was to be offloaded.
abbrev Reports :
    MemoryPayloadWriteRequest → PayloadService → MemoryPayloadWriteResult × PayloadService → Type 0
Reports request before written =
    ((written.0.offloaded ≡ true)
      × (written.0.succeeded ≡ true)
      × (lists written.0.payload.uri (store_tables written.1) ≡ true))
    ⊎ ((written.0.offloaded ≡ false)
        × (written.0.succeeded ≡ stays_inline request before)
        × (written.0.replacement_content ≡ request.content)
        × (store_tables written.1 ≡ store_tables before))

-- Of these results, the first besides with the content in the file that its reference names.
abbrev pub IsKept :
    MemoryPayloadWriteRequest → PayloadService → MemoryPayloadWriteResult × PayloadService → Type 0
IsKept request before written =
    ((written.0.offloaded ≡ true)
      × (written.0.succeeded ≡ true)
      × (lists written.0.payload.uri (store_tables written.1) ≡ true)
      × Offloaded request written)
    ⊎ ((written.0.offloaded ≡ false)
        × (written.0.succeeded ≡ stays_inline request before)
        × (written.0.replacement_content ≡ request.content)
        × (store_tables written.1 ≡ store_tables before))

module _ (request : MemoryPayloadWriteRequest) (before : PayloadService)
    (long : stays_inline request before ≡ false) where
  save_metadata-Reports :
      (path : Text) (store : MemorySqliteStore) (service : PayloadService)
      → store_tables before ≡ some store.tables
      → Reports request before (save_metadata request path store service)
  unfolding save_metadata lists any
  save_metadata-Reports path store service same =
      if_either (Reports request before) (save_payload (payload_of request path) store).0.succeeded
        _ _ (λ saved. inl (refl, refl, save_payload_found (payload_of request path) store saved))
        (λ failed. inr (
          refl,
          sym long,
          refl,
          ap some (save_payload_failed (payload_of request path) store failed) ∙ sym same,
        ))

  after_file-Reports :
      (path : Text) (store : MemorySqliteStore) (service : PayloadService)
      (failure : Option MemoryError)
      → store_tables before ≡ some store.tables
      → store_tables service ≡ store_tables before
      → Reports request before (after_file request path store service failure)
  unfolding after_file
  after_file-Reports path store service none same held =
      save_metadata-Reports path store service same
  after_file-Reports path store service (some e) same held = inr (refl, sym long, refl, held)

  offload_to-Reports :
      (store : Option MemorySqliteStore)
      → before.store ≡ store
      → Reports request before (offload_to request before store)
  unfolding offload_to offload
  offload_to-Reports none e = inr (refl, sym long, refl, refl)
  offload_to-Reports (some store) e = after_file-Reports _ store _ _ (ap tables_in e) refl

write_payload-Reports :
    (request : MemoryPayloadWriteRequest) (service : PayloadService)
    → Reports request service (write_payload request service)
unfolding write_payload
write_payload-Reports request service =
    if_either (Reports request service) (stays_inline request service) _ _
      (λ short. inr (refl, sym short, refl, refl))
      (λ long. offload_to-Reports request service long service.store refl)

-- A content that is given to WritePayload is not lost, whatever has failed. Either the result says
-- that it was offloaded: then it is a success, the file that its reference names has exactly the
-- content, and the store's table has a payload with this reference. Or the replacement is the content
-- itself and the tables of the store are as they were: then the result is a success if the content
-- was to stay inline, and a failure if it was to be offloaded.
pub write_payload-IsKept :
    (request : MemoryPayloadWriteRequest) (service : PayloadService)
    → IsKept request service (write_payload request service)
write_payload-IsKept request service = elim (write_payload-Reports request service) [
  | inl (offloaded, done, listed) ↦
      inl (offloaded, done, listed, (write_payload-IfOffloaded request service).found offloaded)
  | inr given_back ↦ inr given_back
]
