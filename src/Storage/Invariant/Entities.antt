-- ===== src/Storage/Invariant/Entities.antt =====
-- `SaveEntity` of src/storage/sqlite_store.cpp and the invariant of the entity table.
use agent_memory_cpp.Prelude.{◌≡◌, true, false, List, arith, All, any, inl, inr, Bool-cases}
use agent_memory_cpp.Prelude.Distinct.{
  Distinct, Distinct-append, Distinct-map, Distinct-map_key, any-false, All-map, All-of, All-both,
}
use agent_memory_cpp.Text.{Text, text_eq, text_eq_iff}
use agent_memory_cpp.Types.{MemoryEntity, Timestamp}
use agent_memory_cpp.Storage.Tables.{Tables, EntityRow, is_empty-c_str}
use agent_memory_cpp.Storage.Engine.{Engine}
use agent_memory_cpp.Storage.Entities.{
  on_entities, obsolete_duplicate, obsolete_entity, is_unnamed, entity_row, replace_entity,
  upsert_entity, write_entity,
}
use agent_memory_cpp.Storage.Invariant.{same_id, same_entity, IsConsistent}

-- A change that makes some rows inactive and leaves their keys alone.
pub record Retires (f : EntityRow → EntityRow) : Type 0 where
  pub id : (row : EntityRow) → (f row).id ≡ row.id
  pub agent_id : (row : EntityRow) → (f row).agent_id ≡ row.agent_id
  pub kind : (row : EntityRow) → (f row).kind ≡ row.kind
  pub name : (row : EntityRow) → (f row).name ≡ row.name
  pub active : (row : EntityRow) → (f row).active ≡ true → row.active ≡ true

pub obsolete_duplicate-Retires :
    (entity : MemoryEntity) (now : Timestamp) → Retires (obsolete_duplicate entity now)
unfolding obsolete_duplicate
obsolete_duplicate-Retires entity now = record {
  id = λ row. ground arith;
  agent_id = λ row. ground arith;
  kind = λ row. ground arith;
  name = λ row. ground arith;
  active = λ row h. ground arith;
}

pub obsolete_entity-Retires :
    (entity_id by : Text) (now : Timestamp) → Retires (obsolete_entity entity_id by now)
unfolding obsolete_entity
obsolete_entity-Retires entity_id by now = record {
  id = λ row. ground arith;
  agent_id = λ row. ground arith;
  kind = λ row. ground arith;
  name = λ row. ground arith;
  active = λ row h. ground arith;
}

module _ {f : EntityRow → EntityRow} (r : Retires f) where
  same_id-Retires : (x y : EntityRow) → same_id x y ≡ false → same_id (f x) (f y) ≡ false
  same_id-Retires x y e = rw (r.id x, r.id y) e

  same_entity-Retires :
      (x y : EntityRow) → same_entity x y ≡ false → same_entity (f x) (f y) ≡ false
  same_entity-Retires x y e =
      rw (r.id x, r.agent_id x, r.kind x, r.name x, r.id y, r.agent_id y, r.kind y, r.name y)
        (ground (arith, r.active x, r.active y))

  pub on_entities-IsConsistent : (t : Tables) → IsConsistent t → IsConsistent (on_entities f t)
  on_entities-IsConsistent t v = record {
    events_ascend = v.events_ascend;
    refs_distinct = v.refs_distinct;
    ids_distinct = Distinct-map same_id f t.entities same_id-Retires v.ids_distinct;
    entities_distinct =
        Distinct-map same_entity f t.entities same_entity-Retires v.entities_distinct;
    relations_distinct = v.relations_distinct;
    cursors_distinct = v.cursors_distinct;
  }

-- The rows of other ids do not clash with the new one.
abbrev pub Yields : EntityRow → EntityRow → Type 0
Yields new row = same_id row new ≡ false → same_entity row new ≡ false

same_entity_sym : (x y : EntityRow) → same_entity x y ≡ false → same_entity y x ≡ false
same_entity_sym x y e = ground (
  arith,
  text_eq_iff x.agent_id y.agent_id,
  text_eq_iff x.kind y.kind,
  text_eq_iff x.name y.name,
  text_eq_iff y.agent_id x.agent_id,
  text_eq_iff y.kind x.kind,
  text_eq_iff y.name x.name,
)

module _ (new : EntityRow) where
  id-replace_entity : (row : EntityRow) → (replace_entity new row).id ≡ row.id
  unfolding replace_entity
  id-replace_entity row = ground (arith, text_eq_iff row.id new.id)

  replace_entity-keeps :
      (x y : EntityRow)
      → same_id x y ≡ false
      → same_entity x y ≡ false
      → Yields new x
      → Yields new y
      → same_entity (replace_entity new x) (replace_entity new y) ≡ false
  unfolding replace_entity
  replace_entity-keeps x y k e p q = ground (
    arith,
    text_eq_iff x.id new.id,
    text_eq_iff y.id new.id,
    text_eq_iff x.id y.id,
    same_entity_sym y new,
  )

  upsert_entity-ids :
      (rows : List EntityRow) → Distinct same_id rows → Distinct same_id (upsert_entity new rows)
  unfolding upsert_entity
  upsert_entity-ids rows d = elim (Bool-cases (any (λ row. text_eq row.id new.id) rows)) [
    | inl known ↦ rw known (
        Distinct-map same_id (replace_entity new) rows
          (λ x y e. rw (id-replace_entity x, id-replace_entity y) e) d)
    | inr fresh ↦ rw fresh (Distinct-append same_id rows new d (any-false _ rows fresh))
  ]

  upsert_entity-Distinct :
      (rows : List EntityRow)
      → Distinct same_id rows
      → Distinct same_entity rows
      → All (Yields new) rows
      → Distinct same_entity (upsert_entity new rows)
  unfolding upsert_entity
  upsert_entity-Distinct rows ids d yields =
      elim (Bool-cases (any (λ row. text_eq row.id new.id) rows)) [
        | inl known ↦ rw known (
            Distinct-map_key (Yields new) same_id same_entity (replace_entity new) rows
              replace_entity-keeps ids d yields)
        | inr fresh ↦ rw fresh (
            Distinct-append same_entity rows new d (
              All-both (Yields new) (λ row. same_id row new ≡ false)
                (λ row. same_entity row new ≡ false) rows (λ row p e. p e) yields
                (any-false _ rows fresh)))
      ]

module _ (engine : Engine) (entity : MemoryEntity) where
  abbrev pub AllYield : Tables → Type 0
  AllYield t = All (Yields (entity_row engine entity 0)) t.entities

  -- Once its duplicates are obsolete, or if it lacks a part of the key, an entity clashes with none.
  obsolete_duplicate-Yields :
      (now : Timestamp) (row : EntityRow)
      → Yields (entity_row engine entity 0) (obsolete_duplicate entity now row)
  unfolding obsolete_duplicate entity_row
  obsolete_duplicate-Yields now row e = ground arith

  pub obsolete_duplicates-AllYield :
      (now : Timestamp) (t : Tables) → AllYield (on_entities (obsolete_duplicate entity now) t)
  obsolete_duplicates-AllYield now t =
      All-map (Yields (entity_row engine entity 0)) (obsolete_duplicate entity now) t.entities
        (All-of _ t.entities (obsolete_duplicate-Yields now))

  unnamed-Yields :
      (row : EntityRow) → is_unnamed entity ≡ true → Yields (entity_row engine entity 0) row
  unfolding entity_row
  unnamed-Yields row h e = ground (
    arith,
    is_empty-c_str entity.id,
    is_empty-c_str entity.agent_id,
    is_empty-c_str entity.entity_type,
    is_empty-c_str entity.name,
  )

  pub unnamed-AllYield : (t : Tables) → is_unnamed entity ≡ true → AllYield t
  unnamed-AllYield t h = All-of _ t.entities (λ row. unnamed-Yields row h)

  pub write_entity-IsConsistent :
      (now : Timestamp) (t : Tables)
      → IsConsistent t
      → AllYield t
      → IsConsistent (write_entity engine entity now t)
  write_entity-IsConsistent now t v yields =
      let new = entity_row engine entity now in
      let ids = upsert_entity-ids new t.entities v.ids_distinct in
      let entities =
        upsert_entity-Distinct new t.entities v.ids_distinct v.entities_distinct
          (unfold entity_row in yields) in
      unfold write_entity in
      record {
        events_ascend = v.events_ascend;
        refs_distinct = v.refs_distinct;
        ids_distinct = ids;
        entities_distinct = entities;
        relations_distinct = v.relations_distinct;
        cursors_distinct = v.cursors_distinct;
      }
