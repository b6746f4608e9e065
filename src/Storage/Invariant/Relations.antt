-- ===== src/Storage/Invariant/Relations.antt =====
-- `SaveRelation` of src/storage/sqlite_store.cpp and the invariant of the relation table.
use agent_memory_cpp.Prelude.{suc, ◌≡◌, false, arith, All}
use agent_memory_cpp.Prelude.Distinct.{Distinct, Distinct-append, Distinct-map, All-map, All-of}
use agent_memory_cpp.Types.{MemoryRelation, Timestamp}
use agent_memory_cpp.Storage.Tables.{Tables, RelationRow}
use agent_memory_cpp.Storage.Engine.{Engine}
use agent_memory_cpp.Storage.Relations.{
  obsolete_relation, obsolete_relations, relation_row, insert_relation,
}
use agent_memory_cpp.Storage.Invariant.{same_relation, IsConsistent}

module _ (relation : MemoryRelation) where
  -- An update that makes rows inactive lets no two rows clash.
  obsolete-keeps :
      (now : Timestamp) (x y : RelationRow)
      → same_relation x y ≡ false
      → same_relation (obsolete_relation relation now x) (obsolete_relation relation now y) ≡ false
  unfolding obsolete_relation
  obsolete-keeps now x y e = ground arith

  pub obsolete_relations-IsConsistent :
      (now : Timestamp) (t : Tables)
      → IsConsistent t
      → IsConsistent (obsolete_relations relation now t)
  obsolete_relations-IsConsistent now t v =
      let relations =
        Distinct-map same_relation (obsolete_relation relation now) t.relations (obsolete-keeps now)
          v.relations_distinct in
      unfold obsolete_relations in
      record {
        events_ascend = v.events_ascend;
        refs_distinct = v.refs_distinct;
        ids_distinct = v.ids_distinct;
        entities_distinct = v.entities_distinct;
        relations_distinct = relations;
        cursors_distinct = v.cursors_distinct;
      }

  -- No active row says what the new one says.
  abbrev pub IsFree : Engine → Tables → Type 0
  IsFree engine t =
      All (λ row. same_relation row (relation_row engine relation 0 0) ≡ false) t.relations

  obsolete-is_free :
      (engine : Engine) (now : Timestamp) (row : RelationRow)
      → same_relation (obsolete_relation relation now row) (relation_row engine relation 0 0)
        ≡ false
  unfolding obsolete_relation relation_row
  obsolete-is_free engine now row = ground arith

  pub obsolete_relations-IsFree :
      (engine : Engine) (now : Timestamp) (t : Tables)
      → IsFree engine (obsolete_relations relation now t)
  unfolding obsolete_relations
  obsolete_relations-IsFree engine now t =
      All-map _ (obsolete_relation relation now) t.relations
        (All-of _ t.relations (obsolete-is_free engine now))

  insert_relation-Distinct :
      (engine : Engine) (now : Timestamp) (t : Tables)
      → Distinct same_relation t.relations
      → IsFree engine t
      → Distinct same_relation (insert_relation engine relation now t).relations
  unfolding insert_relation
  insert_relation-Distinct engine now t d free =
      Distinct-append same_relation t.relations
        (relation_row engine relation (suc t.sequence.relations) now) d free

  pub insert_relation-IsConsistent :
      (engine : Engine) (now : Timestamp) (t : Tables)
      → IsConsistent t
      → IsFree engine t
      → IsConsistent (insert_relation engine relation now t)
  insert_relation-IsConsistent engine now t v free =
      let relations = insert_relation-Distinct engine now t v.relations_distinct free in
      unfold insert_relation in
      record {
        events_ascend = v.events_ascend;
        refs_distinct = v.refs_distinct;
        ids_distinct = v.ids_distinct;
        entities_distinct = v.entities_distinct;
        relations_distinct = relations;
        cursors_distinct = v.cursors_distinct;
      }
